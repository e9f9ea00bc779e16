-- ===== src/ChainFs/Volume.antt =====
-- Mounting and formatting: `chainfs_init` and `chainfs_format` of chainfs.c.
pub mod Mount
pub mod Sectors
pub mod Blank
use pizda.Prelude.{
  ℕ, zero, suc, ◌+◌, ◌-◌, ◌*◌, ◌/◌, Bool, true, false, ◌==◌, ltb, if◌then◌else◌, add32, sub32,
}
use pizda.Pata.{Sector}
use pizda.ChainFs.{
  Superblock, ChainFs, chainfs_magic, block_size, eof_marker, type_dir, entries_per_block,
  map_entries_per_block, get32, put8, put32, read_sector, write_sector,
}

-- `*(chainfs_superblock_t *)g_chainfs.sector_buffer`
unfoldable pub get_superblock : Sector → Superblock
get_superblock s = record {
  magic = get32 s 0;
  block_count = get32 s 4;
  file_table_block_count = get32 s 8;
  block_map_block_count = get32 s 12;
  total_files = get32 s 16;
  root_dir_block = get32 s 20;
}

unfoldable pub put_superblock : Superblock → Sector → Sector
put_superblock sb s =
    put32
      (put32
        (put32 (put32 (put32 (put32 s 0 sb.magic) 4 sb.block_count) 8 sb.file_table_block_count) 12
          sb.block_map_block_count)
        16 sb.total_files)
      20 sb.root_dir_block

unfoldable pub chainfs_init : ChainFs → ChainFs × Bool
chainfs_init fs =
    let loaded = read_sector 0 fs in
    let sb = get_superblock loaded.sector_buffer in
    if sb.magic == chainfs_magic
    then (
      record loaded {
        superblock = sb;
        data_area_start = add32 (add32 1 sb.file_table_block_count) sb.block_map_block_count;
        current_dir_block = sb.root_dir_block;
      },
      true,
    )
    else (loaded, false)

-- `(count + per_block - 1) / per_block`
unfoldable pub blocks_for : ℕ → ℕ → ℕ
blocks_for count per_block = sub32 (add32 count per_block) 1 / per_block

unfoldable pub formatted : ℕ → ℕ → Superblock
formatted total_blocks max_files =
    let file_table_blocks = blocks_for max_files entries_per_block in
    let data_blocks = sub32 (sub32 total_blocks 1) file_table_blocks in
    record {
      magic = chainfs_magic;
      block_count = total_blocks;
      file_table_block_count = file_table_blocks;
      block_map_block_count = blocks_for data_blocks map_entries_per_block;
      total_files = max_files;
      root_dir_block = 0;
    }

abbrev pub cleared : Sector → Sector
cleared s j = if ltb j block_size then 0 else s j

-- `for (block = first; block < first + count; block++) pata_write_sector(block, sector_buffer);`
unfoldable pub write_sectors : ℕ → ℕ → ChainFs → ChainFs
write_sectors zero first fs = fs
write_sectors (suc count) first fs = write_sectors count (suc first) (write_sector first fs)

unfoldable pub root_entry : Sector → Sector
root_entry s =
    put32 (put32 (put32 (put8 (put8 (put8 (put8 s 0 1) 1 type_dir) 2 47) 3 0) 32 0) 36 0) 40
      eof_marker

abbrev pub set_buffer : Sector → ChainFs → ChainFs
set_buffer s fs = record fs { sector_buffer = s }

-- `sb` is written to its 24 bytes and 488 of padding, all of them zero.
unfoldable pub chainfs_format : ℕ → ℕ → ChainFs → ChainFs × Bool
chainfs_format total_blocks max_files fs =
    let sb = formatted total_blocks max_files in
    let zeroed = cleared fs.sector_buffer in
    let headed = write_sector 0 (set_buffer (put_superblock sb zeroed) fs) in
    let rooted = write_sector 1 (set_buffer (root_entry zeroed) headed) in
    let map_start = add32 1 sb.file_table_block_count in
    let map_end = add32 map_start sb.block_map_block_count in
    let tabled = write_sectors (map_start - 2) 2 (set_buffer zeroed rooted) in
    chainfs_init (write_sectors (map_end - map_start) map_start tabled)
