-- ===== src/ChainFs.antt =====
-- ChainFS, src/kernel/drivers/fs/chainFS: the state `g_chainfs` with the disk behind it, the fields
-- of a sector, and the block map. The calls of `com1_printf` are left out. A state is passed
-- through every call, `sector_buffer` included, since the buffer is part of it.
pub mod Fields
pub mod Map
pub mod Data
pub mod Volume
pub mod Table
pub mod Paths
pub mod Files
pub mod Layout
mod Examples
use pizda.Prelude.{
  ℕ, zero, suc, ◌+◌, ◌-◌, ◌*◌, ◌/◌, ◌%◌, ◌^◌, Option, none, some, Bool, true, false, ◌&&◌, not,
  ◌==◌, leb, ltb, if◌then◌else◌, add32, sub32, two32, length, List, [], ◌∷◌, ◌++◌,
}
use pizda.Pata.{Sector, Disk, pata_read_sector, pata_write_sector}

abbrev pub chainfs_magic : ℕ
chainfs_magic = 0xCAFEBABE

abbrev pub block_size : ℕ
block_size = 512

abbrev pub eof_marker : ℕ
eof_marker = 0xFFFFFFFF

abbrev pub free_block : ℕ
free_block = 0

abbrev pub type_file : ℕ
type_file = 0

abbrev pub type_dir : ℕ
type_dir = 1

-- CHAINFS_BLOCK_SIZE / sizeof(chainfs_file_entry_t), which is 512 / 60
abbrev pub entries_per_block : ℕ
entries_per_block = 8

-- CHAINFS_BLOCK_SIZE / sizeof(u32)
abbrev pub map_entries_per_block : ℕ
map_entries_per_block = 128

-- chainfs_superblock_t, less its padding
pub record Superblock : Type 0 where
  pub magic : ℕ
  pub block_count : ℕ
  pub file_table_block_count : ℕ
  pub block_map_block_count : ℕ
  pub total_files : ℕ
  pub root_dir_block : ℕ

-- chainfs_t, and the disk
pub record ChainFs : Type 0 where
  pub superblock : Superblock
  pub data_area_start : ℕ
  pub current_dir_block : ℕ
  pub sector_buffer : Sector
  pub disk : Disk

-- chainfs_file_entry_t: `name` is the memory from the name on.
pub record FileEntry : Type 0 where
  pub status : ℕ
  pub type_ : ℕ
  pub name : ℕ → ℕ
  pub size : ℕ
  pub start_block : ℕ
  pub parent_block : ℕ

-- A little-endian u32 at the offset `o`.
unfoldable pub get32 : Sector → ℕ → ℕ
get32 s o = s o + 2 ^ 8 * s (o + 1) + 2 ^ 16 * s (o + 2) + 2 ^ 24 * s (o + 3)

unfoldable pub put8 : Sector → ℕ → ℕ → Sector
put8 s o v x = if x == o then v else s x

unfoldable pub put32 : Sector → ℕ → ℕ → Sector
put32 s o v =
    put8 (put8 (put8 (put8 s o (v % 256)) (o + 1) (v / 2 ^ 8 % 256)) (o + 2) (v / 2 ^ 16 % 256))
      (o + 3) (v / 2 ^ 24 % 256)

unfoldable pub read_sector : ℕ → ChainFs → ChainFs
read_sector lba fs = record fs { sector_buffer = pata_read_sector lba fs.disk }

unfoldable pub write_sector : ℕ → ChainFs → ChainFs
write_sector lba fs = record fs { disk = pata_write_sector lba fs.sector_buffer fs.disk }

-- The sector of the block map that holds an entry.
unfoldable pub map_sector : ℕ → ChainFs → ℕ
map_sector index fs =
    add32 (add32 1 fs.superblock.file_table_block_count) (index / map_entries_per_block)

unfoldable pub map_offset : ℕ → ℕ
map_offset index = 4 * (index % map_entries_per_block)

-- `map_block >= block_map_block_count`
unfoldable pub out_of_map : ℕ → ChainFs → Bool
out_of_map index fs = leb fs.superblock.block_map_block_count (index / map_entries_per_block)

-- The result is `*next_block`, or `none` for a return value other than 0.
unfoldable pub chainfs_read_block_map_entry : ℕ → ChainFs → ChainFs × Option ℕ
chainfs_read_block_map_entry index fs =
    let loaded = read_sector (map_sector index fs) fs in
    if out_of_map index fs
    then (fs, none)
    else (loaded, some (get32 loaded.sector_buffer (map_offset index)))

unfoldable pub chainfs_write_block_map_entry : ℕ → ℕ → ChainFs → ChainFs × Bool
chainfs_write_block_map_entry index next fs =
    let loaded = read_sector (map_sector index fs) fs in
    let edited = record loaded {
      sector_buffer = put32 loaded.sector_buffer (map_offset index) next;
    } in
    if out_of_map index fs then (fs, false) else (write_sector (map_sector index fs) edited, true)

-- The read succeeded, and the block is free.
unfoldable pub reads_free : Option ℕ → Bool
reads_free none = false
reads_free (some next) = next == free_block

-- The loop of `chainfs_find_free_blocks`: `rounds` values of `i` are left, `found` blocks wanted.
unfoldable pub find_free_loop : ℕ → ℕ → ℕ → ChainFs → ChainFs × List ℕ
find_free_loop zero i wanted fs = (fs, [])
find_free_loop (suc rounds) i zero fs = (fs, [])
find_free_loop (suc rounds) i (suc wanted) fs =
    let (fs', entry) = chainfs_read_block_map_entry i fs in
    let taken = find_free_loop rounds (i + 1) wanted fs' in
    let skipped = find_free_loop rounds (i + 1) (suc wanted) fs' in
    if reads_free entry then (taken.0, i ∷ taken.1) else skipped

-- `blocks` with the result 0, or `none` for -1.
unfoldable pub chainfs_find_free_blocks : ℕ → ChainFs → ChainFs × Option (List ℕ)
chainfs_find_free_blocks count fs =
    let rounds = sub32 fs.superblock.block_count fs.data_area_start in
    let (fs', found) = find_free_loop rounds 0 count fs in
    (fs', if length found == count then some found else none)

-- `chainfs_free_block_chain`; the fuel bounds the rounds, and `none` says that it ran out.
unfoldable pub chainfs_free_block_chain : ℕ → ℕ → ChainFs → Option ChainFs
chainfs_free_block_chain zero current fs = none
chainfs_free_block_chain (suc fuel) current fs =
    let (fs1, entry) = chainfs_read_block_map_entry current fs in
    let (fs2, written) = chainfs_write_block_map_entry current free_block fs1 in
    let rest : Option ChainFs = elim entry [
      | none ↦ some fs1
      | some next ↦ chainfs_free_block_chain fuel next fs2
    ] in
    if current == eof_marker then some fs else rest
