-- ===== src/ChainFs/Volume/Mount.antt =====
-- A formatted disk is mounted as it was laid out.
use pizda.Prelude.{
  ℕ, ◌+◌, ◌-◌, ◌*◌, ◌%◌, ◌^◌, ◌≤◌, ◌<◌, ◌≡◌, refl, sym, ◌∙◌, arith, words, two32, inl, inr,
  Bool-cases, ltb, ltb→lt, not_ltb→le, true, ==_eq, add32, sub32,
}
use mathlib.Core.Path.{subst}
use pizda.Pata.{Sector}
use pizda.ChainFs.{
  ChainFs, Superblock, chainfs_magic, map_entries_per_block, get32, put32, read_sector,
  write_sector,
}
use pizda.ChainFs.Fields.{get32-put32_self, get32-put32_ne}
use pizda.ChainFs.Map.{IsMounted, sector}
use pizda.ChainFs.Volume.Sectors.{
  sector-write_sector, sector-write_sector_self, write_sectors-sector, write_sectors-buffer,
  write_sectors-sector_in,
}
use pizda.ChainFs.Volume.{
  get_superblock, put_superblock, blocks_for, formatted, write_sectors, chainfs_init,
  chainfs_format, cleared, set_buffer, root_entry,
}

-- The numbers of a superblock are words of 32 bits.
pub record IsWords (sb : Superblock) : Type 0 where
  pub magic : sb.magic < two32
  pub block_count : sb.block_count < two32
  pub file_table_block_count : sb.file_table_block_count < two32
  pub block_map_block_count : sb.block_map_block_count < two32
  pub total_files : sb.total_files < two32
  pub root_dir_block : sb.root_dir_block < two32

word_read : (s : Sector) (o v : ℕ) → v < two32 → get32 (put32 s o v) o ≡ v
word_read s o v h = let small : v % two32 ≡ v = omega arith in get32-put32_self s o v ∙ small

word_kept : (s : Sector) (o v o' : ℕ) → o' + 4 ≤ o → get32 (put32 s o v) o' ≡ get32 s o'
word_kept s o v o' le = get32-put32_ne s o o' v (inl le)

-- A superblock of 32-bit fields is read back from the sector that it is written to.
pub get_superblock-put_superblock :
    (sb : Superblock) (s : Sector) → IsWords sb → get_superblock (put_superblock sb s) ≡ sb
unfolding get_superblock put_superblock
get_superblock-put_superblock sb s w =
    let s0 = put32 s 0 sb.magic in
    let s1 = put32 s0 4 sb.block_count in
    let s2 = put32 s1 8 sb.file_table_block_count in
    let s3 = put32 s2 12 sb.block_map_block_count in
    let s4 = put32 s3 16 sb.total_files in
    let past5 = word_kept s4 20 sb.root_dir_block in
    let past4 = word_kept s3 16 sb.total_files in
    let past3 = word_kept s2 12 sb.block_map_block_count in
    let past2 = word_kept s1 8 sb.file_table_block_count in
    let past1 = word_kept s0 4 sb.block_count in
    let a0 =
      past5 0 (omega arith)
      ∙ past4 0 (omega arith)
      ∙ past3 0 (omega arith)
      ∙ past2 0 (omega arith)
      ∙ past1 0 (omega arith)
      ∙ word_read s 0 sb.magic w.magic in
    let a1 =
      past5 4 (omega arith)
      ∙ past4 4 (omega arith)
      ∙ past3 4 (omega arith)
      ∙ past2 4 (omega arith)
      ∙ word_read s0 4 sb.block_count w.block_count in
    let a2 =
      past5 8 (omega arith)
      ∙ past4 8 (omega arith)
      ∙ past3 8 (omega arith)
      ∙ word_read s1 8 sb.file_table_block_count w.file_table_block_count in
    let a3 =
      past5 12 (omega arith)
      ∙ past4 12 (omega arith)
      ∙ word_read s2 12 sb.block_map_block_count w.block_map_block_count in
    let a4 = past5 16 (omega arith) ∙ word_read s3 16 sb.total_files w.total_files in
    let a5 = word_read s4 20 sb.root_dir_block w.root_dir_block in rw (a0, a1, a2, a3, a4, a5)

-- Mounting a disk whose first sector holds a superblock takes over its fields.
init-reads :
    (sb : Superblock) (s : Sector) (fs : ChainFs)
    → IsWords sb
    → sb.magic ≡ chainfs_magic
    → sector fs 0 ≡ put_superblock sb s
    → chainfs_init fs ≡ (
      record fs {
        sector_buffer = put_superblock sb s;
        superblock = sb;
        data_area_start = add32 (add32 1 sb.file_table_block_count) sb.block_map_block_count;
        current_dir_block = sb.root_dir_block;
      },
      true,
    )
unfolding chainfs_init read_sector
init-reads sb s fs w m h =
    rw (h, get_superblock-put_superblock sb s w, ==_eq sb.magic chainfs_magic m)

blocks_for-covers :
    (n : ℕ) → n ≤ 2 ^ 28 → n ≤ blocks_for n map_entries_per_block * map_entries_per_block
unfolding blocks_for
blocks_for-covers n h = omega words

module _ (total_blocks max_files : ℕ) (small : total_blocks ≤ 2 ^ 28) (few : max_files ≤ 2 ^ 28)
    (fit : 1
        + (formatted total_blocks max_files).file_table_block_count
        + (formatted total_blocks max_files).block_map_block_count
      ≤ total_blocks) where
  abbrev sb : Superblock
  sb = formatted total_blocks max_files

  sb-IsWords : IsWords sb
  sb-IsWords = record {
    magic = unfold formatted in omega words;
    block_count = unfold formatted in omega (words, small);
    file_table_block_count = omega (words, small, fit);
    block_map_block_count = omega (words, small, fit);
    total_files = unfold formatted in omega (words, few);
    root_dir_block = unfold formatted in omega words;
  }

  sb-magic : sb.magic ≡ chainfs_magic
  unfolding formatted
  sb-magic = refl

  sb-root_dir_block : sb.root_dir_block ≡ 0
  unfolding formatted
  sb-root_dir_block = refl

  sb-block_count : sb.block_count ≡ total_blocks
  unfolding formatted
  sb-block_count = refl

  sb-map :
      sb.block_map_block_count
      ≡ blocks_for (sub32 (sub32 total_blocks 1) sb.file_table_block_count) map_entries_per_block
  unfolding formatted
  sb-map = refl

  -- The map has an entry for each block of the data area.
  sb-covered :
      total_blocks
      ≤ 1
        + sb.file_table_block_count
        + sb.block_map_block_count
        + sb.block_map_block_count * map_entries_per_block
  sb-covered =
      let blocks = sub32 (sub32 total_blocks 1) sb.file_table_block_count in
      let exact : blocks ≡ total_blocks - 1 - sb.file_table_block_count =
        omega (words, small, fit) in
      let enough : blocks ≤ sb.block_map_block_count * map_entries_per_block =
        subst (λ m. blocks ≤ m * map_entries_per_block) (sym sb-map)
          (blocks_for-covers blocks (omega (arith, exact, small))) in
      omega (arith, exact, enough)

  abbrev map_start : ℕ
  map_start = add32 1 sb.file_table_block_count

  -- The state that `chainfs_format` mounts: the superblock in the first sector, the root's entry in
  -- the second, if it is one of the table, and zeros in the rest of the table and in the map.
  pub chainfs_format-run :
      (fs : ChainFs)
      → (all : ChainFs) × (sector all 0 ≡ put_superblock sb (cleared fs.sector_buffer))
        × (1 ≤ sb.file_table_block_count → sector all 1 ≡ root_entry (cleared fs.sector_buffer))
        × ((k : ℕ)
            → 2 ≤ k
            → k < 1 + sb.file_table_block_count + sb.block_map_block_count
            → sector all k ≡ cleared fs.sector_buffer)
        × (chainfs_format total_blocks max_files fs ≡ (
          record all {
            sector_buffer = put_superblock sb (cleared fs.sector_buffer);
            superblock = sb;
            data_area_start = add32 map_start sb.block_map_block_count;
            current_dir_block = sb.root_dir_block;
          },
          true,
        ))
  unfolding chainfs_format
  chainfs_format-run fs =
      let zeroed = cleared fs.sector_buffer in
      let headed = write_sector 0 (set_buffer (put_superblock sb zeroed) fs) in
      let rooted = write_sector 1 (set_buffer (root_entry zeroed) headed) in
      let map_end = add32 map_start sb.block_map_block_count in
      let tabled = write_sectors (map_start - 2) 2 (set_buffer zeroed rooted) in
      let start : map_start ≡ 1 + sb.file_table_block_count = omega (words, small, fit) in
      let finish : map_end ≡ 1 + sb.file_table_block_count + sb.block_map_block_count =
        omega (words, small, fit) in
      let all = write_sectors (map_end - map_start) map_start tabled in
      let first : sector all 0 ≡ put_superblock sb zeroed =
        write_sectors-sector (map_end - map_start) map_start 0 tabled (omega (arith, start))
          (omega (arith, start, finish, small, fit))
        ∙ write_sectors-sector (map_start - 2) 2 0 (set_buffer zeroed rooted) (omega arith)
            (omega (arith, start, small, fit))
        ∙ sector-write_sector 1 0 (set_buffer (root_entry zeroed) headed) (omega arith)
            (omega arith)
        ∙ sector-write_sector_self 0 (set_buffer (put_superblock sb zeroed) fs) in
      let second : 1 ≤ sb.file_table_block_count → sector all 1 ≡ root_entry zeroed = λ le.
        write_sectors-sector (map_end - map_start) map_start 1 tabled (omega (arith, start))
          (omega (arith, start, finish, small, fit))
        ∙ write_sectors-sector (map_start - 2) 2 1 (set_buffer zeroed rooted) (omega arith)
            (omega (arith, start, small, fit))
        ∙ sector-write_sector_self 1 (set_buffer (root_entry zeroed) headed) in
      let rest : (k : ℕ)
          → 2 ≤ k
          → k < 1 + sb.file_table_block_count + sb.block_map_block_count
          → sector all k ≡ zeroed =
        λ k lo hi. elim (Bool-cases (ltb k map_start)) [
          | inl below ↦
              let lt = ltb→lt k map_start below in
              write_sectors-sector (map_end - map_start) map_start k tabled lt
                (omega (arith, start, finish, small, fit))
              ∙ write_sectors-sector_in (map_start - 2) 2 k (set_buffer zeroed rooted) lo
                  (omega arith) (omega (arith, start, small, fit))
          | inr above ↦
              let le = not_ltb→le k map_start above in
              write_sectors-sector_in (map_end - map_start) map_start k tabled le
                (omega (arith, start, finish)) (omega (arith, start, finish, small, fit))
              ∙ write_sectors-buffer (map_start - 2) 2 (set_buffer zeroed rooted)
        ] in
      (all, first, second, rest, init-reads sb zeroed all sb-IsWords sb-magic first)

  -- Formatting with at most 2^28 blocks and files whose areas fit in the blocks succeeds, and leaves the disk mounted with the
  -- superblock of its sizes and the root as the current directory.
  pub chainfs_format-IsMounted :
      (fs : ChainFs)
      → ((chainfs_format total_blocks max_files fs).1 ≡ true)
        × ((chainfs_format total_blocks max_files fs).0.superblock ≡ sb)
        × ((chainfs_format total_blocks max_files fs).0.current_dir_block ≡ 0)
        × IsMounted (chainfs_format total_blocks max_files fs).0
  chainfs_format-IsMounted fs =
      let (all, _, _, _, run) = chainfs_format-run fs in
      let finish : add32 map_start sb.block_map_block_count
          ≡ 1 + sb.file_table_block_count + sb.block_map_block_count =
        omega (words, small, fit) in
      rw run (
        refl,
        refl,
        sb-root_dir_block,
        record {
          addressable = omega (arith, small, sb-block_count);
          areas = finish;
          fits = omega (arith, finish, fit, sb-block_count);
          covered = omega (arith, finish, sb-covered, sb-block_count);
        },
      )
