-- ===== src/ChainFs/Volume/Blank.antt =====
-- The volume that the shell formats has the root's entry, free blocks and nothing else.
use pizda.Prelude.{
  ℕ, zero, suc, ◌+◌, ◌-◌, ◌*◌, ◌^◌, ◌≤◌, ◌<◌, ◌≡◌, ◌≢◌, refl, sym, ap, ◌∙◌, arith, inl, inr, true,
  false, Bool, ℕ-cases, lt→ltb, List,
}
use mathlib.Core.Path.{subst}
use pizda.Pata.{Sector}
use pizda.ChainFs.{ChainFs, Superblock, entries_per_block, get32, map_sector, map_offset}
use pizda.ChainFs.Fields.{put8_ne, put32_ne, get32-put32_self}
use pizda.ChainFs.Map.{IsMounted, InMap, next_of, sector, map_sector-exact, map_sector-lt}
use pizda.ChainFs.Map.Search.{free_count, data_blocks}
use pizda.ChainFs.Volume.{formatted, cleared, root_entry, chainfs_format}
use pizda.ChainFs.Volume.Mount.{chainfs_format-run, chainfs_format-IsMounted}
use pizda.ChainFs.Table.{entry_at, is_in, is_unused}
use pizda.ChainFs.Table.Lookup.{InTable, IsNew}

-- The root's entry is the first of the table, and all that the table and the map hold is zero.
pub record IsBlank (fs : ChainFs) : Type 0 where
  pub mounted : IsMounted fs
  pub current_dir_block : fs.current_dir_block ≡ 0
  pub table_pos : 1 ≤ fs.superblock.file_table_block_count
  pub zeroed : Sector
  pub zeros : (j : ℕ) → j < 512 → zeroed j ≡ 0
  pub root : sector fs 1 ≡ root_entry zeroed
  pub rest : (k : ℕ) → 2 ≤ k → k < fs.data_area_start → sector fs k ≡ zeroed

root_entry-behind : (s : Sector) (x : ℕ) → 44 ≤ x → root_entry s x ≡ s x
unfolding root_entry
root_entry-behind s x le =
    put32_ne _ 40 _ x (inr (omega arith))
    ∙ put32_ne _ 36 _ x (inr (omega arith))
    ∙ put32_ne _ 32 _ x (inr (omega arith))
    ∙ put8_ne _ 3 _ x (omega arith)
    ∙ put8_ne _ 2 _ x (omega arith)
    ∙ put8_ne _ 1 _ x (omega arith)
    ∙ put8_ne s 0 _ x (omega arith)

-- The parent of the root's entry is the end marker.
root_entry-parent : (s : Sector) → get32 (root_entry s) 40 ≢ 0
unfolding root_entry
root_entry-parent s e = absurd (omega (arith, e, get32-put32_self _ 40 0xFFFFFFFF))

map_offset-lt : (i : ℕ) → map_offset i + 3 < 512
unfolding map_offset
map_offset-lt i = omega arith

module _ (fs : ChainFs) (b : IsBlank fs) where
  status-zero :
      (k j : ℕ)
      → InTable fs k
      → j < entries_per_block
      → 1 < k + j
      → (entry_at (sector fs k) j).status ≡ 0
  unfolding entry_at
  status-zero k j (lo, hi) lt later = elim (ℕ-cases k 1) [
    | inl e ↦
        subst (λ x. sector fs x (60 * j) ≡ 0) (sym e)
          (ap (λ (s : Sector). s (60 * j)) b.root
            ∙ root_entry-behind b.zeroed (60 * j) (omega arith)
            ∙ b.zeros (60 * j) (omega arith))
    | inr ne ↦
        ap (λ (s : Sector). s (60 * j)) (b.rest k (omega arith) (omega (arith, b.mounted.areas)))
        ∙ b.zeros (60 * j) (omega arith)
  ]

  pub second_unused : is_unused (entry_at (sector fs 1) 1) ≡ true
  second_unused =
      let zero_status =
        status-zero 1 1 (omega arith, omega (arith, b.table_pos)) (omega arith) (omega arith) in
      rw zero_status

  root_parent : (entry_at (sector fs 1) 0).parent_block ≢ 0
  unfolding entry_at
  root_parent e = root_entry-parent b.zeroed (ap (λ (s : Sector). get32 s 40) (sym b.root) ∙ e)

  not_in_root :
      (k j : ℕ) → InTable fs k → j < entries_per_block → is_in 0 (entry_at (sector fs k) j) ≡ false
  not_in_root k j t lt = elim (ℕ-cases (k + j) 1) [
    | inr later ↦ rw (status-zero k j t lt (omega arith)) refl
    | inl first ↦
        let at : k ≡ 1 = omega arith in
        let offset : j ≡ 0 = omega arith in
        let parent : (entry_at (sector fs k) j).parent_block ≢ 0 = rw (at, offset) root_parent in
        ground (arith, parent)
  ]

  pub blank-IsNew : (name : List ℕ) → IsNew 0 name fs
  blank-IsNew name k j t lt = rw (not_in_root k j t lt)

  next_of-zero : (i : ℕ) → InMap fs i → next_of fs i ≡ 0
  unfolding next_of get32
  next_of-zero i h =
      let exact = map_sector-exact fs b.mounted i h in
      let below = map_sector-lt fs b.mounted i h in
      let here : sector fs (map_sector i fs) ≡ b.zeroed =
        b.rest (map_sector i fs) (omega (arith, exact, b.table_pos)) below in
      let offset = map_offset-lt i in
      rw (
        here,
        b.zeros (map_offset i) (omega (arith, offset)),
        b.zeros (map_offset i + 1) (omega (arith, offset)),
        b.zeros (map_offset i + 2) (omega (arith, offset)),
        b.zeros (map_offset i + 3) (omega (arith, offset)),
      )

free_count-all :
    (rounds i : ℕ) (next : ℕ → ℕ)
    → ((j : ℕ) → i ≤ j → j < i + rounds → next j ≡ 0)
    → free_count rounds i next ≡ rounds
unfolding free_count
free_count-all zero i next h = refl
free_count-all (suc rounds) i next h =
    let here = h i (omega arith) (omega arith) in
    rw (here, free_count-all rounds (i + 1) next (λ j lo hi. h j (omega arith) (omega arith)))
      (omega arith)

pub blank-free_count :
    (fs : ChainFs) (b : IsBlank fs) (v : IsMounted fs)
    → free_count (data_blocks fs v) 0 (next_of fs) ≡ fs.superblock.block_count - fs.data_area_start
blank-free_count fs b v =
    free_count-all (fs.superblock.block_count - fs.data_area_start) 0 (next_of fs)
      (λ j lo hi. next_of-zero fs b j (omega (arith, v.covered)))

-- A format with at most 2^28 blocks and files, whose areas fit in the blocks, and with one file at
-- least leaves such a volume.
pub chainfs_format-IsBlank :
    (total_blocks max_files : ℕ) (fs : ChainFs)
    → total_blocks ≤ 2 ^ 28
    → max_files ≤ 2 ^ 28
    → 1
        + (formatted total_blocks max_files).file_table_block_count
        + (formatted total_blocks max_files).block_map_block_count
      ≤ total_blocks
    → 1 ≤ (formatted total_blocks max_files).file_table_block_count
    → IsBlank (chainfs_format total_blocks max_files fs).0
chainfs_format-IsBlank total_blocks max_files fs small few fit table =
    let (all, first, second, rest, run) =
      chainfs_format-run total_blocks max_files small few fit fs in
    let (done, sb, dir, mounted) =
      chainfs_format-IsMounted total_blocks max_files small few fit fs in
    let same : (k : ℕ) → sector (chainfs_format total_blocks max_files fs).0 k ≡ sector all k =
      λ k. ap (λ (r : ChainFs × Bool). sector r.0 k) run in
    let ends : (chainfs_format total_blocks max_files fs).0.data_area_start
        ≡ 1
          + (formatted total_blocks max_files).file_table_block_count
          + (formatted total_blocks max_files).block_map_block_count =
      mounted.areas
      ∙ ap (λ (b : Superblock). 1 + b.file_table_block_count + b.block_map_block_count) sb in
    record {
      mounted = mounted;
      current_dir_block = dir;
      table_pos = rw sb table;
      zeroed = cleared fs.sector_buffer;
      zeros = λ j lt. rw (lt→ltb j 512 lt) refl;
      root = same 1 ∙ second table;
      rest = λ k lo hi. same k ∙ rest k lo (omega (arith, ends));
    }
