-- ===== src/ChainFs/Layout.antt =====
-- Only `chainfs_init` and `chainfs_format` change the superblock in memory and the start of the data
-- area: the lemmas for the operations on the map, the table and the data.
pub mod Names
pub mod Contents
use pizda.Prelude.{
  ℕ, zero, suc, ◌+◌, ◌-◌, ◌≡◌, refl, sym, ap, ◌∙◌, Option, some, none, Option-cases, Bool, true,
  false, Bool-cases, inl, inr, ◌==◌, leb, ltb, ◌&&◌, not, List, [], ◌∷◌, length, IfSome, IfSome-map,
}
use pizda.Pata.{Sector}
use pizda.ChainFs.{
  Superblock, ChainFs, entries_per_block, eof_marker, free_block, read_sector, write_sector,
  out_of_map, reads_free, chainfs_read_block_map_entry, chainfs_write_block_map_entry,
  find_free_loop, chainfs_find_free_blocks, chainfs_free_block_chain,
}
use pizda.ChainFs.Table.{
  Found, Test, is_formatted, find_slot, found_in, find_entry, table_rounds,
  chainfs_find_free_file_entry, chainfs_find_in_directory, list_blocks, edit_entry,
}

-- The superblock in memory, and the start of the data area.
abbrev pub layout : ChainFs → Superblock × ℕ
layout fs = (fs.superblock, fs.data_area_start)

-- The state that comes with a result has the layout of `fs`.
abbrev pub Unchanged {ℓ} : {A : Type ℓ} → ChainFs → ChainFs × A → Type 0
Unchanged fs r = layout r.0 ≡ layout fs

read_sector-layout : (k : ℕ) (fs : ChainFs) → layout (read_sector k fs) ≡ layout fs
unfolding read_sector
read_sector-layout k fs = refl

pub write_sector-layout : (k : ℕ) (fs : ChainFs) → layout (write_sector k fs) ≡ layout fs
unfolding write_sector
write_sector-layout k fs = refl

pub read_block_map_entry-layout :
    (i : ℕ) (fs : ChainFs) → Unchanged fs (chainfs_read_block_map_entry i fs)
unfolding chainfs_read_block_map_entry read_sector
read_block_map_entry-layout i fs = elim (Bool-cases (out_of_map i fs)) [
  | inl e ↦ rw e
  | inr e ↦ rw e
]

pub write_block_map_entry-layout :
    (i next : ℕ) (fs : ChainFs) → Unchanged fs (chainfs_write_block_map_entry i next fs)
unfolding chainfs_write_block_map_entry read_sector write_sector
write_block_map_entry-layout i next fs = elim (Bool-cases (out_of_map i fs)) [
  | inl e ↦ rw e
  | inr e ↦ rw e
]

find_free_loop-layout :
    (rounds i wanted : ℕ) (fs : ChainFs) → Unchanged fs (find_free_loop rounds i wanted fs)
unfolding find_free_loop
find_free_loop-layout zero i wanted fs = refl
find_free_loop-layout (suc rounds) i zero fs = refl
find_free_loop-layout (suc rounds) i (suc wanted) fs =
    let r = chainfs_read_block_map_entry i fs in
    let read = read_block_map_entry-layout i fs in
    elim (Bool-cases (reads_free r.1)) [
      | inl e ↦ rw e (find_free_loop-layout rounds (i + 1) wanted r.0 ∙ read)
      | inr e ↦ rw e (find_free_loop-layout rounds (i + 1) (suc wanted) r.0 ∙ read)
    ]

pub find_free_blocks-layout :
    (count : ℕ) (fs : ChainFs) → Unchanged fs (chainfs_find_free_blocks count fs)
unfolding chainfs_find_free_blocks
find_free_blocks-layout count fs = find_free_loop-layout _ 0 count fs

pub free_block_chain-layout :
    (fuel current : ℕ) (fs : ChainFs)
    → IfSome (λ r. layout r ≡ layout fs) (chainfs_free_block_chain fuel current fs)
unfolding chainfs_free_block_chain
free_block_chain-layout zero current fs = tt
free_block_chain-layout (suc fuel) current fs =
    let r = chainfs_read_block_map_entry current fs in
    let w = chainfs_write_block_map_entry current free_block r.0 in
    let read = read_block_map_entry-layout current fs in
    let written : layout w.0 ≡ layout fs =
      write_block_map_entry-layout current free_block r.0 ∙ read in
    elim (Bool-cases (current == eof_marker)) [
      | inl e ↦ rw e refl
      | inr e ↦ rw e (elim (Option-cases r.1) [
        | inl absent ↦ rw absent read
        | inr (next, present) ↦ rw present (
            IfSome-map (λ g. layout g ≡ layout fs) (chainfs_free_block_chain fuel next w.0)
              (λ g h. h ∙ written) (free_block_chain-layout fuel next w.0))
      ])
    ]

found_in-layout :
    (block : ℕ) (fs loaded : ChainFs) (rest : ChainFs × Option Found) (o : Option ℕ)
    → layout loaded ≡ layout fs
    → Unchanged fs rest
    → Unchanged fs (found_in block loaded rest o)
found_in-layout block fs loaded rest none h k = k
found_in-layout block fs loaded rest (some i) h k = h

find_entry-layout :
    (rounds block : ℕ) (test : Test) (fs : ChainFs) → Unchanged fs (find_entry rounds block test fs)
unfolding find_entry
find_entry-layout zero block test fs = refl
find_entry-layout (suc rounds) block test fs =
    let loaded = read_sector block fs in
    let read = read_sector-layout block fs in
    found_in-layout block fs loaded (find_entry rounds (suc block) test loaded)
      (find_slot entries_per_block 0 test loaded.sector_buffer) read
      (find_entry-layout rounds (suc block) test loaded ∙ read)

pub find_free_file_entry-layout : (fs : ChainFs) → Unchanged fs (chainfs_find_free_file_entry fs)
unfolding chainfs_find_free_file_entry
find_free_file_entry-layout fs = elim (Bool-cases (is_formatted fs)) [
  | inl e ↦ rw e (find_entry-layout _ 1 _ fs)
  | inr e ↦ rw e refl
]

pub find_in_directory-layout :
    (dir : ℕ) (name : List ℕ) (fs : ChainFs) → Unchanged fs (chainfs_find_in_directory dir name fs)
unfolding chainfs_find_in_directory
find_in_directory-layout dir name fs = find_entry-layout _ 1 _ fs

pub list_blocks-layout :
    (rounds block wanted dir : ℕ) (fs : ChainFs)
    → Unchanged fs (list_blocks rounds block wanted dir fs)
unfolding list_blocks
list_blocks-layout zero block wanted dir fs = refl
list_blocks-layout (suc rounds) block zero dir fs = refl
list_blocks-layout (suc rounds) block (suc wanted) dir fs =
    list_blocks-layout rounds (suc block) _ dir (read_sector block fs) ∙ read_sector-layout block fs

pub edit_entry-layout :
    (block : ℕ) (edit : Sector → Sector) (fs : ChainFs)
    → layout (edit_entry block edit fs) ≡ layout fs
unfolding edit_entry read_sector write_sector
edit_entry-layout block edit fs = refl
