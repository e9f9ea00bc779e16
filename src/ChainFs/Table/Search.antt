-- ===== src/ChainFs/Table/Search.antt =====
-- The searches of the file table when no entry passes the test, and when one does.
use pizda.Prelude.{
  ℕ, ◌+◌, ◌-◌, ◌*◌, inl, inr, arith, ℕ-cases, Bool-cases, ltb, ◌≤◌, ◌<◌, ◌≡◌, sym, ap, ◌∙◌, Option,
  some, none, true, false, List,
}
use pizda.Pata.{Sector}
use pizda.ChainFs.{ChainFs, chainfs_magic, entries_per_block}
use pizda.ChainFs.Map.{IsMounted, buffered, sector}
use pizda.ChainFs.Table.{
  entry_at, Found, Test, is_unused, is_named, chainfs_find_free_file_entry,
  chainfs_find_in_directory,
}
use pizda.ChainFs.Table.Find.{
  FirstEntry, chainfs_find_free_file_entry-FirstEntry, chainfs_find_in_directory-FirstEntry,
}
use pizda.ChainFs.Table.Lookup.{InTable, IsNew}

pub buffered-IsMounted : (fs : ChainFs) (b : Sector) → IsMounted fs → IsMounted (buffered fs b)
buffered-IsMounted fs b v = record {
  addressable = v.addressable;
  areas = v.areas;
  fits = v.fits;
  covered = v.covered;
}

-- A search that every entry fails.
not_found :
    (high : ℕ) (test : Test) (fs : ChainFs) (r : ChainFs × Option Found)
    → ((b j : ℕ)
        → (1 ≤ b) × (b < high)
        → j < entries_per_block
        → test (entry_at (sector fs b) j) ≡ false)
    → FirstEntry 1 high test fs r
    → (s : Sector) × (r ≡ (buffered fs s, none))
unfolding FirstEntry
not_found high test fs (fs', none) miss (same, _) = (fs'.sector_buffer, (λ i. (same i, none)))
not_found high test fs (fs', some f) miss (same, lo, hi, lt, entry, hit, _, _) =
    let no = miss f.block f.offset (lo, hi) lt in
    let yes' = ap test (sym entry) ∙ hit in absurd (cc)

-- The number of an entry in the table.
abbrev pub entry_number : ℕ → ℕ → ℕ
entry_number block offset = entries_per_block * (block - 1) + offset

-- An entry that passes is not before the first that does.
not_before :
    (test : Test) (fs : ChainFs) (block offset : ℕ) (f : Found)
    → 1 ≤ block
    → 1 ≤ f.block
    → offset < entries_per_block
    → f.offset < entries_per_block
    → test (entry_at (sector fs block) offset) ≡ true
    → ((b j : ℕ)
        → 1 ≤ b
        → b < f.block
        → j < entries_per_block
        → test (entry_at (sector fs b) j) ≡ false)
    → ((j : ℕ) → j < f.offset → test (entry_at (sector fs f.block) j) ≡ false)
    → entry_number f.block f.offset ≤ entry_number block offset
not_before test fs block offset f lo flo lt flt hit sectors slots =
    elim (Bool-cases (ltb block f.block)) [
      | inl before ↦ let no = sectors block offset lo (ground arith) lt in absurd (cc)
      | inr le ↦ elim (ℕ-cases block f.block) [
        | inr ne ↦ ground arith
        | inl e ↦ elim (Bool-cases (ltb offset f.offset)) [
          | inr ge ↦ ground arith
          | inl before ↦
              let no =
                ap (λ (k : ℕ). test (entry_at (sector fs k) offset)) e
                ∙ slots offset (ground arith) in
              absurd (cc)
        ]
      ]
    ]

-- A search that one entry passes.
some_found :
    (high : ℕ) (test : Test) (fs : ChainFs) (block offset : ℕ) (r : ChainFs × Option Found)
    → (1 ≤ block) × (block < high)
    → offset < entries_per_block
    → test (entry_at (sector fs block) offset) ≡ true
    → FirstEntry 1 high test fs r
    → (s : Sector) × (f : Found) × (r ≡ (buffered fs s, some f))
      × ((1 ≤ f.block) × (f.block < high))
      × (f.offset < entries_per_block)
      × (test (entry_at (sector fs f.block) f.offset) ≡ true)
      × (entry_number f.block f.offset ≤ entry_number block offset)
unfolding FirstEntry
some_found high test fs block offset (fs', none) t lt hit (same, miss) =
    let no = miss block offset (t.0) (t.1) lt in absurd (cc)
some_found high test fs block offset (fs', some f) t lt hit
      (same, lo, hi, flt, entry, fhit, before, here) =
    (
      fs'.sector_buffer,
      f,
      (λ i. (same i, some f)),
      (lo, hi),
      flt,
      ap test (sym entry) ∙ fhit,
      not_before test fs block offset f (t.0) lo lt flt hit before here,
    )

-- No entry of the table has the name in the current directory.
pub name_not_found :
    (fs : ChainFs)
    → IsMounted fs
    → (name : List ℕ) → IsNew fs.current_dir_block name fs
    → (s : Sector) × (chainfs_find_in_directory fs.current_dir_block name fs
        ≡ (buffered fs s, none))
name_not_found fs v name new =
    let dir = fs.current_dir_block in
    not_found (1 + fs.superblock.file_table_block_count) (is_named dir name) fs
      (chainfs_find_in_directory dir name fs) new
      (chainfs_find_in_directory-FirstEntry fs v dir name)

-- An entry of the table is unused: the first such is found, which is not behind the given one.
pub entry_found :
    (fs : ChainFs)
    → IsMounted fs
    → (block offset : ℕ) → fs.superblock.magic ≡ chainfs_magic
    → InTable fs block
    → offset < entries_per_block
    → is_unused (entry_at (sector fs block) offset) ≡ true
    → (s : Sector) × (f : Found) × (chainfs_find_free_file_entry fs ≡ (buffered fs s, some f))
      × InTable fs f.block
      × (f.offset < entries_per_block)
      × (is_unused (entry_at (sector fs f.block) f.offset) ≡ true)
      × (entry_number f.block f.offset ≤ entry_number block offset)
entry_found fs v block offset magic t lt unused =
    some_found (1 + fs.superblock.file_table_block_count) is_unused fs block offset
      (chainfs_find_free_file_entry fs) t lt unused
      (chainfs_find_free_file_entry-FirstEntry fs v magic)
