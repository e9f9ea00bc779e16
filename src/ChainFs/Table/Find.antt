-- ===== src/ChainFs/Table/Find.antt =====
-- What the searches of the file table find.
use pizda.Prelude.{
  ℕ, zero, suc, ◌+◌, ◌≤◌, ◌<◌, ◌≡◌, refl, ap, arith, Option, some, none, Option-cases, inl, inr,
  true, false, Bool-cases, ℕ-cases, List, words, ◌≢◌, ◌↔◌, All, ==_eq, ==_ne,
}
use mathlib.Core.Path.{subst}
use pizda.Pata.{Sector}
use pizda.Mlibc.Strings.{Holds, is_zero-strcmp}
use pizda.ChainFs.{ChainFs, FileEntry, chainfs_magic, entries_per_block, read_sector}
use pizda.ChainFs.Map.{IsMounted, buffered, sector}
use pizda.ChainFs.Table.{
  entry_at, Found, Test, find_slot, found_in, find_entry, table_rounds, is_unused, is_named,
  chainfs_find_free_file_entry, chainfs_find_in_directory,
}

-- `find_slot` gives the first index whose entry passes the test.
FirstSlot : ℕ → ℕ → Test → Sector → Option ℕ → Type 0
FirstSlot low high test s none = (j : ℕ) → low ≤ j → j < high → test (entry_at s j) ≡ false
FirstSlot low high test s (some i) =
    (low ≤ i)
    × (i < high)
    × (test (entry_at s i) ≡ true)
    × ((j : ℕ) → low ≤ j → j < i → test (entry_at s j) ≡ false)

FirstSlot-step :
    (low high : ℕ) (test : Test) (s : Sector) (r : Option ℕ)
    → test (entry_at s low) ≡ false
    → FirstSlot (suc low) high test s r
    → FirstSlot low high test s r
unfolding FirstSlot
FirstSlot-step low high test s none h f =
    λ j le lt. elim (ℕ-cases j low) [ inl e ↦ rw e h | inr ne ↦ f j (omega arith) lt ]
FirstSlot-step low high test s (some i) h (le, lt, hit, before) = (
  omega arith,
  lt,
  hit,
  λ j lej ltj. elim (ℕ-cases j low) [ inl e ↦ rw e h | inr ne ↦ before j (omega arith) ltj ],
)

find_slot-hit :
    (rounds i : ℕ) (test : Test) (s : Sector)
    → test (entry_at s i) ≡ true
    → find_slot (suc rounds) i test s ≡ some i
unfolding find_slot
find_slot-hit rounds i test s h = rw h

find_slot-miss :
    (rounds i : ℕ) (test : Test) (s : Sector)
    → test (entry_at s i) ≡ false
    → find_slot (suc rounds) i test s ≡ find_slot rounds (suc i) test s
unfolding find_slot
find_slot-miss rounds i test s h = rw h

find_slot-FirstSlot :
    (rounds i : ℕ) (test : Test) (s : Sector)
    → FirstSlot i (i + rounds) test s (find_slot rounds i test s)
unfolding FirstSlot
find_slot-FirstSlot zero i test s = unfold find_slot in λ j le lt. absurd (omega arith)
find_slot-FirstSlot (suc rounds) i test s =
    let ih = find_slot-FirstSlot rounds (suc i) test s in
    elim (Bool-cases (test (entry_at s i))) [
      | inl hit ↦
          rw (find_slot-hit rounds i test s hit)
            (omega arith, omega arith, hit, λ j le lt. absurd (omega arith))
      | inr miss ↦
          let sum : suc i + rounds ≡ i + suc rounds = omega arith in
          rw (find_slot-miss rounds i test s miss) (
            FirstSlot-step i (i + suc rounds) test s (find_slot rounds (suc i) test s) miss
              (rw sum at ih))
    ]

-- The search of the sectors from `low` up to `high` gives the first entry that passes the test, or
-- every entry there fails it. It changes the buffer alone.
unfoldable pub FirstEntry : ℕ → ℕ → Test → ChainFs → ChainFs × Option Found → Type 0
FirstEntry low high test fs (fs', none) =
    (fs' ≡ buffered fs fs'.sector_buffer)
    × ((b j : ℕ)
        → low ≤ b
        → b < high
        → j < entries_per_block
        → test (entry_at (sector fs b) j) ≡ false)
FirstEntry low high test fs (fs', some f) =
    (fs' ≡ buffered fs fs'.sector_buffer)
    × (low ≤ f.block)
    × (f.block < high)
    × (f.offset < entries_per_block)
    × (f.entry ≡ entry_at (sector fs f.block) f.offset)
    × (test f.entry ≡ true)
    × ((b j : ℕ)
        → low ≤ b
        → b < f.block
        → j < entries_per_block
        → test (entry_at (sector fs b) j) ≡ false)
    × ((j : ℕ) → j < f.offset → test (entry_at (sector fs f.block) j) ≡ false)

FirstEntry-step :
    (low high : ℕ) (test : Test) (fs : ChainFs) (r : ChainFs × Option Found) (b : Sector)
    → FirstSlot 0 entries_per_block test (sector fs low) none
    → FirstEntry (suc low) high test (buffered fs b) r
    → FirstEntry low high test fs r
unfolding FirstEntry FirstSlot
FirstEntry-step low high test fs (fs', none) b miss (same, h) = (
  same,
  λ k j le lt lj. elim (ℕ-cases k low) [
    | inl e ↦ rw e (miss j (omega arith) lj)
    | inr ne ↦ h k j (omega arith) lt lj
  ],
)
FirstEntry-step low high test fs (fs', some f) b miss (same, le, lt, lo, entry, hit, h, first) = (
  same,
  omega arith,
  lt,
  lo,
  entry,
  hit,
  λ k j lek ltk lj. elim (ℕ-cases k low) [
    | inl e ↦ rw e (miss j (omega arith) lj)
    | inr ne ↦ h k j (omega arith) ltk lj
  ],
  first,
)

module _ (rounds block : ℕ) (test : Test) (fs : ChainFs) where
  find_entry-some :
      (i : ℕ)
      → find_slot entries_per_block 0 test (sector fs block) ≡ some i
      → find_entry (suc rounds) block test fs ≡ (
        buffered fs (sector fs block),
        some (record { entry = entry_at (sector fs block) i; block = block; offset = i }),
      )
  unfolding find_entry read_sector
  find_entry-some i h =
      let loaded = buffered fs (sector fs block) in
      ap (λ (o : Option ℕ). found_in block loaded (find_entry rounds (suc block) test loaded) o) h

  find_entry-none :
      find_slot entries_per_block 0 test (sector fs block) ≡ none
      → find_entry (suc rounds) block test fs
        ≡ find_entry rounds (suc block) test (buffered fs (sector fs block))
  unfolding find_entry read_sector
  find_entry-none h =
      let loaded = buffered fs (sector fs block) in
      ap (λ (o : Option ℕ). found_in block loaded (find_entry rounds (suc block) test loaded) o) h

find_entry-FirstEntry :
    (rounds block : ℕ) (test : Test) (fs : ChainFs)
    → FirstEntry block (block + rounds) test fs (find_entry rounds block test fs)
unfolding FirstEntry FirstSlot
find_entry-FirstEntry zero block test fs =
    unfold find_entry in (refl, λ k j le lt lj. absurd (omega arith))
find_entry-FirstEntry (suc rounds) block test fs =
    let s = sector fs block in
    let slot = find_slot-FirstSlot entries_per_block 0 test s in
    let ih = find_entry-FirstEntry rounds (suc block) test (buffered fs s) in
    elim (Option-cases (find_slot entries_per_block 0 test s)) [
      | inl miss ↦
          let sum : suc block + rounds ≡ block + suc rounds = omega arith in
          let none_here : FirstSlot 0 entries_per_block test s none = rw miss at slot in
          rw (find_entry-none rounds block test fs miss)
            (FirstEntry-step block (block + suc rounds) test fs _ s none_here (rw sum at ih))
      | inr (i, hit) ↦
          let here : FirstSlot 0 entries_per_block test s (some i) = rw hit at slot in
          let (lo, lt, pass, before) = here in
          rw (find_entry-some rounds block test fs i hit) (
            refl,
            omega arith,
            omega arith,
            lt,
            refl,
            pass,
            λ k j le ltk lj. absurd (omega arith),
            λ j ltj. before j (omega arith) ltj,
          )
    ]

module _ (fs : ChainFs) (v : IsMounted fs) where
  table_rounds-exact : 1 + table_rounds fs ≡ 1 + fs.superblock.file_table_block_count
  unfolding table_rounds
  table_rounds-exact = omega (words, v.addressable, v.areas, v.fits)

  -- On a mounted disk with the magic number, `chainfs_find_free_file_entry` gives the first unused entry of the file
  -- table, or every entry of the table is in use; it changes the buffer alone.
  pub chainfs_find_free_file_entry-FirstEntry :
      fs.superblock.magic ≡ chainfs_magic
      → FirstEntry 1
          (1 + fs.superblock.file_table_block_count)
          is_unused
          fs
          (chainfs_find_free_file_entry fs)
  unfolding chainfs_find_free_file_entry
  chainfs_find_free_file_entry-FirstEntry magic =
      rw (==_eq fs.superblock.magic chainfs_magic magic) (
        subst (λ k. FirstEntry 1 k is_unused fs (find_entry (table_rounds fs) 1 is_unused fs))
          table_rounds-exact (find_entry-FirstEntry (table_rounds fs) 1 is_unused fs))

  -- On a mounted disk, `chainfs_find_in_directory` gives the first entry of the file table that is
  -- in use, lies in the directory and has the name, or no entry does; it changes the buffer alone.
  pub chainfs_find_in_directory-FirstEntry :
      (dir : ℕ) (name : List ℕ)
      → FirstEntry 1
          (1 + fs.superblock.file_table_block_count)
          (is_named dir name)
          fs
          (chainfs_find_in_directory dir name fs)
  unfolding chainfs_find_in_directory
  chainfs_find_in_directory-FirstEntry dir name =
      subst
        (λ k.
          FirstEntry 1 k (is_named dir name) fs
            (find_entry (table_rounds fs) 1 (is_named dir name) fs))
        table_rounds-exact (find_entry-FirstEntry (table_rounds fs) 1 (is_named dir name) fs)

-- The test of `chainfs_find_in_directory` passes exactly the entries that are in use, lie in the
-- directory and hold the name and a NUL, for a name without a NUL.
pub is_named_iff :
    (dir : ℕ) (name : List ℕ) (e : FileEntry)
    → All (λ c. c ≢ 0) name
    → (is_named dir name e ≡ true) ↔ ((e.status ≡ 1) × (e.parent_block ≡ dir) × Holds e.name name)
is_named_iff dir name e h =
    let same = is_zero-strcmp name e.name h in
    elim (ℕ-cases e.status 1) [
      | inr ne ↦ rw (==_ne e.status 1 ne) (λ z. absurd (ground arith), λ z. absurd (ne z.0))
      | inl used ↦ elim (ℕ-cases e.parent_block dir) [
        | inr ne ↦
            rw (==_eq e.status 1 used, ==_ne e.parent_block dir ne)
              (λ z. absurd (ground arith), λ z. absurd (ne z.1))
        | inl there ↦
            rw (==_eq e.status 1 used, ==_eq e.parent_block dir there)
              (λ z. (used, there, same.0 z), λ z. same.1 z.2)
      ]
    ]
