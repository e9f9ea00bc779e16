-- ===== src/ChainFs/Table/Lookup.antt =====
-- A new entry of the table is what `chainfs_find_in_directory` then finds.
use pizda.Prelude.{
  ℕ, ◌+◌, ◌*◌, ◌%◌, ◌^◌, ◌≤◌, ◌<◌, ◌≡◌, ◌≢◌, inl, inr, refl, sym, ap, ◌∙◌, arith, two32, Option,
  some, none, true, false, Bool-cases, ℕ-cases, ==_eq, ==_ne, List, length, All,
}
use pizda.Pata.{Sector}
use pizda.Pata.Registers.{read-write}
use pizda.Mlibc.{from}
use pizda.Mlibc.Strings.{Holds}
use pizda.ChainFs.{ChainFs, FileEntry, entries_per_block, read_sector, write_sector}
use pizda.ChainFs.Map.{IsMounted, buffered, sector}
use pizda.ChainFs.Table.{
  entry_at, Found, Test, is_named, edit_entry, put_entry, chainfs_find_in_directory,
}
use pizda.ChainFs.Table.Entry.{KeepsRest, Holds-agree, entry_at-put_entry, entry_at-put_entry_ne}
use pizda.ChainFs.Table.Find.{FirstEntry, is_named_iff, chainfs_find_in_directory-FirstEntry}

-- A sector of the file table.
abbrev pub InTable : ChainFs → ℕ → Type 0
InTable fs b = (1 ≤ b) × (b < 1 + fs.superblock.file_table_block_count)

-- What `edit_entry` changes: one sector, and the buffer.
pub record Edited (block : ℕ) (edit : Sector → Sector) (fs fs' : ChainFs) : Type 0 where
  pub mounted : IsMounted fs'
  pub superblock : fs'.superblock ≡ fs.superblock
  pub data_area_start : fs'.data_area_start ≡ fs.data_area_start
  pub current_dir_block : fs'.current_dir_block ≡ fs.current_dir_block
  pub here : sector fs' block ≡ edit (sector fs block)
  pub others : (k : ℕ) → k < 2 ^ 28 → k ≢ block → sector fs' k ≡ sector fs k

pub edit_entry-Edited :
    (block : ℕ) (edit : Sector → Sector) (fs : ChainFs)
    → IsMounted fs
    → block < 2 ^ 28
    → Edited block edit fs (edit_entry block edit fs)
unfolding edit_entry read_sector write_sector
edit_entry-Edited block edit fs v lt =
    let s = edit (sector fs block) in
    record {
      mounted = record {
        addressable = v.addressable;
        areas = v.areas;
        fits = v.fits;
        covered = v.covered;
      };
      superblock = refl;
      data_area_start = refl;
      current_dir_block = refl;
      here = read-write block block s fs.disk ∙ rw (==_eq (block % 2 ^ 28) (block % 2 ^ 28) refl);
      others = λ k ltk ne.
          read-write block k s fs.disk ∙ rw (==_ne (k % 2 ^ 28) (block % 2 ^ 28) (omega arith));
    }

-- The search that can stop at one entry alone stops there.
only_entry :
    (high : ℕ) (test : Test) (fs : ChainFs) (block offset : ℕ) (r : ChainFs × Option Found)
    → 1 ≤ block
    → block < high
    → offset < entries_per_block
    → test (entry_at (sector fs block) offset) ≡ true
    → ((b j : ℕ)
        → 1 ≤ b
        → b < high
        → j < entries_per_block
        → test (entry_at (sector fs b) j) ≡ true
        → (b ≡ block) × (j ≡ offset))
    → FirstEntry 1 high test fs r
    → (s : Sector) × (f : Found) × (r ≡ (buffered fs s, some f))
      × (f.block ≡ block)
      × (f.offset ≡ offset)
      × (f.entry ≡ entry_at (sector fs block) offset)
unfolding FirstEntry
only_entry high test fs block offset (fs', none) lo hi lt hit only (same, miss) =
    let no = miss block offset lo hi lt in absurd (cc)
only_entry high test fs block offset (fs', some f) lo hi lt hit only
      (same, flo, fhi, flt, entry, fhit, _, _) =
    let here : test (entry_at (sector fs f.block) f.offset) ≡ true = ap test (sym entry) ∙ fhit in
    let (eb, eo) = only f.block f.offset flo fhi flt here in
    (
      fs'.sector_buffer,
      f,
      (λ i. (same i, some f)),
      eb,
      eo,
      entry ∙ (λ i. entry_at (sector fs (eb i)) (eo i)),
    )

-- Two entries that `is_named` cannot tell apart, for names of 29 bytes at most.
abbrev pub SameEntry : FileEntry → FileEntry → Type 0
SameEntry e e' =
    (e'.status ≡ e.status)
    × (e'.parent_block ≡ e.parent_block)
    × ((k : ℕ) → k ≤ 29 → e'.name k ≡ e.name k)

pub not_named-agree :
    (dir : ℕ) (name : List ℕ)
    → All (λ c. c ≢ 0) name
    → length name ≤ 29
    → (e e' : FileEntry) → SameEntry e e'
    → is_named dir name e ≡ false
    → is_named dir name e' ≡ false
not_named-agree dir name bytes short e e' (status, parent, same) other =
    elim (Bool-cases (is_named dir name e')) [
      | inr miss ↦ miss
      | inl hit ↦
          let (used, there, held) = (is_named_iff dir name e' bytes).0 hit in
          let before = (is_named_iff dir name e bytes).1 (
            sym status ∙ used,
            sym parent ∙ there,
            Holds-agree name e'.name e.name (λ k le. sym (same k (omega arith))) held,
          ) in
          absurd (cc)
    ]

-- No entry of the table has the name in the directory.
abbrev pub IsNew : ℕ → List ℕ → ChainFs → Type 0
IsNew dir name fs =
    (b j : ℕ)
    → InTable fs b
    → j < entries_per_block
    → is_named dir name (entry_at (sector fs b) j) ≡ false

module _ (fs : ChainFs) (v : IsMounted fs) (block offset : ℕ) (t : InTable fs block)
    (lt : offset < entries_per_block) (type_ size start dir : ℕ) (word : dir < two32)
    (name : List ℕ) (bytes : All (λ c. c ≢ 0) name) (short : length name ≤ 29)
    (new : IsNew dir name fs) (named : Sector → Sector) (keeps : KeepsRest (60 * offset) named)
    (holds : (s : Sector) → Holds (from (60 * offset + 2) (named s)) name) where
  abbrev put : Sector → Sector
  put = put_entry offset type_ size start dir named

  abbrev fs' : ChainFs
  fs' = edit_entry block put fs

  changed : Edited block put fs fs'
  changed = edit_entry-Edited block put fs v (omega (arith, t.1, v.areas, v.fits, v.addressable))

  named_here : is_named dir name (entry_at (sector fs' block) offset) ≡ true
  named_here =
      let s = sector fs block in
      let (used, _, held, _, _, parent) =
        entry_at-put_entry offset type_ size start dir named s keeps name short holds in
      let whole : dir % two32 ≡ dir = omega arith in
      ap (λ (c : Sector). is_named dir name (entry_at c offset)) (changed.here)
      ∙ (is_named_iff dir name (entry_at (put s) offset) bytes).1 (used, parent ∙ whole, held)

  -- Another entry of the same sector.
  other_slot :
      (j : ℕ)
      → j < entries_per_block
      → j ≢ offset
      → is_named dir name (entry_at (sector fs' block) j) ≡ false
  other_slot j ltj ne =
      let s = sector fs block in
      ap (λ (c : Sector). is_named dir name (entry_at c j)) (changed.here)
      ∙ not_named-agree dir name bytes short (entry_at s j) (entry_at (put s) j)
          (entry_at-put_entry_ne offset type_ size start dir named s keeps j ne) (new block j t ltj)

  pub only_new :
      (b j : ℕ)
      → 1 ≤ b
      → b < 1 + fs'.superblock.file_table_block_count
      → j < entries_per_block
      → is_named dir name (entry_at (sector fs' b) j) ≡ true
      → (b ≡ block) × (j ≡ offset)
  only_new b j lo hi ltj hit =
      let count = ap (λ (sb : _). sb.file_table_block_count) (changed.superblock) in
      let tb : InTable fs b = (lo, omega (arith, count)) in
      elim (ℕ-cases b block) [
        | inr ne ↦
            let far = changed.others b (omega (arith, tb.1, v.areas, v.fits, v.addressable)) ne in
            let no = ap (λ (c : Sector). is_named dir name (entry_at c j)) far ∙ new b j tb ltj in
            absurd (cc)
        | inl e ↦ elim (ℕ-cases j offset) [
          | inl ej ↦ (e, ej)
          | inr ne ↦
              let no =
                ap (λ (k : ℕ). is_named dir name (entry_at (sector fs' k) j)) e
                ∙ other_slot j ltj ne in
              absurd (cc)
        ]
      ]

  pub find-put_entry :
      (s : Sector) × (f : Found) × (chainfs_find_in_directory dir name fs'
        ≡ (buffered fs' s, some f))
      × (f.block ≡ block)
      × (f.offset ≡ offset)
      × (f.entry.type_ ≡ type_)
      × (f.entry.size ≡ size % two32)
      × (f.entry.start_block ≡ start % two32)
  find-put_entry =
      let count = ap (λ (sb : _). sb.file_table_block_count) (changed.superblock) in
      let (s, f, run, eb, eo, entry) =
        only_entry (1 + fs'.superblock.file_table_block_count) (is_named dir name) fs' block offset
          (chainfs_find_in_directory dir name fs') (t.0) (omega (arith, count, t.1)) lt named_here
          only_new (chainfs_find_in_directory-FirstEntry fs' (changed.mounted) dir name) in
      let (_, typed, _, sized, started, _) =
        entry_at-put_entry offset type_ size start dir named (sector fs block) keeps name short
          holds in
      let e = entry ∙ ap (λ (c : Sector). entry_at c offset) (changed.here) in
      (
        s,
        f,
        run,
        eb,
        eo,
        ap (λ (x : _). x.type_) e ∙ typed,
        ap (λ (x : _). x.size) e ∙ sized,
        ap (λ (x : _). x.start_block) e ∙ started,
      )
