-- ===== src/ChainFs/Files/Delete.antt =====
-- The deletion of a file that was created.
use pizda.Prelude.{
  ℕ, ◌+◌, ◌*◌, ◌≤◌, ◌<◌, ◌≡◌, ◌≢◌, inl, inr, refl, sym, ap, ◌∙◌, arith, some, true, false, Bool,
  Bool-cases, ℕ-cases, List, [], ◌∷◌, length, All, ==_ne, ==_eq, if◌then◌else◌, ◌⊎◌,
}
use pizda.Pata.{Sector}
use pizda.ChainFs.{
  ChainFs, entries_per_block, map_sector, free_block, get32, chainfs_free_block_chain,
}
use pizda.ChainFs.Fields.{put8_self, put8_ne}
use pizda.ChainFs.Map.{IsMounted, InMap, next_of, buffered, sector}
use pizda.ChainFs.Map.Search.{AllFree}
use pizda.ChainFs.Map.Release.{has, Released, chainfs_free_block_chain-Released}
use pizda.ChainFs.Data.Delete.{Stored-MapChain}
use pizda.ChainFs.Table.{Found, entry_at, is_named, clear_status, edit_entry}
use pizda.ChainFs.Table.Lookup.{
  InTable, IsNew, Edited, edit_entry-Edited, SameEntry, not_named-agree,
}
use pizda.ChainFs.Table.Search.{buffered-IsMounted}
use pizda.ChainFs.Paths.Name.{IsNameByte, no_nul, find_file-name}
use pizda.ChainFs.Files.{delete_entry, delete_found, chainfs_delete_file}
use pizda.ChainFs.Files.Kept.{next_of-edit}
use pizda.ChainFs.Files.Created.{Created}

-- The entry that is cleared has the status 0.
cleared_here :
    (offset dir : ℕ) (name : List ℕ) (s : Sector)
    → is_named dir name (entry_at (clear_status offset s) offset) ≡ false
unfolding clear_status entry_at
cleared_here offset dir name s = let status = put8_self s (60 * offset) 0 in rw status

-- The other entries of the sector stay.
cleared_other :
    (offset j : ℕ) (s : Sector)
    → j ≢ offset
    → SameEntry (entry_at s j) (entry_at (clear_status offset s) j)
unfolding clear_status entry_at get32
cleared_other offset j s ne = (
  put8_ne s (60 * offset) 0 (60 * j) (omega arith),
  rw (
    put8_ne s (60 * offset) 0 (60 * j + 40) (omega arith),
    put8_ne s (60 * offset) 0 (60 * j + 40 + 1) (omega arith),
    put8_ne s (60 * offset) 0 (60 * j + 40 + 2) (omega arith),
    put8_ne s (60 * offset) 0 (60 * j + 40 + 3) (omega arith),
  ),
  λ k le. put8_ne s (60 * offset) 0 (60 * j + 2 + k) (omega arith),
)

-- What the deletion leaves, seen from the state before the creation.
pub record Deleted (fs : ChainFs) (name : List ℕ) (blocks : List ℕ) (fs' : ChainFs) : Type 0 where
  pub mounted : IsMounted fs'
  pub absent : IsNew fs'.current_dir_block name fs'
  pub entries :
      (j : ℕ) → InMap fs j → next_of fs' j ≡ (if has j blocks then free_block else next_of fs j)

-- Blocks that were free before.
pub freed_before :
    (end : ℕ) (next : ℕ → ℕ) (j : ℕ) (xs : List ℕ)
    → AllFree end next xs
    → (if has j xs then free_block else next j) ≡ next j
freed_before end next j [] h = refl
freed_before end next j (x ∷ xs) ((_, free), h) = elim (ℕ-cases j x) [
  | inl e ↦ rw (==_eq j x e) (sym free ∙ ap next (sym e))
  | inr ne ↦ rw (==_ne j x ne) (freed_before end next j xs h)
]

module _ (fs fs' : ChainFs) (name : List ℕ) (bytes : ℕ → ℕ) (size : ℕ) (f : Found) (x : ℕ)
    (xs : List ℕ) (c : Created fs name bytes size f x xs fs') (freed : ChainFs)
    (r : Released fs' (x ∷ xs) freed) (short : length name ≤ 29) (simple : All IsNameByte name)
    (g : Found) (eb : g.block ≡ f.block) (eo : g.offset ≡ f.offset) where
  abbrev deleted : ChainFs
  deleted = edit_entry g.block (clear_status g.offset) freed

  freed-InTable : InTable freed g.block
  freed-InTable =
      let count = ap (λ (sb : _). sb.file_table_block_count) (r.superblock) in
      (omega (arith, eb, c.place.0), omega (arith, eb, count, c.place.1))

  deleted-Edited : Edited g.block (clear_status g.offset) freed deleted
  deleted-Edited =
      let m = r.mounted in
      edit_entry-Edited g.block (clear_status g.offset) freed m
        (omega (arith, freed-InTable.1, m.areas, m.fits, m.addressable))

  -- A sector of the table, up to the cleared entry.
  table_sector : (b : ℕ) → InTable deleted b → sector freed b ≡ sector fs' b
  table_sector b tb =
      let m = c.mounted in
      let count1 = ap (λ (sb : _). sb.file_table_block_count) (r.superblock) in
      let count2 = ap (λ (sb : _). sb.file_table_block_count) (deleted-Edited.superblock) in
      let lt : b < 1 + fs'.superblock.file_table_block_count =
        omega (arith, tb.1, count1, count2) in
      r.sectors b (inl lt) (omega (arith, lt, m.areas, m.fits, m.addressable))

  not_other :
      (b j : ℕ)
      → InTable deleted b
      → j < entries_per_block
      → (b ≢ f.block) ⊎ (j ≢ f.offset)
      → is_named fs.current_dir_block name (entry_at (sector freed b) j) ≡ false
  not_other b j tb ltj away =
      elim (Bool-cases (is_named fs.current_dir_block name (entry_at (sector freed b) j))) [
        | inr miss ↦ miss
        | inl hit ↦
            let count1 = ap (λ (sb : _). sb.file_table_block_count) (r.superblock) in
            let count2 = ap (λ (sb : _). sb.file_table_block_count) (deleted-Edited.superblock) in
            let same =
              ap (λ (s : Sector). is_named fs.current_dir_block name (entry_at s j))
                (sym (table_sector b tb)) in
            let here = c.only b j (tb.0, omega (arith, tb.1, count1, count2)) ltj (same ∙ hit) in
            absurd (omega (arith, here.0, here.1, away))
      ]

  deleted-IsNew : IsNew fs.current_dir_block name deleted
  deleted-IsNew b j tb ltj =
      let dir = fs.current_dir_block in
      let at : Sector → Bool = λ s. is_named dir name (entry_at s j) in
      elim (ℕ-cases b g.block) [
        | inr ne ↦
            let m = r.mounted in
            let count2 = ap (λ (sb : _). sb.file_table_block_count) (deleted-Edited.superblock) in
            let far =
              deleted-Edited.others b (omega (arith, tb.1, count2, m.areas, m.fits, m.addressable))
                ne in
            ap at far ∙ not_other b j tb ltj (inl (omega (arith, eb)))
        | inl e ↦
            let here : sector deleted b ≡ clear_status g.offset (sector freed b) =
              ap (λ (k : ℕ). sector deleted k) e
              ∙ deleted-Edited.here
              ∙ ap (λ (k : ℕ). clear_status g.offset (sector freed k)) (sym e) in
            ap at here ∙ (elim (ℕ-cases j g.offset) [
              | inl ej ↦ rw ej (cleared_here g.offset dir name (sector freed b))
              | inr nj ↦
                  not_named-agree dir name (no_nul name simple) short (entry_at (sector freed b) j)
                    (entry_at (clear_status g.offset (sector freed b)) j)
                    (cleared_other g.offset j (sector freed b) nj)
                    (not_other b j tb ltj (inr (omega (arith, eo))))
            ])
      ]

  deleted-entries :
      (j : ℕ)
      → InMap fs j
      → next_of deleted j ≡ (if has j (x ∷ xs) then free_block else next_of fs j)
  deleted-entries j m =
      let m' : InMap fs' j = rw (c.superblock) m in
      let m'' : InMap freed j = rw (r.superblock) m' in
      next_of-edit g.block (clear_status g.offset) freed deleted r.mounted freed-InTable
        deleted-Edited j m''
      ∙ r.entries j m'
      ∙ (elim (Bool-cases (has j (x ∷ xs))) [ inl e ↦ rw e | inr e ↦ rw e (c.entries j m e) ])

  deleted-Deleted : Deleted fs name (x ∷ xs) deleted
  deleted-Deleted =
      let same = deleted-Edited.current_dir_block ∙ r.current_dir_block ∙ c.current_dir_block in
      record {
        mounted = deleted-Edited.mounted;
        absent = λ b j. rw same (deleted-IsNew b j);
        entries = deleted-entries;
      }

pub Created-delete :
    (fs fs' : ChainFs) (name : List ℕ) (bytes : ℕ → ℕ) (size : ℕ) (f : Found) (x : ℕ) (xs : List ℕ)
    (fuel : ℕ)
    → Created fs name bytes size f x xs fs'
    → All IsNameByte name
    → length name ≤ 29
    → length (x ∷ xs) < fuel
    → (fs'' : ChainFs) × (chainfs_delete_file fuel name fs' ≡ some (fs'', true))
      × Deleted fs name (x ∷ xs) fs''
unfolding chainfs_delete_file
Created-delete fs fs' name bytes size f x xs fuel c simple short more =
    let (s, g, run, eb, eo, _, started) = c.find in
    let open' = buffered fs' s in
    let (chain, all) = Stored-MapChain (x ∷ xs) fs' bytes 0 size c.mounted c.contents in
    let (freed, freeing, r) =
      chainfs_free_block_chain-Released (x ∷ xs) fuel x 0 open' (buffered-IsMounted fs' s c.mounted)
        (unfold next_of map_sector in chain) c.ascending all more in
    let r' : Released fs' (x ∷ xs) freed =
      unfold next_of map_sector in
      record {
        mounted = r.mounted;
        superblock = r.superblock;
        data_area_start = r.data_area_start;
        current_dir_block = r.current_dir_block;
        entries = r.entries;
        sectors = r.sectors;
      } in
    (
      deleted fs fs' name bytes size f x xs c freed r' short simple g eb eo,
      ap (delete_found fuel) (find_file-name name simple fs' ∙ run)
          ∙ ap (λ (k : ℕ). delete_entry g (chainfs_free_block_chain fuel k open')) started
          ∙ ap (delete_entry g) freeing,
      deleted-Deleted fs fs' name bytes size f x xs c freed r' short simple g eb eo,
    )
