-- ===== src/ChainFs/Files/Created.antt =====
-- What `chainfs_write_file` leaves when it creates a file.
use pizda.Prelude.{
  ℕ, ◌+◌, ◌*◌, ◌%◌, ◌≤◌, ◌<◌, ◌≡◌, ap, ◌∙◌, arith, two32, some, true, false, List, ◌∷◌, length, All,
}
use pizda.Pata.{Sector}
use pizda.ChainFs.{ChainFs, block_size, entries_per_block, type_file}
use pizda.ChainFs.Map.Release.{has}
use pizda.ChainFs.Data.Delete.{write_loop-entries}
use pizda.ChainFs.Map.{IsMounted, InMap, next_of, buffered, sector}
use pizda.ChainFs.Map.Search.{Ascending}
use pizda.ChainFs.Data.{write_loop}
use pizda.ChainFs.Data.Step.{InData}
use pizda.ChainFs.Data.Store.{Stored, Kept, write_loop-Stored}
use pizda.ChainFs.Table.{Found, entry_at, is_named, put_entry, chainfs_find_in_directory}
use pizda.ChainFs.Table.Lookup.{InTable, IsNew, Edited, edit_entry-Edited, only_new, find-put_entry}
use pizda.ChainFs.Files.{put_name}
use pizda.ChainFs.Paths.Name.{IsNameByte, no_nul}
use pizda.ChainFs.Files.Name.{put_name-KeepsRest, put_name-Holds}
use pizda.ChainFs.Files.Kept.{next_of-edit, Stored-edit}
use pizda.ChainFs.Files.Write.{stored_in}

-- The state `fs'` is `fs` with a new file: the blocks `x ∷ xs` hold its data, the search of the name
-- gives its entry and no other entry has the name, and the map's other entries are as before.
pub record Created (fs : ChainFs) (name : List ℕ) (bytes : ℕ → ℕ) (size : ℕ) (f : Found) (x : ℕ)
    (xs : List ℕ) (fs' : ChainFs) : Type 0 where
  pub mounted : IsMounted fs'
  pub superblock : fs'.superblock ≡ fs.superblock
  pub current_dir_block : fs'.current_dir_block ≡ fs.current_dir_block
  pub place : InTable fs' f.block
  pub ascending : Ascending 0 (x ∷ xs)
  pub contents : Stored fs' bytes 0 size (x ∷ xs)
  pub find :
      (s : Sector) × (g : Found) × (chainfs_find_in_directory fs'.current_dir_block name fs'
        ≡ (buffered fs' s, some g))
      × (g.block ≡ f.block)
      × (g.offset ≡ f.offset)
      × (g.entry.size ≡ size)
      × (g.entry.start_block ≡ x)
  pub only :
      (b j : ℕ)
      → InTable fs' b
      → j < entries_per_block
      → is_named fs.current_dir_block name (entry_at (sector fs' b) j) ≡ true
      → (b ≡ f.block) × (j ≡ f.offset)
  pub entries : (j : ℕ) → InMap fs j → has j (x ∷ xs) ≡ false → next_of fs' j ≡ next_of fs j

module _ (fs : ChainFs) (v : IsMounted fs) (f : Found) (t : InTable fs f.block)
    (lt : f.offset < entries_per_block) (word : fs.current_dir_block < two32) (name : List ℕ)
    (simple : All IsNameByte name) (short : length name ≤ 29)
    (new : IsNew fs.current_dir_block name fs) (x : ℕ) (xs : List ℕ) (asc : Ascending 0 (x ∷ xs))
    (inside : All (InData fs) (x ∷ xs)) (bytes : ℕ → ℕ) (size : ℕ) (small : size < two32)
    (enough : size ≤ block_size * length (x ∷ xs)) where
  abbrev dir : ℕ
  dir = fs.current_dir_block

  abbrev filled : ChainFs
  filled = write_loop bytes (x ∷ xs) size 0 fs

  abbrev named : Sector → Sector
  named = put_name f.offset name

  abbrev stored : ChainFs
  stored = stored_in name bytes size dir f x xs fs

  filled-Kept : Kept fs 0 filled × Stored filled bytes 0 size (x ∷ xs)
  filled-Kept = write_loop-Stored (x ∷ xs) bytes 0 size 0 fs v asc inside (omega arith)

  filled-InTable : InTable filled f.block
  filled-InTable =
      let count = ap (λ (sb : _). sb.file_table_block_count) (filled-Kept.0.superblock) in
      (t.0, omega (arith, count, t.1))

  filled-IsNew : IsNew dir name filled
  filled-IsNew b j tb ltj =
      let count = ap (λ (sb : _). sb.file_table_block_count) (filled-Kept.0.superblock) in
      let inside' : b < 1 + fs.superblock.file_table_block_count = omega (arith, count, tb.1) in
      ap (λ (s : Sector). is_named dir name (entry_at s j)) (filled-Kept.0.table b inside')
      ∙ new b j (tb.0, inside') ltj

  stored-Edited : Edited f.block (put_entry f.offset type_file size x dir named) filled stored
  stored-Edited =
      let m = filled-Kept.0.mounted in
      edit_entry-Edited f.block (put_entry f.offset type_file size x dir named) filled m
        (omega (arith, filled-InTable.1, m.areas, m.fits, m.addressable))

  -- The search of the name gives the new file.
  stored-find :
      (s : Sector) × (g : Found) × (chainfs_find_in_directory stored.current_dir_block name stored
        ≡ (buffered stored s, some g))
      × (g.block ≡ f.block)
      × (g.offset ≡ f.offset)
      × (g.entry.size ≡ size)
      × (g.entry.start_block ≡ x)
  stored-find =
      let (s, g, run, eb, eo, _, sized, started) =
        find-put_entry filled filled-Kept.0.mounted f.block f.offset filled-InTable lt type_file
          size x dir word name (no_nul name simple) short filled-IsNew named
          (put_name-KeepsRest f.offset name) (λ c. put_name-Holds f.offset name c short) in
      let same : stored.current_dir_block ≡ dir =
        stored-Edited.current_dir_block ∙ filled-Kept.0.current_dir_block in
      let whole : size % two32 ≡ size = omega arith in
      let block : x % two32 ≡ x = omega (arith, v.addressable, inside.0) in
      (
        s,
        g,
        ap (λ (d : ℕ). chainfs_find_in_directory d name stored) same ∙ run,
        eb,
        eo,
        sized ∙ whole,
        started ∙ block,
      )

  stored-entries : (j : ℕ) → InMap fs j → has j (x ∷ xs) ≡ false → next_of stored j ≡ next_of fs j
  stored-entries j m away =
      let k = filled-Kept.0 in
      next_of-edit f.block (put_entry f.offset type_file size x dir named) filled stored k.mounted
        filled-InTable stored-Edited j (rw (k.superblock) m)
      ∙ write_loop-entries (x ∷ xs) bytes size 0 fs v inside (omega arith) j m away

  pub stored-Created : Created fs name bytes size f x xs stored
  stored-Created =
      let k = filled-Kept.0 in
      let c = stored-Edited in
      let count = ap (λ (sb : _). sb.file_table_block_count) (c.superblock) in
      record {
        mounted = c.mounted;
        superblock = c.superblock ∙ k.superblock;
        current_dir_block = c.current_dir_block ∙ k.current_dir_block;
        place = (t.0, omega (arith, count, filled-InTable.1));
        ascending = asc;
        contents =
            Stored-edit f.block (put_entry f.offset type_file size x dir named) filled stored
              k.mounted filled-InTable c bytes (x ∷ xs) 0 size filled-Kept.1;
        find = stored-find;
        only = λ b j tb ltj hit.
            only_new filled k.mounted f.block f.offset filled-InTable lt type_file size x dir word
              name (no_nul name simple) short filled-IsNew named (put_name-KeepsRest f.offset name)
              (λ s. put_name-Holds f.offset name s short) b j tb.0 tb.1 ltj hit;
        entries = stored-entries;
      }
