-- ===== src/ChainFs/Paths/Mkdir.antt =====
-- The directory that `chainfs_mkdir` makes is what `chainfs_chdir` enters.
use mathlib.Core.Path.{subst}
use pizda.Prelude.{
  ℕ, zero, suc, ◌+◌, ◌-◌, ◌*◌, ◌%◌, sym, ◌≤◌, ◌<◌, ◌≡◌, refl, ap, ◌∙◌, arith, words, two32, Option,
  some, none, true, false, List, [], ◌∷◌, ◌++◌, length, get_or, All, length-append, ==_eq, sub32,
}
use pizda.Pata.{Sector}
use pizda.Mlibc.{from}
use pizda.Mlibc.Strings.{Holds}
use pizda.ChainFs.{ChainFs, chainfs_magic, type_dir, entries_per_block}
use pizda.ChainFs.Map.{IsMounted, buffered, sector}
use pizda.ChainFs.Table.{
  Found, entry_at, is_unused, put_bytes, put_entry, edit_entry, chainfs_find_free_file_entry,
  chainfs_find_in_directory,
}
use pizda.ChainFs.Table.Entry.{
  entry_at-put_entry, KeepsRest, Holds-get_or, put_bytes-outside, put_bytes-inside,
}
use pizda.ChainFs.Table.Lookup.{InTable, IsNew, edit_entry-Edited, find-put_entry}
use pizda.ChainFs.Table.Search.{buffered-IsMounted, entry_number, name_not_found, entry_found}
use pizda.ChainFs.Paths.{
  is_absolute, walk, chainfs_resolve_path, entry_index, mkdir_parent, make_entry, mkdir_fresh,
  mkdir_under, chainfs_mkdir, enter_dir, chainfs_chdir,
}
use pizda.ChainFs.Paths.Split.{split_path-name}
use pizda.ChainFs.Paths.Name.{
  IsNameByte, no_slash, no_nul, name_of-name, parent_of-name, parts_fit-name,
}

-- The name with its NUL, as `strcpy` writes it.
abbrev terminated : List ℕ → List ℕ
terminated name = name ++ 0 ∷ []

get_or-terminated : (name : List ℕ) (k : ℕ) → get_or (terminated name) k 0 ≡ get_or name k 0
get_or-terminated [] zero = refl
get_or-terminated [] (suc k) = refl
get_or-terminated (c ∷ cs) zero = refl
get_or-terminated (c ∷ cs) (suc k) = get_or-terminated cs k

module _ (offset : ℕ) (name : List ℕ) (short : length name ≤ 29) where
  abbrev named : Sector → Sector
  named = put_bytes (60 * offset + 2) (terminated name)

  named-KeepsRest : KeepsRest (60 * offset) named
  named-KeepsRest t x h =
      let size = length-append name (0 ∷ []) in
      put_bytes-outside (terminated name) (60 * offset + 2) t x (omega arith)

  named-Holds : (t : Sector) → Holds (from (60 * offset + 2) (named t)) name
  named-Holds t =
      let size = length-append name (0 ∷ []) in
      Holds-get_or name (from (60 * offset + 2) (named t)) (λ k le.
        put_bytes-inside (terminated name) (60 * offset + 2) t k (omega arith)
        ∙ get_or-terminated name k)

-- A name is looked up in the current directory.
not_absolute : (name : List ℕ) → All IsNameByte name → is_absolute name ≡ false
not_absolute [] h = refl
not_absolute (c ∷ cs) ((nz, ns), h) = ground arith

resolve_path-name :
    (name : List ℕ) (fs : ChainFs)
    → All IsNameByte name
    → 0 < length name
    → length name ≤ 29
    → chainfs_resolve_path name fs ≡ chainfs_find_in_directory fs.current_dir_block name fs
unfolding chainfs_resolve_path walk
resolve_path-name name fs simple pos short =
    let split = split_path-name name 15 (no_slash name simple, pos, omega arith) in
    rw (split, not_absolute name simple)

module _ (name : List ℕ) (fs : ChainFs) (simple : All IsNameByte name)
    (short : length name ≤ 29) where
  mkdir_parent-name : mkdir_parent name fs ≡ (fs, some fs.current_dir_block)
  unfolding mkdir_parent
  mkdir_parent-name = rw (parent_of-name name simple)

  mkdir-make_entry :
      (s1 s2 : Sector) (f : Found)
      → chainfs_find_in_directory fs.current_dir_block name fs ≡ (buffered fs s1, none)
      → chainfs_find_free_file_entry (buffered fs s1) ≡ (buffered fs s2, some f)
      → chainfs_mkdir name fs ≡ some (make_entry fs.current_dir_block name (buffered fs s2, some f))
  unfolding chainfs_mkdir
  mkdir-make_entry s1 s2 f absent place =
      let dir = fs.current_dir_block in
      rw (parts_fit-name name simple short, name_of-name name simple)
        (ap (λ (r : ChainFs × Option ℕ). some (mkdir_under name r)) mkdir_parent-name
          ∙ ap (λ (r : ChainFs × Option Found). some (mkdir_fresh dir name r)) absent
          ∙ ap (λ (r : ChainFs × Option Found). some (make_entry dir name r)) place)

-- What `chainfs_mkdir` and `chainfs_chdir` leave.
pub make_and_enter :
    (block offset : ℕ) (name : List ℕ) (fs : ChainFs)
    → IsMounted fs
    → fs.superblock.magic ≡ chainfs_magic
    → fs.current_dir_block < two32
    → All IsNameByte name
    → 0 < length name
    → length name ≤ 29
    → IsNew fs.current_dir_block name fs
    → InTable fs block
    → offset < entries_per_block
    → is_unused (entry_at (sector fs block) offset) ≡ true
    → (fs' fs'' : ChainFs) × (b j : ℕ) × (chainfs_mkdir name fs ≡ some (fs', true))
      × (chainfs_chdir name fs' ≡ (fs'', true))
      × (fs''.current_dir_block ≡ entries_per_block * (b - 1) + j)
      × InTable fs b
      × (j < entries_per_block)
      × (is_unused (entry_at (sector fs b) j) ≡ true)
      × (fs''.superblock ≡ fs.superblock)
      × Holds (entry_at (sector fs'' b) j).name name
      × ((entry_at (sector fs'' b) j).parent_block ≡ fs.current_dir_block)
      × (entry_number b j ≤ entry_number block offset)
unfolding chainfs_chdir entry_index make_entry
make_and_enter block offset name fs v magic word simple pos short new t lt unused =
    let dir = fs.current_dir_block in
    let (s1, absent) = name_not_found fs v name new in
    let (s2, f, place, tf, ltf, hit, first) =
      entry_found (buffered fs s1) (buffered-IsMounted fs s1 v) block offset magic t lt unused in
    let fs2 = buffered fs s2 in
    let v2 = buffered-IsMounted fs s2 v in
    let put = named f.offset name short in
    let (s, g, run, eb, eo, typed, _, _) =
      find-put_entry fs2 v2 f.block f.offset tf ltf type_dir 0 0 dir word name (no_nul name simple)
        short new put (named-KeepsRest f.offset name short) (named-Holds f.offset name short) in
    let made = edit_entry f.block (put_entry f.offset type_dir 0 0 dir put) fs2 in
    let c =
      edit_entry-Edited f.block (put_entry f.offset type_dir 0 0 dir put) fs2 v2
        (omega (arith, tf.1, v.areas, v.fits, v.addressable)) in
    let (_, _, held, _, _, parent) =
      entry_at-put_entry f.offset type_dir 0 0 dir put (sector fs2 f.block)
        (named-KeepsRest f.offset name short) name short (named-Holds f.offset name short) in
    let whole : dir % two32 ≡ dir = omega arith in
    let found =
      resolve_path-name name made simple pos short
      ∙ ap (λ (d : ℕ). chainfs_find_in_directory d name made) (c.current_dir_block)
      ∙ run in
    let index : (entries_per_block * sub32 g.block 1 + g.offset)
        ≡ entries_per_block * (f.block - 1) + f.offset =
      omega (words, eb, eo, tf.0, tf.1, v.areas, v.fits, v.addressable) in
    (
      made,
      record (buffered made s) { current_dir_block = entry_index g },
      f.block,
      f.offset,
      mkdir-make_entry name fs simple short s1 s2 f absent place,
      ap enter_dir found ∙ rw (==_eq g.entry.type_ type_dir typed),
      omega (words, index, ltf, tf.0, tf.1, v.areas, v.fits, v.addressable),
      tf,
      ltf,
      hit,
      c.superblock,
      subst (λ (w : Sector). Holds (entry_at w f.offset).name name) (sym (c.here)) held,
      ap (λ (w : Sector). (entry_at w f.offset).parent_block) (c.here) ∙ parent ∙ whole,
      first,
    )
