-- ===== src/ChainFs/Paths/Name.antt =====
-- Paths that are a name alone, without a slash.
use pizda.Prelude.{
  ℕ, ◌≤◌, ◌≡◌, ◌≢◌, refl, ap, ◌∙◌, arith, Option, true, false, ◌&&◌, ==_ne, ltb, List, [], ◌∷◌,
  length, All,
}
use pizda.ChainFs.{ChainFs}
use pizda.ChainFs.Table.{chainfs_find_in_directory}
use pizda.ChainFs.Paths.{
  slash, max_path, has_slash, name_in, name_of, parent_in, parent_of, parts_fit, chainfs_find_file,
}
use pizda.ChainFs.Paths.Split.{cut_last-none}

abbrev pub IsNameByte : ℕ → Type 0
IsNameByte c = (c ≢ 0) × (c ≢ slash)

pub no_slash : (name : List ℕ) → All IsNameByte name → All (λ c. c ≢ slash) name
no_slash [] h = tt
no_slash (c ∷ cs) ((nz, ns), h) = (ns, no_slash cs h)

pub no_nul : (name : List ℕ) → All IsNameByte name → All (λ c. c ≢ 0) name
no_nul [] h = tt
no_nul (c ∷ cs) ((nz, ns), h) = (nz, no_nul cs h)

has_slash-name : (name : List ℕ) → All (λ c. c ≢ slash) name → has_slash name ≡ false
unfolding has_slash
has_slash-name [] h = refl
has_slash-name (c ∷ cs) (ns, h) = rw (==_ne c slash ns) (has_slash-name cs h)

module _ (name : List ℕ) (simple : All IsNameByte name) where
  pub find_file-name :
      (fs : ChainFs)
      → chainfs_find_file name fs ≡ chainfs_find_in_directory fs.current_dir_block name fs
  unfolding chainfs_find_file
  find_file-name fs = rw (has_slash-name name (no_slash name simple))

  pub name_of-name : name_of name ≡ name
  name_of-name = ap (name_in name) (cut_last-none name (no_slash name simple))

  pub parent_of-name : parent_of name ≡ []
  parent_of-name = ap parent_in (cut_last-none name (no_slash name simple))

  pub parts_fit-name : length name ≤ 29 → parts_fit name ≡ true
  parts_fit-name le =
      let small : ltb (length name) 32 ≡ true = ground arith in
      ap
        (λ (o : Option (List ℕ × List ℕ)).
          ltb (length (parent_in o)) max_path && ltb (length (name_in name o)) 32)
        (cut_last-none name (no_slash name simple))
      ∙ small
