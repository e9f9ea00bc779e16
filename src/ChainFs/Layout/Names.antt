-- ===== src/ChainFs/Layout/Names.antt =====
-- The operations on paths and directories keep the superblock in memory and the start of the data
-- area.
use pizda.Prelude.{
  ℕ, zero, suc, ◌≡◌, refl, ◌∙◌, Option, some, none, Option-cases, Bool-cases, inl, inr, ◌==◌, leb,
  ◌&&◌, ◌||◌, not, List, [], ◌∷◌, IfSome, IfSome-map,
}
use pizda.ChainFs.{ChainFs, FileEntry, read_sector, type_dir, eof_marker}
use pizda.ChainFs.Table.{Found, chainfs_find_free_file_entry, chainfs_find_in_directory}
use pizda.ChainFs.Paths.{
  entry_index, walk_in, walk, is_empty, is_absolute, split_path, chainfs_resolve_path, has_slash,
  chainfs_find_file, dir_found, resolve_dir, parent_of, name_of, parts_fit, mkdir_parent,
  make_entry, mkdir_fresh, mkdir_under, chainfs_mkdir, enter_dir, chainfs_chdir, list_in,
  chainfs_list_dir, lists_some, remove_dir, chainfs_rmdir,
}
use pizda.ChainFs.Paths.Current.{
  read_entry_by_index, name_room, with_front, string_in, path_round, path_loop, path_fits,
  chainfs_get_current_path,
}
use pizda.ChainFs.Layout.{
  layout, Unchanged, find_free_file_entry-layout, find_in_directory-layout, list_blocks-layout,
  edit_entry-layout,
}

walk_in-layout :
    (next : ℕ → ChainFs → ChainFs × Option Found) (r : ChainFs × Option Found)
    → ((index : ℕ) (fs : ChainFs) → Unchanged fs (next index fs))
    → Unchanged r.0 (walk_in next r)
walk_in-layout next (fs, none) ih = refl
walk_in-layout next (fs, some f) ih = elim (Bool-cases (f.entry.type_ == type_dir)) [
  | inl e ↦ rw e (ih (entry_index f) fs)
  | inr e ↦ rw e refl
]

walk-layout : (dir : ℕ) (names : List (List ℕ)) (fs : ChainFs) → Unchanged fs (walk dir names fs)
unfolding walk
walk-layout dir [] fs = refl
walk-layout dir (name ∷ []) fs = find_in_directory-layout dir name fs
walk-layout dir (name ∷ next ∷ names) fs =
    walk_in-layout (λ index fs'. walk index (next ∷ names) fs')
      (chainfs_find_in_directory dir name fs) (λ index fs'. walk-layout index (next ∷ names) fs')
    ∙ find_in_directory-layout dir name fs

pub resolve_path-layout :
    (path : List ℕ) (fs : ChainFs) → Unchanged fs (chainfs_resolve_path path fs)
unfolding chainfs_resolve_path read_sector
resolve_path-layout path fs =
    elim (Bool-cases (is_empty (split_path path 16) && is_absolute path)) [
      | inl e ↦ rw e refl
      | inr e ↦ rw e (walk-layout _ (split_path path 16) fs)
    ]

pub find_file-layout : (path : List ℕ) (fs : ChainFs) → Unchanged fs (chainfs_find_file path fs)
unfolding chainfs_find_file
find_file-layout path fs = elim (Bool-cases (has_slash path)) [
  | inl e ↦ rw e (resolve_path-layout path fs)
  | inr e ↦ rw e (find_in_directory-layout _ path fs)
]

dir_found-layout : (r : ChainFs × Option Found) → Unchanged r.0 (dir_found r)
dir_found-layout (fs, none) = refl
dir_found-layout (fs, some f) = refl

pub resolve_dir-layout : (path : List ℕ) (fs : ChainFs) → Unchanged fs (resolve_dir path fs)
unfolding resolve_dir
resolve_dir-layout path fs =
    dir_found-layout (chainfs_resolve_path path fs) ∙ resolve_path-layout path fs

mkdir_parent-layout : (path : List ℕ) (fs : ChainFs) → Unchanged fs (mkdir_parent path fs)
unfolding mkdir_parent
mkdir_parent-layout path fs = elim (Bool-cases (is_empty (parent_of path))) [
  | inl e ↦ rw e refl
  | inr e ↦ rw e (resolve_dir-layout (parent_of path) fs)
]

make_entry-layout :
    (parent : ℕ) (name : List ℕ) (r : ChainFs × Option Found)
    → Unchanged r.0 (make_entry parent name r)
unfolding make_entry
make_entry-layout parent name (fs, none) = refl
make_entry-layout parent name (fs, some f) = edit_entry-layout f.block _ fs

mkdir_fresh-layout :
    (parent : ℕ) (name : List ℕ) (r : ChainFs × Option Found)
    → Unchanged r.0 (mkdir_fresh parent name r)
mkdir_fresh-layout parent name (fs, some f) = refl
mkdir_fresh-layout parent name (fs, none) =
    make_entry-layout parent name (chainfs_find_free_file_entry fs) ∙ find_free_file_entry-layout fs

mkdir_under-layout : (name : List ℕ) (r : ChainFs × Option ℕ) → Unchanged r.0 (mkdir_under name r)
mkdir_under-layout name (fs, none) = refl
mkdir_under-layout name (fs, some parent) =
    mkdir_fresh-layout parent name (chainfs_find_in_directory parent name fs)
    ∙ find_in_directory-layout parent name fs

pub mkdir-layout : (path : List ℕ) (fs : ChainFs) → IfSome (Unchanged fs) (chainfs_mkdir path fs)
unfolding chainfs_mkdir
mkdir-layout path fs = elim (Bool-cases (parts_fit path)) [
  | inl e ↦
      rw e (mkdir_under-layout (name_of path) (mkdir_parent path fs) ∙ mkdir_parent-layout path fs)
  | inr e ↦ rw e tt
]

enter_dir-layout : (r : ChainFs × Option Found) → Unchanged r.0 (enter_dir r)
enter_dir-layout (fs, none) = refl
enter_dir-layout (fs, some f) = elim (Bool-cases (f.entry.type_ == type_dir)) [
  | inl e ↦ rw e refl
  | inr e ↦ rw e refl
]

pub chdir-layout : (path : List ℕ) (fs : ChainFs) → Unchanged fs (chainfs_chdir path fs)
unfolding chainfs_chdir
chdir-layout path fs = enter_dir-layout (chainfs_resolve_path path fs) ∙ resolve_path-layout path fs

list_in-layout : (max_files : ℕ) (r : ChainFs × Option ℕ) → Unchanged r.0 (list_in max_files r)
list_in-layout max_files (fs, none) = refl
list_in-layout max_files (fs, some d) = list_blocks-layout _ 1 max_files d fs

pub list_dir-layout :
    (path : List ℕ) (max_files : ℕ) (fs : ChainFs)
    → Unchanged fs (chainfs_list_dir path max_files fs)
unfolding chainfs_list_dir
list_dir-layout path max_files fs = elim (Bool-cases (is_empty path)) [
  | inl e ↦ rw e (list_in-layout max_files (fs, some fs.current_dir_block))
  | inr e ↦ rw e (list_in-layout max_files (resolve_dir path fs) ∙ resolve_dir-layout path fs)
]

remove_dir-layout : (path : List ℕ) (r : ChainFs × Option Found) → Unchanged r.0 (remove_dir path r)
remove_dir-layout path (fs, none) = refl
remove_dir-layout path (fs, some f) =
    let l = chainfs_list_dir path 1 fs in
    let listed = list_dir-layout path 1 fs in
    elim (Bool-cases (not (f.entry.type_ == type_dir) || f.block == fs.superblock.root_dir_block)) [
      | inl e ↦ rw e refl
      | inr e ↦ rw e (elim (Bool-cases (lists_some l.1)) [
        | inl left ↦ rw left listed
        | inr empty ↦ rw empty (edit_entry-layout f.block _ l.0 ∙ listed)
      ])
    ]

pub rmdir-layout : (path : List ℕ) (fs : ChainFs) → Unchanged fs (chainfs_rmdir path fs)
unfolding chainfs_rmdir
rmdir-layout path fs =
    remove_dir-layout path (chainfs_resolve_path path fs) ∙ resolve_path-layout path fs

read_entry_by_index-layout :
    (index : ℕ) (fs : ChainFs) → Unchanged fs (read_entry_by_index index fs)
unfolding read_entry_by_index read_sector
read_entry_by_index-layout index fs = elim (Bool-cases (leb fs.superblock.total_files index)) [
  | inl e ↦ rw e refl
  | inr e ↦ rw e refl
]

-- A path with a state of the layout of `fs`.
abbrev pub Same {ℓ} : {A : Type ℓ} → ChainFs → Option (ChainFs × A) → Type 0
Same fs o = IfSome (Unchanged fs) o

pub Same-trans {ℓ} :
    {A : Type ℓ} (fs fs' : ChainFs) (o : Option (ChainFs × A))
    → layout fs' ≡ layout fs
    → Same fs' o
    → Same fs o
Same-trans fs fs' o h k = IfSome-map (Unchanged fs) o (λ r e. e ∙ h) k

path_round-layout :
    (next : ℕ → List ℕ → ChainFs → Option (ChainFs × List ℕ)) (temp_path : List ℕ)
    (r : ChainFs × Option FileEntry)
    → ((idx : ℕ) (path : List ℕ) (fs : ChainFs) → Same fs (next idx path fs))
    → Same r.0 (path_round next temp_path r)
path_round-layout next temp_path (fs, none) ih = refl
path_round-layout next temp_path (fs, some e) ih =
    elim (Option-cases (with_front temp_path (string_in name_room e.name))) [
      | inl absent ↦ rw absent tt
      | inr (path, present) ↦ rw present (ih e.parent_block path fs)
    ]

path_loop-layout :
    (fuel idx : ℕ) (temp_path : List ℕ) (fs : ChainFs) → Same fs (path_loop fuel idx temp_path fs)
unfolding path_loop
path_loop-layout zero idx temp_path fs = tt
path_loop-layout (suc fuel) idx temp_path fs =
    let r = read_entry_by_index idx fs in
    elim (Bool-cases (idx == fs.superblock.root_dir_block || idx == eof_marker)) [
      | inl e ↦ rw e refl
      | inr e ↦ rw e (
          Same-trans fs r.0 (path_round (path_loop fuel) temp_path r)
            (read_entry_by_index-layout idx fs)
            (path_round-layout (path_loop fuel) temp_path r (path_loop-layout fuel)))
    ]

path_fits-layout :
    (size : ℕ) (fs : ChainFs) (o : Option (ChainFs × List ℕ))
    → Same fs o
    → Same fs (path_fits size o)
path_fits-layout size fs none h = tt
path_fits-layout size fs (some r) h = h

pub get_current_path-layout :
    (fuel size : ℕ) (fs : ChainFs) → IfSome (Unchanged fs) (chainfs_get_current_path fuel size fs)
unfolding chainfs_get_current_path
get_current_path-layout fuel size fs =
    elim (Bool-cases (fs.current_dir_block == fs.superblock.root_dir_block)) [
      | inl e ↦ rw e refl
      | inr e ↦ rw e (
          path_fits-layout size fs (path_loop fuel fs.current_dir_block [] fs)
            (path_loop-layout fuel fs.current_dir_block [] fs))
    ]
