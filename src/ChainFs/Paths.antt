-- ===== src/ChainFs/Paths.antt =====
-- Paths and directories: `split_path`, `chainfs_resolve_path`, `chainfs_find_file`, `chainfs_mkdir`,
-- `chainfs_chdir`, `chainfs_list_dir` and `chainfs_rmdir`. A path is the list of its bytes without
-- the NUL.
pub mod Split
pub mod Name
pub mod Mkdir
pub mod Current
pub mod Located
mod Examples
pub mod Root
use pizda.Prelude.{
  ℕ, zero, suc, ◌+◌, ◌-◌, ◌*◌, ◌%◌, Option, none, some, Bool, true, false, ◌&&◌, ◌||◌, not, ◌==◌,
  leb, ltb, if◌then◌else◌, sub32, two32, length, List, [], ◌∷◌, ◌++◌,
}
use pizda.Pata.{Sector}
use pizda.ChainFs.{ChainFs, FileEntry, type_dir, entries_per_block, read_sector}
use pizda.ChainFs.Table.{
  Found, entry_at, table_rounds, chainfs_find_free_file_entry, chainfs_find_in_directory,
  list_blocks, put_bytes, edit_entry, clear_status, put_entry,
}

abbrev pub slash : ℕ
slash = 47

abbrev pub max_path : ℕ
max_path = 256

-- What a separator does with the bytes since `start`: `comp_len > 0 && comp_len < 31`.
abbrev pub is_component : List ℕ → Bool
is_component component = ltb 0 (length component) && ltb (length component) 31

-- The loop of `split_path`: `room` is `max_components - count`, and `component` the bytes
-- since `start`.
unfoldable pub split_loop : ℕ → List ℕ → List ℕ → List (List ℕ)
split_loop zero component path = []
split_loop (suc room) component [] = if is_component component then component ∷ [] else []
split_loop (suc room) component (c ∷ path) =
    let taken = split_loop room [] path in
    let dropped = split_loop (suc room) [] path in
    let longer = split_loop (suc room) (component ++ c ∷ []) path in
    if c == slash then (if is_component component then component ∷ taken else dropped) else longer

abbrev pub is_absolute : List ℕ → Bool
is_absolute [] = false
is_absolute (c ∷ path) = c == slash

unfoldable pub split_path : List ℕ → ℕ → List (List ℕ)
split_path [] max_components = split_loop max_components [] []
split_path (c ∷ path) max_components =
    split_loop max_components [] (if c == slash then path else c ∷ path)

-- The index of an entry in the file table.
unfoldable pub entry_index : Found → ℕ
entry_index f = (entries_per_block * sub32 f.block 1 + f.offset) % two32

-- A component that is not the last: the walk goes on in the directory that was found.
abbrev pub walk_in :
    (ℕ → ChainFs → ChainFs × Option Found) → ChainFs × Option Found → ChainFs × Option Found
walk_in next (fs, none) = (fs, none)
walk_in next (fs, some f) =
    let rest = next (entry_index f) fs in if f.entry.type_ == type_dir then rest else (fs, none)

-- The loop of `chainfs_resolve_path`.
unfoldable pub walk : ℕ → List (List ℕ) → ChainFs → ChainFs × Option Found
walk dir [] fs = (fs, none)
walk dir (name ∷ []) fs = chainfs_find_in_directory dir name fs
walk dir (name ∷ next ∷ names) fs =
    walk_in (λ index fs'. walk index (next ∷ names) fs') (chainfs_find_in_directory dir name fs)

abbrev pub is_empty {ℓ} : {A : Type ℓ} → List A → Bool
is_empty [] = true
is_empty (x ∷ xs) = false

unfoldable pub chainfs_resolve_path : List ℕ → ChainFs → ChainFs × Option Found
chainfs_resolve_path path fs =
    let components = split_path path 16 in
    let start = if is_absolute path then fs.superblock.root_dir_block else fs.current_dir_block in
    let loaded = read_sector start fs in
    let walked = walk start components fs in
    if is_empty components && is_absolute path
    then (
      loaded,
      some (record { entry = entry_at loaded.sector_buffer 0; block = start; offset = 0 }),
    )
    else walked

-- The path holds a slash: `strchr(filename, '/') != 0`.
unfoldable pub has_slash : List ℕ → Bool
has_slash [] = false
has_slash (c ∷ path) = c == slash || has_slash path

unfoldable pub chainfs_find_file : List ℕ → ChainFs → ChainFs × Option Found
chainfs_find_file filename fs =
    let resolved = chainfs_resolve_path filename fs in
    let found = chainfs_find_in_directory fs.current_dir_block filename fs in
    if has_slash filename then resolved else found

-- The bytes before the last slash, and those after it.
unfoldable pub cut_last : List ℕ → Option (List ℕ × List ℕ)
cut_last [] = none
cut_last (c ∷ path) = elim (cut_last path) [
  | some (before, after) ↦ some (c ∷ before, after)
  | none ↦ if c == slash then some ([], path) else none
]

abbrev pub dir_found : ChainFs × Option Found → ChainFs × Option ℕ
dir_found (fs, none) = (fs, none)
dir_found (fs, some f) = (fs, if f.entry.type_ == type_dir then some f.block else none)

-- The path resolves to a directory: the sector of its entry, which the callers use as its index.
unfoldable pub resolve_dir : List ℕ → ChainFs → ChainFs × Option ℕ
resolve_dir path fs = dir_found (chainfs_resolve_path path fs)

-- The name in a path, for the cut of the path.
abbrev pub name_in : List ℕ → Option (List ℕ × List ℕ) → List ℕ
name_in path none = path
name_in path (some (before, after)) = after

abbrev pub name_of : List ℕ → List ℕ
name_of path = name_in path (cut_last path)

-- `parent_path` of `chainfs_mkdir`; the root is "/".
abbrev pub parent_in : Option (List ℕ × List ℕ) → List ℕ
parent_in none = []
parent_in (some ([], after)) = slash ∷ []
parent_in (some (c ∷ before, after)) = c ∷ before

abbrev pub parent_of : List ℕ → List ℕ
parent_of path = parent_in (cut_last path)

-- The buffers of 256 and 32 bytes hold the two parts and their NULs.
abbrev pub parts_fit : List ℕ → Bool
parts_fit path = ltb (length (parent_of path)) max_path && ltb (length (name_of path)) 32

unfoldable pub mkdir_parent : List ℕ → ChainFs → ChainFs × Option ℕ
mkdir_parent path fs =
    let resolved = resolve_dir (parent_of path) fs in
    if is_empty (parent_of path) then (fs, some fs.current_dir_block) else resolved

unfoldable pub make_entry : ℕ → List ℕ → ChainFs × Option Found → ChainFs × Bool
make_entry parent name (fs, none) = (fs, false)
make_entry parent name (fs, some f) =
    let named = put_bytes (60 * f.offset + 2) (name ++ 0 ∷ []) in
    (edit_entry f.block (put_entry f.offset type_dir 0 0 parent named) fs, true)

-- With what `chainfs_find_in_directory` gives for the name.
abbrev pub mkdir_fresh : ℕ → List ℕ → ChainFs × Option Found → ChainFs × Bool
mkdir_fresh parent name (fs, some f) = (fs, false)
mkdir_fresh parent name (fs, none) = make_entry parent name (chainfs_find_free_file_entry fs)

-- With the parent's block, or `none` where the path has no such directory.
abbrev pub mkdir_under : List ℕ → ChainFs × Option ℕ → ChainFs × Bool
mkdir_under name (fs, none) = (fs, false)
mkdir_under name (fs, some parent) =
    mkdir_fresh parent name (chainfs_find_in_directory parent name fs)

-- `none` where the path overruns a buffer; else the state, and whether the result is 0.
unfoldable pub chainfs_mkdir : List ℕ → ChainFs → Option (ChainFs × Bool)
chainfs_mkdir path fs =
    if parts_fit path then some (mkdir_under (name_of path) (mkdir_parent path fs)) else none

-- With what the path resolves to.
abbrev pub enter_dir : ChainFs × Option Found → ChainFs × Bool
enter_dir (fs, none) = (fs, false)
enter_dir (fs, some f) =
    if f.entry.type_ == type_dir
    then (record fs { current_dir_block = entry_index f }, true)
    else (fs, false)

unfoldable pub chainfs_chdir : List ℕ → ChainFs → ChainFs × Bool
chainfs_chdir path fs = enter_dir (chainfs_resolve_path path fs)

abbrev pub list_in : ℕ → ChainFs × Option ℕ → ChainFs × Option (List FileEntry)
list_in max_files (fs, none) = (fs, none)
list_in max_files (fs, some d) =
    let (fs', files) = list_blocks (table_rounds fs) 1 max_files d fs in (fs', some files)

-- The entries listed with the result 0, or `none` for -1.
unfoldable pub chainfs_list_dir : List ℕ → ℕ → ChainFs → ChainFs × Option (List FileEntry)
chainfs_list_dir path max_files fs =
    list_in max_files
      (if is_empty path then (fs, some fs.current_dir_block) else resolve_dir path fs)

unfoldable pub chainfs_get_file_list : ℕ → ChainFs → ChainFs × Option (List FileEntry)
chainfs_get_file_list max_files fs = chainfs_list_dir [] max_files fs

abbrev pub lists_some : Option (List FileEntry) → Bool
lists_some none = false
lists_some (some files) = not (is_empty files)

-- With what the path resolves to.
abbrev pub remove_dir : List ℕ → ChainFs × Option Found → ChainFs × Bool
remove_dir path (fs, none) = (fs, false)
remove_dir path (fs, some f) =
    let (fs', listed) = chainfs_list_dir path 1 fs in
    if not (f.entry.type_ == type_dir) || f.block == fs.superblock.root_dir_block
    then (fs, false)
    else if lists_some listed
    then (fs', false)
    else (edit_entry f.block (clear_status f.offset) fs', true)

unfoldable pub chainfs_rmdir : List ℕ → ChainFs → ChainFs × Bool
chainfs_rmdir path fs = remove_dir path (chainfs_resolve_path path fs)
