-- ===== src/ChainFs/Paths/Current.antt =====
-- The path of the current directory: `read_entry_by_index` and `chainfs_get_current_path`.
use pizda.Prelude.{
  ℕ, zero, suc, ◌+◌, ◌/◌, ◌%◌, ◌≡◌, ◌≢◌, ◌≤◌, ◌<◌, ap, ◌∙◌, arith, Option, none, some, true, false,
  ◌||◌, ◌==◌, ==_ne, ==_eq, leb, ltb, if◌then◌else◌, length, List, [], ◌∷◌, ◌++◌, append_nil, All,
}
use pizda.Pata.{Sector}
use pizda.Mlibc.{Str}
use pizda.Mlibc.Strings.{Holds}
use pizda.ChainFs.{ChainFs, FileEntry, eof_marker, entries_per_block, read_sector}
use pizda.ChainFs.Map.{buffered, sector}
use pizda.ChainFs.Table.{entry_at}
use pizda.ChainFs.Paths.{slash, max_path, is_empty}

-- The entry with the result 0.
unfoldable pub read_entry_by_index : ℕ → ChainFs → ChainFs × Option FileEntry
read_entry_by_index index fs =
    let loaded = read_sector (1 + index / entries_per_block) fs in
    if leb fs.superblock.total_files index
    then (fs, none)
    else (loaded, some (entry_at loaded.sector_buffer (index % entries_per_block)))

abbrev pub put_front : ℕ → Option (List ℕ) → Option (List ℕ)
put_front c none = none
put_front c (some cs) = some (c ∷ cs)

-- The bytes of a string up to its NUL; `none` if there is no NUL among the first `room` bytes.
unfoldable pub string_in : ℕ → Str → Option (List ℕ)
string_in zero s = none
string_in (suc room) s =
    let rest = put_front (s 0) (string_in room (λ j. s (suc j))) in
    if s 0 == 0 then some [] else rest

-- The bytes of an entry from its name on.
abbrev pub name_room : ℕ
name_room = 58

abbrev pub with_front : List ℕ → Option (List ℕ) → Option (List ℕ)
with_front temp_path none = none
with_front temp_path (some name) =
    let new_name = slash ∷ (name ++ temp_path) in
    if ltb (length new_name) max_path then some new_name else none

-- What a round of the loop leads to: the state and the path at its end.
abbrev pub next_path :
    (ℕ → List ℕ → ChainFs → Option (ChainFs × List ℕ))
    → ℕ
    → ChainFs
    → Option (List ℕ)
    → Option (ChainFs × List ℕ)
next_path next parent fs none = none
next_path next parent fs (some temp_path) = next parent temp_path fs

abbrev pub path_round :
    (ℕ → List ℕ → ChainFs → Option (ChainFs × List ℕ))
    → List ℕ
    → ChainFs × Option FileEntry
    → Option (ChainFs × List ℕ)
path_round next temp_path (fs, none) = some (fs, temp_path)
path_round next temp_path (fs, some e) =
    next_path next e.parent_block fs (with_front temp_path (string_in name_room e.name))

-- The loop up to the root; `none` says that the fuel ran out, or that a buffer is overrun.
unfoldable pub path_loop : ℕ → ℕ → List ℕ → ChainFs → Option (ChainFs × List ℕ)
path_loop zero current_idx temp_path fs = none
path_loop (suc fuel) current_idx temp_path fs =
    let rest = path_round (path_loop fuel) temp_path (read_entry_by_index current_idx fs) in
    if current_idx == fs.superblock.root_dir_block || current_idx == eof_marker
    then some (fs, temp_path)
    else rest

abbrev pub path_fits : ℕ → Option (ChainFs × List ℕ) → Option (ChainFs × Option (List ℕ))
path_fits buffer_size none = none
path_fits buffer_size (some (fs, temp_path)) =
    let path = if is_empty temp_path then slash ∷ [] else temp_path in
    some (fs, if ltb (length path) buffer_size then some path else none)

-- The path in the caller's buffer, or `none` for a null pointer.
unfoldable pub chainfs_get_current_path : ℕ → ℕ → ChainFs → Option (ChainFs × Option (List ℕ))
chainfs_get_current_path fuel buffer_size fs =
    if fs.current_dir_block == fs.superblock.root_dir_block
    then some (fs, if leb 2 buffer_size then some (slash ∷ []) else none)
    else path_fits buffer_size (path_loop fuel fs.current_dir_block [] fs)

string_in-Holds :
    (name : List ℕ) (room : ℕ) (s : Str)
    → All (λ c. c ≢ 0) name
    → length name < room
    → Holds s name
    → string_in room s ≡ some name
unfolding string_in
string_in-Holds name zero s h lt held = absurd (omega arith)
string_in-Holds [] (suc room) s h lt e = rw (==_eq (s 0) 0 e)
string_in-Holds (c ∷ cs) (suc room) s (nz, h) lt (e, held) =
    rw (e, ==_ne c 0 nz)
      (ap (put_front c) (string_in-Holds cs room (λ j. s (suc j)) h (omega arith) held))

read_entry-some :
    (index : ℕ) (fs : ChainFs)
    → index < fs.superblock.total_files
    → read_entry_by_index index fs ≡ (
      buffered fs (sector fs (1 + index / entries_per_block)),
      some (entry_at (sector fs (1 + index / entries_per_block)) (index % entries_per_block)),
    )
unfolding read_entry_by_index read_sector
read_entry-some index fs lt =
    let inside : leb fs.superblock.total_files index ≡ false = ground arith in rw inside

path_loop-round :
    (fuel idx : ℕ) (temp_path : List ℕ) (fs : ChainFs)
    → idx ≢ fs.superblock.root_dir_block
    → idx ≢ eof_marker
    → path_loop (suc fuel) idx temp_path fs
      ≡ path_round (path_loop fuel) temp_path (read_entry_by_index idx fs)
unfolding path_loop
path_loop-round fuel idx temp_path fs far not_eof =
    rw (==_ne idx fs.superblock.root_dir_block far, ==_ne idx eof_marker not_eof)

path_loop-root :
    (fuel idx : ℕ) (temp_path : List ℕ) (fs : ChainFs)
    → idx ≡ fs.superblock.root_dir_block
    → path_loop (suc fuel) idx temp_path fs ≡ some (fs, temp_path)
unfolding path_loop
path_loop-root fuel idx temp_path fs e = rw (==_eq idx fs.superblock.root_dir_block e)

-- A directory whose entry has a name and lies in the root has the path of its name.
pub get_current_path-name :
    (fuel buffer_size : ℕ) (name : List ℕ) (fs : ChainFs) (e : FileEntry)
    → All (λ c. c ≢ 0) name
    → length name ≤ 29
    → length name + 1 < buffer_size
    → fs.current_dir_block ≢ fs.superblock.root_dir_block
    → fs.current_dir_block ≢ eof_marker
    → fs.current_dir_block < fs.superblock.total_files
    → entry_at
        (sector fs (1 + fs.current_dir_block / entries_per_block))
        (fs.current_dir_block % entries_per_block)
      ≡ e
    → Holds e.name name
    → e.parent_block ≡ fs.superblock.root_dir_block
    → (s : Sector) × (chainfs_get_current_path (suc (suc fuel)) buffer_size fs
        ≡ some (buffered fs s, some (slash ∷ name)))
unfolding chainfs_get_current_path
get_current_path-name fuel buffer_size name fs e bytes short room far not_eof listed same held
      parent =
    let idx = fs.current_dir_block in
    let s = sector fs (1 + idx / entries_per_block) in
    let loaded = buffered fs s in
    let next = path_loop (suc fuel) in
    let fits : ltb (length (slash ∷ name)) max_path ≡ true = ground arith in
    let out : ltb (length (slash ∷ name)) buffer_size ≡ true = ground arith in
    let front : with_front [] (some name) ≡ some (slash ∷ name) = rw (append_nil name, fits) in
    let found : with_front [] (string_in name_room e.name) ≡ some (slash ∷ name) =
      ap (with_front []) (string_in-Holds name name_room e.name bytes (omega arith) held) ∙ front in
    let loop : path_loop (suc (suc fuel)) idx [] fs ≡ some (loaded, slash ∷ name) =
      path_loop-round (suc fuel) idx [] fs far not_eof
      ∙ ap (path_round next []) (read_entry-some idx fs listed)
      ∙ ap (λ (x : FileEntry). path_round next [] (loaded, some x)) same
      ∙ ap (next_path next e.parent_block loaded) found
      ∙ path_loop-root fuel e.parent_block (slash ∷ name) loaded parent in
    (s, rw (==_ne idx fs.superblock.root_dir_block far) (ap (path_fits buffer_size) loop ∙ rw out))
