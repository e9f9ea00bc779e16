-- ===== src/Programs/Listing.antt =====
-- The command ls of src/kernel/bin/shell.c: the line for an entry, and the loop over the entries.
use pizda.Prelude.{
  ℕ, ◌==◌, ltb, if◌then◌else◌, Option, none, some, bind, length, List, [], ◌∷◌, ◌++◌, codes,
}
use pizda.ChainFs.{ChainFs, FileEntry, type_file, type_dir}
use pizda.ChainFs.Paths.{chainfs_list_dir}
use pizda.ChainFs.Paths.Current.{name_room, string_in}
use pizda.Programs.{Shell, show_line, finish}
use pizda.Programs.Outside.{Outside}

-- The string in the field `name`: `none` where the entry has no NUL from there on.
abbrev pub entry_name : FileEntry → Option (List ℕ)
entry_name e = string_in name_room e.name

abbrev pub size_text : Outside → FileEntry → List ℕ
size_text o e =
    if e.type_ == type_file then codes " (" ++ o.itoa e.size 10 ++ codes " bytes)" else []

-- `file_info`
unfoldable pub entry_line : Outside → FileEntry → List ℕ → List ℕ
entry_line o e name =
    (if e.type_ == type_dir then codes "[DIR]" else codes "[FILE]") ++ 32 ∷ name ++ size_text o e

-- A line in a buffer of 80 bytes; `none` where it overruns the buffer.
unfoldable pub show_buffer : List ℕ → Shell → Option Shell
show_buffer line s = if ltb (length line) 80 then some (show_line line 0x0F s) else none

-- `line` makes the line of an entry and its name.
unfoldable pub show_entries : (FileEntry → List ℕ → List ℕ) → List FileEntry → Shell → Option Shell
show_entries line [] s = some s
show_entries line (e ∷ es) s =
    bind (entry_name e) (λ name. bind (show_buffer (line e name) s) (show_entries line es))

-- With what `chainfs_list_dir` gives.
abbrev pub show_listing : Outside → Shell → ChainFs × Option (List FileEntry) → Option Shell
show_listing o s (fs, none) =
    some (show_line (codes "Error reading directory") 0x0C (record s { fs = fs }))
show_listing o s (fs, some []) =
    some (show_line (codes "Directory is empty") 0x0F (record s { fs = fs }))
show_listing o s (fs, some (e ∷ es)) = show_entries (entry_line o) (e ∷ es) (record s { fs = fs })

abbrev pub finished : Shell → Option Shell
finished s = some (finish s)

unfoldable pub ls : Outside → List ℕ → Shell → Option Shell
ls o path s = bind (show_listing o s (chainfs_list_dir path 20 s.fs)) finished
