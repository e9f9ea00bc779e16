-- ===== src/Programs.antt =====
-- The programs touch, cat and mydir of src/kernel/bin, touch.c, cat.c and mydir.c. They work on the file system and
-- the screen; `*current_line` is part of the state. A command line is the list of its bytes without
-- the NUL, and `none` says that the fuel of a chain ran out.
pub mod Lines
pub mod RoundTrip
pub mod Outside
pub mod Info
pub mod Calc
pub mod Disk
pub mod Listing
pub mod SelfTest
pub mod Command
pub mod Dispatch
pub mod Sound
pub mod Invariant
pub mod Dump
pub mod Divide
pub mod Returns
mod Examples
use pizda.Prelude.{
  ℕ, zero, suc, ◌+◌, ◌%◌, Option, none, some, Bool, true, false, ◌&&◌, ◌==◌, leb, if◌then◌else◌,
  two32, length, get_or, drop, List, [], ◌∷◌, ◌++◌,
}
use pizda.Heap.{Heap}
use pizda.Screen.{Screen, print}
use pizda.Keyboard.{prompt}
use pizda.ChainFs.{ChainFs}
use pizda.ChainFs.Paths.Current.{chainfs_get_current_path}
use pizda.ChainFs.Files.{Status, chainfs_read_file, chainfs_write_file}

pub record Shell : Type 0 where
  pub heap : Heap
  pub fs : ChainFs
  pub screen : Screen
  pub current_line : ℕ

-- `print(text, (*current_line)++, 0, color)`
unfoldable pub show_line : List ℕ → ℕ → Shell → Shell
show_line text color s = record s {
  screen = print text s.current_line 0 color s.screen;
  current_line = s.current_line + 1;
}

-- `if (*current_line >= 25) *current_line = 24;`
unfoldable pub clamp_line : Shell → Shell
clamp_line s = if leb 25 s.current_line then record s { current_line = 24 } else s

-- The prompt that ends a program.
unfoldable pub finish : Shell → Shell
finish s = clamp_line (record s { screen = print prompt s.current_line 0 0x0F s.screen })

-- The tests of `s_buf[0]`, `s_buf[1]` and so on.
abbrev pub starts_with : List ℕ → List ℕ → Bool
starts_with [] ys = true
starts_with (x ∷ xs) [] = false
starts_with (x ∷ xs) (y ∷ ys) = y == x && starts_with xs ys

-- "touch "
abbrev pub touch_word : List ℕ
touch_word = 116 ∷ 111 ∷ 117 ∷ 99 ∷ 104 ∷ 32 ∷ []

-- " -C "
abbrev pub content_flag : List ℕ
content_flag = 32 ∷ 45 ∷ 67 ∷ 32 ∷ []

-- "failed to create"
abbrev pub create_failed : List ℕ
create_failed =
    102 ∷ 97 ∷ 105 ∷ 108 ∷ 101 ∷ 100 ∷ 32 ∷ 116 ∷ 111 ∷ 32 ∷ 99 ∷ 114 ∷ 101 ∷ 97 ∷ 116 ∷ 101 ∷ []

-- "Usage: touch [name] -C content"
abbrev pub touch_usage : List ℕ
touch_usage =
    85 ∷ 115 ∷ 97 ∷ 103 ∷ 101 ∷ 58 ∷ 32 ∷ 116 ∷ 111 ∷ 117 ∷ 99 ∷ 104 ∷ 32 ∷ 91 ∷ 110 ∷ 97 ∷ 109
    ∷ 101 ∷ 93 ∷ 32 ∷ 45 ∷ 67 ∷ 32 ∷ 99 ∷ 111 ∷ 110 ∷ 116 ∷ 101 ∷ 110 ∷ 116 ∷ []

-- The loop over `ptr`: the name, and the content behind the first flag.
unfoldable pub cut_content : List ℕ → List ℕ × List ℕ
cut_content [] = ([], [])
cut_content (c ∷ cs) =
    let (name, content) = cut_content cs in
    if starts_with content_flag (c ∷ cs) then ([], drop 4 (c ∷ cs)) else (c ∷ name, content)

abbrev pub touched : Shell → Option (Heap × ChainFs × Status) → Option Shell
touched s none = none
touched s (some (heap, fs, Status.ok)) = some (finish (record s { heap = heap; fs = fs }))
touched s (some (heap, fs, other)) =
    some (finish (show_line create_failed 0x0C (record s { heap = heap; fs = fs })))

abbrev pub touch_file : ℕ → ℕ → List ℕ × List ℕ → Shell → Option Shell
touch_file kernel_end fuel (name, content) s = touched s (
    chainfs_write_file kernel_end fuel name (λ j. get_or content j 0) (length content % two32)
      s.heap s.fs)

unfoldable pub touch : ℕ → ℕ → List ℕ → Shell → Option Shell
touch kernel_end fuel s_buf s =
    if starts_with touch_word s_buf
    then touch_file kernel_end fuel (cut_content (drop 6 s_buf)) s
    else some (finish (show_line touch_usage 0x0C s))

-- "cat "
abbrev pub cat_word : List ℕ
cat_word = 99 ∷ 97 ∷ 116 ∷ 32 ∷ []

-- "failed to read"
abbrev pub read_failed : List ℕ
read_failed = 102 ∷ 97 ∷ 105 ∷ 108 ∷ 101 ∷ 100 ∷ 32 ∷ 116 ∷ 111 ∷ 32 ∷ 114 ∷ 101 ∷ 97 ∷ 100 ∷ []

-- "use: cat {filename}"
abbrev pub cat_usage : List ℕ
cat_usage =
    117 ∷ 115 ∷ 101 ∷ 58 ∷ 32 ∷ 99 ∷ 97 ∷ 116 ∷ 32 ∷ 123 ∷ 102 ∷ 105 ∷ 108 ∷ 101 ∷ 110 ∷ 97 ∷ 109
    ∷ 101 ∷ 125 ∷ []

-- The string in the buffer: `n` bytes with a NUL behind them, up to the first NUL.
unfoldable pub string_of : ℕ → (ℕ → ℕ) → List ℕ
string_of zero buffer = []
string_of (suc n) buffer =
    let rest = string_of n (λ j. buffer (suc j)) in if buffer 0 == 0 then [] else buffer 0 ∷ rest

-- The loop over `line`: `passed` are its bytes that `strchr` has gone past in search of a newline.
unfoldable pub cat_lines : List ℕ → List ℕ → Shell → Shell
cat_lines [] [] s = s
cat_lines (c ∷ passed) [] s = clamp_line (show_line (c ∷ passed) 0x0F s)
cat_lines passed (c ∷ text) s =
    let next = cat_lines [] text (clamp_line (show_line passed 0x0F s)) in
    let further = cat_lines (passed ++ c ∷ []) text s in if c == 10 then next else further

abbrev pub cat_read : Shell → Option (ChainFs × Option (ℕ × (ℕ → ℕ))) → Option Shell
cat_read s none = none
cat_read s (some (fs, none)) = some (finish (show_line read_failed 0x0C (record s { fs = fs })))
cat_read s (some (fs, some (bytes_read, buffer))) =
    some (finish (cat_lines [] (string_of bytes_read buffer) (record s { fs = fs })))

-- `buffer` is what the 2048 bytes on the stack hold before.
unfoldable pub cat : ℕ → (ℕ → ℕ) → List ℕ → Shell → Option Shell
cat fuel buffer s_buf s =
    if starts_with cat_word s_buf
    then cat_read s (chainfs_read_file fuel (drop 4 s_buf) 2047 buffer s.fs)
    else some (finish (show_line cat_usage 0x0C s))

-- "Current directory: "
abbrev pub directory_label : List ℕ
directory_label =
    67 ∷ 117 ∷ 114 ∷ 114 ∷ 101 ∷ 110 ∷ 116 ∷ 32 ∷ 100 ∷ 105 ∷ 114 ∷ 101 ∷ 99 ∷ 116 ∷ 111 ∷ 114 ∷ 121
    ∷ 58 ∷ 32 ∷ []

-- "Error getting current directory"
abbrev pub directory_failed : List ℕ
directory_failed =
    69 ∷ 114 ∷ 114 ∷ 111 ∷ 114 ∷ 32 ∷ 103 ∷ 101 ∷ 116 ∷ 116 ∷ 105 ∷ 110 ∷ 103 ∷ 32 ∷ 99 ∷ 117 ∷ 114
    ∷ 114 ∷ 101 ∷ 110 ∷ 116 ∷ 32 ∷ 100 ∷ 105 ∷ 114 ∷ 101 ∷ 99 ∷ 116 ∷ 111 ∷ 114 ∷ 121 ∷ []

-- The string that `dir` points at, after the call, with the state.
abbrev pub mydir_path :
    List ℕ → Shell → Option (ChainFs × Option (List ℕ)) → Option (Shell × List ℕ)
mydir_path dir s none = none
mydir_path dir s (some (fs, none)) =
    some (finish (show_line directory_failed 0x0C (record s { fs = fs })), dir)
mydir_path dir s (some (fs, some path)) =
    let labelled = show_line directory_label 0x0F (record s { fs = fs }) in
    some (finish (show_line path 0x0A labelled), path)

unfoldable pub mydir : ℕ → List ℕ → Shell → Option (Shell × List ℕ)
mydir fuel dir s = mydir_path dir s (chainfs_get_current_path fuel 256 s.fs)
