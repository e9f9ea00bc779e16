-- ===== src/Programs/SelfTest.antt =====
-- The command test_fs of src/kernel/bin/shell.c, step by step.
use pizda.Prelude.{
  ℕ, ◌+◌, ◌%◌, ◌==◌, ltb, if◌then◌else◌, Option, none, some, bind, Bool, true, false, length,
  get_or, two32, List, [], ◌∷◌, ◌++◌, codes,
}
use pizda.Heap.{Heap}
use pizda.Screen.{print}
use pizda.ChainFs.{ChainFs, FileEntry, type_dir}
use pizda.ChainFs.Volume.{chainfs_format}
use pizda.ChainFs.Paths.{slash, chainfs_mkdir, chainfs_list_dir}
use pizda.ChainFs.Files.{Status, chainfs_read_file, chainfs_write_file}
use pizda.Programs.{Shell, show_line, string_of}
use pizda.Programs.Listing.{show_entries, finished}
use pizda.Programs.Outside.{Outside}

-- One message for the result 0 and one for the others.
abbrev pub said : List ℕ → List ℕ → Shell → ChainFs × Bool → Shell
said done failed s (fs, true) = show_line done 0x0A (record s { fs = fs })
said done failed s (fs, false) = show_line failed 0x0C (record s { fs = fs })

abbrev pub test_mkdir : List ℕ → Shell → Option Shell
test_mkdir path s = bind (chainfs_mkdir path s.fs) (λ r. some (
    said (codes "  mkdir " ++ path ++ codes " - OK") (codes "  mkdir " ++ path ++ codes " - FAILED")
      s r))

abbrev pub wrote : List ℕ → Shell → Heap × ChainFs × Status → Option Shell
wrote path s (heap, fs, Status.ok) =
    some (show_line (codes "  " ++ path ++ codes " - OK") 0x0A (record s { heap = heap; fs = fs }))
wrote path s (heap, fs, other) =
    some
      (show_line (codes "  " ++ path ++ codes " - FAILED") 0x0C (record s { heap = heap; fs = fs }))

abbrev pub test_write : Outside → List ℕ → List ℕ → Shell → Option Shell
test_write o path content s =
    bind
      (chainfs_write_file o.kernel_end o.fuel path (λ j. get_or content j 0)
        (length content % two32) s.heap s.fs)
      (wrote path s)

-- The line of an entry here.
unfoldable pub short_line : FileEntry → List ℕ → List ℕ
short_line e name =
    32 ∷ 32 ∷ (if e.type_ == type_dir then codes "[D]" else codes "[F]") ++ 32 ∷ name

abbrev pub test_listing : Shell → ChainFs × Option (List FileEntry) → Option Shell
test_listing s (fs, none) = some (record s { fs = fs })
test_listing s (fs, some es) = show_entries short_line es (record s { fs = fs })

abbrev pub test_list : List ℕ → Shell → Option Shell
test_list path s = test_listing s (chainfs_list_dir path 10 s.fs)

-- The label and the content in one row.
unfoldable pub show_content : List ℕ → List ℕ → ℕ → Shell → Shell
show_content label content col s = record s {
  screen = print content s.current_line col 0x0F (print label s.current_line 0 0x0A s.screen);
  current_line = s.current_line + 1;
}

-- With what `chainfs_read_file` gives; `read_buffer[bytes_read] = 0` needs a byte behind the content.
abbrev pub test_content :
    List ℕ → ℕ → Shell × (ℕ → ℕ) → ChainFs × Option (ℕ × (ℕ → ℕ)) → Option (Shell × (ℕ → ℕ))
test_content label col (s, read_buffer) (fs, none) = some (record s { fs = fs }, read_buffer)
test_content label col (s, read_buffer) (fs, some (bytes_read, out)) =
    if ltb bytes_read 256
    then some (
      show_content label (string_of bytes_read out) col (record s { fs = fs }),
      λ j. if j == bytes_read then 0 else out j,
    )
    else none

abbrev pub test_read : Outside → List ℕ → ℕ → Shell × (ℕ → ℕ) → Option (Shell × (ℕ → ℕ))
test_read o path col (s, read_buffer) =
    bind (chainfs_read_file o.fuel path 256 read_buffer s.fs)
      (test_content (codes "  " ++ path ++ codes ": ") col (s, read_buffer))

-- Test 1: directories.
unfoldable pub test_dirs : Shell → Option Shell
test_dirs s =
    bind (test_mkdir (codes "test") (show_line (codes "Creating directories...") 0x0F s))
      (test_mkdir (codes "test/subdir"))

-- Test 2: a file in the root.
unfoldable pub test_root : Outside → Shell → Option Shell
test_root o s =
    test_write o (codes "root.txt") (codes "root file content")
      (show_line (codes "Creating files in root...") 0x0F s)

-- Test 3: files in the directories.
unfoldable pub test_files : Outside → Shell → Option Shell
test_files o s =
    bind
      (test_write o (codes "test/file1.txt") (codes "test directory file")
        (show_line (codes "Creating files in test dir...") 0x0F s))
      (test_write o (codes "test/subdir/deep.txt") (codes "subdir file content"))

-- Tests 4 and 5: the directories are listed.
unfoldable pub list_second : Shell → Option Shell
list_second s = test_list (codes "test") (show_line (codes "Test directory contents:") 0x0F s)

unfoldable pub test_lists : Shell → Option Shell
test_lists s =
    bind (test_list (slash ∷ []) (show_line (codes "Root directory contents:") 0x0F s)) list_second

-- Test 6: the files are read.
unfoldable pub test_reads : Outside → Shell → Option (Shell × (ℕ → ℕ))
test_reads o s =
    bind (test_read o (codes "root.txt") 12 (show_line (codes "Reading files...") 0x0F s, o.stack))
      (test_read o (codes "test/file1.txt") 17)

unfoldable pub test_end : Shell × (ℕ → ℕ) → Option Shell
test_end (s, read_buffer) = finished (show_line (codes "=== Test Complete ===") 0x0A s)

unfoldable pub test_fs : Outside → Shell → Option Shell
test_fs o s =
    let headed = show_line (codes "=== ChainFS Directory Test ===") 0x0A s in
    let done =
      said (codes "format ok") (codes "format failed") headed
        (chainfs_format 20480 100 headed.fs) in
    bind
      (bind (bind (bind (bind (test_dirs done) (test_root o)) (test_files o)) test_lists)
        (test_reads o))
      test_end
