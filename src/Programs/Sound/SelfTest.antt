-- ===== src/Programs/Sound/SelfTest.antt =====
-- The command test_fs keeps the state sound.
use pizda.Prelude.{
  ℕ, ◌%◌, Option, some, none, Bool-cases, inl, inr, ltb, List, [], ◌∷◌, ◌++◌, codes, bind, length,
  get_or, two32, IfSome, IfSome-bind,
}
use pizda.Heap.{Heap}
use pizda.Heap.State.{whole}
use pizda.ChainFs.{ChainFs, FileEntry}
use pizda.ChainFs.Volume.{chainfs_format}
use pizda.ChainFs.Paths.{slash, chainfs_mkdir, chainfs_list_dir}
use pizda.ChainFs.Files.{Status, chainfs_read_file, chainfs_write_file}
use pizda.ChainFs.Layout.{Unchanged}
use pizda.ChainFs.Layout.Names.{mkdir-layout, list_dir-layout}
use pizda.ChainFs.Layout.Contents.{Restored, read_file-layout, write_file-Restored}
use pizda.Programs.{Shell, show_line}
use pizda.Programs.Outside.{Outside}
use pizda.Programs.SelfTest.{
  said, test_mkdir, wrote, test_write, short_line, test_listing, test_list, show_content,
  test_content, test_read, test_dirs, test_root, test_files, list_second, test_lists, test_reads,
  test_end, test_fs,
}
use pizda.Programs.Sound.{
  IsSound, with_fs, IsVolume-layout, IsSound-fs, IsSound-show_line, IsSound-message,
}
use pizda.Programs.Sound.Volumes.{
  show_entries-IsSound, said_of-IsSound, said-IsSound, formatted-IsSound,
}

test_mkdir-IsSound : (path : List ℕ) (s : Shell) → IsSound s → IfSome IsSound (test_mkdir path s)
test_mkdir-IsSound path s v =
    IfSome-bind IsSound (chainfs_mkdir path s.fs) _ (mkdir-layout path s.fs)
      (λ r h. said-IsSound _ _ s r v h)

module _ (path : List ℕ) (s : Shell) (v : IsSound s) where
  wrote-IsSound :
      (r : Heap × ChainFs × Status) → Restored whole s.fs r → IfSome IsSound (wrote path s r)
  wrote-IsSound (heap, fs, Status.ok) (k, e) =
      IsSound-show_line _ 0x0A (record s { heap = heap; fs = fs })
        (k, IsVolume-layout s.fs fs e (v.1))
  wrote-IsSound (heap, fs, Status.failed) (k, e) =
      IsSound-show_line _ 0x0C (record s { heap = heap; fs = fs })
        (k, IsVolume-layout s.fs fs e (v.1))
  wrote-IsSound (heap, fs, Status.not_formatted) (k, e) =
      IsSound-show_line _ 0x0C (record s { heap = heap; fs = fs })
        (k, IsVolume-layout s.fs fs e (v.1))

  test_write-IsSound :
      (o : Outside) (content : List ℕ) → IfSome IsSound (test_write o path content s)
  test_write-IsSound o content =
      IfSome-bind IsSound
        (chainfs_write_file o.kernel_end o.fuel path (λ j. get_or content j 0)
          (length content % two32) s.heap s.fs)
        (wrote path s) (write_file-Restored o.kernel_end o.fuel path _ _ s.heap whole s.fs (v.0))
        wrote-IsSound

  test_listing-IsSound :
      (r : ChainFs × Option (List FileEntry)) → Unchanged s.fs r → IfSome IsSound (test_listing s r)
  test_listing-IsSound (fs, none) h = IsSound-fs s fs h v
  test_listing-IsSound (fs, some es) h =
      show_entries-IsSound short_line es (with_fs s fs) (IsSound-fs s fs h v)

  test_list-IsSound : IfSome IsSound (test_list path s)
  test_list-IsSound =
      test_listing-IsSound (chainfs_list_dir path 10 s.fs) (list_dir-layout path 10 s.fs)

-- The state of a step that keeps `read_buffer`.
abbrev IsSoundRead : Shell × (ℕ → ℕ) → Type 0
IsSoundRead r = IsSound r.0

test_content-IsSound :
    (label : List ℕ) (col : ℕ) (t : Shell × (ℕ → ℕ)) (r : ChainFs × Option (ℕ × (ℕ → ℕ)))
    → IsSoundRead t
    → Unchanged t.0.fs r
    → IfSome IsSoundRead (test_content label col t r)
unfolding show_content
test_content-IsSound label col (s, read_buffer) (fs, none) v h = IsSound-fs s fs h v
test_content-IsSound label col (s, read_buffer) (fs, some (bytes_read, out)) v h =
    elim (Bool-cases (ltb bytes_read 256)) [ inl e ↦ rw e (IsSound-fs s fs h v) | inr e ↦ rw e tt ]

test_read-IsSound :
    (o : Outside) (path : List ℕ) (col : ℕ) (t : Shell × (ℕ → ℕ))
    → IsSoundRead t
    → IfSome IsSoundRead (test_read o path col t)
test_read-IsSound o path col (s, read_buffer) v =
    IfSome-bind IsSoundRead (chainfs_read_file o.fuel path 256 read_buffer s.fs)
      (test_content (codes "  " ++ path ++ codes ": ") col (s, read_buffer))
      (read_file-layout o.fuel path 256 read_buffer s.fs)
      (λ r h. test_content-IsSound _ col (s, read_buffer) r v h)

test_format-IsSound :
    (s : Shell)
    → IsSound s
    → IsSound (said (codes "format ok") (codes "format failed") s (chainfs_format 20480 100 s.fs))
test_format-IsSound s v =
    said_of-IsSound (codes "format ok") (codes "format failed") s (chainfs_format 20480 100 s.fs)
      (formatted-IsSound s s.fs v)

test_dirs-IsSound : (s : Shell) → IsSound s → IfSome IsSound (test_dirs s)
unfolding test_dirs
test_dirs-IsSound s v =
    let headed = show_line (codes "Creating directories...") 0x0F s in
    IfSome-bind IsSound (test_mkdir (codes "test") headed) (test_mkdir (codes "test/subdir"))
      (test_mkdir-IsSound (codes "test") headed (IsSound-show_line _ 0x0F s v))
      (test_mkdir-IsSound (codes "test/subdir"))

test_root-IsSound : (o : Outside) (s : Shell) → IsSound s → IfSome IsSound (test_root o s)
unfolding test_root
test_root-IsSound o s v =
    let headed = show_line (codes "Creating files in root...") 0x0F s in
    test_write-IsSound (codes "root.txt") headed (IsSound-show_line _ 0x0F s v) o
      (codes "root file content")

test_files-IsSound : (o : Outside) (s : Shell) → IsSound s → IfSome IsSound (test_files o s)
unfolding test_files
test_files-IsSound o s v =
    let headed = show_line (codes "Creating files in test dir...") 0x0F s in
    IfSome-bind IsSound (test_write o (codes "test/file1.txt") (codes "test directory file") headed)
      (test_write o (codes "test/subdir/deep.txt") (codes "subdir file content"))
      (test_write-IsSound (codes "test/file1.txt") headed (IsSound-show_line _ 0x0F s v) o
        (codes "test directory file"))
      (λ t u. test_write-IsSound (codes "test/subdir/deep.txt") t u o (codes "subdir file content"))

test_lists-IsSound : (s : Shell) → IsSound s → IfSome IsSound (test_lists s)
unfolding test_lists list_second
test_lists-IsSound s v =
    let headed = show_line (codes "Root directory contents:") 0x0F s in
    IfSome-bind IsSound (test_list (slash ∷ []) headed) list_second
      (test_list-IsSound (slash ∷ []) headed (IsSound-show_line _ 0x0F s v))
      (λ t u. test_list-IsSound (codes "test") (show_line _ 0x0F t) (IsSound-show_line _ 0x0F t u))

test_reads-IsSound : (o : Outside) (s : Shell) → IsSound s → IfSome IsSoundRead (test_reads o s)
unfolding test_reads
test_reads-IsSound o s v =
    let headed = show_line (codes "Reading files...") 0x0F s in
    IfSome-bind IsSoundRead (test_read o (codes "root.txt") 12 (headed, o.stack))
      (test_read o (codes "test/file1.txt") 17)
      (test_read-IsSound o (codes "root.txt") 12 (headed, o.stack) (IsSound-show_line _ 0x0F s v))
      (test_read-IsSound o (codes "test/file1.txt") 17)

test_end-IsSound : (r : Shell × (ℕ → ℕ)) → IsSoundRead r → IfSome IsSound (test_end r)
unfolding test_end
test_end-IsSound (s, read_buffer) v = IsSound-message (codes "=== Test Complete ===") 0x0A s v

pub test_fs-IsSound : (o : Outside) (s : Shell) → IsSound s → IfSome IsSound (test_fs o s)
unfolding test_fs
test_fs-IsSound o s v =
    let headed = show_line (codes "=== ChainFS Directory Test ===") 0x0A s in
    let done =
      said (codes "format ok") (codes "format failed") headed
        (chainfs_format 20480 100 headed.fs) in
    let start : IsSound done = test_format-IsSound headed (IsSound-show_line _ 0x0A s v) in
    let b1 = test_dirs done in
    let b2 = bind b1 (test_root o) in
    let b3 = bind b2 (test_files o) in
    let b4 = bind b3 test_lists in
    IfSome-bind IsSound (bind b4 (test_reads o)) test_end
      (IfSome-bind IsSoundRead b4 (test_reads o)
        (IfSome-bind IsSound b3 test_lists
          (IfSome-bind IsSound b2 (test_files o)
            (IfSome-bind IsSound b1 (test_root o) (test_dirs-IsSound done start)
              (test_root-IsSound o))
            (test_files-IsSound o))
          test_lists-IsSound)
        (test_reads-IsSound o))
      test_end-IsSound
