-- ===== src/Programs/Sound.antt =====
-- What every command keeps: the heap in one free block, the volume as it was formatted, and the row
-- on the screen.
pub mod Screens
pub mod Volumes
pub mod SelfTest
use pizda.Prelude.{
  ℕ, suc, ◌+◌, ◌*◌, ◌≤◌, ◌≡◌, refl, sym, ap, ◌∙◌, arith, words, Option, some, none, Option-cases,
  Bool, true, false, Bool-cases, inl, inr, ◌⊎◌, leb, ltb, ◌==◌, List, [], ◌∷◌, length, ◌++◌, codes,
  bind, IfSome, IfSome-bind, IfSome-map, add32, sub32,
}
use mathlib.Core.Path.{subst}
use pizda.Heap.{Heap}
use pizda.Heap.State.{IsHeap, whole}
use pizda.ChainFs.{Superblock, ChainFs, FileEntry}
use pizda.ChainFs.Map.{IsMounted}
use pizda.ChainFs.Volume.{formatted, blocks_for, chainfs_init, chainfs_format}
use pizda.ChainFs.Volume.Mount.{chainfs_format-IsMounted}
use pizda.ChainFs.Files.{Status, chainfs_read_file, chainfs_write_file}
use pizda.ChainFs.Layout.{layout, Unchanged}
use pizda.ChainFs.Layout.Names.{get_current_path-layout}
use pizda.ChainFs.Layout.Contents.{Restored, read_file-layout, write_file-Restored}
use pizda.Programs.{
  Shell, show_line, clamp_line, finish, starts_with, touch_word, touched, touch_file, cut_content,
  touch, cat_word, string_of, cat_lines, cat_read, cat, mydir_path, mydir,
}
use pizda.ChainFs.Paths.Current.{chainfs_get_current_path}
use pizda.Programs.Info.{show_texts}

-- 20480 blocks and 100 files, as the shell formats the disk.
abbrev pub standard : Superblock
standard = formatted 20480 100

-- No volume is mounted yet, or the one that the shell formats.
abbrev pub IsVolume : Superblock × ℕ → Type 0
IsVolume (sb, data_area_start) = (sb.magic ≡ 0) ⊎ ((sb ≡ standard) × (data_area_start ≡ 174))

-- The heap is one free block, and the volume is none or the standard one.
abbrev pub IsSound : Shell → Type 0
IsSound s = IsHeap s.heap whole × IsVolume (layout s.fs)

pub IsVolume-layout :
    (fs fs' : ChainFs) → layout fs' ≡ layout fs → IsVolume (layout fs) → IsVolume (layout fs')
IsVolume-layout fs fs' e v = subst IsVolume (sym e) v

abbrev pub with_fs : Shell → ChainFs → Shell
with_fs s fs = record s { fs = fs }

pub IsSound-fs :
    (s : Shell) (fs : ChainFs) → layout fs ≡ layout s.fs → IsSound s → IsSound (with_fs s fs)
IsSound-fs s fs e (heap, volume) = (heap, IsVolume-layout s.fs fs e volume)

pub IsSound-show_line :
    (text : List ℕ) (color : ℕ) (s : Shell) → IsSound s → IsSound (show_line text color s)
unfolding show_line
IsSound-show_line text color s v = v

pub IsSound-clamp_line : (s : Shell) → IsSound s → IsSound (clamp_line s)
unfolding clamp_line
IsSound-clamp_line s v = elim (Bool-cases (leb 25 s.current_line)) [
  | inl e ↦ rw e v
  | inr e ↦ rw e v
]

pub clamp_line-row : (s : Shell) → (clamp_line s).current_line ≤ 24
unfolding clamp_line
clamp_line-row s = elim (Bool-cases (leb 25 s.current_line)) [
  | inl e ↦ rw e (omega arith)
  | inr e ↦ rw e (ground arith)
]

pub IsSound-finish : (s : Shell) → IsSound s → IsSound (finish s)
unfolding finish
IsSound-finish s v = IsSound-clamp_line _ v

pub IsSound-show_texts :
    (color : ℕ) (texts : List (List ℕ)) (s : Shell) → IsSound s → IsSound (show_texts color texts s)
IsSound-show_texts color [] s v = v
IsSound-show_texts color (text ∷ texts) s v =
    IsSound-show_texts color texts (show_line text color s) (IsSound-show_line text color s v)

-- A program that shows a message and the prompt.
pub IsSound-message :
    (text : List ℕ) (color : ℕ) (s : Shell) → IsSound s → IsSound (finish (show_line text color s))
IsSound-message text color s v =
    IsSound-finish (show_line text color s) (IsSound-show_line text color s v)

cat_lines-IsSound :
    (passed text : List ℕ) (s : Shell) → IsSound s → IsSound (cat_lines passed text s)
unfolding cat_lines
cat_lines-IsSound [] [] s v = v
cat_lines-IsSound (p ∷ ps) [] s v =
    IsSound-clamp_line (show_line (p ∷ ps) 0x0F s) (IsSound-show_line (p ∷ ps) 0x0F s v)
cat_lines-IsSound [] (c ∷ text) s v = elim (Bool-cases (c == 10)) [
  | inl e ↦ rw e (
      cat_lines-IsSound [] text (clamp_line (show_line [] 0x0F s))
        (IsSound-clamp_line (show_line [] 0x0F s) (IsSound-show_line [] 0x0F s v)))
  | inr e ↦ rw e (cat_lines-IsSound (c ∷ []) text s v)
]
cat_lines-IsSound (p ∷ ps) (c ∷ text) s v = elim (Bool-cases (c == 10)) [
  | inl e ↦ rw e (
      cat_lines-IsSound [] text (clamp_line (show_line (p ∷ ps) 0x0F s))
        (IsSound-clamp_line (show_line (p ∷ ps) 0x0F s) (IsSound-show_line (p ∷ ps) 0x0F s v)))
  | inr e ↦ rw e (cat_lines-IsSound (p ∷ (ps ++ c ∷ [])) text s v)
]

module _ (s : Shell) (v : IsSound s) where
  touched-IsSound :
      (o : Option (Heap × ChainFs × Status))
      → IfSome (Restored whole s.fs) o
      → IfSome IsSound (touched s o)
  touched-IsSound none h = tt
  touched-IsSound (some (heap, fs, Status.ok)) (k, e) =
      IsSound-finish (record s { heap = heap; fs = fs }) (k, IsVolume-layout s.fs fs e (v.1))
  touched-IsSound (some (heap, fs, Status.failed)) (k, e) =
      IsSound-message _ 0x0C (record s { heap = heap; fs = fs })
        (k, IsVolume-layout s.fs fs e (v.1))
  touched-IsSound (some (heap, fs, Status.not_formatted)) (k, e) =
      IsSound-message _ 0x0C (record s { heap = heap; fs = fs })
        (k, IsVolume-layout s.fs fs e (v.1))

  pub touch-IsSound :
      (kernel_end fuel : ℕ) (line : List ℕ) → IfSome IsSound (touch kernel_end fuel line s)
  unfolding touch
  touch-IsSound kernel_end fuel line = elim (Bool-cases (starts_with touch_word line)) [
    | inl e ↦
        rw e (touched-IsSound _ (write_file-Restored kernel_end fuel _ _ _ s.heap whole s.fs (v.0)))
    | inr e ↦ rw e (IsSound-message _ 0x0C s v)
  ]

  cat_read-IsSound :
      (o : Option (ChainFs × Option (ℕ × (ℕ → ℕ))))
      → IfSome (Unchanged s.fs) o
      → IfSome IsSound (cat_read s o)
  cat_read-IsSound none h = tt
  cat_read-IsSound (some (fs, none)) h = IsSound-message _ 0x0C (with_fs s fs) (IsSound-fs s fs h v)
  cat_read-IsSound (some (fs, some (bytes_read, buffer))) h =
      let after = with_fs s fs in
      IsSound-finish (cat_lines [] (string_of bytes_read buffer) after)
        (cat_lines-IsSound [] (string_of bytes_read buffer) after (IsSound-fs s fs h v))

  pub cat-IsSound :
      (fuel : ℕ) (buffer : ℕ → ℕ) (line : List ℕ) → IfSome IsSound (cat fuel buffer line s)
  unfolding cat
  cat-IsSound fuel buffer line = elim (Bool-cases (starts_with cat_word line)) [
    | inl e ↦ rw e (cat_read-IsSound _ (read_file-layout fuel _ 2047 buffer s.fs))
    | inr e ↦ rw e (IsSound-message _ 0x0C s v)
  ]

-- The state of a program that gives `dir` as well.
abbrev pub IsSoundWith : Shell × List ℕ → Type 0
IsSoundWith r = IsSound r.0

mydir_path-IsSound :
    (dir : List ℕ) (s : Shell) (o : Option (ChainFs × Option (List ℕ)))
    → IsSound s
    → IfSome (Unchanged s.fs) o
    → IfSome IsSoundWith (mydir_path dir s o)
mydir_path-IsSound dir s none v h = tt
mydir_path-IsSound dir s (some (fs, none)) v h =
    IsSound-message _ 0x0C (with_fs s fs) (IsSound-fs s fs h v)
mydir_path-IsSound dir s (some (fs, some path)) v h =
    IsSound-message path 0x0A (show_line _ 0x0F (with_fs s fs))
      (IsSound-show_line _ 0x0F (with_fs s fs) (IsSound-fs s fs h v))

pub mydir-IsSound :
    (fuel : ℕ) (dir : List ℕ) (s : Shell) → IsSound s → IfSome IsSoundWith (mydir fuel dir s)
unfolding mydir
mydir-IsSound fuel dir s v =
    mydir_path-IsSound dir s (chainfs_get_current_path fuel 256 s.fs) v
      (get_current_path-layout fuel 256 s.fs)

pub standard-fields :
    (standard.block_count ≡ 20480)
    × (standard.file_table_block_count ≡ 13)
    × (standard.block_map_block_count ≡ 160)
unfolding formatted blocks_for add32 sub32
standard-fields = (refl, refl, refl)

pub format_fits : 1 + standard.file_table_block_count + standard.block_map_block_count ≡ 174
unfolding formatted blocks_for add32 sub32
format_fits = refl

-- The format command's call succeeds, and mounts the standard volume.
pub format-standard :
    (fs : ChainFs)
    → ((chainfs_format 20480 100 fs).1 ≡ true)
      × (layout (chainfs_format 20480 100 fs).0 ≡ (standard, 174))
      × ((chainfs_format 20480 100 fs).0.current_dir_block ≡ 0)
      × IsMounted (chainfs_format 20480 100 fs).0
format-standard fs =
    let (done, sb, dir, mounted) =
      chainfs_format-IsMounted 20480 100 (omega arith) (omega arith) (omega (arith, format_fits))
        fs in
    let start : (chainfs_format 20480 100 fs).0.data_area_start ≡ 174 =
      mounted.areas
      ∙ ap (λ (b : Superblock). 1 + b.file_table_block_count + b.block_map_block_count) sb
      ∙ format_fits in
    (done, (λ i. (sb i, start i)), dir, mounted)
