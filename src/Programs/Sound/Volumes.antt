-- ===== src/Programs/Sound/Volumes.antt =====
-- The commands on directories and on the volume keep the state sound: ls, mkdir, rmdir, cd and format.
use pizda.Prelude.{
  ℕ, ap, Option, some, none, Option-cases, Bool, true, false, Bool-cases, inl, inr, ltb, List, [],
  ◌∷◌, length, IfSome, IfSome-bind,
}
use pizda.ChainFs.{Superblock, ChainFs, FileEntry}
use pizda.ChainFs.Volume.{chainfs_init, chainfs_format}
use pizda.ChainFs.Paths.{chainfs_mkdir, chainfs_chdir, chainfs_list_dir, chainfs_rmdir}
use pizda.ChainFs.Paths.Current.{chainfs_get_current_path}
use pizda.ChainFs.Layout.{Unchanged}
use pizda.ChainFs.Layout.Names.{
  mkdir-layout, chdir-layout, list_dir-layout, rmdir-layout, get_current_path-layout,
}
use pizda.Programs.{Shell, show_line}
use pizda.Programs.Outside.{Outside}
use pizda.Programs.Listing.{
  entry_name, entry_line, show_buffer, show_entries, show_listing, ls, finished,
}
use pizda.Programs.Sound.{
  IsSound, IsSoundWith, with_fs, IsSound-fs, IsSound-show_line, IsSound-finish, IsSound-message,
  format-standard,
}
use pizda.Programs.Dispatch.{changed, located, reformatted, format, mkdir, rmdir, cd}
use pizda.Programs.SelfTest.{said}

pub show_entries-IsSound :
    (line : FileEntry → List ℕ → List ℕ) (es : List FileEntry) (s : Shell)
    → IsSound s
    → IfSome IsSound (show_entries line es s)
unfolding show_entries show_buffer
show_entries-IsSound line [] s v = v
show_entries-IsSound line (e ∷ es) s v = elim (Option-cases (entry_name e)) [
  | inl absent ↦ rw absent tt
  | inr (name, present) ↦ rw present (elim (Bool-cases (ltb (length (line e name)) 80)) [
    | inl fits ↦ rw fits (
        show_entries-IsSound line es (show_line (line e name) 0x0F s)
          (IsSound-show_line (line e name) 0x0F s v))
    | inr long ↦ rw long tt
  ])
]

show_listing-IsSound :
    (o : Outside) (s : Shell) (r : ChainFs × Option (List FileEntry))
    → IsSound s
    → Unchanged s.fs r
    → IfSome IsSound (show_listing o s r)
show_listing-IsSound o s (fs, none) v h =
    IsSound-show_line _ 0x0C (with_fs s fs) (IsSound-fs s fs h v)
show_listing-IsSound o s (fs, some []) v h =
    IsSound-show_line _ 0x0F (with_fs s fs) (IsSound-fs s fs h v)
show_listing-IsSound o s (fs, some (e ∷ es)) v h =
    show_entries-IsSound (entry_line o) (e ∷ es) (with_fs s fs) (IsSound-fs s fs h v)

finished-IsSound : (s : Shell) → IsSound s → IfSome IsSound (finished s)
finished-IsSound s v = IsSound-finish s v

pub ls-IsSound :
    (o : Outside) (path : List ℕ) (s : Shell) → IsSound s → IfSome IsSound (ls o path s)
unfolding ls
ls-IsSound o path s v =
    IfSome-bind IsSound (show_listing o s (chainfs_list_dir path 20 s.fs)) finished
      (show_listing-IsSound o s (chainfs_list_dir path 20 s.fs) v (list_dir-layout path 20 s.fs))
      finished-IsSound

pub said_of-IsSound :
    (done failed : List ℕ) (s : Shell) (r : ChainFs × Bool)
    → IsSound (with_fs s r.0)
    → IsSound (said done failed s r)
said_of-IsSound done failed s (fs, true) v = IsSound-show_line done 0x0A (with_fs s fs) v
said_of-IsSound done failed s (fs, false) v = IsSound-show_line failed 0x0C (with_fs s fs) v

pub said-IsSound :
    (done failed : List ℕ) (s : Shell) (r : ChainFs × Bool)
    → IsSound s
    → Unchanged s.fs r
    → IsSound (said done failed s r)
said-IsSound done failed s r v h = said_of-IsSound done failed s r (IsSound-fs s r.0 h v)

pub mkdir-IsSound : (path : List ℕ) (s : Shell) → IsSound s → IfSome IsSound (mkdir path s)
unfolding mkdir
mkdir-IsSound path s v =
    IfSome-bind IsSound (chainfs_mkdir path s.fs) _ (mkdir-layout path s.fs)
      (λ r h. IsSound-finish (said _ _ s r) (said-IsSound _ _ s r v h))

pub rmdir-IsSound : (path : List ℕ) (s : Shell) → IsSound s → IsSound (rmdir path s)
unfolding rmdir
rmdir-IsSound path s v =
    IsSound-finish (said _ _ s (chainfs_rmdir path s.fs))
      (said-IsSound _ _ s (chainfs_rmdir path s.fs) v (rmdir-layout path s.fs))

located-IsSound :
    (dir : List ℕ) (s : Shell) (o : Option (ChainFs × Option (List ℕ)))
    → IsSound s
    → IfSome (Unchanged s.fs) o
    → IfSome IsSoundWith (located dir s o)
located-IsSound dir s none v h = tt
located-IsSound dir s (some (fs, path)) v h = IsSound-fs s fs h v

pub find_dir-IsSound :
    (fuel : ℕ) (dir : List ℕ) (s : Shell)
    → IsSound s
    → IfSome IsSoundWith (located dir s (chainfs_get_current_path fuel 256 s.fs))
find_dir-IsSound fuel dir s v =
    located-IsSound dir s (chainfs_get_current_path fuel 256 s.fs) v
      (get_current_path-layout fuel 256 s.fs)

changed-IsSound :
    (fuel : ℕ) (done failed dir : List ℕ) (s : Shell) (r : ChainFs × Bool)
    → IsSound s
    → Unchanged s.fs r
    → IfSome IsSoundWith (changed fuel done failed dir s r)
changed-IsSound fuel done failed dir s (fs, false) v h =
    IsSound-message failed 0x0C (with_fs s fs) (IsSound-fs s fs h v)
changed-IsSound fuel done failed dir s (fs, true) v h =
    IfSome-bind IsSoundWith (located dir (with_fs s fs) (chainfs_get_current_path fuel 256 fs)) _
      (find_dir-IsSound fuel dir (with_fs s fs) (IsSound-fs s fs h v))
      (λ r k. IsSound-message done 0x0A r.0 k)

pub cd-IsSound :
    (fuel : ℕ) (path done failed dir : List ℕ) (s : Shell)
    → IsSound s
    → IfSome IsSoundWith (cd fuel path done failed dir s)
unfolding cd
cd-IsSound fuel path done failed dir s v =
    changed-IsSound fuel done failed dir s (chainfs_chdir path s.fs) v (chdir-layout path s.fs)

reformatted-IsSound :
    (fuel : ℕ) (dir : List ℕ) (s : Shell) (r : ChainFs × Bool)
    → IsSound (with_fs s r.0)
    → IfSome IsSoundWith (reformatted fuel dir s r)
reformatted-IsSound fuel dir s (fs, false) v = IsSound-message _ 0x0C (with_fs s fs) v
reformatted-IsSound fuel dir s (fs, true) v =
    IfSome-bind IsSoundWith (located dir (with_fs s fs) (chainfs_get_current_path fuel 256 fs)) _
      (find_dir-IsSound fuel dir (with_fs s fs) v) (λ r k. IsSound-finish r.0 k)

pub formatted-IsSound :
    (s : Shell) (fs : ChainFs) → IsSound s → IsSound (with_fs s (chainfs_format 20480 100 fs).0)
formatted-IsSound s fs (heap, _) =
    let (_, e, _, _) = format-standard fs in
    (heap, inr (ap (λ (l : Superblock × ℕ). l.0) e, ap (λ (l : Superblock × ℕ). l.1) e))

pub format-IsSound :
    (fuel : ℕ) (dir : List ℕ) (s : Shell) → IsSound s → IfSome IsSoundWith (format fuel dir s)
unfolding format
format-IsSound fuel dir s v =
    reformatted-IsSound fuel dir s (chainfs_format 20480 100 (chainfs_init s.fs).0)
      (formatted-IsSound s (chainfs_init s.fs).0 v)
