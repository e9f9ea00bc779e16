-- ===== src/Kernel/Ready.antt =====
-- The state after a format, in which a file can be written: a blank volume and a heap of one free
-- block.
use pizda.Prelude.{
  ℕ, ◌-◌, ◌*◌, ◌≤◌, ◌≡◌, ◌≢◌, refl, sym, ap, ◌∙◌, arith, some, Bool, true, Bool-cases, inl, inr,
  leb, List, [], ◌∷◌, ◌++◌, length, All, codes, ==_eq, add32, sub32,
}
use mathlib.Core.Path.{subst}
use pizda.Heap.{heap_size}
use pizda.Heap.Blocks.{alloc_ptr, fits}
use pizda.Heap.State.{IsHeap, whole, align16-lt}
use pizda.Mlibc.{strcmp}
use pizda.ChainFs.{ChainFs, Superblock, chainfs_magic}
use pizda.ChainFs.Volume.{formatted, blocks_for, chainfs_init, chainfs_format}
use pizda.ChainFs.Volume.Blank.{
  IsBlank, chainfs_format-IsBlank, blank-IsNew, blank-free_count, second_unused,
}
use pizda.ChainFs.Paths.Name.{IsNameByte}
use pizda.ChainFs.Paths.Current.{chainfs_get_current_path}
use pizda.ChainFs.Files.{blocks_needed}
use pizda.Programs.{
  Shell, clamp_line, finish, touch_word, content_flag, touch, cat_word, cat, cat_lines,
}
use pizda.Programs.RoundTrip.{touch-cat_lines}
use pizda.Programs.Outside.{Outside}
use pizda.Programs.Command.{Command, is_word, parse_command}
use pizda.Programs.Dispatch.{reformatted, format}
use pizda.Programs.Sound.{IsSound, standard, standard-fields, format_fits, format-standard}

pub parse-format : parse_command (codes "format") ≡ Command.format
unfolding parse_command is_word strcmp
parse-format = refl

pub parse-touch : (rest : List ℕ) → parse_command (touch_word ++ rest) ≡ Command.touch
unfolding parse_command is_word strcmp
parse-touch rest = refl

pub parse-cat : (rest : List ℕ) → parse_command (cat_word ++ rest) ≡ Command.cat
unfolding parse_command is_word strcmp
parse-cat rest = refl

-- What the bound on the row leaves alone.
clamp_line-rest :
    (s : Shell)
    → ((clamp_line s).fs ≡ s.fs)
      × ((clamp_line s).heap ≡ s.heap)
      × ((clamp_line s).screen ≡ s.screen)
unfolding clamp_line
clamp_line-rest s = elim (Bool-cases (leb 25 s.current_line)) [
  | inl e ↦ rw e (refl, refl, refl)
  | inr e ↦ rw e (refl, refl, refl)
]

-- `shell_func` and `kmain` both bound the row.
abbrev pub settled : Shell → Shell
settled s = clamp_line (clamp_line s)

pub settled-fs : (s : Shell) → (settled s).fs ≡ s.fs
settled-fs s = (clamp_line-rest (clamp_line s)).0 ∙ (clamp_line-rest s).0

pub settled-heap : (s : Shell) → (settled s).heap ≡ s.heap
settled-heap s = (clamp_line-rest (clamp_line s)).1 ∙ (clamp_line-rest s).1

pub settled-screen : (s : Shell) → (settled s).screen ≡ s.screen
settled-screen s = (clamp_line-rest (clamp_line s)).2 ∙ (clamp_line-rest s).2

-- A blank volume of the standard sizes, and a heap of one free block.
abbrev pub IsReady : Shell → Type 0
IsReady s = IsBlank s.fs × (s.fs.superblock ≡ standard) × IsHeap s.heap whole

-- The volume after the format command.
abbrev pub blank : Shell → ChainFs
blank s = (chainfs_format 20480 100 (chainfs_init s.fs).0).0

standard-table : 1 ≤ standard.file_table_block_count
unfolding formatted blocks_for add32 sub32
standard-table = omega arith

pub blank-IsReady : (s : Shell) → IsSound s → IsReady (record s { fs = blank s })
blank-IsReady s v =
    let fs = (chainfs_init s.fs).0 in
    let (_, layout, _, _) = format-standard fs in
    (
      chainfs_format-IsBlank 20480 100 fs (omega arith) (omega arith) (omega (arith, format_fits))
          standard-table,
      ap (λ (l : Superblock × ℕ). l.0) layout,
      v.0,
    )

pub IsReady-same : (s s' : Shell) → s'.fs ≡ s.fs → s'.heap ≡ s.heap → IsReady s → IsReady s'
IsReady-same s s' f h (b, sb, v) =
    subst (λ g. IsBlank g × (g.superblock ≡ standard) × IsHeap s'.heap whole) (sym f)
      (b, sb, subst (λ g. IsHeap g whole) (sym h) v)

reformatted-root :
    (fuel : ℕ) (dir : List ℕ) (s : Shell) (fs : ChainFs) (done : Bool)
    → done ≡ true
    → fs.current_dir_block ≡ fs.superblock.root_dir_block
    → reformatted fuel dir s (fs, done) ≡ some (finish (record s { fs = fs }), 47 ∷ [])
unfolding chainfs_get_current_path
reformatted-root fuel dir s fs done e root =
    rw (e, ==_eq fs.current_dir_block fs.superblock.root_dir_block root) refl

pub format-run :
    (fuel : ℕ) (dir : List ℕ) (s : Shell)
    → format fuel dir s ≡ some (finish (record s { fs = blank s }), 47 ∷ [])
unfolding format
format-run fuel dir s =
    let fs = (chainfs_init s.fs).0 in
    let (done, layout, dir_block, _) = format-standard fs in
    let root : standard.root_dir_block ≡ 0 = unfold formatted in refl in
    reformatted-root fuel dir s (blank s) (chainfs_format 20480 100 fs).1 done
      (dir_block ∙ sym root ∙ sym (ap (λ (l : Superblock × ℕ). l.0.root_dir_block) layout))

blocks_needed-few : (n : ℕ) → n ≤ 2047 → blocks_needed n ≤ 4
unfolding blocks_for add32 sub32
blocks_needed-few n le = ground arith

alloc_ptr-whole : (n a : ℕ) → n ≤ heap_size - 32 → alloc_ptr n a whole ≢ 0
unfolding alloc_ptr fits
alloc_ptr-whole n a le = ground arith

module _ (o : Outside) (name text : List ℕ) (simple : All IsNameByte name)
    (no_space : All (λ c. c ≢ 32) name) (short : length name ≤ 29) (clean : All (λ c. c ≢ 0) text)
    (fits : length text ≤ 2047) (enough : 5 ≤ o.fuel) where
  -- What touch writes in a ready state is what cat shows.
  pub ready-touch :
      (s : Shell)
      → IsReady s
      → (s' : Shell) × (touch o.kernel_end o.fuel (touch_word ++ name ++ content_flag ++ text) s
          ≡ some s')
        × ((t : Shell)
            → t.fs ≡ s'.fs
            → (fs : ChainFs) × (cat o.fuel o.stack (cat_word ++ name) t
                ≡ some (finish (cat_lines [] text (record t { fs = fs })))))
  ready-touch s (b, sb, v) =
      let few = blocks_needed-few (length text) fits in
      let (blocks, table, map) = standard-fields in
      let all_blocks = ap (λ (x : Superblock). x.block_count) sb ∙ blocks in
      let table_blocks = ap (λ (x : Superblock). x.file_table_block_count) sb ∙ table in
      let map_blocks = ap (λ (x : Superblock). x.block_map_block_count) sb ∙ map in
      let magic : standard.magic ≡ chainfs_magic = unfold formatted in refl in
      let (s', sector, written, shows) =
        touch-cat_lines o.kernel_end o.fuel 1 1 name text o.stack s whole b.mounted clean fits
          simple no_space short (ap (λ (x : Superblock). x.magic) sb ∙ magic)
          (omega (arith, b.current_dir_block)) (rw (b.current_dir_block) (blank-IsNew s.fs b name))
          (omega arith, omega (arith, b.table_pos)) (omega arith) (second_unused s.fs b)
          (omega (
            arith,
            blank-free_count s.fs b b.mounted,
            few,
            all_blocks,
            table_blocks,
            map_blocks,
            b.mounted.areas,
          ))
          v
          (alloc_ptr-whole _ s.heap.heap_start
            (omega (arith, few, align16-lt (4 * blocks_needed (length text)) (omega (arith, few)))))
          (omega (arith, few, enough)) in
      (s', written, λ t same. (_, shows t same))
