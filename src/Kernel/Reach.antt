-- ===== src/Kernel/Reach.antt =====
-- What holds in every state that the loop of `kmain` gets to.
use pizda.Prelude.{
  ℕ, suc, ◌+◌, ◌*◌, ◌≤◌, ◌<◌, ◌≡◌, refl, ap, ◌∙◌, arith, Option, none, some, Option-cases, inl, inr,
  List, IfSome, two64,
}
use mathlib.Core.Path.{subst}
use pizda.Pata.{Disk}
use pizda.Heap.{Heap, heap_size}
use pizda.Heap.State.{IsHeap, whole, init_heap-IsHeap}
use pizda.Screen.{Screen}
use pizda.Keyboard.{scanf}
use pizda.ChainFs.{ChainFs, Superblock, chainfs_magic}
use pizda.ChainFs.Map.{IsMounted}
use pizda.Programs.Outside.{Outside}
use pizda.Programs.Calc.{input_of, typed}
use pizda.Programs.Dispatch.{Session, Outcome, shell_func}
use pizda.Programs.Sound.{standard, standard-fields, IsVolume, IsSound-clamp_line, clamp_line-row}
use pizda.Programs.Invariant.{IsSettled, EndsSettled, shell_func-EndsSettled}
use pizda.Kernel.{start, bounded_some, main_round, Reaches}

pub start-IsSettled :
    (o : Outside) (heap : Heap) (disk : Disk) (screen : Screen)
    → 0 < o.kernel_end
    → o.kernel_end + 2 * heap_size < two64
    → IsSettled (start o heap disk screen)
unfolding start
start-IsSettled o heap disk screen pos fits =
    ((init_heap-IsHeap o.kernel_end heap pos fits, inl refl), omega arith)

bounded-EndsSettled :
    (r : Option Outcome) → IfSome EndsSettled r → IfSome EndsSettled (bounded_some r)
bounded-EndsSettled none h = tt
bounded-EndsSettled (some (Outcome.returns s)) (v, row) =
    (IsSound-clamp_line s.typing.shell v, clamp_line-row s.typing.shell)
bounded-EndsSettled (some (Outcome.hangs s)) v = v

main_round-EndsSettled :
    (o : Outside) (keys : ℕ → List (ℕ × ℕ)) (s : Session)
    → IsSettled s
    → IfSome EndsSettled (main_round o keys s)
unfolding main_round
main_round-EndsSettled o keys s (v, row) =
    let line = scanf 2048 s.typing.shell.current_line 2 0x0F (keys 0) (input_of s.typing) in
    elim (Option-cases line) [
      | inl e ↦ rw e tt
      | inr (input, e) ↦
          let s' = record s { typing = typed s.typing input } in
          rw e (
            bounded-EndsSettled (shell_func o (λ i. keys (suc i)) s')
              (shell_func-EndsSettled o (λ i. keys (suc i)) s' v))
    ]

pub reaches-IsSettled : (o : Outside) (s t : Session) → Reaches o s t → IsSettled s → IsSettled t
reaches-IsSettled o s t (Reaches.here s') v = v
reaches-IsSettled o s t (Reaches.next s' t' u keys r e) v =
    subst (IfSome EndsSettled) e (main_round-EndsSettled o keys t' (reaches-IsSettled o s' t' r v))

IsVolume-IsMounted :
    (fs : ChainFs)
    → IsVolume (fs.superblock, fs.data_area_start)
    → fs.superblock.magic ≡ chainfs_magic
    → IsMounted fs
IsVolume-IsMounted fs (inl zero) magic = absurd (omega (arith, zero, magic))
IsVolume-IsMounted fs (inr (sb, begins)) magic =
    let (blocks, table, map) = standard-fields in
    let blocks' = ap (λ (b : Superblock). b.block_count) sb ∙ blocks in
    let table' = ap (λ (b : Superblock). b.file_table_block_count) sb ∙ table in
    let map' = ap (λ (b : Superblock). b.block_map_block_count) sb ∙ map in
    record {
      addressable = omega (arith, blocks');
      areas = omega (arith, begins, table', map');
      fits = omega (arith, begins, blocks');
      covered = omega (arith, begins, blocks', map');
    }

IsVolume-standard : (l : Superblock × ℕ) → IsVolume l → l.0.magic ≡ chainfs_magic → l.0 ≡ standard
IsVolume-standard l (inl zero) magic = absurd (omega (arith, zero, magic))
IsVolume-standard l (inr (sb, begins)) magic = sb

-- In every state that the loop of `kmain` gets to: the heap is one free block, so that no command has
-- kept memory; a volume with the magic number is laid out as a mounted one, in the 20480 blocks and
-- with the 13 sectors of file table that the shell formats, so that no command has mounted what the
-- disk held before; and the row is 24 at most. The kernel's end is above 0 and leaves room for twice
-- the heap below 2^64.
pub reaches-Kept :
    (o : Outside) (heap : Heap) (disk : Disk) (screen : Screen) (s : Session)
    → 0 < o.kernel_end
    → o.kernel_end + 2 * heap_size < two64
    → Reaches o (start o heap disk screen) s
    → IsHeap s.typing.shell.heap whole
      × (s.typing.shell.fs.superblock.magic ≡ chainfs_magic
          → IsMounted s.typing.shell.fs × (s.typing.shell.fs.superblock ≡ standard))
      × (s.typing.shell.current_line ≤ 24)
reaches-Kept o heap disk screen s pos fits r =
    let ((kept, volume), row) =
      reaches-IsSettled o (start o heap disk screen) s r
        (start-IsSettled o heap disk screen pos fits) in
    (
      kept,
      λ magic.
          (IsVolume-IsMounted s.typing.shell.fs volume magic, IsVolume-standard _ volume magic),
      row,
    )
