-- ===== src/Heap/Moves.antt =====
-- `krealloc` where the block cannot grow in place.
use pizda.Prelude.{
  ℕ, ◌+◌, ◌-◌, ◌≤◌, ◌<◌, ◌≡◌, ◌≢◌, ◌⊎◌, sym, ap, ◌∙◌, arith, words, Bool, true, false, ◌&&◌, not,
  ◌==◌, ==_ne, leb, ltb, inl, inr, List, [], ◌∷◌, ℕ-cases, Option, some, none, add64, sub64, two64,
}
use mathlib.Core.Path.{subst}
use pizda.Heap.{Heap, Cells, kmalloc, kfree, krealloc, move_block, memcpy, align16, header_size}
use pizda.Heap.Blocks.{Block, after, alloc_ptr, release, InUse}
use pizda.Heap.Chain.{Chain, Chain-head, Chain-tail}
use pizda.Heap.Release.{InUse-here, InUse-later}
use pizda.Heap.InUse.{InUse-within}
use pizda.Heap.State.{IsHeap, span-eq}
use pizda.Heap.Kmalloc.{kmalloc-alloc, Fresh, kmalloc-Fresh}
use pizda.Heap.Kfree.{InUse-header, kfree-freed, kfree-release}
use pizda.Heap.Keeps.{release-keeps}
use pizda.Heap.Krealloc.{memcpy-range, Fresh-bytes}

InUse-size :
    (p n stop : ℕ) (bs : List Block) (m : Cells) (prev a : ℕ)
    → Chain m prev a stop bs
    → InUse p n a bs
    → (m p).size ≡ n
InUse-size p n stop [] m prev a c u = absurd (unfold InUse in u)
InUse-size p n stop (b ∷ bs) m prev a c u = elim (ℕ-cases p a) [
  | inl at ↦
      let e = Chain-head m prev a stop b bs c in
      let (_, size) = InUse-here p a b bs n at u in rw (at, e) size
  | inr off ↦
      InUse-size p n stop bs m a (after a b.size) (Chain-tail m prev a stop b bs c)
        (InUse-later p a b bs n off u)
]

-- The block behind is missing or in use, so that `krealloc` does not merge it.
abbrev pub Stuck : Cells → ℕ → Type 0
Stuck m p = ((m p).next ≡ 0) ⊎ ((m (m p).next).is_free ≡ 0)

not_both : (a b : ℕ) (c : Bool) → (a ≡ 0) ⊎ (b ≡ 0) → (not (a == 0) && not (b == 0) && c) ≡ false
not_both a b true h = ground arith
not_both a b false h = ground arith

pub krealloc-move :
    {h : Heap} {bs : List Block} (kernel_end p n size : ℕ)
    → IsHeap h bs
    → InUse p n h.heap_start bs
    → n < size
    → Stuck h.cells p
    → krealloc kernel_end (p + 32) size h ≡ move_block (p + 32) n (kmalloc kernel_end size h)
unfolding krealloc
krealloc-move {h} {bs} kernel_end p n size v u more stuck =
    let (magic, used) = InUse-header p n h.heap_end bs h.cells 0 h.heap_start v.chain u in
    let bytes = InUse-size p n h.heap_end bs h.cells 0 h.heap_start v.chain u in
    let (le, lt) = InUse-within p n h.heap_start bs u in
    let total = span-eq v in
    let start = v.start_pos in
    let small = v.small in
    let tiled = v.tiled in
    let exact : sub64 (p + 32) 32 ≡ p = omega words in
    let c1 : (p + 32 == 0) ≡ false = ground arith in
    let c2 : (size == 0) ≡ false = ground arith in
    let c3 : leb size n ≡ false = ground arith in
    let next = (h.cells p).next in
    let grown = add64 (add64 n header_size) (h.cells next).size in
    let guard = not_both next (h.cells next).is_free (leb size grown) stuck in
    rw (exact, c1, c2, magic, bytes, c3, guard)

moved_bytes :
    (d s n room j : ℕ) (b : ℕ → ℕ)
    → j < n
    → n ≤ room
    → (s + n ≤ d - 32) ⊎ (d + room ≤ s - 32)
    → memcpy d s n b (d + j) ≡ b (s + j)
moved_bytes d s n room j b lt le apart =
    let inside : (leb d (d + j) && ltb (d + j) (d + n)) ≡ true = ground arith in
    let place : d + j - d ≡ j = omega arith in
    memcpy-range d s n b (d + j) (omega arith) ∙ rw (inside, place)

pub move_block-some :
    (ptr n q : ℕ) (h : Heap)
    → q ≢ 0
    → move_block ptr n (some (h, q))
      ≡ some (kfree ptr (record h { bytes = memcpy q ptr n h.bytes }), q)
unfolding move_block
move_block-some ptr n q h ne = rw (==_ne q 0 ne)

move_block-null : (ptr n q : ℕ) (h : Heap) → q ≡ 0 → move_block ptr n (some (h, q)) ≡ some (h, 0)
unfolding move_block
move_block-null ptr n q h e = rw e

abbrev from_some : Heap × ℕ → Option (Heap × ℕ) → Heap × ℕ
from_some d none = d
from_some d (some t) = t

some_eq : {t u : Heap × ℕ} → some t ≡ some u → t ≡ u
some_eq {t} e = ap (from_some t) e

some_second :
    (h h' : Heap) (q : ℕ) → ◌≡◌ {A = Option (Heap × ℕ)} (some (h, 0)) (some (h', q)) → q ≡ 0
some_second h h' q e = sym (ap (λ (t : Heap × ℕ). t.1) (some_eq {t = (h, 0)} {u = (h', q)} e))

-- What a move promises: `size` bytes at least behind `q`, of which the first `n` are the old ones.
pub record Moved (size n ptr : ℕ) (h h' : Heap) (q : ℕ) : Type 0 where
  pub blocks : List Block
  pub valid : IsHeap h' blocks
  pub room : ℕ
  pub enough : size ≤ room
  pub in_use : InUse (q - 32) room h'.heap_start blocks
  pub copied : (j : ℕ) → j < n → h'.bytes (q + j) ≡ h.bytes (ptr + j)

-- The old block is freed after the bytes are copied.
freed-Moved :
    {h h1 : Heap} {bs : List Block} (p n size q : ℕ)
    → IsHeap h bs
    → InUse p n h.heap_start bs
    → n < size
    → Fresh size h bs h1 q
    → h1.bytes ≡ h.bytes
    → Moved size n
        (p + 32)
        h
        (kfree (p + 32) (record h1 { bytes = memcpy q (p + 32) n h1.bytes }))
        q
freed-Moved {h} {h1} {bs} p n size q v u more f same =
    let b = memcpy q (p + 32) n h1.bytes in
    let g = Fresh-bytes b f in
    let (used, apart) = g.keeps p n u in
    let enough = g.enough in
    let above = g.above in
    let off : q - 32 ≢ p = omega (arith, apart, above) in
    let sum : p + 32 - 32 ≡ p = omega arith in
    let exact = kfree-freed p n g.valid used in
    record {
      blocks = release p h1.heap_start g.blocks;
      valid = kfree-release p n g.valid used;
      room = g.room;
      enough = enough;
      in_use = rw exact (release-keeps p (q - 32) g.room h1.heap_start g.blocks off g.in_use);
      copied = λ j lt. rw exact (
          moved_bytes q (p + 32) n g.room j h1.bytes lt (omega arith) (rw sum apart)
          ∙ ap (λ (c : ℕ → ℕ). c (p + 32 + j)) same);
    }

-- On a heap of blocks, `krealloc` of a block in use to a larger size below 2^64 - 15, where the block
-- behind is missing or in use: a pointer that it returns has `size` bytes at least behind it, in use
-- on a heap of blocks, and the old block's bytes are the first of them.
pub krealloc-Moved :
    {h h' : Heap} {bs : List Block} {q : ℕ} (kernel_end p n size : ℕ)
    → IsHeap h bs
    → InUse p n h.heap_start bs
    → n < size
    → size + 15 < two64
    → Stuck h.cells p
    → krealloc kernel_end (p + 32) size h ≡ some (h', q)
    → q ≢ 0
    → Moved size n (p + 32) h h' q
krealloc-Moved {h} {h'} {bs} {q} kernel_end p n size v u more fits stuck e ne =
    let pos : 0 < size = omega arith in
    let out = kmalloc-alloc kernel_end v size pos in
    let r = alloc_ptr (align16 size) h.heap_start bs in
    let run : krealloc kernel_end (p + 32) size h ≡ move_block (p + 32) n (some (out.heap, r)) =
      krealloc-move kernel_end p n size v u more stuck ∙ ap (move_block (p + 32) n) out.result in
    let found : r ≢ 0 = λ z.
      ne
        (some_second out.heap h' q (sym (move_block-null (p + 32) n r out.heap z) ∙ sym run ∙ e)) in
    let done = sym (move_block-some (p + 32) n r out.heap found) ∙ sym run ∙ e in
    let moved =
      freed-Moved p n size r v u more (kmalloc-Fresh kernel_end size v pos fits out.result found)
        out.same_bytes in
    let same : ◌≡◌ {A = Heap × ℕ}
        (kfree (p + 32) (record (out.heap) { bytes = memcpy r (p + 32) n out.heap.bytes }), r)
        (h', q) =
      some_eq done in
    subst (λ (t : Heap × ℕ). Moved size n (p + 32) h t.0 t.1) same moved
