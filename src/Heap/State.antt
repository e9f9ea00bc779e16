-- ===== src/Heap/State.antt =====
-- When a `Heap` of mlibc/memory.c represents a list of blocks, and that `init_heap` sets one up.
use pizda.Prelude.{
  ℕ, ◌+◌, ◌-◌, ◌*◌, ◌%◌, ◌≤◌, ◌<◌, ◌≡◌, refl, true, List, [], ◌∷◌, arith, words, add64, sub64,
  two64, length,
}
use pizda.Heap.{Heap, align16, init_heap, heap_size, max_blocks, ensure_heap}
use pizda.Heap.Blocks.{Block, block, span, Joined, Aligned}
use pizda.Heap.Chain.{Chain, Chain-span, Chain-cons, length-span, link}
use pizda.Heap.Writes.{write_self}

-- The headers tile the heap from its start to its end with the blocks `bs`: sizes are multiples of
-- 16, and no two free blocks are neighbours.
pub record IsHeap (h : Heap) (bs : List Block) : Type 0 where
  pub start_pos : 0 < h.heap_start
  pub start_aligned : h.heap_start % 16 ≡ 0
  pub small : h.heap_end + 64 < two64
  pub tiled : h.heap_end ≡ h.heap_start + heap_size
  pub head : h.heap_head ≡ h.heap_start
  pub chain : Chain h.cells 0 h.heap_start h.heap_end bs
  pub joined : Joined bs
  pub aligned : Aligned bs

pub align16-lt :
    (n : ℕ) → n + 15 < two64 → (n ≤ align16 n) × (align16 n < n + 16) × (align16 n % 16 ≡ 0)
unfolding align16
align16-lt n h = omega (arith, words)

abbrev pub whole : List Block
whole = block (heap_size - 32) true ∷ []

link-start : (bs : List Block) (a : ℕ) → span bs ≡ heap_size → link a bs ≡ a
unfolding span
link-start [] a e = absurd (omega arith)
link-start (b ∷ bs) a e = refl

module _ {h : Heap} {bs : List Block} (v : IsHeap h bs) where
  pub span-eq : span bs ≡ heap_size
  span-eq = omega (arith, v.tiled, Chain-span h.cells 0 h.heap_start h.heap_end bs v.chain)

  -- The rounds of the loops suffice for every heap.
  pub length-lt-max_blocks : length bs < max_blocks
  length-lt-max_blocks = omega (arith, span-eq, length-span bs)

  pub head-link : link h.heap_start bs ≡ h.heap_head
  head-link = ground (arith, v.head, link-start bs h.heap_start span-eq)

  pub ensure_self : (kernel_end : ℕ) → ensure_heap kernel_end h ≡ h
  unfolding ensure_heap
  ensure_self kernel_end = ground (arith, v.head, v.start_pos)

-- `init_heap` makes the whole heap one free block, when the kernel's end is above 0 and leaves room
-- for twice the heap below 2^64.
pub init_heap-IsHeap :
    (kernel_end : ℕ) (h : Heap)
    → 0 < kernel_end
    → kernel_end + 2 * heap_size < two64
    → IsHeap (init_heap kernel_end h) whole
init_heap-IsHeap kernel_end h pos fits =
    let round = align16-lt kernel_end (omega arith) in
    let left : sub64 heap_size 32 ≡ heap_size - 32 = omega words in
    let stop : add64 (align16 kernel_end) heap_size ≡ align16 kernel_end + heap_size =
      omega words in
    record {
      start_pos = unfold init_heap in omega arith;
      start_aligned = unfold init_heap in omega arith;
      small = unfold init_heap in rw stop (omega arith);
      tiled = unfold init_heap in stop;
      head = unfold init_heap in refl;
      chain =
          unfold init_heap in
          rw (stop, left)
            (Chain-cons _ 0 (align16 kernel_end) _ (block (heap_size - 32) true) []
              (write_self h.cells (align16 kernel_end) _) (unfold Chain in omega arith));
      joined = unfold Joined in (refl, tt);
      aligned = unfold Aligned in (refl, tt);
    }
