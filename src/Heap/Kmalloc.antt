-- ===== src/Heap/Kmalloc.antt =====
-- `kmalloc` of mlibc/memory.c on a heap that represents a list of blocks.
use pizda.Prelude.{
  ℕ, ◌+◌, ◌-◌, ◌%◌, ◌≤◌, ◌<◌, ◌≡◌, ◌≢◌, refl, ◌⊎◌, Option, some, List, arith, ==_ne, two64, add64,
}
use pizda.Heap.{Heap, kmalloc, with_cells, align16, max_blocks, kmalloc_loop}
use pizda.Heap.Blocks.{Block, alloc, alloc_ptr, InUse}
use pizda.Heap.Malloc.{kmalloc_loop-alloc, Allocates}
use pizda.Heap.FirstFit.{alloc-Joined, alloc-Aligned}
use pizda.Heap.InUse.{
  alloc-InUse, alloc-keeps, alloc_ptr-ge, InUse-within, InUse-disjoint, InUse-Aligned, NoFit,
  alloc_fails,
}
use pizda.Heap.State.{IsHeap, length-lt-max_blocks, head-link, ensure_self, align16-lt, span-eq}

align16-mod : (n : ℕ) → align16 n % 16 ≡ 0
unfolding align16
align16-mod n = omega arith

-- The outcome of a `kmalloc` that looks for `n` bytes.
pub record Allocated (n : ℕ) (h : Heap) (bs : List Block) (r : Option (Heap × ℕ)) : Type 0 where
  pub heap : Heap
  pub result : r ≡ some (heap, alloc_ptr n h.heap_start bs)
  pub valid : IsHeap heap (alloc n bs)
  pub same_start : heap.heap_start ≡ h.heap_start
  pub same_end : heap.heap_end ≡ h.heap_end
  pub same_bytes : heap.bytes ≡ h.bytes

module _ {h : Heap} {bs : List Block} (kernel_end : ℕ) (v : IsHeap h bs) where
  loop_result :
      (n : ℕ)
      → Allocates n 0 h.heap_start h.heap_end bs h.cells
          (kmalloc_loop max_blocks n h.heap_head h.cells)
  loop_result n = rw (← head-link v) (
      kmalloc_loop-alloc n h.heap_end v.small bs h.cells 0 h.heap_start max_blocks v.start_pos
        v.chain (length-lt-max_blocks v))

  -- On a heap of blocks, for a size above 0, `kmalloc` does a first fit for the rounded size, and
  -- leaves a heap of blocks. The rounds of its loop suffice.
  pub kmalloc-alloc :
      (size : ℕ) → 0 < size → Allocated (align16 size) h bs (kmalloc kernel_end size h)
  kmalloc-alloc size pos =
      let n = align16 size in
      let (m, e, c, same) = loop_result n in
      record {
        heap = record h { cells = m };
        result =
            unfold kmalloc with_cells in
            rw (ensure_self v kernel_end, ==_ne size 0 (omega arith), e);
        valid = record {
          start_pos = v.start_pos;
          start_aligned = v.start_aligned;
          small = v.small;
          tiled = v.tiled;
          head = v.head;
          chain = c;
          joined = alloc-Joined n bs v.joined;
          aligned = alloc-Aligned n bs (align16-mod size) v.aligned;
        };
        same_start = refl;
        same_end = refl;
        same_bytes = refl;
      }

-- What a pointer from `kmalloc` promises: it is aligned, `room` bytes behind it are in use and lie
-- in the heap, and every block that was in use still is, with no byte in common with the new one.
pub record Fresh (size : ℕ) (h : Heap) (bs : List Block) (h' : Heap) (p : ℕ) : Type 0 where
  pub blocks : List Block
  pub valid : IsHeap h' blocks
  pub room : ℕ
  pub enough : size ≤ room
  pub aligned : p % 16 ≡ 0
  pub in_use : InUse (p - 32) room h'.heap_start blocks
  pub above : h'.heap_start + 32 ≤ p
  pub below : p + room ≤ h'.heap_end
  pub keeps :
      (q k : ℕ)
      → InUse q k h.heap_start bs
      → InUse q k h'.heap_start blocks × ((q + 32 + k ≤ p - 32) ⊎ (p + room ≤ q))

-- The promise, for a search for `n` bytes that found a block.
alloc-Fresh :
    {h : Heap} {bs : List Block} {r : Option (Heap × ℕ)} (n size : ℕ)
    → IsHeap h bs
    → (out : Allocated n h bs r) → size ≤ n
    → alloc_ptr n h.heap_start bs ≢ 0
    → Fresh size h bs out.heap (alloc_ptr n h.heap_start bs)
alloc-Fresh {h} {bs} n size v out le ne =
    let a = h.heap_start in
    let (k, enough, _, u) = alloc-InUse n a bs ne in
    let ge = alloc_ptr-ge n a bs ne in
    let within = InUse-within _ k a (alloc n bs) u in
    let span' = span-eq out.valid in
    let at16 = InUse-Aligned _ k a (alloc n bs) v.start_aligned out.valid.aligned u in
    record {
      blocks = alloc n bs;
      valid = out.valid;
      room = k;
      enough = omega arith;
      aligned = omega arith;
      in_use = rw (out.same_start) u;
      above = omega (arith, out.same_start);
      below = omega (arith, out.same_end, v.tiled);
      keeps = λ q j w.
          let (kept, new) = alloc-keeps n a q j bs w in
          let apart =
            InUse-disjoint q j (alloc_ptr n a bs - 32) k a (alloc n bs) kept u (omega arith) in
          (rw (out.same_start) kept, ground arith);
    }

-- On a heap of blocks, a pointer that `kmalloc` returns for a size above 0 and below 2^64 - 15 is a
-- multiple of 16 with `size` bytes at least behind it, inside the heap and in use; every block that
-- was in use still is, and has no byte in common with the new one or its header.
pub kmalloc-Fresh :
    {h h' : Heap} {bs : List Block} {p : ℕ} (kernel_end size : ℕ)
    → IsHeap h bs
    → 0 < size
    → size + 15 < two64
    → kmalloc kernel_end size h ≡ some (h', p)
    → p ≢ 0
    → Fresh size h bs h' p
kmalloc-Fresh {h} {h'} {bs} {p} kernel_end size v pos fits e ne =
    let out = kmalloc-alloc kernel_end v size pos in
    let eh : out.heap ≡ h' = cc (out.result) in
    let ep : alloc_ptr (align16 size) h.heap_start bs ≡ p = cc (out.result) in
    rw (← eh, ← ep)
      (alloc-Fresh (align16 size) size v out ((align16-lt size fits).0) (rw (← ep) at ne))

-- On a heap of blocks, `kmalloc` of a size above 0 ends with a heap and a pointer; the pointer is null
-- exactly when no free block has the rounded size, and then the blocks are as they were.
pub kmalloc_fails :
    {h : Heap} {bs : List Block} (kernel_end size : ℕ)
    → IsHeap h bs
    → 0 < size
    → (h' : Heap) × (p : ℕ) × (kmalloc kernel_end size h ≡ some (h', p))
      × (p ≡ 0 → NoFit (align16 size) bs × IsHeap h' bs)
      × (NoFit (align16 size) bs → p ≡ 0)
kmalloc_fails {h} {bs} kernel_end size v pos =
    let out = kmalloc-alloc kernel_end v size pos in
    let (fails, finds) = alloc_fails (align16 size) h.heap_start bs in
    (
      out.heap,
      alloc_ptr (align16 size) h.heap_start bs,
      out.result,
      (λ z. ((fails z).0, rw ((fails z).1) at (out.valid))),
      finds,
    )

-- A null pointer leaves the blocks as they were.
pub kmalloc_null :
    {h h' : Heap} {bs : List Block} {p : ℕ} (kernel_end size : ℕ)
    → IsHeap h bs
    → 0 < size
    → kmalloc kernel_end size h ≡ some (h', p)
    → p ≡ 0
    → IsHeap h' bs
kmalloc_null {h} {h'} {bs} {p} kernel_end size v pos e null =
    let (h1, p1, run, fails, _) = kmalloc_fails kernel_end size v pos in
    let eh : h1 ≡ h' = cc in let ep : p1 ≡ 0 = cc in rw (← eh) ((fails ep).1)

-- A size of 2^64 - 15 or more wraps to 0 in `align16`: a pointer that `kmalloc` returns for it on a
-- heap of blocks has fewer than 48 bytes behind it.
pub kmalloc_wraps :
    {h h' : Heap} {bs : List Block} {p : ℕ} (kernel_end size : ℕ)
    → IsHeap h bs
    → two64 ≤ size + 15
    → size < two64
    → kmalloc kernel_end size h ≡ some (h', p)
    → p ≢ 0
    → (blocks : List Block) × IsHeap h' blocks
      × (k : ℕ) × InUse (p - 32) k h'.heap_start blocks
      × (k < 48)
kmalloc_wraps {h} {h'} {bs} {p} kernel_end size v big lt e ne =
    let out = kmalloc-alloc kernel_end v size (omega arith) in
    let eh : out.heap ≡ h' = cc (out.result) in
    let zero : align16 size ≡ 0 = unfold align16 add64 in omega arith in
    let ep : alloc_ptr (align16 size) h.heap_start bs ≡ p = cc (out.result) in
    let (k, _, lt48, u) = alloc-InUse (align16 size) h.heap_start bs (rw (← ep) at ne) in
    (
      alloc (align16 size) bs,
      rw (← eh) (out.valid),
      k,
      rw (← eh, ← ep, out.same_start) u,
      omega arith,
    )
