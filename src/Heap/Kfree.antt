-- ===== src/Heap/Kfree.antt =====
-- `kfree` and `kget_free_memory` of mlibc/memory.c on a heap that represents a list of blocks.
use pizda.Prelude.{
  ℕ, zero, suc, ◌+◌, ◌-◌, ◌≤◌, ◌<◌, ◌≡◌, ◌≢◌, refl, ap, ◌∙◌, some, List, [], ◌∷◌, arith, words,
  sub64, two64, false, ◌||◌, ltb, leb, ◌==◌, if◌then◌else◌, length, add64, add64-exact, ℕ-cases,
  inl, inr,
}
use pizda.Heap.{
  Heap, Cells, kmalloc, kfree, align16, max_blocks, heap_magic, write, coalesce, absorb, relink,
  free_loop, kget_free_memory,
}
use pizda.Heap.Blocks.{Block, after, alloc, alloc_ptr, InUse, span, release, free_bytes}
use pizda.Heap.Chain.{Chain, Chain-head, Chain-tail, link, flag}
use pizda.Heap.FirstFit.{release-Joined, release-Aligned}
use pizda.Heap.Release.{freed, freed-release, InUse-here, InUse-later}
use pizda.Heap.InUse.{alloc-InUse, alloc_ptr-ge, InUse-within, release-alloc}
use pizda.Heap.State.{IsHeap, length-lt-max_blocks, head-link, span-eq}
use pizda.Heap.Kmalloc.{kmalloc-alloc}

-- The header of a block in use.
pub InUse-header :
    (p n stop : ℕ) (bs : List Block) (m : Cells) (prev a : ℕ)
    → Chain m prev a stop bs
    → InUse p n a bs
    → ((m p).magic ≡ heap_magic) × ((m p).is_free ≡ 0)
InUse-header p n stop [] m prev a c u = absurd (unfold InUse in u)
InUse-header p n stop (b ∷ bs) m prev a c u = elim (ℕ-cases p a) [
  | inl at ↦
      let e = Chain-head m prev a stop b bs c in
      let (used, _) = InUse-here p a b bs n at u in rw (at, e) (refl, ground arith)
  | inr off ↦
      InUse-header p n stop bs m a (after a b.size) (Chain-tail m prev a stop b bs c)
        (InUse-later p a b bs n off u)
]

-- `kfree` passes its checks for the pointer to a block in use.
pub kfree-freed :
    {h : Heap} {bs : List Block} (p n : ℕ)
    → IsHeap h bs
    → InUse p n h.heap_start bs
    → kfree (p + 32) h ≡ record h { cells = freed p h.cells }
unfolding kfree
kfree-freed {h} {bs} p n v u =
    let (magic, used) = InUse-header p n h.heap_end bs h.cells 0 h.heap_start v.chain u in
    let (le, lt) = InUse-within p n h.heap_start bs u in
    let total = span-eq v in
    let start = v.start_pos in
    let small = v.small in
    let tiled = v.tiled in
    let exact : sub64 (p + 32) 32 ≡ p = omega words in
    let c1 : (p + 32 == 0) ≡ false = ground arith in
    let c2 : (h.heap_start == 0 || h.heap_end == 0) ≡ false = ground arith in
    let c3 : (ltb p h.heap_start || leb h.heap_end p) ≡ false = ground arith in
    rw (exact, c1, c2, c3, magic, used)

-- On a heap of blocks, `kfree` of a block in use releases it, merged with the free blocks beside it,
-- and leaves a heap
-- in which no two free blocks are neighbours.
pub kfree-release :
    {h : Heap} {bs : List Block} (p n : ℕ)
    → IsHeap h bs
    → InUse p n h.heap_start bs
    → IsHeap (kfree (p + 32) h) (release p h.heap_start bs)
kfree-release {h} {bs} p n v u = rw (kfree-freed p n v u) (record {
  start_pos = v.start_pos;
  start_aligned = v.start_aligned;
  small = v.small;
  tiled = v.tiled;
  head = v.head;
  chain =
      (freed-release p n h.heap_end v.small bs h.cells h.heap_start v.start_pos v.chain v.joined
        u).0;
  joined = release-Joined p h.heap_start bs v.joined;
  aligned = release-Aligned p h.heap_start bs v.aligned;
})

-- On a heap of blocks, freeing the pointer that `kmalloc` returned for a size above 0 gives a heap
-- of the same blocks as before the allocation.
pub kfree-kmalloc :
    {h h' : Heap} {bs : List Block} {p : ℕ} (kernel_end size : ℕ)
    → IsHeap h bs
    → 0 < size
    → kmalloc kernel_end size h ≡ some (h', p)
    → p ≢ 0
    → IsHeap (kfree p h') bs
kfree-kmalloc {h} {h'} {bs} {p} kernel_end size v pos e ne =
    let n = align16 size in
    let out = kmalloc-alloc kernel_end v size pos in
    let eh : out.heap ≡ h' = cc (out.result) in
    let ep : alloc_ptr n h.heap_start bs ≡ p = cc (out.result) in
    let ne' : alloc_ptr n h.heap_start bs ≢ 0 = rw (← ep) at ne in
    let (k, _, _, u) = alloc-InUse n h.heap_start bs ne' in
    let ge = alloc_ptr-ge n h.heap_start bs ne' in
    let back : p - 32 + 32 ≡ p = omega arith in
    let used : InUse (p - 32) k out.heap.heap_start (alloc n bs) = rw (out.same_start, ← ep) u in
    let freed : IsHeap (kfree (p - 32 + 32) out.heap)
        (release (p - 32) out.heap.heap_start (alloc n bs)) =
      kfree-release (p - 32) k out.valid used in
    let whole : release (p - 32) h.heap_start (alloc n bs) ≡ bs =
      rw (← ep) (release-alloc n h.heap_start bs v.joined ne') in
    rw (eh, back) at (rw (out.same_start, whole) at freed)

-- The flag of a header, under the writes of `coalesce`.
relink-is_free : (m : Cells) (p q x : ℕ) → (relink m p q x).is_free ≡ (m x).is_free
unfolding relink write
relink-is_free m p q x = ground arith

absorb-is_free : (p q x : ℕ) (m : Cells) → (absorb p q m x).is_free ≡ (m x).is_free
unfolding absorb
absorb-is_free p q x m = rw relink-is_free (unfold write in ground arith)

coalesce-is_free : (p x : ℕ) (m : Cells) → (coalesce p m x).is_free ≡ (m x).is_free
unfolding coalesce
coalesce-is_free p x m = ground (
  arith,
  absorb-is_free p (m p).next x m,
  absorb-is_free (absorb p (m p).next m p).prev p x (absorb p (m p).next m),
  absorb-is_free (m p).prev p x m,
)

-- On a heap of blocks, a second `kfree` of the pointer of a block in use is seen as a double free and changes nothing, even where
-- the block was merged into the one before it.
pub kfree-kfree :
    {h : Heap} {bs : List Block} (p n : ℕ)
    → IsHeap h bs
    → InUse p n h.heap_start bs
    → kfree (p + 32) (kfree (p + 32) h) ≡ kfree (p + 32) h
kfree-kfree {h} {bs} p n v u =
    let (le, lt) = InUse-within p n h.heap_start bs u in
    let total = span-eq v in
    let small = v.small in
    let tiled = v.tiled in
    let exact : sub64 (p + 32) 32 ≡ p = omega words in
    let m = freed p h.cells in
    let set : (m p).is_free ≡ 1 = coalesce-is_free p p _ ∙ unfold write in ground arith in
    rw (kfree-freed p n v u) (unfold kfree in rw exact (ground arith))

-- The loop of `kget_free_memory` over a chain.
free_loop-free_bytes :
    (stop : ℕ) (bs : List Block) (m : Cells) (prev a fuel acc : ℕ)
    → 0 < a
    → Chain m prev a stop bs
    → length bs < fuel
    → acc + free_bytes bs < two64
    → free_loop fuel (link a bs) m acc ≡ some (acc + free_bytes bs)
unfolding free_loop
free_loop-free_bytes stop bs m prev a zero acc pos c h fits = absurd (omega arith)
free_loop-free_bytes stop [] m prev a (suc fuel) acc pos c h fits =
    unfold free_bytes in ap some (omega arith)
free_loop-free_bytes stop (b ∷ bs) m prev a (suc fuel) acc pos c h fits =
    let more : ℕ = if b.free then b.size else 0 in
    let fits' : acc + (more + free_bytes bs) < two64 = unfold free_bytes in fits in
    let step : (if flag b.free == 0 then acc else add64 acc b.size) ≡ acc + more =
      ground (arith, add64-exact acc b.size) in
    let live : (a == 0) ≡ false = ground arith in
    let total : acc + more + free_bytes bs ≡ acc + free_bytes (b ∷ bs) =
      unfold free_bytes in omega arith in
    rw (Chain-head m prev a stop b bs c, live, step)
      (free_loop-free_bytes stop bs m a (after a b.size) fuel (acc + more) (omega arith)
          (Chain-tail m prev a stop b bs c) (omega arith) (omega arith)
        ∙ ap some total)

free_bytes-le : (bs : List Block) → free_bytes bs ≤ span bs
unfolding free_bytes span
free_bytes-le [] = omega arith
free_bytes-le (b ∷ bs) = ground (arith, free_bytes-le bs)

-- On a heap of blocks, `kget_free_memory` is the sum of the sizes of the free blocks; its loop always ends.
pub kget_free_memory-free_bytes :
    {h : Heap} {bs : List Block} → IsHeap h bs → kget_free_memory h ≡ some (free_bytes bs)
unfolding kget_free_memory
kget_free_memory-free_bytes {h} {bs} v =
    let small = v.small in
    let tiled = v.tiled in
    let total = span-eq v in
    rw (← head-link v) (
      free_loop-free_bytes h.heap_end bs h.cells 0 h.heap_start max_blocks 0 v.start_pos v.chain
        (length-lt-max_blocks v) (omega (arith, free_bytes-le bs))
      ∙ ap some (omega arith))
