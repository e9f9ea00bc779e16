-- ===== src/Heap/Examples.antt =====
-- The theorems on the heap of mlibc/memory.c at concrete heaps, and runs of its functions.
use pizda.Prelude.{
  ◌∙◌, ℕ, ◌+◌, ◌-◌, ◌<◌, ◌≡◌, ◌≢◌, refl, ap, false, inr, Option, some, none, List, arith, two64,
  add64, sub64,
}
use pizda.Heap.{
  Heap, Header, heap_magic, krealloc, move_block, init_heap, kmalloc, kfree, kget_free_memory,
  write, split_block, relink, absorb, coalesce, mergeable, take_block, kmalloc_loop, kcalloc,
  memset, memcpy, with_cells, ensure_heap, align16, free_loop,
}
use pizda.Heap.Blocks.{
  after, block, Block, alloc, alloc_ptr, InUse, release, carve, fits, free_bytes,
}
use pizda.Heap.InUse.{NoFit}
use pizda.Heap.State.{IsHeap, whole, init_heap-IsHeap}
use pizda.Heap.Kmalloc.{
  Allocated, kmalloc-alloc, Fresh, kmalloc-Fresh, kmalloc_fails, kmalloc_wraps,
}
use pizda.Heap.Krealloc.{clear_payload-some}
use pizda.Heap.Moves.{Stuck, Moved, krealloc-move, move_block-some, krealloc-Moved}
use pizda.Heap.Chain.{Chain-head}
use pizda.Heap.Keeps.{kfree-keeps}
use pizda.Heap.Kfree.{
  InUse-header, kfree-release, kfree-kmalloc, kfree-kfree, kget_free_memory-free_bytes,
}

abbrev zeroed : Heap
zeroed = record {
  heap_start = 0;
  heap_end = 0;
  heap_head = 0;
  cells = λ a. record { magic = 0; is_free = 0; size = 0; next = 0; prev = 0 };
  bytes = λ a. 0;
}

abbrev kernel_end : ℕ
kernel_end = 0x100008

abbrev booted : Heap
booted = init_heap kernel_end zeroed

booted-IsHeap : IsHeap booted whole
booted-IsHeap = init_heap-IsHeap kernel_end zeroed (omega arith) (omega arith)

init_heap-IsHeap_example : IsHeap (init_heap kernel_end zeroed) whole
init_heap-IsHeap_example = init_heap-IsHeap kernel_end zeroed (omega arith) (omega arith)

-- `kmalloc(100)` before any other call sets the heap up and returns the address behind the first
-- header; `kfree` of that gives all of the heap back.
abbrev cycle : Option (Heap × ℕ) → Option (ℕ × Option ℕ × Option ℕ)
cycle none = none
cycle (some (h, p)) = some (p, kget_free_memory h, kget_free_memory (kfree p h))

first_use : cycle (kmalloc kernel_end 100 zeroed) ≡ some (0x100030, some 130896, some 131040)
unfolding kmalloc with_cells ensure_heap init_heap kmalloc_loop align16 write split_block relink
    take_block absorb coalesce mergeable kfree kget_free_memory free_loop add64 sub64
first_use = refl

abbrev after_first : Allocated (align16 100) booted whole (kmalloc kernel_end 100 booted)
after_first = kmalloc-alloc kernel_end booted-IsHeap 100 (omega arith)

first_ptr : alloc_ptr (align16 100) booted.heap_start whole ≢ 0
unfolding alloc_ptr fits init_heap align16 add64
first_ptr = omega arith

abbrev first : ℕ
first = alloc_ptr (align16 100) booted.heap_start whole

kmalloc-Fresh_example : Fresh 100 booted whole after_first.heap first
kmalloc-Fresh_example =
    kmalloc-Fresh kernel_end 100 booted-IsHeap (omega arith) (omega arith) after_first.result
      first_ptr

kfree-kmalloc_example : IsHeap (kfree first after_first.heap) whole
kfree-kmalloc_example =
    kfree-kmalloc kernel_end 100 booted-IsHeap (omega arith) after_first.result first_ptr

-- More than the heap has.
kmalloc_fails_example :
    (h' : Heap) × (p : ℕ) × (kmalloc kernel_end 200000 booted ≡ some (h', p))
    × (p ≡ 0 → NoFit (align16 200000) whole × IsHeap h' whole)
    × (NoFit (align16 200000) whole → p ≡ 0)
kmalloc_fails_example = kmalloc_fails kernel_end 200000 booted-IsHeap (omega arith)

abbrev after_wrap :
    Allocated (align16 (two64 - 1)) booted whole (kmalloc kernel_end (two64 - 1) booted)
after_wrap = kmalloc-alloc kernel_end booted-IsHeap (two64 - 1) (omega arith)

wrap_ptr : alloc_ptr (align16 (two64 - 1)) booted.heap_start whole ≢ 0
unfolding alloc_ptr fits init_heap align16 add64
wrap_ptr = omega arith

kmalloc_wraps_example :
    (blocks : List Block) × IsHeap after_wrap.heap blocks
    × (k : ℕ) × InUse
        (alloc_ptr (align16 (two64 - 1)) booted.heap_start whole - 32)
        k
        after_wrap.heap.heap_start
        blocks
    × (k < 48)
kmalloc_wraps_example =
    kmalloc_wraps kernel_end (two64 - 1) booted-IsHeap (omega arith) (omega arith) after_wrap.result
      wrap_ptr

-- A heap with one block of 112 bytes in use, at its start.
abbrev used : Heap
used = after_first.heap

booted-InUse : InUse 0x100010 112 booted.heap_start (alloc (align16 100) whole)
unfolding InUse alloc fits carve align16 add64 init_heap
booted-InUse = (refl, refl)

used-InUse : InUse 0x100010 112 used.heap_start (alloc (align16 100) whole)
used-InUse = rw (after_first.same_start) booted-InUse

kfree-release_example :
    IsHeap
      (kfree (0x100010 + 32) used)
      (release 0x100010 used.heap_start (alloc (align16 100) whole))
kfree-release_example = kfree-release 0x100010 112 after_first.valid used-InUse

kfree-kfree_example :
    kfree (0x100010 + 32) (kfree (0x100010 + 32) used) ≡ kfree (0x100010 + 32) used
kfree-kfree_example = kfree-kfree 0x100010 112 after_first.valid used-InUse

kget_free_memory-free_bytes_example : kget_free_memory booted ≡ some (free_bytes whole)
kget_free_memory-free_bytes_example = kget_free_memory-free_bytes booted-IsHeap

-- `kcalloc(4, 25)` of a heap set up.
abbrev zeroed_payload : Heap
zeroed_payload = record (after_first.heap) { bytes = memset first 0 100 after_first.heap.bytes }

kcalloc-first : kcalloc kernel_end 4 25 booted ≡ some (zeroed_payload, first)
unfolding kcalloc
kcalloc-first = rw (after_first.result) (clear_payload-some 100 after_first.heap first first_ptr)

-- A second block, of 64 bytes, behind the first.
abbrev after_second :
    Allocated (align16 50) used (alloc (align16 100) whole) (kmalloc kernel_end 50 used)
after_second = kmalloc-alloc kernel_end after_first.valid 50 (omega arith)

abbrev both : Heap
both = after_second.heap

two_InUse :
    InUse 0x100010 112 booted.heap_start (alloc (align16 50) (alloc (align16 100) whole))
    × InUse 0x1000A0 64 booted.heap_start (alloc (align16 50) (alloc (align16 100) whole))
unfolding InUse alloc fits carve align16 add64 init_heap
two_InUse = ((refl, refl), (refl, refl))

both-InUse :
    InUse 0x100010 112 both.heap_start (alloc (align16 50) (alloc (align16 100) whole))
    × InUse 0x1000A0 64 both.heap_start (alloc (align16 50) (alloc (align16 100) whole))
both-InUse = rw (after_second.same_start, after_first.same_start) two_InUse

kfree-keeps_example :
    IsHeap
      (kfree (0x100010 + 32) both)
      (release 0x100010 both.heap_start (alloc (align16 50) (alloc (align16 100) whole)))
    × InUse 0x1000A0 64
        (kfree (0x100010 + 32) both).heap_start
        (release 0x100010 both.heap_start (alloc (align16 50) (alloc (align16 100) whole)))
    × ((x : ℕ) → (kfree (0x100010 + 32) both).bytes x ≡ both.bytes x)
kfree-keeps_example =
    kfree-keeps 0x100010 112 0x1000A0 64 after_second.valid (both-InUse.0) (both-InUse.1)
      (omega arith)

both_head : both.cells both.heap_start ≡ record {
  magic = heap_magic;
  is_free = 0;
  size = 112;
  next = after both.heap_start 112;
  prev = 0;
}
unfolding alloc fits carve align16 add64
both_head =
    Chain-head both.cells 0 both.heap_start both.heap_end (block 112 false) _
      after_second.valid.chain

both_start : both.heap_start ≡ 0x100010
unfolding init_heap align16 add64
both_start = after_second.same_start ∙ after_first.same_start

both_next : (both.cells 0x100010).next ≡ 0x1000A0
both_next = ap (λ (h : Header). h.next) (rw both_start at both_head)

both-Stuck : Stuck both.cells 0x100010
both-Stuck = inr (
    ap (λ (a : ℕ). (both.cells a).is_free) both_next
    ∙ (InUse-header 0x1000A0 64 both.heap_end _ both.cells 0 both.heap_start
        after_second.valid.chain (both-InUse.1)).1)

abbrev after_third :
    Allocated
      (align16 200)
      both
      (alloc (align16 50) (alloc (align16 100) whole))
      (kmalloc kernel_end 200 both)
after_third = kmalloc-alloc kernel_end after_second.valid 200 (omega arith)

abbrev third : ℕ
third = alloc_ptr (align16 200) both.heap_start (alloc (align16 50) (alloc (align16 100) whole))

third_ptr : third ≢ 0
unfolding alloc_ptr fits alloc carve align16 add64
third_ptr = omega (arith, both_start)

abbrev moved : Heap
moved =
    kfree (0x100010 + 32) (record (after_third.heap) {
      bytes = memcpy third (0x100010 + 32) 112 after_third.heap.bytes;
    })

krealloc-moved : krealloc kernel_end (0x100010 + 32) 200 both ≡ some (moved, third)
krealloc-moved =
    krealloc-move kernel_end 0x100010 112 200 after_second.valid (both-InUse.0) (omega arith)
      both-Stuck
    ∙ ap (move_block (0x100010 + 32) 112) after_third.result
    ∙ move_block-some (0x100010 + 32) 112 third after_third.heap third_ptr

krealloc-Moved_example : Moved 200 112 (0x100010 + 32) both moved third
krealloc-Moved_example =
    krealloc-Moved kernel_end 0x100010 112 200 after_second.valid (both-InUse.0) (omega arith)
      (omega arith) both-Stuck krealloc-moved third_ptr
