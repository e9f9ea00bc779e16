-- ===== src/Heap/Krealloc.antt =====
-- `kcalloc` and `krealloc` of mlibc/memory.c on a heap that represents a list of blocks.
use pizda.Prelude.{
  ℕ, zero, suc, ◌+◌, ◌-◌, ◌*◌, ◌/◌, ◌%◌, ◌≤◌, ◌<◌, ◌≡◌, ◌≢◌, ◌∙◌, some, List, arith, two64, true,
  ◌&&◌, leb, ltb, ◌==◌, ==_ne, if◌then◌else◌, ◌⊎◌,
}
use pizda.Heap.{Heap, kcalloc, memset, memcpy, clear_payload, align16}
use pizda.Heap.Blocks.{Block, alloc_ptr}
use pizda.Heap.State.{IsHeap}
use pizda.Heap.Kmalloc.{kmalloc-alloc, Fresh, kmalloc-Fresh}

-- `memset` sets the bytes of its range and no other.
pub memset-range :
    (s c n : ℕ) (b : ℕ → ℕ) (x : ℕ)
    → memset s c n b x ≡ (if leb s x && ltb x (s + n) then c % 256 else b x)
unfolding memset
memset-range s c zero b x = ground arith
memset-range s c (suc n) b x = memset-range (s + 1) c n _ x ∙ ground arith

-- Between ranges that do not overlap, `memcpy` copies the bytes of the source and changes no byte
-- outside its destination.
pub memcpy-range :
    (d s n : ℕ) (b : ℕ → ℕ) (x : ℕ)
    → (d + n ≤ s) ⊎ (s + n ≤ d)
    → memcpy d s n b x ≡ (if leb d x && ltb x (d + n) then b (s + (x - d)) else b x)
unfolding memcpy
memcpy-range d s zero b x h = ground arith
memcpy-range d s (suc n) b x h = memcpy-range (d + 1) (s + 1) n _ x (omega arith) ∙ ground arith

div-exact : (n k : ℕ) → 0 < n → n * k / n ≡ k
div-exact n k pos = grind arith

div-short : (n k w : ℕ) → 0 < n → w < n * k → w / n ≢ k
div-short n k w pos lt e = grind arith

-- `kcalloc` refuses a product of 2^64 or more, and changes nothing.
pub kcalloc_overflows :
    (kernel_end nmemb size : ℕ) (h : Heap)
    → two64 ≤ nmemb * size
    → kcalloc kernel_end nmemb size h ≡ some (h, 0)
unfolding kcalloc
kcalloc_overflows kernel_end nmemb size h over =
    let pos : 0 < nmemb = grind arith in
    let short = div-short nmemb size (nmemb * size % two64) pos (omega arith) in
    rw (==_ne nmemb 0 (omega arith), ==_ne (nmemb * size % two64 / nmemb) size short)

pub IsHeap-bytes :
    {h : Heap} {bs : List Block} (b : ℕ → ℕ) → IsHeap h bs → IsHeap (record h { bytes = b }) bs
IsHeap-bytes b v = record {
  start_pos = v.start_pos;
  start_aligned = v.start_aligned;
  small = v.small;
  tiled = v.tiled;
  head = v.head;
  chain = v.chain;
  joined = v.joined;
  aligned = v.aligned;
}

pub Fresh-bytes :
    {n p : ℕ} {h h' : Heap} {bs : List Block} (b : ℕ → ℕ)
    → Fresh n h bs h' p
    → Fresh n h bs (record h' { bytes = b }) p
Fresh-bytes b f = record {
  blocks = f.blocks;
  valid = IsHeap-bytes b f.valid;
  room = f.room;
  enough = f.enough;
  aligned = f.aligned;
  in_use = f.in_use;
  above = f.above;
  below = f.below;
  keeps = f.keeps;
}

clear_payload-null :
    (n : ℕ) (h : Heap) (p : ℕ) → p ≡ 0 → clear_payload n (some (h, p)) ≡ some (h, p)
unfolding clear_payload
clear_payload-null n h p e = ground arith

pub clear_payload-some :
    (n : ℕ) (h : Heap) (p : ℕ)
    → p ≢ 0
    → clear_payload n (some (h, p)) ≡ some (record h { bytes = memset p 0 n h.bytes }, p)
unfolding clear_payload
clear_payload-some n h p ne = rw (==_ne p 0 ne)

-- On a heap of blocks, a pointer that `kcalloc` returns for a product above 0 and below 2^64 - 15 is
-- as fresh as one from `kmalloc`; its `nmemb * size` bytes are zero and the others keep their values.
pub kcalloc_zeroes :
    {h h' : Heap} {bs : List Block} {p : ℕ} (kernel_end nmemb size : ℕ)
    → IsHeap h bs
    → 0 < nmemb * size
    → nmemb * size + 15 < two64
    → kcalloc kernel_end nmemb size h ≡ some (h', p)
    → p ≢ 0
    → Fresh (nmemb * size) h bs h' p
      × ((x : ℕ) → h'.bytes x ≡ (if leb p x && ltb x (p + nmemb * size) then 0 else h.bytes x))
kcalloc_zeroes {h} {h'} {bs} {p} kernel_end nmemb size v pos fits e ne =
    let total = nmemb * size in
    let out = kmalloc-alloc kernel_end v total pos in
    let q = alloc_ptr (align16 total) h.heap_start bs in
    let exact : total % two64 ≡ total = omega arith in
    let npos : 0 < nmemb = grind arith in
    let cleared : Heap = record (out.heap) { bytes = memset q 0 total out.heap.bytes } in
    let same : (size == size) ≡ true = ground arith in
    let whole : kcalloc kernel_end nmemb size h ≡ clear_payload total (some (out.heap, q)) =
      unfold kcalloc in
      rw (exact, div-exact nmemb size npos, ==_ne nmemb 0 (omega arith), out.result, same) in
    let found : q ≢ 0 = λ z. ne (cc (clear_payload-null total out.heap q z)) in
    let done : kcalloc kernel_end nmemb size h ≡ some (cleared, q) =
      whole ∙ clear_payload-some total out.heap q found in
    let eh : cleared ≡ h' = cc in
    let ep : q ≡ p = cc in
    rw (← eh, ← ep)
      (
        Fresh-bytes (memset q 0 total out.heap.bytes)
            (kmalloc-Fresh kernel_end total v pos fits out.result found),
        λ x. memset-range q 0 total out.heap.bytes x ∙ rw (out.same_bytes),
      )
