-- ===== src/Heap.antt =====
-- The kernel heap of src/mlibc/memory.c: headers at addresses, joined in a doubly linked list.
-- `cells` is the `header_t` that a read at an address gives, `bytes` the payload. A header that is
-- written is read back at its own address; the theorems are about heaps whose headers lie 32 bytes
-- apart at least. The loops run on fuel: `max_blocks` rounds, and `none` when they do not suffice.
pub mod Blocks
pub mod Chain
pub mod Writes
pub mod Carve
pub mod Malloc
pub mod Free
pub mod Release
pub mod FirstFit
pub mod InUse
pub mod State
pub mod Kmalloc
pub mod Kfree
pub mod Krealloc
pub mod Keeps
pub mod Moves
mod Examples
use pizda.Prelude.{
  ℕ, zero, suc, ◌+◌, ◌*◌, ◌/◌, ◌%◌, Bool, ◌&&◌, ◌||◌, not, Option, none, some, ltb, leb, ◌==◌,
  if◌then◌else◌, add64, sub64, two64,
}

abbrev pub heap_size : ℕ
heap_size = 131072

abbrev pub heap_magic : ℕ
heap_magic = 0x48454150

-- sizeof(header_t)
abbrev pub header_size : ℕ
header_size = 32

abbrev pub max_blocks : ℕ
max_blocks = 4097

pub record Header : Type 0 where
  pub magic : ℕ
  pub is_free : ℕ
  pub size : ℕ
  pub next : ℕ
  pub prev : ℕ

abbrev pub Cells : Type 0
Cells = ℕ → Header

unfoldable pub write : Cells → ℕ → Header → Cells
write m p h a = if a == p then h else m a

pub record Heap : Type 0 where
  pub heap_start : ℕ
  pub heap_end : ℕ
  pub heap_head : ℕ
  pub cells : Cells
  pub bytes : ℕ → ℕ

-- (size + 15) & ~15UL
unfoldable pub align16 : ℕ → ℕ
align16 size = add64 size 15 / 16 * 16

-- `if (p) p->prev = q;`
unfoldable pub relink : Cells → ℕ → ℕ → Cells
relink m p q = if p == 0 then m else write m p (record (m p) { prev = q })

unfoldable pub split_block : ℕ → ℕ → Cells → Cells
split_block current size m =
    let c = m current in
    let fresh = add64 (add64 current header_size) size in
    let block : Header = record {
      magic = heap_magic;
      is_free = 1;
      size = sub64 (sub64 c.size size) header_size;
      next = c.next;
      prev = current;
    } in
    let linked = relink (write m fresh block) c.next fresh in
    if leb (add64 (add64 size header_size) 16) c.size
    then write linked current (record (linked current) { size = size; next = fresh })
    else m

-- A neighbour that `coalesce` may merge: `p && p->is_free && p->magic == HEAP_MAGIC`.
unfoldable pub mergeable : Cells → ℕ → Bool
mergeable m p = not (p == 0) && not ((m p).is_free == 0) && (m p).magic == heap_magic

-- `p->size += sizeof(header_t) + q->size; p->next = q->next; if (p->next) p->next->prev = p;`
unfoldable pub absorb : ℕ → ℕ → Cells → Cells
absorb p q m =
    let grown : Header = record (m p) {
      size = add64 (m p).size (add64 header_size (m q).size);
      next = (m q).next;
    } in
    relink (write m p grown) (m q).next p

unfoldable pub coalesce : ℕ → Cells → Cells
coalesce block m =
    if block == 0 || (m block).is_free == 0
    then m
    else (let next = (m block).next in
        let m1 = if mergeable m next then absorb block next m else m in
        let prev = (m1 block).prev in if mergeable m1 prev then absorb prev block m1 else m1)

unfoldable pub init_heap : ℕ → Heap → Heap
init_heap kernel_end h =
    let start = align16 kernel_end in
    let first : Header = record {
      magic = heap_magic;
      is_free = 1;
      size = sub64 heap_size header_size;
      next = 0;
      prev = 0;
    } in
    record h {
      heap_start = start;
      heap_end = add64 start heap_size;
      heap_head = start;
      cells = write h.cells start first;
    }

-- `split_block(current, size); current->is_free = 0;`
unfoldable pub take_block : ℕ → ℕ → Cells → Cells
take_block current size m =
    let cut = split_block current size m in write cut current (record (cut current) { is_free = 0 })

-- The loop of `kmalloc`: the cells afterwards and the pointer, 0 for a failure.
unfoldable pub kmalloc_loop : ℕ → ℕ → ℕ → Cells → Option (Cells × ℕ)
kmalloc_loop zero size current m = none
kmalloc_loop (suc fuel) size current m =
    let rest = kmalloc_loop fuel size (m current).next m in
    if current == 0
    then some (m, 0)
    else if not ((m current).magic == heap_magic)
    then some (m, 0)
    else if not ((m current).is_free == 0) && leb size (m current).size
    then some (take_block current size m, add64 current header_size)
    else rest

unfoldable pub with_cells : Heap → Option (Cells × ℕ) → Option (Heap × ℕ)
with_cells h none = none
with_cells h (some (m, p)) = some (record h { cells = m }, p)

unfoldable pub ensure_heap : ℕ → Heap → Heap
ensure_heap kernel_end h = if h.heap_head == 0 then init_heap kernel_end h else h

unfoldable pub kmalloc : ℕ → ℕ → Heap → Option (Heap × ℕ)
kmalloc kernel_end size h =
    let g = ensure_heap kernel_end h in
    if size == 0
    then some (g, 0)
    else with_cells g (kmalloc_loop max_blocks (align16 size) g.heap_head g.cells)

unfoldable pub kfree : ℕ → Heap → Heap
kfree ptr h =
    let header = sub64 ptr header_size in
    if ptr == 0
    then h
    else if h.heap_start == 0 || h.heap_end == 0
    then h
    else if ltb header h.heap_start || leb h.heap_end header
    then h
    else if not ((h.cells header).magic == heap_magic)
    then h
    else if not ((h.cells header).is_free == 0)
    then h
    else record h {
      cells = coalesce header (write h.cells header (record (h.cells header) { is_free = 1 }));
    }

-- `while (n--) *p++ = c;` over the payload bytes.
unfoldable pub memset : ℕ → ℕ → ℕ → (ℕ → ℕ) → ℕ → ℕ
memset s c zero b = b
memset s c (suc n) b = memset (s + 1) c n (λ a. if a == s then c % 256 else b a)

unfoldable pub memcpy : ℕ → ℕ → ℕ → (ℕ → ℕ) → ℕ → ℕ
memcpy dest src zero b = b
memcpy dest src (suc n) b = memcpy (dest + 1) (src + 1) n (λ a. if a == dest then b src else b a)

unfoldable pub clear_payload : ℕ → Option (Heap × ℕ) → Option (Heap × ℕ)
clear_payload total none = none
clear_payload total (some (h, p)) =
    if p == 0 then some (h, p) else some (record h { bytes = memset p 0 total h.bytes }, p)

unfoldable pub kcalloc : ℕ → ℕ → ℕ → Heap → Option (Heap × ℕ)
kcalloc kernel_end nmemb size h =
    let total = nmemb * size % two64 in
    if not (nmemb == 0) && not (total / nmemb == size)
    then some (h, 0)
    else clear_payload total (kmalloc kernel_end total h)

-- The tail of `krealloc`: copy, free the old block.
unfoldable pub move_block : ℕ → ℕ → Option (Heap × ℕ) → Option (Heap × ℕ)
move_block ptr size none = none
move_block ptr size (some (h, p)) =
    if p == 0
    then some (h, 0)
    else some (kfree ptr (record h { bytes = memcpy p ptr size h.bytes }), p)

unfoldable pub krealloc : ℕ → ℕ → ℕ → Heap → Option (Heap × ℕ)
krealloc kernel_end ptr size h =
    let header = sub64 ptr header_size in
    let c = h.cells header in
    let n = h.cells c.next in
    if ptr == 0
    then kmalloc kernel_end size h
    else if size == 0
    then some (kfree ptr h, 0)
    else if not (c.magic == heap_magic)
    then some (h, 0)
    else if leb size c.size
    then some (h, ptr)
    else if not (c.next == 0)
        && not (n.is_free == 0)
        && leb size (add64 (add64 c.size header_size) n.size)
    then some
        (record h { cells = split_block header (align16 size) (absorb header c.next h.cells) }, ptr)
    else move_block ptr c.size (kmalloc kernel_end size h)

unfoldable pub free_loop : ℕ → ℕ → Cells → ℕ → Option ℕ
free_loop zero current m acc = none
free_loop (suc fuel) current m acc =
    let rest =
      free_loop fuel (m current).next m
        (if (m current).is_free == 0 then acc else add64 acc (m current).size) in
    if current == 0 then some acc else rest

unfoldable pub kget_free_memory : Heap → Option ℕ
kget_free_memory h = free_loop max_blocks h.heap_head h.cells 0

unfoldable pub kmalloc_usable_size : ℕ → Heap → ℕ
kmalloc_usable_size ptr h =
    let c = h.cells (sub64 ptr header_size) in
    if ptr == 0 then 0 else if not (c.magic == heap_magic) then 0 else c.size
