-- ===== src/Heap/Chain.antt =====
-- When the headers of mlibc/memory.c represent a list of blocks: each is where the block before it
-- ends, holds the block's size and flag, and points to its two neighbours.
use pizda.Prelude.{
  ℕ, ◌+◌, ◌≤◌, ◌<◌, ◌≡◌, Bool, List, [], ◌∷◌, arith, if◌then◌else◌, ◌⊎◌, ◌∙◌, ◌*◌, length,
}
use pizda.Heap.{Header, Cells, heap_magic}
use pizda.Heap.Blocks.{Block, after, span}

abbrev pub flag : Bool → ℕ
flag b = if b then 1 else 0

abbrev pub header : Block → ℕ → ℕ → Header
header b n p = record {
  magic = heap_magic;
  is_free = flag b.free;
  size = b.size;
  next = n;
  prev = p;
}

-- The pointer to the first of the blocks at `a`, null if there is none.
abbrev pub link : ℕ → List Block → ℕ
link a [] = 0
link a (b ∷ bs) = a

-- The blocks `bs` lie from `a` up to `stop`, and `prev` is the address of the header before them.
unfoldable pub Chain : Cells → ℕ → ℕ → ℕ → List Block → Type 0
Chain m prev a stop [] = a ≡ stop
Chain m prev a stop (b ∷ bs) =
    (m a ≡ header b (link (after a b.size) bs) prev) × Chain m a (after a b.size) stop bs

abbrev pub SameOutside : ℕ → ℕ → Cells → Cells → Type 0
SameOutside a stop m m' = (x : ℕ) → (x < a) ⊎ (stop ≤ x) → m' x ≡ m x

pub Chain-le : (m : Cells) (prev a stop : ℕ) (bs : List Block) → Chain m prev a stop bs → a ≤ stop
unfolding Chain
Chain-le m prev a stop [] c = omega arith
Chain-le m prev a stop (b ∷ bs) c = omega (arith, Chain-le m a (after a b.size) stop bs c.1)

-- The blocks tile the whole stretch.
pub Chain-span :
    (m : Cells) (prev a stop : ℕ) (bs : List Block) → Chain m prev a stop bs → a + span bs ≡ stop
unfolding Chain span
Chain-span m prev a stop [] c = omega arith
Chain-span m prev a stop (b ∷ bs) c = omega (arith, Chain-span m a (after a b.size) stop bs c.1)

-- A chain depends on the cells of its own stretch alone.
pub Chain-frame :
    (m m' : Cells) (prev a stop : ℕ) (bs : List Block)
    → ((x : ℕ) → a ≤ x → x < stop → m' x ≡ m x)
    → Chain m prev a stop bs
    → Chain m' prev a stop bs
unfolding Chain
Chain-frame m m' prev a stop [] same c = c
Chain-frame m m' prev a stop (b ∷ bs) same c =
    let le = Chain-le m a (after a b.size) stop bs c.1 in
    (
      same a (omega arith) (omega arith) ∙ c.0,
      Chain-frame m m' a (after a b.size) stop bs (λ x p q. same x (omega arith) q) c.1,
    )

pub length-span : (bs : List Block) → 32 * length bs ≤ span bs
unfolding span
length-span [] = omega arith
length-span (b ∷ bs) = omega (arith, length-span bs)

-- The two parts of a chain with a first block.
module _ (m : Cells) (prev a stop : ℕ) (b : Block) (bs : List Block) where
  pub Chain-head : Chain m prev a stop (b ∷ bs) → m a ≡ header b (link (after a b.size) bs) prev
  unfolding Chain
  Chain-head c = c.0

  pub Chain-tail : Chain m prev a stop (b ∷ bs) → Chain m a (after a b.size) stop bs
  unfolding Chain
  Chain-tail c = c.1

  pub Chain-cons :
      m a ≡ header b (link (after a b.size) bs) prev
      → Chain m a (after a b.size) stop bs
      → Chain m prev a stop (b ∷ bs)
  unfolding Chain
  Chain-cons e c = (e, c)

  pub after-le : Chain m prev a stop (b ∷ bs) → after a b.size ≤ stop
  after-le c = Chain-le m a (after a b.size) stop bs (Chain-tail c)
