-- ===== src/Heap/Malloc.antt =====
-- The loop of `kmalloc` against first fit on the blocks that the headers represent.
use pizda.Prelude.{
  ℕ, zero, suc, ◌+◌, ◌≤◌, ◌<◌, ◌≡◌, refl, ◌∙◌, true, false, inl, inr, Option, some, List, [], ◌∷◌,
  arith, words, ◌==◌, Bool-cases, length, add64, two64,
}
use pizda.Heap.{Cells, take_block, kmalloc_loop}
use pizda.Heap.Blocks.{Block, after, fits, carve, alloc, alloc_ptr}
use pizda.Heap.Chain.{
  Chain, SameOutside, link, header, Chain-head, Chain-tail, Chain-cons, after-le,
}
use pizda.Heap.Carve.{take_block-carve}

link-alloc : (n e : ℕ) (bs : List Block) → link e (alloc n bs) ≡ link e bs
unfolding alloc carve
link-alloc n e [] = refl
link-alloc n e (b ∷ bs) = ground arith

pub fits-le : (n : ℕ) (b : Block) → fits n b ≡ true → n ≤ b.size
unfolding fits
fits-le n b h = ground arith

module _ (n : ℕ) (b : Block) (bs : List Block) where
  pub alloc_here : fits n b ≡ true → alloc n (b ∷ bs) ≡ carve n b bs
  unfolding alloc
  alloc_here e = rw e

  pub alloc_later : fits n b ≡ false → alloc n (b ∷ bs) ≡ b ∷ alloc n bs
  unfolding alloc
  alloc_later e = rw e

  pub alloc_ptr_here : (a : ℕ) → fits n b ≡ true → alloc_ptr n a (b ∷ bs) ≡ a + 32
  unfolding alloc_ptr
  alloc_ptr_here a e = rw e

  pub alloc_ptr_later :
      (a : ℕ) → fits n b ≡ false → alloc_ptr n a (b ∷ bs) ≡ alloc_ptr n (after a b.size) bs
  unfolding alloc_ptr
  alloc_ptr_later a e = rw e

-- One round of the loop at the header of `b`.
module _ (m : Cells) (n a fuel next prev : ℕ) (b : Block) (pos : 0 < a)
    (at : m a ≡ header b next prev) where
  live : (a == 0) ≡ false
  live = ground arith

  round_here : fits n b ≡ true → kmalloc_loop (suc fuel) n a m ≡ some (take_block a n m, add64 a 32)
  unfolding kmalloc_loop fits
  round_here fit = rw (at, live) (ground arith)

  round_later : fits n b ≡ false → kmalloc_loop (suc fuel) n a m ≡ kmalloc_loop fuel n next m
  unfolding kmalloc_loop fits
  round_later fit = rw (at, live) (ground arith)

-- The outcome of the loop on a chain of the blocks `bs`.
abbrev pub Allocates : ℕ → ℕ → ℕ → ℕ → List Block → Cells → Option (Cells × ℕ) → Type 0
Allocates n prev a stop bs m r =
    (m' : Cells) × (r ≡ some (m', alloc_ptr n a bs))
    × Chain m' prev a stop (alloc n bs)
    × SameOutside a stop m m'

module _ (n stop : ℕ) (small : stop + 64 < two64) where
  module _ (m : Cells) (prev a fuel : ℕ) (b : Block) (bs : List Block) (pos : 0 < a)
      (c : Chain m prev a stop (b ∷ bs)) where
    Allocates-here :
        fits n b ≡ true → Allocates n prev a stop (b ∷ bs) m (kmalloc_loop (suc fuel) n a m)
    Allocates-here fit =
        let taken = take_block-carve m prev a stop n b bs pos small (fits-le n b fit) c in
        let exact : add64 a 32 ≡ a + 32 = omega (words, after-le m prev a stop b bs c) in
        (
          take_block a n m,
          rw (
            round_here m n a fuel _ prev b pos (Chain-head m prev a stop b bs c) fit,
            exact,
            alloc_ptr_here n b bs a fit,
          ),
          rw (alloc_here n b bs fit) (taken.0),
          taken.1,
        )

    Allocates-later :
        fits n b ≡ false
        → Allocates n a
            (after a b.size)
            stop
            bs
            m
            (kmalloc_loop fuel n (link (after a b.size) bs) m)
        → Allocates n prev a stop (b ∷ bs) m (kmalloc_loop (suc fuel) n a m)
    Allocates-later fit (m', e, c', same) = (
      m',
      round_later m n a fuel _ prev b pos (Chain-head m prev a stop b bs c) fit
          ∙ rw (alloc_ptr_later n b bs a fit) e,
      rw (alloc_later n b bs fit) (
          Chain-cons m' prev a stop b (alloc n bs)
            (same a (omega arith)
              ∙ rw (link-alloc n (after a b.size) bs) (Chain-head m prev a stop b bs c))
            c'),
      λ x h. same x (ground (arith, after-le m prev a stop b bs c)),
    )

  -- With a round for each block and one more the loop ends, and does a first fit.
  pub kmalloc_loop-alloc :
      (bs : List Block) (m : Cells) (prev a fuel : ℕ)
      → 0 < a
      → Chain m prev a stop bs
      → length bs < fuel
      → Allocates n prev a stop bs m (kmalloc_loop fuel n (link a bs) m)
  kmalloc_loop-alloc bs m prev a zero pos c h = absurd (omega arith)
  kmalloc_loop-alloc [] m prev a (suc fuel) pos c h =
      (m, unfold kmalloc_loop alloc_ptr in refl, unfold alloc in c, λ x k. refl)
  kmalloc_loop-alloc (b ∷ bs) m prev a (suc fuel) pos c h = elim (Bool-cases (fits n b)) [
    | inl fit ↦ Allocates-here m prev a fuel b bs pos c fit
    | inr unfit ↦ Allocates-later m prev a fuel b bs pos c unfit (
        kmalloc_loop-alloc bs m a (after a b.size) fuel (omega arith)
          (Chain-tail m prev a stop b bs c) (omega arith))
  ]
