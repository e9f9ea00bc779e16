-- ===== src/Heap/FirstFit.antt =====
-- Laws of first fit and of release on the blocks of the heap of mlibc/memory.c.
use pizda.Prelude.{
  ℕ, ◌%◌, ◌≡◌, refl, true, false, inl, inr, List, [], ◌∷◌, arith, ℕ-cases, Bool-cases,
}
use pizda.Heap.Blocks.{
  Block, block, after, fits, carve, alloc, join, release, starts_free, Joined, Aligned,
}
use pizda.Heap.Malloc.{alloc_here, alloc_later}
use pizda.Heap.Release.{release_here, release_later}

pub fits-free : (n : ℕ) (b : Block) → fits n b ≡ true → b.free ≡ true
unfolding fits
fits-free n b h = ground arith

carve-Joined :
    (n : ℕ) (b : Block) (bs : List Block)
    → fits n b ≡ true
    → Joined (b ∷ bs)
    → Joined (carve n b bs)
unfolding carve Joined fits
carve-Joined n b bs fit j = ground arith

starts_free-alloc :
    (n : ℕ) (bs : List Block) → starts_free bs ≡ false → starts_free (alloc n bs) ≡ false
unfolding alloc carve fits
starts_free-alloc n [] e = refl
starts_free-alloc n (b ∷ bs) e = ground arith

pub alloc-Joined : (n : ℕ) (bs : List Block) → Joined bs → Joined (alloc n bs)
unfolding Joined
alloc-Joined n [] j = unfold alloc in j
alloc-Joined n (b ∷ bs) j = elim (Bool-cases (fits n b)) [
  | inl fit ↦ rw (alloc_here n b bs fit) (carve-Joined n b bs fit j)
  | inr unfit ↦
      rw (alloc_later n b bs unfit) (ground (arith, starts_free-alloc n bs), alloc-Joined n bs j.1)
]

carve-Aligned :
    (n : ℕ) (b : Block) (bs : List Block) → n % 16 ≡ 0 → Aligned (b ∷ bs) → Aligned (carve n b bs)
unfolding carve Aligned
carve-Aligned n b bs e h = ground arith

pub alloc-Aligned : (n : ℕ) (bs : List Block) → n % 16 ≡ 0 → Aligned bs → Aligned (alloc n bs)
unfolding Aligned
alloc-Aligned n [] e h = unfold alloc in h
alloc-Aligned n (b ∷ bs) e h = elim (Bool-cases (fits n b)) [
  | inl fit ↦ rw (alloc_here n b bs fit) (carve-Aligned n b bs e h)
  | inr unfit ↦ rw (alloc_later n b bs unfit) (h.0, alloc-Aligned n bs e h.1)
]

join-Joined : (b : Block) (bs : List Block) → Joined bs → Joined (join b bs)
unfolding join Joined
join-Joined b [] j = ground arith
join-Joined b (c ∷ bs) j = ground arith

pub release-Joined : (p a : ℕ) (bs : List Block) → Joined bs → Joined (release p a bs)
unfolding Joined
release-Joined p a [] j = unfold release in j
release-Joined p a (b ∷ bs) j = elim (ℕ-cases p a) [
  | inl at ↦ rw (release_here p a b bs at) (join-Joined (block b.size true) bs j.1)
  | inr off ↦
      rw (release_later p a b bs off) (join-Joined b _ (release-Joined p (after a b.size) bs j.1))
]

join-Aligned : (b : Block) (bs : List Block) → b.size % 16 ≡ 0 → Aligned bs → Aligned (join b bs)
unfolding join Aligned
join-Aligned b [] e h = (e, h)
join-Aligned b (c ∷ bs) e h = ground arith

pub release-Aligned : (p a : ℕ) (bs : List Block) → Aligned bs → Aligned (release p a bs)
unfolding Aligned
release-Aligned p a [] h = unfold release in h
release-Aligned p a (b ∷ bs) h = elim (ℕ-cases p a) [
  | inl at ↦ rw (release_here p a b bs at) (join-Aligned (block b.size true) bs (h.0) (h.1))
  | inr off ↦
      rw (release_later p a b bs off)
        (join-Aligned b _ (h.0) (release-Aligned p (after a b.size) bs h.1))
]
