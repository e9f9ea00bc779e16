-- ===== src/Heap/InUse.antt =====
-- Blocks in use: what an allocation adds, what it keeps, and that two of them do not overlap.
use pizda.Prelude.{
  ℕ, ◌+◌, ◌-◌, ◌%◌, ◌≤◌, ◌<◌, ◌≡◌, ◌≢◌, refl, true, false, ◌&&◌, ◌⊎◌, inl, inr, List, [], ◌∷◌, ap,
  arith, leb, leb→le, ==_ne, ==_eq, ℕ-cases, Bool-cases, All,
}
use pizda.Heap.Blocks.{
  Block, block, after, fits, carve, alloc, alloc_ptr, join, release, starts_free, Joined, Aligned,
  InUse, span,
}
use pizda.Heap.Malloc.{alloc_here, alloc_later, alloc_ptr_here, alloc_ptr_later}
use pizda.Heap.FirstFit.{fits-free}
use pizda.Heap.Release.{release_here, release_later, join_apart, InUse-here, InUse-later}

-- A block in use lies within the stretch of its list.
pub InUse-within :
    (p n a : ℕ) (bs : List Block) → InUse p n a bs → (a ≤ p) × (p + 32 + n ≤ a + span bs)
unfolding InUse span
InUse-within p n a [] u = absurd u
InUse-within p n a (b ∷ bs) u = elim (ℕ-cases p a) [
  | inl at ↦ ground (arith, ==_eq p a at)
  | inr off ↦
      let (le, lt) = InUse-within p n (after a b.size) bs (InUse-later p a b bs n off u) in
      (omega arith, omega arith)
]

-- The payloads of two blocks in use, and their headers, do not overlap.
pub InUse-disjoint :
    (p n q k a : ℕ) (bs : List Block)
    → InUse p n a bs
    → InUse q k a bs
    → p ≢ q
    → (p + 32 + n ≤ q) ⊎ (q + 32 + k ≤ p)
InUse-disjoint p n q k a [] u v ne = absurd (unfold InUse in u)
InUse-disjoint p n q k a (b ∷ bs) u v ne = elim (ℕ-cases p a) [
  | inl at ↦
      let off : q ≢ a = omega arith in
      let within = InUse-within q k (after a b.size) bs (InUse-later q a b bs k off v) in
      inl (omega (arith, (InUse-here p a b bs n at u).1))
  | inr off ↦ elim (ℕ-cases q a) [
    | inl at ↦
        let within = InUse-within p n (after a b.size) bs (InUse-later p a b bs n off u) in
        inr (omega (arith, (InUse-here q a b bs k at v).1))
    | inr off' ↦
        InUse-disjoint p n q k (after a b.size) bs (InUse-later p a b bs n off u)
          (InUse-later q a b bs k off' v) ne
  ]
]

-- The pointer of an allocation points behind the header of a block in use of at least `n` bytes,
-- and of fewer than `n + 48`.
carve-InUse :
    (n a : ℕ) (b : Block) (bs : List Block)
    → fits n b ≡ true
    → (k : ℕ) × (n ≤ k) × (k < n + 48) × InUse a k a (carve n b bs)
unfolding carve InUse fits
carve-InUse n a b bs fit = elim (Bool-cases (leb (n + 48) b.size)) [
  | inl roomy ↦ (n, omega arith, omega arith, rw (roomy, ==_eq a a refl) (refl, refl))
  | inr tight ↦ (b.size, ground arith, ground arith, rw (tight, ==_eq a a refl) (refl, refl))
]

pub alloc_ptr-ge : (n a : ℕ) (bs : List Block) → alloc_ptr n a bs ≢ 0 → a + 32 ≤ alloc_ptr n a bs
unfolding alloc_ptr
alloc_ptr-ge n a [] ne = absurd (ne refl)
alloc_ptr-ge n a (b ∷ bs) ne = ground (arith, alloc_ptr-ge n (after a b.size) bs)

pub InUse-skip :
    (p n a : ℕ) (b : Block) (bs : List Block)
    → p ≢ a
    → InUse p n (after a b.size) bs
    → InUse p n a (b ∷ bs)
unfolding InUse
InUse-skip p n a b bs ne u = rw (==_ne p a ne) u

pub alloc-InUse :
    (n a : ℕ) (bs : List Block)
    → alloc_ptr n a bs ≢ 0
    → (k : ℕ) × (n ≤ k) × (k < n + 48) × InUse (alloc_ptr n a bs - 32) k a (alloc n bs)
alloc-InUse n a [] ne = absurd (ne (unfold alloc_ptr in refl))
alloc-InUse n a (b ∷ bs) ne = elim (Bool-cases (fits n b)) [
  | inl fit ↦
      let e : a + 32 - 32 ≡ a = omega arith in
      rw (alloc_here n b bs fit, alloc_ptr_here n b bs a fit, e) (carve-InUse n a b bs fit)
  | inr unfit ↦
      let ne' : alloc_ptr n (after a b.size) bs ≢ 0 = rw (alloc_ptr_later n b bs a unfit) at ne in
      let (k, le, lt, u) = alloc-InUse n (after a b.size) bs ne' in
      let ge = alloc_ptr-ge n (after a b.size) bs ne' in
      rw (alloc_later n b bs unfit, alloc_ptr_later n b bs a unfit)
        (k, le, lt, InUse-skip _ k a b (alloc n bs) (omega arith) u)
]

pub InUse-same-head :
    (p n a : ℕ) (b : Block) (bs cs : List Block)
    → p ≡ a
    → InUse p n a (b ∷ bs)
    → InUse p n a (b ∷ cs)
unfolding InUse
InUse-same-head p n a b bs cs at u = rw (==_eq p a at) (InUse-here p a b bs n at u)

carve-keeps :
    (n a q k : ℕ) (b : Block) (bs : List Block)
    → fits n b ≡ true
    → q ≢ a
    → InUse q k (after a b.size) bs
    → InUse q k a (carve n b bs)
unfolding carve
carve-keeps n a q k b bs fit off u = elim (Bool-cases (leb (n + 48) b.size)) [
  | inl roomy ↦
      let le : n + 48 ≤ b.size = leb→le (n + 48) b.size roomy in
      let same : after (after a n) (b.size - n - 32) ≡ after a b.size = omega arith in
      let within = InUse-within q k (after a b.size) bs u in
      rw roomy
        (InUse-skip q k a _ _ off (InUse-skip q k (after a n) _ bs (omega arith) (rw same u)))
  | inr tight ↦ rw tight (InUse-skip q k a _ bs off u)
]

-- An allocation keeps every block in use, and takes none of them.
pub alloc-keeps :
    (n a q k : ℕ) (bs : List Block)
    → InUse q k a bs
    → InUse q k a (alloc n bs) × (q + 32 ≢ alloc_ptr n a bs)
alloc-keeps n a q k [] u = absurd (unfold InUse in u)
alloc-keeps n a q k (b ∷ bs) u = elim (Bool-cases (fits n b)) [
  | inl fit ↦
      let off : q ≢ a = λ at. ground (arith, InUse-here q a b bs k at u, fits-free n b fit) in
      rw (alloc_here n b bs fit, alloc_ptr_here n b bs a fit)
        (carve-keeps n a q k b bs fit off (InUse-later q a b bs k off u), omega arith)
  | inr unfit ↦
      rw (alloc_later n b bs unfit, alloc_ptr_later n b bs a unfit)
        (elim (ℕ-cases q a) [
          | inl at ↦ (
            InUse-same-head q k a b bs (alloc n bs) at u,
            λ e.
                let ne0 : alloc_ptr n (after a b.size) bs ≢ 0 = omega arith in
                let ge = alloc_ptr-ge n (after a b.size) bs ne0 in omega arith,
          )
          | inr off ↦
              let (kept, ne) =
                alloc-keeps n (after a b.size) q k bs (InUse-later q a b bs k off u) in
              (InUse-skip q k a b (alloc n bs) off kept, ne)
        ])
]

-- Releasing what was just allocated gives the blocks back as they were.
release-carve :
    (n a : ℕ) (b : Block) (bs : List Block)
    → fits n b ≡ true
    → Joined (b ∷ bs)
    → release a a (carve n b bs) ≡ b ∷ bs
unfolding carve Joined
release-carve n a b bs fit j =
    let free : b.free ≡ true = fits-free n b fit in
    let whole : block b.size true ≡ b = ground arith in
    elim (Bool-cases (leb (n + 48) b.size)) [
      | inl roomy ↦
          let le : n + 48 ≤ b.size = leb→le (n + 48) b.size roomy in
          let size : n + 32 + (b.size - n - 32) ≡ b.size = omega arith in
          rw (roomy, release_here a a (block n false) (block (b.size - n - 32) true ∷ bs) refl)
            (unfold join in rw (size, whole))
      | inr tight ↦
          let apart : (true && starts_free bs) ≡ false = rw free at (j.0) in
          rw (
            tight,
            release_here a a (block b.size false) bs refl,
            join_apart (block b.size true) bs apart,
            whole,
          )
    ]

pub release-alloc :
    (n a : ℕ) (bs : List Block)
    → Joined bs
    → alloc_ptr n a bs ≢ 0
    → release (alloc_ptr n a bs - 32) a (alloc n bs) ≡ bs
unfolding Joined
release-alloc n a [] j ne = absurd (ne (unfold alloc_ptr in refl))
release-alloc n a (b ∷ bs) j ne = elim (Bool-cases (fits n b)) [
  | inl fit ↦
      let e : a + 32 - 32 ≡ a = omega arith in
      rw (alloc_here n b bs fit, alloc_ptr_here n b bs a fit, e) (release-carve n a b bs fit j)
  | inr unfit ↦
      let ne' : alloc_ptr n (after a b.size) bs ≢ 0 = rw (alloc_ptr_later n b bs a unfit) at ne in
      let ge = alloc_ptr-ge n (after a b.size) bs ne' in
      rw
        (
          alloc_later n b bs unfit,
          alloc_ptr_later n b bs a unfit,
          release_later (alloc_ptr n (after a b.size) bs - 32) a b (alloc n bs) (omega arith),
          release-alloc n (after a b.size) bs j.1 ne',
        )
        (join_apart b bs (j.0))
]

-- Headers of blocks in use lie at multiples of 16.
pub InUse-Aligned :
    (p n a : ℕ) (bs : List Block) → a % 16 ≡ 0 → Aligned bs → InUse p n a bs → p % 16 ≡ 0
unfolding Aligned
InUse-Aligned p n a [] e h u = absurd (unfold InUse in u)
InUse-Aligned p n a (b ∷ bs) e h u = elim (ℕ-cases p a) [
  | inl at ↦ rw at e
  | inr off ↦ InUse-Aligned p n (after a b.size) bs (omega arith) h.1 (InUse-later p a b bs n off u)
]

-- No block that `n` bytes fit in.
abbrev pub NoFit : ℕ → List Block → Type 0
NoFit n bs = All (λ b. b.free ≡ true → b.size < n) bs

-- An allocation fails exactly when no free block is large enough, and then changes nothing.
pub alloc_fails :
    (n a : ℕ) (bs : List Block)
    → (alloc_ptr n a bs ≡ 0 → NoFit n bs × (alloc n bs ≡ bs)) × (NoFit n bs → alloc_ptr n a bs ≡ 0)
unfolding alloc alloc_ptr fits
alloc_fails n a [] = (λ e. (tt, refl), λ h. refl)
alloc_fails n a (b ∷ bs) = elim (Bool-cases (fits n b)) [
  | inl fit ↦ rw fit (λ e. absurd (omega arith), λ h. ground (arith, h.0))
  | inr unfit ↦ rw unfit (
    λ e.
        let (h, same) = (alloc_fails n (after a b.size) bs).0 e in
        ((ground arith, h), ap (λ (l : List Block). b ∷ l) same),
    λ h. (alloc_fails n (after a b.size) bs).1 h.1,
  )
]
