-- ===== src/Heap/Release.antt =====
-- The release of a block in use, on the headers of a chain: `kfree` after its checks.
use pizda.Prelude.{
  ℕ, ◌+◌, ◌<◌, ◌≡◌, ◌≢◌, refl, ap, ◌∙◌, true, false, ◌&&◌, inl, inr, List, [], ◌∷◌, arith, ==_ne,
  ℕ-cases, Bool-cases, two64,
}
use pizda.Heap.{Cells, Header, write, coalesce}
use pizda.Heap.Blocks.{Block, block, after, join, release, starts_free, InUse, Joined}
use pizda.Heap.Chain.{Chain, Chain-frame, SameOutside, Chain-head, Chain-tail, Chain-cons, after-le}
use pizda.Heap.Writes.{write_self, write_ne}
use pizda.Heap.Free.{coalesce_first, coalesce_second}

-- `header->is_free = 1; coalesce(header);`
abbrev pub freed : ℕ → Cells → Cells
freed p m = coalesce p (write m p (record (m p) { is_free = 1 }))

-- What joins starts free if its first block does.
pub join_starts :
    (b : Block) (bs : List Block)
    → (d : Block) × (ds : List Block) × (join b bs ≡ d ∷ ds) × (d.free ≡ b.free)
unfolding join
join_starts b [] = (b, [], refl, refl)
join_starts b (c ∷ bs) = elim (Bool-cases (b.free && c.free)) [
  | inl e ↦ (block (b.size + 32 + c.size) true, bs, rw e, ground arith)
  | inr e ↦ (b, c ∷ bs, rw e, refl)
]

pub join_apart :
    (b : Block) (bs : List Block) → (b.free && starts_free bs) ≡ false → join b bs ≡ b ∷ bs
unfolding join
join_apart b [] e = refl
join_apart b (c ∷ bs) e = rw e

module _ (p a : ℕ) (b : Block) (bs : List Block) where
  pub release_here : p ≡ a → release p a (b ∷ bs) ≡ join (block b.size true) bs
  unfolding release
  release_here e = ground arith

  pub release_later : p ≢ a → release p a (b ∷ bs) ≡ join b (release p (after a b.size) bs)
  unfolding release
  release_later e = ground arith

  pub InUse-here : (n : ℕ) → p ≡ a → InUse p n a (b ∷ bs) → (b.free ≡ false) × (b.size ≡ n)
  unfolding InUse
  InUse-here n e u = ground arith

  pub InUse-later : (n : ℕ) → p ≢ a → InUse p n a (b ∷ bs) → InUse p n (after a b.size) bs
  unfolding InUse
  InUse-later n e u = rw (==_ne p a e) at u

-- The flag of the first block.
mark_first :
    (m : Cells) (prev a stop : ℕ) (b : Block) (bs : List Block)
    → Chain m prev a stop (b ∷ bs)
    → Chain (write m a (record (m a) { is_free = 1 })) prev a stop (block b.size true ∷ bs)
mark_first m prev a stop b bs c =
    Chain-cons _ prev a stop (block b.size true) bs
      (write_self m a _
        ∙ ap (λ (h : Header). record h { is_free = 1 }) (Chain-head m prev a stop b bs c))
      (Chain-frame m _ a (after a b.size) stop bs (λ x p q. write_ne m a x _ (omega arith))
        (Chain-tail m prev a stop b bs c))

module _ (p n stop : ℕ) (small : stop + 64 < two64) where
  -- The block behind `l` is released.
  release_second :
      (m : Cells) (pp q : ℕ) (l b : Block) (bs : List Block)
      → 0 < q
      → Chain m pp q stop (l ∷ b ∷ bs)
      → p ≡ after q l.size
      → Chain (freed p m) pp q stop (join l (join (block b.size true) bs))
        × SameOutside q stop m (freed p m)
  release_second m pp q l b bs pos c at =
      let own = Chain-tail m pp q stop l (b ∷ bs) c in
      let le = after-le m (q) (after q l.size) stop b bs own in
      let e = after q l.size in
      let mark : Header = record (m e) { is_free = 1 } in
      let marked : Chain (write m e mark) pp q stop (l ∷ block b.size true ∷ bs) =
        Chain-cons (write m e mark) pp q stop l (block b.size true ∷ bs)
          (write_ne m e q mark (omega arith) ∙ Chain-head m pp q stop l (b ∷ bs) c)
          (mark_first m q e stop b bs own) in
      let (r, same) = coalesce_second (write m e mark) pp q stop b.size l bs pos small marked in
      rw at (r, λ x h. same x h ∙ write_ne m e x mark (ground (arith, le)))

  release_behind :
      (bs : List Block) (m : Cells) (pp q : ℕ) (l : Block)
      → 0 < q
      → Chain m pp q stop (l ∷ bs)
      → Joined (l ∷ bs)
      → InUse p n (after q l.size) bs
      → Chain (freed p m) pp q stop (join l (release p (after q l.size) bs))
        × SameOutside q stop m (freed p m)
  unfolding Joined
  release_behind [] m pp q l pos c j u = absurd (unfold InUse in u)
  release_behind (b ∷ bs) m pp q l pos c (apart, j) u =
      let e = after q l.size in
      elim (ℕ-cases p e) [
        | inl at ↦ rw (release_here p e b bs at) (release_second m pp q l b bs pos c at)
        | inr off ↦
            let (r, same) =
              release_behind bs m q e b (omega arith) (Chain-tail m pp q stop l (b ∷ bs) c) j
                (InUse-later p e b bs n off u) in
            let (d, ds, eq, free) = join_starts b (release p (after e b.size) bs) in
            let apart' : (l.free && d.free) ≡ false = rw free apart in
            rw (release_later p e b bs off, eq, join_apart l (d ∷ ds) apart')
              (
                Chain-cons (freed p m) pp q stop l (d ∷ ds)
                    (same q (omega arith) ∙ Chain-head m pp q stop l (b ∷ bs) c) (rw eq at r),
                λ x h. same x (omega arith),
              )
      ]

  -- The release of a block in use anywhere in a chain that begins with the first header.
  pub freed-release :
      (bs : List Block) (m : Cells) (a : ℕ)
      → 0 < a
      → Chain m 0 a stop bs
      → Joined bs
      → InUse p n a bs
      → Chain (freed p m) 0 a stop (release p a bs) × SameOutside a stop m (freed p m)
  freed-release [] m a pos c j u = absurd (unfold InUse in u)
  freed-release (b ∷ bs) m a pos c j u = elim (ℕ-cases p a) [
    | inl at ↦
        let mark : Header = record (m a) { is_free = 1 } in
        let (r, same) =
          coalesce_first (write m a mark) 0 a stop b.size bs pos small
            (mark_first m 0 a stop b bs c) refl in
        let le = after-le m 0 a stop b bs c in
        rw (release_here p a b bs at, at)
          (r, λ x h. same x h ∙ write_ne m a x mark (ground (arith, le)))
    | inr off ↦
        rw (release_later p a b bs off)
          (release_behind bs m 0 a b pos c j (InUse-later p a b bs n off u))
  ]
