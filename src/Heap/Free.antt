-- ===== src/Heap/Free.antt =====
-- `coalesce` and the release in `kfree`, on the headers of a chain.
use pizda.Prelude.{
  ℕ, ◌+◌, ◌≤◌, ◌<◌, ◌≡◌, refl, ap, ◌∙◌, Bool, true, false, ◌&&◌, inl, inr, List, [], ◌∷◌, arith,
  words, if◌then◌else◌, Bool-cases, add64, two64,
}
use pizda.Heap.{Cells, Header, write, relink, absorb, mergeable, coalesce}
use pizda.Heap.Blocks.{Block, block, after, join, starts_free}
use pizda.Heap.Chain.{
  Chain, Chain-frame, SameOutside, link, header, Chain-head, Chain-tail, Chain-cons, after-le,
}
use pizda.Heap.Writes.{write_self, write_ne, relink_ne}
use pizda.Heap.Carve.{relink-Chain, relink-same, link_ne}

-- A block takes in the next one.
module _ (m : Cells) (prev a stop : ℕ) (b c : Block) (bs : List Block) (pos : 0 < a)
    (small : stop + 64 < two64) (chain : Chain m prev a stop (b ∷ c ∷ bs)) where
  abbrev second : ℕ
  second = after a b.size

  abbrev third : ℕ
  third = after second c.size

  abbrev both : Block
  both = block (b.size + 32 + c.size) b.free

  tail1 : Chain m a second stop (c ∷ bs)
  tail1 = Chain-tail m prev a stop b (c ∷ bs) chain

  tail2 : Chain m second third stop bs
  tail2 = Chain-tail m a second stop c bs tail1

  third-le : third ≤ stop
  third-le = after-le m a second stop c bs tail1

  size-exact : add64 b.size (add64 32 c.size) ≡ b.size + 32 + c.size
  size-exact = omega (words, third-le)

  abbrev grown : Header
  grown = header both (link third bs) prev

  abbrev absorbed : Cells
  absorbed = relink (write m a grown) (link third bs) a

  absorb-eq : absorb a second m ≡ absorbed
  unfolding absorb
  absorb-eq =
      rw (
        Chain-head m prev a stop b (c ∷ bs) chain,
        Chain-head m a second stop c bs tail1,
        size-exact,
      )

  third-exact : after a (b.size + 32 + c.size) ≡ third
  third-exact = omega arith

  written-tail : Chain (write m a grown) second third stop bs
  written-tail =
      Chain-frame m _ second third stop bs (λ x p q. write_ne m a x _ (omega arith)) tail2

  absorbed-tail : Chain absorbed a (after a (b.size + 32 + c.size)) stop bs
  absorbed-tail =
      rw third-exact
        (relink-Chain (write m a grown) second a third stop bs (omega arith) written-tail)

  absorbed-head : absorbed a ≡ header both (link (after a (b.size + 32 + c.size)) bs) prev
  absorbed-head =
      rw third-exact
        (relink_ne _ _ _ a (link_ne bs third a pos (omega arith)) ∙ write_self m a grown)

  pub absorb-Chain :
      Chain (absorb a second m) prev a stop (both ∷ bs) × SameOutside a stop m (absorb a second m)
  absorb-Chain = rw absorb-eq (
    Chain-cons absorbed prev a stop both bs absorbed-head absorbed-tail,
    λ x h.
        relink-same (write m a grown) second third a stop bs written-tail x
          (ground (arith, third-le))
        ∙ write_ne m a x _ (ground (arith, third-le)),
  )

-- The merge of a block with the next one, if both are free.
abbrev pub fuse : ℕ → ℕ → Bool → Cells → Cells
fuse p q test m = if test then absorb p q m else m

module _ (b c : Block) (bs : List Block) where
  join_merge :
      (b.free && c.free) ≡ true → join b (c ∷ bs) ≡ block (b.size + 32 + c.size) b.free ∷ bs
  unfolding join
  join_merge e = ground arith

  join_keep : (b.free && c.free) ≡ false → join b (c ∷ bs) ≡ b ∷ c ∷ bs
  unfolding join
  join_keep e = rw e

and_false : (x : Bool) → (x && false) ≡ false
and_false true = refl
and_false false = refl

abbrev Fused : Cells → ℕ → ℕ → ℕ → Block → List Block → Cells → Type 0
Fused m prev a stop b bs m' = Chain m' prev a stop (join b bs) × SameOutside a stop m m'

pub fuse-join :
    (m : Cells) (prev a stop : ℕ) (b : Block) (bs : List Block)
    → 0 < a
    → stop + 64 < two64
    → Chain m prev a stop (b ∷ bs)
    → Fused m prev a stop b bs (fuse a (link (after a b.size) bs) (b.free && starts_free bs) m)
fuse-join m prev a stop b [] pos small c = rw (and_false b.free) (unfold join in c, λ x h. refl)
fuse-join m prev a stop b (d ∷ bs) pos small c = elim (Bool-cases (b.free && d.free)) [
  | inl e ↦ rw (e, join_merge b d bs e) (absorb-Chain m prev a stop b d bs pos small c)
  | inr e ↦ rw (e, join_keep b d bs e) (c, λ x h. refl)
]

-- What `coalesce` asks of the next block.
mergeable-link :
    (m : Cells) (prev e stop : ℕ) (bs : List Block)
    → 0 < e
    → Chain m prev e stop bs
    → mergeable m (link e bs) ≡ starts_free bs
unfolding mergeable
mergeable-link m prev e stop [] pos c = refl
mergeable-link m prev e stop (b ∷ bs) pos c = rw (Chain-head m prev e stop b bs c) (ground arith)

-- A free block joined with what follows starts a free block.
join-starts_free :
    (n : ℕ) (bs : List Block)
    → (d : Block) × (ds : List Block) × (join (block n true) bs ≡ d ∷ ds) × (d.free ≡ true)
unfolding join
join-starts_free n [] = (block n true, [], refl, refl)
join-starts_free n (b ∷ bs) = elim (Bool-cases b.free) [
  | inl e ↦ (block (n + 32 + b.size) true, bs, rw e, refl)
  | inr e ↦ (block n true, b ∷ bs, rw e, refl)
]

and_true : (x : Bool) → (x && true) ≡ x
and_true true = refl
and_true false = refl

-- The block that `coalesce` is given is free.
module _ (m : Cells) (prev a stop n : ℕ) (bs : List Block) (pos : 0 < a) (small : stop + 64 < two64)
    (c : Chain m prev a stop (block n true ∷ bs)) where
  abbrev behind : ℕ
  behind = link (after a n) bs

  abbrev merged_next : Cells
  merged_next = fuse a behind (starts_free bs) m

  fused : Fused m prev a stop (block n true) bs merged_next
  fused = fuse-join m prev a stop (block n true) bs pos small c

  next-test : mergeable m behind ≡ starts_free bs
  next-test =
      mergeable-link m a (after a n) stop bs (omega arith)
        (Chain-tail m prev a stop (block n true) bs c)

  -- `coalesce` with the test of the next block made.
  coalesce_step :
      coalesce a m
      ≡ fuse (merged_next a).prev a (mergeable merged_next (merged_next a).prev) merged_next
  unfolding coalesce
  coalesce_step = rw (Chain-head m prev a stop (block n true) bs c, next-test) (ground arith)

  merged_prev : (merged_next a).prev ≡ prev
  merged_prev =
      let (d, ds, e, free) = join-starts_free n bs in
      ap (λ (h : Header). h.prev) (Chain-head merged_next prev a stop d ds (rw e at (fused.0)))

  -- A first block has no block before it.
  pub coalesce_first : prev ≡ 0 → Fused m prev a stop (block n true) bs (coalesce a m)
  unfolding mergeable
  coalesce_first first = rw (coalesce_step, merged_prev, first) (rw first at fused)

module _ (m : Cells) (pp q stop n : ℕ) (l : Block) (bs : List Block) (pos : 0 < q)
    (small : stop + 64 < two64) (c : Chain m pp q stop (l ∷ block n true ∷ bs)) where
  abbrev here : ℕ
  here = after q l.size

  own : Chain m q here stop (block n true ∷ bs)
  own = Chain-tail m pp q stop l (block n true ∷ bs) c

  abbrev merged : Cells
  merged = merged_next m q here stop n bs (omega arith) small own

  merged-own : Fused m q here stop (block n true) bs merged
  merged-own = fused m q here stop n bs (omega arith) small own

  merged-Chain : Chain merged pp q stop (l ∷ join (block n true) bs)
  merged-Chain =
      let (d, ds, e, free) = join-starts_free n bs in
      rw e (
        Chain-cons merged pp q stop l (d ∷ ds)
          (merged-own.1 q (omega arith) ∙ Chain-head m pp q stop l (block n true ∷ bs) c)
          (rw e at (merged-own.0)))

  coalesce-fuse : coalesce here m ≡ fuse q here l.free merged
  coalesce-fuse = rw (
    coalesce_step m q here stop n bs (omega arith) small own,
    merged_prev m q here stop n bs (omega arith) small own,
    mergeable-link merged pp q stop (l ∷ join (block n true) bs) pos merged-Chain,
  )

  -- A block with a block before it.
  pub coalesce_second : Fused m pp q stop l (join (block n true) bs) (coalesce here m)
  coalesce_second =
      let (d, ds, e, free) = join-starts_free n bs in
      let whole : Chain merged pp q stop (l ∷ d ∷ ds) = rw e at merged-Chain in
      let (r, same) = fuse-join merged pp q stop l (d ∷ ds) pos small whole in
      let test : (l.free && d.free) ≡ l.free = rw free (and_true l.free) in
      rw (coalesce-fuse, e)
        (rw test at r, λ x h. (rw test at (same x h)) ∙ merged-own.1 x (omega arith))
