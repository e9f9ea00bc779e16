-- ===== src/Heap/Carve.antt =====
-- `split_block` and the step of `kmalloc` that takes a block, on the headers of a chain.
use pizda.Prelude.{
  ℕ, ◌+◌, ◌-◌, ◌≤◌, ◌<◌, ◌≡◌, ap, true, false, List, [], ◌∷◌, arith, leb, inl, inr, Bool-cases,
  leb→le, ◌∙◌, add64, sub64, add64-exact, two64, words, ◌≢◌,
}
use pizda.Heap.{Header, Cells, write, relink, split_block, take_block}
use pizda.Heap.Blocks.{Block, block, after, carve}
use pizda.Heap.Chain.{Chain, Chain-le, Chain-frame, SameOutside, link, header}
use pizda.Heap.Writes.{write_self, write_ne, relink_self, relink_ne, relink_null, write-write}

-- A new predecessor for the first block.
pub relink-Chain :
    (m : Cells) (prev q a stop : ℕ) (bs : List Block)
    → 0 < a
    → Chain m prev a stop bs
    → Chain (relink m (link a bs) q) q a stop bs
unfolding Chain
relink-Chain m prev q a stop [] pos c = c
relink-Chain m prev q a stop (b ∷ bs) pos (e, c) = (
  relink_self m a q pos ∙ ap (λ (h : Header). record h { prev = q }) e,
  Chain-frame m _ a (after a b.size) stop bs (λ x p r. relink_ne m a q x (omega arith)) c,
)

pub relink-same :
    (m : Cells) (prev a q stop : ℕ) (bs : List Block)
    → Chain m prev a stop bs
    → SameOutside a stop m (relink m (link a bs) q)
unfolding Chain
relink-same m prev a q stop [] c x h = ap (λ (f : Cells). f x) (relink_null m q)
relink-same m prev a q stop (b ∷ bs) (e, c) x h =
    let le = Chain-le m a (after a b.size) stop bs c in relink_ne m a q x (omega arith)

-- The address behind a block, which the code does not compute in one step.
pub link_ne : (bs : List Block) (e x : ℕ) → 0 < x → x < e → x ≢ link e bs
link_ne [] e x p h = omega arith
link_ne (b ∷ bs) e x p h = omega arith

module _ (m : Cells) (prev a stop n : ℕ) (b : Block) (bs : List Block) (pos : 0 < a)
    (small : stop + 64 < two64) (enough : n ≤ b.size) (chain : Chain m prev a stop (b ∷ bs)) where
  end_le : after a b.size ≤ stop
  unfolding Chain
  end_le = Chain-le m a (after a b.size) stop bs (chain.1)

  at_head : m a ≡ header b (link (after a b.size) bs) prev
  unfolding Chain
  at_head = chain.0

  tail-Chain : Chain m a (after a b.size) stop bs
  unfolding Chain
  tail-Chain = chain.1

  module _ (roomy : n + 48 ≤ b.size) where
    abbrev fresh : ℕ
    fresh = a + 32 + n

    abbrev rest : Header
    rest = header (block (b.size - n - 32) true) (link (after a b.size) bs) a

    abbrev linked : Cells
    linked = relink (write m fresh rest) (link (after a b.size) bs) fresh

    fresh-exact : add64 (add64 a 32) n ≡ fresh
    fresh-exact = omega (words, end_le)

    left-exact : sub64 (sub64 b.size n) 32 ≡ b.size - n - 32
    left-exact = omega (words, end_le)

    guard : leb (add64 (add64 n 32) 16) b.size ≡ true
    guard = ground (arith, add64-exact n 32, add64-exact (n + 32) 16, end_le)

    split-eq : split_block a n m ≡ write linked a (record (linked a) { size = n; next = fresh })
    unfolding split_block
    split-eq = rw (at_head, fresh-exact, left-exact, guard)

    linked_ne : (x : ℕ) → 0 < x → x < after a b.size → x ≢ fresh → linked x ≡ m x
    linked_ne x p h ne =
        relink_ne _ _ _ x (link_ne bs (after a b.size) x p h) ∙ write_ne m fresh x rest ne

    linked_head : linked a ≡ header b (link (after a b.size) bs) prev
    linked_head = linked_ne a pos (omega arith) (omega arith) ∙ at_head

    take_split : take_block a n m ≡ write linked a (header (block n false) fresh prev)
    unfolding take_block
    take_split = rw (split-eq, write_self, linked_head) (write-write linked a _ _)

    -- where the carved blocks end
    after-fresh : after fresh (b.size - n - 32) ≡ after a b.size
    after-fresh = omega arith

    abbrev target : Cells
    target = write linked a (header (block n false) fresh prev)

    written-Chain : Chain (write m fresh rest) a (after a b.size) stop bs
    written-Chain =
        Chain-frame m _ a (after a b.size) stop bs (λ x p q. write_ne m fresh x rest (omega arith))
          tail-Chain

    target-Chain : Chain target fresh (after fresh (b.size - n - 32)) stop bs
    target-Chain = rw after-fresh (
        Chain-frame linked _ fresh (after a b.size) stop bs
          (λ x p q. write_ne linked a x _ (omega arith))
          (relink-Chain (write m fresh rest) a fresh (after a b.size) stop bs (omega arith)
            written-Chain))

    target-fresh :
        target fresh
        ≡ header (block (b.size - n - 32) true) (link (after fresh (b.size - n - 32)) bs) a
    target-fresh = rw after-fresh (
        write_ne linked a fresh _ (omega arith)
        ∙ relink_ne _ _ _ fresh (link_ne bs (after a b.size) fresh (omega arith) (omega arith))
        ∙ write_self m fresh rest)

    target-same : SameOutside a stop m target
    target-same x h =
        write_ne linked a x _ (omega (arith, end_le))
        ∙ relink-same (write m fresh rest) a (after a b.size) fresh stop bs written-Chain x
            (ground (arith, end_le))
        ∙ write_ne m fresh x rest (omega (arith, end_le))

    target_carved : Chain target prev a stop (block n false ∷ block (b.size - n - 32) true ∷ bs)
    unfolding Chain
    target_carved = (write_self linked a _, (target-fresh, target-Chain))

    carve_roomy :
        Chain (take_block a n m) prev a stop (block n false ∷ block (b.size - n - 32) true ∷ bs)
        × SameOutside a stop m (take_block a n m)
    carve_roomy = rw take_split (target_carved, target-same)

  module _ (tight : leb (n + 48) b.size ≡ false) where
    guard_tight : leb (add64 (add64 n 32) 16) b.size ≡ false
    guard_tight = ground (arith, add64-exact n 32, add64-exact (n + 32) 16, end_le)

    abbrev target_tight : Cells
    target_tight = write m a (header (block b.size false) (link (after a b.size) bs) prev)

    take_tight : take_block a n m ≡ target_tight
    unfolding take_block split_block
    take_tight = rw (at_head, guard_tight, at_head)

    target_tight_carved : Chain target_tight prev a stop (block b.size false ∷ bs)
    unfolding Chain
    target_tight_carved = (
      write_self m a _,
      Chain-frame m _ a (after a b.size) stop bs (λ x p q. write_ne m a x _ (omega arith))
          tail-Chain,
    )

    carve_tight :
        Chain (take_block a n m) prev a stop (block b.size false ∷ bs)
        × SameOutside a stop m (take_block a n m)
    carve_tight =
        rw take_tight (target_tight_carved, λ x h. write_ne m a x _ (omega (arith, end_le)))

  -- `split_block` and the flag give the carved blocks, and touch no other header.
  pub take_block-carve :
      Chain (take_block a n m) prev a stop (carve n b bs) × SameOutside a stop m (take_block a n m)
  unfolding carve
  take_block-carve = elim (Bool-cases (leb (n + 48) b.size)) [
    | inl roomy ↦ rw roomy (carve_roomy (leb→le (n + 48) b.size roomy))
    | inr tight ↦ rw tight (carve_tight tight)
  ]
