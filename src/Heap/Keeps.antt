-- ===== src/Heap/Keeps.antt =====
-- What a release does to the other blocks.
use pizda.Prelude.{
  ℕ, ◌+◌, ◌≡◌, ◌≢◌, sym, ◌∙◌, arith, true, false, ◌&&◌, inl, inr, List, [], ◌∷◌, ℕ-cases,
  Bool-cases,
}
use pizda.Heap.{Heap, kfree}
use pizda.Heap.Blocks.{Block, block, after, join, release, InUse}
use pizda.Heap.Release.{release_here, release_later, InUse-here, InUse-later}
use pizda.Heap.InUse.{InUse-skip, InUse-same-head}
use pizda.Heap.State.{IsHeap}
use pizda.Heap.Kfree.{kfree-freed, kfree-release}

join_both :
    (b c : Block) (bs : List Block)
    → (b.free && c.free) ≡ true
    → join b (c ∷ bs) ≡ block (b.size + 32 + c.size) true ∷ bs
unfolding join
join_both b c bs e = rw e

join_not_both :
    (b c : Block) (bs : List Block) → (b.free && c.free) ≡ false → join b (c ∷ bs) ≡ b ∷ c ∷ bs
unfolding join
join_not_both b c bs e = rw e

used_off : (q k a : ℕ) (b : Block) (bs : List Block) → b.free ≡ true → InUse q k a (b ∷ bs) → q ≢ a
used_off q k a b bs free u = λ at. ground (arith, InUse-here q a b bs k at u)

join-keeps :
    (q k a : ℕ) (b : Block) (bs : List Block) → InUse q k a (b ∷ bs) → InUse q k a (join b bs)
join-keeps q k a b [] u = unfold join in u
join-keeps q k a b (c ∷ bs) u = elim (Bool-cases (b.free && c.free)) [
  | inr e ↦ rw (join_not_both b c bs e) u
  | inl e ↦
      let bf : b.free ≡ true = ground arith in
      let cf : c.free ≡ true = ground arith in
      let off = used_off q k a b (c ∷ bs) bf u in
      let u1 = InUse-later q a b (c ∷ bs) k off u in
      let off1 = used_off q k (after a b.size) c bs cf u1 in
      let u2 = InUse-later q (after a b.size) c bs k off1 u1 in
      let same : after a (b.size + 32 + c.size) ≡ after (after a b.size) c.size = omega arith in
      rw (join_both b c bs e)
        (InUse-skip q k a (block (b.size + 32 + c.size) true) bs off (rw same u2))
]

pub release-keeps :
    (p q k a : ℕ) (bs : List Block) → q ≢ p → InUse q k a bs → InUse q k a (release p a bs)
release-keeps p q k a [] ne u = absurd (unfold InUse in u)
release-keeps p q k a (b ∷ bs) ne u = elim (ℕ-cases p a) [
  | inl at ↦
      let off : q ≢ a = λ e. ne (e ∙ sym at) in
      rw (release_here p a b bs at) (
        join-keeps q k a (block b.size true) bs
          (InUse-skip q k a (block b.size true) bs off (InUse-later q a b bs k off u)))
  | inr away ↦
      let rest = release p (after a b.size) bs in
      rw (release_later p a b bs away) (
        join-keeps q k a b rest (elim (ℕ-cases q a) [
          | inl here ↦ InUse-same-head q k a b bs rest here u
          | inr off ↦
              InUse-skip q k a b rest off
                (release-keeps p q k (after a b.size) bs ne (InUse-later q a b bs k off u))
        ]))
]

-- On a heap of blocks, `kfree` of a block in use leaves a heap of blocks in which every other block
-- in use still is, at its address and of its size, and changes no byte of the payloads.
pub kfree-keeps :
    {h : Heap} {bs : List Block} (p n q k : ℕ)
    → IsHeap h bs
    → InUse p n h.heap_start bs
    → InUse q k h.heap_start bs
    → q ≢ p
    → IsHeap (kfree (p + 32) h) (release p h.heap_start bs)
      × InUse q k (kfree (p + 32) h).heap_start (release p h.heap_start bs)
      × ((x : ℕ) → (kfree (p + 32) h).bytes x ≡ h.bytes x)
kfree-keeps {h} {bs} p n q k v u w ne = (
  kfree-release p n v u,
  rw (kfree-freed p n v u) (release-keeps p q k h.heap_start bs ne w),
  λ x. rw (kfree-freed p n v u),
)
