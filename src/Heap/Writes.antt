-- ===== src/Heap/Writes.antt =====
-- What a write of a header changes, and what it leaves.
use pizda.Prelude.{ℕ, ◌<◌, ◌≡◌, ◌≢◌, refl, fun_ext, arith}
use pizda.Heap.{Header, Cells, write, relink}

pub write_self : (m : Cells) (p : ℕ) (h : Header) → write m p h p ≡ h
unfolding write
write_self m p h = ground arith

pub write_ne : (m : Cells) (p x : ℕ) (h : Header) → x ≢ p → write m p h x ≡ m x
unfolding write
write_ne m p x h ne = ground arith

pub relink_self : (m : Cells) (p q : ℕ) → 0 < p → relink m p q p ≡ record (m p) { prev = q }
unfolding relink write
relink_self m p q pos = ground arith

pub relink_ne : (m : Cells) (p q x : ℕ) → x ≢ p → relink m p q x ≡ m x
unfolding relink write
relink_ne m p q x ne = ground arith

pub relink_null : (m : Cells) (q : ℕ) → relink m 0 q ≡ m
unfolding relink
relink_null m q = refl

pub write-write : (m : Cells) (p : ℕ) (h k : Header) → write (write m p h) p k ≡ write m p k
unfolding write
write-write m p h k = fun_ext λ x. ground arith
