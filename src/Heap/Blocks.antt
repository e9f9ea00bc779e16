-- ===== src/Heap/Blocks.antt =====
-- The heap of mlibc/memory.c in the abstract: the blocks in address order, and what an allocation
-- and a release do to them. Addresses are those of the headers.
use pizda.Prelude.{
  ℕ, ◌+◌, ◌-◌, ◌%◌, ◌≡◌, Bool, true, false, ◌&&◌, List, [], ◌∷◌, leb, ◌==◌, if◌then◌else◌,
}

pub record Block : Type 0 where
  pub size : ℕ
  pub free : Bool

abbrev pub block : ℕ → Bool → Block
block n f = record { size = n; free = f }

-- The address behind a block whose header is at `a`.
abbrev pub after : ℕ → ℕ → ℕ
after a n = a + 32 + n

unfoldable pub span : List Block → ℕ
span [] = 0
span (b ∷ bs) = 32 + b.size + span bs

unfoldable pub fits : ℕ → Block → Bool
fits n b = b.free && leb n b.size

-- The block taken, and the rest of it as a free block if that has room for a header and 16 bytes.
unfoldable pub carve : ℕ → Block → List Block → List Block
carve n b bs =
    if leb (n + 48) b.size
    then block n false ∷ block (b.size - n - 32) true ∷ bs
    else block b.size false ∷ bs

-- First fit.
unfoldable pub alloc : ℕ → List Block → List Block
unfolding carve fits
alloc n [] = []
alloc n (b ∷ bs) = let rest = alloc n bs in if fits n b then carve n b bs else b ∷ rest

-- The pointer of a first fit, for blocks that begin at `a`; 0 if nothing fits.
unfoldable pub alloc_ptr : ℕ → ℕ → List Block → ℕ
unfolding fits
alloc_ptr n a [] = 0
alloc_ptr n a (b ∷ bs) =
    let rest = alloc_ptr n (after a b.size) bs in if fits n b then a + 32 else rest

-- Puts a block in front, joined with the next one if both are free.
unfoldable pub join : Block → List Block → List Block
join b [] = b ∷ []
join b (c ∷ bs) = if b.free && c.free then block (b.size + 32 + c.size) true ∷ bs else b ∷ c ∷ bs

-- The release of the block whose header is at `p`, for blocks that begin at `a`.
unfoldable pub release : ℕ → ℕ → List Block → List Block
unfolding join
release p a [] = []
release p a (b ∷ bs) =
    let rest = join b (release p (after a b.size) bs) in
    if p == a then join (block b.size true) bs else rest

-- The free bytes.
unfoldable pub free_bytes : List Block → ℕ
free_bytes [] = 0
free_bytes (b ∷ bs) = (if b.free then b.size else 0) + free_bytes bs

-- No free block is followed by a free block.
abbrev pub starts_free : List Block → Bool
starts_free [] = false
starts_free (b ∷ bs) = b.free

unfoldable pub Joined : List Block → Type 0
Joined [] = Unit
Joined (b ∷ bs) = ((b.free && starts_free bs) ≡ false) × Joined bs

-- Every size is a multiple of 16.
unfoldable pub Aligned : List Block → Type 0
Aligned [] = Unit
Aligned (b ∷ bs) = (b.size % 16 ≡ 0) × Aligned bs

-- The header at `p` is that of a block in use, of `n` bytes.
unfoldable pub InUse : ℕ → ℕ → ℕ → List Block → Type 0
InUse p n a [] = ⊥
InUse p n a (b ∷ bs) =
    if p == a then (b.free ≡ false) × (b.size ≡ n) else InUse p n (after a b.size) bs
