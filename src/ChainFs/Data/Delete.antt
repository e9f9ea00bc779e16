-- ===== src/ChainFs/Data/Delete.antt =====
-- The blocks of a written file are a chain, which `chainfs_free_block_chain` frees again.
use pizda.Prelude.{
  ℕ, ◌+◌, ◌-◌, ◌≤◌, ◌<◌, ◌≡◌, ◌≢◌, ◌==◌, false, ap, ◌∙◌, refl, sym, arith, two32, some, List, [],
  ◌∷◌, length, All,
}
use mathlib.Core.Path.{subst}
use pizda.ChainFs.{ChainFs, eof_marker, chainfs_free_block_chain}
use pizda.ChainFs.Map.{IsMounted, InMap, next_of}
use pizda.ChainFs.Map.Search.{Ascending}
use pizda.ChainFs.Map.Release.{MapChain, has, Released, chainfs_free_block_chain-Released}
use pizda.ChainFs.Data.{chunk, fill, write_block, write_loop, next_or_eof}
use pizda.ChainFs.Data.Step.{InData, write_block-Stepped}
use pizda.ChainFs.Data.Store.{
  Stored, write_loop-nil, write_loop-cons, All-InData-step, write_loop-Stored,
}

pub Stored-MapChain :
    (xs : List ℕ) (fs : ChainFs) (bytes : ℕ → ℕ) (offset remaining : ℕ)
    → IsMounted fs
    → Stored fs bytes offset remaining xs
    → MapChain (next_of fs) (next_or_eof xs) xs × All (InMap fs) xs
Stored-MapChain [] fs bytes offset remaining v st = (refl, tt)
Stored-MapChain (x ∷ xs) fs bytes offset remaining v (h, content, next, rest) =
    let (chain, all) = Stored-MapChain xs fs bytes _ _ v rest in
    let ne : x ≢ eof_marker = omega (arith, v.addressable) in
    let covered : InMap fs x = omega (arith, v.covered, v.fits) in
    ((refl, ne, subst (λ s. MapChain (next_of fs) s xs) (sym next) chain), (covered, all))

-- On a mounted disk, for ascending blocks of the data area and a size below 2^32: what the loop of
-- `chainfs_write_file` stores is a chain of the map from the first block, and
-- `chainfs_free_block_chain` from there frees the blocks and nothing else, in one round more than
-- there are blocks.
pub chainfs_free_block_chain-write_loop :
    (x : ℕ) (xs : List ℕ) (bytes : ℕ → ℕ) (size fuel : ℕ) (fs : ChainFs)
    → IsMounted fs
    → Ascending 0 (x ∷ xs)
    → All (InData fs) (x ∷ xs)
    → size < two32
    → length (x ∷ xs) < fuel
    → (fs' : ChainFs) × (chainfs_free_block_chain fuel x (write_loop bytes (x ∷ xs) size 0 fs)
        ≡ some fs')
      × Released (write_loop bytes (x ∷ xs) size 0 fs) (x ∷ xs) fs'
chainfs_free_block_chain-write_loop x xs bytes size fuel fs v a h small f =
    let (k, st) = write_loop-Stored (x ∷ xs) bytes 0 size 0 fs v a h (omega arith) in
    let fs1 = write_loop bytes (x ∷ xs) size 0 fs in
    let (chain, all) = Stored-MapChain (x ∷ xs) fs1 bytes 0 size k.mounted st in
    chainfs_free_block_chain-Released (x ∷ xs) fuel x 0 fs1 k.mounted chain a all f

-- The loop of `chainfs_write_file` leaves the entries of the other blocks alone.
pub write_loop-entries :
    (xs : List ℕ) (bytes : ℕ → ℕ) (remaining offset : ℕ) (fs : ChainFs)
    → IsMounted fs
    → All (InData fs) xs
    → offset + remaining < two32
    → (j : ℕ) → InMap fs j
    → has j xs ≡ false
    → next_of (write_loop bytes xs remaining offset fs) j ≡ next_of fs j
write_loop-entries [] bytes remaining offset fs v h fits j m away =
    rw (write_loop-nil bytes remaining offset fs)
write_loop-entries (x ∷ xs) bytes remaining offset fs v (h, hs) fits j m away =
    let n = chunk remaining in
    let content = fill bytes offset n fs.sector_buffer in
    let fs1 = write_block x (next_or_eof xs) content fs in
    let s = write_block-Stepped fs x (next_or_eof xs) content v h in
    let apart : (j == x) ≡ false = ground arith in
    let rest : has j xs ≡ false = ground arith in
    let le_n : n ≤ remaining = ground arith in
    let m1 : InMap fs1 j = rw (s.superblock) m in
    ap (λ (g : ChainFs). next_of g j) (write_loop-cons bytes x xs remaining offset fs (omega arith))
    ∙ write_loop-entries xs bytes (remaining - n) (offset + n) fs1 s.mounted
        (All-InData-step fs fs1 xs s.superblock s.data_area_start hs) (omega arith) j m1 rest
    ∙ s.entries j m
    ∙ rw apart
