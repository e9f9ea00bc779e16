-- ===== src/ChainFs/Data/Load.antt =====
-- The loop of `chainfs_read_file` on what the loop of `chainfs_write_file` stored.
use pizda.Prelude.{
  ℕ, zero, suc, ◌+◌, ◌-◌, ◌*◌, ◌≤◌, ◌<◌, ◌≡◌, ◌≢◌, refl, ap, sym, ◌∙◌, arith, words, two32, inl,
  inr, Option, some, true, false, ◌&&◌, not, ◌==◌, ==_ne, ltb, ltb→lt, not_ltb→le, leb, List, [],
  ◌∷◌, length, add32, add32-exact, Bool-cases,
}
use mathlib.Core.Path.{subst}
use pizda.Pata.{Sector}
use pizda.ChainFs.{
  ChainFs, block_size, eof_marker, read_sector, map_sector, chainfs_read_block_map_entry,
}
use pizda.ChainFs.Map.{IsMounted, next_of, sector, buffered, read_buffered}
use pizda.ChainFs.Data.{chunk, read_chunk, copy_out, read_loop}
use pizda.ChainFs.Data.Step.{InData}
use pizda.ChainFs.Data.Store.{Stored}

abbrev Loaded : Type 0
Loaded = Option (ChainFs × ℕ × (ℕ → ℕ))

read_stop :
    (fuel capacity copied x : ℕ) (out : ℕ → ℕ) (fs : ChainFs)
    → read_loop (suc fuel) capacity 0 copied x out fs ≡ some (fs, copied, out)
unfolding read_loop
read_stop fuel capacity copied x out fs = refl

module _ (fs : ChainFs) (v : IsMounted fs) (x : ℕ) (h : InData fs x)
    (fuel capacity remaining copied : ℕ) (out : ℕ → ℕ) (b : Sector) (pos : 0 < remaining)
    (room : copied + remaining ≤ capacity) (small : capacity < two32) where
  abbrev content : Sector
  content = sector fs (fs.data_area_start + x)

  goes_on : (ltb 0 remaining && not (x == eof_marker) && ltb copied capacity) ≡ true
  goes_on =
      let ne : x ≢ eof_marker = omega (arith, v.addressable) in
      rw (==_ne x eof_marker ne) (ground arith)

  place-exact : add32 fs.data_area_start x ≡ fs.data_area_start + x
  place-exact = omega (words, v.addressable, v.fits)

  loaded-eq : read_sector (add32 fs.data_area_start x) (buffered fs b) ≡ buffered fs content
  unfolding read_sector
  loaded-eq = rw place-exact

  abbrev n : ℕ
  n = chunk remaining

  n-exact : add32 copied n ≡ copied + n
  n-exact = ground (arith, add32-exact copied n)

  chunk-exact : read_chunk remaining copied capacity ≡ n
  chunk-exact = rw n-exact (ground arith)

  map-read :
      chainfs_read_block_map_entry x (buffered fs content)
      ≡ (buffered fs (sector fs (map_sector x fs)), some (next_of fs x))
  map-read = read_buffered fs v x (omega (arith, v.covered)) content

  read_last :
      remaining ≤ block_size
      → read_loop (suc fuel) capacity remaining copied x out (buffered fs b)
        ≡ read_loop fuel capacity
            (remaining - n)
            (copied + n)
            x
            (copy_out content copied n out)
            (buffered fs content)
  unfolding read_loop
  read_last le =
      let done : ltb 0 (remaining - n) ≡ false = ground arith in
      rw (goes_on, chunk-exact, done, loaded-eq, n-exact)

  read_follow :
      block_size < remaining
      → read_loop (suc fuel) capacity remaining copied x out (buffered fs b)
        ≡ read_loop fuel capacity
            (remaining - n)
            (copied + n)
            (next_of fs x)
            (copy_out content copied n out)
            (buffered fs (sector fs (map_sector x fs)))
  unfolding read_loop
  read_follow lt =
      let more : ltb 0 (remaining - n) ≡ true = ground arith in
      rw (goes_on, chunk-exact, more, loaded-eq, n-exact, map-read)

-- The bytes copied so far.
abbrev pub Prefix : (ℕ → ℕ) → ℕ → (ℕ → ℕ) → Type 0
Prefix bytes n out = (j : ℕ) → j < n → out j ≡ bytes j

copy_out-Prefix :
    (bytes : ℕ → ℕ) (s : Sector) (copied n : ℕ) (out : ℕ → ℕ)
    → ((j : ℕ) → j < n → s j ≡ bytes (copied + j))
    → Prefix bytes copied out
    → Prefix bytes (copied + n) (copy_out s copied n out)
copy_out-Prefix bytes s copied n out stored so_far j lt = elim (Bool-cases (leb copied j)) [
  | inl le ↦
      let sum : copied + (j - copied) ≡ j = ground arith in
      let inside : (leb copied j && ltb j (copied + n)) ≡ true = ground arith in
      rw inside (stored (j - copied) (ground arith) ∙ ap bytes sum)
  | inr gt ↦
      let outside : (leb copied j && ltb j (copied + n)) ≡ false = rw gt in
      rw outside (so_far j (ground arith))
]

-- The outcome of the loop: it ends, the buffer holds the bytes, and the state differs in the sector
-- buffer alone.
abbrev pub Reads : ChainFs → (ℕ → ℕ) → ℕ → Loaded → Type 0
Reads fs bytes size r =
    (b : Sector) × (out : ℕ → ℕ) × (r ≡ some (buffered fs b, size, out)) × Prefix bytes size out

pub Reads-size :
    (fs : ChainFs) (bytes : ℕ → ℕ) (k m : ℕ) {r : Loaded}
    → k ≡ m
    → Reads fs bytes k r
    → Reads fs bytes m r
Reads-size fs bytes k m {r} e h = subst (λ i. Reads fs bytes i r) e h

-- The last block, and the round that finds nothing left.
read_last_block :
    (fs : ChainFs) (bytes : ℕ → ℕ) (x fuel capacity remaining copied : ℕ) (out : ℕ → ℕ) (b : Sector)
    → IsMounted fs
    → InData fs x
    → ((j : ℕ) → j < chunk remaining → sector fs (fs.data_area_start + x) j ≡ bytes (copied + j))
    → 0 < remaining
    → remaining ≤ block_size
    → copied + remaining ≤ capacity
    → capacity < two32
    → Prefix bytes copied out
    → Reads fs bytes
        (copied + remaining)
        (read_loop (suc (suc fuel)) capacity remaining copied x out (buffered fs b))
read_last_block fs bytes x fuel capacity remaining copied out b v h st pos le room small pre =
    let s = sector fs (fs.data_area_start + x) in
    let whole : chunk remaining ≡ remaining = ground arith in
    let none_left : remaining - remaining ≡ 0 = omega arith in
    let out' = copy_out s copied remaining out in
    let round = read_last fs v x h (suc fuel) capacity remaining copied out b pos room small le in
    (
      s,
      out',
      (rw (whole, none_left) at round)
          ∙ read_stop fuel capacity (copied + remaining) x out' (buffered fs s),
      copy_out-Prefix bytes s copied remaining out (rw whole at st) pre,
    )

-- The loop reads back what is stored, in a round for each block and one more.
pub read_loop-Stored :
    (xs : List ℕ) (fs : ChainFs) (bytes : ℕ → ℕ) (x fuel capacity remaining copied : ℕ)
    (out : ℕ → ℕ) (b : Sector)
    → IsMounted fs
    → Stored fs bytes copied remaining (x ∷ xs)
    → remaining ≤ block_size * length (x ∷ xs)
    → copied + remaining ≤ capacity
    → capacity < two32
    → length (x ∷ xs) < fuel
    → Prefix bytes copied out
    → Reads fs bytes
        (copied + remaining)
        (read_loop fuel capacity remaining copied x out (buffered fs b))
read_loop-Stored xs fs bytes x zero capacity remaining copied out b v st big room small f pre =
    absurd (omega arith)
read_loop-Stored xs fs bytes x (suc fuel) capacity zero copied out b v st big room small f pre =
    let sum : copied + 0 ≡ copied = omega arith in
    (b, out, read_stop fuel capacity copied x out (buffered fs b) ∙ rw sum, rw sum pre)
read_loop-Stored xs fs bytes x (suc zero) capacity (suc r) copied out b v st big room small f pre =
    absurd (omega arith)
read_loop-Stored [] fs bytes x (suc (suc fuel)) capacity (suc r) copied out b v st big room small f
      pre =
    read_last_block fs bytes x fuel capacity (suc r) copied out b v st.0 st.1 (omega arith) big room
      small pre
read_loop-Stored (y ∷ xs) fs bytes x (suc (suc fuel)) capacity (suc r) copied out b v st big room
      small f pre =
    let n = chunk (suc r) in
    let (h, stored, next, rest) = st in
    let s = sector fs (fs.data_area_start + x) in
    elim (Bool-cases (ltb block_size (suc r))) [
      | inl more ↦
          let lt : block_size < suc r = ltb→lt block_size (suc r) more in
          let round =
            read_follow fs v x h (suc fuel) capacity (suc r) copied out b (omega arith) room small
              lt in
          let whole : n ≡ block_size = rw more in
          let sum : copied + n + (suc r - n) ≡ copied + suc r = omega arith in
          let rest_read =
            read_loop-Stored xs fs bytes y (suc fuel) capacity (suc r - n) (copied + n)
              (copy_out s copied n out) (sector fs (map_sector x fs)) v rest (omega arith)
              (omega arith) small (omega arith) (copy_out-Prefix bytes s copied n out stored pre) in
          let goes =
            round
            ∙ ap
                (λ (k : ℕ).
                  read_loop (suc fuel) capacity (suc r - n) (copied + n) k (copy_out s copied n out)
                    (buffered fs (sector fs (map_sector x fs))))
                next in
          subst (Reads fs bytes (copied + suc r)) (sym goes)
            (Reads-size fs bytes (copied + n + (suc r - n)) (copied + suc r) sum rest_read)
      | inr last ↦
          read_last_block fs bytes x fuel capacity (suc r) copied out b v h stored (omega arith)
            (not_ltb→le block_size (suc r) last) room small pre
    ]
