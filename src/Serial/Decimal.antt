-- ===== src/Serial/Decimal.antt =====
-- Decimal output: it fits the buffer, and `atoi` reads it back.
use pizda.Prelude.{
  ℕ, zero, suc, ◌+◌, ◌-◌, ◌*◌, ◌/◌, ◌%◌, ◌^◌, ◌≤◌, ◌≡◌, ◌≢◌, ◌<◌, refl, sym, ◌∙◌, ap, arith, ==_eq,
  ==_ne, true, ◌&&◌, leb, List, [], ◌∷◌, length, two32, two64, Option, some, ℕ-cases, inl, inr, All,
}
use pizda.Mlibc.{atoi, atoi_loop}
use pizda.Serial.{dec_loop, com1_write_dec}

abbrev pub IsDigit : ℕ → Type 0
IsDigit c = (48 ≤ c) × (c ≤ 57)

-- The number that decimal digits spell behind `n`.
abbrev pub dec_value : ℕ → List ℕ → ℕ
dec_value n [] = n
dec_value n (c ∷ cs) = dec_value (n * 10 + (c - 48)) cs

pow10 : ℕ → ℕ
pow10 zero = 1
pow10 (suc n) = 10 * pow10 n

dec_loop-zero : (fuel : ℕ) (buffer : List ℕ) → dec_loop (suc fuel) 0 buffer ≡ some buffer
unfolding dec_loop
dec_loop-zero fuel buffer = refl

dec_loop-round :
    (fuel value : ℕ) (buffer : List ℕ)
    → value ≢ 0
    → dec_loop (suc fuel) value buffer ≡ dec_loop fuel (value / 10) ((48 + value % 10) ∷ buffer)
unfolding dec_loop
dec_loop-round fuel value buffer ne = rw (==_ne value 0 ne)

-- What the loop leaves: `n` more digits, which with those in the buffer spell the number.
abbrev Written : ℕ → ℕ → List ℕ → Option (List ℕ) → Type 0
Written n value buffer r =
    (ds : List ℕ) × (r ≡ some ds)
    × All IsDigit ds
    × (length ds ≤ length buffer + n)
    × (dec_value 0 ds ≡ dec_value value buffer)

dec_loop-Written :
    (n value : ℕ) (buffer : List ℕ)
    → value < pow10 n
    → All IsDigit buffer
    → Written n value buffer (dec_loop (suc n) value buffer)
unfolding pow10
dec_loop-Written n zero buffer lt all = (buffer, dec_loop-zero n buffer, all, omega arith, refl)
dec_loop-Written zero (suc v) buffer lt all = absurd (omega arith)
dec_loop-Written (suc n) (suc v) buffer lt all =
    let d = 48 + suc v % 10 in
    let (ds, run, digits, size, spell) =
      dec_loop-Written n (suc v / 10) (d ∷ buffer) (omega arith)
        ((omega arith, omega arith), all) in
    let last : suc v / 10 * 10 + (d - 48) ≡ suc v = omega arith in
    (
      ds,
      dec_loop-round (suc n) (suc v) buffer (omega arith) ∙ run,
      digits,
      omega (arith, size),
      spell ∙ ap (λ (k : ℕ). dec_value k buffer) last,
    )

-- For a number of 64 bits `com1_write_dec` ends, sends at most 20 bytes, fewer than its buffer
-- holds, and these are digits that spell the number.
pub com1_write_dec_lem :
    (value : ℕ)
    → value < two64
    → (ds : List ℕ) × (com1_write_dec value ≡ some ds)
      × All IsDigit ds
      × (length ds ≤ 20)
      × (dec_value 0 ds ≡ value)
unfolding com1_write_dec pow10
com1_write_dec_lem value h = elim (ℕ-cases value 0) [
  | inl e ↦ (48 ∷ [], rw (==_eq value 0 e), ((omega arith, omega arith), tt), omega arith, sym e)
  | inr ne ↦
      let (ds, run, digits, size, spell) = dec_loop-Written 20 value [] (omega arith) tt in
      (ds, rw (==_ne value 0 ne) run, digits, omega (arith, size), spell)
]

le-dec_value : (ds : List ℕ) (n : ℕ) → n ≤ dec_value n ds
le-dec_value [] n = omega arith
le-dec_value (c ∷ cs) n = omega (arith, le-dec_value cs (n * 10 + (c - 48)))

atoi_loop-dec_value :
    (ds : List ℕ) (n : ℕ)
    → All IsDigit ds
    → dec_value n ds < two32
    → atoi_loop n ds ≡ dec_value n ds
unfolding atoi_loop
atoi_loop-dec_value [] n all lt = refl
atoi_loop-dec_value (c ∷ cs) n ((lo, hi), all) lt =
    let grows = le-dec_value cs (n * 10 + (c - 48)) in
    let digit : (leb 48 c && leb c 57) ≡ true = ground arith in
    let small : (n * 10 + (c - 48)) % two32 ≡ n * 10 + (c - 48) = omega arith in
    rw (digit, small) (atoi_loop-dec_value cs (n * 10 + (c - 48)) all lt)

atoi-digits : (ds : List ℕ) → All IsDigit ds → dec_value 0 ds < two32 → atoi ds ≡ dec_value 0 ds
unfolding atoi
atoi-digits [] all lt = refl
atoi-digits (c ∷ cs) ((lo, hi), all) lt =
    rw (==_ne c 45 (omega arith)) (atoi_loop-dec_value (c ∷ cs) 0 ((lo, hi), all) lt)

-- `atoi` reads back what `com1_write_dec` sends for a number below 2^31, the non-negative `int`s.
pub atoi-com1_write_dec :
    (value : ℕ)
    → value < 2 ^ 31
    → (ds : List ℕ) × (com1_write_dec value ≡ some ds) × (atoi ds ≡ value)
atoi-com1_write_dec value h =
    let (ds, run, digits, size, spell) = com1_write_dec_lem value (omega arith) in
    (ds, run, atoi-digits ds digits (omega (arith, spell)) ∙ spell)
