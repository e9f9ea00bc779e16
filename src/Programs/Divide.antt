-- ===== src/Programs/Divide.antt =====
-- The division of the calculator as that of integers.
use pizda.Prelude.{
  ℕ, suc, ◌+◌, ◌-◌, ◌/◌, ◌%◌, ◌^◌, ◌≤◌, ◌<◌, ◌≡◌, ◌≢◌, refl, ap, arith, some, Bool-cases, inl, inr,
  ◌⊎◌, ℕ-cases, ltb, lt→ltb, not_ltb→le, tests, leb, true, false, ==_ne, if◌then◌else◌, two32,
  sub32,
}
use native.Mathlib.Nat.{div-le_self, div-lt_self}
use pizda.Prelude.Int.{ℤ, sub_ℕ}
use pizda.Programs.Calc.{magnitude, divide, Answer, number_of, calculate}

-- The `int` of a pattern of 32 bits.
abbrev pub to_int : ℕ → ℤ
to_int x = if ltb x (2 ^ 31) then ℤ.pos x else ℤ.negsuc (two32 - 1 - x)

-- n and -n
abbrev pub negated : ℕ → ℤ
negated n = sub_ℕ 0 n

-- The quotient of integers, rounded towards zero.
abbrev pub quotient : ℤ → ℤ → ℤ
quotient (ℤ.pos a) (ℤ.pos b) = ℤ.pos (a / b)
quotient (ℤ.pos a) (ℤ.negsuc b) = negated (a / suc b)
quotient (ℤ.negsuc a) (ℤ.pos b) = negated (suc a / b)
quotient (ℤ.negsuc a) (ℤ.negsuc b) = ℤ.pos (suc a / suc b)

to_int-small : (x : ℕ) → x < 2 ^ 31 → to_int x ≡ ℤ.pos x
to_int-small x lt = rw (lt→ltb x (2 ^ 31) lt) refl

to_int-negated : (q : ℕ) → q ≤ 2 ^ 31 → to_int (sub32 0 q) ≡ negated q
unfolding sub32
to_int-negated q le = elim (ℕ-cases q 0) [
  | inl e ↦ rw e refl
  | inr ne ↦
      let value : (0 + (two32 - q % two32)) % two32 ≡ two32 - q = omega arith in
      let big : ltb (two32 - q) (2 ^ 31) ≡ false = ground arith in
      let pos : leb q 0 ≡ false = ground arith in
      let same : two32 - 1 - (two32 - q) ≡ q - 0 - 1 = omega arith in
      rw (value, big, pos) (ap (λ (n : ℕ). ℤ.negsuc n) same)
]

-- The quotient that `divide` finds, and that it is the one of integers.
abbrev Divides : ℕ → ℕ → Type 0
Divides first second =
    (q : ℕ) × (divide first second ≡ some q) × (to_int q ≡ quotient (to_int first) (to_int second))

-- The absolute value of a negative `int`.
abbrev below_zero : ℕ → ℕ
below_zero x = suc (two32 - 1 - x)

magnitude-negative : (x : ℕ) → 2 ^ 31 ≤ x → x < two32 → magnitude x ≡ below_zero x
unfolding magnitude sub32
magnitude-negative x le lt = let big : ltb x (2 ^ 31) ≡ false = ground arith in rw big (omega arith)

magnitude-positive : (x : ℕ) → ltb x (2 ^ 31) ≡ true → magnitude x ≡ x
unfolding magnitude
magnitude-positive x e = rw e refl

module _ (first second : ℕ) (la : first < two32) (lb : second < two32) where
  both_positive : ltb first (2 ^ 31) ≡ true → ltb second (2 ^ 31) ≡ true → Divides first second
  unfolding divide
  both_positive a b =
      let le = div-le_self first second in
      rw (magnitude-positive first a, magnitude-positive second b, a, b)
        (first / second, refl, to_int-small (first / second) (omega (tests, le, a)))

  second_negative : ltb first (2 ^ 31) ≡ true → ltb second (2 ^ 31) ≡ false → Divides first second
  unfolding divide
  second_negative a b =
      let le = div-le_self first (below_zero second) in
      let neg = not_ltb→le second (2 ^ 31) b in
      rw (magnitude-positive first a, magnitude-negative second neg lb, a, b)
        (
          sub32 0 (first / below_zero second),
          refl,
          to_int-negated (first / below_zero second) (omega (tests, le, a)),
        )

  first_negative : ltb first (2 ^ 31) ≡ false → ltb second (2 ^ 31) ≡ true → Divides first second
  unfolding divide
  first_negative a b =
      let le = div-le_self (below_zero first) second in
      let neg = not_ltb→le first (2 ^ 31) a in
      rw (magnitude-negative first neg la, magnitude-positive second b, a, b)
        (
          sub32 0 (below_zero first / second),
          refl,
          to_int-negated (below_zero first / second) (omega (arith, le, neg)),
        )

  both_negative :
      (first ≢ 2 ^ 31) ⊎ (second ≢ two32 - 1)
      → ltb first (2 ^ 31) ≡ false
      → ltb second (2 ^ 31) ≡ false
      → Divides first second
  unfolding divide
  both_negative safe a b =
      let le = div-le_self (below_zero first) (below_zero second) in
      let neg = not_ltb→le first (2 ^ 31) a in
      let neg' = not_ltb→le second (2 ^ 31) b in
      let small : below_zero first / below_zero second < 2 ^ 31 = elim safe [
        | inl ne ↦ omega (arith, le, neg, ne)
        | inr ne ↦
            let lt =
              div-lt_self {n = below_zero first} {k = below_zero second} (omega arith)
                (omega (arith, ne, lb)) in
            omega (arith, lt, neg)
      ] in
      let fits = ==_ne (below_zero first / below_zero second) (2 ^ 31) (omega (arith, small)) in
      rw (magnitude-negative first neg la, magnitude-negative second neg' lb, a, b, fits)
        (
          below_zero first / below_zero second,
          refl,
          to_int-small (below_zero first / below_zero second) small,
        )

  divides : (first ≢ 2 ^ 31) ⊎ (second ≢ two32 - 1) → Divides first second
  divides safe = elim (Bool-cases (ltb first (2 ^ 31))) [
    | inl a ↦ elim (Bool-cases (ltb second (2 ^ 31))) [
      | inl b ↦ both_positive a b
      | inr b ↦ second_negative a b
    ]
    | inr a ↦ elim (Bool-cases (ltb second (2 ^ 31))) [
      | inl b ↦ first_negative a b
      | inr b ↦ both_negative safe a b
    ]
  ]

-- For `/` and a second number other than 0 the calculator gives the quotient of the two integers,
-- rounded towards zero. The numbers are patterns of 32 bits, and not -2^31 and -1.
pub quotient-calculate :
    (first second : ℕ)
    → first < two32
    → second < two32
    → second ≢ 0
    → (first ≢ 2 ^ 31) ⊎ (second ≢ two32 - 1)
    → (q : ℕ) × (calculate 47 first second ≡ some (Answer.number q))
      × (to_int q ≡ quotient (to_int first) (to_int second))
unfolding calculate
quotient-calculate first second la lb ne safe =
    let (q, e, whole) = divides first second la lb safe in
    (q, rw (==_ne second 0 ne) (ap number_of e), whole)
