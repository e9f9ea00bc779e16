-- ===== src/Mlibc/Strings.antt =====
-- What `strcmp` decides.
use pizda.Prelude.{
  ℕ, suc, ◌≡◌, ◌≢◌, refl, List, [], ◌∷◌, true, false, ◌&&◌, not, some, ◌==◌, ◌↔◌, arith, length,
  All, ℕ-cases, ◌⊎◌, inl, inr, ◌∙◌,
}
use pizda.Prelude.Int.{ℤ, sub_ℕ}
use pizda.Mlibc.{Str, chars, strcmp, is_zero}

-- The string `s` holds the bytes `xs` and then a NUL.
abbrev pub Holds : Str → List ℕ → Type 0
Holds s [] = s 0 ≡ 0
Holds s (x ∷ xs) = (s 0 ≡ x) × Holds (λ j. s (suc j)) xs

module _ (f : ℕ) (s t : Str) where
  strcmp_same :
      t 0 ≢ 0 → s 0 ≡ t 0 → strcmp (suc f) s t ≡ strcmp f (λ j. s (suc j)) (λ j. t (suc j))
  unfolding strcmp
  strcmp_same ne e = let more : (not (s 0 == 0) && s 0 == t 0) ≡ true = ground arith in rw more

  strcmp_stop : (t 0 ≡ 0) ⊎ (s 0 ≢ t 0) → strcmp (suc f) s t ≡ some (sub_ℕ (s 0) (t 0))
  unfolding strcmp
  strcmp_stop h = let done : (not (s 0 == 0) && s 0 == t 0) ≡ false = ground arith in rw done

is_zero-sub : (a b : ℕ) → (is_zero (some (sub_ℕ a b)) ≡ true) ↔ (a ≡ b)
is_zero-sub a b = (λ h. ground arith, λ e. rw e (ground arith))

-- `strcmp` against a string of bytes other than NUL ends within its length with a number, and the
-- number is 0 exactly when the first string holds the same bytes.
pub strcmp_iff :
    (ys : List ℕ) (s : Str)
    → All (λ y. y ≢ 0) ys
    → (r : ℤ) × (strcmp (suc (length ys)) s (chars ys) ≡ some r)
      × ((is_zero (some r) ≡ true) ↔ Holds s ys)
strcmp_iff [] s h = (sub_ℕ (s 0) 0, strcmp_stop 0 s (chars []) (inl refl), is_zero-sub (s 0) 0)
strcmp_iff (y ∷ ys) s h = elim (ℕ-cases (s 0) y) [
  | inl e ↦
      let (r, run, ih) = strcmp_iff ys (λ j. s (suc j)) h.1 in
      (
        r,
        strcmp_same (suc (length ys)) s (chars (y ∷ ys)) h.0 e ∙ run,
        ((λ z. (e, ih.0 z)), (λ z. ih.1 z.1)),
      )
  | inr ne ↦ (
    sub_ℕ (s 0) y,
    strcmp_stop (suc (length ys)) s (chars (y ∷ ys)) (inr ne),
    ((λ z. absurd (ne ((is_zero-sub (s 0) y).0 z))), (λ z. absurd (ne z.0))),
  )
]

-- The test of the callers.
pub is_zero-strcmp :
    (ys : List ℕ) (s : Str)
    → All (λ y. y ≢ 0) ys
    → (is_zero (strcmp (suc (length ys)) s (chars ys)) ≡ true) ↔ Holds s ys
is_zero-strcmp ys s h = let (r, run, same) = strcmp_iff ys s h in rw run same
