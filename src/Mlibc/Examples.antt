-- ===== src/Mlibc/Examples.antt =====
-- The theorems on the string functions at concrete strings.
use pizda.Prelude.{◌≡◌, ◌↔◌, true, some, [], ◌∷◌, arith}
use pizda.Prelude.Int.{ℤ}
use pizda.Mlibc.{chars, strcmp, is_zero}
use pizda.Mlibc.Strings.{Holds, strcmp_iff}

strcmp_iff_example :
    (r : ℤ) × (strcmp 3 (chars (97 ∷ [])) (chars (97 ∷ 98 ∷ [])) ≡ some r)
    × ((is_zero (some r) ≡ true) ↔ Holds (chars (97 ∷ [])) (97 ∷ 98 ∷ []))
strcmp_iff_example = strcmp_iff (97 ∷ 98 ∷ []) (chars (97 ∷ [])) (omega arith, (omega arith, tt))
