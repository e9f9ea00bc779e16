-- ===== src/Mlibc.antt =====
-- The string functions of src/mlibc/string.c. A string is the function from positions to the bytes
-- that a pointer gives; `chars xs` is the string that holds the bytes `xs` and a NUL.
pub mod Strings
mod Examples
use pizda.Prelude.{
  ℕ, zero, suc, ◌+◌, ◌-◌, ◌*◌, ◌%◌, ◌≡◌, List, [], ◌∷◌, Bool, true, false, ◌&&◌, not, Option, none,
  some, ◌==◌, leb, if◌then◌else◌, get_or, two32, sub32,
}
use pizda.Prelude.Int.{ℤ, sub_ℕ}

abbrev pub Str : Type 0
Str = ℕ → ℕ

-- The string from the position `k` on.
abbrev pub from : ℕ → Str → Str
from k s = λ j. s (k + j)

abbrev pub chars : List ℕ → Str
chars xs = λ j. get_or xs j 0

-- Fuel bounds the positions compared.
unfoldable pub strcmp : ℕ → Str → Str → Option ℤ
strcmp zero s t = none
strcmp (suc fuel) s t =
    let rest = strcmp fuel (λ j. s (suc j)) (λ j. t (suc j)) in
    if not (s 0 == 0) && s 0 == t 0 then rest else some (sub_ℕ (s 0) (t 0))

abbrev pub is_zero : Option ℤ → Bool
is_zero (some (ℤ.pos zero)) = true
is_zero other = false

-- The loop of `atoi` over the bytes before the NUL. `result` is the 32-bit pattern of the `int`.
unfoldable pub atoi_loop : ℕ → List ℕ → ℕ
atoi_loop result [] = result
atoi_loop result (c ∷ cs) =
    let rest = atoi_loop ((result * 10 + (c - 48)) % two32) cs in
    if leb 48 c && leb c 57 then rest else result

unfoldable pub atoi : List ℕ → ℕ
atoi [] = 0
atoi (c ∷ cs) = if c == 45 then sub32 0 (atoi_loop 0 cs) else atoi_loop 0 (c ∷ cs)

-- `strchr`: what is left of the string from the first `c` on.
unfoldable pub strchr : ℕ → List ℕ → Option (List ℕ)
strchr c [] = if c == 0 then some [] else none
strchr c (x ∷ xs) = let rest = strchr c xs in if x == c then some (x ∷ xs) else rest
