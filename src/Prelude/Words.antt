-- ===== src/Prelude/Words.antt =====
-- Unsigned machine words: sums and differences of `unsigned int` and `unsigned long`, with their
-- wrap-around, and the laws that say when they are exact.
use Prim.Native.Nat.{ℕ, ◌+◌, ◌-◌, ◌%◌, ◌^◌, ◌≤◌, ◌<◌}
use mathlib.Core.Path.{◌≡◌}
use native.Mathlib.Omega.{arith}

abbrev pub two32 : ℕ
two32 = 2 ^ 32

abbrev pub two64 : ℕ
two64 = 2 ^ 64

unfoldable pub add32 : ℕ → ℕ → ℕ
add32 a b = (a + b) % two32

unfoldable pub sub32 : ℕ → ℕ → ℕ
sub32 a b = (a + (two32 - b % two32)) % two32

unfoldable pub add64 : ℕ → ℕ → ℕ
add64 a b = (a + b) % two64

unfoldable pub sub64 : ℕ → ℕ → ℕ
sub64 a b = (a + (two64 - b % two64)) % two64

pub add32-exact : (a b : ℕ) → a + b < two32 → add32 a b ≡ a + b
unfolding add32
add32-exact a b h = omega arith

pub sub32-exact : (a b : ℕ) → b ≤ a → a < two32 → sub32 a b ≡ a - b
unfolding sub32
sub32-exact a b h k = omega arith

pub add64-exact : (a b : ℕ) → a + b < two64 → add64 a b ≡ a + b
unfolding add64
add64-exact a b h = omega arith

pub sub64-exact : (a b : ℕ) → b ≤ a → a < two64 → sub64 a b ≡ a - b
unfolding sub64
sub64-exact a b h k = omega arith

pub ruleset words = (arith, add32-exact, sub32-exact, add64-exact, sub64-exact)
