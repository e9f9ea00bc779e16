-- ===== src/ChainFs/Fields.antt =====
-- What the writes of bytes and words in a sector change.
use pizda.Prelude.{ℕ, ◌+◌, ◌%◌, ◌≤◌, ◌<◌, ◌≡◌, ◌≢◌, arith, two32, ◌⊎◌}
use pizda.Pata.{Sector}
use pizda.ChainFs.{get32, put8, put32}

pub put8_self : (s : Sector) (o v : ℕ) → put8 s o v o ≡ v
unfolding put8
put8_self s o v = ground arith

pub put8_ne : (s : Sector) (o v x : ℕ) → x ≢ o → put8 s o v x ≡ s x
unfolding put8
put8_ne s o v x ne = ground arith

pub put32_ne : (s : Sector) (o v x : ℕ) → (x < o) ⊎ (o + 4 ≤ x) → put32 s o v x ≡ s x
unfolding put32 put8
put32_ne s o v x h = ground arith

-- A word is read back, modulo 2^32.
pub get32-put32_self : (s : Sector) (o v : ℕ) → get32 (put32 s o v) o ≡ v % two32
unfolding get32 put32 put8
get32-put32_self s o v = ground arith

pub get32-put32_ne :
    (s : Sector) (o o' v : ℕ) → (o' + 4 ≤ o) ⊎ (o + 4 ≤ o') → get32 (put32 s o v) o' ≡ get32 s o'
unfolding get32
get32-put32_ne s o o' v h = rw (
  put32_ne s o v o' (ground arith),
  put32_ne s o v (o' + 1) (ground arith),
  put32_ne s o v (o' + 2) (ground arith),
  put32_ne s o v (o' + 3) (ground arith),
)
