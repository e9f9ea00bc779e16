-- ===== src/Programs/Dump.antt =====
-- The lines of the command disk dump can be read back.
use pizda.Prelude.{
  ℕ, zero, suc, ◌+◌, ◌-◌, ◌*◌, ◌/◌, ◌%◌, ◌<◌, ◌≡◌, refl, ap, arith, Bool-cases, inl, inr, ltb,
  if◌then◌else◌, drop, List, [], ◌∷◌, ◌++◌,
}
use pizda.Pata.{Sector}
use pizda.Programs.Outside.{Outside}
use pizda.Programs.Disk.{dump_address, dump_byte, dump_bytes, dump_column, dump_line}

-- A digit as `itoa` writes it.
abbrev pub digit : ℕ → ℕ
digit v = if ltb v 10 then 48 + v else 87 + v

abbrev pub digit_value : ℕ → ℕ
digit_value c = if ltb c 58 then c - 48 else c - 87

-- What is documented of `itoa` in base 16: the digits of a byte, without a zero in front.
abbrev pub IsHex : Outside → Type 0
IsHex o =
    (v : ℕ)
    → v < 256
    → o.itoa v 16 ≡ (if ltb v 16 then digit v ∷ [] else digit (v / 16) ∷ digit (v % 16) ∷ [])

-- The bytes of `count` groups of two digits and a space.
abbrev pub read_hex : ℕ → List ℕ → List ℕ
read_hex zero text = []
read_hex (suc count) (high ∷ low ∷ space ∷ text) =
    (digit_value high * 16 + digit_value low) ∷ read_hex count text
read_hex (suc count) other = []

-- `count` bytes of a sector from `first` on.
abbrev pub bytes_of : ℕ → ℕ → Sector → List ℕ
bytes_of zero first s = []
bytes_of (suc count) first s = s first ∷ bytes_of count (suc first) s

digit_value-digit : (v : ℕ) → v < 16 → digit_value (digit v) ≡ v
digit_value-digit v lt = ground arith

module _ (o : Outside) (hex : IsHex o) where
  dump_byte-digits : (v : ℕ) → v < 256 → dump_byte o v ≡ digit (v / 16) ∷ digit (v % 16) ∷ 32 ∷ []
  unfolding dump_byte
  dump_byte-digits v lt = elim (Bool-cases (ltb v 16)) [
    | inl e ↦
        let high : v / 16 ≡ 0 = ground arith in
        let low : v % 16 ≡ v = ground arith in rw (hex v lt, e, high, low) refl
    | inr e ↦ rw (hex v lt, e) refl
  ]

  read_hex-dump_bytes :
      (count first : ℕ) (s : Sector) (rest : List ℕ)
      → ((j : ℕ) → s j < 256)
      → read_hex count (dump_bytes o count first s ++ rest) ≡ bytes_of count first s
  read_hex-dump_bytes zero first s rest small = refl
  read_hex-dump_bytes (suc count) first s rest small =
      let v = s first in
      let lt : v < 256 = small first in
      let high = digit_value-digit (v / 16) (omega arith) in
      let low = digit_value-digit (v % 16) (omega arith) in
      let whole : v / 16 * 16 + v % 16 ≡ v = omega arith in
      rw (dump_byte-digits v lt, high, low, whole)
        (ap (λ (xs : List ℕ). v ∷ xs) (read_hex-dump_bytes count (suc first) s rest small))

  -- Four characters.
  address : (i : ℕ) → i < 16 → (rest : List ℕ) → drop 6 (dump_address o i ++ rest) ≡ drop 2 rest
  unfolding dump_address
  address i lt rest = elim (Bool-cases (ltb (i * 16) 16)) [
    | inl e ↦ rw (hex (i * 16) (omega arith), e) refl
    | inr e ↦ rw (hex (i * 16) (omega arith), e) refl
  ]

  -- The 16 groups of digits that stand in a line of disk dump behind the address, the colon and a
  -- space give the 16 bytes of the sector that the line is for. `itoa` gives the digits of a byte in
  -- base 16, and what the sector holds are bytes.
  pub read_hex-dump_line :
      (s : Sector) (i : ℕ)
      → ((j : ℕ) → s j < 256)
      → i < 16
      → read_hex 16 (drop 6 (dump_line o s i)) ≡ bytes_of 16 (i * 16) s
  unfolding dump_line
  read_hex-dump_line s i small lt =
      rw (address i lt (58 ∷ 32 ∷ (dump_bytes o 16 (i * 16) s ++ dump_column s i)))
        (read_hex-dump_bytes 16 (i * 16) s (dump_column s i) small)
