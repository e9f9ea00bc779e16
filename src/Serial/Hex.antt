-- ===== src/Serial/Hex.antt =====
-- Hexadecimal output is read back.
use pizda.Prelude.{
  append_nil, ℕ, ◌+◌, ◌-◌, ◌*◌, ◌/◌, ◌%◌, ◌^◌, ◌≡◌, ◌<◌, ◌≤◌, ◌⊎◌, All, refl, sym, ◌∙◌, ap, arith,
  ltb, if◌then◌else◌, List, [], ◌∷◌, ◌++◌, length, two32, two64,
}
use mathlib.Core.List.{append_assoc}
use pizda.Serial.{
  hex_digit, com1_write_hex_byte, com1_write_hex_word, com1_write_hex_dword, com1_write_hex_qword,
}

-- The value of a hexadecimal digit, `0` to `9` or `A` to `F`.
abbrev pub digit_value : ℕ → ℕ
digit_value c = if ltb c 58 then c - 48 else c - 55

-- The number that hexadecimal digits spell behind `n`.
abbrev pub hex_value : ℕ → List ℕ → ℕ
hex_value n [] = n
hex_value n (c ∷ cs) = hex_value (n * 16 + digit_value c) cs

digit_value-hex_digit : (n : ℕ) → n < 16 → digit_value (hex_digit n) ≡ n
unfolding hex_digit
digit_value-hex_digit n h = ground arith

hex_value-byte :
    (n v : ℕ) (rest : List ℕ)
    → hex_value n (com1_write_hex_byte v ++ rest) ≡ hex_value (n * 2 ^ 8 + v % 2 ^ 8) rest
unfolding com1_write_hex_byte
hex_value-byte n v rest =
    let high = digit_value-hex_digit (v / 2 ^ 4 % 16) (omega arith) in
    let low = digit_value-hex_digit (v % 16) (omega arith) in
    let sum : (n * 16 + v / 2 ^ 4 % 16) * 16 + v % 16 ≡ n * 2 ^ 8 + v % 2 ^ 8 = omega arith in
    rw (high, low, sum)

hex_value-word :
    (n v : ℕ) (rest : List ℕ)
    → hex_value n (com1_write_hex_word v ++ rest) ≡ hex_value (n * 2 ^ 16 + v % 2 ^ 16) rest
unfolding com1_write_hex_word
hex_value-word n v rest =
    let sum : (n * 2 ^ 8 + v / 2 ^ 8 % 2 ^ 8 % 2 ^ 8) * 2 ^ 8 + v % 2 ^ 8 % 2 ^ 8
        ≡ n * 2 ^ 16 + v % 2 ^ 16 =
      omega arith in
    ap (hex_value n) (
      append_assoc (com1_write_hex_byte (v / 2 ^ 8 % 2 ^ 8)) (com1_write_hex_byte (v % 2 ^ 8)) rest)
    ∙ hex_value-byte n (v / 2 ^ 8 % 2 ^ 8) (com1_write_hex_byte (v % 2 ^ 8) ++ rest)
    ∙ hex_value-byte (n * 2 ^ 8 + v / 2 ^ 8 % 2 ^ 8 % 2 ^ 8) (v % 2 ^ 8) rest
    ∙ ap (λ (k : ℕ). hex_value k rest) sum

hex_value-dword :
    (n v : ℕ) (rest : List ℕ)
    → hex_value n (com1_write_hex_dword v ++ rest) ≡ hex_value (n * 2 ^ 32 + v % 2 ^ 32) rest
unfolding com1_write_hex_dword
hex_value-dword n v rest =
    let sum : (n * 2 ^ 16 + v / 2 ^ 16 % 2 ^ 16 % 2 ^ 16) * 2 ^ 16 + v % 2 ^ 16 % 2 ^ 16
        ≡ n * 2 ^ 32 + v % 2 ^ 32 =
      omega arith in
    ap (hex_value n) (
      append_assoc (com1_write_hex_word (v / 2 ^ 16 % 2 ^ 16)) (com1_write_hex_word (v % 2 ^ 16))
        rest)
    ∙ hex_value-word n (v / 2 ^ 16 % 2 ^ 16) (com1_write_hex_word (v % 2 ^ 16) ++ rest)
    ∙ hex_value-word (n * 2 ^ 16 + v / 2 ^ 16 % 2 ^ 16 % 2 ^ 16) (v % 2 ^ 16) rest
    ∙ ap (λ (k : ℕ). hex_value k rest) sum

hex_value-qword :
    (v : ℕ) (rest : List ℕ)
    → hex_value 0 (com1_write_hex_qword v ++ rest) ≡ hex_value (v % 2 ^ 64) rest
unfolding com1_write_hex_qword
hex_value-qword v rest =
    let sum : (0 * 2 ^ 32 + v / 2 ^ 32 % 2 ^ 32 % 2 ^ 32) * 2 ^ 32 + v % 2 ^ 32 % 2 ^ 32
        ≡ v % 2 ^ 64 =
      omega arith in
    ap (hex_value 0) (
      append_assoc (com1_write_hex_dword (v / 2 ^ 32 % 2 ^ 32)) (com1_write_hex_dword (v % 2 ^ 32))
        rest)
    ∙ hex_value-dword 0 (v / 2 ^ 32 % 2 ^ 32) (com1_write_hex_dword (v % 2 ^ 32) ++ rest)
    ∙ hex_value-dword (0 * 2 ^ 32 + v / 2 ^ 32 % 2 ^ 32 % 2 ^ 32) (v % 2 ^ 32) rest
    ∙ ap (λ (k : ℕ). hex_value k rest) sum

-- A digit `0` to `9` or `A` to `F`.
abbrev pub IsHexDigit : ℕ → Type 0
IsHexDigit c = ((48 ≤ c) × (c ≤ 57)) ⊎ ((65 ≤ c) × (c ≤ 70))

spelled : (n : ℕ) → IsHexDigit (hex_digit (n % 16))
unfolding hex_digit
spelled n = ground arith

byte-IsHexDigit : (v : ℕ) → All IsHexDigit (com1_write_hex_byte v)
unfolding com1_write_hex_byte
byte-IsHexDigit v = (spelled (v / 2 ^ 4), (spelled v, tt))

All-append : (xs ys : List ℕ) → All IsHexDigit xs → All IsHexDigit ys → All IsHexDigit (xs ++ ys)
All-append [] ys h k = k
All-append (x ∷ xs) ys (h, hs) k = (h, All-append xs ys hs k)

word-IsHexDigit : (v : ℕ) → All IsHexDigit (com1_write_hex_word v)
unfolding com1_write_hex_word
word-IsHexDigit v = All-append _ _ (byte-IsHexDigit _) (byte-IsHexDigit _)

pub dword-IsHexDigit : (v : ℕ) → All IsHexDigit (com1_write_hex_dword v)
unfolding com1_write_hex_dword
dword-IsHexDigit v = All-append _ _ (word-IsHexDigit _) (word-IsHexDigit _)

pub qword-IsHexDigit : (v : ℕ) → All IsHexDigit (com1_write_hex_qword v)
unfolding com1_write_hex_qword
qword-IsHexDigit v = All-append _ _ (dword-IsHexDigit _) (dword-IsHexDigit _)

length-dword : (v : ℕ) → length (com1_write_hex_dword v) ≡ 8
unfolding com1_write_hex_dword com1_write_hex_word com1_write_hex_byte
length-dword v = refl

-- A number of 32 bits is sent as 8 hexadecimal digits that spell it.
pub com1_write_hex_dword_lem :
    (v : ℕ)
    → v < two32
    → (length (com1_write_hex_dword v) ≡ 8) × (hex_value 0 (com1_write_hex_dword v) ≡ v)
com1_write_hex_dword_lem v h =
    let small : 0 * 2 ^ 32 + v % 2 ^ 32 ≡ v = omega arith in
    (
      length-dword v,
      ap (hex_value 0) (sym (append_nil (com1_write_hex_dword v))) ∙ hex_value-dword 0 v [] ∙ small,
    )

length-qword : (v : ℕ) → length (com1_write_hex_qword v) ≡ 16
unfolding com1_write_hex_qword com1_write_hex_dword com1_write_hex_word com1_write_hex_byte
length-qword v = refl

-- A number of 64 bits is sent as 16 hexadecimal digits that spell it.
pub com1_write_hex_qword_lem :
    (v : ℕ)
    → v < two64
    → (length (com1_write_hex_qword v) ≡ 16) × (hex_value 0 (com1_write_hex_qword v) ≡ v)
com1_write_hex_qword_lem v h =
    let small : v % 2 ^ 64 ≡ v = omega arith in
    (
      length-qword v,
      ap (hex_value 0) (sym (append_nil (com1_write_hex_qword v))) ∙ hex_value-qword v [] ∙ small,
    )
