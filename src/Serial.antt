-- ===== src/Serial.antt =====
-- The serial port, src/lib/com1.c: the bytes that each function sends, in order. The wait for the
-- line's status before a byte is taken to end.
pub mod Decimal
pub mod Hex
pub mod Printf
mod Examples
use pizda.Prelude.{
  ℕ, zero, suc, ◌+◌, ◌-◌, ◌*◌, ◌/◌, ◌%◌, ◌^◌, Option, none, some, Bool, ◌||◌, ◌==◌, ltb,
  if◌then◌else◌, List, [], ◌∷◌, ◌++◌, two32, two64,
}

abbrev pub com1_data : ℕ
com1_data = 0x3F8

-- The writes `outb(port, value)` of `com1_init`, in order.
unfoldable pub com1_init : List (ℕ × ℕ)
com1_init =
    (com1_data + 1, 0x00)
    ∷ (com1_data + 3, 0x80)
    ∷ (com1_data, 0x01)
    ∷ (com1_data + 1, 0x00)
    ∷ (com1_data + 3, 0x03)
    ∷ (com1_data + 2, 0xC7)
    ∷ (com1_data + 4, 0x0B)
    ∷ []

-- `hex[n]`
unfoldable pub hex_digit : ℕ → ℕ
hex_digit n = if ltb n 10 then 48 + n else 55 + n

unfoldable pub com1_write_hex_byte : ℕ → List ℕ
com1_write_hex_byte value = hex_digit (value / 2 ^ 4 % 16) ∷ hex_digit (value % 16) ∷ []

unfoldable pub com1_write_hex_word : ℕ → List ℕ
com1_write_hex_word value =
    com1_write_hex_byte (value / 2 ^ 8 % 2 ^ 8) ++ com1_write_hex_byte (value % 2 ^ 8)

unfoldable pub com1_write_hex_dword : ℕ → List ℕ
com1_write_hex_dword value =
    com1_write_hex_word (value / 2 ^ 16 % 2 ^ 16) ++ com1_write_hex_word (value % 2 ^ 16)

unfoldable pub com1_write_hex_qword : ℕ → List ℕ
com1_write_hex_qword value =
    com1_write_hex_dword (value / 2 ^ 32 % 2 ^ 32) ++ com1_write_hex_dword (value % 2 ^ 32)

unfoldable pub com1_newline : List ℕ
com1_newline = 13 ∷ 10 ∷ []

-- The loop that fills `buffer`, the last byte stored first; `none` says that the fuel ran out.
unfoldable pub dec_loop : ℕ → ℕ → List ℕ → Option (List ℕ)
dec_loop zero value buffer = none
dec_loop (suc fuel) value buffer =
    let rest = dec_loop fuel (value / 10) ((48 + value % 10) ∷ buffer) in
    if value == 0 then some buffer else rest

-- A 64-bit number has 20 digits at most.
unfoldable pub com1_write_dec : ℕ → Option (List ℕ)
com1_write_dec value = if value == 0 then some (48 ∷ []) else dec_loop 21 value []

-- What a caller passes after the format: a string, or a number of 64 bits.
pub data Arg : Type 0 where
  str : List ℕ → Arg
  num : ℕ → Arg

-- `%d` of the low 32 bits: the sign, and the magnitude as `val = -val` leaves it in 64 bits.
unfoldable pub write_signed : ℕ → Option (List ℕ)
write_signed value =
    let val = value % two32 in
    let negated = if val == 2 ^ 31 then two64 - 2 ^ 31 else two32 - val in
    if ltb val (2 ^ 31)
    then com1_write_dec val
    else elim (com1_write_dec negated) [ none ↦ none | some ds ↦ some (45 ∷ ds) ]

-- One conversion of a number; another letter after the `%` sends nothing.
unfoldable pub write_num : ℕ → ℕ → Option (List ℕ)
write_num spec value =
    if spec == 99
    then some ((value % 256) ∷ [])
    else if spec == 100
    then write_signed value
    else if spec == 117
    then com1_write_dec (value % two32)
    else if spec == 120
    then some (com1_write_hex_dword (value % two32))
    else some (48 ∷ 120 ∷ com1_write_hex_qword value)

-- The letters that take a number: c, d, u, x and p.
unfoldable pub takes_num : ℕ → Bool
takes_num spec = spec == 99 || spec == 100 || spec == 117 || spec == 120 || spec == 112

-- `first` and then what `rest` sends.
abbrev pub send : Option (List ℕ) → Option (List ℕ) → Option (List ℕ)
send none rest = none
send (some xs) none = none
send (some xs) (some ys) = some (xs ++ ys)

-- The bytes of `com1_printf`; `none` where the C has no defined behaviour: an argument that is
-- missing or of the other kind, or a format that ends in a `%`.
unfoldable pub com1_printf : List ℕ → List Arg → Option (List ℕ)
com1_printf [] args = some []
com1_printf (c ∷ []) args = if c == 37 then none else some (c ∷ [])
com1_printf (c ∷ spec ∷ format) args =
    let literal = send (some (c ∷ [])) (com1_printf (spec ∷ format) args) in
    let percent = send (some (37 ∷ [])) (com1_printf format args) in
    let ignored = com1_printf format args in
    let converted : Option (List ℕ) = elim args [
      | [] ↦ none
      | Arg.num value ∷ args' ↦
          if spec == 115 then none else send (write_num spec value) (com1_printf format args')
      | Arg.str xs ∷ args' ↦ if spec == 115 then send (some xs) (com1_printf format args') else none
    ] in
    if c == 37
    then (if spec == 115
        then converted
        else if takes_num spec
        then converted
        else if spec == 37
        then percent
        else ignored)
    else literal
