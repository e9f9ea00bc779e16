-- ===== src/Serial/Printf.antt =====
-- `com1_printf` against the pieces that a format is made of.
use pizda.Prelude.{
  ℕ, ◌-◌, ◌%◌, ◌^◌, ◌<◌, ◌≡◌, ◌≢◌, refl, ap, ◌∙◌, arith, false, ==_ne, ltb, Bool-cases, inl, inr,
  Option, some, none, List, [], ◌∷◌, ◌++◌, length, All, two32, two64,
}
use pizda.Serial.{Arg, com1_write_dec, write_signed, write_num, takes_num, send, com1_printf}
use pizda.Serial.Decimal.{IsDigit, dec_value, com1_write_dec_lem}
use pizda.Serial.Hex.{
  IsHexDigit, hex_value, dword-IsHexDigit, qword-IsHexDigit, com1_write_hex_dword_lem,
  com1_write_hex_qword_lem,
}

-- A character of the text, `%%`, `%s` with its string, `%c`, `%d`, `%u`, `%x` and `%p` with their
-- numbers, and a `%` with a letter that converts nothing.
pub data Piece : Type 0 where
  char : ℕ → Piece
  percent : Piece
  string : List ℕ → Piece
  byte : ℕ → Piece
  signed : ℕ → Piece
  unsigned : ℕ → Piece
  hex : ℕ → Piece
  pointer : ℕ → Piece
  unknown : ℕ → Piece

abbrev pub IsPiece : Piece → Type 0
IsPiece (Piece.char c) = c ≢ 37
IsPiece (Piece.signed value) = value % two32 ≢ 2 ^ 31
IsPiece (Piece.pointer value) = value < two64
IsPiece (Piece.unknown spec) =
    (spec ≢ 37)
    × (spec ≢ 115)
    × (spec ≢ 99)
    × (spec ≢ 100)
    × (spec ≢ 117)
    × (spec ≢ 120)
    × (spec ≢ 112)
IsPiece other = Unit

abbrev pub ArePieces : List Piece → Type 0
ArePieces [] = Unit
ArePieces (p ∷ ps) = IsPiece p × ArePieces ps

-- The bytes of a piece in the format.
abbrev pub spelled : Piece → List ℕ
spelled (Piece.char c) = c ∷ []
spelled Piece.percent = 37 ∷ 37 ∷ []
spelled (Piece.string xs) = 37 ∷ 115 ∷ []
spelled (Piece.byte value) = 37 ∷ 99 ∷ []
spelled (Piece.signed value) = 37 ∷ 100 ∷ []
spelled (Piece.unsigned value) = 37 ∷ 117 ∷ []
spelled (Piece.hex value) = 37 ∷ 120 ∷ []
spelled (Piece.pointer value) = 37 ∷ 112 ∷ []
spelled (Piece.unknown spec) = 37 ∷ spec ∷ []

abbrev pub format_of : List Piece → List ℕ
format_of [] = []
format_of (p ∷ ps) = spelled p ++ format_of ps

-- The arguments of a piece, in front of the others.
abbrev pub with_arg : Piece → List Arg → List Arg
with_arg (Piece.char c) args = args
with_arg Piece.percent args = args
with_arg (Piece.string xs) args = Arg.str xs ∷ args
with_arg (Piece.byte value) args = Arg.num value ∷ args
with_arg (Piece.signed value) args = Arg.num value ∷ args
with_arg (Piece.unsigned value) args = Arg.num value ∷ args
with_arg (Piece.hex value) args = Arg.num value ∷ args
with_arg (Piece.pointer value) args = Arg.num value ∷ args
with_arg (Piece.unknown spec) args = args

abbrev pub args_of : List Piece → List Arg
args_of [] = []
args_of (p ∷ ps) = with_arg p (args_of ps)

-- The text is the number in decimal digits, one at least.
abbrev pub IsDecimal : ℕ → List ℕ → Type 0
IsDecimal value text = (0 < length text) × All IsDigit text × (dec_value 0 text ≡ value)

-- The text is the number in `n` hexadecimal digits.
abbrev pub IsHex : ℕ → ℕ → List ℕ → Type 0
IsHex n value text = All IsHexDigit text × (length text ≡ n) × (hex_value 0 text ≡ value)

spells_something :
    (value : ℕ) (ds : List ℕ)
    → com1_write_dec value ≡ some ds
    → dec_value 0 ds ≡ value
    → 0 < length ds
spells_something value (d ∷ ds) run spell = omega arith
spells_something value [] run spell =
    let zero_text : com1_write_dec value ≡ some (48 ∷ []) =
      unfold com1_write_dec in rw (← spell) refl in
    absurd (cc)

com1_write_dec-IsDecimal :
    (value : ℕ)
    → value < two64
    → (ds : List ℕ) × (com1_write_dec value ≡ some ds) × IsDecimal value ds
com1_write_dec-IsDecimal value lt =
    let (ds, run, digits, _, spell) = com1_write_dec_lem value lt in
    (ds, run, (spells_something value ds run spell, digits, spell))

-- The text of a piece. `%d` reads 32 bits in two's complement.
abbrev pub IsText : Piece → List ℕ → Type 0
IsText (Piece.char c) text = text ≡ c ∷ []
IsText Piece.percent text = text ≡ 37 ∷ []
IsText (Piece.string xs) text = text ≡ xs
IsText (Piece.byte value) text = text ≡ (value % 256) ∷ []
IsText (Piece.signed value) text =
    (value % two32 < 2 ^ 31 → IsDecimal (value % two32) text)
    × (2 ^ 31 < value % two32
        → (digits : List ℕ) × (text ≡ 45 ∷ digits) × IsDecimal (two32 - value % two32) digits)
IsText (Piece.unsigned value) text = IsDecimal (value % two32) text
IsText (Piece.hex value) text = IsHex 8 (value % two32) text
IsText (Piece.pointer value) text =
    (digits : List ℕ) × (text ≡ 48 ∷ 120 ∷ digits) × IsHex 16 value digits
IsText (Piece.unknown spec) text = text ≡ []

-- The text is that of the pieces, one after the other.
abbrev pub AreTexts : List Piece → List ℕ → Type 0
AreTexts [] text = text ≡ []
AreTexts (p ∷ ps) text =
    (first rest : List ℕ) × (text ≡ first ++ rest) × IsText p first × AreTexts ps rest

-- A piece in front of a format whose text is known.
abbrev Sends : Piece → List ℕ → List Arg → Type 0
Sends p format args =
    (first : List ℕ) × IsText p first
    × (com1_printf (spelled p ++ format) (with_arg p args)
        ≡ send (some first) (com1_printf format args))

send-nothing : (r : Option (List ℕ)) → r ≡ send (some []) r
send-nothing none = refl
send-nothing (some xs) = refl

char-Sends : (c : ℕ) (format : List ℕ) (args : List Arg) → c ≢ 37 → Sends (Piece.char c) format args
unfolding com1_printf
char-Sends c [] args ne = (c ∷ [], refl, rw (==_ne c 37 ne))
char-Sends c (d ∷ ds) args ne = (c ∷ [], refl, rw (==_ne c 37 ne))

module _ (format : List ℕ) (args : List Arg) where
  unknown-Sends : (spec : ℕ) → IsPiece (Piece.unknown spec) → Sends (Piece.unknown spec) format args
  unfolding com1_printf
  unknown-Sends spec (np, ns, n1, n2, n3, n4, n5) =
      let not_num : takes_num spec ≡ false = unfold takes_num in ground arith in
      (
        [],
        refl,
        rw (==_ne spec 115 ns, ==_ne spec 37 np, not_num) (send-nothing (com1_printf format args)),
      )

  unsigned-Sends : (value : ℕ) → Sends (Piece.unsigned value) format args
  unfolding com1_printf takes_num write_num
  unsigned-Sends value =
      let (ds, run, decimal) = com1_write_dec-IsDecimal (value % two32) (omega arith) in
      (ds, decimal, rw run)

  signed-Sends : (value : ℕ) → IsPiece (Piece.signed value) → Sends (Piece.signed value) format args
  unfolding com1_printf takes_num write_num write_signed
  signed-Sends value ne = elim (Bool-cases (ltb (value % two32) (2 ^ 31))) [
    | inl e ↦
        let (ds, run, decimal) = com1_write_dec-IsDecimal (value % two32) (omega arith) in
        (ds, ((λ lt. decimal), (λ gt. absurd (ground arith))), rw (e, run))
    | inr e ↦
        let val = value % two32 in
        let (ds, run, decimal) = com1_write_dec-IsDecimal (two32 - val) (ground arith) in
        (
          45 ∷ ds,
          ((λ lt. absurd (ground arith)), (λ gt. (ds, refl, decimal))),
          rw (e, ==_ne val (2 ^ 31) ne, run),
        )
  ]

  piece-Sends : (p : Piece) → IsPiece p → Sends p format args
  unfolding com1_printf takes_num write_num
  piece-Sends (Piece.char c) ne = char-Sends c format args ne
  piece-Sends Piece.percent ok = (37 ∷ [], refl, refl)
  piece-Sends (Piece.string xs) ok = (xs, refl, refl)
  piece-Sends (Piece.byte value) ok = ((value % 256) ∷ [], refl, refl)
  piece-Sends (Piece.signed value) ne = signed-Sends value ne
  piece-Sends (Piece.unsigned value) ok = unsigned-Sends value
  piece-Sends (Piece.hex value) ok =
      let v = value % two32 in
      let (size, spell) = com1_write_hex_dword_lem v (omega arith) in
      (_, (dword-IsHexDigit v, size, spell), refl)
  piece-Sends (Piece.pointer value) lt =
      let (size, spell) = com1_write_hex_qword_lem value lt in
      (_, (_, refl, (qword-IsHexDigit value, size, spell)), refl)
  piece-Sends (Piece.unknown spec) other = unknown-Sends spec other

-- `com1_printf` for the format of a list of pieces and their arguments sends a text, which is made of
-- the texts of the pieces: `%s` gives the string, `%c` the low byte, `%d` and `%u` the decimal digits
-- of a number of 32 bits, for `%d` in two's complement with a sign, `%x` and `%p` its 8 and 16
-- hexadecimal digits, the latter behind `0x`, and a letter that is none of these nothing. A character
-- of the text is no `%`, a pointer has 64 bits, and a number for `%d` is not -2^31.
pub com1_printf-AreTexts :
    (ps : List Piece)
    → ArePieces ps
    → (text : List ℕ) × (com1_printf (format_of ps) (args_of ps) ≡ some text) × AreTexts ps text
unfolding com1_printf
com1_printf-AreTexts [] ok = ([], refl, refl)
com1_printf-AreTexts (p ∷ ps) (ok, oks) =
    let (rest, run, texts) = com1_printf-AreTexts ps oks in
    let (first, text, sent) = piece-Sends (format_of ps) (args_of ps) p ok in
    (first ++ rest, sent ∙ ap (send (some first)) run, (first, rest, refl, text, texts))
