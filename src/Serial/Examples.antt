-- ===== src/Serial/Examples.antt =====
-- The theorems on the serial port at concrete numbers.
use pizda.Prelude.{ℕ, ◌≡◌, refl, arith, List, [], ◌∷◌, some}
use pizda.Mlibc.{atoi}
use pizda.Serial.{Arg, dec_loop, com1_write_dec, write_signed, write_num, takes_num, com1_printf}
use pizda.Serial.Printf.{Piece, format_of, args_of, AreTexts, com1_printf-AreTexts}
use pizda.Serial.Decimal.{atoi-com1_write_dec}

atoi-com1_write_dec_example : (ds : List ℕ) × (com1_write_dec 131072 ≡ some ds) × (atoi ds ≡ 131072)
atoi-com1_write_dec_example = atoi-com1_write_dec 131072 (omega arith)

-- "a%d" with -1.
printf_minus_one :
    com1_printf (97 ∷ 37 ∷ 100 ∷ []) (Arg.num 0xFFFFFFFF ∷ []) ≡ some (97 ∷ 45 ∷ 49 ∷ [])
unfolding com1_printf takes_num write_num write_signed com1_write_dec dec_loop
printf_minus_one = refl

-- "n=%u%%%x%d%p"
abbrev pieces : List Piece
pieces =
    Piece.char 110
    ∷ Piece.char 61
    ∷ Piece.unsigned 42
    ∷ Piece.percent
    ∷ Piece.hex 0xCAFE
    ∷ Piece.signed 0xFFFFFFFF
    ∷ Piece.pointer 0xB8000
    ∷ []

com1_printf-AreTexts_example :
    (text : List ℕ) × (com1_printf (format_of pieces) (args_of pieces) ≡ some text)
    × AreTexts pieces text
com1_printf-AreTexts_example =
    com1_printf-AreTexts pieces
      (omega arith, (omega arith, (tt, (tt, (tt, (omega arith, (omega arith, tt)))))))
