-- ===== src/Keyboard/Examples.antt =====
-- The theorems on the keyboard at concrete keys.
use pizda.Prelude.{ℕ, ◌≡◌, refl, arith, false, List, [], ◌∷◌, ◌++◌, some}
use pizda.Screen.{Screen}
use pizda.Keyboard.{Input, Keyboard, character, scanf}
use pizda.Keyboard.Line.{plain_key, key_of, edit_line}
use pizda.Keyboard.Edits.{Agrees, scanf-edit_line}
use pizda.Keyboard.Bounds.{scanf-returns}

abbrev empty : Screen
empty = record { video = λ j. 0; terminal_row = 0; ports = [] }

abbrev start : Input
start = record { shift = false; screen = empty; buffer = λ j. 0; i = 0 }

-- Shift down, a, shift up, b, c, rubout.
abbrev keys : List (ℕ × ℕ)
keys = (1, 0x2A) ∷ (1, 0x1E) ∷ (1, 0xAA) ∷ (1, 0x30) ∷ (1, 0x2E) ∷ (1, 0x0E) ∷ []

scanf-edit_line_example :
    Agrees 64
      (λ j. 0)
      (edit_line 63 (keys ++ (1, 0x1C) ∷ []) false [])
      (scanf 64 24 3 15 (keys ++ (1, 0x1C) ∷ []) start)
scanf-edit_line_example = scanf-edit_line 64 24 3 15 (keys ++ (1, 0x1C) ∷ []) start (omega arith)

-- "Ab"
edit_line-keys : edit_line 63 (keys ++ (1, 0x1C) ∷ []) false [] ≡ some (98 ∷ 65 ∷ [])
unfolding edit_line key_of plain_key character
edit_line-keys = refl

scanf-returns_example : (t : Input) × (scanf 64 24 3 15 (keys ++ (1, 0x1C) ∷ []) start ≡ some t)
scanf-returns_example = scanf-returns 64 24 3 15 keys [] start

abbrev resting : Keyboard
resting = record { shift_pressed = false; current_col = 79; current_row = 24; screen = empty }
