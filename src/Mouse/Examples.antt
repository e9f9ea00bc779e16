-- ===== src/Mouse/Examples.antt =====
-- The theorems on the mouse at a concrete state.
use pizda.Prelude.{ℕ, refl, arith}
use pizda.Prelude.Int.{ℤ}
use pizda.Mouse.{Mouse, cell, flip, mouse_handler}
use pizda.Mouse.Cursor.{IsOnScreen, Shows, mouse_handler-IsOnScreen, mouse_handler-Shows}

abbrev grey : ℕ → ℕ
grey j = 7

-- The start position; the last byte of a packet is to come.
abbrev centre : Mouse
centre = record {
  x = ℤ.pos 40;
  y = ℤ.pos 12;
  buttons = 0;
  cycle = 2;
  bytes = λ i. 16;
  video = flip (cell (ℤ.pos 40) (ℤ.pos 12)) grey;
}

centre-IsOnScreen : IsOnScreen centre
centre-IsOnScreen = record {
  column = (40, refl, omega arith);
  line = (12, refl, omega arith);
  waiting = omega arith;
}

centre-Shows : Shows grey centre
unfolding Shows
centre-Shows j = refl

mouse_handler-IsOnScreen_example : IsOnScreen (mouse_handler 33 200 centre)
mouse_handler-IsOnScreen_example = mouse_handler-IsOnScreen 33 200 centre centre-IsOnScreen

mouse_handler-Shows_example : Shows grey (mouse_handler 33 200 centre)
mouse_handler-Shows_example =
    mouse_handler-Shows 33 200 grey centre centre-IsOnScreen (λ j. omega arith) centre-Shows
