-- ===== src/Keyboard/Bounds.antt =====
-- `scanf` returns, and `handle_keyboard` writes on the screen.
use pizda.Prelude.{
  ℕ, ◌+◌, ◌-◌, ◌*◌, ◌≤◌, ◌<◌, ◌≡◌, refl, arith, ==_ne, ltb, Bool-cases, inl, inr, List, [], ◌∷◌,
  ◌++◌, Option, some,
}
use pizda.Screen.{store, scroll_screen, enter_row, update_cursor}
use pizda.Keyboard.{
  Input, Round, after_round, set_byte, type_key, round, scanf_loop, scanf, Keyboard, character,
  put_cell, press, move_cursor, handle_keyboard,
}

-- A round for the enter key returns.
round-enter :
    (row col color : ℕ) (s : Input) → (t : Input) × (round row col color 1 0x1C s ≡ Round.return t)
unfolding round type_key
round-enter row col color s = (_, refl)

after_round-returns :
    (next : Input → Option Input) (r : Round)
    → ((s : Input) → (t : Input) × (next s ≡ some t))
    → (t : Input) × (after_round next r ≡ some t)
after_round-returns next (Round.go_on s) ih = ih s
after_round-returns next (Round.return s) ih = (s, refl)

scanf_loop-returns :
    (max_len row col color : ℕ) (events later : List (ℕ × ℕ)) (s : Input)
    → (t : Input) × (scanf_loop max_len row col color (events ++ (1, 0x1C) ∷ later) s ≡ some t)
unfolding scanf_loop
scanf_loop-returns max_len row col color [] later s =
    let (t, e) = round-enter row col color s in
    elim (Bool-cases (ltb s.i (max_len - 1))) [
      | inl more ↦ (t, rw (more, e))
      | inr full ↦ (set_byte 0 s, rw full)
    ]
scanf_loop-returns max_len row col color ((status, value) ∷ events) later s =
    elim (Bool-cases (ltb s.i (max_len - 1))) [
      | inr full ↦ (set_byte 0 s, rw full)
      | inl more ↦
          let (t, e) =
            after_round-returns (scanf_loop max_len row col color (events ++ (1, 0x1C) ∷ later))
              (round row col color status value s)
              (scanf_loop-returns max_len row col color events later) in
          (t, rw more e)
    ]

-- Once the enter key is pressed `scanf` has returned, whatever came before it.
pub scanf-returns :
    (max_len row col color : ℕ) (events later : List (ℕ × ℕ)) (s : Input)
    → (t : Input) × (scanf max_len row col color (events ++ (1, 0x1C) ∷ later) s ≡ some t)
unfolding scanf
scanf-returns max_len row col color events later s =
    scanf_loop-returns max_len row col color events later (record s { i = 0 })

-- A byte of memory that is not on the screen.
abbrev Kept : Keyboard → Keyboard → Type 0
Kept k k' = (j : ℕ) → 4000 ≤ j → k'.screen.video j ≡ k.screen.video j

put_cell-Kept :
    (c color : ℕ) (k : Keyboard)
    → k.current_row < 25
    → k.current_col < 80
    → Kept k (put_cell c color k)
unfolding put_cell store
put_cell-Kept c color k hr hc j le = rw (
  ==_ne j ((k.current_row * 80 + k.current_col) * 2 + 1) (omega arith),
  ==_ne j ((k.current_row * 80 + k.current_col) * 2) (omega arith),
)

press-Kept :
    (scancode : ℕ) (k : Keyboard)
    → k.current_row < 25
    → k.current_col < 80
    → Kept k (press scancode k)
unfolding press
press-Kept scancode k hr hc j le = ground (
  arith,
  put_cell-Kept 32 0x07 (record k { current_col = k.current_col - 1 }) hr (omega arith) j le,
  put_cell-Kept (character k.shift_pressed scancode) 0x0E k hr hc j le,
)

move_cursor-Kept : (k : Keyboard) → Kept k (move_cursor k)
unfolding move_cursor update_cursor enter_row scroll_screen
move_cursor-Kept k j le = ground arith

-- While the cursor is on the screen, `handle_keyboard` writes no byte of memory behind the screen,
-- whatever the two ports give.
pub handle_keyboard-within :
    (status scancode : ℕ) (k : Keyboard)
    → k.current_row < 25
    → k.current_col < 80
    → (j : ℕ) → 4000 ≤ j
    → (handle_keyboard status scancode k).screen.video j ≡ k.screen.video j
unfolding handle_keyboard
handle_keyboard-within status scancode k hr hc j le =
    ground (arith, move_cursor-Kept (press scancode k) j le, press-Kept scancode k hr hc j le)
