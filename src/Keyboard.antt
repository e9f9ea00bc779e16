-- ===== src/Keyboard.antt =====
-- The keyboard, src/kernel/drivers/keyboard.c: `handle_keyboard` and the line editor `scanf`. What
-- the ports 0x64 and 0x60 give comes as arguments.
pub mod Line
pub mod Edits
pub mod Bounds
mod Examples
use pizda.Prelude.{
  ℕ, zero, suc, ◌+◌, ◌-◌, ◌*◌, ◌/◌, ◌%◌, Option, none, some, Bool, true, false, ◌&&◌, ◌||◌, not,
  ◌==◌, ltb, if◌then◌else◌, get_or, List, [], ◌∷◌,
}
use pizda.Screen.{Screen, store, print, update_cursor}

-- The tables end in zeros up to the length 128.
abbrev pub kbd_us : List ℕ
kbd_us =
    0 ∷ 27 ∷ 49 ∷ 50 ∷ 51 ∷ 52 ∷ 53 ∷ 54 ∷ 55 ∷ 56 ∷ 57 ∷ 48 ∷ 45 ∷ 61 ∷ 8 ∷ 9 ∷ 113 ∷ 119 ∷ 101
    ∷ 114 ∷ 116 ∷ 121 ∷ 117 ∷ 105 ∷ 111 ∷ 112 ∷ 91 ∷ 93 ∷ 10 ∷ 0 ∷ 97 ∷ 115 ∷ 100 ∷ 102 ∷ 103 ∷ 104
    ∷ 106 ∷ 107 ∷ 108 ∷ 59 ∷ 39 ∷ 96 ∷ 0 ∷ 92 ∷ 122 ∷ 120 ∷ 99 ∷ 118 ∷ 98 ∷ 110 ∷ 109 ∷ 44 ∷ 46 ∷ 47
    ∷ 0 ∷ 42 ∷ 0 ∷ 32 ∷ 0 ∷ 0 ∷ 0 ∷ 0 ∷ 0 ∷ 0 ∷ 0 ∷ 0 ∷ 0 ∷ 0 ∷ 0 ∷ 0 ∷ 0 ∷ 55 ∷ 56 ∷ 57 ∷ 45 ∷ 52
    ∷ 53 ∷ 54 ∷ 43 ∷ 49 ∷ 50 ∷ 51 ∷ 48 ∷ 46 ∷ []

abbrev pub kbd_us_shift : List ℕ
kbd_us_shift =
    0 ∷ 27 ∷ 33 ∷ 64 ∷ 35 ∷ 36 ∷ 37 ∷ 94 ∷ 38 ∷ 42 ∷ 40 ∷ 41 ∷ 95 ∷ 43 ∷ 8 ∷ 9 ∷ 81 ∷ 87 ∷ 69 ∷ 82
    ∷ 84 ∷ 89 ∷ 85 ∷ 73 ∷ 79 ∷ 80 ∷ 123 ∷ 125 ∷ 10 ∷ 0 ∷ 65 ∷ 83 ∷ 68 ∷ 70 ∷ 71 ∷ 72 ∷ 74 ∷ 75 ∷ 76
    ∷ 58 ∷ 34 ∷ 126 ∷ 0 ∷ 124 ∷ 90 ∷ 88 ∷ 67 ∷ 86 ∷ 66 ∷ 78 ∷ 77 ∷ 60 ∷ 62 ∷ 63 ∷ 0 ∷ 42 ∷ 0 ∷ 32
    ∷ 0 ∷ 0 ∷ 0 ∷ 0 ∷ 0 ∷ 0 ∷ 0 ∷ 0 ∷ 0 ∷ 0 ∷ 0 ∷ 0 ∷ 0 ∷ 55 ∷ 56 ∷ 57 ∷ 45 ∷ 52 ∷ 53 ∷ 54 ∷ 43 ∷ 49
    ∷ 50 ∷ 51 ∷ 48 ∷ 46 ∷ []

unfoldable pub character : Bool → ℕ → ℕ
character shift scancode = get_or (if shift then kbd_us_shift else kbd_us) scancode 0

abbrev pub presses_shift : ℕ → Bool
presses_shift scancode = scancode == 0x2A || scancode == 0x36

abbrev pub releases_shift : ℕ → Bool
releases_shift scancode = scancode == 0xAA || scancode == 0xB6

-- `shift_pressed`, the two static variables of `handle_keyboard`, and the screen.
pub record Keyboard : Type 0 where
  pub shift_pressed : Bool
  pub current_col : ℕ
  pub current_row : ℕ
  pub screen : Screen

-- A character and its color at the cursor.
unfoldable pub put_cell : ℕ → ℕ → Keyboard → Keyboard
put_cell c color k =
    let offset = (k.current_row * 80 + k.current_col) * 2 in
    record k {
      screen = record (k.screen) {
        video = store (offset + 1) color (store offset c k.screen.video);
      };
    }

-- The part between the reading of the character and the call of `update_cursor`.
unfoldable pub press : ℕ → Keyboard → Keyboard
press scancode k =
    let c = character k.shift_pressed scancode in
    if scancode == 0x48
    then record k { current_row = k.current_row - 1; current_col = 2 }
    else if scancode == 0x50
    then record k {
      current_row = if ltb k.current_row 24 then k.current_row + 1 else k.current_row;
      current_col = 2;
    }
    else if scancode == 0x4B
    then record k { current_col = if ltb 2 k.current_col then k.current_col - 1 else k.current_col }
    else if scancode == 0x4D
    then record k {
      current_col = if ltb k.current_col 79 then k.current_col + 1 else k.current_col;
    }
    else if c == 10
    then record k { current_row = k.current_row + 1; current_col = 2 }
    else if scancode == 0x0E
    then put_cell 32 0x07 (record k { current_col = k.current_col - 1 })
    else if not (c == 0)
    then (let shown = put_cell c 0x0E k in record shown { current_col = shown.current_col + 1 })
    else k

unfoldable pub move_cursor : Keyboard → Keyboard
move_cursor k = record k { screen = update_cursor k.current_col k.current_row k.screen }

unfoldable pub handle_keyboard : ℕ → ℕ → Keyboard → Keyboard
handle_keyboard status scancode k =
    if status % 2 == 0
    then k
    else if presses_shift scancode
    then record k { shift_pressed = true }
    else if releases_shift scancode
    then record k { shift_pressed = false }
    else if ltb scancode 0x80
    then move_cursor (press scancode k)
    else k

-- `shift_pressed`, the screen, `buffer` and `i` of `scanf`.
pub record Input : Type 0 where
  pub shift : Bool
  pub screen : Screen
  pub buffer : ℕ → ℕ
  pub i : ℕ

-- What a round of the loop does: it goes on, or the function returns.
pub data Round : Type 0 where
  go_on : Input → Round
  return : Input → Round

-- `buffer[i] = value`
unfoldable pub set_byte : ℕ → Input → Input
set_byte value s = record s { buffer = λ j. if j == s.i then value else s.buffer j }

-- A character and its color at the position of `i`.
unfoldable pub show : ℕ → ℕ → ℕ → ℕ → Input → Screen
show row col color c s =
    let place = (row * 80 + col) * 2 + s.i * 2 in
    record (s.screen) { video = store (place + 1) color (store place c s.screen.video) }

-- "/>"
abbrev pub prompt : List ℕ
prompt = 47 ∷ 62 ∷ []

-- A scancode below 0x80.
unfoldable pub type_key : ℕ → ℕ → ℕ → ℕ → Input → Round
type_key row col color scancode s =
    let c = character s.shift scancode in
    let rubbed = record s { i = s.i - 1 } in
    let typed = record (set_byte c s) { i = s.i + 1; screen = show row col color c s } in
    if scancode == 0x1C
    then Round.return (record (set_byte 0 s) { screen = update_cursor col (row + 2) s.screen })
    else if scancode == 0x0E
    then (if ltb 0 s.i
        then Round.go_on (record rubbed {
          screen = update_cursor (col + rubbed.i) row (show row col color 32 rubbed);
        })
        else Round.go_on s)
    else if not (c == 0) && not (c == 10)
    then Round.go_on (record typed {
      screen = update_cursor (col + typed.i) row (print prompt row 0 0x0F typed.screen);
    })
    else Round.go_on s

-- A round of the loop, for the bytes of the two ports.
unfoldable pub round : ℕ → ℕ → ℕ → ℕ → ℕ → Input → Round
round row col color status value s =
    if status % 2 == 0
    then Round.go_on s
    else if not (status / 32 % 2 == 0)
    then Round.go_on s
    else if presses_shift value
    then Round.go_on (record s { shift = true })
    else if releases_shift value
    then Round.go_on (record s { shift = false })
    else if ltb value 0x80
    then type_key row col color value s
    else Round.go_on s

abbrev pub after_round : (Input → Option Input) → Round → Option Input
after_round next (Round.go_on t) = next t
after_round next (Round.return t) = some t

-- The loop, for what the ports give from round to round; `none` while it waits for more.
unfoldable pub scanf_loop : ℕ → ℕ → ℕ → ℕ → List (ℕ × ℕ) → Input → Option Input
scanf_loop max_len row col color [] s = if ltb s.i (max_len - 1) then none else some (set_byte 0 s)
scanf_loop max_len row col color ((status, value) ∷ events) s =
    let next =
      after_round (scanf_loop max_len row col color events) (round row col color status value s) in
    if ltb s.i (max_len - 1) then next else some (set_byte 0 s)

unfoldable pub scanf : ℕ → ℕ → ℕ → ℕ → List (ℕ × ℕ) → Input → Option Input
scanf max_len row col color events s = scanf_loop max_len row col color events (record s { i = 0 })
