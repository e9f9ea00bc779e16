-- ===== src/Screen.antt =====
-- The text screen, src/kernel/drivers/vga.c: the video memory from 0xb8000 on, two bytes to a
-- character, `terminal_row`, and the port writes that move the hardware's cursor.
pub mod Cells
pub mod Cursor
mod Examples
use pizda.Prelude.{
  ℕ, suc, ◌+◌, ◌-◌, ◌*◌, ◌/◌, ◌%◌, ◌^◌, ◌==◌, leb, ltb, if◌then◌else◌, List, [], ◌∷◌, ◌++◌,
}

abbrev pub Video : Type 0
Video = ℕ → ℕ

pub record Screen : Type 0 where
  pub video : Video
  pub terminal_row : ℕ
  pub ports : List (ℕ × ℕ)

-- `video_memory[place] = value`
unfoldable pub store : ℕ → ℕ → Video → Video
store place value v j = if j == place then value else v j

-- `' '` at the even places and 0x07 at the odd ones.
abbrev pub blank_byte : ℕ → ℕ
blank_byte j = if j % 2 == 0 then 32 else 0x07

unfoldable pub clear_screen : Screen → Screen
clear_screen s = record s { video = λ j. if ltb j 4000 then blank_byte j else s.video j }

-- The lines move up by one, and the last one is cleared.
unfoldable pub scroll_screen : Screen → Screen
scroll_screen s = record s {
  video =
      λ j. if ltb j 3840 then s.video (j + 160) else if ltb j 4000 then blank_byte j else s.video j;
}

-- The loop of `print`: the message without its NUL, from `place` on.
unfoldable pub put_chars : ℕ → ℕ → List ℕ → Video → Video
put_chars place color [] v = v
put_chars place color (c ∷ cs) v =
    put_chars (place + 2) color cs (store (place + 1) color (store place c v))

-- `if (row >= 25) { scroll_screen(); row = 24; } terminal_row = row;`
unfoldable pub enter_row : ℕ → Screen → Screen
enter_row row s =
    if leb 25 row
    then record (scroll_screen s) { terminal_row = 24 }
    else record s { terminal_row = row }

unfoldable pub print : List ℕ → ℕ → ℕ → ℕ → Screen → Screen
print message row col color s =
    let t = enter_row row s in
    record t { video = put_chars ((t.terminal_row * 80 + col) * 2) color message t.video }

unfoldable pub update_cursor : ℕ → ℕ → Screen → Screen
update_cursor x y s =
    let t = enter_row y s in
    let pos = (t.terminal_row * 80 + x) % 2 ^ 16 in
    record t {
      ports =
          t.ports
          ++ ((0x3D4, 0x0F) ∷ (0x3D5, pos % 256) ∷ (0x3D4, 0x0E) ∷ (0x3D5, pos / 2 ^ 8 % 256) ∷ []);
    }
