-- ===== src/Screen/Cursor.antt =====
-- Where `update_cursor` puts the hardware's cursor.
use pizda.Prelude.{
  ℕ, ◌+◌, ◌*◌, ◌/◌, ◌%◌, ◌^◌, ◌≡◌, ◌<◌, refl, ◌∙◌, ap, arith, ◌==◌, if◌then◌else◌, List, [], ◌∷◌,
  ◌++◌,
}
use pizda.Screen.{Screen, enter_row, update_cursor}
use pizda.Screen.Cells.{shown_row, enter_row-row}

-- The registers of the display controller: the one selected by port 0x3D4, and the cursor's low
-- and high byte, registers 15 and 14.
pub record Controller : Type 0 where
  pub selected : ℕ
  pub low : ℕ
  pub high : ℕ

-- A write of a port, as the controller takes it.
unfoldable pub take_write : ℕ → ℕ → Controller → Controller
take_write port value c =
    if port == 0x3D4
    then record c { selected = value }
    else if port == 0x3D5
    then (if c.selected == 0x0F
        then record c { low = value }
        else if c.selected == 0x0E
        then record c { high = value }
        else c)
    else c

unfoldable pub take_writes : List (ℕ × ℕ) → Controller → Controller
take_writes [] c = c
take_writes ((port, value) ∷ ws) c = take_writes ws (take_write port value c)

take_writes-append :
    (xs ys : List (ℕ × ℕ)) (c : Controller)
    → take_writes (xs ++ ys) c ≡ take_writes ys (take_writes xs c)
unfolding take_writes
take_writes-append [] ys c = refl
take_writes-append ((port, value) ∷ xs) ys c = take_writes-append xs ys (take_write port value c)

abbrev pub position : Controller → ℕ
position c = c.high * 2 ^ 8 + c.low

shown_row-lt : (row : ℕ) → shown_row row < 25
shown_row-lt row = ground arith

four_writes :
    (pos : ℕ) (c : Controller)
    → pos < 2 ^ 16
    → position (
        take_writes
          ((0x3D4, 0x0F) ∷ (0x3D5, pos % 256) ∷ (0x3D4, 0x0E) ∷ (0x3D5, pos / 2 ^ 8 % 256) ∷ [])
          c)
      ≡ pos
unfolding take_writes take_write
four_writes pos c h = omega arith

-- After `update_cursor`, for a column below 80 and whatever was written to the ports before, the
-- controller's cursor stands in the column, in the row or in the last one if the row is past it.
pub position-update_cursor :
    (x y : ℕ) (s : Screen) (c : Controller)
    → x < 80
    → position (take_writes (update_cursor x y s).ports c) ≡ shown_row y * 80 + x
unfolding update_cursor
position-update_cursor x y s c h =
    let t = enter_row y s in
    let pos = (t.terminal_row * 80 + x) % 2 ^ 16 in
    let same = enter_row-row y s in
    let small : pos ≡ shown_row y * 80 + x = omega (arith, same, shown_row-lt y) in
    ap position (take_writes-append t.ports _ c)
    ∙ four_writes pos (take_writes t.ports c) (omega arith)
    ∙ small
