-- ===== src/Screen/Examples.antt =====
-- The theorems on the screen at concrete states.
use pizda.Prelude.{ℕ, ◌+◌, ◌*◌, ◌≡◌, ◌≤◌, ◌<◌, ◌⊎◌, arith, [], ◌∷◌, get_or}
use pizda.Screen.{Screen, print, update_cursor}
use pizda.Screen.Cells.{char_cell, shown_row, before, print-char_cell}
use pizda.Screen.Cursor.{Controller, take_writes, position, position-update_cursor}

abbrev empty : Screen
empty = record { video = λ j. 0; terminal_row = 0; ports = [] }

abbrev reset : Controller
reset = record { selected = 0; low = 0; high = 0 }

-- "ok" in the row 30, past the last one.
print-char_cell_example :
    ((k : ℕ)
      → k < 2
      → char_cell (print (111 ∷ 107 ∷ []) 30 4 15 empty).video (shown_row 30) (4 + k)
        ≡ (get_or (111 ∷ 107 ∷ []) k 0, 15))
    × ((j : ℕ)
        → (j < (shown_row 30 * 80 + 4) * 2) ⊎ ((shown_row 30 * 80 + 4 + 2) * 2 ≤ j)
        → (print (111 ∷ 107 ∷ []) 30 4 15 empty).video j ≡ before 30 empty j)
print-char_cell_example = print-char_cell (111 ∷ 107 ∷ []) 30 4 15 empty

position-update_cursor_example : position (take_writes (update_cursor 5 12 empty).ports reset) ≡ 965
position-update_cursor_example = position-update_cursor 5 12 empty reset (omega arith)
