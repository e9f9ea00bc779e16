-- ===== src/Screen/Cells.antt =====
-- What `print` and `scroll_screen` put on the screen.
use pizda.Prelude.{
  ℕ, zero, suc, ◌+◌, ◌*◌, ◌≤◌, ◌<◌, ◌≡◌, ◌≢◌, ◌⊎◌, inl, inr, refl, ap, ◌∙◌, arith, leb,
  if◌then◌else◌, Bool-cases, List, [], ◌∷◌, length, get_or,
}
use pizda.Screen.{Screen, Video, store, scroll_screen, put_chars, enter_row, print}

-- The character and the color in a column of a row.
abbrev pub char_cell : Video → ℕ → ℕ → ℕ × ℕ
char_cell v row col = (v ((row * 80 + col) * 2), v ((row * 80 + col) * 2 + 1))

store_ne : (place value : ℕ) (v : Video) (j : ℕ) → j ≢ place → store place value v j ≡ v j
unfolding store
store_ne place value v j h = ground arith

store_self : (place value : ℕ) (v : Video) → store place value v place ≡ value
unfolding store
store_self place value v = ground arith

pub put_chars-outside :
    (cs : List ℕ) (place color : ℕ) (v : Video) (j : ℕ)
    → (j < place) ⊎ (place + 2 * length cs ≤ j)
    → put_chars place color cs v j ≡ v j
unfolding put_chars
put_chars-outside [] place color v j h = refl
put_chars-outside (c ∷ cs) place color v j h =
    put_chars-outside cs (place + 2) color _ j (omega arith)
    ∙ store_ne (place + 1) color (store place c v) j (omega arith)
    ∙ store_ne place c v j (omega arith)

put_chars-inside :
    (cs : List ℕ) (place color : ℕ) (v : Video) (k : ℕ)
    → k < length cs
    → (put_chars place color cs v (place + 2 * k) ≡ get_or cs k 0)
      × (put_chars place color cs v (place + 2 * k + 1) ≡ color)
unfolding put_chars
put_chars-inside [] place color v k h = absurd (omega arith)
put_chars-inside (c ∷ cs) place color v zero h =
    let w = store (place + 1) color (store place c v) in
    let first : place + 2 * 0 ≡ place = omega arith in
    rw first (
      put_chars-outside cs (place + 2) color w place (omega arith)
          ∙ store_ne (place + 1) color (store place c v) place (omega arith)
          ∙ store_self place c v,
      put_chars-outside cs (place + 2) color w (place + 1) (omega arith)
          ∙ store_self (place + 1) color (store place c v),
    )
put_chars-inside (c ∷ cs) place color v (suc k) h =
    let next : place + 2 * suc k ≡ place + 2 + 2 * k = omega arith in
    rw next (put_chars-inside cs (place + 2) color _ k (omega arith))

-- The row that `print` writes to.
abbrev pub shown_row : ℕ → ℕ
shown_row row = if leb 25 row then 24 else row

-- What stands on the screen where `print` does not write: for a row past the last one, the lines
-- have moved up.
abbrev pub before : ℕ → Screen → Video
before row s = if leb 25 row then (scroll_screen s).video else s.video

pair : {a b c d : ℕ} → a ≡ c → b ≡ d → ◌≡◌ {A = ℕ × ℕ} (a, b) (c, d)
pair p q = λ i. (p i, q i)

enter_row-video : (row : ℕ) (s : Screen) → (enter_row row s).video ≡ before row s
unfolding enter_row
enter_row-video row s = elim (Bool-cases (leb 25 row)) [ inl e ↦ rw e | inr e ↦ rw e ]

pub enter_row-row : (row : ℕ) (s : Screen) → (enter_row row s).terminal_row ≡ shown_row row
unfolding enter_row
enter_row-row row s = elim (Bool-cases (leb 25 row)) [ inl e ↦ rw e | inr e ↦ rw e ]

pub print-put_chars :
    (message : List ℕ) (row col color : ℕ) (s : Screen)
    → (print message row col color s).video
      ≡ put_chars ((shown_row row * 80 + col) * 2) color message (before row s)
unfolding print
print-put_chars message row col color s = rw (enter_row-row row s, enter_row-video row s)

-- `print` puts the characters of the message and the color in the cells from the column on, in the
-- last row if the row is past it, after the lines have moved up; every other byte stays.
pub print-char_cell :
    (message : List ℕ) (row col color : ℕ) (s : Screen)
    → ((k : ℕ)
        → k < length message
        → char_cell (print message row col color s).video (shown_row row) (col + k)
          ≡ (get_or message k 0, color))
      × ((j : ℕ)
          → (j < (shown_row row * 80 + col) * 2)
            ⊎ ((shown_row row * 80 + col + length message) * 2 ≤ j)
          → (print message row col color s).video j ≡ before row s j)
print-char_cell message row col color s =
    let place = (shown_row row * 80 + col) * 2 in
    let e = print-put_chars message row col color s in
    (
      λ k lt.
          let here : (shown_row row * 80 + (col + k)) * 2 ≡ place + 2 * k = omega arith in
          let (char, paint) = put_chars-inside message place color (before row s) k lt in
          rw (e, here) (pair char paint),
      λ j out.
          ap (λ (v : Video). v j) e
          ∙ put_chars-outside message place color (before row s) j (ground arith),
    )
