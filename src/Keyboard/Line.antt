-- ===== src/Keyboard/Line.antt =====
-- The line editor in the abstract: the bytes typed so far, the last one first, and the keys.
use pizda.Prelude.{
  ℕ, ◌/◌, ◌%◌, ◌≡◌, Option, none, some, Bool, true, false, ◌&&◌, not, ◌==◌, ltb, if◌then◌else◌,
  length, drop, List, [], ◌∷◌,
}
use pizda.Keyboard.{character, presses_shift, releases_shift}

pub data Key : Type 0 where
  enter : Key
  rubout : Key
  letter : ℕ → Key
  shift : Bool → Key
  nothing : Key

-- The key below 0x80 that a scancode stands for; `held` says that shift is down.
unfoldable pub plain_key : Bool → ℕ → Key
plain_key held scancode =
    if scancode == 0x1C
    then Key.enter
    else if scancode == 0x0E
    then Key.rubout
    else if not (character held scancode == 0) && not (character held scancode == 10)
    then Key.letter (character held scancode)
    else Key.nothing

-- No data, data of the mouse, shift, a key, or the release of a key.
unfoldable pub key_of : ℕ → ℕ → Bool → Key
key_of status value held =
    if status % 2 == 0
    then Key.nothing
    else if not (status / 32 % 2 == 0)
    then Key.nothing
    else if presses_shift value
    then Key.shift true
    else if releases_shift value
    then Key.shift false
    else if ltb value 0x80
    then plain_key held value
    else Key.nothing

-- What a key does: `next` edits on, with the shift flag and the line.
abbrev pub edit_key : (Bool → List ℕ → Option (List ℕ)) → Bool → List ℕ → Key → Option (List ℕ)
edit_key next held line Key.enter = some line
edit_key next held line Key.rubout = next held (drop 1 line)
edit_key next held line (Key.letter c) = next held (c ∷ line)
edit_key next held line (Key.shift down) = next down line
edit_key next held line Key.nothing = next held line

-- The line when it is full or the enter key is pressed; `none` if neither happens.
unfoldable pub edit_line : ℕ → List (ℕ × ℕ) → Bool → List ℕ → Option (List ℕ)
edit_line room [] held line = if ltb (length line) room then none else some line
edit_line room ((status, value) ∷ events) held line =
    let next = edit_key (edit_line room events) held line (key_of status value held) in
    if ltb (length line) room then next else some line

-- A list turned round, in front of another.
abbrev pub rev_onto {ℓ} : {A : Type ℓ} → List A → List A → List A
rev_onto [] ys = ys
rev_onto (x ∷ xs) ys = rev_onto xs (x ∷ ys)

-- The keys enter the line into a buffer of 2048 bytes, whether shift is held before or not.
abbrev pub Enters : List (ℕ × ℕ) → List ℕ → Type 0
Enters keys line =
    (held : Bool)
    → (last_first : List ℕ) × (edit_line 2047 keys held [] ≡ some last_first)
      × (rev_onto last_first [] ≡ line)
