-- ===== src/Keyboard/Edits.antt =====
-- `scanf` is the line editor of Keyboard/Line, on a buffer in memory.
use pizda.Prelude.{
  ℕ, ◌+◌, ◌-◌, ◌/◌, ◌%◌, ◌≤◌, ◌<◌, ◌≡◌, refl, sym, ap, ◌∙◌, arith, ◌==◌, ==_ne, ==_eq, ltb,
  Bool-cases, inl, inr, List, [], ◌∷◌, length, drop, Bool, true, false, ◌&&◌, not, Option, some,
  none,
}
use mathlib.Core.Path.{subst}
use pizda.Screen.{Screen}
use pizda.Keyboard.{
  Input, Round, after_round, character, presses_shift, releases_shift, set_byte, type_key, round,
  scanf_loop, scanf,
}
use pizda.Keyboard.Line.{Key, plain_key, key_of, edit_key, edit_line}

-- What a key does to the shift flag, the buffer and `i`.
abbrev pub after_key : Key → Input → Screen → Round
after_key Key.enter s sc = Round.return (record (set_byte 0 s) { screen = sc })
after_key Key.rubout s sc = Round.go_on (record s { i = s.i - 1; screen = sc })
after_key (Key.letter c) s sc = Round.go_on (record (set_byte c s) { i = s.i + 1; screen = sc })
after_key (Key.shift down) s sc = Round.go_on (record s { shift = down; screen = sc })
after_key Key.nothing s sc = Round.go_on (record s { screen = sc })

abbrev Acts : Key → Input → Round → Type 0
Acts k s r = (sc : Screen) × (r ≡ after_key k s sc)

type_key-Acts :
    (row col color scancode : ℕ) (s : Input)
    → Acts (plain_key s.shift scancode) s (type_key row col color scancode s)
unfolding plain_key type_key set_byte
type_key-Acts row col color scancode s = elim (Bool-cases (scancode == 0x1C)) [
  | inl a ↦ rw a (_, refl)
  | inr a ↦ elim (Bool-cases (scancode == 0x0E)) [
    | inl b ↦ elim (Bool-cases (ltb 0 s.i)) [
      | inl c ↦ rw (a, b, c) (_, refl)
      | inr c ↦
          let none_left : s.i - 1 ≡ s.i = ground arith in
          rw (a, b, c) (s.screen, ap (λ (n : ℕ). Round.go_on (record s { i = n })) (sym none_left))
    ]
    | inr b ↦
        elim (Bool-cases
          (not (character s.shift scancode == 0) && not (character s.shift scancode == 10))) [
            | inl c ↦ rw (a, b, c) (_, refl)
            | inr c ↦ rw (a, b, c) (s.screen, refl)
          ]
  ]
]

round-Acts :
    (row col color status value : ℕ) (s : Input)
    → Acts (key_of status value s.shift) s (round row col color status value s)
unfolding key_of round
round-Acts row col color status value s = elim (Bool-cases (status % 2 == 0)) [
  | inl a ↦ rw a (s.screen, refl)
  | inr a ↦ elim (Bool-cases (not (status / 32 % 2 == 0))) [
    | inl b ↦ rw (a, b) (s.screen, refl)
    | inr b ↦ elim (Bool-cases (presses_shift value)) [
      | inl c ↦ rw (a, b, c) (s.screen, refl)
      | inr c ↦ elim (Bool-cases (releases_shift value)) [
        | inl d ↦ rw (a, b, c, d) (s.screen, refl)
        | inr d ↦ elim (Bool-cases (ltb value 0x80)) [
          | inl e ↦ rw (a, b, c, d, e) (type_key-Acts row col color value s)
          | inr e ↦ rw (a, b, c, d, e) (s.screen, refl)
        ]
      ]
    ]
  ]
]

-- The buffer holds the bytes of the line, of which the last is the head.
abbrev pub Typed : (ℕ → ℕ) → List ℕ → Type 0
Typed b [] = Unit
Typed b (c ∷ cs) = (b (length cs) ≡ c) × Typed b cs

Typed-frame :
    (b b' : ℕ → ℕ) (line : List ℕ)
    → ((j : ℕ) → j < length line → b' j ≡ b j)
    → Typed b line
    → Typed b' line
Typed-frame b b' [] same h = tt
Typed-frame b b' (c ∷ cs) same (e, h) =
    (same (length cs) (omega arith) ∙ e, Typed-frame b b' cs (λ j lt. same j (omega arith)) h)

-- The state of `scanf` holds the line, which fits, and no byte from `max_len` on has changed.
pub record Sync (max_len : ℕ) (b : ℕ → ℕ) (line : List ℕ) (s : Input) : Type 0 where
  pub count : s.i ≡ length line
  pub room : length line < max_len
  pub typed : Typed s.buffer line
  pub beyond : (j : ℕ) → max_len ≤ j → s.buffer j ≡ b j

-- The same outcome: both wait, or `scanf` returns the line with a NUL behind it.
abbrev pub Agrees : ℕ → (ℕ → ℕ) → Option (List ℕ) → Option Input → Type 0
Agrees max_len b none none = Unit
Agrees max_len b (some line) (some t) = Sync max_len b line t × (t.buffer (length line) ≡ 0)
Agrees max_len b none (some t) = ⊥
Agrees max_len b (some line) none = ⊥

module _ (max_len : ℕ) (b : ℕ → ℕ) where
  set_byte-Typed :
      (c : ℕ) (line : List ℕ) (s : Input)
      → Sync max_len b line s
      → Typed (set_byte c s).buffer line
        × ((set_byte c s).buffer (length line) ≡ c)
        × ((j : ℕ) → max_len ≤ j → (set_byte c s).buffer j ≡ b j)
  unfolding set_byte
  set_byte-Typed c line s y =
      let count = y.count in
      let room = y.room in
      (
        Typed-frame s.buffer (set_byte c s).buffer line (λ j lt. rw (==_ne j s.i (omega arith)))
            y.typed,
        rw (==_eq (length line) s.i (omega arith)),
        λ j le. rw (==_ne j s.i (omega arith)) (y.beyond j le),
      )

  ended-Agrees :
      (line : List ℕ) (s : Input) (sc : Screen)
      → Sync max_len b line s
      → Agrees max_len b (some line) (some (record (set_byte 0 s) { screen = sc }))
  unfolding set_byte
  ended-Agrees line s sc y =
      let (typed, zeroed, beyond) = set_byte-Typed 0 line s y in
      (record { count = y.count; room = y.room; typed = typed; beyond = beyond }, zeroed)

  Rest : (Bool → List ℕ → Option (List ℕ)) → (Input → Option Input) → Type 0
  Rest spec next =
      (line : List ℕ) (s : Input)
      → Sync max_len b line s
      → Agrees max_len b (spec s.shift line) (next s)

  typed-Sync :
      (c : ℕ) (line : List ℕ) (s : Input) (sc : Screen)
      → Sync max_len b line s
      → length line + 1 < max_len
      → Sync max_len b (c ∷ line) (record (set_byte c s) { i = s.i + 1; screen = sc })
  unfolding set_byte
  typed-Sync c line s sc y lt =
      let (typed, last, beyond) = set_byte-Typed c line s y in
      let count = y.count in
      record { count = omega arith; room = omega arith; typed = (last, typed); beyond = beyond }

  rubbed-Sync :
      (line : List ℕ) (s : Input) (sc : Screen)
      → Sync max_len b line s
      → Sync max_len b (drop 1 line) (record s { i = s.i - 1; screen = sc })
  rubbed-Sync [] s sc y =
      let count = y.count in
      record { count = omega arith; room = y.room; typed = tt; beyond = y.beyond }
  rubbed-Sync (c ∷ line) s sc y =
      let count = y.count in
      let room = y.room in
      record { count = omega arith; room = omega arith; typed = y.typed.1; beyond = y.beyond }

  key-Agrees :
      (k : Key) (spec : Bool → List ℕ → Option (List ℕ)) (next : Input → Option Input)
      (line : List ℕ) (s : Input) (sc : Screen)
      → Rest spec next
      → Sync max_len b line s
      → length line + 1 < max_len
      → Agrees max_len b (edit_key spec s.shift line k) (after_round next (after_key k s sc))
  unfolding Rest set_byte
  key-Agrees Key.enter spec next line s sc ih y lt = ended-Agrees line s sc y
  key-Agrees Key.rubout spec next line s sc ih y lt =
      ih (drop 1 line) (record s { i = s.i - 1; screen = sc }) (rubbed-Sync line s sc y)
  key-Agrees (Key.letter c) spec next line s sc ih y lt =
      ih (c ∷ line) (record (set_byte c s) { i = s.i + 1; screen = sc })
        (typed-Sync c line s sc y lt)
  key-Agrees (Key.shift down) spec next line s sc ih y lt =
      ih line (record s { shift = down; screen = sc })
        (record { count = y.count; room = y.room; typed = y.typed; beyond = y.beyond })
  key-Agrees Key.nothing spec next line s sc ih y lt =
      ih line (record s { screen = sc })
        (record { count = y.count; room = y.room; typed = y.typed; beyond = y.beyond })

  module _ (row col color : ℕ) where
    scanf_loop-Agrees :
        (events : List (ℕ × ℕ)) (line : List ℕ) (s : Input)
        → Sync max_len b line s
        → Agrees max_len b
            (edit_line (max_len - 1) events s.shift line)
            (scanf_loop max_len row col color events s)
    unfolding edit_line scanf_loop Rest set_byte
    scanf_loop-Agrees [] line s y =
        let count = y.count in
        elim (Bool-cases (ltb (length line) (max_len - 1))) [
          | inl more ↦
              let more' : ltb s.i (max_len - 1) ≡ true = ground arith in rw (more, more') tt
          | inr full ↦
              let full' : ltb s.i (max_len - 1) ≡ false = ground arith in
              rw (full, full') (ended-Agrees line s s.screen y)
        ]
    scanf_loop-Agrees ((status, value) ∷ events) line s y =
        let count = y.count in
        elim (Bool-cases (ltb (length line) (max_len - 1))) [
          | inl more ↦
              let more' : ltb s.i (max_len - 1) ≡ true = ground arith in
              let room : length line + 1 < max_len = ground arith in
              let k = key_of status value s.shift in
              let (sc, act) = round-Acts row col color status value s in
              let spec = edit_line (max_len - 1) events in
              let next = scanf_loop max_len row col color events in
              rw (more, more')
                (subst (λ r. Agrees max_len b (edit_key spec s.shift line k) (after_round next r))
                  (sym act)
                  (key-Agrees k spec next line s sc
                    (λ line' s' y'. scanf_loop-Agrees events line' s' y') y room))
          | inr full ↦
              let full' : ltb s.i (max_len - 1) ≡ false = ground arith in
              rw (full, full') (ended-Agrees line s s.screen y)
        ]

-- `scanf` does what the line editor does: it returns when the editor's line is full or entered, with
-- the bytes of the line and a NUL behind them in the first `max_len` bytes of the buffer, and no
-- byte behind those changed; and it waits for more while the editor does. The buffer has one byte at
-- least.
pub scanf-edit_line :
    (max_len row col color : ℕ) (events : List (ℕ × ℕ)) (s : Input)
    → 0 < max_len
    → Agrees max_len s.buffer
        (edit_line (max_len - 1) events s.shift [])
        (scanf max_len row col color events s)
unfolding scanf
scanf-edit_line max_len row col color events s h =
    scanf_loop-Agrees max_len s.buffer row col color events [] (record s { i = 0 })
      (record { count = refl; room = h; typed = tt; beyond = λ j le. refl })
