-- ===== src/Mouse/Cursor.antt =====
-- The cursor stays on the screen, and the screen shows it at its position alone.
use pizda.Prelude.{
  ℕ, zero, suc, ◌+◌, ◌-◌, ◌*◌, ◌/◌, ◌%◌, ◌<◌, ◌≡◌, refl, ap, sym, ◌∙◌, arith, inl, inr, Bool, true,
  false, ◌&&◌, ◌||◌, ◌==◌, ==_eq, ==_ne, Bool-cases, ℕ-cases, ltb, if◌then◌else◌,
}
use mathlib.Core.Path.{subst}
use pizda.Prelude.Int.{ℤ, ◌+ℤ◌, ◌-ℤ◌}
use pizda.Mouse.{Mouse, xor, eighth, clamp, cell, flip, eq_ℤ, packet, mouse_handler}

abbrev pub Below : ℕ → ℤ → Type 0
Below width a = (n : ℕ) × (a ≡ ℤ.pos n) × (n < width)

clamp-Below : (width : ℕ) (a : ℤ) → 0 < width → Below width (clamp width a)
unfolding clamp
clamp-Below width (ℤ.pos n) h = elim (Bool-cases (ltb n width)) [
  | inl lt ↦ (n, ground arith, ground arith)
  | inr ge ↦ (width - 1, ground arith, omega arith)
]
clamp-Below width (ℤ.negsuc n) h = (0, ground arith, h)

pow2 : ℕ → ℕ
pow2 zero = 1
pow2 (suc n) = pow2 n + pow2 n

xor_twice : (n a b : ℕ) → a < pow2 n → xor n (xor n a b) b ≡ a
unfolding xor pow2
xor_twice zero a b h = omega arith
xor_twice (suc n) a b h =
    let rest = xor n (a / 2) (b / 2) in
    let half : ((a % 2 + b % 2) % 2 + 2 * rest) / 2 ≡ rest = omega arith in
    let ih = xor_twice n (a / 2) (b / 2) (omega arith) in rw half (omega (arith, ih))

-- The cursor is on the screen of 80 columns and 25 lines, and fewer than three bytes of a packet wait.
pub record IsOnScreen (s : Mouse) : Type 0 where
  pub column : Below 80 s.x
  pub line : Below 25 s.y
  pub waiting : s.cycle < 3

-- The video memory is the picture with the attribute at the cursor's position inverted.
unfoldable pub Shows : (ℕ → ℕ) → Mouse → Type 0
Shows picture s = (j : ℕ) → s.video j ≡ flip (cell s.x s.y) picture j

xor-byte : (a : ℕ) → a < 256 → xor 8 (xor 8 a 0x77) 0x77 ≡ a
unfolding pow2
xor-byte a h = xor_twice 8 a 0x77 h

flip_cong : (place : ℕ) (u v : ℕ → ℕ) (j : ℕ) → u j ≡ v j → flip place u j ≡ flip place v j
unfolding flip
flip_cong place u v j e = rw e

flip_twice : (place : ℕ) (v : ℕ → ℕ) (j : ℕ) → v j < 256 → flip place (flip place v) j ≡ v j
unfolding flip
flip_twice place v j h = elim (ℕ-cases j place) [
  | inl e ↦ rw (==_eq j place e) (xor-byte (v j) h)
  | inr ne ↦ rw (==_ne j place ne) refl
]

eq_pos : (n m : ℕ) → eq_ℤ (ℤ.pos n) (ℤ.pos m) ≡ true → n ≡ m
unfolding eq_ℤ
eq_pos n m h = ground arith

and_true : (a b : Bool) → (a && b) ≡ true → (a ≡ true) × (b ≡ true)
and_true true b h = (refl, h)
and_true false b h = absurd (ground arith)

eq_ℤ-eq : (v w : ℕ) (a b : ℤ) → Below v a → Below w b → eq_ℤ a b ≡ true → a ≡ b
unfolding eq_ℤ
eq_ℤ-eq v w a b (n, ea, hn) (m, eb, hm) h =
    let same : n ≡ m = eq_pos n m (rw (ea, eb) at h) in ea ∙ ap ℤ.pos same ∙ sym eb

module _ (s : Mouse) where
  abbrev new_x : ℤ
  new_x = clamp 80 (s.x +ℤ eighth (s.bytes 1))

  abbrev new_y : ℤ
  new_y = clamp 25 (s.y -ℤ eighth (s.bytes 2))

  packet-IsOnScreen : IsOnScreen (packet s)
  unfolding packet
  packet-IsOnScreen =
      let column = clamp-Below 80 (s.x +ℤ eighth (s.bytes 1)) (omega arith) in
      let line = clamp-Below 25 (s.y -ℤ eighth (s.bytes 2)) (omega arith) in
      elim (Bool-cases (eq_ℤ s.x new_x && eq_ℤ s.y new_y)) [
        | inl e ↦ rw e (record { column = column; line = line; waiting = omega arith })
        | inr e ↦ rw e (record { column = column; line = line; waiting = omega arith })
      ]

  packet-Shows :
      (picture : ℕ → ℕ)
      → Below 80 s.x
      → Below 25 s.y
      → ((j : ℕ) → picture j < 256)
      → Shows picture s
      → Shows picture (packet s)
  unfolding packet Shows
  packet-Shows picture vx vy small h =
      let column = clamp-Below 80 (s.x +ℤ eighth (s.bytes 1)) (omega arith) in
      let line = clamp-Below 25 (s.y -ℤ eighth (s.bytes 2)) (omega arith) in
      elim (Bool-cases (eq_ℤ s.x new_x && eq_ℤ s.y new_y)) [
        | inl e ↦
            let (ex, ey) = and_true (eq_ℤ s.x new_x) (eq_ℤ s.y new_y) e in
            let sx = eq_ℤ-eq 80 80 s.x new_x vx column ex in
            let sy = eq_ℤ-eq 25 25 s.y new_y vy line ey in
            rw e (
              subst (λ (c : ℤ). (j : ℕ) → s.video j ≡ flip (cell c new_y) picture j) sx
                (subst (λ (c : ℤ). (j : ℕ) → s.video j ≡ flip (cell s.x c) picture j) sy h))
        | inr e ↦ rw e (λ j. flip_cong (cell new_x new_y) (flip (cell s.x s.y) s.video) picture j (
            flip_cong (cell s.x s.y) s.video (flip (cell s.x s.y) picture) j (h j)
            ∙ flip_twice (cell s.x s.y) picture j (small j)))
      ]

-- The state with the byte of the packet stored.
abbrev stored : ℕ → Mouse → Mouse
stored value s = record s {
  bytes = λ i. if i == s.cycle then value else s.bytes i;
  cycle = (s.cycle + 1) % 256;
}

-- The handler ignores the interrupt, stores a byte of a packet that is not complete, or ends one.
handler-cases :
    (P : Mouse → Type 0) (status value : ℕ) (s : Mouse)
    → s.cycle < 3
    → P s
    → (s.cycle + 1 < 3 → P (stored value s))
    → P (packet (stored value s))
    → P (mouse_handler status value s)
unfolding mouse_handler
handler-cases P status value s h ignored partial complete =
    elim (Bool-cases (status % 2 == 0 || status / 32 % 2 == 0)) [
      | inl e ↦ rw e ignored
      | inr e ↦ elim (Bool-cases (s.cycle == 0 && value / 8 % 2 == 0)) [
        | inl f ↦ rw (e, f) ignored
        | inr f ↦ elim (ℕ-cases ((s.cycle + 1) % 256) 3) [
          | inl full ↦ rw (e, f, ==_eq ((s.cycle + 1) % 256) 3 full) complete
          | inr less ↦ rw (e, f, ==_ne ((s.cycle + 1) % 256) 3 less) (partial (omega arith))
        ]
      ]
    ]

-- `mouse_handler` keeps the cursor in the 80 columns and 25 lines of the screen, and the bytes that
-- wait below three, whatever the two ports give.
pub mouse_handler-IsOnScreen :
    (status value : ℕ) (s : Mouse) → IsOnScreen s → IsOnScreen (mouse_handler status value s)
mouse_handler-IsOnScreen status value s v =
    handler-cases IsOnScreen status value s v.waiting v
      (λ lt. record { column = v.column; line = v.line; waiting = omega arith })
      (packet-IsOnScreen (stored value s))

-- When the screen shows a picture of bytes with the attribute at the cursor inverted, and the
-- cursor is on the screen, it shows the same picture with the attribute at the new position inverted
-- after `mouse_handler`, whatever the two ports give.
pub mouse_handler-Shows :
    (status value : ℕ) (picture : ℕ → ℕ) (s : Mouse)
    → IsOnScreen s
    → ((j : ℕ) → picture j < 256)
    → Shows picture s
    → Shows picture (mouse_handler status value s)
mouse_handler-Shows status value picture s v small h =
    handler-cases (Shows picture) status value s v.waiting h (λ lt. unfold Shows in h)
      (packet-Shows (stored value s) picture v.column v.line small (unfold Shows in h))
