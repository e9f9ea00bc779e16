-- ===== src/Mouse.antt =====
-- The handler of the mouse interrupt, src/kernel/drivers/mouse.c: the packet of three bytes, the
-- position, and the screen's bytes from 0xb8000 on. `status` and `value` are what `inb(0x64)` and
-- `inb(0x60)` give.
pub mod Cursor
mod Examples
use pizda.Prelude.{
  ℕ, zero, suc, ◌+◌, ◌-◌, ◌*◌, ◌/◌, ◌%◌, Bool, ◌&&◌, ◌||◌, not, ◌==◌, ltb, if◌then◌else◌,
}
use pizda.Prelude.Int.{ℤ, pos_part, sub_ℕ, ◌+ℤ◌, ◌-ℤ◌, ltb_ℤ}

-- `g_mouse_state`, `mouse_cycle`, `mouse_byte` as bytes without a sign, and the video memory.
pub record Mouse : Type 0 where
  pub x : ℤ
  pub y : ℤ
  pub buttons : ℕ
  pub cycle : ℕ
  pub bytes : ℕ → ℕ
  pub video : ℕ → ℕ

-- The exclusive or of the low `n` bits.
unfoldable pub xor : ℕ → ℕ → ℕ → ℕ
xor zero a b = 0
xor (suc n) a b = (a % 2 + b % 2) % 2 + 2 * xor n (a / 2) (b / 2)

-- `(s8)data / 8`: the division drops the fraction, towards 0.
unfoldable pub eighth : ℕ → ℤ
eighth value = if ltb value 128 then ℤ.pos (value / 8) else sub_ℕ 0 ((256 - value) / 8)

-- `if (a < 0) a = 0; if (a >= width) a = width - 1;`
unfoldable pub clamp : ℕ → ℤ → ℤ
clamp width a =
    if ltb_ℤ a (ℤ.pos 0) then ℤ.pos 0 else if ltb_ℤ a (ℤ.pos width) then a else ℤ.pos (width - 1)

-- The index of the attribute of a character: `(y * 80 + x) * 2 + 1`.
unfoldable pub cell : ℤ → ℤ → ℕ
cell x y = (pos_part y * 80 + pos_part x) * 2 + 1

-- `v[place] ^= 0x77`
unfoldable pub flip : ℕ → (ℕ → ℕ) → ℕ → ℕ
flip place v j = if j == place then xor 8 (v j) 0x77 else v j

unfoldable pub eq_ℤ : ℤ → ℤ → Bool
eq_ℤ a b = not (ltb_ℤ a b) && not (ltb_ℤ b a)

-- What the third byte does.
unfoldable pub packet : Mouse → Mouse
packet s =
    let x = clamp 80 (s.x +ℤ eighth (s.bytes 1)) in
    let y = clamp 25 (s.y -ℤ eighth (s.bytes 2)) in
    let moved = record s { x = x; y = y; buttons = s.bytes 0 % 8; cycle = 0 } in
    if eq_ℤ s.x x && eq_ℤ s.y y
    then moved
    else record moved { video = flip (cell x y) (flip (cell s.x s.y) s.video) }

unfoldable pub mouse_handler : ℕ → ℕ → Mouse → Mouse
mouse_handler status value s =
    let stored = record s {
      bytes = λ i. if i == s.cycle then value else s.bytes i;
      cycle = (s.cycle + 1) % 256;
    } in
    if status % 2 == 0 || status / 32 % 2 == 0
    then s
    else if s.cycle == 0 && value / 8 % 2 == 0
    then s
    else if stored.cycle == 3
    then packet stored
    else stored
