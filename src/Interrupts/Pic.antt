-- ===== src/Interrupts/Pic.antt =====
-- What the two interrupt controllers make of the port writes.
use pizda.Prelude.{
  ℕ, ◌+◌, ◌-◌, ◌%◌, ◌≤◌, ◌<◌, ◌≡◌, refl, ap, ◌∙◌, arith, words, ◌==◌, leb, if◌then◌else◌, Bool,
  false, Bool-cases, inl, inr, sub64, [], ◌∷◌, ◌++◌,
}
use pizda.Pata.{PortWrites}
use pizda.Mouse.{mouse_handler}
use pizda.Interrupts.{
  Machine, pic1_command, pic1_data, pic2_command, pic2_data, pic_remap, pic_send_eoi, irq_handler,
}

-- An 8259A: `stage` counts the initialisation words that are still to come after ICW1, `ended` the
-- ends of interrupt.
pub record Pic : Type 0 where
  pub stage : ℕ
  pub vector : ℕ
  pub cascade : ℕ
  pub mode : ℕ
  pub mask : ℕ
  pub ended : ℕ

unfoldable pub take_command : ℕ → Pic → Pic
take_command value p =
    if value == 0x11
    then record p { stage = 3; mask = 0 }
    else if value == 0x20
    then record p { ended = p.ended + 1 }
    else p

unfoldable pub take_data : ℕ → Pic → Pic
take_data value p =
    if p.stage == 3
    then record p { vector = value; stage = 2 }
    else if p.stage == 2
    then record p { cascade = value; stage = 1 }
    else if p.stage == 1
    then record p { mode = value; stage = 0 }
    else record p { mask = value }

-- The controller behind the two ports, for a list of writes.
unfoldable pub take_writes : ℕ → ℕ → PortWrites → Pic → Pic
take_writes command_port data_port [] p = p
take_writes command_port data_port ((port, value) ∷ ws) p = take_writes command_port data_port ws (
    if port == command_port
    then take_command value p
    else if port == data_port
    then take_data value p
    else p)

abbrev pub master : PortWrites → Pic → Pic
master = take_writes pic1_command pic1_data

abbrev pub slave : PortWrites → Pic → Pic
slave = take_writes pic2_command pic2_data

-- `pic_remap` brings both controllers through their initialisation, whatever state they were in: the
-- interrupts of the master and the slave start at the two offsets, the slave is at line 2, and the
-- masks are those read before.
pub pic_remap_lem :
    (offset1 offset2 a1 a2 : ℕ) (p q : Pic)
    → offset1 < 256
    → offset2 < 256
    → (master (pic_remap offset1 offset2 a1 a2) p
        ≡ record { stage = 0; vector = offset1; cascade = 4; mode = 1; mask = a1; ended = p.ended })
      × (slave (pic_remap offset1 offset2 a1 a2) q ≡ record {
        stage = 0;
        vector = offset2;
        cascade = 2;
        mode = 1;
        mask = a2;
        ended = q.ended;
      })
unfolding pic_remap take_writes take_command take_data
pic_remap_lem offset1 offset2 a1 a2 p q h1 h2 =
    let e1 : offset1 % 256 ≡ offset1 = omega arith in
    let e2 : offset2 % 256 ≡ offset2 = omega arith in rw (e1, e2) (refl, refl)

take_writes-append :
    (command_port data_port : ℕ) (xs ys : PortWrites) (p : Pic)
    → take_writes command_port data_port (xs ++ ys) p
      ≡ take_writes command_port data_port ys (take_writes command_port data_port xs p)
unfolding take_writes
take_writes-append command_port data_port [] ys p = refl
take_writes-append command_port data_port ((port, value) ∷ xs) ys p =
    take_writes-append command_port data_port xs ys _

-- One more end of interrupt.
abbrev pub end_one : Pic → Pic
end_one p = record p { ended = p.ended + 1 }

pic_send_eoi-pics :
    (irq : ℕ) (p q : Pic)
    → (master (pic_send_eoi irq) p ≡ end_one p)
      × (slave (pic_send_eoi irq) q ≡ (if leb 8 irq then end_one q else q))
unfolding pic_send_eoi take_writes take_command take_data
pic_send_eoi-pics irq p q = elim (Bool-cases (leb 8 irq)) [
  | inl e ↦ rw e (refl, refl)
  | inr e ↦ rw e (refl, refl)
]

irq_handler-ports :
    (int_no status value : ℕ) (m : Machine)
    → 32 ≤ int_no
    → int_no < 48
    → (irq_handler int_no status value m).ports ≡ m.ports ++ pic_send_eoi (int_no - 32)
unfolding irq_handler
irq_handler-ports int_no status value m lo hi =
    let line : sub64 int_no 32 % 256 ≡ int_no - 32 = omega words in
    elim (Bool-cases (int_no == 33)) [
      | inl e ↦ rw (e, line)
      | inr e ↦ elim (Bool-cases (int_no == 44)) [
        | inl f ↦ rw (e, f, line)
        | inr f ↦ rw (e, f, line)
      ]
    ]

irq_handler-mouse :
    (int_no status value : ℕ) (m : Machine)
    → (irq_handler int_no status value m).mouse
      ≡ (if int_no == 44 then mouse_handler status value m.mouse else m.mouse)
unfolding irq_handler
irq_handler-mouse int_no status value m = elim (Bool-cases (int_no == 33)) [
  | inl e ↦ let other : (int_no == 44) ≡ false = ground arith in rw (e, other)
  | inr e ↦ elim (Bool-cases (int_no == 44)) [ inl f ↦ rw (e, f) | inr f ↦ rw (e, f) ]
]

slave_line : (int_no : ℕ) → leb 8 (int_no - 32) ≡ leb 40 int_no
slave_line int_no = ground arith

-- `irq_handler` for a vector of the hardware, 32 to 47, tells the master controller the end of the
-- interrupt once, and the slave exactly for 40 to 47; it calls the mouse's handler for 44 alone.
pub irq_handler-ends :
    (int_no status value : ℕ) (m : Machine) (p q : Pic)
    → 32 ≤ int_no
    → int_no < 48
    → (master (irq_handler int_no status value m).ports p ≡ end_one (master m.ports p))
      × (slave (irq_handler int_no status value m).ports q
          ≡ (if leb 40 int_no then end_one (slave m.ports q) else slave m.ports q))
      × ((irq_handler int_no status value m).mouse
          ≡ (if int_no == 44 then mouse_handler status value m.mouse else m.mouse))
irq_handler-ends int_no status value m p q lo hi =
    let sent = irq_handler-ports int_no status value m lo hi in
    let (to_master, to_slave) =
      pic_send_eoi-pics (int_no - 32) (master m.ports p) (slave m.ports q) in
    (
      ap (λ (ws : PortWrites). master ws p) sent
          ∙ take_writes-append pic1_command pic1_data m.ports (pic_send_eoi (int_no - 32)) p
          ∙ to_master,
      ap (λ (ws : PortWrites). slave ws q) sent
          ∙ take_writes-append pic2_command pic2_data m.ports (pic_send_eoi (int_no - 32)) q
          ∙ to_slave
          ∙ ap (λ (b : Bool). if b then end_one (slave m.ports q) else slave m.ports q)
              (slave_line int_no),
      irq_handler-mouse int_no status value m,
    )
