-- ===== src/Interrupts.antt =====
-- The interrupts, src/kernel/interrupts: the gates of idt.c, the interrupt controllers of pic.c and
-- the dispatch of handlers.c. The addresses of the assembly stubs are arguments, and so is what the
-- ports give.
pub mod Gates
pub mod Pic
mod Examples
use pizda.Prelude.{
  ℕ, zero, suc, ◌+◌, ◌-◌, ◌*◌, ◌/◌, ◌%◌, ◌^◌, ◌==◌, leb, if◌then◌else◌, sub64, List, [], ◌∷◌, ◌++◌,
}
use pizda.Pata.{PortWrites}
use pizda.Mouse.{Mouse, mouse_handler}

-- idt_entry_t
pub record Gate : Type 0 where
  pub low_offset : ℕ
  pub selector : ℕ
  pub ist : ℕ
  pub type_attr : ℕ
  pub mid_offset : ℕ
  pub high_offset : ℕ
  pub reserved : ℕ

abbrev pub Idt : Type 0
Idt = ℕ → Gate

unfoldable pub idt_set_gate : ℕ → ℕ → Idt → Idt
idt_set_gate n handler idt j =
    if j == n
    then record {
      low_offset = handler % 2 ^ 16;
      selector = 0x08;
      ist = 0;
      type_attr = 0x8E;
      mid_offset = handler / 2 ^ 16 % 2 ^ 16;
      high_offset = handler / 2 ^ 32 % 2 ^ 32;
      reserved = 0;
    }
    else idt j

-- The calls `idt_set_gate(n, stub)` for `count` numbers from `first` on, one after the other.
unfoldable pub set_gates : ℕ → ℕ → (ℕ → ℕ) → Idt → Idt
set_gates zero first stub idt = idt
set_gates (suc count) first stub idt =
    set_gates count (suc first) stub (idt_set_gate first (stub first) idt)

abbrev pub pic1_command : ℕ
pic1_command = 0x20

abbrev pub pic1_data : ℕ
pic1_data = 0x21

abbrev pub pic2_command : ℕ
pic2_command = 0xA0

abbrev pub pic2_data : ℕ
pic2_data = 0xA1

-- The writes of `pic_remap`, for the masks `a1` and `a2` that it reads. ICW1_INIT | ICW1_ICW4 is
-- 0x11.
unfoldable pub pic_remap : ℕ → ℕ → ℕ → ℕ → PortWrites
pic_remap offset1 offset2 a1 a2 =
    (pic1_command, 0x11)
    ∷ (pic2_command, 0x11)
    ∷ (pic1_data, offset1 % 256)
    ∷ (pic2_data, offset2 % 256)
    ∷ (pic1_data, 4)
    ∷ (pic2_data, 2)
    ∷ (pic1_data, 0x01)
    ∷ (pic2_data, 0x01)
    ∷ (pic1_data, a1)
    ∷ (pic2_data, a2)
    ∷ []

unfoldable pub pic_send_eoi : ℕ → PortWrites
pic_send_eoi irq =
    if leb 8 irq
    then (pic2_command, 0x20) ∷ (pic1_command, 0x20) ∷ []
    else (pic1_command, 0x20) ∷ []

-- What the interrupts change: the table and its descriptor for `lidt`, the port writes, the mouse.
pub record Machine : Type 0 where
  pub idt : Idt
  pub idt_limit : ℕ
  pub idt_base : ℕ
  pub ports : PortWrites
  pub mouse : Mouse

-- `isr_stub n` and `irq_stub n` are the addresses of the stubs with these numbers, `base` is that of
-- the table.
unfoldable pub init_idt : (ℕ → ℕ) → (ℕ → ℕ) → ℕ → ℕ → ℕ → Machine → Machine
init_idt isr_stub irq_stub base a1 a2 m = record m {
  idt_limit = 16 * 256 - 1;
  idt_base = base;
  ports = m.ports ++ pic_remap 0x20 0x28 a1 a2;
  idt = set_gates 16 32 (λ n. irq_stub (n - 32)) (set_gates 32 0 isr_stub m.idt);
}

-- `status` and `value` are what the ports 0x64 and 0x60 give. The read of the keyboard's byte for 33
-- only empties the port.
unfoldable pub irq_handler : ℕ → ℕ → ℕ → Machine → Machine
irq_handler int_no status value m =
    let moved = record m { mouse = mouse_handler status value m.mouse } in
    let handled = if int_no == 33 then m else if int_no == 44 then moved else m in
    record handled { ports = handled.ports ++ pic_send_eoi (sub64 int_no 32 % 256) }
