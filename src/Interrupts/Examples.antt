-- ===== src/Interrupts/Examples.antt =====
-- The theorems on the interrupts at a concrete machine.
use pizda.Prelude.{ℕ, ◌+◌, ◌≡◌, ◌≤◌, ◌<◌, arith, leb, ◌==◌, if◌then◌else◌, []}
use pizda.Prelude.Int.{ℤ}
use pizda.Mouse.{Mouse, mouse_handler}
use pizda.Interrupts.{Gate, Machine, init_idt, irq_handler}
use pizda.Interrupts.Gates.{Calls, init_idt-Calls}
use pizda.Interrupts.Pic.{Pic, master, slave, end_one, irq_handler-ends}

abbrev mouse : Mouse
mouse = record {
  x = ℤ.pos 40;
  y = ℤ.pos 12;
  buttons = 0;
  cycle = 0;
  bytes = λ i. 0;
  video = λ j. 7;
}

abbrev absent : Gate
absent = record {
  low_offset = 0;
  selector = 0;
  ist = 0;
  type_attr = 0;
  mid_offset = 0;
  high_offset = 0;
  reserved = 0;
}

abbrev machine : Machine
machine = record { idt = λ n. absent; idt_limit = 0; idt_base = 0; ports = []; mouse = mouse }

abbrev pic : Pic
pic = record { stage = 0; vector = 8; cascade = 0; mode = 0; mask = 0; ended = 0 }

-- Stubs at one address behind 2^32.
abbrev stub : ℕ → ℕ
stub n = 0x123456789

init_idt-Calls_example :
    ((n : ℕ) → n < 32 → Calls (stub n) ((init_idt stub stub 4096 184 142 machine).idt n))
    × ((n : ℕ) → n < 16 → Calls (stub n) ((init_idt stub stub 4096 184 142 machine).idt (32 + n)))
    × ((n : ℕ) → 48 ≤ n → (init_idt stub stub 4096 184 142 machine).idt n ≡ absent)
init_idt-Calls_example =
    init_idt-Calls stub stub 4096 184 142 machine (λ n. omega arith) (λ n. omega arith)

irq_handler-ends_example :
    (master (irq_handler 44 33 8 machine).ports pic ≡ end_one (master machine.ports pic))
    × (slave (irq_handler 44 33 8 machine).ports pic
        ≡ (if leb 40 44 then end_one (slave machine.ports pic) else slave machine.ports pic))
    × ((irq_handler 44 33 8 machine).mouse
        ≡ (if 44 == 44 then mouse_handler 33 8 machine.mouse else machine.mouse))
irq_handler-ends_example = irq_handler-ends 44 33 8 machine pic pic (omega arith) (omega arith)
