-- ===== src/Interrupts/Gates.antt =====
-- The gates that `init_idt` sets.
use pizda.Prelude.{
  ℕ, zero, suc, ◌+◌, ◌-◌, ◌*◌, ◌^◌, ◌≤◌, ◌<◌, ◌≡◌, ◌≢◌, ◌⊎◌, inl, inr, refl, sym, ◌∙◌, arith, ==_eq,
  ==_ne, ℕ-cases, two64,
}
use mathlib.Core.Path.{subst}
use pizda.Interrupts.{Gate, Idt, Machine, idt_set_gate, set_gates, init_idt}

-- The address that the processor calls for a gate.
abbrev pub address : Gate → ℕ
address g = g.low_offset + 2 ^ 16 * g.mid_offset + 2 ^ 32 * g.high_offset

-- A present interrupt gate of ring 0 to the handler, in the kernel's code segment.
pub record Calls (handler : ℕ) (g : Gate) : Type 0 where
  pub target : address g ≡ handler
  pub segment : g.selector ≡ 0x08
  pub kind : g.type_attr ≡ 0x8E
  pub stack : g.ist ≡ 0
  pub zeroed : g.reserved ≡ 0

idt_set_gate-Calls :
    (n handler : ℕ) (idt : Idt) → handler < two64 → Calls handler (idt_set_gate n handler idt n)
unfolding idt_set_gate
idt_set_gate-Calls n handler idt h =
    rw (==_eq n n refl)
      (record { target = omega arith; segment = refl; kind = refl; stack = refl; zeroed = refl })

idt_set_gate_ne : (n handler j : ℕ) (idt : Idt) → j ≢ n → idt_set_gate n handler idt j ≡ idt j
unfolding idt_set_gate
idt_set_gate_ne n handler j idt h = rw (==_ne j n h)

set_gates-outside :
    (count first : ℕ) (stub : ℕ → ℕ) (idt : Idt) (j : ℕ)
    → (j < first) ⊎ (first + count ≤ j)
    → set_gates count first stub idt j ≡ idt j
unfolding set_gates
set_gates-outside zero first stub idt j h = refl
set_gates-outside (suc count) first stub idt j h =
    set_gates-outside count (suc first) stub (idt_set_gate first (stub first) idt) j (omega arith)
    ∙ idt_set_gate_ne first (stub first) j idt (omega arith)

set_gates-Calls :
    (count first : ℕ) (stub : ℕ → ℕ) (idt : Idt) (j : ℕ)
    → first ≤ j
    → j < first + count
    → stub j < two64
    → Calls (stub j) (set_gates count first stub idt j)
unfolding set_gates
set_gates-Calls zero first stub idt j le lt h = absurd (omega arith)
set_gates-Calls (suc count) first stub idt j le lt h = elim (ℕ-cases j first) [
  | inl e ↦
      let kept =
        set_gates-outside count (suc first) stub (idt_set_gate first (stub first) idt) j
          (inl (omega arith)) in
      let gate = idt_set_gate-Calls first (stub first) idt (rw e at h) in
      subst (Calls (stub j)) (sym kept)
        (subst (λ k. Calls (stub k) (idt_set_gate first (stub first) idt k)) (sym e) gate)
  | inr ne ↦
      set_gates-Calls count (suc first) stub (idt_set_gate first (stub first) idt) j (omega arith)
        (omega arith) h
]

-- `init_idt` sets the gates 0 to 31 to the stubs of the exceptions and 32 to 47 to those of the
-- hardware, for addresses of 64 bits, and leaves the others alone.
pub init_idt-Calls :
    (isr_stub irq_stub : ℕ → ℕ) (base a1 a2 : ℕ) (m : Machine)
    → ((n : ℕ) → isr_stub n < two64)
    → ((n : ℕ) → irq_stub n < two64)
    → ((n : ℕ) → n < 32 → Calls (isr_stub n) ((init_idt isr_stub irq_stub base a1 a2 m).idt n))
      × ((n : ℕ)
          → n < 16
          → Calls (irq_stub n) ((init_idt isr_stub irq_stub base a1 a2 m).idt (32 + n)))
      × ((n : ℕ) → 48 ≤ n → (init_idt isr_stub irq_stub base a1 a2 m).idt n ≡ m.idt n)
unfolding init_idt
init_idt-Calls isr_stub irq_stub base a1 a2 m hs hq =
    let low = set_gates 32 0 isr_stub m.idt in
    let stub : ℕ → ℕ = λ n. irq_stub (n - 32) in
    (
      λ n lt.
          subst (Calls (isr_stub n)) (sym (set_gates-outside 16 32 stub low n (inl lt)))
            (set_gates-Calls 32 0 isr_stub m.idt n (omega arith) lt (hs n)),
      λ n lt.
          let back : 32 + n - 32 ≡ n = omega arith in
          subst (λ k. Calls (irq_stub k) (set_gates 16 32 stub low (32 + n))) back
            (set_gates-Calls 16 32 stub low (32 + n) (omega arith) (omega arith)
              (hq (32 + n - 32))),
      λ n le.
          set_gates-outside 16 32 stub low n (inr le)
          ∙ set_gates-outside 32 0 isr_stub m.idt n (inr (omega arith)),
    )
