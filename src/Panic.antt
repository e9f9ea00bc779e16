-- ===== src/Panic.antt =====
-- The handler of the processor's exceptions: `kernel_panic` of src/kernel/panic.c, which
-- `isr_handler` of src/kernel/interrupts/handlers.c calls. It ends in a halt; what it leaves on the
-- screen and sends to the serial port are two functions of the saved registers.
pub mod Log
mod Examples
use pizda.Prelude.{
  ℕ, ◌%◌, ◌==◌, ltb, if◌then◌else◌, Option, none, some, get_elem?, two32, List, [], ◌∷◌, ◌++◌,
  codes,
}
use pizda.Screen.{Screen, clear_screen, print}
use pizda.Serial.{Arg, send, com1_printf}

-- registers_t
pub record SavedRegisters : Type 0 where
  pub r15 : ℕ
  pub r14 : ℕ
  pub r13 : ℕ
  pub r12 : ℕ
  pub r11 : ℕ
  pub r10 : ℕ
  pub r9 : ℕ
  pub r8 : ℕ
  pub rbp : ℕ
  pub rdi : ℕ
  pub rsi : ℕ
  pub rdx : ℕ
  pub rcx : ℕ
  pub rbx : ℕ
  pub rax : ℕ
  pub int_no : ℕ
  pub err_code : ℕ
  pub rip : ℕ
  pub cs : ℕ
  pub rflags : ℕ
  pub rsp : ℕ
  pub ss : ℕ

abbrev pub exception_messages : List (List ℕ)
exception_messages =
    codes "Division By Zero"
    ∷ codes "Debug"
    ∷ codes "Non Maskable Interrupt"
    ∷ codes "Breakpoint"
    ∷ codes "Into Detected Overflow"
    ∷ codes "Out of Bounds"
    ∷ codes "Invalid Opcode"
    ∷ codes "No Coprocessor"
    ∷ codes "Double Fault"
    ∷ codes "Coprocessor Segment Overrun"
    ∷ codes "Bad TSS"
    ∷ codes "Segment Not Present"
    ∷ codes "Stack Fault"
    ∷ codes "General Protection Fault"
    ∷ codes "Page Fault"
    ∷ codes "Unknown Interrupt"
    ∷ codes "Coprocessor Fault"
    ∷ codes "Alignment Check"
    ∷ codes "Machine Check"
    ∷ codes "SIMD Floating-Point"
    ∷ codes "Virtualization"
    ∷ codes "Control Protection"
    ∷ codes "Reserved"
    ∷ codes "Reserved"
    ∷ codes "Reserved"
    ∷ codes "Reserved"
    ∷ codes "Reserved"
    ∷ codes "Reserved"
    ∷ codes "Reserved"
    ∷ codes "Reserved"
    ∷ codes "Security"
    ∷ codes "Reserved"
    ∷ []

-- `exception_messages[int_no]`; `none` past the end of the table.
abbrev pub exception_message : ℕ → Option (List ℕ)
exception_message int_no = get_elem? exception_messages int_no

abbrev pub show_fault : SavedRegisters → Screen → Screen
show_fault r s = if r.int_no == 14 then print (codes "Page Fault at:") 4 0 0x0F s else s

abbrev pub show_cause : SavedRegisters → Screen → Option (List ℕ) → Option Screen
show_cause r headed none = none
show_cause r headed (some message) = some (show_fault r (print message 2 0 0x0F headed))

-- The screen when the processor halts; `none` where the table is read past its end.
unfoldable pub panic_screen : SavedRegisters → Screen → Option Screen
panic_screen r s =
    let headed = print (codes "!!! KERNEL PANIC !!!") 0 30 0x4F (clear_screen s) in
    show_cause r headed
      (if ltb r.int_no 32 then exception_message r.int_no else some (codes "Unexpected Interrupt"))

-- `"\n\r"`
abbrev pub line_end : List ℕ
line_end = 10 ∷ 13 ∷ []

-- A call whose format is the text and a line end.
unfoldable pub log_line : List ℕ → List Arg → Option (List ℕ)
log_line text args = com1_printf (text ++ line_end) args

abbrev pub log_known : Option (List ℕ) → Option (List ℕ)
log_known none = none
log_known (some message) = log_line (codes "              KERNEL PANIC: %s") (Arg.str message ∷ [])

unfoldable pub log_cause : SavedRegisters → Option (List ℕ)
log_cause r =
    let known = log_known (exception_message r.int_no) in
    let unknown = log_line (codes "              KERNEL PANIC: Unexpected Interrupt") [] in
    if ltb r.int_no 32 then known else unknown

-- `(int)` keeps the low 32 bits.
unfoldable pub log_registers : SavedRegisters → Option (List ℕ)
log_registers r =
    send
      (log_line (codes "Interrupt: %d (Error Code: %x)")
        (Arg.num (r.int_no % two32) ∷ Arg.num (r.err_code % two32) ∷ []))
      (send
        (log_line (codes "RIP: %p  CS: %x  RFLAGS: %p")
          (Arg.num r.rip ∷ Arg.num (r.cs % two32) ∷ Arg.num r.rflags ∷ []))
        (send (log_line (codes "RSP: %p  SS: %x") (Arg.num r.rsp ∷ Arg.num (r.ss % two32) ∷ [])) (
          send (log_line (line_end ++ codes "Registers:") []) (
            send
              (log_line (codes "RAX: %p  RBX: %p  RCX: %p")
                (Arg.num r.rax ∷ Arg.num r.rbx ∷ Arg.num r.rcx ∷ []))
              (send
                (log_line (codes "RDX: %p  RSI: %p  RDI: %p")
                  (Arg.num r.rdx ∷ Arg.num r.rsi ∷ Arg.num r.rdi ∷ []))
                (send
                  (log_line (codes "RBP: %p  R8:  %p  R9:  %p")
                    (Arg.num r.rbp ∷ Arg.num r.r8 ∷ Arg.num r.r9 ∷ []))
                  (send
                    (log_line (codes "R10: %p  R11: %p  R12: %p")
                      (Arg.num r.r10 ∷ Arg.num r.r11 ∷ Arg.num r.r12 ∷ []))
                    (log_line (codes "R13: %p  R14: %p  R15: %p")
                      (Arg.num r.r13 ∷ Arg.num r.r14 ∷ Arg.num r.r15 ∷ [])))))))))

abbrev pub banner : List ℕ
banner = codes "####################################################"

-- `cr2` is what the control register holds.
unfoldable pub log_fault : ℕ → SavedRegisters → Option (List ℕ)
log_fault cr2 r =
    let address = log_line (line_end ++ codes "Page Fault Address (CR2): %p") (Arg.num cr2 ∷ []) in
    if r.int_no == 14 then address else some []

-- What is sent up to the halt; `none` where the C of `com1_printf` is not defined.
unfoldable pub panic_log : ℕ → SavedRegisters → Option (List ℕ)
panic_log cr2 r = send (log_line (line_end ++ banner) []) (
    send (log_cause r) (
      send (log_line banner []) (
        send (log_registers r)
          (send (log_fault cr2 r) (log_line (line_end ++ codes "System Halted.") [])))))
