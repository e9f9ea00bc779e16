-- ===== src/Panic/Log.antt =====
-- What `kernel_panic` sends is defined for every exception.
use pizda.Prelude.{
  ℕ, zero, suc, ◌<◌, length, get_elem?, ◌-◌, ◌%◌, ◌^◌, ◌≡◌, refl, arith, Option, some, Bool, true,
  false, not, ◌&&◌, Bool-cases, inl, inr, ◌==◌, ltb, if◌then◌else◌, two32, two64, List, [], ◌∷◌,
  ◌++◌, codes,
}
use pizda.Serial.{Arg, send, write_num, write_signed, takes_num, com1_printf}
use pizda.Serial.Decimal.{com1_write_dec_lem}
use pizda.Screen.{Screen}
use pizda.Panic.{
  SavedRegisters, exception_messages, exception_message, panic_screen, line_end, log_line,
  log_cause, log_registers, banner, log_fault, panic_log,
}

-- There is a text.
abbrev pub IsSent : Option (List ℕ) → Type 0
IsSent o = (text : List ℕ) × (o ≡ some text)

send-IsSent : (first rest : Option (List ℕ)) → IsSent first → IsSent rest → IsSent (send first rest)
send-IsSent first rest (xs, e) (ys, f) = (xs ++ ys, rw (e, f) refl)

write_signed-IsSent : (value : ℕ) → IsSent (write_signed value)
unfolding write_signed
write_signed-IsSent value = elim (Bool-cases (ltb (value % two32) (2 ^ 31))) [
  | inl e ↦
      let (ds, run, _, _, _) = com1_write_dec_lem (value % two32) (omega arith) in rw e (ds, run)
  | inr e ↦
      let val = value % two32 in
      let negated = if val == 2 ^ 31 then two64 - 2 ^ 31 else two32 - val in
      let (ds, run, _, _, _) = com1_write_dec_lem negated (ground arith) in
      rw (e, run) (45 ∷ ds, refl)
]

letter-IsSent :
    (c d : ℕ) (format : List ℕ) (args : List Arg)
    → (c == 37) ≡ false
    → IsSent (com1_printf (d ∷ format) args)
    → IsSent (com1_printf (c ∷ d ∷ format) args)
letter-IsSent c d format args ne h =
    let next : com1_printf (c ∷ d ∷ format) args
        ≡ send (some (c ∷ [])) (com1_printf (d ∷ format) args) =
      unfold com1_printf in rw ne refl in
    rw next (send-IsSent (some (c ∷ [])) (com1_printf (d ∷ format) args) (c ∷ [], refl) h)

-- Letters in front of a format.
abbrev all_letters : List ℕ → Bool
all_letters [] = true
all_letters (c ∷ cs) = not (c == 37) && all_letters cs

letters-IsSent :
    (text : List ℕ) (d : ℕ) (format : List ℕ) (args : List Arg)
    → all_letters text ≡ true
    → IsSent (com1_printf (d ∷ format) args)
    → IsSent (com1_printf (text ++ d ∷ format) args)
letters-IsSent [] d format args e h = h
letters-IsSent (c ∷ []) d format args e h = letter-IsSent c d format args (ground arith) h
letters-IsSent (c ∷ c' ∷ cs) d format args e h =
    letter-IsSent c c' (cs ++ d ∷ format) args (ground arith)
      (letters-IsSent (c' ∷ cs) d format args (ground arith) h)

signed-IsSent :
    (value : ℕ) (format : List ℕ) (args : List Arg)
    → IsSent (com1_printf format args)
    → IsSent (com1_printf (37 ∷ 100 ∷ format) (Arg.num value ∷ args))
signed-IsSent value format args h =
    let next : com1_printf (37 ∷ 100 ∷ format) (Arg.num value ∷ args)
        ≡ send (write_signed value) (com1_printf format args) =
      unfold com1_printf takes_num write_num in refl in
    rw next
      (send-IsSent (write_signed value) (com1_printf format args) (write_signed-IsSent value) h)

get_elem?-some :
    {A : Type 0} (xs : List A) (i : ℕ) → i < length xs → (x : A) × (get_elem? xs i ≡ some x)
get_elem?-some [] i lt = absurd (omega arith)
get_elem?-some (x ∷ xs) zero lt = (x, refl)
get_elem?-some (x ∷ xs) (suc i) lt = get_elem?-some xs i (omega arith)

-- The table has a message for each of the processor's exceptions.
exception_message-some :
    (int_no : ℕ)
    → ltb int_no 32 ≡ true
    → (message : List ℕ) × (exception_message int_no ≡ some message)
exception_message-some int_no lt =
    let size : length exception_messages ≡ 32 = refl in
    get_elem?-some exception_messages int_no (ground arith)

module _ (r : SavedRegisters) where
  log_cause-IsSent : IsSent (log_cause r)
  unfolding log_cause log_line com1_printf takes_num
  log_cause-IsSent = elim (Bool-cases (ltb r.int_no 32)) [
    | inl e ↦ let (message, known) = exception_message-some r.int_no e in rw (e, known) (_, refl)
    | inr e ↦ rw e (_, refl)
  ]

  panic_screen-some : (s : Screen) → (s' : Screen) × (panic_screen r s ≡ some s')
  unfolding panic_screen
  panic_screen-some s = elim (Bool-cases (ltb r.int_no 32)) [
    | inl e ↦ let (message, known) = exception_message-some r.int_no e in rw (e, known) (_, refl)
    | inr e ↦ rw e (_, refl)
  ]

  interrupt : IsSent (
      log_line
        (codes "Interrupt: %d (Error Code: %x)")
        (Arg.num (r.int_no % two32) ∷ Arg.num (r.err_code % two32) ∷ []))
  unfolding log_line
  interrupt =
      letters-IsSent (codes "Interrupt: ") 37 (100 ∷ (codes " (Error Code: %x)" ++ line_end))
        (Arg.num (r.int_no % two32) ∷ Arg.num (r.err_code % two32) ∷ []) refl
        (signed-IsSent (r.int_no % two32) (codes " (Error Code: %x)" ++ line_end)
          (Arg.num (r.err_code % two32) ∷ []) (unfold com1_printf takes_num write_num in (_, refl)))

  log_registers-IsSent : IsSent (log_registers r)
  unfolding log_registers log_line com1_printf takes_num write_num
  log_registers-IsSent = send-IsSent _ _ interrupt (_, refl)

  log_fault-IsSent : (cr2 : ℕ) → IsSent (log_fault cr2 r)
  unfolding log_fault log_line com1_printf takes_num write_num
  log_fault-IsSent cr2 = elim (Bool-cases (r.int_no == 14)) [
    | inl e ↦ rw e (_, refl)
    | inr e ↦ rw e (_, refl)
  ]

  constant : IsSent (log_line banner [])
  unfolding log_line com1_printf takes_num
  constant = (_, refl)

  first : IsSent (log_line (line_end ++ banner) [])
  unfolding log_line com1_printf takes_num
  first = (_, refl)

  last : IsSent (log_line (line_end ++ codes "System Halted.") [])
  unfolding log_line com1_printf takes_num
  last = (_, refl)

  -- Whatever the registers hold, `kernel_panic` leaves a screen and sends a text, and so reaches its
  -- halt: neither reads the table of messages past its end, and each format of `com1_printf` gets
  -- arguments of the kinds that it takes.
  pub panic_log-IsSent :
      (cr2 : ℕ) (s : Screen)
      → IsSent (panic_log cr2 r) × ((s' : Screen) × (panic_screen r s ≡ some s'))
  unfolding panic_log
  panic_log-IsSent cr2 s = (
    send-IsSent (log_line (line_end ++ banner) []) _ first (
        send-IsSent (log_cause r) _ log_cause-IsSent (
          send-IsSent (log_line banner []) _ constant (
            send-IsSent (log_registers r) _ log_registers-IsSent
              (send-IsSent (log_fault cr2 r) _ (log_fault-IsSent cr2) last)))),
    panic_screen-some s,
  )
