-- ===== src/Programs/Calc.antt =====
-- The calculator, src/kernel/bin/calc.c. An `int` is the pattern of its 32 bits.
use pizda.Prelude.{
  ℕ, ◌+◌, ◌-◌, ◌*◌, ◌/◌, ◌%◌, ◌^◌, ◌==◌, ltb, not, ◌&&◌, if◌then◌else◌, two32, add32, sub32, Option,
  none, some, bind, Bool, List, [], ◌∷◌, codes,
}
use pizda.Screen.{print}
use pizda.Keyboard.{Input, prompt, scanf}
use pizda.Mlibc.{atoi}
use pizda.Programs.{Shell, show_line, clamp_line, string_of}
use pizda.Programs.Outside.{Outside}

-- `shift_pressed`, `s_buf` and what a program works on.
pub record Typing : Type 0 where
  pub shell : Shell
  pub shift : Bool
  pub s_buf : ℕ → ℕ

-- The string in `s_buf`.
abbrev pub line_of : Typing → List ℕ
line_of t = string_of 2048 t.s_buf

-- The state after a call of `scanf` with `s_buf`.
abbrev pub typed : Typing → Input → Typing
typed t input = record {
  shell = record (t.shell) { screen = input.screen };
  shift = input.shift;
  s_buf = input.buffer;
}

abbrev pub input_of : Typing → Input
input_of t = record { shift = t.shift; screen = t.shell.screen; buffer = t.s_buf; i = 0 }

-- `print("/>", *current_line, ...)` and the question in the same row.
unfoldable pub show_question : List ℕ → Shell → Shell
show_question question s = record s {
  screen = print question s.current_line 2 0x0F (print prompt s.current_line 0 0x0F s.screen);
  current_line = s.current_line + 1;
}

-- A question and the answer typed behind it, from the column `col` on; `keys` is what the keyboard's
-- ports give, and `none` says that they give no whole line.
unfoldable pub ask : List ℕ → ℕ → List (ℕ × ℕ) → Typing → Option Typing
ask question col keys t =
    let asked = record t { shell = show_question question t.shell } in
    bind (scanf 2048 (asked.shell.current_line - 1) col 0x0F keys (input_of asked))
      (λ input. some (typed asked input))

-- The absolute value of an `int`.
unfoldable pub magnitude : ℕ → ℕ
magnitude x = if ltb x (2 ^ 31) then x else sub32 0 x

-- `first / second`, towards zero; `none` where the quotient is no `int`: -2^31 / -1.
unfoldable pub divide : ℕ → ℕ → Option ℕ
divide first second =
    let quotient = magnitude first / magnitude second in
    if ltb first (2 ^ 31) && ltb second (2 ^ 31)
    then some quotient
    else if ltb first (2 ^ 31)
    then some (sub32 0 quotient)
    else if ltb second (2 ^ 31)
    then some (sub32 0 quotient)
    else if quotient == 2 ^ 31
    then none
    else some quotient

-- What the operation shows: nothing for another one, and a number or the error.
pub data Answer : Type 0 where
  nothing : Answer
  number : ℕ → Answer
  div_by_zero : Answer

abbrev pub number_of : Option ℕ → Option Answer
number_of none = none
number_of (some n) = some (Answer.number n)

unfoldable pub calculate : ℕ → ℕ → ℕ → Option Answer
calculate operation first second =
    if operation == 43
    then some (Answer.number (add32 first second))
    else if operation == 45
    then some (Answer.number (sub32 first second))
    else if operation == 42
    then some (Answer.number (first * second % two32))
    else if operation == 47
    then (if not (second == 0) then number_of (divide first second) else some Answer.div_by_zero)
    else some Answer.nothing

abbrev pub show_answer : Outside → Answer → Shell → Shell
show_answer o Answer.nothing s = s
show_answer o (Answer.number n) s = show_line (o.itoa n 10) 0x0F s
show_answer o Answer.div_by_zero s = show_line (codes "Error: Div by zero") 0x0C s

-- `print(dir, ...)`, `print(">", ...)` and the bound on the row.
unfoldable pub show_directory : List ℕ → Shell → Shell
show_directory dir s = clamp_line (record s {
  screen = print (62 ∷ []) s.current_line 1 0x0F (print dir s.current_line 0 0x0F s.screen);
})

-- `s_buf[0]`
abbrev pub operation_of : Typing → ℕ
operation_of t = t.s_buf 0

-- From the third answer on.
unfoldable pub give_answer : Outside → List ℕ → ℕ → ℕ → Typing → Option Typing
give_answer o dir first second t =
    bind (calculate (operation_of t) first second)
      (λ answer. some (record t { shell = show_directory dir (show_answer o answer t.shell) }))

-- From the second answer on.
unfoldable pub ask_operation : Outside → List (ℕ × ℕ) → List ℕ → ℕ → Typing → Option Typing
ask_operation o keys dir first t =
    bind (ask (codes "operation: ") 13 keys t) (give_answer o dir first (atoi (line_of t)))

-- From the first answer on.
unfoldable pub ask_second : Outside → (ℕ → List (ℕ × ℕ)) → List ℕ → Typing → Option Typing
ask_second o keys dir t =
    bind (ask (codes "second number: ") 17 (keys 1) t)
      (ask_operation o (keys 2) dir (atoi (line_of t)))

-- The three calls of `scanf` get the keys of `keys 0`, `keys 1` and `keys 2`.
unfoldable pub calc : Outside → (ℕ → List (ℕ × ℕ)) → List ℕ → Typing → Option Typing
calc o keys dir t = bind (ask (codes "first number: ") 16 (keys 0) t) (ask_second o keys dir)
