-- ===== src/Kernel/Lines.antt =====
-- What a round of the loop does with a line that is typed.
use pizda.Prelude.{
  ℕ, zero, suc, ◌+◌, ◌≤◌, ◌<◌, ◌≡◌, ◌≢◌, refl, arith, Option, none, some, List, [], ◌∷◌, length,
  get_or, All,
}
use mathlib.Core.Path.{subst}
use pizda.Keyboard.{Input, scanf}
use pizda.Keyboard.Line.{rev_onto, Enters}
use pizda.Keyboard.Edits.{Typed, Agrees, scanf-edit_line}
use pizda.Programs.{string_of}
use pizda.Programs.Lines.{string_of-line}
use pizda.Programs.Outside.{Outside}
use pizda.Programs.Calc.{input_of, typed}
use pizda.Programs.Command.{parse_command}
use pizda.Programs.Dispatch.{Session, with_shell, run_command, next_line, shell_func}
use pizda.Kernel.{bounded_some, main_round}

Typed-rev_onto :
    (b : ℕ → ℕ) (line later : List ℕ)
    → Typed b line
    → ((j : ℕ) → j ≤ length later → b (length line + j) ≡ get_or later j 0)
    → (j : ℕ) → j ≤ length (rev_onto line later)
    → b j ≡ get_or (rev_onto line later) j 0
Typed-rev_onto b [] later h same j le =
    let same_place : 0 + j ≡ j = omega arith in
    subst (λ x. b x ≡ get_or later j 0) same_place (same j le)
Typed-rev_onto b (c ∷ cs) later (e, h) same j le = Typed-rev_onto b cs (c ∷ later) h at_end j le
  where
    at_end : (k : ℕ) → k ≤ suc (length later) → b (length cs + k) ≡ get_or (c ∷ later) k 0
    at_end zero lt = subst (λ x. b x ≡ c) (omega arith) e
    at_end (suc k) lt =
        let next : suc (length cs) + k ≡ length cs + suc k = omega arith in
        subst (λ x. b x ≡ get_or later k 0) next (same k (omega arith))

-- The string that an agreeing `scanf` leaves.
Agrees-line :
    (b : ℕ → ℕ) (last_first line : List ℕ) (o : Option Input)
    → rev_onto last_first [] ≡ line
    → All (λ c. c ≢ 0) line
    → length line < 2048
    → Agrees 2048 b (some last_first) o
    → (input : Input) × (o ≡ some input) × (string_of 2048 input.buffer ≡ line)
Agrees-line b last_first line none e clean short a = absurd a
Agrees-line b last_first line (some t) e clean short (sync, ended) = (
  t,
  refl,
  string_of-line 2048 line t.buffer clean short (
      subst (λ (l : List ℕ). (j : ℕ) → j ≤ length l → t.buffer j ≡ get_or l j 0) e
        (Typed-rev_onto t.buffer last_first [] (sync.typed)
          (λ j le. subst (λ x. t.buffer x ≡ 0) (omega arith) ended))),
)

-- The state in which `shell_func` runs the command.
abbrev pub called : Session → Input → Session
called s input =
    with_shell (record s { typing = typed s.typing input })
      (next_line (record (s.typing.shell) { screen = input.screen }))

pub main_round-line :
    (o : Outside) (keys : ℕ → List (ℕ × ℕ)) (s : Session) (line : List ℕ)
    → Enters (keys 0) line
    → All (λ c. c ≢ 0) line
    → length line < 2048
    → (input : Input) × (scanf 2048 s.typing.shell.current_line 2 0x0F (keys 0) (input_of s.typing)
        ≡ some input)
      × (main_round o keys s
          ≡ bounded_some
              (run_command o (λ i. keys (suc i)) line (parse_command line) (called s input)))
unfolding main_round shell_func
main_round-line o keys s line entered clean short =
    let row = s.typing.shell.current_line in
    let start = input_of s.typing in
    let (last_first, edits, turned) = entered s.typing.shift in
    let agrees =
      subst (λ l. Agrees 2048 start.buffer l (scanf 2048 row 2 0x0F (keys 0) start)) edits
        (scanf-edit_line 2048 row 2 0x0F (keys 0) start (omega arith)) in
    let (input, got, held) =
      Agrees-line start.buffer last_first line (scanf 2048 row 2 0x0F (keys 0) start) turned clean
        short agrees in
    (input, got, rw (got, held) refl)
