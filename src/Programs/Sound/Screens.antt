-- ===== src/Programs/Sound/Screens.antt =====
-- The commands that do not call the file system keep the state sound: info, fetch, clear, echo, calc
-- and disk.
use pizda.Prelude.{
  ℕ, ◌-◌, Option-cases, Bool-cases, inl, inr, ◌==◌, List, ◌++◌, codes, IfSome, IfSome-bind, drop,
}
use pizda.Mlibc.{atoi}
use pizda.Keyboard.{scanf}
use pizda.ChainFs.{chainfs_magic}
use pizda.ChainFs.Volume.{get_superblock}
use pizda.Pata.{pata_read_sector}
use pizda.Programs.{Shell, show_line, starts_with}
use pizda.Programs.Outside.{Outside}
use pizda.Programs.Info.{info, fetch, picture}
use pizda.Programs.Calc.{
  Typing, Answer, ask, show_question, input_of, calculate, show_answer, show_directory,
  operation_of, line_of, give_answer, ask_operation, ask_second, calc,
}
use pizda.Programs.Disk.{
  show_labelled, disk_info, disk_clear, disk_usage, dump_lines, disk_dump, disk_help, disk_command,
  disk,
}
use pizda.Programs.Sound.{
  IsSound, IsSound-show_line, IsSound-clamp_line, IsSound-finish, IsSound-show_texts,
  IsSound-message,
}
use pizda.Programs.Dispatch.{clear, echo}

pub info-IsSound : (o : Outside) (s : Shell) → IsSound s → IsSound (info o s)
unfolding info
info-IsSound o s v = IsSound-message _ 0x0F (show_line _ 0x0F s) (IsSound-show_line _ 0x0F s v)

pub fetch-IsSound : (s : Shell) → IsSound s → IsSound (fetch s)
unfolding fetch
fetch-IsSound s v = IsSound-show_texts 0x0A picture s v

pub clear-IsSound : (s : Shell) → IsSound s → IsSound (clear s)
unfolding clear
clear-IsSound s v = IsSound-finish _ v

pub echo-IsSound : (text : List ℕ) (s : Shell) → IsSound s → IsSound (echo text s)
unfolding echo
echo-IsSound text s v = IsSound-finish _ v

abbrev pub IsSoundTyping : Typing → Type 0
IsSoundTyping t = IsSound t.shell

ask-IsSound :
    (question : List ℕ) (col : ℕ) (keys : List (ℕ × ℕ)) (t : Typing)
    → IsSound t.shell
    → IfSome IsSoundTyping (ask question col keys t)
unfolding ask show_question
ask-IsSound question col keys t v =
    let asked = record t { shell = show_question question t.shell } in
    let answer = scanf 2048 (asked.shell.current_line - 1) col 0x0F keys (input_of asked) in
    elim (Option-cases answer) [ inl e ↦ rw e tt | inr (input, e) ↦ rw e v ]

show_answer-IsSound :
    (o : Outside) (answer : Answer) (s : Shell) → IsSound s → IsSound (show_answer o answer s)
show_answer-IsSound o Answer.nothing s v = v
show_answer-IsSound o (Answer.number n) s v = IsSound-show_line _ 0x0F s v
show_answer-IsSound o Answer.div_by_zero s v = IsSound-show_line _ 0x0C s v

show_directory-IsSound : (dir : List ℕ) (s : Shell) → IsSound s → IsSound (show_directory dir s)
unfolding show_directory
show_directory-IsSound dir s v = IsSound-clamp_line _ v

give_answer-IsSound :
    (o : Outside) (dir : List ℕ) (first second : ℕ) (t : Typing)
    → IsSound t.shell
    → IfSome IsSoundTyping (give_answer o dir first second t)
unfolding give_answer
give_answer-IsSound o dir first second t v =
    elim (Option-cases (calculate (operation_of t) first second)) [
      | inl e ↦ rw e tt
      | inr (answer, e) ↦ rw e (
          show_directory-IsSound dir (show_answer o answer t.shell)
            (show_answer-IsSound o answer t.shell v))
    ]

ask_operation-IsSound :
    (o : Outside) (keys : List (ℕ × ℕ)) (dir : List ℕ) (first : ℕ) (t : Typing)
    → IsSound t.shell
    → IfSome IsSoundTyping (ask_operation o keys dir first t)
unfolding ask_operation
ask_operation-IsSound o keys dir first t v =
    IfSome-bind IsSoundTyping (ask (codes "operation: ") 13 keys t)
      (give_answer o dir first (atoi (line_of t))) (ask-IsSound (codes "operation: ") 13 keys t v)
      (give_answer-IsSound o dir first (atoi (line_of t)))

ask_second-IsSound :
    (o : Outside) (keys : ℕ → List (ℕ × ℕ)) (dir : List ℕ) (t : Typing)
    → IsSound t.shell
    → IfSome IsSoundTyping (ask_second o keys dir t)
unfolding ask_second
ask_second-IsSound o keys dir t v =
    let question = codes "second number: " in
    IfSome-bind IsSoundTyping (ask question 17 (keys 1) t)
      (ask_operation o (keys 2) dir (atoi (line_of t))) (ask-IsSound question 17 (keys 1) t v)
      (ask_operation-IsSound o (keys 2) dir (atoi (line_of t)))

pub calc-IsSound :
    (o : Outside) (keys : ℕ → List (ℕ × ℕ)) (dir : List ℕ) (t : Typing)
    → IsSound t.shell
    → IfSome IsSoundTyping (calc o keys dir t)
unfolding calc
calc-IsSound o keys dir t v =
    let question = codes "first number: " in
    IfSome-bind IsSoundTyping (ask question 16 (keys 0) t) (ask_second o keys dir)
      (ask-IsSound question 16 (keys 0) t v) (ask_second-IsSound o keys dir)

-- The five branches.
disk_command-IsSound :
    (o : Outside) (line : List ℕ) (s : Shell) → IsSound s → IsSound (disk_command o line s)
unfolding disk_command disk_info disk_clear disk_usage disk_dump show_labelled show_line
disk_command-IsSound o line s v = elim (Bool-cases (starts_with (codes "disk info") line)) [
  | inl e ↦ rw e v
  | inr ni ↦ rw ni (elim (Bool-cases (starts_with (codes "disk clear ") line)) [
    | inl e ↦ rw e v
    | inr nc ↦ rw nc (elim (Bool-cases (starts_with (codes "disk usage") line)) [
      | inl e ↦
          let sb = get_superblock (pata_read_sector 0 s.fs.disk) in
          rw e (elim (Bool-cases (sb.magic == chainfs_magic)) [ inl m ↦ rw m v | inr m ↦ rw m v ])
      | inr nu ↦ rw nu (elim (Bool-cases (starts_with (codes "disk dump ") line)) [
        | inl e ↦ rw e (
            let lba = atoi (drop 10 line) in
            IsSound-show_texts 0x0F (dump_lines o 16 0 (pata_read_sector lba s.fs.disk))
              (show_line (codes "dump" ++ o.itoa lba 10) 0x0E s) v)
        | inr nd ↦ rw nd (IsSound-show_texts 0x0C disk_help s v)
      ])
    ])
  ])
]

pub disk-IsSound : (o : Outside) (line : List ℕ) (s : Shell) → IsSound s → IsSound (disk o line s)
unfolding disk
disk-IsSound o line s v = elim (Bool-cases (starts_with (codes "disk") line)) [
  | inl e ↦ rw e (IsSound-clamp_line (disk_command o line s) (disk_command-IsSound o line s v))
  | inr e ↦ rw e (IsSound-clamp_line s v)
]
