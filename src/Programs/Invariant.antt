-- ===== src/Programs/Invariant.antt =====
-- `shell_func` keeps the state sound, whatever the line.
use pizda.Prelude.{ℕ, ◌≤◌, Option, some, none, List, IfSome}
use pizda.Programs.{Shell, touch, cat, mydir}
use pizda.Programs.Outside.{Outside}
use pizda.Programs.Calc.{Typing, line_of, calc}
use pizda.Programs.Listing.{ls}
use pizda.Programs.Command.{Command, parse_command}
use pizda.Programs.Dispatch.{
  Session, Outcome, with_shell, shell_only, shell_and_dir, typing_only, reset, help_texts, format,
  mkdir, cd, run_command, next_line, shell_func,
}
use pizda.Programs.SelfTest.{test_fs}
use pizda.Programs.Sound.{
  IsSound, IsSoundWith, IsSound-clamp_line, clamp_line-row, IsSound-show_texts, IsSound-finish,
  IsSound-message, touch-IsSound, cat-IsSound, mydir-IsSound,
}
use pizda.Programs.Sound.Screens.{
  IsSoundTyping, info-IsSound, fetch-IsSound, clear-IsSound, echo-IsSound, calc-IsSound,
  disk-IsSound,
}
use pizda.Programs.Sound.Volumes.{
  ls-IsSound, mkdir-IsSound, rmdir-IsSound, cd-IsSound, format-IsSound,
}
use pizda.Programs.Sound.SelfTest.{test_fs-IsSound}

-- The state between two commands.
abbrev pub IsSettled : Session → Type 0
IsSettled s = IsSound s.typing.shell × (s.typing.shell.current_line ≤ 24)

abbrev pub EndsSettled : Outcome → Type 0
EndsSettled (Outcome.returns s) = IsSettled s
EndsSettled (Outcome.hangs s) = IsSound s.typing.shell

module _ (s : Session) where
  shell_only-EndsSettled :
      (o : Option Shell) → IfSome IsSound o → IfSome EndsSettled (shell_only s o)
  shell_only-EndsSettled none h = tt
  shell_only-EndsSettled (some shell) h = (IsSound-clamp_line shell h, clamp_line-row shell)

  shell_and_dir-EndsSettled :
      (o : Option (Shell × List ℕ)) → IfSome IsSoundWith o → IfSome EndsSettled (shell_and_dir s o)
  shell_and_dir-EndsSettled none h = tt
  shell_and_dir-EndsSettled (some (shell, dir)) h =
      (IsSound-clamp_line shell h, clamp_line-row shell)

  typing_only-EndsSettled :
      (o : Option Typing) → IfSome IsSoundTyping o → IfSome EndsSettled (typing_only s o)
  typing_only-EndsSettled none h = tt
  typing_only-EndsSettled (some t) h = (IsSound-clamp_line t.shell h, clamp_line-row t.shell)

run_command-EndsSettled :
    (o : Outside) (keys : ℕ → List (ℕ × ℕ)) (line : List ℕ) (c : Command) (s : Session)
    → IsSound s.typing.shell
    → IfSome EndsSettled (run_command o keys line c s)
unfolding reset
run_command-EndsSettled o keys line Command.shutdown s v = v
run_command-EndsSettled o keys line Command.reboot s v =
    (IsSound-clamp_line s.typing.shell v, clamp_line-row s.typing.shell)
run_command-EndsSettled o keys line Command.mydir s v =
    shell_and_dir-EndsSettled s (mydir o.fuel s.dir s.typing.shell)
      (mydir-IsSound o.fuel s.dir s.typing.shell v)
run_command-EndsSettled o keys line Command.info s v =
    shell_only-EndsSettled s (some _) (info-IsSound o s.typing.shell v)
run_command-EndsSettled o keys line Command.clear s v =
    shell_only-EndsSettled s (some _) (clear-IsSound s.typing.shell v)
run_command-EndsSettled o keys line Command.help s v =
    shell_only-EndsSettled s (some _)
      (IsSound-finish _ (IsSound-show_texts 0x0A help_texts s.typing.shell v))
run_command-EndsSettled o keys line (Command.echo text) s v =
    shell_only-EndsSettled s (some _) (echo-IsSound text s.typing.shell v)
run_command-EndsSettled o keys line Command.calc s v =
    typing_only-EndsSettled s (calc o keys s.dir s.typing) (calc-IsSound o keys s.dir s.typing v)
run_command-EndsSettled o keys line Command.fetch s v =
    shell_only-EndsSettled s (some _) (fetch-IsSound s.typing.shell v)
run_command-EndsSettled o keys line Command.disk s v =
    shell_only-EndsSettled s (some _) (disk-IsSound o line s.typing.shell v)
run_command-EndsSettled o keys line Command.mkdir_usage s v =
    shell_only-EndsSettled s (some _) (IsSound-message _ 0x0C s.typing.shell v)
run_command-EndsSettled o keys line (Command.mkdir path) s v =
    shell_only-EndsSettled s (mkdir path s.typing.shell) (mkdir-IsSound path s.typing.shell v)
run_command-EndsSettled o keys line (Command.ls path) s v =
    shell_only-EndsSettled s (ls o path s.typing.shell) (ls-IsSound o path s.typing.shell v)
run_command-EndsSettled o keys line Command.cd_root s v =
    shell_and_dir-EndsSettled s (cd o.fuel _ _ _ s.dir s.typing.shell)
      (cd-IsSound o.fuel _ _ _ s.dir s.typing.shell v)
run_command-EndsSettled o keys line (Command.cd path) s v =
    shell_and_dir-EndsSettled s (cd o.fuel path _ _ s.dir s.typing.shell)
      (cd-IsSound o.fuel path _ _ s.dir s.typing.shell v)
run_command-EndsSettled o keys line Command.rmdir_usage s v =
    shell_only-EndsSettled s (some _) (IsSound-message _ 0x0C s.typing.shell v)
run_command-EndsSettled o keys line (Command.rmdir path) s v =
    shell_only-EndsSettled s (some _) (rmdir-IsSound path s.typing.shell v)
run_command-EndsSettled o keys line Command.touch s v =
    shell_only-EndsSettled s (touch o.kernel_end o.fuel line s.typing.shell)
      (touch-IsSound s.typing.shell v o.kernel_end o.fuel line)
run_command-EndsSettled o keys line Command.cat s v =
    shell_only-EndsSettled s (cat o.fuel o.stack line s.typing.shell)
      (cat-IsSound s.typing.shell v o.fuel o.stack line)
run_command-EndsSettled o keys line Command.format s v =
    shell_and_dir-EndsSettled s (format o.fuel s.dir s.typing.shell)
      (format-IsSound o.fuel s.dir s.typing.shell v)
run_command-EndsSettled o keys line Command.test_fs s v =
    shell_only-EndsSettled s (test_fs o s.typing.shell) (test_fs-IsSound o s.typing.shell v)
run_command-EndsSettled o keys line Command.unknown s v =
    shell_only-EndsSettled s (some _) (IsSound-message _ 0x0F s.typing.shell v)

-- Whatever the line is, a call of `shell_func` leaves the heap in one free block, so that no command
-- keeps memory, the volume as it was formatted or not mounted, and, where it returns, the row at 24 at
-- most, if the heap and the volume were so before.
pub shell_func-EndsSettled :
    (o : Outside) (keys : ℕ → List (ℕ × ℕ)) (s : Session)
    → IsSound s.typing.shell
    → IfSome EndsSettled (shell_func o keys s)
unfolding shell_func
shell_func-EndsSettled o keys s v =
    let line = line_of s.typing in
    run_command-EndsSettled o keys line (parse_command line)
      (with_shell s (next_line s.typing.shell)) v
