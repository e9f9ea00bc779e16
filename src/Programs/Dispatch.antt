-- ===== src/Programs/Dispatch.antt =====
-- The shell, `shell_func` of src/kernel/bin/shell.c: what each command does
-- to the state that `kmain` keeps.
use pizda.Prelude.{ℕ, ◌+◌, Option, none, some, bind, Bool, true, false, List, [], ◌∷◌, ◌++◌, codes}
use pizda.Screen.{print, clear_screen}
use pizda.ChainFs.{ChainFs}
use pizda.ChainFs.Volume.{chainfs_init, chainfs_format}
use pizda.ChainFs.Paths.{slash, chainfs_mkdir, chainfs_chdir, chainfs_rmdir}
use pizda.ChainFs.Paths.Current.{chainfs_get_current_path}
use pizda.Programs.{Shell, show_line, clamp_line, finish, touch, cat, mydir}
use pizda.Programs.Command.{Command, parse_command}
use pizda.Programs.Info.{info, show_texts, fetch}
use pizda.Programs.Calc.{Typing, line_of, calc}
use pizda.Programs.Disk.{disk}
use pizda.Programs.Listing.{finished, ls}
use pizda.Programs.SelfTest.{said, test_fs}
use pizda.Programs.Outside.{Outside}

-- What `kmain` keeps from command to command: the string `dir`, and the writes to the keyboard
-- controller that reset the machine.
pub record Session : Type 0 where
  pub typing : Typing
  pub dir : List ℕ
  pub ports : List (ℕ × ℕ)

abbrev pub with_shell : Session → Shell → Session
with_shell s shell = record s { typing = record (s.typing) { shell = shell } }

-- A command returns, or it never does.
pub data Outcome : Type 0 where
  returns : Session → Outcome
  hangs : Session → Outcome

-- The end of a command that leaves `dir` alone.
abbrev pub shell_only : Session → Option Shell → Option Outcome
shell_only s none = none
shell_only s (some shell) = some (Outcome.returns (with_shell s (clamp_line shell)))

abbrev pub shell_and_dir : Session → Option (Shell × List ℕ) → Option Outcome
shell_and_dir s none = none
shell_and_dir s (some (shell, dir)) =
    some (Outcome.returns (record (with_shell s (clamp_line shell)) { dir = dir }))

abbrev pub typing_only : Session → Option Typing → Option Outcome
typing_only s none = none
typing_only s (some t) =
    some (Outcome.returns (record s { typing = record t { shell = clamp_line t.shell } }))

-- `outb(0x64, 0xFE)`
unfoldable pub reset : Session → Session
reset s = record s { ports = s.ports ++ (0x64, 0xFE) ∷ [] }

unfoldable pub clear : Shell → Shell
clear s = finish (record s { screen = clear_screen s.screen; current_line = 1 })

abbrev pub help_texts : List (List ℕ)
help_texts =
    codes "Commands: shutdown, reboot, clear, echo, mydir, help, calc, info,"
    ∷ codes "          test_fs, mkdir, ls, cd, rmdir, touch, cat, format, disk"
    ∷ []

unfoldable pub echo : List ℕ → Shell → Shell
echo text s = finish (record s {
  screen = print text s.current_line 2 0x0F s.screen;
  current_line = s.current_line + 1;
})

-- `dir` after `chainfs_get_current_path(dir, 256)`, whose result is not looked at.
abbrev pub dir_after : List ℕ → Option (List ℕ) → List ℕ
dir_after dir none = dir
dir_after dir (some path) = path

abbrev pub located : List ℕ → Shell → Option (ChainFs × Option (List ℕ)) → Option (Shell × List ℕ)
located dir s none = none
located dir s (some (fs, path)) = some (record s { fs = fs }, dir_after dir path)

-- With what `chainfs_chdir` gives; the state before the messages.
abbrev pub changed : ℕ → List ℕ → List ℕ → List ℕ → Shell → ChainFs × Bool → Option (Shell × List ℕ)
changed fuel done failed dir s (fs, false) =
    some (finish (show_line failed 0x0C (record s { fs = fs })), dir)
changed fuel done failed dir s (fs, true) =
    bind (located dir (record s { fs = fs }) (chainfs_get_current_path fuel 256 fs))
      (λ r. some (finish (show_line done 0x0A r.0), r.1))

-- With what `chainfs_format` gives.
abbrev pub reformatted : ℕ → List ℕ → Shell → ChainFs × Bool → Option (Shell × List ℕ)
reformatted fuel dir s (fs, false) =
    some (finish (show_line (codes "format failed") 0x0C (record s { fs = fs })), dir)
reformatted fuel dir s (fs, true) =
    bind (located dir (record s { fs = fs }) (chainfs_get_current_path fuel 256 fs))
      (λ r. some (finish r.0, r.1))

unfoldable pub format : ℕ → List ℕ → Shell → Option (Shell × List ℕ)
format fuel dir s = reformatted fuel dir s (chainfs_format 20480 100 (chainfs_init s.fs).0)

unfoldable pub mkdir : List ℕ → Shell → Option Shell
mkdir path s =
    bind (chainfs_mkdir path s.fs)
      (λ r. finished (said (codes "Directory created") (codes "Failed to create directory") s r))

unfoldable pub rmdir : List ℕ → Shell → Shell
rmdir path s = finish (
    said (codes "Directory removed") (codes "Failed to remove directory") s
      (chainfs_rmdir path s.fs))

unfoldable pub cd : ℕ → List ℕ → List ℕ → List ℕ → List ℕ → Shell → Option (Shell × List ℕ)
cd fuel path done failed dir s = changed fuel done failed dir s (chainfs_chdir path s.fs)

-- `keys` is what the keyboard gives to the calls of `scanf` in `calc`, and `line` is the string in
-- `s_buf`.
abbrev pub run_command : Outside → (ℕ → List (ℕ × ℕ)) → List ℕ → Command → Session → Option Outcome
run_command o keys line Command.shutdown s = some (Outcome.hangs (reset s))
run_command o keys line Command.reboot s =
    some (Outcome.returns (with_shell (reset s) (clamp_line s.typing.shell)))
run_command o keys line Command.mydir s = shell_and_dir s (mydir o.fuel s.dir s.typing.shell)
run_command o keys line Command.info s = shell_only s (some (info o s.typing.shell))
run_command o keys line Command.clear s = shell_only s (some (clear s.typing.shell))
run_command o keys line Command.help s =
    shell_only s (finished (show_texts 0x0A help_texts s.typing.shell))
run_command o keys line (Command.echo text) s = shell_only s (some (echo text s.typing.shell))
run_command o keys line Command.calc s = typing_only s (calc o keys s.dir s.typing)
run_command o keys line Command.fetch s = shell_only s (some (fetch s.typing.shell))
run_command o keys line Command.disk s = shell_only s (some (disk o line s.typing.shell))
run_command o keys line Command.mkdir_usage s =
    shell_only s (finished (show_line (codes "Usage: mkdir <directory_name>") 0x0C s.typing.shell))
run_command o keys line (Command.mkdir path) s = shell_only s (mkdir path s.typing.shell)
run_command o keys line (Command.ls path) s = shell_only s (ls o path s.typing.shell)
run_command o keys line Command.cd_root s = shell_and_dir s (
    cd o.fuel (slash ∷ []) (codes "Changed to root directory")
      (codes "Failed to change to root directory") s.dir s.typing.shell)
run_command o keys line (Command.cd path) s = shell_and_dir s (
    cd o.fuel path (codes "Changed directory") (codes "Failed to change directory") s.dir
      s.typing.shell)
run_command o keys line Command.rmdir_usage s =
    shell_only s (finished (show_line (codes "Usage: rmdir <directory_name>") 0x0C s.typing.shell))
run_command o keys line (Command.rmdir path) s = shell_only s (some (rmdir path s.typing.shell))
run_command o keys line Command.touch s =
    shell_only s (touch o.kernel_end o.fuel line s.typing.shell)
run_command o keys line Command.cat s = shell_only s (cat o.fuel o.stack line s.typing.shell)
run_command o keys line Command.format s = shell_and_dir s (format o.fuel s.dir s.typing.shell)
run_command o keys line Command.test_fs s = shell_only s (test_fs o s.typing.shell)
run_command o keys line Command.unknown s =
    shell_only s (finished (show_line (codes "Unknown command") 0x0F s.typing.shell))

-- `(*current_line)++`
abbrev pub next_line : Shell → Shell
next_line s = record s { current_line = s.current_line + 1 }

-- `none` says that the fuel ran out, that a buffer is overrun, that a division traps, or that the
-- keyboard gives no whole line.
unfoldable pub shell_func : Outside → (ℕ → List (ℕ × ℕ)) → Session → Option Outcome
shell_func o keys s =
    let line = line_of s.typing in
    run_command o keys line (parse_command line) (with_shell s (next_line s.typing.shell))
