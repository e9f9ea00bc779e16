-- ===== src/Programs/Command.antt =====
-- How `shell_func` of src/kernel/bin/shell.c reads a line: its tests, in their order.
use pizda.Prelude.{ℕ, suc, ◌||◌, if◌then◌else◌, Bool, length, drop, List, [], ◌∷◌, ◌++◌, codes}
use pizda.Mlibc.{chars, strcmp, is_zero}
use pizda.Programs.{starts_with}

-- What is left of the line for a command is its argument.
pub data Command : Type 0 where
  shutdown : Command
  reboot : Command
  mydir : Command
  info : Command
  clear : Command
  help : Command
  echo : List ℕ → Command
  calc : Command
  fetch : Command
  disk : Command
  mkdir_usage : Command
  mkdir : List ℕ → Command
  ls : List ℕ → Command
  cd_root : Command
  cd : List ℕ → Command
  rmdir_usage : Command
  rmdir : List ℕ → Command
  touch : Command
  cat : Command
  format : Command
  test_fs : Command
  unknown : Command

-- `strcmp(s_buf, word) == 0`
unfoldable pub is_word : List ℕ → List ℕ → Bool
is_word word line = is_zero (strcmp (suc (length word)) (chars line) (chars word))

-- The word, and behind it a space or the end of the line.
abbrev pub is_call : List ℕ → List ℕ → Bool
is_call word line = starts_with (word ++ 32 ∷ []) line || is_word word line

unfoldable pub parse_command : List ℕ → Command
parse_command line =
    if is_word (codes "shutdown") line
    then Command.shutdown
    else if is_word (codes "reboot") line
    then Command.reboot
    else if is_word (codes "mydir") line
    then Command.mydir
    else if is_word (codes "info") line
    then Command.info
    else if is_word (codes "clear") line
    then Command.clear
    else if is_word (codes "help") line
    then Command.help
    else if starts_with (codes "echo ") line
    then Command.echo (drop 5 line)
    else if is_word (codes "calc") line
    then Command.calc
    else if is_word (codes "fetch") line
    then Command.fetch
    else if is_word (codes "disk") line || starts_with (codes "disk ") line
    then Command.disk
    else if is_word (codes "mkdir") line
    then Command.mkdir_usage
    else if starts_with (codes "mkdir ") line
    then Command.mkdir (drop 6 line)
    else if is_word (codes "ls") line
    then Command.ls []
    else if starts_with (codes "ls ") line
    then Command.ls (drop 3 line)
    else if is_word (codes "cd") line
    then Command.cd_root
    else if starts_with (codes "cd ") line
    then Command.cd (drop 3 line)
    else if is_word (codes "rmdir") line
    then Command.rmdir_usage
    else if starts_with (codes "rmdir ") line
    then Command.rmdir (drop 6 line)
    else if is_call (codes "touch") line
    then Command.touch
    else if is_call (codes "cat") line
    then Command.cat
    else if is_word (codes "format") line
    then Command.format
    else if is_word (codes "test_fs") line
    then Command.test_fs
    else Command.unknown
