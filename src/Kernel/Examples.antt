-- ===== src/Kernel/Examples.antt =====
-- The theorems on the loop of `kmain` for keys typed after the start.
use pizda.Prelude.{ℕ, ◌+◌, ◌%◌, ◌≡◌, ◌≤◌, refl, arith, some, List, [], ◌∷◌, ◌++◌, codes}
use pizda.Pata.{Disk}
use pizda.Heap.State.{IsHeap, whole}
use pizda.Screen.{Screen}
use pizda.Keyboard.{Input, character, scanf}
use pizda.Keyboard.Line.{plain_key, key_of, edit_line, Enters}
use pizda.ChainFs.{chainfs_magic}
use pizda.ChainFs.Map.{IsMounted}
use pizda.ChainFs.Files.Samples.{kernel_end, zeroed}
use pizda.Programs.{touch_word, content_flag, cat_word}
use pizda.Programs.Outside.{Outside}
use pizda.Programs.Calc.{input_of}
use pizda.Programs.Dispatch.{Session, Outcome}
use pizda.Programs.Sound.{standard}
use pizda.Kernel.{start, main_round, Reaches}
use pizda.Kernel.Reach.{start-IsSettled, reaches-Kept}
use pizda.Kernel.RoundTrip.{shown, main_round-format, cat-touch-format}

abbrev machine : Outside
machine = record {
  itoa = λ value base. (48 + value % base) ∷ [];
  cpuid = λ leaf. record { eax = 0; ebx = 0x756E6547; ecx = 0x6C65746E; edx = 0x49656E69 };
  identify_data = λ j. 0;
  kernel_end = kernel_end;
  fuel = 5;
  stack = λ j. 0;
}

-- The releases of shift and enter stand around the scancodes.
abbrev pressed : List ℕ → List (ℕ × ℕ)
pressed [] = (1, 0x1C) ∷ []
pressed (c ∷ cs) = (1, c) ∷ pressed cs

abbrev keys : List ℕ → ℕ → List (ℕ × ℕ)
keys scancodes i = pressed (0xAA ∷ scancodes)

abbrev format_keys : List ℕ
format_keys = 0x21 ∷ 0x18 ∷ 0x13 ∷ 0x32 ∷ 0x1E ∷ 0x14 ∷ []

-- touch a -C hi
abbrev touch_keys : List ℕ
touch_keys =
    0x14 ∷ 0x18 ∷ 0x16 ∷ 0x2E ∷ 0x23 ∷ 0x39 ∷ 0x1E ∷ 0x39 ∷ 0x0C ∷ 0x2A ∷ 0x2E ∷ 0xAA ∷ 0x39 ∷ 0x23
    ∷ 0x17 ∷ []

-- cat a
abbrev cat_keys : List ℕ
cat_keys = 0x2E ∷ 0x1E ∷ 0x14 ∷ 0x39 ∷ 0x1E ∷ []

format_keys-Enters : Enters (keys format_keys 0) (codes "format")
unfolding edit_line key_of plain_key character
format_keys-Enters held = (_, refl, refl)

touch_keys-Enters :
    Enters (keys touch_keys 0) (touch_word ++ (97 ∷ []) ++ content_flag ++ 104 ∷ 105 ∷ [])
unfolding edit_line key_of plain_key character
touch_keys-Enters held = (_, refl, refl)

cat_keys-Enters : Enters (keys cat_keys 0) (cat_word ++ 97 ∷ [])
unfolding edit_line key_of plain_key character
cat_keys-Enters held = (_, refl, refl)

abbrev disk : Disk
disk k j = k + j

abbrev screen : Screen
screen = record { video = λ j. 0; terminal_row = 0; ports = [] }

abbrev first : Session
first = start machine zeroed disk screen

cat-touch-format_example :
    (s1 s2 s3 : Session) × (input : Input) × (main_round machine (keys format_keys) first
      ≡ some (Outcome.returns s1))
    × (main_round machine (keys touch_keys) s1 ≡ some (Outcome.returns s2))
    × (scanf 2048 s2.typing.shell.current_line 2 0x0F (keys cat_keys 0) (input_of s2.typing)
        ≡ some input)
    × (main_round machine (keys cat_keys) s2 ≡ some (Outcome.returns s3))
    × (s3.typing.shell.screen ≡ shown (104 ∷ 105 ∷ []) s2 input)
cat-touch-format_example =
    cat-touch-format machine zeroed disk screen first (keys format_keys) (keys touch_keys)
      (keys cat_keys) (97 ∷ []) 104 (105 ∷ []) (omega arith) (omega arith) (Reaches.here first)
      (omega arith) ((omega arith, omega arith), tt) (omega arith, tt) (omega arith)
      ((omega arith, omega arith), ((omega arith, omega arith), tt)) (omega arith)
      format_keys-Enters touch_keys-Enters cat_keys-Enters

-- The state after the line `format`.
after_format :
    (s : Session) × (main_round machine (keys format_keys) first ≡ some (Outcome.returns s))
after_format =
    let (settled, _) = start-IsSettled machine zeroed disk screen (omega arith) (omega arith) in
    let (s, run, _) =
      main_round-format machine (keys format_keys) first settled format_keys-Enters in
    (s, run)

reaches-Kept_example :
    IsHeap after_format.0.typing.shell.heap whole
    × (after_format.0.typing.shell.fs.superblock.magic ≡ chainfs_magic
        → IsMounted after_format.0.typing.shell.fs
          × (after_format.0.typing.shell.fs.superblock ≡ standard))
    × (after_format.0.typing.shell.current_line ≤ 24)
reaches-Kept_example =
    reaches-Kept machine zeroed disk screen after_format.0 (omega arith) (omega arith) (
      Reaches.next first first after_format.0 (keys format_keys) (Reaches.here first)
        after_format.1)
