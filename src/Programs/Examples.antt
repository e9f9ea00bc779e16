-- ===== src/Programs/Examples.antt =====
-- The theorems on the programs at a concrete disk and concrete numbers.
use pizda.Programs.Outside.{Outside}
use pizda.Programs.Calc.{Answer, calculate}
use pizda.Programs.Disk.{dump_line}
use pizda.Programs.Returns.{cat-Returns}
use pizda.Programs.Dump.{digit, read_hex, bytes_of, read_hex-dump_line}
use pizda.Programs.Divide.{to_int, quotient, quotient-calculate}
use pizda.Prelude.{
  ◌*◌, ◌/◌, ◌%◌, ltb, if◌then◌else◌, drop, inl, ℕ, ◌≡◌, ◌≢◌, refl, arith, add32, sub32, add64, some,
  List, [], ◌∷◌, ◌++◌,
}
use pizda.Pata.{Sector}
use pizda.Heap.{init_heap, align16}
use pizda.Heap.Blocks.{alloc_ptr, fits}
use pizda.Heap.State.{whole}
use pizda.ChainFs.Map.{buffered}
use pizda.ChainFs.Volume.{blocks_for}
use pizda.ChainFs.Files.{blocks_needed}
use pizda.ChainFs.Files.Samples.{
  empty, empty-IsMounted, name, empty-IsNew, first_unused, kernel_end, booted, booted-IsHeap,
  all_free,
}
use pizda.Programs.{Shell, finish, touch_word, content_flag, touch, cat_word, cat}
use pizda.Programs.Lines.{unlines, show_lines}
use pizda.Programs.RoundTrip.{cat-touch}

abbrev shell : Shell
shell = record {
  heap = booted;
  fs = empty;
  screen = record { video = λ j. 0; terminal_row = 0; ports = [] };
  current_line = 23;
}

-- "hi" and "you"
abbrev lines : List (List ℕ)
lines = (104 ∷ 105 ∷ []) ∷ (121 ∷ 111 ∷ 117 ∷ []) ∷ []

one_block : blocks_needed 7 ≡ 1
unfolding blocks_for sub32 add32
one_block = refl

room : alloc_ptr (align16 4) booted.heap_start whole ≢ 0
unfolding alloc_ptr fits init_heap align16 add64
room = omega arith

cat-touch_example :
    (s' : Shell) × (b : Sector) × (touch kernel_end 2
        (touch_word ++ name ++ content_flag ++ unlines lines)
        shell
      ≡ some s')
    × (cat 2 (λ j. 0) (cat_word ++ name) s'
        ≡ some (finish (show_lines lines (record s' { fs = buffered s'.fs b }))))
cat-touch_example =
    cat-touch kernel_end 2 1 0 name lines (λ j. 0) shell whole empty-IsMounted
      (
        ((omega arith, omega arith), ((omega arith, omega arith), tt)),
        (
          (
            (omega arith, omega arith),
            ((omega arith, omega arith), ((omega arith, omega arith), tt)),
          ),
          tt,
        ),
      )
      (omega arith) ((omega arith, omega arith), tt) (omega arith, tt) (omega arith) refl
      (omega arith) empty-IsNew (omega arith, omega arith) (omega arith) first_unused
      (rw one_block (omega (arith, all_free))) booted-IsHeap (rw one_block room)
      (rw one_block (omega arith))

-- Every byte of the disk is 1.
abbrev looped : Shell
looped = record shell { fs = record empty { disk = λ k j. 1 } }

cat-Returns_example : (s' : Shell) × (cat 6 (λ j. 0) (cat_word ++ name) looped ≡ some s')
cat-Returns_example = cat-Returns (λ j. 0) (cat_word ++ name) looped

-- An `itoa` for bytes in base 16.
abbrev hex_machine : Outside
hex_machine = record {
  itoa = λ v base. if ltb v 16 then digit v ∷ [] else digit (v / 16) ∷ digit (v % 16) ∷ [];
  cpuid = λ leaf. record { eax = 0; ebx = 0; ecx = 0; edx = 0 };
  identify_data = λ j. 0;
  kernel_end = kernel_end;
  fuel = 6;
  stack = λ j. 0;
}

read_hex-dump_line_example :
    read_hex 16 (drop 6 (dump_line hex_machine (λ j. j * 7 % 256) 2))
    ≡ bytes_of 16 32 (λ j. j * 7 % 256)
read_hex-dump_line_example =
    read_hex-dump_line hex_machine (λ v lt. refl) (λ j. j * 7 % 256) 2 (λ j. omega arith)
      (omega arith)

-- -7 / 2
quotient-calculate_example :
    (q : ℕ) × (calculate 47 4294967289 2 ≡ some (Answer.number q))
    × (to_int q ≡ quotient (to_int 4294967289) (to_int 2))
quotient-calculate_example =
    quotient-calculate 4294967289 2 (omega arith) (omega arith) (omega arith) (inl (omega arith))
