-- ===== src/Kernel.antt =====
-- The kernel's main function, `kmain` of src/kernel/kernel.c: the state that its calls set up, and its
-- loop of `scanf` and `shell_func`. The calls of `init_idt`, `mouse_init`, `pata_identify` and of the
-- serial port are left out, since nothing here reads what they change.
pub mod Reach
pub mod Lines
pub mod Ready
pub mod RoundTrip
mod Examples
use pizda.Prelude.{ℕ, suc, ◌≡◌, Option, none, some, bind, List, [], ◌∷◌, false, codes}
use pizda.Pata.{Disk}
use pizda.Heap.{Heap, init_heap}
use pizda.Screen.{Screen, clear_screen, print}
use pizda.Keyboard.{Input, prompt, scanf}
use pizda.ChainFs.{ChainFs}
use pizda.Programs.{Shell, clamp_line}
use pizda.Programs.Outside.{Outside}
use pizda.Programs.Calc.{Typing, input_of, typed}
use pizda.Programs.Dispatch.{Session, Outcome, with_shell, shell_func}

-- `g_chainfs` before it is used: a static variable, so that its bytes are zero.
abbrev pub unmounted : Disk → ChainFs
unmounted disk = record {
  superblock = record {
    magic = 0;
    block_count = 0;
    file_table_block_count = 0;
    block_map_block_count = 0;
    total_files = 0;
    root_dir_block = 0;
  };
  data_area_start = 0;
  current_dir_block = 0;
  sector_buffer = λ j. 0;
  disk = disk;
}

unfoldable pub show_start : Screen → Screen
show_start s = print prompt 5 0 0x0F (
    print (codes "There's nothing here yet =)") 3 0 0x0F
      (print (codes "OTSOS started!") 0 30 0x0A (clear_screen s)))

-- The state before the loop. `heap`, `screen` and `stack` are what the memory holds before.
unfoldable pub start : Outside → Heap → Disk → Screen → Session
start o heap disk screen = record {
  typing = record {
    shell = record {
      heap = init_heap o.kernel_end heap;
      fs = unmounted disk;
      screen = show_start screen;
      current_line = 5;
    };
    shift = false;
    s_buf = o.stack;
  };
  dir = 47 ∷ [];
  ports = [];
}

-- The bound on the row behind the call of `shell_func`.
abbrev pub bounded : Outcome → Outcome
bounded (Outcome.returns s) = Outcome.returns (with_shell s (clamp_line s.typing.shell))
bounded (Outcome.hangs s) = Outcome.hangs s

abbrev pub bounded_some : Option Outcome → Option Outcome
bounded_some none = none
bounded_some (some r) = some (bounded r)

-- A round of the loop: `keys 0` is what the keyboard gives to its `scanf`, and what follows is for
-- those in the command.
unfoldable pub main_round : Outside → (ℕ → List (ℕ × ℕ)) → Session → Option Outcome
main_round o keys s =
    bind (scanf 2048 s.typing.shell.current_line 2 0x0F (keys 0) (input_of s.typing)) (λ input.
      bounded_some (shell_func o (λ i. keys (suc i)) (record s { typing = typed s.typing input })))

-- The states that the loop gets to from a state.
pub data Reaches (o : Outside) : Session → Session → Type 0 where
  here : (s : Session) → Reaches o s s
  next :
      (s t u : Session) (keys : ℕ → List (ℕ × ℕ))
      → Reaches o s t
      → main_round o keys t ≡ some (Outcome.returns u)
      → Reaches o s u
