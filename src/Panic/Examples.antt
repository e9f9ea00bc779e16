-- ===== src/Panic/Examples.antt =====
-- The log of a page fault.
use pizda.Prelude.{ℕ, ◌≡◌, some, List, []}
use pizda.Screen.{Screen}
use pizda.Panic.{SavedRegisters, panic_log, panic_screen}
use pizda.Panic.Log.{panic_log-IsSent}

abbrev page_fault : SavedRegisters
page_fault = record {
  r15 = 15;
  r14 = 14;
  r13 = 13;
  r12 = 12;
  r11 = 11;
  r10 = 10;
  r9 = 9;
  r8 = 8;
  rbp = 0x7000;
  rdi = 1;
  rsi = 2;
  rdx = 3;
  rcx = 4;
  rbx = 5;
  rax = 6;
  int_no = 14;
  err_code = 2;
  rip = 0x100000;
  cs = 8;
  rflags = 0x202;
  rsp = 0x6F00;
  ss = 16;
}

abbrev blank : Screen
blank = record { video = λ a. 0; terminal_row = 0; ports = [] }

panic_log-IsSent_example :
    ((text : List ℕ) × (panic_log 0xDEAD page_fault ≡ some text))
    × ((s' : Screen) × (panic_screen page_fault blank ≡ some s'))
panic_log-IsSent_example = panic_log-IsSent page_fault 0xDEAD blank
