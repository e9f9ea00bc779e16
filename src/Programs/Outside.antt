-- ===== src/Programs/Outside.antt =====
-- What the programs use that is not C of the repository: `itoa` of src/mlibc/itoa.s, the processor's
-- `cpuid`, the array `identify_data` after a call of `pata_identify`, and the end of the kernel's image. The fuel bounds the
-- chains followed, and `stack` is what the buffers on the stack hold before.
use pizda.Prelude.{ℕ, List}

-- The registers that `cpuid` sets.
pub record Registers : Type 0 where
  pub eax : ℕ
  pub ebx : ℕ
  pub ecx : ℕ
  pub edx : ℕ

pub record Outside : Type 0 where
  -- The bytes that `itoa(value, str, base)` writes before the NUL, for the 32-bit pattern of `value`.
  pub itoa : ℕ → ℕ → List ℕ
  pub cpuid : ℕ → Registers
  -- The 256 words of 16 bits.
  pub identify_data : ℕ → ℕ
  pub kernel_end : ℕ
  pub fuel : ℕ
  pub stack : ℕ → ℕ
