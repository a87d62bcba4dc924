-- ===== src/Cpu.antt =====
-- The simulated MIPS processor: machine/mipssim.cc, machine/mipssim.h and the registers of
-- machine/machine.h. A register is an `int` of 32 bits, kept as the word that represents it.
pub mod Word
pub mod Decode
pub mod Registers
pub mod Context
pub mod Effect
pub mod Alu
pub mod Branch
pub mod Memory
pub mod Step
pub mod Mult
pub mod Exact
mod Tests
use osproject.Base.{ℕ}
use osproject.Vm.State.{Vm}

-- The registers, and the memory with all that translates its addresses.
pub record Cpu : Type 0 where
  pub registers : ℕ → ℕ
  pub vm : Vm
