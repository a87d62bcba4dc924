-- ===== src/Cpu/Registers.antt =====
-- The registers of machine/machine.h, `DelayedLoad` of machine/mipssim.cc and what `RaiseException`
-- of machine/machine.cc does to the registers before it calls the kernel.
use osproject.Base.{ℕ, ◌==◌, ltb, if◌then◌else◌}
use osproject.Base.Outcome.{Outcome, ok, fault}
use osproject.Cpu.{Cpu}

abbrev pub r31 : ℕ
r31 = 31

abbrev pub hi_reg : ℕ
hi_reg = 32

abbrev pub lo_reg : ℕ
lo_reg = 33

abbrev pub pc_reg : ℕ
pc_reg = 34

abbrev pub next_pc_reg : ℕ
next_pc_reg = 35

abbrev pub prev_pc_reg : ℕ
prev_pc_reg = 36

abbrev pub load_reg : ℕ
load_reg = 37

abbrev pub load_value_reg : ℕ
load_value_reg = 38

abbrev pub bad_vaddr_reg : ℕ
bad_vaddr_reg = 39

abbrev pub num_total_regs : ℕ
num_total_regs = 40

-- `registers[ num ] = value`, for a number in range.
abbrev pub write_register : Cpu → ℕ → ℕ → Cpu
write_register c num value = record c { registers = λ r. if r == num then value else c.registers r }

-- The first assignment indexes the array with the contents of a register.
unfoldable pub delayed_load : Cpu → ℕ → ℕ → Outcome Cpu
delayed_load c next_reg next_value =
    let loaded = write_register c (c.registers load_reg) (c.registers load_value_reg) in
    let next = write_register (write_register loaded load_reg next_reg) load_value_reg next_value in
    if ltb (c.registers load_reg) num_total_regs then ok (write_register next 0 0) else fault

-- `RaiseException` up to the call of `ExceptionHandler`.
unfoldable pub raise_exception : Cpu → ℕ → Outcome Cpu
unfolding delayed_load
raise_exception c bad_vaddr = delayed_load (write_register c bad_vaddr_reg bad_vaddr) 0 0
