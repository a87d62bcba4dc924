-- ===== src/Cpu/Effect.antt =====
-- What the `switch` of `OneInstruction` (machine/mipssim.cc) comes to, and what becomes of it.
use osproject.Base.{ℕ, true, false, none, some}
use osproject.Base.Outcome.{Outcome, ok, ◌>>=◌}
use osproject.Vm.Host.{Host}
use osproject.Vm.State.{AddrSpace}
use osproject.Machine.{read_mem, write_mem}
use osproject.Cpu.{Cpu}
use osproject.Cpu.Registers.{write_register, raise_exception}
use osproject.Cpu.Decode.{Instruction}

-- The exceptions that the `switch` raises itself.
pub data Exception : Type 0 where
  syscall_exception : Exception
  address_error_exception : Exception
  overflow_exception : Exception
  illegal_instr_exception : Exception

pub data Effect : Type 0 where
  -- A `break`: the processor, `pcAfter`, `nextLoadReg` and `nextLoadValue`.
  done : Cpu → ℕ → ℕ → ℕ → Effect
  -- `RaiseException(which, badVAddr); return;`
  raised : Cpu → Exception → ℕ → Effect
  -- A `return` because `ReadMem` or `WriteMem` has raised an exception, which the kernel has
  -- handled.
  returned : Cpu → Effect

-- A case of the `switch`: from `pcAfter` as it stands before, the instruction and the processor.
abbrev pub Case : Type 0
Case = ℕ → Instruction → Cpu → Effect

-- A case that accesses memory.
abbrev pub MemoryCase : Type 0
MemoryCase = ℕ → Instruction → Cpu → Outcome Effect

-- `registers[instr->rd] = value; break;` and the same with rt.
abbrev pub assign_rd : ℕ → ℕ → Instruction → Cpu → Effect
assign_rd value pc_after i c = done (write_register c i.rd value) pc_after 0 0

abbrev pub assign_rt : ℕ → ℕ → Instruction → Cpu → Effect
assign_rt value pc_after i c = done (write_register c i.rt value) pc_after 0 0

module _ (host : Host) (a : AddrSpace) where
  -- `if (!machine->ReadMem(addr, size, &value)) return;`
  unfoldable pub with_read : Cpu → ℕ → ℕ → (Cpu → ℕ → Outcome Effect) → Outcome Effect
  with_read c addr size k = read_mem host a c.vm addr size >>= λ (vm, value). elim value [
    | some word ↦ k (record c { vm = vm }) word
    | none ↦ (raise_exception c addr >>= λ c'. ok (returned (record c' { vm = vm })))
  ]

  -- `if (!machine->WriteMem(addr, size, value)) return;`, then a `break`
  unfoldable pub with_write : Cpu → ℕ → ℕ → ℕ → (Cpu → Outcome Effect) → Outcome Effect
  with_write c addr size value k = write_mem host a c.vm addr size value >>= λ (vm, written).
      elim written [
        | true ↦ k (record c { vm = vm })
        | false ↦ (raise_exception c addr >>= λ c'. ok (returned (record c' { vm = vm })))
      ]
