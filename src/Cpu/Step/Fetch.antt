-- ===== src/Cpu/Step/Fetch.antt =====
-- Instructions are fetched through demand paging.
use osproject.Base.{ℕ, ◌+◌, ◌*◌, ◌/◌, ◌%◌, ◌≡◌, none}
use osproject.Base.Int.{pos}
use osproject.Base.Outcome.{ok, ◌>>=◌}
use osproject.Vm.Host.{Host}
use osproject.Vm.State.{AddrSpace, Vm, page_size}
use osproject.Vm.Inv.{Inv}
use osproject.Machine.{fetch}
use osproject.Cpu.{Cpu}
use osproject.Cpu.Word.{add32}
use osproject.Cpu.Decode.{decode}
use osproject.Cpu.Registers.{pc_reg, next_pc_reg}
use osproject.Cpu.Step.{execute, finish, one_instruction}

module _ (host : Host) (a : AddrSpace) where
  -- The word at the program counter is read, from the frame where the page table has its page, and
  -- the rest of the step executes what it decodes to.
  pub record Fetches (c : Cpu) : Type 0 where
    pub vm : Vm
    pub word : ℕ
    pub frame : ℕ
    pub inv : Inv a none vm
    pub page_frame : (vm.pages a.id (c.registers pc_reg / page_size)).physical_page ≡ pos frame
    pub value :
        fetch vm.main_memory (frame * page_size + c.registers pc_reg % page_size) 4 ≡ ok word
    pub runs : one_instruction host a c ≡ (
        execute host a
          (decode word).op_code
          (add32 (c.registers next_pc_reg) 4)
          (decode word)
          (record c { vm = vm })
        >>= finish)
