-- ===== src/Cpu/Branch.antt =====
-- The branches and jumps of `OneInstruction` (machine/mipssim.cc).
use Prim.Native.Nat.{bit_and, bit_or}
use osproject.Base.{ℕ, Bool, not, ◌==◌, if◌then◌else◌}
use osproject.Cpu.{Cpu}
use osproject.Cpu.Word.{add32, lt32, sign_set, index_to_addr}
use osproject.Cpu.Registers.{r31, next_pc_reg, write_register}
use osproject.Cpu.Effect.{done, Case}
use osproject.Cpu.Decode.{Instruction}

-- `registers[NextPCReg] + IndexToAddr(instr->extra)`
abbrev pub branch_target : Instruction → Cpu → ℕ
branch_target i c = add32 (c.registers next_pc_reg) (index_to_addr i.extra)

-- `if (taken) pcAfter = ...; break;`
abbrev pub branch : Bool → Case
branch taken pc_after i c = done c (if taken then branch_target i c else pc_after) 0 0

-- `registers[num] = registers[NextPCReg] + 4`
abbrev pub link : ℕ → Cpu → Cpu
link num c = write_register c num (add32 (c.registers next_pc_reg) 4)

-- `OP_BEQ`
unfoldable pub beq : Case
beq pc_after i c = branch (c.registers i.rs == c.registers i.rt) pc_after i c

-- `OP_BNE`
unfoldable pub bne : Case
bne pc_after i c = branch (not (c.registers i.rs == c.registers i.rt)) pc_after i c

-- `OP_BGEZ`
unfoldable pub bgez : Case
bgez pc_after i c = branch (not (sign_set (c.registers i.rs))) pc_after i c

-- `OP_BLTZ`
unfoldable pub bltz : Case
bltz pc_after i c = branch (sign_set (c.registers i.rs)) pc_after i c

-- `OP_BGTZ`
unfoldable pub bgtz : Case
bgtz pc_after i c = branch (lt32 0 (c.registers i.rs)) pc_after i c

-- `OP_BLEZ`
unfoldable pub blez : Case
blez pc_after i c = branch (not (lt32 0 (c.registers i.rs))) pc_after i c

-- `OP_BGEZAL`, which falls through to `OP_BGEZ`.
unfoldable pub bgezal : Case
unfolding bgez
bgezal pc_after i c = bgez pc_after i (link r31 c)

-- `OP_BLTZAL`, which falls through to `OP_BLTZ`.
unfoldable pub bltzal : Case
unfolding bltz
bltzal pc_after i c = bltz pc_after i (link r31 c)

-- `OP_J`
unfoldable pub jump : Case
jump pc_after i c = done c (bit_or (bit_and pc_after 4026531840) (index_to_addr i.extra)) 0 0

-- `OP_JAL`
unfoldable pub jal : Case
unfolding jump
jal pc_after i c = jump pc_after i (link r31 c)

-- `OP_JR`
unfoldable pub jr : Case
jr pc_after i c = done c (c.registers i.rs) 0 0

-- `OP_JALR`
unfoldable pub jalr : Case
unfolding jr
jalr pc_after i c = jr pc_after i (link i.rd c)
