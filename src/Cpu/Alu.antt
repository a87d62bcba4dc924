-- ===== src/Cpu/Alu.antt =====
-- The cases of `OneInstruction` (machine/mipssim.cc) that compute with registers only.
pub mod Laws
pub mod Quotient
use Prim.Native.Nat.{bit_and, bit_or, bit_xor}
use osproject.Base.{
  ℕ, ◌+◌, ◌-◌, ◌*◌, ◌/◌, ◌%◌, ◌^◌, Bool, true, false, not, ◌&&◌, ◌||◌, ◌==◌, ltb, leb,
  if◌then◌else◌,
}
use osproject.Base.Outcome.{Outcome, ok, fault, abort, assert, ◌>>=◌, ◌>>◌}
use osproject.Vm.Host.{Host}
use osproject.Vm.State.{AddrSpace, Vm}
use osproject.Cpu.{Cpu}
use osproject.Cpu.Word.{
  word_mod, sign_bit, add32, sub32, neg32, negative, lt32, sign_set, shl32, shr32, sar32, not32,
  abs32, index_to_addr,
}
use osproject.Cpu.Registers.{
  r31, hi_reg, lo_reg, pc_reg, next_pc_reg, prev_pc_reg, load_reg, load_value_reg, write_register,
  delayed_load, raise_exception,
}
use osproject.Cpu.Effect.{
  Effect, done, raised, returned, Case, MemoryCase, assign_rd, assign_rt, with_read, with_write,
  address_error_exception, overflow_exception, illegal_instr_exception, syscall_exception,
}
use osproject.Cpu.Decode.{Instruction, OpCode}
use osproject.Cpu.Mult.{mult}

-- `OP_ADD`
unfoldable pub add : Case
add pc_after i c =
    let sum = add32 (c.registers i.rs) (c.registers i.rt) in
    if not (sign_set (bit_xor (c.registers i.rs) (c.registers i.rt)))
      && sign_set (bit_xor (c.registers i.rs) sum)
    then raised c overflow_exception 0
    else assign_rd sum pc_after i c

-- `OP_ADDI`
unfoldable pub addi : Case
addi pc_after i c =
    let sum = add32 (c.registers i.rs) i.extra in
    if not (sign_set (bit_xor (c.registers i.rs) i.extra)) && sign_set (bit_xor i.extra sum)
    then raised c overflow_exception 0
    else assign_rt sum pc_after i c

-- `OP_ADDIU`
unfoldable pub addiu : Case
addiu pc_after i c = assign_rt (add32 (c.registers i.rs) i.extra) pc_after i c

-- `OP_ADDU`
unfoldable pub addu : Case
addu pc_after i c = assign_rd (add32 (c.registers i.rs) (c.registers i.rt)) pc_after i c

-- `OP_SUB`
unfoldable pub sub : Case
sub pc_after i c =
    let diff = sub32 (c.registers i.rs) (c.registers i.rt) in
    if sign_set (bit_xor (c.registers i.rs) (c.registers i.rt))
      && sign_set (bit_xor (c.registers i.rs) diff)
    then raised c overflow_exception 0
    else assign_rd diff pc_after i c

-- `OP_SUBU`
unfoldable pub subu : Case
subu pc_after i c = assign_rd (sub32 (c.registers i.rs) (c.registers i.rt)) pc_after i c

-- `OP_AND`
unfoldable pub and_op : Case
and_op pc_after i c = assign_rd (bit_and (c.registers i.rs) (c.registers i.rt)) pc_after i c

-- `OP_ANDI`
unfoldable pub andi : Case
andi pc_after i c = assign_rt (bit_and (c.registers i.rs) (bit_and i.extra 65535)) pc_after i c

-- `OP_NOR`
unfoldable pub nor : Case
nor pc_after i c = assign_rd (not32 (bit_or (c.registers i.rs) (c.registers i.rt))) pc_after i c

-- The source has rs on both sides.
-- `OP_OR`
unfoldable pub or_op : Case
or_op pc_after i c = assign_rd (bit_or (c.registers i.rs) (c.registers i.rs)) pc_after i c

-- `OP_ORI`
unfoldable pub ori : Case
ori pc_after i c = assign_rt (bit_or (c.registers i.rs) (bit_and i.extra 65535)) pc_after i c

-- `OP_XOR`
unfoldable pub xor : Case
xor pc_after i c = assign_rd (bit_xor (c.registers i.rs) (c.registers i.rt)) pc_after i c

-- `OP_XORI`
unfoldable pub xori : Case
xori pc_after i c = assign_rt (bit_xor (c.registers i.rs) (bit_and i.extra 65535)) pc_after i c

-- `OP_LUI`
unfoldable pub lui : Case
lui pc_after i c = assign_rt (shl32 i.extra 16) pc_after i c

-- `OP_MFHI`
unfoldable pub mfhi : Case
mfhi pc_after i c = assign_rd (c.registers hi_reg) pc_after i c

-- `OP_MFLO`
unfoldable pub mflo : Case
mflo pc_after i c = assign_rd (c.registers lo_reg) pc_after i c

-- `OP_MTHI`
unfoldable pub mthi : Case
mthi pc_after i c = done (write_register c hi_reg (c.registers i.rs)) pc_after 0 0

-- `OP_MTLO`
unfoldable pub mtlo : Case
mtlo pc_after i c = done (write_register c lo_reg (c.registers i.rs)) pc_after 0 0

-- `OP_MULT` and `OP_MULTU`: the second pointer is written after the first.
unfoldable pub multiply : Bool → Case
multiply signed_arith pc_after i c =
    let product = mult (c.registers i.rs) (c.registers i.rt) signed_arith in
    done (write_register (write_register c hi_reg product.0) lo_reg product.1) pc_after 0 0

-- `a / b` and `a % b` of `int`s, which C++ rounds towards 0.
abbrev pub div32 : ℕ → ℕ → ℕ
div32 a b =
    let q = abs32 a / abs32 b in
    if (if negative a then not (negative b) else negative b) then neg32 q else q

abbrev pub rem32 : ℕ → ℕ → ℕ
rem32 a b = if negative a then neg32 (abs32 a % abs32 b) else abs32 a % abs32 b

-- `registers[LoReg] = lo; registers[HiReg] = hi; break;`
abbrev pub set_low_high : ℕ → ℕ → ℕ → Cpu → Effect
set_low_high lo hi pc_after c =
    done (write_register (write_register c lo_reg lo) hi_reg hi) pc_after 0 0

-- `OP_DIV`. The quotient of the smallest `int` and -1 is not an `int`, and C++ leaves it undefined.
unfoldable pub div : ℕ → Instruction → Cpu → Outcome Effect
div pc_after i c =
    let rs = c.registers i.rs in
    let rt = c.registers i.rt in
    if rt == 0
    then ok (set_low_high 0 0 pc_after c)
    else if (rs == sign_bit) && (rt == 4294967295)
    then fault
    else ok (set_low_high (div32 rs rt) (rem32 rs rt) pc_after c)

-- `OP_DIVU`
unfoldable pub divu : Case
divu pc_after i c =
    let rs = c.registers i.rs in
    let rt = c.registers i.rt in
    if rt == 0 then set_low_high 0 0 pc_after c else set_low_high (rs / rt) (rs % rt) pc_after c

-- `OP_SLL`
unfoldable pub sll : Case
sll pc_after i c = assign_rd (shl32 (c.registers i.rt) i.extra) pc_after i c

-- `OP_SLLV`
unfoldable pub sllv : Case
sllv pc_after i c =
    assign_rd (shl32 (c.registers i.rt) (bit_and (c.registers i.rs) 31)) pc_after i c

-- `OP_SRA`
unfoldable pub sra : Case
sra pc_after i c = assign_rd (sar32 (c.registers i.rt) i.extra) pc_after i c

-- `OP_SRAV`
unfoldable pub srav : Case
srav pc_after i c =
    assign_rd (sar32 (c.registers i.rt) (bit_and (c.registers i.rs) 31)) pc_after i c

-- `OP_SRL`
unfoldable pub srl : Case
srl pc_after i c =
    let tmp = c.registers i.rt in let tmp' = sar32 tmp i.extra in assign_rd tmp' pc_after i c

-- `OP_SRLV`
unfoldable pub srlv : Case
srlv pc_after i c =
    let tmp = c.registers i.rt in
    let tmp' = sar32 tmp (bit_and (c.registers i.rs) 31) in assign_rd tmp' pc_after i c

-- `OP_SLT`
unfoldable pub slt : Case
slt pc_after i c =
    assign_rd (if lt32 (c.registers i.rs) (c.registers i.rt) then 1 else 0) pc_after i c

-- `OP_SLTI`
unfoldable pub slti : Case
slti pc_after i c = assign_rt (if lt32 (c.registers i.rs) i.extra then 1 else 0) pc_after i c

-- `OP_SLTIU`
unfoldable pub sltiu : Case
sltiu pc_after i c = assign_rt (if ltb (c.registers i.rs) i.extra then 1 else 0) pc_after i c

-- `OP_SLTU`
unfoldable pub sltu : Case
sltu pc_after i c =
    assign_rd (if ltb (c.registers i.rs) (c.registers i.rt) then 1 else 0) pc_after i c
