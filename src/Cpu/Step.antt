-- ===== src/Cpu/Step.antt =====
-- `OneInstruction` of machine/mipssim.cc.
pub mod Sound
pub mod Execute
pub mod Fetch
pub mod Laws
use Prim.Native.Nat.{bit_and, bit_or, bit_xor}
use osproject.Base.{
  ℕ, ◌+◌, ◌-◌, ◌*◌, ◌/◌, ◌%◌, ◌^◌, Bool, true, false, not, ◌&&◌, ◌||◌, ◌==◌, ltb, leb,
  if◌then◌else◌,
}
use osproject.Base.Outcome.{Outcome, ok, fault, abort, assert, ◌>>=◌, ◌>>◌}
use osproject.Vm.Host.{Host}
use osproject.Vm.State.{AddrSpace, Vm}
use osproject.Machine.{read_mem}
use osproject.Cpu.{Cpu}
use osproject.Cpu.Word.{
  word_mod, sign_bit, add32, sub32, neg32, negative, lt32, sign_set, shl32, shr32, sar32, not32,
  abs32, index_to_addr,
}
use osproject.Cpu.Registers.{
  r31, hi_reg, lo_reg, pc_reg, next_pc_reg, prev_pc_reg, load_reg, load_value_reg, write_register,
  delayed_load, raise_exception,
}
use osproject.Cpu.Effect.{
  Effect, Exception, done, raised, returned, Case, MemoryCase, assign_rd, assign_rt, with_read,
  with_write, address_error_exception, overflow_exception, illegal_instr_exception,
  syscall_exception,
}
use osproject.Cpu.Decode.{
  Instruction, OpCode, decode, bcond, op_add, op_addi, op_addiu, op_addu, op_and, op_andi, op_beq,
  op_bgez, op_bgezal, op_bgtz, op_blez, op_bltz, op_bltzal, op_bne, op_div, op_divu, op_j, op_jal,
  op_jalr, op_jr, op_lb, op_lbu, op_lh, op_lhu, op_lui, op_lw, op_lwl, op_lwr, op_mfhi, op_mflo,
  op_mthi, op_mtlo, op_mult, op_multu, op_nor, op_or, op_ori, op_res, op_rfe, op_sb, op_sh, op_sll,
  op_sllv, op_slt, op_slti, op_sltiu, op_sltu, op_sra, op_srav, op_srl, op_srlv, op_sub, op_subu,
  op_sw, op_swl, op_swr, op_syscall, op_unimp, op_xor, op_xori, special,
}
use osproject.Cpu.Alu.{
  add, addi, addiu, addu, sub, subu, and_op, andi, nor, or_op, ori, xor, xori, lui, mfhi, mflo,
  mthi, mtlo, multiply, div32, rem32, div, divu, sll, sllv, sra, srav, srl, srlv, slt, slti, sltiu,
  sltu,
}
use osproject.Cpu.Branch.{
  branch_target, branch, link, beq, bne, bgez, bltz, bgtz, blez, bgezal, bltzal, jump, jal, jr,
  jalr,
}
use osproject.Cpu.Memory.{
  effective_address, extend_byte, extend_half, merged_with, merge_left, merge_right, store_left,
  store_right, load_byte, load_half, load_word, load_word_left, load_word_right, store_register,
  store_merged,
}

-- What an instruction comes to: it was executed, an exception of memory has been handled and it
-- will be tried again, or it is a system call, for which the kernel is entered.
pub data Step : Type 0 where
  executed : Step
  faulted : Step
  system_call : Step

-- The handler's cases for the exceptions that the processor raises: all but the system call end the
-- program.
unfoldable pub handle : Exception → Cpu → Outcome (Cpu × Step)
handle syscall_exception c = ok (c, system_call)
handle address_error_exception c = abort
handle overflow_exception c = abort
handle illegal_instr_exception c = abort

-- After the `switch`.
unfoldable pub finish : Effect → Outcome (Cpu × Step)
unfolding delayed_load handle
finish (done c pc_after next_load_reg next_load_value) = do
  c1 ← delayed_load c next_load_reg next_load_value
  let c2 = write_register c1 prev_pc_reg (c1.registers pc_reg)
  let c3 = write_register c2 pc_reg (c2.registers next_pc_reg)
  ok (write_register c3 next_pc_reg pc_after, executed)
finish (raised c which bad_vaddr) = raise_exception c bad_vaddr >>= handle which
finish (returned c) = ok (c, faulted)

module _ (host : Host) (a : AddrSpace) where
  -- The `switch (instr->opCode)`
  unfoldable pub execute : OpCode → MemoryCase
  execute op_add pc_after i c = ok (add pc_after i c)
  execute op_addi pc_after i c = ok (addi pc_after i c)
  execute op_addiu pc_after i c = ok (addiu pc_after i c)
  execute op_addu pc_after i c = ok (addu pc_after i c)
  execute op_and pc_after i c = ok (and_op pc_after i c)
  execute op_andi pc_after i c = ok (andi pc_after i c)
  execute op_beq pc_after i c = ok (beq pc_after i c)
  execute op_bgezal pc_after i c = ok (bgezal pc_after i c)
  execute op_bgez pc_after i c = ok (bgez pc_after i c)
  execute op_bgtz pc_after i c = ok (bgtz pc_after i c)
  execute op_blez pc_after i c = ok (blez pc_after i c)
  execute op_bltzal pc_after i c = ok (bltzal pc_after i c)
  execute op_bltz pc_after i c = ok (bltz pc_after i c)
  execute op_bne pc_after i c = ok (bne pc_after i c)
  execute op_div pc_after i c = div pc_after i c
  execute op_divu pc_after i c = ok (divu pc_after i c)
  execute op_jal pc_after i c = ok (jal pc_after i c)
  execute op_j pc_after i c = ok (jump pc_after i c)
  execute op_jalr pc_after i c = ok (jalr pc_after i c)
  execute op_jr pc_after i c = ok (jr pc_after i c)
  execute op_lb pc_after i c = load_byte host a true pc_after i c
  execute op_lbu pc_after i c = load_byte host a false pc_after i c
  execute op_lh pc_after i c = load_half host a true pc_after i c
  execute op_lhu pc_after i c = load_half host a false pc_after i c
  execute op_lui pc_after i c = ok (lui pc_after i c)
  execute op_lw pc_after i c = load_word host a pc_after i c
  execute op_lwl pc_after i c = load_word_left host a pc_after i c
  execute op_lwr pc_after i c = load_word_right host a pc_after i c
  execute op_mfhi pc_after i c = ok (mfhi pc_after i c)
  execute op_mflo pc_after i c = ok (mflo pc_after i c)
  execute op_mthi pc_after i c = ok (mthi pc_after i c)
  execute op_mtlo pc_after i c = ok (mtlo pc_after i c)
  execute op_mult pc_after i c = ok (multiply true pc_after i c)
  execute op_multu pc_after i c = ok (multiply false pc_after i c)
  execute op_nor pc_after i c = ok (nor pc_after i c)
  execute op_or pc_after i c = ok (or_op pc_after i c)
  execute op_ori pc_after i c = ok (ori pc_after i c)
  execute op_sb pc_after i c = store_register host a 1 pc_after i c
  execute op_sh pc_after i c = store_register host a 2 pc_after i c
  execute op_sll pc_after i c = ok (sll pc_after i c)
  execute op_sllv pc_after i c = ok (sllv pc_after i c)
  execute op_slt pc_after i c = ok (slt pc_after i c)
  execute op_slti pc_after i c = ok (slti pc_after i c)
  execute op_sltiu pc_after i c = ok (sltiu pc_after i c)
  execute op_sltu pc_after i c = ok (sltu pc_after i c)
  execute op_sra pc_after i c = ok (sra pc_after i c)
  execute op_srav pc_after i c = ok (srav pc_after i c)
  execute op_srl pc_after i c = ok (srl pc_after i c)
  execute op_srlv pc_after i c = ok (srlv pc_after i c)
  execute op_sub pc_after i c = ok (sub pc_after i c)
  execute op_subu pc_after i c = ok (subu pc_after i c)
  execute op_sw pc_after i c = store_register host a 4 pc_after i c
  execute op_swl pc_after i c = store_merged host a store_left pc_after i c
  execute op_swr pc_after i c = store_merged host a store_right pc_after i c
  execute op_xor pc_after i c = ok (xor pc_after i c)
  execute op_xori pc_after i c = ok (xori pc_after i c)
  execute op_syscall pc_after i c = ok (raised c syscall_exception 0)
  execute op_res pc_after i c = ok (raised c illegal_instr_exception 0)
  execute op_unimp pc_after i c = ok (raised c illegal_instr_exception 0)
  execute op_rfe pc_after i c = abort
  execute special pc_after i c = abort
  execute bcond pc_after i c = abort

  -- `OneInstruction`
  unfoldable pub one_instruction : Cpu → Outcome (Cpu × Step)
  one_instruction c =
      with_read host a c (c.registers pc_reg) 4 (λ c' raw.
        let instr = decode raw in
        execute instr.op_code (add32 (c'.registers next_pc_reg) 4) instr c')
      >>= finish
