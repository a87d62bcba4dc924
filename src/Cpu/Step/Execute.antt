-- ===== src/Cpu/Step/Execute.antt =====
-- Every case of the `switch` keeps the program counters and the pending load, and a trap finds the
-- registers as they were.
use osproject.Base.{ℕ, ◌<◌, refl, Bool, true, false, if◌then◌else◌, arith, ◌∙◌}
use osproject.Base.Outcome.{Outcome, ok, abort, fault}
use osproject.Vm.Host.{Host}
use osproject.Vm.State.{AddrSpace}
use osproject.Cpu.{Cpu}
use osproject.Cpu.Decode.{
  Instruction, OpCode, bcond, op_add, op_addi, op_addiu, op_addu, op_and, op_andi, op_beq, op_bgez,
  op_bgezal, op_bgtz, op_blez, op_bltz, op_bltzal, op_bne, op_div, op_divu, op_j, op_jal, op_jalr,
  op_jr, op_lb, op_lbu, op_lh, op_lhu, op_lui, op_lw, op_lwl, op_lwr, op_mfhi, op_mflo, op_mthi,
  op_mtlo, op_mult, op_multu, op_nor, op_or, op_ori, op_res, op_rfe, op_sb, op_sh, op_sll, op_sllv,
  op_slt, op_slti, op_sltiu, op_sltu, op_sra, op_srav, op_srl, op_srlv, op_sub, op_subu, op_sw,
  op_swl, op_swr, op_syscall, op_unimp, op_xor, op_xori, special,
}
use osproject.Cpu.Registers.{write_register}
use osproject.Cpu.Effect.{Effect, done, assign_rd, assign_rt}
use osproject.Cpu.Alu.{
  add, addi, addiu, addu, sub, subu, and_op, andi, nor, or_op, ori, xor, xori, lui, mfhi, mflo,
  mthi, mtlo, multiply, div, divu, sll, sllv, sra, srav, srl, srlv, slt, slti, sltiu, sltu,
}
use osproject.Cpu.Branch.{beq, bne, bgez, bltz, bgtz, blez, bgezal, bltzal, jump, jal, jr, jalr}
use osproject.Cpu.Memory.{
  store_left, store_right, load_byte, load_half, load_word, load_word_left, load_word_right,
  store_register, store_merged,
}
use osproject.Cpu.Decode.Fields.{Fields}
use osproject.Cpu.Step.{execute}
use osproject.Cpu.Step.Sound.{
  Returning, Sound, done-Sound, raised-Sound, moved-Sound, ok-Returning, access-Sound, write-Kept,
  if-Sound, assert-Returning, with_read-Sound, with_write-Sound,
}

rd-Sound :
    (v pc_after : ℕ) (i : Instruction) (c : Cpu) → Fields i → Sound c (assign_rd v pc_after i c)
rd-Sound v pc_after i c f =
    done-Sound c _ pc_after 0 0 (write-Kept c i.rd v (omega (arith, f.rd_small))) (omega arith)

rt-Sound :
    (v pc_after : ℕ) (i : Instruction) (c : Cpu) → Fields i → Sound c (assign_rt v pc_after i c)
rt-Sound v pc_after i c f =
    done-Sound c _ pc_after 0 0 (write-Kept c i.rt v (omega (arith, f.rt_small))) (omega arith)

-- The pair of registers for products and quotients.
both-Sound :
    (c : Cpu) (m n v w pc_after : ℕ)
    → m < 34
    → n < 34
    → Sound c (done (write_register (write_register c m v) n w) pc_after 0 0)
both-Sound c m n v w pc_after hm hn =
    done-Sound c _ pc_after 0 0
      (λ r high. write-Kept (write_register c m v) n w hn r high ∙ write-Kept c m v hm r high)
      (omega arith)

one-Sound :
    (c : Cpu) (m v pc_after : ℕ) → m < 34 → Sound c (done (write_register c m v) pc_after 0 0)
one-Sound c m v pc_after h = done-Sound c _ pc_after 0 0 (write-Kept c m v h) (omega arith)

none-Sound : (c : Cpu) (pc_after : ℕ) → Sound c (done c pc_after 0 0)
none-Sound c pc_after = done-Sound c c pc_after 0 0 (λ r high. refl) (omega arith)

if-Returning :
    (c : Cpu) (b : Bool) (x : Effect) (m : Outcome Effect)
    → Sound c x
    → Returning (Sound c) m
    → Returning (Sound c) (if b then ok x else m)
unfolding Returning
if-Returning c true x m hx hm = hx
if-Returning c false x m hx hm = hm

fault-Returning :
    (c : Cpu) (b : Bool) (x : Effect) → Sound c x → Returning (Sound c) (if b then fault else ok x)
unfolding Returning
fault-Returning c true x h = tt
fault-Returning c false x h = h

abort-Returning : (c : Cpu) → Returning (Sound c) abort
unfolding Returning
abort-Returning c = tt

div-Sound : (pc_after : ℕ) (i : Instruction) (c : Cpu) → Returning (Sound c) (div pc_after i c)
unfolding div
div-Sound pc_after i c =
    if-Returning c _ _ _ (both-Sound c 33 32 _ _ pc_after (omega arith) (omega arith))
      (fault-Returning c _ _ (both-Sound c 33 32 _ _ pc_after (omega arith) (omega arith)))

module _ (host : Host) (a : AddrSpace) where
  load_byte-Sound :
      (with_sign : Bool) (pc_after : ℕ) (i : Instruction) (c : Cpu)
      → Fields i
      → Returning (Sound c) (load_byte host a with_sign pc_after i c)
  unfolding load_byte
  load_byte-Sound with_sign pc_after i c f =
      with_read-Sound host a c _ 1 _ (λ vm word. access-Sound c vm pc_after i.rt _ f.rt_small)

  load_half-Sound :
      (with_sign : Bool) (pc_after : ℕ) (i : Instruction) (c : Cpu)
      → Fields i
      → Returning (Sound c) (load_half host a with_sign pc_after i c)
  unfolding load_half
  load_half-Sound with_sign pc_after i c f =
      if-Returning c _ _ _ (raised-Sound c _ _)
        (with_read-Sound host a c _ 2 _ (λ vm word. access-Sound c vm pc_after i.rt _ f.rt_small))

  load_word-Sound :
      (pc_after : ℕ) (i : Instruction) (c : Cpu)
      → Fields i
      → Returning (Sound c) (load_word host a pc_after i c)
  unfolding load_word
  load_word-Sound pc_after i c f =
      if-Returning c _ _ _ (raised-Sound c _ _)
        (with_read-Sound host a c _ 4 _ (λ vm word. access-Sound c vm pc_after i.rt _ f.rt_small))

  load_word_left-Sound :
      (pc_after : ℕ) (i : Instruction) (c : Cpu)
      → Fields i
      → Returning (Sound c) (load_word_left host a pc_after i c)
  unfolding load_word_left
  load_word_left-Sound pc_after i c f =
      assert-Returning c _ _
        (with_read-Sound host a c _ 4 _ (λ vm word. access-Sound c vm pc_after i.rt _ f.rt_small))

  load_word_right-Sound :
      (pc_after : ℕ) (i : Instruction) (c : Cpu)
      → Fields i
      → Returning (Sound c) (load_word_right host a pc_after i c)
  unfolding load_word_right
  load_word_right-Sound pc_after i c f =
      assert-Returning c _ _
        (with_read-Sound host a c _ 4 _ (λ vm word. access-Sound c vm pc_after i.rt _ f.rt_small))

  store_register-Sound :
      (size pc_after : ℕ) (i : Instruction) (c : Cpu)
      → Returning (Sound c) (store_register host a size pc_after i c)
  unfolding store_register
  store_register-Sound size pc_after i c =
      with_write-Sound host a c _ size _ _ (λ vm. access-Sound c vm pc_after 0 0 (omega arith))

  store_merged-Sound :
      (merge : ℕ → ℕ → ℕ → ℕ) (pc_after : ℕ) (i : Instruction) (c : Cpu)
      → Returning (Sound c) (store_merged host a merge pc_after i c)
  unfolding store_merged
  store_merged-Sound merge pc_after i c = assert-Returning c _ _ (
      with_read-Sound host a c _ 4 _ (λ vm word. moved-Sound c vm _ (
        with_write-Sound host a (record c { vm = vm }) _ 4 _ _
          (λ vm'. access-Sound (record c { vm = vm }) vm' pc_after 0 0 (omega arith)))))

  -- Every case of the `switch`, on an instruction as `Decode` gives it.
  pub execute-Sound :
      (op : OpCode) (pc_after : ℕ) (i : Instruction) (c : Cpu)
      → Fields i
      → Returning (Sound c) (execute host a op pc_after i c)
  unfolding execute add addi addiu addu and_op andi beq bgezal bgez bgtz blez bltzal bltz bne divu
      jal jump jalr jr lui mfhi mflo mthi mtlo multiply nor or_op ori sll sllv slt slti sltiu sltu
      sra srav srl srlv sub subu xor xori
  execute-Sound op_add pc_after i c f =
      ok-Returning c _ (if-Sound c _ _ _ (raised-Sound c _ _) (rd-Sound _ pc_after i c f))
  execute-Sound op_addi pc_after i c f =
      ok-Returning c _ (if-Sound c _ _ _ (raised-Sound c _ _) (rt-Sound _ pc_after i c f))
  execute-Sound op_addiu pc_after i c f = ok-Returning c _ (rt-Sound _ pc_after i c f)
  execute-Sound op_addu pc_after i c f = ok-Returning c _ (rd-Sound _ pc_after i c f)
  execute-Sound op_and pc_after i c f = ok-Returning c _ (rd-Sound _ pc_after i c f)
  execute-Sound op_andi pc_after i c f = ok-Returning c _ (rt-Sound _ pc_after i c f)
  execute-Sound op_beq pc_after i c f = ok-Returning c _ (none-Sound c _)
  execute-Sound op_bgezal pc_after i c f = ok-Returning c _ (one-Sound c 31 _ _ (omega arith))
  execute-Sound op_bgez pc_after i c f = ok-Returning c _ (none-Sound c _)
  execute-Sound op_bgtz pc_after i c f = ok-Returning c _ (none-Sound c _)
  execute-Sound op_blez pc_after i c f = ok-Returning c _ (none-Sound c _)
  execute-Sound op_bltzal pc_after i c f = ok-Returning c _ (one-Sound c 31 _ _ (omega arith))
  execute-Sound op_bltz pc_after i c f = ok-Returning c _ (none-Sound c _)
  execute-Sound op_bne pc_after i c f = ok-Returning c _ (none-Sound c _)
  execute-Sound op_div pc_after i c f = div-Sound pc_after i c
  execute-Sound op_divu pc_after i c f = ok-Returning c _ (
      if-Sound c _ _ _ (both-Sound c 33 32 _ _ pc_after (omega arith) (omega arith))
        (both-Sound c 33 32 _ _ pc_after (omega arith) (omega arith)))
  execute-Sound op_jal pc_after i c f = ok-Returning c _ (one-Sound c 31 _ _ (omega arith))
  execute-Sound op_j pc_after i c f = ok-Returning c _ (none-Sound c _)
  execute-Sound op_jalr pc_after i c f =
      ok-Returning c _ (one-Sound c i.rd _ _ (omega (arith, f.rd_small)))
  execute-Sound op_jr pc_after i c f = ok-Returning c _ (none-Sound c _)
  execute-Sound op_lb pc_after i c f = load_byte-Sound true pc_after i c f
  execute-Sound op_lbu pc_after i c f = load_byte-Sound false pc_after i c f
  execute-Sound op_lh pc_after i c f = load_half-Sound true pc_after i c f
  execute-Sound op_lhu pc_after i c f = load_half-Sound false pc_after i c f
  execute-Sound op_lui pc_after i c f = ok-Returning c _ (rt-Sound _ pc_after i c f)
  execute-Sound op_lw pc_after i c f = load_word-Sound pc_after i c f
  execute-Sound op_lwl pc_after i c f = load_word_left-Sound pc_after i c f
  execute-Sound op_lwr pc_after i c f = load_word_right-Sound pc_after i c f
  execute-Sound op_mfhi pc_after i c f = ok-Returning c _ (rd-Sound _ pc_after i c f)
  execute-Sound op_mflo pc_after i c f = ok-Returning c _ (rd-Sound _ pc_after i c f)
  execute-Sound op_mthi pc_after i c f = ok-Returning c _ (one-Sound c 32 _ pc_after (omega arith))
  execute-Sound op_mtlo pc_after i c f = ok-Returning c _ (one-Sound c 33 _ pc_after (omega arith))
  execute-Sound op_mult pc_after i c f =
      ok-Returning c _ (both-Sound c 32 33 _ _ pc_after (omega arith) (omega arith))
  execute-Sound op_multu pc_after i c f =
      ok-Returning c _ (both-Sound c 32 33 _ _ pc_after (omega arith) (omega arith))
  execute-Sound op_nor pc_after i c f = ok-Returning c _ (rd-Sound _ pc_after i c f)
  execute-Sound op_or pc_after i c f = ok-Returning c _ (rd-Sound _ pc_after i c f)
  execute-Sound op_ori pc_after i c f = ok-Returning c _ (rt-Sound _ pc_after i c f)
  execute-Sound op_sb pc_after i c f = store_register-Sound 1 pc_after i c
  execute-Sound op_sh pc_after i c f = store_register-Sound 2 pc_after i c
  execute-Sound op_sll pc_after i c f = ok-Returning c _ (rd-Sound _ pc_after i c f)
  execute-Sound op_sllv pc_after i c f = ok-Returning c _ (rd-Sound _ pc_after i c f)
  execute-Sound op_slt pc_after i c f = ok-Returning c _ (rd-Sound _ pc_after i c f)
  execute-Sound op_slti pc_after i c f = ok-Returning c _ (rt-Sound _ pc_after i c f)
  execute-Sound op_sltiu pc_after i c f = ok-Returning c _ (rt-Sound _ pc_after i c f)
  execute-Sound op_sltu pc_after i c f = ok-Returning c _ (rd-Sound _ pc_after i c f)
  execute-Sound op_sra pc_after i c f = ok-Returning c _ (rd-Sound _ pc_after i c f)
  execute-Sound op_srav pc_after i c f = ok-Returning c _ (rd-Sound _ pc_after i c f)
  execute-Sound op_srl pc_after i c f = ok-Returning c _ (rd-Sound _ pc_after i c f)
  execute-Sound op_srlv pc_after i c f = ok-Returning c _ (rd-Sound _ pc_after i c f)
  execute-Sound op_sub pc_after i c f =
      ok-Returning c _ (if-Sound c _ _ _ (raised-Sound c _ _) (rd-Sound _ pc_after i c f))
  execute-Sound op_subu pc_after i c f = ok-Returning c _ (rd-Sound _ pc_after i c f)
  execute-Sound op_sw pc_after i c f = store_register-Sound 4 pc_after i c
  execute-Sound op_swl pc_after i c f = store_merged-Sound store_left pc_after i c
  execute-Sound op_swr pc_after i c f = store_merged-Sound store_right pc_after i c
  execute-Sound op_xor pc_after i c f = ok-Returning c _ (rd-Sound _ pc_after i c f)
  execute-Sound op_xori pc_after i c f = ok-Returning c _ (rt-Sound _ pc_after i c f)
  execute-Sound op_syscall pc_after i c f = ok-Returning c _ (raised-Sound c _ 0)
  execute-Sound op_res pc_after i c f = ok-Returning c _ (raised-Sound c _ 0)
  execute-Sound op_unimp pc_after i c f = ok-Returning c _ (raised-Sound c _ 0)
  execute-Sound op_rfe pc_after i c f = abort-Returning c
  execute-Sound special pc_after i c f = abort-Returning c
  execute-Sound bcond pc_after i c f = abort-Returning c
