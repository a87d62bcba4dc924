-- ===== src/Cpu/Decode.antt =====
-- `Instruction::Decode` of machine/mipssim.cc, with the operation codes and the tables of
-- machine/mipssim.h.
pub mod Fields
pub mod Encode
use Prim.Native.Nat.{bit_and, bit_or}
use osproject.Base.{
  ℕ, ◌+◌, ◌*◌, ◌/◌, ◌%◌, ◌^◌, Bool, true, false, not, List, [], ◌∷◌, ◌==◌, if◌then◌else◌, get_or,
}
use osproject.Cpu.Word.{shr32}

-- The operation codes. `special` and `bcond` stand in the table for further decoding.
pub data OpCode : Type 0 where
  op_add : OpCode
  op_addi : OpCode
  op_addiu : OpCode
  op_addu : OpCode
  op_and : OpCode
  op_andi : OpCode
  op_beq : OpCode
  op_bgez : OpCode
  op_bgezal : OpCode
  op_bgtz : OpCode
  op_blez : OpCode
  op_bltz : OpCode
  op_bltzal : OpCode
  op_bne : OpCode
  op_div : OpCode
  op_divu : OpCode
  op_j : OpCode
  op_jal : OpCode
  op_jalr : OpCode
  op_jr : OpCode
  op_lb : OpCode
  op_lbu : OpCode
  op_lh : OpCode
  op_lhu : OpCode
  op_lui : OpCode
  op_lw : OpCode
  op_lwl : OpCode
  op_lwr : OpCode
  op_mfhi : OpCode
  op_mflo : OpCode
  op_mthi : OpCode
  op_mtlo : OpCode
  op_mult : OpCode
  op_multu : OpCode
  op_nor : OpCode
  op_or : OpCode
  op_ori : OpCode
  op_rfe : OpCode
  op_sb : OpCode
  op_sh : OpCode
  op_sll : OpCode
  op_sllv : OpCode
  op_slt : OpCode
  op_slti : OpCode
  op_sltiu : OpCode
  op_sltu : OpCode
  op_sra : OpCode
  op_srav : OpCode
  op_srl : OpCode
  op_srlv : OpCode
  op_sub : OpCode
  op_subu : OpCode
  op_sw : OpCode
  op_swl : OpCode
  op_swr : OpCode
  op_xor : OpCode
  op_xori : OpCode
  op_syscall : OpCode
  op_unimp : OpCode
  op_res : OpCode
  special : OpCode
  bcond : OpCode

pub data Format : Type 0 where
  ifmt : Format
  jfmt : Format
  rfmt : Format

-- `opTable`: the members of `OpInfo`, the translated code and the format.
abbrev pub op_table : List (OpCode × Format)
op_table =
    (special, rfmt)
    ∷ (bcond, ifmt)
    ∷ (op_j, jfmt)
    ∷ (op_jal, jfmt)
    ∷ (op_beq, ifmt)
    ∷ (op_bne, ifmt)
    ∷ (op_blez, ifmt)
    ∷ (op_bgtz, ifmt)
    ∷ (op_addi, ifmt)
    ∷ (op_addiu, ifmt)
    ∷ (op_slti, ifmt)
    ∷ (op_sltiu, ifmt)
    ∷ (op_andi, ifmt)
    ∷ (op_ori, ifmt)
    ∷ (op_xori, ifmt)
    ∷ (op_lui, ifmt)
    ∷ (op_unimp, ifmt)
    ∷ (op_unimp, ifmt)
    ∷ (op_unimp, ifmt)
    ∷ (op_unimp, ifmt)
    ∷ (op_res, ifmt)
    ∷ (op_res, ifmt)
    ∷ (op_res, ifmt)
    ∷ (op_res, ifmt)
    ∷ (op_res, ifmt)
    ∷ (op_res, ifmt)
    ∷ (op_res, ifmt)
    ∷ (op_res, ifmt)
    ∷ (op_res, ifmt)
    ∷ (op_res, ifmt)
    ∷ (op_res, ifmt)
    ∷ (op_res, ifmt)
    ∷ (op_lb, ifmt)
    ∷ (op_lh, ifmt)
    ∷ (op_lwl, ifmt)
    ∷ (op_lw, ifmt)
    ∷ (op_lbu, ifmt)
    ∷ (op_lhu, ifmt)
    ∷ (op_lwr, ifmt)
    ∷ (op_res, ifmt)
    ∷ (op_sb, ifmt)
    ∷ (op_sh, ifmt)
    ∷ (op_swl, ifmt)
    ∷ (op_sw, ifmt)
    ∷ (op_res, ifmt)
    ∷ (op_res, ifmt)
    ∷ (op_swr, ifmt)
    ∷ (op_res, ifmt)
    ∷ (op_unimp, ifmt)
    ∷ (op_unimp, ifmt)
    ∷ (op_unimp, ifmt)
    ∷ (op_unimp, ifmt)
    ∷ (op_res, ifmt)
    ∷ (op_res, ifmt)
    ∷ (op_res, ifmt)
    ∷ (op_res, ifmt)
    ∷ (op_unimp, ifmt)
    ∷ (op_unimp, ifmt)
    ∷ (op_unimp, ifmt)
    ∷ (op_unimp, ifmt)
    ∷ (op_res, ifmt)
    ∷ (op_res, ifmt)
    ∷ (op_res, ifmt)
    ∷ (op_res, ifmt)
    ∷ []

-- `specialTable`
abbrev pub special_table : List OpCode
special_table =
    op_sll ∷ op_res ∷ op_srl ∷ op_sra ∷ op_sllv ∷ op_res ∷ op_srlv ∷ op_srav ∷ op_jr ∷ op_jalr
    ∷ op_res ∷ op_res ∷ op_syscall ∷ op_unimp ∷ op_res ∷ op_res ∷ op_mfhi ∷ op_mthi ∷ op_mflo
    ∷ op_mtlo ∷ op_res ∷ op_res ∷ op_res ∷ op_res ∷ op_mult ∷ op_multu ∷ op_div ∷ op_divu ∷ op_res
    ∷ op_res ∷ op_res ∷ op_res ∷ op_add ∷ op_addu ∷ op_sub ∷ op_subu ∷ op_and ∷ op_or ∷ op_xor
    ∷ op_nor ∷ op_res ∷ op_res ∷ op_slt ∷ op_sltu ∷ op_res ∷ op_res ∷ op_res ∷ op_res ∷ op_res
    ∷ op_res ∷ op_res ∷ op_res ∷ op_res ∷ op_res ∷ op_res ∷ op_res ∷ op_res ∷ op_res ∷ op_res
    ∷ op_res ∷ op_res ∷ op_res ∷ op_res ∷ op_res ∷ []

-- The members of `Instruction`; `extra` is an `int`, as a word.
pub record Instruction : Type 0 where
  pub value : ℕ
  pub op_code : OpCode
  pub rs : ℕ
  pub rt : ℕ
  pub rd : ℕ
  pub extra : ℕ

-- `extra`, by the format.
unfoldable pub decode_extra : Format → ℕ → ℕ
decode_extra ifmt value =
    let extra = bit_and value 65535 in
    if not (bit_and extra 32768 == 0) then bit_or extra 4294901760 else extra
decode_extra rfmt value = bit_and (shr32 value 6) 31
decode_extra jfmt value = bit_and value 67108863

-- The branches that the field rt tells apart.
unfoldable pub decode_bcond : ℕ → OpCode
decode_bcond value =
    let i = bit_and value 2031616 in
    if i == 0
    then op_bltz
    else if i == 65536
    then op_bgez
    else if i == 1048576
    then op_bltzal
    else if i == 1114112
    then op_bgezal
    else op_unimp

-- `opCode` by the table entry.
unfoldable pub decode_op : OpCode → ℕ → OpCode
unfolding decode_bcond
decode_op special value = get_or special_table (bit_and value 63) op_res
decode_op bcond value = decode_bcond value
decode_op op value = op

unfoldable pub decode : ℕ → Instruction
unfolding decode_extra decode_op
decode value =
    let info = get_or op_table (bit_and (shr32 value 26) 63) (op_res, ifmt) in
    record {
      value = value;
      op_code = decode_op info.0 value;
      rs = bit_and (shr32 value 21) 31;
      rt = bit_and (shr32 value 16) 31;
      rd = bit_and (shr32 value 11) 31;
      extra = decode_extra info.1 value;
    }
