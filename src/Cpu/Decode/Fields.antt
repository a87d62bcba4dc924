-- ===== src/Cpu/Decode/Fields.antt =====
-- The fields that `Decode` cuts out of an instruction.
use Prim.Native.Nat.{bit_and}
use osproject.Base.{ℕ, ◌/◌, ◌%◌, ◌^◌, ◌<◌, ◌≡◌, arith}
use osproject.Base.Masks.{and_low}
use osproject.Cpu.Word.{shr32}
use osproject.Cpu.Decode.{Instruction, decode}

-- The fields that name registers have five bits.
pub record Fields (i : Instruction) : Type 0 where
  pub rs_small : i.rs < 32
  pub rt_small : i.rt < 32
  pub rd_small : i.rd < 32

pub field_of : (value k : ℕ) → bit_and (shr32 value k) 31 ≡ value / 2 ^ k % 32
field_of value k = and_low 5 (value / 2 ^ k)

pub decode-Fields : (value : ℕ) → Fields (decode value)
unfolding decode
decode-Fields value = record {
  rs_small = omega (arith, field_of value 21);
  rt_small = omega (arith, field_of value 16);
  rd_small = omega (arith, field_of value 11);
}
