-- ===== src/Cpu/Decode/Encode.antt =====
-- The formats of the MIPS instruction words, which `Decode` takes apart.
use Prim.Native.Nat.{bit_and, bit_or}
use osproject.Base.{
  ℕ, ◌+◌, ◌-◌, ◌*◌, ◌/◌, ◌%◌, ◌<◌, ◌≡◌, refl, ap, ◌∙◌, inl, inr, true, false, if◌then◌else◌, ◌==◌,
  ltb, get_or, arith, Bool-cases,
}
use osproject.Base.Int.{ℤ, pos, negsuc}
use osproject.Base.Bits.{and_pow}
use osproject.Base.Masks.{and_low, bit_at-div, or_add, or_comm}
use osproject.Cpu.Word.{sign_bit, signed, shr32}
use osproject.Cpu.Decode.{
  Format, ifmt, jfmt, op_res, op_table, special_table, decode_extra, decode_op, decode,
}
use osproject.Cpu.Decode.Fields.{field_of}

-- An immediate instruction, a jump and a register instruction.
abbrev pub encode_i : ℕ → ℕ → ℕ → ℕ → ℕ
encode_i op rs rt immediate = op * 67108864 + rs * 2097152 + rt * 65536 + immediate

abbrev pub encode_j : ℕ → ℕ → ℕ
encode_j op target = op * 67108864 + target

abbrev pub encode_r : ℕ → ℕ → ℕ → ℕ → ℕ → ℕ
encode_r rs rt rd shamt funct = rs * 2097152 + rt * 65536 + rd * 2048 + shamt * 64 + funct

-- The format of an operation, by the table.
abbrev pub format_of : ℕ → Format
format_of op = (get_or op_table op (op_res, ifmt)).1

-- A number of sixteen bits with its sign.
abbrev pub signed_half : ℕ → ℤ
signed_half h = if ltb h 32768 then pos h else negsuc (65536 - h - 1)

immediate_lem : (value h : ℕ) → value % 65536 ≡ h → signed (decode_extra ifmt value) ≡ signed_half h
unfolding decode_extra
immediate_lem value h e =
    let low : bit_and value 65535 ≡ h = and_low 16 value ∙ e in
    let bit : bit_and h 32768 ≡ h / 32768 % 2 * 32768 =
      and_pow 15 h ∙ ap (λ b. b * 32768) (bit_at-div 15 h) in
    let joined : bit_or h 4294901760 ≡ 4294901760 + h =
      or_comm h 4294901760 ∙ or_add 16 65535 h (omega (arith, e)) in
    rw (low, bit, joined)
      (elim (Bool-cases (ltb h 32768)) [
        | inl small ↦
            let off : (h / 32768 % 2 * 32768 == 0) ≡ true = ground arith in
            let nonneg : ltb h sign_bit ≡ true = ground arith in rw (off, small, nonneg) refl
        | inr big ↦
            let on : (h / 32768 % 2 * 32768 == 0) ≡ false = ground (arith, e) in
            let neg : ltb (4294901760 + h) sign_bit ≡ false = ground arith in
            rw (on, big, neg) (ap negsuc (omega arith))
      ])

index_lem : (value op : ℕ) → value / 67108864 % 64 ≡ op → bit_and (shr32 value 26) 63 ≡ op
index_lem value op e = and_low 6 (value / 67108864) ∙ e

-- Decode takes back what an immediate instruction of the instruction set puts into its word: for
-- an operation that the table has in this format, the two registers, and the operand with its
-- sign.
pub decode-encode_i :
    (op rs rt immediate : ℕ)
    → op < 64
    → rs < 32
    → rt < 32
    → immediate < 65536
    → format_of op ≡ ifmt
    → let i = decode (encode_i op rs rt immediate) in
      (i.rs ≡ rs) × (i.rt ≡ rt) × (signed i.extra ≡ signed_half immediate)
unfolding decode
decode-encode_i op rs rt immediate h1 h2 h3 h4 fmt =
    rw (index_lem (encode_i op rs rt immediate) op (omega arith), fmt)
      (
        field_of _ 21 ∙ omega arith,
        field_of _ 16 ∙ omega arith,
        immediate_lem _ immediate (omega arith),
      )

-- Decode takes back what a register instruction puts into its word: the three registers, the shift
-- amount, and the operation that the second table has for its function.
pub decode-encode_r :
    (rs rt rd shamt funct : ℕ)
    → rs < 32
    → rt < 32
    → rd < 32
    → shamt < 32
    → funct < 64
    → let i = decode (encode_r rs rt rd shamt funct) in
      (i.rs ≡ rs)
      × (i.rt ≡ rt)
      × (i.rd ≡ rd)
      × (i.extra ≡ shamt)
      × (i.op_code ≡ get_or special_table funct op_res)
unfolding decode decode_op decode_extra
decode-encode_r rs rt rd shamt funct h1 h2 h3 h4 h5 =
    let value = encode_r rs rt rd shamt funct in
    let low : bit_and value 63 ≡ funct = and_low 6 value ∙ omega arith in
    rw (index_lem value 0 (omega arith), low)
      (
        field_of value 21 ∙ omega arith,
        field_of value 16 ∙ omega arith,
        field_of value 11 ∙ omega arith,
        field_of value 6 ∙ omega arith,
        refl,
      )

-- A jump gives its target.
decode-encode_j :
    (op target : ℕ)
    → op < 64
    → target < 67108864
    → format_of op ≡ jfmt
    → (decode (encode_j op target)).extra ≡ target
unfolding decode decode_extra
decode-encode_j op target h1 h2 fmt =
    rw (index_lem (encode_j op target) op (omega arith), fmt)
      (and_low 26 (encode_j op target) ∙ omega arith)
