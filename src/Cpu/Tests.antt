-- ===== src/Cpu/Tests.antt =====
-- Instances of the theorems on the processor, which runs the program of Vm.Tests.
use osproject.Base.{◌*◌, ◌≡◌, true, false, if◌then◌else◌, ◌==◌, arith, inl}
use osproject.Base.Int.{◌+ℤ◌, ◌-ℤ◌, ◌*ℤ◌}
use osproject.Vm.Tests.{full}
use osproject.Cpu.{Cpu}
use osproject.Cpu.Word.{signed}
use osproject.Cpu.Decode.{Instruction, op_add}
use osproject.Cpu.Effect.{raised, assign_rd, assign_rt, overflow_exception}
use osproject.Cpu.Mult.{mult}
use osproject.Cpu.Mult.Laws.{unsigned_double, signed_double, mult_lem}
use osproject.Cpu.Alu.{div, add, addi, sub}
use osproject.Cpu.Alu.Quotient.{Divides, div-Divides}
use osproject.Cpu.Alu.Laws.{Exact, add-sub-Exact}

-- -3 * 5, and the word of -3 taken without a sign.
mult_lem_example :
    (unsigned_double (mult 4294967293 5 false) ≡ 4294967293 * 5)
    × (signed_double (mult 4294967293 5 true) ≡ signed 4294967293 *ℤ signed 5)
mult_lem_example = mult_lem 4294967293 5 (omega arith) (omega arith)

-- The largest number in register 1, 5 in register 2, and a load pending for register 8; the program
-- is about to run the instruction at 520.
abbrev busy : Cpu
busy = record {
  registers = λ r.
      if r == 1
      then 2147483647
      else if r == 2
      then 5
      else if r == 34
      then 520
      else if r == 35
      then 524
      else if r == 37
      then 8
      else if r == 38
      then 77
      else 0;
  vm = full;
}

-- add r3, r1, r2, with -1 as the operand of an immediate form.
abbrev sum_instruction : Instruction
sum_instruction = record { value = 0; op_code = op_add; rs = 1; rt = 2; rd = 3; extra = 4294967295 }

add-sub-Exact_example :
    Exact
      (signed 2147483647 +ℤ signed 5)
      (λ w. assign_rd w 528 sum_instruction busy)
      (raised busy overflow_exception 0)
      (add 528 sum_instruction busy)
    × Exact
        (signed 2147483647 +ℤ signed 4294967295)
        (λ w. assign_rt w 528 sum_instruction busy)
        (raised busy overflow_exception 0)
        (addi 528 sum_instruction busy)
    × Exact
        (signed 2147483647 -ℤ signed 5)
        (λ w. assign_rd w 528 sum_instruction busy)
        (raised busy overflow_exception 0)
        (sub 528 sum_instruction busy)
add-sub-Exact_example =
    add-sub-Exact 528 sum_instruction busy (omega arith) (omega arith) (omega arith)

-- 2147483647 / 5
div-Divides_example : Divides 528 2147483647 5 busy (div 528 sum_instruction busy)
div-Divides_example =
    div-Divides 528 sum_instruction busy (omega arith) (omega arith) (omega arith)
      (inl (λ same. omega (arith, same)))
