-- ===== src/Cpu/Memory.antt =====
-- The loads and stores of `OneInstruction` (machine/mipssim.cc).
use Prim.Native.Nat.{bit_and, bit_or}
use osproject.Base.{ℕ, Bool, not, ◌&&◌, ◌==◌, if◌then◌else◌}
use osproject.Base.Outcome.{ok, assert, ◌>>◌}
use osproject.Vm.Host.{Host}
use osproject.Vm.State.{AddrSpace}
use osproject.Cpu.{Cpu}
use osproject.Cpu.Word.{add32, shl32, sar32}
use osproject.Cpu.Registers.{load_reg, load_value_reg}
use osproject.Cpu.Effect.{done, raised, MemoryCase, with_read, with_write, address_error_exception}
use osproject.Cpu.Decode.{Instruction}

-- `registers[instr->rs] + instr->extra`
abbrev pub effective_address : Instruction → Cpu → ℕ
effective_address i c = add32 (c.registers i.rs) i.extra

-- The value of LB or LBU from what has been read.
abbrev pub extend_byte : Bool → ℕ → ℕ
extend_byte with_sign value =
    if not (bit_and value 128 == 0) && with_sign then bit_or value 4294967040 else bit_and value 255

-- The value of LH or LHU.
abbrev pub extend_half : Bool → ℕ → ℕ
extend_half with_sign value =
    if not (bit_and value 32768 == 0) && with_sign
    then bit_or value 4294901760
    else bit_and value 65535

-- What LWL and LWR merge the word with: the pending load, where it is for the same register.
abbrev pub merged_with : Instruction → Cpu → ℕ
merged_with i c =
    if c.registers load_reg == i.rt then c.registers load_value_reg else c.registers i.rt

-- `switch (tmp & 0x3)` of LWL
abbrev pub merge_left : ℕ → ℕ → ℕ → ℕ
merge_left tmp value old =
    let at = bit_and tmp 3 in
    if at == 0
    then value
    else if at == 1
    then bit_or (bit_and old 255) (shl32 value 8)
    else if at == 2
    then bit_or (bit_and old 65535) (shl32 value 16)
    else bit_or (bit_and old 16777215) (shl32 value 24)

-- `switch (tmp & 0x3)` of LWR
abbrev pub merge_right : ℕ → ℕ → ℕ → ℕ
merge_right tmp value old =
    let at = bit_and tmp 3 in
    if at == 0
    then bit_or (bit_and old 4294967040) (bit_and (sar32 value 24) 255)
    else if at == 1
    then bit_or (bit_and old 4294901760) (bit_and (sar32 value 16) 65535)
    else if at == 2
    then bit_or (bit_and old 4278190080) (bit_and (sar32 value 8) 16777215)
    else value

-- `switch (tmp & 0x3)` of SWL
abbrev pub store_left : ℕ → ℕ → ℕ → ℕ
store_left tmp value rt =
    let at = bit_and tmp 3 in
    if at == 0
    then rt
    else if at == 1
    then bit_or (bit_and value 4278190080) (bit_and (sar32 rt 8) 16777215)
    else if at == 2
    then bit_or (bit_and value 4294901760) (bit_and (sar32 rt 16) 65535)
    else bit_or (bit_and value 4294967040) (bit_and (sar32 rt 24) 255)

-- `switch (tmp & 0x3)` of SWR
abbrev pub store_right : ℕ → ℕ → ℕ → ℕ
store_right tmp value rt =
    let at = bit_and tmp 3 in
    if at == 0
    then bit_or (bit_and value 16777215) (shl32 rt 24)
    else if at == 1
    then bit_or (bit_and value 65535) (shl32 rt 16)
    else if at == 2
    then bit_or (bit_and value 255) (shl32 rt 8)
    else rt

module _ (host : Host) (a : AddrSpace) where
  -- `OP_LB` and `OP_LBU`
  unfoldable pub load_byte : Bool → MemoryCase
  load_byte with_sign pc_after i c =
      with_read host a c (effective_address i c) 1
        (λ c' value. ok (done c' pc_after i.rt (extend_byte with_sign value)))

  -- `OP_LH` and `OP_LHU`
  unfoldable pub load_half : Bool → MemoryCase
  load_half with_sign pc_after i c =
      let tmp = effective_address i c in
      if not (bit_and tmp 1 == 0)
      then ok (raised c address_error_exception tmp)
      else with_read host a c tmp 2
          (λ c' value. ok (done c' pc_after i.rt (extend_half with_sign value)))

  -- `OP_LW`
  unfoldable pub load_word : MemoryCase
  load_word pc_after i c =
      let tmp = effective_address i c in
      if not (bit_and tmp 3 == 0)
      then ok (raised c address_error_exception tmp)
      else with_read host a c tmp 4 (λ c' value. ok (done c' pc_after i.rt value))

  -- `OP_LWL`
  unfoldable pub load_word_left : MemoryCase
  load_word_left pc_after i c =
      let tmp = effective_address i c in
      assert (bit_and tmp 3 == 0)
      >> with_read host a c tmp 4
          (λ c' value. ok (done c' pc_after i.rt (merge_left tmp value (merged_with i c'))))

  -- `OP_LWR`
  unfoldable pub load_word_right : MemoryCase
  load_word_right pc_after i c =
      let tmp = effective_address i c in
      assert (bit_and tmp 3 == 0)
      >> with_read host a c tmp 4
          (λ c' value. ok (done c' pc_after i.rt (merge_right tmp value (merged_with i c'))))

  -- `OP_SB`, `OP_SH` and `OP_SW`
  unfoldable pub store_register : ℕ → MemoryCase
  store_register size pc_after i c =
      with_write host a c (effective_address i c) size (c.registers i.rt)
        (λ c'. ok (done c' pc_after 0 0))

  -- The common part of `OP_SWL` and `OP_SWR`.
  unfoldable pub store_merged : (ℕ → ℕ → ℕ → ℕ) → MemoryCase
  store_merged merge pc_after i c =
      let tmp = effective_address i c in
      assert (bit_and tmp 3 == 0)
      >> with_read host a c (bit_and tmp 4294967292) 4 (λ c' value.
        with_write host a c' (bit_and tmp 4294967292) 4 (merge tmp value (c'.registers i.rt))
          (λ c''. ok (done c'' pc_after 0 0)))
