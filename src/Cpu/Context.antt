-- ===== src/Cpu/Context.antt =====
-- The registers of a user program across the kernel: `ReadRegister` and `WriteRegister`
-- (machine/machine.cc), `SaveUserState` and `RestoreUserState` (threads/thread.cc), `InitRegisters`
-- (userprog/addrspace.cc) and `returnFromSystemCall` (userprog/exception.cc).
use osproject.Base.{
  ℕ, zero, suc, ◌+◌, ◌-◌, ◌*◌, ◌%◌, ◌^◌, ◌≤◌, ◌<◌, ◌≡◌, refl, ◌∙◌, Bool, true, inl, inr, ◌&&◌, ltb,
  leb, ◌==◌, if◌then◌else◌, arith, Bool-cases, lt→ltb,
}
use osproject.Base.Outcome.{Outcome, ok, ◌>>=◌, ◌>>◌, assert}
use osproject.Cpu.{Cpu}
use osproject.Cpu.Registers.{num_total_regs, pc_reg, next_pc_reg, prev_pc_reg}

-- `Machine::ReadRegister`
unfoldable pub read_reg : Cpu → ℕ → Outcome ℕ
read_reg c num = assert (ltb num num_total_regs) >> ok (c.registers num)

-- `Machine::WriteRegister`
unfoldable pub write_reg : Cpu → ℕ → ℕ → Outcome Cpu
write_reg c num value =
    assert (ltb num num_total_regs)
    >> ok (record c { registers = λ r. if r == num then value else c.registers r })

-- The loop of `SaveUserState` from `i` on, with `n` rounds left: the array `userRegisters`.
unfoldable pub save_from : ℕ → ℕ → Cpu → (ℕ → ℕ) → Outcome (ℕ → ℕ)
save_from i zero c user_registers = ok user_registers
save_from i (suc n) c user_registers = do
  value ← read_reg c i
  save_from (i + 1) n c (λ r. if r == i then value else user_registers r)

-- `Thread::SaveUserState`
unfoldable pub save_user_state : Cpu → (ℕ → ℕ) → Outcome (ℕ → ℕ)
save_user_state c user_registers = save_from 0 num_total_regs c user_registers

-- The loop of `RestoreUserState` from `i` on, with `n` rounds left.
unfoldable pub restore_from : ℕ → ℕ → (ℕ → ℕ) → Cpu → Outcome Cpu
restore_from i zero user_registers c = ok c
restore_from i (suc n) user_registers c = do
  c' ← write_reg c i (user_registers i)
  restore_from (i + 1) n user_registers c'

-- `Thread::RestoreUserState`
unfoldable pub restore_user_state : (ℕ → ℕ) → Cpu → Outcome Cpu
restore_user_state user_registers c = restore_from 0 num_total_regs user_registers c

abbrev pub stack_reg : ℕ
stack_reg = 29

-- `AddrSpace::InitRegisters`; `numPages * PageSize - 16` is an `unsigned int` that becomes an `int`.
unfoldable pub init_registers : ℕ → Cpu → Outcome Cpu
init_registers num_pages c = do
  c1 ← restore_from 0 num_total_regs (λ r. 0) c
  c2 ← write_reg c1 pc_reg 0
  c3 ← write_reg c2 next_pc_reg 4
  write_reg c3 stack_reg ((num_pages * 128 + 2 ^ 32 - 16) % 2 ^ 32)

-- `returnFromSystemCall`
unfoldable pub return_from_system_call : Cpu → Outcome Cpu
return_from_system_call c = do
  pc ← read_reg c pc_reg
  next_pc ← read_reg c next_pc_reg
  c1 ← write_reg c prev_pc_reg pc
  c2 ← write_reg c1 pc_reg next_pc
  write_reg c2 next_pc_reg ((next_pc + 4) % 2 ^ 32)

-- The registers that a loop from `i` over `n` registers reaches.
abbrev pub reached : ℕ → ℕ → ℕ → Bool
reached i n r = leb i r && ltb r (i + n)

save_from_lem :
    (n i : ℕ) (c : Cpu) (user : ℕ → ℕ)
    → i + n ≤ num_total_regs
    → (user' : ℕ → ℕ) × (save_from i n c user ≡ ok user')
      × ((r : ℕ) → user' r ≡ (if reached i n r then c.registers r else user r))
unfolding save_from read_reg
save_from_lem zero i c user h = (user, refl, λ r. ground arith)
save_from_lem (suc n) i c user h =
    let small : ltb i num_total_regs ≡ true = lt→ltb _ _ (omega arith) in
    let (user', step, at) =
      save_from_lem n (i + 1) c (λ r. if r == i then c.registers i else user r) (omega arith) in
    (
      user',
      rw small step,
      λ r. at r ∙ elim (Bool-cases (r == i)) [
        | inl e ↦ let same : r ≡ i = ground arith in rw same (ground arith)
        | inr e ↦ rw e (ground arith)
      ],
    )

restore_from_lem :
    (n i : ℕ) (user : ℕ → ℕ) (c : Cpu)
    → i + n ≤ num_total_regs
    → (c' : Cpu) × (restore_from i n user c ≡ ok c')
      × (c'.vm ≡ c.vm)
      × ((r : ℕ) → c'.registers r ≡ (if reached i n r then user r else c.registers r))
unfolding restore_from write_reg
restore_from_lem zero i user c h = (c, refl, refl, λ r. ground arith)
restore_from_lem (suc n) i user c h =
    let small : ltb i num_total_regs ≡ true = lt→ltb _ _ (omega arith) in
    let (c', step, same, at) =
      restore_from_lem n (i + 1) user
        (record c { registers = λ r. if r == i then user i else c.registers r }) (omega arith) in
    (
      c',
      rw small step,
      same,
      λ r. at r ∙ elim (Bool-cases (r == i)) [
        | inl e ↦ let same : r ≡ i = ground arith in rw same (ground arith)
        | inr e ↦ rw e (ground arith)
      ],
    )

-- A user program that is resumed finds the registers that it was stopped with, whatever ran in
-- between, and the memory as it is then.
pub restore_user_state-save_user_state :
    (c c1 : Cpu) (old : ℕ → ℕ)
    → (user : ℕ → ℕ) × (c' : Cpu) × (save_user_state c old ≡ ok user)
      × (restore_user_state user c1 ≡ ok c')
      × (c'.vm ≡ c1.vm)
      × ((r : ℕ)
          → c'.registers r ≡ (if ltb r num_total_regs then c.registers r else c1.registers r))
unfolding save_user_state restore_user_state
restore_user_state-save_user_state c c1 old =
    let (user, saved, at) = save_from_lem num_total_regs 0 c old (omega arith) in
    let (c', restored, same, at') = restore_from_lem num_total_regs 0 user c1 (omega arith) in
    (user, c', saved, restored, same, λ r. at' r ∙ rw (at r) (ground arith))

-- A program starts at address 0, with its stack 16 bytes below the end of its memory, and with 0 in
-- the other registers.
pub init_registers_lem :
    (num_pages : ℕ) (c : Cpu)
    → 0 < num_pages
    → num_pages * 128 < 2 ^ 32
    → (c' : Cpu) × (init_registers num_pages c ≡ ok c')
      × (c'.vm ≡ c.vm)
      × ((r : ℕ)
          → c'.registers r ≡ (
              if r == stack_reg
              then num_pages * 128 - 16
              else if r == next_pc_reg
              then 4
              else if ltb r num_total_regs
              then 0
              else c.registers r))
unfolding init_registers write_reg
init_registers_lem num_pages c some_pages small =
    let (c1, step, same, at) = restore_from_lem num_total_regs 0 (λ r. 0) c (omega arith) in
    let c' : Cpu = record c1 {
      registers = λ r.
          if r == stack_reg
          then (num_pages * 128 + 2 ^ 32 - 16) % 2 ^ 32
          else if r == next_pc_reg
          then 4
          else if r == pc_reg
          then 0
          else c1.registers r;
    } in
    let stack : (num_pages * 128 + 2 ^ 32 - 16) % 2 ^ 32 ≡ num_pages * 128 - 16 = omega arith in
    (c', rw step refl, same, λ r. rw (stack, at r) (ground arith))

-- The program goes on after the instruction of the system call: each program counter takes the
-- place of the one before it.
pub return_from_system_call_lem :
    (c : Cpu)
    → (c' : Cpu) × (return_from_system_call c ≡ ok c')
      × (c'.vm ≡ c.vm)
      × ((r : ℕ)
          → c'.registers r ≡ (
              if r == next_pc_reg
              then (c.registers next_pc_reg + 4) % 2 ^ 32
              else if r == pc_reg
              then c.registers next_pc_reg
              else if r == prev_pc_reg
              then c.registers pc_reg
              else c.registers r))
unfolding return_from_system_call read_reg write_reg
return_from_system_call_lem c = (
  record c {
    registers = λ r.
        if r == next_pc_reg
        then (c.registers next_pc_reg + 4) % 2 ^ 32
        else if r == pc_reg
        then c.registers next_pc_reg
        else if r == prev_pc_reg
        then c.registers pc_reg
        else c.registers r;
  },
  refl,
  refl,
  λ r. refl,
)
