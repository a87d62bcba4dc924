-- ===== src/Cpu/Step/Laws.antt =====
-- What one step of the processor keeps and changes.
use osproject.Base.{ℕ, ◌<◌, ◌≡◌, refl, ap, ◌∙◌, ◌≢◌, if◌then◌else◌, ◌==◌, lt→ltb, arith}
use osproject.Base.Outcome.{ok}
use osproject.Vm.Host.{Host}
use osproject.Cpu.{Cpu}
use osproject.Cpu.Registers.{
  pc_reg, next_pc_reg, prev_pc_reg, load_reg, load_value_reg, bad_vaddr_reg, write_register,
  delayed_load, raise_exception,
}
use osproject.Cpu.Effect.{Effect}
use osproject.Cpu.Step.{Step, executed, faulted, system_call}
use osproject.Cpu.Step.Sound.{Sound}

-- Register 0 is zero, and the pending load is for a general register.
pub record IsValid (c : Cpu) : Type 0 where
  pub zero_reg : c.registers 0 ≡ 0
  pub general_load : c.registers load_reg < 32

-- The pending load has been done.
abbrev pub Loaded : Cpu → Cpu → Type 0
Loaded c c' =
    c.registers load_reg ≢ 0 → c'.registers (c.registers load_reg) ≡ c.registers load_value_reg

-- The program counters have moved on by one instruction.
abbrev pub Advanced : Cpu → Cpu → Type 0
Advanced c c' =
    (c'.registers pc_reg ≡ c.registers next_pc_reg)
    × (c'.registers prev_pc_reg ≡ c.registers pc_reg)

-- Nothing has happened to the registers, the program counters included, but for the pending load.
abbrev pub Untouched : Cpu → Cpu → Type 0
Untouched c c' =
    (c'.registers load_reg ≡ 0)
    × ((r : ℕ) → r ≢ 0 → r < load_reg → r ≢ c.registers load_reg → c'.registers r ≡ c.registers r)

abbrev pub Moves : Cpu → Cpu → Step → Type 0
Moves c c' executed = Advanced c c'
Moves c c' faulted = Untouched c c'
Moves c c' system_call = Untouched c c'

abbrev pub Stepped : Cpu → Cpu × Step → Type 0
Stepped c (c', step) = IsValid c' × Loaded c c' × Moves c c' step

-- The registers after `DelayedLoad`.
pub record AfterLoad (c : Cpu) (load_to loaded : ℕ) (c' : Cpu) : Type 0 where
  pub zero_reg : c'.registers 0 ≡ 0
  pub next_load : c'.registers load_reg ≡ load_to
  pub done_load : Loaded c c'
  pub others :
      (r : ℕ)
      → r ≢ 0
      → r ≢ load_reg
      → r ≢ load_value_reg
      → r ≢ c.registers load_reg
      → c'.registers r ≡ c.registers r

pub delayed_load_lem :
    (c : Cpu) (load_to loaded : ℕ)
    → c.registers load_reg < 32
    → (c' : Cpu) × (delayed_load c load_to loaded ≡ ok c') × AfterLoad c load_to loaded c'
unfolding delayed_load
delayed_load_lem c load_to loaded small = rw (lt→ltb (c.registers load_reg) 40 (omega arith)) (
  _,
  refl,
  record {
    zero_reg = refl;
    next_load = refl;
    done_load = λ some_load. ground arith;
    others = λ r a b d e. ground arith;
  },
)

-- What a trap leaves.
pub trap_lem :
    (c : Cpu) (bad_vaddr : ℕ)
    → IsValid c
    → (c' : Cpu) × (raise_exception c bad_vaddr ≡ ok c')
      × (IsValid c' × Loaded c c' × Untouched c c')
unfolding raise_exception
trap_lem c bad_vaddr valid =
    let (c', e, after) =
      delayed_load_lem (write_register c bad_vaddr_reg bad_vaddr) 0 0 valid.general_load in
    (
      c',
      e,
      (
        record { zero_reg = after.zero_reg; general_load = omega (arith, after.next_load) },
        after.done_load,
        (
          after.next_load,
          λ r some_reg low other.
              after.others r some_reg (omega arith) (omega arith) other ∙ not_bad r low,
        ),
      ),
    )
  where
    not_bad :
        (r : ℕ)
        → r < load_reg
        → (if r == bad_vaddr_reg then bad_vaddr else c.registers r) ≡ c.registers r
    not_bad r low = ground arith

pub IsValid-same : (c1 c : Cpu) → c1.registers ≡ c.registers → IsValid c → IsValid c1
IsValid-same c1 c same valid = record {
  zero_reg = ap (λ f. f 0) same ∙ valid.zero_reg;
  general_load = omega (arith, ap (λ f. f load_reg) same, valid.general_load);
}

-- The end of `OneInstruction`.
abbrev advance : Cpu → ℕ → Cpu
advance c pc_after =
    let c2 = write_register c prev_pc_reg (c.registers pc_reg) in
    let c3 = write_register c2 pc_reg (c2.registers next_pc_reg) in
    write_register c3 next_pc_reg pc_after
