-- ===== src/Interrupts.antt =====
-- machine/interrupt.cc: the simulated interrupts and the clock (machine/stats.h). The list of
-- pending interrupts is the sequence that the list of threads/list.h holds; keys are times, which
-- are never negative.
pub mod Due
mod Tests
use osproject.Base.{
  ℕ, zero, suc, ◌+◌, ◌-◌, Bool, true, false, not, ◌&&◌, ◌||◌, Option, none, some, List, [], ◌∷◌,
  ltb, if◌then◌else◌,
}
use osproject.Base.Int.{ℤ, pos, pos_part, ltb_ℤ}
use osproject.Base.Outcome.{Outcome, ok, fault, timeout, ◌>>=◌, ◌>>◌, assert}
use osproject.Cpu.{Cpu}
use osproject.Cpu.Word.{sign_bit}
use osproject.Cpu.Registers.{delayed_load}
use osproject.Threads.LinkedList.Refine.{insert_sorted}

pub data IntStatus : Type 0 where
  int_off : IntStatus
  int_on : IntStatus

pub data MachineStatus : Type 0 where
  idle_mode : MachineStatus
  system_mode : MachineStatus
  user_mode : MachineStatus

pub data IntType : Type 0 where
  timer_int : IntType
  disk_int : IntType
  console_write_int : IntType
  console_read_int : IntType
  network_send_int : IntType
  network_recv_int : IntType

-- `handler` stands for the procedure and its argument.
pub record PendingInterrupt (H : Type 0) : Type 0 where
  pub handler : H
  pub when : ℕ
  pub type : IntType

-- The members of `Interrupt`, the ticks of `stats`, the registers of `machine`, and the rest of the
-- kernel.
pub record Interrupt (H W : Type 0) : Type 0 where
  pub level : IntStatus
  pub pending : List (ℤ × PendingInterrupt H)
  pub in_handler : Bool
  pub yield_on_return : Bool
  pub status : MachineStatus
  pub total_ticks : ℕ
  pub idle_ticks : ℕ
  pub system_ticks : ℕ
  pub user_ticks : ℕ
  pub machine : Option Cpu
  pub world : W

abbrev pub user_tick : ℕ
user_tick = 1

abbrev pub system_tick : ℕ
system_tick = 10

abbrev pub is_off : IntStatus → Bool
is_off int_off = true
is_off int_on = false

abbrev pub is_idle : MachineStatus → Bool
is_idle idle_mode = true
is_idle system_mode = false
is_idle user_mode = false

abbrev pub is_timer : IntType → Bool
is_timer timer_int = true
is_timer disk_int = false
is_timer console_write_int = false
is_timer console_read_int = false
is_timer network_send_int = false
is_timer network_recv_int = false

abbrev pub is_none_pending {ℓ} : {A : Type ℓ} → List A → Bool
is_none_pending [] = true
is_none_pending (x ∷ xs) = false

-- A sum of `int`s, which C++ leaves undefined when it is too large.
abbrev pub add_ticks : ℕ → ℕ → Outcome ℕ
add_ticks a b = if ltb (a + b) sign_bit then ok (a + b) else fault

-- `if (machine != NULL) machine->DelayedLoad(0, 0);`
abbrev pub finish_load : Option Cpu → Outcome (Option Cpu)
finish_load none = ok none
finish_load (some c) = delayed_load c 0 0 >>= λ c'. ok (some c')

module _ {H W : Type 0} where
  -- `Interrupt::Schedule`. A negative `fromNow` fails the assertion as 0 does.
  unfoldable pub schedule : H → ℕ → IntType → Interrupt H W → Outcome (Interrupt H W)
  schedule handler from_now type i = do
    when ← add_ticks i.total_ticks from_now
    assert (ltb 0 from_now)
        >> ok (record i {
          pending =
              insert_sorted (pos when, record { handler = handler; when = when; type = type })
                i.pending;
        })

  -- The clock in `OneTick`.
  unfoldable pub advance_clock : Interrupt H W → Outcome (Interrupt H W)
  advance_clock i = elim i.status [
    | system_mode ↦
        (add_ticks i.total_ticks system_tick >>= λ t.
        ok (record i { total_ticks = t; system_ticks = i.system_ticks + system_tick }))
    | idle_mode ↦
        (add_ticks i.total_ticks user_tick >>= λ t.
        ok (record i { total_ticks = t; user_ticks = i.user_ticks + user_tick }))
    | user_mode ↦
        (add_ticks i.total_ticks user_tick >>= λ t.
        ok (record i { total_ticks = t; user_ticks = i.user_ticks + user_tick }))
  ]

-- `call` runs a handler, and `yield` is `currentThread->Yield()`.
module _ {H W : Type 0} (call : H → Interrupt H W → Outcome (Interrupt H W))
    (yield : Interrupt H W → Outcome (Interrupt H W)) where
  -- The end of `CheckIfDue`: the handler is called.
  unfoldable pub fire : PendingInterrupt H → Interrupt H W → Outcome (Interrupt H W × Bool)
  fire to_occur i = do
    machine ← finish_load i.machine
    i' ←
        call to_occur.handler
          (record i { machine = machine; in_handler = true; status = system_mode })
    ok (record i' { status = i.status; in_handler = false }, true)

  -- `CheckIfDue` once an interrupt has been taken off the list and is due.
  unfoldable pub fire_or_quit :
      ℤ → PendingInterrupt H → Interrupt H W → Outcome (Interrupt H W × Bool)
  fire_or_quit key to_occur i =
      if is_idle i.status && is_timer to_occur.type && is_none_pending i.pending
      then ok (record i { pending = insert_sorted (key, to_occur) i.pending }, false)
      else fire to_occur i

  -- `Interrupt::CheckIfDue`
  unfoldable pub check_if_due : Bool → Interrupt H W → Outcome (Interrupt H W × Bool)
  check_if_due advance_clock i = assert (is_off i.level) >> elim i.pending [
    | [] ↦ ok (i, false)
    | first ∷ rest ↦
        let key = first.0 in
        let to_occur = first.1 in
        let taken = record i { pending = rest } in
        let later = ltb_ℤ (pos i.total_ticks) key in
        if advance_clock && later
        then fire_or_quit key to_occur (record taken {
          idle_ticks = i.idle_ticks + (pos_part key - i.total_ticks);
          total_ticks = pos_part key;
        })
        else if later
        then ok (record i { pending = insert_sorted (key, to_occur) rest }, false)
        else fire_or_quit key to_occur taken
  ]

  -- `while (CheckIfDue(false));`, on fuel.
  unfoldable pub run_due : ℕ → Interrupt H W → Outcome (Interrupt H W)
  run_due zero i = timeout
  run_due (suc fuel) i = do
    (i', fired) ← check_if_due false i
    let rest = run_due fuel i'
    if fired then rest else ok i'

  -- `if (yieldOnReturn) { ... }`, where `old` is the status to come back to.
  unfoldable pub yield_if_asked : MachineStatus → Interrupt H W → Outcome (Interrupt H W)
  yield_if_asked old i =
      if i.yield_on_return
      then (yield (record i { yield_on_return = false; status = system_mode }) >>= λ i'.
          ok (record i' { status = old }))
      else ok i

  -- `Interrupt::OneTick`
  unfoldable pub one_tick : ℕ → Interrupt H W → Outcome (Interrupt H W)
  one_tick fuel i = do
    i1 ← advance_clock i
    i2 ← run_due fuel (record i1 { level = int_off })
    yield_if_asked i.status (record i2 { level = int_on })

  -- `Interrupt::SetLevel`
  unfoldable pub set_level : ℕ → IntStatus → Interrupt H W → Outcome (Interrupt H W × IntStatus)
  set_level fuel now i =
      let changed = record i { level = now } in
      assert (is_off now || not i.in_handler)
      >> (if not (is_off now) && is_off i.level
          then (one_tick fuel changed >>= λ i'. ok (i', i.level))
          else ok (changed, i.level))

  -- `Interrupt::Idle`; `none` is `Halt`, which does not return.
  unfoldable pub idle : ℕ → Interrupt H W → Outcome (Option (Interrupt H W))
  idle fuel i = do
    (i', fired) ← check_if_due true (record i { status = idle_mode })
    if fired
        then (run_due fuel i' >>= λ i''.
            ok (some (record i'' { yield_on_return = false; status = system_mode })))
        else ok none
