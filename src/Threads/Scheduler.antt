-- ===== src/Threads/Scheduler.antt =====
-- threads/scheduler.cc, and the thread operations of threads/thread.cc. They run with interrupts
-- off, from the `SetLevel(IntOff)` of the operation to the `SetLevel(oldLevel)` at its end, so each
-- is one step; an interrupt that the latter lets through is a step of its own. The registers and the
-- address space of a user program, which `Run` also saves and restores, are those of Cpu.Context and
-- Vm.Switch.
use osproject.Base.{
  ℕ, ◌+◌, Bool, true, false, not, Option, none, some, [], ◌∷◌, ◌++◌, ◌==◌, if◌then◌else◌,
}
use osproject.Base.Outcome.{Outcome, ok, ◌>>=◌, ◌>>◌, assert, deref}
use osproject.Threads.Kernel.{
  just_created, running, ready, blocked, finished, Thread, Kernel, stack_fencepost, put, set_thread,
}

-- `Scheduler::ReadyToRun`
unfoldable pub ready_to_run : ℕ → Kernel → Outcome Kernel
ready_to_run t k = do
  th ← deref (k.threads t)
  let k' = set_thread k t (record th { status = ready })
  ok (record k' { ready_list = k'.ready_list ++ t ∷ [] })

-- `Scheduler::FindNextToRun`
unfoldable pub find_next_to_run : Kernel → Kernel × Option ℕ
find_next_to_run k = elim k.ready_list [
  | [] ↦ (k, none)
  | next ∷ rest ↦ (record k { ready_list = rest }, some next)
]

-- `Thread::CheckOverflow`
unfoldable pub check_overflow : Thread → Outcome (Unit {0})
check_overflow th = elim th.stack [
  | none ↦ ok tt
  | some bottom ↦ assert (bottom == stack_fencepost)
]

-- `delete threadToBeDestroyed`, with the assertion of `~Thread`.
unfoldable pub delete_finished : Kernel → Outcome Kernel
delete_finished k = elim k.to_be_destroyed [
  | none ↦ ok k
  | some t ↦
      (deref (k.threads t) >>= λ th.
      assert (not (t == k.current))
      >> ok (record k { threads = put k.threads t none; to_be_destroyed = none }))
]

-- `SWITCH` saves the registers of the thread that leaves.
abbrev pub save_registers : ℕ → (ℕ → Bool) → ℕ → Bool
save_registers t in_run = λ q. if q == t then true else in_run q

-- Registers that start in `ThreadRoot`.
abbrev pub clear_registers : ℕ → (ℕ → Bool) → ℕ → Bool
clear_registers t in_run = λ q. if q == t then false else in_run q

-- `Scheduler::Run`: after `SWITCH` the thread that has run before goes on in its own call of `Run`,
-- and a new thread starts in `ThreadRoot`.
unfoldable pub run : ℕ → Kernel → Outcome Kernel
run next k = do
  old ← deref (k.threads k.current)
  check_overflow old
  th ← deref (k.threads next)
  let k1 = set_thread k next (record th { status = running })
  let k2 = record k1 { current = next; idle = false; in_run = save_registers k.current k.in_run }
  if k2.in_run next then delete_finished k2 else ok k2

-- `Thread::Thread`, at the address `fresh`; its tables of files and semaphores are those of Tables.
unfoldable pub new_thread : Kernel → Kernel × ℕ
new_thread k = (
  record k {
    threads =
        put k.threads k.fresh (some (record { status = just_created; stack = none; calls = [] }));
    in_run = clear_registers k.fresh k.in_run;
    fresh = k.fresh + 1;
  },
  k.fresh,
)

-- `Thread::StackAllocate`: the fence at the bottom of the stack, and registers for `ThreadRoot`.
unfoldable pub stack_allocate : ℕ → Kernel → Outcome Kernel
stack_allocate t k = do
  th ← deref (k.threads t)
  let k' = set_thread k t (record th { stack = some stack_fencepost; calls = [] })
  ok (record k' { in_run = clear_registers t k.in_run })

-- `Thread::Fork`
unfoldable pub fork : ℕ → Kernel → Outcome Kernel
fork t k = do k' ← stack_allocate t k; ready_to_run t k'

-- `Thread::Yield`
unfoldable pub yield : Kernel → Outcome Kernel
yield k =
    let (k', next) = find_next_to_run k in
    elim next [ none ↦ ok k' | some t ↦ (ready_to_run k'.current k' >>= run t) ]

-- The test of the loop in `Thread::Sleep`, and what follows it: with no thread ready, the current
-- thread stays in the loop until an interrupt, and comes back to this test.
unfoldable pub sleep_loop : Kernel → Outcome Kernel
sleep_loop k =
    let (k', next) = find_next_to_run k in
    elim next [ none ↦ ok (record k' { idle = true }) | some t ↦ run t k' ]

-- `Thread::Sleep`
unfoldable pub sleep : Kernel → Outcome Kernel
sleep k = do
  th ← deref (k.threads k.current)
  sleep_loop (set_thread k k.current (record th { status = blocked }))

-- `Thread::Finish`
unfoldable pub finish : Kernel → Outcome Kernel
finish k = do
  th ← deref (k.threads k.current)
  let k' = set_thread k k.current (record th { calls = finished ∷ [] })
  sleep (record k' { to_be_destroyed = some k.current })
