-- ===== src/Threads/System.antt =====
-- The steps of a kernel whose threads call threads/ in any order, with interrupts between them.
use osproject.Base.{ℕ, ◌≡◌, true, false, none, some, List, [], ◌∷◌}
use osproject.Base.Outcome.{ok}
use osproject.Threads.Kernel.{just_created, Call, p_loop, Thread, Kernel, start}
use osproject.Threads.Scheduler.{yield, sleep_loop, finish, new_thread, fork}
use osproject.Threads.Synch.{set_calls, new_semaphore, p_round, v, destroy}

-- What the current thread runs: its own code, or what is left of a call.
abbrev pub Runs : Kernel → List Call → Type 0
Runs k calls =
    (k.idle ≡ false) × ((th : Thread) × (k.threads k.current ≡ some th) × (th.calls ≡ calls))

-- `new` returns an address at which no thread is.
pub data Step (k : Kernel) : Kernel → Type 0 where
  -- `Yield`, called by the current thread or when a time slice ends
  yields : {k' : Kernel} → k.idle ≡ false → yield k ≡ ok k' → Step k k'
  finishes : {k' : Kernel} → Runs k [] → finish k ≡ ok k' → Step k k'
  creates : k.threads k.fresh ≡ none → Step k (new_thread k).0
  forks :
      {k' : Kernel} (t : ℕ) (th : Thread)
      → k.threads t ≡ some th
      → th.status ≡ just_created
      → fork t k ≡ ok k'
      → Step k k'
  creates_semaphore : (value : ℕ) → Step k (new_semaphore value k).0
  -- `P` is called, and comes to the test of its loop
  calls_p : {k' : Kernel} (s : ℕ) → Runs k [] → set_calls (p_loop s ∷ []) k ≡ ok k' → Step k k'
  -- the test of the loop of `P`, the first one or one after the thread has slept
  tests_p :
      {k' : Kernel} (s : ℕ) (rest : List Call)
      → Runs k (p_loop s ∷ rest)
      → p_round s rest k ≡ ok k'
      → Step k k'
  -- `V`, called by a thread or by the handler of an interrupt, also while the processor is idle
  calls_v : {k' : Kernel} (s : ℕ) → v s k ≡ ok k' → Step k k'
  destroys : {k' : Kernel} (s : ℕ) → destroy s k ≡ ok k' → Step k k'
  -- the idle thread looks at the ready list again
  wakes : {k' : Kernel} → k.idle ≡ true → sleep_loop k ≡ ok k' → Step k k'

pub data Reach : Kernel → Type 0 where
  boot : Reach start
  later : {k k' : Kernel} → Reach k → Step k k' → Reach k'
