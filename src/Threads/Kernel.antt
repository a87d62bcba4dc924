-- ===== src/Threads/Kernel.antt =====
-- The objects of threads/: threads (thread.h), semaphores, locks and condition variables (synch.h),
-- the scheduler's ready list and the globals of system.cc. Addresses are numbers; an address with no
-- object has been deleted, or was never allocated. A `List<Thread*>` is the sequence that
-- Threads.LinkedList shows it to hold.
use osproject.Base.{ℕ, Bool, Option, none, some, List, [], ◌==◌, if◌then◌else◌}

pub data ThreadStatus : Type 0 where
  just_created : ThreadStatus
  running : ThreadStatus
  ready : ThreadStatus
  blocked : ThreadStatus

-- What a thread has left to run of the synchronisation code that it has called: it may lose the
-- processor at each of these points.
pub data Call : Type 0 where
  -- the test of the loop in `Semaphore::P`, on this semaphore
  p_loop : ℕ → Call
  -- the assignment in `Lock::Acquire`, after its `P`, on this lock
  hold : ℕ → Call
  -- `delete waiter`, at the end of `Condition::Wait`
  discard : ℕ → Call
  -- the end of `Thread::Finish`, which is not reached
  finished : Call

-- `stack` is the word at the bottom of the stack, if the thread has one.
pub record Thread : Type 0 where
  pub status : ThreadStatus
  pub stack : Option ℕ
  pub calls : List Call

pub record Semaphore : Type 0 where
  pub value : ℕ
  pub queue : List ℕ

pub record Lock : Type 0 where
  pub holder : Option ℕ
  pub mutex : ℕ

pub record Condition : Type 0 where
  pub wait_queue : List ℕ

-- `idle` while the current thread is in the loop of `Thread::Sleep` with nothing to run.
-- `in_run` is where the registers that a thread has saved (`machineState`) continue: in
-- `Scheduler::Run`, after `SWITCH`, or in `ThreadRoot`, if it has not run yet.
pub record Kernel : Type 0 where
  pub current : ℕ
  pub idle : Bool
  pub ready_list : List ℕ
  pub to_be_destroyed : Option ℕ
  pub threads : ℕ → Option Thread
  pub in_run : ℕ → Bool
  pub semaphores : ℕ → Option Semaphore
  pub locks : ℕ → Option Lock
  pub conditions : ℕ → Option Condition
  pub fresh : ℕ

-- `STACK_FENCEPOST`
abbrev pub stack_fencepost : ℕ
stack_fencepost = 0xdeadbeef

-- An object is written at an address, or deleted.
abbrev pub put {ℓ} : {A : Type ℓ} → (ℕ → Option A) → ℕ → Option A → ℕ → Option A
put objects p o = λ q. if q == p then o else objects q

abbrev pub set_thread : Kernel → ℕ → Thread → Kernel
set_thread k t th = record k { threads = put k.threads t (some th) }

abbrev pub set_semaphore : Kernel → ℕ → Semaphore → Kernel
set_semaphore k s m = record k { semaphores = put k.semaphores s (some m) }

abbrev pub set_lock : Kernel → ℕ → Lock → Kernel
set_lock k l x = record k { locks = put k.locks l (some x) }

-- `currentThread = new Thread("main"); currentThread->setStatus(RUNNING);` (system.cc)
unfoldable pub start : Kernel
start = record {
  current = 0;
  idle = Bool.false;
  ready_list = [];
  to_be_destroyed = none;
  threads = put (λ p. none) 0 (some (record { status = running; stack = none; calls = [] }));
  in_run = λ p. Bool.false;
  semaphores = λ p. none;
  locks = λ p. none;
  conditions = λ p. none;
  fresh = 1;
}
