-- ===== src/Threads/Inv/Defs.antt =====
-- Where the threads are between two steps, and what wakes a thread that waits.
use osproject.Base.{
  ℕ, ◌+◌, ◌≤◌, ◌≡◌, ◌⊎◌, false, Option, none, some, List, [], ◌∷◌, ◌==◌, if◌then◌else◌,
}
pub use osproject.Base.{All, Without, Distinct}
use osproject.Threads.Kernel.{
  running, ready, blocked, Call, p_loop, hold, discard, finished, Thread, Semaphore, Kernel,
  stack_fencepost,
}

abbrev pub Threads : Type 0
Threads = ℕ → Option Thread

abbrev pub IsRunning : Threads → ℕ → Type 0
IsRunning f t = (th : Thread) × (f t ≡ some th) × (th.status ≡ running)

abbrev pub IsReady : Threads → ℕ → Type 0
IsReady f t = (th : Thread) × (f t ≡ some th) × (th.status ≡ ready)

-- The thread is blocked in `P` of this semaphore, and tests its value when it runs again.
abbrev pub IsWaiting : Threads → ℕ → ℕ → Type 0
IsWaiting f s t =
    (th : Thread) × (rest : List Call) × (f t ≡ some th)
    × (th.status ≡ blocked)
    × (th.calls ≡ p_loop s ∷ rest)

abbrev pub IsFinished : Threads → ℕ → Type 0
IsFinished f t =
    (th : Thread) × (f t ≡ some th) × (th.status ≡ blocked) × (th.calls ≡ finished ∷ [])

-- The bottom of the stack is as `StackAllocate` left it.
abbrev pub Intact : Option ℕ → Type 0
Intact none = Unit
Intact (some bottom) = bottom ≡ stack_fencepost

abbrev pub at_test : ℕ → List Call → ℕ
at_test s [] = 0
at_test s (p_loop s' ∷ rest) = if s' == s then 1 else 0
at_test s (hold l ∷ rest) = 0
at_test s (discard s' ∷ rest) = 0
at_test s (finished ∷ rest) = 0

abbrev pub tests : ℕ → Option Thread → ℕ
tests s none = 0
tests s (some th) = at_test s th.calls

-- How many of these threads are at the test of `P` of the semaphore.
abbrev pub testers : Threads → ℕ → List ℕ → ℕ
testers f s [] = 0
testers f s (t ∷ ts) = tests s (f t) + testers f s ts

-- The threads of the ready list are ready, those of a queue are blocked in `P` of its semaphore, and
-- no list has a thread twice. The thread to be destroyed runs no more.
pub record Placed (f : Threads) (sems : ℕ → Option Semaphore) (ready_list : List ℕ)
    (doomed : Option ℕ) : Type 0 where
  pub in_ready : All (IsReady f) ready_list
  pub once_ready : Distinct ready_list
  pub in_queue : (s : ℕ) (m : Semaphore) → sems s ≡ some m → All (IsWaiting f s) m.queue
  pub once_queue : (s : ℕ) (m : Semaphore) → sems s ≡ some m → Distinct m.queue
  pub over : (t : ℕ) → doomed ≡ some t → IsFinished f t
  pub intact : (t : ℕ) (th : Thread) → f t ≡ some th → Intact th.stack

-- A thread waits only while the value of its semaphore, if positive, is left to threads that are
-- on their way to test it.
abbrev pub Woken : Threads → (ℕ → Option Semaphore) → List ℕ → Type 0
Woken f sems xs =
    (s : ℕ) (m : Semaphore) → sems s ≡ some m → (m.queue ≡ []) ⊎ (m.value ≤ testers f s xs)

-- The threads that can run.
abbrev pub active : Kernel → List ℕ
active k = if k.idle then k.ready_list else k.current ∷ k.ready_list

pub record Inv (k : Kernel) : Type 0 where
  pub placed : Placed k.threads k.semaphores k.ready_list k.to_be_destroyed
  pub woken : Woken k.threads k.semaphores (active k)
  pub present : (th : Thread) × (k.threads k.current ≡ some th)
  pub on_cpu : k.idle ≡ false → IsRunning k.threads k.current
