-- ===== src/Threads/Synch.antt =====
-- threads/synch.cc: semaphores, locks and condition variables. A call that may wait leaves what
-- remains of it in the calls of its thread, and `continue_call` runs the next of these once the
-- thread has the processor.
use osproject.Base.{
  ℕ, zero, suc, ◌+◌, ◌-◌, ◌^◌, Bool, false, none, some, List, [], ◌∷◌, ◌++◌, ◌==◌, ltb,
  if◌then◌else◌,
}
use osproject.Base.Outcome.{Outcome, ok, fault, timeout, ◌>>=◌, ◌>>◌, assert, deref}
use osproject.Threads.Kernel.{
  Call, p_loop, hold, discard, finished, Semaphore, Lock, Kernel, put, set_thread, set_semaphore,
  set_lock,
}
use osproject.Threads.Scheduler.{ready_to_run, sleep}

abbrev pub int_max : ℕ
int_max = 2 ^ 31 - 1

-- `value++` on an `int`
unfoldable pub increment : ℕ → Outcome ℕ
increment value = if ltb value int_max then ok (value + 1) else fault

-- The calls of the current thread are replaced.
unfoldable pub set_calls : List Call → Kernel → Outcome Kernel
set_calls calls k = do
  th ← deref (k.threads k.current)
  ok (set_thread k k.current (record th { calls = calls }))

-- `Semaphore::Semaphore`, at the address `fresh`.
unfoldable pub new_semaphore : ℕ → Kernel → Kernel × ℕ
new_semaphore value k = (
  record k {
    semaphores = put k.semaphores k.fresh (some (record { value = value; queue = [] }));
    fresh = k.fresh + 1;
  },
  k.fresh,
)

-- `while (value == 0)` in `Semaphore::P`: the round of the loop, or what follows the loop.
unfoldable pub p_test : ℕ → Semaphore → List Call → Kernel → Outcome Kernel
p_test s m rest k =
    if m.value == 0
    then sleep (set_semaphore k s (record m { queue = m.queue ++ k.current ∷ [] }))
    else set_calls rest (set_semaphore k s (record m { value = m.value - 1 }))

-- One test of the loop in `Semaphore::P`, by the current thread; `rest` is what it runs after `P`.
unfoldable pub p_round : ℕ → List Call → Kernel → Outcome Kernel
p_round s rest k = do m ← deref (k.semaphores s); p_test s m rest k

-- `Semaphore::V`
unfoldable pub v : ℕ → Kernel → Outcome Kernel
v s k = do
  m ← deref (k.semaphores s)
  value ← increment m.value
  elim m.queue [
    | [] ↦ ok (set_semaphore k s (record m { value = value }))
    | t ∷ queue ↦ ready_to_run t (set_semaphore k s (record { value = value; queue = queue }))
  ]

-- The loop of `Semaphore::Destroy`, which makes all the waiting threads ready.
unfoldable pub wake_all : List ℕ → Kernel → Outcome Kernel
wake_all [] k = ok k
wake_all (t ∷ queue) k = ready_to_run t k >>= wake_all queue

-- `Semaphore::Destroy`
unfoldable pub destroy : ℕ → Kernel → Outcome Kernel
destroy s k = do
  m ← deref (k.semaphores s)
  wake_all m.queue (set_semaphore k s (record m { queue = [] }))

-- `Lock::Lock`: the mutex at the address `fresh` and the lock at the one after it.
unfoldable pub new_lock : Kernel → Kernel × ℕ
new_lock k =
    let (k', mutex) = new_semaphore 1 k in
    let k1 = set_lock k' k'.fresh (record { holder = none; mutex = mutex }) in
    (record k1 { fresh = k1.fresh + 1 }, k'.fresh)

-- `Lock::isHeldByCurrentThread`
unfoldable pub is_held_by_current_thread : Lock → Kernel → Bool
is_held_by_current_thread x k = elim x.holder [ none ↦ false | some t ↦ t == k.current ]

-- `Lock::Acquire`, as far as the loop of its `P`.
unfoldable pub acquire : ℕ → List Call → Kernel → Outcome Kernel
acquire l rest k = do x ← deref (k.locks l); set_calls (p_loop x.mutex ∷ hold l ∷ rest) k

-- `lockHolder = currentThread`
unfoldable pub take_lock : ℕ → Kernel → Outcome Kernel
take_lock l k = do x ← deref (k.locks l); ok (set_lock k l (record x { holder = some k.current }))

-- `Lock::Release`
unfoldable pub release : ℕ → Kernel → Outcome Kernel
release l k = do
  x ← deref (k.locks l)
  assert (is_held_by_current_thread x k) >> v x.mutex (set_lock k l (record x { holder = none }))

-- `Condition::Wait`, as far as the loop of `waiter->P()`; `Acquire` and `delete waiter` follow it.
unfoldable pub wait : ℕ → ℕ → Kernel → Outcome Kernel
wait c l k = do
  x ← deref (k.locks l)
  assert (is_held_by_current_thread x k)
  let (k1, waiter) = new_semaphore 0 k
  cv ← deref (k1.conditions c)
  let queued = some (record { wait_queue = cv.wait_queue ++ waiter ∷ [] })
  k2 ← release l (record k1 { conditions = put k1.conditions c queued })
  set_calls (p_loop waiter ∷ p_loop x.mutex ∷ hold l ∷ discard waiter ∷ []) k2

-- `Condition::Signal`
unfoldable pub signal : ℕ → ℕ → Kernel → Outcome Kernel
signal c l k = do
  x ← deref (k.locks l)
  assert (is_held_by_current_thread x k)
  cv ← deref (k.conditions c)
  elim cv.wait_queue [
    | [] ↦ ok k
    | waiter ∷ others ↦
        v waiter
          (record k { conditions = put k.conditions c (some (record { wait_queue = others })) })
  ]

-- The loop of `Condition::Broadcast`, on fuel.
unfoldable pub broadcast : ℕ → ℕ → ℕ → Kernel → Outcome Kernel
broadcast zero c l k = timeout
broadcast (suc fuel) c l k = do
  cv ← deref (k.conditions c)
  let rest = signal c l k >>= broadcast fuel c l
  elim cv.wait_queue [ [] ↦ ok k | waiter ∷ others ↦ rest ]

-- The next of the calls of the current thread. A thread that has none runs its own code.
unfoldable pub continue_call : Kernel → Outcome Kernel
continue_call k = do
  th ← deref (k.threads k.current)
  elim th.calls [
    | [] ↦ ok k
    | p_loop s ∷ rest ↦ p_round s rest k
    | hold l ∷ rest ↦ (take_lock l k >>= set_calls rest)
    | discard s ∷ rest ↦
        (deref (k.semaphores s) >>= λ m.
        set_calls rest (record k { semaphores = put k.semaphores s none }))
    | finished ∷ rest ↦ fault
  ]
