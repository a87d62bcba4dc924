-- ===== src/Threads/Inv/Free.antt =====
-- What makes threads ready keeps the invariant: `Destroy` and `Fork`.
use osproject.Base.{
  ℕ, ◌≡◌, ◌≢◌, refl, sym, ◌∙◌, inl, inr, false, some, List, [], ◌∷◌, ◌++◌, ◌==◌, arith, Bool-cases,
}
use mathlib.Core.List.{append-nil, append_assoc}
use osproject.Base.Outcome.{ok}
use osproject.Threads.Kernel.{
  just_created, ready, Thread, Semaphore, Kernel, put, set_semaphore, stack_fencepost,
}
use osproject.Threads.Scheduler.{fork, stack_allocate, clear_registers}
use osproject.Threads.Synch.{wake_all, destroy}
use osproject.Threads.Inv.Defs.{All, Without, Distinct, IsWaiting, active, Inv}
use osproject.Threads.Inv.Put.{
  map_right, All-map, put_self, put-other, All-put-IsWaiting, testers-out, testers-append,
}
use osproject.Threads.Inv.Place.{
  Apart, put-Placed, Without-ready, running-Apart, put-cases, semaphore-Placed,
}
use osproject.Threads.Inv.Wake.{put-present, ready_to_run-Inv}

wake_all-Inv :
    (s : ℕ) (m : Semaphore) (q : List ℕ) (k : Kernel)
    → Inv k
    → k.semaphores s ≡ some m
    → m.queue ≡ []
    → All (IsWaiting k.threads s) q
    → Distinct q
    → (k' : Kernel) × (wake_all q k ≡ ok k')
      × Inv k'
      × (k'.idle ≡ k.idle)
      × (k'.current ≡ k.current)
      × (k'.ready_list ≡ k.ready_list ++ q)
      × (k'.semaphores ≡ k.semaphores)
unfolding wake_all
wake_all-Inv s m [] k i at_s empty waits once =
    (k, refl, i, refl, refl, sym (append-nil k.ready_list), refl)
wake_all-Inv s m (t ∷ q) k i at_s empty ((th, rest, at, is, calls), waits) (out, once) =
    let apart : Apart k.semaphores k.ready_list k.to_be_destroyed t = record {
      no_ready = Without-ready t th i.placed at (λ e. ground arith);
      no_queue = λ s' m' e. elim (Bool-cases (s' == s)) [
        | inl here ↦ let same : m'.queue ≡ [] = ground arith in rw same tt
        | inr there ↦
            All-map (IsWaiting k.threads s') (λ x. x ≢ t) m'.queue
              (λ x w same. let (th', rest', at', is', calls') = w in ground arith)
              (i.placed.in_queue s' m' e)
      ];
      no_over = λ x e same. let (th', at', is', calls') = i.placed.over x e in ground arith;
    } in
    let (step, i') =
      ready_to_run-Inv k t th at (λ e. ground arith) i.placed apart
        (λ s' m' e.
          rw (testers-append k.threads s' (active k) t)
            (map_right (λ few. omega arith) (i.woken s' m' e)))
        i.present i.on_cpu in
    let th1 : Thread = record th { status = ready } in
    let (k', step', i'', d, c, r, same) =
      wake_all-Inv s m q
        (record k { threads = put k.threads t (some th1); ready_list = k.ready_list ++ t ∷ [] }) i'
        at_s empty (All-put-IsWaiting k.threads t (some th1) s q out waits) once in
    (k', rw step step', i'', d, c, r ∙ append_assoc k.ready_list (t ∷ []) q, same)

-- Under the invariant of the kernel, Destroy of a semaphore returns and keeps the invariant: all
-- waiting threads are appended to the ready list in their order, the queue is empty, the value is
-- as it was, and the running thread is the same.
pub destroy-Inv :
    (s : ℕ) (k : Kernel) (m : Semaphore)
    → Inv k
    → k.semaphores s ≡ some m
    → (k' : Kernel) × (destroy s k ≡ ok k')
      × Inv k'
      × (k'.idle ≡ k.idle)
      × (k'.current ≡ k.current)
      × (k'.ready_list ≡ k.ready_list ++ m.queue)
      × (k'.semaphores ≡ put k.semaphores s (some (record { value = m.value; queue = [] })))
unfolding destroy
destroy-Inv s k m i at_s =
    let m1 : Semaphore = record { value = m.value; queue = [] } in
    let k1 : Kernel = set_semaphore k s m1 in
    let i1 : Inv k1 = record {
      placed = semaphore-Placed s m1 i.placed tt tt;
      woken = λ s' m' e. elim (put-cases k.semaphores s s' m1 m' e) [
        | inl (here, same) ↦ rw same (inl refl)
        | inr (there, e') ↦ i.woken s' m' e'
      ];
      present = i.present;
      on_cpu = i.on_cpu;
    } in
    let (k', step, i', d, c, r, same) =
      wake_all-Inv s m1 m.queue k1 i1 (ground arith) refl (i.placed.in_queue s m at_s)
        (i.placed.once_queue s m at_s) in
    (k', rw at_s step, i', d, c, r, same)

active-Without :
    (k : Kernel) (t : ℕ)
    → Without t k.ready_list
    → (k.idle ≡ false → k.current ≢ t)
    → Without t (active k)
active-Without k t out ne = elim (Bool-cases k.idle) [ inl e ↦ rw e out | inr e ↦ rw e (ne e, out) ]

-- `Fork` makes a new thread ready, behind the others.
pub fork-Inv :
    (t : ℕ) (k : Kernel) (th : Thread)
    → Inv k
    → k.threads t ≡ some th
    → th.status ≡ just_created
    → (k' : Kernel) × (fork t k ≡ ok k')
      × Inv k'
      × (k'.idle ≡ k.idle)
      × (k'.current ≡ k.current)
      × (k'.ready_list ≡ k.ready_list ++ t ∷ [])
      × (k'.semaphores ≡ k.semaphores)
unfolding fork stack_allocate
fork-Inv t k th i at new =
    let th1 : Thread = record th { stack = some stack_fencepost; calls = [] } in
    let f1 = put k.threads t (some th1) in
    let apart = running-Apart t th i.placed at (λ e. ground arith) (λ e. ground arith) in
    let out =
      active-Without k t apart.no_ready
        (λ busy same. let (now, e, is) = i.on_cpu busy in ground arith) in
    let k1 : Kernel = record k { threads = f1; in_run = clear_registers t k.in_run } in
    let (step, i') =
      ready_to_run-Inv k1 t th1 (put_self k.threads t (some th1)) (λ e. ground arith)
        (put-Placed t th1 i.placed apart refl) apart
        (λ s m e.
          rw (testers-append f1 s (active k) t, testers-out k.threads t (some th1) s (active k) out)
            (map_right (λ few. omega arith) (i.woken s m e)))
        (put-present k.threads t k.current th1 i.present)
        (λ busy.
          let (now, e, is) = i.on_cpu busy in
          (now, rw (put-other k.threads t (some th1) k.current (λ same. ground arith)) e, is)) in
    (
      record k1 {
        threads = put f1 t (some (record th1 { status = ready }));
        ready_list = k.ready_list ++ t ∷ [];
      },
      rw at step,
      i',
      refl,
      refl,
      refl,
      refl,
    )
