-- ===== src/Threads/Inv/Wake.antt =====
-- What makes threads ready keeps the invariant: `ReadyToRun` and `V`.
use osproject.Base.{
  ℕ, ◌+◌, ◌≤◌, ◌<◌, ◌≡◌, ◌≢◌, refl, sym, ◌⊎◌, inl, inr, false, Option, some, List, [], ◌∷◌, ◌++◌,
  ◌==◌, arith, Bool-cases, ap, lt→ltb,
}
use mathlib.Core.Path.{subst}
use mathlib.Core.List.{append-nil}
use osproject.Base.Outcome.{ok}
use osproject.Threads.Kernel.{
  running, ready, blocked, Call, p_loop, Thread, Semaphore, Kernel, put, set_semaphore,
}
use osproject.Threads.Scheduler.{ready_to_run}
use osproject.Threads.Synch.{int_max, increment, v}
use osproject.Threads.Inv.Defs.{
  All, Without, Distinct, Threads, IsRunning, IsWaiting, tests, testers, Placed, Woken, active, Inv,
}
use osproject.Threads.Inv.Put.{
  map_right, at_test_self, All-map, put_self, put-other, testers-same, testers-append,
}
use osproject.Threads.Inv.Place.{
  Apart, put-Placed, Without-ready, append-Placed, List-cases, put-cases, semaphore-Placed,
}

-- The threads that a wake-up adds to the ready list.
abbrev pub first_of : List ℕ → List ℕ
first_of [] = []
first_of (t ∷ ts) = t ∷ []

abbrev pub tail : List ℕ → List ℕ
tail [] = []
tail (t ∷ ts) = ts

pub put-present :
    (f : Threads) (t x : ℕ) (th : Thread)
    → (old : Thread) × (f x ≡ some old)
    → (new : Thread) × (put f t (some th) x ≡ some new)
put-present f t x th (old, e) = elim (Bool-cases (x == t)) [
  | inl here ↦ (th, rw here refl)
  | inr there ↦ (old, rw there e)
]

active-append :
    (k : Kernel) (t : ℕ)
    → active (record k { ready_list = k.ready_list ++ t ∷ [] }) ≡ active k ++ t ∷ []
active-append k t = elim (Bool-cases k.idle) [ inl e ↦ rw e refl | inr e ↦ rw e refl ]

-- A thread that is in no list, and does not run, becomes the last of the ready ones.
pub ready_to_run-Inv :
    (k : Kernel) (t : ℕ) (th : Thread)
    → k.threads t ≡ some th
    → th.status ≢ running
    → Placed k.threads k.semaphores k.ready_list k.to_be_destroyed
    → Apart k.semaphores k.ready_list k.to_be_destroyed t
    → Woken k.threads k.semaphores (active k ++ t ∷ [])
    → (old : Thread) × (k.threads k.current ≡ some old)
    → (k.idle ≡ false → IsRunning k.threads k.current)
    → (ready_to_run t k
        ≡ ok (record k {
          threads = put k.threads t (some (record th { status = ready }));
          ready_list = k.ready_list ++ t ∷ [];
        }))
      × Inv (record k {
        threads = put k.threads t (some (record th { status = ready }));
        ready_list = k.ready_list ++ t ∷ [];
      })
unfolding ready_to_run
ready_to_run-Inv k t th at nr p apart woken present on_cpu =
    let th1 : Thread = record th { status = ready } in
    let p1 = put-Placed t th1 p apart (p.intact t th at) in
    (
      rw at refl,
      record {
        placed = append-Placed t p1 (th1, put_self k.threads t (some th1), refl) apart.no_ready;
        woken =
            subst (Woken (put k.threads t (some th1)) k.semaphores) (sym (active-append k t))
              (λ s m e.
                rw (testers-same k.threads t (some th1) s (active k ++ t ∷ []) (rw at refl))
                  (woken s m e));
        present = put-present k.threads t k.current th1 present;
        on_cpu = λ busy.
            let (now, e, is) = on_cpu busy in
            (
              now,
              rw (put-other k.threads t (some th1) k.current (λ same. nr (ground arith))) e,
              is,
            );
      },
    )

-- A waiting thread is in its one queue only.
waiting-Apart :
    (f : Threads) (sems : ℕ → Option Semaphore) (rl : List ℕ) (d : Option ℕ) (s t : ℕ) (value : ℕ)
    (q : List ℕ)
    → Placed f sems rl d
    → IsWaiting f s t
    → Without t q
    → Apart (put sems s (some (record { value = value; queue = q }))) rl d t
waiting-Apart f sems rl d s t value q p (th, rest, at, is, calls) w = record {
  no_ready = Without-ready t th p at (λ e. ground arith);
  no_queue = λ s' m e. elim (put-cases sems s s' (record { value = value; queue = q }) m e) [
    | inl (here, same) ↦ rw same w
    | inr (there, e') ↦
        All-map (IsWaiting f s') (λ x. x ≢ t) m.queue
          (λ x waits same. let (th', rest', at', is', calls') = waits in there (ground arith))
          (p.in_queue s' m e')
  ];
  no_over = λ x e same. let (th', at', is', calls') = p.over x e in ground arith;
}

v_wake :
    (s : ℕ) (k : Kernel) (m : Semaphore) (t : ℕ) (q : List ℕ) (th : Thread) (rest : List Call)
    → Inv k
    → k.semaphores s ≡ some m
    → m.value < int_max
    → m.queue ≡ t ∷ q
    → k.threads t ≡ some th
    → th.status ≡ blocked
    → th.calls ≡ p_loop s ∷ rest
    → All (IsWaiting k.threads s) q
    → Without t q
    → Distinct q
    → (k' : Kernel) × (v s k ≡ ok k')
      × Inv k'
      × (k'.idle ≡ k.idle)
      × (k'.current ≡ k.current)
      × (k'.ready_list ≡ k.ready_list ++ t ∷ [])
      × (k'.semaphores ≡ put k.semaphores s (some (record { value = m.value + 1; queue = q })))
unfolding v increment
v_wake s k m t q th rest i at_s small cons at is calls waits out once =
    let m1 : Semaphore = record { value = m.value + 1; queue = q } in
    let k1 : Kernel = set_semaphore k s m1 in
    let p1 = semaphore-Placed s m1 i.placed waits once in
    let apart =
      waiting-Apart k.threads k.semaphores k.ready_list k.to_be_destroyed s t (m.value + 1) q
        i.placed (th, rest, at, is, calls) out in
    let here_too : tests s (k.threads t) ≡ 1 = rw (at, calls) (at_test_self s rest) in
    let (step, i') =
      ready_to_run-Inv k1 t th at (λ e. ground arith) p1 apart
        (λ s' m' e.
          rw (testers-append k.threads s' (active k) t)
            (elim (put-cases k.semaphores s s' m1 m' e) [
              | inl (here, same) ↦ rw same (
                  subst
                    (λ z.
                      (q ≡ [])
                      ⊎ (m.value + 1 ≤ testers k.threads z (active k) + tests z (k.threads t)))
                    (sym here)
                    (elim (i.woken s m at_s) [
                      | inl empty ↦ absurd (cc)
                      | inr few ↦ inr (omega arith)
                    ]))
              | inr (there, e') ↦ map_right (λ few. omega arith) (i.woken s' m' e')
            ]))
        i.present i.on_cpu in
    (
      record k1 {
        threads = put k.threads t (some (record th { status = ready }));
        ready_list = k.ready_list ++ t ∷ [];
      },
      rw (at_s, lt→ltb _ _ small, cons) step,
      i',
      refl,
      refl,
      refl,
      refl,
    )

-- Under the invariant of the kernel, V of a semaphore whose value is less than the largest int
-- returns and keeps the invariant: the value is one more, the first waiting thread, if there is
-- one, leaves the queue and becomes the last of the ready list, and the running thread is the
-- same.
pub v-Inv :
    (s : ℕ) (k : Kernel) (m : Semaphore)
    → Inv k
    → k.semaphores s ≡ some m
    → m.value < int_max
    → (k' : Kernel) × (v s k ≡ ok k')
      × Inv k'
      × (k'.idle ≡ k.idle)
      × (k'.current ≡ k.current)
      × (k'.ready_list ≡ k.ready_list ++ first_of m.queue)
      × (k'.semaphores
          ≡ put k.semaphores s (some (record { value = m.value + 1; queue = tail m.queue })))
unfolding v increment
v-Inv s k m i at_s small = elim (List-cases m.queue) [
  | inl empty ↦
      let m1 : Semaphore = record { value = m.value + 1; queue = [] } in
      (
        set_semaphore k s m1,
        rw (at_s, lt→ltb _ _ small, empty)
            (ap (λ q. ok (set_semaphore k s (record { value = m.value + 1; queue = q }))) empty),
        record {
          placed = semaphore-Placed s m1 i.placed tt tt;
          woken = λ s' m' e. elim (put-cases k.semaphores s s' m1 m' e) [
            | inl (here, same) ↦ rw same (inl refl)
            | inr (there, e') ↦ i.woken s' m' e'
          ];
          present = i.present;
          on_cpu = i.on_cpu;
        },
        refl,
        refl,
        rw empty (sym (append-nil k.ready_list)),
        rw empty refl,
      )
  | inr (t, q, cons) ↦
      let waits : All (IsWaiting k.threads s) (t ∷ q) = rw cons at (i.placed.in_queue s m at_s) in
      let once : Distinct (t ∷ q) = rw cons at (i.placed.once_queue s m at_s) in
      let (th, rest, at, is, calls) = waits.0 in
      rw cons (v_wake s k m t q th rest i at_s small cons at is calls waits.1 once.0 once.1)
]
