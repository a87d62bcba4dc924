-- ===== src/Threads/Inv/Steps.antt =====
-- Each step of the kernel keeps the invariant.
use osproject.Base.{
  ℕ, ◌<◌, ◌≡◌, ◌≢◌, refl, inl, inr, none, some, List, [], ◌∷◌, arith, Bool-cases, Option-cases, ltb,
  ◌==◌,
}
use mathlib.Core.Path.{subst}
use osproject.Base.Outcome.{Outcome, ok}
use osproject.Threads.Kernel.{
  just_created, running, Call, p_loop, Thread, Semaphore, Kernel, put, start,
}
use osproject.Threads.Scheduler.{yield, sleep_loop, finish, new_thread, fork}
use osproject.Threads.Synch.{int_max, set_calls, new_semaphore, p_round, v, destroy, increment}
use osproject.Threads.System.{Runs, Step, Reach}
use osproject.Threads.Inv.Defs.{IsReady, IsWaiting, active, Inv}
use osproject.Threads.Inv.Place.{Apart, put-Placed, semaphore-Placed, running-Apart, put-cases}
use osproject.Threads.Inv.Put.{map_right, All-map, put_self, put-other, testers-out, testers-same}
use osproject.Threads.Inv.Sched.{yield-Inv, sleep_loop-Inv}
use osproject.Threads.Inv.Synch.{finish-Inv, p_round-waits, p_round-takes}
use osproject.Threads.Inv.Wake.{v-Inv}
use osproject.Threads.Inv.Free.{destroy-Inv, fork-Inv}

ok-inj : {k k' : Kernel} (m : Outcome Kernel) → m ≡ ok k → m ≡ ok k' → k ≡ k'
ok-inj m e e' = cc

-- One outcome, that the invariant is known of.
settle :
    {k' : Kernel} (k'' : Kernel) (m : Outcome Kernel) → m ≡ ok k'' → m ≡ ok k' → Inv k'' → Inv k'
settle k'' m e e' i = subst Inv (ok-inj m e e') i

start-Inv : Inv start
unfolding start
start-Inv = record {
  placed = record {
    in_ready = tt;
    once_ready = tt;
    in_queue = λ s m e. cc;
    once_queue = λ s m e. cc;
    over = λ t e. cc;
    intact = λ t th e. elim (Bool-cases (t == 0)) [
      | inl here ↦
          let same : th ≡ record { status = running; stack = none; calls = [] } = ground arith in
          rw same tt
      | inr there ↦ absurd (ground arith)
    ];
  };
  woken = λ s m e. cc;
  present = (record { status = running; stack = none; calls = [] }, refl);
  on_cpu = λ _. (record { status = running; stack = none; calls = [] }, refl, refl);
}

v-ok :
    (s : ℕ) (k : Kernel) {k' : Kernel}
    → v s k ≡ ok k'
    → (m : Semaphore) × (k.semaphores s ≡ some m) × (m.value < int_max)
unfolding v increment
v-ok s k e = elim (Option-cases (k.semaphores s)) [
  | inl none_here ↦ absurd (let e' = rw none_here at e in cc)
  | inr (m, at) ↦ (
    m,
    at,
    elim (Bool-cases (ltb m.value int_max)) [
      | inl small ↦ ground arith
      | inr large ↦ absurd (let e' = rw (at, large) at e in cc)
    ],
  )
]

destroy-ok :
    (s : ℕ) (k : Kernel) {k' : Kernel}
    → destroy s k ≡ ok k'
    → (m : Semaphore) × (k.semaphores s ≡ some m)
unfolding destroy
destroy-ok s k e = elim (Option-cases (k.semaphores s)) [
  | inl none_here ↦ absurd (let e' = rw none_here at e in cc)
  | inr (m, at) ↦ (m, at)
]

p_round-ok :
    (s : ℕ) (rest : List Call) (k : Kernel) {k' : Kernel}
    → p_round s rest k ≡ ok k'
    → (m : Semaphore) × (k.semaphores s ≡ some m)
unfolding p_round
p_round-ok s rest k e = elim (Option-cases (k.semaphores s)) [
  | inl none_here ↦ absurd (let e' = rw none_here at e in cc)
  | inr (m, at) ↦ (m, at)
]

p_round-Inv :
    (s : ℕ) (rest : List Call) (k : Kernel) {k' : Kernel}
    → Inv k
    → Runs k (p_loop s ∷ rest)
    → p_round s rest k ≡ ok k'
    → Inv k'
p_round-Inv s rest k i (busy, (th, at, calls)) e =
    let (m, at_s) = p_round-ok s rest k e in
    elim (Bool-cases (ltb 0 m.value)) [
      | inl some_left ↦
          let r = p_round-takes k i busy th at s rest m calls at_s (ground arith) in
          settle r.0 (p_round s rest k) r.1 e r.2
      | inr empty ↦
          let r = p_round-waits k i busy th at s rest m calls at_s (ground arith) in
          settle r.0 (p_round s rest k) r.1 e r.2
    ]

-- A thread at an address with no thread is in no list.
absent-ne :
    (k : Kernel) (t x : ℕ) (th : Thread) → k.threads t ≡ none → k.threads x ≡ some th → x ≢ t
absent-ne k t x th free e same = ground arith

create-Inv : (k : Kernel) → Inv k → k.threads k.fresh ≡ none → Inv (new_thread k).0
unfolding new_thread
create-Inv k i free =
    let t = k.fresh in
    let th : Thread = record { status = just_created; stack = none; calls = [] } in
    let (now, at) = i.present in
    let apart : Apart k.semaphores k.ready_list k.to_be_destroyed t = record {
      no_ready =
          All-map (IsReady k.threads) (λ x. x ≢ t) k.ready_list
            (λ x is. absent-ne k t x is.0 free is.1) i.placed.in_ready;
      no_queue = λ s m e.
          All-map (IsWaiting k.threads s) (λ x. x ≢ t) m.queue
            (λ x is. absent-ne k t x is.0 free is.2) (i.placed.in_queue s m e);
      no_over = λ x e. absent-ne k t x (i.placed.over x e).0 free (i.placed.over x e).1;
    } in
    record {
      placed = put-Placed t th i.placed apart tt;
      woken = λ s m e.
          rw (testers-same k.threads t (some th) s (active k) (rw free refl)) (i.woken s m e);
      present = (
        now,
        rw (put-other k.threads t (some th) k.current (absent-ne k t k.current now free at)) at,
      );
      on_cpu = λ busy.
          let (now', at', is) = i.on_cpu busy in
          (
            now',
            rw (put-other k.threads t (some th) k.current (absent-ne k t k.current now free at))
                at',
            is,
          );
    }

new_semaphore-Inv : (value : ℕ) (k : Kernel) → Inv k → Inv (new_semaphore value k).0
unfolding new_semaphore
new_semaphore-Inv value k i =
    let m1 : Semaphore = record { value = value; queue = [] } in
    record {
      placed = semaphore-Placed k.fresh m1 i.placed tt tt;
      woken = λ s m e. elim (put-cases k.semaphores k.fresh s m1 m e) [
        | inl (here, same) ↦ rw same (inl refl)
        | inr (there, e') ↦ i.woken s m e'
      ];
      present = i.present;
      on_cpu = i.on_cpu;
    }

set_calls-Inv :
    (s : ℕ) (k : Kernel) {k' : Kernel}
    → Inv k
    → Runs k []
    → set_calls (p_loop s ∷ []) k ≡ ok k'
    → Inv k'
unfolding set_calls
set_calls-Inv s k i (busy, (th, at, calls)) e =
    let t = k.current in
    let th1 : Thread = record th { calls = p_loop s ∷ [] } in
    let f1 = put k.threads t (some th1) in
    let (now, at', is) = i.on_cpu busy in
    let is_running : th.status ≡ running = ground arith in
    let apart = running-Apart t th i.placed at (λ e. ground arith) (λ e. ground arith) in
    settle (record k { threads = f1 }) (set_calls (p_loop s ∷ []) k) (rw at refl) e
      (record {
        placed = put-Placed t th1 i.placed apart (i.placed.intact t th at);
        woken = rw busy (λ s' m e'.
            rw
              (
                put_self k.threads t (some th1),
                testers-out k.threads t (some th1) s' k.ready_list apart.no_ready,
              )
              (map_right (λ few. ground arith)
                (let w = i.woken s' m e' in rw (busy, at, calls) at w)));
        present = (th1, put_self k.threads t (some th1));
        on_cpu = λ _. (th1, put_self k.threads t (some th1), is_running);
      })

pub Step-Inv : {k k' : Kernel} → Inv k → Step k k' → Inv k'
Step-Inv {k} i (Step.yields busy e) = let r = yield-Inv k i busy in settle r.0 (yield k) r.1 e r.2
Step-Inv {k} i (Step.finishes (busy, (th, at, calls)) e) =
    let r = finish-Inv k i busy th at calls in settle r.0 (finish k) r.1 e r.2
Step-Inv {k} i (Step.creates free) = create-Inv k i free
Step-Inv {k} i (Step.forks t th at new e) =
    let r = fork-Inv t k th i at new in settle r.0 (fork t k) r.1 e r.2
Step-Inv {k} i (Step.creates_semaphore value) = new_semaphore-Inv value k i
Step-Inv {k} i (Step.calls_p s runs e) = set_calls-Inv s k i runs e
Step-Inv {k} i (Step.tests_p s rest runs e) = p_round-Inv s rest k i runs e
Step-Inv {k} i (Step.calls_v s e) =
    let (m, at, small) = v-ok s k e in
    let r = v-Inv s k m i at small in settle r.0 (v s k) r.1 e r.2
Step-Inv {k} i (Step.destroys s e) =
    let (m, at) = destroy-ok s k e in
    let r = destroy-Inv s k m i at in settle r.0 (destroy s k) r.1 e r.2
Step-Inv {k} i (Step.wakes idle e) =
    let (old, at) = i.present in
    let r = sleep_loop-Inv k i.placed (rw idle at i.woken) old at in
    settle r.0 (sleep_loop k) r.1 e r.2

pub Reach-Inv : {k : Kernel} → Reach k → Inv k
Reach-Inv Reach.boot = start-Inv
Reach-Inv (Reach.later r step) = Step-Inv (Reach-Inv r) step
