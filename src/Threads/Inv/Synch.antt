-- ===== src/Threads/Inv/Synch.antt =====
-- A thread that waits or ends keeps the invariant: `P` and `Finish`.
use osproject.Base.{
  ℕ, ◌+◌, ◌-◌, ◌≤◌, ◌<◌, ◌≡◌, ◌≢◌, refl, sym, ◌⊎◌, inl, inr, false, some, List, [], ◌∷◌, ◌++◌, ◌==◌,
  arith,
}
use mathlib.Core.Path.{subst}
use osproject.Base.Outcome.{ok}
use osproject.Threads.Kernel.{
  running, blocked, Call, p_loop, finished, Thread, Semaphore, Kernel, put,
}
use osproject.Threads.Scheduler.{sleep, finish}
use osproject.Threads.Synch.{set_calls, p_round, p_test}
use osproject.Threads.Inv.Defs.{IsWaiting, at_test, testers, Inv}
use osproject.Threads.Inv.Put.{
  map_right, at_test_self, ==-self, All-append, Distinct-append, put_self, testers-out,
}
use osproject.Threads.Inv.Place.{
  Apart, put-Placed, running-Apart, put-cases, semaphore-Placed, over-Placed, forget-Placed,
}
use osproject.Threads.Inv.Sched.{sleep_loop-Inv}

at_test-other : (s s' : ℕ) (rest : List Call) → s' ≢ s → at_test s' (p_loop s ∷ rest) ≡ 0
at_test-other s s' rest ne = ground arith

module _ (k : Kernel) (i : Inv k) (busy : k.idle ≡ false) (th : Thread)
    (at : k.threads k.current ≡ some th) where
  current-running : th.status ≡ running
  current-running = let (now, at', is) = i.on_cpu busy in ground arith

  current-Apart : Apart k.semaphores k.ready_list k.to_be_destroyed k.current
  current-Apart =
      running-Apart k.current th i.placed at (λ e. ground (arith, current-running))
        (λ e. ground (arith, current-running))

  -- How many threads test a semaphore, the current one not counted.
  busy-woken :
      (s : ℕ) (m : Semaphore)
      → k.semaphores s ≡ some m
      → (m.queue ≡ []) ⊎ (m.value ≤ at_test s th.calls + testers k.threads s k.ready_list)
  busy-woken s m e = let w = i.woken s m e in rw (busy, at) at w

  -- A thread that has finished is not dispatched again.
  pub finish-Inv :
      th.calls ≡ [] → (k' : Kernel) × (finish k ≡ ok k') × Inv k' × (k'.semaphores ≡ k.semaphores)
  unfolding finish sleep
  finish-Inv none_left =
      let t = k.current in
      let th1 : Thread = record th { calls = finished ∷ [] } in
      let th2 : Thread = record th1 { status = blocked } in
      let f1 = put k.threads t (some th1) in
      let f2 = put f1 t (some th2) in
      let p1 =
        put-Placed t th1 (forget-Placed i.placed)
          (record {
            no_ready = current-Apart.no_ready;
            no_queue = current-Apart.no_queue;
            no_over = λ x e. cc;
          })
          (i.placed.intact t th at) in
      let p2 =
        put-Placed t th2 p1
          (record {
            no_ready = current-Apart.no_ready;
            no_queue = current-Apart.no_queue;
            no_over = λ x e. cc;
          })
          (i.placed.intact t th at) in
      let p3 = over-Placed t p2 (th2, put_self f1 t (some th2), refl, refl) in
      let (k', step, i', same) =
        sleep_loop-Inv (record k { threads = f2; to_be_destroyed = some t }) p3
          (λ s m e.
            rw
              (
                testers-out f1 t (some th2) s k.ready_list current-Apart.no_ready,
                testers-out k.threads t (some th1) s k.ready_list current-Apart.no_ready,
              )
              (map_right (λ few. ground arith) (busy-woken s m e)))
          th2 (put_self f1 t (some th2)) in
      (k', rw (at, ==-self t) step, i', same)

  module _ (s : ℕ) (rest : List Call) (m : Semaphore) (testing : th.calls ≡ p_loop s ∷ rest)
      (at_s : k.semaphores s ≡ some m) where
    -- The current thread does not test another semaphore.
    other-woken :
        (s' : ℕ) (m' : Semaphore)
        → s' ≢ s
        → k.semaphores s' ≡ some m'
        → (m'.queue ≡ []) ⊎ (m'.value ≤ testers k.threads s' k.ready_list)
    other-woken s' m' there e =
        let none_here : at_test s' th.calls ≡ 0 = rw testing (at_test-other s s' rest there) in
        map_right (λ few. omega arith) (busy-woken s' m' e)

    -- Under the invariant of the kernel, when the running thread tests the value of a semaphore in
    -- P and finds 0, it is put at the end of the queue and goes to sleep: this returns, and the
    -- invariant holds; the value and the other semaphores are as before.
    pub p_round-waits :
        m.value ≡ 0
        → (k' : Kernel) × (p_round s rest k ≡ ok k')
          × Inv k'
          × (k'.semaphores
              ≡ put k.semaphores s (some (record { value = 0; queue = m.queue ++ k.current ∷ [] })))
    unfolding p_round p_test sleep
    p_round-waits empty =
        let t = k.current in
        let th1 : Thread = record th { status = blocked } in
        let f1 = put k.threads t (some th1) in
        let m1 : Semaphore = record { value = 0; queue = m.queue ++ t ∷ [] } in
        let p1 = put-Placed t th1 i.placed current-Apart (i.placed.intact t th at) in
        let p2 =
          semaphore-Placed s m1 p1
            (All-append (IsWaiting f1 s) m.queue t (p1.in_queue s m at_s)
              (th1, rest, put_self k.threads t (some th1), refl, testing))
            (Distinct-append m.queue t (p1.once_queue s m at_s)
              (current-Apart.no_queue s m at_s)) in
        let (k', step, i', same) =
          sleep_loop-Inv (record k { threads = f1; semaphores = put k.semaphores s (some m1) }) p2
            (λ s' m' e. elim (put-cases k.semaphores s s' m1 m' e) [
              | inl (here, same) ↦ inr (ground arith)
              | inr (there, e') ↦
                  rw (testers-out k.threads t (some th1) s' k.ready_list current-Apart.no_ready)
                    (other-woken s' m' there e')
            ])
            th1 (put_self k.threads t (some th1)) in
        (k', rw (at_s, empty, at) step, i', same)

    -- With a positive value it takes one, and `P` is done.
    pub p_round-takes :
        0 < m.value
        → (k' : Kernel) × (p_round s rest k ≡ ok k')
          × Inv k'
          × (k'.idle ≡ false)
          × (k'.current ≡ k.current)
          × (k'.ready_list ≡ k.ready_list)
          × (k'.threads ≡ put k.threads k.current (some (record th { calls = rest })))
          × (k'.semaphores
              ≡ put k.semaphores s (some (record { value = m.value - 1; queue = m.queue })))
    unfolding p_round p_test set_calls
    p_round-takes some_left =
        let t = k.current in
        let th1 : Thread = record th { calls = rest } in
        let f1 = put k.threads t (some th1) in
        let m1 : Semaphore = record m { value = m.value - 1 } in
        let p1 = put-Placed t th1 i.placed current-Apart (i.placed.intact t th at) in
        let p2 = semaphore-Placed s m1 p1 (p1.in_queue s m at_s) (p1.once_queue s m at_s) in
        let ne : (m.value == 0) ≡ false = ground arith in
        (
          record k { threads = f1; semaphores = put k.semaphores s (some m1) },
          rw (at_s, ne, at) refl,
          record {
            placed = p2;
            woken = rw busy (λ s' m' e. elim (put-cases k.semaphores s s' m1 m' e) [
              | inl (here, same) ↦ rw same (
                  subst (λ z. (m.queue ≡ []) ⊎ (m.value - 1 ≤ testers f1 z (t ∷ k.ready_list)))
                    (sym here)
                    (rw (testers-out k.threads t (some th1) s k.ready_list current-Apart.no_ready) (
                      map_right
                        (λ few.
                          let one : at_test s th.calls ≡ 1 = rw testing (at_test_self s rest) in
                          omega arith)
                        (busy-woken s m at_s))))
              | inr (there, e') ↦
                  rw (testers-out k.threads t (some th1) s' k.ready_list current-Apart.no_ready)
                    (map_right (λ few. omega arith) (other-woken s' m' there e'))
            ]);
            present = (th1, put_self k.threads t (some th1));
            on_cpu = λ _. (th1, put_self k.threads t (some th1), current-running);
          },
          busy,
          refl,
          refl,
          refl,
          refl,
        )
