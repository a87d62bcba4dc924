-- ===== src/Threads/Inv/Sched.antt =====
-- The scheduler keeps the invariant: `Run` with the deletion of a thread, `Yield`, and the loop of
-- `Sleep`.
use osproject.Base.{
  ℕ, ◌+◌, ◌≡◌, ◌≢◌, refl, sym, ◌∙◌, inl, inr, true, false, none, some, List, [], ◌∷◌, ◌++◌, arith,
  Bool-cases, Option-cases, ap,
}
use osproject.Base.Outcome.{ok}
use osproject.Threads.Kernel.{running, ready, Thread, Kernel, put, set_thread}
use osproject.Threads.Scheduler.{
  save_registers, ready_to_run, find_next_to_run, delete_finished, run, yield, sleep_loop,
}
use osproject.Threads.Inv.Defs.{Without, Threads, IsReady, tests, testers, Placed, Woken, Inv}
use osproject.Threads.Inv.Put.{
  All-append, put_self, put-other, ready-ne, put-IsReady, testers-out, testers-same, testers-append,
}
use osproject.Threads.Inv.Place.{
  put-Placed, Without-ready, running-Apart, ready-Apart, append-Placed, drop-Placed, delete-Placed,
  List-cases, rotated, check_overflow-Intact,
}

-- The thread that is destroyed is not the current one, and nothing refers to it any more.
pub delete_finished-Inv :
    (k : Kernel)
    → Inv k
    → k.idle ≡ false
    → (k' : Kernel) × (delete_finished k ≡ ok k')
      × Inv k'
      × (k'.idle ≡ false)
      × (k'.current ≡ k.current)
      × (k'.ready_list ≡ k.ready_list)
      × (k'.semaphores ≡ k.semaphores)
      × (k'.to_be_destroyed ≡ none)
unfolding delete_finished
delete_finished-Inv k i busy = elim (Option-cases k.to_be_destroyed) [
  | inl e ↦ (k, rw e refl, i, busy, refl, refl, refl, e)
  | inr (t, e) ↦
      let p : Placed k.threads k.semaphores k.ready_list (some t) = rw e at i.placed in
      let (th, at, is, calls) = p.over t refl in
      let (now, at_now, is_now) = i.on_cpu busy in
      let ne : k.current ≢ t = λ same. ground arith in
      let k1 : Kernel = record k { threads = put k.threads t none; to_be_destroyed = none } in
      (
        k1,
        rw (e, at) (ground arith),
        record {
          placed = delete-Placed k.threads k.semaphores k.ready_list t p;
          woken = rw busy (λ s m e'. elim (i.woken s m e') [
            | inl empty ↦ inl empty
            | inr few ↦ inr (
                rw
                  (testers-out k.threads t none s (k.current ∷ k.ready_list)
                    (ne, Without-ready t th p at (λ e''. ground arith)))
                  (rw busy at few))
          ]);
          present = (now, rw (put-other k.threads t none k.current ne) at_now);
          on_cpu = λ _. (now, rw (put-other k.threads t none k.current ne) at_now, is_now);
        },
        busy,
        refl,
        refl,
        refl,
        refl,
      )
]

-- `Run` dispatches a ready thread that is off the ready list. The threads that can run are then
-- this one and those of the list.
pub run-Inv :
    (k : Kernel) (next : ℕ)
    → Placed k.threads k.semaphores k.ready_list k.to_be_destroyed
    → IsReady k.threads next
    → Without next k.ready_list
    → Woken k.threads k.semaphores (next ∷ k.ready_list)
    → (old : Thread) → k.threads k.current ≡ some old
    → (k' : Kernel) × (run next k ≡ ok k')
      × Inv k'
      × (k'.idle ≡ false)
      × (k'.current ≡ next)
      × (k'.ready_list ≡ k.ready_list)
      × (k'.semaphores ≡ k.semaphores)
unfolding run
run-Inv k next p (th, at, is) w woken old e =
    let k1 : Kernel = record (set_thread k next (record th { status = running })) {
      current = next;
      idle = false;
      in_run = save_registers k.current k.in_run;
    } in
    let th' : Thread = record th { status = running } in
    let i : Inv k1 = record {
      placed = put-Placed next th' p (ready-Apart next p (th, at, is) w) (p.intact next th at);
      woken = λ s m e'.
          rw (testers-same k.threads next (some th') s (next ∷ k.ready_list) (rw at refl))
            (woken s m e');
      present = (th', put_self k.threads next (some th'));
      on_cpu = λ _. (th', put_self k.threads next (some th'), refl);
    } in
    elim (Bool-cases (k1.in_run next)) [
      | inl seen ↦
          let (k', step, i', busy, c, r, s, _) = delete_finished-Inv k1 i refl in
          (
            k',
            rw (e, check_overflow-Intact old (p.intact k.current old e), at, seen) step,
            i',
            busy,
            c,
            r,
            s,
          )
      | inr new ↦ (
        k1,
        rw (e, check_overflow-Intact old (p.intact k.current old e), at, new) refl,
        i,
        refl,
        refl,
        refl,
        refl,
      )
    ]

-- The current thread is off the processor: it waits, or has finished.
pub sleep_loop-Inv :
    (k : Kernel)
    → Placed k.threads k.semaphores k.ready_list k.to_be_destroyed
    → Woken k.threads k.semaphores k.ready_list
    → (old : Thread) → k.threads k.current ≡ some old
    → (k' : Kernel) × (sleep_loop k ≡ ok k') × Inv k' × (k'.semaphores ≡ k.semaphores)
unfolding sleep_loop find_next_to_run
sleep_loop-Inv k p woken old e = elim (List-cases k.ready_list) [
  | inl empty ↦ (
    record k { idle = true },
    rw empty refl,
    record { placed = p; woken = woken; present = (old, e); on_cpu = λ b. cc },
    refl,
  )
  | inr (next, rest, cons) ↦
      let p1 : Placed k.threads k.semaphores (next ∷ rest) k.to_be_destroyed = rw cons at p in
      let (k', step, i, _, _, _, same) =
        run-Inv (record k { ready_list = rest }) next (drop-Placed next p1) p1.in_ready.0
          p1.once_ready.0 (rw cons at woken) old e in
      (k', rw cons step, i, same)
]

testers-rotate :
    (f : Threads) (t s x : ℕ) (xs : List ℕ) (now th : Thread)
    → f t ≡ some now
    → th.calls ≡ now.calls
    → testers (put f t (some th)) s (x ∷ xs ++ t ∷ []) ≡ testers f s (t ∷ x ∷ xs)
testers-rotate f t s x xs now th at same =
    testers-same f t (some th) s (x ∷ xs ++ t ∷ []) (rw (at, same) refl)
    ∙ ap (λ (n : ℕ). tests s (f x) + n) (testers-append f s xs t)
    ∙ omega arith

-- Under the invariant of the kernel, with the processor not idle, Yield returns and keeps the
-- invariant: the running thread and the ready list are rotated by one place, so that the first
-- ready thread runs and the old one is the last; the semaphores are as before.
pub yield-Inv :
    (k : Kernel)
    → Inv k
    → k.idle ≡ false
    → (k' : Kernel) × (yield k ≡ ok k')
      × Inv k'
      × (k'.idle ≡ false)
      × (k'.current ∷ k'.ready_list ≡ rotated (k.current ∷ k.ready_list))
      × (k'.semaphores ≡ k.semaphores)
unfolding yield find_next_to_run ready_to_run
yield-Inv k i busy = elim (List-cases k.ready_list) [
  | inl empty ↦ (k, rw empty refl, i, busy, rw empty refl, refl)
  | inr (next, rest, cons) ↦
      let p1 : Placed k.threads k.semaphores (next ∷ rest) k.to_be_destroyed =
        rw cons at i.placed in
      let (now, at, is) = i.on_cpu busy in
      let t = k.current in
      let p2 = drop-Placed next p1 in
      let apart = running-Apart t now p2 at (λ e. ground arith) (λ e. ground arith) in
      let th : Thread = record now { status = ready } in
      let p3 = put-Placed t th p2 apart (i.placed.intact t now at) in
      let f : Threads = put k.threads t (some th) in
      let p4 = append-Placed t p3 (th, put_self k.threads t (some th), refl) apart.no_ready in
      let ne : next ≢ t = ready-ne k.threads t next at (λ e. ground arith) p1.in_ready.0 in
      let (k', step, i', busy', c, r, same) =
        run-Inv (record k { ready_list = rest ++ t ∷ []; threads = f }) next p4
          (put-IsReady k.threads t (some th) next ne p1.in_ready.0)
          (All-append (λ x. x ≢ next) rest t p1.once_ready.0 (λ e. ne (sym e)))
          (λ s m e.
            rw (testers-rotate k.threads t s next rest now th at refl)
              (let w = i.woken s m e in rw (busy, cons) at w))
          th (put_self k.threads t (some th)) in
      (k', rw (cons, at) step, i', busy', rw (c, r, cons) refl, same)
]
