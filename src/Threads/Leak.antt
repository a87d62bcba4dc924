-- ===== src/Threads/Leak.antt =====
-- What becomes of a thread that has finished, when another one finishes before it is deleted.
use osproject.Base.{
  ℕ, ◌≡◌, ◌≢◌, refl, ◌∙◌, inl, inr, true, false, some, [], ◌∷◌, arith, Bool-cases, Option-cases,
  ◌==◌,
}
use mathlib.Core.Path.{subst}
use osproject.Base.Outcome.{ok}
use osproject.Threads.Kernel.{running, blocked, finished, Thread, Kernel, put, set_thread}
use osproject.Threads.Scheduler.{
  save_registers, find_next_to_run, check_overflow, delete_finished, run, sleep_loop, sleep, finish,
}
use osproject.Threads.System.{Runs}
use osproject.Threads.Inv.Defs.{Placed, Inv}
use osproject.Threads.Inv.Put.{==-self, put-other, put_self}
use osproject.Threads.Inv.Wake.{put-present}
use osproject.Threads.Inv.Place.{List-cases, check_overflow-Intact}

-- The thread is still there, and nothing is left that would delete it.
abbrev pub Leaked : ℕ → Kernel → Type 0
Leaked t k = ((th : Thread) × (k.threads t ≡ some th)) × (k.to_be_destroyed ≢ some t)

delete-Leaked :
    (k : Kernel) (t now : ℕ) (th : Thread) {k' : Kernel}
    → k.threads t ≡ some th
    → t ≢ now
    → k.to_be_destroyed ≡ some now
    → delete_finished k ≡ ok k'
    → Leaked t k'
unfolding delete_finished
delete-Leaked k t now th at ne doomed e = elim (Option-cases (k.threads now)) [
  | inl gone ↦ absurd (let e' = rw (doomed, gone) at e in cc)
  | inr (th', at') ↦ elim (Bool-cases (now == k.current)) [
    | inl same ↦ absurd (let e' = rw (doomed, at', same) at e in cc)
    | inr other ↦ let e' = rw (doomed, at', other) at e in ((th, ground arith), ground arith)
  ]
]

run-Leaked :
    (k : Kernel) (next t now : ℕ) (th : Thread) {k' : Kernel}
    → k.threads t ≡ some th
    → t ≢ now
    → k.to_be_destroyed ≡ some now
    → (old : Thread) → k.threads k.current ≡ some old
    → check_overflow old ≡ ok tt
    → (nt : Thread) → k.threads next ≡ some nt
    → run next k ≡ ok k'
    → Leaked t k'
unfolding run
run-Leaked k next t now th {k' = k'} at ne doomed old at_old checked nt at_next e =
    let e1 = rw (at_old, checked, at_next) at e in
    let k1 : Kernel = record (set_thread k next (record nt { status = running })) {
      current = next;
      idle = false;
      in_run = save_registers k.current k.in_run;
    } in
    let (th1, at1) = put-present k.threads next t (record nt { status = running }) (th, at) in
    elim (Bool-cases (k1.in_run next)) [
      | inl seen ↦ delete-Leaked k1 t now th1 at1 ne doomed (rw seen at e1)
      | inr new ↦
          let same : k1 ≡ k' = let e2 = rw new at e1 in cc in
          subst (Leaked t) same ((th1, at1), λ e3. ground arith)
    ]

-- Under the invariant of the kernel, when a thread finishes while another one still waits to be
-- deleted, and Finish returns, that other thread stays allocated and is no longer the one to be
-- destroyed.
pub finish-Leaked :
    (k : Kernel) (t : ℕ) {k' : Kernel}
    → Inv k
    → Runs k []
    → k.to_be_destroyed ≡ some t
    → finish k ≡ ok k'
    → Leaked t k'
unfolding finish sleep sleep_loop find_next_to_run
finish-Leaked k t {k' = k'} i (busy, (now, at, none_left)) doomed e =
    let c = k.current in
    let (th, at_t, is, over) = i.placed.over t doomed in
    let ne : t ≢ c = λ same. ground arith in
    let th1 : Thread = record now { calls = finished ∷ [] } in
    let th2 : Thread = record th1 { status = blocked } in
    let f1 = put k.threads c (some th1) in
    let f2 = put f1 c (some th2) in
    let k1 : Kernel = record k { threads = f2; to_be_destroyed = some c } in
    let at2 : f2 t ≡ some th =
      put-other f1 c (some th2) t ne ∙ put-other k.threads c (some th1) t ne ∙ at_t in
    let e1 : sleep_loop k1 ≡ ok k' = rw (at, ==-self c) at e in
    elim (List-cases k.ready_list) [
      | inl empty ↦
          let same : record k1 { idle = true; ready_list = [] } ≡ k' =
            let e2 = rw empty at e1 in cc in
          subst (Leaked t) same ((th, at2), λ e3. ground arith)
      | inr (next, rest, cons) ↦
          let p1 : Placed k.threads k.semaphores (next ∷ rest) k.to_be_destroyed =
            rw cons at i.placed in
          let (nt, at_nt, is_nt) = p1.in_ready.0 in
          let apart : next ≢ c = λ same. ground arith in
          let at_nt2 : f2 next ≡ some nt =
            put-other f1 c (some th2) next apart
            ∙ put-other k.threads c (some th1) next apart
            ∙ at_nt in
          run-Leaked (record k1 { ready_list = rest }) next t c th at2 ne refl th2
            (put_self f1 c (some th2)) (check_overflow-Intact th2 (i.placed.intact c now at)) nt
            at_nt2 (rw cons at e1)
    ]
