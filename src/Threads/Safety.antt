-- ===== src/Threads/Safety.antt =====
-- What holds in every state that the kernel of threads/ reaches.
use osproject.Base.{
  ℕ, suc, ◌+◌, ◌≤◌, ◌≡◌, ◌≢◌, refl, ◌⊎◌, inl, inr, some, List, [], ◌∷◌, arith, Bool-cases, ◌==◌,
  if◌then◌else◌,
}
use osproject.Threads.Kernel.{blocked, Thread, Semaphore, Kernel}
use osproject.Threads.System.{Reach}
use osproject.Threads.Inv.Defs.{
  Threads, All, Without, Distinct, IsReady, IsWaiting, testers, active, Inv,
}
use osproject.Threads.Inv.Put.{All-map}
use osproject.Threads.Inv.Place.{Without-ready}
use osproject.Threads.Inv.Steps.{Reach-Inv}

-- In every state that the kernel reaches, by any sequence of Yield, Finish, Fork, P, V, Destroy
-- and new objects, and by interrupts that call V, also while the processor is idle: while a thread
-- waits in the queue of a semaphore, at least as many threads as its value are ready or running
-- and about to test it.
pub no_lost_wakeup :
    {k : Kernel}
    → Reach k
    → (s : ℕ) (m : Semaphore) → k.semaphores s ≡ some m
    → m.queue ≢ []
    → m.value ≤ testers k.threads s (active k)
no_lost_wakeup r s m at waits = elim ((Reach-Inv r).woken s m at) [
  | inl empty ↦ absurd (waits empty)
  | inr few ↦ few
]

-- How often a thread stands in a list.
abbrev pub occurs : ℕ → List ℕ → ℕ
occurs t [] = 0
occurs t (x ∷ xs) = if x == t then suc (occurs t xs) else occurs t xs

occurs-Without : (t : ℕ) (xs : List ℕ) → Without t xs → occurs t xs ≡ 0
occurs-Without t [] w = refl
occurs-Without t (x ∷ xs) (ne, w) = ground (arith, occurs-Without t xs w)

occurs-Distinct : (t : ℕ) (xs : List ℕ) → Distinct xs → occurs t xs ≤ 1
occurs-Distinct t [] d = omega arith
occurs-Distinct t (x ∷ xs) (out, d) = elim (Bool-cases (x == t)) [
  | inl here ↦
      let same : x ≡ t = ground arith in
      let none_more : occurs t xs ≡ 0 = occurs-Without t xs (rw same at out) in
      rw here (omega arith)
  | inr there ↦ rw there (occurs-Distinct t xs d)
]

occurs-All {ℓ} : (P : ℕ → Type ℓ) (t : ℕ) (xs : List ℕ) → All P xs → (occurs t xs ≡ 0) ⊎ P t
occurs-All P t [] h = inl refl
occurs-All P t (x ∷ xs) (here, h) = elim (Bool-cases (x == t)) [
  | inl e ↦ let same : x ≡ t = ground arith in inr (rw same at here)
  | inr e ↦ rw e (occurs-All P t xs h)
]

abbrev CanRun : Threads → ℕ → Type 0
CanRun f t = (th : Thread) × (f t ≡ some th) × (th.status ≢ blocked)

active-CanRun : (k : Kernel) → Inv k → All (CanRun k.threads) (active k)
active-CanRun k i =
    let ready_too =
      All-map (IsReady k.threads) (CanRun k.threads) k.ready_list
        (λ x (th, at, is). (th, at, λ e. ground arith)) i.placed.in_ready in
    elim (Bool-cases k.idle) [
      | inl e ↦ rw e ready_too
      | inr e ↦ let (th, at, is) = i.on_cpu e in rw e ((th, at, λ e'. ground arith), ready_too)
    ]

active-Distinct : (k : Kernel) → Inv k → Distinct (active k)
active-Distinct k i = elim (Bool-cases k.idle) [
  | inl e ↦ rw e i.placed.once_ready
  | inr e ↦
      let (th, at, is) = i.on_cpu e in
      rw e (Without-ready k.current th i.placed at (λ e'. ground arith), i.placed.once_ready)
]

at_most_once :
    (P Q : ℕ → Type 0) (t : ℕ) (xs ys : List ℕ)
    → All P xs
    → All Q ys
    → Distinct xs
    → Distinct ys
    → (P t → Q t → ⊥)
    → occurs t xs + occurs t ys ≤ 1
at_most_once P Q t xs ys hx hy dx dy apart = elim (occurs-All P t xs hx) [
  | inl e ↦ omega (arith, occurs-Distinct t ys dy)
  | inr px ↦ elim (occurs-All Q t ys hy) [
    | inl e ↦ omega (arith, occurs-Distinct t xs dx)
    | inr qy ↦ absurd (apart px qy)
  ]
]

-- In every state that the kernel reaches, a thread is at most once among those that can run, and
-- then in no queue of a semaphore, and it is at most once in one queue and then in no queue of
-- another semaphore.
pub one_place :
    {k : Kernel}
    → Reach k
    → (t s s' : ℕ) (m m' : Semaphore) → k.semaphores s ≡ some m
    → k.semaphores s' ≡ some m'
    → s ≢ s'
    → (occurs t (active k) + occurs t m.queue ≤ 1) × (occurs t m.queue + occurs t m'.queue ≤ 1)
one_place {k} r t s s' m m' at at' ne =
    let i = Reach-Inv r in
    (
      at_most_once (CanRun k.threads) (IsWaiting k.threads s) t (active k) m.queue
          (active-CanRun k i) (i.placed.in_queue s m at) (active-Distinct k i)
          (i.placed.once_queue s m at) (λ (th, e, is) (th', rest, e', is', calls). ground arith),
      at_most_once (IsWaiting k.threads s) (IsWaiting k.threads s') t m.queue m'.queue
          (i.placed.in_queue s m at) (i.placed.in_queue s' m' at') (i.placed.once_queue s m at)
          (i.placed.once_queue s' m' at')
          (λ (th, rest, e, is, calls) (th', rest', e', is', calls'). ne (ground arith)),
    )
