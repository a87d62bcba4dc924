-- ===== src/Threads/Inv/Place.antt =====
-- The lists when one thread or one semaphore changes.
use osproject.Base.{
  ℕ, ◌≡◌, ◌≢◌, refl, ◌⊎◌, inl, inr, Option, none, some, List, [], ◌∷◌, ◌++◌, ◌==◌, arith,
  Bool-cases, Option-cases,
}
use osproject.Base.Outcome.{ok}
use osproject.Threads.Kernel.{ready, blocked, Thread, Semaphore, put}
use osproject.Threads.Scheduler.{check_overflow}
use osproject.Threads.Inv.Defs.{
  All, Without, Distinct, Threads, IsReady, IsWaiting, IsFinished, Intact, Placed,
}
use osproject.Threads.Inv.Put.{
  All-map, All-append, Distinct-append, ready-ne, waiting-ne, finished-ne, put-IsFinished,
  All-put-IsReady, All-put-IsWaiting,
}

-- The thread is in no list, and is not to be destroyed.
pub record Apart (sems : ℕ → Option Semaphore) (rl : List ℕ) (d : Option ℕ) (t : ℕ) : Type 0 where
  pub no_ready : Without t rl
  pub no_queue : (s : ℕ) (m : Semaphore) → sems s ≡ some m → Without t m.queue
  pub no_over : (x : ℕ) → d ≡ some x → x ≢ t

module _ {f : Threads} {sems : ℕ → Option Semaphore} {rl : List ℕ} {d : Option ℕ} where
  pub put-Placed :
      (t : ℕ) (th : Thread)
      → Placed f sems rl d
      → Apart sems rl d t
      → Intact th.stack
      → Placed (put f t (some th)) sems rl d
  put-Placed t th p a fence = record {
    in_ready = All-put-IsReady f t (some th) rl a.no_ready p.in_ready;
    once_ready = p.once_ready;
    in_queue =
        λ s m e. All-put-IsWaiting f t (some th) s m.queue (a.no_queue s m e) (p.in_queue s m e);
    once_queue = p.once_queue;
    over = λ x e. put-IsFinished f t (some th) x (a.no_over x e) (p.over x e);
    intact = λ x th' e. elim (Bool-cases (x == t)) [
      | inl here ↦ ground arith
      | inr there ↦ p.intact x th' (ground arith)
    ];
  }

  pub Without-ready :
      (t : ℕ) (th : Thread) → Placed f sems rl d → f t ≡ some th → th.status ≢ ready → Without t rl
  Without-ready t th p at ne =
      All-map (IsReady f) (λ x. x ≢ t) rl (λ x is. ready-ne f t x at ne is) p.in_ready

  pub Without-queue :
      (t : ℕ) (th : Thread)
      → Placed f sems rl d
      → f t ≡ some th
      → th.status ≢ blocked
      → (s : ℕ) (m : Semaphore) → sems s ≡ some m
      → Without t m.queue
  Without-queue t th p at ne s m e =
      All-map (IsWaiting f s) (λ x. x ≢ t) m.queue (λ x is. waiting-ne f s t x at ne is)
        (p.in_queue s m e)

  -- A thread that is neither ready nor blocked is in no list.
  pub running-Apart :
      (t : ℕ) (th : Thread)
      → Placed f sems rl d
      → f t ≡ some th
      → th.status ≢ ready
      → th.status ≢ blocked
      → Apart sems rl d t
  running-Apart t th p at nr nb = record {
    no_ready = Without-ready t th p at nr;
    no_queue = Without-queue t th p at nb;
    no_over = λ x e. finished-ne f t x at nb (p.over x e);
  }

  pub ready-Apart : (t : ℕ) → Placed f sems rl d → IsReady f t → Without t rl → Apart sems rl d t
  ready-Apart t p (th, at, is) w = record {
    no_ready = w;
    no_queue = Without-queue t th p at (λ e. ground arith);
    no_over = λ x e. finished-ne f t x at (λ e'. ground arith) (p.over x e);
  }

  pub append-Placed :
      (t : ℕ) → Placed f sems rl d → IsReady f t → Without t rl → Placed f sems (rl ++ t ∷ []) d
  append-Placed t p is w = record {
    in_ready = All-append (IsReady f) rl t p.in_ready is;
    once_ready = Distinct-append rl t p.once_ready w;
    in_queue = p.in_queue;
    once_queue = p.once_queue;
    over = p.over;
    intact = p.intact;
  }

  pub drop-Placed : (t : ℕ) → Placed f sems (t ∷ rl) d → Placed f sems rl d
  drop-Placed t p = record {
    in_ready = p.in_ready.1;
    once_ready = p.once_ready.1;
    in_queue = p.in_queue;
    once_queue = p.once_queue;
    over = p.over;
    intact = p.intact;
  }

-- A thread that has finished waits for nothing.
pub finished-out :
    (f : Threads) (s t : ℕ) (xs : List ℕ) → IsFinished f t → All (IsWaiting f s) xs → Without t xs
finished-out f s t xs (th, at, is, over) =
    All-map (IsWaiting f s) (λ x. x ≢ t) xs
      (λ x waits same. let (th', rest, at', is', calls) = waits in ground arith)

pub delete-Placed :
    (f : Threads) (sems : ℕ → Option Semaphore) (rl : List ℕ) (t : ℕ)
    → Placed f sems rl (some t)
    → Placed (put f t none) sems rl none
delete-Placed f sems rl t p =
    let over = p.over t refl in
    record {
      in_ready =
          All-put-IsReady f t none rl (Without-ready t over.0 p over.1 (λ e. ground arith))
            p.in_ready;
      once_ready = p.once_ready;
      in_queue = λ s m e.
          All-put-IsWaiting f t none s m.queue (finished-out f s t m.queue over (p.in_queue s m e))
            (p.in_queue s m e);
      once_queue = p.once_queue;
      over = λ x e. cc;
      intact = λ x th e. elim (Bool-cases (x == t)) [
        | inl here ↦ ground arith
        | inr there ↦ p.intact x th (ground arith)
      ];
    }

pub List-cases : (xs : List ℕ) → (xs ≡ []) ⊎ ((x : ℕ) × (ys : List ℕ) × (xs ≡ x ∷ ys))
List-cases [] = inl refl
List-cases (x ∷ xs) = inr (x, xs, refl)

-- The first of the threads goes behind the others.
abbrev pub rotated : List ℕ → List ℕ
rotated [] = []
rotated (x ∷ []) = x ∷ []
rotated (x ∷ y ∷ ys) = y ∷ ys ++ x ∷ []

pub check_overflow-Intact : (th : Thread) → Intact th.stack → check_overflow th ≡ ok tt
unfolding check_overflow
check_overflow-Intact th h = elim (Option-cases th.stack) [
  | inl e ↦ rw e refl
  | inr (w, e) ↦ rw e (ground arith)
]

pub put-cases {ℓ} :
    {A : Type ℓ} (f : ℕ → Option A) (p q : ℕ) (a b : A)
    → put f p (some a) q ≡ some b
    → ((q ≡ p) × (b ≡ a)) ⊎ ((q ≢ p) × (f q ≡ some b))
put-cases f p q a b e = elim (Bool-cases (q == p)) [
  | inl here ↦ inl (ground arith, ground arith)
  | inr there ↦ inr (λ same. ground arith, ground arith)
]

module _ {f : Threads} {sems : ℕ → Option Semaphore} {rl : List ℕ} {d : Option ℕ} where
  -- A semaphore changes to one whose threads wait there.
  pub semaphore-Placed :
      (s : ℕ) (m' : Semaphore)
      → Placed f sems rl d
      → All (IsWaiting f s) m'.queue
      → Distinct m'.queue
      → Placed f (put sems s (some m')) rl d
  semaphore-Placed s m' p waits once = record {
    in_ready = p.in_ready;
    once_ready = p.once_ready;
    in_queue = λ s' m e. elim (put-cases sems s s' m' m e) [
      | inl (here, same) ↦ rw (here, same) waits
      | inr (there, e') ↦ p.in_queue s' m e'
    ];
    once_queue = λ s' m e. elim (put-cases sems s s' m' m e) [
      | inl (here, same) ↦ rw same once
      | inr (there, e') ↦ p.once_queue s' m e'
    ];
    over = p.over;
    intact = p.intact;
  }

  pub forget-Placed : Placed f sems rl d → Placed f sems rl none
  forget-Placed p = record {
    in_ready = p.in_ready;
    once_ready = p.once_ready;
    in_queue = p.in_queue;
    once_queue = p.once_queue;
    over = λ x e. cc;
    intact = p.intact;
  }

pub over-Placed :
    {f : Threads} {sems : ℕ → Option Semaphore} {rl : List ℕ} (t : ℕ)
    → Placed f sems rl none
    → IsFinished f t
    → Placed f sems rl (some t)
over-Placed t p is = record {
  in_ready = p.in_ready;
  once_ready = p.once_ready;
  in_queue = p.in_queue;
  once_queue = p.once_queue;
  over = λ x e. let same : t ≡ x = cc in rw (← same) is;
  intact = p.intact;
}
