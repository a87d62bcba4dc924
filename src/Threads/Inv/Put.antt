-- ===== src/Threads/Inv/Put.antt =====
-- What a change to one thread leaves alone.
use osproject.Base.{
  ℕ, ◌+◌, ◌≡◌, ◌≢◌, refl, ◌⊎◌, inl, inr, true, Option, some, List, [], ◌∷◌, ◌++◌, ◌==◌, arith,
  Bool-cases,
}
use osproject.Threads.Kernel.{ready, blocked, Call, p_loop, Thread, put}
use osproject.Threads.Inv.Defs.{
  All, Without, Distinct, Threads, IsReady, IsWaiting, IsFinished, at_test, tests, testers,
}

pub map_right : {A B C : Type 0} → (B → C) → A ⊎ B → A ⊎ C
map_right f (inl a) = inl a
map_right f (inr b) = inr (f b)

pub at_test_self : (s : ℕ) (rest : List Call) → at_test s (p_loop s ∷ rest) ≡ 1
at_test_self s rest = ground arith

pub ==-self : (t : ℕ) → (t == t) ≡ true
==-self t = ground arith

pub All-map {ℓ κ} :
    (P : ℕ → Type ℓ) (Q : ℕ → Type κ) (xs : List ℕ) → ((x : ℕ) → P x → Q x) → All P xs → All Q xs
All-map P Q [] f h = tt
All-map P Q (x ∷ xs) f (here, h) = (f x here, All-map P Q xs f h)

pub All-append {ℓ} : (P : ℕ → Type ℓ) (xs : List ℕ) (y : ℕ) → All P xs → P y → All P (xs ++ y ∷ [])
All-append P [] y h last = (last, tt)
All-append P (x ∷ xs) y (here, h) last = (here, All-append P xs y h last)

pub Distinct-append : (xs : List ℕ) (y : ℕ) → Distinct xs → Without y xs → Distinct (xs ++ y ∷ [])
Distinct-append [] y d w = (tt, tt)
Distinct-append (x ∷ xs) y (fresh, d) (ne, w) =
    (All-append (λ z. z ≢ x) xs y fresh (λ e. ne (ground arith)), Distinct-append xs y d w)

pub put_self : (f : Threads) (t : ℕ) (o : Option Thread) → put f t o t ≡ o
put_self f t o = ground arith

pub put-other : (f : Threads) (t : ℕ) (o : Option Thread) (x : ℕ) → x ≢ t → put f t o x ≡ f x
put-other f t o x ne = ground arith

-- Threads of other kinds are other threads.
pub ready-ne :
    (f : Threads) (t x : ℕ) {th : Thread} → f t ≡ some th → th.status ≢ ready → IsReady f x → x ≢ t
ready-ne f t x {th} at ne (th', e, is) same = ground arith

pub waiting-ne :
    (f : Threads) (s t x : ℕ) {th : Thread}
    → f t ≡ some th
    → th.status ≢ blocked
    → IsWaiting f s x
    → x ≢ t
waiting-ne f s t x {th} at ne (th', rest, e, is, calls) same = ground arith

pub finished-ne :
    (f : Threads) (t x : ℕ) {th : Thread}
    → f t ≡ some th
    → th.status ≢ blocked
    → IsFinished f x
    → x ≢ t
finished-ne f t x {th} at ne (th', e, is, calls) same = ground arith

module _ (f : Threads) (t : ℕ) (o : Option Thread) where
  pub put-IsReady : (x : ℕ) → x ≢ t → IsReady f x → IsReady (put f t o) x
  put-IsReady x ne (th, e, is) = (th, rw (put-other f t o x ne) e, is)

  pub put-IsWaiting : (s x : ℕ) → x ≢ t → IsWaiting f s x → IsWaiting (put f t o) s x
  put-IsWaiting s x ne (th, rest, e, is, calls) = (th, rest, rw (put-other f t o x ne) e, is, calls)

  pub put-IsFinished : (x : ℕ) → x ≢ t → IsFinished f x → IsFinished (put f t o) x
  put-IsFinished x ne (th, e, is, calls) = (th, rw (put-other f t o x ne) e, is, calls)

  pub All-put-IsReady :
      (xs : List ℕ) → Without t xs → All (IsReady f) xs → All (IsReady (put f t o)) xs
  All-put-IsReady [] w h = tt
  All-put-IsReady (x ∷ xs) (ne, w) (here, h) = (put-IsReady x ne here, All-put-IsReady xs w h)

  pub All-put-IsWaiting :
      (s : ℕ) (xs : List ℕ)
      → Without t xs
      → All (IsWaiting f s) xs
      → All (IsWaiting (put f t o) s) xs
  All-put-IsWaiting s [] w h = tt
  All-put-IsWaiting s (x ∷ xs) (ne, w) (here, h) =
      (put-IsWaiting s x ne here, All-put-IsWaiting s xs w h)

  pub testers-out : (s : ℕ) (xs : List ℕ) → Without t xs → testers (put f t o) s xs ≡ testers f s xs
  testers-out s [] w = refl
  testers-out s (x ∷ xs) (ne, w) = rw (put-other f t o x ne, testers-out s xs w) refl

  pub testers-same :
      (s : ℕ) (xs : List ℕ) → tests s o ≡ tests s (f t) → testers (put f t o) s xs ≡ testers f s xs
  testers-same s [] same = refl
  testers-same s (x ∷ xs) same = elim (Bool-cases (x == t)) [
    | inl here ↦ ground (arith, testers-same s xs same)
    | inr there ↦ rw (there, testers-same s xs same) refl
  ]

pub testers-append :
    (f : Threads) (s : ℕ) (xs : List ℕ) (y : ℕ)
    → testers f s (xs ++ y ∷ []) ≡ testers f s xs + tests s (f y)
testers-append f s [] y = omega arith
testers-append f s (x ∷ xs) y = omega (arith, testers-append f s xs y)
