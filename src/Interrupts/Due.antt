-- ===== src/Interrupts/Due.antt =====
-- `OneTick` calls the handlers of all interrupts that are due, and ends.
use osproject.Base.{
  ℕ, suc, ◌+◌, ◌<◌, ◌≡◌, refl, ap, ◌∙◌, ◌⊎◌, inl, inr, true, Option, none, some, List, [], ◌∷◌,
  if◌then◌else◌, Bool-cases,
}
use osproject.Base.Int.{ℤ, pos, ltb_ℤ}
use osproject.Base.Outcome.{Outcome, ok}
use osproject.Cpu.{Cpu}
use osproject.Cpu.Registers.{load_reg}
use osproject.Threads.LinkedList.Refine.{insert_sorted}
use osproject.Threads.LinkedList.Order.{Sorted, insert_sorted-Sorted}
use osproject.Interrupts.{
  PendingInterrupt, Interrupt, int_off, int_on, MachineStatus, idle_mode, system_mode, user_mode,
  system_tick, user_tick, yield_if_asked,
}

module _ {A : Type 0} where
  -- The number of entries whose time has come.
  abbrev pub due : ℕ → List (ℤ × A) → ℕ
  due t [] = 0
  due t ((key, x) ∷ xs) = if ltb_ℤ (pos t) key then due t xs else suc (due t xs)

  abbrev pub insert_all : List (ℤ × A) → List (ℤ × A) → List (ℤ × A)
  insert_all [] xs = xs
  insert_all (a ∷ added) xs = insert_sorted a (insert_all added xs)

  -- All times are after `t`.
  abbrev pub AllLater : ℕ → List (ℤ × A) → Type 0
  AllLater t [] = Unit
  AllLater t ((key, x) ∷ xs) = (ltb_ℤ (pos t) key ≡ true) × AllLater t xs

  due-insert :
      (t : ℕ) (key : ℤ) (x : A) (xs : List (ℤ × A))
      → ltb_ℤ (pos t) key ≡ true
      → due t (insert_sorted (key, x) xs) ≡ due t xs
  due-insert t key x [] later = rw later refl
  due-insert t key x ((key', y) ∷ xs) later = elim (Bool-cases (ltb_ℤ key key')) [
    | inl before ↦ rw (before, later) refl
    | inr after ↦ rw after (elim (Bool-cases (ltb_ℤ (pos t) key')) [
      | inl l ↦ rw l (due-insert t key x xs later)
      | inr n ↦ rw n (ap suc (due-insert t key x xs later))
    ])
  ]

  pub due-insert_all :
      (t : ℕ) (added xs : List (ℤ × A)) → AllLater t added → due t (insert_all added xs) ≡ due t xs
  due-insert_all t [] xs later = refl
  due-insert_all t ((key, x) ∷ added) xs (here, later) =
      due-insert t key x (insert_all added xs) here ∙ due-insert_all t added xs later

  pub insert_all-Sorted : (added xs : List (ℤ × A)) → Sorted xs → Sorted (insert_all added xs)
  insert_all-Sorted [] xs sorted = sorted
  insert_all-Sorted ((key, x) ∷ added) xs sorted =
      insert_sorted-Sorted key x (insert_all added xs) (insert_all-Sorted added xs sorted)

  List-cases : (xs : List A) → (xs ≡ []) ⊎ ((x : A) × (ys : List A) × (xs ≡ x ∷ ys))
  List-cases [] = inl refl
  List-cases (x ∷ xs) = inr (x, xs, refl)

-- What an instruction, or a stretch of the kernel, takes.
abbrev pub tick_of : MachineStatus → ℕ
tick_of system_mode = system_tick
tick_of idle_mode = user_tick
tick_of user_mode = user_tick

-- The pending load of the machine, if there is one, is for a general register.
abbrev pub MachineOk : Option Cpu → Type 0
MachineOk none = Unit
MachineOk (some c) = c.registers load_reg < 32

-- What is asked of a handler: it returns, and may change the kernel, ask for a context switch and
-- schedule interrupts for later, but changes neither the clock nor the level nor the status.
pub record Handled {H W : Type 0} (i out : Interrupt H W) : Type 0 where
  pub same_ticks : out.total_ticks ≡ i.total_ticks
  pub same_level : out.level ≡ i.level
  pub machine_ok : MachineOk out.machine
  pub added : List (ℤ × PendingInterrupt H)
  pub later : AllLater i.total_ticks added
  pub scheduled : out.pending ≡ insert_all added i.pending

pub record Handles {H W : Type 0} (i : Interrupt H W) (r : Outcome (Interrupt H W)) : Type 0 where
  pub out : Interrupt H W
  pub returns : r ≡ ok out
  pub handled : Handled i out

module _ {H W : Type 0} (call : H → Interrupt H W → Outcome (Interrupt H W))
    (yield : Interrupt H W → Outcome (Interrupt H W)) (limit : ℕ)
    (handles : (h : H) (i : Interrupt H W)
      → i.level ≡ int_off
      → MachineOk i.machine
      → i.total_ticks < limit
      → Handles i (call h i)) where
  -- Some handlers have run, and no interrupt is due.
  pub record Ends (i : Interrupt H W) (r : Outcome (Interrupt H W)) : Type 0 where
    pub out : Interrupt H W
    pub returns : r ≡ ok out
    pub same_ticks : out.total_ticks ≡ i.total_ticks
    pub none_due : due i.total_ticks out.pending ≡ 0
    pub sorted : Sorted out.pending
    pub machine_ok : MachineOk out.machine

  -- A processor with interrupts off and these pending.
  abbrev off_with : Interrupt H W → List (ℤ × PendingInterrupt H) → Interrupt H W
  off_with i pending = record i { level = int_off; pending = pending }

  -- What `OneTick` has done when it comes to the context switch that a handler may have asked for.
  pub record Ticks (i : Interrupt H W) (r : Outcome (Interrupt H W)) : Type 0 where
    pub out : Interrupt H W
    pub returns : r ≡ yield_if_asked call yield i.status out
    pub ticks : out.total_ticks ≡ i.total_ticks + tick_of i.status
    pub on : out.level ≡ int_on
    pub none_due : due out.total_ticks out.pending ≡ 0
    pub sorted : Sorted out.pending
