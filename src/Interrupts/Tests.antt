-- ===== src/Interrupts/Tests.antt =====
-- A timer that is due, and one that is not.
use osproject.Base.{ℕ, ◌+◌, true, false, none, [], ◌∷◌}
use osproject.Base.Int.{pos}
use osproject.Base.Outcome.{Outcome, ok, ◌>>=◌}
use osproject.Interrupts.{Interrupt, int_on, user_mode, timer_int, disk_int, schedule}

-- The handler of a timer (machine/timer.cc) asks for a context switch and is called again in 100
-- ticks.
abbrev timer_handler : ℕ → Interrupt ℕ ℕ → Outcome (Interrupt ℕ ℕ)
timer_handler h i = schedule h 100 timer_int i >>= λ i'. ok (record i' { yield_on_return = true })

abbrev count_yield : Interrupt ℕ ℕ → Outcome (Interrupt ℕ ℕ)
count_yield i = ok (record i { world = i.world + 1 })

abbrev two_pending : Interrupt ℕ ℕ
two_pending = record {
  level = int_on;
  pending =
      (pos 50, record { handler = 0; when = 50; type = timer_int })
      ∷ (pos 90, record { handler = 1; when = 90; type = disk_int })
      ∷ [];
  in_handler = false;
  yield_on_return = false;
  status = user_mode;
  total_ticks = 50;
  idle_ticks = 0;
  system_ticks = 20;
  user_ticks = 30;
  machine = none;
  world = 7;
}
