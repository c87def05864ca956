-- ===== src/Loop/Runs.antt =====
-- Runs of the loops, and the theorems at concrete inputs.
use bungohan.Base.{ℕ, zero, suc, ◌+◌, ◌-◌, ◌/◌, ◌%◌, ◌≡◌, refl, not, ltb, List, [], ◌∷◌}
use bungohan.Loop
use bungohan.Loop.{Numbers, SimulationLoop, Call, stops, sets_tick_rate, wake, start, init, wakeup}
use bungohan.Clock
use bungohan.Loop.Interval
use bungohan.Loop.Interval.{IntervalLoop}
use bungohan.Loop.Quiet.{wake_spends, Spending}
use bungohan.Loop.Wake.{wake_outcome, Outcome}

-- Whole milliseconds.
abbrev whole : Numbers ℕ
whole = record {
  nought = 0;
  epsilon = 0;
  thousand = 1000;
  plus = λ x y. x + y;
  minus = λ x y. x - y;
  over = λ x y. x / y;
  modulo = λ x y. x % y;
  at_least = λ x y. not (ltb x y);
  delay = λ x. x;
}

abbrev nothing : ℕ → ℕ → List (Call ℕ)
nothing k time = []

-- The second step slows the loop down.
abbrev slows : ℕ → ℕ → List (Call ℕ)
slows (suc (suc zero)) time = sets_tick_rate 10 1430 ∷ []
slows k time = []

-- Twenty steps a second, started at a second past zero.
abbrev twenty : SimulationLoop ℕ
unfolding init start
twenty = start whole (init whole 20 5) 1000

-- 430 ms late: five steps are taken, and of the 180 ms that are left three more are dropped.
late : (wake whole nothing twenty 1430).dropped_ms ≡ 150
unfolding wake init start Loop.catch_up Loop.take_step Loop.call_all Loop.drop_backlog
late = refl

-- A step that sets a new rate leaves the loop started again, with nothing accumulated.
slowed : ((wake whole slows twenty 1430).steps ≡ 2) × ((wake whole slows twenty 1430).step_ms ≡ 100)
unfolding wake init start Loop.catch_up Loop.take_step Loop.call Loop.call_all Loop.drop_backlog
    Loop.set_tick_rate Loop.stop
slowed = (refl, refl)

-- A step that disposes of the room stops the loop.
abbrev disposes : ℕ → ℕ → List (Call ℕ)
disposes k time = stops ∷ []

disposed :
    ((wake whole disposes twenty 1430).steps ≡ 1)
    × ((wake whole disposes twenty 1430).dropped_ms ≡ 0)
unfolding wake init start Loop.catch_up Loop.take_step Loop.call Loop.call_all Loop.stop
disposed = (refl, refl)

wake_outcome_example : Outcome whole twenty (wake whole slows twenty 1430)
unfolding init start
wake_outcome_example = wake_outcome whole slows twenty 1430 refl

wake_spends_example : Spending whole twenty (wake whole nothing twenty 1430) 430 1430
unfolding init start
wake_spends_example = wake_spends whole nothing twenty 1430 (λ k time. refl) refl

-- A loop that syncs twenty times a second, on a clock of its own.
abbrev syncing : IntervalLoop ℕ
unfolding Interval.init Interval.start
syncing = Interval.start whole (Interval.init whole Clock.init 20)
