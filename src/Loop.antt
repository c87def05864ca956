-- ===== src/Loop.antt =====
-- packages/core/src/loop.ts: `SimulationLoop`. A number is an element of a type with the operations
-- that the loop calls: what its sums, quotients and remainders round to is theirs. What the game
-- does in a step is an argument, the calls of the loop that it makes.
pub mod Interval
pub mod Quiet
pub mod Wake
mod Runs
use bungohan.Base.{
  ℕ, zero, suc, Bool, true, false, Option, none, some, List, [], ◌∷◌, if◌then◌else◌,
}
use bungohan.Clock
use bungohan.Clock.{Clock}

-- Numbers, the constants of the loop, and the delay that the platform makes of a number.
pub record Numbers (F : Type 0) : Type 0 where
  pub nought : F
  pub epsilon : F
  pub thousand : F
  pub plus : F → F → F
  pub minus : F → F → F
  pub over : F → F → F
  pub modulo : F → F → F
  pub at_least : F → F → Bool
  pub delay : F → ℕ

-- The callback of a loop's interval.
pub data Wakeup : Type 0 where
  wakeup : Wakeup

pub record SimulationLoop (F : Type 0) : Type 0 where
  pub clock : Clock Wakeup
  pub max_catch_up_steps : ℕ
  pub step_ms : F
  pub timer : Option ℕ
  pub last : F
  pub accumulator : F
  pub dropped_ms : F
  pub steps : ℕ

-- `Math.max(1, maxCatchUpSteps)`
abbrev pub at_least_one : ℕ → ℕ
at_least_one zero = 1
at_least_one (suc n) = suc n

abbrev pub running : {F : Type 0} → SimulationLoop F → Bool
running l = elim l.timer [ none ↦ false | some t ↦ true ]

-- A call that a step of the game makes on its loop, with the reading of the clock where it matters.
pub data Call (F : Type 0) : Type 0 where
  stops : Call F
  starts : F → Call F
  sets_tick_rate : F → F → Call F

module _ {F : Type 0} (num : Numbers F) where
  -- constructor
  pub init : F → ℕ → SimulationLoop F
  init tick_rate max_catch_up_steps = record {
    clock = Clock.init;
    max_catch_up_steps = at_least_one max_catch_up_steps;
    step_ms = num.over num.thousand tick_rate;
    timer = none;
    last = num.nought;
    accumulator = num.nought;
    dropped_ms = num.nought;
    steps = 0;
  }

  -- start
  pub start : SimulationLoop F → F → SimulationLoop F
  start l now = elim l.timer [
    | some t ↦ l
    | none ↦
        let (t, clock) = Clock.set_interval l.clock wakeup (num.delay l.step_ms) in
        record l { clock = clock; timer = some t; last = now; accumulator = num.nought }
  ]

  -- stop
  pub stop : SimulationLoop F → SimulationLoop F
  stop l = elim l.timer [
    | none ↦ l
    | some t ↦ record l { clock = Clock.clear l.clock t; timer = none }
  ]

  -- setTickRate
  pub set_tick_rate : SimulationLoop F → F → F → SimulationLoop F
  set_tick_rate l tick_rate now =
      let l' = record (stop l) { step_ms = num.over num.thousand tick_rate } in
      if running l then start l' now else l'

  pub call : SimulationLoop F → Call F → SimulationLoop F
  call l stops = stop l
  call l (starts now) = start l now
  call l (sets_tick_rate tick_rate now) = set_tick_rate l tick_rate now

  pub call_all : SimulationLoop F → List (Call F) → SimulationLoop F
  call_all l [] = l
  call_all l (c ∷ calls) = call_all (call l c) calls

  -- `this._accumulator + EPSILON >= this._stepMs`
  abbrev pub is_due : SimulationLoop F → Bool
  is_due l = num.at_least (num.plus l.accumulator num.epsilon) l.step_ms

  -- A round of the loop in `_wake`. The game is told the number of its step and `deltaTime`.
  pub take_step : (ℕ → F → List (Call F)) → SimulationLoop F → SimulationLoop F
  take_step game l =
      let l' = record l { accumulator = num.minus l.accumulator l.step_ms; steps = suc l.steps } in
      call_all l' (game l'.steps l.step_ms)

  -- The loop, with the rounds that `maxCatchUpSteps` leaves; whether it returns from `_wake`.
  pub catch_up : (ℕ → F → List (Call F)) → ℕ → SimulationLoop F → SimulationLoop F × Bool
  catch_up game zero l = (l, false)
  catch_up game (suc rounds) l =
      let l' = take_step game l in
      let rest = catch_up game rounds l' in
      if is_due l then (if running l' then rest else (l', true)) else (l, false)

  -- What is still due behind the loop is dropped, in whole steps.
  pub drop_backlog : SimulationLoop F → SimulationLoop F
  drop_backlog l =
      let backlog = num.minus l.accumulator (num.modulo l.accumulator l.step_ms) in
      if is_due l
      then record l {
        dropped_ms = num.plus l.dropped_ms backlog;
        accumulator = num.minus l.accumulator backlog;
      }
      else l

  -- The end of `_wake`.
  abbrev pub woken : SimulationLoop F × Bool → SimulationLoop F
  woken (l, true) = l
  woken (l, false) = drop_backlog l

  -- _wake
  pub wake : (ℕ → F → List (Call F)) → SimulationLoop F → F → SimulationLoop F
  wake game l now =
      let l' = record l {
        accumulator = num.plus l.accumulator (num.minus now l.last);
        last = now;
      } in
      woken (catch_up game l.max_catch_up_steps l')
