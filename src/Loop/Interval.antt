-- ===== src/Loop/Interval.antt =====
-- packages/core/src/loop.ts: `IntervalLoop`, which has no accumulator, with the numbers of
-- `SimulationLoop`.
use bungohan.Base.{ℕ, ◌<◌, ◌≡◌, refl, sym, ap, subst, ◌∙◌, Option, none, some, arith}
use bungohan.Clock
use bungohan.Clock.{Clock, IsFresh, pending, pending-clear, pending-set_interval}
use bungohan.Loop.{Numbers, Wakeup, wakeup}

pub record IntervalLoop (F : Type 0) : Type 0 where
  pub clock : Clock Wakeup
  pub period_ms : F
  pub timer : Option ℕ

module _ {F : Type 0} (num : Numbers F) where
  -- constructor
  unfoldable pub init : Clock Wakeup → F → IntervalLoop F
  init clock rate = record { clock = clock; period_ms = num.over num.thousand rate; timer = none }

  -- start
  unfoldable pub start : IntervalLoop F → IntervalLoop F
  start l = elim l.timer [
    | some t ↦ l
    | none ↦
        let (t, clock) = Clock.set_interval l.clock wakeup (num.delay l.period_ms) in
        record l { clock = clock; timer = some t }
  ]

  -- stop
  pub stop : IntervalLoop F → IntervalLoop F
  stop l = elim l.timer [
    | none ↦ l
    | some t ↦ record l { clock = Clock.clear l.clock t; timer = none }
  ]

  -- setRate
  pub set_rate : IntervalLoop F → F → IntervalLoop F
  set_rate l rate =
      let l' : IntervalLoop F = record (stop l) { period_ms = num.over num.thousand rate } in
      elim l.timer [ none ↦ l' | some t ↦ start l' ]

  -- What a rate set on a loop with timer `t` leaves.
  pub record Restarted (l l' : IntervalLoop F) (rate : F) (t : ℕ) : Type 0 where
    pub new_period : l'.period_ms ≡ num.over num.thousand rate
    pub new_timer : l'.timer ≡ some l.clock.next_id
    pub old_cleared : pending l'.clock t ≡ none
    pub new_pending : pending l'.clock l.clock.next_id ≡ some wakeup

  restarted :
      (clock : Clock Wakeup) (period rate : F) (t : ℕ)
      → t < clock.next_id
      → let l : IntervalLoop F = record { clock = clock; period_ms = period; timer = some t } in
        Restarted l (set_rate l rate) rate t
  unfolding set_rate start stop
  restarted clock period rate t b =
      let c : Clock Wakeup = Clock.clear clock t in
      let old = pending-clear clock t t in
      let next = Clock.next_id-clear clock t in
      let ms = num.over num.thousand rate in
      record {
        new_period = refl;
        new_timer = ap some (Clock.set_interval-id c wakeup (num.delay ms) ∙ next);
        old_cleared = ground (arith, b, old, next, pending-set_interval c wakeup (num.delay ms) t);
        new_pending =
            ground (arith, next, pending-set_interval c wakeup (num.delay ms) clock.next_id);
      }

  -- A rate set on a running loop leaves it with one timer: the old one is cleared, and the loop
  -- holds the new one, which is pending, and runs at the new period.
  set_rate-Restarted :
      (l : IntervalLoop F) (rate : F) (t : ℕ)
      → IsFresh l.clock
      → l.timer ≡ some t
      → pending l.clock t ≡ some wakeup
      → Restarted l (set_rate l rate) rate t
  set_rate-Restarted l rate t f e p =
      subst
        (λ x.
          let l' : IntervalLoop F = record {
            clock = l.clock;
            period_ms = l.period_ms;
            timer = x;
          } in
          Restarted l' (set_rate l' rate) rate t)
        (sym e) (restarted l.clock l.period_ms rate t (f.below t wakeup p))
