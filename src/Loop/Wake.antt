-- ===== src/Loop/Wake.antt =====
-- packages/core/src/loop.ts: what a wake of the loop does with the time that has passed.
use bungohan.Base.{
  ℕ, zero, suc, ◌+◌, ◌≤◌, ◌<◌, ◌≡◌, refl, ◌∙◌, ap, Bool, true, false, Option, none, some, List, [],
  ◌∷◌, ◌⊎◌, inl, inr, if◌then◌else◌, arith, either_branch, branch_cases,
}
use bungohan.Clock
use bungohan.Loop.{
  Numbers, SimulationLoop, wakeup, running, Call, stops, starts, sets_tick_rate, start, stop,
  set_tick_rate, call, call_all, is_due, take_step, catch_up, drop_backlog, woken, wake,
}

-- What no call of a step changes.
record Kept {F : Type 0} (l l' : SimulationLoop F) : Type 0 where
  same_limit : l'.max_catch_up_steps ≡ l.max_catch_up_steps
  same_steps : l'.steps ≡ l.steps
  same_dropped : l'.dropped_ms ≡ l.dropped_ms

Kept-refl : {F : Type 0} (l : SimulationLoop F) → Kept l l
Kept-refl l = record { same_limit = refl; same_steps = refl; same_dropped = refl }

Kept-trans : {F : Type 0} (l l' l'' : SimulationLoop F) → Kept l l' → Kept l' l'' → Kept l l''
Kept-trans l l' l'' a b = record {
  same_limit = b.same_limit ∙ a.same_limit;
  same_steps = b.same_steps ∙ a.same_steps;
  same_dropped = b.same_dropped ∙ a.same_dropped;
}

module _ {F : Type 0} (num : Numbers F) where
  stop-Kept : (l : SimulationLoop F) → Kept l (stop num l)
  unfolding stop
  stop-Kept l = by_timer l.timer
    where
      by_timer :
          (o : Option ℕ)
          → Kept l (elim o as (λ _. SimulationLoop F) [
            | none ↦ l
            | some t ↦ record l { clock = Clock.clear l.clock t; timer = none }
          ])
      by_timer none = Kept-refl l
      by_timer (some t) = record { same_limit = refl; same_steps = refl; same_dropped = refl }

  start-Kept : (l : SimulationLoop F) (now : F) → Kept l (start num l now)
  unfolding start
  start-Kept l now = by_timer l.timer
    where
      by_timer :
          (o : Option ℕ)
          → Kept l (elim o as (λ _. SimulationLoop F) [
            | some t ↦ l
            | none ↦
                let (t, clock) = Clock.set_interval l.clock wakeup (num.delay l.step_ms) in
                record l { clock = clock; timer = some t; last = now; accumulator = num.nought }
          ])
      by_timer (some t) = Kept-refl l
      by_timer none = record { same_limit = refl; same_steps = refl; same_dropped = refl }

  call-Kept : (l : SimulationLoop F) (c : Call F) → Kept l (call num l c)
  unfolding call set_tick_rate
  call-Kept l stops = stop-Kept l
  call-Kept l (starts now) = start-Kept l now
  call-Kept l (sets_tick_rate tick_rate now) =
      let s = stop-Kept l in
      let l' : SimulationLoop F = record (stop num l) {
        step_ms = num.over num.thousand tick_rate;
      } in
      let k : Kept l l' = record {
        same_limit = s.same_limit;
        same_steps = s.same_steps;
        same_dropped = s.same_dropped;
      } in
      either_branch (Kept l) (running l) (start num l' now) l'
        (Kept-trans l l' _ k (start-Kept l' now)) k

  call_all-Kept : (l : SimulationLoop F) (calls : List (Call F)) → Kept l (call_all num l calls)
  unfolding call_all
  call_all-Kept l [] = Kept-refl l
  call_all-Kept l (c ∷ calls) =
      Kept-trans l (call num l c) _ (call-Kept l c) (call_all-Kept (call num l c) calls)

  -- Some number of steps, up to the rounds.
  record CaughtUp (l : SimulationLoop F) (x : SimulationLoop F × Bool) (rounds : ℕ) : Type 0 where
    n : ℕ
    in_bound : n ≤ rounds
    counted : x.0.steps ≡ l.steps + n
    same_dropped : x.0.dropped_ms ≡ l.dropped_ms
    returned : x.1 ≡ true → (running x.0 ≡ false) × (0 < n)
    alive : x.1 ≡ false → running l ≡ true → running x.0 ≡ true
    went_on : x.1 ≡ false → n < rounds → is_due num x.0 ≡ false

  -- One round behind the other, or the last one.
  round_taken :
      (l l' : SimulationLoop F) (rounds : ℕ) (x : SimulationLoop F × Bool)
      → l'.steps ≡ suc l.steps
      → l'.dropped_ms ≡ l.dropped_ms
      → CaughtUp l' x rounds
      → CaughtUp l (if running l' then x else (l', true)) (suc rounds)
  round_taken l l' rounds x s d c =
      let i = c.in_bound in
      let j = c.counted in
      branch_cases (λ (x : SimulationLoop F × Bool). CaughtUp l x (suc rounds)) (running l') x
        (l', true)
        (λ on. record {
          n = suc c.n;
          in_bound = omega arith;
          counted = omega arith;
          same_dropped = c.same_dropped ∙ d;
          returned = λ e. ((c.returned e).0, omega arith);
          alive = λ e up. c.alive e on;
          went_on = λ e b. c.went_on e (omega arith);
        })
        (λ off. record {
          n = 1;
          in_bound = omega arith;
          counted = omega arith;
          same_dropped = d;
          returned = λ e. (off, omega arith);
          alive = λ e up. absurd (ground (arith, e));
          went_on = λ e b. absurd (ground (arith, e));
        })

  catch_up-CaughtUp :
      (game : ℕ → F → List (Call F)) (rounds : ℕ) (l : SimulationLoop F)
      → CaughtUp l (catch_up num game rounds l) rounds
  unfolding catch_up take_step
  catch_up-CaughtUp game zero l = record {
    n = 0;
    in_bound = omega arith;
    counted = omega arith;
    same_dropped = refl;
    returned = λ e. absurd (ground (arith, e));
    alive = λ e up. up;
    went_on = λ e b. absurd (omega arith);
  }
  catch_up-CaughtUp game (suc rounds) l =
      let taken : SimulationLoop F = record l {
        accumulator = num.minus l.accumulator l.step_ms;
        steps = suc l.steps;
      } in
      let l' = take_step num game l in
      let k = call_all-Kept taken (game (suc l.steps) l.step_ms) in
      branch_cases (λ (x : SimulationLoop F × Bool). CaughtUp l x (suc rounds)) (is_due num l)
        (if running l' then catch_up num game rounds l' else (l', true)) (l, false)
        (λ due.
          round_taken l l' rounds (catch_up num game rounds l') k.same_steps k.same_dropped
            (catch_up-CaughtUp game rounds l'))
        (λ idle. record {
          n = 0;
          in_bound = omega arith;
          counted = omega arith;
          same_dropped = refl;
          returned = λ e. absurd (ground (arith, e));
          alive = λ e up. up;
          went_on = λ e b. idle;
        })

  all_rounds :
      {l l' : SimulationLoop F} {rounds : ℕ} (c : CaughtUp l (l', false) rounds)
      → is_due num l' ≡ true
      → c.n ≡ rounds
  all_rounds c due = let b = c.in_bound in let w = c.went_on refl in ground (arith, b, w, due)

  -- How a wake leaves the loop.
  pub record Outcome (l l' : SimulationLoop F) : Type 0 where
    n : ℕ
    in_bound : n ≤ l.max_catch_up_steps
    counted : l'.steps ≡ l.steps + n
    ended :
        (running l' ≡ true)
          × (num.at_least (num.plus l'.accumulator num.epsilon) l'.step_ms ≡ false)
          × (l'.dropped_ms ≡ l.dropped_ms)
        ⊎ (running l' ≡ false) × (0 < n) × (l'.dropped_ms ≡ l.dropped_ms)
        ⊎ (running l' ≡ true)
          × (n ≡ l.max_catch_up_steps)
          × ((acc : F) × (num.at_least (num.plus acc num.epsilon) l'.step_ms ≡ true)
              × (l'.dropped_ms ≡ num.plus l.dropped_ms (num.minus acc (num.modulo acc l'.step_ms)))
              × (l'.accumulator ≡ num.minus acc (num.minus acc (num.modulo acc l'.step_ms))))

  woken-Outcome :
      (l : SimulationLoop F) (x : SimulationLoop F × Bool)
      → running l ≡ true
      → CaughtUp l x l.max_catch_up_steps
      → Outcome l (woken num x)
  unfolding drop_backlog
  woken-Outcome l (l', true) on c = record {
    n = c.n;
    in_bound = c.in_bound;
    counted = c.counted;
    ended = inr (inl ((c.returned refl).0, (c.returned refl).1, c.same_dropped));
  }
  woken-Outcome l (l', false) on c =
      let up = c.alive refl on in
      let backlog = num.minus l'.accumulator (num.modulo l'.accumulator l'.step_ms) in
      let dropped : SimulationLoop F = record l' {
        dropped_ms = num.plus l'.dropped_ms backlog;
        accumulator = num.minus l'.accumulator backlog;
      } in
      branch_cases (Outcome l) (is_due num l') dropped l'
        (λ due. record {
          n = c.n;
          in_bound = c.in_bound;
          counted = c.counted;
          ended = inr (
              inr (
                up,
                all_rounds c due,
                (l'.accumulator, due, ap (λ d. num.plus d backlog) c.same_dropped, refl),
              ));
        })
        (λ idle. record {
          n = c.n;
          in_bound = c.in_bound;
          counted = c.counted;
          ended = inl (up, idle, c.same_dropped);
        })

  -- A wake of a running loop takes at most `maxCatchUpSteps` steps and counts them, whatever the
  -- steps call on the loop, a stop, a start or a new tick rate, and whatever the arithmetic rounds
  -- to. It ends in one of three ways. The loop runs, nothing is due at the step's length that it
  -- then has, and nothing more is dropped; or a step has left the loop stopped, and nothing more is
  -- dropped; or the loop runs, all the steps are taken and time is still due, of which it drops
  -- what is over the remainder by a step.
  pub wake_outcome :
      (game : ℕ → F → List (Call F)) (l : SimulationLoop F) (now : F)
      → running l ≡ true
      → Outcome l (wake num game l now)
  unfolding wake
  wake_outcome game l now on =
      let l' : SimulationLoop F = record l {
        accumulator = num.plus l.accumulator (num.minus now l.last);
        last = now;
      } in
      let o = woken-Outcome l' _ on (catch_up-CaughtUp game l.max_catch_up_steps l') in
      record { n = o.n; in_bound = o.in_bound; counted = o.counted; ended = o.ended }
