-- ===== src/Loop/Quiet.antt =====
-- packages/core/src/loop.ts: a wake of a running loop whose steps do not call it.
use bungohan.Base.{
  ℕ, zero, suc, ◌+◌, ◌≤◌, ◌<◌, ◌≡◌, refl, ◌∙◌, ap, ap₂, sym, subst, Bool, true, false, List, [],
  ◌⊎◌, inl, inr, if◌then◌else◌, arith, branch_cases,
}
use bungohan.Loop.{
  Numbers, SimulationLoop, running, Call, call_all, is_due, take_step, catch_up, drop_backlog,
  woken, wake,
}

module _ {F : Type 0} (num : Numbers F) where
  -- What `n` steps of a length leave of some time.
  pub spend : F → ℕ → F → F
  spend step zero time = time
  spend step (suc n) time = spend step n (num.minus time step)

  -- Time of at least a step, up to what the loop forgives.
  pub Holds : F → F → Bool → Type 0
  Holds step time b = num.at_least (num.plus time num.epsilon) step ≡ b

  record Spent (l : SimulationLoop F) (x : SimulationLoop F × Bool) (rounds : ℕ) : Type 0 where
    n : ℕ
    in_bound : n ≤ rounds
    went_on : x.1 ≡ false
    same_step : x.0.step_ms ≡ l.step_ms
    same_timer : x.0.timer ≡ l.timer
    same_last : x.0.last ≡ l.last
    same_dropped : x.0.dropped_ms ≡ l.dropped_ms
    counted : x.0.steps ≡ l.steps + n
    left : x.0.accumulator ≡ spend l.step_ms n l.accumulator
    enough : (i : ℕ) → i < n → Holds l.step_ms (spend l.step_ms i l.accumulator) true
    ended : n < rounds → Holds l.step_ms (spend l.step_ms n l.accumulator) false

  still_due :
      (l l' : SimulationLoop F) {rounds : ℕ} (c : Spent l (l', false) rounds) (b : Bool)
      → is_due num l' ≡ b
      → Holds l.step_ms (spend l.step_ms c.n l.accumulator) b
  unfolding Holds
  still_due l l' c b e =
      ap₂ (λ time step. num.at_least (num.plus time num.epsilon) step) (sym c.left)
        (sym c.same_step)
      ∙ e

  behind :
      {l l' : SimulationLoop F} (c : Spent l (l', false) l.max_catch_up_steps)
      → is_due num l' ≡ true
      → c.n ≡ l.max_catch_up_steps
  unfolding Holds
  behind c due =
      let b = c.in_bound in
      let idle = c.ended in let held = still_due _ _ c true due in ground (arith, b, idle, held)

  one_more :
      (l : SimulationLoop F) (rounds : ℕ)
      → is_due num l ≡ true
      → running l ≡ true
      → let l' : SimulationLoop F = record l {
        accumulator = num.minus l.accumulator l.step_ms;
        steps = suc l.steps;
      } in
        (x : SimulationLoop F × Bool)
        → Spent l' x rounds
        → Spent l (if running l' then x else (l', true)) (suc rounds)
  unfolding spend Holds
  one_more l rounds due on x c =
      let l' : SimulationLoop F = record l {
        accumulator = num.minus l.accumulator l.step_ms;
        steps = suc l.steps;
      } in
      let i = c.in_bound in
      let j = c.counted in
      subst (λ b. Spent l (if b then x else (l', true)) (suc rounds)) (sym on)
        (record {
          n = suc c.n;
          in_bound = omega arith;
          went_on = c.went_on;
          same_step = c.same_step;
          same_timer = c.same_timer;
          same_last = c.same_last;
          same_dropped = c.same_dropped;
          counted = omega arith;
          left = c.left;
          enough = from_first;
          ended = λ b. c.ended (omega arith);
        })
    where
      from_first : (i : ℕ) → i < suc c.n → Holds l.step_ms (spend l.step_ms i l.accumulator) true
      from_first zero b = due
      from_first (suc i) b = c.enough i (omega arith)

  catch_up-Spent :
      (game : ℕ → F → List (Call F)) (rounds : ℕ) (l : SimulationLoop F)
      → ((k : ℕ) (time : F) → game k time ≡ [])
      → running l ≡ true
      → Spent l (catch_up num game rounds l) rounds
  unfolding catch_up take_step call_all spend Holds
  catch_up-Spent game zero l quiet on = record {
    n = 0;
    in_bound = omega arith;
    went_on = refl;
    same_step = refl;
    same_timer = refl;
    same_last = refl;
    same_dropped = refl;
    counted = omega arith;
    left = refl;
    enough = λ i b. absurd (omega arith);
    ended = λ b. absurd (omega arith);
  }
  catch_up-Spent game (suc rounds) l quiet on =
      let l' : SimulationLoop F = record l {
        accumulator = num.minus l.accumulator l.step_ms;
        steps = suc l.steps;
      } in
      let taken : take_step num game l ≡ l' =
        ap (call_all num l') (quiet (suc l.steps) l.step_ms) in
      let c = catch_up-Spent game rounds l' quiet on in
      subst
        (λ (t : SimulationLoop F).
          Spent l
            (if is_due num l
              then (if running t then catch_up num game rounds t else (t, true))
              else (l, false))
            (suc rounds))
        (sym taken)
        (branch_cases (λ (x : SimulationLoop F × Bool). Spent l x (suc rounds)) (is_due num l)
          (if running l' then catch_up num game rounds l' else (l', true)) (l, false)
          (λ due. one_more l rounds due on (catch_up num game rounds l') c)
          (λ idle. record {
            n = 0;
            in_bound = omega arith;
            went_on = refl;
            same_step = refl;
            same_timer = refl;
            same_last = refl;
            same_dropped = refl;
            counted = omega arith;
            left = refl;
            enough = λ i b. absurd (omega arith);
            ended = λ b. idle;
          }))

  -- How a wake leaves the loop, with the time that the steps found.
  pub record Spending (l l' : SimulationLoop F) (time now : F) : Type 0 where
    pub n : ℕ
    pub in_bound : n ≤ l.max_catch_up_steps
    pub counted : l'.steps ≡ l.steps + n
    pub same_timer : l'.timer ≡ l.timer
    pub same_step : l'.step_ms ≡ l.step_ms
    pub measured : l'.last ≡ now
    pub enough : (i : ℕ) → i < n → Holds l.step_ms (spend l.step_ms i time) true
    pub ended :
        Holds l.step_ms (spend l.step_ms n time) false
          × (l'.accumulator ≡ spend l.step_ms n time)
          × (l'.dropped_ms ≡ l.dropped_ms)
        ⊎ (n ≡ l.max_catch_up_steps)
          × (let left = spend l.step_ms n time in
              let backlog = num.minus left (num.modulo left l.step_ms) in
              Holds l.step_ms left true
              × (l'.accumulator ≡ num.minus left backlog)
              × (l'.dropped_ms ≡ num.plus l.dropped_ms backlog))

  woken-Spending :
      (l : SimulationLoop F) (x : SimulationLoop F × Bool)
      → Spent l x l.max_catch_up_steps
      → Spending l (woken num x) l.accumulator l.last
  unfolding drop_backlog Holds
  woken-Spending l (l', true) c = absurd (ground (arith, c.went_on))
  woken-Spending l (l', false) c =
      let backlog = num.minus l'.accumulator (num.modulo l'.accumulator l'.step_ms) in
      let over = ap₂ (λ time step. num.minus time (num.modulo time step)) c.left c.same_step in
      let dropped : SimulationLoop F = record l' {
        dropped_ms = num.plus l'.dropped_ms backlog;
        accumulator = num.minus l'.accumulator backlog;
      } in
      branch_cases (λ (r : SimulationLoop F). Spending l r l.accumulator l.last) (is_due num l')
        dropped l'
        (λ due. record {
          n = c.n;
          in_bound = c.in_bound;
          counted = c.counted;
          same_timer = c.same_timer;
          same_step = c.same_step;
          measured = c.same_last;
          enough = c.enough;
          ended = inr (
            behind c due,
            (
              still_due l l' c true due,
              ap₂ num.minus c.left over,
              ap₂ num.plus c.same_dropped over,
            ),
          );
        })
        (λ idle. record {
          n = c.n;
          in_bound = c.in_bound;
          counted = c.counted;
          same_timer = c.same_timer;
          same_step = c.same_step;
          measured = c.same_last;
          enough = c.enough;
          ended = inl (still_due l l' c false idle, c.left, c.same_dropped);
        })

  -- Steps that make no call on a running loop spend what it had accumulated and the time since its
  -- last wake, one step's length each, as long as a step, less what the loop forgives, is left.
  -- Either less is left, which the loop keeps, and it drops nothing; or `maxCatchUpSteps` steps are
  -- taken, and the loop drops what is left over its remainder by a step. It keeps its timer and its
  -- step, and measures the next wake from this one.
  pub wake_spends :
      (game : ℕ → F → List (Call F)) (l : SimulationLoop F) (now : F)
      → ((k : ℕ) (time : F) → game k time ≡ [])
      → running l ≡ true
      → Spending l (wake num game l now) (num.plus l.accumulator (num.minus now l.last)) now
  unfolding wake
  wake_spends game l now quiet on =
      let l' : SimulationLoop F = record l {
        accumulator = num.plus l.accumulator (num.minus now l.last);
        last = now;
      } in
      let o = woken-Spending l' _ (catch_up-Spent game l.max_catch_up_steps l' quiet on) in
      record {
        n = o.n;
        in_bound = o.in_bound;
        counted = o.counted;
        same_timer = o.same_timer;
        same_step = o.same_step;
        measured = o.measured;
        enough = o.enough;
        ended = o.ended;
      }
