-- ===== src/Clock.antt =====
-- packages/types/src/clock.ts: `SystemClock`. A timer is an entry of `_timers`; the platform
-- decides when it fires, and what it calls then is a value `C` of the component that set it. The
-- reading of `now()` and the delays are numbers of the clock's smallest unit.
use bungohan.Base.{
  ℕ, suc, ◌<◌, ◌≡◌, refl, Bool, true, false, Option, none, some, [], arith, ◌==◌, ◌≢◌, ◌⊎◌, inl,
  inr, Option-cases, if◌then◌else◌,
}
use bungohan.Base.Dict
use bungohan.Base.Dict.{Dict, dict_laws}
use bungohan.Base.Keys.{number_keys}

-- The callback, the delay, and whether it was set by `setInterval`.
pub record Timer {ℓ} (C : Type ℓ) : Type ℓ where
  pub callback : C
  pub ms : ℕ
  pub repeats : Bool

pub record Clock {ℓ} (C : Type ℓ) : Type ℓ where
  pub next_id : ℕ
  pub timers : Dict ℕ (Timer C)

module _ {ℓ} {C : Type ℓ} where
  unfoldable pub init : Clock C
  init = record { next_id = 1; timers = [] }

  schedule : Clock C → Timer C → ℕ × Clock C
  schedule c t =
      (c.next_id, record { next_id = suc c.next_id; timers = Dict.set c.timers c.next_id t })

  -- setTimeout
  unfoldable pub set_timeout : Clock C → C → ℕ → ℕ × Clock C
  unfolding schedule
  set_timeout c callback ms = schedule c (record { callback = callback; ms = ms; repeats = false })

  -- setInterval
  unfoldable pub set_interval : Clock C → C → ℕ → ℕ × Clock C
  unfolding schedule
  set_interval c callback ms = schedule c (record { callback = callback; ms = ms; repeats = true })

  -- clearTimeout and clearInterval
  unfoldable pub clear : Clock C → ℕ → Clock C
  clear c id = record c { timers = Dict.delete c.timers id }

  -- The platform fires a timer: a timeout is forgotten before its callback runs.
  unfoldable pub fire : Clock C → ℕ → Option (C × Clock C)
  unfolding clear
  fire c id = elim (Dict.get c.timers id) [
    | none ↦ none
    | some t ↦ some (t.callback, if t.repeats then c else clear c id)
  ]

  -- The callback that is pending under an id.
  pub pending : Clock C → ℕ → Option C
  pending c id = elim (Dict.get c.timers id) [ none ↦ none | some t ↦ some t.callback ]

  -- The ids that were handed out lie below the next one.
  pub record IsFresh (c : Clock C) : Type ℓ where
    pub below : (id : ℕ) (callback : C) → pending c id ≡ some callback → id < c.next_id

  pub pending-set_timeout :
      (c : Clock C) (callback : C) (ms j : ℕ)
      → pending (set_timeout c callback ms).1 j
        ≡ (if c.next_id == j then some callback else pending c j)
  unfolding set_timeout pending
  pending-set_timeout c callback ms j =
      rw
        (
          Dict.get-set c.timers c.next_id (record { callback = callback; ms = ms; repeats = false })
              j,
          pending,
        )
        (ground arith)

  pub pending-set_interval :
      (c : Clock C) (callback : C) (ms j : ℕ)
      → pending (set_interval c callback ms).1 j
        ≡ (if c.next_id == j then some callback else pending c j)
  unfolding set_interval pending
  pending-set_interval c callback ms j =
      rw
        (
          Dict.get-set c.timers c.next_id (record { callback = callback; ms = ms; repeats = true })
              j,
          pending,
        )
        (ground arith)

  pub pending-clear :
      (c : Clock C) (id j : ℕ) → pending (clear c id) j ≡ (if id == j then none else pending c j)
  unfolding clear pending
  pending-clear c id j = rw (Dict.get-delete c.timers id j, pending) (ground arith)

  pub set_timeout-id :
      (c : Clock C) (callback : C) (ms : ℕ) → (set_timeout c callback ms).0 ≡ c.next_id
  unfolding set_timeout
  set_timeout-id c callback ms = refl

  pub set_interval-id :
      (c : Clock C) (callback : C) (ms : ℕ) → (set_interval c callback ms).0 ≡ c.next_id
  unfolding set_interval
  set_interval-id c callback ms = refl

  -- A new timer leaves the pending ones alone.
  pub pending-set_timeout_old :
      (c : Clock C) (callback : C) (ms j : ℕ) (other : C)
      → IsFresh c
      → pending c j ≡ some other
      → pending (set_timeout c callback ms).1 j ≡ some other
  pending-set_timeout_old c callback ms j other f p =
      ground (arith, pending-set_timeout c callback ms j, f.below j other p)

  pub pending-set_timeout_new :
      (c : Clock C) (callback : C) (ms : ℕ)
      → pending (set_timeout c callback ms).1 c.next_id ≡ some callback
  pending-set_timeout_new c callback ms =
      ground (arith, pending-set_timeout c callback ms c.next_id)

  next_id-set_timeout :
      (c : Clock C) (callback : C) (ms : ℕ) → (set_timeout c callback ms).1.next_id ≡ suc c.next_id
  unfolding set_timeout
  next_id-set_timeout c callback ms = refl

  pub next_id-clear : (c : Clock C) (id : ℕ) → (clear c id).next_id ≡ c.next_id
  unfolding clear
  next_id-clear c id = refl

  pub IsFresh-set_timeout :
      (c : Clock C) (callback : C) (ms : ℕ) → IsFresh c → IsFresh (set_timeout c callback ms).1
  IsFresh-set_timeout c callback ms f = record {
    below = λ j other p. ground (
      arith,
      next_id-set_timeout c callback ms,
      pending-set_timeout c callback ms j,
      f.below j other,
    );
  }

  next_id-set_interval :
      (c : Clock C) (callback : C) (ms : ℕ) → (set_interval c callback ms).1.next_id ≡ suc c.next_id
  unfolding set_interval
  next_id-set_interval c callback ms = refl

  pub IsFresh-set_interval :
      (c : Clock C) (callback : C) (ms : ℕ) → IsFresh c → IsFresh (set_interval c callback ms).1
  IsFresh-set_interval c callback ms f = record {
    below = λ j other p. ground (
      arith,
      next_id-set_interval c callback ms,
      pending-set_interval c callback ms j,
      f.below j other,
    );
  }

  pub IsFresh-clear : (c : Clock C) (id : ℕ) → IsFresh c → IsFresh (clear c id)
  IsFresh-clear c id f = record {
    below = λ j other p. ground (arith, next_id-clear c id, pending-clear c id j, f.below j other);
  }

  -- A timer that is pending survives what is cleared under another id.
  pub pending-clear_ne :
      (c : Clock C) (id j : ℕ) (other : C)
      → id ≢ j
      → pending c j ≡ some other
      → pending (clear c id) j ≡ some other
  pending-clear_ne c id j other n p = ground (arith, pending-clear c id j)

  -- What fires was pending, and the clock forgets at most that timer.
  pub fire_cases :
      (c : Clock C) (id : ℕ) (callback : C) (c' : Clock C)
      → fire c id ≡ some (callback, c')
      → (pending c id ≡ some callback) × ((c' ≡ c) ⊎ (c' ≡ clear c id))
  unfolding fire pending
  fire_cases c id callback c' h = elim (Option-cases (Dict.get c.timers id)) [
    | inl e ↦ cc (rw (e, fire) at h)
    | inr (t, e) ↦ ground (arith, e, h)
  ]

  pub IsFresh-init : IsFresh init
  unfolding init pending
  IsFresh-init = record { below = λ id callback p. cc (p, Dict.get-empty {V = Timer C} id) }

  -- A pending timer can fire.
  pub fire-pending :
      (c : Clock C) (id : ℕ) (callback : C)
      → pending c id ≡ some callback
      → (c' : Clock C) × (fire c id ≡ some (callback, c'))
  unfolding fire pending
  fire-pending c id callback p = elim (Option-cases (Dict.get c.timers id)) [
    | inl e ↦ cc (rw (e, pending) at p)
    | inr (t, e) ↦ (if t.repeats then c else clear c id, rw (e, fire) (ground (arith, e, p)))
  ]
