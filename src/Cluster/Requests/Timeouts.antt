-- ===== src/Cluster/Requests/Timeouts.antt =====
-- A request's timer ends it.
use bungohan.Base.{ℕ, String, ◌≡◌, refl, none, some, [], ◌∷◌, ◌++◌, Option-cases, inl, inr}
use bungohan.Base.Dict
use bungohan.Base.Keys.{string_keys}
use bungohan.Clock
use bungohan.Clock.{Clock, pending, fire_cases, IsFresh-clear, pending-clear_ne}
use bungohan.Cluster.Requests.{timeout, Entry, Requests, entry_of, end_with, expire}
use bungohan.Cluster.Requests.Invariant.{
  IsSound, IsKept, IsKept-refl, IsClockFor, clear-IsClockFor, dropped-IsKept,
}

module _ {V : Type 0} where
  fired-IsClockFor :
      (r : Requests V) (timer : ℕ) (rid : String) (c : Clock String)
      → IsSound r
      → Clock.fire r.clock timer ≡ some (rid, c)
      → IsClockFor r rid c
  fired-IsClockFor r timer rid c s f =
      let (p, change) = fire_cases r.clock timer rid c f in
      elim change [
        | inl e ↦ rw e (record { others = λ j e n l. l; fresh = s.fresh })
        | inr e ↦ rw e (clear-IsClockFor r rid timer s p)
      ]

  -- Only the clock has changed, and the request that the timer was for is not there.
  clock-IsKept :
      (r : Requests V) (rid : String) (c : Clock String)
      → IsSound r
      → entry_of r rid ≡ none
      → IsClockFor r rid c
      → IsKept r (record r { clock = c })
  clock-IsKept r rid c s h k = record {
    sound = record {
      live = λ j e p. k.others j e (λ q. cc (h, p, q)) (s.live j e p);
      fresh = k.fresh;
    };
    kept = λ j. refl;
  }

  pub expire-IsKept : (r : Requests V) (timer : ℕ) → IsSound r → IsKept r (expire r timer)
  unfolding expire
  expire-IsKept r timer s = elim (Option-cases (Clock.fire r.clock timer)) [
    | inl f ↦ rw (f, expire) (IsKept-refl r s)
    | inr ((rid, c), f) ↦ elim (Option-cases (entry_of r rid)) [
      | inl h ↦ rw (f, h, expire) (clock-IsKept r rid c s h (fired-IsClockFor r timer rid c s f))
      | inr (e, h) ↦
          rw (f, h, expire) (dropped-IsKept r rid c e _ s h (fired-IsClockFor r timer rid c s f))
    ]
  ]

  -- The timer of an open request, and what is there once it has fired.
  pub expire_open :
      (r : Requests V) (rid : String) (e : Entry V)
      → IsSound r
      → entry_of r rid ≡ some e
      → (pending r.clock e.timer ≡ some rid)
        × ((expire r e.timer).resolved
            ≡ r.resolved ++ ((rid, end_with e.kind e.collected timeout) ∷ []))
        × (entry_of (expire r e.timer) rid ≡ none)
  unfolding expire
  expire_open r rid e s h =
      let timed = (s.live rid e h).timed in
      let (c, f) = Clock.fire-pending r.clock e.timer rid timed in
      (timed, rw (f, h, expire) refl, rw (f, h, expire) (Dict.get-delete_self r.entries rid))
