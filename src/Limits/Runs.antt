-- ===== src/Limits/Runs.antt =====
-- Runs of the limits, and their theorems at concrete inputs.
use bungohan.Base.{ℕ, ◌+◌, ◌*◌, ◌-◌, ◌≤◌, ◌≡◌, refl, List, [], ◌∷◌, arith, length}
use bungohan.Limits.{
  new_bucket, refilled, take, ResolvedLimits, init, frame_problem, Arrival, accepted,
}
use bungohan.Limits.Budget.{InOrder, total_bytes, accepted_budget}

-- Two frames a second and a burst of one; a hundred bytes a second; three joins a minute.
abbrev tight : ResolvedLimits
tight = record {
  messages_per_second = 2;
  message_burst = 1;
  bytes_per_second = 100;
  joins_per_minute = 3;
}

abbrev frame : ℕ → ℕ → Arrival
frame bytes at = record { bytes = bytes; at = at }

abbrev flood : List Arrival
flood = frame 10 0 ∷ frame 10 0 ∷ frame 10 0 ∷ frame 10 0 ∷ frame 200 500 ∷ frame 20 1000 ∷ []

-- The fourth frame is one too many, and the fifth is too long.
flood_run :
    accepted (init tight 0) flood ≡ frame 10 0 ∷ frame 10 0 ∷ frame 10 0 ∷ frame 20 1000 ∷ []
unfolding accepted frame_problem take refilled init new_bucket
flood_run = refl

accepted_budget_example :
    (length (accepted (init tight 0) flood) * 1000 ≤ (2 + 1) * 1000 + (1000 - 0) * 2)
    × (total_bytes (accepted (init tight 0) flood) * 1000 ≤ 100 * 1000 + (1000 - 0) * 100)
unfolding InOrder
accepted_budget_example = accepted_budget tight 0 flood (omega arith) (omega arith) (
  omega arith,
  (omega arith, (omega arith, (omega arith, (omega arith, (omega arith, omega arith))))),
)
