-- ===== src/Limits/Budget.antt =====
-- How much a bucket, and how much a connection, gets through.
use bungohan.Base.{
  ℕ, ◌+◌, ◌*◌, ◌-◌, ◌≤◌, ◌<◌, ◌≡◌, sym, ap, ◌∙◌, Bool, true, false, none, some, List, [], ◌∷◌,
  arith, length,
}
use native.Mathlib.Nat.{add-mul, mul-le-mul_right}
use bungohan.Limits.{
  Bucket, new_bucket, refilled, take, ResolvedLimits, ConnectionLimiter, init, problem_of,
  frame_problem, Arrival, accepted,
}

-- The clock does not go back.
unfoldable pub InOrder : ℕ → List Arrival → Type 0
InOrder now [] = now ≤ now
InOrder now (a ∷ arrivals) = (now ≤ a.at) × InOrder a.at arrivals

abbrev pub end_of : ℕ → List Arrival → ℕ
end_of now [] = now
end_of now (a ∷ arrivals) = end_of a.at arrivals

abbrev pub total_bytes : List Arrival → ℕ
total_bytes [] = 0
total_bytes (a ∷ arrivals) = a.bytes + total_bytes arrivals

-- What a request of `cost` tokens has spent.
abbrev spent : Bool → ℕ → ℕ
spent true cost = cost
spent false cost = 0

gap_mul : (last now r : ℕ) → last ≤ now → (now - last) * r + last * r ≡ now * r
gap_mul last now r h = sym (add-mul (now - last) last r) ∙ ap (λ x. x * r) (omega arith)

end_later : (now : ℕ) (arrivals : List Arrival) → InOrder now arrivals → now ≤ end_of now arrivals
unfolding InOrder
end_later now [] o = o
end_later now (a ∷ arrivals) (n, o) = let e = end_later a.at arrivals o in omega arith

-- What is spent and what is left is at most what was there and what time has brought.
take_budget :
    (b : Bucket) (cost now : ℕ)
    → 0 < b.rate
    → b.last ≤ now
    → spent (take b cost now).1 cost * b.unit + (take b cost now).0.tokens + b.last * b.rate
      ≤ b.tokens + now * b.rate
unfolding take refilled
take_budget b cost now r h = ground (arith, gap_mul b.last now b.rate h)

take_last : (b : Bucket) (cost now : ℕ) → 0 < b.rate → (take b cost now).0.last ≡ now
unfolding take
take_last b cost now r = ground arith

take_unit : (b : Bucket) (cost now : ℕ) → (take b cost now).0.unit ≡ b.unit
unfolding take
take_unit b cost now = ground arith

take_rate : (b : Bucket) (cost now : ℕ) → (take b cost now).0.rate ≡ b.rate
unfolding take
take_rate b cost now = ground arith

-- One request ahead of others, which run on what it leaves.
step_budget :
    (b : Bucket) (cost now rest end : ℕ)
    → 0 < b.rate
    → b.last ≤ now
    → rest * (take b cost now).0.unit + (take b cost now).0.last * (take b cost now).0.rate
      ≤ (take b cost now).0.tokens + end * (take b cost now).0.rate
    → (spent (take b cost now).1 cost + rest) * b.unit + b.last * b.rate ≤ b.tokens + end * b.rate
step_budget b cost now rest end r h l = rw (add-mul (spent (take b cost now).1 cost) rest b.unit) (
    let t = take_budget b cost now r h in
    let l' = rw (take_unit b cost now, take_last b cost now r, take_rate b cost now) at l in
    omega arith)

-- The list behind one frame.
frames_kept :
    (f v : Bool) (a : Arrival) (rest : List Arrival)
    → length (elim (problem_of f v) [ none ↦ a ∷ rest | some p ↦ rest ]) ≤ spent f 1 + length rest
frames_kept true true a rest = omega arith
frames_kept true false a rest = omega arith
frames_kept false v a rest = omega arith

bytes_kept :
    (f v : Bool) (a : Arrival) (rest : List Arrival)
    → total_bytes (elim (problem_of f v) [ none ↦ a ∷ rest | some p ↦ rest ])
      ≤ spent v a.bytes + total_bytes rest
bytes_kept true true a rest = omega arith
bytes_kept true false a rest = omega arith
bytes_kept false true a rest = omega arith
bytes_kept false false a rest = omega arith

frames_budget :
    (l : ConnectionLimiter) (now : ℕ) (arrivals : List Arrival)
    → 0 < l.frames.rate
    → l.frames.last ≤ now
    → InOrder now arrivals
    → length (accepted l arrivals) * l.frames.unit + l.frames.last * l.frames.rate
      ≤ l.frames.tokens + end_of now arrivals * l.frames.rate
unfolding accepted InOrder frame_problem
frames_budget l now [] r h o = let m = mul-le-mul_right l.frames.rate h in omega arith
frames_budget l now (a ∷ arrivals) r h (n, o) =
    let l' = (frame_problem l a.bytes a.at).0 in
    let rest = accepted l' arrivals in
    let t = step_budget l.frames 1 a.at (length rest) (end_of a.at arrivals) r (omega arith) (
      frames_budget l' a.at arrivals (rw (take_rate l.frames 1 a.at) r)
        (rw (take_last l.frames 1 a.at r) (omega arith)) o) in
    let m =
      mul-le-mul_right l.frames.unit
        (frames_kept (take l.frames 1 a.at).1 (take l.volume a.bytes a.at).1 a rest) in
    omega arith

bytes_budget :
    (l : ConnectionLimiter) (now : ℕ) (arrivals : List Arrival)
    → 0 < l.volume.rate
    → l.volume.last ≤ now
    → InOrder now arrivals
    → total_bytes (accepted l arrivals) * l.volume.unit + l.volume.last * l.volume.rate
      ≤ l.volume.tokens + end_of now arrivals * l.volume.rate
unfolding accepted InOrder frame_problem
bytes_budget l now [] r h o = let m = mul-le-mul_right l.volume.rate h in omega arith
bytes_budget l now (a ∷ arrivals) r h (n, o) =
    let l' = (frame_problem l a.bytes a.at).0 in
    let rest = accepted l' arrivals in
    let t =
      step_budget l.volume a.bytes a.at (total_bytes rest) (end_of a.at arrivals) r (omega arith) (
        bytes_budget l' a.at arrivals (rw (take_rate l.volume a.bytes a.at) r)
          (rw (take_last l.volume a.bytes a.at r) (omega arith)) o) in
    let m =
      mul-le-mul_right l.volume.unit
        (bytes_kept (take l.frames 1 a.at).1 (take l.volume a.bytes a.at).1 a rest) in
    omega arith

-- A connection with limits above 0, while the clock does not go back, gets through at most
-- `messagesPerSecond + messageBurst` frames and `bytesPerSecond` bytes, and for each millisecond
-- since it was opened a thousandth of `messagesPerSecond` frames and of `bytesPerSecond` bytes more.
pub accepted_budget :
    (limits : ResolvedLimits) (start : ℕ) (arrivals : List Arrival)
    → 0 < limits.messages_per_second
    → 0 < limits.bytes_per_second
    → InOrder start arrivals
    → (length (accepted (init limits start) arrivals) * 1000
        ≤ (limits.messages_per_second + limits.message_burst) * 1000
          + (end_of start arrivals - start) * limits.messages_per_second)
      × (total_bytes (accepted (init limits start) arrivals) * 1000
          ≤ limits.bytes_per_second * 1000
            + (end_of start arrivals - start) * limits.bytes_per_second)
unfolding init new_bucket
accepted_budget limits start arrivals m b o =
    let l = init limits start in
    let e = end_later start arrivals o in
    let f = frames_budget l start arrivals m (omega arith) o in
    let v = bytes_budget l start arrivals b (omega arith) o in
    let g = gap_mul start (end_of start arrivals) limits.messages_per_second e in
    let w = gap_mul start (end_of start arrivals) limits.bytes_per_second e in
    (omega arith, omega arith)
