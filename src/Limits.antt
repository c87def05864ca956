-- ===== src/Limits.antt =====
-- packages/core/src/limits.ts: token buckets and the limits of a connection. Tokens are counted in
-- whole fractions of a token, `unit` to one, so that the refill of a millisecond is the whole number
-- `rate` of them: thousandths for a rate per second, and sixty-thousandths for the joins of a minute.
-- Sums are exact where the source's doubles may round; the clock reads whole milliseconds.
pub mod Budget
mod Runs
use bungohan.Base.{
  ℕ, ◌+◌, ◌*◌, ◌-◌, Bool, true, false, Option, none, some, List, [], ◌∷◌, leb, ltb, if◌then◌else◌,
}

pub record Bucket : Type 0 where
  pub unit : ℕ
  pub rate : ℕ
  pub capacity : ℕ
  pub tokens : ℕ
  pub last : ℕ

-- `new Bucket(rate, capacity, now)`
pub new_bucket : ℕ → ℕ → ℕ → ℕ → Bucket
new_bucket unit rate capacity now = record {
  unit = unit;
  rate = rate;
  capacity = capacity * unit;
  tokens = capacity * unit;
  last = now;
}

abbrev pub min : ℕ → ℕ → ℕ
min a b = if leb a b then a else b

-- `Math.min(capacity, tokens + elapsed * rate)`; `now - last` is 0 where the clock went back.
pub refilled : Bucket → ℕ → ℕ
refilled b now = min b.capacity (b.tokens + (now - b.last) * b.rate)

-- take
pub take : Bucket → ℕ → ℕ → Bucket × Bool
take b cost now =
    if leb b.rate 0
    then (b, true)
    else if ltb (refilled b now) (cost * b.unit)
    then (record b { tokens = refilled b now; last = now }, false)
    else (record b { tokens = refilled b now - cost * b.unit; last = now }, true)

pub record ResolvedLimits : Type 0 where
  pub messages_per_second : ℕ
  pub message_burst : ℕ
  pub bytes_per_second : ℕ
  pub joins_per_minute : ℕ

pub record ConnectionLimiter : Type 0 where
  pub frames : Bucket
  pub volume : Bucket
  pub joins : Bucket

-- constructor
pub init : ResolvedLimits → ℕ → ConnectionLimiter
init l now = record {
  frames = new_bucket 1000 l.messages_per_second (l.messages_per_second + l.message_burst) now;
  volume = new_bucket 1000 l.bytes_per_second l.bytes_per_second now;
  joins = new_bucket 60_000 l.joins_per_minute l.joins_per_minute now;
}

pub data Problem : Type 0 where
  too_many_frames too_many_bytes : Problem

-- The returns of `frameProblem`.
abbrev pub problem_of : Bool → Bool → Option Problem
problem_of frames volume =
    if frames then (if volume then none else some too_many_bytes) else some too_many_frames

-- frameProblem: both buckets are charged.
pub frame_problem : ConnectionLimiter → ℕ → ℕ → ConnectionLimiter × Option Problem
frame_problem l bytes now =
    let (frames, in_frames) = take l.frames 1 now in
    let (volume, in_volume) = take l.volume bytes now in
    (record l { frames = frames; volume = volume }, problem_of in_frames in_volume)

-- allowJoin
pub allow_join : ConnectionLimiter → ℕ → ConnectionLimiter × Bool
allow_join l now =
    let (joins, allowed) = take l.joins 1 now in (record l { joins = joins }, allowed)

-- A frame of so many bytes at a reading of the clock, for each frame of a connection.
pub record Arrival : Type 0 where
  pub bytes : ℕ
  pub at : ℕ

-- The frames that a connection gets through.
pub accepted : ConnectionLimiter → List Arrival → List Arrival
accepted l [] = []
accepted l (a ∷ arrivals) =
    let (l', problem) = frame_problem l a.bytes a.at in
    let rest = accepted l' arrivals in elim problem [ none ↦ a ∷ rest | some p ↦ rest ]
