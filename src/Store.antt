-- ===== src/Store.antt =====
-- packages/store/src/memory.ts: `MemoryStore`, and packages/store/src/json.ts. A value is a `V` and
-- its text a `J`; `JSON.stringify` and `JSON.parse` are the arguments `stringify` and `parse`. The
-- reading of the clock is an argument of the methods that take it.
pub mod Contract
pub mod Refinement
pub mod Deadline
mod Runs
use bungohan.Base.{
  ℕ, zero, suc, ◌+◌, ◌*◌, String, Bool, true, false, Option, none, some, List, [], ◌∷◌, leb,
  if◌then◌else◌,
}
use bungohan.Base.Dict
use bungohan.Base.Dict.{Dict}
use bungohan.Base.Int.{pos, negsuc}
use bungohan.Base.Keys.{string_keys}
use bungohan.Base.Number.{Number, int, other}

-- The codes of a `StoreError` (errors.ts).
pub data Error : Type 0 where
  connection_failed invalid_options operation_failed serialization_failed : Error

pub data Result {ℓ} (A : Type ℓ) : Type ℓ where
  ok : A → Result A
  err : Error → Result A

-- What `JSON.stringify` does: it answers a text or undefined, or it throws.
pub data Stringified (J : Type 0) : Type 0 where
  text : J → Stringified J
  undefined throws : Stringified J

-- toJson
abbrev pub to_json : {V J : Type 0} → (V → Stringified J) → V → Result J
to_json stringify value = elim (stringify value) [
  | text json ↦ ok json
  | undefined ↦ err serialization_failed
  | throws ↦ err serialization_failed
]

-- fromJson; `parse` is `none` where `JSON.parse` throws.
abbrev pub from_json : {V J : Type 0} → (J → Option V) → J → Result V
from_json parse json = elim (parse json) [ none ↦ err serialization_failed | some v ↦ ok v ]

-- `Number.isInteger(ttl) && ttl > 0`, with the number that was tested.
abbrev pub positive : Number → Option ℕ
positive (int (pos zero)) = none
positive (int (pos (suc n))) = some (suc n)
positive (int (negsuc n)) = none
positive other = none

-- checkTtl, with the ttl that passed.
abbrev pub check_ttl : Option Number → Result (Option ℕ)
check_ttl none = ok none
check_ttl (some ttl) = elim (positive ttl) [ none ↦ err invalid_options | some s ↦ ok (some s) ]

pub record Entry (J : Type 0) : Type 0 where
  pub json : J
  pub expires_at : Option ℕ

pub record MemoryStore (J : Type 0) : Type 0 where
  pub entries : Dict String (Entry J)
  pub closed : Bool

-- `entry.expiresAt !== undefined && entry.expiresAt <= now()`
abbrev pub is_expired : {J : Type 0} → ℕ → Entry J → Bool
is_expired now entry = elim entry.expires_at [ none ↦ false | some at ↦ leb at now ]

-- `ttl === undefined ? undefined : now() + ttl * 1000`
abbrev pub expiry : ℕ → Option ℕ → Option ℕ
expiry now none = none
expiry now (some seconds) = some (now + seconds * 1000)

-- The promise that a method returns.
pub data Reply (V : Type 0) : Type 0 where
  done : Reply V
  value : Option V → Reply V
  present : Bool → Reply V
  failed : Error → Reply V

-- The end of `get`.
abbrev pub read_entry : {V J : Type 0} → (J → Option V) → Option (Entry J) → Reply V
read_entry parse none = value none
read_entry parse (some entry) = elim (from_json parse entry.json) [
  | ok v ↦ value (some v)
  | err e ↦ failed e
]

-- `entry !== undefined`
abbrev pub is_some {ℓ} : {A : Type ℓ} → Option A → Bool
is_some none = false
is_some (some a) = true

module _ {J : Type 0} where
  pub init : MemoryStore J
  init = record { entries = []; closed = false }

  -- _live
  pub live : MemoryStore J → ℕ → String → MemoryStore J × Option (Entry J)
  live s now key = elim (Dict.get s.entries key) [
    | none ↦ (s, none)
    | some entry ↦
        if is_expired now entry
        then (record s { entries = Dict.delete s.entries key }, none)
        else (s, some entry)
  ]

module _ {V J : Type 0} (stringify : V → Stringified J) (parse : J → Option V) where
  -- set
  pub set : MemoryStore J → ℕ → String → V → Option Number → MemoryStore J × Reply V
  set s now key v ttl = if s.closed then (s, failed connection_failed) else elim (check_ttl ttl) [
    | err e ↦ (s, failed e)
    | ok seconds ↦ elim (to_json stringify v) [
      | err e ↦ (s, failed e)
      | ok json ↦
          let entry : Entry J = record { json = json; expires_at = expiry now seconds } in
          (record s { entries = Dict.set s.entries key entry }, done)
    ]
  ]

  -- get
  pub get : MemoryStore J → ℕ → String → MemoryStore J × Reply V
  get s now key =
      if s.closed
      then (s, failed connection_failed)
      else let (s', entry) = live s now key in (s', read_entry parse entry)

  -- delete
  pub delete : MemoryStore J → String → MemoryStore J × Reply V
  delete s key =
      if s.closed
      then (s, failed connection_failed)
      else (record s { entries = Dict.delete s.entries key }, done)

  -- exists
  pub exists : MemoryStore J → ℕ → String → MemoryStore J × Reply V
  exists s now key =
      if s.closed
      then (s, failed connection_failed)
      else let (s', entry) = live s now key in (s', present (is_some entry))

  -- close
  pub close : MemoryStore J → MemoryStore J × Reply V
  close s = (record { entries = []; closed = true }, done)

-- A call of a method, with the reading of the clock.
pub data Call (V : Type 0) : Type 0 where
  sets : ℕ → String → V → Option Number → Call V
  gets exist : ℕ → String → Call V
  deletes : ℕ → String → Call V
  closes : ℕ → Call V

module _ {V J : Type 0} (stringify : V → Stringified J) (parse : J → Option V) where
  pub step : MemoryStore J → Call V → MemoryStore J × Reply V
  step s (sets now key v ttl) = set stringify parse s now key v ttl
  step s (gets now key) = get stringify parse s now key
  step s (exist now key) = exists stringify parse s now key
  step s (deletes now key) = delete stringify parse s key
  step s (closes now) = close stringify parse s

  -- The answers of a sequence of calls.
  pub answers : MemoryStore J → List (Call V) → List (Reply V)
  answers s [] = []
  answers s (c ∷ cs) = let (s', reply) = step s c in reply ∷ answers s' cs
