-- ===== src/Store/Contract.antt =====
-- What a store promises: a map with deadlines. A value is there until its deadline, and then it
-- is not; nothing is evicted, an expired value is only out of sight.
use bungohan.Base.{
  ℕ, ◌≤◌, String, Bool, true, false, Option, none, some, List, [], ◌∷◌, if◌then◌else◌,
}
use bungohan.Base.Keys.{◌=?◌, string_keys}
use bungohan.Store.{
  connection_failed, ok, err, Stringified, to_json, check_ttl, Entry, is_expired, expiry, Reply,
  done, present, failed, read_entry, is_some, Call, sets, gets, exist, deletes, closes,
}

-- The contract: what was stored last under each key, with its deadline.
pub record Shelf (J : Type 0) : Type 0 where
  pub content : String → Option (Entry J)
  pub closed : Bool

abbrev pub alive : {J : Type 0} → ℕ → Option (Entry J) → Option (Entry J)
alive now none = none
alive now (some entry) = if is_expired now entry then none else some entry

abbrev pub write : {J : Type 0} → Shelf J → String → Option (Entry J) → Shelf J
write a key o = record a { content = λ j. if key =? j then o else a.content j }

unfoldable pub blank : {J : Type 0} → Shelf J
blank = record { content = λ j. none; closed = false }

module _ {V J : Type 0} (stringify : V → Stringified J) (parse : J → Option V) where
  -- A call on an open shelf; only `set`, `delete` and `close` change it.
  unfoldable pub shelve : Shelf J → Call V → Shelf J × Reply V
  shelve a (sets now key v ttl) = elim (check_ttl ttl) [
    | err e ↦ (a, failed e)
    | ok seconds ↦ elim (to_json stringify v) [
      | err e ↦ (a, failed e)
      | ok json ↦
          (write a key (some (record { json = json; expires_at = expiry now seconds })), done)
    ]
  ]
  shelve a (gets now key) = (a, read_entry parse (alive now (a.content key)))
  shelve a (exist now key) = (a, present (is_some (alive now (a.content key))))
  shelve a (deletes now key) = (write a key none, done)
  shelve a (closes now) = (record { content = λ j. none; closed = true }, done)

  -- A closed store refuses all but another `close`.
  unfoldable pub refuse : Shelf J → Call V → Shelf J × Reply V
  refuse a (sets now key v ttl) = (a, failed connection_failed)
  refuse a (gets now key) = (a, failed connection_failed)
  refuse a (exist now key) = (a, failed connection_failed)
  refuse a (deletes now key) = (a, failed connection_failed)
  refuse a (closes now) = (record { content = λ j. none; closed = true }, done)

  unfoldable pub promise : Shelf J → Call V → Shelf J × Reply V
  promise a c = if a.closed then refuse a c else shelve a c

  unfoldable pub promised : Shelf J → List (Call V) → List (Reply V)
  promised a [] = []
  promised a (c ∷ cs) = let (a', reply) = promise a c in reply ∷ promised a' cs

abbrev pub time_of : {V : Type 0} → Call V → ℕ
time_of (sets now key v ttl) = now
time_of (gets now key) = now
time_of (exist now key) = now
time_of (deletes now key) = now
time_of (closes now) = now

-- The clock does not go back.
unfoldable pub InOrder : {V : Type 0} → ℕ → List (Call V) → Type 0
InOrder now [] = now ≤ now
InOrder now (c ∷ cs) = (now ≤ time_of c) × InOrder (time_of c) cs
