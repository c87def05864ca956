-- ===== src/Store/Refinement.antt =====
-- `MemoryStore` keeps the contract: it evicts on reading, which cannot be seen.
use bungohan.Base.{
  ℕ, ◌≤◌, String, ◌≡◌, refl, sym, subst, ◌∙◌, ap, Bool, true, false, Option, none, some, List, [],
  ◌∷◌, if◌then◌else◌, arith, Option-cases, Bool-cases, inl, inr, ◌⊎◌,
}
use bungohan.Base.Dict
use bungohan.Base.Keys.{◌=?◌, =?_iff, key_cases, string_keys}
use bungohan.Base.Number.{Number}
use bungohan.Store.{
  Error, connection_failed, Result, ok, err, Stringified, to_json, check_ttl, Entry, MemoryStore,
  is_expired, expiry, Reply, present, failed, read_entry, is_some, init, live, set, get, delete,
  exists, close, Call, sets, gets, exist, deletes, closes, step, answers,
}
use bungohan.Store.Contract.{
  Shelf, alive, write, blank, shelve, refuse, promise, promised, time_of, InOrder,
}

-- From `now` on, the store has just the entries that the shelf has.
record Agrees {J : Type 0} (now : ℕ) (s : MemoryStore J) (a : Shelf J) : Type 0 where
  same :
      (key : String) (t : ℕ) → now ≤ t → alive t (Dict.get s.entries key) ≡ alive t (a.content key)
  status : s.closed ≡ a.closed

expired_later :
    {J : Type 0} (e : Entry J) (now t : ℕ)
    → is_expired now e ≡ true
    → now ≤ t
    → is_expired t e ≡ true
expired_later e now t h l = ground arith

module _ {J : Type 0} where
  pub live_entry :
      (s : MemoryStore J) (now : ℕ) (key : String)
      → (live s now key).1 ≡ alive now (Dict.get s.entries key)
  unfolding live
  live_entry s now key = elim (Option-cases (Dict.get s.entries key)) [
    | inl e ↦ rw (e, live) refl
    | inr (entry, e) ↦ elim (Bool-cases (is_expired now entry)) [
      | inl y ↦ rw (e, live) (rw y refl)
      | inr n ↦ rw (e, live) (rw n refl)
    ]
  ]

  live_status : (s : MemoryStore J) (now : ℕ) (key : String) → (live s now key).0.closed ≡ s.closed
  unfolding live
  live_status s now key = elim (Option-cases (Dict.get s.entries key)) [
    | inl e ↦ rw (e, live) refl
    | inr (entry, e) ↦ elim (Bool-cases (is_expired now entry)) [
      | inl y ↦ rw (e, live) (rw y refl)
      | inr n ↦ rw (e, live) (rw n refl)
    ]
  ]

  -- Eviction cannot be seen.
  live_same :
      (s : MemoryStore J) (now t : ℕ) (key j : String)
      → now ≤ t
      → alive t (Dict.get (live s now key).0.entries j) ≡ alive t (Dict.get s.entries j)
  unfolding live
  live_same s now t key j l = elim (Option-cases (Dict.get s.entries key)) [
    | inl e ↦ rw (e, live) refl
    | inr (entry, e) ↦ elim (Bool-cases (is_expired now entry)) [
      | inl y ↦
          rw (e, live)
            (rw y (elim (key_cases key j) [
              | inl q ↦ ground (
                arith,
                Dict.get-delete s.entries key j,
                =?_iff key j,
                sym (ap (Dict.get s.entries) q) ∙ e,
                expired_later entry now t y l,
              )
              | inr n ↦ ground (arith, Dict.get-delete s.entries key j, =?_iff key j)
            ]))
      | inr n ↦ rw (e, live) (rw n refl)
    ]
  ]

  live-Agrees :
      (now t : ℕ) (s : MemoryStore J) (a : Shelf J) (key : String)
      → now ≤ t
      → Agrees now s a
      → Agrees t (live s t key).0 a
  live-Agrees now t s a key l h = record {
    same = λ j u m. live_same s t u key j m ∙ h.same j u (omega arith);
    status = live_status s t key ∙ h.status;
  }

  later : (now t : ℕ) (s : MemoryStore J) (a : Shelf J) → now ≤ t → Agrees now s a → Agrees t s a
  later now t s a l h = record { same = λ j u m. h.same j u (omega arith); status = h.status }

  set-Agrees :
      (now : ℕ) (s : MemoryStore J) (a : Shelf J) (key : String) (e : Entry J)
      → Agrees now s a
      → Agrees now (record s { entries = Dict.set s.entries key e }) (write a key (some e))
  set-Agrees now s a key e h = record {
    same = λ j u m. elim (Bool-cases (key =? j)) [
      | inl y ↦ rw (Dict.get-set s.entries key e j) (rw y refl)
      | inr n ↦ rw (Dict.get-set s.entries key e j) (rw n (h.same j u m))
    ];
    status = h.status;
  }

  delete-Agrees :
      (now : ℕ) (s : MemoryStore J) (a : Shelf J) (key : String)
      → Agrees now s a
      → Agrees now (record s { entries = Dict.delete s.entries key }) (write a key none)
  delete-Agrees now s a key h = record {
    same = λ j u m. elim (Bool-cases (key =? j)) [
      | inl y ↦ rw (Dict.get-delete s.entries key j) (rw y refl)
      | inr n ↦ rw (Dict.get-delete s.entries key j) (rw n (h.same j u m))
    ];
    status = h.status;
  }

  closed-Agrees :
      (now : ℕ)
      → Agrees {J = J} now
          (record { entries = []; closed = true })
          (record { content = λ j. none; closed = true })
  closed-Agrees now = record {
    same = λ j u m. rw (Dict.get-empty {K = String} {V = Entry J} j) refl;
    status = refl;
  }

pub when_true {ℓ} :
    {A : Type ℓ} (P : A → Type 0) {b : Bool} {x : A} (y : A)
    → b ≡ true
    → P x
    → P (if b then x else y)
when_true P {x = x} y h p = subst (λ c. P (if c then x else y)) (sym h) p

pub when_false {ℓ} :
    {A : Type ℓ} (P : A → Type 0) {b : Bool} (x : A) {y : A}
    → b ≡ false
    → P y
    → P (if b then x else y)
when_false P x {y = y} h p = subst (λ c. P (if c then x else y)) (sym h) p

Result-cases {ℓ} :
    {A : Type ℓ} (x : Result A) → ((e : Error) × (x ≡ err e)) ⊎ ((a : A) × (x ≡ ok a))
Result-cases (err e) = inl (e, refl)
Result-cases (ok a) = inr (a, refl)

-- One call answers alike, and the two agree behind it.
record Follows {V J : Type 0} (now : ℕ) (x : MemoryStore J × Reply V) (y : Shelf J × Reply V)
    : Type 0 where
  reply : x.1 ≡ y.1
  after : Agrees now x.0 y.0

module _ {V J : Type 0} (stringify : V → Stringified J) (parse : J → Option V) where
  set-Follows :
      (t : ℕ) (s : MemoryStore J) (a : Shelf J) (key : String) (v : V) (ttl : Option Number)
      → s.closed ≡ false
      → Agrees t s a
      → Follows t (set stringify parse s t key v ttl) (shelve stringify parse a (sets t key v ttl))
  unfolding set shelve
  set-Follows t s a key v ttl o h = elim (Result-cases (check_ttl ttl)) [
    | inl (e, c) ↦ rw (o, c, set) (rw (c, shelve) (record { reply = refl; after = h }))
    | inr (seconds, c) ↦ elim (Result-cases (to_json stringify v)) [
      | inl (e, d) ↦ rw (o, c, d, set) (rw (c, d, shelve) (record { reply = refl; after = h }))
      | inr (json, d) ↦
          rw (o, c, d, set)
            (rw (c, d, shelve)
              (record {
                reply = refl;
                after =
                    set-Agrees t s a key (record { json = json; expires_at = expiry t seconds }) h;
              }))
    ]
  ]

  open-Follows :
      (s : MemoryStore J) (a : Shelf J) (c : Call V)
      → s.closed ≡ false
      → Agrees (time_of c) s a
      → Follows (time_of c) (step stringify parse s c) (shelve stringify parse a c)
  unfolding step shelve get exists delete close
  open-Follows s a (sets t key v ttl) o h = set-Follows t s a key v ttl o h
  open-Follows s a (gets t key) o h =
      when_false (λ r. Follows {V = V} {J = J} t r (shelve stringify parse a (gets t key))) _ o
        (record {
          reply = ap (read_entry parse) (live_entry s t key ∙ h.same key t (omega arith));
          after = live-Agrees t t s a key (omega arith) h;
        })
  open-Follows s a (exist t key) o h =
      when_false (λ r. Follows {V = V} {J = J} t r (shelve stringify parse a (exist t key))) _ o
        (record {
          reply = ap (λ e. present (is_some e)) (live_entry s t key ∙ h.same key t (omega arith));
          after = live-Agrees t t s a key (omega arith) h;
        })
  open-Follows s a (deletes t key) o h =
      when_false (λ r. Follows {V = V} {J = J} t r (shelve stringify parse a (deletes t key))) _ o
        (record { reply = refl; after = delete-Agrees t s a key h })
  open-Follows s a (closes t) o h = record { reply = refl; after = closed-Agrees t }

  refused :
      (t : ℕ) (s : MemoryStore J) (a : Shelf J)
      → Agrees t s a
      → Follows {V = V} t (s, failed connection_failed) (a, failed connection_failed)
  refused t s a h = record { reply = refl; after = h }

  closed-Follows :
      (s : MemoryStore J) (a : Shelf J) (c : Call V)
      → s.closed ≡ true
      → Agrees (time_of c) s a
      → Follows (time_of c) (step stringify parse s c) (refuse stringify parse a c)
  unfolding step refuse set get exists delete close
  closed-Follows s a (sets t key v ttl) o h =
      when_true (λ r. Follows {V = V} {J = J} t r (a, failed connection_failed)) _ o
        (refused t s a h)
  closed-Follows s a (gets t key) o h =
      when_true (λ r. Follows {V = V} {J = J} t r (a, failed connection_failed)) _ o
        (refused t s a h)
  closed-Follows s a (exist t key) o h =
      when_true (λ r. Follows {V = V} {J = J} t r (a, failed connection_failed)) _ o
        (refused t s a h)
  closed-Follows s a (deletes t key) o h =
      when_true (λ r. Follows {V = V} {J = J} t r (a, failed connection_failed)) _ o
        (refused t s a h)
  closed-Follows s a (closes t) o h = record { reply = refl; after = closed-Agrees t }

  step-Follows :
      (s : MemoryStore J) (a : Shelf J) (c : Call V)
      → Agrees (time_of c) s a
      → Follows (time_of c) (step stringify parse s c) (promise stringify parse a c)
  unfolding promise
  step-Follows s a c h = elim (Bool-cases s.closed) [
    | inl y ↦
        when_true (Follows (time_of c) (step stringify parse s c)) _ (sym h.status ∙ y)
          (closed-Follows s a c y h)
    | inr n ↦
        when_false (Follows (time_of c) (step stringify parse s c)) _ (sym h.status ∙ n)
          (open-Follows s a c n h)
  ]

  answers-promised :
      (now : ℕ) (s : MemoryStore J) (a : Shelf J) (cs : List (Call V))
      → InOrder now cs
      → Agrees now s a
      → answers stringify parse s cs ≡ promised stringify parse a cs
  unfolding answers promised InOrder
  answers-promised now s a [] o h = refl
  answers-promised now s a (c ∷ cs) (l, o) h =
      let f = step-Follows s a c (later now (time_of c) s a l h) in
      rw
        (
          f.reply,
          answers-promised (time_of c) (step stringify parse s c).0 (promise stringify parse a c).0
              cs o f.after,
        )
        refl

  -- A new store answers every sequence of calls just as the map with deadlines does, while its
  -- clock does not go back: that expired values are evicted only when they are read cannot be seen.
  pub answers-init :
      (cs : List (Call V))
      → InOrder 0 cs
      → answers stringify parse init cs ≡ promised stringify parse blank cs
  unfolding init blank
  answers-init cs o = answers-promised 0 init blank cs o (record {
    same = λ j t l. rw (Dict.get-empty {K = String} {V = Entry J} j) refl;
    status = refl;
  })
