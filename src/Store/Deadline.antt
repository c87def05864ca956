-- ===== src/Store/Deadline.antt =====
-- What is read of a value that was stored with a time to live.
use bungohan.Base.{
  ℕ, suc, ◌+◌, ◌*◌, ◌≤◌, ◌<◌, String, ◌≡◌, refl, ◌∙◌, ap, false, Option, none, some, arith,
}
use bungohan.Base.Dict
use bungohan.Base.Int.{pos}
use bungohan.Base.Keys.{string_keys}
use bungohan.Base.Number.{int}
use bungohan.Store.{Stringified, text, Entry, MemoryStore, Reply, value, set, get, read_entry}
use bungohan.Store.Contract.{alive}
use bungohan.Store.Refinement.{live_entry, when_false}

module _ {V J : Type 0} (stringify : V → Stringified J) (parse : J → Option V) where
  set_open :
      (s : MemoryStore J) (t : ℕ) (key : String) (v : V) (json : J) (n : ℕ)
      → s.closed ≡ false
      → stringify v ≡ text json
      → (set stringify parse s t key v (some (int (pos (suc n))))).0 ≡ record s {
        entries =
            Dict.set s.entries key (record { json = json; expires_at = some (t + suc n * 1000) });
      }
  unfolding set
  set_open s t key v json n o e =
      when_false
        (λ (r : MemoryStore J × Reply V). r.0 ≡ record s {
          entries =
              Dict.set s.entries key (record { json = json; expires_at = some (t + suc n * 1000) });
        })
        _ o (rw e refl)

  get_open :
      (s : MemoryStore J) (u : ℕ) (key : String)
      → s.closed ≡ false
      → (get stringify parse s u key).1 ≡ read_entry parse (alive u (Dict.get s.entries key))
  unfolding get
  get_open s u key o =
      when_false
        (λ (r : MemoryStore J × Reply V). r.1 ≡ read_entry parse (alive u (Dict.get s.entries key)))
        _ o (ap (read_entry parse) (live_entry s u key))

  -- What is read later of a value that was stored with a ttl.
  read_later :
      (s : MemoryStore J) (t u : ℕ) (key : String) (v : V) (json : J) (n : ℕ)
      → s.closed ≡ false
      → stringify v ≡ text json
      → (get stringify parse (set stringify parse s t key v (some (int (pos (suc n))))).0 u key).1
        ≡ read_entry parse
            (alive u (some (record { json = json; expires_at = some (t + suc n * 1000) })))
  read_later s t u key v json n o e =
      let entry : Entry J = record { json = json; expires_at = some (t + suc n * 1000) } in
      ap (λ r. (get stringify parse r u key).1) (set_open s t key v json n o e)
      ∙ get_open (record s { entries = Dict.set s.entries key entry }) u key o
      ∙ ap (λ x. read_entry parse (alive u x)) (Dict.get-set_self s.entries key entry)

  -- On an open store, a value that has a text, set with a ttl of one second or more, is read back
  -- as what `JSON.parse` makes of the text until the ttl is over, and as undefined from then on.
  pub get-set :
      (s : MemoryStore J) (t u : ℕ) (key : String) (v w : V) (json : J) (n : ℕ)
      → s.closed ≡ false
      → stringify v ≡ text json
      → parse json ≡ some w
      → (u < t + suc n * 1000
          → (get stringify parse
              (set stringify parse s t key v (some (int (pos (suc n))))).0
              u
              key).1
            ≡ value (some w))
        × (t + suc n * 1000 ≤ u
            → (get stringify parse
                (set stringify parse s t key v (some (int (pos (suc n))))).0
                u
                key).1
              ≡ value none)
  get-set s t u key v w json n o e p = (
    λ l. read_later s t u key v json n o e ∙ ground (arith, p),
    λ l. read_later s t u key v json n o e ∙ ground (arith, p),
  )
