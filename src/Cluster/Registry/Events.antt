-- ===== src/Cluster/Registry/Events.antt =====
-- Each peer that is found is lost once, or still known.
use bungohan.Base.{
  ℕ, suc, ◌+◌, String, ◌≡◌, ap, Option, List, [], ◌∷◌, ◌++◌, arith, if◌then◌else◌, Option-cases,
  Bool-cases, inl, inr,
}
use bungohan.Base.Dict
use bungohan.Base.Dict.{Dict}
use bungohan.Base.Keys.{◌=?◌, =?_iff, key_cases, string_keys}
use bungohan.Cluster.Registry.{
  Peer, PeerBeat, Event, found, lost, beat, PeerRegistry, peer_of, start, new_peer, refreshed, seen,
  gone, is_silent, sweep_all, sweep, on_tick, Call, start_it, hear, lose, fire, call, calls, init,
}
use bungohan.Cluster.Registry.Liveness.{is_here}

pub founds : String → List Event → ℕ
founds id [] = 0
founds id (found j ∷ l) = let rest = founds id l in if j =? id then suc rest else rest
founds id (lost j ∷ l) = founds id l
founds id (beat ∷ l) = founds id l

pub losts : String → List Event → ℕ
losts id [] = 0
losts id (lost j ∷ l) = let rest = losts id l in if j =? id then suc rest else rest
losts id (found j ∷ l) = losts id l
losts id (beat ∷ l) = losts id l

founds-append :
    (id : String) (l : List Event) (e : Event)
    → founds id (l ++ (e ∷ [])) ≡ founds id l + founds id (e ∷ [])
unfolding founds
founds-append id [] e = omega arith
founds-append id (found j ∷ l) e = ground (arith, founds-append id l e)
founds-append id (lost j ∷ l) e = founds-append id l e
founds-append id (beat ∷ l) e = founds-append id l e

losts-append :
    (id : String) (l : List Event) (e : Event)
    → losts id (l ++ (e ∷ [])) ≡ losts id l + losts id (e ∷ [])
unfolding losts
losts-append id [] e = omega arith
losts-append id (lost j ∷ l) e = ground (arith, losts-append id l e)
losts-append id (found j ∷ l) e = losts-append id l e
losts-append id (beat ∷ l) e = losts-append id l e

module _ {M : Type 0} where
  abbrev pub IsBalanced : PeerRegistry M → String → Type 0
  IsBalanced r id = founds id r.events ≡ losts id r.events + is_here (peer_of r id)

  -- Every `onFound` of a peer is matched by an `onLost`, but for a peer that is known now.
  pub record IsReported (r : PeerRegistry M) : Type 0 where
    pub matched : (id : String) → IsBalanced r id

  seen-IsReported :
      (r : PeerRegistry M) (now : ℕ) (id : String) (b : Option (PeerBeat M))
      → IsReported r
      → IsReported (seen r now id b)
  unfolding seen founds losts
  seen-IsReported r now id b h = record {
    matched = λ j. elim (Option-cases (peer_of r id)) [
      | inl e ↦
          rw (e, seen)
            (elim (key_cases id j) [
              | inl q ↦ ground (
                arith,
                q,
                e,
                ap (peer_of r) q,
                h.matched j,
                =?_iff id j,
                founds-append j r.events (found id),
                losts-append j r.events (found id),
                Dict.get-set r.peers id (new_peer r now id b) j,
              )
              | inr n ↦ ground (
                arith,
                h.matched j,
                =?_iff id j,
                founds-append j r.events (found id),
                losts-append j r.events (found id),
                Dict.get-set r.peers id (new_peer r now id b) j,
              )
            ])
      | inr (p, e) ↦
          rw (e, seen)
            (elim (key_cases id j) [
              | inl q ↦ ground (
                arith,
                e,
                ap (peer_of r) q,
                h.matched j,
                =?_iff id j,
                Dict.get-set r.peers id (refreshed now p b) j,
              )
              | inr n ↦
                  ground
                    (arith, h.matched j, =?_iff id j, Dict.get-set r.peers id (refreshed now p b) j)
            ])
    ];
  }

  gone-IsReported : (r : PeerRegistry M) (id : String) → IsReported r → IsReported (gone r id)
  unfolding gone founds losts
  gone-IsReported r id h = record {
    matched = λ j. elim (key_cases id j) [
      | inl q ↦ ground (
        arith,
        ap (peer_of r) q,
        h.matched j,
        =?_iff id j,
        founds-append j r.events (lost id),
        losts-append j r.events (lost id),
        Dict.get-delete r.peers id j,
      )
      | inr n ↦ ground (
        arith,
        h.matched j,
        =?_iff id j,
        founds-append j r.events (lost id),
        losts-append j r.events (lost id),
        Dict.get-delete r.peers id j,
      )
    ];
  }

  sweep_all-IsReported :
      (r : PeerRegistry M) (now : ℕ) (ids : List String)
      → IsReported r
      → IsReported (sweep_all r now ids)
  unfolding sweep_all
  sweep_all-IsReported r now [] h = h
  sweep_all-IsReported r now (id ∷ ids) h = elim (Option-cases (peer_of r id)) [
    | inl e ↦ rw (e, sweep_all) (sweep_all-IsReported r now ids h)
    | inr (p, e) ↦ elim (Bool-cases (is_silent r now p)) [
      | inl y ↦
          rw (e, sweep_all)
            (rw y (sweep_all-IsReported (gone r p.id) now ids (gone-IsReported r p.id h)))
      | inr n ↦ rw (e, sweep_all) (rw n (sweep_all-IsReported r now ids h))
    ]
  ]

  on_tick-IsReported : (r : PeerRegistry M) (now : ℕ) → IsReported r → IsReported (on_tick r now)
  unfolding on_tick sweep founds losts
  on_tick-IsReported r now h =
      sweep_all-IsReported (record r { events = r.events ++ (beat ∷ []) }) now (Dict.keys r.peers)
        (record {
          matched = λ j.
              ground
                (arith, h.matched j, founds-append j r.events beat, losts-append j r.events beat);
        })

  -- Started or stopped, the registry says nothing: only `stop` forgets peers without a word.
  start-IsReported : (r : PeerRegistry M) → IsReported r → IsReported (start r)
  unfolding start
  start-IsReported r h = elim (Option-cases r.timer) [
    | inl e ↦ rw (e, start) (record { matched = λ id. h.matched id })
    | inr (t, e) ↦ rw (e, start) h
  ]

  call-IsReported : (r : PeerRegistry M) (c : Call M) → IsReported r → IsReported (call r c)
  unfolding call
  call-IsReported r start_it h = start-IsReported r h
  call-IsReported r (hear now id b) h = seen-IsReported r now id b h
  call-IsReported r (lose id) h = gone-IsReported r id h
  call-IsReported r (fire now) h = on_tick-IsReported r now h

  calls-IsReported :
      (r : PeerRegistry M) (cs : List (Call M)) → IsReported r → IsReported (calls r cs)
  unfolding calls
  calls-IsReported r [] h = h
  calls-IsReported r (c ∷ cs) h = calls-IsReported (call r c) cs (call-IsReported r c h)

  -- From a new registry, however often it is started, whatever it hears and loses, and whenever
  -- its interval runs: `onFound` was called for an id as often as `onLost`, and once more just
  -- when the id is a known peer.
  pub reported_once :
      (interval timeout : ℕ) (no_meta : M) (cs : List (Call M)) (id : String)
      → IsBalanced (calls (init interval timeout no_meta) cs) id
  unfolding init founds losts
  reported_once interval timeout no_meta cs id =
      (calls-IsReported (init interval timeout no_meta) cs (record {
        matched = λ j. ground (arith, Dict.get-empty {K = String} {V = Peer M} j);
      })).matched
        id
