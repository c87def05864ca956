-- ===== src/Cluster/Registry/Liveness.antt =====
-- Who is alive, and what the registry tells of it.
use bungohan.Base.{
  ℕ, ◌+◌, ◌≤◌, ◌<◌, String, ◌≡◌, ◌≢◌, refl, sym, subst, ◌∙◌, ap, true, Option, none, some, List, [],
  ◌∷◌, arith, if◌then◌else◌, Option-cases, Bool-cases, inl, inr, ◌⊎◌,
}
use bungohan.Base.Dict
use bungohan.Base.Dict.{Dict}
use bungohan.Base.Keys.{◌=?◌, =?_iff, key_cases, string_keys}
use bungohan.Cluster.Registry.{
  Peer, PeerBeat, PeerRegistry, peer_of, new_peer, refreshed, seen, gone, is_silent, sweep_all,
  sweep,
}

module _ {M : Type 0} where
  -- Every peer is stored under its own id.
  pub record IsKeyed (r : PeerRegistry M) : Type 0 where
    pub own_id : (id : String) (p : Peer M) → peer_of r id ≡ some p → p.id ≡ id

  abbrev pub is_here : Option (Peer M) → ℕ
  is_here none = 0
  is_here (some p) = 1

  -- A peer that is silent at `now` is not here; any other is as it was.
  pub remaining : PeerRegistry M → ℕ → Option (Peer M) → Option (Peer M)
  remaining r now none = none
  remaining r now (some p) = if is_silent r now p then none else some p

  gone_peer :
      (r : PeerRegistry M) (id j : String)
      → peer_of (gone r id) j ≡ (if id =? j then none else peer_of r j)
  unfolding gone
  gone_peer r id j = elim (key_cases id j) [
    | inl q ↦
        subst (λ k. peer_of (gone r id) k ≡ (if id =? k then none else peer_of r k)) q
          (ground (arith, Dict.get-delete r.peers id id, =?_iff id id))
    | inr n ↦ ground (arith, Dict.get-delete r.peers id j, =?_iff id j)
  ]

  gone_timeout : (r : PeerRegistry M) (id : String) → (gone r id).peer_timeout ≡ r.peer_timeout
  unfolding gone
  gone_timeout r id = ground arith

  gone-IsKeyed : (r : PeerRegistry M) (id : String) → IsKeyed r → IsKeyed (gone r id)
  gone-IsKeyed r id k = record {
    own_id = λ j p e. k.own_id j p (ground (arith, e, gone_peer r id j));
  }

  -- The round of the loop for one peer.
  swept : PeerRegistry M → ℕ → Peer M → PeerRegistry M
  swept r now p = if is_silent r now p then gone r p.id else r

  swept-IsKeyed : (r : PeerRegistry M) (now : ℕ) (p : Peer M) → IsKeyed r → IsKeyed (swept r now p)
  unfolding swept
  swept-IsKeyed r now p k = elim (Bool-cases (is_silent r now p)) [
    | inl y ↦ rw y (gone-IsKeyed r p.id k)
    | inr n ↦ rw n k
  ]

  swept_timeout :
      (r : PeerRegistry M) (now : ℕ) (p : Peer M) (o : Option (Peer M))
      → remaining (swept r now p) now o ≡ remaining r now o
  unfolding swept remaining is_silent
  swept_timeout r now p none = refl
  swept_timeout r now p (some q) = ground (arith, gone_timeout r p.id)

  swept_self :
      (r : PeerRegistry M) (now : ℕ) (id : String) (p : Peer M)
      → IsKeyed r
      → peer_of r id ≡ some p
      → peer_of (swept r now p) id ≡ remaining r now (some p)
  unfolding swept remaining
  swept_self r now id p k e = elim (Bool-cases (is_silent r now p)) [
    | inl y ↦ rw y (ground (arith, gone_peer r p.id id, k.own_id id p e, =?_iff p.id id))
    | inr n ↦ rw n e
  ]

  swept_ne :
      (r : PeerRegistry M) (now : ℕ) (id j : String) (p : Peer M)
      → IsKeyed r
      → peer_of r id ≡ some p
      → id ≢ j
      → peer_of (swept r now p) j ≡ peer_of r j
  unfolding swept
  swept_ne r now id j p k e n = elim (Bool-cases (is_silent r now p)) [
    | inl y ↦ rw y (ground (arith, gone_peer r p.id j, k.own_id id p e, =?_iff p.id j))
    | inr s ↦ rw s refl
  ]

  remaining_twice :
      (r : PeerRegistry M) (now : ℕ) (o : Option (Peer M))
      → remaining r now (remaining r now o) ≡ remaining r now o
  unfolding remaining
  remaining_twice r now none = refl
  remaining_twice r now (some p) = elim (Bool-cases (is_silent r now p)) [
    | inl y ↦ rw y refl
    | inr n ↦ rw n (rw n refl)
  ]

  sweep_all_peer :
      (r : PeerRegistry M) (now : ℕ) (ids : List String) (j : String)
      → IsKeyed r
      → peer_of (sweep_all r now ids) j
        ≡ (if Dict.listed j ids then remaining r now (peer_of r j) else peer_of r j)
  unfolding sweep_all swept Dict.listed
  sweep_all_peer r now [] j k = refl
  sweep_all_peer r now (id ∷ ids) j k = elim (Option-cases (peer_of r id)) [
    | inl e ↦ rw (e, sweep_all) (sweep_all_peer r now ids j k ∙ absent e (key_cases id j))
    | inr (p, e) ↦
        rw (e, sweep_all)
          (sweep_all_peer (swept r now p) now ids j (swept-IsKeyed r now p k)
            ∙ present p e (key_cases id j))
  ]
    where
      absent :
          peer_of r id ≡ none
          → (id ≡ j) ⊎ (id ≢ j)
          → (if Dict.listed j ids then remaining r now (peer_of r j) else peer_of r j) ≡ (
              if (if id =? j then true else Dict.listed j ids)
              then remaining r now (peer_of r j)
              else peer_of r j)
      absent e (inl q) = rw (sym (ap (peer_of r) q) ∙ e) (unfold remaining in ground arith)
      absent e (inr n) = ground (arith, =?_iff id j)

      present :
          (p : Peer M)
          → peer_of r id ≡ some p
          → (id ≡ j) ⊎ (id ≢ j)
          → (if Dict.listed j ids
              then remaining (swept r now p) now (peer_of (swept r now p) j)
              else peer_of (swept r now p) j)
            ≡ (if (if id =? j then true else Dict.listed j ids)
                then remaining r now (peer_of r j)
                else peer_of r j)
      present p e (inl q) =
          let e' : peer_of r j ≡ some p = sym (ap (peer_of r) q) ∙ e in
          let x = remaining r now (some p) in
          ground (
            arith,
            =?_iff id j,
            e',
            swept_self r now j p k e',
            swept_timeout r now p x,
            remaining_twice r now (some p),
          )
      present p e (inr n) =
          ground
            (arith, =?_iff id j, swept_ne r now id j p k e n, swept_timeout r now p (peer_of r j))

  -- `sweep` drops just the peers that have been silent for `peerTimeout` or longer, and leaves
  -- every other peer as it was.
  pub sweep_peer :
      (r : PeerRegistry M) (now : ℕ) (id : String)
      → IsKeyed r
      → peer_of (sweep r now) id ≡ remaining r now (peer_of r id)
  unfolding sweep remaining
  sweep_peer r now id k = elim (Option-cases (peer_of r id)) [
    | inl e ↦ ground (arith, e, sweep_all_peer r now (Dict.keys r.peers) id k)
    | inr (p, e) ↦
        sweep_all_peer r now (Dict.keys r.peers) id k ∙ rw (Dict.listed-keys r.peers id p e) refl
  ]

  -- A peer whose last message is less than `peerTimeout` old survives a sweep; one that is not
  -- is gone after it.
  pub sweep_deadline :
      (r : PeerRegistry M) (now : ℕ) (id : String) (p : Peer M)
      → IsKeyed r
      → peer_of r id ≡ some p
      → (now < p.last_seen_at + r.peer_timeout → peer_of (sweep r now) id ≡ some p)
        × (p.last_seen_at + r.peer_timeout ≤ now → peer_of (sweep r now) id ≡ none)
  unfolding remaining is_silent
  sweep_deadline r now id p k e = (
    λ h. sweep_peer r now id k ∙ rw e (ground arith),
    λ h. sweep_peer r now id k ∙ rw e (ground arith),
  )

  -- A message from a peer makes it known, stamps it with the time, and takes its figures over
  -- from a heartbeat; a message without one leaves the figures of a known peer as they were.
  pub seen_peer :
      (r : PeerRegistry M) (now : ℕ) (id : String) (b : Option (PeerBeat M))
      → peer_of (seen r now id b) id
        ≡ some (elim (peer_of r id) [ none ↦ new_peer r now id b | some p ↦ refreshed now p b ])
  unfolding seen
  seen_peer r now id b = elim (Option-cases (peer_of r id)) [
    | inl e ↦ rw (e, seen) (Dict.get-set_self r.peers id (new_peer r now id b))
    | inr (p, e) ↦ rw (e, seen) (Dict.get-set_self r.peers id (refreshed now p b))
  ]
