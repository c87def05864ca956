-- ===== src/Cluster/Requests/Steps.antt =====
-- Every operation on the requests keeps them sound, and resolves no promise twice or never.
use bungohan.Base.{
  String, ◌≡◌, ◌≢◌, refl, some, List, [], ◌∷◌, ◌++◌, Option-cases, Bool-cases, inl, inr,
}
use bungohan.Base.Dict
use bungohan.Base.Keys.{string_keys}
use bungohan.Cluster.Requests.{
  Failure, peer_lost, stopped, Kind, single, first, gather, Entry, Answer, value, Requests,
  entry_of, put, resolve, complete_with, complete, close, mem, without, directed_to, answered_rest,
  answered, deliver_to, deliver, miss, fail_with, fail_peer_in, fail_peer_all, fail_peer, stop_all,
  stop,
}
use bungohan.Cluster.Requests.Invariant.{
  IsSound, IsKept, IsKept-refl, IsKept-trans, put-IsKept, ended, ended-IsKept,
}

module _ {V : Type 0} where
  close-ended :
      (r : Requests V) (rid : String) (e : Entry V) (a : Answer V)
      → entry_of r rid ≡ some e
      → resolve (close r rid) rid a ≡ ended r rid e.timer a
  unfolding close
  close-ended r rid e a h = rw (h, close)

  finish-IsKept :
      (r : Requests V) (rid : String) (e : Entry V) (a : Answer V)
      → IsSound r
      → entry_of r rid ≡ some e
      → IsKept r (resolve (close r rid) rid a)
  finish-IsKept r rid e a s h =
      rw (close-ended r rid e a h) (ended-IsKept r rid e.timer e a s h (s.live rid e h).timed)

  complete-IsKept :
      (r : Requests V) (rid : String) (e : Entry V) (kind : Kind)
      → IsSound r
      → entry_of r rid ≡ some e
      → kind ≢ single
      → IsKept r (complete (close r rid) rid kind e.collected)
  unfolding complete complete_with
  complete-IsKept r rid e single s h n = absurd (n refl)
  complete-IsKept r rid e first s h n = finish-IsKept r rid e _ s h
  complete-IsKept r rid e gather s h n = finish-IsKept r rid e _ s h

  answered_rest-IsKept :
      (r : Requests V) (rid : String) (e : Entry V) (peers : List String)
      → IsSound r
      → entry_of r rid ≡ some e
      → e.kind ≢ single
      → IsKept r (answered_rest r rid e peers)
  unfolding answered_rest
  answered_rest-IsKept r rid e [] s h n = complete-IsKept r rid e e.kind s h n
  answered_rest-IsKept r rid e (p ∷ ps) s h n = put-IsKept r rid e _ s h (record {
    timed = (s.live rid e h).timed;
    directed = λ q. absurd (n q);
    awaits = λ peers q w. cc (q, w);
  })

  answered-IsKept :
      (r : Requests V) (rid : String) (e : Entry V) (from : String)
      → IsSound r
      → entry_of r rid ≡ some e
      → IsKept r (answered r rid e from)
  unfolding answered
  answered-IsKept r rid e from s h = elim (Option-cases e.waiting) [
    | inl w ↦ rw (w, answered) (IsKept-refl r s)
    | inr (peers, w) ↦ elim (Bool-cases (mem from peers)) [
      | inl m ↦
          rw (w, m, answered)
            (answered_rest-IsKept r rid e (without from peers) s h
              (λ q. cc (w, (s.live rid e h).directed q)))
      | inr m ↦ rw (w, m, answered) (IsKept-refl r s)
    ]
  ]

  deliver_to-IsKept :
      (r : Requests V) (rid : String) (e : Entry V) (kind : Kind) (v : V) (from : String)
      → IsSound r
      → entry_of r rid ≡ some e
      → IsKept r (deliver_to r rid e kind v from)
  unfolding deliver_to close
  deliver_to-IsKept r rid e single v from s h =
      rw (h, close) (ended-IsKept r rid e.timer e (value v) s h (s.live rid e h).timed)
  deliver_to-IsKept r rid e first v from s h =
      rw (h, close) (ended-IsKept r rid e.timer e (value v) s h (s.live rid e h).timed)
  deliver_to-IsKept r rid e gather v from s h =
      let e' : Entry V = record e { collected = e.collected ++ (v ∷ []) } in
      let l = s.live rid e h in
      let k =
        put-IsKept r rid e e' s h
          (record { timed = l.timed; directed = l.directed; awaits = l.awaits }) in
      IsKept-trans r (put r rid e') _ k
        (answered-IsKept (put r rid e') rid e' from k.sound (Dict.get-set_self r.entries rid e'))

  pub deliver-IsKept :
      (r : Requests V) (rid : String) (v : V) (from : String)
      → IsSound r
      → IsKept r (deliver r rid v from)
  unfolding deliver
  deliver-IsKept r rid v from s = elim (Option-cases (entry_of r rid)) [
    | inl h ↦ rw (h, deliver) (IsKept-refl r s)
    | inr (e, h) ↦ rw (h, deliver) (deliver_to-IsKept r rid e e.kind v from s h)
  ]

  pub miss-IsKept : (r : Requests V) (rid from : String) → IsSound r → IsKept r (miss r rid from)
  unfolding miss
  miss-IsKept r rid from s = elim (Option-cases (entry_of r rid)) [
    | inl h ↦ rw (h, miss) (IsKept-refl r s)
    | inr (e, h) ↦ rw (h, miss) (answered-IsKept r rid e from s h)
  ]

  fail_with-IsKept :
      (r : Requests V) (rid : String) (e : Entry V) (reason : Failure)
      → IsSound r
      → entry_of r rid ≡ some e
      → IsKept r (fail_with r rid e reason)
  unfolding fail_with
  fail_with-IsKept r rid e reason s h = finish-IsKept r rid e _ s h

  fail_peer_in-IsKept :
      (r : Requests V) (peer rid : String) (e : Entry V)
      → IsSound r
      → entry_of r rid ≡ some e
      → IsKept r (fail_peer_in r peer rid e)
  unfolding fail_peer_in
  fail_peer_in-IsKept r peer rid e s h = elim (Bool-cases (directed_to e.peer peer)) [
    | inl d ↦ rw (d, fail_peer_in) (fail_with-IsKept r rid e peer_lost s h)
    | inr d ↦ rw (d, fail_peer_in) (answered-IsKept r rid e peer s h)
  ]

  fail_peer_all-IsKept :
      (r : Requests V) (peer : String) (rids : List String)
      → IsSound r
      → IsKept r (fail_peer_all r peer rids)
  unfolding fail_peer_all
  fail_peer_all-IsKept r peer [] s = IsKept-refl r s
  fail_peer_all-IsKept r peer (rid ∷ rids) s = elim (Option-cases (entry_of r rid)) [
    | inl h ↦ rw (h, fail_peer_all) (fail_peer_all-IsKept r peer rids s)
    | inr (e, h) ↦
        let k = fail_peer_in-IsKept r peer rid e s h in
        rw (h, fail_peer_all)
          (IsKept-trans r (fail_peer_in r peer rid e) _ k
            (fail_peer_all-IsKept (fail_peer_in r peer rid e) peer rids k.sound))
  ]

  pub fail_peer-IsKept : (r : Requests V) (peer : String) → IsSound r → IsKept r (fail_peer r peer)
  unfolding fail_peer
  fail_peer-IsKept r peer s = fail_peer_all-IsKept r peer (Dict.keys r.entries) s

  stop_all-IsKept : (r : Requests V) (rids : List String) → IsSound r → IsKept r (stop_all r rids)
  unfolding stop_all
  stop_all-IsKept r [] s = IsKept-refl r s
  stop_all-IsKept r (rid ∷ rids) s = elim (Option-cases (entry_of r rid)) [
    | inl h ↦ rw (h, stop_all) (stop_all-IsKept r rids s)
    | inr (e, h) ↦
        let k = fail_with-IsKept r rid e stopped s h in
        rw (h, stop_all)
          (IsKept-trans r (fail_with r rid e stopped) _ k
            (stop_all-IsKept (fail_with r rid e stopped) rids k.sound))
  ]

  pub stop-IsKept : (r : Requests V) → IsSound r → IsKept r (stop r)
  unfolding stop
  stop-IsKept r s = stop_all-IsKept r (Dict.keys r.entries) s
