-- ===== src/Cluster/Requests/Replies.antt =====
-- packages/core/src/cluster/requests.ts: a request that is opened, replies to it, and its timer.
use bungohan.Base.{
  ℕ, String, ◌≡◌, refl, sym, ap, ap₂, subst, ◌∙◌, Option, none, some, List, [], ◌∷◌, ◌++◌,
  append_assoc, append-nil, Option-cases, Bool-cases, inl, inr, some_inj,
}
use bungohan.Base.Dict
use bungohan.Base.Keys.{string_keys}
use bungohan.Clock.{pending}
use bungohan.Cluster.Requests.{
  Kind, single, first, gather, Entry, Answer, value, values, failure, timeout, Requests, entry_of,
  put, resolve, end_with, complete_with, complete, close, enter, open_request, mem, without,
  answered_rest, answered, deliver_to, deliver, expire,
}
use bungohan.Cluster.Requests.Invariant.{IsSound, entered-IsSound}
use bungohan.Cluster.Requests.Steps.{deliver-IsKept}
use bungohan.Cluster.Requests.Timeouts.{expire_open}

module _ {V : Type 0} where
  -- The values of replies, which come with the peers that they are from.
  unfoldable pub values_of : List (V × String) → List V
  values_of [] = []
  values_of ((v, from) ∷ replies) = v ∷ values_of replies

  -- The replies arrive one after the other.
  unfoldable pub deliver_all : Requests V → String → List (V × String) → Requests V
  deliver_all r rid [] = r
  deliver_all r rid ((v, from) ∷ replies) = deliver_all (deliver r rid v from) rid replies

  -- What the promise of a request gives that is ended by its timer: one for a single answer fails,
  -- and one that gathers has the values of its replies so far.
  unfoldable pub timed_out : Kind → List V → Answer V
  timed_out single vs = failure timeout
  timed_out first vs = failure timeout
  timed_out gather vs = values vs

  -- The request is closed, or open as it was opened, with these values, and not resolved.
  record IsWaiting (r r' : Requests V) (rid : String) (kind : Kind) (vs : List V) : Type 0 where
    waits :
        (e : Entry V)
        → entry_of r' rid ≡ some e
        → (e.kind ≡ kind)
          × (timed_out kind e.collected ≡ timed_out kind vs)
          × (r'.resolved ≡ r.resolved)

  close-none : (r : Requests V) (rid : String) → entry_of (close r rid) rid ≡ none
  unfolding close
  close-none r rid = elim (Option-cases (entry_of r rid)) [
    | inl h ↦ rw (h, close) h
    | inr (e, h) ↦ rw (h, close) (Dict.get-delete_self r.entries rid)
  ]

  complete-entries :
      (r : Requests V) (rid : String) (kind : Kind) (vs : List V)
      → (complete r rid kind vs).entries ≡ r.entries
  unfolding complete complete_with
  complete-entries r rid single vs = refl
  complete-entries r rid first vs = refl
  complete-entries r rid gather vs = refl

  closed :
      (r r' : Requests V) (rid : String) (kind : Kind) (vs : List V)
      → entry_of r' rid ≡ none
      → IsWaiting r r' rid kind vs
  closed r r' rid kind vs h = record { waits = λ e p. cc (h, p) }

  -- A gather behind the reply that was collected.
  answered-IsWaiting :
      (r r' : Requests V) (rid : String) (e : Entry V) (from : String)
      → entry_of r' rid ≡ some e
      → e.kind ≡ gather
      → r'.resolved ≡ r.resolved
      → IsWaiting r (answered r' rid e from) rid gather e.collected
  unfolding answered answered_rest timed_out
  answered-IsWaiting r r' rid e from h k same = elim (Option-cases e.waiting) [
    | inl w ↦ rw (w, answered) (stays h)
    | inr (peers, w) ↦ elim (Bool-cases (mem from peers)) [
      | inl m ↦ rw (w, m, answered) (rest (without from peers))
      | inr m ↦ rw (w, m, answered) (stays h)
    ]
  ]
    where
      stays : entry_of r' rid ≡ some e → IsWaiting r r' rid gather e.collected
      stays h = record {
        waits = λ f p.
            let q : e ≡ f = some_inj (sym h ∙ p) in
            (sym (ap Entry.kind q) ∙ k, ap (λ (x : Entry V). values x.collected) (sym q), same);
      }

      rest :
          (peers : List String) → IsWaiting r (answered_rest r' rid e peers) rid gather e.collected
      rest [] = closed r _ rid gather e.collected (
          ap (λ m. Dict.get m rid) (complete-entries (close r' rid) rid e.kind e.collected)
          ∙ close-none r' rid)
      rest (p ∷ ps) = record {
        waits = λ f q.
            let t =
              some_inj (
                sym (Dict.get-set_self r'.entries rid (record e { waiting = some (p ∷ ps) }))
                ∙ q) in
            (sym (ap Entry.kind t) ∙ k, ap (λ (x : Entry V). values x.collected) (sym t), same);
      }

  same_values :
      (r r' : Requests V) (rid : String) (kind : Kind) (vs ws : List V)
      → timed_out kind vs ≡ timed_out kind ws
      → IsWaiting r r' rid kind vs
      → IsWaiting r r' rid kind ws
  same_values r r' rid kind vs ws same w = record {
    waits = λ e p. let (k, t, u) = w.waits e p in (k, t ∙ same, u);
  }

  one_more :
      (vs ws : List V) (v : V)
      → timed_out gather vs ≡ timed_out gather ws
      → timed_out gather (vs ++ (v ∷ [])) ≡ timed_out gather (ws ++ (v ∷ []))
  unfolding timed_out
  one_more vs ws v e =
      ap
        (λ (a : Answer V). elim a as (λ _. Answer V) [
          | value x ↦ values []
          | failure f ↦ values []
          | values xs ↦ values (xs ++ (v ∷ []))
        ])
        e

  deliver_to-IsWaiting :
      (r r' : Requests V) (rid : String) (e : Entry V) (kind : Kind) (vs : List V) (v : V)
      (from : String)
      → entry_of r' rid ≡ some e
      → e.kind ≡ kind
      → timed_out kind e.collected ≡ timed_out kind vs
      → r'.resolved ≡ r.resolved
      → IsWaiting r (deliver_to r' rid e kind v from) rid kind (vs ++ (v ∷ []))
  unfolding deliver_to
  deliver_to-IsWaiting r r' rid e single vs v from h k t same =
      closed r _ rid single _ (close-none (resolve r' rid (value v)) rid)
  deliver_to-IsWaiting r r' rid e first vs v from h k t same =
      closed r _ rid first _ (close-none (resolve r' rid (value v)) rid)
  deliver_to-IsWaiting r r' rid e gather vs v from h k t same =
      let e' : Entry V = record e { collected = e.collected ++ (v ∷ []) } in
      same_values r (answered (put r' rid e') rid e' from) rid gather e'.collected (vs ++ (v ∷ []))
        (one_more e.collected vs v t)
        (answered-IsWaiting r (put r' rid e') rid e' from (Dict.get-set_self r'.entries rid e') k
          same)

  deliver-IsWaiting :
      (r r' : Requests V) (rid : String) (kind : Kind) (vs : List V) (v : V) (from : String)
      → IsWaiting r r' rid kind vs
      → IsWaiting r (deliver r' rid v from) rid kind (vs ++ (v ∷ []))
  unfolding deliver
  deliver-IsWaiting r r' rid kind vs v from w = elim (Option-cases (entry_of r' rid)) [
    | inl h ↦ rw (h, deliver) (closed r r' rid kind (vs ++ (v ∷ [])) h)
    | inr (e, h) ↦
        let (k, t, same) = w.waits e h in
        rw (h, deliver)
          (subst (λ x. IsWaiting r (deliver_to r' rid e x v from) rid kind (vs ++ (v ∷ []))) (sym k)
            (deliver_to-IsWaiting r r' rid e kind vs v from h k t same))
  ]

  deliver_all-IsWaiting :
      (r r' : Requests V) (rid : String) (kind : Kind) (vs : List V) (replies : List (V × String))
      → IsWaiting r r' rid kind vs
      → IsWaiting r (deliver_all r' rid replies) rid kind (vs ++ values_of replies)
  unfolding deliver_all values_of
  deliver_all-IsWaiting r r' rid kind vs [] w =
      same_values r r' rid kind vs (vs ++ []) (ap (timed_out kind) (sym (append-nil vs))) w
  deliver_all-IsWaiting r r' rid kind vs ((v, from) ∷ replies) w =
      let r'' = deliver r' rid v from in
      same_values r (deliver_all r'' rid replies) rid kind ((vs ++ (v ∷ [])) ++ values_of replies)
        (vs ++ (v ∷ values_of replies))
        (ap (timed_out kind) (append_assoc vs (v ∷ []) (values_of replies)))
        (deliver_all-IsWaiting r r'' rid kind (vs ++ (v ∷ [])) replies
          (deliver-IsWaiting r r' rid kind vs v from w))

  deliver_all-IsSound :
      (r : Requests V) (rid : String) (replies : List (V × String))
      → IsSound r
      → IsSound (deliver_all r rid replies)
  unfolding deliver_all
  deliver_all-IsSound r rid [] s = s
  deliver_all-IsSound r rid ((v, from) ∷ replies) s =
      deliver_all-IsSound (deliver r rid v from) rid replies (deliver-IsKept r rid v from s).sound

  enter-IsWaiting :
      (r : Requests V) (rid : String) (kind : Kind) (peer : Option String)
      (peers : Option (List String)) (ms : ℕ)
      → IsWaiting r (enter r rid kind peer peers ms) rid kind []
  unfolding enter
  enter-IsWaiting r rid kind peer peers ms = record {
    waits = λ e p.
        let q = some_inj (sym (Dict.get-set_self r.entries rid _) ∙ p) in
        (sym (ap Entry.kind q), ap (λ (x : Entry V). timed_out kind x.collected) (sym q), refl);
  }

  complete-IsSound :
      (r : Requests V) (rid : String) (kind : Kind) (vs : List V)
      → IsSound r
      → IsSound (complete r rid kind vs)
  unfolding complete complete_with
  complete-IsSound r rid single vs s = s
  complete-IsSound r rid first vs s = record { live = s.live; fresh = s.fresh }
  complete-IsSound r rid gather vs s = record { live = s.live; fresh = s.fresh }

  open_request-IsWaiting :
      (r : Requests V) (rid : String) (kind : Kind) (peer : Option String)
      (peers : Option (List String)) (ms : ℕ)
      → IsSound r
      → entry_of r rid ≡ none
      → (kind ≡ single → peers ≡ none)
      → IsWaiting r (open_request r rid kind peer peers ms) rid kind []
        × IsSound (open_request r rid kind peer peers ms)
  unfolding open_request
  open_request-IsWaiting r rid kind peer none ms s h d = (
    enter-IsWaiting r rid kind peer none ms,
    entered-IsSound r rid kind peer none ms s d (λ e. cc e),
  )
  open_request-IsWaiting r rid kind peer (some []) ms s h d = (
    closed r _ rid kind [] (ap (λ m. Dict.get m rid) (complete-entries r rid kind []) ∙ h),
    complete-IsSound r rid kind [] s,
  )
  open_request-IsWaiting r rid kind peer (some (p ∷ ps)) ms s h d = (
    enter-IsWaiting r rid kind peer (some (p ∷ ps)) ms,
    entered-IsSound r rid kind peer (some (p ∷ ps)) ms s d (λ e. cc (some_inj e)),
  )

  end_with-timed_out : (kind : Kind) (vs : List V) → end_with kind vs timeout ≡ timed_out kind vs
  unfolding end_with timed_out
  end_with-timed_out single vs = refl
  end_with-timed_out first vs = refl
  end_with-timed_out gather vs = refl

  -- Where a request is opened in a sound table that has none of its id, a request of one peer
  -- without a list of peers, and is still open after some replies to it, its timer is pending;
  -- when that fires, the request is closed and its promise resolved, as the first one since:
  -- one that gathers resolves with the values of all these replies, in their order, and any other
  -- with a timeout.
  pub expire-deliver_all :
      (r : Requests V) (rid : String) (kind : Kind) (peer : Option String)
      (peers : Option (List String)) (ms : ℕ) (replies : List (V × String)) (e : Entry V)
      → IsSound r
      → entry_of r rid ≡ none
      → (kind ≡ single → peers ≡ none)
      → entry_of (deliver_all (open_request r rid kind peer peers ms) rid replies) rid ≡ some e
      → let r' = deliver_all (open_request r rid kind peer peers ms) rid replies in
        (pending r'.clock e.timer ≡ some rid)
        × ((expire r' e.timer).resolved
            ≡ r.resolved ++ ((rid, timed_out kind (values_of replies)) ∷ []))
        × (entry_of (expire r' e.timer) rid ≡ none)
  expire-deliver_all r rid kind peer peers ms replies e s h d open_still =
      let o = open_request r rid kind peer peers ms in
      let (w, sound) = open_request-IsWaiting r rid kind peer peers ms s h d in
      let r' = deliver_all o rid replies in
      let (k, t, same) = (deliver_all-IsWaiting r o rid kind [] replies w).waits e open_still in
      let (timed, resolved, gone) =
        expire_open r' rid e (deliver_all-IsSound o rid replies sound) open_still in
      (
        timed,
        resolved
            ∙ ap₂ (λ l a. l ++ ((rid, a) ∷ [])) same
                (ap (λ x. end_with x e.collected timeout) k
                  ∙ end_with-timed_out kind e.collected
                  ∙ t),
        gone,
      )
