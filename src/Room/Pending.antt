-- ===== src/Room/Pending.antt =====
-- The timers of held seats and reservations stay pending when a client is connected or lost, and
-- those that a held seat or a reservation is given are pending.
use bungohan.Base.{
  ℕ, String, ◌≡◌, refl, sym, ◌∙◌, ap, false, Option, none, some, List, [], ◌∷◌, either_branch,
  arith, Option-cases, some_inj, inl, inr,
}
use bungohan.Base.Dict
use bungohan.Base.Dict.{Dict}
use bungohan.Base.Keys.{key_cases, string_keys, number_keys}
use bungohan.Clock
use bungohan.Clock.{
  Clock, pending, IsFresh, IsFresh-clear, IsFresh-set_timeout, pending-clear_ne, fire_cases,
  fire-pending, pending-set_timeout_old, pending-set_timeout_new, set_timeout-id,
}
use bungohan.Room.{
  joined, reconnecting, Frame, client_joined, seat_expires, reservation_expires, sent, Client, Room,
  client_of, put, tell, is_joining, is_held,
}
use bungohan.Room.Seats.{bind, unbind, revoke_token, update_pause}
use bungohan.Room.Joins.{
  issue_token, flush, flush_all, activated, activate, clear_timer, reconnected, may_hold, holding,
  hold_seat, lost, connection_lost, hold,
}
use bungohan.Room.Timers.{
  IsTimed, Same, Same-IsTimed, IsTimed-weaken, unbind-Same, revoke_token-Same, update_pause-Same,
  drop_timer-IsTimed, put-IsTimed, release-IsTimed,
}
use bungohan.Room.Leaving.{deliver_all-IsTimed, bind-Same}

-- A seat that is set to what has its status needs the timers that it has.
pub put_same-IsTimed :
    (r : Room) (s : String) (c d : Client)
    → client_of r s ≡ some d
    → c.status ≡ d.status
    → IsTimed none r
    → IsTimed none (put r s c)
put_same-IsTimed r s c d e q h = record {
  held = λ s' c' n e' k. elim (key_cases s s') [
    | inl p ↦
        let x : c ≡ c' =
          some_inj (
            sym (Dict.get-set_self r.clients s c)
            ∙ ap (Dict.get (Dict.set r.clients s c)) p
            ∙ e') in
        h.held s' d n (ap (client_of r) (sym p) ∙ e) (sym q ∙ ap (λ (z : Client). z.status) x ∙ k)
    | inr m ↦ h.held s' c' n (sym (Dict.get-set_ne r.clients s c s' m) ∙ e') k
  ];
  seat_timed = h.seat_timed;
  reservation_timed = h.reservation_timed;
  fresh = h.fresh;
}

pub issue_token-IsTimed :
    (r : Room) (s token : String) → IsTimed none r → IsTimed none (issue_token r s token).0
unfolding issue_token
issue_token-IsTimed r s token h = elim (Option-cases (client_of r s)) [
  | inl e ↦ rw (e, issue_token) h
  | inr (c, e) ↦
      let r₁ = revoke_token r c in
      let q = revoke_token-Same r c in
      let a = Same-IsTimed none r r₁ q h in
      let e₁ : client_of r₁ s ≡ some c = ap (λ m. Dict.get m s) q.clients ∙ e in
      let b = put_same-IsTimed r₁ s (record c { token = some token }) c e₁ refl a in
      let d = put_same-IsTimed r₁ s (record c { token = none }) c e₁ refl a in
      rw (e, issue_token)
        (either_branch (λ (x : Room × Option String). IsTimed none x.0) _ _ _
          (Same-IsTimed none (put r₁ s (record c { token = some token }))
            (record r₁ {
              clients = Dict.set r₁.clients s (record c { token = some token });
              tokens = Dict.set r₁.tokens token s;
            })
            (ground arith) b)
          d)
]

flush-Same : (r : Room) (conn : Option ℕ) (queue : List (ℕ × Frame)) → Same r (flush r conn queue)
unfolding flush
flush-Same r conn [] = ground arith
flush-Same r none ((ref, frame) ∷ queue) = flush-Same r none queue
flush-Same r (some n) ((ref, frame) ∷ queue) =
    let a = flush-Same (tell r (sent (n ∷ []) ref frame)) (some n) queue in ground arith

flush_all-Same :
    (r : Room) (conn : Option ℕ) (queue : Option (List (ℕ × Frame)))
    → Same r (flush_all r conn queue)
flush_all-Same r conn none = ground arith
flush_all-Same r conn (some queue) = flush-Same r conn queue

pub activate-IsTimed : (r : Room) (s : String) → IsTimed none r → IsTimed none (activate r s)
unfolding activate activated
activate-IsTimed r s h = elim (Option-cases (client_of r s)) [
  | inl e ↦ rw (e, activate) h
  | inr (c, e) ↦
      let x : Client = record c { status = joined; queue = none } in
      let a = put-IsTimed r s x (λ q. cc q) (IsTimed-weaken (some s) r h) in
      let r₁ = update_pause (put r s x) in
      let b = Same-IsTimed none (put r s x) r₁ (update_pause-Same (put r s x)) a in
      let r₂ = flush_all r₁ c.connection c.queue in
      let d = Same-IsTimed none r₁ r₂ (flush_all-Same r₁ c.connection c.queue) b in
      rw (e, activate)
        (either_branch (IsTimed none) (is_joining c.status) (activated r s c) r
          (deliver_all-IsTimed r₂ (client_joined s) s d) h)
]

pub reconnected-IsTimed :
    (r : Room) (s : String) (c : Client) (n : ℕ) (ref : Option ℕ)
    → IsTimed none r
    → IsTimed none (reconnected r s c n ref)
unfolding reconnected
reconnected-IsTimed r s c n ref h =
    let r₁ = clear_timer r s in
    let b = bind r₁ s c (some n) ref in
    let x : Client = record (b.1) { status = joined; synced = false } in
    let a = drop_timer-IsTimed r s (IsTimed-weaken (some s) r h) in
    let d = Same-IsTimed (some s) r₁ b.0 (bind-Same r₁ s c (some n) ref) a in
    let p = put-IsTimed b.0 s x (λ q. cc q) d in
    Same-IsTimed none (put b.0 s x) _ (update_pause-Same (put b.0 s x)) p

-- A seat that is held gets a timer of its own.
pub holding-IsTimed :
    (r : Room) (s : String) (c : Client) → IsTimed none r → IsTimed none (holding r s c)
unfolding holding
holding-IsTimed r s c h =
    let x : Client = record c { status = reconnecting; synced = false; connection = none } in
    let t = (Clock.set_timeout r.clock (seat_expires s) r.reconnection_ms).0 in
    let id = set_timeout-id r.clock (seat_expires s) r.reconnection_ms in
    record {
      held = λ s' c' n e k. elim (key_cases s s') [
        | inl q ↦ (
          t,
          ap (Dict.get (Dict.set r.reconnect_timers s t)) (sym q)
              ∙ Dict.get-set_self r.reconnect_timers s t,
        )
        | inr m ↦
            let (t', g) = h.held s' c' n (sym (Dict.get-set_ne r.clients s x s' m) ∙ e) k in
            (t', Dict.get-set_ne r.reconnect_timers s t s' m ∙ g)
      ];
      seat_timed = λ s' t' e. elim (key_cases s s') [
        | inl q ↦
            let same : t ≡ t' = some_inj (
              sym (Dict.get-set_self r.reconnect_timers s t)
              ∙ ap (Dict.get (Dict.set r.reconnect_timers s t)) q
              ∙ e) in
            ap (pending (Clock.set_timeout r.clock (seat_expires s) r.reconnection_ms).1)
              (sym same ∙ id)
            ∙ pending-set_timeout_new r.clock (seat_expires s) r.reconnection_ms
            ∙ ap (λ z. some (seat_expires z)) q
        | inr m ↦
            pending-set_timeout_old r.clock (seat_expires s) r.reconnection_ms t' _ h.fresh
              (h.seat_timed s' t' (sym (Dict.get-set_ne r.reconnect_timers s t s' m) ∙ e))
      ];
      reservation_timed = λ i t' e.
          pending-set_timeout_old r.clock (seat_expires s) r.reconnection_ms t' _ h.fresh
            (h.reservation_timed i t' e);
      fresh = IsFresh-set_timeout r.clock (seat_expires s) r.reconnection_ms h.fresh;
    }

pub hold-IsTimed : (r : Room) (id : String) (ms : ℕ) → IsTimed none r → IsTimed none (hold r id ms)
unfolding hold
hold-IsTimed r id ms h =
    let x = reservation_expires id in
    let t = (Clock.set_timeout r.clock x ms).0 in
    record {
      held = h.held;
      seat_timed =
          λ s t' e. pending-set_timeout_old r.clock x ms t' _ h.fresh (h.seat_timed s t' e);
      reservation_timed = λ j t' e. elim (key_cases id j) [
        | inl q ↦
            let same : t ≡ t' = some_inj (
              sym (Dict.get-set_self r.reservations id t)
              ∙ ap (Dict.get (Dict.set r.reservations id t)) q
              ∙ e) in
            ap (pending (Clock.set_timeout r.clock x ms).1) (sym same ∙ set_timeout-id r.clock x ms)
            ∙ pending-set_timeout_new r.clock x ms
            ∙ ap (λ z. some (reservation_expires z)) q
        | inr m ↦
            pending-set_timeout_old r.clock x ms t' _ h.fresh
              (h.reservation_timed j t' (sym (Dict.get-set_ne r.reservations id t j m) ∙ e))
      ];
      fresh = IsFresh-set_timeout r.clock x ms h.fresh;
    }

pub lost-IsTimed :
    (r : Room) (s : String) (c : Client)
    → client_of r s ≡ some c
    → IsTimed none r
    → IsTimed none (lost r s c)
unfolding lost hold_seat
lost-IsTimed r s c e h =
    let r₁ = unbind r s c in
    let q = unbind-Same r s c in
    let x : Client = record c { connection = none } in
    let r₂ = put r₁ s x in
    let a =
      put_same-IsTimed r₁ s x c (ap (λ m. Dict.get m s) q.clients ∙ e) refl
        (Same-IsTimed none r r₁ q h) in
    let b = holding-IsTimed r₂ s c a in
    let d = Same-IsTimed none (holding r₂ s c) _ (update_pause-Same (holding r₂ s c)) b in
    let g = release-IsTimed r₂ s false none none (IsTimed-weaken (some s) r₂ a) in
    either_branch (IsTimed none) (is_joining c.status) r₂ _ a
      (either_branch (IsTimed none) (may_hold r c) _ _ d g)

pub connection_lost-IsTimed :
    (r : Room) (s : String) → IsTimed none r → IsTimed none (connection_lost r s)
unfolding connection_lost
connection_lost-IsTimed r s h = elim (Option-cases (client_of r s)) [
  | inl e ↦ rw (e, connection_lost) h
  | inr (c, e) ↦
      rw (e, connection_lost)
        (either_branch (IsTimed none) (is_held c.status) r (lost r s c) h (lost-IsTimed r s c e h))
]
