-- ===== src/Room/Places.antt =====
-- Joins, reconnections and reservations take places only where there are any.
use bungohan.Base.{
  ℕ, String, ◌≡◌, ◌∙◌, ap, Bool, false, Option, none, some, List, [], ◌∷◌, List-cases, arith,
  Option-cases, inl, inr,
}
use bungohan.Base.Dict
use bungohan.Base.Dict.{Dict}
use bungohan.Base.Keys.{string_keys, number_keys}
use bungohan.Base.Sizes.{size-set_old, size-delete}
use bungohan.Clock
use bungohan.Room.{
  joined, reconnecting, Frame, client_joined, Expiry, seat_expires, reservation_expires, sent,
  Client, Disposal, Room, client_of, put, tell,
}
use bungohan.Room.Seats.{bind, unbind, revoke_token, update_pause, release}
use bungohan.Room.Joins.{
  unseat, run_join, issue_token, flush, flush_all, activated, activate, clear_timer, reconnected,
  reconnect, holding, hold_seat, lost, connection_lost, seat_expired, reservation_expired, expired,
  expire, leave, dispose_round, continue_disposal, finish_disposal,
}
use bungohan.Room.Capacity.{
  Shrinks, Shrinks-refl, Shrinks-trans, unbind-Shrinks, revoke_token-Shrinks, end_disposal-Shrinks,
  check_empty-Shrinks, update_pause-Shrinks, deliver_all-Shrinks, release-Shrinks,
}

pub bind-Shrinks :
    (r : Room) (s : String) (c : Client) (conn ref : Option ℕ) → Shrinks r (bind r s c conn ref).0
unfolding bind
bind-Shrinks r s c none ref = ground arith
bind-Shrinks r s c (some n) ref = ground arith

bind_clients :
    (r : Room) (s : String) (c : Client) (conn ref : Option ℕ)
    → (bind r s c conn ref).0.clients ≡ r.clients
unfolding bind
bind_clients r s c none ref = ground arith
bind_clients r s c (some n) ref = ground arith

unbind_clients : (r : Room) (s : String) (c : Client) → (unbind r s c).clients ≡ r.clients
unfolding unbind
unbind_clients r s c = ground arith

pub put-Shrinks :
    (r : Room) (s : String) (c d : Client) → client_of r s ≡ some d → Shrinks r (put r s c)
put-Shrinks r s c d e = ground (arith, size-set_old r.clients s c d e)

pub unseat-Shrinks : (r : Room) (s : String) → Shrinks r (unseat r s)
unfolding unseat
unseat-Shrinks r s = elim (Option-cases (client_of r s)) [
  | inl e ↦ rw (e, unseat) (Shrinks-refl r)
  | inr (c, e) ↦
      let r₁ : Room = record r { clients = Dict.delete r.clients s } in
      let a = unbind-Shrinks r₁ s c in
      let b = check_empty-Shrinks (unbind r₁ s c) in
      rw (e, unseat) (ground (arith, size-delete r.clients s))
]

pub run_join-Shrinks : (r : Room) (s : String) (ran : Bool) → Shrinks r (run_join r s ran).0
unfolding run_join
run_join-Shrinks r s ran = ground (arith, unseat-Shrinks r s)

revoke_token_clients : (r : Room) (c : Client) → (revoke_token r c).clients ≡ r.clients
unfolding revoke_token
revoke_token_clients r c = ground arith

pub issue_token-Shrinks : (r : Room) (s token : String) → Shrinks r (issue_token r s token).0
unfolding issue_token
issue_token-Shrinks r s token = elim (Option-cases (client_of r s)) [
  | inl e ↦ rw (e, issue_token) (Shrinks-refl r)
  | inr (c, e) ↦
      rw (e, issue_token)
        (let a = revoke_token-Shrinks r c in
          let b = size-set_old r.clients s (record c { token = some token }) c e in
          let d = size-set_old r.clients s (record c { token = none }) c e in
          ground (arith, revoke_token_clients r c))
]

pub flush-Shrinks :
    (r : Room) (conn : Option ℕ) (queue : List (ℕ × Frame)) → Shrinks r (flush r conn queue)
unfolding flush
flush-Shrinks r conn [] = Shrinks-refl r
flush-Shrinks r none ((ref, frame) ∷ queue) = flush-Shrinks r none queue
flush-Shrinks r (some n) ((ref, frame) ∷ queue) =
    let a = flush-Shrinks (tell r (sent (n ∷ []) ref frame)) (some n) queue in ground arith

pub clear_timer-Shrinks : (r : Room) (s : String) → Shrinks r (clear_timer r s)
clear_timer-Shrinks r s = ground arith

pub seat_expired-Shrinks : (r : Room) (s : String) → Shrinks r (seat_expired r s)
unfolding seat_expired
seat_expired-Shrinks r s =
    let a =
      release-Shrinks (record r { reconnect_timers = Dict.delete r.reconnect_timers s }) s false
        none none in
    ground arith

pub reservation_expired-Shrinks : (r : Room) (id : String) → Shrinks r (reservation_expired r id)
unfolding reservation_expired
reservation_expired-Shrinks r id =
    let a = check_empty-Shrinks (record r { reservations = Dict.delete r.reservations id }) in
    ground (arith, size-delete r.reservations id)

pub expired-Shrinks : (r : Room) (e : Expiry) → Shrinks r (expired r e)
unfolding expired
expired-Shrinks r (seat_expires s) = seat_expired-Shrinks r s
expired-Shrinks r (reservation_expires id) = reservation_expired-Shrinks r id

pub expire-Shrinks : (r : Room) (t : ℕ) → Shrinks r (expire r t)
unfolding expire
expire-Shrinks r t = elim (Option-cases (Clock.fire r.clock t)) [
  | inl e ↦ rw (e, expire) (Shrinks-refl r)
  | inr ((x, clock), e) ↦
      rw (e, expire) (let a = expired-Shrinks (record r { clock = clock }) x in ground arith)
]

pub leave-Shrinks : (r : Room) (s : String) (consented : Bool) → Shrinks r (leave r s consented).0
unfolding leave
leave-Shrinks r s consented = elim (Option-cases (client_of r s)) [
  | inl e ↦ rw (e, leave) (Shrinks-refl r)
  | inr (c, e) ↦ rw (e, leave) (release-Shrinks r s consented _ none)
]

pub dispose_round-Shrinks :
    (r : Room) (rest : List String) (code : ℕ) (ds : List Disposal)
    → Shrinks r (dispose_round r rest code ds)
unfolding dispose_round
dispose_round-Shrinks r [] code ds =
    let a = end_disposal-Shrinks (record r { disposals = ds }) in ground arith
dispose_round-Shrinks r (s ∷ rest) code ds =
    let d : Disposal = record { rest = rest; code = code } in
    let a = release-Shrinks (record r { disposals = d ∷ ds }) s false (some code) none in
    ground arith

pub continue_disposal-Shrinks : (r : Room) → Shrinks r (continue_disposal r)
unfolding continue_disposal
continue_disposal-Shrinks r = elim (List-cases r.disposals) [
  | inl e ↦ ground (arith, e)
  | inr (d, ds, e) ↦ ground (arith, e, dispose_round-Shrinks r d.rest d.code ds)
]

pub finish_disposal-Shrinks : (r : Room) → Shrinks r (finish_disposal r)
unfolding finish_disposal
finish_disposal-Shrinks r = ground arith

pub flush_all-Shrinks :
    (r : Room) (conn : Option ℕ) (queue : Option (List (ℕ × Frame)))
    → Shrinks r (flush_all r conn queue)
flush_all-Shrinks r conn none = Shrinks-refl r
flush_all-Shrinks r conn (some queue) = flush-Shrinks r conn queue

pub activated-Shrinks :
    (r : Room) (s : String) (c d : Client) → client_of r s ≡ some d → Shrinks r (activated r s c)
unfolding activated
activated-Shrinks r s c d e =
    let x : Client = record c { status = joined; queue = none } in
    let r₁ = update_pause (put r s x) in
    let r₂ = flush_all r₁ c.connection c.queue in
    let a = put-Shrinks r s x d e in
    let b = update_pause-Shrinks (put r s x) in
    let f = flush_all-Shrinks r₁ c.connection c.queue in
    let g = deliver_all-Shrinks r₂ (client_joined s) s in
    Shrinks-trans r r₂ (activated r s c)
      (Shrinks-trans r r₁ r₂ (Shrinks-trans r (put r s x) r₁ a b) f) g

pub activate-Shrinks : (r : Room) (s : String) → Shrinks r (activate r s)
unfolding activate
activate-Shrinks r s = elim (Option-cases (client_of r s)) [
  | inl e ↦ rw (e, activate) (Shrinks-refl r)
  | inr (c, e) ↦ rw (e, activate) (let a = activated-Shrinks r s c c e in ground arith)
]

clear_timer_clients : (r : Room) (s : String) → (clear_timer r s).clients ≡ r.clients
clear_timer_clients r s = ground arith

pub reconnected-Shrinks :
    (r : Room) (s : String) (c : Client) (n : ℕ) (ref : Option ℕ)
    → client_of r s ≡ some c
    → Shrinks r (reconnected r s c n ref)
unfolding reconnected
reconnected-Shrinks r s c n ref e =
    let r₁ = clear_timer r s in
    let b = bind r₁ s c (some n) ref in
    let x : Client = record (b.1) { status = joined; synced = false } in
    let still : client_of b.0 s ≡ some c =
      ap (λ m. Dict.get m s) (bind_clients r₁ s c (some n) ref ∙ clear_timer_clients r s) ∙ e in
    let h = clear_timer-Shrinks r s in
    let k = bind-Shrinks r₁ s c (some n) ref in
    let p = put-Shrinks b.0 s x c still in
    let u = update_pause-Shrinks (put b.0 s x) in
    Shrinks-trans r b.0 (reconnected r s c n ref) (Shrinks-trans r r₁ b.0 h k)
      (Shrinks-trans b.0 (put b.0 s x) (reconnected r s c n ref) p u)

pub reconnect-Shrinks :
    (r : Room) (s : String) (n : ℕ) (ref : Option ℕ) → Shrinks r (reconnect r s n ref)
unfolding reconnect
reconnect-Shrinks r s n ref = elim (Option-cases (client_of r s)) [
  | inl e ↦ rw (e, reconnect) (Shrinks-refl r)
  | inr (c, e) ↦ rw (e, reconnect) (reconnected-Shrinks r s c n ref e)
]

pub holding-Shrinks :
    (r : Room) (s : String) (c d : Client) → client_of r s ≡ some d → Shrinks r (holding r s c)
unfolding holding
holding-Shrinks r s c d e =
    let x : Client = record c { status = reconnecting; synced = false; connection = none } in
    ground (arith, size-set_old r.clients s x d e)

pub held-Shrinks :
    (r : Room) (s : String) (c d : Client) → client_of r s ≡ some d → Shrinks r (hold_seat r s c)
unfolding hold_seat
held-Shrinks r s c d e =
    Shrinks-trans r (holding r s c) (hold_seat r s c) (holding-Shrinks r s c d e)
      (update_pause-Shrinks (holding r s c))

pub lost-Shrinks :
    (r : Room) (s : String) (c : Client) → client_of r s ≡ some c → Shrinks r (lost r s c)
unfolding lost
lost-Shrinks r s c e =
    let r₁ = unbind r s c in
    let x : Client = record c { connection = none } in
    let r₂ = put r₁ s x in
    let still : client_of r₁ s ≡ some c = ap (λ m. Dict.get m s) (unbind_clients r s c) ∙ e in
    let a = Shrinks-trans r r₁ r₂ (unbind-Shrinks r s c) (put-Shrinks r₁ s x c still) in
    let h = held-Shrinks r₂ s c x (Dict.get-set_self r₁.clients s x) in
    let l = release-Shrinks r₂ s false none none in
    let kept = Shrinks-trans r r₂ (hold_seat r₂ s c) a h in
    let gone = Shrinks-trans r r₂ (release r₂ s false none none) a l in ground arith

pub connection_lost-Shrinks : (r : Room) (s : String) → Shrinks r (connection_lost r s)
unfolding connection_lost
connection_lost-Shrinks r s = elim (Option-cases (client_of r s)) [
  | inl e ↦ rw (e, connection_lost) (Shrinks-refl r)
  | inr (c, e) ↦ rw (e, connection_lost) (let a = lost-Shrinks r s c e in ground arith)
]
