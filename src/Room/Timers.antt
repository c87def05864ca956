-- ===== src/Room/Timers.antt =====
-- Every held seat and every reservation has a timer that is pending and will end it.
use bungohan.Base.{
  ℕ, String, ◌≡◌, ◌≢◌, sym, ◌∙◌, ap, subst, Bool, true, false, Option, none, some, List, [], ◌∷◌,
  either_branch, arith, Option-cases, Bool-cases, some_inj, inl, inr,
}
use bungohan.Base.Dict
use bungohan.Base.Dict.{Dict}
use bungohan.Base.Keys.{key_cases, string_keys, number_keys}
use bungohan.Clock
use bungohan.Clock.{
  Clock, pending, IsFresh, IsFresh-clear, IsFresh-set_timeout, pending-clear_ne,
  pending-set_timeout_old, pending-set_timeout_new, set_timeout-id,
}
use bungohan.Room.{
  reconnecting, Expiry, seat_expires, reservation_expires, Client, Room, client_of, put, is_joining,
}
use bungohan.Room.Seats.{
  unbind, revoke_token, send_leave, update_pause, clear_all, end_disposal, check_empty, drop_timer,
  clear_seat, release,
}

-- The timers of a room, but for the one of the seat that an operation is at work on.
pub record IsTimed (but : Option String) (r : Room) : Type 0 where
  pub held :
      (s : String) (c : Client)
      → but ≢ some s
      → client_of r s ≡ some c
      → c.status ≡ reconnecting
      → (t : ℕ) × (Dict.get r.reconnect_timers s ≡ some t)
  pub seat_timed :
      (s : String) (t : ℕ)
      → Dict.get r.reconnect_timers s ≡ some t
      → pending r.clock t ≡ some (seat_expires s)
  pub reservation_timed :
      (id : String) (t : ℕ)
      → Dict.get r.reservations id ≡ some t
      → pending r.clock t ≡ some (reservation_expires id)
  pub fresh : IsFresh r.clock

-- The two rooms have the same seats and timers.
pub record Same (r r' : Room) : Type 0 where
  pub clock : r'.clock ≡ r.clock
  pub timers : r'.reconnect_timers ≡ r.reconnect_timers
  pub reservations : r'.reservations ≡ r.reservations
  pub clients : r'.clients ≡ r.clients

pub Same-IsTimed : (but : Option String) (r r' : Room) → Same r r' → IsTimed but r → IsTimed but r'
Same-IsTimed but r r' q h = record {
  held = λ s c n e k.
      let (t, g) = h.held s c n (ap (λ m. Dict.get m s) (sym q.clients) ∙ e) k in
      (t, ap (λ m. Dict.get m s) q.timers ∙ g);
  seat_timed = λ s t e.
      ap (λ c. pending c t) q.clock ∙ h.seat_timed s t (ap (λ m. Dict.get m s) (sym q.timers) ∙ e);
  reservation_timed = λ id t e.
      ap (λ c. pending c t) q.clock
      ∙ h.reservation_timed id t (ap (λ m. Dict.get m id) (sym q.reservations) ∙ e);
  fresh = subst IsFresh (sym q.clock) h.fresh;
}

pub IsTimed-weaken : (but : Option String) (r : Room) → IsTimed none r → IsTimed but r
IsTimed-weaken but r h = record {
  held = λ s c n e k. h.held s c (λ q. cc q) e k;
  seat_timed = h.seat_timed;
  reservation_timed = h.reservation_timed;
  fresh = h.fresh;
}

pub unbind-Same : (r : Room) (s : String) (c : Client) → Same r (unbind r s c)
unfolding unbind
unbind-Same r s c = ground arith

pub revoke_token-Same : (r : Room) (c : Client) → Same r (revoke_token r c)
unfolding revoke_token
revoke_token-Same r c = ground arith

pub send_leave-Same :
    (r : Room) (c : Client) (code : Option ℕ) (reason : Option String)
    → Same r (send_leave r c code reason)
unfolding send_leave
send_leave-Same r c none reason = ground arith
send_leave-Same r c (some code) reason = ground arith

pub update_pause-Same : (r : Room) → Same r (update_pause r)
unfolding update_pause
update_pause-Same r = ground arith

-- Timers that are pending for different ends are different.
pub apart :
    (c : Clock Expiry) (i j : ℕ) (x y : Expiry)
    → pending c i ≡ some x
    → pending c j ≡ some y
    → x ≢ y
    → i ≢ j
apart c i j x y p q n e = n (some_inj (sym p ∙ ap (pending c) e ∙ q))

pub seat_expires_ne : (s s' : String) → s ≢ s' → seat_expires s ≢ seat_expires s'
seat_expires_ne s s' n e = n (cc e)

-- Dropping a seat's timer leaves all others pending.
pub drop_timer-IsTimed :
    (r : Room) (s : String) → IsTimed (some s) r → IsTimed (some s) (drop_timer r s)
drop_timer-IsTimed r s h = elim (Option-cases (Dict.get r.reconnect_timers s)) [
  | inl e ↦ rw (e, drop_timer) h
  | inr (t, e) ↦
      rw (e, drop_timer)
        record {
          held = λ s' c n e' k.
              let (t', g) = h.held s' c n e' k in
              (t', Dict.get-delete_ne r.reconnect_timers s s' (λ q. n (ap (λ x. some x) q)) ∙ g);
          seat_timed = λ s' t' e'. elim (key_cases s s') [
            | inl q ↦ cc (q, e', Dict.get-delete_self r.reconnect_timers s)
            | inr n ↦
                let g =
                  h.seat_timed s' t' (sym (Dict.get-delete_ne r.reconnect_timers s s' n) ∙ e') in
                pending-clear_ne r.clock t t' _
                  (apart r.clock t t' _ _ (h.seat_timed s t e) g (seat_expires_ne s s' n)) g
          ];
          reservation_timed = λ id t' e'.
              let g = h.reservation_timed id t' e' in
              pending-clear_ne r.clock t t' _
                (apart r.clock t t' _ _ (h.seat_timed s t e) g (λ q. cc q)) g;
          fresh = IsFresh-clear r.clock t h.fresh;
        }
]

-- Without the client, the exception is none.
pub delete-IsTimed :
    (r : Room) (s : String)
    → IsTimed (some s) r
    → IsTimed none (record r { clients = Dict.delete r.clients s })
delete-IsTimed r s h = record {
  held = λ s' c n e k. elim (key_cases s s') [
    | inl q ↦ cc (q, e, Dict.get-delete_self r.clients s)
    | inr m ↦ h.held s' c (λ q. m (some_inj q)) (sym (Dict.get-delete_ne r.clients s s' m) ∙ e) k
  ];
  seat_timed = h.seat_timed;
  reservation_timed = h.reservation_timed;
  fresh = h.fresh;
}

-- A seat that is not held needs no timer.
pub put-IsTimed :
    (r : Room) (s : String) (c : Client)
    → c.status ≢ reconnecting
    → IsTimed (some s) r
    → IsTimed none (put r s c)
put-IsTimed r s c d h = record {
  held = λ s' c' n e k. elim (key_cases s s') [
    | inl q ↦ absurd (
        d (
          ap (λ (x : Client). x.status)
            (some_inj (
              sym (Dict.get-set_self r.clients s c) ∙ ap (Dict.get (Dict.set r.clients s c)) q ∙ e))
          ∙ k))
    | inr m ↦ h.held s' c' (λ q. m (some_inj q)) (sym (Dict.get-set_ne r.clients s c s' m) ∙ e) k
  ];
  seat_timed = h.seat_timed;
  reservation_timed = h.reservation_timed;
  fresh = h.fresh;
}

pub clear_seat-IsTimed :
    (r : Room) (s : String) (c : Client) → IsTimed (some s) r → IsTimed none (clear_seat r s c)
unfolding clear_seat
clear_seat-IsTimed r s c h =
    let r₁ = drop_timer r s in
    let r₂ = revoke_token r₁ c in
    let r₃ = unbind r₂ s c in
    let a = drop_timer-IsTimed r s h in
    let b = Same-IsTimed (some s) r₁ r₂ (revoke_token-Same r₁ c) a in
    let d = Same-IsTimed (some s) r₂ r₃ (unbind-Same r₂ s c) b in
    let e = delete-IsTimed r₃ s d in Same-IsTimed none _ _ (ground arith) e

-- Clearing the timers of the reservations leaves those of the seats pending.
pending-clear_all :
    (m : Dict String ℕ) (c : Clock Expiry) (ids : List String) (t : ℕ) (s : String)
    → ((id : String) (j : ℕ) → Dict.get m id ≡ some j → t ≢ j)
    → pending c t ≡ some (seat_expires s)
    → pending (clear_all m c ids) t ≡ some (seat_expires s)
unfolding clear_all
pending-clear_all m c [] t s n p = p
pending-clear_all m c (id ∷ ids) t s n p = elim (Option-cases (Dict.get m id)) [
  | inl e ↦ rw (e, clear_all) (pending-clear_all m c ids t s n p)
  | inr (j, e) ↦
      rw (e, clear_all)
        (pending-clear_all m (Clock.clear c j) ids t s n
          (pending-clear_ne c j t _ (λ q. n id j e (sym q)) p))
]

clear_all-IsFresh :
    (m : Dict String ℕ) (c : Clock Expiry) (ids : List String)
    → IsFresh c
    → IsFresh (clear_all m c ids)
unfolding clear_all
clear_all-IsFresh m c [] f = f
clear_all-IsFresh m c (id ∷ ids) f = elim (Option-cases (Dict.get m id)) [
  | inl e ↦ rw (e, clear_all) (clear_all-IsFresh m c ids f)
  | inr (j, e) ↦ rw (e, clear_all) (clear_all-IsFresh m (Clock.clear c j) ids (IsFresh-clear c j f))
]

pub end_disposal-IsTimed :
    (but : Option String) (r : Room) → IsTimed but r → IsTimed but (end_disposal r)
unfolding end_disposal
end_disposal-IsTimed but r h = record {
  held = h.held;
  seat_timed = λ s t e.
      pending-clear_all r.reservations r.clock (Dict.keys r.reservations) t s
        (λ id j g.
          apart r.clock t j _ _ (h.seat_timed s t e) (h.reservation_timed id j g) (λ q. cc q))
        (h.seat_timed s t e);
  reservation_timed = λ id t e. cc (e, Dict.get-empty {K = String} {V = ℕ} id);
  fresh = clear_all-IsFresh r.reservations r.clock (Dict.keys r.reservations) h.fresh;
}

pub check_empty-IsTimed :
    (but : Option String) (r : Room) → IsTimed but r → IsTimed but (check_empty r)
unfolding check_empty
check_empty-IsTimed but r h =
    let r' = end_disposal (record r { running = false }) in
    let a : IsTimed but (record r { running = false }) = Same-IsTimed but r _ (ground arith) h in
    let b = end_disposal-IsTimed but (record r { running = false }) a in
    either_branch (IsTimed but) _ (record r' { disposing = true }) r
      (Same-IsTimed but r' _ (ground arith) b) h

nobody-IsTimed :
    (r : Room) (s : String) → client_of r s ≡ none → IsTimed (some s) r → IsTimed none r
nobody-IsTimed r s e h = record {
  held = λ s' c n e' k. elim (key_cases s s') [
    | inl q ↦ cc (sym e ∙ ap (client_of r) q ∙ e')
    | inr m ↦ h.held s' c (λ q. m (some_inj q)) e' k
  ];
  seat_timed = h.seat_timed;
  reservation_timed = h.reservation_timed;
  fresh = h.fresh;
}

pub release-IsTimed :
    (r : Room) (s : String) (consented : Bool) (code : Option ℕ) (reason : Option String)
    → IsTimed (some s) r
    → IsTimed none (release r s consented code reason)
unfolding release
release-IsTimed r s consented code reason h = elim (Option-cases (client_of r s)) [
  | inl e ↦ rw (e, release) (nobody-IsTimed r s e h)
  | inr (c, e) ↦
      let r₁ = send_leave r c code reason in
      let r₂ = clear_seat r₁ s c in
      let a = Same-IsTimed (some s) r r₁ (send_leave-Same r c code reason) h in
      let b = clear_seat-IsTimed r₁ s c a in
      rw (e, release)
        (elim (Bool-cases (is_joining c.status)) [
          | inl y ↦ rw y (check_empty-IsTimed none r₂ b)
          | inr n ↦ rw n (Same-IsTimed none r₂ _ (ground arith) b)
        ])
]
