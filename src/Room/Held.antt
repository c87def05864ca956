-- ===== src/Room/Held.antt =====
-- No seat is held forever, whatever is called: its timer is pending, and releases it.
use bungohan.Base.{
  ℕ, String, ◌≡◌, ◌≢◌, refl, sym, ◌∙◌, ap, subst, Bool, true, false, Option, none, some, List, [],
  ◌∷◌, either_branch, arith, get_elem?, Option-cases, inl, inr, ◌⊎◌,
}
use bungohan.Base.Dict
use bungohan.Base.Dict.{Dict}
use bungohan.Base.Keys.{key_cases, string_keys, number_keys}
use bungohan.Clock
use bungohan.Clock.{
  Clock, pending, IsFresh, IsFresh-clear, IsFresh-set_timeout, pending-clear_ne, fire_cases,
  fire-pending, pending-set_timeout_old, pending-set_timeout_new, set_timeout-id,
}
use bungohan.Room.{
  reconnecting, by_reservation, Expiry, seat_expires, reservation_expires, Client, Disposal, Room,
  client_of, is_joining, Error,
}
use bungohan.Room.Seats.{
  has_free_seat, unbind, revoke_token, end_disposal, check_empty, send_leave, drop_timer,
  clear_seat, release,
}
use bungohan.Room.Joins.{
  held_seat, reconnect, seat_expired, reservation_expired, take_reservation, expired, expire, leave,
  dispose_round, continue_disposal, finish_disposal,
}
use bungohan.Room.Timers.{
  apart, seat_expires_ne, IsTimed, Same, Same-IsTimed, IsTimed-weaken, end_disposal-IsTimed,
  check_empty-IsTimed, release-IsTimed,
}
use bungohan.Room.Calls.{
  reserve, claim, resume, remove_at, left_at, Call, seats, claims, reserves, unseats, runs_join,
  issues, activates, resumes, reconnected_hook, loses, leaves, kicks, has_left, expires, disposes,
  continues, finishes, locks, unlocks, hides, shows, step, run,
}
use bungohan.Room.Leaving.{
  left-IsTimed, dispose-IsTimed, seat-IsTimed, unseat-IsTimed, run_join-IsTimed,
}
use bungohan.Room.Pending.{
  issue_token-IsTimed, activate-IsTimed, reconnected-IsTimed, hold-IsTimed, connection_lost-IsTimed,
}

-- What fires under `t` leaves what is pending for another end.
pub fired :
    (c c' : Clock Expiry) (t j : ℕ) (x y : Expiry)
    → (c' ≡ c) ⊎ (c' ≡ Clock.clear c t)
    → pending c t ≡ some x
    → pending c j ≡ some y
    → x ≢ y
    → pending c' j ≡ some y
fired c c' t j x y (inl q) p g n = ap (λ z. pending z j) q ∙ g
fired c c' t j x y (inr q) p g n =
    ap (λ z. pending z j) q ∙ pending-clear_ne c t j y (apart c t j x y p g n) g

pub fired-IsFresh :
    (c c' : Clock Expiry) (t : ℕ) → (c' ≡ c) ⊎ (c' ≡ Clock.clear c t) → IsFresh c → IsFresh c'
fired-IsFresh c c' t (inl q) f = subst IsFresh (sym q) f
fired-IsFresh c c' t (inr q) f = subst IsFresh (sym q) (IsFresh-clear c t f)

pub expired_seat-IsTimed :
    (r : Room) (c : Clock Expiry) (t : ℕ) (s : String)
    → (c ≡ r.clock) ⊎ (c ≡ Clock.clear r.clock t)
    → pending r.clock t ≡ some (seat_expires s)
    → IsTimed none r
    → IsTimed none (seat_expired (record r { clock = c }) s)
unfolding seat_expired
expired_seat-IsTimed r c t s q p h =
    release-IsTimed (record r { clock = c; reconnect_timers = Dict.delete r.reconnect_timers s }) s
      false none none
      (record {
        held = λ s' x n e k.
            let (t', g) = h.held s' x (λ z. cc z) e k in
            (t', Dict.get-delete_ne r.reconnect_timers s s' (λ z. n (ap (λ y. some y) z)) ∙ g);
        seat_timed = λ s' t' e. elim (key_cases s s') [
          | inl z ↦ cc (z, e, Dict.get-delete_self r.reconnect_timers s)
          | inr n ↦
              fired r.clock c t t' _ _ q p
                (h.seat_timed s' t' (sym (Dict.get-delete_ne r.reconnect_timers s s' n) ∙ e))
                (seat_expires_ne s s' n)
        ];
        reservation_timed =
            λ id t' e. fired r.clock c t t' _ _ q p (h.reservation_timed id t' e) (λ z. cc z);
        fresh = fired-IsFresh r.clock c t q h.fresh;
      })

pub expired_reservation-IsTimed :
    (r : Room) (c : Clock Expiry) (t : ℕ) (id : String)
    → (c ≡ r.clock) ⊎ (c ≡ Clock.clear r.clock t)
    → pending r.clock t ≡ some (reservation_expires id)
    → IsTimed none r
    → IsTimed none (record r { clock = c; reservations = Dict.delete r.reservations id })
expired_reservation-IsTimed r c t id q p h = record {
  held = h.held;
  seat_timed = λ s t' e. fired r.clock c t t' _ _ q p (h.seat_timed s t' e) (λ z. cc z);
  reservation_timed = λ j t' e. elim (key_cases id j) [
    | inl z ↦ cc (z, e, Dict.get-delete_self r.reservations id)
    | inr n ↦
        fired r.clock c t t' _ _ q p
          (h.reservation_timed j t' (sym (Dict.get-delete_ne r.reservations id j n) ∙ e))
          (λ z. n (cc z))
  ];
  fresh = fired-IsFresh r.clock c t q h.fresh;
}

expired-IsTimed :
    (r : Room) (c : Clock Expiry) (t : ℕ) (x : Expiry)
    → (c ≡ r.clock) ⊎ (c ≡ Clock.clear r.clock t)
    → pending r.clock t ≡ some x
    → IsTimed none r
    → IsTimed none (expired (record r { clock = c }) x)
unfolding expired reservation_expired
expired-IsTimed r c t (seat_expires s) q p h = expired_seat-IsTimed r c t s q p h
expired-IsTimed r c t (reservation_expires id) q p h =
    check_empty-IsTimed none _ (expired_reservation-IsTimed r c t id q p h)

expire-IsTimed : (r : Room) (t : ℕ) → IsTimed none r → IsTimed none (expire r t)
unfolding expire
expire-IsTimed r t h = elim (Option-cases (Clock.fire r.clock t)) [
  | inl e ↦ rw (e, expire) h
  | inr ((x, c), e) ↦
      let (p, q) = fire_cases r.clock t x c e in rw (e, expire) (expired-IsTimed r c t x q p h)
]

take_reservation-IsTimed :
    (r : Room) (id : String) → IsTimed none r → IsTimed none (take_reservation r id)
unfolding take_reservation
take_reservation-IsTimed r id h = elim (Option-cases (Dict.get r.reservations id)) [
  | inl e ↦ rw (e, take_reservation) h
  | inr (t, e) ↦
      rw (e, take_reservation)
        (expired_reservation-IsTimed r (Clock.clear r.clock t) t id (inr refl)
          (h.reservation_timed id t e) h)
]

leave-IsTimed :
    (r : Room) (s : String) (consented : Bool)
    → IsTimed none r
    → IsTimed none (leave r s consented).0
unfolding leave
leave-IsTimed r s consented h = elim (Option-cases (client_of r s)) [
  | inl e ↦ rw (e, leave) h
  | inr (c, e) ↦ rw (e, leave) (release-IsTimed r s consented _ none (IsTimed-weaken (some s) r h))
]

dispose_round-IsTimed :
    (r : Room) (rest : List String) (code : ℕ) (ds : List Disposal)
    → IsTimed none r
    → IsTimed none (dispose_round r rest code ds)
unfolding dispose_round
dispose_round-IsTimed r [] code ds h =
    end_disposal-IsTimed none (record r { disposals = ds }) (Same-IsTimed none r _ (ground arith) h)
dispose_round-IsTimed r (s ∷ rest) code ds h =
    let r' : Room = record r { disposals = record { rest = rest; code = code } ∷ ds } in
    release-IsTimed r' s false (some code) none
      (IsTimed-weaken (some s) r' (Same-IsTimed none r r' (ground arith) h))

continue_disposal-IsTimed : (r : Room) → IsTimed none r → IsTimed none (continue_disposal r)
unfolding continue_disposal
continue_disposal-IsTimed r h = go r.disposals
  where
    go :
        (ds : List Disposal)
        → IsTimed none (elim ds [ [] ↦ r | d ∷ ds ↦ dispose_round r d.rest d.code ds ])
    go [] = h
    go (d ∷ ds) = dispose_round-IsTimed r d.rest d.code ds h

finish_disposal-Same : (r : Room) → Same r (finish_disposal r)
unfolding finish_disposal
finish_disposal-Same r = ground arith

resume-IsTimed :
    (r : Room) (token : String) (n : ℕ) (ref : Option ℕ)
    → IsTimed none r
    → IsTimed none (resume r token n ref)
unfolding resume reconnect
resume-IsTimed r token n ref h = elim (Option-cases (held_seat r token)) [
  | inl e ↦ rw (e, resume) h
  | inr (s, e) ↦
      rw (e, resume)
        (elim (Option-cases (client_of r s)) [
          | inl g ↦ rw (g, reconnect) h
          | inr (c, g) ↦ rw (g, reconnect) (reconnected-IsTimed r s c n ref h)
        ])
]

left_at-IsTimed : (r : Room) (n : ℕ) → IsTimed none r → IsTimed none (left_at r n)
unfolding left_at
left_at-IsTimed r n h = elim (Option-cases (get_elem? r.leaving n)) [
  | inl e ↦ rw (e, left_at) h
  | inr ((s, consented), e) ↦
      rw (e, left_at)
        (left-IsTimed (record r { leaving = remove_at r.leaving n }) s consented
          (Same-IsTimed none r _ (ground arith) h))
]

step-IsTimed : (r : Room) (c : Call) → IsTimed none r → IsTimed none (step r c)
unfolding step reserve claim
step-IsTimed r (seats s by conn ref) h = seat-IsTimed r s by conn ref false h
step-IsTimed r (claims id s n ref) h =
    seat-IsTimed (take_reservation r id) s by_reservation (some n) ref true
      (take_reservation-IsTimed r id h)
step-IsTimed r (reserves id ms) h =
    either_branch (λ (x : Room × Option Error). IsTimed none x.0) (has_free_seat r) _ _
      (hold-IsTimed r id ms h) h
step-IsTimed r (unseats s) h = unseat-IsTimed r s h
step-IsTimed r (runs_join s ran) h = run_join-IsTimed r s ran h
step-IsTimed r (issues s token) h = issue_token-IsTimed r s token h
step-IsTimed r (activates s) h = activate-IsTimed r s h
step-IsTimed r (resumes token n ref) h = resume-IsTimed r token n ref h
step-IsTimed r (reconnected_hook s) h = Same-IsTimed none r _ (ground arith) h
step-IsTimed r (loses s) h = connection_lost-IsTimed r s h
step-IsTimed r (leaves s consented) h = leave-IsTimed r s consented h
step-IsTimed r (kicks s code reason) h =
    release-IsTimed r s false (some code) reason (IsTimed-weaken (some s) r h)
step-IsTimed r (has_left n) h = left_at-IsTimed r n h
step-IsTimed r (expires t) h = expire-IsTimed r t h
step-IsTimed r disposes h = dispose-IsTimed r h
step-IsTimed r continues h = continue_disposal-IsTimed r h
step-IsTimed r finishes h = Same-IsTimed none r _ (finish_disposal-Same r) h
step-IsTimed r locks h = Same-IsTimed none r _ (ground arith) h
step-IsTimed r unlocks h = Same-IsTimed none r _ (ground arith) h
step-IsTimed r hides h = Same-IsTimed none r _ (ground arith) h
step-IsTimed r shows h = Same-IsTimed none r _ (ground arith) h

-- In a room whose held seats and reservations have their timers, they have them after every
-- sequence of calls: each is pending and will end just that seat or reservation.
pub run-IsTimed : (r : Room) (cs : List Call) → IsTimed none r → IsTimed none (run r cs)
unfolding run
run-IsTimed r [] h = h
run-IsTimed r (c ∷ cs) h = run-IsTimed (step r c) cs (step-IsTimed r c h)

check_empty_clients : (r : Room) → (check_empty r).clients ≡ r.clients
unfolding check_empty end_disposal
check_empty_clients r = ground arith

clear_seat_gone : (r : Room) (s : String) (c : Client) → client_of (clear_seat r s c) s ≡ none
unfolding clear_seat
clear_seat_gone r s c =
    Dict.get-delete_self (unbind (revoke_token (drop_timer r s) c) s c).clients s

-- After a release the seat is no more.
release_gone :
    (r : Room) (s : String) (consented : Bool) (code : Option ℕ) (reason : Option String)
    → client_of (release r s consented code reason) s ≡ none
unfolding release
release_gone r s consented code reason = elim (Option-cases (client_of r s)) [
  | inl e ↦ rw (e, release) e
  | inr (c, e) ↦
      let r₁ = send_leave r c code reason in
      let r₂ = clear_seat r₁ s c in
      let g = clear_seat_gone r₁ s c in
      rw (e, release)
        (either_branch (λ (x : Room). client_of x s ≡ none) (is_joining c.status) (check_empty r₂) _
          (ap (λ m. Dict.get m s) (check_empty_clients r₂) ∙ g) g)
]

-- A held seat has a pending timer, and when that fires the seat is released.
pub held_seat_expires :
    (r : Room) (s : String) (c : Client)
    → IsTimed none r
    → client_of r s ≡ some c
    → c.status ≡ reconnecting
    → (t : ℕ) × (Dict.get r.reconnect_timers s ≡ some t)
      × (pending r.clock t ≡ some (seat_expires s))
      × (client_of (expire r t) s ≡ none)
unfolding expire expired seat_expired
held_seat_expires r s c h e k =
    let (t, g) = h.held s c (λ q. cc q) e k in
    let p = h.seat_timed s t g in
    let (clock, f) = fire-pending r.clock t (seat_expires s) p in
    (t, g, p, rw (f, expire) (release_gone _ s false none none))
