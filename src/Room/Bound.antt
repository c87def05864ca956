-- ===== src/Room/Bound.antt =====
-- The number of seats stays below the number of places, whatever happens to a room.
use bungohan.Base.{
  ℕ, suc, ◌≤◌, String, ◌≡◌, refl, sym, ◌∙◌, true, false, Option, some, List, [], ◌∷◌, arith,
  get_elem?, Option-cases, inl, inr,
}
use bungohan.Base.Dict
use bungohan.Base.Keys.{string_keys, number_keys}
use bungohan.Base.Sizes.{size-set, size-delete_old}
use bungohan.Clock
use bungohan.Room.{reservation_expires, JoinedBy, by_reservation, Room, seat_count, is_full}
use bungohan.Room.Seats.{accepts_new_seat, undisposed, has_free_seat, bind}
use bungohan.Room.Joins.{admit, new_client, seat, hold, take_reservation, held_seat}
use bungohan.Room.Calls.{
  reserve, claim, resume, remove_at, left_at, Call, seats, claims, reserves, unseats, runs_join,
  issues, activates, resumes, reconnected_hook, loses, leaves, kicks, has_left, expires, disposes,
  continues, finishes, locks, unlocks, hides, shows, step, run, IsKept, AllKept,
}
use bungohan.Room.Capacity.{Shrinks, Shrinks-refl, release-Shrinks, left-Shrinks, dispose-Shrinks}
use bungohan.Room.Places.{
  bind-Shrinks, unseat-Shrinks, run_join-Shrinks, issue_token-Shrinks, activate-Shrinks,
  reconnect-Shrinks, connection_lost-Shrinks, expire-Shrinks, leave-Shrinks,
  continue_disposal-Shrinks, finish_disposal-Shrinks,
}

-- The seats and the open reservations fit into the room.
abbrev pub IsWithin : Room → Type 0
IsWithin r = (m : ℕ) → r.max_clients ≡ some m → seat_count r ≤ m

Shrinks-IsWithin : (r r' : Room) → Shrinks r r' → IsWithin r → IsWithin r'
Shrinks-IsWithin r r' s h =
    λ m e. let k = h m (sym s.places ∙ e) in omega (arith, s.fewer_clients, s.fewer_held)

not_full : (r : Room) (m : ℕ) → is_full r ≡ false → r.max_clients ≡ some m → suc (seat_count r) ≤ m
not_full r m f e = ground arith

-- An admission takes one seat.
admit_count :
    (r : Room) (s : String) (by : JoinedBy) (conn ref : Option ℕ)
    → (seat_count (admit r s by conn ref) ≤ suc (seat_count r))
      × ((admit r s by conn ref).max_clients ≡ r.max_clients)
unfolding admit
admit_count r s by conn ref =
    let b = bind r s (new_client by) conn ref in
    let k = bind-Shrinks r s (new_client by) conn ref in
    let z = size-set b.0.clients s b.1 in (omega (arith, k.fewer_clients, k.fewer_held), k.places)

seat-IsWithin :
    (r : Room) (s : String) (by : JoinedBy) (conn ref : Option ℕ)
    → IsWithin r
    → IsWithin (seat r s by conn false ref).0
unfolding seat accepts_new_seat
seat-IsWithin r s by conn ref h =
    let a = admit_count r s by conn ref in λ m e. ground (arith, not_full r m, h m)

reserve-IsWithin : (r : Room) (id : String) (ms : ℕ) → IsWithin r → IsWithin (reserve r id ms).0
unfolding reserve has_free_seat hold
reserve-IsWithin r id ms h =
    let t = (Clock.set_timeout r.clock (reservation_expires id) ms).0 in
    λ m e. ground (arith, not_full r m, h m, size-set r.reservations id t)

-- A reservation that is taken leaves a place.
take_reservation_count :
    (r : Room) (id : String) (t : ℕ)
    → Dict.get r.reservations id ≡ some t
    → (suc (seat_count (take_reservation r id)) ≤ seat_count r)
      × ((take_reservation r id).max_clients ≡ r.max_clients)
unfolding take_reservation
take_reservation_count r id t e =
    rw (e, take_reservation) (omega (arith, size-delete_old r.reservations id t e), refl)

claim-IsWithin :
    (r : Room) (id s : String) (n : ℕ) (ref : Option ℕ)
    → Dict.has r.reservations id ≡ true
    → IsWithin r
    → IsWithin (claim r id s n ref).0
unfolding claim seat undisposed
claim-IsWithin r id s n ref k h = elim (Option-cases (Dict.get r.reservations id)) [
  | inl e ↦ cc (rw (e, Dict.has) at k)
  | inr (t, e) ↦
      let a = take_reservation_count r id t e in
      let b = admit_count (take_reservation r id) s by_reservation (some n) ref in
      λ m q. ground (arith, h m)
]

resume-Shrinks :
    (r : Room) (token : String) (n : ℕ) (ref : Option ℕ) → Shrinks r (resume r token n ref)
unfolding resume
resume-Shrinks r token n ref = elim (Option-cases (held_seat r token)) [
  | inl e ↦ rw (e, resume) (Shrinks-refl r)
  | inr (s, e) ↦ rw (e, resume) (reconnect-Shrinks r s n ref)
]

left_at-Shrinks : (r : Room) (n : ℕ) → Shrinks r (left_at r n)
unfolding left_at
left_at-Shrinks r n = elim (Option-cases (get_elem? r.leaving n)) [
  | inl e ↦ rw (e, left_at) (Shrinks-refl r)
  | inr ((s, consented), e) ↦
      rw (e, left_at)
        (let a = left-Shrinks (record r { leaving = remove_at r.leaving n }) s consented in
          ground arith)
]

step-IsWithin : (r : Room) (c : Call) → IsKept r c → IsWithin r → IsWithin (step r c)
unfolding step IsKept
step-IsWithin r (seats s by conn ref) k h = seat-IsWithin r s by conn ref h
step-IsWithin r (claims id s n ref) k h = claim-IsWithin r id s n ref k h
step-IsWithin r (reserves id ms) k h = reserve-IsWithin r id ms h
step-IsWithin r (unseats s) k h = Shrinks-IsWithin r _ (unseat-Shrinks r s) h
step-IsWithin r (runs_join s ran) k h = Shrinks-IsWithin r _ (run_join-Shrinks r s ran) h
step-IsWithin r (issues s token) k h = Shrinks-IsWithin r _ (issue_token-Shrinks r s token) h
step-IsWithin r (activates s) k h = Shrinks-IsWithin r _ (activate-Shrinks r s) h
step-IsWithin r (resumes token n ref) k h = Shrinks-IsWithin r _ (resume-Shrinks r token n ref) h
step-IsWithin r (reconnected_hook s) k h = h
step-IsWithin r (loses s) k h = Shrinks-IsWithin r _ (connection_lost-Shrinks r s) h
step-IsWithin r (leaves s consented) k h = Shrinks-IsWithin r _ (leave-Shrinks r s consented) h
step-IsWithin r (kicks s code reason) k h =
    Shrinks-IsWithin r _ (release-Shrinks r s false (some code) reason) h
step-IsWithin r (has_left n) k h = Shrinks-IsWithin r _ (left_at-Shrinks r n) h
step-IsWithin r (expires t) k h = Shrinks-IsWithin r _ (expire-Shrinks r t) h
step-IsWithin r disposes k h = Shrinks-IsWithin r _ (dispose-Shrinks r) h
step-IsWithin r continues k h = Shrinks-IsWithin r _ (continue_disposal-Shrinks r) h
step-IsWithin r finishes k h = Shrinks-IsWithin r _ (finish_disposal-Shrinks r) h
step-IsWithin r locks k h = h
step-IsWithin r unlocks k h = h
step-IsWithin r hides k h = h
step-IsWithin r shows k h = h

-- In a room whose seats and reservations fit into its places, they do after every sequence of
-- calls, if each client that comes with a reservation finds it held by the room.
pub run-IsWithin : (r : Room) (cs : List Call) → AllKept r cs → IsWithin r → IsWithin (run r cs)
unfolding run AllKept
run-IsWithin r [] k h = h
run-IsWithin r (c ∷ cs) (k, ks) h = run-IsWithin (step r c) cs ks (step-IsWithin r c k h)
