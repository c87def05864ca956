-- ===== src/Room/Capacity.antt =====
-- A room never seats or promises more places than it has.
use bungohan.Base.{
  ℕ, ◌≤◌, String, ◌≡◌, refl, Bool, false, Option, none, some, List, [], ◌∷◌, if◌then◌else◌, arith,
  Option-cases, Bool-cases, inl, inr,
}
use bungohan.Base.Dict
use bungohan.Base.Dict.{Dict}
use bungohan.Base.Keys.{string_keys, number_keys}
use bungohan.Base.Sizes.{size-delete}
use bungohan.Room.{
  Frame, seat_released, client_left, Client, Room, client_of, tell, server_shutdown,
  room_disposed_code, is_joining,
}
use bungohan.Room.Seats.{
  unbind, revoke_token, send_leave, queue_all, deliver_all, update_pause, end_disposal, check_empty,
  drop_timer, clear_seat, release, left, begin_disposal, dispose,
}

-- The room has no more seats and no more reservations than before, and as many places.
pub record Shrinks (r r' : Room) : Type 0 where
  pub fewer_clients : Dict.size r'.clients ≤ Dict.size r.clients
  pub fewer_held : Dict.size r'.reservations ≤ Dict.size r.reservations
  pub places : r'.max_clients ≡ r.max_clients

pub Shrinks-refl : (r : Room) → Shrinks r r
Shrinks-refl r = ground arith

pub Shrinks-trans : (r s t : Room) → Shrinks r s → Shrinks s t → Shrinks r t
Shrinks-trans r s t h k = ground arith

pub unbind-Shrinks : (r : Room) (s : String) (c : Client) → Shrinks r (unbind r s c)
unfolding unbind
unbind-Shrinks r s c = ground arith

pub revoke_token-Shrinks : (r : Room) (c : Client) → Shrinks r (revoke_token r c)
unfolding revoke_token
revoke_token-Shrinks r c = ground arith

pub drop_timer-Shrinks : (r : Room) (s : String) → Shrinks r (drop_timer r s)
drop_timer-Shrinks r s = ground arith

pub send_leave-Shrinks :
    (r : Room) (c : Client) (code : Option ℕ) (reason : Option String)
    → Shrinks r (send_leave r c code reason)
unfolding send_leave
send_leave-Shrinks r c none reason = ground arith
send_leave-Shrinks r c (some code) reason = ground arith

pub clear_seat-Shrinks : (r : Room) (s : String) (c : Client) → Shrinks r (clear_seat r s c)
unfolding clear_seat
clear_seat-Shrinks r s c =
    let r₁ = drop_timer r s in
    let r₂ = revoke_token r₁ c in
    let a = drop_timer-Shrinks r s in
    let b = revoke_token-Shrinks r₁ c in
    let d = unbind-Shrinks r₂ s c in ground (arith, size-delete (unbind r₂ s c).clients s)

pub end_disposal-Shrinks : (r : Room) → Shrinks r (end_disposal r)
unfolding end_disposal
end_disposal-Shrinks r = ground arith

pub check_empty-Shrinks : (r : Room) → Shrinks r (check_empty r)
unfolding check_empty
check_empty-Shrinks r = ground (arith, end_disposal-Shrinks (record r { running = false }))

pub update_pause-Shrinks : (r : Room) → Shrinks r (update_pause r)
unfolding update_pause
update_pause-Shrinks r = ground arith

size-queue_all :
    (except : String) (f : Frame) (m : Dict String Client)
    → Dict.size (queue_all except f m) ≡ Dict.size m
unfolding queue_all
size-queue_all except f [] = refl
size-queue_all except f ((s, c) ∷ m) = ground (arith, size-queue_all except f m)

pub deliver_all-Shrinks :
    (r : Room) (f : Frame) (except : String) → Shrinks r (deliver_all r f except)
unfolding deliver_all
deliver_all-Shrinks r f except = ground (arith, size-queue_all except f r.clients)

pub release-Shrinks :
    (r : Room) (s : String) (consented : Bool) (code : Option ℕ) (reason : Option String)
    → Shrinks r (release r s consented code reason)
unfolding release
release-Shrinks r s consented code reason = elim (Option-cases (client_of r s)) [
  | inl e ↦ rw (e, release) (Shrinks-refl r)
  | inr (c, e) ↦
      let r₁ = send_leave r c code reason in
      let r₂ = clear_seat r₁ s c in
      let a = send_leave-Shrinks r c code reason in
      let b = clear_seat-Shrinks r₁ s c in
      rw (e, release)
        (elim (Bool-cases (is_joining c.status)) [
          | inl y ↦ rw y (
              Shrinks-trans r r₂ (check_empty r₂) (Shrinks-trans r r₁ r₂ a b)
                (check_empty-Shrinks r₂))
          | inr n ↦ rw n (ground arith)
        ])
]

pub left-Shrinks : (r : Room) (s : String) (consented : Bool) → Shrinks r (left r s consented)
unfolding left
left-Shrinks r s consented =
    let r₁ = deliver_all r (client_left s) s in
    let r₂ = tell r₁ (seat_released s consented) in
    let r₃ = update_pause r₂ in
    let a = deliver_all-Shrinks r (client_left s) s in
    let b = update_pause-Shrinks r₂ in let d = check_empty-Shrinks r₃ in ground arith

begin_disposal-Shrinks :
    (r : Room) (code : ℕ) (ss : List String) → Shrinks r (begin_disposal r code ss)
unfolding begin_disposal
begin_disposal-Shrinks r code [] = let a = end_disposal-Shrinks r in ground arith
begin_disposal-Shrinks r code (s ∷ rest) =
    let a = release-Shrinks r s false (some code) none in ground arith

pub dispose-Shrinks : (r : Room) → Shrinks r (dispose r)
unfolding dispose
dispose-Shrinks r =
    let code = if r.shutting_down then server_shutdown else room_disposed_code in
    let a = begin_disposal-Shrinks (record r { running = false }) code (Dict.keys r.clients) in
    elim (Bool-cases r.disposing) [ inl y ↦ ground arith | inr n ↦ ground arith ]
