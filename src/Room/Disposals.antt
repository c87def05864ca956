-- ===== src/Room/Disposals.antt =====
-- What the disposal of a room does when its first seat is still joining.
use bungohan.Base.{
  ℕ, suc, String, ◌≡◌, refl, ap, ◌∙◌, true, false, Option, none, some, [], ◌∷◌, ◌++◌, arith,
  if◌then◌else◌,
}
use bungohan.Base.Dict
use bungohan.Base.Keys.{=?_iff, string_keys}
use bungohan.Room.{joining, Client, Room, client_of, server_shutdown, room_disposed_code}
use bungohan.Room.Seats.{
  unbind, revoke_token, send_leave, drop_timer, clear_seat, end_disposal, check_empty, release,
  begin_disposal, dispose,
}
use bungohan.Room.Joins.{dispose_round, continue_disposal}

-- A ready room that disposes of itself when it is empty, with one seat, which is joining, and no
-- reservation.
abbrev pub just_joining : Room → String → Client → Room
just_joining r s c = record r {
  clients = (s, record c { status = joining }) ∷ [];
  reservations = [];
  auto_dispose = true;
  ready = true;
  disposing = false;
  disposals = [];
}

-- What clearing a seat leaves of a room.
record Still (r r' : Room) : Type 0 where
  clients : r'.clients ≡ r.clients
  reservations : r'.reservations ≡ r.reservations
  auto_dispose : r'.auto_dispose ≡ r.auto_dispose
  ready : r'.ready ≡ r.ready
  disposing : r'.disposing ≡ r.disposing
  disposals : r'.disposals ≡ r.disposals
  ending : r'.ending ≡ r.ending

unbind-Still : (r : Room) (s : String) (c : Client) → Still r (unbind r s c)
unfolding unbind
unbind-Still r s c = ground arith

revoke_token-Still : (r : Room) (c : Client) → Still r (revoke_token r c)
unfolding revoke_token
revoke_token-Still r c = ground arith

drop_timer-Still : (r : Room) (s : String) → Still r (drop_timer r s)
drop_timer-Still r s = ground arith

-- A joining client is sent no `LEAVE`.
send_leave_joining :
    (r : Room) (c : Client) (code : ℕ) (reason : Option String)
    → send_leave r (record c { status = joining }) (some code) reason ≡ r
unfolding send_leave
send_leave_joining r c code reason = ground arith

delete_only : (s : String) (c : Client) → Dict.delete ((s, c) ∷ []) s ≡ []
unfolding Dict.delete
delete_only s c = ground (arith, =?_iff s s)

get_only : (s : String) (c : Client) → Dict.get ((s, c) ∷ []) s ≡ some c
unfolding Dict.get
get_only s c = ground (arith, =?_iff s s)

-- An empty room starts its `onDispose`.
check_empty_ending :
    (r : Room)
    → r.auto_dispose ≡ true
    → r.ready ≡ true
    → r.disposing ≡ false
    → r.clients ≡ []
    → r.reservations ≡ []
    → ((check_empty r).ending ≡ suc r.ending) × ((check_empty r).disposals ≡ r.disposals)
unfolding check_empty end_disposal
check_empty_ending r a b d e f = ground arith

-- The release of the joining client, in the middle of `dispose`, disposes of the empty room.
release_ending :
    (r : Room) (s : String) (c : Client) (code : ℕ)
    → r.clients ≡ (s, record c { status = joining }) ∷ []
    → r.auto_dispose ≡ true
    → r.ready ≡ true
    → r.disposing ≡ false
    → r.reservations ≡ []
    → ((release r s false (some code) none).ending ≡ suc r.ending)
      × ((release r s false (some code) none).disposals ≡ r.disposals)
unfolding release
release_ending r s c code e a b d f =
    let c' : Client = record c { status = joining } in
    let g : client_of r s ≡ some c' = ap (λ m. Dict.get m s) e ∙ get_only s c' in
    let r₁ = revoke_token (drop_timer r s) c' in
    let r₂ = unbind r₁ s c' in
    let h = drop_timer-Still r s in
    let i = revoke_token-Still (drop_timer r s) c' in
    let j = unbind-Still r₁ s c' in
    let none_left : (clear_seat r s c').clients ≡ [] =
      unfold clear_seat in
      ap (λ m. Dict.delete m s) (j.clients ∙ i.clients ∙ h.clients ∙ e) ∙ delete_only s c' in
    let k =
      check_empty_ending (clear_seat r s c')
        (unfold clear_seat in j.auto_dispose ∙ i.auto_dispose ∙ h.auto_dispose ∙ a)
        (unfold clear_seat in j.ready ∙ i.ready ∙ h.ready ∙ b)
        (unfold clear_seat in j.disposing ∙ i.disposing ∙ h.disposing ∙ d) none_left
        (unfold clear_seat in j.reservations ∙ i.reservations ∙ h.reservations ∙ f) in
    rw (g, release)
      (rw (send_leave_joining r c code none) (
        k.0 ∙ ap (λ n. suc n) (unfold clear_seat in j.ending ∙ i.ending ∙ h.ending),
        k.1 ∙ (unfold clear_seat in j.disposals ∙ i.disposals ∙ h.disposals),
      ))

-- A disposal with no round left starts `onDispose`.
continue_ending :
    (r : Room) (code : ℕ)
    → r.disposals ≡ record { rest = []; code = code } ∷ []
    → (continue_disposal r).ending ≡ suc r.ending
unfolding continue_disposal dispose_round end_disposal
continue_ending r code e = ground (arith, e)

-- `dispose` of such a room starts `onDispose`, and goes on to start it a second time.
pub dispose_twice :
    (r : Room) (s : String) (c : Client)
    → (dispose (just_joining r s c)).ending ≡ suc r.ending
      × (continue_disposal (dispose (just_joining r s c))).ending ≡ suc (suc r.ending)
unfolding dispose begin_disposal
dispose_twice r s c =
    let r' : Room = record (just_joining r s c) { running = false } in
    let code = if r.shutting_down then server_shutdown else room_disposed_code in
    let k = release_ending r' s c code refl refl refl refl refl in
    (
      k.0,
      continue_ending _ code (ap (λ ds. ds ++ (record { rest = []; code = code } ∷ [])) k.1)
          ∙ ap (λ n. suc n) k.0,
    )
