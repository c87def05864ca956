-- ===== src/Room/Leaving.antt =====
-- The timers of held seats and reservations stay pending when seats are given and taken back, when
-- clients leave and when the room disposes of itself.
use bungohan.Base.{
  ℕ, String, ◌≡◌, refl, sym, ◌∙◌, ap, Bool, false, Option, none, some, List, [], ◌∷◌, either_branch,
  if◌then◌else◌, arith, Option-cases, Bool-cases, some_inj, inl, inr,
}
use bungohan.Base.Dict
use bungohan.Base.Dict.{Dict}
use bungohan.Base.Keys.{◌=?◌, string_keys, number_keys}
use bungohan.Room.{
  JoinedBy, Frame, client_left, seat_released, Client, Room, client_of, tell, is_some, Error,
  already_joined,
}
use bungohan.Room.Seats.{
  accepts_new_seat, undisposed, bind, unbind, queue_all, queued, deliver_all, update_pause,
  check_empty, left, begin_disposal, dispose,
}
use bungohan.Room.Joins.{admit, new_client, seat, unseat, run_join, was_kept_for}
use bungohan.Room.Timers.{
  IsTimed, Same, Same-IsTimed, IsTimed-weaken, unbind-Same, update_pause-Same, delete-IsTimed,
  put-IsTimed, end_disposal-IsTimed, check_empty-IsTimed, release-IsTimed,
}

pub queued_status :
    (b b' : Bool) (f : Frame) (x : Client)
    → (if b then x else if b' then queued f x else x).status ≡ x.status
queued_status b b' f x = ground arith

-- A frame that is queued holds nobody.
pub queue_all_held :
    (except : String) (f : Frame) (m : Dict String Client) (s : String) (c : Client)
    → Dict.get (queue_all except f m) s ≡ some c
    → (d : Client) × (Dict.get m s ≡ some d) × (d.status ≡ c.status)
unfolding queue_all Dict.get
queue_all_held except f [] s c e = cc e
queue_all_held except f ((j, x) ∷ m) s c e = elim (Bool-cases (j =? s)) [
  | inl y ↦ (
    x,
    rw y refl,
    sym (queued_status (j =? except) _ f x) ∙ ap (λ (z : Client). z.status) (some_inj (rw y at e)),
  )
  | inr n ↦ let (d, g, k) = queue_all_held except f m s c (rw n at e) in (d, rw n g, k)
]

pub deliver_all-IsTimed :
    (r : Room) (f : Frame) (except : String)
    → IsTimed none r
    → IsTimed none (deliver_all r f except)
unfolding deliver_all
deliver_all-IsTimed r f except h = record {
  held = λ s c n e k.
      let (d, g, q) = queue_all_held except f r.clients s c e in h.held s d n g (q ∙ k);
  seat_timed = h.seat_timed;
  reservation_timed = h.reservation_timed;
  fresh = h.fresh;
}

pub left-IsTimed :
    (r : Room) (s : String) (consented : Bool) → IsTimed none r → IsTimed none (left r s consented)
unfolding left
left-IsTimed r s consented h =
    let r₁ = deliver_all r (client_left s) s in
    let r₂ = tell r₁ (seat_released s consented) in
    let a : IsTimed none r₂ =
      Same-IsTimed none r₁ r₂ (ground arith) (deliver_all-IsTimed r (client_left s) s h) in
    check_empty-IsTimed none (update_pause r₂) (Same-IsTimed none r₂ _ (update_pause-Same r₂) a)

pub begin_disposal-IsTimed :
    (r : Room) (code : ℕ) (ss : List String)
    → IsTimed none r
    → IsTimed none (begin_disposal r code ss)
unfolding begin_disposal
begin_disposal-IsTimed r code [] h =
    Same-IsTimed none _ _ (ground arith) (end_disposal-IsTimed none r h)
begin_disposal-IsTimed r code (s ∷ rest) h =
    Same-IsTimed none _ _ (ground arith)
      (release-IsTimed r s false (some code) none (IsTimed-weaken (some s) r h))

pub dispose-IsTimed : (r : Room) → IsTimed none r → IsTimed none (dispose r)
unfolding dispose
dispose-IsTimed r h = either_branch (IsTimed none) r.disposing r _ h (
    begin_disposal-IsTimed (record r { running = false }) _ (Dict.keys r.clients)
      (Same-IsTimed none r _ (ground arith) h))

pub bind-Same :
    (r : Room) (s : String) (c : Client) (conn ref : Option ℕ) → Same r (bind r s c conn ref).0
unfolding bind
bind-Same r s c none ref = ground arith
bind-Same r s c (some n) ref = ground arith

pub bind_status :
    (r : Room) (s : String) (c : Client) (conn ref : Option ℕ)
    → (bind r s c conn ref).1.status ≡ c.status
unfolding bind
bind_status r s c none ref = refl
bind_status r s c (some n) ref = refl

pub admit-IsTimed :
    (r : Room) (s : String) (by : JoinedBy) (conn ref : Option ℕ)
    → IsTimed none r
    → IsTimed none (admit r s by conn ref)
unfolding admit
admit-IsTimed r s by conn ref h =
    let b = bind r s (new_client by) conn ref in
    put-IsTimed b.0 s b.1 (λ q. cc (sym (bind_status r s (new_client by) conn ref) ∙ q))
      (IsTimed-weaken (some s) b.0
        (Same-IsTimed none r b.0 (bind-Same r s (new_client by) conn ref) h))

pub seat-IsTimed :
    (r : Room) (s : String) (by : JoinedBy) (conn ref : Option ℕ) (reserved : Bool)
    → IsTimed none r
    → IsTimed none (seat r s by conn reserved ref).0
unfolding seat
seat-IsTimed r s by conn ref reserved h =
    elim (Option-cases (if reserved then undisposed r else accepts_new_seat r)) [
      | inr (e, q) ↦ rw (q, seat) h
      | inl q ↦
          rw (q, seat)
            (either_branch (λ (x : Room × Option Error). IsTimed none x.0) (is_some (client_of r s))
              (r, some already_joined) (admit r s by conn ref, none) h
              (admit-IsTimed r s by conn ref h))
    ]

pub unseat-IsTimed : (r : Room) (s : String) → IsTimed none r → IsTimed none (unseat r s)
unfolding unseat
unseat-IsTimed r s h = elim (Option-cases (client_of r s)) [
  | inl e ↦ rw (e, unseat) h
  | inr (c, e) ↦
      let r₁ : Room = record r { clients = Dict.delete r.clients s } in
      let a = delete-IsTimed r s (IsTimed-weaken (some s) r h) in
      let b = Same-IsTimed none r₁ (unbind r₁ s c) (unbind-Same r₁ s c) a in
      rw (e, unseat)
        (either_branch (IsTimed none) (was_kept_for c.joined_by) (check_empty (unbind r₁ s c))
          (unbind r₁ s c) (check_empty-IsTimed none (unbind r₁ s c) b) b)
]

pub run_join-IsTimed :
    (r : Room) (s : String) (ran : Bool) → IsTimed none r → IsTimed none (run_join r s ran).0
unfolding run_join
run_join-IsTimed r s ran h =
    either_branch (λ (x : Room × Option Error). IsTimed none x.0) ran _ _ h (unseat-IsTimed r s h)
