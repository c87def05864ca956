-- ===== src/Room/Calls.antt =====
-- What happens to a room: calls of its methods by the server, the matchmaker and the game, timers
-- that fire, and awaited hooks that end. They come in any order.
use bungohan.Base.{
  ℕ, zero, suc, String, Bool, true, false, Option, none, some, List, [], ◌∷◌, ◌≡◌, if◌then◌else◌,
  get_elem?,
}
use bungohan.Base.Dict
use bungohan.Base.Keys.{string_keys}
use bungohan.Room.{JoinedBy, by_reservation, Error, on_reconnect, Room, tell, room_full}
use bungohan.Room.Seats.{has_free_seat, release, left, dispose}
use bungohan.Room.Joins.{
  seat, unseat, run_join, issue_token, activate, held_seat, reconnect, connection_lost, hold,
  take_reservation, expire, leave, continue_disposal, finish_disposal,
}

-- `_reserveIn` of the matchmaker: a seat is held where one is free.
unfoldable pub reserve : Room → String → ℕ → Room × Option Error
reserve r id ms = if has_free_seat r then (hold r id ms, none) else (r, some room_full)

-- `_joinReservation` of the server: the reservation is taken, and the seat with it, in one go.
unfoldable pub claim : Room → String → String → ℕ → Option ℕ → Room × Option Error
claim r id s n ref = seat (take_reservation r id) s by_reservation (some n) true ref

-- `_reconnect` of the server, by the seat's token.
unfoldable pub resume : Room → String → ℕ → Option ℕ → Room
resume r token n ref = elim (held_seat r token) [ none ↦ r | some s ↦ reconnect r s n ref ]

-- A list without its entry at a place.
pub remove_at {ℓ} : {A : Type ℓ} → List A → ℕ → List A
remove_at [] n = []
remove_at (a ∷ as') zero = as'
remove_at (a ∷ as') (suc n) = a ∷ remove_at as' n

-- The `onLeave` of one of the seats that are leaving ends.
unfoldable pub left_at : Room → ℕ → Room
left_at r n = elim (get_elem? r.leaving n) [
  | none ↦ r
  | some (s, consented) ↦ left (record r { leaving = remove_at r.leaving n }) s consented
]

pub data Call : Type 0 where
  seats : String → JoinedBy → Option ℕ → Option ℕ → Call
  claims : String → String → ℕ → Option ℕ → Call
  reserves : String → ℕ → Call
  unseats : String → Call
  runs_join : String → Bool → Call
  issues : String → String → Call
  activates : String → Call
  resumes : String → ℕ → Option ℕ → Call
  reconnected_hook : String → Call
  loses : String → Call
  leaves : String → Bool → Call
  kicks : String → ℕ → Option String → Call
  has_left : ℕ → Call
  expires : ℕ → Call
  disposes continues finishes : Call
  locks unlocks hides shows : Call

unfoldable pub step : Room → Call → Room
step r (seats s by conn ref) = (seat r s by conn false ref).0
step r (claims id s n ref) = (claim r id s n ref).0
step r (reserves id ms) = (reserve r id ms).0
step r (unseats s) = unseat r s
step r (runs_join s ran) = (run_join r s ran).0
step r (issues s token) = (issue_token r s token).0
step r (activates s) = activate r s
step r (resumes token n ref) = resume r token n ref
step r (reconnected_hook s) = tell r (on_reconnect s)
step r (loses s) = connection_lost r s
step r (leaves s consented) = (leave r s consented).0
step r (kicks s code reason) = release r s false (some code) reason
step r (has_left n) = left_at r n
step r (expires t) = expire r t
step r disposes = dispose r
step r continues = continue_disposal r
step r finishes = finish_disposal r
step r locks = record r { locked = true }
step r unlocks = record r { locked = false }
step r hides = record r { is_public = false }
step r shows = record r { is_public = true }

unfoldable pub run : Room → List Call → Room
run r [] = r
run r (c ∷ cs) = run (step r c) cs

-- A client that comes with a reservation finds it held by the room.
unfoldable pub IsKept : Room → Call → Type 0
IsKept r (claims id s n ref) = Dict.has r.reservations id ≡ true
IsKept r c = r ≡ r

unfoldable pub AllKept : Room → List Call → Type 0
AllKept r [] = r ≡ r
AllKept r (c ∷ cs) = IsKept r c × AllKept (step r c) cs
