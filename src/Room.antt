-- ===== src/Room.antt =====
-- packages/core/src/room.ts: the state of a `Room` that its seats depend on. A seat is the `Client`
-- that a session id names; session ids are fresh, so the id stands for the object, and a client
-- that was released (status "left") is one that `clients` does not have. A `Connection` is a
-- number. What the room tells others (frames, hooks of the game, the host) is `events`, in order; a
-- hook that the room awaits goes on in a later call. The serializer encodes a session id, so no
-- frame is left out.
pub mod Seats
pub mod Joins
pub mod Calls
pub mod Capacity
pub mod Places
pub mod Bound
pub mod Timers
pub mod Leaving
pub mod Pending
pub mod Held
pub mod Disposals
mod Runs
use bungohan.Base.{
  ℕ, suc, ◌+◌, ◌*◌, String, Bool, true, false, Option, none, some, List, [], ◌∷◌, ◌++◌, leb, ◌&&◌,
  if◌then◌else◌,
}
use bungohan.Base.Dict
use bungohan.Base.Dict.{Dict}
use bungohan.Base.Keys.{string_keys, number_keys}
use bungohan.Clock.{Clock}

-- ClientStatus, but for "left".
pub data Status : Type 0 where
  joining joined reconnecting : Status

-- JoinedBy
pub data JoinedBy : Type 0 where
  by_reservation by_join by_create by_server : JoinedBy

-- The frames that a room sends for its seats.
pub data Frame : Type 0 where
  leave_frame : ℕ → Option String → Frame
  client_joined client_left : String → Frame

-- LeaveCode
abbrev pub consented_code : ℕ
consented_code = 1000

abbrev pub kicked : ℕ
kicked = 4000

abbrev pub server_shutdown : ℕ
server_shutdown = 4001

abbrev pub room_disposed_code : ℕ
room_disposed_code = 4002

pub data Error : Type 0 where
  room_not_found room_locked room_full already_joined join_failed client_not_found : Error

-- The closures that the room gives to the clock.
pub data Expiry : Type 0 where
  seat_expires reservation_expires : String → Expiry

pub data Event : Type 0 where
  sent : List ℕ → ℕ → Frame → Event
  on_disconnect on_reconnect : String → Event
  on_leave seat_released : String → Bool → Event
  on_pause on_resume on_dispose room_disposed : Event

pub record Client : Type 0 where
  pub joined_by : JoinedBy
  pub status : Status
  pub connection : Option ℕ
  pub room_ref : ℕ
  pub queue : Option (List (ℕ × Frame))
  pub synced : Bool
  pub token : Option String

pub record Connection : Type 0 where
  pub seats : Dict ℕ String
  pub next_room_ref : ℕ

-- The rounds that are left of a `_dispose`, and the code that its clients get.
pub record Disposal : Type 0 where
  pub rest : List String
  pub code : ℕ

pub record Room : Type 0 where
  pub clock : Clock Expiry
  pub max_clients : Option ℕ
  pub auto_dispose : Bool
  pub allow_reconnection : Bool
  pub reconnection_ms : ℕ
  pub is_public : Bool
  pub locked : Bool
  pub ready : Bool
  pub disposing : Bool
  pub disposed : Bool
  pub paused : Bool
  pub running : Bool
  pub shutting_down : Bool
  pub clients : Dict String Client
  pub reservations : Dict String ℕ
  pub tokens : Dict String String
  pub reconnect_timers : Dict String ℕ
  pub presence : Dict String ℕ
  pub connections : Dict ℕ Connection
  pub leaving : List (String × Bool)
  pub disposals : List Disposal
  pub ending : ℕ
  pub events : List Event

abbrev pub client_of : Room → String → Option Client
client_of r s = Dict.get r.clients s

abbrev pub put : Room → String → Client → Room
put r s c = record r { clients = Dict.set r.clients s c }

abbrev pub tell : Room → Event → Room
tell r e = record r { events = r.events ++ (e ∷ []) }

abbrev pub is_joining : Status → Bool
is_joining joining = true
is_joining joined = false
is_joining reconnecting = false

abbrev pub is_joined : Status → Bool
is_joined joining = false
is_joined joined = true
is_joined reconnecting = false

abbrev pub is_held : Status → Bool
is_held joining = false
is_held joined = false
is_held reconnecting = true

abbrev pub is_some {ℓ} : {A : Type ℓ} → Option A → Bool
is_some none = false
is_some (some a) = true

-- getSeatCount
abbrev pub seat_count : Room → ℕ
seat_count r = Dict.size r.clients + Dict.size r.reservations

-- `this.getSeatCount() >= this.maxClients`, which may be infinite.
abbrev pub is_full : Room → Bool
is_full r = elim r.max_clients [ none ↦ false | some m ↦ leb m (seat_count r) ]
