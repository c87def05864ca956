-- ===== src/Room/Seats.antt =====
-- How a seat is taken, held and released.
use bungohan.Base.{
  ℕ, suc, String, Bool, true, false, Option, none, some, List, [], ◌∷◌, ◌++◌, ltb, ◌==◌, ◌&&◌, ◌||◌,
  if◌then◌else◌,
}
use bungohan.Base.Dict
use bungohan.Base.Dict.{Dict}
use bungohan.Base.Keys.{◌=?◌, string_keys, number_keys}
use bungohan.Clock
use bungohan.Clock.{Clock}
use bungohan.Room.{
  Frame, leave_frame, client_left, server_shutdown, room_disposed_code, Error, room_not_found,
  room_locked, room_full, Expiry, Event, sent, on_leave, seat_released, on_pause, on_resume,
  on_dispose, Client, Connection, Room, client_of, put, tell, is_joining, is_joined, is_held,
  is_some, is_full,
}

-- _acceptsNewSeat; `none` is ok.
unfoldable pub accepts_new_seat : Room → Option Error
accepts_new_seat r =
    if r.disposing
    then some room_not_found
    else if r.locked
    then some room_locked
    else if is_full r
    then some room_full
    else none

-- _undisposed
unfoldable pub undisposed : Room → Option Error
undisposed r = if r.disposing then some room_not_found else none

-- _hasFreeSeat
unfoldable pub has_free_seat : Room → Bool
has_free_seat r =
    if r.disposing then false else if r.locked then false else if is_full r then false else true

-- isAvailable
pub is_available : Room → Bool
is_available r = r.is_public && has_free_seat r

abbrev connection_of : Room → ℕ → Connection
connection_of r n = elim (Dict.get r.connections n) [
  | none ↦ record { seats = []; next_room_ref = 1 }
  | some k ↦ k
]

-- `ref ?? connection._nextRoomRef++`
abbrev ref_of : Connection → Option ℕ → ℕ × Connection
ref_of k none = (k.next_room_ref, record k { next_room_ref = suc k.next_room_ref })
ref_of k (some ref) = (ref, k)

-- _bind, with the client as it is afterwards.
unfoldable pub bind : Room → String → Client → Option ℕ → Option ℕ → Room × Client
bind r s c none ref = (r, record c { connection = none })
bind r s c (some n) ref =
    let (ref', k) = ref_of (connection_of r n) ref in
    (
      record r {
        connections = Dict.set r.connections n (record k { seats = Dict.set k.seats ref' s });
      },
      record c { connection = some n; room_ref = ref' },
    )

-- _unbind: the connection forgets the seat, if it is the one under its handle.
unfoldable pub unbind : Room → String → Client → Room
unbind r s c = elim c.connection [
  | none ↦ r
  | some n ↦ elim (Dict.get (connection_of r n).seats c.room_ref) [
    | none ↦ r
    | some s' ↦
        let k = connection_of r n in
        if s' =? s
        then record r {
          connections =
              Dict.set r.connections n (record k { seats = Dict.delete k.seats c.room_ref });
        }
        else r
  ]
]

-- _revokeToken
unfoldable pub revoke_token : Room → Client → Room
revoke_token r c = elim c.token [
  | none ↦ r
  | some token ↦ record r { tokens = Dict.delete r.tokens token }
]

-- _send
pub send : Room → String → Client → Frame → Room
send r s c frame =
    if is_joining c.status
    then elim c.queue [
      | none ↦ r
      | some queue ↦ put r s (record c { queue = some (queue ++ ((c.room_ref, frame) ∷ [])) })
    ]
    else elim c.connection [ none ↦ r | some n ↦ tell r (sent (n ∷ []) c.room_ref frame) ]

-- The recipients of `_deliverAll`: the clients with a connection, but for one.
unfoldable pub recipients : String → Dict String Client → Dict String Client
recipients except [] = []
recipients except ((s, c) ∷ cs) =
    let rest = recipients except cs in
    if s =? except then rest else if is_some c.connection then (s, c) ∷ rest else rest

-- The keys of `byRef`: each handle once, in the order of the first client that has it.
unfoldable pub remove_ref : ℕ → List ℕ → List ℕ
remove_ref ref [] = []
remove_ref ref (j ∷ js) = let rest = remove_ref ref js in if j == ref then rest else j ∷ rest

unfoldable pub refs_of : Dict String Client → List ℕ
refs_of [] = []
refs_of ((s, c) ∷ cs) = c.room_ref ∷ remove_ref c.room_ref (refs_of cs)

-- The connections of a group, of which only the joined clients get the frame now.
unfoldable pub connections_of : ℕ → Dict String Client → List ℕ
connections_of ref [] = []
connections_of ref ((s, c) ∷ cs) =
    let rest = connections_of ref cs in
    if c.room_ref == ref && is_joined c.status
    then elim c.connection [ none ↦ rest | some n ↦ n ∷ rest ]
    else rest

unfoldable pub send_groups : Dict String Client → Frame → List ℕ → List Event
send_groups cs frame [] = []
send_groups cs frame (ref ∷ refs) =
    let rest = send_groups cs frame refs in
    elim (connections_of ref cs) [ [] ↦ rest | n ∷ ns ↦ sent (n ∷ ns) ref frame ∷ rest ]

-- A joining client keeps the frame in its queue.
abbrev pub queued : Frame → Client → Client
queued frame c = elim c.queue [
  | none ↦ c
  | some queue ↦ record c { queue = some (queue ++ ((c.room_ref, frame) ∷ [])) }
]

unfoldable pub queue_all : String → Frame → Dict String Client → Dict String Client
queue_all except frame [] = []
queue_all except frame ((s, c) ∷ cs) =
    (
      s,
      if s =? except
          then c
          else if is_some c.connection && is_joining c.status
          then queued frame c
          else c,
    )
    ∷ queue_all except frame cs

-- _deliverAll
unfoldable pub deliver_all : Room → Frame → String → Room
deliver_all r frame except =
    let to = recipients except r.clients in
    record r {
      clients = queue_all except frame r.clients;
      events = r.events ++ send_groups to frame (refs_of to);
    }

-- The counts of `_updatePause`: the seats on a connection, and the held ones.
unfoldable pub connected_count : Dict String Client → ℕ
connected_count [] = 0
connected_count ((s, c) ∷ cs) =
    let rest = connected_count cs in
    if is_held c.status then rest else if is_some c.connection then suc rest else rest

unfoldable pub held_count : Dict String Client → ℕ
held_count [] = 0
held_count ((s, c) ∷ cs) = let rest = held_count cs in if is_held c.status then suc rest else rest

-- _updatePause
unfoldable pub update_pause : Room → Room
update_pause r =
    if r.disposing || (if r.ready then false else true)
    then r
    else if r.paused
    then (if ltb 0 (connected_count r.clients)
        then tell (record r { paused = false; running = true }) on_resume
        else r)
    else if connected_count r.clients == 0 && ltb 0 (held_count r.clients)
    then tell (record r { paused = true; running = false }) on_pause
    else r

-- The loop over the reservations, by their ids.
unfoldable pub clear_all : Dict String ℕ → Clock Expiry → List String → Clock Expiry
clear_all held clock [] = clock
clear_all held clock (id ∷ ids) = elim (Dict.get held id) [
  | none ↦ clear_all held clock ids
  | some t ↦ clear_all held (Clock.clear clock t) ids
]

-- `_dispose` behind its loop, up to the end of which `onDispose` is awaited.
unfoldable pub end_disposal : Room → Room
end_disposal r =
    tell
      (record r {
        clock = clear_all r.reservations r.clock (Dict.keys r.reservations);
        reservations = [];
        ending = suc r.ending;
      })
      on_dispose

-- _checkEmpty: `dispose` is called only where there is no client, so its loop has no round.
unfoldable pub check_empty : Room → Room
check_empty r =
    if r.auto_dispose
      && (r.ready
          && ((if r.disposing then false else true)
              && (Dict.size r.clients == 0 && Dict.size r.reservations == 0)))
    then record (end_disposal (record r { running = false })) { disposing = true }
    else r

abbrev pub drop_timer : Room → String → Room
drop_timer r s = elim (Dict.get r.reconnect_timers s) [
  | none ↦ r
  | some t ↦ record r {
    clock = Clock.clear r.clock t;
    reconnect_timers = Dict.delete r.reconnect_timers s;
  }
]

-- `LEAVE(code)` to a client that is connected and not joining.
unfoldable pub send_leave : Room → Client → Option ℕ → Option String → Room
send_leave r c none reason = r
send_leave r c (some code) reason = elim c.connection [
  | none ↦ r
  | some n ↦
      if is_joining c.status then r else tell r (sent (n ∷ []) c.room_ref (leave_frame code reason))
]

-- What `_release` undoes: the timer, the token, the connection, the seat and its presence.
unfoldable pub clear_seat : Room → String → Client → Room
clear_seat r s c =
    let r' = unbind (revoke_token (drop_timer r s) c) s c in
    record r' { clients = Dict.delete r'.clients s; presence = Dict.delete r'.presence s }

-- _release, up to the end of which `onLeave` is awaited.
unfoldable pub release : Room → String → Bool → Option ℕ → Option String → Room
release r s consented code reason = elim (client_of r s) [
  | none ↦ r
  | some c ↦
      let r' = clear_seat (send_leave r c code reason) s c in
      if is_joining c.status
      then check_empty r'
      else tell (record r' { leaving = r'.leaving ++ ((s, consented) ∷ []) }) (on_leave s consented)
]

-- `_release` behind `onLeave`.
unfoldable pub left : Room → String → Bool → Room
left r s consented =
    check_empty (update_pause (tell (deliver_all r (client_left s) s) (seat_released s consented)))

-- `_dispose` up to its first await, over the clients' ids: `_disposing` is set when that is done.
unfoldable pub begin_disposal : Room → ℕ → List String → Room
begin_disposal r code [] = record (end_disposal r) { disposing = true }
begin_disposal r code (s ∷ rest) =
    let r' = release r s false (some code) none in
    record r' {
      disposing = true;
      disposals = r'.disposals ++ (record { rest = rest; code = code } ∷ []);
    }

-- dispose
unfoldable pub dispose : Room → Room
dispose r =
    if r.disposing
    then r
    else begin_disposal (record r { running = false })
        (if r.shutting_down then server_shutdown else room_disposed_code) (Dict.keys r.clients)
