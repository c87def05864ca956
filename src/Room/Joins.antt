-- ===== src/Room/Joins.antt =====
-- Joins, reconnections and reservations.
use bungohan.Base.{
  ℕ, zero, suc, String, Bool, true, false, Option, none, some, List, [], ◌∷◌, ◌++◌, ltb, ◌&&◌,
  if◌then◌else◌,
}
use bungohan.Base.Dict
use bungohan.Base.Keys.{string_keys, number_keys}
use bungohan.Clock
use bungohan.Room.{
  joining, joined, reconnecting, JoinedBy, by_reservation, by_join, by_create, by_server, Frame,
  client_joined, consented_code, kicked, Error, already_joined, join_failed, client_not_found,
  Expiry, seat_expires, reservation_expires, sent, on_disconnect, room_disposed, Client, Disposal,
  Room, client_of, put, tell, is_joining, is_held, is_some,
}
use bungohan.Room.Seats.{
  accepts_new_seat, undisposed, bind, unbind, revoke_token, deliver_all, update_pause, end_disposal,
  check_empty, release,
}

abbrev pub new_client : JoinedBy → Client
new_client by = record {
  joined_by = by;
  status = joining;
  connection = none;
  room_ref = 0;
  queue = some [];
  synced = false;
  token = none;
}

-- The end of `_seat`.
unfoldable pub admit : Room → String → JoinedBy → Option ℕ → Option ℕ → Room
admit r s by conn ref = let (r', c) = bind r s (new_client by) conn ref in put r' s c

-- _seat
unfoldable pub seat : Room → String → JoinedBy → Option ℕ → Bool → Option ℕ → Room × Option Error
seat r s by conn reserved ref = elim (if reserved then undisposed r else accepts_new_seat r) [
  | some e ↦ (r, some e)
  | none ↦
      if is_some (client_of r s) then (r, some already_joined) else (admit r s by conn ref, none)
]

-- The joins that a room was there for.
abbrev pub was_kept_for : JoinedBy → Bool
was_kept_for by_reservation = true
was_kept_for by_join = false
was_kept_for by_create = true
was_kept_for by_server = false

-- _unseat
unfoldable pub unseat : Room → String → Room
unseat r s = elim (client_of r s) [
  | none ↦ r
  | some c ↦
      let r' = unbind (record r { clients = Dict.delete r.clients s }) s c in
      if was_kept_for c.joined_by then check_empty r' else r'
]

-- `_runJoin` behind `onJoin`, which ran or threw.
unfoldable pub run_join : Room → String → Bool → Room × Option Error
run_join r s ran =
    if ran
    then (
      r,
      elim (client_of r s) [
        | none ↦ some join_failed
        | some c ↦ if is_joining c.status then none else some join_failed
      ],
    )
    else (unseat r s, some join_failed)

-- _issueToken, with the id that `createId` made.
unfoldable pub issue_token : Room → String → String → Room × Option String
issue_token r s token = elim (client_of r s) [
  | none ↦ (r, none)
  | some c ↦
      let r' = revoke_token r c in
      if r.allow_reconnection && ltb 0 r.reconnection_ms
      then (
        record r' {
          clients = Dict.set r'.clients s (record c { token = some token });
          tokens = Dict.set r'.tokens token s;
        },
        some token,
      )
      else (put r' s (record c { token = none }), none)
]

-- The queued frames go out to the client, which is joined now.
unfoldable pub flush : Room → Option ℕ → List (ℕ × Frame) → Room
flush r conn [] = r
flush r none ((ref, frame) ∷ queue) = flush r none queue
flush r (some n) ((ref, frame) ∷ queue) = flush (tell r (sent (n ∷ []) ref frame)) (some n) queue

abbrev pub flush_all : Room → Option ℕ → Option (List (ℕ × Frame)) → Room
flush_all r conn none = r
flush_all r conn (some queue) = flush r conn queue

-- The body of `_activate`, for the client that is seated; `_updatePause` reads no queue.
unfoldable pub activated : Room → String → Client → Room
activated r s c =
    let r' = update_pause (put r s (record c { status = joined; queue = none })) in
    deliver_all (flush_all r' c.connection c.queue) (client_joined s) s

-- _activate
unfoldable pub activate : Room → String → Room
activate r s = elim (client_of r s) [
  | none ↦ r
  | some c ↦ if is_joining c.status then activated r s c else r
]

-- _heldSeat
pub held_seat : Room → String → Option String
held_seat r token = elim (Dict.get r.tokens token) [
  | none ↦ none
  | some s ↦ elim (client_of r s) [
    | none ↦ none
    | some c ↦ if is_held c.status then some s else none
  ]
]

abbrev pub clear_timer : Room → String → Room
clear_timer r s = elim (Dict.get r.reconnect_timers s) [
  | none ↦ r
  | some t ↦ record r {
    clock = Clock.clear r.clock t;
    reconnect_timers = Dict.delete r.reconnect_timers s;
  }
]

-- _reconnect, for the client that is seated.
unfoldable pub reconnected : Room → String → Client → ℕ → Option ℕ → Room
reconnected r s c n ref =
    let (r', c') = bind (clear_timer r s) s c (some n) ref in
    update_pause (put r' s (record c' { status = joined; synced = false }))

unfoldable pub reconnect : Room → String → ℕ → Option ℕ → Room
reconnect r s n ref = elim (client_of r s) [ none ↦ r | some c ↦ reconnected r s c n ref ]

-- What lets `_connectionLost` keep the seat.
abbrev pub may_hold : Room → Client → Bool
may_hold r c =
    r.allow_reconnection
    && (ltb 0 r.reconnection_ms
        && (is_some c.token
            && ((if r.shutting_down then false else true)
                && (if r.disposing then false else true))))

-- The seat is held, with a timer that will release it.
unfoldable pub holding : Room → String → Client → Room
holding r s c =
    let (t, clock) = Clock.set_timeout r.clock (seat_expires s) r.reconnection_ms in
    record r {
      clients =
          Dict.set r.clients s
            (record c { status = reconnecting; synced = false; connection = none });
      clock = clock;
      reconnect_timers = Dict.set r.reconnect_timers s t;
      events = r.events ++ (on_disconnect s ∷ []);
    }

unfoldable pub hold_seat : Room → String → Client → Room
hold_seat r s c = update_pause (holding r s c)

-- _connectionLost, for a client that is seated and not held.
unfoldable pub lost : Room → String → Client → Room
lost r s c =
    let r' = put (unbind r s c) s (record c { connection = none }) in
    if is_joining c.status
    then r'
    else if may_hold r c
    then hold_seat r' s c
    else release r' s false none none

unfoldable pub connection_lost : Room → String → Room
connection_lost r s = elim (client_of r s) [
  | none ↦ r
  | some c ↦ if is_held c.status then r else lost r s c
]

-- The callback of a held seat's timer.
unfoldable pub seat_expired : Room → String → Room
seat_expired r s =
    release (record r { reconnect_timers = Dict.delete r.reconnect_timers s }) s false none none

-- _hold
unfoldable pub hold : Room → String → ℕ → Room
hold r id ms =
    let (t, clock) = Clock.set_timeout r.clock (reservation_expires id) ms in
    record r { clock = clock; reservations = Dict.set r.reservations id t }

-- The callback of a reservation's timer.
unfoldable pub reservation_expired : Room → String → Room
reservation_expired r id = check_empty (record r { reservations = Dict.delete r.reservations id })

-- _takeReservation; the options that it returns are those of the call of `hold`.
unfoldable pub take_reservation : Room → String → Room
take_reservation r id = elim (Dict.get r.reservations id) [
  | none ↦ r
  | some t ↦ record r {
    clock = Clock.clear r.clock t;
    reservations = Dict.delete r.reservations id;
  }
]

-- A timer of the room fires.
unfoldable pub expired : Room → Expiry → Room
expired r (seat_expires s) = seat_expired r s
expired r (reservation_expires id) = reservation_expired r id

unfoldable pub expire : Room → ℕ → Room
expire r t = elim (Clock.fire r.clock t) [
  | none ↦ r
  | some (e, clock) ↦ expired (record r { clock = clock }) e
]

-- leave; the answer comes before `onLeave` has ended, as the model's calls do.
unfoldable pub leave : Room → String → Bool → Room × Option Error
leave r s consented = elim (client_of r s) [
  | none ↦ (r, some client_not_found)
  | some c ↦
      (release r s consented (some (if consented then consented_code else kicked)) none, none)
]

-- The next round of a `_dispose` whose release has ended, or what comes behind its loop.
unfoldable pub dispose_round : Room → List String → ℕ → List Disposal → Room
dispose_round r [] code ds = end_disposal (record r { disposals = ds })
dispose_round r (s ∷ rest) code ds =
    release (record r { disposals = record { rest = rest; code = code } ∷ ds }) s false (some code)
      none

unfoldable pub continue_disposal : Room → Room
continue_disposal r = elim r.disposals [ [] ↦ r | d ∷ ds ↦ dispose_round r d.rest d.code ds ]

-- `_dispose` behind `onDispose`.
unfoldable pub finish_disposal : Room → Room
finish_disposal r = elim r.ending [
  | zero ↦ r
  | suc n ↦ tell (record r { ending = n; presence = []; disposed = true }) room_disposed
]
