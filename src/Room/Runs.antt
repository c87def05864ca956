-- ===== src/Room/Runs.antt =====
-- Runs of a room, and its theorems at concrete inputs.
use bungohan.Base.{ℕ, String, ◌≡◌, refl, true, false, none, some, List, [], ◌∷◌, arith}
use bungohan.Base.Dict
use bungohan.Base.Keys.{string_keys, number_keys}
use bungohan.Clock
use bungohan.Clock.{pending, IsFresh-init}
use bungohan.Room.{
  reconnecting, by_join, by_create, Client, Room, seat_expires, client_of, seat_count,
}
use bungohan.Room.Seats.{
  accepts_new_seat, undisposed, has_free_seat, bind, unbind, revoke_token, recipients, remove_ref,
  refs_of, connections_of, send_groups, queue_all, deliver_all, connected_count, held_count,
  update_pause, clear_all, end_disposal, check_empty, dispose,
}
use bungohan.Room.Joins.{
  admit, seat, issue_token, flush, activated, activate, holding, hold_seat, lost, connection_lost,
  hold, reservation_expired, take_reservation, expired, expire, continue_disposal,
}
use bungohan.Room.Calls.{
  reserve, claim, Call, seats, claims, reserves, issues, activates, loses, expires, step, run,
  IsKept, AllKept,
}
use bungohan.Room.Bound.{IsWithin, run-IsWithin}
use bungohan.Room.Timers.{IsTimed}
use bungohan.Room.Held.{run-IsTimed, held_seat_expires}
use bungohan.Room.Disposals.{just_joining, dispose_twice}

-- A ready room of so many places, whose seats are held for 30 seconds.
abbrev open_room : ℕ → Room
open_room places = record {
  clock = Clock.init;
  max_clients = some places;
  auto_dispose = true;
  allow_reconnection = true;
  reconnection_ms = 30_000;
  is_public = true;
  locked = false;
  ready = true;
  disposing = false;
  disposed = false;
  paused = false;
  running = true;
  shutting_down = false;
  clients = [];
  reservations = [];
  tokens = [];
  reconnect_timers = [];
  presence = [];
  connections = [];
  leaving = [];
  disposals = [];
  ending = 0;
  events = [];
}

open_room-IsTimed : (places : ℕ) → IsTimed none (open_room places)
unfolding Clock.init
open_room-IsTimed places = record {
  held = λ s c n e k. cc (e, Dict.get-empty {K = String} {V = Client} s);
  seat_timed = λ s t e. cc (e, Dict.get-empty {K = String} {V = ℕ} s);
  reservation_timed = λ id t e. cc (e, Dict.get-empty {K = String} {V = ℕ} id);
  fresh = IsFresh-init;
}

-- A seat is taken and joined, a second is promised and claimed, and a third join is refused.
abbrev busy : List Call
busy =
    seats "a" by_create (some 1) none
    ∷ issues "a" "room.t"
    ∷ activates "a"
    ∷ reserves "r" 60_000
    ∷ seats "b" by_join (some 2) none
    ∷ claims "r" "c" 3 none
    ∷ []

busy_seats : seat_count (run (open_room 2) busy) ≡ 2
unfolding run step seat accepts_new_seat admit bind issue_token revoke_token activate activated
    flush update_pause connected_count held_count deliver_all recipients refs_of remove_ref
    connections_of send_groups queue_all reserve has_free_seat hold claim take_reservation
    undisposed Clock.init Clock.set_timeout Clock.clear Dict.get Dict.set Dict.delete
busy_seats = refl

run-IsWithin_example : IsWithin (run (open_room 2) busy)
unfolding AllKept IsKept step seat accepts_new_seat admit bind issue_token revoke_token activate
    activated flush update_pause connected_count held_count deliver_all recipients refs_of
    remove_ref connections_of send_groups queue_all reserve has_free_seat hold claim
    take_reservation undisposed Clock.init Clock.set_timeout Clock.clear Dict.get Dict.set
    Dict.delete
run-IsWithin_example =
    run-IsWithin (open_room 2) busy (refl, (refl, (refl, (refl, (refl, (refl, refl))))))
      (λ m e. ground (arith, e))

-- The first seat loses its connection, and is held.
abbrev busy_and_lost : List Call
busy_and_lost =
    seats "a" by_create (some 1) none
    ∷ issues "a" "room.t"
    ∷ activates "a"
    ∷ loses "a"
    ∷ expires 1
    ∷ []

run-IsTimed_example : IsTimed none (run (open_room 2) (busy_and_lost))
run-IsTimed_example = run-IsTimed (open_room 2) busy_and_lost (open_room-IsTimed 2)

-- What becomes of the client.
abbrev held_client : Client
held_client = record {
  joined_by = by_join;
  status = reconnecting;
  connection = none;
  room_ref = 1;
  queue = none;
  synced = false;
  token = some "room.t";
}

abbrev losing : List Call
losing = seats "a" by_join (some 1) none ∷ issues "a" "room.t" ∷ activates "a" ∷ loses "a" ∷ []

held_seat_expires_example :
    (t : ℕ) × (Dict.get (run (open_room 2) losing).reconnect_timers "a" ≡ some t)
    × (pending (run (open_room 2) losing).clock t ≡ some (seat_expires "a"))
    × (client_of (expire (run (open_room 2) losing) t) "a" ≡ none)
unfolding run step seat accepts_new_seat admit bind issue_token revoke_token activate activated
    flush update_pause connected_count held_count deliver_all recipients refs_of remove_ref
    connections_of send_groups queue_all connection_lost lost unbind hold_seat holding Clock.init
    Clock.set_timeout Clock.clear Dict.get Dict.set Dict.delete
held_seat_expires_example =
    held_seat_expires (run (open_room 2) losing) "a" held_client
      (run-IsTimed (open_room 2) losing (open_room-IsTimed 2)) refl refl

dispose_twice_example :
    (dispose (just_joining (open_room 2) "a" held_client)).ending ≡ 1
    × (continue_disposal (dispose (just_joining (open_room 2) "a" held_client))).ending ≡ 2
dispose_twice_example = dispose_twice (open_room 2) "a" held_client

-- A client that comes with its reservation after the room's timer has fired, at the same reading
-- of the clock, is seated as the third in a room of two, beside the one that took the place.
overfull :
    seat_count (
      run (open_room 2) (
        seats "x" by_join (some 3) none
        ∷ reserves "r" 60_000
        ∷ expires 1
        ∷ seats "b" by_join (some 1) none
        ∷ claims "r" "a" 2 none
        ∷ []))
    ≡ 3
unfolding run step seat accepts_new_seat admit bind reserve has_free_seat hold claim
    take_reservation undisposed expire expired reservation_expired check_empty end_disposal
    clear_all Clock.init Clock.set_timeout Clock.clear Clock.fire Dict.get Dict.set Dict.delete
overfull = refl
