-- ===== src/Cluster/Registry/Runs.antt =====
-- Runs of the registry of peers, and its theorems at concrete inputs.
use bungohan.Base.{ℕ, ◌+◌, ◌≤◌, ◌<◌, ◌≡◌, refl, String, false, none, some, List, [], ◌∷◌, arith}
use bungohan.Base.Dict
use bungohan.Base.Keys.{=?_iff, string_keys}
use bungohan.Clock
use bungohan.Cluster.Registry.{
  Peer, found, lost, beat, PeerRegistry, peer_of, seen, gone, is_silent, refreshed, new_peer, sweep,
  sweep_all, Call, hear, lose, fire, on_tick, call, calls, init, start, start_it,
}
use bungohan.Cluster.Registry.Liveness.{IsKeyed, remaining, sweep_deadline, sweep_peer}
use bungohan.Cluster.Registry.Events.{IsBalanced, reported_once}

-- A heartbeat is due every 100 ms, and a peer may be silent for 300 ms.
abbrev known : PeerRegistry ℕ
known = record (init 100 300 0) {
  peers = Dict.set {K = String} [] "a" (record {
    id = "a";
    room_count = 2;
    client_count = 3;
    draining = false;
    metadata = 7;
    last_seen_at = 1000;
  });
  events = found "a" ∷ [];
}

known_peer : Peer ℕ
known_peer = record {
  id = "a";
  room_count = 2;
  client_count = 3;
  draining = false;
  metadata = 7;
  last_seen_at = 1000;
}

known-IsKeyed : IsKeyed known
unfolding known_peer init
known-IsKeyed = record {
  own_id = λ id p e. ground (
    arith,
    Dict.get-set {K = String} [] "a" known_peer id,
    Dict.get-empty {K = String} {V = Peer ℕ} id,
    =?_iff "a" id,
    e,
  );
}

sweep_deadline_example :
    (1299 < 1000 + 300 → peer_of (sweep known 1299) "a" ≡ some known_peer)
    × (1000 + 300 ≤ 1299 → peer_of (sweep known 1299) "a" ≡ none)
unfolding known_peer init Dict.get Dict.set
sweep_deadline_example = sweep_deadline known 1299 "a" known_peer known-IsKeyed refl

sweep_peer_example : peer_of (sweep known 1300) "a" ≡ remaining known 1300 (peer_of known "a")
sweep_peer_example = sweep_peer known 1300 "a" known-IsKeyed

abbrev script : List (Call ℕ)
script =
    start_it
    ∷ hear 1000 "a" none
    ∷ hear 1100 "b" none
    ∷ fire 1100
    ∷ hear 1200 "a" none
    ∷ fire 1400
    ∷ lose "a"
    ∷ []

registry_run :
    (calls (init 100 300 0) script).events
    ≡ found "a" ∷ found "b" ∷ beat ∷ beat ∷ lost "b" ∷ lost "a" ∷ []
unfolding init calls call start seen gone on_tick sweep sweep_all is_silent refreshed new_peer
    Dict.get Dict.set Dict.delete Clock.init Clock.set_interval
registry_run = refl

reported_once_example : IsBalanced (calls (init 100 300 0) script) "b"
reported_once_example = reported_once 100 300 0 script "b"
