-- ===== src/Cluster/Registry.antt =====
-- packages/core/src/cluster/registry.ts: `PeerRegistry`. The clock's reading is an argument of the
-- methods that take it. The options' callbacks (`onFound`, `onLost`, `beat`) are entries of
-- `events`, in the order of the calls. A peer's metadata is a value of `M`, `{}` is `no_meta`.
pub mod Liveness
pub mod Events
mod Runs
use bungohan.Base.{
  ℕ, zero, ◌+◌, ◌-◌, ◌≤◌, String, Bool, true, false, Option, none, some, List, [], ◌∷◌, ◌++◌, leb,
  if◌then◌else◌,
}
use bungohan.Base.Dict
use bungohan.Base.Dict.{Dict}
use bungohan.Base.Keys.{◌=?◌, string_keys}
use bungohan.Clock
use bungohan.Clock.{Clock}

pub record Peer (M : Type 0) : Type 0 where
  pub id : String
  pub room_count : ℕ
  pub client_count : ℕ
  pub draining : Bool
  pub metadata : M
  pub last_seen_at : ℕ

-- What a heartbeat says about its process.
pub record PeerBeat (M : Type 0) : Type 0 where
  pub rooms : ℕ
  pub clients : ℕ
  pub draining : Bool
  pub meta : M

pub data Event : Type 0 where
  found lost : String → Event
  beat : Event

-- The callback of the registry's interval.
pub data Tick : Type 0 where
  tick : Tick

pub record PeerRegistry (M : Type 0) : Type 0 where
  pub clock : Clock Tick
  pub heartbeat_interval : ℕ
  pub peer_timeout : ℕ
  pub no_meta : M
  pub peers : Dict String (Peer M)
  pub timer : Option ℕ
  pub events : List Event

module _ {M : Type 0} where
  abbrev pub peer_of : PeerRegistry M → String → Option (Peer M)
  peer_of r id = Dict.get r.peers id

  -- start
  pub start : PeerRegistry M → PeerRegistry M
  start r = elim r.timer [
    | some t ↦ r
    | none ↦
        let (timer, clock) = Clock.set_interval r.clock tick r.heartbeat_interval in
        record r { clock = clock; timer = some timer }
  ]

  -- stop
  pub stop : PeerRegistry M → PeerRegistry M
  stop r = elim r.timer [
    | none ↦ r
    | some t ↦ record r { clock = Clock.clear r.clock t; timer = none; peers = [] }
  ]

  -- The object of a peer that was not known.
  pub new_peer : PeerRegistry M → ℕ → String → Option (PeerBeat M) → Peer M
  new_peer r now id none = record {
    id = id;
    room_count = 0;
    client_count = 0;
    draining = false;
    metadata = r.no_meta;
    last_seen_at = now;
  }
  new_peer r now id (some b) = record {
    id = id;
    room_count = b.rooms;
    client_count = b.clients;
    draining = b.draining;
    metadata = b.meta;
    last_seen_at = now;
  }

  -- The fields that are written on a known peer.
  pub refreshed : ℕ → Peer M → Option (PeerBeat M) → Peer M
  refreshed now p none = record p { last_seen_at = now }
  refreshed now p (some b) = record p {
    last_seen_at = now;
    room_count = b.rooms;
    client_count = b.clients;
    draining = b.draining;
    metadata = b.meta;
  }

  -- seen
  pub seen : PeerRegistry M → ℕ → String → Option (PeerBeat M) → PeerRegistry M
  seen r now id b = elim (peer_of r id) [
    | none ↦ record r {
      peers = Dict.set r.peers id (new_peer r now id b);
      events = r.events ++ (found id ∷ []);
    }
    | some p ↦ record r { peers = Dict.set r.peers id (refreshed now p b) }
  ]

  -- gone
  pub gone : PeerRegistry M → String → PeerRegistry M
  gone r id =
      if Dict.has r.peers id
      then record r { peers = Dict.delete r.peers id; events = r.events ++ (lost id ∷ []) }
      else r

  -- `peer.lastSeenAt <= now() - peerTimeout`; the difference may be negative in the source.
  pub is_silent : PeerRegistry M → ℕ → Peer M → Bool
  is_silent r now p = leb (p.last_seen_at + r.peer_timeout) now

  -- The loop of `sweep` over the copy of the peers: a round deletes no other peer, so the object
  -- of a peer is what the map holds under its key.
  pub sweep_all : PeerRegistry M → ℕ → List String → PeerRegistry M
  sweep_all r now [] = r
  sweep_all r now (id ∷ ids) = elim (peer_of r id) [
    | none ↦ sweep_all r now ids
    | some p ↦ sweep_all (if is_silent r now p then gone r p.id else r) now ids
  ]

  -- sweep
  pub sweep : PeerRegistry M → ℕ → PeerRegistry M
  sweep r now = sweep_all r now (Dict.keys r.peers)

  -- What the interval runs.
  pub on_tick : PeerRegistry M → ℕ → PeerRegistry M
  on_tick r now = sweep (record r { events = r.events ++ (beat ∷ []) }) now

  -- constructor
  pub init : ℕ → ℕ → M → PeerRegistry M
  init interval timeout no_meta = record {
    clock = Clock.init;
    heartbeat_interval = interval;
    peer_timeout = timeout;
    no_meta = no_meta;
    peers = [];
    timer = none;
    events = [];
  }

-- What happens to a registry between its construction and a `stop`, with the clock's reading.
pub data Call (M : Type 0) : Type 0 where
  start_it : Call M
  hear : ℕ → String → Option (PeerBeat M) → Call M
  lose : String → Call M
  fire : ℕ → Call M

module _ {M : Type 0} where
  pub call : PeerRegistry M → Call M → PeerRegistry M
  call r start_it = start r
  call r (hear now id b) = seen r now id b
  call r (lose id) = gone r id
  call r (fire now) = on_tick r now

  pub calls : PeerRegistry M → List (Call M) → PeerRegistry M
  calls r [] = r
  calls r (c ∷ cs) = calls (call r c) cs
