-- ===== src/Backplane.antt =====
-- packages/backplane/src: the backplane of one process, channels.ts (`Channels`) and memory.ts
-- (`MemoryBus`, `MemoryBackplane`). A callback is a number, by which a `Set` tells it apart; a call
-- of it is an entry of `calls`. The payload is a value `D`: the copies that the source makes of the
-- bytes are what makes it one. A microtask is an entry of `tasks`.
pub mod Broadcast
pub mod Listeners
mod Runs
use bungohan.Base.{
  ℕ, zero, suc, String, Bool, true, false, Option, none, some, List, [], ◌∷◌, ◌++◌, ◌==◌, map,
  if◌then◌else◌,
}
use bungohan.Base.Dict
use bungohan.Base.Dict.{Dict}
use bungohan.Base.Keys.{string_keys, number_keys}

abbrev pub Channels : Type 0
Channels = Dict String (List ℕ)

-- `set.add(callback)`: at the end, unless it is there.
pub insert : ℕ → List ℕ → List ℕ
insert c [] = c ∷ []
insert c (d ∷ ds) = let rest = insert c ds in if d == c then d ∷ ds else d ∷ rest

-- add; true if the channel is new.
pub add : Channels → String → ℕ → Channels × Bool
unfolding insert
add chs channel c = elim (Dict.get chs channel) [
  | some cs ↦ (Dict.set chs channel (insert c cs), false)
  | none ↦ (Dict.set chs channel (c ∷ []), true)
]

-- `callbacks?.delete(callback)`
pub without : ℕ → List ℕ → List ℕ
without c [] = []
without c (d ∷ ds) = let rest = without c ds in if d == c then rest else d ∷ rest

-- removeCallback: a channel without callbacks is no channel.
pub remove_callback : Channels → String → ℕ → Channels
unfolding without
remove_callback chs channel c = elim (Dict.get chs channel) [
  | none ↦ chs
  | some cs ↦ elim (without c cs) [
    | [] ↦ Dict.delete chs channel
    | d ∷ ds ↦ Dict.set chs channel (d ∷ ds)
  ]
]

-- The callbacks that `dispatch` calls, in order; one that throws does not keep the next from it.
pub called : Channels → String → List ℕ
called chs channel = elim (Dict.get chs channel) [ none ↦ [] | some cs ↦ cs ]

pub record MemoryBackplane : Type 0 where
  pub channels : Channels
  pub closed : Bool

pub record Task (D : Type 0) : Type 0 where
  pub member : ℕ
  pub channel : String
  pub bytes : D

pub record Delivery (D : Type 0) : Type 0 where
  pub to : ℕ
  pub callback : ℕ
  pub payload : D

-- The backplanes of a process, the bus with its members in the order in which they joined, the
-- microtasks that wait, and the calls of callbacks so far.
pub record Net (D : Type 0) : Type 0 where
  pub planes : Dict ℕ MemoryBackplane
  pub members : List ℕ
  pub tasks : List (Task D)
  pub calls : List (Delivery D)

module _ {D : Type 0} where
  abbrev pub plane_of : Net D → ℕ → MemoryBackplane
  plane_of net m = elim (Dict.get net.planes m) [
    | none ↦ record { channels = []; closed = true }
    | some p ↦ p
  ]

  -- The constructor, for a backplane of its own name: it joins the bus.
  pub join : Net D → ℕ → Net D
  join net m = record net {
    planes = Dict.set net.planes m (record { channels = []; closed = false });
    members = insert m net.members;
  }

  -- _deliver: a microtask is queued where the channel has callbacks.
  pub deliver : Dict ℕ MemoryBackplane → ℕ → String → D → List (Task D)
  deliver planes m channel d = elim (Dict.get planes m) [
    | none ↦ []
    | some p ↦
        if Dict.has p.channels channel
        then record { member = m; channel = channel; bytes = d } ∷ []
        else []
  ]

  -- _publish: the loop over the members.
  pub publish_to : Dict ℕ MemoryBackplane → List ℕ → String → D → List (Task D)
  unfolding deliver
  publish_to planes [] channel d = []
  publish_to planes (m ∷ ms) channel d =
      deliver planes m channel d ++ publish_to planes ms channel d

  -- publish; false is CONNECTION_FAILED.
  pub publish : Net D → ℕ → String → D → Net D × Bool
  publish net m channel d =
      if (plane_of net m).closed
      then (net, false)
      else (record net { tasks = net.tasks ++ publish_to net.planes net.members channel d }, true)

  -- subscribe
  pub subscribe : Net D → ℕ → String → ℕ → Net D × Bool
  subscribe net m channel c =
      let p = plane_of net m in
      if p.closed then (net, false) else (
        record net {
          planes = Dict.set net.planes m (record p { channels = (add p.channels channel c).0 });
        },
        true,
      )

  -- unsubscribe
  pub unsubscribe : Net D → ℕ → String → Net D
  unsubscribe net m channel =
      let p = plane_of net m in
      record net {
        planes = Dict.set net.planes m (record p { channels = Dict.delete p.channels channel });
      }

  -- close
  pub close : Net D → ℕ → Net D
  close net m = record net {
    planes = Dict.set net.planes m (record { channels = []; closed = true });
    members = without m net.members;
  }

  -- dispatch
  pub dispatch : Dict ℕ MemoryBackplane → Task D → List (Delivery D)
  unfolding called
  dispatch planes t = elim (Dict.get planes t.member) [
    | none ↦ []
    | some p ↦
        map (λ c. record { to = t.member; callback = c; payload = t.bytes })
          (called p.channels t.channel)
  ]

  -- The platform runs the first microtask.
  pub run_task : Net D → Net D
  run_task net = elim net.tasks [
    | [] ↦ net
    | t ∷ ts ↦ record net { tasks = ts; calls = net.calls ++ dispatch net.planes t }
  ]

  -- It runs so many of them.
  pub run_tasks : ℕ → Net D → Net D
  run_tasks zero net = net
  run_tasks (suc n) net = run_tasks n (run_task net)
