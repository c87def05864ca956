-- ===== src/Cluster/Locks.antt =====
-- packages/core/src/cluster/locks.ts: `LockTable`. A method returns the new table; the promises
-- that it resolves (`grant`) are appended to `granted`. A `Pool` object is only reached through
-- the map, so a mutation of it is a `Dict.set`. A lease's timer calls `release(pool, id)`, which
-- `Expiry` records.
pub mod Invariant
pub mod Steps
pub mod Order
pub mod Loss
mod Runs
use bungohan.Base.{
  ℕ, String, Bool, true, false, Option, none, some, List, [], ◌∷◌, ◌++◌, if◌then◌else◌, not,
}
use bungohan.Base.Dict
use bungohan.Base.Dict.{Dict}
use bungohan.Base.Keys.{◌=?◌, string_keys}
use bungohan.Clock
use bungohan.Clock.{Clock}

pub record Expiry : Type 0 where
  pub pool : String
  pub id : String

pub record Lease : Type 0 where
  pub process : String
  pub id : String
  pub expiry : ℕ

pub record Waiter : Type 0 where
  pub process : String
  pub id : String

pub record Pool : Type 0 where
  pub holder : Option Lease
  pub queue : List Waiter

-- A call of a waiter's `grant`.
pub record Grant : Type 0 where
  pub pool : String
  pub process : String
  pub id : String

pub record LockTable : Type 0 where
  pub clock : Clock Expiry
  pub lease_ms : ℕ
  pub pools : Dict String Pool
  pub granted : List Grant

abbrev pub entry_of : LockTable → String → Option Pool
entry_of t pool = Dict.get t.pools pool

abbrev pub put : LockTable → String → Pool → LockTable
put t pool entry = record t { pools = Dict.set t.pools pool entry }

-- _forgetIfIdle
pub forget_if_idle : LockTable → String → Pool → LockTable
forget_if_idle t pool entry = elim entry.holder [
  | some h ↦ t
  | none ↦ elim entry.queue [ [] ↦ record t { pools = Dict.delete t.pools pool } | w ∷ ws ↦ t ]
]

-- The end of `_next`: the first waiter gets a lease with a timer, and its promise resolves.
pub lease_to : LockTable → String → Waiter → List Waiter → LockTable
lease_to t pool w queue =
    let (expiry, clock) =
      Clock.set_timeout t.clock (record { pool = pool; id = w.id }) t.lease_ms in
    let holder : Lease = record { process = w.process; id = w.id; expiry = expiry } in
    let entry : Pool = record { holder = some holder; queue = queue } in
    record t {
      clock = clock;
      pools = Dict.set t.pools pool entry;
      granted = t.granted ++ (record { pool = pool; process = w.process; id = w.id } ∷ []);
    }

-- _next
pub next : LockTable → String → Pool → LockTable
unfolding forget_if_idle
next t pool entry = elim entry.holder [
  | some h ↦ t
  | none ↦ elim entry.queue [
    | [] ↦ forget_if_idle t pool entry
    | w ∷ queue ↦ lease_to t pool w queue
  ]
]

abbrev pub entry_or_new : Option Pool → Pool
entry_or_new none = record { holder = none; queue = [] }
entry_or_new (some entry) = entry

-- acquire
pub acquire : LockTable → String → String → String → LockTable
acquire t pool process id =
    let old = entry_or_new (entry_of t pool) in
    let entry = record old { queue = old.queue ++ (record { process = process; id = id } ∷ []) } in
    next (put t pool entry) pool entry

-- `findIndex` by id, then `splice`: the first waiter with the id leaves the queue.
pub remove_waiter : String → List Waiter → List Waiter
remove_waiter id [] = []
remove_waiter id (w ∷ queue) =
    let rest = remove_waiter id queue in if w.id =? id then queue else w ∷ rest

pub holds : Pool → String → Option Lease
holds entry id = elim entry.holder [ none ↦ none | some h ↦ if h.id =? id then some h else none ]

-- The two ends of `release`: of the holder, and of a request that was given up.
pub release_holder : LockTable → String → Pool → Lease → LockTable
release_holder t pool entry h =
    let entry' = record entry { holder = none } in
    next (put (record t { clock = Clock.clear t.clock h.expiry }) pool entry') pool entry'

pub give_up : LockTable → String → Pool → String → LockTable
unfolding remove_waiter
give_up t pool entry id =
    let entry' = record entry { queue = remove_waiter id entry.queue } in
    forget_if_idle (put t pool entry') pool entry'

-- release
pub release : LockTable → String → String → LockTable
unfolding holds
release t pool id = elim (entry_of t pool) [
  | none ↦ t
  | some entry ↦ elim (holds entry id) [
    | some h ↦ release_holder t pool entry h
    | none ↦ give_up t pool entry id
  ]
]

-- The loop over the queue in `processLost`, from its end: the waiters of the process leave.
pub without_process : String → List Waiter → List Waiter
without_process process [] = []
without_process process (w ∷ queue) =
    let rest = without_process process queue in if w.process =? process then rest else w ∷ rest

pub held_by : Pool → String → Option Lease
held_by entry process = elim entry.holder [
  | none ↦ none
  | some h ↦ if h.process =? process then some h else none
]

-- One round of the loop in `processLost`.
pub lose_in : LockTable → String → String → Pool → LockTable
unfolding without_process held_by
lose_in t process pool old =
    let entry = record old { queue = without_process process old.queue } in
    elim (held_by entry process) [
      | some h ↦ release (put t pool entry) pool h.id
      | none ↦ forget_if_idle (put t pool entry) pool entry
    ]

-- The loop over the copy of the entries. The object of a pool is what the map holds under it: a
-- round changes no other pool, and the keys of a map are distinct.
pub lose_all : LockTable → String → List String → LockTable
lose_all t process [] = t
lose_all t process (pool ∷ pools) = elim (entry_of t pool) [
  | none ↦ lose_all t process pools
  | some entry ↦ lose_all (lose_in t process pool entry) process pools
]

-- processLost
pub process_lost : LockTable → String → LockTable
unfolding lose_all
process_lost t process = lose_all t process (Dict.keys t.pools)

pub clear_holders : Clock Expiry → List Pool → Clock Expiry
clear_holders clock [] = clock
clear_holders clock (entry ∷ entries) = elim entry.holder [
  | none ↦ clear_holders clock entries
  | some h ↦ clear_holders (Clock.clear clock h.expiry) entries
]

-- stop
pub stop : LockTable → LockTable
unfolding clear_holders
stop t = record t { clock = clear_holders t.clock (Dict.values t.pools); pools = [] }

-- The clock fires a lease's timer; nothing happens for an id that is not pending.
pub expire : LockTable → ℕ → LockTable
expire t timer = elim (Clock.fire t.clock timer) [
  | none ↦ t
  | some (e, clock) ↦ release (record t { clock = clock }) e.pool e.id
]

-- `new LockTable(clock, leaseMs)`
pub init : ℕ → LockTable
init lease_ms = record { clock = Clock.init; lease_ms = lease_ms; pools = []; granted = [] }

-- What can happen to the table: its methods are called, and timers fire.
pub data Call : Type 0 where
  acquires : String → String → String → Call
  releases : String → String → Call
  loses : String → Call
  stops : Call
  expires : ℕ → Call

pub step : LockTable → Call → LockTable
step t (acquires pool process id) = acquire t pool process id
step t (releases pool id) = release t pool id
step t (loses process) = process_lost t process
step t stops = stop t
step t (expires timer) = expire t timer

pub run : LockTable → List Call → LockTable
run t [] = t
run t (c ∷ calls) = run (step t c) calls
