-- ===== src/Cluster/Locks/Order.antt =====
-- Who gets a lock, and when.
use bungohan.Base.{String, ◌≡◌, ◌≢◌, refl, ◌∙◌, ap, none, some, List, [], ◌∷◌, ◌++◌, arith}
use bungohan.Base.Dict
use bungohan.Base.Keys.{=?_iff, =?_self, string_keys}
use bungohan.Clock
use bungohan.Cluster.Locks.{
  Lease, Waiter, Pool, LockTable, entry_of, put, lease_to, next, acquire, holds, expire,
  release_holder, release,
}
use bungohan.Cluster.Locks.Steps.{entry-IsTimed}
use bungohan.Cluster.Locks.Invariant.{IsSound, entry_of-put}

-- The pool's lock is granted to `w`, who holds it from now on with `queue` behind; no other pool
-- is touched.
pub record IsGranted (t t' : LockTable) (pool : String) (w : Waiter) (queue : List Waiter)
    : Type 0 where
  pub traced :
      t'.granted ≡ t.granted ++ (record { pool = pool; process = w.process; id = w.id } ∷ [])
  pub lease : Lease
  pub stored : entry_of t' pool ≡ some (record { holder = some lease; queue = queue })
  pub to_process : lease.process ≡ w.process
  pub to_id : lease.id ≡ w.id
  pub others : (other : String) → pool ≢ other → entry_of t' other ≡ entry_of t other

pub entry_of-put_ne :
    (t : LockTable) (pool : String) (entry : Pool) (other : String)
    → pool ≢ other
    → entry_of (put t pool entry) other ≡ entry_of t other
entry_of-put_ne t pool entry other n =
    ground (arith, Dict.get-set t.pools pool entry other, =?_iff pool other)

lease_to-IsGranted :
    (t₀ t : LockTable) (pool : String) (w : Waiter) (queue : List Waiter)
    → t.granted ≡ t₀.granted
    → ((other : String) → pool ≢ other → entry_of t other ≡ entry_of t₀ other)
    → IsGranted t₀ (lease_to t pool w queue) pool w queue
unfolding lease_to
lease_to-IsGranted t₀ t pool w queue same frame =
    let c = Clock.set_timeout t.clock (record { pool = pool; id = w.id }) t.lease_ms in
    let lease : Lease = record { process = w.process; id = w.id; expiry = c.0 } in
    let entry : Pool = record { holder = some lease; queue = queue } in
    record {
      traced = ap (λ g. g ++ (record { pool = pool; process = w.process; id = w.id } ∷ [])) same;
      lease = lease;
      stored = entry_of-put t pool entry;
      to_process = refl;
      to_id = refl;
      others = λ other n. entry_of-put_ne t pool entry other n ∙ frame other n;
    }

-- `acquire` of a pool that nobody holds or awaits grants the lock at once, to the one who asks.
pub acquire_free :
    (t : LockTable) (pool process id : String)
    → entry_of t pool ≡ none
    → IsGranted t (acquire t pool process id) pool (record { process = process; id = id }) []
unfolding acquire next
acquire_free t pool process id e =
    let w : Waiter = record { process = process; id = id } in
    let entry : Pool = record { holder = none; queue = w ∷ [] } in
    rw e (lease_to-IsGranted t (put t pool entry) pool w [] refl (entry_of-put_ne t pool entry))

-- `acquire` of a pool that is held grants nothing: the request goes to the end of the queue, and
-- the holder stays.
acquire_held :
    (t : LockTable) (pool process id : String) (lease : Lease) (queue : List Waiter)
    → entry_of t pool ≡ some (record { holder = some lease; queue = queue })
    → let t' = acquire t pool process id in
      (t'.granted ≡ t.granted)
      × (entry_of t' pool
          ≡ some (record {
            holder = some lease;
            queue = queue ++ (record { process = process; id = id } ∷ []);
          }))
unfolding acquire next
acquire_held t pool process id lease queue e =
    let w : Waiter = record { process = process; id = id } in
    rw e (refl, entry_of-put t pool (record { holder = some lease; queue = queue ++ (w ∷ []) }))

holds_self :
    (lease : Lease) (queue : List Waiter)
    → holds (record { holder = some lease; queue = queue }) lease.id ≡ some lease
unfolding holds
holds_self lease queue = rw (=?_self lease.id)

-- When the holder releases its lease, the lock goes at once to the one who has waited longest.
pub release_serves_first :
    (t : LockTable) (pool : String) (lease : Lease) (w : Waiter) (queue : List Waiter)
    → entry_of t pool ≡ some (record { holder = some lease; queue = w ∷ queue })
    → IsGranted t (release t pool lease.id) pool w queue
unfolding release release_holder next
release_serves_first t pool lease w queue e =
    let t₁ : LockTable = record t { clock = Clock.clear t.clock lease.expiry } in
    let entry : Pool = record { holder = none; queue = w ∷ queue } in
    rw (e, holds_self lease (w ∷ queue), release)
      (lease_to-IsGranted t (put t₁ pool entry) pool w queue refl (entry_of-put_ne t₁ pool entry))

-- A holder that hangs: when its timer fires, the lock goes to the one who has waited longest.
pub expire_serves_first :
    (t : LockTable) (pool : String) (lease : Lease) (w : Waiter) (queue : List Waiter)
    → IsSound t
    → entry_of t pool ≡ some (record { holder = some lease; queue = w ∷ queue })
    → IsGranted t (expire t lease.expiry) pool w queue
unfolding expire
expire_serves_first t pool lease w queue s e =
    let timed = entry-IsTimed t pool (entry_of t pool) s refl lease (rw e refl) in
    let (c, f) = Clock.fire-pending t.clock lease.expiry _ timed in
    let g = release_serves_first (record t { clock = c }) pool lease w queue e in
    rw (f, expire)
      (record {
        traced = g.traced;
        lease = g.lease;
        stored = g.stored;
        to_process = g.to_process;
        to_id = g.to_id;
        others = g.others;
      })
