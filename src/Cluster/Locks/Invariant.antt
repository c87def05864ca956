-- ===== src/Cluster/Locks/Invariant.antt =====
-- No lock is free while somebody waits for it, and no lease is without the timer that ends it.
use bungohan.Base.{
  ℕ, String, ◌≡◌, ◌≢◌, refl, sym, subst, ◌∙◌, ap, none, some, List, [], ◌∷◌, ◌++◌, arith, some_inj,
  Option-cases, Bool-cases, inl, inr,
}
use bungohan.Base.Dict
use bungohan.Base.Dict.{Dict}
use bungohan.Base.Keys.{◌=?◌, =?_iff, string_keys}
use bungohan.Clock
use bungohan.Clock.{
  Clock, pending, IsFresh, IsFresh-clear, IsFresh-set_timeout, pending-clear_ne,
  pending-set_timeout_old, pending-set_timeout_new, set_timeout-id,
}
use bungohan.Cluster.Locks.{
  Expiry, Lease, Waiter, Pool, LockTable, entry_of, put, forget_if_idle, lease_to, next,
}

-- The pool has a holder, whose timer is pending and will release just that lease.
pub record IsHeld (clock : Clock Expiry) (pool : String) (entry : Pool) : Type 0 where
  pub lease : Lease
  pub held : entry.holder ≡ some lease
  pub timed : pending clock lease.expiry ≡ some (record { pool = pool; id = lease.id })

pub record IsSound (t : LockTable) : Type 0 where
  pub all_held :
      (pool : String) (entry : Pool) → entry_of t pool ≡ some entry → IsHeld t.clock pool entry
  pub fresh : IsFresh t.clock

-- The same of all pools but one, which an operation is at work on.
pub record IsSoundBut (at : String) (t : LockTable) : Type 0 where
  pub others :
      (pool : String) (entry : Pool)
      → at ≢ pool
      → entry_of t pool ≡ some entry
      → IsHeld t.clock pool entry
  pub fresh : IsFresh t.clock

pub IsSound-But : (t : LockTable) (at : String) → IsSound t → IsSoundBut at t
IsSound-But t at s = record { others = λ pool entry n e. s.all_held pool entry e; fresh = s.fresh }

pub put-IsSoundBut :
    (t : LockTable) (at : String) (entry : Pool) → IsSoundBut at t → IsSoundBut at (put t at entry)
put-IsSoundBut t at entry s = record {
  others = λ pool e n h.
      s.others pool e n (ground (arith, Dict.get-set t.pools at entry pool, =?_iff at pool));
  fresh = s.fresh;
}

-- Done with the pool: its entry is held, or it has no entry.
pub close :
    (t : LockTable) (at : String)
    → IsSoundBut at t
    → ((entry : Pool) → entry_of t at ≡ some entry → IsHeld t.clock at entry)
    → IsSound t
close t at s h = record {
  all_held = λ pool entry e. elim (Bool-cases (at =? pool)) [
    | inl y ↦
        subst (λ p. (e : Pool) → entry_of t p ≡ some e → IsHeld t.clock p e) ((=?_iff at pool).0 y)
          h entry e
    | inr n ↦ s.others pool entry (λ p. cc ((=?_iff at pool).1 p)) e
  ];
  fresh = s.fresh;
}

-- What `put` leaves under its own key.
pub entry_of-put :
    (t : LockTable) (at : String) (entry : Pool) → entry_of (put t at entry) at ≡ some entry
entry_of-put t at entry = ground (arith, Dict.get-set t.pools at entry at, =?_iff at at)

close_put :
    (t : LockTable) (at : String) (entry : Pool)
    → IsSoundBut at t
    → entry_of t at ≡ some entry
    → IsHeld t.clock at entry
    → IsSound t
close_put t at entry s e h =
    close t at s (λ other p. subst (IsHeld t.clock at) (some_inj (sym e ∙ p)) h)

IsHeld-set_timeout :
    (c : Clock Expiry) (x : Expiry) (ms : ℕ) (pool : String) (entry : Pool)
    → IsFresh c
    → IsHeld c pool entry
    → IsHeld (Clock.set_timeout c x ms).1 pool entry
IsHeld-set_timeout c x ms pool entry f h = record {
  lease = h.lease;
  held = h.held;
  timed = pending-set_timeout_old c x ms h.lease.expiry _ f h.timed;
}

-- Clearing a timer leaves the pools sound whose leases have other timers.
pub clear-IsSoundBut :
    (t : LockTable) (at : String) (id : ℕ)
    → ((pool : String) (entry : Pool) (lease : Lease)
        → at ≢ pool
        → entry_of t pool ≡ some entry
        → entry.holder ≡ some lease
        → id ≢ lease.expiry)
    → IsSoundBut at t
    → IsSoundBut at (record t { clock = Clock.clear t.clock id })
clear-IsSoundBut t at id apart s = record {
  others = λ pool entry n h.
      let k = s.others pool entry n h in
      record {
        lease = k.lease;
        held = k.held;
        timed =
            pending-clear_ne t.clock id k.lease.expiry _ (apart pool entry k.lease n h k.held)
              k.timed;
      };
  fresh = IsFresh-clear t.clock id s.fresh;
}

timer_pool :
    (c : Clock Expiry) (i j : ℕ) (x y : Expiry)
    → i ≡ j
    → pending c i ≡ some x
    → pending c j ≡ some y
    → x.pool ≡ y.pool
timer_pool c i j x y e p q = ap (λ (z : Expiry). z.pool) (some_inj (sym p ∙ ap (pending c) e ∙ q))

-- The timer that is pending for one pool is not that of another pool's lease.
pub timers_apart :
    (t : LockTable) (id : ℕ) (x : Expiry)
    → IsSound t
    → pending t.clock id ≡ some x
    → (pool : String) (entry : Pool) (lease : Lease) → x.pool ≢ pool
    → entry_of t pool ≡ some entry
    → entry.holder ≡ some lease
    → id ≢ lease.expiry
timers_apart t id x s p pool entry lease n e h q =
    let k = s.all_held pool entry e in
    let same : lease ≡ k.lease = some_inj (sym h ∙ k.held) in
    n (
      timer_pool t.clock id k.lease.expiry x (record { pool = pool; id = k.lease.id })
        (q ∙ ap (λ (l : Lease). l.expiry) same) p k.timed)

lease_to-IsSound :
    (t : LockTable) (at : String) (w : Waiter) (queue : List Waiter)
    → IsSoundBut at t
    → IsSound (lease_to t at w queue)
unfolding lease_to
lease_to-IsSound t at w queue s =
    let x : Expiry = record { pool = at; id = w.id } in
    let c = (Clock.set_timeout t.clock x t.lease_ms).1 in
    let g = t.granted ++ (record { pool = at; process = w.process; id = w.id } ∷ []) in
    let entry : Pool = record {
      holder = some (record {
        process = w.process;
        id = w.id;
        expiry = (Clock.set_timeout t.clock x t.lease_ms).0;
      });
      queue = queue;
    } in
    let t₁ : LockTable = record t { clock = c; granted = g } in
    close_put (put t₁ at entry) at entry
      (put-IsSoundBut t₁ at entry (record {
        others = λ pool e n h.
            IsHeld-set_timeout t.clock x t.lease_ms pool e s.fresh (s.others pool e n h);
        fresh = IsFresh-set_timeout t.clock x t.lease_ms s.fresh;
      }))
      (entry_of-put t₁ at entry)
      (record {
        lease = record {
          process = w.process;
          id = w.id;
          expiry = (Clock.set_timeout t.clock x t.lease_ms).0;
        };
        held = refl;
        timed =
            rw (set_timeout-id t.clock x t.lease_ms) (pending-set_timeout_new t.clock x t.lease_ms);
      })

drop-IsSound :
    (t : LockTable) (at : String)
    → IsSoundBut at t
    → IsSound (record t { pools = Dict.delete t.pools at })
drop-IsSound t at s =
    close (record t { pools = Dict.delete t.pools at }) at
      (record {
        others = λ pool e n h.
            s.others pool e n (ground (arith, Dict.get-delete t.pools at pool, =?_iff at pool));
        fresh = s.fresh;
      })
      (λ e h. ground (arith, h, Dict.get-delete t.pools at at, =?_iff at at))

-- What an operation knows of the entry that it is at work on: if it is held, the lease is timed.
abbrev pub IsTimed : LockTable → String → Pool → Type 0
IsTimed t at entry =
    (lease : Lease)
    → entry.holder ≡ some lease
    → pending t.clock lease.expiry ≡ some (record { pool = at; id = lease.id })

pub forget_if_idle-IsSound :
    (t : LockTable) (at : String) (entry : Pool)
    → IsSoundBut at t
    → entry_of t at ≡ some entry
    → IsTimed t at entry
    → (entry.holder ≡ none → entry.queue ≡ [])
    → IsSound (forget_if_idle t at entry)
unfolding forget_if_idle
forget_if_idle-IsSound t at entry s e timed idle = elim (Option-cases entry.holder) [
  | inl none_held ↦ rw (none_held, idle none_held, forget_if_idle) (drop-IsSound t at s)
  | inr (lease, h) ↦
      rw (h, forget_if_idle)
        (close_put t at entry s e (record { lease = lease; held = h; timed = timed lease h }))
]

pub next-IsSound :
    (t : LockTable) (at : String) (entry : Pool)
    → IsSoundBut at t
    → entry_of t at ≡ some entry
    → IsTimed t at entry
    → IsSound (next t at entry)
unfolding next
next-IsSound t at entry s e timed = elim (Option-cases entry.holder) [
  | inr (lease, h) ↦
      rw (h, next)
        (close_put t at entry s e (record { lease = lease; held = h; timed = timed lease h }))
  | inl free ↦ free_queue entry.queue refl free
]
  where
    free_queue :
        (q : List Waiter) → entry.queue ≡ q → entry.holder ≡ none → IsSound (next t at entry)
    free_queue [] eq free =
        rw (free, eq, next) (forget_if_idle-IsSound t at entry s e timed (λ _. eq))
    free_queue (w ∷ queue) eq free = rw (free, eq, next) (lease_to-IsSound t at w queue s)
