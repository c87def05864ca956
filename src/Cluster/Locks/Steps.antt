-- ===== src/Cluster/Locks/Steps.antt =====
-- Every operation of the lock table keeps it sound.
use bungohan.Base.{
  ℕ, String, ◌≡◌, ◌≢◌, refl, sym, subst, ◌∙◌, ap, Option, none, some, List, [], ◌∷◌, ◌++◌, arith,
  some_inj, Option-cases, inl, inr,
}
use bungohan.Base.Dict
use bungohan.Base.Dict.{Dict}
use bungohan.Base.Keys.{=?_iff, string_keys}
use bungohan.Clock
use bungohan.Clock.{
  Clock, pending, IsFresh, IsFresh-clear, IsFresh-set_timeout, pending-clear_ne,
  pending-set_timeout_old, pending-set_timeout_new, set_timeout-id,
}
use bungohan.Cluster.Locks.{
  Expiry, Lease, Pool, LockTable, entry_of, put, entry_or_new, acquire, remove_waiter, holds,
  release_holder, give_up, release, without_process, held_by, lose_in, lose_all, process_lost,
  clear_holders, stop, expire, init, Call, acquires, releases, loses, stops, expires, step, run,
}
use bungohan.Clock.{fire_cases, IsFresh-init}
use bungohan.Cluster.Locks.Invariant.{
  IsSound, IsSoundBut, IsTimed, IsSound-But, put-IsSoundBut, close, entry_of-put, clear-IsSoundBut,
  timers_apart, next-IsSound, forget_if_idle-IsSound,
}

-- An entry of a sound table, and an entry made anew, are timed.
pub entry-IsTimed :
    (t : LockTable) (at : String) (o : Option Pool)
    → IsSound t
    → entry_of t at ≡ o
    → IsTimed t at (entry_or_new o)
entry-IsTimed t at none s e lease h = cc
entry-IsTimed t at (some entry) s e lease h =
    let k = s.all_held at entry e in
    subst (λ l. pending t.clock l.expiry ≡ some (record { pool = at; id = l.id }))
      (some_inj (sym k.held ∙ h)) k.timed

pub acquire-IsSound :
    (t : LockTable) (pool process id : String) → IsSound t → IsSound (acquire t pool process id)
unfolding acquire
acquire-IsSound t pool process id s =
    let old = entry_or_new (entry_of t pool) in
    let entry = record old { queue = old.queue ++ (record { process = process; id = id } ∷ []) } in
    next-IsSound (put t pool entry) pool entry (put-IsSoundBut t pool entry (IsSound-But t pool s))
      (entry_of-put t pool entry) (entry-IsTimed t pool (entry_of t pool) s refl)

holds_holder :
    (entry : Pool) (id : String) (lease : Lease)
    → holds entry id ≡ some lease
    → entry.holder ≡ some lease
unfolding holds
holds_holder entry id lease h = ground (arith, h)

release_missing :
    (t : LockTable) (pool id : String) → entry_of t pool ≡ none → release t pool id ≡ t
unfolding release
release_missing t pool id e = rw (e, release)

release_holder-IsSound :
    (t : LockTable) (pool : String) (entry : Pool) (h : Lease)
    → IsSoundBut pool (record t { clock = Clock.clear t.clock h.expiry })
    → IsSound (release_holder t pool entry h)
unfolding release_holder
release_holder-IsSound t pool entry h s =
    let t₁ : LockTable = record t { clock = Clock.clear t.clock h.expiry } in
    let entry' : Pool = record entry { holder = none } in
    next-IsSound (put t₁ pool entry') pool entry' (put-IsSoundBut t₁ pool entry' s)
      (entry_of-put t₁ pool entry') (λ lease p. cc)

-- Clearing the timer of the pool's own lease.
clear_lease :
    (t : LockTable) (pool : String) (entry : Pool) (h : Lease)
    → IsSound t
    → entry_of t pool ≡ some entry
    → entry.holder ≡ some h
    → IsSoundBut pool (record t { clock = Clock.clear t.clock h.expiry })
clear_lease t pool entry h s e held =
    clear-IsSoundBut t pool h.expiry
      (timers_apart t h.expiry (record { pool = pool; id = h.id }) s
        (entry-IsTimed t pool (some entry) s e h held))
      (IsSound-But t pool s)

give_up-IsSound :
    (t : LockTable) (pool : String) (entry : Pool) (id : String)
    → IsSoundBut pool t
    → IsTimed t pool entry
    → (entry.holder ≡ none → entry.queue ≡ [])
    → IsSound (give_up t pool entry id)
unfolding give_up
give_up-IsSound t pool entry id s timed idle =
    let entry' : Pool = record entry { queue = remove_waiter id entry.queue } in
    forget_if_idle-IsSound (put t pool entry') pool entry' (put-IsSoundBut t pool entry' s)
      (entry_of-put t pool entry') timed (λ e. ap (remove_waiter id) (idle e))

-- `release` needs no more of its own pool than this.
release_in-IsSound :
    (t : LockTable) (pool : String) (entry : Pool) (id : String)
    → IsSoundBut pool t
    → entry_of t pool ≡ some entry
    → ((h : Lease)
        → holds entry id ≡ some h
        → IsSoundBut pool (record t { clock = Clock.clear t.clock h.expiry }))
    → (holds entry id ≡ none → IsTimed t pool entry)
    → (entry.holder ≡ none → entry.queue ≡ [])
    → IsSound (release t pool id)
unfolding release
release_in-IsSound t pool entry id s e cleared timed idle = elim (Option-cases (holds entry id)) [
  | inl h ↦ rw (e, h, release) (give_up-IsSound t pool entry id s (timed h) idle)
  | inr (lease, h) ↦
      rw (e, h, release) (release_holder-IsSound t pool entry lease (cleared lease h))
]

pub release-IsSound : (t : LockTable) (pool id : String) → IsSound t → IsSound (release t pool id)
release-IsSound t pool id s = elim (Option-cases (entry_of t pool)) [
  | inl e ↦ rw (release_missing t pool id e) s
  | inr (entry, e) ↦
      let k = s.all_held pool entry e in
      release_in-IsSound t pool entry id (IsSound-But t pool s) e
        (λ h p. clear_lease t pool entry h s e (holds_holder entry id h p))
        (λ _. entry-IsTimed t pool (some entry) s e) (λ free. cc (sym free ∙ k.held))
]

lose_in-IsSound :
    (t : LockTable) (process pool : String) (entry : Pool)
    → IsSound t
    → entry_of t pool ≡ some entry
    → IsSound (lose_in t process pool entry)
unfolding lose_in
lose_in-IsSound t process pool old s e =
    let entry : Pool = record old { queue = without_process process old.queue } in
    let k = s.all_held pool old e in
    let timed = entry-IsTimed t pool (some old) s e in
    let b = put-IsSoundBut t pool entry (IsSound-But t pool s) in
    elim (Option-cases (held_by entry process)) [
      | inl h ↦
          rw (h, lose_in)
            (forget_if_idle-IsSound (put t pool entry) pool entry b (entry_of-put t pool entry)
              timed (λ free. cc (sym free ∙ k.held)))
      | inr (lease, h) ↦
          rw (h, lose_in)
            (release_in-IsSound (put t pool entry) pool entry lease.id b (entry_of-put t pool entry)
              (λ l p.
                put-IsSoundBut (record t { clock = Clock.clear t.clock l.expiry }) pool entry
                  (clear_lease t pool old l s e (holds_holder entry lease.id l p)))
              (λ _. timed) (λ free. cc (sym free ∙ k.held)))
    ]

lose_all-IsSound :
    (t : LockTable) (process : String) (pools : List String)
    → IsSound t
    → IsSound (lose_all t process pools)
unfolding lose_all
lose_all-IsSound t process [] s = s
lose_all-IsSound t process (pool ∷ pools) s = elim (Option-cases (entry_of t pool)) [
  | inl e ↦ rw (e, lose_all) (lose_all-IsSound t process pools s)
  | inr (entry, e) ↦
      rw (e, lose_all)
        (lose_all-IsSound (lose_in t process pool entry) process pools
          (lose_in-IsSound t process pool entry s e))
]

pub process_lost-IsSound :
    (t : LockTable) (process : String) → IsSound t → IsSound (process_lost t process)
unfolding process_lost
process_lost-IsSound t process s = lose_all-IsSound t process (Dict.keys t.pools) s

clear_holders-IsFresh :
    (clock : Clock Expiry) (entries : List Pool)
    → IsFresh clock
    → IsFresh (clear_holders clock entries)
unfolding clear_holders
clear_holders-IsFresh clock [] f = f
clear_holders-IsFresh clock (entry ∷ entries) f = elim (Option-cases entry.holder) [
  | inl e ↦ rw (e, clear_holders) (clear_holders-IsFresh clock entries f)
  | inr (h, e) ↦
      rw (e, clear_holders)
        (clear_holders-IsFresh (Clock.clear clock h.expiry) entries
          (IsFresh-clear clock h.expiry f))
]

pub stop-IsSound : (t : LockTable) → IsSound t → IsSound (stop t)
unfolding stop
stop-IsSound t s = record {
  all_held = λ pool entry e. cc (e, Dict.get-empty {V = Pool} pool);
  fresh = clear_holders-IsFresh t.clock (Dict.values t.pools) s.fresh;
}

-- The clock without the timer that fired, and without the one that the holder had.
fired-IsSoundBut :
    (t : LockTable) (timer : ℕ) (x : Expiry) (c : Clock Expiry)
    → IsSound t
    → Clock.fire t.clock timer ≡ some (x, c)
    → IsSoundBut x.pool (record t { clock = c })
fired-IsSoundBut t timer x c s f =
    let (p, change) = fire_cases t.clock timer x c f in
    elim change [
      | inl e ↦ rw e (IsSound-But t x.pool s)
      | inr e ↦
          rw e
            (clear-IsSoundBut t x.pool timer (timers_apart t timer x s p) (IsSound-But t x.pool s))
    ]

timer_id :
    (c : Clock Expiry) (i j : ℕ) (x y : Expiry)
    → i ≡ j
    → pending c i ≡ some x
    → pending c j ≡ some y
    → x.id ≡ y.id
timer_id c i j x y e p q = ap (λ (z : Expiry). z.id) (some_inj (sym p ∙ ap (pending c) e ∙ q))

-- A lease that the timer does not name has another timer.
not_held :
    (entry : Pool) (id : String) (lease : Lease)
    → holds entry id ≡ none
    → entry.holder ≡ some lease
    → id ≢ lease.id
unfolding holds
not_held entry id lease h held = ground (arith, =?_iff lease.id id)

fired-IsTimed :
    (t : LockTable) (timer : ℕ) (x : Expiry) (c : Clock Expiry) (entry : Pool)
    → IsSound t
    → entry_of t x.pool ≡ some entry
    → Clock.fire t.clock timer ≡ some (x, c)
    → holds entry x.id ≡ none
    → IsTimed (record t { clock = c }) x.pool entry
fired-IsTimed t timer x c entry s e f h lease held =
    let (p, change) = fire_cases t.clock timer x c f in
    let timed = entry-IsTimed t x.pool (some entry) s e lease held in
    elim change [
      | inl same ↦ rw same timed
      | inr cleared ↦ rw cleared (
          pending-clear_ne t.clock timer lease.expiry _
            (λ q. not_held entry x.id lease h held (
              timer_id t.clock timer lease.expiry x (record { pool = x.pool; id = lease.id }) q p
                timed))
            timed)
    ]

expire_found :
    (t : LockTable) (timer : ℕ) (x : Expiry) (c : Clock Expiry)
    → IsSound t
    → Clock.fire t.clock timer ≡ some (x, c)
    → IsSound (release (record t { clock = c }) x.pool x.id)
expire_found t timer x c s f = elim (Option-cases (entry_of t x.pool)) [
  | inl e ↦
      rw (release_missing (record t { clock = c }) x.pool x.id e)
        (close (record t { clock = c }) x.pool (fired-IsSoundBut t timer x c s f) (λ entry h. cc))
  | inr (entry, e) ↦
      let k = s.all_held x.pool entry e in
      release_in-IsSound (record t { clock = c }) x.pool entry x.id
        (fired-IsSoundBut t timer x c s f) e
        (λ h p.
          clear-IsSoundBut (record t { clock = c }) x.pool h.expiry
            (timers_apart t h.expiry (record { pool = x.pool; id = h.id }) s
              (entry-IsTimed t x.pool (some entry) s e h (holds_holder entry x.id h p)))
            (fired-IsSoundBut t timer x c s f))
        (fired-IsTimed t timer x c entry s e f) (λ free. cc (sym free ∙ k.held))
]

pub expire-IsSound : (t : LockTable) (timer : ℕ) → IsSound t → IsSound (expire t timer)
unfolding expire
expire-IsSound t timer s = elim (Option-cases (Clock.fire t.clock timer)) [
  | inl e ↦ rw (e, expire) s
  | inr ((x, c), e) ↦ rw (e, expire) (expire_found t timer x c s e)
]

init-IsSound : (lease_ms : ℕ) → IsSound (init lease_ms)
unfolding init
init-IsSound lease_ms = record {
  all_held = λ pool entry e. cc (e, Dict.get-empty {V = Pool} pool);
  fresh = IsFresh-init;
}

step-IsSound : (t : LockTable) (c : Call) → IsSound t → IsSound (step t c)
unfolding step
step-IsSound t (acquires pool process id) s = acquire-IsSound t pool process id s
step-IsSound t (releases pool id) s = release-IsSound t pool id s
step-IsSound t (loses process) s = process_lost-IsSound t process s
step-IsSound t stops s = stop-IsSound t s
step-IsSound t (expires timer) s = expire-IsSound t timer s

-- A sound table stays sound, whatever its methods are called with and whichever timers fire:
-- every pool in it has a holder, and the holder's timer is pending and will release that lease.
pub run-IsSound : (t : LockTable) (calls : List Call) → IsSound t → IsSound (run t calls)
unfolding run
run-IsSound t [] s = s
run-IsSound t (c ∷ calls) s = run-IsSound (step t c) calls (step-IsSound t c s)

-- From a new table, whatever happens: no lock is free while somebody waits for it, and no lease
-- lacks the timer that ends it.
pub run_init-IsSound : (lease_ms : ℕ) (calls : List Call) → IsSound (run (init lease_ms) calls)
run_init-IsSound lease_ms calls = run-IsSound (init lease_ms) calls (init-IsSound lease_ms)
