-- ===== src/Cluster/Locks/Loss.antt =====
-- `process_lost` leaves nothing of the process behind.
use bungohan.Base.{
  String, ◌≡◌, ◌≢◌, refl, sym, subst, ◌∙◌, ap, Bool, true, false, Option, none, some, List, [], ◌∷◌,
  ◌||◌, arith, some_inj, Option-cases, Bool-cases, inl, inr, All,
}
use bungohan.Base.Dict
use bungohan.Base.Keys.{◌=?◌, =?_iff, =?_self, string_keys}
use bungohan.Clock
use bungohan.Cluster.Locks.{
  Lease, Waiter, Pool, LockTable, entry_of, put, lease_to, next, holds, forget_if_idle,
  release_holder, release, without_process, held_by, lose_in, lose_all, process_lost,
}
use bungohan.Cluster.Locks.Invariant.{entry_of-put}
use bungohan.Cluster.Locks.Order.{entry_of-put_ne}

-- The process neither holds the pool's lock nor waits for it.
pub record IsWithout (process : String) (entry : Pool) : Type 0 where
  pub not_holder : (lease : Lease) → entry.holder ≡ some lease → lease.process ≢ process
  pub not_waiting : All (λ (w : Waiter). w.process ≢ process) entry.queue

without_process-All :
    (process : String) (queue : List Waiter)
    → All (λ (w : Waiter). w.process ≢ process) (without_process process queue)
unfolding without_process
without_process-All process [] = tt
without_process-All process (w ∷ queue) = elim (Bool-cases (w.process =? process)) [
  | inl y ↦ rw (y, without_process) (without_process-All process queue)
  | inr n ↦
      rw (n, without_process)
        ((λ e. cc (n, (=?_iff w.process process).1 e)), without_process-All process queue)
]

-- What a round leaves under the pool, if anything.
abbrev LeavesWithout : LockTable → String → String → Type 0
LeavesWithout t process pool =
    (entry : Pool) → entry_of t pool ≡ some entry → IsWithout process entry

put_without :
    (t : LockTable) (process pool : String) (entry : Pool)
    → IsWithout process entry
    → LeavesWithout (put t pool entry) process pool
put_without t process pool entry w other e =
    subst (IsWithout process) (some_inj (sym (entry_of-put t pool entry) ∙ e)) w

delete_without :
    (t : LockTable) (process pool : String)
    → LeavesWithout (record t { pools = Dict.delete t.pools pool }) process pool
delete_without t process pool entry e =
    absurd (ground (arith, e, Dict.get-delete t.pools pool pool, =?_iff pool pool))

forget_if_idle_without :
    (t : LockTable) (process pool : String) (entry : Pool)
    → IsWithout process entry
    → entry_of t pool ≡ some entry
    → LeavesWithout (forget_if_idle t pool entry) process pool
unfolding forget_if_idle
forget_if_idle_without t process pool entry w e = go entry.holder entry.queue refl refl
  where
    stays : LeavesWithout t process pool
    stays other f = subst (IsWithout process) (some_inj (sym e ∙ f)) w

    go :
        (h : Option Lease) (q : List Waiter)
        → entry.holder ≡ h
        → entry.queue ≡ q
        → LeavesWithout (forget_if_idle t pool entry) process pool
    go (some h) q p r = rw (p, forget_if_idle) stays
    go none [] p r = rw (p, r, forget_if_idle) (delete_without t process pool)
    go none (x ∷ q) p r = rw (p, r, forget_if_idle) stays

next_without :
    (t : LockTable) (process pool : String) (queue : List Waiter)
    → All (λ (w : Waiter). w.process ≢ process) queue
    → let entry : Pool = record { holder = none; queue = queue } in
      LeavesWithout (next (put t pool entry) pool entry) process pool
unfolding next forget_if_idle lease_to
next_without t process pool [] w =
    delete_without (put t pool (record { holder = none; queue = [] })) process pool
next_without t process pool (x ∷ queue) (n, w) =
    let entry : Pool = record { holder = none; queue = x ∷ queue } in
    put_without (put t pool entry) process pool _ (record {
      not_holder = λ lease e. subst (λ (l : Lease). l.process ≢ process) (some_inj e) n;
      not_waiting = w;
    })

-- Other pools are left alone.
abbrev LeavesOthers : LockTable → LockTable → String → Type 0
LeavesOthers t t' pool = (other : String) → pool ≢ other → entry_of t' other ≡ entry_of t other

delete_others :
    (t : LockTable) (pool : String)
    → LeavesOthers t (record t { pools = Dict.delete t.pools pool }) pool
delete_others t pool other n = ground (arith, Dict.get-delete t.pools pool other, =?_iff pool other)

forget_if_idle_others :
    (t : LockTable) (pool : String) (entry : Pool)
    → LeavesOthers t (forget_if_idle t pool entry) pool
unfolding forget_if_idle
forget_if_idle_others t pool entry = go entry.holder entry.queue refl refl
  where
    go :
        (h : Option Lease) (q : List Waiter)
        → entry.holder ≡ h
        → entry.queue ≡ q
        → LeavesOthers t (forget_if_idle t pool entry) pool
    go (some h) q p r other n = rw (p, forget_if_idle) refl
    go none [] p r other n = rw (p, r, forget_if_idle) (delete_others t pool other n)
    go none (x ∷ q) p r other n = rw (p, r, forget_if_idle) refl

next_others :
    (t : LockTable) (pool : String) (queue : List Waiter)
    → let entry : Pool = record { holder = none; queue = queue } in
      LeavesOthers t (next (put t pool entry) pool entry) pool
unfolding next forget_if_idle lease_to
next_others t pool [] other n =
    delete_others (put t pool (record { holder = none; queue = [] })) pool other n
    ∙ entry_of-put_ne t pool _ other n
next_others t pool (x ∷ queue) other n =
    entry_of-put_ne (put t pool (record { holder = none; queue = x ∷ queue })) pool _ other n
    ∙ entry_of-put_ne t pool _ other n

-- A round of `process_lost`.
record IsRound (t t' : LockTable) (process pool : String) : Type 0 where
  without : LeavesWithout t' process pool
  others : LeavesOthers t t' pool

held_by-holder :
    (entry : Pool) (process : String) (h : Lease)
    → held_by entry process ≡ some h
    → entry.holder ≡ some h
unfolding held_by
held_by-holder entry process h e = ground (arith, e)

held_by-none :
    (entry : Pool) (process : String) (h : Lease)
    → held_by entry process ≡ none
    → entry.holder ≡ some h
    → h.process ≢ process
unfolding held_by
held_by-none entry process h e p = ground (arith, e, =?_iff h.process process)

holds_held : (entry : Pool) (h : Lease) → entry.holder ≡ some h → holds entry h.id ≡ some h
unfolding holds
holds_held entry h p = rw (p, holds) (rw (=?_self h.id))

release_held :
    (t : LockTable) (pool : String) (entry : Pool) (h : Lease)
    → entry_of t pool ≡ some entry
    → entry.holder ≡ some h
    → release t pool h.id ≡ release_holder t pool entry h
unfolding release
release_held t pool entry h e p = rw (e, holds_held entry h p, release)

lose_in-IsRound :
    (t : LockTable) (process pool : String) (entry : Pool)
    → IsRound t (lose_in t process pool entry) process pool
unfolding lose_in
lose_in-IsRound t process pool old =
    let queue = without_process process old.queue in
    let entry : Pool = record old { queue = queue } in
    let clean = without_process-All process old.queue in
    elim (Option-cases (held_by entry process)) [
      | inl e ↦
          rw (e, lose_in)
            (record {
              without =
                  forget_if_idle_without (put t pool entry) process pool entry
                    (record {
                      not_holder = λ h p. held_by-none entry process h e p;
                      not_waiting = clean;
                    })
                    (entry_of-put t pool entry);
              others = λ other n.
                  forget_if_idle_others (put t pool entry) pool entry other n
                  ∙ entry_of-put_ne t pool entry other n;
            })
      | inr (h, e) ↦
          let t₁ : LockTable = record (put t pool entry) { clock = Clock.clear t.clock h.expiry } in
          rw (e, lose_in)
            (rw
              (release_held (put t pool entry) pool entry h (entry_of-put t pool entry)
                (held_by-holder entry process h e))
              (unfold release_holder in
                record {
                  without = next_without t₁ process pool queue clean;
                  others = λ other n.
                      next_others t₁ pool queue other n ∙ entry_of-put_ne t pool entry other n;
                }))
    ]

-- The key is among those still to come.
listed : String → List String → Bool
listed k [] = false
listed k (j ∷ ks) = j =? k || listed k ks

listed-keys :
    (t : Dict.Dict String Pool) (k : String) (entry : Pool)
    → Dict.get t k ≡ some entry
    → listed k (Dict.keys t) ≡ true
unfolding listed Dict.get
listed-keys [] k entry h = cc
listed-keys ((j, v) ∷ t) k entry h = ground (arith, listed-keys t k entry)

lose_all-IsWithout :
    (t : LockTable) (process : String) (pools : List String)
    → ((pool : String) → listed pool pools ≡ false → LeavesWithout t process pool)
    → (pool : String) → LeavesWithout (lose_all t process pools) process pool
unfolding lose_all listed
lose_all-IsWithout t process [] h = λ pool. h pool refl
lose_all-IsWithout t process (p ∷ pools) h = elim (Option-cases (entry_of t p)) [
  | inl e ↦
      rw (e, lose_all)
        (lose_all-IsWithout t process pools (λ pool l. elim (Bool-cases (p =? pool)) [
          | inl y ↦ λ entry f. absurd (ground (arith, f, e, ap (entry_of t) ((=?_iff p pool).0 y)))
          | inr n ↦ h pool (rw (n, l))
        ]))
  | inr (entry, e) ↦
      let r = lose_in-IsRound t process p entry in
      rw (e, lose_all)
        (lose_all-IsWithout (lose_in t process p entry) process pools (λ pool l.
          elim (Bool-cases (p =? pool)) [
            | inl y ↦
                subst (LeavesWithout (lose_in t process p entry) process) ((=?_iff p pool).0 y)
                  r.without
            | inr n ↦ λ other f.
                h pool (rw (n, l)) other
                  (sym (r.others pool (λ q. cc (n, (=?_iff p pool).1 q))) ∙ f)
          ]))
]

-- Once a process is lost it holds no lock and waits for none, in any pool.
pub process_lost-IsWithout :
    (t : LockTable) (process pool : String) (entry : Pool)
    → entry_of (process_lost t process) pool ≡ some entry
    → IsWithout process entry
unfolding process_lost
process_lost-IsWithout t process pool =
    lose_all-IsWithout t process (Dict.keys t.pools)
      (λ p l entry e. absurd (ground (arith, l, listed-keys t.pools p entry e))) pool
