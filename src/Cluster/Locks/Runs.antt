-- ===== src/Cluster/Locks/Runs.antt =====
-- Runs of the lock table and its theorems at concrete inputs.
use bungohan.Base.{◌≡◌, refl, none, some, [], ◌∷◌}
use bungohan.Base.Dict
use bungohan.Base.Keys.{string_keys, number_keys}
use bungohan.Clock
use bungohan.Cluster.Locks.{
  LockTable, Lease, Waiter, entry_of, acquires, loses, expires, run, step, init, acquire, next,
  lease_to, release, release_holder, holds, expire, process_lost, lose_all, lose_in,
  without_process, held_by, forget_if_idle,
}
use bungohan.Cluster.Locks.Invariant.{IsSound}
use bungohan.Cluster.Locks.Steps.{run_init-IsSound}
use bungohan.Cluster.Locks.Order.{
  IsGranted, acquire_free, release_serves_first, expire_serves_first,
}
use bungohan.Cluster.Locks.Loss.{IsWithout, process_lost-IsWithout}

-- Process "a" holds the lock of pool "p", and process "b" waits for it.
contended : LockTable
contended = run (init 500) (acquires "p" "a" "r1" ∷ acquires "p" "b" "r2" ∷ [])

-- What a test that computes with it unfolds.
abbrev first_lease : Lease
first_lease = record { process = "a"; id = "r1"; expiry = 1 }

abbrev second : Waiter
second = record { process = "b"; id = "r2" }

contended_entry :
    entry_of contended "p" ≡ some (record { holder = some first_lease; queue = second ∷ [] })
unfolding contended run step acquire next lease_to init Dict.get Dict.set Clock.init
    Clock.set_timeout
contended_entry = refl

contended_grants : contended.granted ≡ record { pool = "p"; process = "a"; id = "r1" } ∷ []
unfolding contended run step acquire next lease_to init Dict.get Dict.set Clock.init
    Clock.set_timeout
contended_grants = refl

-- The lease runs out, and then "b" is lost: the pool is forgotten.
emptied : entry_of (run contended (expires 1 ∷ loses "b" ∷ [])) "p" ≡ none
unfolding contended run step acquire next lease_to init expire release release_holder holds
    process_lost lose_all lose_in without_process held_by forget_if_idle Dict.get Dict.set
    Dict.delete Clock.init Clock.set_timeout Clock.fire Clock.clear
emptied = refl

run_init-IsSound_example :
    IsSound (run (init 500) (acquires "p" "a" "r1" ∷ loses "a" ∷ expires 1 ∷ []))
run_init-IsSound_example = run_init-IsSound 500 (acquires "p" "a" "r1" ∷ loses "a" ∷ expires 1 ∷ [])

acquire_free_example :
    IsGranted
      (init 500)
      (acquire (init 500) "p" "a" "r1")
      "p"
      (record { process = "a"; id = "r1" })
      []
unfolding init Dict.get
acquire_free_example = acquire_free (init 500) "p" "a" "r1" refl

release_serves_first_example : IsGranted contended (release contended "p" "r1") "p" second []
release_serves_first_example =
    release_serves_first contended "p" first_lease second [] contended_entry

expire_serves_first_example : IsGranted contended (expire contended 1) "p" second []
unfolding contended
expire_serves_first_example =
    expire_serves_first contended "p" first_lease second []
      (run_init-IsSound 500 (acquires "p" "a" "r1" ∷ acquires "p" "b" "r2" ∷ [])) contended_entry

lost_entry :
    entry_of (process_lost contended "b") "p"
    ≡ some (record { holder = some first_lease; queue = [] })
unfolding contended run step acquire next lease_to init process_lost lose_all lose_in
    without_process held_by forget_if_idle Dict.get Dict.set Clock.init Clock.set_timeout
lost_entry = refl

process_lost-IsWithout_example : IsWithout "b" (record { holder = some first_lease; queue = [] })
process_lost-IsWithout_example = process_lost-IsWithout contended "b" "p" _ lost_entry
