-- ===== src/Cluster/Requests/Runs.antt =====
-- Runs of the requests, and their theorems at concrete inputs.
use bungohan.Base.{ℕ, ◌+◌, ◌≡◌, refl, none, some, [], ◌∷◌, ◌++◌}
use bungohan.Base.Dict
use bungohan.Base.Keys.{string_keys, number_keys}
use bungohan.Clock
use bungohan.Clock.{pending}
use bungohan.Cluster.Requests.{
  Requests, Entry, gather, values, entry_of, init, open_gather, open_request, enter, set_of,
  without, deliver, deliver_to, answered, answered_rest, complete, complete_with, close, fail_peer,
  fail_peer_all, fail_peer_in, expire,
}
use bungohan.Cluster.Requests.Invariant.{count, is_open}
use bungohan.Cluster.Requests.Replies.{deliver_all, values_of, timed_out, expire-deliver_all}
use bungohan.Cluster.Requests.History.{
  History, start, opens_gather, delivers, fails, times, IsAccounted, History-IsAccounted,
  init-IsSound, resolved_once,
}

-- A gather of two peers; one answers, the other dies.
gathering : Requests ℕ
gathering = open_gather init "r1" (some ("a" ∷ "b" ∷ "a" ∷ [])) 100

gathered : (fail_peer (deliver gathering "r1" 7 "a") "b").resolved ≡ ("r1", values (7 ∷ [])) ∷ []
unfolding gathering open_gather open_request enter set_of without init deliver deliver_to answered
    answered_rest complete complete_with close fail_peer fail_peer_all fail_peer_in Dict.get
    Dict.set Dict.delete Clock.init Clock.set_timeout Clock.clear
gathered = refl

fresh_r1 : entry_of (init {V = ℕ}) "r1" ≡ none
unfolding init Dict.get
fresh_r1 = refl

abbrev story : History (init {V = ℕ}) ("r1" ∷ []) (fail_peer (deliver gathering "r1" 7 "a") "b")
unfolding gathering
story =
    fails "b"
      (delivers "r1" 7 "a" (opens_gather "r1" (some ("a" ∷ "b" ∷ "a" ∷ [])) 100 start fresh_r1))

History-IsAccounted_example :
    IsAccounted (init {V = ℕ}) (fail_peer (deliver gathering "r1" 7 "a") "b") ("r1" ∷ [])
History-IsAccounted_example = History-IsAccounted init init-IsSound story

resolved_once_example :
    let t = fail_peer (deliver gathering "r1" 7 "a") "b" in
    count "r1" t.resolved + is_open (entry_of t "r1") ≡ 1
unfolding times
resolved_once_example = resolved_once "r1" story refl

-- Of two peers that a request gathers from, one has answered.
abbrev waiting_entry : Entry ℕ
waiting_entry = record {
  kind = gather;
  peer = none;
  timer = 1;
  waiting = some ("b" ∷ []);
  collected = 7 ∷ [];
}

abbrev half_answered : Requests ℕ
half_answered =
    deliver_all (open_request init "r1" gather none (some ("a" ∷ "b" ∷ "a" ∷ [])) 100) "r1"
      ((7, "a") ∷ [])

still_open : entry_of half_answered "r1" ≡ some waiting_entry
unfolding deliver_all open_request enter set_of without init deliver deliver_to answered
    answered_rest Dict.get Dict.set Clock.init Clock.set_timeout
still_open = refl

expire-deliver_all_example :
    (pending half_answered.clock 1 ≡ some "r1")
    × ((expire half_answered 1).resolved ≡ [] ++ (("r1", values (7 ∷ [])) ∷ []))
    × (entry_of (expire half_answered 1) "r1" ≡ none)
unfolding values_of timed_out init
expire-deliver_all_example =
    expire-deliver_all init "r1" gather none (some ("a" ∷ "b" ∷ "a" ∷ [])) 100 ((7, "a") ∷ [])
      waiting_entry init-IsSound fresh_r1 (λ e. cc e) still_open
