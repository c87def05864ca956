-- ===== src/Cluster/Requests.antt =====
-- packages/core/src/cluster/requests.ts: `PendingRequests`. Its promises' resolutions are the
-- list `resolved`, in order; a reply is a value `V`; request ids come from the caller's
-- `createId`, so they are arguments here. The callbacks of an entry (`deliver`, `complete`,
-- `fail`) are given by its kind.
pub mod Invariant
pub mod Steps
pub mod Timeouts
pub mod Replies
pub mod History
mod Runs
use bungohan.Base.{
  ℕ, String, Bool, true, false, Option, none, some, List, [], ◌∷◌, ◌++◌, if◌then◌else◌, map,
}
use bungohan.Base.Dict
use bungohan.Base.Dict.{Dict}
use bungohan.Base.Keys.{◌=?◌, string_keys}
use bungohan.Clock
use bungohan.Clock.{Clock}

-- RequestFailure
pub data Failure : Type 0 where
  timeout peer_lost stopped : Failure

pub data Kind : Type 0 where
  single first gather : Kind

pub record Entry (V : Type 0) : Type 0 where
  pub kind : Kind
  pub peer : Option String
  pub timer : ℕ
  pub waiting : Option (List String)
  pub collected : List V

-- `Answer<T>` of a `single` or a `first`, and the array of a `gather`.
pub data Answer (V : Type 0) : Type 0 where
  value : V → Answer V
  failure : Failure → Answer V
  values : List V → Answer V

pub record Requests (V : Type 0) : Type 0 where
  pub clock : Clock String
  pub entries : Dict String (Entry V)
  pub resolved : List (String × Answer V)

-- The `Set` of the peers that are waited for.
abbrev pub mem : String → List String → Bool
mem p [] = false
mem p (q ∷ qs) = if q =? p then true else mem p qs

-- `waiting.delete(from)`
pub without : String → List String → List String
without p [] = []
without p (q ∷ qs) = let rest = without p qs in if q =? p then rest else q ∷ rest

-- `new Set(peers)`: each peer once.
pub set_of : List String → List String
set_of [] = []
set_of (p ∷ ps) = let rest = set_of ps in p ∷ without p rest

-- `entry.peer === peer`
abbrev pub directed_to : Option String → String → Bool
directed_to none peer = false
directed_to (some p) peer = p =? peer

module _ {V : Type 0} where
  abbrev pub entry_of : Requests V → String → Option (Entry V)
  entry_of r rid = Dict.get r.entries rid

  abbrev pub put : Requests V → String → Entry V → Requests V
  put r rid entry = record r { entries = Dict.set r.entries rid entry }

  abbrev pub resolve : Requests V → String → Answer V → Requests V
  resolve r rid a = record r { resolved = r.resolved ++ ((rid, a) ∷ []) }

  -- What `onEnd({ ok: false, reason })` resolves with: a `gather` ends with what it has.
  pub end_with : Kind → List V → Failure → Answer V
  end_with single collected reason = failure reason
  end_with first collected reason = failure reason
  end_with gather collected reason = values collected

  -- What `complete()` resolves with; `single` has a no-op there.
  pub complete_with : Kind → List V → Option (Answer V)
  complete_with single collected = none
  complete_with first collected = some (failure timeout)
  complete_with gather collected = some (values collected)

  pub complete : Requests V → String → Kind → List V → Requests V
  complete r rid kind collected = elim (complete_with kind collected) [
    | none ↦ r
    | some a ↦ resolve r rid a
  ]

  -- _close
  pub close : Requests V → String → Requests V
  close r rid = elim (entry_of r rid) [
    | none ↦ r
    | some entry ↦ record r {
      clock = Clock.clear r.clock entry.timer;
      entries = Dict.delete r.entries rid;
    }
  ]

  -- `setTimeout` and `_entries.set` in `_open`.
  pub enter : Requests V → String → Kind → Option String → Option (List String) → ℕ → Requests V
  enter r rid kind peer peers ms =
      let (timer, clock) = Clock.set_timeout r.clock rid ms in
      record r {
        clock = clock;
        entries = Dict.set r.entries rid (record {
          kind = kind;
          peer = peer;
          timer = timer;
          waiting = elim peers [ none ↦ none | some ps ↦ some (set_of ps) ];
          collected = [];
        });
      }

  -- _open
  pub open_request :
      Requests V → String → Kind → Option String → Option (List String) → ℕ → Requests V
  open_request r rid kind peer none ms = enter r rid kind peer none ms
  open_request r rid kind peer (some []) ms = complete r rid kind []
  open_request r rid kind peer (some (p ∷ ps)) ms = enter r rid kind peer (some (p ∷ ps)) ms

  -- single, first and gather
  pub open_single : Requests V → String → String → ℕ → Requests V
  open_single r rid peer ms = open_request r rid single (some peer) none ms

  pub open_first : Requests V → String → Option (List String) → ℕ → Requests V
  open_first r rid peers ms = open_request r rid first none peers ms

  pub open_gather : Requests V → String → Option (List String) → ℕ → Requests V
  open_gather r rid peers ms = open_request r rid gather none peers ms

  -- The end of `_answered`, with the peers that are still to answer.
  pub answered_rest : Requests V → String → Entry V → List String → Requests V
  answered_rest r rid entry [] = complete (close r rid) rid entry.kind entry.collected
  answered_rest r rid entry (p ∷ ps) = put r rid (record entry { waiting = some (p ∷ ps) })

  -- _answered
  pub answered : Requests V → String → Entry V → String → Requests V
  answered r rid entry from = elim entry.waiting [
    | none ↦ r
    | some peers ↦ if mem from peers then answered_rest r rid entry (without from peers) else r
  ]

  -- The entry's `deliver`, and what `deliver` does with its result.
  pub deliver_to : Requests V → String → Entry V → Kind → V → String → Requests V
  deliver_to r rid entry single v from = close (resolve r rid (value v)) rid
  deliver_to r rid entry first v from = close (resolve r rid (value v)) rid
  deliver_to r rid entry gather v from =
      let entry' = record entry { collected = entry.collected ++ (v ∷ []) } in
      answered (put r rid entry') rid entry' from

  -- deliver
  pub deliver : Requests V → String → V → String → Requests V
  deliver r rid v from = elim (entry_of r rid) [
    | none ↦ r
    | some entry ↦ deliver_to r rid entry entry.kind v from
  ]

  -- miss
  pub miss : Requests V → String → String → Requests V
  miss r rid from = elim (entry_of r rid) [ none ↦ r | some entry ↦ answered r rid entry from ]

  -- `this._close(rid)`, then `entry.fail(reason)`
  pub fail_with : Requests V → String → Entry V → Failure → Requests V
  fail_with r rid entry reason =
      resolve (close r rid) rid (end_with entry.kind entry.collected reason)

  -- A round of the loop in `failPeer`.
  pub fail_peer_in : Requests V → String → String → Entry V → Requests V
  fail_peer_in r peer rid entry =
      if directed_to entry.peer peer
      then fail_with r rid entry peer_lost
      else answered r rid entry peer

  -- The loops over the copy of the entries: a round changes no other entry, so the object of a
  -- request is what the map holds under it.
  pub fail_peer_all : Requests V → String → List String → Requests V
  fail_peer_all r peer [] = r
  fail_peer_all r peer (rid ∷ rids) = elim (entry_of r rid) [
    | none ↦ fail_peer_all r peer rids
    | some entry ↦ fail_peer_all (fail_peer_in r peer rid entry) peer rids
  ]

  -- failPeer
  pub fail_peer : Requests V → String → Requests V
  fail_peer r peer = fail_peer_all r peer (Dict.keys r.entries)

  pub stop_all : Requests V → List String → Requests V
  stop_all r [] = r
  stop_all r (rid ∷ rids) = elim (entry_of r rid) [
    | none ↦ stop_all r rids
    | some entry ↦ stop_all (fail_with r rid entry stopped) rids
  ]

  -- stop
  pub stop : Requests V → Requests V
  stop r = stop_all r (Dict.keys r.entries)

  -- A request's timer fires: the callback that `_open` set.
  pub expire : Requests V → ℕ → Requests V
  expire r timer = elim (Clock.fire r.clock timer) [
    | none ↦ r
    | some (rid, clock) ↦ elim (entry_of r rid) [
      | none ↦ record r { clock = clock }
      | some entry ↦
          resolve (record r { clock = clock; entries = Dict.delete r.entries rid }) rid
            (end_with entry.kind entry.collected timeout)
    ]
  ]

  -- `new PendingRequests(clock, createId)`
  pub init : Requests V
  init = record { clock = Clock.init; entries = []; resolved = [] }
