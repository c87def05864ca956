-- ===== src/Cluster/Requests/History.antt =====
-- Whole histories of the requests: what became of each of them.
use bungohan.Base.{
  ℕ, suc, ◌+◌, String, ◌≡◌, refl, ◌∙◌, Option, none, some, List, [], ◌∷◌, if◌then◌else◌, arith,
}
use bungohan.Base.Dict
use bungohan.Base.Keys.{◌=?◌, string_keys}
use bungohan.Clock.{IsFresh-init}
use bungohan.Cluster.Requests.{
  Kind, single, first, gather, Entry, Requests, entry_of, open_request, open_single, open_first,
  open_gather, complete, complete_with, deliver, miss, fail_peer, stop, expire, init,
}
use bungohan.Cluster.Requests.Invariant.{
  IsSound, IsKept, balance, count, is_open, entered-IsSound, entered-balance, resolved-balance,
}
use bungohan.Cluster.Requests.Steps.{deliver-IsKept, miss-IsKept, fail_peer-IsKept, stop-IsKept}
use bungohan.Cluster.Requests.Timeouts.{expire-IsKept}

-- The requests from `r` on, with the ids that were opened, the latest first. An id that is opened
-- is not open already: `createId` does not repeat itself.
pub data History {V : Type 0} (r : Requests V) : List String → Requests V → Type 0 where
  start : History r [] r
  opens_single :
      {ids : List String} {t : Requests V} (rid peer : String) (ms : ℕ)
      → History r ids t
      → entry_of t rid ≡ none
      → History r (rid ∷ ids) (open_single t rid peer ms)
  opens_first :
      {ids : List String} {t : Requests V} (rid : String) (peers : Option (List String)) (ms : ℕ)
      → History r ids t
      → entry_of t rid ≡ none
      → History r (rid ∷ ids) (open_first t rid peers ms)
  opens_gather :
      {ids : List String} {t : Requests V} (rid : String) (peers : Option (List String)) (ms : ℕ)
      → History r ids t
      → entry_of t rid ≡ none
      → History r (rid ∷ ids) (open_gather t rid peers ms)
  delivers :
      {ids : List String} {t : Requests V} (rid : String) (v : V) (from : String)
      → History r ids t
      → History r ids (deliver t rid v from)
  misses :
      {ids : List String} {t : Requests V} (rid from : String)
      → History r ids t
      → History r ids (miss t rid from)
  fails :
      {ids : List String} {t : Requests V} (peer : String)
      → History r ids t
      → History r ids (fail_peer t peer)
  stops : {ids : List String} {t : Requests V} → History r ids t → History r ids (stop t)
  expires :
      {ids : List String} {t : Requests V} (timer : ℕ)
      → History r ids t
      → History r ids (expire t timer)

-- How often an id was opened.
unfoldable pub times : String → List String → ℕ
times rid [] = 0
times rid (j ∷ ids) = let rest = times rid ids in if j =? rid then suc rest else rest

module _ {V : Type 0} where
  -- One request is opened.
  record IsOpened (t t' : Requests V) (rid : String) : Type 0 where
    sound : IsSound t'
    balanced : (j : String) → balance t' j ≡ balance t j + (if rid =? j then 1 else 0)

  open_request-IsOpened :
      (t : Requests V) (rid : String) (kind : Kind) (peer : Option String)
      → (peers : Option (List String)) (ms : ℕ) → IsSound t
      → entry_of t rid ≡ none
      → (kind ≡ single → peers ≡ none)
      → IsOpened t (open_request t rid kind peer peers ms) rid
  unfolding open_request complete complete_with
  open_request-IsOpened t rid kind peer none ms s h d = record {
    sound = entered-IsSound t rid kind peer none ms s d (λ e. cc);
    balanced = λ j. entered-balance t rid kind peer none ms j h;
  }
  open_request-IsOpened t rid single peer (some []) ms s h d = cc (d refl)
  open_request-IsOpened t rid first peer (some []) ms s h d = record {
    sound = record { live = s.live; fresh = s.fresh };
    balanced = λ j. resolved-balance t rid _ j;
  }
  open_request-IsOpened t rid gather peer (some []) ms s h d = record {
    sound = record { live = s.live; fresh = s.fresh };
    balanced = λ j. resolved-balance t rid _ j;
  }
  open_request-IsOpened t rid kind peer (some (p ∷ ps)) ms s h d = record {
    sound = entered-IsSound t rid kind peer (some (p ∷ ps)) ms s d (λ e. cc);
    balanced = λ j. entered-balance t rid kind peer (some (p ∷ ps)) ms j h;
  }

  -- What a history has come to.
  pub record IsAccounted (r t : Requests V) (ids : List String) : Type 0 where
    pub sound : IsSound t
    pub account : (rid : String) → balance t rid ≡ balance r rid + times rid ids

  opened :
      (r t t' : Requests V) (ids : List String) (rid : String)
      → IsAccounted r t ids
      → IsOpened t t' rid
      → IsAccounted r t' (rid ∷ ids)
  unfolding times
  opened r t t' ids rid a o = record {
    sound = o.sound;
    account = λ j. ground (arith, o.balanced j, a.account j);
  }

  kept :
      (r t t' : Requests V) (ids : List String)
      → IsAccounted r t ids
      → IsKept t t'
      → IsAccounted r t' ids
  kept r t t' ids a k = record { sound = k.sound; account = λ j. k.kept j ∙ a.account j }

  -- In every history each request that was opened is open, or was resolved once: resolutions and
  -- open requests together grow by one with each opening and by nothing else.
  pub History-IsAccounted :
      (r : Requests V) {ids : List String} {t : Requests V}
      → IsSound r
      → History r ids t
      → IsAccounted r t ids
  unfolding open_single open_first open_gather times
  History-IsAccounted r s start = record { sound = s; account = λ j. omega arith }
  History-IsAccounted r s (opens_single {ids} {t} rid peer ms h e) =
      let a = History-IsAccounted r s h in
      opened r t _ ids rid a
        (open_request-IsOpened t rid single (some peer) none ms a.sound e (λ q. refl))
  History-IsAccounted r s (opens_first {ids} {t} rid peers ms h e) =
      let a = History-IsAccounted r s h in
      opened r t _ ids rid a (open_request-IsOpened t rid first none peers ms a.sound e (λ q. cc))
  History-IsAccounted r s (opens_gather {ids} {t} rid peers ms h e) =
      let a = History-IsAccounted r s h in
      opened r t _ ids rid a (open_request-IsOpened t rid gather none peers ms a.sound e (λ q. cc))
  History-IsAccounted r s (delivers {ids} {t} rid v from h) =
      let a = History-IsAccounted r s h in kept r t _ ids a (deliver-IsKept t rid v from a.sound)
  History-IsAccounted r s (misses {ids} {t} rid from h) =
      let a = History-IsAccounted r s h in kept r t _ ids a (miss-IsKept t rid from a.sound)
  History-IsAccounted r s (fails {ids} {t} peer h) =
      let a = History-IsAccounted r s h in kept r t _ ids a (fail_peer-IsKept t peer a.sound)
  History-IsAccounted r s (stops {ids} {t} h) =
      let a = History-IsAccounted r s h in kept r t _ ids a (stop-IsKept t a.sound)
  History-IsAccounted r s (expires {ids} {t} timer h) =
      let a = History-IsAccounted r s h in kept r t _ ids a (expire-IsKept t timer a.sound)

  pub init-IsSound : IsSound (init {V = V})
  unfolding init
  init-IsSound = record {
    live = λ rid e h. cc (h, Dict.get-empty {V = Entry V} rid);
    fresh = IsFresh-init;
  }

init-balance : (V : Type 0) (rid : String) → balance (init {V = V}) rid ≡ 0
unfolding init count
init-balance V rid = rw (Dict.get-empty {V = Entry V} rid) (omega arith)

-- A request opened once is either open, and not resolved yet, or no longer open, and resolved
-- exactly once.
pub resolved_once :
    {V : Type 0} {ids : List String} {t : Requests V} (rid : String)
    → History (init {V = V}) ids t
    → times rid ids ≡ 1
    → count rid t.resolved + is_open (entry_of t rid) ≡ 1
resolved_once {V} {ids} {t} rid h once =
    omega (arith, (History-IsAccounted init init-IsSound h).account rid, init-balance V rid)
