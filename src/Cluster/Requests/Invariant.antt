-- ===== src/Cluster/Requests/Invariant.antt =====
-- What every operation on the requests keeps, and the accounts of resolutions.
use bungohan.Base.{
  ℕ, suc, ◌+◌, String, ◌≡◌, ◌≢◌, refl, sym, subst, ◌∙◌, ap, Option, none, some, List, [], ◌∷◌, ◌++◌,
  if◌then◌else◌, arith, some_inj, inl, inr,
}
use bungohan.Base.Dict
use bungohan.Base.Keys.{◌=?◌, =?_iff, key_cases, string_keys}
use bungohan.Clock
use bungohan.Clock.{
  Clock, pending, IsFresh, IsFresh-clear, IsFresh-set_timeout, pending-clear_ne,
  pending-set_timeout_old, pending-set_timeout_new, set_timeout-id,
}
use bungohan.Cluster.Requests.{
  Kind, single, Entry, Answer, Requests, entry_of, put, resolve, enter, set_of,
}

module _ {V : Type 0} where
  -- An open request: its timer is pending and ends just this request, and a broadcast that waits
  -- for peers waits for one at least.
  pub record IsLive (clock : Clock String) (rid : String) (e : Entry V) : Type 0 where
    pub timed : pending clock e.timer ≡ some rid
    pub directed : e.kind ≡ single → e.waiting ≡ none
    pub awaits : (peers : List String) → e.waiting ≡ some peers → peers ≢ []

  pub record IsSound (r : Requests V) : Type 0 where
    pub live : (rid : String) (e : Entry V) → entry_of r rid ≡ some e → IsLive r.clock rid e
    pub fresh : IsFresh r.clock

  -- How often a request was resolved.
  unfoldable pub count : String → List (String × Answer V) → ℕ
  count rid [] = 0
  count rid ((j, a) ∷ l) = let rest = count rid l in if j =? rid then suc rest else rest

  abbrev pub is_open : Option (Entry V) → ℕ
  is_open none = 0
  is_open (some e) = 1

  -- The resolutions of a request, and one more while it is open.
  abbrev pub balance : Requests V → String → ℕ
  balance r rid = count rid r.resolved + is_open (entry_of r rid)

  count-append :
      (rid j : String) (a : Answer V) (l : List (String × Answer V))
      → count rid (l ++ ((j, a) ∷ [])) ≡ count rid l + (if j =? rid then 1 else 0)
  unfolding count
  count-append rid j a [] = ground arith
  count-append rid j a ((i, b) ∷ l) = ground (arith, count-append rid j a l)

  -- An operation that opens no request: the state stays sound and every account stays as it was.
  pub record IsKept (r r' : Requests V) : Type 0 where
    pub sound : IsSound r'
    pub kept : (rid : String) → balance r' rid ≡ balance r rid

  pub IsKept-refl : (r : Requests V) → IsSound r → IsKept r r
  IsKept-refl r s = record { sound = s; kept = λ rid. refl }

  pub IsKept-trans : (r r' r'' : Requests V) → IsKept r r' → IsKept r' r'' → IsKept r r''
  IsKept-trans r r' r'' h k = record { sound = k.sound; kept = λ rid. k.kept rid ∙ h.kept rid }

  -- What is live under one key, and sound elsewhere, is sound.
  at_key :
      (r r' : Requests V) (rid : String)
      → ((e : Entry V) → entry_of r' rid ≡ some e → IsLive r'.clock rid e)
      → ((j : String) (e : Entry V) → rid ≢ j → entry_of r' j ≡ some e → IsLive r'.clock j e)
      → IsFresh r'.clock
      → IsSound r'
  at_key r r' rid here others f = record {
    live = λ j e p. elim (key_cases rid j) [
      | inl q ↦ subst (λ k. (e : Entry V) → entry_of r' k ≡ some e → IsLive r'.clock k e) q here e p
      | inr n ↦ others j e n p
    ];
    fresh = f;
  }

  -- A live entry in place of the one that is there.
  pub put-IsKept :
      (r : Requests V) (rid : String) (old e : Entry V)
      → IsSound r
      → entry_of r rid ≡ some old
      → IsLive r.clock rid e
      → IsKept r (put r rid e)
  put-IsKept r rid old e s h l = record {
    sound =
        at_key r (put r rid e) rid
          (λ f p.
            subst (IsLive r.clock rid) (some_inj (sym (Dict.get-set_self r.entries rid e) ∙ p)) l)
          (λ j f n p. s.live j f (sym (Dict.get-set_ne r.entries rid e j n) ∙ p)) s.fresh;
    kept = λ j. elim (key_cases rid j) [
      | inl q ↦
          subst (λ k. balance (put r rid e) k ≡ balance r k) q
            (rw (Dict.get-set_self r.entries rid e, h) refl)
      | inr n ↦ rw (Dict.get-set_ne r.entries rid e j n) refl
    ];
  }

  -- A request ends: it is forgotten, and its promise is resolved; the clock may forget its timer.
  abbrev pub dropped : Requests V → String → Clock String → Answer V → Requests V
  dropped r rid clock a = record r {
    clock = clock;
    entries = Dict.delete r.entries rid;
    resolved = r.resolved ++ ((rid, a) ∷ []);
  }

  abbrev pub ended : Requests V → String → ℕ → Answer V → Requests V
  ended r rid timer a = dropped r rid (Clock.clear r.clock timer) a

  -- The other requests live on by this clock.
  pub record IsClockFor (r : Requests V) (rid : String) (c : Clock String) : Type 0 where
    pub others : (j : String) (e : Entry V) → rid ≢ j → IsLive r.clock j e → IsLive c j e
    pub fresh : IsFresh c

  pub clear-IsClockFor :
      (r : Requests V) (rid : String) (timer : ℕ)
      → IsSound r
      → pending r.clock timer ≡ some rid
      → IsClockFor r rid (Clock.clear r.clock timer)
  clear-IsClockFor r rid timer s p = record {
    others = λ j e n l. record {
      timed =
          pending-clear_ne r.clock timer e.timer j
            (λ q. n (some_inj (sym p ∙ ap (pending r.clock) q ∙ l.timed))) l.timed;
      directed = l.directed;
      awaits = l.awaits;
    };
    fresh = IsFresh-clear r.clock timer s.fresh;
  }

  pub dropped-IsKept :
      (r : Requests V) (rid : String) (c : Clock String) (e : Entry V) (a : Answer V)
      → IsSound r
      → entry_of r rid ≡ some e
      → IsClockFor r rid c
      → IsKept r (dropped r rid c a)
  dropped-IsKept r rid c e a s h k = record {
    sound =
        at_key r (dropped r rid c a) rid (λ f q. cc (q, Dict.get-delete_self r.entries rid))
          (λ j f n q. k.others j f n (s.live j f (sym (Dict.get-delete_ne r.entries rid j n) ∙ q)))
          k.fresh;
    kept = λ j. elim (key_cases rid j) [
      | inl q ↦
          subst (λ i. balance (dropped r rid c a) i ≡ balance r i) q
            (rw (Dict.get-delete_self r.entries rid, h)
              (ground (arith, count-append rid rid a r.resolved, =?_iff rid rid)))
      | inr n ↦
          rw (Dict.get-delete_ne r.entries rid j n)
            (ground (arith, count-append j rid a r.resolved, =?_iff rid j))
    ];
  }

  pub ended-IsKept :
      (r : Requests V) (rid : String) (timer : ℕ) (e : Entry V) (a : Answer V)
      → IsSound r
      → entry_of r rid ≡ some e
      → pending r.clock timer ≡ some rid
      → IsKept r (ended r rid timer a)
  ended-IsKept r rid timer e a s h p =
      dropped-IsKept r rid _ e a s h (clear-IsClockFor r rid timer s p)

  -- A new request, whose timer is the next one of the clock.
  pub entered-IsSound :
      (r : Requests V) (rid : String) (kind : Kind) (peer : Option String)
      → (peers : Option (List String)) (ms : ℕ) → IsSound r
      → (kind ≡ single → peers ≡ none)
      → (peers ≢ some [])
      → IsSound (enter r rid kind peer peers ms)
  unfolding enter set_of
  entered-IsSound r rid kind peer peers ms s d n =
      let c = (Clock.set_timeout r.clock rid ms).1 in
      at_key r (enter r rid kind peer peers ms) rid
        (λ f q.
          subst (IsLive c rid) (some_inj (sym (Dict.get-set_self r.entries rid _) ∙ q)) (record {
            timed = rw (set_timeout-id r.clock rid ms) (pending-set_timeout_new r.clock rid ms);
            directed = λ k. rw (d k) refl;
            awaits = awaits_of peers n;
          }))
        (λ j f m q.
          let l = s.live j f (sym (Dict.get-set_ne r.entries rid _ j m) ∙ q) in
          record {
            timed = pending-set_timeout_old r.clock rid ms f.timer j s.fresh l.timed;
            directed = l.directed;
            awaits = l.awaits;
          })
        (IsFresh-set_timeout r.clock rid ms s.fresh)
    where
      awaits_of :
          (ps : Option (List String))
          → ps ≢ some []
          → (qs : List String)
          → elim ps as (λ x. Option (List String)) [ none ↦ none | some l ↦ some (set_of l) ]
            ≡ some qs
          → qs ≢ []
      awaits_of none m qs e = cc
      awaits_of (some []) m qs e = absurd (m refl)
      awaits_of (some (x ∷ xs)) m qs e = λ z. cc (e, z)

  pub entered-balance :
      (r : Requests V) (rid : String) (kind : Kind) (peer : Option String)
      → (peers : Option (List String)) (ms : ℕ) (j : String) → entry_of r rid ≡ none
      → balance (enter r rid kind peer peers ms) j ≡ balance r j + (if rid =? j then 1 else 0)
  unfolding enter
  entered-balance r rid kind peer peers ms j h = elim (key_cases rid j) [
    | inl q ↦
        subst
          (λ i.
            balance (enter r rid kind peer peers ms) i ≡ balance r i + (if rid =? i then 1 else 0))
          q (rw (Dict.get-set_self r.entries rid _, h) (ground (arith, =?_iff rid rid)))
    | inr n ↦ rw (Dict.get-set_ne r.entries rid _ j n) (ground (arith, =?_iff rid j))
  ]

  pub resolved-balance :
      (r : Requests V) (rid : String) (a : Answer V) (j : String)
      → balance (resolve r rid a) j ≡ balance r j + (if rid =? j then 1 else 0)
  resolved-balance r rid a j = omega (arith, count-append j rid a r.resolved)
