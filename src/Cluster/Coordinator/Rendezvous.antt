-- ===== src/Cluster/Coordinator/Rendezvous.antt =====
-- The coordinator depends on the set of members only.
use bungohan.Base.{
  ℕ, ◌≤◌, ◌<◌, ◌==◌, ◌≡◌, refl, sym, subst, ap, ◌∙◌, true, false, some, List, [], ◌∷◌, arith,
  Bool-cases, inl, inr, ◌⊎◌,
}
use mathlib.Core.Logic.{◌↔◌}
use bungohan.Cluster.Coordinator.{Text, text_lt, beats, pick, score_of, coordinator_of}

text_lt_irrefl : (a : Text) → text_lt a a ≡ false
unfolding text_lt
text_lt_irrefl [] = refl
text_lt_irrefl (c ∷ a) = ground (arith, text_lt_irrefl a)

text_lt_total : (a b : Text) → text_lt a b ≡ false → text_lt b a ≡ false → a ≡ b
unfolding text_lt
text_lt_total [] [] h k = refl
text_lt_total [] (d ∷ b) h k = cc
text_lt_total (c ∷ a) [] h k = cc
text_lt_total (c ∷ a) (d ∷ b) h k = ground (arith, text_lt_total a b)

-- "Not before", transitively.
text_ge_trans : (a b c : Text) → text_lt a b ≡ false → text_lt b c ≡ false → text_lt a c ≡ false
unfolding text_lt
text_ge_trans a b [] h k = refl
text_ge_trans a [] (e ∷ c) h k = cc
text_ge_trans [] (d ∷ b) (e ∷ c) h k = cc
text_ge_trans (x ∷ a) (d ∷ b) (e ∷ c) h k = ground (arith, text_ge_trans a b c)

text_lt_asym : (a b : Text) → text_lt a b ≡ true → text_lt b a ≡ false
unfolding text_lt
text_lt_asym a [] h = cc
text_lt_asym [] (d ∷ b) h = refl
text_lt_asym (c ∷ a) (d ∷ b) h = ground (arith, text_lt_asym a b)

-- Membership, by recursion on the list.
abbrev pub In : Text → List Text → Type 0
In m [] = ⊥
In m (x ∷ xs) = (x ≡ m) ⊎ In m xs

module _ (score : Text → ℕ) where
  beats_irrefl : (a : Text) → beats score a a ≡ false
  unfolding beats
  beats_irrefl a = ground (arith, text_lt_irrefl a)

  beats_total : (a b : Text) → beats score a b ≡ false → beats score b a ≡ false → a ≡ b
  unfolding beats
  beats_total a b h k = ground (arith, text_lt_total a b)

  beats_trans :
      (a b c : Text) → beats score a b ≡ false → beats score b c ≡ false → beats score a c ≡ false
  unfolding beats
  beats_trans a b c h k = ground (arith, text_ge_trans a b c)

  beats_asym : (a b : Text) → beats score a b ≡ true → beats score b a ≡ false
  unfolding beats
  beats_asym a b h = ground (arith, text_lt_asym a b)

  -- `r` is the best of the members: one of them, and none beats it.
  record IsBest (members : List Text) (r : Text) : Type 0 where
    member : In r members
    unbeaten : (m : Text) → In m members → beats score m r ≡ false

  IsBest-swap :
      (a b : Text) (members : List Text) (r : Text)
      → beats score b a ≡ false
      → IsBest (a ∷ members) r
      → IsBest (a ∷ b ∷ members) r
  IsBest-swap a b members r n h = record {
    member = elim h.member [ inl e ↦ inl e | inr i ↦ inr (inr i) ];
    unbeaten = λ m i. elim i [
      | inl e ↦ h.unbeaten m (inl e)
      | inr (inl e) ↦
          subst (λ x. beats score x r ≡ false) e (beats_trans b a r n (h.unbeaten a (inl refl)))
      | inr (inr j) ↦ h.unbeaten m (inr j)
    ];
  }

  IsBest-exchange :
      (a b : Text) (members : List Text) (r : Text)
      → IsBest (a ∷ b ∷ members) r
      → IsBest (b ∷ a ∷ members) r
  IsBest-exchange a b members r h = record {
    member = elim h.member [
      | inl e ↦ inr (inl e)
      | inr (inl e) ↦ inl e
      | inr (inr i) ↦ inr (inr i)
    ];
    unbeaten = λ m i. elim i [
      | inl e ↦ h.unbeaten m (inr (inl e))
      | inr (inl e) ↦ h.unbeaten m (inl e)
      | inr (inr j) ↦ h.unbeaten m (inr (inr j))
    ];
  }

  pick-IsBest :
      (best : Text) (members : List Text)
      → (r : Text) × (pick score (some best) members ≡ some r) × IsBest (best ∷ members) r
  unfolding pick
  pick-IsBest best [] = (
    best,
    refl,
    record {
      member = inl refl;
      unbeaten = λ m i. elim i [
        | inl e ↦ subst (λ x. beats score x best ≡ false) e (beats_irrefl best)
        | inr j ↦ absurd j
      ];
    },
  )
  pick-IsBest best (m ∷ members) = elim (Bool-cases (beats score m best)) [
    | inl y ↦
        let (r, e, h) = pick-IsBest m members in
        (
          r,
          rw (y, pick) e,
          IsBest-exchange m best members r (IsBest-swap m best members r (beats_asym m best y) h),
        )
    | inr n ↦
        let (r, e, h) = pick-IsBest best members in
        (r, rw (n, pick) e, IsBest-swap best m members r n h)
  ]

  IsBest-unique :
      (xs ys : List Text) (r s : Text)
      → ((m : Text) → In m xs ↔ In m ys)
      → IsBest xs r
      → IsBest ys s
      → r ≡ s
  IsBest-unique xs ys r s same h k =
      beats_total r s (k.unbeaten r ((same r).0 h.member)) (h.unbeaten s ((same s).1 k.member))

-- The order of texts by code units, a proper prefix first.
unfoldable pub Precedes : Text → Text → Type 0
Precedes a [] = ⊥
Precedes [] (d ∷ b) = Unit
Precedes (c ∷ a) (d ∷ b) = (c < d) ⊎ ((c ≡ d) × Precedes a b)

text_lt-Precedes : (a b : Text) → text_lt a b ≡ true → Precedes a b
unfolding text_lt Precedes
text_lt-Precedes a [] h = absurd (ground (arith, h))
text_lt-Precedes [] (d ∷ b) h = tt
text_lt-Precedes (c ∷ a) (d ∷ b) h = elim (Bool-cases (c == d)) [
  | inl e ↦ inr (ground (arith, e), text_lt-Precedes a b (rw e at h))
  | inr n ↦ inl (ground (arith, h, n))
]

-- The member with the highest score, and among those the first in the order of texts.
pub record IsHighest (score : Text → ℕ) (members : List Text) (r : Text) : Type 0 where
  pub member : In r members
  pub highest : (m : Text) → In m members → score m ≤ score r
  pub first : (m : Text) → In m members → score m ≡ score r → (m ≡ r) ⊎ Precedes r m

module _ (score : Text → ℕ) where
  unbeaten-highest : (m r : Text) → beats score m r ≡ false → score m ≤ score r
  unfolding beats
  unbeaten-highest m r h = ground (arith, h)

  unbeaten-first :
      (m r : Text) → beats score m r ≡ false → score m ≡ score r → (m ≡ r) ⊎ Precedes r m
  unfolding beats
  unbeaten-first m r h e = elim (Bool-cases (text_lt r m)) [
    | inl before ↦ inr (text_lt-Precedes r m before)
    | inr not_before ↦ inl (text_lt_total m r (ground (arith, h, e)) not_before)
  ]

  IsBest-IsHighest :
      (members : List Text) (r : Text) → IsBest score members r → IsHighest score members r
  IsBest-IsHighest members r b = record {
    member = b.member;
    highest = λ m i. unbeaten-highest m r (b.unbeaten m i);
    first = λ m i e. unbeaten-first m r (b.unbeaten m i) e;
  }

coordinator_of-IsBest :
    (pool m : Text) (members : List Text)
    → (r : Text) × (coordinator_of pool (m ∷ members) ≡ some r)
      × IsBest (score_of pool) (m ∷ members) r
unfolding coordinator_of pick
coordinator_of-IsBest pool m members = pick-IsBest (score_of pool) m members

-- Among one member or more the coordinator exists and is a member; no member has a higher score,
-- and a member with the same score is the coordinator itself or comes behind it in the order of
-- ids by code units.
pub coordinator_of-IsHighest :
    (pool m : Text) (members : List Text)
    → (r : Text) × (coordinator_of pool (m ∷ members) ≡ some r)
      × IsHighest (score_of pool) (m ∷ members) r
coordinator_of-IsHighest pool m members =
    let (r, e, b) = coordinator_of-IsBest pool m members in
    (r, e, IsBest-IsHighest (score_of pool) (m ∷ members) r b)

-- Every process computes the same coordinator from the same membership: two lists with the same
-- members, in any order and with any repetitions, have the same coordinator.
pub coordinator_of_same :
    (pool : Text) (xs ys : List Text)
    → ((m : Text) → In m xs ↔ In m ys)
    → coordinator_of pool xs ≡ coordinator_of pool ys
coordinator_of_same pool [] [] same = refl
coordinator_of_same pool [] (y ∷ ys) same = absurd ((same y).1 (inl refl))
coordinator_of_same pool (x ∷ xs) [] same = absurd ((same x).0 (inl refl))
coordinator_of_same pool (x ∷ xs) (y ∷ ys) same =
    let (r, e, h) = coordinator_of-IsBest pool x xs in
    let (s, f, k) = coordinator_of-IsBest pool y ys in
    e ∙ ap some (IsBest-unique (score_of pool) (x ∷ xs) (y ∷ ys) r s same h k) ∙ sym f
