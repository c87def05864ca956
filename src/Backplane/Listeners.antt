-- ===== src/Backplane/Listeners.antt =====
-- Who listens to a channel.
use bungohan.Base.{
  ℕ, String, ◌≡◌, refl, sym, ap, ◌∙◌, ◌⊎◌, List, [], ◌∷◌, arith, if◌then◌else◌, Option-cases, inl,
  inr,
}
use bungohan.Base.Dict
use bungohan.Base.Keys.{◌=?◌, =?_iff, key_cases, string_keys}
use bungohan.Backplane.{Channels, insert, add, without, remove_callback, called}

-- A callback that is added to a channel listens to it behind those that are there, or stays where
-- it is among them, and the other channels keep theirs.
pub called-add :
    (chs : Channels) (channel j : String) (c : ℕ)
    → called (add chs channel c).0 j
      ≡ (if channel =? j then insert c (called chs channel) else called chs j)
unfolding add called insert
called-add chs channel j c = elim (Option-cases (Dict.get chs channel)) [
  | inl e ↦
      rw (e, add, called) (ground (arith, Dict.get-set chs channel (c ∷ []) j, =?_iff channel j))
  | inr (cs, e) ↦
      rw (e, add, called)
        (ground (arith, Dict.get-set chs channel (insert c cs) j, =?_iff channel j))
]

list_cases : (l : List ℕ) → (l ≡ []) ⊎ ((d : ℕ) × (ds : List ℕ) × (l ≡ d ∷ ds))
list_cases [] = inl refl
list_cases (d ∷ ds) = inr (d, ds, refl)

-- A callback that is removed from a channel no longer listens to it; its other callbacks do, in
-- their order, and the other channels keep theirs.
called-remove_callback :
    (chs : Channels) (channel j : String) (c : ℕ)
    → called (remove_callback chs channel c) j
      ≡ (if channel =? j then without c (called chs channel) else called chs j)
unfolding remove_callback called without
called-remove_callback chs channel j c = elim (Option-cases (Dict.get chs channel)) [
  | inl e ↦
      rw (e, remove_callback, called)
        (elim (key_cases channel j) [
          | inl q ↦ ground (arith, =?_iff channel j, sym (ap (Dict.get chs) q) ∙ e)
          | inr n ↦ ground (arith, =?_iff channel j)
        ])
  | inr (cs, e) ↦ elim (list_cases (without c cs)) [
    | inl w ↦
        rw (e, w, remove_callback, called)
          (ground (arith, Dict.get-delete chs channel j, =?_iff channel j))
    | inr (d, ds, w) ↦
        rw (e, w, remove_callback, called)
          (ground (arith, Dict.get-set chs channel (d ∷ ds) j, =?_iff channel j))
  ]
]
