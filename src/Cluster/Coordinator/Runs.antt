-- ===== src/Cluster/Coordinator/Runs.antt =====
-- The coordinator's theorems at concrete members.
use bungohan.Base.{◌≡◌, refl, some, [], ◌∷◌, inl, inr}
use bungohan.Cluster.Coordinator.{Text, fnv1a, coordinator_of, score_of}
use bungohan.Cluster.Coordinator.Rendezvous.{
  In, IsHighest, coordinator_of-IsHighest, coordinator_of_same,
}

-- "p1" and "p2"
abbrev p1 : Text
p1 = 112 ∷ 49 ∷ []

abbrev p2 : Text
p2 = 112 ∷ 50 ∷ []

-- The hash of "a" in the published test vectors.
fnv1a_a : fnv1a (97 ∷ []) ≡ 0xe40c_292c
unfolding fnv1a
fnv1a_a = refl

coordinator_of-IsHighest_example :
    (r : Text) × (coordinator_of (7 ∷ []) (p1 ∷ p2 ∷ []) ≡ some r)
    × IsHighest (score_of (7 ∷ [])) (p1 ∷ p2 ∷ []) r
coordinator_of-IsHighest_example = coordinator_of-IsHighest (7 ∷ []) p1 (p2 ∷ [])

swapped : (a b m : Text) → In m (a ∷ b ∷ []) → In m (b ∷ a ∷ [])
swapped a b m (inl e) = inr (inl e)
swapped a b m (inr (inl e)) = inl e
swapped a b m (inr (inr i)) = absurd i

coordinator_of_same_example :
    coordinator_of (7 ∷ []) (p1 ∷ p2 ∷ []) ≡ coordinator_of (7 ∷ []) (p2 ∷ p1 ∷ [])
coordinator_of_same_example =
    coordinator_of_same (7 ∷ []) (p1 ∷ p2 ∷ []) (p2 ∷ p1 ∷ [])
      (λ m. (swapped p1 p2 m, swapped p2 p1 m))
