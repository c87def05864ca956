-- ===== src/Base/Sizes.antt =====
-- How many entries a map has.
use mathlib.Core.Path.{◌≡◌}
use mathlib.Core.Option.{some}
use mathlib.Core.List.{[], ◌∷◌}
use Prim.Native.Nat.{suc, ◌≤◌}
use native.Mathlib.Omega.{arith}
use bungohan.Base.Keys.{Eq}
use bungohan.Base.Dict.{Dict, size, get, set, delete}

module _ {ℓ κ} {K : Type ℓ} {V : Type κ} ⦃e : Eq K⦄ where
  pub size-set : (m : Dict K V) (k : K) (v : V) → size (set m k v) ≤ suc (size m)
  unfolding set
  size-set [] k v = ground arith
  size-set ((j, w) ∷ m) k v = ground (arith, size-set m k v)

  -- A key that is there is set in its place.
  pub size-set_old : (m : Dict K V) (k : K) (v w : V) → get m k ≡ some w → size (set m k v) ≤ size m
  unfolding set get
  size-set_old [] k v w h = ground arith
  size-set_old ((j, u) ∷ m) k v w h = ground (arith, size-set_old m k v w)

  pub size-delete : (m : Dict K V) (k : K) → size (delete m k) ≤ size m
  unfolding delete
  size-delete [] k = ground arith
  size-delete ((j, u) ∷ m) k = ground (arith, size-delete m k)

  pub size-delete_old :
      (m : Dict K V) (k : K) (w : V) → get m k ≡ some w → suc (size (delete m k)) ≤ size m
  unfolding delete get
  size-delete_old [] k w h = ground (arith, h)
  size-delete_old ((j, u) ∷ m) k w h = ground (arith, size-delete m k, size-delete_old m k w)
