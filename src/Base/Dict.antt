-- ===== src/Base/Dict.antt =====
-- JavaScript's `Map`. A map keeps its entries in the order in which the keys were first set:
-- `set` on a key that is there replaces the value in place, on any other key it appends an entry.
use mathlib.Core.Path.{◌≡◌, refl}
use mathlib.Core.Logic.{◌≢◌}
use mathlib.Core.Bool.{Bool, true, false}
use mathlib.Core.Option.{Option, none, some}
use mathlib.Core.List.{List, [], ◌∷◌, map}
use Prim.Native.Nat.{ℕ}
use native.Mathlib.Omega.{arith}
use bungohan.Base.Tests.{if◌then◌else◌}
use bungohan.Base.Lists.{length}
use bungohan.Base.Keys.{Eq, ◌=?◌, =?_iff}

abbrev pub Dict {ℓ κ} : Type ℓ → Type κ → Type (ℓ ⊔ κ)
Dict K V = List (K × V)

module _ {ℓ κ} {K : Type ℓ} {V : Type κ} where
  -- `[...map.keys()]`
  abbrev pub keys : Dict K V → List K
  keys m = map (λ e. e.0) m

  -- `[...map.values()]`
  abbrev pub values : Dict K V → List V
  values m = map (λ e. e.1) m

  -- `map.size`
  abbrev pub size : Dict K V → ℕ
  size m = length m

-- The key is in the list.
unfoldable pub listed {ℓ} : {K : Type ℓ} ⦃e : Eq K⦄ → K → List K → Bool
listed k [] = false
listed k (j ∷ ks) = if j =? k then true else listed k ks

module _ {ℓ κ} {K : Type ℓ} {V : Type κ} ⦃e : Eq K⦄ where
  -- `map.get(key)`
  unfoldable pub get : Dict K V → K → Option V
  get [] k = none
  get ((j, v) ∷ m) k = if j =? k then some v else get m k

  -- `map.set(key, value)`
  unfoldable pub set : Dict K V → K → V → Dict K V
  set [] k v = (k, v) ∷ []
  set ((j, w) ∷ m) k v = let rest = set m k v in if j =? k then (j, v) ∷ m else (j, w) ∷ rest

  -- `map.delete(key)`
  unfoldable pub delete : Dict K V → K → Dict K V
  delete [] k = []
  delete ((j, w) ∷ m) k = let rest = delete m k in if j =? k then rest else (j, w) ∷ rest

  -- `map.has(key)`, and the result of `map.delete(key)`; no map of the program holds `undefined`.
  abbrev pub has : Dict K V → K → Bool
  has m k = elim (get m k) [ none ↦ false | some v ↦ true ]

module _ {ℓ κ} {K : Type ℓ} {V : Type κ} ⦃e : Eq K⦄ where
  pub get-set :
      (m : Dict K V) (k : K) (v : V) (j : K)
      → get (set m k v) j ≡ (if k =? j then some v else get m j)
  unfolding get set
  get-set [] k v j = refl
  get-set ((i, w) ∷ m) k v j = ground (arith, =?_iff i k, =?_iff i j, =?_iff k j, get-set m k v j)

  pub get-delete :
      (m : Dict K V) (k j : K) → get (delete m k) j ≡ (if k =? j then none else get m j)
  unfolding get delete
  get-delete [] k j = ground arith
  get-delete ((i, w) ∷ m) k j = ground (arith, =?_iff i k, =?_iff i j, =?_iff k j, get-delete m k j)

  pub get-empty : (k : K) → get {V = V} [] k ≡ none
  unfolding get
  get-empty k = refl

module _ {ℓ κ} {K : Type ℓ} {V : Type κ} ⦃e : Eq K⦄ where
  pub get-set_self : (m : Dict K V) (k : K) (v : V) → get (set m k v) k ≡ some v
  get-set_self m k v = ground (arith, get-set m k v k, =?_iff k k)

  pub get-set_ne : (m : Dict K V) (k : K) (v : V) (j : K) → k ≢ j → get (set m k v) j ≡ get m j
  get-set_ne m k v j n = ground (arith, get-set m k v j, =?_iff k j)

  pub get-delete_self : (m : Dict K V) (k : K) → get (delete m k) k ≡ none
  get-delete_self m k = ground (arith, get-delete m k k, =?_iff k k)

  pub get-delete_ne : (m : Dict K V) (k j : K) → k ≢ j → get (delete m k) j ≡ get m j
  get-delete_ne m k j n = ground (arith, get-delete m k j, =?_iff k j)

module _ {ℓ κ} {K : Type ℓ} {V : Type κ} ⦃e : Eq K⦄ where
  -- Every key with a value is among the keys.
  pub listed-keys : (m : Dict K V) (k : K) (v : V) → get m k ≡ some v → listed k (keys m) ≡ true
  unfolding get listed
  listed-keys [] k v h = cc
  listed-keys ((j, w) ∷ m) k v h = ground (arith, listed-keys m k v)

pub ruleset dict_laws = (get-empty, get-set, get-delete)
