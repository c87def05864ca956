-- ===== src/Base/Keys.antt =====
-- Keys of maps and sets, compared as JavaScript compares them there.
use Prim.Native.Nat.{ℕ}
use Prim.Native.String.{String}
use mathlib.Core.Path.{◌≡◌, refl}
use mathlib.Core.Logic.{◌↔◌, ◌⊎◌, ◌≢◌, inl, inr}
use mathlib.Core.Bool.{Bool, true}
use text.Mathlib.Text.{◌==◌ as str_eq}
use text.Mathlib.TextEquality.{eq_iff}
use bungohan.Base.Tests.{◌==◌ as nat_eq, ==_iff, Bool-cases}

pub record Eq {ℓ} (K : Type ℓ) : Type ℓ where
  pub beq : K → K → Bool
  pub beq_iff : (j k : K) → (beq j k ≡ true) ↔ (j ≡ k)

-- `===` on keys.
infix 50 ◌=?◌
abbrev pub ◌=?◌ {ℓ} : {K : Type ℓ} ⦃e : Eq K⦄ → K → K → Bool
◌=?◌ ⦃e⦄ = e.beq

pub =?_iff {ℓ} : {K : Type ℓ} ⦃e : Eq K⦄ (j k : K) → ((j =? k) ≡ true) ↔ (j ≡ k)
=?_iff ⦃e⦄ = e.beq_iff

pub =?_self {ℓ} : {K : Type ℓ} ⦃e : Eq K⦄ (k : K) → (k =? k) ≡ true
=?_self ⦃e⦄ k = (e.beq_iff k k).1 refl

instance abbrev pub number_keys : Eq ℕ
number_keys = record { beq = nat_eq; beq_iff = ==_iff }

instance abbrev pub string_keys : Eq String
string_keys = record { beq = str_eq; beq_iff = eq_iff }

pub key_cases {ℓ} : {K : Type ℓ} ⦃e : Eq K⦄ (j k : K) → (j ≡ k) ⊎ (j ≢ k)
key_cases j k = elim (Bool-cases (j =? k)) [
  | inl y ↦ inl ((=?_iff j k).0 y)
  | inr n ↦ inr (λ p. cc (n, (=?_iff j k).1 p))
]
