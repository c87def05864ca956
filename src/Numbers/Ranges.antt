-- ===== src/Numbers/Ranges.antt =====
-- The integers that numbers are coerced into.
use bungohan.Base.{ℕ, zero, suc, ◌≡◌, refl, ◌∙◌, Bool, true, false, some, ◌&&◌, arith}
use bungohan.Base.Int.{ℤ, pos, negsuc}
use bungohan.Numbers.{
  Double, nan, infinite, finite, double, IntKind, int8, int16, int32, uint8, uint16, uint32,
  int_range, is_int_of, to_int, saturate, is_integer, ge_int, le_int,
}

abbrev pub is_nan : Double → Bool
is_nan nan = true
is_nan _ = false

-- The tests that `isIntOf` makes of an integer.
abbrev in_range : ℤ → ℤ → ℤ → Bool
in_range min max z = is_integer (double z) && ge_int (double z) min && le_int (double z) max

saturate_signed :
    (m k : ℕ) (value : Double)
    → in_range (negsuc m) (pos k) (saturate (negsuc m) (pos k) value) ≡ true
saturate_signed m k nan = ground arith
saturate_signed m k (infinite true) = ground arith
saturate_signed m k (infinite false) = ground arith
saturate_signed m k (finite true zero f) = ground arith
saturate_signed m k (finite true (suc n) f) = ground arith
saturate_signed m k (finite false n f) = ground arith

saturate_unsigned :
    (k : ℕ) (value : Double) → in_range (pos 0) (pos k) (saturate (pos 0) (pos k) value) ≡ true
saturate_unsigned k nan = ground arith
saturate_unsigned k (infinite true) = ground arith
saturate_unsigned k (infinite false) = ground arith
saturate_unsigned k (finite true n f) = ground arith
saturate_unsigned k (finite false n f) = ground arith

kept_signed :
    (m k : ℕ) (z : ℤ)
    → in_range (negsuc m) (pos k) z ≡ true
    → saturate (negsuc m) (pos k) (double z) ≡ z
kept_signed m k (pos n) h = ground arith
kept_signed m k (negsuc n) h = ground arith

kept_unsigned :
    (k : ℕ) (z : ℤ) → in_range (pos 0) (pos k) z ≡ true → saturate (pos 0) (pos k) (double z) ≡ z
kept_unsigned k (pos n) h = ground arith
kept_unsigned k (negsuc n) h = ground arith

-- NaN would fall through the tests to 0 as well.
to_int-saturate :
    (value : Double) (kind : IntKind)
    → to_int value kind ≡ saturate (int_range kind).0 (int_range kind).1 value
unfolding to_int
to_int-saturate nan kind = refl
to_int-saturate (infinite negative) kind = refl
to_int-saturate (finite negative n f) kind = refl

saturate_kind :
    (value : Double) (kind : IntKind)
    → let (min, max) = int_range kind in in_range min max (saturate min max value) ≡ true
unfolding int_range
saturate_kind value int8 = saturate_signed 127 127 value
saturate_kind value int16 = saturate_signed 32_767 32_767 value
saturate_kind value int32 = saturate_signed 2_147_483_647 2_147_483_647 value
saturate_kind value uint8 = saturate_unsigned 255 value
saturate_kind value uint16 = saturate_unsigned 65_535 value
saturate_kind value uint32 = saturate_unsigned 4_294_967_295 value

kept_kind :
    (z : ℤ) (kind : IntKind)
    → let (min, max) = int_range kind in in_range min max z ≡ true → saturate min max (double z) ≡ z
unfolding int_range
kept_kind z int8 h = kept_signed 127 127 z h
kept_kind z int16 h = kept_signed 32_767 32_767 z h
kept_kind z int32 h = kept_signed 2_147_483_647 2_147_483_647 z h
kept_kind z uint8 h = kept_unsigned 255 z h
kept_kind z uint16 h = kept_unsigned 65_535 z h
kept_kind z uint32 h = kept_unsigned 4_294_967_295 z h

-- Whatever the number, `toInt` gives an integer of the kind, by the test of `isIntOf`; and what
-- is such an integer, `toInt` leaves as it is.
pub to_int-is_int_of :
    (value : Double) (z : ℤ) (kind : IntKind)
    → (is_int_of (some (double (to_int value kind))) kind ≡ true)
      × (is_int_of (some (double z)) kind ≡ true → to_int (double z) kind ≡ z)
unfolding is_int_of
to_int-is_int_of value z kind = (
  rw (to_int-saturate value kind) (saturate_kind value kind),
  λ h. to_int-saturate (double z) kind ∙ kept_kind z kind h,
)
