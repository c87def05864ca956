-- ===== src/Numbers.antt =====
-- packages/types/src/ints.ts and fixed.ts: coercion of numbers into integers of a width, and the
-- integer of a fixed-point number. A double is its sign, its whole part and where its fraction
-- lies; the product that rounds, `value * SCALE[decimals]`, is an argument.
pub mod Ranges
mod Runs
use bungohan.Base.{
  ℕ, zero, suc, ◌+◌, ◌^◌, Bool, true, false, not, Option, none, some, leb, ltb, ◌==◌, ◌&&◌,
  if◌then◌else◌,
}
use bungohan.Base.Int.{ℤ, pos, negsuc, leb_ℤ}

-- No fraction, one below, at or above a half.
pub data Fraction : Type 0 where
  exact below half above : Fraction

-- A double: `finite negative whole fraction` is the sum of the last two, with the sign.
pub data Double : Type 0 where
  nan : Double
  infinite : Bool → Double
  finite : Bool → ℕ → Fraction → Double

abbrev pub is_exact : Fraction → Bool
is_exact exact = true
is_exact _ = false

-- A number of this size and sign, which is never -0.
abbrev pub signed : Bool → ℕ → ℤ
signed true (suc n) = negsuc n
signed true zero = pos 0
signed false n = pos n

-- The double of an integer.
abbrev pub double : ℤ → Double
double (pos n) = finite false n exact
double (negsuc n) = finite true (suc n) exact

-- `value <= z`
abbrev pub le_int : Double → ℤ → Bool
le_int nan z = false
le_int (infinite negative) z = negative
le_int (finite true n f) (pos z) = true
le_int (finite true n f) (negsuc z) = leb (suc z) n
le_int (finite false n f) (pos z) = if is_exact f then leb n z else ltb n z
le_int (finite false n f) (negsuc z) = false

-- `value >= z`
abbrev pub ge_int : Double → ℤ → Bool
ge_int nan z = false
ge_int (infinite negative) z = not negative
ge_int (finite false n f) (pos z) = leb z n
ge_int (finite false n f) (negsuc z) = true
ge_int (finite true n f) (pos z) = z == 0 && n == 0 && is_exact f
ge_int (finite true n f) (negsuc z) = if is_exact f then leb n (suc z) else leb n z

pub data IntKind : Type 0 where
  int8 int16 int32 uint8 uint16 uint32 : IntKind

-- INT_RANGE
unfoldable pub int_range : IntKind → ℤ × ℤ
int_range int8 = (negsuc 127, pos 127)
int_range int16 = (negsuc 32_767, pos 32_767)
int_range int32 = (negsuc 2_147_483_647, pos 2_147_483_647)
int_range uint8 = (pos 0, pos 255)
int_range uint16 = (pos 0, pos 65_535)
int_range uint32 = (pos 0, pos 4_294_967_295)

-- Number.isInteger
abbrev pub is_integer : Double → Bool
is_integer (finite negative n f) = is_exact f
is_integer _ = false

-- isIntOf; `none` is a value that is no number.
unfoldable pub is_int_of : Option Double → IntKind → Bool
unfolding int_range
is_int_of none kind = false
is_int_of (some value) kind =
    let (min, max) = int_range kind in is_integer value && ge_int value min && le_int value max

-- Math.trunc, without -0.
abbrev pub trunc : Double → ℤ
trunc (finite negative n f) = signed negative n
trunc _ = pos 0

-- toInt behind its test for NaN: an infinity lies outside every range.
abbrev pub saturate : ℤ → ℤ → Double → ℤ
saturate min max value =
    if le_int value min then min else if ge_int value max then max else trunc value

-- toInt
pub to_int : Double → IntKind → ℤ
unfolding int_range
to_int nan kind = pos 0
to_int value kind = let (min, max) = int_range kind in saturate min max value

-- Math.round of a number 0 or more.
abbrev pub round_up : ℕ → Fraction → ℕ
round_up n exact = n
round_up n below = n
round_up n half = suc n
round_up n above = suc n

-- `scaled < 0 ? -Math.round(-scaled) : Math.round(scaled)`
abbrev pub round_away : Double → Double
round_away (finite negative n f) = finite negative (round_up n f) exact
round_away value = value

abbrev pub fixed_min : ℤ
fixed_min = negsuc 2_147_483_647

abbrev pub fixed_max : ℤ
fixed_max = pos 2_147_483_647

-- toFixed; the product of a number that is not NaN and a scale of 1 or more is not NaN.
pub to_fixed : (Double → ℕ → Double) → Double → ℕ → ℤ
to_fixed times nan decimals = pos 0
to_fixed times value decimals =
    saturate fixed_min fixed_max (round_away (times value (10 ^ decimals)))
