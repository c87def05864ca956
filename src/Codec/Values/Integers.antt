-- ===== src/Codec/Values/Integers.antt =====
-- schema-codec.ts, `writeInt` and `readInt`: the ranges of integers of a kind, and their bytes.
use bungohan.Base.{
  ℕ, zero, suc, ◌-◌, ◌*◌, ◌/◌, ◌%◌, ◌≤◌, ◌<◌, ◌≡◌, refl, ap, true, false, ◌&&◌, some, arith,
  same_below, same_below→eq,
}
use bungohan.Base.Int.{ℤ, pos, negsuc}
use bungohan.Numbers.{
  Double, nan, infinite, finite, exact, below, half, above, double, trunc, is_integer, ge_int,
  le_int, IntKind, int8, int16, int32, uint8, uint16, uint32, int_range, is_int_of,
}
use bungohan.Serializer.Varint.{max_varint}
use bungohan.Serializer.Zigzag.{two32, two31, to_uint32, to_int32, IsInt32}
use bungohan.Codec.Values.{low_byte, sign_extend}

-- From `- lo` up to `hi - 1`.
unfoldable pub IsBetween : ℕ → ℕ → ℤ → Type 0
IsBetween lo hi (pos n) = n < hi
IsBetween lo hi (negsuc n) = n < lo

-- The size of a kind on each side of 0.
unfoldable pub limits : IntKind → ℕ × ℕ
limits int8 = (128, 128)
limits int16 = (32_768, 32_768)
limits int32 = (2_147_483_648, 2_147_483_648)
limits uint8 = (0, 256)
limits uint16 = (0, 65_536)
limits uint32 = (0, 4_294_967_296)

abbrev IsChecked : ℤ → ℤ → Double → Type 0
IsChecked min max v = (is_integer v && ge_int v min && le_int v max) ≡ true

signed_lem :
    (m k : ℕ) (v : Double)
    → IsChecked (negsuc m) (pos k) v
    → IsBetween (suc m) (suc k) (trunc v) × IsChecked (negsuc m) (pos k) (double (trunc v))
unfolding IsBetween
signed_lem m k nan h = ground (arith, h)
signed_lem m k (infinite negative) h = ground (arith, h)
signed_lem m k (finite true zero f) h = ground (arith, h)
signed_lem m k (finite true (suc n) exact) h = ground (arith, h)
signed_lem m k (finite true (suc n) below) h = ground (arith, h)
signed_lem m k (finite true (suc n) half) h = ground (arith, h)
signed_lem m k (finite true (suc n) above) h = ground (arith, h)
signed_lem m k (finite false n f) h = ground (arith, h)

unsigned_lem :
    (k : ℕ) (v : Double)
    → IsChecked (pos 0) (pos k) v
    → IsBetween 0 (suc k) (trunc v) × IsChecked (pos 0) (pos k) (double (trunc v))
unfolding IsBetween
unsigned_lem k nan h = ground (arith, h)
unsigned_lem k (infinite negative) h = ground (arith, h)
unsigned_lem k (finite true zero f) h = ground (arith, h)
unsigned_lem k (finite true (suc n) f) h = ground (arith, h)
unsigned_lem k (finite false n f) h = ground (arith, h)

pub is_int_of-IsBetween :
    (v : Double) (kind : IntKind)
    → is_int_of (some v) kind ≡ true
    → IsBetween (limits kind).0 (limits kind).1 (trunc v)
      × (is_int_of (some (double (trunc v))) kind ≡ true)
unfolding is_int_of int_range limits
is_int_of-IsBetween v int8 h = signed_lem 127 127 v h
is_int_of-IsBetween v int16 h = signed_lem 32_767 32_767 v h
is_int_of-IsBetween v int32 h = signed_lem 2_147_483_647 2_147_483_647 v h
is_int_of-IsBetween v uint8 h = unsigned_lem 255 v h
is_int_of-IsBetween v uint16 h = unsigned_lem 65_535 v h
is_int_of-IsBetween v uint32 h = unsigned_lem 4_294_967_295 v h

-- The bytes of small integers, checked by evaluation.
low_byte-pos : (n : ℕ) → n < 256 → low_byte (pos n) ≡ n
unfolding low_byte to_uint32 same_below
low_byte-pos n h = same_below→eq (λ x. low_byte (pos x)) (λ x. x) 256 n refl h

low_byte-negsuc : (n : ℕ) → n < 128 → low_byte (negsuc n) ≡ 255 - n
unfolding low_byte to_uint32 same_below
low_byte-negsuc n h = same_below→eq (λ x. low_byte (negsuc x)) (λ x. 255 - x) 128 n refl h

sign_extend-small : (b : ℕ) → b < 128 → sign_extend b ≡ pos b
unfolding sign_extend to_int32
sign_extend-small b h =
    let small : b * 16_777_216 % two32 ≡ b * 16_777_216 = omega arith in
    let back : b * 16_777_216 / 16_777_216 ≡ b = omega arith in rw small (ground (arith, back))

sign_extend-large : (n : ℕ) → n < 128 → sign_extend (255 - n) ≡ negsuc n
unfolding sign_extend to_int32
sign_extend-large n h =
    let small : (255 - n) * 16_777_216 % two32 ≡ (255 - n) * 16_777_216 = omega arith in
    let back : (two32 - 1 - (255 - n) * 16_777_216) / 16_777_216 ≡ n = omega arith in
    rw small (ground (arith, back))

pub sign_extend-low_byte : (z : ℤ) → IsBetween 128 128 z → sign_extend (low_byte z) ≡ z
unfolding IsBetween
sign_extend-low_byte (pos n) h = rw (low_byte-pos n (omega arith)) (sign_extend-small n h)
sign_extend-low_byte (negsuc n) h = rw (low_byte-negsuc n h) (sign_extend-large n h)

pub low_byte-bound : (z : ℤ) → IsBetween 128 256 z → low_byte z < 256
unfolding IsBetween
low_byte-bound (pos n) h = omega (arith, low_byte-pos n h)
low_byte-bound (negsuc n) h = omega (arith, low_byte-negsuc n h)

pub low_byte-unsigned : (z : ℤ) → IsBetween 0 256 z → pos (low_byte z) ≡ z
unfolding IsBetween
low_byte-unsigned (pos n) h = ap pos (low_byte-pos n h)
low_byte-unsigned (negsuc n) h = absurd (omega arith)

pub to_uint32-unsigned :
    (z : ℤ) → IsBetween 0 4_294_967_296 z → (to_uint32 z ≤ max_varint) × (pos (to_uint32 z) ≡ z)
unfolding IsBetween to_uint32
to_uint32-unsigned (pos n) h =
    let small : n % two32 ≡ n = omega arith in rw small (omega arith, refl)
to_uint32-unsigned (negsuc n) h = absurd (omega arith)

pub IsBetween-wider :
    (lo hi lo' hi' : ℕ) (z : ℤ) → lo ≤ lo' → hi ≤ hi' → IsBetween lo hi z → IsBetween lo' hi' z
unfolding IsBetween
IsBetween-wider lo hi lo' hi' (pos n) a b h = omega arith
IsBetween-wider lo hi lo' hi' (negsuc n) a b h = omega arith

pub IsBetween-IsInt32 : (z : ℤ) → IsBetween two31 two31 z → IsInt32 z
unfolding IsBetween IsInt32
IsBetween-IsInt32 (pos n) h = h
IsBetween-IsInt32 (negsuc n) h = h
