-- ===== src/Serializer/Zigzag.antt =====
-- packages/serializer/src/bytes.ts: `zigzag` and `unzigzag`. JavaScript's operators of 32 bits
-- are functions on the patterns in 0..2^32-1.
use bungohan.Base.{
  ℕ, zero, suc, ◌+◌, ◌-◌, ◌*◌, ◌/◌, ◌%◌, ◌<◌, ◌≡◌, ◌∙◌, refl, ap, bit_and, bit_xor, arith, leb,
  if◌then◌else◌,
}
use bungohan.Base.Int.{ℤ, pos, negsuc}
use bungohan.Base.Xor.{bit_xor-zero, bit_xor-all, bit_and-one}

abbrev pub two32 : ℕ
two32 = 4_294_967_296

abbrev pub two31 : ℕ
two31 = 2_147_483_648

-- The pattern that an operator takes from an integer, of any size.
unfoldable pub to_uint32 : ℤ → ℕ
to_uint32 (pos n) = n % two32
to_uint32 (negsuc n) = two32 - 1 - n % two32

-- The integer of a pattern that an operator without `>>>` gives.
unfoldable pub to_int32 : ℕ → ℤ
to_int32 p = if leb two31 p then negsuc (two32 - 1 - p) else pos p

-- `p << 1`
abbrev shift_left : ℕ → ℕ
shift_left p = p * 2 % two32

-- `p >> 31`, which repeats the sign.
abbrev sign_fill : ℕ → ℕ
sign_fill p = if leb two31 p then two32 - 1 else 0

-- zigzag
unfoldable pub zigzag : ℤ → ℕ
zigzag value = let p = to_uint32 value in bit_xor (shift_left p) (sign_fill p)

-- `-n` for a number 0 or more.
abbrev minus : ℕ → ℤ
minus zero = pos 0
minus (suc n) = negsuc n

-- unzigzag, of an integer 0 or more.
pub unzigzag : ℕ → ℤ
unzigzag value = to_int32 (bit_xor (value % two32 / 2) (to_uint32 (minus (bit_and value 1))))

-- The integers of 32 bits.
unfoldable pub IsInt32 : ℤ → Type 0
IsInt32 (pos n) = n < two31
IsInt32 (negsuc n) = n < two31

-- An integer 0 or more goes to an even number, a negative one to an odd number.
zigzag-pos : (n : ℕ) → n < two31 → zigzag (pos n) ≡ 2 * n
unfolding zigzag to_uint32
zigzag-pos n h =
    let small : n % two32 ≡ n = omega arith in
    let even : n * 2 % two32 ≡ 2 * n = omega arith in
    rw (small, even) (ground (arith, bit_xor-zero (2 * n)))

zigzag-negsuc : (n : ℕ) → n < two31 → zigzag (negsuc n) ≡ 2 * n + 1
unfolding zigzag to_uint32
zigzag-negsuc n h =
    let small : n % two32 ≡ n = omega arith in
    let even : (two32 - 1 - n) * 2 % two32 ≡ two32 - 2 - 2 * n = omega arith in
    rw (small, even) (ground (arith, bit_xor-all 32 (two32 - 2 - 2 * n) (omega arith)))

unzigzag-even : (v : ℕ) → v < two32 → v % 2 ≡ 0 → unzigzag v ≡ pos (v / 2)
unfolding unzigzag to_uint32 to_int32
unzigzag-even v h e =
    let small : v % two32 ≡ v = omega arith in
    rw (bit_and-one v, e, small) (ground (arith, bit_xor-zero (v / 2)))

unzigzag-odd : (v : ℕ) → v < two32 → v % 2 ≡ 1 → unzigzag v ≡ negsuc (v / 2)
unfolding unzigzag to_uint32 to_int32
unzigzag-odd v h e =
    let small : v % two32 ≡ v = omega arith in
    let back : two32 - 1 - (two32 - 1 - v / 2) ≡ v / 2 = omega arith in
    rw (bit_and-one v, e, small) (ground (arith, back, bit_xor-all 32 (v / 2) (omega arith)))

pub unzigzag-zero : unzigzag 0 ≡ pos 0
unfolding unzigzag to_uint32 to_int32
unzigzag-zero = refl

pub zigzag-bound : (z : ℤ) → IsInt32 z → zigzag z < two32
unfolding IsInt32
zigzag-bound (pos n) h = omega (arith, zigzag-pos n h)
zigzag-bound (negsuc n) h = omega (arith, zigzag-negsuc n h)

-- `unzigzag` undoes `zigzag` on every integer of 32 bits.
pub unzigzag-zigzag : (z : ℤ) → IsInt32 z → unzigzag (zigzag z) ≡ z
unfolding IsInt32
unzigzag-zigzag (pos n) h =
    let half : 2 * n / 2 ≡ n = omega arith in
    rw (zigzag-pos n h) (unzigzag-even (2 * n) (omega arith) (omega arith) ∙ ap pos half)
unzigzag-zigzag (negsuc n) h =
    let half : (2 * n + 1) / 2 ≡ n = omega arith in
    rw (zigzag-negsuc n h) (unzigzag-odd (2 * n + 1) (omega arith) (omega arith) ∙ ap negsuc half)
