-- ===== src/Codec/Values.antt =====
-- schema-codec.ts: values of one field or element, written by `writeScalar` and read by
-- `readScalar`. A value is checked against its type where it is written.
pub mod Integers
pub mod Scalars
pub mod Advances
use bungohan.Base.{
  ℕ, ◌+◌, ◌*◌, ◌/◌, ◌%◌, Bool, true, false, Option, none, some, List, ltb, ◌==◌, if◌then◌else◌,
  bit_and,
}
use bungohan.Base.Int.{ℤ, pos, negsuc}
use bungohan.Numbers.{IntKind, int8, int16, int32, uint8, uint16, uint32, double, is_int_of}
use bungohan.Serializer.Zigzag.{two32, to_uint32, to_int32}
use bungohan.Serializer.Reader
use bungohan.Serializer.Reader.{ByteReader, fail, codec_error}
use bungohan.Serializer.Writer
use bungohan.Serializer.Writer.{ByteWriter}
use bungohan.Codec.FieldType.{Scalar, float64, float32, string, bool, fixed, int}
use bungohan.Codec.Platform.{Platform, int_of, magnitude}

-- WireKey.
pub data Key (F : Type 0) : Type 0 where
  number : F → Key F
  text : List ℕ → Key F
  flag : Bool → Key F

-- What is read, and the reader behind it.
abbrev pub Read : Type 0 → Type 0
Read A = ByteReader → A × ByteReader

infixl 5 ◌>>=◌
abbrev pub ◌>>=◌ : {A B : Type 0} → Read A → (A → Read B) → Read B
m >>= f = λ r. let x = m r in f x.0 x.1

abbrev pub return : {A : Type 0} → A → Read A
return a = λ r. (a, r)

-- `if (input.error !== undefined) return other`
abbrev pub unless_failed : {A : Type 0} → A → Read A → Read A
unless_failed other m = λ r. elim r.error [ some e ↦ (other, r) | none ↦ m r ]

-- `input.fail(message); return a`
abbrev pub failing : {A : Type 0} → A → Read A
failing a = λ r. (a, fail r codec_error)

-- `if (test) input.fail(message)`, and on.
abbrev pub failing_if : {A : Type 0} → Bool → A → Read A
failing_if test a = λ r. (a, if test then fail r codec_error else r)

-- The number that a pattern of 32 bits is, divided by `2^24` and rounded down: `>> 24`.
abbrev shift_right_24 : ℤ → ℤ
shift_right_24 (pos n) = pos (n / 16_777_216)
shift_right_24 (negsuc n) = negsuc (n / 16_777_216)

-- `(byte << 24) >> 24`
unfoldable pub sign_extend : ℕ → ℤ
sign_extend byte = shift_right_24 (to_int32 (byte * 16_777_216 % two32))

-- `value & 0xff`
unfoldable pub low_byte : ℤ → ℕ
low_byte z = bit_and (to_uint32 z) 0xff

module _ {F : Type 0} (p : Platform F) where
  -- writeInt, for a value that is in the range of the kind.
  unfoldable pub write_int : ByteWriter → IntKind → ℤ → ByteWriter
  write_int out int8 z = Writer.u8 out (low_byte z)
  write_int out uint8 z = Writer.u8 out (low_byte z)
  write_int out int16 z = Writer.zigzag out z
  write_int out int32 z = Writer.zigzag out z
  write_int out uint16 z = Writer.varint out (to_uint32 z)
  write_int out uint32 z = Writer.varint out (to_uint32 z)

  abbrev write_kind : ByteWriter → IntKind → Option ℤ → Option ByteWriter
  write_kind out kind none = none
  write_kind out kind (some z) = some (write_int out kind z)

  abbrev write_fixed : ByteWriter → Option ℤ → Option ByteWriter
  write_fixed out none = none
  write_fixed out (some z) = some (Writer.zigzag out z)

  -- writeScalar, with `none` for a `Fail`, before which nothing is written.
  unfoldable pub write_scalar : ByteWriter → Scalar → Key F → Option ByteWriter
  write_scalar out float64 (number x) = some (Writer.float64 p.is_nan p.put64 out x)
  write_scalar out float32 (number x) = some (Writer.float32 p.is_nan p.put32 out x)
  write_scalar out string (text s) = some (Writer.string p.encode_into out s)
  write_scalar out bool (flag b) = some (Writer.u8 out (if b then 1 else 0))
  write_scalar out (fixed n) (number x) = write_fixed out (int_of p x int32)
  write_scalar out (int kind) (number x) = write_kind out kind (int_of p x kind)
  write_scalar out type value = none

  -- What `readInt` has before its check of the range.
  unfoldable pub read_int_value : IntKind → Read ℤ
  read_int_value int8 = Reader.u8 >>= λ byte. return (sign_extend byte)
  read_int_value uint8 = Reader.u8 >>= λ byte. return (pos byte)
  read_int_value int16 = Reader.zigzag
  read_int_value int32 = Reader.zigzag
  read_int_value uint16 = Reader.varint >>= λ n. return (pos n)
  read_int_value uint32 = Reader.varint >>= λ n. return (pos n)

  -- readInt
  unfoldable pub read_int : IntKind → Read ℤ
  read_int kind = read_int_value kind >>= λ z.
      failing_if (if is_int_of (some (double z)) kind then false else true) z

  -- readScalar
  unfoldable pub read_scalar : Scalar → Read (Key F)
  read_scalar float64 = Reader.float64 (p.of_int (pos 0)) p.get64 >>= λ x. return (number x)
  read_scalar float32 = Reader.float32 (p.of_int (pos 0)) p.get32 >>= λ x. return (number x)
  read_scalar string = Reader.string p.decode >>= λ s. return (text s)
  read_scalar bool = Reader.u8 >>= λ byte. failing_if (ltb 1 byte) (flag (byte == 1))
  read_scalar (fixed n) = Reader.zigzag >>= λ z. return (number (p.of_int z))
  read_scalar (int kind) = read_int kind >>= λ z. return (number (p.of_int z))
