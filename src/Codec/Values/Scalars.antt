-- ===== src/Codec/Values/Scalars.antt =====
-- schema-codec.ts, `writeScalar` and `readScalar`: what a scalar is behind the wire.
use bungohan.Base.{
  ℕ, ◌*◌, ◌≤◌, ◌≡◌, ap, subst, sym, Bool, true, false, Option, none, some, List, length, arith,
  if◌then◌else◌, ltb, ◌==◌, branch_cases,
}
use bungohan.Base.Int.{ℤ, pos}
use bungohan.Numbers.{double, trunc, IntKind, int8, int16, int32, uint8, uint16, uint32, is_int_of}
use bungohan.Serializer.Varint.{max_varint}
use bungohan.Serializer.Zigzag.{to_uint32}
use bungohan.Serializer.Text.{wire_string}
use bungohan.Serializer.Reader
use bungohan.Serializer.Reader.{ByteReader, codec_error}
use bungohan.Serializer.Writer
use bungohan.Serializer.Writer.{ByteWriter}
use bungohan.Serializer.Writer.Grow.{IsFit}
use bungohan.Serializer.Writer.Contents.{float64_bytes, float32_bytes}
use bungohan.Codec.FieldType.{Scalar, float64, float32, string, bool, fixed, int}
use bungohan.Codec.Platform.{Platform, IsPlatform, int_of}
use bungohan.Codec.Coded.{
  Coded, then_coded, nothing, Coded-IsFit, coded_u8, coded_varint, coded_zigzag, coded_string,
  coded_float64, coded_float32,
}
use bungohan.Codec.Values.{
  Key, number, text, flag, Read, ◌>>=◌, return, failing_if, write_int, write_kind, write_fixed,
  write_scalar, read_int_value, read_int, read_scalar, sign_extend, low_byte,
}
use bungohan.Codec.Values.Integers.{
  IsBetween, limits, is_int_of-IsBetween, sign_extend-low_byte, low_byte-bound, low_byte-unsigned,
  to_uint32-unsigned, IsBetween-wider, IsBetween-IsInt32,
}

-- A text that the codec can write.
abbrev pub IsShort : {F : Type 0} → Key F → Type 0
IsShort (number x) = Unit
IsShort (text s) = 3 * length s ≤ max_varint
IsShort (flag b) = Unit

module _ {F : Type 0} (p : Platform F) where
  -- The integer that a number is.
  abbrev pub whole : F → F
  whole x = p.of_int (trunc (p.view x))

  -- What a scalar of a type is behind the wire.
  abbrev pub sent_scalar : Scalar → Key F → Key F
  sent_scalar float64 (number x) = number (p.get64 (float64_bytes p.is_nan p.put64 x))
  sent_scalar float32 (number x) = number (p.get32 (float32_bytes p.is_nan p.put32 x))
  sent_scalar (fixed n) (number x) = number (whole x)
  sent_scalar (int kind) (number x) = number (whole x)
  sent_scalar type (text s) = text (wire_string s)
  sent_scalar type k = k

-- What a write says of the read behind it; nothing for a `Fail`.
abbrev pub WriteRead : {A : Type 0} → ByteWriter → Read A → A → Option ByteWriter → Type 0
WriteRead w m v none = Unit
WriteRead w m v (some w') = Coded w w' m v

module _ {A B : Type 0} {w w' : ByteWriter} {m : Read A} {v : A} where
  pub map_coded : (f : A → B) → Coded w w' m v → Coded w w' (m >>= λ x. return (f x)) (f v)
  map_coded f c = then_coded (λ x. return (f x)) c (nothing w' (f v) (Coded-IsFit c))

passes :
    (w : ByteWriter) (test : Bool) {A : Type 0} (v : A)
    → test ≡ false
    → IsFit w
    → Coded w w (failing_if test v) v
passes w test v e f = subst (λ x. Coded w w (failing_if x v) v) (sym e) (nothing w v f)

module _ {F : Type 0} (p : Platform F) where
  coded_int_value :
      (w : ByteWriter) (kind : IntKind) (z : ℤ)
      → IsBetween (limits kind).0 (limits kind).1 z
      → IsFit w
      → Coded w (write_int p w kind z) (read_int_value p kind) z
  unfolding write_int read_int_value limits
  coded_int_value w int8 z h f =
      subst (λ x. Coded w (Writer.u8 w (low_byte z)) (Reader.u8 >>= λ b. return (sign_extend b)) x)
        (sign_extend-low_byte z h)
        (map_coded sign_extend (
          coded_u8 w (low_byte z)
            (low_byte-bound z (IsBetween-wider 128 128 128 256 z (omega arith) (omega arith) h)) f))
  coded_int_value w int16 z h f =
      coded_zigzag w z
        (IsBetween-IsInt32 z (IsBetween-wider 32_768 32_768 _ _ z (omega arith) (omega arith) h)) f
  coded_int_value w int32 z h f = coded_zigzag w z (IsBetween-IsInt32 z h) f
  coded_int_value w uint8 z h f =
      subst (λ x. Coded w (Writer.u8 w (low_byte z)) (Reader.u8 >>= λ b. return (pos b)) x)
        (low_byte-unsigned z h)
        (map_coded pos (
          coded_u8 w (low_byte z)
            (low_byte-bound z (IsBetween-wider 0 256 128 256 z (omega arith) (omega arith) h)) f))
  coded_int_value w uint16 z h f =
      let (small, same) =
        to_uint32-unsigned z
          (IsBetween-wider 0 65_536 0 4_294_967_296 z (omega arith) (omega arith) h) in
      subst (λ x. Coded w (Writer.varint w (to_uint32 z)) (Reader.varint >>= λ n. return (pos n)) x)
        same (map_coded pos (coded_varint w (to_uint32 z) small f))
  coded_int_value w uint32 z h f =
      let (small, same) = to_uint32-unsigned z h in
      subst (λ x. Coded w (Writer.varint w (to_uint32 z)) (Reader.varint >>= λ n. return (pos n)) x)
        same (map_coded pos (coded_varint w (to_uint32 z) small f))

  -- What is read is in the range, so `failing_if` does not fail.
  coded_int :
      (w : ByteWriter) (kind : IntKind) (z : ℤ)
      → IsBetween (limits kind).0 (limits kind).1 z
      → is_int_of (some (double z)) kind ≡ true
      → IsFit w
      → Coded w (write_int p w kind z) (read_int p kind) z
  unfolding read_int
  coded_int w kind z h e f =
      let c = coded_int_value w kind z h f in
      let test = if is_int_of (some (double z)) kind then false else true in
      then_coded (λ z. failing_if (if is_int_of (some (double z)) kind then false else true) z) c
        (passes (write_int p w kind z) test z (ap (λ b. if b then false else true) e)
          (Coded-IsFit c))

  integer_coded :
      (w : ByteWriter) (kind : IntKind) (x : F)
      → is_int_of (some (p.view x)) kind ≡ true
      → IsFit w
      → Coded w (write_int p w kind (trunc (p.view x))) (read_int p kind) (trunc (p.view x))
  integer_coded w kind x e f =
      let (h, k) = is_int_of-IsBetween (p.view x) kind e in
      coded_int w kind (trunc (p.view x)) h k f

  write_kind-read :
      (w : ByteWriter) (kind : IntKind) (x : F)
      → IsFit w
      → WriteRead w
          (read_scalar p (int kind))
          (number (whole p x))
          (write_kind p w kind (int_of p x kind))
  unfolding read_scalar
  write_kind-read w kind x f =
      branch_cases
        (λ (o : Option ℤ).
          WriteRead w (read_scalar p (int kind)) (number (whole p x)) (write_kind p w kind o))
        (is_int_of (some (p.view x)) kind) _ _
        (λ e. map_coded (λ z. number (p.of_int z)) (integer_coded w kind x e f)) (λ e. tt)

  write_fixed-read :
      (w : ByteWriter) (n : ℕ) (x : F)
      → IsFit w
      → WriteRead w
          (read_scalar p (fixed n))
          (number (whole p x))
          (write_fixed p w (int_of p x int32))
  unfolding read_scalar limits
  write_fixed-read w n x f =
      branch_cases
        (λ (o : Option ℤ).
          WriteRead w (read_scalar p (fixed n)) (number (whole p x)) (write_fixed p w o))
        (is_int_of (some (p.view x)) int32) _ _
        (λ e.
          let (h, k) = is_int_of-IsBetween (p.view x) int32 e in
          map_coded (λ z. number (p.of_int z))
            (coded_zigzag w (trunc (p.view x)) (IsBetween-IsInt32 (trunc (p.view x)) h) f))
        (λ e. tt)

  flag_read :
      (w : ByteWriter) (b : Bool)
      → IsFit w
      → Coded w (Writer.u8 w (if b then 1 else 0)) (read_scalar p bool) (flag b)
  unfolding read_scalar
  flag_read w false f =
      then_coded (λ byte. failing_if (ltb 1 byte) (flag (byte == 1))) (coded_u8 w 0 (omega arith) f)
        (nothing (Writer.u8 w 0) (flag false) (Coded-IsFit (coded_u8 w 0 (omega arith) f)))
  flag_read w true f =
      then_coded (λ byte. failing_if (ltb 1 byte) (flag (byte == 1))) (coded_u8 w 1 (omega arith) f)
        (nothing (Writer.u8 w 1) (flag true) (Coded-IsFit (coded_u8 w 1 (omega arith) f)))

module _ {F : Type 0} (p : Platform F) (encode : List ℕ → List ℕ) (l : IsPlatform p encode) where
  pub write_scalar-read_scalar :
      (w : ByteWriter) (type : Scalar) (k : Key F)
      → IsShort k
      → IsFit w
      → WriteRead w (read_scalar p type) (sent_scalar p type k) (write_scalar p w type k)
  unfolding write_scalar read_scalar
  write_scalar-read_scalar w float64 (number x) h f =
      map_coded number (coded_float64 p encode l w x (p.of_int (pos 0)) f)
  write_scalar-read_scalar w float64 (text s) h f = tt
  write_scalar-read_scalar w float64 (flag b) h f = tt
  write_scalar-read_scalar w float32 (number x) h f =
      map_coded number (coded_float32 p encode l w x (p.of_int (pos 0)) f)
  write_scalar-read_scalar w float32 (text s) h f = tt
  write_scalar-read_scalar w float32 (flag b) h f = tt
  write_scalar-read_scalar w string (text s) h f = map_coded text (coded_string p encode l w s h f)
  write_scalar-read_scalar w string (number x) h f = tt
  write_scalar-read_scalar w string (flag b) h f = tt
  write_scalar-read_scalar w bool (flag b) h f = flag_read p w b f
  write_scalar-read_scalar w bool (number x) h f = tt
  write_scalar-read_scalar w bool (text s) h f = tt
  write_scalar-read_scalar w (fixed n) (number x) h f = write_fixed-read p w n x f
  write_scalar-read_scalar w (fixed n) (text s) h f = tt
  write_scalar-read_scalar w (fixed n) (flag b) h f = tt
  write_scalar-read_scalar w (int kind) (number x) h f = write_kind-read p w kind x f
  write_scalar-read_scalar w (int kind) (text s) h f = tt
  write_scalar-read_scalar w (int kind) (flag b) h f = tt
