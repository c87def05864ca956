-- ===== src/Codec/Values/Advances.antt =====
-- schema-codec.ts: reads that go on in the same bytes, and those of scalars.
use bungohan.Base.{
  ◌≤◌, ◌≡◌, refl, sym, ap, subst, ◌∙◌, Bool, true, false, Option, none, some, [], length, arith,
  if◌then◌else◌, ltb, ◌==◌, inl, inr,
}
use bungohan.Base.Int.{pos}
use bungohan.Numbers.{IntKind, int8, int16, int32, uint8, uint16, uint32, is_int_of, double}
use bungohan.Serializer.Reader
use bungohan.Serializer.Reader.{ByteReader, fail, codec_error}
use bungohan.Serializer.Reader.Reads.{fail-Failed}
use bungohan.Serializer.Reader.Outcomes.{
  IsSound, Outcome, Failed-IsSound, u8-Outcome, varint-Outcome, zigzag-Outcome, float64-Outcome,
  float32-Outcome, string-Outcome, count-Outcome,
}
use bungohan.Codec.FieldType.{Scalar, float64, float32, string, bool, fixed, int}
use bungohan.Codec.Platform.{Platform}
use bungohan.Codec.Values.{
  number, text, flag, Read, ◌>>=◌, return, unless_failed, failing, failing_if, read_int_value,
  read_int, read_scalar, sign_extend,
}

-- What holds with an error and without holds.
pub error_branch :
    {A E : Type 0} (P : A → Type 0) (o : Option E) (x y : A)
    → P x
    → P y
    → P (elim o [ some e ↦ x | none ↦ y ])
error_branch P none x y h k = k
error_branch P (some e) x y h k = h

-- A reader that has gone on in the same bytes, or stays.
pub record IsAhead (r r' : ByteReader) : Type 0 where
  pub same_bytes : r'.bytes ≡ r.bytes
  pub further : r.pos ≤ r'.pos
  pub sound : IsSound r'

Outcome-IsAhead :
    {A : Type 0} (z : A) (r : ByteReader) (x : A × ByteReader)
    → IsSound r
    → Outcome z r x
    → IsAhead r x.1
unfolding Outcome
Outcome-IsAhead z r (v, r') s (inl (e, f)) =
    let l = ap length f.same_bytes in
    let inside = s.inside in
    let at_end = f.at_end in
    record { same_bytes = f.same_bytes; further = omega arith; sound = Failed-IsSound r r' f }
Outcome-IsAhead z r (v, r') s (inr (n, e, lo, hi, fine)) = subst (IsAhead r) (sym e) (record {
  same_bytes = refl;
  further = lo;
  sound = record { inside = hi; ended = λ m h. absurd (ground (arith, fine, h)) };
})

pub IsAhead-trans : (r r' r'' : ByteReader) → IsAhead r r' → IsAhead r' r'' → IsAhead r r''
IsAhead-trans r r' r'' a b =
    let f = a.further in
    let g = b.further in
    record { same_bytes = b.same_bytes ∙ a.same_bytes; further = omega arith; sound = b.sound }

pub record Advances {A : Type 0} (m : Read A) : Type 0 where
  pub ahead : (r : ByteReader) → IsSound r → IsAhead r (m r).1

pub returns : {A : Type 0} (a : A) → Advances (return a)
returns a = record { ahead = λ r s. record { same_bytes = refl; further = omega arith; sound = s } }

pub fails : {A : Type 0} (a : A) → Advances (failing a)
fails a = record {
  ahead = λ r s.
      let f = fail-Failed r codec_error in
      let l = ap length f.same_bytes in
      let inside = s.inside in
      let at_end = f.at_end in
      record {
        same_bytes = f.same_bytes;
        further = omega arith;
        sound = Failed-IsSound r (fail r codec_error) f;
      };
}

fails_if : {A : Type 0} (b : Bool) (a : A) → Advances (failing_if b a)
fails_if true a = fails a
fails_if false a = returns a

infixl 5 ◌>>◌
pub ◌>>◌ :
    {A B : Type 0} {m : Read A} {f : A → Read B}
    → Advances m
    → ((a : A) → Advances (f a))
    → Advances (m >>= f)
◌>>◌ {m = m} {f = f} h k = record {
  ahead = λ r s.
      let x = m r in
      let a = h.ahead r s in IsAhead-trans r x.1 (f x.0 x.1).1 a ((k x.0).ahead x.1 a.sound);
}

pub unless : {A : Type 0} (other : A) {m : Read A} → Advances m → Advances (unless_failed other m)
unless {A = A} other {m = m} h = record {
  ahead = λ r s.
      error_branch (λ (x : A × ByteReader). IsAhead r x.1) r.error (other, r) (m r)
        ((returns other).ahead r s) (h.ahead r s);
}

pub branch :
    {A : Type 0} (b : Bool) {m m' : Read A}
    → Advances m
    → Advances m'
    → Advances (if b then m else m')
branch true h k = h
branch false h k = k

pub varints : Advances Reader.varint
varints = record { ahead = λ r s. Outcome-IsAhead 0 r (Reader.varint r) s (varint-Outcome r s) }

pub bytes_on : Advances Reader.u8
bytes_on = record { ahead = λ r s. Outcome-IsAhead 0 r (Reader.u8 r) s (u8-Outcome r s) }

zigzags : Advances Reader.zigzag
zigzags = record {
  ahead = λ r s. Outcome-IsAhead (pos 0) r (Reader.zigzag r) s (zigzag-Outcome r s);
}

pub counts : Advances Reader.count
counts = record { ahead = λ r s. Outcome-IsAhead 0 r (Reader.count r) s (count-Outcome r s) }

module _ {F : Type 0} (p : Platform F) where
  ints : (kind : IntKind) → Advances (read_int_value p kind)
  unfolding read_int_value
  ints int8 = bytes_on >> λ b. returns (sign_extend b)
  ints uint8 = bytes_on >> λ b. returns (pos b)
  ints int16 = zigzags
  ints int32 = zigzags
  ints uint16 = varints >> λ n. returns (pos n)
  ints uint32 = varints >> λ n. returns (pos n)

  pub strings : Advances (Reader.string p.decode)
  strings = record {
    ahead = λ r s. Outcome-IsAhead [] r (Reader.string p.decode r) s (string-Outcome p.decode r s);
  }

  pub scalars : (type : Scalar) → Advances (read_scalar p type)
  unfolding read_scalar read_int
  scalars float64 =
      let z = p.of_int (pos 0) in
      record {
        ahead = λ r s.
            Outcome-IsAhead z r (Reader.float64 z p.get64 r) s (float64-Outcome z p.get64 r s);
      }
      >> λ x. returns (number x)
  scalars float32 =
      let z = p.of_int (pos 0) in
      record {
        ahead = λ r s.
            Outcome-IsAhead z r (Reader.float32 z p.get32 r) s (float32-Outcome z p.get32 r s);
      }
      >> λ x. returns (number x)
  scalars string = strings >> λ s. returns (text s)
  scalars bool = bytes_on >> λ byte. fails_if (ltb 1 byte) (flag (byte == 1))
  scalars (fixed n) = zigzags >> λ z. returns (number (p.of_int z))
  scalars (int kind) =
      (ints kind >> λ z. fails_if (if is_int_of (some (double z)) kind then false else true) z)
      >> λ z. returns (number (p.of_int z))
