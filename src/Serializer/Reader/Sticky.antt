-- ===== src/Serializer/Reader/Sticky.antt =====
-- What a `ByteReader` does once it has failed, and all of its reads.
use bungohan.Base.{ℕ, ◌≡◌, sym, ap₂, ◌∙◌, Option, some, List, [], length, inl, inr, arith}
use bungohan.Base.Int.{pos}
use bungohan.Serializer.Reader.{
  ByteReader, Message, u8, varint, count, zigzag, float64, float32, string,
}
use bungohan.Serializer.Reader.Outcomes.{
  IsSound, Outcome, u8-Outcome, varint-Outcome, count-Outcome, zigzag-Outcome, float64-Outcome,
  float32-Outcome, string-Outcome,
}

-- A reader that has failed: it has an error, and is at the end.
pub record IsFailed (r : ByteReader) : Type 0 where
  pub at_end : r.pos ≡ length r.bytes
  pub noted : (e : Message × ℕ) × (r.error ≡ some e)

pub IsFailed-IsSound : (r : ByteReader) → IsFailed r → IsSound r
IsFailed-IsSound r f = let end = f.at_end in record { inside = omega arith; ended = λ e h. end }

same_reader :
    (r r' : ByteReader) → r'.error ≡ r.error → r'.bytes ≡ r.bytes → r'.pos ≡ r.pos → r' ≡ r
same_reader r r' e b p = cc

Outcome-sticky :
    {A : Type 0} (zero_value : A) (r : ByteReader) (got : A × ByteReader)
    → IsFailed r
    → Outcome zero_value r got
    → got ≡ (zero_value, r)
unfolding Outcome
Outcome-sticky zero_value r (v, r') f (inl (z, g)) =
    let (m, e) = f.noted in
    ap₂ (λ x y. (x, y)) z
      (same_reader r r' (g.first_wins m e ∙ sym e) g.same_bytes (g.at_end ∙ sym f.at_end))
Outcome-sticky zero_value r (v, r') f (inr (k, e, lo, hi, fine)) =
    let (m, h) = f.noted in cc (h, fine)

module _ {F : Type 0} (zero_float : F) (get_float : List ℕ → F)
    (slow : List ℕ → Option (List ℕ)) where
  -- Every read of a reader whose position lies inside the bytes, and that has no error before
  -- their end, fails, and then gives a zero value, notes an error, keeps an earlier one, and goes
  -- to the end; or it had no error yet and moves on inside the bytes.
  pub reads-Outcome :
      (r : ByteReader)
      → IsSound r
      → Outcome 0 r (u8 r)
        × Outcome 0 r (varint r)
        × Outcome 0 r (count r)
        × Outcome (pos 0) r (zigzag r)
        × Outcome zero_float r (float64 zero_float get_float r)
        × Outcome zero_float r (float32 zero_float get_float r)
        × Outcome [] r (string slow r)
  reads-Outcome r s = (
    u8-Outcome r s,
    varint-Outcome r s,
    count-Outcome r s,
    zigzag-Outcome r s,
    float64-Outcome zero_float get_float r s,
    float32-Outcome zero_float get_float r s,
    string-Outcome slow r s,
  )

  -- Once a reader has failed, every read gives a zero value and changes nothing, so the first
  -- error stays.
  pub reads_sticky :
      (r : ByteReader)
      → IsFailed r
      → (u8 r ≡ (0, r))
        × (varint r ≡ (0, r))
        × (count r ≡ (0, r))
        × (zigzag r ≡ (pos 0, r))
        × (float64 zero_float get_float r ≡ (zero_float, r))
        × (float32 zero_float get_float r ≡ (zero_float, r))
        × (string slow r ≡ ([], r))
  reads_sticky r f =
      let (a, b, c, d, e, g, h) = reads-Outcome r (IsFailed-IsSound r f) in
      (
        Outcome-sticky 0 r _ f a,
        Outcome-sticky 0 r _ f b,
        Outcome-sticky 0 r _ f c,
        Outcome-sticky (pos 0) r _ f d,
        Outcome-sticky zero_float r _ f e,
        Outcome-sticky zero_float r _ f g,
        Outcome-sticky [] r _ f h,
      )
