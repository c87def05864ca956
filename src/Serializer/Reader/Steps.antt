-- ===== src/Serializer/Reader/Steps.antt =====
-- The reads of a `ByteReader` where they succeed.
use bungohan.Base.{
  ℕ, ◌+◌, ◌≤◌, ◌≡◌, refl, ap, ◌∙◌, Option, none, some, List, take, drop, get_elem?, ltb,
  if◌then◌else◌, arith,
}
use bungohan.Serializer.Zigzag.{unzigzag}
use bungohan.Serializer.Text.{decode_utf8}
use bungohan.Serializer.Reader.{
  ByteReader, u8, zigzag, varint, float64, float32, count, remaining, string, string_body,
  text_read, fail, count_exceeds,
}
use bungohan.Serializer.Reader.Outcomes.{string_body-none}

pub u8_lem :
    (r : ByteReader) (b : ℕ)
    → get_elem? r.bytes r.pos ≡ some b
    → u8 r ≡ (b, record r { pos = r.pos + 1 })
unfolding u8
u8_lem r b e = rw (e, u8) refl

pub zigzag_lem : (r r' : ByteReader) (n : ℕ) → varint r ≡ (n, r') → zigzag r ≡ (unzigzag n, r')
unfolding zigzag
zigzag_lem r r' n e = ap (λ x. (unzigzag x.0, x.1)) e

bounded : {A : Type 0} (n m : ℕ) (x y : A) → n ≤ m → (if ltb m n then x else y) ≡ y
bounded n m x y h = ground arith

pub count_lem :
    (r r' : ByteReader) (n : ℕ) → varint r ≡ (n, r') → n ≤ remaining r' → count r ≡ (n, r')
unfolding count
count_lem r r' n e h =
    ap
      (λ (x : ℕ × ByteReader).
        if ltb (remaining x.1) x.0 then (0, fail x.1 (count_exceeds x.0 (remaining x.1))) else x)
      e
    ∙ bounded n (remaining r') _ _ h

pub string_lem :
    (slow : List ℕ → Option (List ℕ)) (r r' : ByteReader) (n : ℕ) (text : List ℕ)
    → count r ≡ (n, r')
    → r'.error ≡ none
    → decode_utf8 slow (take n (drop r'.pos r'.bytes)) ≡ some text
    → string slow r ≡ (text, record r' { pos = r'.pos + n })
unfolding string text_read
string_lem slow r r' n text c e d =
    ap (string_body slow) c ∙ string_body-none slow n r' e ∙ ap (λ x. text_read x n r') d

module _ {F : Type 0} (zero_float : F) (get_float : List ℕ → F) where
  pub float64_lem :
      (r : ByteReader)
      → 8 ≤ remaining r
      → float64 zero_float get_float r
        ≡ (get_float (take 8 (drop r.pos r.bytes)), record r { pos = r.pos + 8 })
  unfolding float64
  float64_lem r h = bounded 8 (remaining r) _ _ h

  pub float32_lem :
      (r : ByteReader)
      → 4 ≤ remaining r
      → float32 zero_float get_float r
        ≡ (get_float (take 4 (drop r.pos r.bytes)), record r { pos = r.pos + 4 })
  unfolding float32
  float32_lem r h = bounded 4 (remaining r) _ _ h
