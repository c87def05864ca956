-- ===== src/Serializer/Stream/Rollback.antt =====
-- A `ByteWriter` that is cut back to an earlier length.
use bungohan.Base.{
  ℕ, zero, suc, ◌≤◌, ◌≡◌, refl, sym, ap, ◌∙◌, List, [], ◌∷◌, length, All, arith, take, length-take,
  take-append, length-append,
}
use bungohan.Serializer.Writer.{ByteWriter, Encoder, to_bytes, truncate}
use bungohan.Serializer.Writer.Grow.{IsFit}
use bungohan.Serializer.Writer.Contents.{Appended}
use bungohan.Serializer.Writer.Strings.{IsEncoder}
use bungohan.Serializer.Stream.{Item, IsWritable, write_all, all_bytes}
use bungohan.Serializer.Stream.RoundTrip.{write_all-Appended}

take-take : (n m : ℕ) (xs : List ℕ) → n ≤ m → take n (take m xs) ≡ take n xs
take-take zero m xs h = refl
take-take (suc n) zero xs h = absurd (omega arith)
take-take (suc n) (suc m) [] h = refl
take-take (suc n) (suc m) (x ∷ xs) h = ap (◌∷◌ x) (take-take n m xs (omega arith))

truncate-Appended :
    (w w' : ByteWriter) (bs : List ℕ)
    → IsFit w
    → Appended w w' bs
    → to_bytes (truncate w' w.size) ≡ to_bytes w
unfolding to_bytes truncate
truncate-Appended w w' bs f a =
    let held = a.held in
    let more = a.inside in
    let fits = f.inside in
    let old = length-take w.size w.bytes in
    let sizes = ap length held ∙ length-append (take w.size w.bytes) bs in
    sym (take-take w.size w'.size w'.bytes (omega (arith, length-take w'.size w'.bytes)))
    ∙ ap (take w.size) held
    ∙ take-append (take w.size w.bytes) bs w.size (omega arith)

-- Whatever items a writer takes, `truncate` to the length that it had before gives back its
-- contents, also where the buffer has grown since.
pub truncate-write_all :
    (encode_into : Encoder) (encode : List ℕ → List ℕ) (w : ByteWriter) (items : List Item)
    → IsEncoder encode_into encode
    → All IsWritable items
    → IsFit w
    → to_bytes (truncate (write_all encode_into w items) w.size) ≡ to_bytes w
truncate-write_all encode_into encode w items e h f =
    truncate-Appended w (write_all encode_into w items) (all_bytes encode items) f
      (write_all-Appended encode_into encode e w items h f)
