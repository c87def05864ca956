-- ===== src/Serializer/Writer/Contents.antt =====
-- What each write of a `ByteWriter` appends to its contents.
use bungohan.Base.{
  ℕ, ◌+◌, ◌%◌, ◌≤◌, ◌<◌, ◌≡◌, refl, sym, ap, ap₂, subst, ◌∙◌, Bool, List, [], ◌∷◌, ◌++◌, arith,
  length, take, drop, length-append, length-take, length-drop, take-append, append_assoc,
  if◌then◌else◌,
}
use bungohan.Base.Int.{ℤ}
use bungohan.Serializer.Varint.{max_varint, write_varint}
use bungohan.Serializer.Varint.Encode.{leb128, write_varint-leb128, length-leb128}
use bungohan.Serializer.Zigzag
use bungohan.Serializer.Zigzag.{IsInt32, zigzag-bound}
use bungohan.Serializer.Writer.{
  ByteWriter, put, reserve, to_bytes, u8, varint, unreserved_varint, zigzag, float64, float32,
}
use bungohan.Serializer.Writer.Grow.{
  IsFit, Reserved, reserve-Reserved, put-append, three_parts, length-put,
}

-- The second writer has the contents of the first, and then `bs`.
pub record Appended (w w' : ByteWriter) (bs : List ℕ) : Type 0 where
  pub held : to_bytes w' ≡ to_bytes w ++ bs
  pub inside : w'.size ≤ length w'.bytes
  pub there : 0 < length w'.bytes

pub Appended-IsFit : (w w' : ByteWriter) (bs : List ℕ) → Appended w w' bs → IsFit w'
Appended-IsFit w w' bs a = record { inside = a.inside; there = a.there }

-- Contents in front of other bytes.
front :
    (pre bs post : List ℕ) (size : ℕ)
    → size ≡ length pre + length bs
    → take size (pre ++ (bs ++ post)) ≡ pre ++ bs
front pre bs post size e =
    ap (take size) (sym (append_assoc pre bs post))
    ∙ take-append (pre ++ bs) post size (omega (arith, length-append pre bs))

-- Bytes that stand behind the contents become contents.
appended :
    (w : ByteWriter) (bs post bytes : List ℕ) (size : ℕ)
    → w.size ≤ length w.bytes
    → 0 < length w.bytes
    → bytes ≡ take w.size w.bytes ++ (bs ++ post)
    → length bytes ≡ length w.bytes
    → size ≡ w.size + length bs
    → Appended w (record { bytes = bytes; size = size }) bs
unfolding to_bytes
appended w bs post bytes size h p e l s =
    let pre = take w.size w.bytes in
    let n = length-take w.size w.bytes in
    let m : length bytes ≡ length pre + (length bs + length post) =
      ap length e
      ∙ length-append pre (bs ++ post)
      ∙ ap (λ x. length pre + x) (length-append bs post) in
    record {
      held = ap (take size) e ∙ front pre bs post size (omega arith);
      inside = omega arith;
      there = omega arith;
    }

pub put-Appended :
    (w : ByteWriter) (bs : List ℕ)
    → w.size + length bs ≤ length w.bytes
    → 0 < length w.bytes
    → Appended w (record { bytes = put w.bytes w.size bs; size = w.size + length bs }) bs
put-Appended w bs h p =
    let n = w.size in
    let k = length bs in
    let rest = drop n w.bytes in
    let pre = take n w.bytes in
    let parts = three_parts n k w.bytes in
    let placed =
      put-append pre (take k rest) bs (drop k rest) n (omega (arith, length-take n w.bytes))
        (omega (arith, length-take k rest, length-drop n w.bytes)) in
    appended w bs (drop k rest) (put w.bytes n bs) (n + k) (omega arith) p
      (ap (λ x. put x n bs) parts ∙ placed) (length-put w.bytes n bs) refl

-- A write behind `_reserve`.
pub Reserved-Appended :
    (w w' w'' : ByteWriter) (extra : ℕ) (bs : List ℕ)
    → Reserved w w' extra
    → Appended w' w'' bs
    → Appended w w'' bs
Reserved-Appended w w' w'' extra bs r a = record {
  held = a.held ∙ ap (λ x. x ++ bs) r.same_contents;
  inside = a.inside;
  there = a.there;
}

pub u8-Appended : (w : ByteWriter) (b : ℕ) → IsFit w → Appended w (u8 w b) ((b % 256) ∷ [])
unfolding u8 put
u8-Appended w b f =
    let w' = reserve w 1 in
    let r = reserve-Reserved w 1 f in
    let s = r.same_size in
    let room = r.room in
    Reserved-Appended w w' _ 1 _ r (put-Appended w' ((b % 256) ∷ []) (omega arith) r.there)

-- The buffer behind a varint.
pub unreserved_varint_lem :
    (w : ByteWriter) (v : ℕ)
    → v ≤ max_varint
    → w.size + 5 ≤ length w.bytes
    → let bs = leb128 4 v in
      unreserved_varint w v ≡ record {
        bytes = take w.size w.bytes ++ (bs ++ drop (length bs) (drop w.size w.bytes));
        size = w.size + length bs;
      }
unfolding unreserved_varint
unreserved_varint_lem w v h room =
    let n = w.size in
    let k = length (leb128 4 v) in
    let short = length-leb128 4 v in
    let rest = drop n w.bytes in
    let pre = take n w.bytes in
    let at : length pre ≡ n = omega (arith, length-take n w.bytes) in
    let placed =
      write_varint-leb128 4 v pre (take k rest) (drop k rest) (omega arith)
        (omega (arith, length-take k rest, length-drop n w.bytes)) in
    let done : write_varint w.bytes n v ≡ (pre ++ (leb128 4 v ++ drop k rest), n + k) =
      ap₂ (λ x m. write_varint x m v) (three_parts n k w.bytes) (sym at)
      ∙ placed
      ∙ ap (λ m. (pre ++ (leb128 4 v ++ drop k rest), m + k)) at in
    ap (λ x. record { bytes = x.0; size = x.1 }) done

pub unreserved_varint-Appended :
    (w : ByteWriter) (v : ℕ)
    → v ≤ max_varint
    → w.size + 5 ≤ length w.bytes
    → Appended w (unreserved_varint w v) (leb128 4 v)
unreserved_varint-Appended w v h room =
    let n = w.size in
    let bs = leb128 4 v in
    let k = length bs in
    let short = length-leb128 4 v in
    let rest = drop n w.bytes in
    let pre = take n w.bytes in
    let l = length-take n w.bytes in
    let post = length-drop k rest in
    let behind = length-drop n w.bytes in
    let whole = length-append bs (drop k rest) in
    subst (λ x. Appended w x bs) (sym (unreserved_varint_lem w v h room))
      (appended w bs (drop k rest) _ _ (omega arith) (omega arith) refl
        (omega (arith, length-append pre (bs ++ drop k rest))) refl)

pub varint-Appended :
    (w : ByteWriter) (v : ℕ) → v ≤ max_varint → IsFit w → Appended w (varint w v) (leb128 4 v)
unfolding varint
varint-Appended w v h f =
    let w' = reserve w 5 in
    let r = reserve-Reserved w 5 f in
    let s = r.same_size in
    let room = r.room in
    Reserved-Appended w w' _ 5 _ r (unreserved_varint-Appended w' v h (omega arith))

pub zigzag-Appended :
    (w : ByteWriter) (z : ℤ)
    → IsInt32 z
    → IsFit w
    → Appended w (zigzag w z) (leb128 4 (Zigzag.zigzag z))
unfolding zigzag
zigzag-Appended w z h f = varint-Appended w (Zigzag.zigzag z) (omega (arith, zigzag-bound z h)) f

-- Bytes put behind the contents, with room made for them.
number-Appended :
    (w : ByteWriter) (n : ℕ) (bs : List ℕ)
    → length bs ≡ n
    → IsFit w
    → let w' = reserve w n in
      Appended w (record { bytes = put w'.bytes w'.size bs; size = w'.size + n }) bs
number-Appended w n bs l f =
    let w' = reserve w n in
    let r = reserve-Reserved w n f in
    let s = r.same_size in
    let room = r.room in
    Reserved-Appended w w' _ n _ r (
      subst (λ k. Appended w' (record { bytes = put w'.bytes w'.size bs; size = w'.size + k }) bs) l
        (put-Appended w' bs (omega arith) r.there))

module _ {F : Type 0} (is_nan : F → Bool) (put_float : F → List ℕ) where
  -- The bytes of a number; every NaN has the same.
  pub float64_bytes : F → List ℕ
  float64_bytes x = if is_nan x then 0 ∷ 0 ∷ 0 ∷ 0 ∷ 0 ∷ 0 ∷ 0xf8 ∷ 0x7f ∷ [] else put_float x

  pub float32_bytes : F → List ℕ
  float32_bytes x = if is_nan x then 0 ∷ 0 ∷ 0xc0 ∷ 0x7f ∷ [] else put_float x

  pub length-float64_bytes : (x : F) → length (put_float x) ≡ 8 → length (float64_bytes x) ≡ 8
  unfolding float64_bytes
  length-float64_bytes x h = ground (arith, h)

  pub length-float32_bytes : (x : F) → length (put_float x) ≡ 4 → length (float32_bytes x) ≡ 4
  unfolding float32_bytes
  length-float32_bytes x h = ground (arith, h)

  pub float64-Appended :
      (w : ByteWriter) (x : F)
      → length (put_float x) ≡ 8
      → IsFit w
      → Appended w (float64 is_nan put_float w x) (float64_bytes x)
  unfolding float64 float64_bytes
  float64-Appended w x h f = number-Appended w 8 (float64_bytes x) (length-float64_bytes x h) f

  pub float32-Appended :
      (w : ByteWriter) (x : F)
      → length (put_float x) ≡ 4
      → IsFit w
      → Appended w (float32 is_nan put_float w x) (float32_bytes x)
  unfolding float32 float32_bytes
  float32-Appended w x h f = number-Appended w 4 (float32_bytes x) (length-float32_bytes x h) f
