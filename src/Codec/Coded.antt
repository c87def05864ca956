-- ===== src/Codec/Coded.antt =====
-- Writes and the reads that take them back: a write that appends some bytes, which a read takes
-- wherever they stand.
use bungohan.Base.{
  ℕ, ◌+◌, ◌*◌, ◌≤◌, ◌<◌, ◌≡◌, refl, sym, ap, ap₂, subst, ◌∙◌, List, [], ◌∷◌, ◌++◌, length, arith,
  take, drop, append_assoc, append-nil, length-append, take-append, drop-append,
}
use bungohan.Base.Int.{ℤ}
use bungohan.Serializer.Varint.{max_varint}
use bungohan.Serializer.Varint.Encode.{leb128, leb128_pos}
use bungohan.Serializer.Zigzag
use bungohan.Serializer.Zigzag.{IsInt32, unzigzag-zigzag, zigzag-bound}
use bungohan.Serializer.Text.{wire_string, wire_string_lem}
use bungohan.Serializer.Reader
use bungohan.Serializer.Reader.{ByteReader}
use bungohan.Serializer.Reader.Steps.{zigzag_lem, count_lem, float64_lem, float32_lem}
use bungohan.Serializer.Writer
use bungohan.Serializer.Writer.{ByteWriter, to_bytes}
use bungohan.Serializer.Writer.Grow.{IsFit}
use bungohan.Serializer.Writer.Contents.{
  Appended, Appended-IsFit, u8-Appended, varint-Appended, zigzag-Appended, float64_bytes,
  float64-Appended, length-float64_bytes, float32_bytes, float32-Appended, length-float32_bytes,
}
use bungohan.Serializer.Writer.Strings.{text_bytes, string-Appended}
use bungohan.Serializer.Stream.RoundTrip.{at, varint-leb128, u8-byte, string-text}
use bungohan.Codec.Platform.{Platform, IsPlatform}
use bungohan.Codec.Values.{Read, ◌>>=◌, return}

pub record Coded {A : Type 0} (w w' : ByteWriter) (m : Read A) (v : A) : Type 0 where
  pub bs : List ℕ
  pub appended : Appended w w' bs
  pub reads :
      (pre post : List ℕ)
      → m (at (pre ++ (bs ++ post)) (length pre))
        ≡ (v, at (pre ++ (bs ++ post)) (length pre + length bs))

module _ {A : Type 0} {w w' : ByteWriter} {m : Read A} {v : A} where
  pub Coded-IsFit : Coded w w' m v → IsFit w'
  Coded-IsFit c = Appended-IsFit w w' c.bs c.appended

pub nothing : {A : Type 0} (w : ByteWriter) (v : A) → IsFit w → Coded w w (return v) v
nothing w v f = record {
  bs = [];
  appended = record { held = sym (append-nil (to_bytes w)); inside = f.inside; there = f.there };
  reads = λ pre post. ap (λ n. (v, at (pre ++ post) n)) (omega arith);
}

pub Appended-then :
    (w w' w'' : ByteWriter) (bs bs' : List ℕ)
    → Appended w w' bs
    → Appended w' w'' bs'
    → Appended w w'' (bs ++ bs')
Appended-then w w' w'' bs bs' c d = record {
  held = d.held ∙ ap (λ x. x ++ bs') c.held ∙ append_assoc (to_bytes w) bs bs';
  inside = d.inside;
  there = d.there;
}

-- A read, and a read of what stands behind, that may go by the value.
pub then_coded :
    {A B : Type 0} {w w' w'' : ByteWriter} {m : Read A} {v : A} (f : A → Read B) {u : B}
    → Coded w w' m v
    → Coded w' w'' (f v) u
    → Coded w w'' (m >>= f) u
then_coded {A = A} {w = w} {w' = w'} {w'' = w''} {m = m} {v = v} f {u = u} c d = record {
  bs = c.bs ++ d.bs;
  appended = Appended-then w w' w'' c.bs d.bs c.appended d.appended;
  reads = λ pre post.
      let a : pre ++ ((c.bs ++ d.bs) ++ post) ≡ pre ++ (c.bs ++ (d.bs ++ post)) =
        ap (λ x. pre ++ x) (append_assoc c.bs d.bs post) in
      let b : (pre ++ c.bs) ++ (d.bs ++ post) ≡ pre ++ (c.bs ++ (d.bs ++ post)) =
        append_assoc pre c.bs (d.bs ++ post) in
      let n = length-append pre c.bs in
      let k : length (pre ++ c.bs) + length d.bs ≡ length pre + length (c.bs ++ d.bs) =
        omega (arith, length-append c.bs d.bs) in
      let bytes = pre ++ (c.bs ++ (d.bs ++ post)) in
      let second : f v (at bytes (length pre + length c.bs))
          ≡ (u, at bytes (length pre + length (c.bs ++ d.bs))) =
        ap (λ x. f v (at bytes x)) (sym n)
        ∙ subst
            (λ x.
              f v (at x (length (pre ++ c.bs))) ≡ (u, at x (length (pre ++ c.bs) + length d.bs)))
            b (d.reads (pre ++ c.bs) post)
        ∙ ap (λ x. (u, at bytes x)) k in
      subst (λ x. (m >>= f) (at x (length pre)) ≡ (u, at x (length pre + length (c.bs ++ d.bs))))
        (sym a) (ap (λ (x : A × ByteReader). f x.0 x.1) (c.reads pre (d.bs ++ post)) ∙ second);
}

module _ {A B : Type 0} {w w' w'' : ByteWriter} {m : Read A} {v : A} where
  -- The bytes of both.
  pub length-then_coded :
      (f : A → Read B) {u : B} (c : Coded w w' m v) (d : Coded w' w'' (f v) u)
      → length (then_coded f c d).bs ≡ length c.bs + length d.bs
  unfolding then_coded
  length-then_coded f c d = length-append c.bs d.bs

pub coded_u8 : (w : ByteWriter) (b : ℕ) → b < 256 → IsFit w → Coded w (Writer.u8 w b) Reader.u8 b
coded_u8 w b h f = record {
  bs = b ∷ [];
  appended = subst (λ x. Appended w (Writer.u8 w b) (x ∷ [])) (omega arith) (u8-Appended w b f);
  reads = λ pre post. u8-byte b pre post;
}

pub length-coded_u8 :
    (w : ByteWriter) (b : ℕ) (h : b < 256) (f : IsFit w) → length (coded_u8 w b h f).bs ≡ 1
unfolding coded_u8
length-coded_u8 w b h f = refl

pub coded_varint :
    (w : ByteWriter) (n : ℕ)
    → n ≤ max_varint
    → IsFit w
    → Coded w (Writer.varint w n) Reader.varint n
coded_varint w n h f = record {
  bs = leb128 4 n;
  appended = varint-Appended w n h f;
  reads = λ pre post. varint-leb128 n pre post h;
}

pub coded_zigzag :
    (w : ByteWriter) (z : ℤ) → IsInt32 z → IsFit w → Coded w (Writer.zigzag w z) Reader.zigzag z
coded_zigzag w z h f = record {
  bs = leb128 4 (Zigzag.zigzag z);
  appended = zigzag-Appended w z h f;
  reads = λ pre post.
      let k = length (leb128 4 (Zigzag.zigzag z)) in
      let bytes = pre ++ (leb128 4 (Zigzag.zigzag z) ++ post) in
      zigzag_lem _ _ _ (varint-leb128 (Zigzag.zigzag z) pre post (omega (arith, zigzag-bound z h)))
      ∙ ap (λ x. (x, at bytes (length pre + k))) (unzigzag-zigzag z h);
}

room :
    (pre bs post : List ℕ) (n : ℕ)
    → length bs ≡ n
    → n ≤ Reader.remaining (at (pre ++ (bs ++ post)) (length pre))
unfolding Reader.remaining
room pre bs post n h = omega (arith, length-append pre (bs ++ post), length-append bs post)

counted_room :
    (pre front bs post : List ℕ) (n : ℕ)
    → n ≤ length bs
    → n ≤ Reader.remaining (at (pre ++ ((front ++ bs) ++ post)) (length pre + length front))
unfolding Reader.remaining
counted_room pre front bs post n h = omega (
  arith,
  length-append pre ((front ++ bs) ++ post),
  length-append (front ++ bs) post,
  length-append front bs,
)

found :
    (pre bs post : List ℕ) (n : ℕ)
    → n ≡ length bs
    → take n (drop (length pre) (pre ++ (bs ++ post))) ≡ bs
found pre bs post n h =
    ap (take n) (drop-append pre (bs ++ post) (length pre) refl) ∙ take-append bs post n h

module _ {F : Type 0} (p : Platform F) (encode : List ℕ → List ℕ) (l : IsPlatform p encode) where
  pub coded_string :
      (w : ByteWriter) (s : List ℕ)
      → 3 * length s ≤ max_varint
      → IsFit w
      → Coded w (Writer.string p.encode_into w s) (Reader.string p.decode) (wire_string s)
  coded_string w s h f =
      let (scalar, k, _) = wire_string_lem s in
      let e = l.encoder in
      let d = l.decoder in
      let small = e.small (wire_string s) in
      record {
        bs = text_bytes (encode (wire_string s));
        appended = string-Appended p.encode_into encode w s e h f;
        reads = λ pre post.
            string-text p.decode encode (wire_string s) pre post (d.reads (wire_string s) scalar)
              d.ascii (omega arith);
      }

  pub coded_float64 :
      (w : ByteWriter) (x zero_float : F)
      → IsFit w
      → Coded w
          (Writer.float64 p.is_nan p.put64 w x)
          (Reader.float64 zero_float p.get64)
          (p.get64 (float64_bytes p.is_nan p.put64 x))
  coded_float64 w x z f =
      let bs = float64_bytes p.is_nan p.put64 x in
      let k : length bs ≡ 8 = length-float64_bytes p.is_nan p.put64 x (l.eight x) in
      record {
        bs = bs;
        appended = float64-Appended p.is_nan p.put64 w x (l.eight x) f;
        reads = λ pre post.
            float64_lem z p.get64 (at (pre ++ (bs ++ post)) (length pre)) (room pre bs post 8 k)
            ∙ ap₂ (λ y n. (p.get64 y, at (pre ++ (bs ++ post)) (length pre + n)))
                (found pre bs post 8 (sym k)) (sym k);
      }

  pub coded_float32 :
      (w : ByteWriter) (x zero_float : F)
      → IsFit w
      → Coded w
          (Writer.float32 p.is_nan p.put32 w x)
          (Reader.float32 zero_float p.get32)
          (p.get32 (float32_bytes p.is_nan p.put32 x))
  coded_float32 w x z f =
      let bs = float32_bytes p.is_nan p.put32 x in
      let k : length bs ≡ 4 = length-float32_bytes p.is_nan p.put32 x (l.four x) in
      record {
        bs = bs;
        appended = float32-Appended p.is_nan p.put32 w x (l.four x) f;
        reads = λ pre post.
            float32_lem z p.get32 (at (pre ++ (bs ++ post)) (length pre)) (room pre bs post 4 k)
            ∙ ap₂ (λ y n. (p.get32 y, at (pre ++ (bs ++ post)) (length pre + n)))
                (found pre bs post 4 (sym k)) (sym k);
      }

  pub length-coded_string :
      (w : ByteWriter) (s : List ℕ) (h : 3 * length s ≤ max_varint) (f : IsFit w)
      → 1 ≤ length (coded_string w s h f).bs
  unfolding coded_string text_bytes
  length-coded_string w s h f =
      let body = encode (wire_string s) in
      omega (arith, length-append (leb128 4 (length body)) body, leb128_pos 4 (length body))

-- A count, where what it counts takes as many bytes or more.
pub counted :
    {A : Type 0} {w w' : ByteWriter} (n : ℕ) (f : ℕ → Read A) {v : A}
    → n ≤ max_varint
    → IsFit w
    → (c : Coded (Writer.varint w n) w' (f n) v) → n ≤ length c.bs
    → Coded w w' (Reader.count >>= f) v
unfolding then_coded
counted {A = A} {w = w} {w' = w'} n f {v = v} h fit c k =
    let number = coded_varint w n h fit in
    let all : Coded w w' (Reader.varint >>= f) v = then_coded f number c in
    record {
      bs = number.bs ++ c.bs;
      appended = all.appended;
      reads = λ pre post.
          let bytes = pre ++ ((number.bs ++ c.bs) ++ post) in
          let front = number.bs in
          let same : pre ++ (front ++ (c.bs ++ post)) ≡ bytes =
            ap (λ x. pre ++ x) (sym (append_assoc front c.bs post)) in
          let read : Reader.varint (at bytes (length pre))
              ≡ (n, at bytes (length pre + length front)) =
            subst (λ x. Reader.varint (at x (length pre)) ≡ (n, at x (length pre + length front)))
              same (number.reads pre (c.bs ++ post)) in
          let left : n ≤ Reader.remaining (at bytes (length pre + length front)) =
            counted_room pre front c.bs post n k in
          ap (λ (x : ℕ × ByteReader). f x.0 x.1) (count_lem _ _ n read left ∙ sym read)
          ∙ all.reads pre post;
    }
