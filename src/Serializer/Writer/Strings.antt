-- ===== src/Serializer/Writer/Strings.antt =====
-- What a string appends to the contents of a `ByteWriter`.
use bungohan.Base.{
  ℕ, zero, suc, ◌+◌, ◌-◌, ◌*◌, ◌%◌, ◌≤◌, ◌<◌, ◌≡◌, refl, sym, ap, ap₂, subst, ◌∙◌, List, [], ◌∷◌,
  ◌++◌, arith, length, set, take, drop, length-append, length-take, length-drop, take-append,
  drop-append, append_assoc, le→leb, ltb, branch_cases,
}
use bungohan.Serializer.Varint.{max_varint}
use bungohan.Serializer.Varint.Encode.{leb128, leb128_small, length-leb128}
use bungohan.Serializer.Text.{wire_string, wire_string_lem}
use bungohan.Serializer.Writer.{
  ByteWriter, Encoder, put, reserve, to_bytes, varint, unreserved_varint, short_string, long_string,
  string,
}
use bungohan.Serializer.Writer.Grow.{IsFit, reserve-Reserved, put-append, three_parts, length-put}
use bungohan.Serializer.Writer.Contents.{
  Appended, put-Appended, Reserved-Appended, unreserved_varint_lem, unreserved_varint-Appended,
}

set-set : (xs : List ℕ) (i j a b : ℕ) → i < j → set (set xs j b) i a ≡ set (set xs i a) j b
set-set [] i j a b h = refl
set-set (x ∷ xs) i zero a b h = absurd (omega arith)
set-set (x ∷ xs) zero (suc j) a b h = refl
set-set (x ∷ xs) (suc i) (suc j) a b h = ap (◌∷◌ x) (set-set xs i j a b (omega arith))

-- A byte set in front of what is put can be set first.
set-put :
    (xs : List ℕ) (i j a : ℕ) (bs : List ℕ) → i < j → set (put xs j bs) i a ≡ put (set xs i a) j bs
unfolding put
set-put xs i j a [] h = refl
set-put xs i j a (b ∷ bs) h =
    set-put (set xs j b) i (suc j) a bs (omega arith)
    ∙ ap (λ x. put x (suc j) bs) (set-set xs i j a b h)

-- The bytes of a string: their number, then themselves.
unfoldable pub text_bytes : List ℕ → List ℕ
text_bytes body = leb128 4 (length body) ++ body

short_string-Appended :
    (encode_into : Encoder) (w : ByteWriter) (value : List ℕ)
    → let body = encode_into value (length w.bytes - (w.size + 1)) in
      length body < 128
      → w.size + 1 + length body ≤ length w.bytes
      → Appended w (short_string encode_into w value) ((length body % 256) ∷ body)
unfolding short_string put
short_string-Appended encode_into w value h room =
    let body = encode_into value (length w.bytes - (w.size + 1)) in
    let b = length body % 256 in
    let bytes : put w.bytes w.size (b ∷ body) ≡ set (put w.bytes (w.size + 1) body) w.size b =
      ap (λ n. put (set w.bytes w.size b) n body) (omega arith)
      ∙ sym (set-put w.bytes w.size (w.size + 1) b body (omega arith)) in
    subst (λ x. Appended w x (b ∷ body))
      (ap₂ (λ x n. record { bytes = x; size = n }) bytes (omega arith))
      (put-Appended w (b ∷ body) (omega arith) (omega arith))

take-set : (n : ℕ) (xs : List ℕ) (i a : ℕ) → n ≤ i → take n (set xs i a) ≡ take n xs
take-set zero xs i a h = refl
take-set (suc n) [] i a h = refl
take-set (suc n) (x ∷ xs) zero a h = absurd (omega arith)
take-set (suc n) (x ∷ xs) (suc i) a h = ap (◌∷◌ x) (take-set n xs i a (omega arith))

take-put : (n : ℕ) (xs : List ℕ) (i : ℕ) (bs : List ℕ) → n ≤ i → take n (put xs i bs) ≡ take n xs
unfolding put
take-put n xs i [] h = refl
take-put n xs i (b ∷ bs) h = take-put n (set xs i b) (suc i) bs (omega arith) ∙ take-set n xs i b h

drop-beyond : (xs ys : List ℕ) (n k : ℕ) → n ≡ length xs + k → drop n (xs ++ ys) ≡ drop k ys
drop-beyond [] ys n k e = ap (λ m. drop m ys) (omega arith)
drop-beyond (x ∷ xs) ys zero k e = absurd (omega arith)
drop-beyond (x ∷ xs) ys (suc n) k e = drop-beyond xs ys n k (omega arith)

drop-drop : (n k m : ℕ) (xs : List ℕ) → m ≡ n + k → drop k (drop n xs) ≡ drop m xs
drop-drop zero k m xs e = ap (λ i. drop i xs) (omega arith)
drop-drop (suc n) k zero xs e = absurd (omega arith)
drop-drop (suc n) zero (suc m) [] e = refl
drop-drop (suc n) (suc k) (suc m) [] e = refl
drop-drop (suc n) k (suc m) (x ∷ xs) e = drop-drop n k m xs (omega arith)

-- What was put at an offset is found there.
take-drop-put :
    (xs : List ℕ) (n : ℕ) (bs : List ℕ)
    → n + length bs ≤ length xs
    → take (length bs) (drop n (put xs n bs)) ≡ bs
take-drop-put xs n bs h =
    let k = length bs in
    let rest = drop n xs in
    let pre = take n xs in
    let at : n ≡ length pre = omega (arith, length-take n xs) in
    let placed =
      put-append pre (take k rest) bs (drop k rest) n at
        (omega (arith, length-take k rest, length-drop n xs)) in
    ap (λ x. take k (drop n (put x n bs))) (three_parts n k xs)
    ∙ ap (λ x. take k (drop n x)) placed
    ∙ ap (take k) (drop-append pre (bs ++ drop k rest) n at)
    ∙ take-append bs (drop k rest) k refl

-- A varint leaves alone what stands five bytes on.
drop-unreserved_varint :
    (w : ByteWriter) (v : ℕ)
    → v ≤ max_varint
    → w.size + 5 ≤ length w.bytes
    → drop (w.size + 5) (unreserved_varint w v).bytes ≡ drop (w.size + 5) w.bytes
drop-unreserved_varint w v h room =
    let n = w.size in
    let k = length (leb128 4 v) in
    let short = length-leb128 4 v in
    let rest = drop n w.bytes in
    let l = length-take n w.bytes in
    ap (λ (x : ByteWriter). drop (n + 5) x.bytes) (unreserved_varint_lem w v h room)
    ∙ drop-beyond (take n w.bytes) (leb128 4 v ++ drop k rest) (n + 5) 5 (omega arith)
    ∙ drop-beyond (leb128 4 v) (drop k rest) 5 (5 - k) (omega arith)
    ∙ drop-drop k (5 - k) 5 rest (omega arith)
    ∙ drop-drop n 5 (n + 5) w.bytes refl

length-unreserved_varint :
    (w : ByteWriter) (v : ℕ)
    → v ≤ max_varint
    → w.size + 5 ≤ length w.bytes
    → length (unreserved_varint w v).bytes ≡ length w.bytes
length-unreserved_varint w v h room =
    let bs = leb128 4 v in
    let short = length-leb128 4 v in
    let rest = drop w.size w.bytes in
    let behind = drop (length bs) rest in
    ap (λ (x : ByteWriter). length x.bytes) (unreserved_varint_lem w v h room)
    ∙ omega (
      arith,
      length-append (take w.size w.bytes) (bs ++ behind),
      length-append bs behind,
      length-take w.size w.bytes,
      length-drop w.size w.bytes,
      length-drop (length bs) rest,
    )

-- With the room there, `_reserve` does nothing.
reserve_roomy : (w : ByteWriter) (extra : ℕ) → w.size + extra ≤ length w.bytes → reserve w extra ≡ w
unfolding reserve
reserve_roomy w extra h = rw (le→leb (w.size + extra) (length w.bytes) h) refl

-- The last step of `long_string`: the text is moved down behind its length.
moved_down :
    (w w' : ByteWriter) (body moved bs : List ℕ)
    → Appended w w' bs
    → moved ≡ body
    → w'.size + length body ≤ length w'.bytes
    → Appended w
        (record { bytes = put w'.bytes w'.size moved; size = w'.size + length body })
        (bs ++ body)
moved_down w w' body moved bs a e room =
    let b = put-Appended w' body room a.there in
    subst
      (λ x.
        Appended w (record { bytes = put w'.bytes w'.size x; size = w'.size + length body })
          (bs ++ body))
      (sym e)
      (record {
        held = b.held ∙ ap (λ x. x ++ body) a.held ∙ append_assoc (to_bytes w) bs body;
        inside = b.inside;
        there = b.there;
      })

long_string-Appended :
    (encode_into : Encoder) (w : ByteWriter) (value : List ℕ)
    → let body = encode_into value (length w.bytes - (w.size + 5)) in
      length body ≤ max_varint
      → w.size + 5 + length body ≤ length w.bytes
      → Appended w (long_string encode_into w value) (text_bytes body)
unfolding long_string varint text_bytes to_bytes
long_string-Appended encode_into w value h room =
    let at = w.size + 5 in
    let body = encode_into value (length w.bytes - at) in
    let k = length body in
    let w1 : ByteWriter = record w { bytes = put w.bytes at body } in
    let l1 = length-put w.bytes at body in
    let a1 = unreserved_varint-Appended w1 k h (omega arith) in
    let w2 = unreserved_varint w1 k in
    let a2 : Appended w w2 (leb128 4 k) = record {
      held = a1.held ∙ ap (λ x. x ++ leb128 4 k) (take-put w.size w.bytes at body (omega arith));
      inside = a1.inside;
      there = a1.there;
    } in
    let roomy = reserve_roomy w1 5 (omega arith) in
    let found : take k (drop at w2.bytes) ≡ body =
      ap (take k) (drop-unreserved_varint w1 k h (omega arith))
      ∙ take-drop-put w.bytes at body room in
    let size = ap ByteWriter.size (unreserved_varint_lem w1 k h (omega arith)) in
    let short = length-leb128 4 k in
    let space : length w2.bytes ≡ length w.bytes =
      length-unreserved_varint w1 k h (omega arith) ∙ l1 in
    subst
      (λ x.
        let w' = unreserved_varint x k in
        Appended w
          (record { bytes = put w'.bytes w'.size (take k (drop at w'.bytes)); size = w'.size + k })
          (leb128 4 k ++ body))
      (sym roomy) (moved_down w w2 body _ _ a2 found (omega arith))

-- `TextEncoder` as documented: with three bytes of room for each unit, the whole text is written,
-- in at most as many bytes.
pub record IsEncoder (encode_into : Encoder) (encode : List ℕ → List ℕ) : Type 0 where
  pub whole :
      (value : List ℕ) (room : ℕ) → 3 * length value ≤ room → encode_into value room ≡ encode value
  pub small : (value : List ℕ) → length (encode value) ≤ 3 * length value

short_text : (body : List ℕ) → length body < 128 → text_bytes body ≡ (length body % 256) ∷ body
unfolding text_bytes
short_text body h =
    let small : length body % 256 ≡ length body = omega arith in
    rw small (ap (λ x. x ++ body) (leb128_small 4 (length body) h))

-- `string` appends the length of the text's encoding as a varint, and then the encoding, of a text
-- that three bytes for each unit do not take beyond 32 bits, whichever way it is written.
pub string-Appended :
    (encode_into : Encoder) (encode : List ℕ → List ℕ) (w : ByteWriter) (text : List ℕ)
    → IsEncoder encode_into encode
    → 3 * length text ≤ max_varint
    → IsFit w
    → Appended w (string encode_into w text) (text_bytes (encode (wire_string text)))
unfolding string
string-Appended encode_into encode w text e h f =
    let value = wire_string text in
    let (_, l, _) = wire_string_lem text in
    let extra = 5 + length value * 3 in
    let w' = reserve w extra in
    let r = reserve-Reserved w extra f in
    let same = r.same_size in
    let room = r.room in
    let small = e.small value in
    let short : encode_into value (length w'.bytes - (w'.size + 1)) ≡ encode value =
      e.whole value _ (omega arith) in
    let long : encode_into value (length w'.bytes - (w'.size + 5)) ≡ encode value =
      e.whole value _ (omega arith) in
    let n1 = ap length short in
    let n5 = ap length long in
    Reserved-Appended w w' _ extra _ r (
      branch_cases (λ x. Appended w' x (text_bytes (encode value))) (ltb (length value) 43)
        (short_string encode_into w' value) (long_string encode_into w' value)
        (λ b.
          let few : length value < 43 = ground arith in
          subst (Appended w' (short_string encode_into w' value))
            (ap (λ x. (length x % 256) ∷ x) short ∙ sym (short_text (encode value) (omega arith)))
            (short_string-Appended encode_into w' value (omega arith) (omega arith)))
        (λ b.
          subst (λ x. Appended w' (long_string encode_into w' value) (text_bytes x)) long
            (long_string-Appended encode_into w' value (omega arith) (omega arith))))
