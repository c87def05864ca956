-- ===== src/Serializer/Frame/Encode.antt =====
-- The bytes that `encode_frame` makes, and when it fails.
use bungohan.Base.{
  ℕ, suc, ◌+◌, ◌^◌, ◌≤◌, ◌<◌, ◌≡◌, refl, sym, ap, ap₂, ◌∙◌, List, [], ◌∷◌, ◌++◌, arith, Option,
  none, some, le→leb, append_cases, length, length-append, append_assoc, append-nil, All, map, set,
  replicate, length-replicate, drop-all, take-append, inl, inr, Option-cases,
}
use mathlib.Core.Option.{get_or}
use bungohan.Base.Int.{pos, negsuc}
use bungohan.Base.Number.{Number, int, other, integer_upto}
use bungohan.Serializer.Varint.{max_varint, varint_size}
use bungohan.Serializer.Varint.Encode.{leb128, write_varint-leb128, varint_size-leb128}
use bungohan.Serializer.Frame.{
  ok, err, encode_failed, header_value, frame_size, write_header, set_bytes, byte_length,
  write_body, build, encode_frame,
}

-- The header varints one after the other.
abbrev pub header_bytes : List ℕ → List ℕ
header_bytes [] = []
header_bytes (v ∷ values) = leb128 4 v ++ header_bytes values

abbrev pub IsHeader : List ℕ → Type 0
IsHeader = All (λ v. v ≤ max_varint)

-- The numbers `v` as JavaScript numbers.
abbrev pub numbers : List ℕ → List Number
numbers = map (λ v. int (pos v))

frame_size_cons :
    (value : Number) (header : List Number) (v size total : ℕ) (values : List ℕ)
    → header_value value ≡ some v
    → frame_size header (size + varint_size v) ≡ some (total, values)
    → frame_size (value ∷ header) size ≡ some (total, v ∷ values)
unfolding frame_size
frame_size_cons value header v size total values p q = rw (p, frame_size) (rw (q, frame_size))

frame_size-numbers :
    (values : List ℕ) (size : ℕ)
    → IsHeader values
    → frame_size (numbers values) size ≡ some (size + length (header_bytes values), values)
unfolding frame_size
frame_size-numbers [] size h = ap (λ n. some (n, [])) (omega arith)
frame_size-numbers (v ∷ values) size (h, hs) =
    frame_size_cons (int (pos v)) (numbers values) v size _ values (ground arith)
      (frame_size-numbers values (size + varint_size v) hs)
    ∙ ap (λ n. some (n, v ∷ values))
        (omega (
          arith,
          varint_size-leb128 4 v (omega arith),
          length-append (leb128 4 v) (header_bytes values),
        ))

write_header_step :
    (v : ℕ) (values pre old post : List ℕ)
    → v < 128 ^ 5
    → length old ≡ length (leb128 4 v)
    → write_header (pre ++ (old ++ post)) (length pre) (v ∷ values)
      ≡ write_header (pre ++ (leb128 4 v ++ post)) (length pre + length (leb128 4 v)) values
unfolding write_header
write_header_step v values pre old post h l =
    ap (λ w. write_header w.0 w.1 values) (write_varint-leb128 4 v pre old post h l)

-- The step of the induction: the prefix has grown by `enc`.
grown :
    (pre enc more old post : List ℕ) (values : List ℕ)
    → write_header ((pre ++ enc) ++ (old ++ post)) (length (pre ++ enc)) values
      ≡ ((pre ++ enc) ++ (more ++ post), length (pre ++ enc) + length more)
    → write_header (pre ++ (enc ++ (old ++ post))) (length pre + length enc) values
      ≡ (pre ++ ((enc ++ more) ++ post), length pre + length (enc ++ more))
grown pre enc more old post values h =
    ap₂ (λ l n. write_header l n values) (sym (append_assoc pre enc (old ++ post)))
      (sym (length-append pre enc))
    ∙ h
    ∙ ap₂ (λ l n. (l, n))
        (append_assoc pre enc (more ++ post) ∙ ap (◌++◌ pre) (sym (append_assoc enc more post)))
        (omega (arith, length-append pre enc, length-append enc more))

-- The header is written over the cells that are there for it.
write_header-header_bytes :
    (values pre old post : List ℕ)
    → IsHeader values
    → length old ≡ length (header_bytes values)
    → write_header (pre ++ (old ++ post)) (length pre) values
      ≡ (pre ++ (header_bytes values ++ post), length pre + length (header_bytes values))
write_header-header_bytes [] pre [] post h l =
    unfold write_header in ap (λ n. (pre ++ post, n)) (omega arith)
write_header-header_bytes [] pre (o ∷ old) post h l = absurd (omega arith)
write_header-header_bytes (v ∷ values) pre old post (h, hs) l =
    let enc = leb128 4 v in
    let (old₁, old₂, e, l₁, l₂) =
      append_cases (length enc) (length (header_bytes values)) old
        (l ∙ length-append enc (header_bytes values)) in
    rw (e, append_assoc old₁ old₂ post)
      (write_header_step v values pre old₁ (old₂ ++ post) (omega arith) l₁
        ∙ grown pre enc (header_bytes values) old₂ post values
            (write_header-header_bytes values (pre ++ enc) old₂ post hs l₂))

-- The array behind the type byte: cells for the header and cells for the body.
write_body-append :
    (pre : List ℕ) (old : List ℕ) (body : Option (List ℕ))
    → length old ≡ byte_length body
    → write_body (pre ++ old) (length pre) body ≡ ok (pre ++ get_or body [])
unfolding write_body set_bytes
write_body-append pre [] none l = refl
write_body-append pre (o ∷ old) none l = absurd (omega arith)
write_body-append pre old (some body) l =
    let fits : length pre + length body ≤ length (pre ++ old) =
      omega (arith, length-append pre old) in
    rw (le→leb (length pre + length body) (length (pre ++ old)) fits) (
      ap ok (
        ap₂ (λ a b. a ++ (body ++ b)) (take-append pre old (length pre) refl)
          (drop-all (pre ++ old) (length pre + length body) (omega (arith, length-append pre old)))
        ∙ ap (◌++◌ pre) (append-nil body)))

-- The array after `out[0] = type`.
type_byte :
    (t n m : ℕ) (cells : List ℕ)
    → length cells ≡ suc (n + m)
    → (old post : List ℕ) × (set cells 0 t ≡ (t ∷ []) ++ (old ++ post))
      × (length old ≡ n)
      × (length post ≡ m)
type_byte t n m [] h = absurd (omega arith)
type_byte t n m (c ∷ cells) h =
    let (old, post, e, l, k) = append_cases n m cells (omega arith) in
    (old, post, ap (◌∷◌ t) e, l, k)

-- `build` on checked values: no write is lost, and `set` does not throw.
build-header_bytes :
    (t : ℕ) (values : List ℕ) (body : Option (List ℕ))
    → IsHeader values
    → build (1 + byte_length body + length (header_bytes values)) t values body
      ≡ ok (t ∷ (header_bytes values ++ get_or body []))
unfolding build
build-header_bytes t values body h =
    let n = length (header_bytes values) in
    let (old, post, e, l, m) =
      type_byte t n (byte_length body) (replicate (1 + byte_length body + n) 0)
        (omega (arith, length-replicate {A = ℕ} (1 + byte_length body + n) 0)) in
    rw e (
      ap (λ w. write_body w.0 w.1 body) (write_header-header_bytes values (t ∷ []) old post h l)
      ∙ ap (λ k. write_body ((t ∷ header_bytes values) ++ post) k body) (omega arith)
      ∙ write_body-append (t ∷ header_bytes values) post body m)

-- A type in 0..255 and header values in 0..2^32-1 give the type byte, the header varints and
-- the body, in an array of just their size; no write falls outside and nothing is thrown.
pub encode_frame_ok :
    (t : ℕ) (values : List ℕ) (body : Option (List ℕ))
    → t < 256
    → IsHeader values
    → encode_frame (int (pos t)) (numbers values) body
      ≡ ok (t ∷ (header_bytes values ++ get_or body []))
unfolding encode_frame
encode_frame_ok t values body ht h =
    rw (le→leb t 255 (omega arith), encode_frame)
      (rw (frame_size-numbers values (1 + byte_length body) h) (build-header_bytes t values body h))

-- What `encodeFrame` is documented to accept.
abbrev pub IsEncodable : Number → List Number → Type 0
IsEncodable type header =
    (t : ℕ) × (values : List ℕ) × (type ≡ int (pos t))
    × (t < 256)
    × (header ≡ numbers values)
    × IsHeader values

integer_upto_sound :
    (bound : ℕ) (n : Number) (v : ℕ)
    → integer_upto bound n ≡ some v
    → (n ≡ int (pos v)) × (v ≤ bound)
integer_upto_sound bound (int (pos m)) v h = ground arith
integer_upto_sound bound (int (negsuc m)) v h = cc
integer_upto_sound bound other v h = cc

frame_size_sound :
    (header : List Number) (size total : ℕ) (values : List ℕ)
    → frame_size header size ≡ some (total, values)
    → (header ≡ numbers values) × IsHeader values
unfolding frame_size
frame_size_sound [] size total values h = ground arith
frame_size_sound (value ∷ header) size total values h = elim (Option-cases (header_value value)) [
  | inl e ↦ cc (rw (e, frame_size) at h)
  | inr (v, e) ↦ elim (Option-cases (frame_size header (size + varint_size v))) [
    | inl f ↦ cc (rw (e, f, frame_size) at h)
    | inr ((total', values'), f) ↦
        let (p, q) = integer_upto_sound max_varint value v e in
        let (r, s) = frame_size_sound header (size + varint_size v) total' values' f in
        let g : some (total', v ∷ values') ≡ some (total, values) = rw (e, f, frame_size) at h in
        ground (arith, p, q, r, s, g)
  ]
]

-- Anything else is refused with ENCODE_FAILED: a type that is no integer in 0..255, or one header
-- value that is no integer in 0..2^32-1.
pub encode_frame_invalid :
    (type : Number) (header : List Number) (body : Option (List ℕ))
    → ¬ IsEncodable type header
    → encode_frame type header body ≡ err encode_failed
unfolding encode_frame
encode_frame_invalid type header body bad = elim (Option-cases (integer_upto 255 type)) [
  | inl e ↦ rw (e, encode_frame)
  | inr (t, e) ↦ elim (Option-cases (frame_size header (1 + byte_length body))) [
    | inl f ↦ rw (e, f, encode_frame)
    | inr ((total, values), f) ↦
        let (p, q) = integer_upto_sound 255 type t e in
        let (r, s) = frame_size_sound header _ total values f in
        absurd (bad (t, values, p, omega arith, r, s))
  ]
]
