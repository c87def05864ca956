-- ===== src/Codec/Decoder/Reads.antt =====
-- schema-codec.ts: values, keys and refs behind the wire.
use bungohan.Base.{
  ℕ, ◌≤◌, ◌≡◌, refl, sym, ap₂, subst, Bool, true, false, Option, none, some, List, arith,
  branch_cases,
}
use bungohan.Base.Int.{ℤ, pos, negsuc}
use bungohan.Numbers.{trunc, uint32, is_int_of}
use bungohan.Serializer.Varint.{max_varint}
use bungohan.Serializer.Reader
use bungohan.Serializer.Writer
use bungohan.Serializer.Writer.{ByteWriter}
use bungohan.Serializer.Writer.Grow.{IsFit}
use bungohan.Codec.FieldType.{Scalar}
use bungohan.Codec.Tables.{Tables, bind_ref}
use bungohan.Codec.Platform.{Platform, IsPlatform, as_uint32, magnitude}
use bungohan.Codec.Values.{
  Key, number, text, flag, Read, ◌>>=◌, return, unless_failed, write_scalar, read_scalar,
}
use bungohan.Codec.Values.Integers.{IsBetween, limits, is_int_of-IsBetween}
use bungohan.Codec.Values.Scalars.{
  IsShort, whole, sent_scalar, WriteRead, map_coded, write_scalar-read_scalar,
}
use bungohan.Codec.Coded.{Coded, Coded-IsFit, nothing, then_coded, coded_varint}
use bungohan.Codec.Ops.{WireValue, key, ref}
use bungohan.Codec.Encoder.{
  Sink, Written, encode_bound, encode_pair, encode_ref, wrote, encode_scalar, encode_content,
  encode_index, encode_key,
}
use bungohan.Codec.Decoder.{
  Got, of_nat, decode_bound, decode_ref, decode_scalar, decode_content, decode_index, decode_key,
}

abbrev pub IsShortValue : {F : Type 0} → WireValue F → Type 0
IsShortValue (key k) = IsShort k
IsShortValue (ref c n) = Unit

module _ {A : Type 0} {w w' : ByteWriter} {m : Read A} {v : A} where
  unfoldable pub unfailed : (other : A) → Coded w w' m v → Coded w w' (unless_failed other m) v
  unfailed other c = record { bs = c.bs; appended = c.appended; reads = c.reads }

module _ {F : Type 0} (p : Platform F) where
  -- What a value of a kind is behind the wire.
  abbrev pub sent_content : Option (Option Scalar) → WireValue F → WireValue F
  sent_content (some (some type)) (key k) = key (sent_scalar p type k)
  sent_content (some none) (key k) = key k
  sent_content none (key k) = key k
  sent_content kind (ref c n) = ref (whole p c) (whole p n)

  abbrev pub sent_key : Option Scalar → Key F → Key F
  sent_key none (number x) = number (whole p x)
  sent_key none (text s) = text s
  sent_key none (flag b) = flag b
  sent_key (some type) k = sent_scalar p type k

  -- An unsigned number, and what is read for it.
  abbrev pub FitsUint : F → Option ℕ → Type 0
  FitsUint x none = Unit
  FitsUint x (some n) = (n ≤ max_varint) × (of_nat p n ≡ whole p x)

  magnitude-FitsUint :
      (x : F) (z : ℤ)
      → p.of_int z ≡ whole p x
      → IsBetween 0 4_294_967_296 z
      → FitsUint x (magnitude z)
  unfolding IsBetween
  magnitude-FitsUint x (pos n) e h = (omega arith, e)
  magnitude-FitsUint x (negsuc n) e h = tt

  pub as_uint32-FitsUint : (x : F) → FitsUint x (as_uint32 p x)
  unfolding limits
  as_uint32-FitsUint x =
      branch_cases (λ (o : Option ℤ). FitsUint x (elim o [ none ↦ none | some z ↦ magnitude z ]))
        (is_int_of (some (p.view x)) uint32) _ _
        (λ e.
          magnitude-FitsUint x (trunc (p.view x)) refl (is_int_of-IsBetween (p.view x) uint32 e).0)
        (λ e. tt)

  -- A value that was written, read back; nothing for a `Fail`.
  abbrev pub ValueRead : ByteWriter → Read (Got F × Tables) → WireValue F → Written → Type 0
  ValueRead w m v (s, none) = Unit
  ValueRead w m v (s, some carried) = Coded w s.out m (some (v, carried), s.tables)

  bound_read :
      (s : Sink) (x y : F) (c n : ℕ) (b : Tables × Bool)
      → bind_ref s.tables c n ≡ b
      → FitsUint x (some c)
      → FitsUint y (some n)
      → IsFit s.out
      → ValueRead s.out
          (decode_ref p s.tables)
          (ref (whole p x) (whole p y))
          (encode_bound p s.out c n b)
  unfolding encode_bound decode_ref decode_bound
  bound_read s x y c n (t, false) e h k f = tt
  bound_read s x y c n (t, true) e h k f =
      let first = coded_varint s.out c h.0 f in
      let w = Writer.varint s.out c in
      let second = coded_varint w n k.0 (Coded-IsFit first) in
      let w' = Writer.varint w n in
      let read : Coded w' w' (decode_bound p c n (t, true))
          (some (ref (of_nat p c) (of_nat p n), some n), t) =
        nothing w' _ (Coded-IsFit second) in
      let known =
        subst
          (λ b.
            Coded w' w' (decode_bound p c n b) (some (ref (of_nat p c) (of_nat p n), some n), t))
          (sym e) read in
      subst (λ v. Coded s.out w' (decode_ref p s.tables) (some (v, some n), t))
        (ap₂ (λ a b. ref a b) h.1 k.1)
        (then_coded
          (λ c. Reader.varint >>= λ n.
            unless_failed (none, s.tables) (decode_bound p c n (bind_ref s.tables c n)))
          first
          (then_coded
            (λ n. unless_failed (none, s.tables) (decode_bound p c n (bind_ref s.tables c n)))
            second (unfailed (none, s.tables) known)))

  pair_read :
      (s : Sink) (x y : F) (c n : Option ℕ)
      → FitsUint x c
      → FitsUint y n
      → IsFit s.out
      → ValueRead s.out (decode_ref p s.tables) (ref (whole p x) (whole p y)) (encode_pair p s c n)
  pair_read s x y none n h k f = tt
  pair_read s x y (some c) none h k f = tt
  pair_read s x y (some c) (some n) h k f = bound_read s x y c n (bind_ref s.tables c n) refl h k f

  scalar_read :
      (s : Sink) (type : Scalar) (k : Key F) (o : Option ByteWriter)
      → WriteRead s.out (read_scalar p type) k o
      → ValueRead s.out (decode_scalar p s.tables type) (key k) (wrote p s o)
  unfolding decode_scalar
  scalar_read s type k none c = tt
  scalar_read s type k (some w) c =
      then_coded (λ k. unless_failed (none, s.tables) (return (some (key k, none), s.tables))) c
        (unfailed (none, s.tables) (nothing w (some (key k, none), s.tables) (Coded-IsFit c)))

  index_read :
      (w : ByteWriter) (k : Key F)
      → IsFit w
      → WriteRead w (decode_index p) (sent_key none k) (encode_index p w k)
  unfolding encode_index decode_index
  index_read w (text s) f = tt
  index_read w (flag b) f = tt
  index_read w (number x) f = number_read (as_uint32 p x) (as_uint32-FitsUint x)
    where
      number_read :
          (o : Option ℕ)
          → FitsUint x o
          → WriteRead w
              (decode_index p)
              (number (whole p x))
              (elim o [ none ↦ none | some n ↦ some (Writer.varint w n) ])
      number_read none h = tt
      number_read (some n) h =
          subst (λ y. Coded w (Writer.varint w n) (decode_index p) (number y)) h.1
            (map_coded (λ n. number (of_nat p n)) (coded_varint w n h.0 f))

module _ {F : Type 0} (p : Platform F) (encode : List ℕ → List ℕ) (l : IsPlatform p encode) where
  pub content_read :
      (s : Sink) (kind : Option (Option Scalar)) (value : WireValue F)
      → IsShortValue value
      → IsFit s.out
      → ValueRead p s.out
          (decode_content p s.tables kind)
          (sent_content p kind value)
          (encode_content p s kind value)
  unfolding encode_content decode_content encode_ref encode_scalar
  content_read s none value h f = tt
  content_read s (some none) (key k) h f = tt
  content_read s (some none) (ref c n) h f =
      pair_read p s c n (as_uint32 p c) (as_uint32 p n) (as_uint32-FitsUint p c)
        (as_uint32-FitsUint p n) f
  content_read s (some (some type)) (key k) h f =
      scalar_read p s type (sent_scalar p type k) (write_scalar p s.out type k)
        (write_scalar-read_scalar p encode l s.out type k h f)
  content_read s (some (some type)) (ref c n) h f = tt

  pub key_read :
      (w : ByteWriter) (type : Option Scalar) (k : Key F)
      → IsShort k
      → IsFit w
      → WriteRead w (decode_key p type) (sent_key p type k) (encode_key p w type k)
  unfolding encode_key decode_key
  key_read w none k h f = index_read p w k f
  key_read w (some type) k h f = write_scalar-read_scalar p encode l w type k h f
