-- ===== src/Codec/Decoder/Defines.antt =====
-- schema-codec.ts, `encodeDefine` and `_define`: a DEFINE behind the wire.
use bungohan.Base.{
  ℕ, suc, ◌*◌, ◌≤◌, ◌≡◌, refl, sym, ap, subst, ◌∙◌, Bool, true, false, ◌&&◌, Option, none, some,
  List, [], ◌∷◌, length, arith, if◌then◌else◌, ◌==◌, branch_cases,
}
use bungohan.Serializer.Varint.{max_varint}
use bungohan.Serializer.Text.{wire_string}
use bungohan.Serializer.Reader
use bungohan.Serializer.Writer
use bungohan.Serializer.Writer.{ByteWriter}
use bungohan.Serializer.Writer.Grow.{IsFit}
use bungohan.Codec.Tables
use bungohan.Codec.Tables.{Tables, Entry}
use bungohan.Codec.Platform.{Platform, IsPlatform}
use bungohan.Codec.Values.{◌>>=◌, return, unless_failed}
use bungohan.Codec.Values.Scalars.{whole}
use bungohan.Codec.Coded.{
  Coded, Coded-IsFit, nothing, then_coded, length-then_coded, coded_u8, coded_varint, coded_string,
  length-coded_string, counted,
}
use bungohan.Codec.Ops
use bungohan.Codec.Ops.{WireOp, is_define, all_parse}
use bungohan.Codec.Encoder.{Sink, Encoding, write_pairs, write_define, write_defined, encode_define}
use bungohan.Codec.Decoder.{
  OpRead, of_nat, read_pairs, decode_defined, decode_entry, decode_define, decode_header, decode_op,
  entry_of, refused, Decoding,
}
use bungohan.Codec.Decoder.Reads.{FitsUint, unfailed}
use bungohan.Codec.Decoder.Header.{OpSent, byte_then}

-- A text that the wire keeps.
pub record IsPlainText (s : List ℕ) : Type 0 where
  pub short : 3 * length s ≤ max_varint
  pub kept : wire_string s ≡ s

unfoldable pub ArePlainTexts : List (List ℕ) → Type 0
ArePlainTexts [] = Unit
ArePlainTexts (s ∷ texts) = IsPlainText s × ArePlainTexts texts

is_define-length :
    (fields types : List (List ℕ)) → is_define fields types ≡ true → length fields ≡ length types
is_define-length fields types e = is_equal (length fields) (length types) (all_parse types) e
  where
    is_equal : (n k : ℕ) (b : Bool) → (n == k && b) ≡ true → n ≡ k
    is_equal n k b e = ground (arith, e)

module _ {F : Type 0} (p : Platform F) where
  one_pair :
      (w w1 w2 w3 : ByteWriter) (n : ℕ) (field type : List ℕ) (fields types : List (List ℕ))
      (c : Coded w w1 (Reader.string p.decode) field)
      (d : Coded w1 w2 (Reader.string p.decode) type)
      (rest : Coded w2 w3 (read_pairs p n) (fields, types))
      → 1 ≤ length c.bs
      → n ≤ length rest.bs
      → (all : Coded w w3 (read_pairs p (suc n)) (field ∷ fields, type ∷ types)) × (suc n
          ≤ length all.bs)
  unfolding read_pairs unfailed
  one_pair w w1 w2 w3 n field type fields types c d rest h k =
      let f3 = λ (rest : List (List ℕ) × List (List ℕ)). return (field ∷ rest.0, type ∷ rest.1) in
      let f2 =
        λ (type : List ℕ). read_pairs p n >>= λ rest. return (field ∷ rest.0, type ∷ rest.1) in
      let f1 = λ (field : List ℕ). Reader.string p.decode >>= λ type.
      read_pairs p n >>= λ rest. return (field ∷ rest.0, type ∷ rest.1) in
      let end = nothing w3 (field ∷ fields, type ∷ types) (Coded-IsFit rest) in
      let third = then_coded f3 rest end in
      let second = then_coded f2 d third in
      (
        unfailed ([], []) (then_coded f1 c second),
        omega (
          arith,
          length-then_coded f1 c second,
          length-then_coded f2 d third,
          length-then_coded f3 rest end,
        ),
      )

  defined_lem :
      (t t' : Tables) (last c : ℕ) (name : List ℕ) (fields types : List (List ℕ))
      → is_define fields types ≡ true
      → Tables.define t c (entry_of p name (fields, types)) ≡ (t', true)
      → decode_entry p (t, last) c name (fields, types)
        ≡ return (some (Ops.define (of_nat p c) name fields types), (t', last))
  unfolding decode_defined
  defined_lem t t' last c name fields types e known =
      ap
        (λ b.
          if b
          then decode_defined p last c name (fields, types)
              (Tables.define t c (entry_of p name (fields, types)))
          else refused (t, last))
        e
      ∙ ap (decode_defined p last c name (fields, types)) known

  define_parts :
      (w w1 w2 w4 : ByteWriter) (t : Tables) (last c n : ℕ) (name : List ℕ)
      (pair_lists : List (List ℕ) × List (List ℕ)) (u : Option (WireOp F) × Decoding)
      (id : Coded w w1 Reader.varint c) (text : Coded w1 w2 (Reader.string p.decode) name)
      (pairs : Coded (Writer.varint w2 n) w4 (read_pairs p n) pair_lists)
      (end : Coded w4 w4 (decode_entry p (t, last) c name pair_lists) u)
      → n ≤ max_varint
      → n ≤ length pairs.bs
      → Coded w w4 (decode_define p (t, last)) u
  unfolding decode_define
  define_parts w w1 w2 w4 t last c n name pair_lists u id text pairs end m enough =
      let d : Decoding = (t, last) in
      let entry = λ (c : ℕ) (name : List ℕ) (pairs : List (List ℕ) × List (List ℕ)).
        unless_failed (none, d) (decode_entry p d c name pairs) in
      let read = λ (c : ℕ) (name : List ℕ) (n : ℕ). read_pairs p n >>= entry c name in
      let behind = λ (c : ℕ) (name : List ℕ). Reader.count >>= read c name in
      let some_pairs = then_coded (entry c name) pairs (unfailed (none, d) end) in
      let count =
        counted n (read c name) m (Coded-IsFit text) some_pairs
          (omega (arith, length-then_coded (entry c name) pairs (unfailed (none, d) end))) in
      then_coded (λ (c : ℕ). Reader.string p.decode >>= behind c) id
        (then_coded (behind c) text count)

module _ {F : Type 0} (p : Platform F) (encode : List ℕ → List ℕ) (l : IsPlatform p encode) where
  plain_coded :
      (w : ByteWriter) (s : List ℕ)
      → IsPlainText s
      → IsFit w
      → (c : Coded w (Writer.string p.encode_into w s) (Reader.string p.decode) s) × (1
          ≤ length c.bs)
  plain_coded w s h f =
      subst
        (λ x.
          (c : Coded w (Writer.string p.encode_into w s) (Reader.string p.decode) x) × (1
            ≤ length c.bs))
        h.kept (coded_string p encode l w s h.short f, length-coded_string p encode l w s h.short f)

  pairs_coded :
      (w : ByteWriter) (fields types : List (List ℕ))
      → length fields ≡ length types
      → ArePlainTexts fields
      → ArePlainTexts types
      → IsFit w
      → (c : Coded w (write_pairs p w fields types) (read_pairs p (length fields)) (fields, types))
        × (length fields ≤ length c.bs)
  unfolding write_pairs read_pairs ArePlainTexts
  pairs_coded w [] [] e h k f = (nothing w ([], []) f, omega arith)
  pairs_coded w [] (type ∷ types) e h k f = absurd (omega arith)
  pairs_coded w (field ∷ fields) [] e h k f = absurd (omega arith)
  pairs_coded w (field ∷ fields) (type ∷ types) e h k f =
      let w1 = Writer.string p.encode_into w field in
      let w2 = Writer.string p.encode_into w1 type in
      let (c, some_byte) = plain_coded w field h.0 f in
      let (d, _) = plain_coded w1 type k.0 (Coded-IsFit c) in
      let (rest, enough) = pairs_coded w2 fields types (omega arith) h.1 k.1 (Coded-IsFit d) in
      one_pair p w w1 w2 (write_pairs p w2 fields types) (length fields) field type fields types c d
        rest some_byte enough

  -- What stands behind the header byte.
  define_coded :
      (w : ByteWriter) (t t' : Tables) (last c : ℕ) (name : List ℕ) (fields types : List (List ℕ))
      → c ≤ max_varint
      → length fields ≤ max_varint
      → IsPlainText name
      → ArePlainTexts fields
      → ArePlainTexts types
      → is_define fields types ≡ true
      → Tables.define t c (entry_of p name (fields, types)) ≡ (t', true)
      → IsFit w
      → Coded w
          (write_pairs p
            (Writer.varint (Writer.string p.encode_into (Writer.varint w c) name) (length fields))
            fields
            types)
          (decode_define p (t, last))
          (some (Ops.define (of_nat p c) name fields types), (t', last))
  unfolding decode_define
  define_coded w t t' last c name fields types m many h k j e known f =
      let w1 = Writer.varint w c in
      let w2 = Writer.string p.encode_into w1 name in
      let w3 = Writer.varint w2 (length fields) in
      let w4 = write_pairs p w3 fields types in
      let id = coded_varint w c m f in
      let (text, _) = plain_coded w1 name h (Coded-IsFit id) in
      let fit = Coded-IsFit (coded_varint w2 (length fields) many (Coded-IsFit text)) in
      let (pairs, enough) = pairs_coded w3 fields types (is_define-length fields types e) k j fit in
      let op = Ops.define (of_nat p c) name fields types in
      let end =
        subst (λ (m : OpRead F). Coded w4 w4 m (some op, (t', last)))
          (sym (defined_lem p t t' last c name fields types e known))
          (nothing w4 (some op, (t', last)) (Coded-IsFit pairs)) in
      define_parts p w w1 w2 w4 t last c (length fields) name (fields, types) (some op, (t', last))
        id text pairs end many enough

  known_read :
      (s : Sink) (last c : ℕ) (name : List ℕ) (fields types : List (List ℕ)) (known : Tables × Bool)
      → c ≤ max_varint
      → length fields ≤ max_varint
      → IsPlainText name
      → ArePlainTexts fields
      → ArePlainTexts types
      → is_define fields types ≡ true
      → Tables.define s.tables c (entry_of p name (fields, types)) ≡ known
      → IsFit s.out
      → OpSent s.out
          (decode_op p (s.tables, last))
          (Ops.define (of_nat p c) name fields types)
          (write_defined p (s, last) c name fields types known)
  unfolding write_defined write_define decode_header
  known_read s last c name fields types (t', false) m many h k j e known f = tt
  known_read s last c name fields types (t', true) m many h k j e known f =
      byte_then p s.out 0x80 (s.tables, last) (Ops.define (of_nat p c) name fields types)
        (write_defined p (s, last) c name fields types (t', true)) (omega arith) f
        (define_coded (Writer.u8 s.out 0x80) s.tables t' last c name fields types m many h k j e
          known (Coded-IsFit (coded_u8 s.out 0x80 (omega arith) f)))

  pub define_read :
      (s : Sink) (last : ℕ) (id : F) (name : List ℕ) (fields types : List (List ℕ)) (c : Option ℕ)
      → FitsUint p id c
      → length fields ≤ max_varint
      → IsPlainText name
      → ArePlainTexts fields
      → ArePlainTexts types
      → IsFit s.out
      → OpSent s.out
          (decode_op p (s.tables, last))
          (Ops.define (whole p id) name fields types)
          (encode_define p (s, last) c name fields types)
  unfolding encode_define
  define_read s last id name fields types none fits many h k j f = tt
  define_read s last id name fields types (some c) fits many h k j f =
      subst
        (λ x.
          OpSent s.out (decode_op p (s.tables, last)) (Ops.define x name fields types)
            (encode_define p (s, last) (some c) name fields types))
        fits.1
        (branch_cases
          (λ (e : Encoding × Bool).
            OpSent s.out (decode_op p (s.tables, last)) (Ops.define (of_nat p c) name fields types)
              e)
          (is_define fields types) _ _
          (λ e.
            known_read s last c name fields types
              (Tables.define s.tables c (entry_of p name (fields, types))) fits.0 many h k j e refl
              f)
          (λ e. tt))
