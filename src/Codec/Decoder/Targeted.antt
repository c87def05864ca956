-- ===== src/Codec/Decoder/Targeted.antt =====
-- schema-codec.ts, `op`: ops on a target behind the wire.
use bungohan.Base.{
  ℕ, ◌+◌, ◌-◌, ◌≤◌, ◌<◌, ◌≡◌, refl, ap, subst, true, Option, none, some, List, length, arith, min,
  if◌then◌else◌, ◌==◌, leb, get_elem?, either_branch,
}
use bungohan.Base.Dict
use bungohan.Base.Keys.{number_keys}
use bungohan.Serializer.Varint.{max_varint}
use bungohan.Serializer.Reader
use bungohan.Serializer.Writer
use bungohan.Serializer.Writer.{ByteWriter}
use bungohan.Serializer.Writer.Grow.{IsFit}
use bungohan.Codec.FieldType.{ParsedFieldType, value_of}
use bungohan.Codec.Tables.{Tables, Target, ClassLayout, instance_of, collection}
use bungohan.Codec.Platform.{Platform, IsPlatform, as_uint32}
use bungohan.Codec.Values.{◌>>=◌, return}
use bungohan.Codec.Values.Scalars.{whole, map_coded}
use bungohan.Codec.Coded.{Coded, Coded-IsFit, nothing, coded_u8, coded_varint}
use bungohan.Codec.Ops
use bungohan.Codec.Ops.{WireValue, WireOp}
use bungohan.Codec.Encoder.{
  Sink, encode_content, at_field, encode_payload, encode_collection, code_of, target_of, in_layout,
  field_of, header_byte, settled, encode_on, encode_at, encode_other,
}
use bungohan.Codec.Decoder.{of_nat, decode_content, decode_field, decode_on, decode_op, field_index}
use bungohan.Codec.Decoder.Reads.{
  FitsUint, as_uint32-FitsUint, sent_content, IsShortValue, content_read,
}
use bungohan.Codec.Decoder.Payload.{
  IsShortOp, OpWritten, OpWritten-then, sent_on, kind_at, collection_read, settled_read, renamed,
  both_cases,
}
use bungohan.Codec.Decoder.Header.{OpSent, header_then, header_byte-bound}

same_last : (n last : ℕ) → (n == last) ≡ true → n ≡ last
same_last n last e = ground (arith, e)

module _ {F : Type 0} (p : Platform F) where
  -- The field index of a SET on an instance.
  field_coded :
      (w : ByteWriter) (field : ℕ)
      → field ≤ max_varint
      → IsFit w
      → Coded w
          (if min field 15 == 15 then Writer.varint w (field - 15) else w)
          (field_index p (min field 15))
          field
  field_coded w field h f =
      both_cases (λ w' m. Coded w w' m field) (min field 15 == 15) _ _ _ _
        (λ e.
          subst
            (λ x.
              Coded w (Writer.varint w (field - 15)) (Reader.varint >>= λ more. return (15 + more))
                x)
            (ground (arith, e))
            (map_coded (λ more. 15 + more) (coded_varint w (field - 15) (omega arith) f)))
        (λ e. subst (λ x. Coded w w (return x) field) (ground (arith, e)) (nothing w field f))

  -- What an op on the target that it names is behind the wire.
  abbrev sent_at : F → WireOp F → Option Target → WireOp F
  sent_at r op none = op
  sent_at r op (some target) = sent_on p r target op

  abbrev pub sent_other : Tables → F → WireOp F → Option ℕ → WireOp F
  sent_other t r op none = op
  sent_other t r op (some n) = sent_at r op (Dict.get t.targets n)

module _ {F : Type 0} (p : Platform F) (encode : List ℕ → List ℕ) (l : IsPlatform p encode) where
  -- The field's value behind its index, where the class has the field.
  value_read :
      (s : Sink) (last n field : ℕ) (x : F) (value : WireValue F) (layout : ClassLayout)
      (o : Option ParsedFieldType)
      → IsShortValue value
      → IsFit s.out
      → OpWritten s.out
          (decode_field p (s.tables, last) n field o)
          (Ops.set
            (of_nat p n)
            (of_nat p field)
            (sent_content p (elim o [ none ↦ none | some type ↦ value_of type ]) value))
          (settled last n (at_field p s value o))
  value_read s last n field x value layout none h f = tt
  value_read s last n field x value layout (some type) h f =
      settled_read p s.out last n (decode_content p s.tables (value_of type))
        (sent_content p (value_of type) value) (Ops.set (of_nat p n) (of_nat p field))
        (encode_content p s (value_of type) value)
        (content_read p encode l s (value_of type) value h f)

  field_set :
      (s : Sink) (last n field : ℕ) (o x : F) (value : WireValue F) (layout : ClassLayout)
      → n ≤ max_varint
      → FitsUint p x (some field)
      → Dict.get s.tables.targets n ≡ some (instance_of layout)
      → IsShortValue value
      → IsFit s.out
      → OpSent s.out
          (decode_op p (s.tables, last))
          (Ops.set (of_nat p n) (whole p x) (sent_content p (kind_at p layout (some field)) value))
          (encode_on p (s, last) (Ops.set o x value) n (instance_of layout) (some (some field)))
  unfolding encode_on encode_payload decode_on
  field_set s last n field o x value layout m fits found h f =
      let same = n == last in
      let k = min field 15 in
      let b = header_byte 0 same k in
      let small = header_byte-bound 0 k same (omega arith) (omega arith) in
      let w = Writer.u8 s.out b in
      let fit = Coded-IsFit (coded_u8 s.out b small f) in
      let w' = if same then w else Writer.varint w n in
      let fit' : IsFit w' =
        either_branch IsFit same w (Writer.varint w n) fit (Coded-IsFit (coded_varint w n m fit)) in
      let index = field_coded p w' field fits.0 fit' in
      let w'' = if k == 15 then Writer.varint w' (field - 15) else w' in
      let s' : Sink = record s { out = w'' } in
      let e = settled last n (at_field p s' value (get_elem? layout.types field)) in
      let rest =
        λ (field : ℕ). decode_field p (s.tables, last) n field (get_elem? layout.types field) in
      header_then p s.out s.tables last n 0 same k (instance_of layout) _ e (omega arith)
        (omega arith) (same_last n last) m found f
        (OpWritten-then p w' w'' (field_index p k) field rest _ e index (
          renamed w'' (rest field) e
            (ap (λ x. Ops.set (of_nat p n) x (sent_content p (kind_at p layout (some field)) value))
              fits.1)
            (value_read s' last n field x value layout (get_elem? layout.types field) h
              (Coded-IsFit index))))

  layout_set :
      (s : Sink) (last n : ℕ) (o x : F) (value : WireValue F) (layout : ClassLayout)
      (field : Option ℕ)
      → n ≤ max_varint
      → FitsUint p x field
      → Dict.get s.tables.targets n ≡ some (instance_of layout)
      → IsShortValue value
      → IsFit s.out
      → OpSent s.out
          (decode_op p (s.tables, last))
          (Ops.set (of_nat p n) (whole p x) (sent_content p (kind_at p layout field) value))
          (encode_on p
            (s, last)
            (Ops.set o x value)
            n
            (instance_of layout)
            (in_layout p layout field))
  unfolding encode_on
  layout_set s last n o x value layout none m fits found h f = tt
  layout_set s last n o x value layout (some field) m fits found h f =
      either_branch
        (λ (i : Option (Option ℕ)).
          OpSent s.out (decode_op p (s.tables, last))
            (Ops.set (of_nat p n) (whole p x)
              (sent_content p (kind_at p layout (some field)) value))
            (encode_on p (s, last) (Ops.set o x value) n (instance_of layout) i))
        (leb (length layout.types) field) _ _ tt
        (field_set s last n field o x value layout m fits found h f)

  collection_op :
      (s : Sink) (last n : ℕ) (op : WireOp F) (type : ParsedFieldType)
      → n ≤ max_varint
      → Dict.get s.tables.targets n ≡ some (collection type)
      → code_of p op < 4
      → IsShortOp op
      → IsFit s.out
      → OpSent s.out
          (decode_op p (s.tables, last))
          (sent_on p (of_nat p n) (collection type) op)
          (encode_on p (s, last) op n (collection type) (some none))
  unfolding encode_on encode_payload decode_on
  collection_op s last n op type m found k h f =
      let same = n == last in
      let b = header_byte (code_of p op) same 0 in
      let small = header_byte-bound (code_of p op) 0 same k (omega arith) in
      let w = Writer.u8 s.out b in
      let fit = Coded-IsFit (coded_u8 s.out b small f) in
      let w' = if same then w else Writer.varint w n in
      let fit' : IsFit w' =
        either_branch IsFit same w (Writer.varint w n) fit (Coded-IsFit (coded_varint w n m fit)) in
      let s' : Sink = record s { out = w' } in
      header_then p s.out s.tables last n (code_of p op) same 0 (collection type)
        (sent_on p (of_nat p n) (collection type) op)
        (settled last n (encode_collection p s' type op)) k (omega arith) (same_last n last) m found
        f (collection_read p encode l s' last n type op h fit')

  on_read :
      (s : Sink) (last n : ℕ) (op : WireOp F) (target : Target)
      → n ≤ max_varint
      → Dict.get s.tables.targets n ≡ some target
      → code_of p op < 4
      → IsShortOp op
      → IsFit s.out
      → OpSent s.out
          (decode_op p (s.tables, last))
          (sent_on p (of_nat p n) target op)
          (encode_on p (s, last) op n target (field_of p target op))
  unfolding field_of encode_on encode_payload
  on_read s last n op (collection type) m found k h f = collection_op s last n op type m found k h f
  on_read s last n (Ops.set o x value) (instance_of layout) m found k h f =
      layout_set s last n o x value layout (as_uint32 p x) m (as_uint32-FitsUint p x) found h f
  on_read s last n (Ops.add r k value) (instance_of layout) m found c h f = tt
  on_read s last n (Ops.add_value r value) (instance_of layout) m found c h f = tt
  on_read s last n (Ops.remove r k) (instance_of layout) m found c h f = tt
  on_read s last n (Ops.clear r) (instance_of layout) m found c h f = tt
  on_read s last n (Ops.define c name fields types) (instance_of layout) m found k h f = tt

  at_read :
      (s : Sink) (last n : ℕ) (op : WireOp F) (target : Option Target)
      → n ≤ max_varint
      → Dict.get s.tables.targets n ≡ target
      → code_of p op < 4
      → IsShortOp op
      → IsFit s.out
      → OpSent s.out
          (decode_op p (s.tables, last))
          (sent_at p (of_nat p n) op target)
          (encode_at p (s, last) op n target)
  at_read s last n op none m found k h f = tt
  at_read s last n op (some target) m found k h f = on_read s last n op target m found k h f

  pub other_read :
      (s : Sink) (last : ℕ) (op : WireOp F) (n : Option ℕ)
      → FitsUint p (target_of p op) n
      → code_of p op < 4
      → IsShortOp op
      → IsFit s.out
      → OpSent s.out
          (decode_op p (s.tables, last))
          (sent_other p s.tables (whole p (target_of p op)) op n)
          (encode_other p (s, last) op n)
  other_read s last op none fits k h f = tt
  other_read s last op (some n) fits k h f =
      subst
        (λ r.
          OpSent s.out (decode_op p (s.tables, last)) (sent_at p r op (Dict.get s.tables.targets n))
            (encode_at p (s, last) op n (Dict.get s.tables.targets n)))
        fits.1 (at_read s last n op (Dict.get s.tables.targets n) fits.0 refl k h f)
