-- ===== src/Codec/Decoder/Payload.antt =====
-- schema-codec.ts, `_payload`: payloads behind the wire.
use bungohan.Base.{
  ℕ, ◌≡◌, refl, ap, subst, Bool, true, false, Option, none, some, List, if◌then◌else◌, get_elem?,
}
use bungohan.Serializer.Reader
use bungohan.Serializer.Writer
use bungohan.Serializer.Writer.{ByteWriter}
use bungohan.Serializer.Writer.Grow.{IsFit}
use bungohan.Codec.FieldType.{
  ParsedFieldType, Scalar, is_array, is_set, key_of, removed_by, element_of, value_of,
}
use bungohan.Codec.Tables.{Tables, Target, instance_of, collection, ClassLayout}
use bungohan.Codec.Platform.{Platform, IsPlatform, as_uint32}
use bungohan.Codec.Values.{Read, ◌>>=◌, return, unless_failed}
use bungohan.Codec.Values.Scalars.{IsShort, whole, WriteRead}
use bungohan.Codec.Coded.{Coded, Coded-IsFit, nothing, then_coded, coded_varint}
use bungohan.Codec.Ops
use bungohan.Codec.Ops.{WireValue, WireOp}
use bungohan.Codec.Encoder.{
  Sink, Written, Encoding, wrote, encode_content, encode_index, encode_key, then_element,
  encode_collection, settled, code_of,
}
use bungohan.Codec.Decoder.{
  Got, of_nat, decode_content, decode_key, OpRead, with_value, decode_set, decode_add,
  decode_remove, decode_collection,
}
use bungohan.Codec.Decoder.Reads.{
  IsShortValue, unfailed, sent_content, sent_key, FitsUint, as_uint32-FitsUint, ValueRead,
  content_read, key_read,
}

-- The texts of an op on a target.
abbrev pub IsShortOp : {F : Type 0} → WireOp F → Type 0
IsShortOp (Ops.set r x value) = IsShortValue value
IsShortOp (Ops.add r k value) = IsShort k × IsShortValue value
IsShortOp (Ops.add_value r value) = IsShortValue value
IsShortOp (Ops.remove r k) = IsShort k
IsShortOp (Ops.clear r) = Unit
IsShortOp (Ops.define c name fields types) = Unit

-- What holds on both branches of two conditions that are one.
both_branches :
    {A B : Type 0} (P : A → B → Type 0) (b : Bool) (x y : A) (x' y' : B)
    → P x x'
    → P y y'
    → P (if b then x else y) (if b then x' else y')
both_branches P true x y x' y' h k = h
both_branches P false x y x' y' h k = k

pub both_cases :
    {A B : Type 0} (P : A → B → Type 0) (b : Bool) (x y : A) (x' y' : B)
    → (b ≡ true → P x x')
    → (b ≡ false → P y y')
    → P (if b then x else y) (if b then x' else y')
both_cases P true x y x' y' h k = h refl
both_cases P false x y x' y' h k = k refl

-- An op that was written, read back; nothing for a `Fail`.
abbrev pub OpWritten : {F : Type 0} → ByteWriter → OpRead F → WireOp F → Encoding × Bool → Type 0
OpWritten w m op ((s, last), false) = Unit
OpWritten w m op ((s, last), true) = Coded w s.out m (some op, (s.tables, last))

-- The same op, by another name.
pub renamed :
    {F : Type 0} (w : ByteWriter) (m : OpRead F) (e : Encoding × Bool) {op op' : WireOp F}
    → op ≡ op'
    → OpWritten w m op e
    → OpWritten w m op' e
renamed w m e same c = subst (λ x. OpWritten w m x e) same c

module _ {F : Type 0} (p : Platform F) where
  -- The kind of a field of a class.
  abbrev pub kind_at : ClassLayout → Option ℕ → Option (Option Scalar)
  kind_at layout none = none
  kind_at layout (some n) = elim (get_elem? layout.types n) [
    | none ↦ none
    | some type ↦ value_of type
  ]

  -- What an op on a target is behind the wire, where its target is read as `r`.
  abbrev pub sent_on : F → Target → WireOp F → WireOp F
  sent_on r (instance_of layout) (Ops.set o x value) =
      Ops.set r (whole p x) (sent_content p (kind_at layout (as_uint32 p x)) value)
  sent_on r (instance_of layout) op = op
  sent_on r (collection type) (Ops.set o x value) =
      Ops.set r (whole p x) (sent_content p (element_of type) value)
  sent_on r (collection type) (Ops.add o k value) =
      Ops.add r (sent_key p (key_of type) k) (sent_content p (element_of type) value)
  sent_on r (collection type) (Ops.add_value o value) =
      Ops.add_value r (sent_content p (element_of type) value)
  sent_on r (collection type) (Ops.remove o k) = Ops.remove r (sent_key p (removed_by type) k)
  sent_on r (collection type) (Ops.clear o) = Ops.clear r
  sent_on r (collection type) (Ops.define c name fields types) = Ops.define c name fields types

  pub settled_read :
      (w : ByteWriter) (last n : ℕ) (m : Read (Got F × Tables)) (v : WireValue F)
      (make : WireValue F → WireOp F) (written : Written)
      → ValueRead p w m v written
      → OpWritten w (m >>= with_value last n make) (make v) (settled last n written)
  settled_read w last n m v make (s, none) c = tt
  settled_read w last n m v make (s, some none) c =
      then_coded (with_value last n make) c
        (nothing s.out (some (make v), (s.tables, n)) (Coded-IsFit c))
  settled_read w last n m v make (s, some (some carried)) c =
      then_coded (with_value last n make) c
        (nothing s.out (some (make v), (s.tables, carried)) (Coded-IsFit c))

  -- A part in front.
  pub OpWritten-then :
      {A : Type 0} (w w' : ByteWriter) (m : Read A) (a : A) (f : A → OpRead F) (op : WireOp F)
      (e : Encoding × Bool)
      → Coded w w' m a
      → OpWritten w' (f a) op e
      → OpWritten w (m >>= f) op e
  OpWritten-then w w' m a f op ((s, last), false) c d = tt
  OpWritten-then w w' m a f op ((s, last), true) c d = then_coded f c d

module _ {F : Type 0} (p : Platform F) (encode : List ℕ → List ℕ) (l : IsPlatform p encode) where
  element_read :
      {A : Type 0} (s : Sink) (last n : ℕ) (type : ParsedFieldType) (value : WireValue F)
      (o : Option ByteWriter) (m : Read A) (a : A) (make : A → WireValue F → WireOp F)
      → IsShortValue value
      → WriteRead s.out m a o
      → OpWritten s.out
          (m >>= λ k. decode_content p s.tables (element_of type) >>= with_value last n (make k))
          (make a (sent_content p (element_of type) value))
          (settled last n (then_element p s type value o))
  unfolding then_element
  element_read s last n type value none m a make h c = tt
  element_read s last n type value (some w) m a make h c =
      let s' : Sink = record s { out = w } in
      OpWritten-then p s.out w m a
        (λ k. decode_content p s.tables (element_of type) >>= with_value last n (make k)) _
        (settled last n (encode_content p s' (element_of type) value)) c
        (settled_read p w last n (decode_content p s.tables (element_of type))
          (sent_content p (element_of type) value) (make a)
          (encode_content p s' (element_of type) value)
          (content_read p encode l s' (element_of type) value h (Coded-IsFit c)))

  set_read :
      (s : Sink) (last n : ℕ) (type : ParsedFieldType) (x : F) (value : WireValue F) (o : Option ℕ)
      → IsShortValue value
      → FitsUint p x o
      → IsFit s.out
      → OpWritten s.out
          (Reader.varint >>= λ index.
            decode_content p s.tables (element_of type)
            >>= with_value last n (Ops.set (of_nat p n) (of_nat p index)))
          (Ops.set (of_nat p n) (whole p x) (sent_content p (element_of type) value))
          (settled last n (
            then_element p s type value
              (elim o [ none ↦ none | some i ↦ some (Writer.varint s.out i) ])))
  unfolding then_element
  set_read s last n type x value none h k f = tt
  set_read s last n type x value (some i) h k f =
      renamed s.out
        (Reader.varint >>= λ index.
          decode_content p s.tables (element_of type)
          >>= with_value last n (Ops.set (of_nat p n) (of_nat p index)))
        (settled last n (then_element p s type value (some (Writer.varint s.out i))))
        (ap (λ y. Ops.set (of_nat p n) y (sent_content p (element_of type) value)) k.1)
        (element_read s last n type value (some (Writer.varint s.out i)) Reader.varint i
          (λ index. Ops.set (of_nat p n) (of_nat p index)) h (coded_varint s.out i k.0 f))

  pub collection_read :
      (s : Sink) (last n : ℕ) (type : ParsedFieldType) (op : WireOp F)
      → IsShortOp op
      → IsFit s.out
      → OpWritten s.out
          (decode_collection p (s.tables, last) (code_of p op) n type)
          (sent_on p (of_nat p n) (collection type) op)
          (settled last n (encode_collection p s type op))
  unfolding encode_collection decode_collection decode_set decode_add decode_remove encode_index
  collection_read s last n type (Ops.set r x value) h f =
      both_branches
        (λ (m : OpRead F) (e : Written).
          OpWritten s.out m
            (Ops.set (of_nat p n) (whole p x) (sent_content p (element_of type) value))
            (settled last n e))
        (is_array type) _ _ _ _
        (set_read s last n type x value (as_uint32 p x) h (as_uint32-FitsUint p x) f) tt
  collection_read s last n type (Ops.add r k value) h f =
      both_branches
        (λ (m : OpRead F) (e : Written).
          OpWritten s.out m
            (Ops.add (of_nat p n) (sent_key p (key_of type) k)
              (sent_content p (element_of type) value))
            (settled last n e))
        (is_set type) _ _ _ _ tt
        (element_read s last n type value (encode_key p s.out (key_of type) k)
          (decode_key p (key_of type)) (sent_key p (key_of type) k) (λ k. Ops.add (of_nat p n) k)
          h.1 (key_read p encode l s.out (key_of type) k h.0 f))
  collection_read s last n type (Ops.add_value r value) h f =
      both_branches
        (λ (m : OpRead F) (e : Written).
          OpWritten s.out m (Ops.add_value (of_nat p n) (sent_content p (element_of type) value))
            (settled last n e))
        (is_set type) _ _ _ _
        (settled_read p s.out last n (decode_content p s.tables (element_of type))
          (sent_content p (element_of type) value) (Ops.add_value (of_nat p n))
          (encode_content p s (element_of type) value)
          (content_read p encode l s (element_of type) value h f))
        tt
  collection_read s last n type (Ops.remove r k) h f =
      removed (encode_key p s.out (removed_by type) k)
        (key_read p encode l s.out (removed_by type) k h f)
    where
      removed :
          (o : Option ByteWriter)
          → WriteRead s.out (decode_key p (removed_by type)) (sent_key p (removed_by type) k) o
          → OpWritten s.out
              (decode_collection p (s.tables, last) 2 n type)
              (Ops.remove (of_nat p n) (sent_key p (removed_by type) k))
              (settled last n (wrote p s o))
      removed none c = tt
      removed (some w) c =
          let t : Tables = s.tables in
          then_coded
            (λ k.
              unless_failed (none, (t, last)) (return (some (Ops.remove (of_nat p n) k), (t, n))))
            c
            (unfailed (none, (t, last))
              (nothing w (some (Ops.remove (of_nat p n) (sent_key p (removed_by type) k)), (t, n))
                (Coded-IsFit c)))
  collection_read s last n type (Ops.clear r) h f = nothing s.out _ f
  collection_read s last n type (Ops.define c name fields types) h f = tt
