-- ===== src/Codec/Encoder/Keeps.antt =====
-- schema-codec.ts, `OpEncoder`: properties of the tables that `bindRef` and `define` keep.
use bungohan.Base.{
  ℕ, Bool, true, false, Option, none, some, List, [], ◌∷◌, either_branch, branch_cases, get_elem?,
  ◌==◌,
}
use bungohan.Base.Dict
use bungohan.Base.Keys.{number_keys}
use bungohan.Serializer.Writer.{ByteWriter}
use bungohan.Codec.FieldType.{
  ParsedFieldType, Scalar, is_array, is_set, key_of, removed_by, element_of, value_of,
}
use bungohan.Codec.Tables
use bungohan.Codec.Tables.{
  Tables, Target, instance_of, collection, begin, rollback, bind_ref, Entry,
}
use bungohan.Codec.Tables.Kept.{IsKept}
use bungohan.Codec.Platform.{Platform, as_uint32, as_index}
use bungohan.Codec.Values.{number, write_scalar}
use bungohan.Codec.Ops
use bungohan.Codec.Ops.{WireValue, key, ref, WireOp, is_define}
use bungohan.Codec.Encoder.{
  Sink, Written, Encoding, encode_bound, encode_pair, encode_ref, encode_scalar, encode_content,
  encode_index, encode_key, then_element, encode_collection, at_field, encode_payload, field_of,
  settled, write_defined, encode_define, encode_on, encode_at, encode_other, encode_op, encode_all,
  wrote, write_header, code_of, field_number,
}

module _ {F : Type 0} (p : Platform F) (P : Tables → Type 0) (kept : IsKept P) where
  encode_bound-Keeps :
      (out : ByteWriter) (c n : ℕ) (b : Tables × Bool)
      → P b.0
      → P (encode_bound p out c n b).0.tables
  unfolding encode_bound
  encode_bound-Keeps out c n (t', false) u = u
  encode_bound-Keeps out c n (t', true) u = u

  encode_pair-Keeps : (s : Sink) (c n : Option ℕ) → P s.tables → P (encode_pair p s c n).0.tables
  encode_pair-Keeps s none n u = u
  encode_pair-Keeps s (some c) none u = u
  encode_pair-Keeps s (some c) (some n) u =
      encode_bound-Keeps s.out c n (bind_ref s.tables c n) (kept.bound s.tables c n u)

  encode_ref-Keeps :
      (s : Sink) (value : WireValue F) → P s.tables → P (encode_ref p s value).0.tables
  unfolding encode_ref
  encode_ref-Keeps s (key k) u = u
  encode_ref-Keeps s (ref c n) u = encode_pair-Keeps s (as_uint32 p c) (as_uint32 p n) u

  wrote-Keeps : (s : Sink) (out : Option ByteWriter) → P s.tables → P (wrote p s out).0.tables
  wrote-Keeps s none u = u
  wrote-Keeps s (some out) u = u

  encode_scalar-Keeps :
      (s : Sink) (type : Scalar) (value : WireValue F)
      → P s.tables
      → P (encode_scalar p s type value).0.tables
  unfolding encode_scalar
  encode_scalar-Keeps s type (key k) u = wrote-Keeps s (write_scalar p s.out type k) u
  encode_scalar-Keeps s type (ref c n) u = u

  encode_content-Keeps :
      (s : Sink) (type : Option (Option Scalar)) (value : WireValue F)
      → P s.tables
      → P (encode_content p s type value).0.tables
  unfolding encode_content
  encode_content-Keeps s none value u = u
  encode_content-Keeps s (some none) value u = encode_ref-Keeps s value u
  encode_content-Keeps s (some (some type)) value u = encode_scalar-Keeps s type value u

  then_element-Keeps :
      (s : Sink) (type : ParsedFieldType) (value : WireValue F) (out : Option ByteWriter)
      → P s.tables
      → P (then_element p s type value out).0.tables
  unfolding then_element
  then_element-Keeps s type value none u = u
  then_element-Keeps s type value (some out) u =
      encode_content-Keeps (record s { out = out }) (element_of type) value u

  encode_collection-Keeps :
      (s : Sink) (type : ParsedFieldType) (op : WireOp F)
      → P s.tables
      → P (encode_collection p s type op).0.tables
  unfolding encode_collection
  encode_collection-Keeps s type (Ops.set r x value) u =
      either_branch (λ (w : Written). P w.0.tables) (is_array type) _ (s, none)
        (then_element-Keeps s type value (encode_index p s.out (number x)) u) u
  encode_collection-Keeps s type (Ops.add r k value) u =
      either_branch (λ (w : Written). P w.0.tables) (is_set type) (s, none) _ u
        (then_element-Keeps s type value (encode_key p s.out (key_of type) k) u)
  encode_collection-Keeps s type (Ops.add_value r value) u =
      either_branch (λ (w : Written). P w.0.tables) (is_set type) _ (s, none)
        (encode_content-Keeps s (element_of type) value u) u
  encode_collection-Keeps s type (Ops.remove r k) u =
      wrote-Keeps s (encode_key p s.out (removed_by type) k) u
  encode_collection-Keeps s type (Ops.clear r) u = u
  encode_collection-Keeps s type (Ops.define c name fields types) u = u

  at_field-Keeps :
      (s : Sink) (value : WireValue F) (type : Option ParsedFieldType)
      → P s.tables
      → P (at_field p s value type).0.tables
  at_field-Keeps s value none u = u
  at_field-Keeps s value (some type) u = encode_content-Keeps s (value_of type) value u

  encode_payload-Keeps :
      (s : Sink) (target : Target) (op : WireOp F) (field : ℕ)
      → P s.tables
      → P (encode_payload p s target op field).0.tables
  unfolding encode_payload
  encode_payload-Keeps s (instance_of layout) (Ops.set r x value) field u =
      at_field-Keeps s value (get_elem? layout.types field) u
  encode_payload-Keeps s (instance_of layout) (Ops.add r k value) field u = u
  encode_payload-Keeps s (instance_of layout) (Ops.add_value r value) field u = u
  encode_payload-Keeps s (instance_of layout) (Ops.remove r k) field u = u
  encode_payload-Keeps s (instance_of layout) (Ops.clear r) field u = u
  encode_payload-Keeps s (instance_of layout) (Ops.define c name fields types) field u = u
  encode_payload-Keeps s (collection type) op field u = encode_collection-Keeps s type op u

  settled-Keeps : (last n : ℕ) (w : Written) → P w.0.tables → P (settled last n w).0.0.tables
  settled-Keeps last n (s, none) u = u
  settled-Keeps last n (s, some none) u = u
  settled-Keeps last n (s, some (some carried)) u = u

  encode_other-Keeps :
      (e : Encoding) (op : WireOp F) (n : Option ℕ)
      → P e.0.tables
      → P (encode_other p e op n).0.0.tables
  unfolding encode_on
  encode_other-Keeps e op none u = u
  encode_other-Keeps e op (some n) u = at_target (Dict.get e.0.tables.targets n)
    where
      on_field :
          (target : Target) (field : Option (Option ℕ))
          → P (encode_on p e op n target field).0.0.tables
      on_field target none = u
      on_field target (some field) = settled-Keeps e.1 n _ (
          encode_payload-Keeps
            (record e.0 { out = write_header e.0.out (code_of p op) (n == e.1) n field }) target op
            (field_number field) u)

      at_target : (target : Option Target) → P (encode_at p e op n target).0.0.tables
      at_target none = u
      at_target (some target) = on_field target (field_of p target op)

  write_defined-Keeps :
      (e : Encoding) (c : ℕ) (name : List ℕ) (fields types : List (List ℕ)) (b : Tables × Bool)
      → P b.0
      → P (write_defined p e c name fields types b).0.0.tables
  unfolding write_defined
  write_defined-Keeps e c name fields types (t', false) u = u
  write_defined-Keeps e c name fields types (t', true) u = u

  encode_define-Keeps :
      (e : Encoding) (c : Option ℕ) (name : List ℕ) (fields types : List (List ℕ))
      → P e.0.tables
      → P (encode_define p e c name fields types).0.0.tables
  unfolding encode_define
  encode_define-Keeps e none name fields types u = u
  encode_define-Keeps e (some c) name fields types u =
      let entry : Entry = record { name = name; fields = fields; types = types } in
      branch_cases (λ (x : Encoding × Bool). P x.0.0.tables) (is_define fields types) _ (e, false)
        (λ h.
          write_defined-Keeps e c name fields types (Tables.define e.0.tables c entry)
            (kept.defines e.0.tables c entry h u))
        (λ h. u)

  encode_op-Keeps : (e : Encoding) (op : WireOp F) → P e.0.tables → P (encode_op p e op).0.0.tables
  unfolding encode_op
  encode_op-Keeps e (Ops.define c name fields types) u =
      encode_define-Keeps e (as_index p c) name fields types u
  encode_op-Keeps e (Ops.set r x value) u = encode_other-Keeps e (Ops.set r x value) _ u
  encode_op-Keeps e (Ops.add r k value) u = encode_other-Keeps e (Ops.add r k value) _ u
  encode_op-Keeps e (Ops.add_value r value) u = encode_other-Keeps e (Ops.add_value r value) _ u
  encode_op-Keeps e (Ops.remove r k) u = encode_other-Keeps e (Ops.remove r k) _ u
  encode_op-Keeps e (Ops.clear r) u = encode_other-Keeps e (Ops.clear r) _ u

  pub encode_all-Keeps :
      (e : Encoding) (ops : List (WireOp F)) → P e.0.tables → P (encode_all p e ops).0.0.tables
  unfolding encode_all
  encode_all-Keeps e [] u = u
  encode_all-Keeps e (op ∷ ops) u =
      let v = encode_op-Keeps e op u in
      either_branch (λ (x : Encoding × Bool). P x.0.0.tables) (encode_op p e op).1 _
        ((encode_op p e op).0, false) (encode_all-Keeps (encode_op p e op).0 ops v) v
