-- ===== src/Codec/Encoder.antt =====
-- schema-codec.ts: `OpEncoder`, and `encodeOps` of a session.
pub mod Keeps
pub mod Rollback
use bungohan.Base.{
  ℕ, zero, suc, ◌+◌, ◌-◌, ◌*◌, Bool, true, false, ◌&&◌, Option, none, some, List, [], ◌∷◌, length,
  leb, ltb, ◌==◌, if◌then◌else◌, min, bit_or, get_elem?,
}
use bungohan.Base.Dict
use bungohan.Base.Keys.{number_keys}
use bungohan.Serializer.Writer
use bungohan.Serializer.Writer.{ByteWriter, to_bytes}
use bungohan.Codec.FieldType.{
  ParsedFieldType, Scalar, is_array, is_set, key_of, removed_by, element_of, value_of,
}
use bungohan.Codec.Tables.{
  Tables, ClassLayout, Target, instance_of, collection, Entry, begin, rollback, bind_ref,
}
use bungohan.Codec.Tables
use bungohan.Codec.Platform.{Platform, as_uint32, as_index}
use bungohan.Codec.Values.{Key, number, write_scalar}
use bungohan.Codec.Ops
use bungohan.Codec.Ops.{WireValue, key, ref, WireOp, is_define}

-- What is written to, and bound in.
pub record Sink : Type 0 where
  pub out : ByteWriter
  pub tables : Tables

-- What a value or element left, and: `none` for a `Fail`, else the ref that it carried, if any.
abbrev pub Written : Type 0
Written = Sink × Option (Option ℕ)

module _ {F : Type 0} (p : Platform F) where
  -- encodeRef behind its check of the two numbers.
  unfoldable pub encode_bound : ByteWriter → ℕ → ℕ → Tables × Bool → Written
  encode_bound out class_id n (t, false) = (record { out = out; tables = t }, none)
  encode_bound out class_id n (t, true) =
      (record { out = Writer.varint (Writer.varint out class_id) n; tables = t }, some (some n))

  abbrev pub encode_pair : Sink → Option ℕ → Option ℕ → Written
  encode_pair s (some c) (some n) = encode_bound s.out c n (bind_ref s.tables c n)
  encode_pair s c n = (s, none)

  -- encodeRef
  unfoldable pub encode_ref : Sink → WireValue F → Written
  encode_ref s (key k) = (s, none)
  encode_ref s (ref c n) = encode_pair s (as_uint32 p c) (as_uint32 p n)

  -- What is left of a writer that may have failed.
  abbrev pub wrote : Sink → Option ByteWriter → Written
  wrote s none = (s, none)
  wrote s (some out) = (record s { out = out }, some none)

  unfoldable pub encode_scalar : Sink → Scalar → WireValue F → Written
  encode_scalar s type (key k) = wrote s (write_scalar p s.out type k)
  encode_scalar s type (ref c n) = (s, none)

  -- A value of a kind that has one, a scalar or a ref.
  unfoldable pub encode_content : Sink → Option (Option Scalar) → WireValue F → Written
  encode_content s none value = (s, none)
  encode_content s (some none) value = encode_ref s value
  encode_content s (some (some type)) value = encode_scalar s type value

  -- encodeValue
  abbrev encode_value : Sink → ParsedFieldType → WireValue F → Written
  encode_value s type value = encode_content s (value_of type) value

  -- encodeElement
  abbrev encode_element : Sink → ParsedFieldType → WireValue F → Written
  encode_element s type value = encode_content s (element_of type) value

  -- encodeIndex
  unfoldable pub encode_index : ByteWriter → Key F → Option ByteWriter
  encode_index out (number x) = elim (as_uint32 p x) [
    | none ↦ none
    | some n ↦ some (Writer.varint out n)
  ]
  encode_index out k = none

  -- `key === undefined ? encodeIndex(out, op[2]) : writeScalar(out, key, op[2])`
  unfoldable pub encode_key : ByteWriter → Option Scalar → Key F → Option ByteWriter
  encode_key out none k = encode_index out k
  encode_key out (some type) k = write_scalar p out type k

  -- `bad ?? encodeElement(out, tables, type, op[3])`
  unfoldable pub then_element : Sink → ParsedFieldType → WireValue F → Option ByteWriter → Written
  then_element s type value none = (s, none)
  then_element s type value (some out) = encode_element (record s { out = out }) type value

  -- The cases 0 to 3 of `_payload` on a collection.
  unfoldable pub encode_collection : Sink → ParsedFieldType → WireOp F → Written
  encode_collection s type (Ops.set r x value) =
      if is_array type then then_element s type value (encode_index s.out (number x)) else (s, none)
  encode_collection s type (Ops.add r k value) =
      if is_set type
      then (s, none)
      else then_element s type value (encode_key s.out (key_of type) k)
  encode_collection s type (Ops.add_value r value) =
      if is_set type then encode_element s type value else (s, none)
  encode_collection s type (Ops.remove r k) = wrote s (encode_key s.out (removed_by type) k)
  encode_collection s type (Ops.clear r) = (s, some none)
  encode_collection s type (Ops.define c name fields types) = (s, none)

  abbrev pub at_field : Sink → WireValue F → Option ParsedFieldType → Written
  at_field s value none = (s, none)
  at_field s value (some type) = encode_value s type value

  -- _payload
  unfoldable pub encode_payload : Sink → Target → WireOp F → ℕ → Written
  encode_payload s (instance_of layout) (Ops.set r x value) field =
      at_field s value (get_elem? layout.types field)
  encode_payload s (instance_of layout) op field = (s, none)
  encode_payload s (collection type) op field = encode_collection s type op

  -- `op[0]` and `op[1]`.
  abbrev pub code_of : WireOp F → ℕ
  code_of (Ops.set r x value) = 0
  code_of (Ops.add r k value) = 1
  code_of (Ops.add_value r value) = 1
  code_of (Ops.remove r k) = 2
  code_of (Ops.clear r) = 3
  code_of (Ops.define c name fields types) = 4

  abbrev pub target_of : WireOp F → F
  target_of (Ops.set r x value) = r
  target_of (Ops.add r k value) = r
  target_of (Ops.add_value r value) = r
  target_of (Ops.remove r k) = r
  target_of (Ops.clear r) = r
  target_of (Ops.define c name fields types) = c

  abbrev pub in_layout : ClassLayout → Option ℕ → Option (Option ℕ)
  in_layout layout none = none
  in_layout layout (some n) = if leb (length layout.types) n then none else some (some n)

  -- The field index of a SET on an instance, `some none` for -1, and `none` for a `Fail`.
  unfoldable pub field_of : Target → WireOp F → Option (Option ℕ)
  field_of (instance_of layout) (Ops.set r x value) = in_layout layout (as_uint32 p x)
  field_of target op = some none

-- `(code << 5) | same | f`
abbrev pub header_byte : ℕ → Bool → ℕ → ℕ
header_byte code same f = bit_or (bit_or (code * 32) (if same then 0x10 else 0)) f

-- The header of an op, with the target unless it is the last one, and a field index of 15 or more.
abbrev pub write_header : ByteWriter → ℕ → Bool → ℕ → Option ℕ → ByteWriter
write_header out code same n none =
    let out' = Writer.u8 out (header_byte code same 0) in
    if same then out' else Writer.varint out' n
write_header out code same n (some field) =
    let f = min field 15 in
    let out' = Writer.u8 out (header_byte code same f) in
    let out'' = if same then out' else Writer.varint out' n in
    if f == 15 then Writer.varint out'' (field - 15) else out''

abbrev pub field_number : Option ℕ → ℕ
field_number none = 0
field_number (some field) = field

-- The state of an encoder is its sink and `_last`; the flag tells whether the op was written.
abbrev pub Encoding : Type 0
Encoding = Sink × ℕ

-- `this._last = carried ?? ref`
abbrev pub settled : ℕ → ℕ → Written → Encoding × Bool
settled last n (s, none) = ((s, last), false)
settled last n (s, some none) = ((s, n), true)
settled last n (s, some (some carried)) = ((s, carried), true)

module _ {F : Type 0} (p : Platform F) where
  -- `out.string(fields[i]); out.string(types[i])`
  unfoldable pub write_pairs : ByteWriter → List (List ℕ) → List (List ℕ) → ByteWriter
  write_pairs out (field ∷ fields) (type ∷ types) =
      write_pairs (Writer.string p.encode_into (Writer.string p.encode_into out field) type) fields
        types
  write_pairs out fields types = out

  -- What `encodeDefine` writes.
  unfoldable pub write_define : ByteWriter → ℕ → List ℕ → List (List ℕ) → List (List ℕ) → ByteWriter
  write_define out class_id name fields types =
      let out' = Writer.varint (Writer.u8 out 0x80) class_id in
      let out'' = Writer.varint (Writer.string p.encode_into out' name) (length fields) in
      write_pairs out'' fields types

  -- encodeDefine behind `tables.define`.
  unfoldable pub write_defined :
      Encoding → ℕ → List ℕ → List (List ℕ) → List (List ℕ) → Tables × Bool → Encoding × Bool
  write_defined (s, last) class_id name fields types (t, false) =
      ((record s { tables = t }, last), false)
  write_defined (s, last) class_id name fields types (t, true) =
      ((record { out = write_define s.out class_id name fields types; tables = t }, last), true)

  -- encodeDefine
  unfoldable pub encode_define :
      Encoding → Option ℕ → List ℕ → List (List ℕ) → List (List ℕ) → Encoding × Bool
  encode_define e none name fields types = (e, false)
  encode_define e (some class_id) name fields types =
      let entry : Entry = record { name = name; fields = fields; types = types } in
      let known = Tables.define e.0.tables class_id entry in
      if is_define fields types
      then write_defined e class_id name fields types known
      else (e, false)

  -- The part of `op` behind the look-up of the target.
  unfoldable pub encode_on : Encoding → WireOp F → ℕ → Target → Option (Option ℕ) → Encoding × Bool
  encode_on (s, last) op n target none = ((s, last), false)
  encode_on (s, last) op n target (some field) =
      let out = write_header s.out (code_of p op) (n == last) n field in
      settled last n (encode_payload p (record s { out = out }) target op (field_number field))

  abbrev pub encode_at : Encoding → WireOp F → ℕ → Option Target → Encoding × Bool
  encode_at e op n none = (e, false)
  encode_at e op n (some target) = encode_on e op n target (field_of p target op)

  abbrev pub encode_other : Encoding → WireOp F → Option ℕ → Encoding × Bool
  encode_other e op none = (e, false)
  encode_other e op (some n) = encode_at e op n (Dict.get e.0.tables.targets n)

  -- op
  unfoldable pub encode_op : Encoding → WireOp F → Encoding × Bool
  encode_op e (Ops.define c name fields types) = encode_define e (as_index p c) name fields types
  encode_op e op = encode_other e op (as_uint32 p (target_of p op))

  -- The loop of `encodeOps`.
  unfoldable pub encode_all : Encoding → List (WireOp F) → Encoding × Bool
  encode_all e [] = (e, true)
  encode_all e (op ∷ ops) =
      let (e', done) = encode_op e op in
      let rest = encode_all e' ops in if done then rest else (e', false)

  -- The end of `encodeOps`: ENCODE_FAILED is `none`.
  unfoldable pub encoded : Encoding × Bool → Sink × Option (List ℕ)
  encoded ((s, last), true) = (s, some (to_bytes s.out))
  encoded ((s, last), false) = (record s { tables = rollback s.tables }, none)

  -- encodeOps
  unfoldable pub encode_ops : Sink → List (WireOp F) → Sink × Option (List ℕ)
  encode_ops s ops =
      let s' : Sink = record { out = Writer.reset s.out; tables = begin s.tables } in
      encoded (encode_all (s', 0) ops)
