-- ===== src/Codec/Decoder.antt =====
-- schema-codec.ts: `OpDecoder`, and `decodeOps` of a session. What returns `undefined` in the
-- source is `none`; the tables go along, since a read may have bound refs before it fails.
pub mod Keeps
pub mod Rollback
pub mod Reads
pub mod Payload
pub mod Header
pub mod Targeted
pub mod Defines
pub mod Progress
pub mod Sent
pub mod RoundTrip
use bungohan.Base.{
  ℕ, zero, suc, ◌+◌, ◌-◌, ◌/◌, Bool, true, false, not, ◌&&◌, ◌||◌, Option, none, some, List, [],
  ◌∷◌, length, leb, ltb, ◌==◌, if◌then◌else◌, bit_and, get_elem?,
}
use bungohan.Base.Int.{ℤ, pos}
use bungohan.Base.Dict
use bungohan.Base.Keys.{number_keys}
use bungohan.Serializer.Reader
use bungohan.Serializer.Reader.{ByteReader}
use bungohan.Codec.FieldType.{
  ParsedFieldType, Scalar, is_array, is_set, key_of, removed_by, element_of, value_of,
}
use bungohan.Codec.Tables
use bungohan.Codec.Tables.{
  Tables, Target, instance_of, collection, Entry, begin, rollback, bind_ref,
}
use bungohan.Codec.Platform.{Platform}
use bungohan.Codec.Values.{Key, number, Read, ◌>>=◌, return, unless_failed, failing, read_scalar}
use bungohan.Codec.Ops
use bungohan.Codec.Ops.{WireValue, key, ref, WireOp, is_define}

-- A value that was read, or `undefined`, with the refId that it carries, `value[1]`.
abbrev pub Got : Type 0 → Type 0
Got F = Option (WireValue F × Option ℕ)

module _ {F : Type 0} (p : Platform F) where
  -- The number that an unsigned value is.
  abbrev pub of_nat : ℕ → F
  of_nat n = p.of_int (pos n)

  -- _ref behind its two numbers.
  pub decode_bound : ℕ → ℕ → Tables × Bool → Read (Got F × Tables)
  decode_bound c n (t, false) = failing (none, t)
  decode_bound c n (t, true) = return (some (ref (of_nat c) (of_nat n), some n), t)

  -- _ref
  pub decode_ref : Tables → Read (Got F × Tables)
  decode_ref t = Reader.varint >>= λ c.
      Reader.varint >>= λ n. unless_failed (none, t) (decode_bound c n (bind_ref t c n))

  -- `readScalar`, with `undefined` where the input has failed.
  unfoldable pub decode_scalar : Tables → Scalar → Read (Got F × Tables)
  decode_scalar t type =
      read_scalar p type >>= λ k. unless_failed (none, t) (return (some (key k, none), t))

  -- A value of a kind that has one, a scalar or a ref.
  unfoldable pub decode_content : Tables → Option (Option Scalar) → Read (Got F × Tables)
  decode_content t none = failing (none, t)
  decode_content t (some none) = decode_ref t
  decode_content t (some (some type)) = decode_scalar t type

  -- _value
  abbrev decode_value : Tables → ParsedFieldType → Read (Got F × Tables)
  decode_value t type = decode_content t (value_of type)

  -- _element
  abbrev decode_element : Tables → ParsedFieldType → Read (Got F × Tables)
  decode_element t type = decode_content t (element_of type)

  -- `input.varint()`, as a key.
  unfoldable pub decode_index : Read (Key F)
  decode_index = Reader.varint >>= λ n. return (number (of_nat n))

  -- `key === undefined ? input.varint() : readScalar(input, key)`
  unfoldable pub decode_key : Option Scalar → Read (Key F)
  decode_key none = decode_index
  decode_key (some type) = read_scalar p type

-- The state of a decoder behind the input is its tables and `_last`.
abbrev pub Decoding : Type 0
Decoding = Tables × ℕ

-- An op that was read, or `undefined`, and the state behind it.
abbrev pub OpRead : Type 0 → Type 0
OpRead F = Read (Option (WireOp F) × Decoding)

abbrev pub refused : {F : Type 0} → Decoding → OpRead F
refused d = failing (none, d)

-- _settle
abbrev settle : ℕ → Option ℕ → ℕ
settle n none = n
settle n (some carried) = carried

-- `if (value === undefined) return undefined`, else the op, settled.
abbrev pub with_value : {F : Type 0} → ℕ → ℕ → (WireValue F → WireOp F) → Got F × Tables → OpRead F
with_value last n make (none, t) = return (none, (t, last))
with_value last n make (some (value, carried), t) =
    return (some (make value), (t, settle n carried))

module _ {F : Type 0} (p : Platform F) where
  -- The cases 0 to 2 of `op` on a collection.
  unfoldable pub decode_set : Decoding → ℕ → ParsedFieldType → OpRead F
  decode_set (t, last) n type =
      if is_array type
      then (Reader.varint >>= λ index.
          decode_element p t type >>= with_value last n (Ops.set (of_nat p n) (of_nat p index)))
      else refused (t, last)

  unfoldable pub decode_add : Decoding → ℕ → ParsedFieldType → OpRead F
  decode_add (t, last) n type =
      if is_set type
      then (decode_element p t type >>= with_value last n (Ops.add_value (of_nat p n)))
      else (decode_key p (key_of type) >>= λ k.
          decode_element p t type >>= with_value last n (Ops.add (of_nat p n) k))

  unfoldable pub decode_remove : Decoding → ℕ → ParsedFieldType → OpRead F
  decode_remove (t, last) n type = decode_key p (removed_by type) >>= λ k.
      unless_failed (none, (t, last)) (return (some (Ops.remove (of_nat p n) k), (t, n)))

  -- The `switch (code)`; a code above 4 was refused before, and 4 is a DEFINE.
  unfoldable pub decode_collection : Decoding → ℕ → ℕ → ParsedFieldType → OpRead F
  decode_collection d zero n type = decode_set d n type
  decode_collection d (suc zero) n type = decode_add d n type
  decode_collection d (suc (suc zero)) n type = decode_remove d n type
  decode_collection (t, last) (suc (suc (suc code))) n type =
      return (some (Ops.clear (of_nat p n)), (t, n))

  abbrev pub decode_field : Decoding → ℕ → ℕ → Option ParsedFieldType → OpRead F
  decode_field d n field none = refused d
  decode_field (t, last) n field (some type) =
      decode_value p t type >>= with_value last n (Ops.set (of_nat p n) (of_nat p field))

  -- `f === F_ESCAPE ? F_ESCAPE + input.varint() : f`
  abbrev pub field_index : ℕ → Read ℕ
  field_index f = if f == 15 then (Reader.varint >>= λ more. return (15 + more)) else return f

  -- op behind the look-up of its target.
  unfoldable pub decode_on : Decoding → ℕ → ℕ → ℕ → Target → OpRead F
  decode_on d code f n (instance_of layout) =
      if code == 0
      then (field_index f >>= λ field. decode_field d n field (get_elem? layout.types field))
      else refused d
  decode_on d code f n (collection type) =
      if f == 0 then decode_collection d code n type else refused d

  abbrev pub decode_at : Decoding → ℕ → ℕ → ℕ → Option Target → OpRead F
  decode_at d code f n none = refused d
  decode_at d code f n (some target) = decode_on d code f n target

  -- The loop of `_define`.
  unfoldable pub read_pairs : ℕ → Read (List (List ℕ) × List (List ℕ))
  read_pairs zero = return ([], [])
  read_pairs (suc count) =
      unless_failed ([], [])
        (Reader.string p.decode >>= λ field. Reader.string p.decode >>= λ type.
          read_pairs count >>= λ rest. return (field ∷ rest.0, type ∷ rest.1))

  -- _define behind its reads.
  unfoldable pub decode_defined :
      ℕ → ℕ → List ℕ → List (List ℕ) × List (List ℕ) → Tables × Bool → OpRead F
  decode_defined last c name (fields, types) (t, false) = refused (t, last)
  decode_defined last c name (fields, types) (t, true) =
      return (some (Ops.define (of_nat p c) name fields types), (t, last))

  abbrev pub entry_of : List ℕ → List (List ℕ) × List (List ℕ) → Entry
  entry_of name (fields, types) = record { name = name; fields = fields; types = types }

  abbrev pub decode_entry : Decoding → ℕ → List ℕ → List (List ℕ) × List (List ℕ) → OpRead F
  decode_entry (t, last) c name pairs =
      if is_define pairs.0 pairs.1
      then decode_defined last c name pairs (Tables.define t c (entry_of name pairs))
      else refused (t, last)

  -- _define
  unfoldable pub decode_define : Decoding → OpRead F
  decode_define d = Reader.varint >>= λ c. Reader.string p.decode >>= λ name. Reader.count >>= λ n.
      read_pairs n >>= λ pairs. unless_failed (none, d) (decode_entry d c name pairs)

  -- op behind its header byte.
  unfoldable pub decode_header : Decoding → ℕ → Bool → ℕ → OpRead F
  decode_header (t, last) code same f =
      if code == 4
      then (if same || not (f == 0) then refused (t, last) else decode_define (t, last))
      else if ltb 4 code
      then refused (t, last)
      else ((if same then return last else Reader.varint) >>= λ n.
          unless_failed (none, (t, last)) (decode_at (t, last) code f n (Dict.get t.targets n)))

  -- op
  unfoldable pub decode_op : Decoding → OpRead F
  decode_op d =
      Reader.u8 >>= λ h. decode_header d (h / 32) (not (bit_and h 0x10 == 0)) (bit_and h 0x0f)

-- What the loop of `decodeOps` collects: the ops, and the state behind them.
abbrev pub Collected : Type 0 → Type 0
Collected F = (List (WireOp F) × Decoding) × ByteReader

-- `if (op === undefined || input.error !== undefined) break`, else the op and the rest.
unfoldable pub then_more :
    {F : Type 0} → (Option (WireOp F) × Decoding) × ByteReader → Collected F → Collected F
then_more ((none, d), r) rest = (([], d), r)
then_more ((some op, d), r) ((ops, d'), r') = elim r.error [
  | some e ↦ (([], d), r)
  | none ↦ ((op ∷ ops, d'), r')
]

module _ {F : Type 0} (p : Platform F) where
  -- The loop of `decodeOps`. A round reads one byte or more, so the bytes that are left are fuel
  -- enough.
  unfoldable pub decode_all : ℕ → Decoding → ByteReader → Collected F
  decode_all zero d r = (([], d), r)
  decode_all (suc fuel) d r =
      let first = decode_op p d r in
      let rest = decode_all fuel first.0.1 first.1 in
      if leb (length r.bytes) r.pos then (([], d), r) else then_more first rest

  abbrev pub outcome :
      Option (Reader.Message × ℕ) → Tables → List (WireOp F) → Tables × Option (List (WireOp F))
  outcome (some e) t ops = (rollback t, none)
  outcome none t ops = (t, some ops)

  -- The end of `decodeOps`: DECODE_FAILED is `none`.
  unfoldable pub decoded : Collected F → Tables × Option (List (WireOp F))
  decoded ((ops, (t, last)), r) = outcome r.error t ops

  -- decodeOps
  unfoldable pub decode_ops : Tables → List ℕ → Tables × Option (List (WireOp F))
  decode_ops t frame = decoded (decode_all (length frame) (begin t, 0) (Reader.init frame))
