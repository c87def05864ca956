-- ===== src/Codec/Decoder/Keeps.antt =====
-- schema-codec.ts, `OpDecoder`: properties of the tables that `bindRef` and `define` keep.
use bungohan.Base.{
  ℕ, zero, suc, Bool, true, false, not, ◌||◌, Option, none, some, List, length, either_branch,
  branch_cases, if◌then◌else◌, get_elem?, ◌==◌, ltb, leb,
}
use bungohan.Base.Dict
use bungohan.Base.Keys.{number_keys}
use bungohan.Serializer.Reader
use bungohan.Serializer.Reader.{ByteReader}
use bungohan.Codec.FieldType.{
  ParsedFieldType, Scalar, is_array, is_set, key_of, removed_by, element_of, value_of,
}
use bungohan.Codec.Tables
use bungohan.Codec.Tables.{
  Tables, Target, instance_of, collection, begin, rollback, bind_ref, Entry,
}
use bungohan.Codec.Tables.Kept.{IsKept}
use bungohan.Codec.Platform.{Platform}
use bungohan.Codec.Values.{Read, ◌>>=◌, return, read_scalar}
use bungohan.Codec.Values.Advances.{error_branch}
use bungohan.Codec.Ops.{WireValue, WireOp, is_define}
use bungohan.Codec.Decoder.{
  Got, Decoding, OpRead, with_value, decode_bound, decode_ref, decode_scalar, decode_content,
  decode_key, decode_set, decode_add, decode_remove, decode_collection, decode_field, field_index,
  decode_on, decode_at, decode_defined, entry_of, read_pairs, decode_define, decode_header,
  decode_op, Collected, then_more, decode_all,
}

module _ {F : Type 0} (p : Platform F) (P : Tables → Type 0) (kept : IsKept P) where
  -- A read that gives a value and tables, or an op and the state of a decoder.
  abbrev Keeps : {A : Type 0} → Read (A × Tables) → Type 0
  Keeps m = (r : ByteReader) → P (m r).0.1

  abbrev KeepsOp : OpRead F → Type 0
  KeepsOp m = (r : ByteReader) → P (m r).0.1.0

  decode_bound-Keeps : (c n : ℕ) (b : Tables × Bool) → P b.0 → Keeps (decode_bound p c n b)
  unfolding decode_bound
  decode_bound-Keeps c n (t', false) u r = u
  decode_bound-Keeps c n (t', true) u r = u

  decode_ref-Keeps : (t' : Tables) → P t' → Keeps (decode_ref p t')
  unfolding decode_ref
  decode_ref-Keeps t' u r =
      let (c, r1) = Reader.varint r in
      let (n, r2) = Reader.varint r1 in
      error_branch (λ (x : (Got F × Tables) × ByteReader). P x.0.1) r2.error _ _ u
        (decode_bound-Keeps c n (bind_ref t' c n) (kept.bound t' c n u) r2)

  decode_content-Keeps :
      (t' : Tables) (type : Option (Option Scalar)) → P t' → Keeps (decode_content p t' type)
  unfolding decode_content decode_scalar
  decode_content-Keeps t' none u r = u
  decode_content-Keeps t' (some none) u r = decode_ref-Keeps t' u r
  decode_content-Keeps t' (some (some type)) u r =
      let (k, r1) = read_scalar p type r in
      error_branch (λ (x : (Got F × Tables) × ByteReader). P x.0.1) r1.error _ _ u u

  with_value-Keeps :
      (last n : ℕ) (make : WireValue F → WireOp F) (got : Got F × Tables)
      → P got.1
      → KeepsOp (with_value last n make got)
  with_value-Keeps last n make (none, t') u r = u
  with_value-Keeps last n make (some v, t') u r = u

  -- A value read behind what does not change the tables, and made an op.
  value-Keeps :
      (t' : Tables) (last n : ℕ) (make : WireValue F → WireOp F) (type : Option (Option Scalar))
      → P t'
      → KeepsOp (decode_content p t' type >>= with_value last n make)
  value-Keeps t' last n make type u r =
      let (got, r1) = decode_content p t' type r in
      with_value-Keeps last n make got (decode_content-Keeps t' type u r) r1

  decode_set-Keeps :
      (d : Decoding) (n : ℕ) (type : ParsedFieldType) → P d.0 → KeepsOp (decode_set p d n type)
  unfolding decode_set
  decode_set-Keeps (t', last) n type u r =
      either_branch (λ (m : OpRead F). P (m r).0.1.0) (is_array type) _ _
        (value-Keeps t' last n _ (element_of type) u (Reader.varint r).1) u

  decode_add-Keeps :
      (d : Decoding) (n : ℕ) (type : ParsedFieldType) → P d.0 → KeepsOp (decode_add p d n type)
  unfolding decode_add
  decode_add-Keeps (t', last) n type u r =
      either_branch (λ (m : OpRead F). P (m r).0.1.0) (is_set type) _ _
        (value-Keeps t' last n _ (element_of type) u r)
        (value-Keeps t' last n _ (element_of type) u (decode_key p (key_of type) r).1)

  decode_collection-Keeps :
      (d : Decoding) (code n : ℕ) (type : ParsedFieldType)
      → P d.0
      → KeepsOp (decode_collection p d code n type)
  unfolding decode_collection decode_remove
  decode_collection-Keeps d zero n type u r = decode_set-Keeps d n type u r
  decode_collection-Keeps d (suc zero) n type u r = decode_add-Keeps d n type u r
  decode_collection-Keeps (t', last) (suc (suc zero)) n type u r =
      error_branch (λ (x : (Option (WireOp F) × Decoding) × ByteReader). P x.0.1.0)
        (decode_key p (removed_by type) r).1.error _ _ u u
  decode_collection-Keeps d (suc (suc (suc code))) n type u r = u

  decode_field-Keeps :
      (d : Decoding) (n field : ℕ) (type : Option ParsedFieldType)
      → P d.0
      → KeepsOp (decode_field p d n field type)
  decode_field-Keeps d n field none u r = u
  decode_field-Keeps (t', last) n field (some type) u r =
      value-Keeps t' last n _ (value_of type) u r

  decode_at-Keeps :
      (d : Decoding) (code f n : ℕ) (target : Option Target)
      → P d.0
      → KeepsOp (decode_at p d code f n target)
  unfolding decode_on
  decode_at-Keeps d code f n none u r = u
  decode_at-Keeps d code f n (some (instance_of layout)) u r =
      let (field, r1) = field_index p f r in
      either_branch (λ (m : OpRead F). P (m r).0.1.0) (code == 0) _ _
        (decode_field-Keeps d n field (get_elem? layout.types field) u r1) u
  decode_at-Keeps d code f n (some (collection type)) u r =
      either_branch (λ (m : OpRead F). P (m r).0.1.0) (f == 0) _ _
        (decode_collection-Keeps d code n type u r) u

  decode_defined-Keeps :
      (last c : ℕ) (name : List ℕ) (pairs : List (List ℕ) × List (List ℕ)) (b : Tables × Bool)
      → P b.0
      → KeepsOp (decode_defined p last c name pairs b)
  unfolding decode_defined
  decode_defined-Keeps last c name pairs (t', false) u r = u
  decode_defined-Keeps last c name pairs (t', true) u r = u

  decode_define-Keeps : (d : Decoding) → P d.0 → KeepsOp (decode_define p d)
  unfolding decode_define
  decode_define-Keeps d u r =
      let (c, r1) = Reader.varint r in
      let (name, r2) = Reader.string p.decode r1 in
      let (n, r3) = Reader.count r2 in
      let (pairs, r4) = read_pairs p n r3 in
      error_branch (λ (x : (Option (WireOp F) × Decoding) × ByteReader). P x.0.1.0) r4.error _ _ u
        (branch_cases (λ (m : OpRead F). P (m r4).0.1.0) (is_define pairs.0 pairs.1) _ _
          (λ h.
            decode_defined-Keeps d.1 c name pairs (Tables.define d.0 c (entry_of p name pairs))
              (kept.defines d.0 c (entry_of p name pairs) h u) r4)
          (λ h. u))

  decode_header-Keeps :
      (d : Decoding) (code : ℕ) (same : Bool) (f : ℕ)
      → P d.0
      → KeepsOp (decode_header p d code same f)
  unfolding decode_header
  decode_header-Keeps d code same f u r =
      let (n, r1) = (if same then return d.1 else Reader.varint) r in
      either_branch (λ (m : OpRead F). P (m r).0.1.0) (code == 4) _ _
        (either_branch (λ (m : OpRead F). P (m r).0.1.0) (same || not (f == 0)) _ _ u
          (decode_define-Keeps d u r))
        (either_branch (λ (m : OpRead F). P (m r).0.1.0) (ltb 4 code) _ _ u
          (error_branch (λ (x : (Option (WireOp F) × Decoding) × ByteReader). P x.0.1.0) r1.error _
            _ u (decode_at-Keeps d code f n (Dict.get d.0.targets n) u r1)))

  decode_op-Keeps : (d : Decoding) → P d.0 → KeepsOp (decode_op p d)
  unfolding decode_op
  decode_op-Keeps d u r = let (h, r1) = Reader.u8 r in decode_header-Keeps d _ _ _ u r1

  then_more-Keeps :
      (first : (Option (WireOp F) × Decoding) × ByteReader) (rest : Collected F)
      → P first.0.1.0
      → P rest.0.1.0
      → P (then_more first rest).0.1.0
  unfolding then_more
  then_more-Keeps ((none, d), r) rest u v = u
  then_more-Keeps ((some op, d), r) rest u v =
      error_branch (λ (x : Collected F). P x.0.1.0) r.error _ _ u v

  pub decode_all-Keeps :
      (fuel : ℕ) (d : Decoding) (r : ByteReader) → P d.0 → P (decode_all p fuel d r).0.1.0
  unfolding decode_all
  decode_all-Keeps zero d r u = u
  decode_all-Keeps (suc fuel) d r u =
      let first = decode_op p d r in
      let v = decode_op-Keeps d u r in
      either_branch (λ (x : Collected F). P x.0.1.0) (leb (length r.bytes) r.pos) _ _ u
        (then_more-Keeps first _ v (decode_all-Keeps fuel first.0.1 first.1 v))
