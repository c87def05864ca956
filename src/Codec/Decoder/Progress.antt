-- ===== src/Codec/Decoder/Progress.antt =====
-- schema-codec.ts, `decodeOps`: how far the reads of an op go, and the rounds of the loop.
use bungohan.Base.{
  ℕ, zero, suc, ◌+◌, ◌≤◌, ◌<◌, ◌≡◌, refl, sym, ap, Bool, true, false, not, ◌||◌, Option, none, some,
  List, [], ◌∷◌, length, arith, if◌then◌else◌, leb, ltb, ◌==◌, get_elem?, inl, inr, Option-cases,
  bit_and, ◌/◌,
}
use bungohan.Base.Dict
use bungohan.Base.Keys.{number_keys}
use bungohan.Serializer.Reader
use bungohan.Serializer.Reader.{ByteReader, init}
use bungohan.Serializer.Reader.Steps.{u8_lem}
use bungohan.Serializer.Reader.Outcomes.{IsSound}
use bungohan.Codec.FieldType.{
  ParsedFieldType, Scalar, is_array, is_set, key_of, removed_by, element_of, value_of,
}
use bungohan.Codec.Tables
use bungohan.Codec.Tables.{Tables, Target, instance_of, collection, bind_ref, begin}
use bungohan.Codec.Platform.{Platform}
use bungohan.Codec.Values.{number}
use bungohan.Codec.Values.Advances.{
  IsAhead, IsAhead-trans, Advances, returns, fails, ◌>>◌, unless, branch, varints, bytes_on, counts,
  strings, scalars,
}
use bungohan.Codec.Ops
use bungohan.Codec.Ops.{WireValue, key, WireOp, is_define}
use bungohan.Codec.Decoder.{
  Got, Decoding, refused, with_value, of_nat, decode_bound, decode_ref, decode_scalar,
  decode_content, decode_index, decode_key, decode_set, decode_add, decode_remove,
  decode_collection, decode_field, decode_on, decode_at, decode_defined, decode_entry, entry_of,
  read_pairs, decode_define, decode_header, decode_op, then_more, decode_all,
}

module _ {F : Type 0} (p : Platform F) where
  bounds : (c n : ℕ) (b : Tables × Bool) → Advances (decode_bound p c n b)
  unfolding decode_bound
  bounds c n (t, false) = fails (none, t)
  bounds c n (t, true) = returns _

  contents : (t : Tables) (kind : Option (Option Scalar)) → Advances (decode_content p t kind)
  unfolding decode_content decode_ref decode_scalar
  contents t none = fails (none, t)
  contents t (some none) =
      varints >> λ c. varints >> λ n. unless (none, t) (bounds c n (bind_ref t c n))
  contents t (some (some type)) =
      scalars p type >> λ k. unless (none, t) (returns (some (key k, none), t))

  keys : (type : Option Scalar) → Advances (decode_key p type)
  unfolding decode_key decode_index
  keys none = varints >> λ n. returns (number (of_nat p n))
  keys (some type) = scalars p type

  values :
      (last n : ℕ) (make : WireValue F → WireOp F) (got : Got F × Tables)
      → Advances (with_value last n make got)
  values last n make (none, t) = returns (none, (t, last))
  values last n make (some (v, none), t) = returns (some (make v), (t, n))
  values last n make (some (v, some c), t) = returns (some (make v), (t, c))

  refuses : (d : Decoding) → Advances (refused {F = F} d)
  refuses d = fails (none, d)

  collections :
      (d : Decoding) (code n : ℕ) (type : ParsedFieldType)
      → Advances (decode_collection p d code n type)
  unfolding decode_collection decode_set decode_add decode_remove
  collections (t, last) zero n type =
      branch (is_array type)
        (varints >> λ index.
          contents t (element_of type) >> values last n (Ops.set (of_nat p n) (of_nat p index)))
        (refuses (t, last))
  collections (t, last) (suc zero) n type =
      branch (is_set type)
        (contents t (element_of type) >> values last n (Ops.add_value (of_nat p n)))
        (keys (key_of type) >> λ k.
          contents t (element_of type) >> values last n (Ops.add (of_nat p n) k))
  collections (t, last) (suc (suc zero)) n type = keys (removed_by type) >> λ k.
      unless (none, (t, last)) (returns (some (Ops.remove (of_nat p n) k), (t, n)))
  collections (t, last) (suc (suc (suc code))) n type =
      returns (some (Ops.clear (of_nat p n)), (t, n))

  fields :
      (d : Decoding) (n field : ℕ) (o : Option ParsedFieldType)
      → Advances (decode_field p d n field o)
  fields d n field none = refuses d
  fields (t, last) n field (some type) =
      contents t (value_of type) >> values last n (Ops.set (of_nat p n) (of_nat p field))

  targets : (d : Decoding) (code f n : ℕ) (o : Option Target) → Advances (decode_at p d code f n o)
  unfolding decode_on
  targets d code f n none = refuses d
  targets d code f n (some (instance_of layout)) =
      branch (code == 0)
        (branch (f == 15) (varints >> λ more. returns (15 + more)) (returns f) >> λ field.
          fields d n field (get_elem? layout.types field))
        (refuses d)
  targets d code f n (some (collection type)) =
      branch (f == 0) (collections d code n type) (refuses d)

  pairs : (n : ℕ) → Advances (read_pairs p n)
  unfolding read_pairs
  pairs zero = returns ([], [])
  pairs (suc n) =
      unless ([], [])
        (strings p >> λ field.
          strings p >> λ type. pairs n >> λ rest. returns (field ∷ rest.0, type ∷ rest.1))

  known :
      (last c : ℕ) (name : List ℕ) (lists : List (List ℕ) × List (List ℕ)) (b : Tables × Bool)
      → Advances (decode_defined p last c name lists b)
  unfolding decode_defined
  known last c name (fields, types) (t, false) = refuses (t, last)
  known last c name (fields, types) (t, true) =
      returns (some (Ops.define (of_nat p c) name fields types), (t, last))

  entries :
      (d : Decoding) (c : ℕ) (name : List ℕ) (lists : List (List ℕ) × List (List ℕ))
      → Advances (decode_entry p d c name lists)
  entries (t, last) c name lists =
      branch (is_define lists.0 lists.1)
        (known last c name lists (Tables.define t c (entry_of p name lists))) (refuses (t, last))

  headers :
      (d : Decoding) (code : ℕ) (same : Bool) (f : ℕ) → Advances (decode_header p d code same f)
  unfolding decode_header decode_define
  headers (t, last) code same f =
      branch (code == 4)
        (branch (same || not (f == 0)) (refuses (t, last)) (
          varints >> λ c. strings p >> λ name. counts >> λ n.
          pairs n >> λ lists. unless (none, (t, last)) (entries (t, last) c name lists)))
        (branch (ltb 4 code) (refuses (t, last)) (
          branch same (returns last) varints >> λ n.
          unless (none, (t, last)) (targets (t, last) code f n (Dict.get t.targets n))))

get_elem?-none : {A : Type 0} (xs : List A) (i : ℕ) → get_elem? xs i ≡ none → length xs ≤ i
get_elem?-none [] i e = omega arith
get_elem?-none (x ∷ xs) zero e = absurd (ground (arith, e))
get_elem?-none (x ∷ xs) (suc i) e = omega (arith, get_elem?-none xs i e)

-- A byte that is there is read.
u8_further : (r : ByteReader) → r.pos < length r.bytes → r.pos < (Reader.u8 r).1.pos
u8_further r h = elim (Option-cases (get_elem? r.bytes r.pos)) [
  | inl e ↦ absurd (omega (arith, get_elem?-none r.bytes r.pos e))
  | inr (b, e) ↦ omega (arith, ap (λ (x : ℕ × ByteReader). x.1.pos) (u8_lem r b e))
]

same_rest :
    {A : Type 0} (b : Bool) (x y z : A)
    → (b ≡ false → y ≡ z)
    → (if b then x else y) ≡ (if b then x else z)
same_rest true x y z h = refl
same_rest false x y z h = h refl

module _ {F : Type 0} (p : Platform F) where
  op_further :
      (d : Decoding) (r : ByteReader)
      → IsSound r
      → r.pos < length r.bytes
      → IsAhead r (decode_op p d r).1 × (r.pos < (decode_op p d r).1.pos)
  unfolding decode_op
  op_further d r s h =
      let (b, r') = Reader.u8 r in
      let a = bytes_on.ahead r s in
      let rest =
        (headers p d (b / 32) (not (bit_and b 0x10 == 0)) (bit_and b 0x0f)).ahead r' a.sound in
      let more = rest.further in (IsAhead-trans r r' _ a rest, omega (arith, u8_further r h))

  stopped :
      (j : ℕ) (d : Decoding) (r : ByteReader)
      → length r.bytes ≤ r.pos
      → decode_all p j d r ≡ (([], d), r)
  unfolding decode_all
  stopped zero d r h = refl
  stopped (suc j) d r h =
      let first = decode_op p d r in
      ap (λ b. if b then (([], d), r) else then_more first (decode_all p j first.0.1 first.1))
        (stops r h)
    where
      stops : (r : ByteReader) → length r.bytes ≤ r.pos → leb (length r.bytes) r.pos ≡ true
      stops r h = ground arith

  same_ops :
      (k j : ℕ) (d : Decoding) (r : ByteReader)
      → IsSound r
      → length r.bytes ≤ r.pos + k
      → length r.bytes ≤ r.pos + j
      → decode_all p k d r ≡ decode_all p j d r
  unfolding decode_all
  same_ops zero j d r s h h' = sym (stopped j d r (omega arith))
  same_ops (suc k) zero d r s h h' = stopped (suc k) d r (omega arith)
  same_ops (suc k) (suc j) d r s h h' =
      let first = decode_op p d r in
      same_rest (leb (length r.bytes) r.pos) _ _ _ (λ e.
        let (a, more) = op_further d r s (ground (arith, e)) in
        let l = ap length a.same_bytes in
        ap (then_more first) (same_ops k j first.0.1 first.1 a.sound (omega arith) (omega arith)))

  -- Any number of rounds that is not below the bytes of a frame gives what as many rounds as it
  -- has bytes give, so the loop of `decodeOps` ends by itself.
  pub decode_all_ends :
      (t : Tables) (frame : List ℕ) (rounds : ℕ)
      → length frame ≤ rounds
      → decode_all p rounds (begin t, 0) (init frame)
        ≡ decode_all p (length frame) (begin t, 0) (init frame)
  unfolding init
  decode_all_ends t frame rounds h =
      same_ops rounds (length frame) (begin t, 0) (init frame)
        (record { inside = omega arith; ended = λ m e. absurd (ground (arith, e)) }) (omega arith)
        (omega arith)
