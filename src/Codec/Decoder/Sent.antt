-- ===== src/Codec/Decoder/Sent.antt =====
-- schema-codec.ts: what ops are behind the wire, and the loops of two sessions on them.
use bungohan.Base.{
  ℕ, zero, suc, ◌+◌, ◌≤◌, ◌<◌, ◌≡◌, refl, sym, ap, subst, ◌∙◌, Bool, true, false, Option, none,
  some, List, [], ◌∷◌, ◌++◌, length, arith, if◌then◌else◌, leb, append_assoc, append-nil,
  length-append,
}
use bungohan.Base.Int.{ℤ, pos, negsuc}
use bungohan.Numbers.{trunc, is_integer}
use bungohan.Serializer.Varint.{max_varint}
use bungohan.Serializer.Reader.{ByteReader}
use bungohan.Serializer.Writer
use bungohan.Serializer.Writer.{ByteWriter, to_bytes}
use bungohan.Serializer.Writer.Grow.{IsFit}
use bungohan.Serializer.Writer.Contents.{Appended}
use bungohan.Serializer.Stream.RoundTrip.{at}
use bungohan.Codec.Tables.{Tables, begin}
use bungohan.Codec.Platform.{Platform, as_uint32, as_index, magnitude}
use bungohan.Codec.Values.Scalars.{whole}
use bungohan.Codec.Coded.{Coded, Appended-then}
use bungohan.Codec.Ops
use bungohan.Codec.Ops.{WireOp}
use bungohan.Codec.Encoder.{Sink, Encoding, target_of, encode_op, encoded}
use bungohan.Codec.Decoder.{decode_op, Decoding, then_more, decode_all, decoded}
use bungohan.Codec.Decoder.Reads.{FitsUint}
use bungohan.Codec.Decoder.Payload.{IsShortOp}
use bungohan.Codec.Decoder.Targeted.{sent_other}
use bungohan.Codec.Decoder.Defines.{IsPlainText, ArePlainTexts}

module _ {F : Type 0} (p : Platform F) where
  -- A class id that has 32 bits.
  abbrev HasUint : Option ℕ → Type 0
  HasUint none = Unit
  HasUint (some n) = n ≤ max_varint

  -- Texts that have a length of 32 bits; those of a DEFINE are what the wire gives back.
  abbrev pub IsSendable : WireOp F → Type 0
  IsSendable (Ops.define c name fields types) =
      HasUint (as_index p c)
      × (length fields ≤ max_varint)
      × IsPlainText name
      × ArePlainTexts fields
      × ArePlainTexts types
  IsSendable op = IsShortOp op

  abbrev pub AreSendable : List (WireOp F) → Type 0
  AreSendable [] = Unit
  AreSendable (op ∷ ops) = IsSendable op × AreSendable ops

  -- What an op is behind the wire: its numbers in the format of their types, its texts as UTF-8
  -- keeps them.
  abbrev pub sent_op : Tables → WireOp F → WireOp F
  sent_op t (Ops.define c name fields types) = Ops.define (whole p c) name fields types
  sent_op t op = sent_other p t (whole p (target_of p op)) op (as_uint32 p (target_of p op))

  unfoldable pub sent_all : Encoding → List (WireOp F) → List (WireOp F)
  sent_all e [] = []
  sent_all e (op ∷ ops) = sent_op e.0.tables op ∷ sent_all (encode_op p e op).0 ops

  -- The sink that `encodeOps` starts with.
  abbrev pub start : Sink → Sink
  start s = record { out = Writer.reset s.out; tables = begin s.tables }

  unfoldable pub sent_ops : Sink → List (WireOp F) → List (WireOp F)
  sent_ops s ops = sent_all (start s, 0) ops

  pub index_fits : (x : F) → HasUint (as_index p x) → FitsUint p x (as_index p x)
  index_fits x h = by_test (is_integer (p.view x)) h
    where
      by_magnitude :
          (z : ℤ) → p.of_int z ≡ whole p x → HasUint (magnitude z) → FitsUint p x (magnitude z)
      by_magnitude (pos n) e h = (h, e)
      by_magnitude (negsuc n) e h = tt

      by_test :
          (b : Bool)
          → HasUint (if b then magnitude (trunc (p.view x)) else none)
          → FitsUint p x (if b then magnitude (trunc (p.view x)) else none)
      by_test true h = by_magnitude (trunc (p.view x)) refl h
      by_test false h = tt

  -- Ops that were written from a state on, read back from the same state; nothing for a `Fail`.
  abbrev pub AllSent : ByteWriter → Decoding → List (WireOp F) → Encoding × Bool → Type 0
  AllSent w d ops ((s, last), false) = Unit
  AllSent w d ops ((s, last), true) =
      (bs : List ℕ) × Appended w s.out bs
      × ((pre : List ℕ) (fuel : ℕ)
          → length bs ≤ fuel
          → decode_all p fuel d (at (pre ++ bs) (length pre))
            ≡ ((ops, (s.tables, last)), at (pre ++ bs) (length pre + length bs)))

  -- A round of the loop where an op is read.
  round_lem :
      (fuel : ℕ) (d d' : Decoding) (bytes : List ℕ) (i j : ℕ) (op : WireOp F)
      → i < length bytes
      → decode_op p d (at bytes i) ≡ ((some op, d'), at bytes j)
      → decode_all p (suc fuel) d (at bytes i)
        ≡ then_more ((some op, d'), at bytes j) (decode_all p fuel d' (at bytes j))
  unfolding decode_all
  round_lem fuel d d' bytes i j op h e =
      let more : leb (length bytes) i ≡ false = ground arith in
      ap
        (λ (first : (Option (WireOp F) × Decoding) × ByteReader).
          if leb (length bytes) i
          then (([], d), at bytes i)
          else then_more first (decode_all p fuel first.0.1 first.1))
        e
      ∙ ap
          (λ b.
            if b
            then (([], d), at bytes i)
            else then_more ((some op, d'), at bytes j) (decode_all p fuel d' (at bytes j)))
          more

  stop :
      (fuel : ℕ) (d : Decoding) (bytes : List ℕ) (i : ℕ)
      → i ≡ length bytes
      → decode_all p fuel d (at bytes i) ≡ (([], d), at bytes i)
  unfolding decode_all
  stop zero d bytes i h = refl
  stop (suc fuel) d bytes i h =
      let first = decode_op p d (at bytes i) in
      let done : leb (length bytes) i ≡ true = ground arith in
      ap
        (λ b.
          if b
          then (([], d), at bytes i)
          else then_more first (decode_all p fuel first.0.1 first.1))
        done

  pub nothing_sent :
      (s : Sink) (last : ℕ) → IsFit s.out → AllSent s.out (s.tables, last) [] ((s, last), true)
  nothing_sent s last f = (
    [],
    record { held = sym (append-nil (to_bytes s.out)); inside = f.inside; there = f.there },
    λ pre fuel h.
        let all : length pre ≡ length (pre ++ []) = omega (arith, length-append pre []) in
        stop fuel (s.tables, last) (pre ++ []) (length pre) all
        ∙ ap (λ i. (([], (s.tables, last)), at (pre ++ []) i)) (omega arith),
  )

  pub then_sent :
      (w w' : ByteWriter) (d d' : Decoding) (op : WireOp F) (ops : List (WireOp F))
      (e : Encoding × Bool) (c : Coded w w' (decode_op p d) (some op, d'))
      → 1 ≤ length c.bs
      → AllSent w' d' ops e
      → AllSent w d (op ∷ ops) e
  unfolding then_more
  then_sent w w' d d' op ops ((s, last), false) c some_byte rest = tt
  then_sent w w' d d' op ops ((s, last), true) c some_byte (bs', appended', reads') =
      (c.bs ++ bs', Appended-then w w' s.out c.bs bs' c.appended appended', reads)
    where
      reads :
          (pre : List ℕ) (fuel : ℕ)
          → length (c.bs ++ bs') ≤ fuel
          → decode_all p fuel d (at (pre ++ (c.bs ++ bs')) (length pre)) ≡ (
            (op ∷ ops, (s.tables, last)),
            at (pre ++ (c.bs ++ bs')) (length pre + length (c.bs ++ bs')),
          )
      reads pre zero h = absurd (omega (arith, length-append c.bs bs'))
      reads pre (suc fuel) h =
          let l = length-append c.bs bs' in
          let bytes = pre ++ (c.bs ++ bs') in
          let k = length-append pre (c.bs ++ bs') in
          let j = length-append pre c.bs in
          let behind : decode_all p fuel d' (at bytes (length pre + length c.bs))
              ≡ ((ops, (s.tables, last)), at bytes (length pre + length (c.bs ++ bs'))) =
            ap (λ x. decode_all p fuel d' (at bytes x)) (sym j)
            ∙ subst
                (λ x.
                  decode_all p fuel d' (at x (length (pre ++ c.bs)))
                  ≡ ((ops, (s.tables, last)), at x (length (pre ++ c.bs) + length bs')))
                (append_assoc pre c.bs bs') (reads' (pre ++ c.bs) fuel (omega arith))
            ∙ ap (λ x. ((ops, (s.tables, last)), at bytes x)) (omega arith) in
          round_lem fuel d d' bytes (length pre) (length pre + length c.bs) op (omega arith)
            (c.reads pre bs')
          ∙ ap (then_more ((some op, d'), at bytes (length pre + length c.bs))) behind

  pub frame_lem :
      (w : ByteWriter) (t : Tables) (frame : List ℕ) (ops : List (WireOp F)) (e : Encoding × Bool)
      → to_bytes w ≡ []
      → AllSent w (t, 0) ops e
      → (encoded p e).1 ≡ some frame
      → decoded p (decode_all p (length frame) (t, 0) (at frame 0))
        ≡ ((encoded p e).0.tables, some ops)
  unfolding encoded decoded
  frame_lem w t frame ops ((s, last), false) empty c e = absurd (ground (arith, e))
  frame_lem w t frame ops ((s, last), true) empty (bs, appended, reads) e =
      let same : bs ≡ frame =
        ap (λ x. x ++ bs) (sym empty)
        ∙ sym appended.held
        ∙ ap (λ (o : Option (List ℕ)). elim o [ none ↦ [] | some f ↦ f ]) e in
      let read = ap (decoded p) (reads [] (length bs) (omega arith)) in
      subst (λ f. decoded p (decode_all p (length f) (t, 0) (at f 0)) ≡ (s.tables, some ops)) same
        read

  -- The writer of a session that has encoded ops has a buffer.
  pub there_after :
      (w : ByteWriter) (d : Decoding) (frame : List ℕ) (ops : List (WireOp F)) (e : Encoding × Bool)
      → AllSent w d ops e
      → (encoded p e).1 ≡ some frame
      → 0 < length (encoded p e).0.out.bytes
  unfolding encoded
  there_after w d frame ops ((s, last), false) c e = absurd (ground (arith, e))
  there_after w d frame ops ((s, last), true) (bs, appended, reads) e = appended.there
