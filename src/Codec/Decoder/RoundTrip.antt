-- ===== src/Codec/Decoder/RoundTrip.antt =====
-- schema-codec.ts: a session that encodes ops, and one with the same tables that decodes them.
use bungohan.Base.{
  ℕ, ◌<◌, ◌≡◌, refl, ap, ap₂, ◌∙◌, Bool, true, false, some, List, [], ◌∷◌, length, arith,
  if◌then◌else◌,
}
use bungohan.Serializer.Reader
use bungohan.Serializer.Reader.{ByteReader}
use bungohan.Serializer.Writer
use bungohan.Serializer.Writer.{ByteWriter, to_bytes}
use bungohan.Serializer.Writer.Grow.{IsFit}
use bungohan.Codec.Tables.{Tables, begin}
use bungohan.Codec.Platform.{Platform, IsPlatform, as_uint32, as_index}
use bungohan.Codec.Values.Scalars.{whole}
use bungohan.Codec.Coded.{Coded-IsFit}
use bungohan.Codec.Ops
use bungohan.Codec.Ops.{WireOp}
use bungohan.Codec.Encoder.{
  Sink, Encoding, target_of, code_of, encode_other, encode_op, encode_all, encode_ops,
}
use bungohan.Codec.Encoder.Rollback.{SameTables}
use bungohan.Codec.Decoder.{decode_op, decode_all, decoded, decode_ops}
use bungohan.Codec.Decoder.Reads.{as_uint32-FitsUint}
use bungohan.Codec.Decoder.Payload.{IsShortOp}
use bungohan.Codec.Decoder.Header.{OpSent}
use bungohan.Codec.Decoder.Targeted.{sent_other, other_read}
use bungohan.Codec.Decoder.Sent.{
  IsSendable, AreSendable, sent_op, sent_all, sent_ops, start, index_fits, AllSent, nothing_sent,
  then_sent, frame_lem, there_after, there_after,
}
use bungohan.Codec.Decoder.Defines.{define_read}

same_start : (t t' : Tables) → SameTables t t' → begin t' ≡ begin t
unfolding begin
same_start t t' same =
    ap₂
      (λ c l. record {
        classes = c;
        layouts = l;
        targets = t'.targets;
        undo = [];
        class_mark = length l;
      })
      same.classes same.layouts
    ∙ ap
        (λ x. record {
          classes = t.classes;
          layouts = t.layouts;
          targets = x;
          undo = [];
          class_mark = length t.layouts;
        })
        same.targets

module _ {F : Type 0} (p : Platform F) (encode : List ℕ → List ℕ) (l : IsPlatform p encode) where
  target_read :
      (s : Sink) (last : ℕ) (op : WireOp F)
      → code_of p op < 4
      → IsShortOp op
      → IsFit s.out
      → OpSent s.out
          (decode_op p (s.tables, last))
          (sent_other p s.tables (whole p (target_of p op)) op (as_uint32 p (target_of p op)))
          (encode_other p (s, last) op (as_uint32 p (target_of p op)))
  target_read s last op k h f =
      other_read p encode l s last op (as_uint32 p (target_of p op))
        (as_uint32-FitsUint p (target_of p op)) k h f

  op_read :
      (s : Sink) (last : ℕ) (op : WireOp F)
      → IsSendable p op
      → IsFit s.out
      → OpSent s.out
          (decode_op p (s.tables, last))
          (sent_op p s.tables op)
          (encode_op p (s, last) op)
  unfolding encode_op
  op_read s last (Ops.define c name fields types) h f =
      let (id, many, plain, plain_fields, plain_types) = h in
      define_read p encode l s last c name fields types (as_index p c) (index_fits p c id) many
        plain plain_fields plain_types f
  op_read s last (Ops.set r x value) h f = target_read s last (Ops.set r x value) (omega arith) h f
  op_read s last (Ops.add r k value) h f = target_read s last (Ops.add r k value) (omega arith) h f
  op_read s last (Ops.add_value r value) h f =
      target_read s last (Ops.add_value r value) (omega arith) h f
  op_read s last (Ops.remove r k) h f = target_read s last (Ops.remove r k) (omega arith) h f
  op_read s last (Ops.clear r) h f = target_read s last (Ops.clear r) (omega arith) h f

  one_sent :
      (s : Sink) (last : ℕ) (op : WireOp F) (ops : List (WireOp F)) (first : Encoding × Bool)
      → OpSent s.out (decode_op p (s.tables, last)) (sent_op p s.tables op) first
      → ((s' : Sink) (last' : ℕ)
          → IsFit s'.out
          → AllSent p s'.out
              (s'.tables, last')
              (sent_all p (s', last') ops)
              (encode_all p (s', last') ops))
      → AllSent p s.out
          (s.tables, last)
          (sent_op p s.tables op ∷ sent_all p first.0 ops)
          (if first.1 then encode_all p first.0 ops else (first.0, false))
  one_sent s last op ops ((s', last'), false) c rest = tt
  one_sent s last op ops ((s', last'), true) (c, some_byte) rest =
      then_sent p s.out s'.out (s.tables, last) (s'.tables, last') (sent_op p s.tables op)
        (sent_all p (s', last') ops) (encode_all p (s', last') ops) c some_byte
        (rest s' last' (Coded-IsFit c))

  all_sent :
      (s : Sink) (last : ℕ) (ops : List (WireOp F))
      → AreSendable p ops
      → IsFit s.out
      → AllSent p s.out (s.tables, last) (sent_all p (s, last) ops) (encode_all p (s, last) ops)
  unfolding encode_all sent_all
  all_sent s last [] h f = nothing_sent p s last f
  all_sent s last (op ∷ ops) h f =
      one_sent s last op ops (encode_op p (s, last) op) (op_read s last op h.0 f)
        (λ s' last' f'. all_sent s' last' ops h.1 f')

  -- On a platform whose `DataView` and text encoders do as documented, where a session whose writer
  -- has a buffer that is not empty encodes ops whose texts are short enough for a length of 32 bits,
  -- whose class ids and numbers of fields have 32 bits, and whose texts in a DEFINE the wire gives
  -- back, a session with the same classes, layouts and targets decodes the frame to these ops, as
  -- the wire leaves their values, and its tables are the encoder's then.
  pub decode_ops-encode_ops :
      (s : Sink) (t : Tables) (ops : List (WireOp F)) (frame : List ℕ)
      → SameTables s.tables t
      → 0 < length s.out.bytes
      → AreSendable p ops
      → (encode_ops p s ops).1 ≡ some frame
      → decode_ops p t frame ≡ ((encode_ops p s ops).0.tables, some (sent_ops p s ops))
  unfolding encode_ops decode_ops sent_ops Writer.reset Reader.init to_bytes
  decode_ops-encode_ops s t ops frame same h sendable e =
      let s' = start p s in
      ap (λ t. decoded p (decode_all p (length frame) (t, 0) (Reader.init frame)))
        (same_start s.tables t same)
      ∙ frame_lem p s'.out s'.tables frame (sent_ops p s ops) (encode_all p (s', 0) ops) refl
          (all_sent s' 0 ops sendable (record { inside = omega arith; there = h })) e

  -- The writer of a session that has encoded ops still has a buffer.
  pub encode_ops_there :
      (s : Sink) (ops : List (WireOp F)) (frame : List ℕ)
      → 0 < length s.out.bytes
      → AreSendable p ops
      → (encode_ops p s ops).1 ≡ some frame
      → 0 < length (encode_ops p s ops).0.out.bytes
  unfolding encode_ops Writer.reset
  encode_ops_there s ops frame h sendable e =
      let s' = start p s in
      there_after p s'.out (s'.tables, 0) frame (sent_all p (s', 0) ops) (encode_all p (s', 0) ops)
        (all_sent s' 0 ops sendable (record { inside = omega arith; there = h })) e
