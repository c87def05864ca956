-- ===== src/Codec/Session.antt =====
-- schema-codec.ts: `SchemaSession`, with the calls that its users make one after the other.
pub mod Stream
use bungohan.Base.{
  ℕ, ◌≡◌, refl, sym, ap, ◌∙◌, Bool, true, false, Option, none, some, List, [], ◌∷◌, length,
}
use bungohan.Serializer.Reader
use bungohan.Serializer.Writer
use bungohan.Serializer.Writer.{ByteWriter}
use bungohan.Codec.Tables
use bungohan.Codec.Tables.{Tables, begin}
use bungohan.Codec.Tables.Paired.{IsPaired, IsPaired-IsKept}
use bungohan.Codec.Platform.{Platform}
use bungohan.Codec.Ops.{WireOp}
use bungohan.Codec.Encoder.{Sink, Encoding, encode_all, encoded, encode_ops}
use bungohan.Codec.Encoder.Keeps.{encode_all-Keeps}
use bungohan.Codec.Encoder.Rollback.{SameTables, encode_ops_failed}
use bungohan.Codec.Decoder.{decode_all, outcome, decoded, decode_ops}
use bungohan.Codec.Decoder.Keeps.{decode_all-Keeps}
use bungohan.Codec.Decoder.Rollback.{decode_ops_failed}

pub data Call (F : Type 0) : Type 0 where
  encode : List (WireOp F) → Call F
  decode : List ℕ → Call F

-- The constructor of a session.
pub session : ByteWriter → Sink
session out = record { out = out; tables = Tables.init }

module _ {F : Type 0} (p : Platform F) where
  pub call : Sink → Call F → Sink
  call s (encode ops) = (encode_ops p s ops).0
  call s (decode frame) = record s { tables = (decode_ops p s.tables frame).0 }

  pub run : Sink → List (Call F) → Sink
  run s [] = s
  run s (c ∷ calls) = run (call s c) calls

  SameTables-IsPaired : (t t' : Tables) → IsPaired t → SameTables t t' → IsPaired t'
  SameTables-IsPaired t t' h same = ap length same.classes ∙ h ∙ ap length (sym same.layouts)

  encoded-IsPaired :
      (t : Tables) (x : Encoding × Bool)
      → IsPaired t
      → IsPaired x.0.0.tables
      → ((encoded p x).1 ≡ none → SameTables t (encoded p x).0.tables)
      → IsPaired (encoded p x).0.tables
  unfolding encoded
  encoded-IsPaired t ((s, last), true) h k same = k
  encoded-IsPaired t ((s, last), false) h k same = SameTables-IsPaired t _ h (same refl)

  outcome-IsPaired :
      (t t' : Tables) (error : Option (Reader.Message × ℕ)) (ops : List (WireOp F))
      → IsPaired t
      → IsPaired t'
      → ((outcome p error t' ops).1 ≡ none → SameTables t (outcome p error t' ops).0)
      → IsPaired (outcome p error t' ops).0
  outcome-IsPaired t t' none ops h k same = k
  outcome-IsPaired t t' (some e) ops h k same = SameTables-IsPaired t _ h (same refl)

  call-IsPaired : (s : Sink) (c : Call F) → IsPaired s.tables → IsPaired (call s c).tables
  unfolding call encode_ops decode_ops decoded begin
  call-IsPaired s (encode ops) h =
      let s' : Sink = record { out = Writer.reset s.out; tables = begin s.tables } in
      encoded-IsPaired s.tables (encode_all p (s', 0) ops) h
        (encode_all-Keeps p IsPaired IsPaired-IsKept (s', 0) ops h) (encode_ops_failed p s ops h)
  call-IsPaired s (decode frame) h =
      let x = decode_all p (length frame) (begin s.tables, 0) (Reader.init frame) in
      outcome-IsPaired s.tables x.0.1.0 x.1.error x.0.0 h
        (decode_all-Keeps p IsPaired IsPaired-IsKept (length frame) (begin s.tables, 0)
          (Reader.init frame) h)
        (decode_ops_failed p s.tables frame h)

  kept_IsPaired :
      (s : Sink) (calls : List (Call F)) → IsPaired s.tables → IsPaired (run s calls).tables
  unfolding run
  kept_IsPaired s [] h = h
  kept_IsPaired s (c ∷ calls) h = kept_IsPaired (call s c) calls (call-IsPaired s c h)

  -- A session, whatever ops and frames it has been given from its start on, has a layout for each
  -- of its classes.
  pub run-IsPaired :
      (out : ByteWriter) (calls : List (Call F)) → IsPaired (run (session out) calls).tables
  unfolding session Tables.init
  run-IsPaired out calls = kept_IsPaired (session out) calls refl
