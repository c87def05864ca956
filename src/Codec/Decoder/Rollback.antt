-- ===== src/Codec/Decoder/Rollback.antt =====
-- schema-codec.ts, `decodeOps`: the tables of a session behind a frame that is refused.
use bungohan.Base.{ℕ, ◌≡◌, Option, none, some, List, length}
use bungohan.Base.Keys.{number_keys}
use bungohan.Serializer.Reader
use bungohan.Serializer.Reader.{ByteReader}
use bungohan.Codec.Tables.{Tables, begin}
use bungohan.Codec.Tables.Undo.{Undoable, begin-Undoable, Undoable-IsKept, rollback_same}
use bungohan.Codec.Platform.{Platform}
use bungohan.Codec.Ops.{WireOp}
use bungohan.Codec.Encoder.Rollback.{SameTables}
use bungohan.Codec.Decoder.Keeps.{decode_all-Keeps}
use bungohan.Codec.Decoder.{outcome, decode_all, decoded, decode_ops}

module _ {F : Type 0} (p : Platform F) where
  outcome-SameTables :
      (t t' : Tables) (error : Option (Reader.Message × ℕ)) (ops : List (WireOp F))
      → Undoable t t'
      → (outcome p error t' ops).1 ≡ none
      → SameTables t (outcome p error t' ops).0
  outcome-SameTables t t' none ops u h = cc h
  outcome-SameTables t t' (some e) ops u h =
      let (c, l, a) = rollback_same t t' u in record { classes = c; layouts = l; targets = a }

  -- Where a session has a layout for every class, a frame that `decodeOps` refuses, from any bytes,
  -- leaves it with the classes, the layouts and the targets that it had.
  pub decode_ops_failed :
      (t : Tables) (frame : List ℕ)
      → length t.classes ≡ length t.layouts
      → (decode_ops p t frame).1 ≡ none
      → SameTables t (decode_ops p t frame).0
  unfolding decode_ops decoded
  decode_ops_failed t frame paired h =
      let x = decode_all p (length frame) (begin t, 0) (Reader.init frame) in
      outcome-SameTables t x.0.1.0 x.1.error x.0.0
        (decode_all-Keeps p (Undoable t) (Undoable-IsKept t) (length frame) (begin t, 0)
          (Reader.init frame) (begin-Undoable t paired))
        h
