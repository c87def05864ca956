-- ===== src/Codec/Encoder/Rollback.antt =====
-- schema-codec.ts, `encodeOps`: the tables of a session behind ops that are refused.
use bungohan.Base.{◌≡◌, Bool, true, false, none, List, length}
use bungohan.Base.Keys.{number_keys}
use bungohan.Codec.Tables.{Tables}
use bungohan.Codec.Tables.Undo.{Undoable, begin-Undoable, Undoable-IsKept, rollback_same}
use bungohan.Codec.Platform.{Platform}
use bungohan.Codec.Ops.{WireOp}
use bungohan.Codec.Encoder.Keeps.{encode_all-Keeps}
use bungohan.Codec.Encoder.{Sink, Encoding, encoded, encode_ops}

-- The tables are those of before, but for the journal.
pub record SameTables (t t' : Tables) : Type 0 where
  pub classes : t'.classes ≡ t.classes
  pub layouts : t'.layouts ≡ t.layouts
  pub targets : t'.targets ≡ t.targets

module _ {F : Type 0} (p : Platform F) where
  encoded-SameTables :
      (t : Tables) (x : Encoding × Bool)
      → Undoable t x.0.0.tables
      → (encoded p x).1 ≡ none
      → SameTables t (encoded p x).0.tables
  unfolding encoded
  encoded-SameTables t ((s, last), true) u h = cc h
  encoded-SameTables t ((s, last), false) u h =
      let (c, l, a) = rollback_same t s.tables u in record { classes = c; layouts = l; targets = a }

  -- Where a session has a layout for every class, a frame that `encodeOps` refuses leaves it with
  -- the classes, the layouts and the targets that it had, whatever the ops before had added.
  pub encode_ops_failed :
      (s : Sink) (ops : List (WireOp F))
      → length s.tables.classes ≡ length s.tables.layouts
      → (encode_ops p s ops).1 ≡ none
      → SameTables s.tables (encode_ops p s ops).0.tables
  unfolding encode_ops
  encode_ops_failed s ops paired h =
      encoded-SameTables s.tables _
        (encode_all-Keeps p (Undoable s.tables) (Undoable-IsKept s.tables) _ ops
          (begin-Undoable s.tables paired))
        h
