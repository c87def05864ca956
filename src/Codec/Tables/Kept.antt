-- ===== src/Codec/Tables/Kept.antt =====
-- schema-codec.ts, `Tables`: properties that `bindRef` and `define` keep.
use bungohan.Base.{ℕ, ◌≡◌, true}
use bungohan.Codec.Ops.{is_define}
use bungohan.Codec.Tables.{Tables, Entry, define, bind_ref}

pub record IsKept (P : Tables → Type 0) : Type 0 where
  pub bound : (t : Tables) (c ref : ℕ) → P t → P (bind_ref t c ref).0
  pub defines :
      (t : Tables) (c : ℕ) (entry : Entry)
      → is_define entry.fields entry.types ≡ true
      → P t
      → P (define t c entry).0
