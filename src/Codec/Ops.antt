-- ===== src/Codec/Ops.antt =====
-- packages/types/src/wire.ts: the ops of the state stream. The arities of an op are its
-- constructors.
use bungohan.Base.{ℕ, Bool, true, false, ◌&&◌, none, some, List, [], ◌∷◌, length, ◌==◌}
use bungohan.Codec.FieldType.{parse_field_type}
use bungohan.Codec.Values.{Key}

-- WireValue.
pub data WireValue (F : Type 0) : Type 0 where
  key : Key F → WireValue F
  ref : F → F → WireValue F

pub data WireOp (F : Type 0) : Type 0 where
  set : F → F → WireValue F → WireOp F
  add : F → Key F → WireValue F → WireOp F
  add_value : F → WireValue F → WireOp F
  remove : F → Key F → WireOp F
  clear : F → WireOp F
  define : F → List ℕ → List (List ℕ) → List (List ℕ) → WireOp F

-- `op[4].every((type) => parseFieldType(type) !== undefined)`
unfoldable pub all_parse : List (List ℕ) → Bool
all_parse [] = true
all_parse (type ∷ types) = elim (parse_field_type type) [ none ↦ false | some t ↦ all_parse types ]

-- The case 4 of isWireOp.
abbrev pub is_define : List (List ℕ) → List (List ℕ) → Bool
is_define fields types = length fields == length types && all_parse types
