-- ===== src/Codec/FieldType.antt =====
-- packages/types/src/wire.ts: the field types of the class table, as they are written there. A type
-- is the list of its UTF-16 code units.
use Prim.Native.Char.{code}
use bungohan.Base.{
  ℕ, suc, ◌-◌, Bool, true, false, ◌&&◌, Option, none, some, List, [], ◌∷◌, String, leb, ltb, ◌==◌,
  if◌then◌else◌, length, take, drop, get_elem?,
}
use bungohan.Numbers.{IntKind, int8, int16, int32, uint8, uint16, uint32}

-- The units of an ASCII text.
abbrev pub units : String → List ℕ
units String.[] = []
units (String.◌∷◌ c s) = code c ∷ units s

-- `a === b`
abbrev pub same_text : List ℕ → List ℕ → Bool
same_text [] [] = true
same_text [] (v ∷ b) = false
same_text (u ∷ a) [] = false
same_text (u ∷ a) (v ∷ b) = u == v && same_text a b

-- What one value is: PrimitiveFieldType, KeyFieldType and IntKind, which is three sets of such
-- names.
pub data Scalar : Type 0 where
  float64 float32 string bool : Scalar
  fixed : ℕ → Scalar
  int : IntKind → Scalar

pub data ParsedFieldType : Type 0 where
  primitive : Scalar → ParsedFieldType
  integer : IntKind → ParsedFieldType
  schema : List ℕ → ParsedFieldType
  map : Scalar → Scalar → ParsedFieldType
  set array : Scalar → ParsedFieldType
  schema_map : Scalar → List ℕ → ParsedFieldType
  schema_set schema_array : List ℕ → ParsedFieldType

-- The first value of a table that is there under a text.
abbrev look_up : {A : Type 0} → List (List ℕ × A) → List ℕ → Option A
look_up [] text = none
look_up ((name, a) ∷ table) text = if same_text name text then some a else look_up table text

-- isIntKind
unfoldable pub int_kind : List ℕ → Option IntKind
int_kind = look_up (
    (units "int8", int8)
    ∷ (units "int16", int16)
    ∷ (units "int32", int32)
    ∷ (units "uint8", uint8)
    ∷ (units "uint16", uint16)
    ∷ (units "uint32", uint32)
    ∷ [])

-- `/^fixed:\d$/`, with the digit.
abbrev fixed_digit : List ℕ → Option ℕ
fixed_digit text =
    if same_text (take 6 text) (units "fixed:") && length text == 7
    then (elim (get_elem? text 6) [
      | none ↦ none
      | some d ↦ if leb 48 d && leb d 57 then some (d - 48) else none
    ])
    else none

-- isPrimitiveFieldType
unfoldable pub primitive_type : List ℕ → Option Scalar
primitive_type text =
    elim (look_up
      ((units "float64", float64)
        ∷ (units "float32", float32)
        ∷ (units "string", string)
        ∷ (units "bool", bool)
        ∷ [])
      text) [
        | some s ↦ some s
        | none ↦ elim (fixed_digit text) [ none ↦ none | some d ↦ some (fixed d) ]
      ]

-- isKeyFieldType
unfoldable pub key_type : List ℕ → Option Scalar
key_type text = elim (look_up ((units "string", string) ∷ (units "float64", float64) ∷ []) text) [
  | some s ↦ some s
  | none ↦ elim (int_kind text) [ none ↦ none | some kind ↦ some (int kind) ]
]

-- `text.indexOf(unit)`, with `none` for -1.
unfoldable pub index_of : ℕ → List ℕ → Option ℕ
index_of unit [] = none
index_of unit (u ∷ text) =
    let rest = index_of unit text in
    if u == unit then some 0 else elim rest [ none ↦ none | some n ↦ some (suc n) ]

-- The last unit is `>`.
abbrev ends_bracket : List ℕ → Bool
ends_bracket text = elim (get_elem? text (length text - 1)) [ none ↦ false | some u ↦ u == 62 ]

abbrev parse_set : List ℕ → Option ParsedFieldType
parse_set inner = elim (key_type inner) [ none ↦ none | some s ↦ some (set s) ]

abbrev parse_array : List ℕ → Option ParsedFieldType
parse_array inner = elim (primitive_type inner) [ none ↦ none | some s ↦ some (array s) ]

-- The cases `map` and `schemaMap`, behind `comma > 0`.
abbrev parse_map : List ℕ → List ℕ → Option ParsedFieldType
parse_map key rest = elim (key_type key) [
  | none ↦ none
  | some k ↦ elim (primitive_type rest) [ none ↦ none | some s ↦ some (map k s) ]
]

abbrev parse_schema_map : List ℕ → List ℕ → Option ParsedFieldType
parse_schema_map key [] = none
parse_schema_map key (u ∷ rest) = elim (key_type key) [
  | none ↦ none
  | some k ↦ some (schema_map k (u ∷ rest))
]

-- `inner` split at its first comma, where that is not at its start.
abbrev at_comma : (List ℕ → List ℕ → Option ParsedFieldType) → List ℕ → Option ParsedFieldType
at_comma parse inner = elim (index_of 44 inner) [
  | none ↦ none
  | some comma ↦ if ltb 0 comma then parse (take comma inner) (drop (suc comma) inner) else none
]

abbrev named : (List ℕ → ParsedFieldType) → List ℕ → Option ParsedFieldType
named make [] = none
named make (u ∷ inner) = some (make (u ∷ inner))

-- The `switch (head)`.
unfoldable pub parse_head : List ℕ → List ℕ → Option ParsedFieldType
parse_head head inner =
    if same_text head (units "schema")
    then named schema inner
    else if same_text head (units "schemaSet")
    then named schema_set inner
    else if same_text head (units "schemaArray")
    then named schema_array inner
    else if same_text head (units "set")
    then parse_set inner
    else if same_text head (units "array")
    then parse_array inner
    else if same_text head (units "map")
    then at_comma parse_map inner
    else if same_text head (units "schemaMap")
    then at_comma parse_schema_map inner
    else none

-- The part of `parseFieldType` for a type with brackets.
unfoldable pub parse_bracketed : List ℕ → Option ParsedFieldType
parse_bracketed type = elim (index_of 60 type) [
  | none ↦ none
  | some bracket ↦
      if ltb 0 bracket && ends_bracket type
      then parse_head (take bracket type)
          (take (length type - bracket - 2) (drop (suc bracket) type))
      else none
]

-- parseFieldType
unfoldable pub parse_field_type : List ℕ → Option ParsedFieldType
parse_field_type type = elim (primitive_type type) [
  | some s ↦ some (primitive s)
  | none ↦ elim (int_kind type) [ some kind ↦ some (integer kind) | none ↦ parse_bracketed type ]
]

-- isCollectionField
abbrev pub is_collection_field : ParsedFieldType → Bool
is_collection_field (primitive s) = false
is_collection_field (integer kind) = false
is_collection_field (schema name) = false
is_collection_field _ = true

-- isArray
abbrev pub is_array : ParsedFieldType → Bool
is_array (array s) = true
is_array (schema_array name) = true
is_array _ = false

-- `type.kind === "set" || type.kind === "schemaSet"`
abbrev pub is_set : ParsedFieldType → Bool
is_set (set s) = true
is_set (schema_set name) = true
is_set _ = false

-- keyType
abbrev pub key_of : ParsedFieldType → Option Scalar
key_of (map k s) = some k
key_of (schema_map k name) = some k
key_of _ = none

-- The type of what a REMOVE names; `none` is an index, or the refId of an element.
abbrev pub removed_by : ParsedFieldType → Option Scalar
removed_by (map k s) = some k
removed_by (schema_map k name) = some k
removed_by (set s) = some s
removed_by _ = none

-- The type of the elements of a collection: a scalar, or `none` for refs.
abbrev pub element_of : ParsedFieldType → Option (Option Scalar)
element_of (map k s) = some (some s)
element_of (set s) = some (some s)
element_of (array s) = some (some s)
element_of (schema_map k name) = some none
element_of (schema_set name) = some none
element_of (schema_array name) = some none
element_of _ = none

-- The same for the value of a field.
abbrev pub value_of : ParsedFieldType → Option (Option Scalar)
value_of (primitive s) = some (some s)
value_of (integer kind) = some (some (int kind))
value_of (schema name) = some none
value_of _ = none
