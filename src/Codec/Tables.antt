-- ===== src/Codec/Tables.antt =====
-- The class table (state-codec.ts) and the tables of a session (schema-codec.ts) with their undo
-- journal. The messages of failures are left out.
pub mod Kept
pub mod Undo
pub mod Paired
use bungohan.Base.{
  ℕ, suc, ◌+◌, Bool, true, false, ◌&&◌, Option, none, some, List, [], ◌∷◌, ◌++◌, leb, ltb, ◌==◌,
  if◌then◌else◌, length, take, get_elem?,
}
use bungohan.Base.Dict
use bungohan.Base.Dict.{Dict}
use bungohan.Base.Keys.{number_keys}
use bungohan.Codec.FieldType.{ParsedFieldType, parse_field_type, is_collection_field, same_text}

-- SchemaClassEntry, without the class id, which is its place in the table.
pub record Entry : Type 0 where
  pub name : List ℕ
  pub fields : List (List ℕ)
  pub types : List (List ℕ)

pub record ClassLayout : Type 0 where
  pub types : List ParsedFieldType
  pub collections : List ParsedFieldType

pub data Target : Type 0 where
  instance_of : ClassLayout → Target
  collection : ParsedFieldType → Target

pub record Tables : Type 0 where
  pub classes : List Entry
  pub layouts : List ClassLayout
  pub targets : Dict ℕ Target
  pub undo : List (ℕ × Option Target)
  pub class_mark : ℕ

unfoldable pub init : Tables
init = record { classes = []; layouts = []; targets = []; undo = []; class_mark = 0 }

-- `a.length === b.length && a.every((x, i) => x === b[i])`
abbrev same_texts : List (List ℕ) → List (List ℕ) → Bool
same_texts [] [] = true
same_texts [] (t ∷ b) = false
same_texts (s ∷ a) [] = false
same_texts (s ∷ a) (t ∷ b) = same_text s t && same_texts a b

-- sameEntry; the fields of an entry are as many as its types.
abbrev same_entry : Entry → Entry → Bool
same_entry a b =
    same_text a.name b.name && same_texts a.fields b.fields && same_texts a.types b.types

-- ClassTable.define: the new table, or a failure.
unfoldable pub define_class : List Entry → ℕ → Entry → Option (List Entry)
define_class classes class_id entry = elim (get_elem? classes class_id) [
  | some existing ↦ if same_entry existing entry then some classes else none
  | none ↦ if class_id == length classes then some (classes ++ (entry ∷ [])) else none
]

-- The loop of `layoutOf`.
unfoldable pub parse_types : List (List ℕ) → Option (List ParsedFieldType)
parse_types [] = some []
parse_types (type ∷ types) =
    let rest = parse_types types in
    elim (parse_field_type type) [
      | none ↦ none
      | some parsed ↦ elim rest [ none ↦ none | some all ↦ some (parsed ∷ all) ]
    ]

abbrev pub filter : {A : Type 0} → (A → Bool) → List A → List A
filter test [] = []
filter test (a ∷ list) = if test a then a ∷ filter test list else filter test list

-- layoutOf
unfoldable pub layout_of : List (List ℕ) → Option ClassLayout
layout_of types = elim (parse_types types) [
  | none ↦ none
  | some parsed ↦ some (record { types = parsed; collections = filter is_collection_field parsed })
]

-- begin
unfoldable pub begin : Tables → Tables
begin t = record t { undo = []; class_mark = length t.layouts }

-- The loop of `rollback`, which goes through the journal from its end: the list has the last entry
-- first.
unfoldable pub undo_all : List (ℕ × Option Target) → Dict ℕ Target → Dict ℕ Target
undo_all [] targets = targets
undo_all ((ref, none) ∷ undo) targets = undo_all undo (Dict.delete targets ref)
undo_all ((ref, some previous) ∷ undo) targets = undo_all undo (Dict.set targets ref previous)

-- rollback
unfoldable pub rollback : Tables → Tables
rollback t = record t {
  classes = take t.class_mark t.classes;
  layouts = take t.class_mark t.layouts;
  targets = undo_all t.undo t.targets;
  undo = [];
}

-- _set
unfoldable pub set_target : Tables → ℕ → Target → Tables
set_target t ref target = record t {
  targets = Dict.set t.targets ref target;
  undo = (ref, Dict.get t.targets ref) ∷ t.undo;
}

-- The loop of `_bind` over the collections of a class.
unfoldable pub bind_collections : Tables → ℕ → List ParsedFieldType → Tables
bind_collections t next [] = t
bind_collections t next (type ∷ types) =
    bind_collections (set_target t next (collection type)) (suc next) types

-- _bind
unfoldable pub bind : Tables → ℕ → ClassLayout → Tables
bind t ref layout =
    bind_collections (set_target t ref (instance_of layout)) (suc ref) layout.collections

-- define, behind `classes.define`; the root is an instance of class 0.
unfoldable pub add_layout : Tables → ℕ → Option ClassLayout → Tables × Bool
add_layout t class_id none = (t, false)
add_layout t class_id (some layout) =
    let t' = record t { layouts = t.layouts ++ (layout ∷ []) } in
    (if class_id == 0 then bind t' 0 layout else t', true)

-- What `define` does with the new class table, or with the problem.
unfoldable pub defined : Tables → ℕ → List (List ℕ) → Option (List Entry) → Tables × Bool
defined t class_id types none = (t, false)
defined t class_id types (some classes) =
    let t' = record t { classes = classes } in
    if length classes == length t.classes
    then (t', true)
    else add_layout t' class_id (layout_of types)

-- define
unfoldable pub define : Tables → ℕ → Entry → Tables × Bool
define t class_id entry = defined t class_id entry.types (define_class t.classes class_id entry)

-- bindRef
pub bind_ref : Tables → ℕ → ℕ → Tables × Bool
bind_ref t class_id ref = elim (get_elem? t.layouts class_id) [
  | none ↦ (t, false)
  | some layout ↦
      if ltb 0xffff_ffff (ref + length layout.collections)
      then (t, false)
      else (bind t ref layout, true)
]
