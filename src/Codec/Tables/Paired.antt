-- ===== src/Codec/Tables/Paired.antt =====
-- schema-codec.ts, `Tables`: a layout for every class.
use bungohan.Base.{
  ℕ, suc, ◌+◌, ◌≡◌, refl, sym, ap, subst, Bool, true, false, ◌&&◌, Option, none, some, List, [],
  ◌∷◌, ◌++◌, length, arith, Option-cases, inl, inr, ◌⊎◌, either_branch, branch_cases, length-append,
  if◌then◌else◌, ◌==◌, ltb, get_elem?,
}
use bungohan.Codec.FieldType.{ParsedFieldType, parse_field_type, is_collection_field}
use bungohan.Codec.Ops.{is_define, all_parse}
use bungohan.Codec.Tables.{
  Tables, Entry, ClassLayout, instance_of, collection, set_target, bind_collections, bind,
  add_layout, defined, define, define_class, parse_types, layout_of, bind_ref, filter,
}
use bungohan.Codec.Tables.Kept.{IsKept}

abbrev pub IsPaired : Tables → Type 0
IsPaired t = length t.classes ≡ length t.layouts

bind_collections-IsPaired :
    (t : Tables) (next : ℕ) (types : List ParsedFieldType)
    → IsPaired t
    → IsPaired (bind_collections t next types)
unfolding bind_collections set_target
bind_collections-IsPaired t next [] h = h
bind_collections-IsPaired t next (type ∷ types) h =
    bind_collections-IsPaired (set_target t next (collection type)) (suc next) types h

bind-IsPaired :
    (t : Tables) (ref : ℕ) (layout : ClassLayout) → IsPaired t → IsPaired (bind t ref layout)
unfolding bind set_target
bind-IsPaired t ref layout h =
    bind_collections-IsPaired (set_target t ref (instance_of layout)) (suc ref) layout.collections h

bind_ref-IsPaired : (t : Tables) (c ref : ℕ) → IsPaired t → IsPaired (bind_ref t c ref).0
unfolding bind_ref
bind_ref-IsPaired t c ref h = bound (get_elem? t.layouts c)
  where
    bound :
        (o : Option ClassLayout)
        → IsPaired
            (elim o as (λ _. Tables × Bool) [
              | none ↦ (t, false)
              | some layout ↦
                  if ltb 0xffff_ffff (ref + length layout.collections)
                  then (t, false)
                  else (bind t ref layout, true)
            ]).0
    bound none = h
    bound (some layout) =
        either_branch (λ (x : Tables × Bool). IsPaired x.0)
          (ltb 0xffff_ffff (ref + length layout.collections)) _ _ h (bind-IsPaired t ref layout h)

-- Types that are there parse.
parses :
    (types : List (List ℕ))
    → all_parse types ≡ true
    → (all : List ParsedFieldType) × (parse_types types ≡ some all)
unfolding all_parse parse_types
parses [] e = ([], refl)
parses (type ∷ types) e = both (parse_field_type type) e (λ h. parses types h)
  where
    both :
        (o : Option ParsedFieldType)
        → elim o [ none ↦ false | some t ↦ all_parse types ] ≡ true
        → (all_parse types ≡ true → (all : List ParsedFieldType) × (parse_types types ≡ some all))
        → (all : List ParsedFieldType) × (elim o as (λ _. Option (List ParsedFieldType)) [
          | none ↦ none
          | some parsed ↦ elim (parse_types types) [ none ↦ none | some all ↦ some (parsed ∷ all) ]
        ]
            ≡ some all)
    both none e k = absurd (ground (arith, e))
    both (some parsed) e k =
        let (all, h) = k e in
        (
          parsed ∷ all,
          ap
              (λ (o : Option (List ParsedFieldType)). elim o [
                | none ↦ none
                | some all ↦ some (parsed ∷ all)
              ])
              h,
        )

second_holds : (a b : Bool) → (a && b) ≡ true → b ≡ true
second_holds true b e = e
second_holds false b e = absurd (ground (arith, e))

layout_there :
    (types : List (List ℕ))
    → all_parse types ≡ true
    → (layout : ClassLayout) × (layout_of types ≡ some layout)
unfolding layout_of
layout_there types e =
    let (all, parsed) = parses types e in
    (
      record { types = all; collections = filter is_collection_field all },
      ap
          (λ (o : Option (List ParsedFieldType)). elim o as (λ _. Option ClassLayout) [
            | none ↦ none
            | some parsed ↦
                some (record { types = parsed; collections = filter is_collection_field parsed })
          ])
          parsed,
    )

-- One class more, and its layout.
add_layout-IsPaired :
    (t : Tables) (c : ℕ) (layout : ClassLayout)
    → length t.classes ≡ suc (length t.layouts)
    → IsPaired (add_layout t c (some layout)).0
unfolding add_layout
add_layout-IsPaired t c layout h =
    let more = record t { layouts = t.layouts ++ (layout ∷ []) } in
    let paired : IsPaired more = omega (arith, length-append t.layouts (layout ∷ [])) in
    either_branch IsPaired (c == 0) (bind more 0 layout) more (bind-IsPaired more 0 layout paired)
      paired

-- What `classes.define` gives has as many classes, or one more.
define_class-length :
    (classes : List Entry) (c : ℕ) (entry : Entry) (more : List Entry)
    → define_class classes c entry ≡ some more
    → (length more ≡ length classes) ⊎ (length more ≡ suc (length classes))
unfolding define_class
define_class-length classes c entry more e = elim (Option-cases (get_elem? classes c)) [
  | inl a ↦ inr (omega (arith, length-append classes (entry ∷ []), ap length (added a)))
  | inr (x, a) ↦ inl (ap length (same x a))
]
  where
    added : get_elem? classes c ≡ none → more ≡ classes ++ (entry ∷ [])
    added a = ground (arith, a, e)

    same : (x : Entry) → get_elem? classes c ≡ some x → more ≡ classes
    same x a = ground (arith, a, e)

defined-IsPaired :
    (t : Tables) (c : ℕ) (types : List (List ℕ)) (classes : Option (List Entry))
    → all_parse types ≡ true
    → ((more : List Entry)
        → classes ≡ some more
        → (length more ≡ length t.classes) ⊎ (length more ≡ suc (length t.classes)))
    → IsPaired t
    → IsPaired (defined t c types classes).0
unfolding defined
defined-IsPaired t c types none e l h = h
defined-IsPaired t c types (some classes) e l h =
    let more = record t { classes = classes } in
    let (layout, there) = layout_there types e in
    branch_cases (λ (x : Tables × Bool). IsPaired x.0) (length classes == length t.classes)
      (more, true) _ (λ k. ground (arith, k))
      (λ k.
        subst (λ o. IsPaired (add_layout more c o).0) (sym there)
          (add_layout-IsPaired more c layout (elim (l classes refl) [
            | inl same ↦ absurd (ground (arith, k, same))
            | inr one_more ↦ omega arith
          ])))

define-IsPaired :
    (t : Tables) (c : ℕ) (entry : Entry)
    → is_define entry.fields entry.types ≡ true
    → IsPaired t
    → IsPaired (define t c entry).0
unfolding define
define-IsPaired t c entry e h =
    defined-IsPaired t c entry.types (define_class t.classes c entry)
      (second_holds _ (all_parse entry.types) e) (define_class-length t.classes c entry) h

pub IsPaired-IsKept : IsKept IsPaired
IsPaired-IsKept = record { bound = bind_ref-IsPaired; defines = define-IsPaired }
