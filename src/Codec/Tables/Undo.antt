-- ===== src/Codec/Tables/Undo.antt =====
-- schema-codec.ts, `Tables`: the undo journal, and what leads back to the tables of before.
use bungohan.Base.{
  ℕ, zero, suc, ◌≤◌, ◌≡◌, refl, sym, ap, ◌∙◌, Bool, true, Option, none, some, List, [], ◌∷◌, ◌++◌,
  length, take, arith, Option-cases, inl, inr, either_branch, length-take, ◌==◌, get_elem?,
}
use bungohan.Base.Dict
use bungohan.Base.Dict.{Dict}
use bungohan.Base.Keys.{Eq, =?_iff, number_keys}
use bungohan.Codec.FieldType.{ParsedFieldType}
use bungohan.Codec.Tables.Kept.{IsKept}
use bungohan.Codec.Tables.{
  Tables, Entry, ClassLayout, Target, instance_of, collection, begin, rollback, undo_all,
  set_target, bind_collections, bind, add_layout, defined, define, define_class, layout_of,
  bind_ref,
}

module _ {ℓ κ} {K : Type ℓ} {V : Type κ} ⦃e : Eq K⦄ where
  delete_absent : (m : Dict K V) (k : K) → Dict.get m k ≡ none → Dict.delete m k ≡ m
  unfolding Dict.get Dict.delete
  delete_absent [] k h = refl
  delete_absent ((j, w) ∷ m) k h = ground (arith, delete_absent m k)

  -- A key that was not there is taken away again.
  delete-set :
      (m : Dict K V) (k : K) (v : V) → Dict.get m k ≡ none → Dict.delete (Dict.set m k v) k ≡ m
  unfolding Dict.get Dict.delete Dict.set
  delete-set [] k v h = ground (arith, =?_iff k k)
  delete-set ((j, w) ∷ m) k v h = ground (arith, delete-set m k v)

  -- A value that was there is put back in its place.
  set-set_back :
      (m : Dict K V) (k : K) (v w : V) → Dict.get m k ≡ some w → Dict.set (Dict.set m k v) k w ≡ m
  unfolding Dict.get Dict.set
  set-set_back [] k v w h = cc h
  set-set_back ((j, u) ∷ m) k v w h = ground (arith, set-set_back m k v w)

-- The journal of the second tables leads back to the first, whose sizes the mark is.
pub record Undoable (t t' : Tables) : Type 0 where
  pub targets : undo_all t'.undo t'.targets ≡ t.targets
  pub layouts : take t'.class_mark t'.layouts ≡ t.layouts
  pub classes : take t'.class_mark t'.classes ≡ t.classes
  marks_layouts : t'.class_mark ≡ length t.layouts
  marks_classes : t'.class_mark ≡ length t.classes

take_all : {A : Type 0} (xs : List A) (n : ℕ) → n ≡ length xs → take n xs ≡ xs
take_all [] zero h = refl
take_all [] (suc n) h = refl
take_all (x ∷ xs) zero h = absurd (omega arith)
take_all (x ∷ xs) (suc n) h = ap (◌∷◌ x) (take_all xs n (omega arith))

pub begin-Undoable : (t : Tables) → length t.classes ≡ length t.layouts → Undoable t (begin t)
unfolding begin undo_all
begin-Undoable t e = record {
  targets = refl;
  layouts = take_all t.layouts _ refl;
  classes = take_all t.classes _ (sym e);
  marks_layouts = refl;
  marks_classes = sym e;
}

-- What `rollback` gives back.
pub rollback_same :
    (t t' : Tables)
    → Undoable t t'
    → ((rollback t').classes ≡ t.classes)
      × ((rollback t').layouts ≡ t.layouts)
      × ((rollback t').targets ≡ t.targets)
unfolding rollback
rollback_same t t' u = (u.classes, u.layouts, u.targets)

undo_one :
    (undo : List (ℕ × Option Target)) (targets : Dict ℕ Target) (ref : ℕ) (target : Target)
    (o : Option Target)
    → Dict.get targets ref ≡ o
    → undo_all ((ref, o) ∷ undo) (Dict.set targets ref target) ≡ undo_all undo targets
unfolding undo_all
undo_one undo targets ref target none e = ap (undo_all undo) (delete-set targets ref target e)
undo_one undo targets ref target (some old) e =
    ap (undo_all undo) (set-set_back targets ref target old e)

set_target-Undoable :
    (t t' : Tables) (ref : ℕ) (target : Target)
    → Undoable t t'
    → Undoable t (set_target t' ref target)
unfolding set_target
set_target-Undoable t t' ref target u = record {
  targets = undo_one t'.undo t'.targets ref target _ refl ∙ u.targets;
  layouts = u.layouts;
  classes = u.classes;
  marks_layouts = u.marks_layouts;
  marks_classes = u.marks_classes;
}

bind_collections-Undoable :
    (t t' : Tables) (next : ℕ) (types : List ParsedFieldType)
    → Undoable t t'
    → Undoable t (bind_collections t' next types)
unfolding bind_collections
bind_collections-Undoable t t' next [] u = u
bind_collections-Undoable t t' next (type ∷ types) u =
    bind_collections-Undoable t (set_target t' next (collection type)) (suc next) types
      (set_target-Undoable t t' next (collection type) u)

bind-Undoable :
    (t t' : Tables) (ref : ℕ) (layout : ClassLayout)
    → Undoable t t'
    → Undoable t (bind t' ref layout)
unfolding bind
bind-Undoable t t' ref layout u =
    bind_collections-Undoable t _ (suc ref) layout.collections
      (set_target-Undoable t t' ref (instance_of layout) u)

bind_ref-Undoable : (t t' : Tables) (c ref : ℕ) → Undoable t t' → Undoable t (bind_ref t' c ref).0
unfolding bind_ref
bind_ref-Undoable t t' c ref u = elim (Option-cases (get_elem? t'.layouts c)) [
  | inl e ↦ rw (e, bind_ref) u
  | inr (layout, e) ↦
      rw (e, bind_ref)
        (either_branch (λ (x : Tables × Bool). Undoable t x.0) _ _ _ u
          (bind-Undoable t t' ref layout u))
]

take-append_long :
    {A : Type 0} (n : ℕ) (xs ys : List A) → n ≤ length xs → take n (xs ++ ys) ≡ take n xs
take-append_long zero xs ys h = refl
take-append_long (suc n) [] ys h = absurd (omega arith)
take-append_long (suc n) (x ∷ xs) ys h = ap (◌∷◌ x) (take-append_long n xs ys (omega arith))

-- Tables that have more classes and layouts than the first have no fewer than the mark.
inside : {A : Type 0} (n : ℕ) (xs ys : List A) → take n xs ≡ ys → n ≡ length ys → n ≤ length xs
inside n xs ys e h = omega (arith, length-take n xs, ap length e)

define_class-take :
    (classes classes' : List Entry) (c : ℕ) (entry : Entry) (n : ℕ)
    → n ≤ length classes
    → define_class classes c entry ≡ some classes'
    → take n classes' ≡ take n classes
unfolding define_class
define_class-take classes classes' c entry n h e = elim (Option-cases (get_elem? classes c)) [
  | inl a ↦ ground (arith, a, take-append_long n classes (entry ∷ []) h)
  | inr (x, a) ↦ ground (arith, a)
]

add_layout-Undoable :
    (t t' : Tables) (c : ℕ) (layout : Option ClassLayout)
    → Undoable t t'
    → Undoable t (add_layout t' c layout).0
unfolding add_layout
add_layout-Undoable t t' c none u = u
add_layout-Undoable t t' c (some layout) u =
    let more = record t' { layouts = t'.layouts ++ (layout ∷ []) } in
    let v : Undoable t more = record {
      targets = u.targets;
      layouts =
          take-append_long t'.class_mark t'.layouts (layout ∷ [])
            (inside t'.class_mark t'.layouts t.layouts u.layouts u.marks_layouts)
          ∙ u.layouts;
      classes = u.classes;
      marks_layouts = u.marks_layouts;
      marks_classes = u.marks_classes;
    } in
    either_branch (Undoable t) (c == 0) (bind more 0 layout) more (bind-Undoable t more 0 layout v)
      v

defined-Undoable :
    (t t' : Tables) (c : ℕ) (entry : Entry) (classes : Option (List Entry))
    → define_class t'.classes c entry ≡ classes
    → Undoable t t'
    → Undoable t (defined t' c entry.types classes).0
unfolding defined
defined-Undoable t t' c entry none e u = u
defined-Undoable t t' c entry (some classes) e u =
    let more = record t' { classes = classes } in
    let v : Undoable t more = record {
      targets = u.targets;
      layouts = u.layouts;
      classes =
          define_class-take t'.classes classes c entry t'.class_mark
            (inside t'.class_mark t'.classes t.classes u.classes u.marks_classes) e
          ∙ u.classes;
      marks_layouts = u.marks_layouts;
      marks_classes = u.marks_classes;
    } in
    either_branch (λ (x : Tables × Bool). Undoable t x.0) (length classes == length t'.classes)
      (more, true) _ v (add_layout-Undoable t more c (layout_of entry.types) v)

define-Undoable :
    (t t' : Tables) (c : ℕ) (entry : Entry) → Undoable t t' → Undoable t (define t' c entry).0
unfolding define
define-Undoable t t' c entry u = defined-Undoable t t' c entry _ refl u

pub Undoable-IsKept : (t : Tables) → IsKept (Undoable t)
Undoable-IsKept t = record {
  bound = λ t' c ref u. bind_ref-Undoable t t' c ref u;
  defines = λ t' c entry h u. define-Undoable t t' c entry u;
}
