-- ===== src/Serializer/Text.antt =====
-- packages/serializer/src/bytes.ts: the strings of the protocol, `wireString` and `decodeUtf8`.
-- A string is the list of its UTF-16 code units. `TextEncoder` and `TextDecoder` are the
-- platform's: the slow path of the decoder is an argument.
use bungohan.Base.{
  ℕ, suc, ◌<◌, ◌≡◌, refl, sym, subst, ap, inl, inr, Option-cases, Bool, false, not, ◌&&◌, ◌||◌,
  Option, none, some, List, [], ◌∷◌, arith, leb, ◌==◌, if◌then◌else◌, length, All, Bool-cases,
}

abbrev pub is_high : ℕ → Bool
is_high u = leb 0xd800 u && leb u 0xdbff

abbrev pub is_low : ℕ → Bool
is_low u = leb 0xdc00 u && leb u 0xdfff

-- MAY_NEED_REPLACING.test(value)
unfoldable pub may_need_replacing : List ℕ → Bool
may_need_replacing [] = false
may_need_replacing (u ∷ text) = u == 0 || is_high u || is_low u || may_need_replacing text

-- The look-ahead of NOT_SCALAR.
abbrev low_follows : List ℕ → Bool
low_follows [] = false
low_follows (u ∷ text) = is_low u

-- NOT_SCALAR at a unit, given whether a high surrogate stands before it, and what follows.
abbrev not_scalar : Bool → ℕ → List ℕ → Bool
not_scalar after_high u text =
    u == 0 || (is_high u && not (low_follows text)) || (is_low u && not after_high)

-- value.replace(NOT_SCALAR, "\ufffd")
unfoldable pub replace_units : Bool → List ℕ → List ℕ
replace_units after_high [] = []
replace_units after_high (u ∷ text) =
    (if not_scalar after_high u text then 0xfffd else u) ∷ replace_units (is_high u) text

-- wireString
unfoldable pub wire_string : List ℕ → List ℕ
unfolding may_need_replacing replace_units
wire_string value = if may_need_replacing value then replace_units false value else value

-- The loop of `decodeUtf8` over bytes that are all below 0x80.
unfoldable pub ascii_loop : List ℕ → Option (List ℕ)
ascii_loop [] = some []
ascii_loop (byte ∷ bytes) =
    let rest = ascii_loop bytes in
    if leb 0x80 byte then none else elim rest [ none ↦ none | some ascii ↦ some (byte ∷ ascii) ]

-- decodeUtf8, with `decodeUtf8Slow`.
unfoldable pub decode_utf8 : (List ℕ → Option (List ℕ)) → List ℕ → Option (List ℕ)
unfolding ascii_loop
decode_utf8 slow bytes =
    if leb (length bytes) 32
    then elim (ascii_loop bytes) [ none ↦ slow bytes | some ascii ↦ some ascii ]
    else slow bytes

-- No unit is 0, and surrogates come in pairs: what is left of a pair is a low surrogate.
pub IsScalar : Bool → List ℕ → Type 0
IsScalar after_high [] = after_high ≡ false
IsScalar after_high (u ∷ text) =
    (u == 0 ≡ false) × (is_low u ≡ after_high) × IsScalar (is_high u) text

length-replace_units : (b : Bool) (text : List ℕ) → length (replace_units b text) ≡ length text
unfolding replace_units
length-replace_units b [] = refl
length-replace_units b (u ∷ text) = ap suc (length-replace_units (is_high u) text)

IsScalar-low_follows : (b : Bool) (text : List ℕ) → IsScalar b text → low_follows text ≡ b
unfolding IsScalar
IsScalar-low_follows b [] h = sym h
IsScalar-low_follows b (u ∷ text) (z, l, h) = l

-- A text of scalars is left as it is.
replace_units-IsScalar : (b : Bool) (text : List ℕ) → IsScalar b text → replace_units b text ≡ text
unfolding replace_units IsScalar
replace_units-IsScalar b [] h = refl
replace_units-IsScalar b (u ∷ text) (z, l, h) =
    let kept : not_scalar b u text ≡ false =
      ground (arith, z, l, IsScalar-low_follows (is_high u) text h) in
    rw (kept, replace_units-IsScalar (is_high u) text h) refl

scalar_unit :
    (b : Bool) (u : ℕ) (text : List ℕ)
    → let v = if not_scalar b u text then 0xfffd else u in
      (v == 0 ≡ false)
      × (is_low v ≡ (b && is_low u))
      × (is_high v ≡ (is_high u && low_follows text))
scalar_unit b u text = ground arith

-- What is replaced is scalar; behind a high surrogate it starts with a low one just if the text does.
replaced-IsScalar :
    (b : Bool) (text : List ℕ) → IsScalar (b && low_follows text) (replace_units b text)
unfolding replace_units IsScalar
replaced-IsScalar b [] = ground arith
replaced-IsScalar b (u ∷ text) =
    let (z, l, h) = scalar_unit b u text in
    (
      z,
      l,
      subst (λ c. IsScalar c (replace_units (is_high u) text)) (sym h)
          (replaced-IsScalar (is_high u) text),
    )

unchanged-IsScalar : (text : List ℕ) → may_need_replacing text ≡ false → IsScalar false text
unfolding may_need_replacing IsScalar
unchanged-IsScalar [] h = refl
unchanged-IsScalar (u ∷ text) h =
    let high : is_high u ≡ false = ground arith in
    (ground arith, ground arith, rw high (unchanged-IsScalar text (ground arith)))

-- The text that goes on the wire has no U+0000 and no lone surrogate and is as long as the value;
-- a value that has none either is not changed.
pub wire_string_lem :
    (value : List ℕ)
    → IsScalar false (wire_string value)
      × (length (wire_string value) ≡ length value)
      × (IsScalar false value → wire_string value ≡ value)
unfolding wire_string
wire_string_lem value = elim (Bool-cases (may_need_replacing value)) [
  | inl e ↦ rw e (
    replaced-IsScalar false value,
    length-replace_units false value,
    replace_units-IsScalar false value,
  )
  | inr e ↦ rw e (unchanged-IsScalar value e, refl, λ h. refl)
]

ascii_loop-All :
    (bytes ascii : List ℕ)
    → ascii_loop bytes ≡ some ascii
    → All (λ b. b < 0x80) bytes × (ascii ≡ bytes)
unfolding ascii_loop
ascii_loop-All [] ascii h = (tt, cc)
ascii_loop-All (b ∷ bytes) ascii h = elim (Option-cases (ascii_loop bytes)) [
  | inl e ↦ ground (arith, e)
  | inr (rest, e) ↦ ground (arith, e, ascii_loop-All bytes rest e)
]

-- The short path of `decodeUtf8` gives what the decoder gives, if that reads bytes below 0x80
-- as themselves.
pub decode_utf8-slow :
    (slow : List ℕ → Option (List ℕ))
    → ((bytes : List ℕ) → All (λ b. b < 0x80) bytes → slow bytes ≡ some bytes)
    → (bytes : List ℕ) → decode_utf8 slow bytes ≡ slow bytes
unfolding decode_utf8
decode_utf8-slow slow ascii bytes = elim (Option-cases (ascii_loop bytes)) [
  | inl e ↦ rw e (ground arith)
  | inr (text, e) ↦
      let (all, same) = ascii_loop-All bytes text e in rw e (ground (arith, same, ascii bytes all))
]
