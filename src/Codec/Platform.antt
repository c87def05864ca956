-- ===== src/Codec/Platform.antt =====
-- What the codec takes from the platform: numbers, their bytes in a `DataView`, and the text
-- encoders. A number is an element of `F`; `view` tells its sign, whole part and fraction.
use bungohan.Base.{ℕ, ◌≡◌, Bool, Option, none, some, List, length, if◌then◌else◌}
use bungohan.Base.Int.{ℤ, pos, negsuc}
use bungohan.Numbers.{Double, trunc, is_integer, IntKind, is_int_of, uint32}
use bungohan.Serializer.Writer.{Encoder}
use bungohan.Serializer.Writer.Strings.{IsEncoder}
use bungohan.Serializer.Stream.{IsDecoder}

pub record Platform (F : Type 0) : Type 0 where
  pub view : F → Double
  pub of_int : ℤ → F
  pub is_nan : F → Bool
  pub put64 : F → List ℕ
  pub get64 : List ℕ → F
  pub put32 : F → List ℕ
  pub get32 : List ℕ → F
  pub encode_into : Encoder
  pub decode : List ℕ → Option (List ℕ)

-- What is documented of it.
pub record IsPlatform {F : Type 0} (p : Platform F) (encode : List ℕ → List ℕ) : Type 0 where
  pub eight : (x : F) → length (p.put64 x) ≡ 8
  pub four : (x : F) → length (p.put32 x) ≡ 4
  pub encoder : IsEncoder p.encode_into encode
  pub decoder : IsDecoder p.decode encode

-- A number that is an integer 0 or more.
abbrev pub magnitude : ℤ → Option ℕ
magnitude (pos n) = some n
magnitude (negsuc n) = none

-- The integer of a number, where `isIntOf` accepts it.
abbrev pub int_of : {F : Type 0} → Platform F → F → IntKind → Option ℤ
int_of p x kind = if is_int_of (some (p.view x)) kind then some (trunc (p.view x)) else none

-- isUint32
abbrev pub as_uint32 : {F : Type 0} → Platform F → F → Option ℕ
as_uint32 p x = elim (int_of p x uint32) [ none ↦ none | some z ↦ magnitude z ]

-- A number that can be an index of an array: a whole number, 0 or more.
abbrev pub as_index : {F : Type 0} → Platform F → F → Option ℕ
as_index p x = if is_integer (p.view x) then magnitude (trunc (p.view x)) else none
