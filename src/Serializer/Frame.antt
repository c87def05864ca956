-- ===== src/Serializer/Frame.antt =====
-- packages/serializer/src/frame.ts: `encodeFrame` and `decodeFrame`.
pub mod Encode
pub mod Decode
pub mod RoundTrip
use bungohan.Base.{
  ℕ, zero, suc, ◌+◌, Option, none, some, List, [], ◌∷◌, ◌++◌, leb, if◌then◌else◌, length, set, take,
  drop, replicate, get_elem?,
}
use bungohan.Base.Int.{pos}
use bungohan.Base.Number.{Number, int, integer_upto}
use bungohan.Serializer.Varint.{max_varint, varint_size, write_varint, read_varint}

-- The codes of a `SerializerError` (errors.ts).
pub data Error : Type 0 where
  encode_failed decode_failed : Error

-- A `Result`, or an exception: `Uint8Array.set` throws where the array is too short.
pub data Outcome {ℓ} (A : Type ℓ) : Type ℓ where
  ok : A → Outcome A
  err : Error → Outcome A
  throws : Outcome A

pub record Frame : Type 0 where
  pub type : ℕ
  pub header : List ℕ
  pub body : List ℕ

-- isHeaderValue, with the number that was tested.
abbrev pub header_value : Number → Option ℕ
header_value = integer_upto max_varint

-- The first loop of `encodeFrame`: the size so far, and the values that passed the check.
unfoldable pub frame_size : List Number → ℕ → Option (ℕ × List ℕ)
frame_size [] size = some (size, [])
frame_size (value ∷ header) size = elim (header_value value) [
  | none ↦ none
  | some v ↦ elim (frame_size header (size + varint_size v)) [
    | none ↦ none
    | some (total, values) ↦ some (total, v ∷ values)
  ]
]

-- The second loop: `at = writeVarint(out, at, value)`.
unfoldable pub write_header : List ℕ → ℕ → List ℕ → List ℕ × ℕ
write_header out at [] = (out, at)
write_header out at (v ∷ values) =
    let (out', at') = write_varint out at v in write_header out' at' values

-- `out.set(body, at)`
unfoldable pub set_bytes : List ℕ → ℕ → List ℕ → Outcome (List ℕ)
set_bytes out at body =
    if leb (at + length body) (length out)
    then ok (take at out ++ (body ++ drop (at + length body) out))
    else throws

abbrev pub byte_length : Option (List ℕ) → ℕ
byte_length none = 0
byte_length (some body) = length body

pub write_body : List ℕ → ℕ → Option (List ℕ) → Outcome (List ℕ)
write_body out at none = ok out
write_body out at (some body) = set_bytes out at body

-- What `encodeFrame` does once the type and the header have passed: `new Uint8Array(size)`,
-- the type, the header, the body.
pub build : ℕ → ℕ → List ℕ → Option (List ℕ) → Outcome (List ℕ)
unfolding write_body
build size type values body =
    let (out, at) = write_header (set (replicate size 0) 0 type) 1 values in write_body out at body

-- encodeFrame
unfoldable pub encode_frame : Number → List Number → Option (List ℕ) → Outcome (List ℕ)
unfolding build
encode_frame type header body = elim (integer_upto 255 type) [
  | none ↦ err encode_failed
  | some t ↦ elim (frame_size header (1 + byte_length body)) [
    | none ↦ err encode_failed
    | some (size, values) ↦ build size t values body
  ]
]

-- The loop of `decodeFrame` over the header: the values in order, and the offset behind them.
unfoldable pub read_header : ℕ → List ℕ → ℕ → Option (List ℕ × ℕ)
read_header zero bytes at = some ([], at)
read_header (suc count) bytes at = elim (read_varint bytes at) [
  | none ↦ none
  | some (v, next) ↦ elim (read_header count bytes next) [
    | none ↦ none
    | some (values, end) ↦ some (v ∷ values, end)
  ]
]

-- decodeFrame; `header_count` is the table of the caller, with `none` for an unknown type.
unfoldable pub decode_frame : List ℕ → (ℕ → Option ℕ) → Outcome Frame
decode_frame bytes header_count = elim (get_elem? bytes 0) [
  | none ↦ err decode_failed
  | some type ↦ elim (header_count type) [
    | none ↦ err decode_failed
    | some count ↦ elim (read_header count bytes 1) [
      | none ↦ err decode_failed
      | some (header, at) ↦ ok (record { type = type; header = header; body = drop at bytes })
    ]
  ]
]
