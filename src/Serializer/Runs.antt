-- ===== src/Serializer/Runs.antt =====
-- Runs of the serializer's functions, and its theorems at concrete inputs.
use bungohan.Base.{ℕ, ◌≡◌, refl, arith, Option, none, some, List, [], ◌∷◌}
use bungohan.Base.Int.{pos, negsuc}
use bungohan.Base.Number.{int, other}
use bungohan.Serializer.Varint.{varint_size, write_varint, read_varint}
use bungohan.Serializer.Varint.Encode.{leb128}
use bungohan.Serializer.Varint.Decode.{read_varint-write_varint}
use bungohan.Serializer.Frame.{
  ok, err, encode_failed, frame_size, write_header, set_bytes, encode_frame, read_header,
  decode_frame,
}
use bungohan.Serializer.Frame.Encode.{numbers, encode_frame_ok, encode_frame_invalid}
use bungohan.Serializer.Frame.Decode.{IsParsed, decode_frame-IsParsed}
use bungohan.Serializer.Frame.RoundTrip.{decode_frame-encode_frame}

abbrev cells : List ℕ
cells = 7 ∷ 0 ∷ 0 ∷ 9 ∷ []

varint_300 : write_varint cells 1 300 ≡ (7 ∷ 0xac ∷ 2 ∷ 9 ∷ [], 3)
unfolding write_varint
varint_300 = refl

read_300 : read_varint (7 ∷ 0xac ∷ 2 ∷ 9 ∷ []) 1 ≡ some (300, 3)
unfolding read_varint
read_300 = refl

read_above : read_varint (0xff ∷ 0xff ∷ 0xff ∷ 0xff ∷ 0x1f ∷ []) 0 ≡ none
unfolding read_varint
read_above = refl

read_varint-write_varint_example :
    read_varint (write_varint cells 1 300).0 1 ≡ some (300, (write_varint cells 1 300).1)
read_varint-write_varint_example =
    read_varint-write_varint 300 (7 ∷ []) (0 ∷ 0 ∷ []) (9 ∷ []) (omega arith)
      (unfold varint_size in omega arith)

-- A room message: type 5, its reference 300, two bytes of body.
abbrev message : List ℕ
message = 5 ∷ 0xac ∷ 2 ∷ 1 ∷ 2 ∷ []

abbrev table : ℕ → Option ℕ
table t = some 1

encode_message : encode_frame (int (pos 5)) (numbers (300 ∷ [])) (some (1 ∷ 2 ∷ [])) ≡ ok message
unfolding encode_frame frame_size write_header set_bytes varint_size write_varint
encode_message = refl

decode_message :
    decode_frame message table ≡ ok (record { type = 5; header = 300 ∷ []; body = 1 ∷ 2 ∷ [] })
unfolding decode_frame read_header read_varint
decode_message = refl

encode_frame_ok_example :
    encode_frame (int (pos 5)) (numbers (300 ∷ [])) (some (1 ∷ 2 ∷ [])) ≡ ok message
unfolding leb128
encode_frame_ok_example =
    encode_frame_ok 5 (300 ∷ []) (some (1 ∷ 2 ∷ [])) (omega arith) (omega arith)

encode_frame_invalid_example : encode_frame other (int (negsuc 0) ∷ []) none ≡ err encode_failed
encode_frame_invalid_example = encode_frame_invalid other (int (negsuc 0) ∷ []) none (λ v. cc (v.2))

decode_frame-IsParsed_example :
    IsParsed message table (record { type = 5; header = 300 ∷ []; body = 1 ∷ 2 ∷ [] })
decode_frame-IsParsed_example = decode_frame-IsParsed message table _ decode_message

decode_frame-encode_frame_example :
    (bytes : List ℕ) × (encode_frame (int (pos 5)) (numbers (300 ∷ [])) (some (1 ∷ 2 ∷ []))
      ≡ ok bytes)
    × (decode_frame bytes table ≡ ok (record { type = 5; header = 300 ∷ []; body = 1 ∷ 2 ∷ [] }))
decode_frame-encode_frame_example =
    decode_frame-encode_frame 5 (300 ∷ []) (some (1 ∷ 2 ∷ [])) table (omega arith) (omega arith)
      refl
