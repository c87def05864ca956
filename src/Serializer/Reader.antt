-- ===== src/Serializer/Reader.antt =====
-- packages/serializer/src/bytes.ts: `ByteReader`. The platform's decoders of text and of floating
-- point numbers are arguments.
pub mod Reads
pub mod Outcomes
pub mod Sticky
pub mod Steps
use bungohan.Base.{
  ℕ, zero, suc, ◌+◌, ◌-◌, ◌*◌, ◌<◌, Bool, Option, none, some, List, [], leb, ltb, ◌==◌,
  if◌then◌else◌, length, get_elem?, take, drop, bit_and,
}
use bungohan.Base.Int.{ℤ}
use bungohan.Serializer.Varint.{max_varint}
use bungohan.Serializer.Zigzag.{unzigzag}
use bungohan.Serializer.Text.{decode_utf8}

-- The messages of `fail`.
pub data Message : Type 0 where
  unexpected_end truncated_varint varint_above varint_longer : Message
  count_exceeds : ℕ → ℕ → Message
  truncated_float64 truncated_float32 invalid_utf8 : Message
  -- a message of the codec that reads
  codec_error : Message

-- The message and the position it names.
pub record ByteReader : Type 0 where
  pub error : Option (Message × ℕ)
  pub bytes : List ℕ
  pub pos : ℕ

-- constructor
unfoldable pub init : List ℕ → ByteReader
init bytes = record { error = none; bytes = bytes; pos = 0 }

-- remaining
unfoldable pub remaining : ByteReader → ℕ
remaining r = length r.bytes - r.pos

abbrev first_error : Option (Message × ℕ) → Message → ℕ → Option (Message × ℕ)
first_error none message pos = some (message, pos)
first_error (some e) message pos = some e

-- fail
unfoldable pub fail : ByteReader → Message → ByteReader
fail r message = record r { error = first_error r.error message r.pos; pos = length r.bytes }

abbrev advance : ByteReader → ℕ → ByteReader
advance r n = record r { pos = r.pos + n }

-- u8
unfoldable pub u8 : ByteReader → ℕ × ByteReader
u8 r = elim (get_elem? r.bytes r.pos) [
  | none ↦ (0, fail r unexpected_end)
  | some byte ↦ (byte, advance r 1)
]

-- The loop of `varint`, with `left = 5 - i`.
unfoldable pub varint_loop : ℕ → ByteReader → ℕ → ℕ → ℕ × ByteReader
varint_loop zero r value scale = (0, fail r varint_longer)
varint_loop (suc left) r value scale = elim (get_elem? r.bytes r.pos) [
  | none ↦ (0, fail r truncated_varint)
  | some byte ↦
      let r' = advance r 1 in
      let value' = value + bit_and byte 0x7f * scale in
      let more = varint_loop left r' value' (scale * 0x80) in
      if bit_and byte 0x80 == 0
      then (if ltb max_varint value' then (0, fail r' varint_above) else (value', r'))
      else more
]

-- varint
unfoldable pub varint : ByteReader → ℕ × ByteReader
varint r = varint_loop 5 r 0 1

-- count
unfoldable pub count : ByteReader → ℕ × ByteReader
count r =
    let (n, r') = varint r in
    if ltb (remaining r') n then (0, fail r' (count_exceeds n (remaining r'))) else (n, r')

-- zigzag
unfoldable pub zigzag : ByteReader → ℤ × ByteReader
zigzag r = let (n, r') = varint r in (unzigzag n, r')

-- The bytes at the position.
abbrev slice : ByteReader → ℕ → List ℕ
slice r n = take n (drop r.pos r.bytes)

module _ {F : Type 0} (zero_float : F) (get_float : List ℕ → F) where
  -- float64, where `get_float` is `DataView.getFloat64` of eight bytes
  unfoldable pub float64 : ByteReader → F × ByteReader
  float64 r =
      if ltb (remaining r) 8
      then (zero_float, fail r truncated_float64)
      else (get_float (slice r 8), advance r 8)

  -- float32, where `get_float` is `DataView.getFloat32` of four bytes
  unfoldable pub float32 : ByteReader → F × ByteReader
  float32 r =
      if ltb (remaining r) 4
      then (zero_float, fail r truncated_float32)
      else (get_float (slice r 4), advance r 4)

-- What `string` does with the text that was decoded from `n` bytes, or with `undefined`.
unfoldable pub text_read : Option (List ℕ) → ℕ → ByteReader → List ℕ × ByteReader
text_read none n r = ([], fail r invalid_utf8)
text_read (some text) n r = (text, advance r n)

-- `string` behind its length.
unfoldable pub string_body : (List ℕ → Option (List ℕ)) → ℕ × ByteReader → List ℕ × ByteReader
string_body slow (n, r) = elim r.error [
  | some e ↦ ([], r)
  | none ↦ text_read (decode_utf8 slow (slice r n)) n r
]

-- string
unfoldable pub string : (List ℕ → Option (List ℕ)) → ByteReader → List ℕ × ByteReader
string slow r = string_body slow (count r)
