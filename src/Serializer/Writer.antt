-- ===== src/Serializer/Writer.antt =====
-- packages/serializer/src/bytes.ts: `ByteWriter`. The buffer is a list as long as the array; the
-- platform's encoders of text and of floating point numbers are arguments.
pub mod Grow
pub mod Contents
pub mod Strings
use bungohan.Base.{
  ℕ, zero, suc, ◌+◌, ◌-◌, ◌*◌, ◌/◌, ◌%◌, Bool, List, [], ◌∷◌, ◌++◌, leb, ltb, if◌then◌else◌, length,
  set, take, drop, replicate,
}
use bungohan.Base.Int.{ℤ}
use bungohan.Serializer.Varint.{write_varint}
use bungohan.Serializer.Zigzag
use bungohan.Serializer.Text.{wire_string}

pub record ByteWriter : Type 0 where
  pub bytes : List ℕ
  pub size : ℕ

unfoldable pub init : ByteWriter
init = record { bytes = replicate 256 0; size = 0 }

-- reset
unfoldable pub reset : ByteWriter → ByteWriter
reset w = record w { size = 0 }

-- truncate
unfoldable pub truncate : ByteWriter → ℕ → ByteWriter
truncate w length = record w { size = length }

-- toBytes
unfoldable pub to_bytes : ByteWriter → List ℕ
to_bytes w = take w.size w.bytes

-- patch; an array of bytes keeps the low eight bits.
pub patch : ByteWriter → ℕ → ℕ → ByteWriter
patch w at byte = record w { bytes = set w.bytes at (byte % 256) }

-- `while (size < needed) size *= 2`. The size doubles, so `needed` is fuel enough
-- (`double-enough`).
unfoldable pub double : ℕ → ℕ → ℕ → ℕ
double zero needed size = size
double (suc fuel) needed size =
    let more = double fuel needed (size * 2) in if ltb size needed then more else size

-- Bytes copied into an array, from an offset on; what lies outside is not written.
unfoldable pub put : List ℕ → ℕ → List ℕ → List ℕ
put bytes at [] = bytes
put bytes at (b ∷ values) = put (set bytes at b) (suc at) values

-- _reserve
unfoldable pub reserve : ByteWriter → ℕ → ByteWriter
reserve w extra =
    let needed = w.size + extra in
    let grown = replicate (double needed needed (length w.bytes * 2)) 0 in
    if leb needed (length w.bytes)
    then w
    else record w { bytes = put grown 0 (take w.size w.bytes) }

-- u8
unfoldable pub u8 : ByteWriter → ℕ → ByteWriter
u8 w byte =
    let w' = reserve w 1 in record { bytes = set w'.bytes w'.size (byte % 256); size = w'.size + 1 }

-- The loop of `varint` is that of the frames' `writeVarint`.
unfoldable pub unreserved_varint : ByteWriter → ℕ → ByteWriter
unreserved_varint w value =
    let (bytes, at) = write_varint w.bytes w.size value in record { bytes = bytes; size = at }

-- varint
unfoldable pub varint : ByteWriter → ℕ → ByteWriter
varint w value = unreserved_varint (reserve w 5) value

-- zigzag
unfoldable pub zigzag : ByteWriter → ℤ → ByteWriter
zigzag w value = varint w (Zigzag.zigzag value)

module _ {F : Type 0} (is_nan : F → Bool) (put_float : F → List ℕ) where
  -- float64, where `put_float` gives the eight bytes of `DataView.setFloat64`
  unfoldable pub float64 : ByteWriter → F → ByteWriter
  float64 w value =
      let w' = reserve w 8 in
      let nan = 0 ∷ 0 ∷ 0 ∷ 0 ∷ 0 ∷ 0 ∷ 0xf8 ∷ 0x7f ∷ [] in
      let bytes = put w'.bytes w'.size (if is_nan value then nan else put_float value) in
      record { bytes = bytes; size = w'.size + 8 }

  -- float32, where `put_float` gives the four bytes of `DataView.setFloat32`
  unfoldable pub float32 : ByteWriter → F → ByteWriter
  float32 w value =
      let w' = reserve w 4 in
      let nan = 0 ∷ 0 ∷ 0xc0 ∷ 0x7f ∷ [] in
      let bytes = put w'.bytes w'.size (if is_nan value then nan else put_float value) in
      record { bytes = bytes; size = w'.size + 4 }

-- `TextEncoder.encodeInto`: the bytes that it writes of a text into an array of that length.
abbrev pub Encoder : Type 0
Encoder = List ℕ → ℕ → List ℕ

-- A short string: the length takes one byte, in front of the text that is there.
unfoldable pub short_string : Encoder → ByteWriter → List ℕ → ByteWriter
short_string encode_into w value =
    let body = encode_into value (length w.bytes - (w.size + 1)) in
    let bytes = put w.bytes (w.size + 1) body in
    record { bytes = set bytes w.size (length body % 256); size = w.size + 1 + length body }

-- A long string: the text is encoded behind five bytes, and moved down to its length.
unfoldable pub long_string : Encoder → ByteWriter → List ℕ → ByteWriter
long_string encode_into w value =
    let at = w.size + 5 in
    let body = encode_into value (length w.bytes - at) in
    let written = length body in
    let w' = varint (record w { bytes = put w.bytes at body }) written in
    let bytes = put w'.bytes w'.size (take written (drop at w'.bytes)) in
    record { bytes = bytes; size = w'.size + written }

-- string
unfoldable pub string : Encoder → ByteWriter → List ℕ → ByteWriter
string encode_into w text =
    let value = wire_string text in
    let w' = reserve w (5 + length value * 3) in
    if ltb (length value) 43
    then short_string encode_into w' value
    else long_string encode_into w' value
