-- ===== src/Serializer/Stream.antt =====
-- packages/serializer/src/bytes.ts: what a `ByteWriter` writes, a `ByteReader` reads back.
pub mod RoundTrip
pub mod Rollback
mod Runs
use bungohan.Base.{
  ℕ, zero, suc, ◌+◌, ◌*◌, ◌≤◌, ◌<◌, ◌≡◌, false, Option, none, some, List, [], ◌∷◌, ◌++◌, length,
  All, map,
}
use bungohan.Base.Int.{ℤ}
use bungohan.Serializer.Varint.{max_varint, IsByte}
use bungohan.Serializer.Varint.Encode.{leb128}
use bungohan.Serializer.Zigzag
use bungohan.Serializer.Zigzag.{IsInt32}
use bungohan.Serializer.Text.{wire_string, IsScalar}
use bungohan.Serializer.Reader
use bungohan.Serializer.Reader.{ByteReader}
use bungohan.Serializer.Writer
use bungohan.Serializer.Writer.{ByteWriter, Encoder}
use bungohan.Serializer.Writer.Strings.{text_bytes}

-- What is written: a byte, a number of 32 bits, an integer of 32 bits, a text.
pub data Item : Type 0 where
  byte number : ℕ → Item
  signed : ℤ → Item
  text : List ℕ → Item

pub IsWritable : Item → Type 0
IsWritable (byte b) = IsByte b
IsWritable (number n) = n ≤ max_varint
IsWritable (signed z) = IsInt32 z
IsWritable (text s) = 3 * length s ≤ max_varint

-- What comes back of an item: of a text, its form on the wire.
pub carried : Item → Item
carried (byte b) = byte b
carried (number n) = number n
carried (signed z) = signed z
carried (text s) = text (wire_string s)

pub write_item : Encoder → ByteWriter → Item → ByteWriter
write_item encode_into w (byte b) = Writer.u8 w b
write_item encode_into w (number n) = Writer.varint w n
write_item encode_into w (signed z) = Writer.zigzag w z
write_item encode_into w (text s) = Writer.string encode_into w s

pub write_all : Encoder → ByteWriter → List Item → ByteWriter
write_all encode_into w [] = w
write_all encode_into w (i ∷ items) = write_all encode_into (write_item encode_into w i) items

-- Which read an item is read by.
pub data Kind : Type 0 where
  a_byte a_number a_signed a_text : Kind

pub kind : Item → Kind
kind (byte b) = a_byte
kind (number n) = a_number
kind (signed z) = a_signed
kind (text s) = a_text

pub read_item : (List ℕ → Option (List ℕ)) → ByteReader → Kind → Item × ByteReader
read_item slow r a_byte = let (b, r') = Reader.u8 r in (byte b, r')
read_item slow r a_number = let (n, r') = Reader.varint r in (number n, r')
read_item slow r a_signed = let (z, r') = Reader.zigzag r in (signed z, r')
read_item slow r a_text = let (s, r') = Reader.string slow r in (text s, r')

pub read_all : (List ℕ → Option (List ℕ)) → ByteReader → List Kind → List Item × ByteReader
read_all slow r [] = ([], r)
read_all slow r (k ∷ kinds) =
    let (i, r') = read_item slow r k in
    let (items, r'') = read_all slow r' kinds in (i ∷ items, r'')

-- The bytes of an item.
pub item_bytes : (List ℕ → List ℕ) → Item → List ℕ
item_bytes encode (byte b) = b ∷ []
item_bytes encode (number n) = leb128 4 n
item_bytes encode (signed z) = leb128 4 (Zigzag.zigzag z)
item_bytes encode (text s) = text_bytes (encode (wire_string s))

pub all_bytes : (List ℕ → List ℕ) → List Item → List ℕ
all_bytes encode [] = []
all_bytes encode (i ∷ items) = item_bytes encode i ++ all_bytes encode items

-- `TextDecoder` as documented: it reads what the encoder wrote of a text without lone surrogates,
-- and bytes below 0x80 are the units themselves.
pub record IsDecoder (slow : List ℕ → Option (List ℕ)) (encode : List ℕ → List ℕ) : Type 0 where
  pub reads : (value : List ℕ) → IsScalar false value → slow (encode value) ≡ some value
  pub ascii : (bytes : List ℕ) → All (λ b. b < 0x80) bytes → slow bytes ≡ some bytes
