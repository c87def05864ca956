-- ===== src/Serializer/Stream/Runs.antt =====
-- Runs of the byte streams, and their theorems at concrete inputs. The platform of the runs has
-- one byte for each unit, and numbers without a fraction.
use bungohan.Base.{ℕ, ◌≡◌, refl, arith, false, Option, none, some, List, [], ◌∷◌, length, map}
use bungohan.Base.Int.{pos, negsuc}
use bungohan.Serializer.Varint.{read_varint}
use bungohan.Serializer.Zigzag.{IsInt32}
use bungohan.Serializer.Text.{wire_string, IsScalar, wire_string_lem}
use bungohan.Serializer.Reader
use bungohan.Serializer.Reader.{
  ByteReader, u8, varint, count, zigzag, float64, float32, string, truncated_varint,
}
use bungohan.Serializer.Reader.Reads.{Failed, varint-read_varint}
use bungohan.Serializer.Reader.Outcomes.{Outcome}
use bungohan.Serializer.Reader.Sticky.{reads-Outcome, reads_sticky}
use bungohan.Serializer.Writer
use bungohan.Serializer.Writer.{ByteWriter, Encoder, reserve, to_bytes, truncate}
use bungohan.Serializer.Writer.Grow.{Reserved, reserve-Reserved}
use bungohan.Serializer.Writer.Strings.{IsEncoder}
use bungohan.Serializer.Stream.{
  Item, byte, number, signed, text, IsWritable, IsDecoder, kind, carried, write_all, read_all,
}
use bungohan.Serializer.Stream.Rollback.{truncate-write_all}
use bungohan.Serializer.Stream.RoundTrip.{read_all-write_all}

abbrev one_byte : List ℕ → List ℕ
one_byte value = value

abbrev one_byte_into : Encoder
one_byte_into value room = value

abbrev from_bytes : List ℕ → Option (List ℕ)
from_bytes bytes = some bytes

one_byte-IsEncoder : IsEncoder one_byte_into one_byte
one_byte-IsEncoder = record { whole = λ value room h. refl; small = λ value. omega arith }

from_bytes-IsDecoder : IsDecoder from_bytes one_byte
from_bytes-IsDecoder = record { reads = λ value h. refl; ascii = λ bytes h. refl }

-- A byte, a varint of two bytes, a negative number, and a text with a lone surrogate.
abbrev items : List Item
items = byte 7 ∷ number 300 ∷ signed (negsuc 1) ∷ text (104 ∷ 0xd800 ∷ []) ∷ []

read_all-write_all_example :
    let bytes = to_bytes (write_all one_byte_into Writer.init items) in
    read_all from_bytes (Reader.init bytes) (map kind items)
    ≡ (map carried items, record { error = none; bytes = bytes; pos = length bytes })
unfolding IsWritable IsInt32
read_all-write_all_example =
    read_all-write_all one_byte_into one_byte one_byte-IsEncoder from_bytes from_bytes-IsDecoder
      items (omega arith, (omega arith, (omega arith, (omega arith, tt))))

-- A varint that goes on behind the end of the bytes.
abbrev cut_off : ByteReader
cut_off = record { error = some (truncated_varint, 2); bytes = 7 ∷ 0xac ∷ []; pos = 2 }

abbrev whole : ByteReader
whole = record { error = none; bytes = 2 ∷ 0xac ∷ 2 ∷ []; pos = 1 }

abbrev first_byte : List ℕ → ℕ
first_byte [] = 0
first_byte (b ∷ bytes) = b

reads-Outcome_example :
    Outcome 0 whole (u8 whole)
    × Outcome 0 whole (varint whole)
    × Outcome 0 whole (count whole)
    × Outcome (pos 0) whole (zigzag whole)
    × Outcome 0 whole (float64 0 first_byte whole)
    × Outcome 0 whole (float32 0 first_byte whole)
    × Outcome [] whole (string from_bytes whole)
reads-Outcome_example =
    reads-Outcome 0 first_byte from_bytes whole
      (record { inside = omega arith; ended = λ e h. cc h })

reads_sticky_example :
    (u8 cut_off ≡ (0, cut_off))
    × (varint cut_off ≡ (0, cut_off))
    × (count cut_off ≡ (0, cut_off))
    × (zigzag cut_off ≡ (pos 0, cut_off))
    × (float64 0 first_byte cut_off ≡ (0, cut_off))
    × (float32 0 first_byte cut_off ≡ (0, cut_off))
    × (string from_bytes cut_off ≡ ([], cut_off))
reads_sticky_example =
    reads_sticky 0 first_byte from_bytes cut_off
      (record { at_end = refl; noted = ((truncated_varint, 2), refl) })

varint-read_varint_example :
    (read_varint whole.bytes whole.pos ≡ none
      → ((varint whole).0 ≡ 0) × Failed whole (varint whole).1)
    × ((v next : ℕ)
        → read_varint whole.bytes whole.pos ≡ some (v, next)
        → varint whole ≡ (v, record whole { pos = next }))
varint-read_varint_example = varint-read_varint whole

-- A pair of surrogates, a lone one, and U+0000.
abbrev odd_text : List ℕ
odd_text = 0xd83d ∷ 0xde00 ∷ 0xdc00 ∷ 0 ∷ []

wire_string_odd : wire_string odd_text ≡ 0xd83d ∷ 0xde00 ∷ 0xfffd ∷ 0xfffd ∷ []
unfolding wire_string
wire_string_odd = refl

wire_string_lem_example :
    IsScalar false (wire_string odd_text)
    × (length (wire_string odd_text) ≡ length odd_text)
    × (IsScalar false odd_text → wire_string odd_text ≡ odd_text)
wire_string_lem_example = wire_string_lem odd_text

abbrev small : ByteWriter
small = record { bytes = 9 ∷ 8 ∷ []; size = 2 }

reserve-Reserved_example : Reserved small (reserve small 7) 7
reserve-Reserved_example =
    reserve-Reserved small 7 (record { inside = omega arith; there = omega arith })

truncate-write_all_example :
    to_bytes (truncate (write_all one_byte_into small items) small.size) ≡ to_bytes small
unfolding IsWritable IsInt32
truncate-write_all_example =
    truncate-write_all one_byte_into one_byte small items one_byte-IsEncoder
      (omega arith, (omega arith, (omega arith, (omega arith, tt))))
      (record { inside = omega arith; there = omega arith })
