-- ===== src/Serializer/Varint.antt =====
-- packages/serializer/src/frame.ts, the varints of frame headers. A `Uint8Array` is a list of
-- numbers; a value is a number in 0..2^32-1.
pub mod Encode
pub mod Decode
use bungohan.Base.{
  ℕ, zero, suc, ◌+◌, ◌*◌, ◌/◌, ◌%◌, ◌<◌, bit_and, bit_or, true, false, Option, none, some, List,
  ltb, leb, ◌==◌, if◌then◌else◌, get_elem?, set,
}

-- MAX_VARINT
abbrev pub max_varint : ℕ
max_varint = 0xffff_ffff

abbrev pub IsByte : ℕ → Type 0
IsByte b = b < 256

-- The loops `while (rest >= 0x80)`: a round divides `rest` by 128, so `rest` itself is fuel
-- enough (`var_size_loop_enough`, `write_loop-splice`), and with no fuel `rest` is 0.
unfoldable pub var_size_loop : ℕ → ℕ → ℕ → ℕ
var_size_loop zero rest size = size
var_size_loop (suc fuel) rest size = elim (leb 0x80 rest) [
  | true ↦ var_size_loop fuel (rest / 0x80) (size + 1)
  | false ↦ size
]

-- varintSize
unfoldable pub varint_size : ℕ → ℕ
unfolding var_size_loop
varint_size value = var_size_loop value value 1

-- `out[at++] = (rest % 0x80) | 0x80`, then the last byte; the result is the array and `at`.
unfoldable pub write_loop : ℕ → List ℕ → ℕ → ℕ → List ℕ × ℕ
write_loop zero out at rest = (set out at rest, at + 1)
write_loop (suc fuel) out at rest = elim (leb 0x80 rest) [
  | true ↦ write_loop fuel (set out at (bit_or (rest % 0x80) 0x80)) (at + 1) (rest / 0x80)
  | false ↦ (set out at rest, at + 1)
]

-- writeVarint
unfoldable pub write_varint : List ℕ → ℕ → ℕ → List ℕ × ℕ
unfolding write_loop
write_varint out offset value = write_loop value out offset value

-- The loop `for (let i = 0; i < 5; i++)`, with `left = 5 - i` and `at = offset + i`.
unfoldable pub read_loop : ℕ → List ℕ → ℕ → ℕ → ℕ → Option (ℕ × ℕ)
read_loop zero bytes at value scale = none
read_loop (suc left) bytes at value scale = elim (get_elem? bytes at) [
  | none ↦ none
  | some byte ↦
      let value' = value + bit_and byte 0x7f * scale in
      let more = read_loop left bytes (at + 1) value' (scale * 0x80) in
      if bit_and byte 0x80 == 0
      then (if ltb max_varint value' then none else some (value', at + 1))
      else more
]

-- readVarint
unfoldable pub read_varint : List ℕ → ℕ → Option (ℕ × ℕ)
unfolding read_loop
read_varint bytes offset = read_loop 5 bytes offset 0 1
