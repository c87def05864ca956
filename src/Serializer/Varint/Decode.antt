-- ===== src/Serializer/Varint/Decode.antt =====
-- `read_varint` on encodings, and on any input.
use bungohan.Base.{
  ℕ, zero, suc, ◌+◌, ◌*◌, ◌/◌, ◌%◌, ◌^◌, ◌≤◌, ◌<◌, ◌≡◌, refl, sym, ap, ◌∙◌, List, [], ◌∷◌, ◌++◌,
  arith, bit_and, some, length, length-append, append_assoc, low_bits, top_bit, get_elem?,
  get_elem?-append, get_elem?-lt, Option-cases, inl, inr,
}
use native.Mathlib.Nat.{div-add-mod}
use native.Mathlib.Decide.{dec_lt}
use bungohan.Serializer.Varint.{max_varint, read_loop, read_varint, write_varint, varint_size}
use bungohan.Serializer.Varint.Encode.{
  leb128, leb128_small, leb128_large, write_varint-leb128, varint_size-leb128,
}

-- One round of the loop on a last byte, and on a byte with the top bit set.
read_last :
    (left : ℕ) (bytes : List ℕ) (at acc scale b : ℕ)
    → b < 128
    → get_elem? bytes at ≡ some b
    → acc + b * scale ≤ max_varint
    → read_loop (suc left) bytes at acc scale ≡ some (acc + b * scale, at + 1)
unfolding read_loop
read_last left bytes at acc scale b h e fits =
    rw (e, read_loop) (ground (arith, low_bits b, top_bit b))

marked_low : (g : ℕ) → g < 128 → bit_and (g + 128) 0x7f ≡ g
marked_low g h = low_bits (g + 128) (omega arith) ∙ omega arith

marked_top : (g : ℕ) → g < 128 → bit_and (g + 128) 0x80 ≡ 128
marked_top g h = top_bit (g + 128) (omega arith) ∙ omega arith

read_more :
    (left : ℕ) (bytes : List ℕ) (at acc scale g : ℕ)
    → g < 128
    → get_elem? bytes at ≡ some (g + 128)
    → read_loop (suc left) bytes at acc scale
      ≡ read_loop left bytes (at + 1) (acc + g * scale) (scale * 128)
unfolding read_loop
read_more left bytes at acc scale g h e =
    rw (e, read_loop) (rw (marked_low g h, marked_top g h) refl)

-- The lowest group of `v` and the rest, both scaled.
split_group : (v scale : ℕ) → v % 128 * scale + v / 128 * (scale * 128) ≡ v * scale
split_group v scale = omega (arith, ap (λ (t : ℕ). t * scale) (div-add-mod v 128))

at_head :
    (pre : List ℕ) (b : ℕ) (rest : List ℕ) → get_elem? (pre ++ (b ∷ rest)) (length pre) ≡ some b
at_head pre b rest = get_elem?-append pre (b ∷ rest) 0 (length pre) (omega arith)

abbrev Reads : ℕ → ℕ → ℕ → ℕ → ℕ → List ℕ → List ℕ → Type 0
Reads k left v acc scale pre post =
    read_loop left (pre ++ (leb128 k v ++ post)) (length pre) acc scale
    ≡ some (acc + v * scale, length pre + length (leb128 k v))

read_loop-leb128_small :
    (k left v acc scale : ℕ) (pre post : List ℕ)
    → v < 128
    → acc + v * scale ≤ max_varint
    → Reads k (suc left) v acc scale pre post
read_loop-leb128_small k left v acc scale pre post h fits =
    rw (leb128_small k v h) (read_last left _ _ acc scale v h (at_head pre v post) fits)

-- The step of the induction: the prefix has grown by the byte `b`.
grown :
    (pre : List ℕ) (b : ℕ) (post enc : List ℕ) (left acc scale r : ℕ)
    → read_loop left ((pre ++ (b ∷ [])) ++ (enc ++ post)) (length (pre ++ (b ∷ []))) acc scale
      ≡ some (r, length (pre ++ (b ∷ [])) + length enc)
    → read_loop left (pre ++ (b ∷ (enc ++ post))) (length pre + 1) acc scale
      ≡ some (r, length pre + length (b ∷ enc))
grown pre b post enc left acc scale r h = rw (← length-append pre (b ∷ [])) (
    ap (λ l. read_loop left l (length (pre ++ (b ∷ []))) acc scale)
      (sym (append_assoc pre (b ∷ []) (enc ++ post)))
    ∙ h
    ∙ ap (λ n. some (r, n)) (omega (arith, length-append pre (b ∷ []))))

read_loop-leb128 :
    (k left v acc scale : ℕ) (pre post : List ℕ)
    → v < 128 ^ suc k
    → k < left
    → acc + v * scale ≤ max_varint
    → Reads k left v acc scale pre post
read_loop-leb128 k zero v acc scale pre post h hl fits = absurd (omega arith)
read_loop-leb128 zero (suc left) v acc scale pre post h hl fits =
    read_loop-leb128_small zero left v acc scale pre post h fits
read_loop-leb128 (suc k) (suc left) v acc scale pre post h hl fits = elim (dec_lt v 128) [
  | yes small ↦ read_loop-leb128_small (suc k) left v acc scale pre post small fits
  | no large ↦
      let g = v % 128 in
      let sum = split_group v scale in
      let more =
        read_loop-leb128 k left (v / 128) (acc + g * scale) (scale * 128) (pre ++ ((g + 128) ∷ []))
          post (omega arith) (omega arith) (omega arith) in
      rw (leb128_large k v (omega arith)) (
        read_more left _ (length pre) acc scale g (omega arith) (at_head pre (g + 128) _)
        ∙ grown pre (g + 128) post (leb128 k (v / 128)) left (acc + g * scale) (scale * 128) _ more
        ∙ ap (λ n. some (n, length pre + suc (length (leb128 k (v / 128))))) (omega arith))
]

-- Reading where a value of 32 bits was written gives the value and the offset behind it.
pub read_varint-leb128 :
    (v : ℕ) (pre post : List ℕ)
    → v ≤ max_varint
    → read_varint (pre ++ (leb128 4 v ++ post)) (length pre)
      ≡ some (v, length pre + length (leb128 4 v))
unfolding read_varint
read_varint-leb128 v pre post h =
    read_loop-leb128 4 5 v 0 1 pre post (omega arith) (omega arith) (omega arith)
    ∙ ap (λ n. some (n, length pre + length (leb128 4 v))) (omega arith)

-- Where `write_varint` has written a value, over as many cells as `varint_size` counts,
-- `read_varint` reads it back and stops at the offset that `write_varint` returned.
pub read_varint-write_varint :
    (v : ℕ) (pre old post : List ℕ)
    → v ≤ max_varint
    → length old ≡ varint_size v
    → let w = write_varint (pre ++ (old ++ post)) (length pre) v in
      read_varint w.0 (length pre) ≡ some (v, w.1)
read_varint-write_varint v pre old post h l =
    rw
      (write_varint-leb128 4 v pre old post (omega arith)
        (omega (arith, varint_size-leb128 4 v (omega arith))))
      (read_varint-leb128 v pre post h)

-- A successful read is in range and takes one to five bytes, all of them there.
read_loop_bounds :
    (left : ℕ) (bytes : List ℕ) (at acc scale v next : ℕ)
    → read_loop left bytes at acc scale ≡ some (v, next)
    → (v ≤ max_varint) × (at < next) × (next ≤ at + left) × (next ≤ length bytes)
unfolding read_loop
read_loop_bounds zero bytes at acc scale v next h = cc
read_loop_bounds (suc left) bytes at acc scale v next h = elim (Option-cases (get_elem? bytes at)) [
  | inl e ↦ cc (rw (e, read_loop) at h)
  | inr (b, e) ↦ ground (
    arith,
    get_elem?-lt bytes at b,
    read_loop_bounds left bytes (at + 1) (acc + bit_and b 0x7f * scale) (scale * 0x80) v next,
  )
]

-- Whatever the bytes, a successful read gives a value of 32 bits and takes one to five bytes,
-- which lie inside the array.
pub read_varint_bounds :
    (bytes : List ℕ) (at v next : ℕ)
    → read_varint bytes at ≡ some (v, next)
    → (v ≤ max_varint) × (at < next) × (next ≤ at + 5) × (next ≤ length bytes)
unfolding read_varint
read_varint_bounds bytes at v next h = read_loop_bounds 5 bytes at 0 1 v next h
