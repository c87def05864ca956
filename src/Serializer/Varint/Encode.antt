-- ===== src/Serializer/Varint/Encode.antt =====
-- What `write_varint` writes, against unsigned LEB128 by recursion on the number of groups.
use bungohan.Base.{
  ℕ, zero, suc, ◌+◌, ◌/◌, ◌%◌, ◌^◌, ◌≤◌, ◌<◌, ◌≡◌, refl, sym, subst, ap, ap₂, ◌∙◌, List, [], ◌∷◌,
  ◌++◌, arith, leb, if◌then◌else◌, set, length, length-append, All, set_top_bit, append_assoc,
  set-append,
}
use native.Mathlib.Decide.{dec_lt}
use bungohan.Serializer.Varint.{IsByte, var_size_loop, varint_size, write_loop, write_varint}

-- Unsigned LEB128 in at most `k + 1` groups of seven bits.
unfoldable pub leb128 : ℕ → ℕ → List ℕ
leb128 zero v = v ∷ []
leb128 (suc k) v =
    let rest = leb128 k (v / 128) in if leb 128 v then (v % 128 + 128) ∷ rest else v ∷ []

pub leb128_small : (k v : ℕ) → v < 128 → leb128 k v ≡ v ∷ []
unfolding leb128
leb128_small zero v h = refl
leb128_small (suc k) v h = ground arith

pub leb128_large : (k v : ℕ) → 128 ≤ v → leb128 (suc k) v ≡ (v % 128 + 128) ∷ leb128 k (v / 128)
unfolding leb128
leb128_large k v h = ground arith

pub leb128_pos : (k v : ℕ) → 0 < length (leb128 k v)
unfolding leb128
leb128_pos zero v = omega arith
leb128_pos (suc k) v = ground arith

var_size_loop-length :
    (k fuel v size : ℕ)
    → v < 128 ^ suc k
    → v ≤ fuel
    → var_size_loop fuel v size + 1 ≡ size + length (leb128 k v)
unfolding var_size_loop leb128
var_size_loop-length zero zero v size h f = omega arith
var_size_loop-length (suc k) zero v size h f = ground arith
var_size_loop-length zero (suc fuel) v size h f = ground arith
var_size_loop-length (suc k) (suc fuel) v size h f =
    ground (arith, var_size_loop-length k fuel (v / 128) (size + 1))

-- `varint_size` is the number of bytes of the encoding.
pub varint_size-leb128 : (k v : ℕ) → v < 128 ^ suc k → varint_size v ≡ length (leb128 k v)
unfolding varint_size
varint_size-leb128 k v h = omega (arith, var_size_loop-length k v v 1 h (omega arith))

-- One byte written behind a prefix that grows by it.
set_next :
    (pre : List ℕ) (o : ℕ) (old post : List ℕ) (at b : ℕ)
    → at ≡ length pre
    → set (pre ++ ((o ∷ old) ++ post)) at b ≡ (pre ++ (b ∷ [])) ++ (old ++ post)
set_next pre o old post at b e =
    set-append pre o (old ++ post) at b e ∙ sym (append_assoc pre (b ∷ []) (old ++ post))

write_loop_small :
    (fuel v at : ℕ) (out : List ℕ) → v < 128 → write_loop fuel out at v ≡ (set out at v, at + 1)
unfolding write_loop
write_loop_small zero v at out h = refl
write_loop_small (suc fuel) v at out h = ground arith

write_loop_large :
    (fuel v at : ℕ) (out : List ℕ)
    → 128 ≤ v
    → write_loop (suc fuel) out at v
      ≡ write_loop fuel (set out at (v % 128 + 128)) (at + 1) (v / 128)
unfolding write_loop
write_loop_large fuel v at out h = ground (arith, set_top_bit (v % 128) (omega arith))

-- The cells of `old` are overwritten by the encoding, and nothing else changes.
abbrev Writes : ℕ → ℕ → ℕ → List ℕ → List ℕ → List ℕ → Type 0
Writes k fuel v pre old post =
    write_loop fuel (pre ++ (old ++ post)) (length pre) v
    ≡ (pre ++ (leb128 k v ++ post), length pre + length (leb128 k v))

write_loop-leb128_small :
    (k fuel v : ℕ) (pre old post : List ℕ)
    → v < 128
    → length old ≡ length (leb128 k v)
    → Writes k fuel v pre old post
write_loop-leb128_small k fuel v pre [] post h l =
    absurd (omega (arith, ap length (leb128_small k v h)))
write_loop-leb128_small k fuel v pre (o ∷ []) post h l = rw (leb128_small k v h) (
    write_loop_small fuel v (length pre) _ h
    ∙ ap (λ w. (w, length pre + 1)) (set-append pre o post _ v refl))
write_loop-leb128_small k fuel v pre (o ∷ p ∷ old) post h l =
    absurd (omega (arith, ap length (leb128_small k v h)))

-- The step of the induction: the prefix has grown by the byte `b`.
grown :
    (pre : List ℕ) (b : ℕ) (old post enc : List ℕ) (w fuel : ℕ)
    → write_loop fuel ((pre ++ (b ∷ [])) ++ (old ++ post)) (length (pre ++ (b ∷ []))) w
      ≡ ((pre ++ (b ∷ [])) ++ (enc ++ post), length (pre ++ (b ∷ [])) + length enc)
    → write_loop fuel ((pre ++ (b ∷ [])) ++ (old ++ post)) (length pre + 1) w
      ≡ (pre ++ ((b ∷ enc) ++ post), length pre + length (b ∷ enc))
grown pre b old post enc w fuel h =
    subst
      (λ n.
        write_loop fuel ((pre ++ (b ∷ [])) ++ (old ++ post)) n w
        ≡ (pre ++ ((b ∷ enc) ++ post), length pre + length (b ∷ enc)))
      (length-append pre (b ∷ []))
      (h
        ∙ ap₂ (λ l n. (l, n)) (append_assoc pre (b ∷ []) (enc ++ post))
            (omega (arith, length-append pre (b ∷ []))))

write_loop-leb128 :
    (k fuel v : ℕ) (pre old post : List ℕ)
    → v < 128 ^ suc k
    → v ≤ fuel
    → length old ≡ length (leb128 k v)
    → Writes k fuel v pre old post
write_loop-leb128 zero fuel v pre old post h f l =
    write_loop-leb128_small zero fuel v pre old post h l
write_loop-leb128 (suc k) zero v pre old post h f l =
    write_loop-leb128_small (suc k) zero v pre old post (omega arith) l
write_loop-leb128 (suc k) (suc fuel) v pre [] post h f l =
    absurd (omega (arith, leb128_pos (suc k) v))
write_loop-leb128 (suc k) (suc fuel) v pre (o ∷ old) post h f l = elim (dec_lt v 128) [
  | yes small ↦ write_loop-leb128_small (suc k) (suc fuel) v pre (o ∷ old) post small l
  | no large ↦
      let b = v % 128 + 128 in
      let more =
        write_loop-leb128 k fuel (v / 128) (pre ++ (b ∷ [])) old post (omega arith) (omega arith)
          (omega (arith, ap length (leb128_large k v (omega arith)))) in
      write_loop_large fuel v (length pre) _ (omega arith)
      ∙ ap (λ o'. write_loop fuel o' (length pre + 1) (v / 128)) (set_next pre o old post _ b refl)
      ∙ grown pre b old post (leb128 k (v / 128)) (v / 128) fuel more
      ∙ rw (leb128_large k v (omega arith)) refl
]

-- Writing a header value over as many cells as its encoding takes puts the encoding there,
-- leaves every other cell alone, and returns the offset behind it.
pub write_varint-leb128 :
    (k v : ℕ) (pre old post : List ℕ)
    → v < 128 ^ suc k
    → length old ≡ length (leb128 k v)
    → write_varint (pre ++ (old ++ post)) (length pre) v
      ≡ (pre ++ (leb128 k v ++ post), length pre + length (leb128 k v))
unfolding write_varint
write_varint-leb128 k v pre old post h l = write_loop-leb128 k v v pre old post h (omega arith) l

pub leb128-IsByte : (k v : ℕ) → v < 128 ^ suc k → All IsByte (leb128 k v)
unfolding leb128
leb128-IsByte zero v h = omega arith
leb128-IsByte (suc k) v h = ground (arith, leb128-IsByte k (v / 128) (omega arith))

pub length-leb128 : (k v : ℕ) → length (leb128 k v) ≤ k + 1
unfolding leb128
length-leb128 zero v = omega arith
length-leb128 (suc k) v = ground (arith, length-leb128 k (v / 128))
