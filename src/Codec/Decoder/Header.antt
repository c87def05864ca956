-- ===== src/Codec/Decoder/Header.antt =====
-- schema-codec.ts, `op`: headers behind the wire, and the op that follows.
use bungohan.Base.{
  ℕ, zero, suc, ◌+◌, ◌*◌, ◌/◌, ◌%◌, ◌≤◌, ◌<◌, ◌≡◌, refl, sym, ap, ap₂, subst, ◌∙◌, Bool, true,
  false, not, Option, none, some, length, arith, if◌then◌else◌, bit_and, bit_or, ◌==◌, same_below,
  same_below→eq,
}
use bungohan.Base.Dict
use bungohan.Base.Keys.{number_keys}
use bungohan.Serializer.Varint.{max_varint}
use bungohan.Serializer.Reader
use bungohan.Serializer.Writer
use bungohan.Serializer.Writer.{ByteWriter}
use bungohan.Serializer.Writer.Grow.{IsFit}
use bungohan.Codec.Tables.{Tables, Target}
use bungohan.Codec.Platform.{Platform}
use bungohan.Codec.Values.{◌>>=◌, return, unless_failed}
use bungohan.Codec.Coded.{
  Coded, Coded-IsFit, nothing, then_coded, length-then_coded, coded_u8, length-coded_u8,
  coded_varint,
}
use bungohan.Codec.Ops.{WireOp}
use bungohan.Codec.Encoder.{Encoding, header_byte}
use bungohan.Codec.Decoder.{Decoding, OpRead, decode_on, decode_at, decode_header, decode_op}
use bungohan.Codec.Decoder.Reads.{unfailed}
use bungohan.Codec.Decoder.Payload.{OpWritten, OpWritten-then}

abbrev same_bit : Bool → ℕ
same_bit same = if same then 0x10 else 0

-- The parts of a byte, by evaluation.
joined : (i : ℕ) → i < 128 → bit_or (bit_or (i / 32 * 32) (i / 16 % 2 * 16)) (i % 16) ≡ i
unfolding same_below
joined i h =
    same_below→eq (λ i. bit_or (bit_or (i / 32 * 32) (i / 16 % 2 * 16)) (i % 16)) (λ i. i) 128 i
      refl h

bit_four : (i : ℕ) → i < 128 → bit_and i 0x10 ≡ i / 16 % 2 * 16
unfolding same_below
bit_four i h = same_below→eq (λ i. bit_and i 0x10) (λ i. i / 16 % 2 * 16) 128 i refl h

low_four : (i : ℕ) → i < 128 → bit_and i 0x0f ≡ i % 16
unfolding same_below
low_four i h = same_below→eq (λ i. bit_and i 0x0f) (λ i. i % 16) 128 i refl h

header_lem :
    (code f : ℕ) (same : Bool)
    → code < 4
    → f < 16
    → header_byte code same f ≡ code * 32 + same_bit same + f
header_lem code f true h k =
    let i = code * 32 + 16 + f in
    let a : i / 32 ≡ code = omega arith in
    let b : i / 16 % 2 ≡ 1 = omega arith in
    let c : i % 16 ≡ f = omega arith in
    subst (λ x. bit_or (bit_or (x * 32) 16) f ≡ i) a
      (subst (λ x. bit_or (bit_or (i / 32 * 32) (x * 16)) f ≡ i) b
        (subst (λ x. bit_or (bit_or (i / 32 * 32) (i / 16 % 2 * 16)) x ≡ i) c
          (joined i (omega arith))))
header_lem code f false h k =
    let i = code * 32 + 0 + f in
    let a : i / 32 ≡ code = omega arith in
    let b : i / 16 % 2 ≡ 0 = omega arith in
    let c : i % 16 ≡ f = omega arith in
    subst (λ x. bit_or (bit_or (x * 32) 0) f ≡ i) a
      (subst (λ x. bit_or (bit_or (i / 32 * 32) (x * 16)) f ≡ i) b
        (subst (λ x. bit_or (bit_or (i / 32 * 32) (i / 16 % 2 * 16)) x ≡ i) c
          (joined i (omega arith))))

-- What is read from a header byte.
code_part : (code f : ℕ) (same : Bool) → code < 4 → f < 16 → header_byte code same f / 32 ≡ code
code_part code f true h k = rw (header_lem code f true h k) (omega arith)
code_part code f false h k = rw (header_lem code f false h k) (omega arith)

same_part :
    (code f : ℕ) (same : Bool)
    → code < 4
    → f < 16
    → not (bit_and (header_byte code same f) 0x10 == 0) ≡ same
same_part code f true h k =
    let i = code * 32 + 16 + f in
    let b : bit_and i 0x10 ≡ 16 = omega (arith, bit_four i) in
    rw (header_lem code f true h k) (rw b refl)
same_part code f false h k =
    let i = code * 32 + 0 + f in
    let b : bit_and i 0x10 ≡ 0 = omega (arith, bit_four i) in
    rw (header_lem code f false h k) (rw b refl)

field_part :
    (code f : ℕ) (same : Bool) → code < 4 → f < 16 → bit_and (header_byte code same f) 0x0f ≡ f
field_part code f true h k =
    let i = code * 32 + 16 + f in rw (header_lem code f true h k) (omega (arith, low_four i))
field_part code f false h k =
    let i = code * 32 + 0 + f in rw (header_lem code f false h k) (omega (arith, low_four i))

pub header_byte-bound :
    (code f : ℕ) (same : Bool) → code < 4 → f < 16 → header_byte code same f < 256
header_byte-bound code f true h k = rw (header_lem code f true h k) (omega arith)
header_byte-bound code f false h k = rw (header_lem code f false h k) (omega arith)

-- As `OpWritten`, and a byte or more was written.
abbrev pub OpSent : {F : Type 0} → ByteWriter → OpRead F → WireOp F → Encoding × Bool → Type 0
OpSent w m op ((s, last), false) = Unit
OpSent w m op ((s, last), true) =
    (c : Coded w s.out m (some op, (s.tables, last))) × (1 ≤ length c.bs)

module _ {F : Type 0} (p : Platform F) where
  pub byte_then :
      (w : ByteWriter) (h : ℕ) (d : Decoding) (op : WireOp F) (e : Encoding × Bool)
      → h < 256
      → IsFit w
      → OpWritten
          (Writer.u8 w h)
          (decode_header p d (h / 32) (not (bit_and h 0x10 == 0)) (bit_and h 0x0f))
          op
          e
      → OpSent w (decode_op p d) op e
  unfolding decode_op
  byte_then w h d op ((s, last), false) k f c = tt
  byte_then w h d op ((s, last), true) k f c =
      let b = coded_u8 w h k f in
      let rest =
        λ (h : ℕ). decode_header p d (h / 32) (not (bit_and h 0x10 == 0)) (bit_and h 0x0f) in
      (then_coded rest b c, omega (arith, length-then_coded rest b c, length-coded_u8 w h k f))

  unfailed_op :
      (w : ByteWriter) (other : Option (WireOp F) × Decoding) (m : OpRead F) (op : WireOp F)
      (e : Encoding × Bool)
      → OpWritten w m op e
      → OpWritten w (unless_failed other m) op e
  unfailed_op w other m op ((s, last), false) c = tt
  unfailed_op w other m op ((s, last), true) c = unfailed other c

  target_coded :
      (w : ByteWriter) (last n : ℕ) (same : Bool)
      → (same ≡ true → n ≡ last)
      → n ≤ max_varint
      → IsFit w
      → Coded w
          (if same then w else Writer.varint w n)
          (if same then return last else Reader.varint)
          n
  target_coded w last n true e h f =
      subst (λ x. Coded w w (return last) x) (sym (e refl)) (nothing w last f)
  target_coded w last n false e h f = coded_varint w n h f

  abbrev with_target : Decoding → ℕ → Bool → ℕ → OpRead F
  with_target (t, last) code same f = (if same then return last else Reader.varint) >>= λ n.
      unless_failed (none, (t, last)) (decode_at p (t, last) code f n (Dict.get t.targets n))

  behind_header :
      (d : Decoding) (code : ℕ) (same : Bool) (f : ℕ)
      → code < 4
      → decode_header p d code same f ≡ with_target d code same f
  unfolding decode_header
  behind_header d zero same f h = refl
  behind_header d (suc zero) same f h = refl
  behind_header d (suc (suc zero)) same f h = refl
  behind_header d (suc (suc (suc zero))) same f h = refl
  behind_header d (suc (suc (suc (suc code)))) same f h = absurd (omega arith)

  -- The header and the target of an op, and what is read behind them.
  pub header_then :
      (w : ByteWriter) (t : Tables) (last n code : ℕ) (same : Bool) (f : ℕ) (target : Target)
      (op : WireOp F) (e : Encoding × Bool)
      → code < 4
      → f < 16
      → (same ≡ true → n ≡ last)
      → n ≤ max_varint
      → Dict.get t.targets n ≡ some target
      → IsFit w
      → OpWritten
          (if same
            then Writer.u8 w (header_byte code same f)
            else Writer.varint (Writer.u8 w (header_byte code same f)) n)
          (decode_on p (t, last) code f n target)
          op
          e
      → OpSent w (decode_op p (t, last)) op e
  header_then w t last n code same f target op e h k lem m found fit c =
      let b = header_byte code same f in
      let small = header_byte-bound code f same h k in
      let w' = Writer.u8 w b in
      let number = target_coded w' last n same lem m (Coded-IsFit (coded_u8 w b small fit)) in
      let w'' = if same then w' else Writer.varint w' n in
      let known =
        subst (λ o. OpWritten w'' (decode_at p (t, last) code f n o) op e) (sym found) c in
      let rest = λ (n : ℕ).
        unless_failed (none, (t, last)) (decode_at p (t, last) code f n (Dict.get t.targets n)) in
      let all =
        OpWritten-then p w' w'' (if same then return last else Reader.varint) n rest op e number (
          unfailed_op w'' (none, (t, last)) (decode_at p (t, last) code f n (Dict.get t.targets n))
            op e known) in
      byte_then w b (t, last) op e small fit
        (subst (λ (m : OpRead F). OpWritten w' m op e)
          (sym (
            ap₂ (λ x y. decode_header p (t, last) x y (bit_and b 0x0f)) (code_part code f same h k)
              (same_part code f same h k)
            ∙ ap (λ x. decode_header p (t, last) code same x) (field_part code f same h k)
            ∙ behind_header (t, last) code same f h))
          all)
