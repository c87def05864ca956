-- ===== src/Serializer/Stream/RoundTrip.antt =====
-- The round trip of a `ByteWriter` and a `ByteReader`.
use bungohan.Base.{
  ℕ, ◌+◌, ◌%◌, ◌≤◌, ◌<◌, ◌≡◌, refl, sym, ap, subst, ◌∙◌, Option, none, some, List, [], ◌∷◌, ◌++◌,
  length, All, map, arith, get_elem?-append, take, drop, take-append, drop-append, length-append,
  append_assoc, append-nil,
}
use bungohan.Serializer.Varint.{max_varint}
use bungohan.Serializer.Varint.Encode.{leb128}
use bungohan.Serializer.Varint.Decode.{read_varint-leb128}
use bungohan.Serializer.Zigzag
use bungohan.Serializer.Zigzag.{IsInt32, zigzag-bound, unzigzag-zigzag}
use bungohan.Serializer.Text.{wire_string, wire_string_lem, decode_utf8, decode_utf8-slow}
use bungohan.Serializer.Reader
use bungohan.Serializer.Reader.{ByteReader}
use bungohan.Serializer.Reader.Reads.{varint-read_varint}
use bungohan.Serializer.Reader.Steps.{u8_lem, zigzag_lem, count_lem, string_lem}
use bungohan.Serializer.Writer
use bungohan.Serializer.Writer.{ByteWriter, Encoder, to_bytes}
use bungohan.Serializer.Writer.Grow.{IsFit}
use bungohan.Serializer.Writer.Contents.{Appended, u8-Appended, varint-Appended, zigzag-Appended}
use bungohan.Serializer.Writer.Strings.{text_bytes, IsEncoder, string-Appended}
use bungohan.Serializer.Stream.{
  Item, byte, number, signed, text, IsWritable, carried, write_item, write_all, kind, read_item,
  read_all, item_bytes, all_bytes, IsDecoder,
}

module _ (encode_into : Encoder) (encode : List ℕ → List ℕ) (e : IsEncoder encode_into encode) where
  write_item-Appended :
      (w : ByteWriter) (i : Item)
      → IsWritable i
      → IsFit w
      → Appended w (write_item encode_into w i) (item_bytes encode i)
  unfolding write_item item_bytes IsWritable
  write_item-Appended w (byte b) h f =
      let small : b % 256 ≡ b = omega arith in
      subst (λ x. Appended w (Writer.u8 w b) (x ∷ [])) small (u8-Appended w b f)
  write_item-Appended w (number n) h f = varint-Appended w n h f
  write_item-Appended w (signed z) h f = zigzag-Appended w z h f
  write_item-Appended w (text s) h f = string-Appended encode_into encode w s e h f

  pub write_all-Appended :
      (w : ByteWriter) (items : List Item)
      → All IsWritable items
      → IsFit w
      → Appended w (write_all encode_into w items) (all_bytes encode items)
  unfolding write_all all_bytes
  write_all-Appended w [] h f = record {
    held = sym (append-nil (to_bytes w));
    inside = f.inside;
    there = f.there;
  }
  write_all-Appended w (i ∷ items) (h, hs) f =
      let a = write_item-Appended w i h f in
      let b =
        write_all-Appended (write_item encode_into w i) items hs
          (record { inside = a.inside; there = a.there }) in
      record {
        held =
            b.held
            ∙ ap (λ x. x ++ all_bytes encode items) a.held
            ∙ append_assoc (to_bytes w) (item_bytes encode i) (all_bytes encode items);
        inside = b.inside;
        there = b.there;
      }

pub IsFit-init : IsFit Writer.init
unfolding Writer.init
IsFit-init = record { inside = omega arith; there = omega arith }

empty : to_bytes Writer.init ≡ []
unfolding Writer.init to_bytes
empty = refl

-- A reader without an error, at a place in the bytes.
abbrev pub at : List ℕ → ℕ → ByteReader
at bytes n = record { error = none; bytes = bytes; pos = n }

pub varint-leb128 :
    (v : ℕ) (pre post : List ℕ)
    → v ≤ max_varint
    → let bytes = pre ++ (leb128 4 v ++ post) in
      Reader.varint (at bytes (length pre)) ≡ (v, at bytes (length pre + length (leb128 4 v)))
varint-leb128 v pre post h =
    let (_, gets) = varint-read_varint (at (pre ++ (leb128 4 v ++ post)) (length pre)) in
    gets v _ (read_varint-leb128 v pre post h)

pub u8-byte :
    (b : ℕ) (pre post : List ℕ)
    → let bytes = pre ++ ((b ∷ []) ++ post) in
      Reader.u8 (at bytes (length pre)) ≡ (b, at bytes (length pre + 1))
u8-byte b pre post =
    u8_lem (at (pre ++ (b ∷ post)) (length pre)) b
      (get_elem?-append pre (b ∷ post) 0 (length pre) (omega arith))

left : (bytes : List ℕ) (m n : ℕ) → m + n ≤ length bytes → n ≤ Reader.remaining (at bytes m)
unfolding Reader.remaining
left bytes m n h = omega arith

pub string-text :
    (slow : List ℕ → Option (List ℕ)) (encode : List ℕ → List ℕ) (value pre post : List ℕ)
    → slow (encode value) ≡ some value
    → ((bs : List ℕ) → All (λ b. b < 0x80) bs → slow bs ≡ some bs)
    → length (encode value) ≤ max_varint
    → let bs = text_bytes (encode value) in
      let bytes = pre ++ (bs ++ post) in
      Reader.string slow (at bytes (length pre)) ≡ (value, at bytes (length pre + length bs))
unfolding text_bytes
string-text slow encode value pre post d a h =
    let body = encode value in
    let n = length body in
    let lead = leb128 4 n in
    let bytes = pre ++ (text_bytes body ++ post) in
    let m = length pre + length lead in
    let assoc : bytes ≡ pre ++ (lead ++ (body ++ post)) =
      ap (λ x. pre ++ x) (append_assoc lead body post) in
    let assoc' : bytes ≡ (pre ++ lead) ++ (body ++ post) =
      assoc ∙ sym (append_assoc pre lead (body ++ post)) in
    let long : length bytes ≡ m + (n + length post) =
      ap length assoc
      ∙ omega (
        arith,
        length-append pre (lead ++ (body ++ post)),
        length-append lead (body ++ post),
        length-append body post,
      ) in
    let got : Reader.varint (at bytes (length pre)) ≡ (n, at bytes m) =
      subst (λ x. Reader.varint (at x (length pre)) ≡ (n, at x m)) (sym assoc)
        (varint-leb128 n pre (body ++ post) h) in
    let counted =
      count_lem (at bytes (length pre)) (at bytes m) n got (left bytes m n (omega arith)) in
    let sliced : take n (drop m bytes) ≡ body =
      ap (λ x. take n (drop m x)) assoc'
      ∙ ap (take n) (drop-append (pre ++ lead) (body ++ post) m (sym (length-append pre lead)))
      ∙ take-append body post n refl in
    string_lem slow (at bytes (length pre)) (at bytes m) n value counted refl
      (ap (decode_utf8 slow) sliced ∙ decode_utf8-slow slow a body ∙ d)
    ∙ ap (λ x. (value, at bytes x)) (omega (arith, length-append lead body))

module _ (encode_into : Encoder) (encode : List ℕ → List ℕ) (e : IsEncoder encode_into encode)
    (slow : List ℕ → Option (List ℕ)) (d : IsDecoder slow encode) where
  read_item-item_bytes :
      (i : Item) (pre post : List ℕ)
      → IsWritable i
      → let bs = item_bytes encode i in
        let bytes = pre ++ (bs ++ post) in
        read_item slow (at bytes (length pre)) (kind i)
        ≡ (carried i, at bytes (length pre + length bs))
  unfolding read_item item_bytes IsWritable carried kind
  read_item-item_bytes (byte b) pre post h = ap (λ x. (byte x.0, x.1)) (u8-byte b pre post)
  read_item-item_bytes (number n) pre post h =
      ap (λ x. (number x.0, x.1)) (varint-leb128 n pre post h)
  read_item-item_bytes (signed z) pre post h =
      let got = varint-leb128 (Zigzag.zigzag z) pre post (omega (arith, zigzag-bound z h)) in
      ap (λ x. (signed x.0, x.1)) (zigzag_lem _ _ _ got)
      ∙ ap
          (λ x.
            let bs = leb128 4 (Zigzag.zigzag z) in
            (signed x, at (pre ++ (bs ++ post)) (length pre + length bs)))
          (unzigzag-zigzag z h)
  read_item-item_bytes (text s) pre post h =
      let (scalar, l, _) = wire_string_lem s in
      let small = e.small (wire_string s) in
      ap (λ x. (text x.0, x.1))
        (string-text slow encode (wire_string s) pre post (d.reads (wire_string s) scalar) d.ascii
          (omega arith))

  read_all-all_bytes :
      (items : List Item) (pre : List ℕ)
      → All IsWritable items
      → let bytes = pre ++ all_bytes encode items in
        read_all slow (at bytes (length pre)) (map kind items)
        ≡ (map carried items, at bytes (length bytes))
  unfolding read_all all_bytes
  read_all-all_bytes [] pre h =
      ap (λ n. ([], at (pre ++ []) n)) (omega (arith, length-append pre []))
  read_all-all_bytes (i ∷ items) pre (h, hs) =
      let bs = item_bytes encode i in
      let rest = all_bytes encode items in
      let one = read_item-item_bytes i pre rest h in
      let more = read_all-all_bytes items (pre ++ bs) hs in
      let kinds = map kind items in
      let bytes = pre ++ (bs ++ rest) in
      let same : (pre ++ bs) ++ rest ≡ bytes = append_assoc pre bs rest in
      let more' : read_all slow (at bytes (length pre + length bs)) kinds
          ≡ (map carried items, at bytes (length bytes)) =
        subst
          (λ x.
            read_all slow (at x (length pre + length bs)) kinds
            ≡ (map carried items, at x (length x)))
          same
          (subst
            (λ n.
              let b = (pre ++ bs) ++ rest in
              read_all slow (at b n) kinds ≡ (map carried items, at b (length b)))
            (length-append pre bs) more) in
      ap (λ (x : Item × ByteReader). let more = read_all slow x.1 kinds in (x.0 ∷ more.0, more.1))
        one
      ∙ ap (λ x. (carried i ∷ x.0, x.1)) more'

  -- A new writer writes items, each of which it takes: a byte, a number or an integer of 32 bits,
  -- a text that is not too long; a reader of its bytes, asked for items of the same kinds, gives
  -- them back, texts as they are on the wire, without an error, and is then at the end.
  pub read_all-write_all :
      (items : List Item)
      → All IsWritable items
      → let bytes = to_bytes (write_all encode_into Writer.init items) in
        read_all slow (Reader.init bytes) (map kind items)
        ≡ (map carried items, record { error = none; bytes = bytes; pos = length bytes })
  unfolding Reader.init
  read_all-write_all items h =
      let a = write_all-Appended encode_into encode e Writer.init items h IsFit-init in
      let bytes : to_bytes (write_all encode_into Writer.init items) ≡ all_bytes encode items =
        a.held ∙ ap (λ x. x ++ all_bytes encode items) empty in
      subst (λ x. read_all slow (at x 0) (map kind items) ≡ (map carried items, at x (length x)))
        (sym bytes) (read_all-all_bytes items [] h)
