-- ===== src/Serializer/Frame/RoundTrip.antt =====
-- `decode_frame` after `encode_frame`.
use bungohan.Base.{
  ℕ, suc, ◌<◌, ◌≡◌, refl, sym, ap, ◌∙◌, List, [], ◌∷◌, ◌++◌, Option, some, length, length-append,
  append_assoc, append-nil, drop-append,
}
use mathlib.Core.Option.{get_or}
use bungohan.Base.Int.{pos}
use bungohan.Base.Number.{int}
use bungohan.Serializer.Varint.{read_varint}
use bungohan.Serializer.Varint.Encode.{leb128}
use bungohan.Serializer.Varint.Decode.{read_varint-leb128}
use bungohan.Serializer.Frame.{ok, read_header, encode_frame, decode_frame}
use bungohan.Serializer.Frame.Encode.{IsHeader, header_bytes, numbers, encode_frame_ok}

read_header_cons :
    (count : ℕ) (bytes : List ℕ) (at v next : ℕ) (values : List ℕ) (end : ℕ)
    → read_varint bytes at ≡ some (v, next)
    → read_header count bytes next ≡ some (values, end)
    → read_header (suc count) bytes at ≡ some (v ∷ values, end)
unfolding read_header
read_header_cons count bytes at v next values end p q = rw (p, q, read_header)

read_header-header_bytes :
    (values pre post : List ℕ)
    → IsHeader values
    → read_header (length values) (pre ++ (header_bytes values ++ post)) (length pre)
      ≡ some (values, length (pre ++ header_bytes values))
read_header-header_bytes [] pre post h =
    unfold read_header in ap (λ l. some ([], length l)) (sym (append-nil pre))
read_header-header_bytes (v ∷ values) pre post (h, hs) =
    let enc = leb128 4 v in
    let e : read_varint (pre ++ ((enc ++ header_bytes values) ++ post)) (length pre)
        ≡ some (v, length (pre ++ enc)) =
      rw (append_assoc enc (header_bytes values) post) (
        read_varint-leb128 v pre (header_bytes values ++ post) h
        ∙ ap (λ n. some (v, n)) (sym (length-append pre enc))) in
    let more = read_header-header_bytes values (pre ++ enc) post hs in
    read_header_cons (length values) (pre ++ ((enc ++ header_bytes values) ++ post)) (length pre) v
      (length (pre ++ enc)) values (length (pre ++ (enc ++ header_bytes values))) e
      (ap (λ l. read_header (length values) l (length (pre ++ enc)))
          (ap (◌++◌ pre) (append_assoc enc (header_bytes values) post)
            ∙ sym (append_assoc pre enc (header_bytes values ++ post)))
        ∙ more
        ∙ ap (λ l. some (values, length l)) (append_assoc pre enc (header_bytes values)))

decode_frame-header_bytes :
    (t : ℕ) (values body : List ℕ) (header_count : ℕ → Option ℕ)
    → IsHeader values
    → header_count t ≡ some (length values)
    → decode_frame (t ∷ (header_bytes values ++ body)) header_count
      ≡ ok (record { type = t; header = values; body = body })
unfolding decode_frame
decode_frame-header_bytes t values body header_count h hc =
    rw (hc, read_header-header_bytes values (t ∷ []) body h, decode_frame)
      (ap (λ b. ok (record { type = t; header = values; body = b }))
        (drop-append (t ∷ header_bytes values) body _ refl))

-- A frame whose type the reader's table knows, with as many header values, decodes to the type,
-- the header and the body that were encoded (the empty body where none was given): `encodeFrame`
-- succeeds, and `decodeFrame` on what it returns succeeds.
pub decode_frame-encode_frame :
    (t : ℕ) (values : List ℕ) (body : Option (List ℕ)) (header_count : ℕ → Option ℕ)
    → t < 256
    → IsHeader values
    → header_count t ≡ some (length values)
    → (bytes : List ℕ) × (encode_frame (int (pos t)) (numbers values) body ≡ ok bytes)
      × (decode_frame bytes header_count
          ≡ ok (record { type = t; header = values; body = get_or body [] }))
decode_frame-encode_frame t values body header_count ht h hc = (
  t ∷ (header_bytes values ++ get_or body []),
  encode_frame_ok t values body ht h,
  decode_frame-header_bytes t values (get_or body []) header_count h hc,
)
