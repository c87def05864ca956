-- ===== src/Serializer/Frame/Decode.antt =====
-- `decode_frame` on any bytes.
use bungohan.Base.{
  ℕ, zero, suc, ◌+◌, ◌*◌, ◌≤◌, ◌≡◌, sym, subst, ap, List, ◌∷◌, ◌++◌, arith, Option, some, length,
  take, drop, get_elem?, get_elem?-lt, take-append-drop, length-take, Option-cases, inl, inr,
}
use bungohan.Serializer.Varint.{read_varint}
use bungohan.Serializer.Varint.Decode.{read_varint_bounds}
use bungohan.Serializer.Frame.{Frame, Outcome, ok, err, throws, read_header, decode_frame}
use bungohan.Serializer.Frame.Encode.{IsHeader}

read_header_bounds :
    (count : ℕ) (bytes : List ℕ) (at : ℕ) (values : List ℕ) (end : ℕ)
    → at ≤ length bytes
    → read_header count bytes at ≡ some (values, end)
    → IsHeader values
      × (length values ≡ count)
      × (at + count ≤ end)
      × (end ≤ at + 5 * count)
      × (end ≤ length bytes)
unfolding read_header
read_header_bounds zero bytes at values end p h = ground arith
read_header_bounds (suc count) bytes at values end p h =
    elim (Option-cases (read_varint bytes at)) [
      | inl e ↦ cc (rw (e, read_header) at h)
      | inr ((v, next), e) ↦ elim (Option-cases (read_header count bytes next)) [
        | inl f ↦ cc (rw (e, f, read_header) at h)
        | inr ((values', end'), f) ↦
            let b = read_varint_bounds bytes at v next e in
            let r = read_header_bounds count bytes next values' end' b.3 f in
            let g : some (v ∷ values', end') ≡ some (values, end) = rw (e, f, read_header) at h in
            ground (arith, b, r, g)
      ]
    ]

frame_or : Frame → Outcome Frame → Frame
frame_or f (ok g) = g
frame_or f (err e) = f
frame_or f throws = f

ok-injective : {f g : Frame} → ok f ≡ ok g → f ≡ g
unfolding frame_or
ok-injective {f} e = ap (frame_or f) e

-- What a decoded frame says of the bytes.
pub record IsParsed (bytes : List ℕ) (header_count : ℕ → Option ℕ) (f : Frame) : Type 0 where
  pub typed : get_elem? bytes 0 ≡ some f.type
  pub known : header_count f.type ≡ some (length f.header)
  pub in_range : IsHeader f.header
  pub front : List ℕ
  pub split : bytes ≡ front ++ f.body
  pub front_size : 1 + length f.header ≤ length front
  pub front_bound : length front ≤ 1 + 5 * length f.header

-- A frame that decodes has a known type, as many header values as its type says, each of 32
-- bits, and its body is the end of the bytes, behind one to five bytes for each header value.
pub decode_frame-IsParsed :
    (bytes : List ℕ) (header_count : ℕ → Option ℕ) (f : Frame)
    → decode_frame bytes header_count ≡ ok f
    → IsParsed bytes header_count f
unfolding decode_frame
decode_frame-IsParsed bytes header_count f h = elim (Option-cases (get_elem? bytes 0)) [
  | inl e ↦ cc (rw (e, decode_frame) at h)
  | inr (t, e) ↦ elim (Option-cases (header_count t)) [
    | inl c ↦ cc (rw (e, c, decode_frame) at h)
    | inr (count, c) ↦ elim (Option-cases (read_header count bytes 1)) [
      | inl r ↦ cc (rw (e, c, r, decode_frame) at h)
      | inr ((values, at), r) ↦
          let g : ok (record { type = t; header = values; body = drop at bytes }) ≡ ok f =
            rw (e, c, r, decode_frame) at h in
          let b = read_header_bounds count bytes 1 values at (get_elem?-lt bytes 0 t e) r in
          subst (IsParsed bytes header_count) (ok-injective g) (record {
            typed = e;
            known = rw b.1 c;
            in_range = b.0;
            front = take at bytes;
            split = sym (take-append-drop at bytes);
            front_size = omega (arith, b, length-take at bytes);
            front_bound = omega (arith, b, length-take at bytes);
          })
    ]
  ]
]
