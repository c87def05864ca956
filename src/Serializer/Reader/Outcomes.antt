-- ===== src/Serializer/Reader/Outcomes.antt =====
-- Each read of a `ByteReader`: it fails, or it moves on inside the bytes.
use bungohan.Base.{
  ℕ, ◌+◌, ◌≤◌, ◌<◌, ◌≡◌, refl, sym, ap, subst, ◌∙◌, ◌⊎◌, Option, none, some, List, [], ltb, length,
  get_elem?, inl, inr, Option-cases, Bool-cases, arith, get_elem?-lt, either_branch, branch_cases,
}
use bungohan.Base.Int.{pos}
use bungohan.Serializer.Varint.{read_varint}
use bungohan.Serializer.Varint.Decode.{read_varint_bounds}
use bungohan.Serializer.Zigzag.{unzigzag, unzigzag-zero}
use bungohan.Serializer.Text.{decode_utf8}
use bungohan.Serializer.Reader.{
  ByteReader, Message, fail, remaining, u8, varint, count, zigzag, float64, float32, string,
  string_body, text_read, slice, count_exceeds,
}
use bungohan.Serializer.Reader.Reads.{Failed, fail-Failed, Failed-advance, varint-read_varint}

-- The position lies inside the bytes, and is the end once there is an error.
pub record IsSound (r : ByteReader) : Type 0 where
  pub inside : r.pos ≤ length r.bytes
  pub ended : (e : Message × ℕ) → r.error ≡ some e → r.pos ≡ length r.bytes

pub Failed-IsSound : (r r' : ByteReader) → Failed r r' → IsSound r'
Failed-IsSound r r' f =
    let at_end = f.at_end in
    let same = ap length f.same_bytes in record { inside = omega arith; ended = λ e h. omega arith }

-- Whether a read has failed, with the value that it then gives, or has moved on.
unfoldable pub Outcome : {A : Type 0} → A → ByteReader → A × ByteReader → Type 0
Outcome zero_value r (v, r') =
    ((v ≡ zero_value) × Failed r r')
    ⊎ ((n : ℕ) × (r' ≡ record r { pos = n })
        × (r.pos ≤ n)
        × (n ≤ length r.bytes)
        × (r.error ≡ none))

before_end : (r : ByteReader) → IsSound r → r.pos < length r.bytes → r.error ≡ none
before_end r s h = elim (Option-cases r.error) [
  | inl fine ↦ fine
  | inr (m, e) ↦ absurd (omega (arith, h, s.ended m e))
]

pub u8-Outcome : (r : ByteReader) → IsSound r → Outcome 0 r (u8 r)
unfolding u8 Outcome
u8-Outcome r s = elim (Option-cases (get_elem? r.bytes r.pos)) [
  | inl e ↦ rw (e, u8) (inl (refl, fail-Failed r _))
  | inr (b, e) ↦
      let within = get_elem?-lt r.bytes r.pos b e in
      rw (e, u8) (inr (r.pos + 1, refl, omega arith, omega arith, before_end r s within))
]

pub varint-Outcome : (r : ByteReader) → IsSound r → Outcome 0 r (varint r)
unfolding Outcome
varint-Outcome r s =
    let (fails, gets) = varint-read_varint r in
    elim (Option-cases (read_varint r.bytes r.pos)) [
      | inl e ↦ inl (fails e)
      | inr ((v, next), e) ↦
          let (_, more, _, within) = read_varint_bounds r.bytes r.pos v next e in
          rw (gets v next e) (inr (next, refl, omega arith, within, before_end r s (omega arith)))
    ]

Failed-fail : (r r' : ByteReader) (m : Message) → Failed r r' → Failed r (fail r' m)
Failed-fail r r' m f =
    let g = fail-Failed r' m in
    record {
      same_bytes = g.same_bytes ∙ f.same_bytes;
      at_end = g.at_end ∙ ap length f.same_bytes;
      noted = g.noted;
      first_wins = λ e h. g.first_wins e (f.first_wins e h);
    }

-- A failure behind a read.
then_fail :
    {A : Type 0} (a : A) (r : ByteReader) (got : A × ByteReader) (m : Message)
    → Outcome a r got
    → Failed r (fail got.1 m)
unfolding Outcome
then_fail a r (v, r') m o = elim o [
  | inl (z, f) ↦ Failed-fail r r' m f
  | inr (n, e, _, _, _) ↦
      subst (λ x. Failed r (fail x m)) (sym e) (Failed-advance r _ n (fail-Failed _ m))
]

pub count-Outcome : (r : ByteReader) → IsSound r → Outcome 0 r (count r)
unfolding count Outcome
count-Outcome r s =
    let (v, r') = varint r in
    either_branch (Outcome 0 r) (ltb (remaining r') v) (0, fail r' (count_exceeds v (remaining r')))
      (v, r') (inl (refl, then_fail 0 r (v, r') _ (varint-Outcome r s))) (varint-Outcome r s)

pub zigzag-Outcome : (r : ByteReader) → IsSound r → Outcome (pos 0) r (zigzag r)
unfolding zigzag Outcome
zigzag-Outcome r s = elim (varint-Outcome r s) [
  | inl (z, f) ↦ inl (ap unzigzag z ∙ unzigzag-zero, f)
  | inr m ↦ inr m
]

module _ {F : Type 0} (zero_float : F) (get_float : List ℕ → F) where
  pub float64-Outcome :
      (r : ByteReader) → IsSound r → Outcome zero_float r (float64 zero_float get_float r)
  unfolding float64 Outcome remaining
  float64-Outcome r s = elim (Bool-cases (ltb (remaining r) 8)) [
    | inl e ↦ rw e (inl (refl, fail-Failed r _))
    | inr e ↦ rw e (inr (r.pos + 8, refl, omega arith, ground arith, before_end r s (ground arith)))
  ]

  pub float32-Outcome :
      (r : ByteReader) → IsSound r → Outcome zero_float r (float32 zero_float get_float r)
  unfolding float32 Outcome remaining
  float32-Outcome r s = elim (Bool-cases (ltb (remaining r) 4)) [
    | inl e ↦ rw e (inl (refl, fail-Failed r _))
    | inr e ↦ rw e (inr (r.pos + 4, refl, omega arith, ground arith, before_end r s (ground arith)))
  ]

-- `count` gives no more than is left.
count_fits : (r : ByteReader) → (count r).0 ≤ remaining (count r).1
unfolding count
count_fits r =
    let (v, r') = varint r in
    branch_cases (λ (x : ℕ × ByteReader). x.0 ≤ remaining x.1) (ltb (remaining r') v)
      (0, fail r' (count_exceeds v (remaining r'))) (v, r') (λ _. omega arith) (λ h. ground arith)

text_read-Outcome :
    (text : Option (List ℕ)) (r : ByteReader) (n k : ℕ)
    → r.pos ≤ k
    → k + n ≤ length r.bytes
    → r.error ≡ none
    → Outcome [] r (text_read text n (record r { pos = k }))
unfolding text_read Outcome
text_read-Outcome none r n k lo fits fine =
    inl (refl, Failed-advance r _ k (fail-Failed (record r { pos = k }) _))
text_read-Outcome (some t) r n k lo fits fine = inr (k + n, refl, omega arith, fits, fine)

-- A reader without an error goes on with the text.
pub string_body-none :
    (slow : List ℕ → Option (List ℕ)) (n : ℕ) (r : ByteReader)
    → r.error ≡ none
    → string_body slow (n, r) ≡ text_read (decode_utf8 slow (slice r n)) n r
unfolding string_body
string_body-none slow n r fine =
    let at : Option (Message × ℕ) → ByteReader =
      λ e. record { error = e; bytes = r.bytes; pos = r.pos } in
    subst (λ e. string_body slow (n, at e) ≡ text_read (decode_utf8 slow (slice (at e) n)) n (at e))
      (sym fine) refl

string_body-some :
    (slow : List ℕ → Option (List ℕ)) (n : ℕ) (r : ByteReader) (m : Message × ℕ)
    → r.error ≡ some m
    → string_body slow (n, r) ≡ ([], r)
unfolding string_body
string_body-some slow n r m h =
    let at : Option (Message × ℕ) → ByteReader =
      λ e. record { error = e; bytes = r.bytes; pos = r.pos } in
    subst (λ e. string_body slow (n, at e) ≡ ([], at e)) (sym h) refl

string_body-Outcome :
    (slow : List ℕ → Option (List ℕ)) (r : ByteReader) (got : ℕ × ByteReader)
    → Outcome 0 r got
    → got.0 ≤ remaining got.1
    → Outcome [] r (string_body slow got)
unfolding Outcome remaining
string_body-Outcome slow r (n, r') (inl (z, f)) fits =
    let (m, h) = f.noted in
    subst (Outcome [] r) (sym (string_body-some slow n r' m h)) (inl (refl, f))
string_body-Outcome slow r (n, r') (inr (k, e, lo, hi, fine)) fits =
    let same : length r'.bytes ≡ length r.bytes = ap (λ x. length (ByteReader.bytes x)) e in
    let place : r'.pos ≡ k = ap ByteReader.pos e in
    subst (λ x. Outcome [] r (string_body slow (n, x))) (sym e)
      (subst (Outcome [] r) (sym (string_body-none slow n (record r { pos = k }) fine))
        (text_read-Outcome _ r n k lo (omega arith) fine))

pub string-Outcome :
    (slow : List ℕ → Option (List ℕ)) (r : ByteReader) → IsSound r → Outcome [] r (string slow r)
unfolding string
string-Outcome slow r s = string_body-Outcome slow r (count r) (count-Outcome r s) (count_fits r)
