-- ===== src/Serializer/Reader/Reads.antt =====
-- What the reads of a `ByteReader` do: the varint against that of the frames, failures, bounds.
use bungohan.Base.{
  ℕ, zero, suc, ◌+◌, ◌*◌, ◌≡◌, refl, subst, Bool, true, false, Option, none, some, ltb, ◌==◌,
  if◌then◌else◌, length, get_elem?, bit_and, inl, inr, Option-cases, arith,
}
use bungohan.Serializer.Varint.{max_varint, read_varint, read_loop}
use bungohan.Serializer.Reader.{ByteReader, Message, fail, varint_loop, varint, varint_above}

-- The second reader comes from the first by a failure: it is at the end, and has an error, which
-- is the first one.
pub record Failed (r r' : ByteReader) : Type 0 where
  pub same_bytes : r'.bytes ≡ r.bytes
  pub at_end : r'.pos ≡ length r.bytes
  pub noted : (e : Message × ℕ) × (r'.error ≡ some e)
  pub first_wins : (e : Message × ℕ) → r.error ≡ some e → r'.error ≡ some e

pub fail-Failed : (r : ByteReader) (m : Message) → Failed r (fail r m)
unfolding fail
fail-Failed r m = elim (Option-cases r.error) [
  | inl e ↦ record {
    same_bytes = refl;
    at_end = refl;
    noted = ((m, r.pos), ground (arith, e));
    first_wins = λ f h. ground (arith, e, h);
  }
  | inr (f, e) ↦ record {
    same_bytes = refl;
    at_end = refl;
    noted = (f, ground (arith, e));
    first_wins = λ g h. ground (arith, e, h);
  }
]

-- A failure behind some bytes read.
pub Failed-advance : (r r' : ByteReader) (n : ℕ) → Failed (record r { pos = n }) r' → Failed r r'
Failed-advance r r' n f = record {
  same_bytes = f.same_bytes;
  at_end = f.at_end;
  noted = f.noted;
  first_wins = f.first_wins;
}

-- A read gives what the frames' reader gives, or fails just where that does.
Agrees : ByteReader → ℕ × ByteReader → Option (ℕ × ℕ) → Type 0
Agrees r (v, r') none = (v ≡ 0) × Failed r r'
Agrees r got (some (v, next)) = got ≡ (v, record r { pos = next })

Agrees-advance :
    (r : ByteReader) (n : ℕ) (got : ℕ × ByteReader) (want : Option (ℕ × ℕ))
    → Agrees (record r { pos = n }) got want
    → Agrees r got want
unfolding Agrees
Agrees-advance r n (v, r') none (z, f) = (z, Failed-advance r r' n f)
Agrees-advance r n got (some (v, next)) h = h

-- A byte ends the varint, in range or not, or more are read.
last_byte-Agrees :
    (r : ByteReader) (n : ℕ) (last above : Bool) (v : ℕ) (more : ℕ × ByteReader)
    (more' : Option (ℕ × ℕ))
    → let r' : ByteReader = record r { pos = n } in
      Agrees r' more more'
      → Agrees r
          (if last then (if above then (0, fail r' varint_above) else (v, r')) else more)
          (if last then (if above then none else some (v, n)) else more')
unfolding Agrees
last_byte-Agrees r n true true v more more' h =
    (refl, Failed-advance r _ n (fail-Failed _ varint_above))
last_byte-Agrees r n true false v more more' h = refl
last_byte-Agrees r n false above v more more' h = Agrees-advance r n more more' h

varint_loop-Agrees :
    (left : ℕ) (r : ByteReader) (value scale : ℕ)
    → Agrees r (varint_loop left r value scale) (read_loop left r.bytes r.pos value scale)
unfolding Agrees varint_loop read_loop
varint_loop-Agrees zero r value scale = (refl, fail-Failed r _)
varint_loop-Agrees (suc left) r value scale = elim (Option-cases (get_elem? r.bytes r.pos)) [
  | inl e ↦ rw (e, varint_loop, read_loop) (refl, fail-Failed r _)
  | inr (b, e) ↦
      let r' : ByteReader = record r { pos = r.pos + 1 } in
      let more = varint_loop-Agrees left r' (value + bit_and b 0x7f * scale) (scale * 0x80) in
      rw (e, varint_loop, read_loop)
        (last_byte-Agrees r (r.pos + 1) (bit_and b 0x80 == 0)
          (ltb max_varint (value + bit_and b 0x7f * scale)) _ _ _ more)
]

-- `varint` agrees with the frames' `readVarint`: where that succeeds it gives the same value and
-- stops at the same byte, and where that fails it gives 0 and fails.
pub varint-read_varint :
    (r : ByteReader)
    → (read_varint r.bytes r.pos ≡ none → ((varint r).0 ≡ 0) × Failed r (varint r).1)
      × ((v next : ℕ)
          → read_varint r.bytes r.pos ≡ some (v, next)
          → varint r ≡ (v, record r { pos = next }))
unfolding varint read_varint Agrees
varint-read_varint r =
    let a = varint_loop-Agrees 5 r 0 1 in
    (
      λ h. subst (Agrees r (varint_loop 5 r 0 1)) h a,
      λ v next h. subst (Agrees r (varint_loop 5 r 0 1)) h a,
    )
