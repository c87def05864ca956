-- ===== src/Serializer/Writer/Grow.antt =====
-- The buffer of a `ByteWriter` grows enough, and keeps what was written.
use bungohan.Base.{
  ℕ, zero, suc, ◌+◌, ◌*◌, ◌≤◌, ◌<◌, ◌≡◌, refl, sym, ap, subst, ◌∙◌, List, [], ◌∷◌, ◌++◌, arith,
  length, set, take, drop, replicate, length-append, length-take, length-set, length-replicate,
  take-append, take-append-drop, append_assoc, set-append, leb, leb→le, branch_cases,
}
use bungohan.Serializer.Writer.{ByteWriter, double, put, reserve, to_bytes}

-- Doubling from 1 or more reaches what is needed.
pub double-enough :
    (fuel needed size : ℕ) → 0 < size → needed < size + fuel → needed ≤ double fuel needed size
unfolding double
double-enough zero needed size p h = omega arith
double-enough (suc fuel) needed size p h =
    ground (arith, double-enough fuel needed (size * 2) (omega arith) (omega arith))

pub length-put : (bytes : List ℕ) (at : ℕ) (bs : List ℕ) → length (put bytes at bs) ≡ length bytes
unfolding put
length-put bytes at [] = refl
length-put bytes at (b ∷ bs) = length-put (set bytes at b) (suc at) bs ∙ length-set bytes at b

-- Bytes put behind a prefix take the place of as many.
pub put-append :
    (pre old bs post : List ℕ) (at : ℕ)
    → at ≡ length pre
    → length old ≡ length bs
    → put (pre ++ (old ++ post)) at bs ≡ pre ++ (bs ++ post)
unfolding put
put-append pre [] [] post at e l = refl
put-append pre (o ∷ old) [] post at e l = absurd (omega arith)
put-append pre [] (b ∷ bs) post at e l = absurd (omega arith)
put-append pre (o ∷ old) (b ∷ bs) post at e l =
    let set_it = set-append pre o (old ++ post) at b e in
    let longer = sym (append_assoc pre (b ∷ []) (old ++ post)) in
    ap (λ x. put x (suc at) bs) (set_it ∙ longer)
    ∙ put-append (pre ++ (b ∷ [])) old bs post (suc at) (omega (arith, length-append pre (b ∷ [])))
        (omega arith)
    ∙ append_assoc pre (b ∷ []) (bs ++ post)

-- A list in three parts, the first two of given lengths.
pub three_parts :
    (n k : ℕ) (xs : List ℕ) → xs ≡ take n xs ++ (take k (drop n xs) ++ drop k (drop n xs))
three_parts n k xs = rw (take-append-drop k (drop n xs)) (sym (take-append-drop n xs))

-- The position lies in the buffer, which is not empty.
pub record IsFit (w : ByteWriter) : Type 0 where
  pub inside : w.size ≤ length w.bytes
  pub there : 0 < length w.bytes

-- What `_reserve` promises: room, and the same contents.
pub record Reserved (w w' : ByteWriter) (extra : ℕ) : Type 0 where
  pub same_size : w'.size ≡ w.size
  pub same_contents : to_bytes w' ≡ to_bytes w
  pub room : w.size + extra ≤ length w'.bytes
  pub there : 0 < length w'.bytes

-- A list copied to the start of a longer one.
take-put_zero :
    (grown pre : List ℕ) → length pre ≤ length grown → take (length pre) (put grown 0 pre) ≡ pre
take-put_zero grown pre h =
    let n = length pre in
    let halves = take-append-drop n grown in
    let placed =
      put-append [] (take n grown) pre (drop n grown) 0 (omega arith)
        (omega (arith, length-take n grown)) in
    ap (λ x. take n (put x 0 pre)) (sym halves)
    ∙ ap (take n) placed
    ∙ take-append pre (drop n grown) n refl

reserve-grown :
    (w : ByteWriter) (grown : List ℕ)
    → w.size ≤ length w.bytes
    → w.size ≤ length grown
    → take w.size (put grown 0 (take w.size w.bytes)) ≡ take w.size w.bytes
reserve-grown w grown h k =
    let pre = take w.size w.bytes in
    let n : length pre ≡ w.size = omega (arith, length-take w.size w.bytes) in
    subst (λ m. take m (put grown 0 pre) ≡ pre) n (take-put_zero grown pre (omega arith))

pub reserve-Reserved : (w : ByteWriter) (extra : ℕ) → IsFit w → Reserved w (reserve w extra) extra
unfolding reserve to_bytes
reserve-Reserved w extra f =
    let needed = w.size + extra in
    let space = double needed needed (length w.bytes * 2) in
    let grown : List ℕ = replicate space 0 in
    let h = f.inside in
    let p = f.there in
    let enough = double-enough needed needed (length w.bytes * 2) (omega arith) (omega arith) in
    let long : length grown ≡ space = length-replicate space 0 in
    let kept : length (put grown 0 (take w.size w.bytes)) ≡ space =
      length-put grown 0 (take w.size w.bytes) ∙ long in
    branch_cases (λ x. Reserved w x extra) (leb needed (length w.bytes)) w
      (record w { bytes = put grown 0 (take w.size w.bytes) })
      (λ roomy. record {
        same_size = refl;
        same_contents = refl;
        room = leb→le _ _ roomy;
        there = p;
      })
      (λ tight.
        let bigger : length w.bytes < needed = ground arith in
        record {
          same_size = refl;
          same_contents = reserve-grown w grown h (omega arith);
          room = omega arith;
          there = omega arith;
        })
