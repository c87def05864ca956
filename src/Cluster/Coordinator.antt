-- ===== src/Cluster/Coordinator.antt =====
-- packages/core/src/cluster/locks.ts: `fnv1a` and `coordinatorOf`. A string is the list of its
-- UTF-16 code units, which is what both functions walk.
pub mod Rendezvous
mod Runs
use bungohan.Base.{
  ℕ, ◌+◌, ◌*◌, ◌%◌, ◌^◌, Bool, true, false, Option, none, some, List, [], ◌∷◌, ◌++◌, ◌&&◌, ◌||◌,
  ltb, ◌==◌, if◌then◌else◌, bit_xor,
}

abbrev pub Text : Type 0
Text = List ℕ

-- fnv1a: `Math.imul(hash, prime) >>> 0` is the product modulo 2^32.
pub fnv1a_loop : ℕ → Text → ℕ
fnv1a_loop hash [] = hash
fnv1a_loop hash (c ∷ text) = fnv1a_loop (bit_xor hash c * 0x0100_0193 % 2 ^ 32) text

pub fnv1a : Text → ℕ
unfolding fnv1a_loop
fnv1a = fnv1a_loop 0x811c_9dc5

-- `a < b` on strings: by code units, a proper prefix first.
pub text_lt : Text → Text → Bool
text_lt a [] = false
text_lt [] (d ∷ b) = true
text_lt (c ∷ a) (d ∷ b) = let rest = text_lt a b in if c == d then rest else ltb c d

-- The test in the loop, on the scores of the two members.
pub beats : (Text → ℕ) → Text → Text → Bool
unfolding text_lt
beats score member best =
    ltb (score best) (score member) || (score member == score best && text_lt member best)

-- The loop: `best` is undefined, with -1 for its score, until the first member.
pub pick : (Text → ℕ) → Option Text → List Text → Option Text
pick score best [] = best
pick score none (member ∷ members) = pick score (some member) members
pick score (some best) (member ∷ members) =
    pick score (some (if beats score member best then member else best)) members

-- `${pool}\u0000${member}`
pub score_of : Text → Text → ℕ
score_of pool member = fnv1a (pool ++ (0 ∷ member))

-- coordinatorOf
pub coordinator_of : Text → List Text → Option Text
unfolding pick
coordinator_of pool members = pick (score_of pool) none members
