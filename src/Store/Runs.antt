-- ===== src/Store/Runs.antt =====
-- Runs of the store, and its theorems at concrete inputs.
use bungohan.Base.{
  ℕ, ◌+◌, ◌*◌, ◌≤◌, ◌<◌, ◌≡◌, refl, Option, none, some, List, [], ◌∷◌, false, arith,
}
use bungohan.Base.Dict
use bungohan.Base.Int.{pos}
use bungohan.Base.Keys.{string_keys}
use bungohan.Base.Number.{int, other}
use bungohan.Store.{
  failed, invalid_options, connection_failed, Stringified, text, done, value, present, init, live,
  set, get, exists, close, Call, sets, gets, exist, closes, step, answers,
}
use bungohan.Store.Contract.{InOrder, promised, blank}
use bungohan.Store.Refinement.{answers-init}
use bungohan.Store.Deadline.{get-set}

-- Values whose text is the value itself.
abbrev plain : ℕ → Stringified ℕ
plain n = text n

abbrev read_back : ℕ → Option ℕ
read_back n = some n

abbrev script : List (Call ℕ)
script =
    sets 100 "k" 7 (some (int (pos 2)))
    ∷ gets 2099 "k"
    ∷ gets 2100 "k"
    ∷ sets 2100 "k" 8 (some other)
    ∷ exist 2100 "k"
    ∷ closes 2200
    ∷ gets 2300 "k"
    ∷ []

timed_run :
    answers plain read_back init script
    ≡ done
      ∷ value (some 7)
      ∷ value none
      ∷ failed invalid_options
      ∷ present false
      ∷ done
      ∷ failed connection_failed
      ∷ []
unfolding answers step set get exists close init live Dict.get Dict.set Dict.delete
timed_run = refl

answers-init_example : answers plain read_back init script ≡ promised plain read_back blank script
unfolding InOrder
answers-init_example = answers-init plain read_back script (
  omega arith,
  (
    omega arith,
    (omega arith, (omega arith, (omega arith, (omega arith, (omega arith, omega arith))))),
  ),
)

get-set_example :
    (1500 < 100 + 2 * 1000
      → (get plain read_back (set plain read_back init 100 "k" 7 (some (int (pos 2)))).0 1500 "k").1
        ≡ value (some 7))
    × (100 + 2 * 1000 ≤ 1500
        → (get plain read_back
            (set plain read_back init 100 "k" 7 (some (int (pos 2)))).0
            1500
            "k").1
          ≡ value none)
unfolding init
get-set_example = get-set plain read_back init 100 1500 "k" 7 7 7 1 refl refl refl
