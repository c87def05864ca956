-- ===== src/Base/Number.antt =====
-- A JavaScript number where the code only asks whether it is an integer: `other` is a fraction,
-- an infinity or NaN. (-0 is the integer 0.)
use Prim.Native.Nat.{ℕ}
use mathlib.Core.Option.{Option, none, some}
use bungohan.Base.Int.{ℤ, pos, negsuc}
use bungohan.Base.Tests.{leb, if◌then◌else◌}

pub data Number : Type 0 where
  int : ℤ → Number
  other : Number

-- `Number.isInteger(n) && n >= 0 && n <= bound`, with the number that was tested.
abbrev pub integer_upto : ℕ → Number → Option ℕ
integer_upto bound (int (pos n)) = if leb n bound then some n else none
integer_upto bound (int (negsuc n)) = none
integer_upto bound other = none
