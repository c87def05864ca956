-- ===== src/Numbers/Runs.antt =====
-- Runs of the coercions, and their theorems at concrete inputs.
use bungohan.Base.{ℕ, ◌*◌, ◌+◌, ◌/◌, ◌≡◌, refl, true, false, some}
use bungohan.Base.Int.{negsuc}
use bungohan.Numbers.{Double, finite, half, double, int8, is_int_of, to_int, exact}
use bungohan.Numbers.Ranges.{to_int-is_int_of}

-- 200.5 is too large for eight bits with a sign; -7.5 is cut to -7.
cut : to_int (finite true 7 half) int8 ≡ negsuc 6
unfolding to_int
cut = refl

to_int-is_int_of_example :
    (is_int_of (some (double (to_int (finite false 200 half) int8))) int8 ≡ true)
    × (is_int_of (some (double (negsuc 6))) int8 ≡ true
        → to_int (double (negsuc 6)) int8 ≡ negsuc 6)
to_int-is_int_of_example = to_int-is_int_of (finite false 200 half) (negsuc 6) int8

-- One decimal place of -7.5, of whole numbers and halves exactly: -75.
abbrev tenfold : Double → ℕ → Double
tenfold (finite negative n half) scale = finite negative (n * scale + scale / 2) exact
tenfold (finite negative n f) scale = finite negative (n * scale) f
tenfold value scale = value
