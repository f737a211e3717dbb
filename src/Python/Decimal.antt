-- ===== src/Python/Decimal.antt =====
-- Decimal text of an integer, as `str` and `%d` write it.
use rostam_bench.Base.{ℕ, zero, suc, ◌+◌, ◌/◌, ◌%◌, [], ◌∷◌, ltb, if◌then◌else◌}
use rostam_bench.Base.Int.{ℤ, pos, negsuc}
use rostam_bench.Python.Errors.{Text}

-- The digits of `n`, in front of `out`; each round but the last divides by ten.
unfoldable pub digits : ℕ → ℕ → Text → Text
digits zero n out = out
digits (suc f) n out =
    let more = digits f (n / 10) ((b'0' + n % 10) ∷ out) in
    if ltb n 10 then (b'0' + n) ∷ out else more

-- `n + 1` rounds are more than the digits of `n`.
unfoldable pub decimal : ℕ → Text
unfolding digits
decimal n = digits (suc n) n []

unfoldable pub decimal_int : ℤ → Text
decimal_int (pos n) = decimal n
decimal_int (negsuc n) = b'-' ∷ decimal (suc n)
