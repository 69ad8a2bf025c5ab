-- ===== src/Base/Decimal.antt =====
-- `to_string` of an unsigned integer, and of an `i64`.
use capsi.Base.Tests.{ltb, if◌then◌else◌}
use Prim.Native.Nat.{ℕ, zero, suc, ◌+◌, ◌/◌, ◌%◌}
use mathlib.Core.List.{[], ◌∷◌}
use capsi.Base.Strings.{Text, codes}
use capsi.Base.Int.{ℤ, pos, negsuc}
use mathlib.Core.Path.{◌≡◌, refl}

-- The digits of `n` before `out`. A number below the fuel has fewer digits than the fuel.
unfoldable pub digits : (fuel n : ℕ) → Text → Text
digits zero n out = out
digits (suc fuel) n out =
    let out' = (b'0' + n % 10) ∷ out in
    let rest = digits fuel (n / 10) out' in if ltb n 10 then out' else rest

unfoldable pub to_decimal : ℕ → Text
unfolding digits
to_decimal n = digits (suc n) n []

unfoldable pub to_decimal_ℤ : ℤ → Text
unfolding to_decimal
to_decimal_ℤ (pos n) = to_decimal n
to_decimal_ℤ (negsuc n) = b'-' ∷ to_decimal (suc n)

to_decimal_test : to_decimal 45893 ≡ codes "45893"
unfolding to_decimal
to_decimal_test = refl
