-- ===== src/Base/Decimal.antt =====
-- Decimal numerals, as `fmt`'s %d and `strconv.Itoa` print a natural number.
use Prim.Native.Nat.{ℕ, zero, suc, ◌+◌, ◌/◌, ◌%◌}
use mathlib.Core.List.{[], ◌∷◌}
use monitord.Base.Tests.{◌==◌, if◌then◌else◌}
use monitord.Base.Texts.{Text}

-- The digits of `n` before `rest`; fuel above `n` is enough.
print_digits : ℕ → ℕ → Text → Text
print_digits zero n rest = rest
print_digits (suc fuel) n rest =
    let out = (48 + n % 10) ∷ rest in
    let more = print_digits fuel (n / 10) out in if n / 10 == 0 then out else more

unfoldable pub decimal : ℕ → Text
unfolding print_digits
decimal n = print_digits (suc n) n []
