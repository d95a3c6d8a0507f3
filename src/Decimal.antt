-- ===== src/Decimal.antt =====
-- The decimal text of a number, `%d` of the formats.
pub mod Laws
use Prim.Native.String.{char_at}
use Prim.Native.Nat.{◌%◌, ◌/◌}
use booking_orchestration_se.Base.{ℕ, zero, suc, String, ◌==◌, if◌then◌else◌}

-- `fmt`'s `%d`: the digits of `n`, in front of `rest`. The fuel is more than the digits.
unfoldable digits_of : ℕ → ℕ → String → String
digits_of zero n rest = rest
digits_of (suc fuel) n rest =
    let shown = String.◌∷◌ (char_at "0123456789" (n % 10)) rest in
    let more = digits_of fuel (n / 10) shown in if n / 10 == 0 then shown else more

unfoldable pub decimal : ℕ → String
unfolding digits_of
decimal n = digits_of (suc n) n ""
