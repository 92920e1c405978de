-- ===== src/Base/Decimal.antt =====
-- `std::to_string` of a number that is not negative, and how a decimal is read back.
use Prim.Native.Nat.{ℕ, zero, suc, ◌+◌, ◌-◌, ◌*◌, ◌/◌, ◌%◌, ◌<◌}
use mathlib.Core.Path.{◌≡◌, refl}
use mathlib.Core.Bool.{Bool, ◌&&◌}
use mathlib.Core.List.{[], ◌∷◌, ◌++◌}
use native.Mathlib.Omega.{arith}
use vsqlite.Base.Tests.{ltb, leb, if◌then◌else◌}
use vsqlite.Base.Texts.{Text}

-- The digits of a number before a text. A number has fewer digits than its successor counts, so
-- that is fuel enough.
unfoldable pub digits_before : ℕ → ℕ → Text → Text
digits_before zero n out = out
digits_before (suc fuel) n out =
    let more = digits_before fuel (n / 10) ((b'0' + n % 10) ∷ out) in
    if ltb n 10 then (b'0' + n) ∷ out else more

unfoldable pub to_decimal : ℕ → Text
unfolding digits_before
to_decimal n = digits_before (suc n) n []

abbrev pub is_digit : ℕ → Bool
is_digit c = leb b'0' c && leb c b'9'

-- The number that a text begins with, on top of digits that are read, and what follows it.
unfoldable pub read_decimal : Text → ℕ → ℕ × Text
read_decimal [] n = (n, [])
read_decimal (c ∷ s) n =
    let more = read_decimal s (n * 10 + (c - b'0')) in if is_digit c then more else (n, c ∷ s)

pub digits_before-append :
    (fuel n : ℕ) (out rest : Text)
    → digits_before fuel n out ++ rest ≡ digits_before fuel n (out ++ rest)
unfolding digits_before
digits_before-append zero n out rest = refl
digits_before-append (suc fuel) n out rest =
    ground (arith, digits_before-append fuel (n / 10) ((b'0' + n % 10) ∷ out) rest)

-- Enough fuel gives all the digits, and they are read back as the number.
pub read_decimal-digits_before :
    (fuel n : ℕ) (out : Text)
    → n < fuel
    → read_decimal (digits_before fuel n out) 0 ≡ read_decimal out n
unfolding digits_before read_decimal
read_decimal-digits_before zero n out h = absurd (omega arith)
read_decimal-digits_before (suc fuel) n out h =
    ground (arith, read_decimal-digits_before fuel (n / 10) ((b'0' + n % 10) ∷ out))
