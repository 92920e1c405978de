-- ===== src/Base/Int.antt =====
-- Signed integers over the native numbers, and the conversions of 32 and 64 bit words.
use Prim.Native.Nat.{ℕ, suc, ◌+◌, ◌-◌, ◌%◌, ◌<◌}
use mathlib.Core.Path.{◌≡◌}
use native.Mathlib.Omega.{arith}
use mathlib.Core.Bool.{Bool}
use vsqlite.Base.Tests.{ltb, if◌then◌else◌}

-- `negsuc n` is -(n + 1).
pub data ℤ : Type 0 where
  pos : ℕ → ℤ
  negsuc : ℕ → ℤ

abbrev pub pos_part : ℤ → ℕ
pos_part (pos n) = n
pos_part (negsuc n) = 0

abbrev pub neg_part : ℤ → ℕ
neg_part (pos n) = 0
neg_part (negsuc n) = suc n

abbrev pub ltb_ℤ : ℤ → ℤ → Bool
ltb_ℤ a b = ltb (pos_part a + neg_part b) (pos_part b + neg_part a)

-- `static_cast<int>` of a size_t: the low 32 bits, read as two's complement.
unfoldable pub int_of_size : ℕ → ℤ
int_of_size n =
    let r = n % 4294967296 in if ltb r 2147483648 then pos r else negsuc (4294967295 - r)

pub int_of_size_small : (n : ℕ) → n < 2147483648 → int_of_size n ≡ pos n
unfolding int_of_size
int_of_size_small n h = ground arith
