-- ===== src/Base/Words.antt =====
-- The conversions among the integral types of C++, which are words of 8 to 64 bits.
use Prim.Native.Nat.{ℕ, ◌+◌, ◌-◌, ◌%◌, ◌<◌}
use mathlib.Core.Path.{◌≡◌}
use mathlib.Core.Bool.{Bool, true, false}
use native.Mathlib.Omega.{arith}
use vsqlite.Base.Tests.{ltb, if◌then◌else◌}
use vsqlite.Base.Int.{ℤ, pos, negsuc}

pub data Width : Type 0 where
  w8 w16 w32 w64 : Width

abbrev pub half : Width → ℕ
half Width.w8 = 128
half Width.w16 = 32768
half Width.w32 = 2147483648
half Width.w64 = 9223372036854775808

-- The bits of a signed number in a word of the width, as an unsigned number.
unfoldable pub low_bits : Width → ℤ → ℕ
low_bits w (pos n) = n % (half w + half w)
low_bits w (negsuc n) = (half w + half w - 1) - n % (half w + half w)

-- `static_cast` to an integral type of the width, which is signed or not.
unfoldable pub cast : Width → Bool → ℤ → ℤ
unfolding low_bits
cast w false n = pos (low_bits w n)
cast w true n =
    let b = low_bits w n in if ltb b (half w) then pos b else negsuc (half w + half w - 1 - b)

-- The numbers of the integral type.
abbrev pub InRange : Width → Bool → ℤ → Type 0
InRange w true (pos n) = n < half w
InRange w true (negsuc n) = n < half w
InRange w false (pos n) = n < half w + half w
InRange w false (negsuc n) = ⊥

low_bits_pos : (w : Width) (n : ℕ) → n < half w + half w → low_bits w (pos n) ≡ n
unfolding low_bits
low_bits_pos Width.w8 n h = omega arith
low_bits_pos Width.w16 n h = omega arith
low_bits_pos Width.w32 n h = omega arith
low_bits_pos Width.w64 n h = omega arith

low_bits_negsuc : (w : Width) (n : ℕ) → n < half w → low_bits w (negsuc n) ≡ half w + half w - 1 - n
unfolding low_bits
low_bits_negsuc Width.w8 n h = omega arith
low_bits_negsuc Width.w16 n h = omega arith
low_bits_negsuc Width.w32 n h = omega arith
low_bits_negsuc Width.w64 n h = omega arith

-- A conversion to an integral type keeps the numbers of that type.
pub cast_of_InRange : (w : Width) (s : Bool) (n : ℤ) → InRange w s n → cast w s n ≡ n
unfolding cast
cast_of_InRange w true (pos n) h = ground (arith, low_bits_pos w n)
cast_of_InRange w true (negsuc n) h = ground (arith, low_bits_negsuc w n)
cast_of_InRange w false (pos n) h = ground (arith, low_bits_pos w n)
cast_of_InRange w false (negsuc n) h = absurd h

-- A number of any integral type survives the way through 64 signed bits.
pub cast-cast :
    (w : Width) (s : Bool) (n : ℤ) → InRange w s n → cast w s (cast Width.w64 true n) ≡ n
unfolding cast low_bits
cast-cast Width.w8 true (pos n) h = ground arith
cast-cast Width.w8 true (negsuc n) h = ground arith
cast-cast Width.w8 false (pos n) h = ground arith
cast-cast Width.w16 true (pos n) h = ground arith
cast-cast Width.w16 true (negsuc n) h = ground arith
cast-cast Width.w16 false (pos n) h = ground arith
cast-cast Width.w32 true (pos n) h = ground arith
cast-cast Width.w32 true (negsuc n) h = ground arith
cast-cast Width.w32 false (pos n) h = ground arith
cast-cast Width.w64 true (pos n) h = ground arith
cast-cast Width.w64 true (negsuc n) h = ground arith
cast-cast Width.w64 false (pos n) h = ground arith
cast-cast w false (negsuc n) h = absurd h
