-- ===== src/Result/Conversions.antt =====
-- The types that `result::get<T>` converts to, and the conversions of numbers behind it.
use vsqlite.Base.{ℕ, ◌*◌, Bool, ℤ}
pub use vsqlite.Base.{Width, InRange, half, cast_of_InRange, cast-cast}
unfoldable pub use vsqlite.Base.{low_bits, cast}
use vsqlite.Command.Values.{div_trunc, scale}

-- `sqlite::type`
pub data ColumnType : Type 0 where
  unknown null integer real text blob : ColumnType

-- The branches of `get<T>`, by what T is. The underlying type of an enumeration enters by its
-- width and its sign.
pub data Target : Type 0 where
  optional : Target → Target
  duration : ℕ → ℕ → Target
  time_point : ℕ → ℕ → Target
  enumeration : Width → Bool → Target
  integral : Width → Bool → Target
  boolean : Target
  floating : Target
  string : Target
  byte_vector : Target
  byte_span : Target

-- `duration_cast` from microseconds to periods of num/den seconds.
unfoldable pub from_micros : ℤ → ℕ → ℕ → ℤ
unfolding div_trunc scale
from_micros m num den = div_trunc (scale m den) (num * 1000000)
