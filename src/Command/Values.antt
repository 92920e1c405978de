-- ===== src/Command/Values.antt =====
-- The C++ values that a command can bind, and the `sqlite3_bind_…` call that each comes down to:
-- the overloads of `command::bind` and the template `command::bind_value`.
use vsqlite.Base.{
  ℕ, suc, ◌-◌, ◌*◌, ◌/◌, true, Text, ℤ, pos, negsuc, int_of_size, length, ltb, if◌then◌else◌, Width,
  cast,
}
use vsqlite.Sqlite.{Binding}

-- A duration or a time point is a count of periods of num/den seconds. The values of an enumeration
-- or of an integral type go by their number.
pub data Value : Type 0 where
  nil : Value
  int : ℤ → Value
  int64 : ℤ → Value
  real : ℕ → Value
  text : Text → Value
  bytes : Text → Value
  absent : Value
  present : Value → Value
  duration : ℤ → ℕ → ℕ → Value
  time_point : ℤ → ℕ → ℕ → Value
  enumerator : ℤ → Value

-- What `operator%` and `operator()` take: a value for the next position, or one that `named` gives
-- a name.
pub data Argument : Type 0 where
  next : Value → Argument
  named : Text → Value → Argument

-- Division of a signed number that rounds towards zero.
unfoldable pub div_trunc : ℤ → ℕ → ℤ
div_trunc (pos n) d = pos (n / d)
div_trunc (negsuc n) d = let q = suc n / d in if ltb 0 q then negsuc (q - 1) else pos 0

unfoldable pub scale : ℤ → ℕ → ℤ
scale (pos n) k = pos (n * k)
scale (negsuc n) k = if ltb 0 k then negsuc (suc n * k - 1) else pos 0

-- `duration_cast<microseconds>(value).count()`
unfoldable pub to_micros : ℤ → ℕ → ℕ → ℤ
unfolding div_trunc scale
to_micros n num den = div_trunc (scale n (num * 1000000)) den

abbrev pub text_binding : Text → Binding
text_binding t = Binding.text t (int_of_size (length t))

abbrev pub blob_binding : Text → Binding
blob_binding b = Binding.blob b (int_of_size (length b))

-- `bind_value`: an int becomes an int64 here, and so does any other integral number or enumerator, by
-- its low 64 bits.
unfoldable pub generic : Value → Binding
unfolding to_micros int_of_size cast
generic nil = Binding.null
generic (int n) = Binding.int64 n
generic (int64 n) = Binding.int64 (cast Width.w64 true n)
generic (real d) = Binding.double d
generic (text t) = text_binding t
generic (bytes b) = blob_binding b
generic absent = Binding.null
generic (present v) = generic v
generic (duration n num den) = Binding.int64 (to_micros n num den)
generic (time_point n num den) = Binding.int64 (to_micros n num den)
generic (enumerator n) = Binding.int64 (cast Width.w64 true n)

-- The overloads of `bind`.
unfoldable pub direct : Value → Binding
unfolding generic
direct (int n) = Binding.int n
direct v = generic v
