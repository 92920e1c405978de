-- ===== src/Result/RoundTrip.antt =====
-- Values that come back as they were bound.
use vsqlite.Base.{
  ℕ, suc, ◌*◌, ◌/◌, ◌<◌, ◌≡◌, ◌≢◌, sym, subst, ap, ◌∙◌, arith, ℤ, pos, negsuc, Bool, true, false,
  Text, ok, length, take, take_of_length-le, int_of_size_small,
}
use native.Mathlib.Nat.{mul-div_cancel, mul_assoc, mul-pos}
use vsqlite.Sqlite.{
  Api, Log, Binding, sqlite_integer, sqlite_float, sqlite_text, sqlite_blob, sqlite_null,
  text_of_size,
}
use vsqlite.Command.Values.{Value, div_trunc, scale, to_micros, generic}
use vsqlite.Connection
use vsqlite.Command
use vsqlite.Result.Conversions.{
  from_micros, Target, Width, InRange, cast, cast_of_InRange, cast-cast,
}
use vsqlite.Result.{
  Result, get, access_check, is_null, unless_null, get_int64, get_int, get_double, get_string,
  get_binary_span,
}

div_mul : (a k d : ℕ) → 0 < d → a * (k * d) / d ≡ a * k
div_mul a k d q = ap (λ m. m / d) (sym (mul_assoc a k d)) ∙ mul-div_cancel (a * k) q

div_trunc-scale : (x : ℤ) (k d : ℕ) → 0 < k → 0 < d → div_trunc (scale x (k * d)) d ≡ scale x k
unfolding div_trunc scale
div_trunc-scale (pos n) k d p q = ap pos (div_mul n k d q)
div_trunc-scale (negsuc n) k d p q =
    let pk : 0 < suc n * k = mul-pos (omega arith) p in
    let pd : 0 < suc n * (k * d) = mul-pos (omega arith) (mul-pos p q) in
    ground (arith, div_mul (suc n) k d q, mul-pos p q, pk, pd)

scale-scale : (x : ℤ) (a b : ℕ) → 0 < a → 0 < b → scale (scale x a) b ≡ scale x (a * b)
unfolding scale
scale-scale (pos n) a b p q = ap pos (mul_assoc n a b)
scale-scale (negsuc n) a b p q =
    let pa : 0 < suc n * a = mul-pos (omega arith) p in
    ground (arith, mul-pos p q, pa, mul_assoc (suc n) a b)

scale_one : (x : ℤ) → scale x 1 ≡ x
unfolding scale
scale_one (pos n) = ap pos (omega arith)
scale_one (negsuc n) = ground arith

-- A duration whose period is k microseconds comes back from the microseconds that are bound.
pub from_micros-to_micros :
    (n : ℤ) (num den k : ℕ)
    → 0 < den
    → 0 < k
    → num * 1000000 ≡ k * den
    → from_micros (to_micros n num den) num den ≡ n
unfolding from_micros to_micros
from_micros-to_micros n num den k p q e =
    let there : div_trunc (scale n (num * 1000000)) den ≡ scale n k =
      ap (λ m. div_trunc (scale n m) den) e ∙ div_trunc-scale n k den q p in
    let whole : scale (scale n k) den ≡ scale n (1 * (num * 1000000)) =
      scale-scale n k den q p ∙ ap (scale n) (omega (arith, e)) in
    let period : 0 < num * 1000000 = subst (λ m. 0 < m) (sym e) (mul-pos q p) in
    ap (λ m. div_trunc (scale m den) (num * 1000000)) there
    ∙ ap (λ m. div_trunc m (num * 1000000)) whole
    ∙ div_trunc-scale n 1 (num * 1000000) (omega arith) period
    ∙ scale_one n

-- What SQLite answers for a column that holds what was bound. A number that is asked for as an int
-- comes as its low 32 bits. Of a text or of bytes SQLite copies as much as the size says; for bytes
-- a negative size is an error.
abbrev pub Holds : Api → Log → ℕ → ℕ → Binding → Type 0
Holds api log s i Binding.null = api.column_type log s i ≡ sqlite_null
Holds api log s i (Binding.int n) =
    (api.column_type log s i ≡ sqlite_integer)
    × (api.column_int64 log s i ≡ n)
    × (api.column_int log s i ≡ cast Width.w32 true n)
Holds api log s i (Binding.int64 n) =
    (api.column_type log s i ≡ sqlite_integer)
    × (api.column_int64 log s i ≡ n)
    × (api.column_int log s i ≡ cast Width.w32 true n)
Holds api log s i (Binding.double x) =
    (api.column_type log s i ≡ sqlite_float) × (api.column_double log s i ≡ x)
Holds api log s i (Binding.text t n) =
    (api.column_type log s i ≡ sqlite_text) × (api.column_bytes log s i ≡ text_of_size t n)
Holds api log s i (Binding.blob b (pos n)) =
    (api.column_type log s i ≡ sqlite_blob) × (api.column_bytes log s i ≡ take n b)
Holds api log s i (Binding.blob b (negsuc n)) = ⊥

-- The values of a type of C++, with the type that brings them back. A duration or a time point has
-- a period of whole microseconds and 64 bits of them, and a text or bytes are fewer than 2^31.
pub data Fits : Target → Value → Type 0 where
  enumerator :
      (w : Width) (s : Bool) (n : ℤ)
      → InRange w s n
      → Fits (Target.enumeration w s) (Value.enumerator n)
  integral :
      (w : Width) (s : Bool) (n : ℤ) → InRange w s n → Fits (Target.integral w s) (Value.int64 n)
  duration :
      (n : ℤ) (num den k : ℕ)
      → 0 < den
      → 0 < k
      → num * 1000000 ≡ k * den
      → InRange Width.w64 true (to_micros n num den)
      → Fits (Target.duration num den) (Value.duration n num den)
  time_point :
      (n : ℤ) (num den k : ℕ)
      → 0 < den
      → 0 < k
      → num * 1000000 ≡ k * den
      → InRange Width.w64 true (to_micros n num den)
      → Fits (Target.time_point num den) (Value.time_point n num den)
  no : Fits Target.boolean (Value.int64 (pos 0))
  yes : Fits Target.boolean (Value.int64 (pos 1))
  real : (x : ℕ) → Fits Target.floating (Value.real x)
  string : (t : Text) → length t < 2147483648 → Fits Target.string (Value.text t)
  byte_vector : (b : Text) → length b < 2147483648 → Fits Target.byte_vector (Value.bytes b)
  byte_span : (b : Text) → length b < 2147483648 → Fits Target.byte_span (Value.bytes b)

pub data FitsOptional : Target → Value → Type 0 where
  plain : (t : Target) (v : Value) → Fits t v → FitsOptional t v
  absent : (t : Target) → FitsOptional (Target.optional t) Value.absent
  present : (t : Target) (v : Value) → Fits t v → FitsOptional (Target.optional t) (Value.present v)

readable :
    (i : ℕ) (r : Result)
    → r.query.con.handle ≢ 0
    → r.query.stmt ≢ 0
    → i < r.columns
    → access_check (pos i) r ≡ (ok tt, r)
unfolding access_check Command.check_access Connection.access_check
readable i r h s l = ground arith

get-Fits :
    (api : Api) (i : ℕ) (r : Result) (t : Target) (v : Value)
    → Fits t v
    → access_check (pos i) r ≡ (ok tt, r)
    → Holds api r.query.con.log r.statement i (generic v)
    → (get api t (pos i) r ≡ (ok v, r)) × (is_null api (pos i) r ≡ (ok false, r))
unfolding get is_null generic unless_null get_int64 get_int get_double get_string get_binary_span
get-Fits api i r _ _ (Fits.integral w s n h) a c = ground (arith, cast-cast w s n h)
get-Fits api i r _ _ (Fits.enumerator w s n h) a c = ground (arith, cast-cast w s n h)
get-Fits api i r _ _ (Fits.duration n num den k p q e b) a c =
    ground (arith, from_micros-to_micros n num den k p q e)
get-Fits api i r _ _ (Fits.time_point n num den k p q e b) a c =
    ground (arith, from_micros-to_micros n num den k p q e)
get-Fits api i r _ _ Fits.no a c =
    ground (arith, cast_of_InRange Width.w32 true (pos 0), cast_of_InRange Width.w64 true (pos 0))
get-Fits api i r _ _ Fits.yes a c =
    ground (arith, cast_of_InRange Width.w32 true (pos 1), cast_of_InRange Width.w64 true (pos 1))
get-Fits api i r _ _ (Fits.real x) a c = ground arith
get-Fits api i r _ _ (Fits.string t h) a c =
    ground (arith, int_of_size_small (length t), take_of_length-le (length t) t)
get-Fits api i r _ _ (Fits.byte_vector b h) a c =
    ground (arith, int_of_size_small (length b), take_of_length-le (length b) b)
get-Fits api i r _ _ (Fits.byte_span b h) a c =
    ground (arith, int_of_size_small (length b), take_of_length-le (length b) b)

-- A value that was bound comes back through `get` of its type: of a number in the range of that
-- type, of a duration or a time point whose period is a whole number of microseconds and which fits 64 bits
-- of them, of a Boolean,
-- a double, a text or bytes of fewer than 2^31 bytes, and of an optional one of these, if SQLite gives
-- back what it was given, as much of it as it was given. The numbers are those of any integral type
-- or enumeration, the unsigned ones of 64 bits too.
pub get-generic :
    (api : Api) (i : ℕ) (r : Result) (t : Target) (v : Value)
    → FitsOptional t v
    → r.query.con.handle ≢ 0
    → r.query.stmt ≢ 0
    → i < r.columns
    → Holds api r.query.con.log r.statement i (generic v)
    → get api t (pos i) r ≡ (ok v, r)
unfolding get is_null generic
get-generic api i r _ _ (FitsOptional.plain t v f) h s l c =
    (get-Fits api i r t v f (readable i r h s l) c).0
get-generic api i r _ _ (FitsOptional.absent t) h s l c = ground (arith, readable i r h s l)
get-generic api i r _ _ (FitsOptional.present t v f) h s l c =
    ground (arith, get-Fits api i r t v f (readable i r h s l) c)
