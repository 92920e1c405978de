-- ===== src/Result.antt =====
-- result.hpp and result.cpp, and result_construct_params_private.hpp. A result refers to its query,
-- whose state it carries along; the two functions of the parameters are `check_access` and `step`.
pub mod Conversions
pub mod Access
pub mod RoundTrip
pub mod Types
use vsqlite.Base.{
  ℕ, ◌+◌, ◌≡◌, ℤ, pos, negsuc, ltb_ℤ, Bool, true, false, not, Text, List, [], ◌∷◌, codes, length, M,
  Option, none, some, ok, raise, ◌>>=◌, ◌>>◌, pure, throw_if, zoom, Outcome, undefined, fault,
  Exception, database_exception, out_of_range, buffer_too_small_exception, ◌==◌, ltb, ◌||◌,
  if◌then◌else◌, pos_part,
}
use vsqlite.Sqlite.{Api, Log, sqlite_integer, sqlite_float, sqlite_text, sqlite_blob, sqlite_null}
use vsqlite.Command.{Command, check_access}
use vsqlite.Command
use vsqlite.Command.Values.{Value}
use Conversions.{ColumnType, Target, Width, cast, from_micros}

pub record Result : Type 0 where
  pub query : Command
  pub statement : ℕ
  pub changes : ℤ
  pub ended : Bool
  pub columns : ℕ

abbrev pub on_query : {A : Type 0} → M Command A → M Result A
on_query = zoom (λ r. r.query) (λ q r. record r { query = q })

unfoldable pub next_row : Api → M Result Bool
next_row api r =
    if r.ended
    then (ok false, r)
    else (do more ← on_query (Command.step api); λ r'. (ok more, record r' { ended = not more })) r

-- `reset`, which leaves the statement where it stands.
unfoldable pub reset : Result → Result
reset r = record r { ended = false }

abbrev pub no_column : Text
no_column = codes "no such column index"

unfoldable pub access_check : ℤ → M Result (Unit {0})
access_check idx = do
  on_query check_access
  λ r. throw_if (ltb_ℤ idx (pos 0) || not (ltb_ℤ idx (pos r.columns))) (out_of_range no_column) r

-- A question that SQLite answers for a column of the statement, behind the access check.
abbrev pub column {ℓ} : {A : Type ℓ} → (Log → ℕ → ℕ → A) → ℤ → M Result A
column ask idx = do access_check idx; λ r. (ok (ask r.query.con.log r.statement (pos_part idx)), r)

-- A text that is made from a pointer to characters, which must not be null.
abbrev pub from_pointer : Option Text → M Result Text
from_pointer (some t) = pure t
from_pointer none = fault

unfoldable pub get_column_decltype : Api → ℤ → M Result Text
unfolding access_check
get_column_decltype api idx = do t ← column api.column_decltype idx; from_pointer t

unfoldable pub get_column_name : Api → ℤ → M Result Text
unfolding access_check
get_column_name api idx = do t ← column api.column_name idx; from_pointer t

abbrev pub type_of_code : ℕ → ColumnType
type_of_code code =
    if code == sqlite_blob
    then ColumnType.blob
    else if code == sqlite_null
    then ColumnType.null
    else if code == sqlite_float
    then ColumnType.real
    else if code == sqlite_integer
    then ColumnType.integer
    else if code == sqlite_text
    then ColumnType.text
    else ColumnType.unknown

unfoldable pub get_column_type : Api → ℤ → M Result ColumnType
unfolding access_check
get_column_type api idx = do code ← column api.column_type idx; pure (type_of_code code)

unfoldable pub is_null : Api → ℤ → M Result Bool
unfolding access_check
is_null api idx = do code ← column api.column_type idx; pure (code == sqlite_null)

-- What a getter gives for NULL, and what SQLite answers otherwise.
unfoldable pub unless_null {ℓ} : {A : Type ℓ} → Api → A → (Log → ℕ → ℕ → A) → ℤ → M Result A
unfolding access_check
unless_null api default ask =
    column (λ log s i. if api.column_type log s i == sqlite_null then default else ask log s i)

unfoldable pub get_int : Api → ℤ → M Result ℤ
unfolding unless_null
get_int api = unless_null api (pos 0) api.column_int

unfoldable pub get_int64 : Api → ℤ → M Result ℤ
unfolding unless_null
get_int64 api = unless_null api (pos 0) api.column_int64

-- The bits of the number; those of 0.0 are 0.
unfoldable pub get_double : Api → ℤ → M Result ℕ
unfolding unless_null
get_double api = unless_null api 0 api.column_double

-- `get_string` and `get_string_view`
unfoldable pub get_string : Api → ℤ → M Result Text
unfolding unless_null
get_string api = unless_null api (codes "NULL") api.column_bytes

unfoldable pub get_binary_size : Api → ℤ → M Result ℕ
unfolding unless_null
get_binary_size api = unless_null api 0 (λ log s i. length (api.column_bytes log s i))

-- `get_binary_span`, and `get_binary` into a vector
unfoldable pub get_binary_span : Api → ℤ → M Result Text
unfolding unless_null
get_binary_span api = unless_null api [] api.column_bytes

abbrev pub too_small : Text
too_small = codes "buffer too small"

-- `get_binary` into a buffer of a size: the bytes that it writes at the front.
unfoldable pub get_binary : Api → ℤ → ℕ → M Result Text
unfolding get_binary_span
get_binary api idx buf_size = do
  bytes ← get_binary_span api idx
  throw_if (ltb buf_size (length bytes)) (buffer_too_small_exception too_small)
  pure bytes

-- `std::numeric_limits<int>`
abbrev pub int_or_int64 : ℤ → Value
int_or_int64 n =
    if ltb_ℤ (pos 2147483647) n || ltb_ℤ n (negsuc 2147483647) then Value.int64 n else Value.int n

abbrev pub variant_of : Api → ℤ → ColumnType → M Result Value
variant_of api idx ColumnType.integer = do i ← get_int64 api idx; pure (int_or_int64 i)
variant_of api idx ColumnType.blob = do b ← get_binary_span api idx; pure (Value.bytes b)
variant_of api idx ColumnType.real = do x ← get_double api idx; pure (Value.real x)
variant_of api idx ColumnType.null = pure Value.nil
variant_of api idx ColumnType.text = do t ← get_string api idx; pure (Value.text t)
variant_of api idx ColumnType.unknown = do t ← get_string api idx; pure (Value.text t)

unfoldable pub get_variant : Api → ℤ → M Result Value
unfolding get_column_type get_int64 get_binary_span get_double get_string
get_variant api idx = do t ← get_column_type api idx; variant_of api idx t

-- `get<T>`
unfoldable pub get : Api → Target → ℤ → M Result Value
unfolding is_null get_int64 get_int get_double get_string get_binary_span
get api (Target.optional t) idx = do
  missing ← is_null api idx
  λ r.
      let rest = get api t idx r in
      if missing then (ok Value.absent, r) else (do v ← λ _. rest; pure (Value.present v)) r
get api (Target.duration num den) idx = do
  micros ← get_int64 api idx
  pure (Value.duration (from_micros micros num den) num den)
get api (Target.time_point num den) idx = do
  micros ← get_int64 api idx
  pure (Value.time_point (from_micros micros num den) num den)
get api (Target.enumeration w s) idx = do
  n ← get_int64 api idx
  pure (Value.enumerator (cast w s n))
get api (Target.integral w s) idx = do n ← get_int64 api idx; pure (Value.int64 (cast w s n))
get api Target.boolean idx = do
  n ← get_int api idx
  pure (Value.int64 (if ltb_ℤ n (pos 0) || ltb_ℤ (pos 0) n then pos 1 else pos 0))
get api Target.floating idx = do x ← get_double api idx; pure (Value.real x)
get api Target.string idx = do t ← get_string api idx; pure (Value.text t)
get api Target.byte_vector idx = do b ← get_binary_span api idx; pure (Value.bytes b)
get api Target.byte_span idx = do b ← get_binary_span api idx; pure (Value.bytes b)

abbrev pub tuple_too_long : Text
tuple_too_long = codes "Tuple columns exceed result column count."

unfoldable pub tuple_from_row : Api → List Target → ℕ → M Result (List Value)
tuple_from_row api [] idx = pure []
tuple_from_row api (t ∷ ts) idx = do
  v ← get api t (pos idx)
  vs ← tuple_from_row api ts (idx + 1)
  pure (v ∷ vs)

unfoldable pub get_tuple : Api → List Target → ℤ → M Result (List Value)
get_tuple api ts start = do
  λ r.
      throw_if (ltb_ℤ start (pos 0) || ltb r.columns (pos_part start + length ts))
        (database_exception tuple_too_long) r
  tuple_from_row api ts (pos_part start)

unfoldable pub get_changes : Result → ℤ
get_changes r = r.changes

unfoldable pub get_column_count : Result → ℕ
get_column_count r = r.columns
