-- ===== src/Sqlite.antt =====
-- The SQLite C interface, as connection.cpp, command.cpp, query.cpp, result.cpp and
-- statement_cache.cpp use it. SQLite is not part of the repository: it is a parameter, the record
-- `Api` below, whose answers depend on all the calls made before. No law of it is assumed here.
-- Pointers are numbers, and the null pointer is 0. Result codes are numbers.
use vsqlite.Base.{
  ℕ, zero, suc, ◌+◌, ℤ, Text, List, [], ◌∷◌, Option, count, pos, negsuc, take, c_str,
}

-- The codes that the sources name.
abbrev pub sqlite_ok : ℕ
sqlite_ok = 0

abbrev pub sqlite_error : ℕ
sqlite_error = 1

abbrev pub sqlite_busy : ℕ
sqlite_busy = 5

abbrev pub sqlite_misuse : ℕ
sqlite_misuse = 21

abbrev pub sqlite_row : ℕ
sqlite_row = 100

abbrev pub sqlite_done : ℕ
sqlite_done = 101

-- The kinds of value that `sqlite3_column_type` and `sqlite3_value_type` report.
abbrev pub sqlite_integer : ℕ
sqlite_integer = 1

abbrev pub sqlite_float : ℕ
sqlite_float = 2

abbrev pub sqlite_text : ℕ
sqlite_text = 3

abbrev pub sqlite_blob : ℕ
sqlite_blob = 4

abbrev pub sqlite_null : ℕ
sqlite_null = 5

-- What one of the `sqlite3_bind_…` functions is given. The sizes are the `int` arguments; a double
-- goes by the 64 bits that represent it.
pub data Binding : Type 0 where
  null : Binding
  int : ℤ → Binding
  int64 : ℤ → Binding
  double : ℕ → Binding
  text : Text → ℤ → Binding
  blob : Text → ℤ → Binding

-- What SQLite copies of a text, by the size that it is given: a negative size stands for all before
-- the first zero.
abbrev pub text_of_size : Text → ℤ → Text
text_of_size t (pos n) = take n t
text_of_size t (negsuc n) = c_str t

-- The calls that change something inside SQLite or on the disk.
pub data Call : Type 0 where
  open_v2 : Text → ℕ → Call
  close : ℕ → Call
  extended_result_codes : ℕ → ℕ → Call
  prepare_v2 : ℕ → Text → Call
  bind_value : ℕ → ℤ → Binding → Call
  step : ℕ → Call
  reset : ℕ → Call
  clear_bindings : ℕ → Call
  finalize : ℕ → Call
  remove_file : Text → Call

-- All calls made so far, the latest first.
abbrev pub Log : Type 0
Log = List Call

-- The answers. `open_v2` and `prepare_v2` give a code and the pointer that they store.
pub record Api : Type 0 where
  pub open_v2 : Log → Text → ℕ → ℕ × ℕ
  pub close : Log → ℕ → ℕ
  pub prepare_v2 : Log → ℕ → Text → ℕ × ℕ
  pub bind_value : Log → ℕ → ℤ → Binding → ℕ
  pub bind_parameter_index : Log → ℕ → Text → ℕ
  pub step : Log → ℕ → ℕ
  pub db_handle : Log → ℕ → ℕ
  pub errmsg : Log → ℕ → Text
  pub changes : Log → ℕ → ℤ
  pub last_insert_rowid : Log → ℕ → ℤ
  pub column_count : Log → ℕ → ℕ
  pub column_type : Log → ℕ → ℕ → ℕ
  pub column_int : Log → ℕ → ℕ → ℤ
  pub column_int64 : Log → ℕ → ℕ → ℤ
  pub column_double : Log → ℕ → ℕ → ℕ
  pub column_bytes : Log → ℕ → ℕ → Text
  pub column_decltype : Log → ℕ → ℕ → Option Text
  pub column_name : Log → ℕ → ℕ → Option Text

-- The statements that `sqlite3_finalize` was called for, without the calls at a null pointer, which
-- are harmless.
abbrev pub finalized : Log → List ℕ
finalized [] = []
finalized (Call.finalize zero ∷ log) = finalized log
finalized (Call.finalize (suc s) ∷ log) = suc s ∷ finalized log
finalized (_ ∷ log) = finalized log

-- The pointer, unless it is null.
abbrev pub non_null : ℕ → List ℕ
non_null zero = []
non_null (suc s) = suc s ∷ []

-- How often `sqlite3_prepare_v2` has given a statement, from its answers to the log.
abbrev pub prepared : Api → Log → ℕ → ℕ
prepared api [] s = 0
prepared api (Call.prepare_v2 h sql ∷ log) s =
    count s (non_null (api.prepare_v2 log h sql).1) + prepared api log s
prepared api (_ ∷ log) s = prepared api log s
