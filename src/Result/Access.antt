-- ===== src/Result/Access.antt =====
-- When the columns of a result can be read.
use vsqlite.Base.{
  ℕ, ◌≤◌, ◌<◌, ◌≡◌, ◌≢◌, ◌⊎◌, arith, ℤ, pos, negsuc, true, false, none, M, undefined, is_ok,
  is_defined, ◌>>=◌, pure,
}
use vsqlite.Sqlite.{Api}
use vsqlite.Connection
use vsqlite.Command
use vsqlite.Command.{Command}
use vsqlite.Result.Conversions.{Target}
use vsqlite.Result.{
  Result, access_check, get_column_decltype, get_column_name, get_column_type, is_null,
  get_binary_size, get_binary_span, get_binary, get_variant, get, unless_null, get_int, get_int64,
  get_double, get_string,
}

-- The ways to read a column.
pub data Read : Type 0 where
  declared_type name kind variant missing size span : Read
  buffer : ℕ → Read
  typed : Target → Read

abbrev pub read : Api → Read → ℤ → M Result (Unit {0})
read api Read.declared_type idx = do _ ← get_column_decltype api idx; pure tt
read api Read.name idx = do _ ← get_column_name api idx; pure tt
read api Read.kind idx = do _ ← get_column_type api idx; pure tt
read api Read.variant idx = do _ ← get_variant api idx; pure tt
read api Read.missing idx = do _ ← is_null api idx; pure tt
read api Read.size idx = do _ ← get_binary_size api idx; pure tt
read api Read.span idx = do _ ← get_binary_span api idx; pure tt
read api (Read.buffer n) idx = do _ ← get_binary api idx n; pure tt
read api (Read.typed t) idx = do _ ← get api t idx; pure tt

-- A column that cannot be read: of a closed connection, of a command without a statement, or none.
abbrev pub IsOutside : Result → ℤ → Type 0
IsOutside r (pos n) = (r.query.con.handle ≡ 0) ⊎ ((r.query.stmt ≡ 0) ⊎ (r.columns ≤ n))
IsOutside r (negsuc n) = Unit {0}

outside :
    (r : Result) (idx : ℤ)
    → IsOutside r idx
    → (is_ok (access_check idx r).0 ≡ false)
      × (is_defined (access_check idx r).0 ≡ true)
      × ((access_check idx r).1 ≡ r)
unfolding access_check Command.check_access Connection.access_check
outside r (pos n) h = ground arith
outside r (negsuc n) h = ground arith

get_outside :
    (api : Api) (t : Target) (idx : ℤ) (r : Result)
    → is_ok (access_check idx r).0 ≡ false
    → is_defined (access_check idx r).0 ≡ true
    → (access_check idx r).1 ≡ r
    → (is_ok (get api t idx r).0 ≡ false)
      × (is_defined (get api t idx r).0 ≡ true)
      × ((get api t idx r).1 ≡ r)
unfolding get is_null unless_null get_int get_int64 get_double get_string get_binary_span
get_outside api (Target.optional t) idx r h d e = ground arith
get_outside api (Target.duration num den) idx r h d e = ground arith
get_outside api (Target.time_point num den) idx r h d e = ground arith
get_outside api (Target.enumeration w s) idx r h d e = ground arith
get_outside api (Target.integral w s) idx r h d e = ground arith
get_outside api Target.boolean idx r h d e = ground arith
get_outside api Target.floating idx r h d e = ground arith
get_outside api Target.string idx r h d e = ground arith
get_outside api Target.byte_vector idx r h d e = ground arith
get_outside api Target.byte_span idx r h d e = ground arith

-- Each way to read a column throws, and changes nothing, if the connection is closed, the command
-- has no statement, or the result has no such column.
pub read_outside :
    (api : Api) (op : Read) (idx : ℤ) (r : Result)
    → IsOutside r idx
    → (is_ok (read api op idx r).0 ≡ false)
      × (is_defined (read api op idx r).0 ≡ true)
      × ((read api op idx r).1 ≡ r)
unfolding get_column_decltype get_column_name get_column_type get_variant is_null get_binary_size
    get_binary_span get_binary unless_null
read_outside api Read.declared_type idx r h = ground (arith, outside r idx h)
read_outside api Read.name idx r h = ground (arith, outside r idx h)
read_outside api Read.kind idx r h = ground (arith, outside r idx h)
read_outside api Read.variant idx r h = ground (arith, outside r idx h)
read_outside api Read.missing idx r h = ground (arith, outside r idx h)
read_outside api Read.size idx r h = ground (arith, outside r idx h)
read_outside api Read.span idx r h = ground (arith, outside r idx h)
read_outside api (Read.buffer n) idx r h = ground (arith, outside r idx h)
read_outside api (Read.typed t) idx r h =
    ground
      (arith, get_outside api t idx r (outside r idx h).0 (outside r idx h).1 (outside r idx h).2)

-- The declared type of a column that SQLite declares none for, such as an expression: the null
-- pointer becomes a string.
pub decltype_undefined :
    (api : Api) (n : ℕ) (r : Result)
    → r.query.con.handle ≢ 0
    → r.query.stmt ≢ 0
    → n < r.columns
    → api.column_decltype r.query.con.log r.statement n ≡ none
    → get_column_decltype api (pos n) r ≡ (undefined, r)
unfolding get_column_decltype access_check Command.check_access Connection.access_check
decltype_undefined api n r h s l e = ground arith
