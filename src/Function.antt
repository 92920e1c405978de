-- ===== src/Function.antt =====
-- function.hpp: C++ callables as functions of SQL. The callable is its client's code, and so a
-- parameter; a value of SQLite goes by the answers of the `sqlite3_value_…` functions to it.
pub mod Entry
pub mod Conversions
pub mod Registration
pub mod Types
use vsqlite.Base.{
  ℕ, ℤ, pos, ltb_ℤ, Bool, true, false, ◌||◌, not, Text, List, [], ◌∷◌, ◌++◌, codes, length, Option,
  none, some, is_empty, int_of_size, Outcome, ok, raise, chain, database_exception, Exception, ◌==◌,
  if◌then◌else◌, bit_or,
}
use vsqlite.Sqlite.{sqlite_null}
use vsqlite.Result.Conversions.{Width, cast}

-- `text` is none where `sqlite3_value_text` gives a null pointer.
pub record SqlValue : Type 0 where
  pub kind : ℕ
  pub int64 : ℤ
  pub int : ℤ
  pub double : ℕ
  pub text : Option Text
  pub blob : Text

-- The type of a parameter of the callable, by the specialisation of `argument_converter`: `view` is
-- a std::string_view, and `text` what is made of one.
pub data Parameter : Type 0 where
  integral : Width → Bool → Parameter
  boolean : Parameter
  floating : Parameter
  text : Parameter
  view : Parameter
  bytes : Parameter
  value : Parameter
  optional : Parameter → Parameter

-- What the callable is passed, and what it returns. A text has an address; `null_view` is the
-- std::string_view that has none.
pub data Datum : Type 0 where
  nothing : Datum
  integer : ℤ → Datum
  truth : Bool → Datum
  number : ℕ → Datum
  text : Text → Datum
  null_view : Datum
  bytes : Text → Datum
  value : SqlValue → Datum
  absent : Datum
  present : Datum → Datum

pub null_argument : Text
null_argument = codes "NULL passed to SQL function argument but callable parameter is not nullable."

-- `if (sqlite3_value_type(value) == SQLITE_NULL) throw_null_argument_error();`
abbrev pub unless_null : SqlValue → Datum → Outcome Datum
unless_null v d = if v.kind == sqlite_null then raise (database_exception null_argument) else ok d

-- `argument_converter<std::string_view>`: a null pointer makes an empty view, of which a text of no
-- bytes is made.
abbrev pub view_of : Option Text → Datum
view_of none = Datum.null_view
view_of (some t) = Datum.text t

abbrev pub view_text : Option Text → Text
view_text none = []
view_text (some t) = t

abbrev pub mark_present : Outcome Datum → Outcome Datum
mark_present (ok d) = ok (Datum.present d)
mark_present (raise e) = raise e
mark_present Outcome.undefined = Outcome.undefined

-- `argument_converter<T>::convert`
unfoldable pub convert : Parameter → SqlValue → Outcome Datum
unfolding cast
convert (Parameter.integral w s) v = unless_null v (Datum.integer (cast w s v.int64))
convert Parameter.boolean v =
    unless_null v (Datum.truth (ltb_ℤ v.int (pos 0) || ltb_ℤ (pos 0) v.int))
convert Parameter.floating v = unless_null v (Datum.number v.double)
convert Parameter.text v = unless_null v (Datum.text (view_text v.text))
convert Parameter.view v = unless_null v (view_of v.text)
convert Parameter.bytes v = unless_null v (Datum.bytes v.blob)
convert Parameter.value v = ok (Datum.value v)
convert (Parameter.optional p) v =
    let rest = mark_present (convert p v) in if v.kind == sqlite_null then ok Datum.absent else rest

-- The `sqlite3_result_…` calls, with the sizes as `int` arguments; a text is none where its address
-- is a null pointer.
pub data Report : Type 0 where
  result_null : Report
  result_int64 : ℤ → Report
  result_int : ℤ → Report
  result_double : ℕ → Report
  result_text : Option Text → ℤ → Report
  result_blob : Text → ℤ → Report
  result_error : Text → Report

-- `result_writer<T>::apply`. No writer takes a value of SQLite.
unfoldable pub write : Datum → Option Report
unfolding cast int_of_size
write Datum.nothing = some Report.result_null
write (Datum.integer n) = some (Report.result_int64 (cast Width.w64 true n))
write (Datum.truth b) = some (Report.result_int (if b then pos 1 else pos 0))
write (Datum.number x) = some (Report.result_double x)
write (Datum.text t) = some (Report.result_text (some t) (int_of_size (length t)))
write Datum.null_view = some (Report.result_text none (pos 0))
write (Datum.bytes b) = some (Report.result_blob b (int_of_size (length b)))
write (Datum.value v) = none
write Datum.absent = some Report.result_null
write (Datum.present d) = write d

-- How a run of the callable ends. The exceptions that derive from std::exception have a `what()`.
pub data Invocation : Type 0 where
  returns : Datum → Invocation
  throws : Text → Invocation
  throws_unknown : Invocation

abbrev pub Callable : Type 0
Callable = List Datum → Invocation

-- What `function_entry` does: the runs of the callable, and the calls that report a result.
pub record Effect : Type 0 where
  pub runs : List (List Datum)
  pub reports : List Report

abbrev pub joined : Outcome Datum → Outcome (List Datum) → Outcome (List Datum)
joined (ok d) (ok ds) = ok (d ∷ ds)
joined (ok d) (raise e) = raise e
joined (ok d) Outcome.undefined = Outcome.undefined
joined (raise e) r = raise e
joined Outcome.undefined r = Outcome.undefined

-- The arguments of the callable, converted one by one.
unfoldable pub convert_all : List Parameter → List SqlValue → Outcome (List Datum)
convert_all [] vs = ok []
convert_all (p ∷ ps) [] = Outcome.undefined
convert_all (p ∷ ps) (v ∷ vs) = joined (convert p v) (convert_all ps vs)

pub no_metadata : Text
no_metadata = codes "SQL function metadata missing."

pub wrong_count : Text
wrong_count = codes "Unexpected number of arguments for SQL function."

pub unhandled : Text
unhandled = codes "Unhandled exception in SQL function."

abbrev pub what : Exception → Text
what (Exception.database_exception m) = m
what (Exception.database_exception_code m code sql) = m
what (Exception.buffer_too_small_exception m) = m
what (Exception.database_misuse_exception_code m code sql) = m
what (Exception.database_system_error m code) = m
what (Exception.out_of_range m) = m
what (Exception.runtime_error m) = m

abbrev pub failing : Text → Effect
failing message = record { runs = []; reports = Report.result_error message ∷ [] }

abbrev pub written : Datum → List Report
written d = elim (write d) [ none ↦ [] | some r ↦ r ∷ [] ]

abbrev pub reported : Invocation → List Report
reported (Invocation.returns d) = written d
reported (Invocation.throws message) = Report.result_error message ∷ []
reported Invocation.throws_unknown = Report.result_error unhandled ∷ []

-- `invoke_with_arguments` inside the `try` block, and the handlers.
unfoldable pub invoke : Callable → Outcome (List Datum) → Outcome Effect
unfolding write
invoke callable (ok args) = ok (record { runs = args ∷ []; reports = reported (callable args) })
invoke callable (raise e) = ok (failing (what e))
invoke callable Outcome.undefined = Outcome.undefined

-- `function_entry`; the flag says whether the user data is there.
unfoldable pub function_entry : Bool → List Parameter → Callable → List SqlValue → Outcome Effect
unfolding invoke
function_entry has_holder ps callable argv =
    if not has_holder
    then ok (failing no_metadata)
    else if not (length argv == length ps)
    then ok (failing wrong_count)
    else invoke callable (convert_all ps argv)
