-- ===== src/Extensions.antt =====
-- The half of json_fts.cpp that calls SQLite: the probes of the two extensions, the functions that
-- are registered, and the rank. SQLite is the parameter `ExtensionApi`; a connection enters by its
-- handle, 0 where it is closed, and a value of SQL by its address.
pub mod Statements
pub mod Rank
use vsqlite.Base.{
  ℕ, ℤ, Bool, true, false, not, Text, List, [], ◌∷◌, ◌++◌, codes, length, Outcome, ok, raise, bind,
  M, throw_if, database_exception, exception_code, ◌==◌, if◌then◌else◌, ◌>>=◌, ◌>>◌,
}
use vsqlite.Sqlite.{sqlite_ok, sqlite_row}
use vsqlite.Connection.{not_open}

pub data ExtensionCall : Type 0 where
  prepare : ℕ → Text → ExtensionCall
  bind_value : ℕ → ℕ → ℕ → ExtensionCall
  bind_pointer : ℕ → ExtensionCall
  step : ℕ → ExtensionCall
  finalize : ℕ → ExtensionCall
  create_function : ℕ → Text → ExtensionCall
  create_rank : ℕ → Text → ExtensionCall

-- The answers, by the calls made before, newest first. `prepare` gives a code and the statement that
-- it stores, 0 if none; `fts_api` is what `fts5` has stored through the bound pointer once the
-- statement was stepped.
pub record ExtensionApi : Type 0 where
  pub prepare : List ExtensionCall → ℕ → Text → ℕ × ℕ
  pub step : List ExtensionCall → ℕ → ℕ
  pub column_int : List ExtensionCall → ℕ → ℤ
  pub fts_api : List ExtensionCall → ℕ → ℕ
  pub errmsg : List ExtensionCall → ℕ → Text
  pub create_function : List ExtensionCall → ℕ → Text → ℕ
  pub create_rank : List ExtensionCall → ℕ → Text → ℕ

pub record World : Type 0 where
  pub db : ℕ
  pub log : List ExtensionCall

-- `db_handle`
unfoldable pub db_handle : M World ℕ
db_handle w = if w.db == 0 then (raise (database_exception not_open), w) else (ok w.db, w)

abbrev pub noted : ExtensionCall → World → World
noted call w = record w { log = call ∷ w.log }

pub probe_sql : Text
probe_sql = codes "SELECT json('null');"

unfoldable pub probe_json : ExtensionApi → ℕ → World → Bool × World
probe_json api db w =
    let (rc, stmt) = api.prepare w.log db probe_sql in
    let prepared = noted (ExtensionCall.prepare db probe_sql) w in
    let row = api.step prepared.log stmt == sqlite_row in
    let stepped = noted (ExtensionCall.step stmt) prepared in
    if not (rc == sqlite_ok)
    then (false, noted (ExtensionCall.finalize stmt) prepared)
    else (row, noted (ExtensionCall.finalize stmt) stepped)

-- What a function of SQL reports of its call.
pub data Report : Type 0 where
  result_error : Text → Report
  result_int : ℤ → Report

pub three_arguments : Text
three_arguments = codes "json_contains_value(json, path, value) expects 3 arguments."

pub contains_sql : Text
contains_sql =
    codes "SELECT CASE WHEN json_extract(?1, ?2) IS NULL THEN 0 "
    ++ codes "WHEN json_extract(?1, ?2) = ?3 THEN 1 ELSE 0 END;"

-- The three calls of `sqlite3_bind_value`.
abbrev pub bound : ℕ → ℕ → ℕ → ℕ → World → World
bound stmt json path value w =
    noted (ExtensionCall.bind_value stmt 3 value) (
      noted (ExtensionCall.bind_value stmt 2 path) (noted (ExtensionCall.bind_value stmt 1 json) w))

-- `json_contains`, with three arguments, and with any number of them.
unfoldable pub contains_three : ExtensionApi → ℕ → ℕ → ℕ → World → List Report × World
contains_three api json path value w =
    let (rc, stmt) = api.prepare w.log w.db contains_sql in
    let prepared = noted (ExtensionCall.prepare w.db contains_sql) w in
    let ready = bound stmt json path value prepared in
    let rc' = api.step ready.log stmt in
    let stepped = noted (ExtensionCall.step stmt) ready in
    if not (rc == sqlite_ok)
    then (
      Report.result_error (api.errmsg prepared.log w.db) ∷ [],
      noted (ExtensionCall.finalize stmt) prepared,
    )
    else (
      (if rc' == sqlite_row
            then Report.result_int (api.column_int stepped.log stmt)
            else Report.result_error (api.errmsg stepped.log w.db))
          ∷ [],
      noted (ExtensionCall.finalize stmt) stepped,
    )

unfoldable pub json_contains : ExtensionApi → List ℕ → World → List Report × World
json_contains api (json ∷ path ∷ value ∷ []) w = contains_three api json path value w
json_contains api _ w = (Report.result_error three_arguments ∷ [], w)

pub fts_sql : Text
fts_sql = codes "SELECT fts5(?1)"

-- `sqlite3_fts5_api_from_db`: the address of the interface, 0 if there is none.
unfoldable pub fts_api_from_db : ExtensionApi → ℕ → World → ℕ × World
fts_api_from_db api db w =
    let (rc, stmt) = api.prepare w.log db fts_sql in
    let prepared = noted (ExtensionCall.prepare db fts_sql) w in
    let stepped =
      noted (ExtensionCall.step stmt) (noted (ExtensionCall.bind_pointer stmt) prepared) in
    if rc == sqlite_ok
    then (api.fts_api stepped.log stmt, noted (ExtensionCall.finalize stmt) stepped)
    else (0, noted (ExtensionCall.finalize stmt) prepared)

unfoldable pub probe_fts : ExtensionApi → ℕ → World → Bool × World
probe_fts api db w = let (fts, w') = fts_api_from_db api db w in (not (fts == 0), w')

-- An operation that only looks, as a method.
abbrev pub asked : Bool × World → Outcome Bool × World
asked (b, w) = (ok b, w)

-- `json::available` and `fts::available`
unfoldable pub json_available : ExtensionApi → M World Bool
json_available api = do db ← db_handle; λ w. asked (probe_json api db w)

unfoldable pub fts_available : ExtensionApi → M World Bool
fts_available api = do db ← db_handle; λ w. asked (probe_fts api db w)

-- The end of both registrations, by the code of the call.
abbrev pub checked : ExtensionApi → ℕ → ℕ → World → Outcome (Unit {0}) × World
checked api db rc w =
    if rc == sqlite_ok then (ok tt, w) else (raise (exception_code (api.errmsg w.log db) rc []), w)

pub no_json : Text
no_json = codes "SQLite JSON1 extension is not available in this connection."

pub no_fts : Text
no_fts = codes "SQLite FTS5 extension is not available in this connection."

unfoldable pub add_contains : ExtensionApi → ℕ → Text → M World (Unit {0})
add_contains api db name w =
    checked api db (api.create_function w.log db name)
      (noted (ExtensionCall.create_function db name) w)

unfoldable pub register_contains_function : ExtensionApi → Text → M World (Unit {0})
register_contains_function api name = do
  db ← db_handle
  found ← λ w. asked (probe_json api db w)
  throw_if (not found) (database_exception no_json)
  add_contains api db name

abbrev pub addressed : ℕ × World → Outcome ℕ × World
addressed (n, w) = (ok n, w)

unfoldable pub add_rank : ExtensionApi → ℕ → ℕ → Text → M World (Unit {0})
add_rank api db fts name w =
    checked api db (api.create_rank w.log fts name) (noted (ExtensionCall.create_rank fts name) w)

unfoldable pub register_rank_function : ExtensionApi → Text → M World (Unit {0})
register_rank_function api name = do
  db ← db_handle
  fts ← λ w. addressed (fts_api_from_db api db w)
  throw_if (fts == 0) (database_exception no_fts)
  add_rank api db fts name

unfoldable pub match_expression : Text → Text → Text
match_expression column_or_table query_expr = (column_or_table ++ codes " MATCH ") ++ query_expr
