-- ===== src/Command.antt =====
-- command.hpp and command.cpp. A command refers to its connection, whose state it carries along.
pub mod Keywords
pub mod Values
pub mod Tokens
pub mod Bindings
pub mod Positions
use vsqlite.Base.{
  ℕ, ℤ, c_str, pos, ◌+◌, Bool, true, false, not, Text, List, [], ◌∷◌, ◌++◌, codes, length,
  int_of_size, M, ok, raise, ◌>>=◌, ◌>>◌, pure, throw_if, when, swallow, zoom, Outcome, undefined,
  Exception, database_exception, exception_code, misuse_code, ◌==◌, if◌then◌else◌,
}
use vsqlite.Sqlite.{Api, Log, Call, Binding, sqlite_ok, sqlite_row, sqlite_done, sqlite_misuse}
use vsqlite.Connection.{
  Connection, access_check, acquire_cached_statement, release_cached_statement,
  clear_statement_cache,
}
use Keywords.{is_schema_changing_statement}
use Values.{Value, Argument, direct, generic, text_binding, blob_binding}

pub record Command : Type 0 where
  pub con : Connection
  pub sql : Text
  pub stmt : ℕ
  pub last_arg_idx : ℕ

-- A method of the connection.
abbrev pub on_con : {A : Type 0} → M Connection A → M Command A
on_con = zoom (λ c. c.con) (λ k c. record c { con = k })

abbrev pub logged : Call → Command → Command
logged call c = record c { con = record (c.con) { log = call ∷ c.con.log } }

abbrev pub invalid_command : Text
invalid_command = codes "command was not prepared or is invalid"

unfoldable pub check_access : M Command (Unit {0})
unfolding access_check
check_access c =
    (do on_con access_check; throw_if (c.stmt == 0) (database_exception invalid_command)) c

-- `finalize` behind its access check.
unfoldable pub give_back : M Command (Unit {0})
give_back c =
    if c.stmt == 0
    then (ok tt, c)
    else if is_schema_changing_statement c.sql
    then (ok tt, record (logged (Call.finalize c.stmt) c) { stmt = 0 })
    else (do on_con (release_cached_statement c.sql c.stmt); λ c'. (ok tt, record c' { stmt = 0 }))
        c

unfoldable pub finalize : M Command (Unit {0})
unfolding give_back
finalize = do check_access; give_back

-- `sqlite3_prepare_v2` stores its pointer also where it fails. It reads the text as a C string.
unfoldable pub prepare_new : Api → M Command (Unit {0})
prepare_new api c =
    let (err, stmt) = api.prepare_v2 c.con.log c.con.handle (c_str c.sql) in
    let c' = record (logged (Call.prepare_v2 c.con.handle (c_str c.sql)) c) { stmt = stmt } in
    if err == sqlite_ok
    then (ok tt, c')
    else (raise (exception_code (api.errmsg c'.con.log c.con.handle) err c.sql), c')

-- The end of `prepare`: the cache first, but for statements that change the schema.
unfoldable pub fetch : Api → M Command (Unit {0})
fetch api c =
    if is_schema_changing_statement c.sql
    then prepare_new api c
    else (do
      stmt ← on_con (acquire_cached_statement api c.sql)
      λ c'.
          let c'' = record c' { stmt = stmt } in
          if stmt == 0 then prepare_new api c'' else (ok tt, c''))
        c

unfoldable pub prepare : Api → M Command (Unit {0})
unfolding access_check fetch
prepare api c =
    (do
      on_con access_check
      when (is_schema_changing_statement c.sql) (on_con clear_statement_cache)
      when (not (c.stmt == 0)) finalize
      fetch api)
      c

-- The constructor.
unfoldable pub construct : Api → Text → Connection → Outcome (Unit {0}) × Command
unfolding access_check prepare
construct api sql con =
    (do on_con access_check; prepare api)
      (record { con = con; sql = sql; stmt = 0; last_arg_idx = 0 })

-- `~command`
unfoldable pub destroy : M Command (Unit {0})
unfolding finalize
destroy = swallow finalize

unfoldable pub clear : M Command (Unit {0})
clear c =
    let c' = record (logged (Call.reset c.stmt) c) { last_arg_idx = 0 } in
    (ok tt, logged (Call.reset c.stmt) c')

unfoldable pub reset_statement : M Command (Unit {0})
reset_statement c = (ok tt, logged (Call.reset c.stmt) c)

-- `step` behind its access check: the `switch` over the code of `sqlite3_step`.
unfoldable pub advance : Api → M Command Bool
advance api c =
    let err = api.step c.con.log c.stmt in
    let c' = logged (Call.step c.stmt) c in
    let message = api.errmsg c'.con.log c.con.handle in
    if err == sqlite_row
    then (ok true, c')
    else if err == sqlite_done
    then (ok false, c')
    else if err == sqlite_misuse
    then (raise (misuse_code message err c.sql), c')
    else (raise (exception_code message err c.sql), c')

unfoldable pub step : Api → M Command Bool
unfolding check_access advance
step api = do check_access; advance api

abbrev clear_arguments : Bool → M Command Bool
clear_arguments result c = (ok result, record c { last_arg_idx = 0 })

-- `operator()()`
unfoldable pub call : Api → M Command Bool
call api = do result ← step api; clear_arguments result

-- A `sqlite3_bind_…` call and the test of its code.
unfoldable pub checked_bind : Api → ℤ → Binding → M Command (Unit {0})
checked_bind api idx b c =
    let err = api.bind_value c.con.log c.stmt idx b in
    let c' = logged (Call.bind_value c.stmt idx b) c in
    if err == sqlite_ok
    then (ok tt, c')
    else (raise (exception_code (api.errmsg c'.con.log c.con.handle) err c.sql), c')

-- The overloads of `bind` by position.
unfoldable pub bind_at : Api → ℤ → Binding → M Command (Unit {0})
unfolding check_access checked_bind
bind_at api idx b = do check_access; checked_bind api idx b

abbrev pub no_parameter : Text → Text
no_parameter name = codes "no such parameter: " ++ name

unfoldable pub parameter_index : Api → Text → M Command ℕ
unfolding check_access
parameter_index api name c =
    (do
      check_access
      let idx = api.bind_parameter_index c.con.log c.stmt name
      throw_if (idx == 0) (database_exception (no_parameter name))
      pure idx)
      c

-- `bind(name, value)`
unfoldable pub bind_named : Api → Text → Value → M Command (Unit {0})
unfolding parameter_index direct bind_at
bind_named api name v = do idx ← parameter_index api name; bind_at api (pos idx) (direct v)

-- `operator%` with a value: the position is counted before the binding is tried.
unfoldable pub push : Api → Value → M Command (Unit {0})
unfolding direct bind_at
push api v c =
    let idx = c.last_arg_idx + 1 in
    bind_at api (pos idx) (direct v) (record c { last_arg_idx = idx })

-- `operator%`: a value that has a name takes no position.
unfoldable pub push_argument : Api → Argument → M Command (Unit {0})
unfolding push bind_named
push_argument api (Argument.next v) = push api v
push_argument api (Argument.named name v) = bind_named api name v

-- `cmd % a % b % …`
unfoldable pub push_all : Api → List Argument → M Command (Unit {0})
push_all api [] c = (ok tt, c)
push_all api (a ∷ args) c = (push_argument api a >>= λ _. push_all api args) c

-- `operator()(args...)`, with at least one argument.
unfoldable pub call_with : Api → List Argument → M Command Bool
call_with api [] = call api
call_with api (a ∷ args) = do
  reset_statement
  push_all api (a ∷ args)
  result ← step api
  clear_arguments result
