-- ===== src/Tests/Running.antt =====
-- The theorems on commands, transactions, savepoints and views at concrete inputs.
use vsqlite.Base.{
  ◌+◌, ◌≡◌, ◌⊎◌, refl, true, false, Text, List, [], ◌∷◌, ◌++◌, codes, ok, pos, is_ok, M, is_defined,
  not, ltb, length, if◌then◌else◌,
}
use vsqlite.Sqlite.{Api, prepared}
use vsqlite.Cache.{Cache, Config, default_config}
use vsqlite.Cache
use vsqlite.Cache.Index
use vsqlite.Cache.Invariant.{IsValid}
use vsqlite.Connection.{Connection, OpenMode, initial}
use vsqlite.Connection
use vsqlite.Connection.Lifetime
use vsqlite.Command.{Command}
use vsqlite.Command
use vsqlite.Command.Keywords
use vsqlite.Command.Values.{Value, Argument}
use vsqlite.Command.Tokens
use vsqlite.Command.Positions
use vsqlite.Execute
use vsqlite.Execute.Conservation
use vsqlite.Transaction
use vsqlite.Transaction.{TransactionType}
use vsqlite.Transaction.Outcomes
use vsqlite.Transaction.Outcomes.{Ending}
use vsqlite.Savepoint
use vsqlite.Savepoint.Outcomes as Releases
use vsqlite.Savepoint.Outcomes.{Act}
use vsqlite.View
use vsqlite.Tests.Fixture.{demo_api, select, open_connection, open_connection-IsValid}

unfoldable pub runs : Unit {0}
unfolding Transaction.create Transaction.exec Savepoint.create Execute.execute Execute.with_command
    Execute.step_once Command.construct Command.destroy Command.prepare Command.prepare_new
    Command.finalize Command.step Command.check_access Connection.access_check
    Connection.acquire_cached_statement Connection.release_cached_statement Transaction.begin_sql
    Savepoint.savepoint_sql Cache.acquire Cache.release Cache.create
    Keywords.is_schema_changing_statement Index.map_find
runs = tt

pub demo_api-NoneOnError : Conservation.NoneOnError demo_api
demo_api-NoneOnError log h sql e = absurd (e refl)

execute_conserves_example :
    let r = Execute.execute demo_api select true open_connection in
    (is_defined r.0 ≡ true)
    × IsValid r.1.cache
    × (r.1.handle ≡ 1)
    × (Lifetime.accounted 1 r.1 + prepared demo_api [] 1
        ≡ Lifetime.accounted 1 open_connection + prepared demo_api r.1.log 1)
execute_conserves_example =
    Conservation.execute_conserves 1 demo_api select true open_connection demo_api-NoneOnError
      open_connection-IsValid

abbrev insert : Command
insert = record { con = open_connection; sql = codes "INSERT"; stmt = 1; last_arg_idx = 0 }

abbrev two_values : List Argument
two_values =
    Argument.next (Value.int (pos 3)) ∷ Argument.named (codes ":n") (Value.text (codes "x")) ∷ []

push_all_ok_example :
    let c' = (Command.push_all demo_api two_values insert).1 in
    Positions.BoundFrom demo_api 1 0 two_values [] c'.con.log
    × (c'.last_arg_idx ≡ 0 + Positions.positional two_values)
    × (c'.stmt ≡ 1)
unfolding Command.push_all Command.push_argument Command.push Command.bind_named
push_all_ok_example = Positions.push_all_ok demo_api two_values insert refl

-- Each step violates a constraint.
abbrev violating : Api
violating = record demo_api { step = λ log s. 19 }

call_with_failed_example :
    let r = Command.call_with violating two_values insert in
    ((is_ok r.0 ≡ true) × (r.1.last_arg_idx ≡ 0))
    ⊎ ((is_ok r.0 ≡ false) × (r.1.last_arg_idx ≡ 0 + Positions.positional two_values))
unfolding runs Command.push_all Command.push_argument Command.push Command.bind_named
    Command.reset_statement
call_with_failed_example =
    Positions.call_with_failed violating (Argument.next (Value.int (pos 3)))
      (Argument.named (codes ":n") (Value.text (codes "x")) ∷ []) insert refl

is_schema_changing_statement-append_example :
    Keywords.is_schema_changing_statement (codes "  " ++ (codes "Create" ++ codes " TABLE t(x)"))
    ≡ Tokens.spells_one
        (codes "Create")
        (codes "ATTACH" ∷ codes "DETACH" ∷ codes "CREATE" ∷ codes "DROP" ∷ codes "ALTER" ∷ [])
is_schema_changing_statement-append_example =
    Tokens.is_schema_changing_statement-append (codes "  ") (codes "Create") (codes " TABLE t(x)")
      (refl, (refl, tt)) (λ e. cc) (refl, (refl, (refl, (refl, (refl, (refl, tt)))))) refl

-- A form feed is white space to SQLite and no blank to the program.
form_feed :
    (Keywords.is_schema_changing_statement (codes "drop table t") ≡ true)
    × (Keywords.is_schema_changing_statement (12 ∷ codes "drop table t") ≡ false)
unfolding Keywords.is_schema_changing_statement
form_feed = (refl, refl)

destroy-attempts_example :
    let t = (Transaction.create demo_api TransactionType.immediate open_connection).1 in
    let done = Outcomes.attempts demo_api (Ending.commits ∷ []) t in
    let after = Transaction.destroy demo_api done.1 in
    (((done.0 ≡ true) × (after ≡ (ok tt, done.1)))
      ⊎ ((done.0 ≡ false)
          × (after.1.con ≡ (Execute.execute demo_api Transaction.rollback_sql true done.1.con).1)
          × ((is_defined (Execute.execute demo_api Transaction.rollback_sql true done.1.con).0
                ≡ false)
              ⊎ (after.0 ≡ ok tt))))
unfolding runs
destroy-attempts_example =
    Outcomes.destroy-attempts demo_api TransactionType.immediate open_connection
      (Ending.commits ∷ []) refl

-- The first release fails, on a statement that SQLite answers with SQLITE_BUSY.
abbrev busy_once : Api
busy_once = record demo_api { step = λ log s. if ltb (length log) 8 then 101 else 5 }

abbrev acts_of_owner : List Act
acts_of_owner = Act.rolls_back ∷ Act.releases ∷ []

destroy-acts_example :
    let done =
      Releases.acts busy_once acts_of_owner
        (Savepoint.create busy_once open_connection (codes "p")).1 in
    (done.1.is_active ≡ not done.0)
    × (Savepoint.destroy busy_once done.1 ≡ (
        if done.0
        then Savepoint.Ending.gone done.1.con
        else Savepoint.left_by
            (Execute.execute busy_once (Savepoint.release_sql (codes "p")) true done.1.con)))
unfolding runs
destroy-acts_example =
    Releases.destroy-acts busy_once open_connection (codes "p") acts_of_owner refl

abbrev create_odd_view : M Connection (Unit {0})
create_odd_view = View.create_in demo_api true (codes "main") (codes "v\"x") select

abbrev drop_odd_view : M Connection (Unit {0})
drop_odd_view = View.drop_in demo_api (codes "main") (codes "v\"x")

qualified_names_example :
    (((codes "main" ≡ []) ⊎ (codes "v\"x" ≡ []))
      × (is_ok (create_odd_view open_connection).0 ≡ false)
      × (is_ok (drop_odd_view open_connection).0 ≡ false)
      × ((create_odd_view open_connection).1 ≡ open_connection)
      × ((drop_odd_view open_connection).1 ≡ open_connection))
    ⊎ ((body : Text) × (tail : Text) × (create_odd_view open_connection
          ≡ Execute.execute demo_api (View.create_prefix true ++ body) true open_connection)
        × (drop_odd_view open_connection
            ≡ Execute.execute demo_api (View.drop_prefix ++ tail) true open_connection)
        × View.ReadsQualified body
            (codes "main")
            (codes "v\"x")
            (codes " AS " ++ (select ++ codes ";"))
        × View.ReadsQualified tail (codes "main") (codes "v\"x") (codes ";"))
qualified_names_example =
    View.qualified_names demo_api true (codes "main") (codes "v\"x") select open_connection
