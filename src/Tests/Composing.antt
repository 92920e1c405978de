-- ===== src/Tests/Composing.antt =====
-- The theorems on programs at concrete inputs.
use vsqlite.Base.{
  ℕ, ◌+◌, ◌≤◌, ◌≡◌, refl, false, pos, List, [], ◌∷◌, codes, count, length, none, arith,
}
use vsqlite.Sqlite.{Log, Call, prepared, finalized}
use vsqlite.Files.{default_adapter}
use vsqlite.Connection.{Connection, OpenMode, connect}
use vsqlite.Connection
use vsqlite.Connection.Paths.{is_special_database}
use vsqlite.Command.Values.{Value, Argument}
use vsqlite.Result.Conversions.{Target}
use vsqlite.Transaction.{TransactionType}
use vsqlite.Transaction.Outcomes.{Ending}
use vsqlite.Program.{Operation, Request, Use, perform_all, leave}
use vsqlite.Program.Lifetime
use vsqlite.Pool.{Pool}
use vsqlite.Pool
use vsqlite.Pool.Factory.{make_factory}
use vsqlite.Program.Pooled.{Setting, Site}
use vsqlite.Program.Pooled
use vsqlite.Program.Pooled.Sharing.{placed}
use vsqlite.Program.Pooled.Slots
use vsqlite.Tests.Running.{demo_api-NoneOnError}
use vsqlite.Tests.Fixture.{demo_api, demo_files, select}

-- Two commands with one text, a transaction, a view and a change of the schema between them.
abbrev operations : List Operation
operations =
    Operation.makes_command select
    ∷ Operation.uses 0 (
        Use.pushes (Argument.next (Value.int (pos 3)) ∷ Argument.named (codes ":x") Value.nil ∷ []))
    ∷ Operation.makes_transaction TransactionType.immediate
    ∷ Operation.makes_command select
    ∷ Operation.asks (Request.creates_view false (codes "v") select)
    ∷ Operation.destroys 2
    ∷ Operation.uses 1 (Use.ends Ending.commits)
    ∷ Operation.uses 0 (Use.reads [] Target.string (codes "a") 4)
    ∷ []

program-finalized_example :
    let con =
      (connect demo_api demo_files
        (default_adapter demo_files)
        (codes ":memory:")
        OpenMode.open_or_create
        []).1 in
    let end = leave demo_api (
      perform_all demo_api demo_files
        (default_adapter demo_files)
        operations
        (record { con = con; objects = [] })) in
    (before : Log) × (end.log ≡ Call.close con.handle ∷ before)
    × (count 2 (finalized before) ≡ prepared demo_api before 2)
unfolding connect is_special_database Connection.open_as Connection.open_with_flags
program-finalized_example =
    Lifetime.program-finalized 2 demo_api demo_files (default_adapter demo_files) (codes ":memory:")
      OpenMode.open_or_create operations demo_api-NoneOnError refl (omega arith)

abbrev shared : Setting
shared = record {
  api = λ conn. demo_api;
  os = demo_files;
  db = codes ":memory:";
  mode = OpenMode.open_or_create;
  adapter = none;
}

abbrev two_slots : Pool
two_slots = record { capacity = 2; created = 0; idle = [] }

abbrev unused : ℕ → Connection
unused conn = Connection.initial []

-- A thread makes a connection, and works on it.
abbrev asked : Site
asked = Pooled.moved (Pooled.opened two_slots unused) (Pool.take_turn (Pool.started two_slots))

abbrev served : Site
served = record {
  system = Pool.factory_returns 5 asked.system;
  made = 5 ∷ [];
  state = Pooled.update 5 (Pooled.factory shared 5).1 unused;
}

abbrev used : Site
used = record served {
  state = Pooled.update 5 (Pooled.worked shared 5 operations (served.state 5)) served.state;
}

used_reached : Pooled.Reach shared (Pooled.opened two_slots unused) used
unfolding Pool.take_turn Pool.started Pool.factory_returns make_factory connect is_special_database
    Connection.open_as Connection.open_with_flags
used_reached =
    Pooled.Reach.next
      (Pooled.Reach.next (Pooled.Reach.next Pooled.Reach.here Pooled.Step.enters)
        (Pooled.Step.makes 5 (omega arith) (omega arith) refl refl (omega arith)))
      (Pooled.Step.works 5 operations (omega arith))

pooled-kept_example :
    (placed 5 used.system ≡ 1)
    × (Pool.created_count used.system.pool
        ≡ Pool.idle_count used.system.pool + length used.system.leased + used.system.creating)
    × (Pool.created_count used.system.pool ≤ 2)
    × (before : Log) × ((Connection.destroy demo_api (used.state 5)).1.log
        ≡ Call.close (used.state 5).handle ∷ before)
    × (count 3 (finalized before) ≡ prepared demo_api before 3)
unfolding Pool.create
pooled-kept_example =
    Slots.pooled-kept shared 2 two_slots unused used 5 3 (λ n. demo_api-NoneOnError) refl
      used_reached (omega arith)
