-- ===== src/Program.antt =====
-- A program over one connection: its commands, transactions and savepoints live side by side, refer
-- to the connection that they share, and are used and destroyed in any order. Each method is that of
-- its class, run on the shared connection, which is not closed before the end.
pub mod Queries
pub mod Calls
pub mod Conservation
pub mod Lifetime
pub mod Pooled
use vsqlite.Base.{
  ℕ, zero, suc, ℤ, Bool, true, false, Text, List, [], ◌∷◌, Outcome, ok, raise, undefined,
}
use vsqlite.Sqlite.{Api}
use vsqlite.Files.{OsFiles, Adapter}
use vsqlite.Cache.{Config}
use vsqlite.Connection.{Connection}
use vsqlite.Connection
use vsqlite.Command.{Command}
use vsqlite.Command
use vsqlite.Command.Values.{Value, Argument, direct}
use vsqlite.Execute.{execute}
use vsqlite.Result.Conversions.{Target}
use vsqlite.Query.{ResultRange, emit_result, each_with}
use vsqlite.Query.Iterators.{for_each, get_named}
use vsqlite.Transaction.{Transaction, TransactionType}
use vsqlite.Transaction
use vsqlite.Transaction.Outcomes.{Ending, ending}
use vsqlite.Savepoint.{Savepoint}
use vsqlite.Savepoint
use vsqlite.View
use vsqlite.Attachment.{attach, detach}
use vsqlite.Wal.{WalMode}
use vsqlite.Wal.Setting.{set_wal_mode, enable_wal, get_wal_mode}

-- An object without the connection that it refers to.
pub data Object : Type 0 where
  command : Text → ℕ → ℕ → Object
  transaction : Bool → Bool → Object
  savepoint : Text → Bool → Object

pub record World : Type 0 where
  pub con : Connection
  pub objects : List Object

abbrev pub of_command : Command → Connection × Object
of_command c = (c.con, Object.command c.sql c.stmt c.last_arg_idx)

abbrev pub of_transaction : Transaction → Connection × Object
of_transaction t = (t.con, Object.transaction t.is_active t.is_ending)

abbrev pub of_savepoint : Savepoint → Connection × Object
of_savepoint s = (s.con, Object.savepoint s.name s.is_active)

-- What is asked of the connection itself.
pub data Request : Type 0 where
  executes : Text → Bool → Request
  attaches : Text → Text → Request
  detaches : Text → Request
  creates_view : Bool → Text → Text → Request
  creates_view_in : Bool → Text → Text → Text → Request
  drops_view : Text → Request
  drops_view_in : Text → Text → Request
  sets_wal_mode : WalMode → Request
  enables_wal : Bool → Request
  reads_wal_mode : Request
  configures_cache : Config → Request
  clears_cache : Request

-- What is asked of an object of one of the three classes. A command may be a query, whose rows a
-- loop over `each(args...)` reads by the name of a column, for so many turns at most.
pub data Use : Type 0 where
  binds : ℤ → Value → Use
  binds_named : Text → Value → Use
  pushes : List Argument → Use
  steps : Use
  calls : List Argument → Use
  clears : Use
  resets : Use
  emits : Use
  reads : List Argument → Target → Text → ℕ → Use
  begins : TransactionType → Use
  ends : Ending → Use
  releases : Use
  rolls_back : Use

pub data Operation : Type 0 where
  asks : Request → Operation
  makes_command : Text → Operation
  makes_transaction : TransactionType → Operation
  makes_savepoint : Text → Operation
  uses : ℕ → Use → Operation
  destroys : ℕ → Operation

module _ (api : Api) where
  abbrev pub answer : OsFiles → Adapter → Request → Connection → Connection
  answer os fs (Request.executes sql immediately) con = (execute api sql immediately con).1
  answer os fs (Request.attaches db alias) con = (attach api os fs db alias con).1
  answer os fs (Request.detaches alias) con = (detach api alias con).1
  answer os fs (Request.creates_view temporary alias query) con =
      (View.create api temporary alias query con).1
  answer os fs (Request.creates_view_in temporary database alias query) con =
      (View.create_in api temporary database alias query con).1
  answer os fs (Request.drops_view alias) con = (View.drop api alias con).1
  answer os fs (Request.drops_view_in database alias) con = (View.drop_in api database alias con).1
  answer os fs (Request.sets_wal_mode mode) con = (set_wal_mode api mode con).1
  answer os fs (Request.enables_wal prefer_wal2) con = (enable_wal api prefer_wal2 con).1
  answer os fs Request.reads_wal_mode con = (get_wal_mode api con).1
  answer os fs (Request.configures_cache cfg) con = (Connection.configure_statement_cache cfg con).1
  answer os fs Request.clears_cache con = (Connection.clear_statement_cache con).1

  abbrev pub walked : Target → Text → ℕ → Outcome ResultRange × Command → Command
  walked t name n (ok range, c) =
      (for_each api (λ row. get_named api row t name) n range).1.result.query
  walked t name n (raise e, c) = c
  walked t name n (undefined, c) = c

  abbrev pub use_command : Use → Command → Command
  use_command (Use.binds idx v) c = (Command.bind_at api idx (direct v) c).1
  use_command (Use.binds_named name v) c = (Command.bind_named api name v c).1
  use_command (Use.pushes vs) c = (Command.push_all api vs c).1
  use_command Use.steps c = (Command.step api c).1
  use_command (Use.calls vs) c = (Command.call_with api vs c).1
  use_command Use.clears c = (Command.clear c).1
  use_command Use.resets c = (Command.reset_statement c).1
  use_command Use.emits c = (emit_result api c).1
  use_command (Use.reads args t name n) c = walked t name n (each_with api args c)
  use_command _ c = c

  abbrev pub use_transaction : Use → Transaction → Transaction
  use_transaction (Use.begins kind) t = (Transaction.begin api kind t).1
  use_transaction (Use.ends e) t = (ending api e t).1
  use_transaction _ t = t

  abbrev pub use_savepoint : Use → Savepoint → Savepoint
  use_savepoint Use.releases s = (Savepoint.release api s).1
  use_savepoint Use.rolls_back s = (Savepoint.rollback api s).1
  use_savepoint _ s = s

  unfoldable pub use_object : Use → Connection → Object → Connection × Object
  use_object u con (Object.command sql stmt idx) =
      of_command (use_command u (record { con = con; sql = sql; stmt = stmt; last_arg_idx = idx }))
  use_object u con (Object.transaction active is_ending) =
      of_transaction
        (use_transaction u (record { con = con; is_active = active; is_ending = is_ending }))
  use_object u con (Object.savepoint name active) =
      of_savepoint (use_savepoint u (record { con = con; name = name; is_active = active }))

  -- The destructors. What a savepoint's throws ends the program in C++, and is passed over here.
  unfoldable pub destroy_object : Connection → Object → Connection
  destroy_object con (Object.command sql stmt idx) =
      (Command.destroy (record { con = con; sql = sql; stmt = stmt; last_arg_idx = idx })).1.con
  destroy_object con (Object.transaction active is_ending) =
      (Transaction.destroy api
        (record { con = con; is_active = active; is_ending = is_ending })).1.con
  destroy_object con (Object.savepoint name active) =
      Savepoint.connection_of
        (Savepoint.destroy api (record { con = con; name = name; is_active = active }))

  -- Where a constructor throws, there is no object.
  abbrev pub made : Outcome (Unit {0}) → Connection × Object → List Object → World
  made (ok u) (con, o) os = record { con = con; objects = o ∷ os }
  made (raise e) (con, o) os = record { con = con; objects = os }
  made undefined (con, o) os = record { con = con; objects = os }

  -- The object at a place of the list; a place beyond the end names none.
  unfoldable pub use_at : ℕ → Use → Connection → List Object → World
  use_at n u con [] = record { con = con; objects = [] }
  use_at zero u con (o ∷ os) =
      let (con', o') = use_object u con o in record { con = con'; objects = o' ∷ os }
  use_at (suc n) u con (o ∷ os) = let w = use_at n u con os in record w { objects = o ∷ w.objects }

  unfoldable pub destroy_at : ℕ → Connection → List Object → World
  destroy_at n con [] = record { con = con; objects = [] }
  destroy_at zero con (o ∷ os) = record { con = destroy_object con o; objects = os }
  destroy_at (suc n) con (o ∷ os) =
      let w = destroy_at n con os in record w { objects = o ∷ w.objects }

  unfoldable pub perform : OsFiles → Adapter → Operation → World → World
  perform os fs (Operation.asks request) w = record w { con = answer os fs request w.con }
  perform os fs (Operation.makes_command sql) w =
      let (r, c) = Command.construct api sql w.con in made r (of_command c) w.objects
  perform os fs (Operation.makes_transaction kind) w =
      let (r, t) = Transaction.create api kind w.con in made r (of_transaction t) w.objects
  perform os fs (Operation.makes_savepoint name) w =
      let (r, s) = Savepoint.create api w.con name in made r (of_savepoint s) w.objects
  perform os fs (Operation.uses n u) w = use_at n u w.con w.objects
  perform os fs (Operation.destroys n) w = destroy_at n w.con w.objects

  unfoldable pub perform_all : OsFiles → Adapter → List Operation → World → World
  perform_all os fs [] w = w
  perform_all os fs (op ∷ ops) w = perform_all os fs ops (perform os fs op w)

  -- The objects that are left go out of scope, the last one that was made first, and the connection
  -- after them.
  unfoldable pub leave_objects : Connection → List Object → Connection
  leave_objects con [] = con
  leave_objects con (o ∷ os) = leave_objects (destroy_object con o) os

  unfoldable pub leave : World → Connection
  leave w = (Connection.destroy api (leave_objects w.con w.objects)).1
