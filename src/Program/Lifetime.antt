-- ===== src/Program/Lifetime.antt =====
-- A program from the opening of its connection to the end of all its objects.
use vsqlite.Base.{
  ℕ, ◌≡◌, ◌≢◌, refl, sym, subst, ap, ◌∙◌, arith, Bool, not, ◌&&◌, Text, List, [], ◌∷◌, ok, count,
}
use vsqlite.Sqlite.{Api, Log, Call, prepared, finalized}
use vsqlite.Files.{OsFiles, Adapter}
use vsqlite.Cache.{default_config, finalize_all}
use vsqlite.Cache
use vsqlite.Cache.Ownership.{prepared-finalize_all}
use vsqlite.Cache.Invariant.{IsValid, create-IsValid}
use vsqlite.Connection.{
  Connection, OpenMode, initial, open_with_flags, remove_existing, open_as, open_with_mode, connect,
  close,
}
use vsqlite.Connection
use vsqlite.Connection.Paths.{is_special_database}
use vsqlite.Connection.Lifetime.{accounted, close_lem}
use vsqlite.Execute.Conservation.{NoneOnError}
use vsqlite.Program.{World, Operation, perform_all, leave_objects, leave}
use vsqlite.Program.Conservation.{Moves-trans, perform_all-Moves, leave_objects-Moves}

-- A connection that has not prepared anything.
record IsFresh (api : Api) (s : ℕ) (c : Connection) : Type 0 where
  empty_cache : c.cache ≡ Cache.create default_config
  none_prepared : prepared api c.log s ≡ 0
  none_finalized : finalized c.log ≡ []

open_as-IsFresh :
    (api : Api) (s : ℕ) (fs : Adapter) (db : Text) (special exists : Bool) (mode : OpenMode)
    (c : Connection)
    → IsFresh api s c
    → IsFresh api s (open_as api fs db special exists mode c).1
unfolding open_as open_with_flags remove_existing
open_as-IsFresh api s fs db special exists OpenMode.open_readonly c f = ground arith
open_as-IsFresh api s fs db special exists OpenMode.open_existing c f = ground arith
open_as-IsFresh api s fs db special exists OpenMode.open_or_create c f = ground arith
open_as-IsFresh api s fs db special exists OpenMode.always_create c f = ground arith

connect-IsFresh :
    (api : Api) (s : ℕ) (os : OsFiles) (fs : Adapter) (db : Text) (mode : OpenMode)
    → IsFresh api s (connect api os fs db mode []).1
unfolding connect open_with_mode initial
connect-IsFresh api s os fs db mode =
    let none : IsFresh api s (initial []) = record {
      empty_cache = refl;
      none_prepared = refl;
      none_finalized = refl;
    } in
    ground (
      arith,
      none,
      open_as-IsFresh api s fs db (is_special_database db)
          (not (is_special_database db) && (os.exists [] db).0) mode (initial []) none,
    )

accounted-IsFresh : (api : Api) (s : ℕ) (c : Connection) → IsFresh api s c → accounted s c ≡ 0
unfolding Cache.create
accounted-IsFresh api s c f = ground (arith, f)

destroy-log : (api : Api) (c : Connection) → (Connection.destroy api c).1 ≡ (close api c).1
unfolding Connection.destroy
destroy-log api c = ground arith

-- A connection that is open, and of which every statement is in the cache or finalized.
pub record IsKept (api : Api) (c : Connection) : Type 0 where
  pub valid : IsValid c.cache
  pub opened : c.handle ≢ 0
  pub balance : (s : ℕ) → accounted s c ≡ prepared api c.log s

pub connect-IsKept :
    (api : Api) (os : OsFiles) (fs : Adapter) (db : Text) (mode : OpenMode)
    → (connect api os fs db mode []).1.handle ≢ 0
    → IsKept api (connect api os fs db mode []).1
connect-IsKept api os fs db mode opened =
    let con = (connect api os fs db mode []).1 in
    let fresh = λ (s : ℕ). connect-IsFresh api s os fs db mode in
    record {
      valid = subst IsValid (sym (fresh 0).empty_cache) (create-IsValid default_config);
      opened = opened;
      balance = λ s. accounted-IsFresh api s con (fresh s) ∙ sym (fresh s).none_prepared;
    }

-- Objects that are made, used and destroyed on a connection leave it as open and kept as it was.
pub leave_objects-IsKept :
    (api : Api) (os : OsFiles) (fs : Adapter) (ops : List Operation) (c : Connection)
    → NoneOnError api
    → IsKept api c
    → let w = perform_all api os fs ops (record { con = c; objects = [] }) in
      let d = leave_objects api w.con w.objects in IsKept api d × (d.handle ≡ c.handle)
leave_objects-IsKept api os fs ops c null k =
    let start : World = record { con = c; objects = [] } in
    let w = perform_all api os fs ops start in
    let used = λ (s : ℕ). perform_all-Moves api s null os fs ops start k.valid k.opened in
    let still : w.con.handle ≢ 0 = λ e. k.opened (sym (used 0).handle_kept ∙ e) in
    let whole = λ (s : ℕ).
      Moves-trans api s (used s)
        (leave_objects-Moves api s null w.con w.objects (used s).valid still) in
    (
      record {
        valid = (whole 0).valid;
        opened = λ e. k.opened (sym (whole 0).handle_kept ∙ e);
        balance = λ s. omega (arith, (whole s).balance, k.balance s);
      },
      (whole 0).handle_kept,
    )

-- What the destructor of a kept connection leaves behind.
pub destroy-IsKept :
    (s : ℕ) (api : Api) (c : Connection)
    → IsKept api c
    → (before : Log) × ((Connection.destroy api c).1.log ≡ Call.close c.handle ∷ before)
      × (count s (finalized before) ≡ prepared api before s)
destroy-IsKept s api c k =
    let closing = close_lem s api c k.valid k.opened in
    (
      finalize_all c.cache.lru c.log,
      ap (λ d. d.log) (destroy-log api c) ∙ closing.1,
      omega (arith, closing.0, k.balance s, prepared-finalize_all api s c.cache.lru c.log),
    )

-- A connection is opened, and a program uses it in any way: it executes statements, makes commands,
-- queries, transactions and savepoints beside one another, uses them, walks through the rows of
-- queries and destroys objects in any order, and is thrown out of any method. Once what is left has
-- gone out of scope, `sqlite3_close` was called last, and before that call each statement that SQLite
-- had prepared was finalized as often as it was prepared, if SQLite stores no statement where it
-- fails to prepare one, and no null handle where it opens.
pub program-finalized :
    (s : ℕ) (api : Api) (os : OsFiles) (fs : Adapter) (db : Text) (mode : OpenMode)
    (ops : List Operation)
    → NoneOnError api
    → (connect api os fs db mode []).0 ≡ ok tt
    → (connect api os fs db mode []).1.handle ≢ 0
    → let con = (connect api os fs db mode []).1 in
      let end = leave api (perform_all api os fs ops (record { con = con; objects = [] })) in
      ((before : Log) × (end.log ≡ Call.close con.handle ∷ before)
        × (count s (finalized before) ≡ prepared api before s))
unfolding leave
program-finalized s api os fs db mode ops null made opened =
    let con = (connect api os fs db mode []).1 in
    let (kept, same) =
      leave_objects-IsKept api os fs ops con null (connect-IsKept api os fs db mode opened) in
    let (before, closed, balance) = destroy-IsKept s api _ kept in
    (before, closed ∙ ap (λ h. Call.close h ∷ before) same, balance)
