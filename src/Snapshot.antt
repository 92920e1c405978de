-- ===== src/Snapshot.antt =====
-- snapshot.hpp and snapshot.cpp: snapshots of a database, and the methods of transactions and
-- savepoints that take and open one. The functions of SQLite, which are looked up at run time, are
-- the parameter `SnapshotApi`. A connection enters by its handle, 0 where it is closed.
pub mod Lifetime
pub mod Guards
use vsqlite.Base.{
  ℕ, Bool, true, false, not, ◌&&◌, Text, List, [], ◌∷◌, ◌++◌, codes, Option, none, some, is_empty,
  to_decimal, M, Outcome, ok, raise, ◌>>=◌, ◌>>◌, throw_if, database_exception, exception_code,
  ◌==◌, if◌then◌else◌,
}
use vsqlite.Sqlite.{sqlite_ok, sqlite_busy}
use vsqlite.Connection.{not_open}
use vsqlite.Serialization.{normalize_schema}
use vsqlite.Transaction.{Transaction}
use vsqlite.Savepoint.{Savepoint}

-- A snapshot goes by its address.
pub data SnapshotCall : Type 0 where
  snapshot_get : ℕ → Text → SnapshotCall
  snapshot_open : ℕ → Text → ℕ → SnapshotCall
  snapshot_free : ℕ → SnapshotCall

-- What is found of the three functions, and the answers: `get` gives a code and the snapshot that it
-- stores.
pub record SnapshotApi : Type 0 where
  pub has_get : Bool
  pub has_open : Bool
  pub has_free : Bool
  pub get : List SnapshotCall → ℕ → Text → ℕ × ℕ
  pub open_code : List SnapshotCall → ℕ → Text → ℕ → ℕ
  pub errmsg : List SnapshotCall → ℕ → Option Text
  pub errstr : ℕ → Option Text
  pub extended_errcode : List SnapshotCall → ℕ → ℕ

pub record World : Type 0 where
  pub db : ℕ
  pub log : List SnapshotCall

abbrev pub noted : SnapshotCall → World → World
noted call w = record w { log = call ∷ w.log }

unfoldable pub to_handle : M World ℕ
to_handle w = if w.db == 0 then (raise (database_exception not_open), w) else (ok w.db, w)

unfoldable pub snapshots_supported : SnapshotApi → Bool
snapshots_supported api = api.has_get && (api.has_open && api.has_free)

pub unavailable : Text
unavailable = codes "SQLite snapshot APIs are not available in this build."

unfoldable pub ensure_snapshot_available : SnapshotApi → M World (Unit {0})
ensure_snapshot_available api =
    throw_if (not (snapshots_supported api)) (database_exception unavailable)

abbrev pub text_or : Option Text → Text → Text
text_or none t = t
text_or (some s) t = s

-- A text that is there and not empty, or another.
abbrev pub non_empty_or : Option Text → Text → Text
non_empty_or none t = t
non_empty_or (some []) t = t
non_empty_or (some (c ∷ s)) t = c ∷ s

unfoldable pub format_snapshot_error : SnapshotApi → List SnapshotCall → ℕ → ℕ → Text → Text
format_snapshot_error api log db rc schema =
    let zmsg = if db == 0 then none else api.errmsg log db in
    let xrc = if db == 0 then [] else codes ", xrc=" ++ to_decimal (api.extended_errcode log db) in
    non_empty_or zmsg (codes "Snapshot operation failed")
    ++ (codes " (rc="
        ++ (to_decimal rc
            ++ (codes ", errstr="
                ++ (text_or (api.errstr rc) (codes "unknown")
                    ++ (xrc ++ (codes ") [schema=" ++ (schema ++ codes "]")))))))

-- The call of `sqlite3_snapshot_get`, and the test of its code: the handle of the new snapshot.
unfoldable pub get_snapshot : SnapshotApi → Text → ℕ → M World ℕ
get_snapshot api schema db w =
    let (rc, raw) = api.get w.log db schema in
    let w' = noted (SnapshotCall.snapshot_get db schema) w in
    if rc == sqlite_ok
    then (ok raw, w')
    else (raise (exception_code (format_snapshot_error api w'.log db rc schema) rc []), w')

-- `snapshot::take`
unfoldable pub take : SnapshotApi → Text → M World ℕ
take api schema = do
  ensure_snapshot_available api
  db ← to_handle
  get_snapshot api (normalize_schema schema) db

pub empty_snapshot : Text
empty_snapshot = codes "Cannot open an empty snapshot."

pub too_old : Text
too_old = codes "Snapshot is too old and cannot be opened."

-- The call of `sqlite3_snapshot_open`, and the tests of its code.
unfoldable pub open_handle : SnapshotApi → ℕ → Text → ℕ → M World (Unit {0})
open_handle api h schema db w =
    let rc = api.open_code w.log db schema h in
    let w' = noted (SnapshotCall.snapshot_open db schema h) w in
    if rc == sqlite_busy
    then (raise (database_exception too_old), w')
    else if not (rc == sqlite_ok)
    then (raise (exception_code (format_snapshot_error api w'.log db rc schema) rc []), w')
    else (ok tt, w')

-- `snapshot::open` for a snapshot with a handle, 0 where it is empty.
unfoldable pub open_snapshot : SnapshotApi → ℕ → Text → M World (Unit {0})
open_snapshot api h schema = do
  ensure_snapshot_available api
  throw_if (h == 0) (database_exception empty_snapshot)
  db ← to_handle
  open_handle api h (normalize_schema schema) db

-- `snapshot::reset`, which leaves the handle null, and `~snapshot`.
unfoldable pub reset : SnapshotApi → ℕ → World → World
reset api h w =
    if h == 0 then w else if api.has_free then noted (SnapshotCall.snapshot_free h) w else w

pub record Moved : Type 0 where
  pub self : ℕ
  pub other : ℕ
  pub world : World

-- The move constructor, and `operator=` from another object.
unfoldable pub move_construct : ℕ → World → Moved
move_construct other w = record { self = other; other = 0; world = w }

unfoldable pub move_assign : SnapshotApi → ℕ → ℕ → World → Moved
move_assign api this other w = record { self = other; other = 0; world = reset api this w }

pub inactive_capture : Text
inactive_capture = codes "Cannot capture a snapshot on an inactive transaction."

pub inactive_open : Text
inactive_open = codes "Cannot open a snapshot without an active transaction."

pub released_capture : Text
released_capture = codes "Cannot capture snapshot on an inactive savepoint."

pub released_open : Text
released_open = codes "Cannot open snapshot on a released savepoint."

-- The world of the connection with a handle.
abbrev pub world_of : ℕ → List SnapshotCall → World
world_of db log = record { db = db; log = log }

-- `transaction::take_snapshot` and `transaction::open_snapshot`
unfoldable pub transaction_take :
    SnapshotApi → Text → Transaction → List SnapshotCall → Outcome ℕ × World
transaction_take api schema t log =
    (throw_if (not t.is_active) (database_exception inactive_capture) >>= (λ _. take api schema))
      (world_of t.con.handle log)

unfoldable pub transaction_open :
    SnapshotApi → ℕ → Text → Transaction → List SnapshotCall → Outcome (Unit {0}) × World
transaction_open api h schema t log =
    (throw_if (not t.is_active) (database_exception inactive_open)
        >>= (λ _. open_snapshot api h schema))
      (world_of t.con.handle log)

-- `savepoint::take_snapshot` and `savepoint::open_snapshot`
unfoldable pub savepoint_take :
    SnapshotApi → Text → Savepoint → List SnapshotCall → Outcome ℕ × World
savepoint_take api schema s log =
    (throw_if (not s.is_active) (database_exception released_capture) >>= (λ _. take api schema))
      (world_of s.con.handle log)

unfoldable pub savepoint_open :
    SnapshotApi → ℕ → Text → Savepoint → List SnapshotCall → Outcome (Unit {0}) × World
savepoint_open api h schema s log =
    (throw_if (not s.is_active) (database_exception released_open)
        >>= (λ _. open_snapshot api h schema))
      (world_of s.con.handle log)
