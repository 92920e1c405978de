-- ===== src/Snapshot/Guards.antt =====
-- When the snapshot methods of a transaction and of a savepoint reach SQLite.
use vsqlite.Base.{◌≡◌, ◌⊎◌, ℕ, true, false, Text, List, ok, raise, database_exception, arith, is_ok}
use vsqlite.Sqlite.{Api}
use vsqlite.Connection.{Connection}
use vsqlite.Transaction.{Transaction, TransactionType, create, exec}
use vsqlite.Transaction.Outcomes.{Ending, attempts, attempts_lem}
use vsqlite.Savepoint.{Savepoint, release}
use vsqlite.Savepoint as Savepoint
use vsqlite.Snapshot.{
  SnapshotCall, SnapshotApi, take, open_snapshot, world_of, transaction_take, transaction_open,
  savepoint_take, savepoint_open, inactive_capture, inactive_open, released_capture, released_open,
}

-- What both methods of a transaction do, by whether it is active.
transaction_lem :
    (sapi : SnapshotApi) (h : ℕ) (schema : Text) (log : List SnapshotCall) (t : Transaction)
    → let w = world_of t.con.handle log in
      (((t.is_active ≡ false)
          × (transaction_take sapi schema t log ≡ (raise (database_exception inactive_capture), w))
          × (transaction_open sapi h schema t log ≡ (raise (database_exception inactive_open), w)))
        ⊎ ((t.is_active ≡ true)
            × (transaction_take sapi schema t log ≡ take sapi schema w)
            × (transaction_open sapi h schema t log ≡ open_snapshot sapi h schema w)))
unfolding transaction_take transaction_open
transaction_lem sapi h schema log t = ground arith

-- What the constructor leaves when it throws nothing.
created_lem :
    (api : Api) (kind : TransactionType) (con : Connection)
    → (create api kind con).0 ≡ ok tt
    → ((create api kind con).1.is_ending ≡ false) × ((create api kind con).1.is_active ≡ true)
unfolding create exec
created_lem api kind con p = ground arith

-- A transaction was begun, and its owner tried to end it any number of times. If an attempt has
-- succeeded, taking and opening a snapshot through it throws, and SQLite is not called. If none has,
-- both do what the snapshot class does on its connection.
snapshot-attempts :
    (api : Api) (kind : TransactionType) (con : Connection) (es : List Ending) (sapi : SnapshotApi)
    (h : ℕ) (schema : Text) (log : List SnapshotCall)
    → (create api kind con).0 ≡ ok tt
    → let done = attempts api es (create api kind con).1 in
      let w = world_of done.1.con.handle log in
      (((done.0 ≡ true)
          × (transaction_take sapi schema done.1 log
              ≡ (raise (database_exception inactive_capture), w))
          × (transaction_open sapi h schema done.1 log
              ≡ (raise (database_exception inactive_open), w)))
        ⊎ ((done.0 ≡ false)
            × (transaction_take sapi schema done.1 log ≡ take sapi schema w)
            × (transaction_open sapi h schema done.1 log ≡ open_snapshot sapi h schema w)))
snapshot-attempts api kind con es sapi h schema log p =
    let t = (create api kind con).1 in
    let (quiet, active) = created_lem api kind con p in
    let later = attempts_lem api es t quiet in
    ground (arith, active, later, transaction_lem sapi h schema log (attempts api es t).1)

-- A savepoint was created, then rolled back to, then perhaps released. Once the release has
-- succeeded, its snapshot methods throw, and SQLite is not called; while it has not, they do what
-- the snapshot class does on the connection.
pub snapshot-release :
    (api : Api) (con : Connection) (name : Text) (sapi : SnapshotApi) (h : ℕ) (schema : Text)
    (log : List SnapshotCall)
    → (Savepoint.create api con name).0 ≡ ok tt
    → let s = (Savepoint.rollback api (Savepoint.create api con name).1).1 in
      let r = release api s in
      let w = world_of r.1.con.handle log in
      ((savepoint_take sapi schema s log ≡ take sapi schema (world_of s.con.handle log))
        × (savepoint_open sapi h schema s log
            ≡ open_snapshot sapi h schema (world_of s.con.handle log))
        × (((is_ok r.0 ≡ true)
              × (savepoint_take sapi schema r.1 log
                  ≡ (raise (database_exception released_capture), w))
              × (savepoint_open sapi h schema r.1 log
                  ≡ (raise (database_exception released_open), w)))
            ⊎ ((is_ok r.0 ≡ false)
                × (savepoint_take sapi schema r.1 log ≡ take sapi schema w)
                × (savepoint_open sapi h schema r.1 log ≡ open_snapshot sapi h schema w))))
unfolding Savepoint.create Savepoint.rollback release savepoint_take savepoint_open
snapshot-release api con name sapi h schema log p = ground arith
