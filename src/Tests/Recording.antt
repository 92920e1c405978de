-- ===== src/Tests/Recording.antt =====
-- The theorems on sessions and snapshots at concrete inputs.
use vsqlite.Base.{suc, ◌≡◌, refl, true, false, List, [], ◌∷◌, codes, none, length, count, arith}
use vsqlite.Session.{SessionApi}
use vsqlite.Session
use vsqlite.Session.Calls
use vsqlite.Session.Lifetime as Sessions
use vsqlite.Session.Buffers
use vsqlite.Snapshot.{SnapshotApi}
use vsqlite.Snapshot
use vsqlite.Snapshot.Lifetime as Snapshots

-- A SQLite with sessions, which gives each session and each buffer a new address, and applies
-- nothing without a conflict.
abbrev pub sessions : SessionApi
sessions = record {
  has_create = true;
  has_destroy = true;
  has_attach = true;
  has_enable = true;
  has_indirect = true;
  has_changeset = true;
  has_patchset = true;
  has_apply = true;
  create = λ log db schema. (0, suc (length log));
  attach = λ log s table. 0;
  collect = λ log patchset s. (0, suc (length log), codes "changes");
  apply = λ log db changes. 4;
  conflicts = λ log db changes. true;
  errmsg = λ log db. [];
}

sessions-NullOnError : Calls.NullOnError sessions
sessions-NullOnError log db schema e = absurd (e refl)

-- A session is opened, collects, is moved and replaced by another.
abbrev recorded : List Sessions.Operation
recorded =
    Sessions.Operation.opens [] false
    ∷ Sessions.Operation.collects true
    ∷ Sessions.Operation.moves
    ∷ Sessions.Operation.opens (codes "main") true
    ∷ Sessions.Operation.returns
    ∷ []

sessions-deleted_example :
    let w = Sessions.leave sessions (Sessions.perform_all sessions recorded (Sessions.fresh 7)) in
    count 1 (Calls.created sessions w.log) ≡ count 1 (Calls.deleted w.log)
unfolding Session.sessions_supported
sessions-deleted_example = Sessions.sessions-deleted 1 7 sessions recorded sessions-NullOnError refl

abbrev recording : Session.State
recording = record {
  session = record { bound = true; handle = 1 };
  world = record { db = 7; log = [] };
}

collect-Gathered_example :
    Buffers.Gathered sessions true recording (Session.collect sessions true recording)
unfolding Session.sessions_supported
collect-Gathered_example = Buffers.collect-Gathered sessions true recording refl refl (omega arith)

-- A SQLite with snapshots, which gives each one a new address.
abbrev pub snapshots : SnapshotApi
snapshots = record {
  has_get = true;
  has_open = true;
  has_free = true;
  get = λ log db schema. (0, suc (length log));
  open_code = λ log db schema h. 5;
  errmsg = λ log db. none;
  errstr = λ rc. none;
  extended_errcode = λ log db. 0;
}

abbrev pictured : List Snapshots.Operation
pictured =
    Snapshots.Operation.takes []
    ∷ Snapshots.Operation.opens []
    ∷ Snapshots.Operation.moves
    ∷ Snapshots.Operation.takes (codes "main")
    ∷ Snapshots.Operation.returns
    ∷ []

snapshots-freed_example :
    let w =
      Snapshots.leave snapshots (Snapshots.perform_all snapshots pictured (Snapshots.fresh 7)) in
    count 1 (Snapshots.taken snapshots w.log) ≡ count 1 (Snapshots.freed w.log)
unfolding Snapshot.snapshots_supported
snapshots-freed_example = Snapshots.snapshots-freed 1 7 snapshots pictured refl
