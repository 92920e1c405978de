-- ===== src/Snapshot/Lifetime.antt =====
-- Two variables that hold snapshots, what is done to them, and what becomes of the snapshots that
-- SQLite gives.
use vsqlite.Base.{
  ℕ, ◌+◌, ◌≡◌, ◌⊎◌, inl, inr, refl, ap, arith, true, not, Bool-cases, Text, List, [], ◌∷◌, ◌++◌,
  count, count-append, throw_if, database_exception, Outcome, ok, raise, undefined, ◌==◌,
  if◌then◌else◌,
}
use vsqlite.Sqlite.{sqlite_ok, non_null}
use vsqlite.Connection.{not_open}
use vsqlite.Serialization.{normalize_schema}
use vsqlite.Snapshot.{
  SnapshotApi, SnapshotCall, World, snapshots_supported, unavailable, ensure_snapshot_available,
  to_handle, get_snapshot, take, open_handle, open_snapshot, reset, move_assign,
}

-- `takes` assigns a new snapshot to the first variable, `moves` and `returns` assign one variable to
-- the other, the first one is opened or reset, and the connection may be closed in between.
pub data Operation : Type 0 where
  takes : Text → Operation
  moves : Operation
  returns : Operation
  opens : Text → Operation
  resets : Operation
  closes : Operation

pub record Variables : Type 0 where
  pub first : ℕ
  pub second : ℕ
  pub world : World

abbrev pub fresh : ℕ → Variables
fresh db = record { first = 0; second = 0; world = record { db = db; log = [] } }

abbrev pub assign_new : SnapshotApi → Outcome ℕ × World → Variables → Variables
assign_new api (ok h, w) v =
    let m = move_assign api v.first h w in record v { first = m.self; world = m.world }
assign_new api (raise e, w) v = record v { world = w }
assign_new api (undefined, w) v = record v { world = w }

unfoldable pub perform : SnapshotApi → Operation → Variables → Variables
perform api (Operation.takes schema) v = assign_new api (take api schema v.world) v
perform api Operation.moves v =
    let m = move_assign api v.second v.first v.world in
    record { first = m.other; second = m.self; world = m.world }
perform api Operation.returns v =
    let m = move_assign api v.first v.second v.world in
    record { first = m.self; second = m.other; world = m.world }
perform api (Operation.opens schema) v = record v {
  world = (open_snapshot api v.first schema v.world).1;
}
perform api Operation.resets v = record v { first = 0; world = reset api v.first v.world }
perform api Operation.closes v = record v { world = record (v.world) { db = 0 } }

unfoldable pub perform_all : SnapshotApi → List Operation → Variables → Variables
perform_all api [] v = v
perform_all api (op ∷ ops) v = perform_all api ops (perform api op v)

-- Both variables go out of scope.
unfoldable pub leave : SnapshotApi → Variables → World
leave api v = reset api v.first (reset api v.second v.world)

-- The snapshots that SQLite has given with SQLITE_OK, from its answers to the log, and the freed ones.
abbrev pub taken : SnapshotApi → List SnapshotCall → List ℕ
taken api [] = []
taken api (SnapshotCall.snapshot_get db schema ∷ log) =
    (if (api.get log db schema).0 == sqlite_ok then non_null (api.get log db schema).1 else [])
    ++ taken api log
taken api (_ ∷ log) = taken api log

abbrev pub freed : List SnapshotCall → List ℕ
freed [] = []
freed (SnapshotCall.snapshot_free h ∷ log) = h ∷ freed log
freed (_ ∷ log) = freed log

ensured :
    (api : SnapshotApi) (w : World)
    → snapshots_supported api ≡ true
    → ensure_snapshot_available api w ≡ (ok tt, w)
unfolding ensure_snapshot_available
ensured api w h = ap (λ b. throw_if (not b) (database_exception unavailable) w) h

to_handle_cases :
    (w : World)
    → (to_handle w ≡ (ok w.db, w)) ⊎ (to_handle w ≡ (raise (database_exception not_open), w))
unfolding to_handle
to_handle_cases w = ground arith

module _ (api : SnapshotApi) (h : ℕ) where
  -- What SQLite has given is freed or held.
  abbrev Held : ℕ → World → Type 0
  Held n w = count h (taken api w.log) ≡ count h (freed w.log) + n

  abbrev holds : ℕ → ℕ
  holds x = count h (non_null x)

  reset-Held :
      (x n : ℕ) (w : World) → api.has_free ≡ true → Held (holds x + n) w → Held n (reset api x w)
  unfolding reset
  reset-Held x n w f b = ground arith

  abbrev TakenWith : ℕ → Outcome ℕ × World → Type 0
  TakenWith n (ok raw, w) = Held (holds raw + n) w
  TakenWith n (raise e, w) = Held n w
  TakenWith n (undefined, w) = Held n w

  get_snapshot-Held :
      (schema : Text) (db n : ℕ) (w : World) → Held n w → TakenWith n (get_snapshot api schema db w)
  unfolding get_snapshot
  get_snapshot-Held schema db n w b =
      let raw = (api.get w.log db schema).1 in
      elim (Bool-cases ((api.get w.log db schema).0 == sqlite_ok)) [
        | inl fine ↦
            rw fine (rw fine (omega (arith, b, count-append h (non_null raw) (taken api w.log))))
        | inr wrong ↦ rw wrong (rw wrong b)
      ]

  take-Held :
      (schema : Text) (n : ℕ) (w : World)
      → snapshots_supported api ≡ true
      → Held n w
      → TakenWith n (take api schema w)
  unfolding take
  take-Held schema n w p b = rw (ensured api w p) (elim (to_handle_cases w) [
    | inl e ↦ rw e (get_snapshot-Held (normalize_schema schema) w.db n w b)
    | inr e ↦ rw e b
  ])

  open-Held :
      (x : ℕ) (schema : Text) (n : ℕ) (w : World)
      → snapshots_supported api ≡ true
      → Held n w
      → Held n (open_snapshot api x schema w).1
  unfolding open_snapshot to_handle open_handle
  open-Held x schema n w p b = rw (ensured api w p) (ground arith)

  abbrev Balanced : Variables → Type 0
  Balanced v = Held (holds v.first + holds v.second) v.world

  assign_new-Balanced :
      (r : Outcome ℕ × World) (v : Variables)
      → api.has_free ≡ true
      → TakenWith (holds v.first + holds v.second) r
      → Balanced (assign_new api r v)
  unfolding move_assign
  assign_new-Balanced (ok raw, w) v f b =
      reset-Held v.first (holds raw + holds v.second) w f (omega arith)
  assign_new-Balanced (raise e, w) v f b = b
  assign_new-Balanced (undefined, w) v f b = b

  perform-Balanced :
      (op : Operation) (v : Variables)
      → api.has_free ≡ true
      → snapshots_supported api ≡ true
      → Balanced v
      → Balanced (perform api op v)
  unfolding perform move_assign
  perform-Balanced (Operation.takes schema) v f p b =
      assign_new-Balanced (take api schema v.world) v f
        (take-Held schema (holds v.first + holds v.second) v.world p b)
  perform-Balanced Operation.moves v f p b =
      ground (arith, reset-Held v.second (holds v.first) v.world f)
  perform-Balanced Operation.returns v f p b =
      ground (arith, reset-Held v.first (holds v.second) v.world f)
  perform-Balanced (Operation.opens schema) v f p b =
      open-Held v.first schema (holds v.first + holds v.second) v.world p b
  perform-Balanced Operation.resets v f p b =
      ground (arith, reset-Held v.first (holds v.second) v.world f)
  perform-Balanced Operation.closes v f p b = b

  perform_all-Balanced :
      (ops : List Operation) (v : Variables)
      → api.has_free ≡ true
      → snapshots_supported api ≡ true
      → Balanced v
      → Balanced (perform_all api ops v)
  unfolding perform_all
  perform_all-Balanced [] v f p b = b
  perform_all-Balanced (op ∷ ops) v f p b =
      perform_all-Balanced ops (perform api op v) f p (perform-Balanced op v f p b)

supported-has_free : (api : SnapshotApi) → snapshots_supported api ≡ true → api.has_free ≡ true
unfolding snapshots_supported
supported-has_free api p = ground arith

-- Two variables hold snapshots, are assigned to one another, taken anew, opened and reset in any
-- order, also after the connection is closed. Once both are gone, each snapshot that SQLite has given
-- without an error has been freed, and as often as it was given, if SQLite has the functions for
-- snapshots.
pub snapshots-freed :
    (h db : ℕ) (api : SnapshotApi) (ops : List Operation)
    → snapshots_supported api ≡ true
    → let w = leave api (perform_all api ops (fresh db)) in
      count h (taken api w.log) ≡ count h (freed w.log)
unfolding leave
snapshots-freed h db api ops p =
    let f = supported-has_free api p in
    let v = perform_all api ops (fresh db) in
    let all = perform_all-Balanced api h ops (fresh db) f p refl in
    ground (
      arith,
      all,
      reset-Held api h v.second (count h (non_null v.first)) v.world f,
      reset-Held api h v.first 0 (reset api v.second v.world) f,
    )
