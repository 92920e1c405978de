-- ===== src/Session/Lifetime.antt =====
-- Two variables that hold sessions of one connection, what is done to them, and what becomes of the
-- sessions that SQLite creates.
use vsqlite.Base.{
  ℕ, ◌+◌, ◌≡◌, ◌⊎◌, refl, arith, inl, inr, Bool, true, Text, List, [], ◌∷◌, count, count-append,
  Outcome, ◌>>=◌, ok, raise, undefined,
}
use vsqlite.Sqlite.{non_null}
use vsqlite.Session.{
  SessionApi, World, Session, State, sessions_supported, construct, own_handle, start, destroy,
  delete_handle, empty, move_assign, attach, attach_table, enable, set_indirect, collect, gather,
}
use vsqlite.Serialization.{normalize_schema}
use vsqlite.Session.Calls.{
  created, deleted, NullOnError, ensured, own_handle_cases, ready-Keeps, attach_table-Keeps,
  gather-Keeps, behind_ready,
}

-- `opens` assigns a new session to the first variable, `moves` and `returns` assign one variable to
-- the other, the methods are called on the first, and the connection may be closed in between.
pub data Operation : Type 0 where
  opens : Text → Bool → Operation
  moves : Operation
  returns : Operation
  attaches : Text → Operation
  enables : Bool → Operation
  marks_indirect : Bool → Operation
  collects : Bool → Operation
  closes : Operation

pub record Variables : Type 0 where
  pub first : Session
  pub second : Session
  pub world : World

abbrev pub fresh : ℕ → Variables
fresh db = record { first = empty; second = empty; world = record { db = db; log = [] } }

-- A constructor that throws leaves no session to assign. The one that is assigned from is left empty.
abbrev pub assign_new : SessionApi → Outcome (Unit {0}) × State → Variables → Variables
assign_new api (ok u, made) v =
    let m = move_assign api v.first made.session made.world in
    record v { first = m.self; world = m.world }
assign_new api (raise e, made) v = record v { world = made.world }
assign_new api (undefined, made) v = record v { world = made.world }

abbrev pub call {ℓ} : {A : Type ℓ} → (State → Outcome A × State) → Variables → Variables
call m v =
    let s = (m (record { session = v.first; world = v.world })).1 in
    record v { first = s.session; world = s.world }

unfoldable pub perform : SessionApi → Operation → Variables → Variables
perform api (Operation.opens schema is_indirect) v =
    assign_new api (construct api schema is_indirect v.world) v
perform api Operation.moves v =
    let m = move_assign api v.second v.first v.world in
    record { first = m.other; second = m.self; world = m.world }
perform api Operation.returns v =
    let m = move_assign api v.first v.second v.world in
    record { first = m.self; second = m.other; world = m.world }
perform api (Operation.attaches table) v = call (attach api table) v
perform api (Operation.enables value) v = call (enable api value) v
perform api (Operation.marks_indirect value) v = call (set_indirect api value) v
perform api (Operation.collects patchset) v = call (collect api patchset) v
perform api Operation.closes v = record v { world = record (v.world) { db = 0 } }

unfoldable pub perform_all : SessionApi → List Operation → Variables → Variables
perform_all api [] v = v
perform_all api (op ∷ ops) v = perform_all api ops (perform api op v)

-- Both variables go out of scope.
unfoldable pub leave : SessionApi → Variables → World
leave api v =
    (destroy api (record {
      session = v.first;
      world = (destroy api (record { session = v.second; world = v.world })).world;
    })).world

module _ (api : SessionApi) (h : ℕ) where
  -- What a world has created is deleted or held.
  abbrev Held : ℕ → World → Type 0
  Held n w = count h (created api w.log) ≡ count h (deleted w.log) + n

  abbrev holds : Session → ℕ
  holds s = count h (non_null s.handle)

  delete_handle-Held :
      (x n : ℕ) (w : World)
      → api.has_destroy ≡ true
      → Held (count h (non_null x) + n) w
      → Held n (delete_handle api x w)
  unfolding delete_handle
  delete_handle-Held x n w d b = ground arith

  abbrev MadeWith : ℕ → Outcome (Unit {0}) × State → Type 0
  MadeWith n (r, made) =
      Held (holds made.session + n) made.world × ((r ≡ ok tt) ⊎ (made.session.handle ≡ 0))

  start-Held :
      (schema : Text) (is_indirect : Bool) (db n : ℕ) (s : State)
      → NullOnError api
      → s.session.handle ≡ 0
      → Held n s.world
      → MadeWith n (start api schema is_indirect db s)
  unfolding start
  start-Held schema is_indirect db n s null z b =
      let made = (api.create s.world.log db schema).1 in
      ground (
        arith,
        null s.world.log db schema,
        count-append h (non_null made) (created api s.world.log),
      )

  open-Held :
      (schema : Text) (is_indirect : Bool) (n : ℕ) (s : State)
      → NullOnError api
      → s.session.handle ≡ 0
      → Held n s.world
      → MadeWith n ((own_handle >>= start api schema is_indirect) s)
  open-Held schema is_indirect n s null z b = elim (own_handle_cases s) [
    | inl e ↦ rw e (start-Held schema is_indirect s.world.db n s null z b)
    | inr (inl e) ↦ rw e (ground arith)
    | inr (inr e) ↦ rw e (ground arith)
  ]

  -- A new session is held by the new object; where none is made, nothing is held.
  construct-Held :
      (schema : Text) (is_indirect : Bool) (n : ℕ) (w : World)
      → NullOnError api
      → sessions_supported api ≡ true
      → Held n w
      → MadeWith n (construct api schema is_indirect w)
  unfolding construct
  construct-Held schema is_indirect n w null p b =
      let blank : State = record { session = record { bound = true; handle = 0 }; world = w } in
      rw (ensured api blank p) (open-Held (normalize_schema schema) is_indirect n blank null refl b)

  abbrev Balanced : Variables → Type 0
  Balanced v = Held (holds v.first + holds v.second) v.world

  perform-Balanced :
      (op : Operation) (v : Variables)
      → NullOnError api
      → api.has_destroy ≡ true
      → sessions_supported api ≡ true
      → Balanced v
      → Balanced (perform api op v)
  unfolding perform attach enable set_indirect collect move_assign
  perform-Balanced (Operation.opens schema is_indirect) v null d p b =
      let made = (construct api schema is_indirect v.world).1 in
      ground (
        arith,
        construct-Held schema is_indirect (holds v.first + holds v.second) v.world null p b,
        delete_handle-Held v.first.handle (holds made.session + holds v.second) made.world d,
      )
  perform-Balanced Operation.moves v null d p b =
      ground (arith, delete_handle-Held v.second.handle (holds v.first) v.world d)
  perform-Balanced Operation.returns v null d p b =
      ground (arith, delete_handle-Held v.first.handle (holds v.second) v.world d)
  perform-Balanced (Operation.attaches table) v null d p b =
      let s : State = record { session = v.first; world = v.world } in
      ground (arith, behind_ready api (attach_table api table) s p (attach_table-Keeps api table))
  perform-Balanced (Operation.enables value) v null d p b =
      let s : State = record { session = v.first; world = v.world } in
      ground (arith, ready-Keeps api s p)
  perform-Balanced (Operation.marks_indirect value) v null d p b =
      let s : State = record { session = v.first; world = v.world } in
      ground (arith, ready-Keeps api s p)
  perform-Balanced (Operation.collects patchset) v null d p b =
      let s : State = record { session = v.first; world = v.world } in
      ground (arith, behind_ready api (gather api patchset) s p (gather-Keeps api patchset))
  perform-Balanced Operation.closes v null d p b = b

  perform_all-Balanced :
      (ops : List Operation) (v : Variables)
      → NullOnError api
      → api.has_destroy ≡ true
      → sessions_supported api ≡ true
      → Balanced v
      → Balanced (perform_all api ops v)
  unfolding perform_all
  perform_all-Balanced [] v null d p b = b
  perform_all-Balanced (op ∷ ops) v null d p b =
      perform_all-Balanced ops (perform api op v) null d p (perform-Balanced op v null d p b)

  leave-Held : (v : Variables) → api.has_destroy ≡ true → Balanced v → Held 0 (leave api v)
  unfolding leave destroy
  leave-Held v d b = ground (
    arith,
    delete_handle-Held v.second.handle (holds v.first) v.world d,
    delete_handle-Held v.first.handle 0 (delete_handle api v.second.handle v.world) d,
  )

supported-has_destroy : (api : SessionApi) → sessions_supported api ≡ true → api.has_destroy ≡ true
unfolding sessions_supported
supported-has_destroy api p = ground arith

-- Two variables hold sessions, are assigned to one another, opened anew and used in any order, also
-- after the connection is closed. Once both are gone, each session that SQLite has created has been
-- deleted, and as often as it was created, if SQLite has the functions for sessions and stores a
-- null pointer where it fails to create one.
pub sessions-deleted :
    (h db : ℕ) (api : SessionApi) (ops : List Operation)
    → NullOnError api
    → sessions_supported api ≡ true
    → let w = leave api (perform_all api ops (fresh db)) in
      count h (created api w.log) ≡ count h (deleted w.log)
sessions-deleted h db api ops null p =
    let d = supported-has_destroy api p in
    let v = perform_all api ops (fresh db) in
    ground (arith, leave-Held api h v d (perform_all-Balanced api h ops (fresh db) null d p refl))
