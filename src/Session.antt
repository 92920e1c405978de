-- ===== src/Session.antt =====
-- session.hpp and session.cpp. The functions of SQLite, which are looked up at run time, are the
-- parameter `SessionApi`. A connection enters by its handle, 0 where it is closed.
pub mod Calls
pub mod Lifetime
pub mod Buffers
use vsqlite.Base.{
  ℕ, Bool, true, false, not, ◌&&◌, Text, List, [], ◌∷◌, codes, length, Option, none, some, is_empty,
  M, Outcome, ok, raise, undefined, ◌>>=◌, ◌>>◌, pure, throw_if, when, zoom, fault,
  database_exception, exception_code, ◌==◌, if◌then◌else◌,
}
use vsqlite.Sqlite.{sqlite_ok, sqlite_error}
use vsqlite.Connection.{not_open}
use vsqlite.Serialization.{normalize_schema}

-- A session and a buffer go by their addresses.
pub data SessionCall : Type 0 where
  session_create : ℕ → Text → SessionCall
  session_delete : ℕ → SessionCall
  session_attach : ℕ → Option Text → SessionCall
  session_enable : ℕ → Bool → SessionCall
  session_indirect : ℕ → Bool → SessionCall
  session_collect : Bool → ℕ → SessionCall
  free_buffer : ℕ → SessionCall
  changeset_apply : ℕ → Text → SessionCall

-- What is found of the eight functions, and their answers: `create` gives a code and the session
-- that it stores, `collect` a code, a buffer and its bytes. `conflicts` says whether an application
-- of changes comes to a conflict.
pub record SessionApi : Type 0 where
  pub has_create : Bool
  pub has_destroy : Bool
  pub has_attach : Bool
  pub has_enable : Bool
  pub has_indirect : Bool
  pub has_changeset : Bool
  pub has_patchset : Bool
  pub has_apply : Bool
  pub create : List SessionCall → ℕ → Text → ℕ × ℕ
  pub attach : List SessionCall → ℕ → Option Text → ℕ
  pub collect : List SessionCall → Bool → ℕ → ℕ × ℕ × Text
  pub apply : List SessionCall → ℕ → Text → ℕ
  pub conflicts : List SessionCall → ℕ → Text → Bool
  pub errmsg : List SessionCall → ℕ → Text

-- The connection that sessions record, and the calls made.
pub record World : Type 0 where
  pub db : ℕ
  pub log : List SessionCall

-- `bound` says whether `con_` points to the connection.
pub record Session : Type 0 where
  pub bound : Bool
  pub handle : ℕ

-- A session with its world.
pub record State : Type 0 where
  pub session : Session
  pub world : World

abbrev pub noted : SessionCall → World → World
noted call w = record w { log = call ∷ w.log }

abbrev pub logged : SessionCall → M State (Unit {0})
logged call s = (ok tt, record s { world = noted call s.world })

unfoldable pub handle : M World ℕ
handle w = if w.db == 0 then (raise (database_exception not_open), w) else (ok w.db, w)

-- `handle(*con_)`
unfoldable pub own_handle : M State ℕ
unfolding handle
own_handle s =
    let (r, w) = handle s.world in
    if s.session.bound then (r, record s { world = w }) else (undefined, s)

unfoldable pub sessions_supported : SessionApi → Bool
sessions_supported api =
    api.has_create
    && (api.has_destroy
        && (api.has_attach
            && (api.has_enable
                && (api.has_indirect
                    && (api.has_changeset && (api.has_patchset && api.has_apply))))))

pub unavailable : Text
unavailable = codes "SQLite session APIs are not available in this build."

unfoldable pub ensure_session_available {ℓ} : {S : Type ℓ} → SessionApi → M S (Unit {0})
ensure_session_available api =
    throw_if (not (sessions_supported api)) (database_exception unavailable)

pub no_handle : Text
no_handle = codes "Session handle is not initialized."

-- The rest of the constructor, once the handle of the connection is known.
unfoldable pub start : SessionApi → Text → Bool → ℕ → M State (Unit {0})
start api schema is_indirect db s =
    let (rc, raw) = api.create s.world.log db schema in
    let w = noted (SessionCall.session_create db schema) s.world in
    let opened : Session = record { bound = true; handle = raw } in
    let s' : State = record { session = opened; world = w } in
    if not (rc == sqlite_ok)
    then (raise (exception_code (api.errmsg w.log db) rc []), record s { world = w })
    else (when is_indirect (logged (SessionCall.session_indirect raw true))) s'

-- The constructor.
unfoldable pub construct : SessionApi → Text → Bool → World → Outcome (Unit {0}) × State
construct api schema is_indirect w =
    (do
      ensure_session_available api
      db ← own_handle
      start api (normalize_schema schema) is_indirect db)
      (record { session = record { bound = true; handle = 0 }; world = w })

-- `if (handle_) if (auto destroy_fn = …) destroy_fn(handle_);`
unfoldable pub delete_handle : SessionApi → ℕ → World → World
delete_handle api h w =
    if h == 0 then w else if api.has_destroy then noted (SessionCall.session_delete h) w else w

abbrev pub empty : Session
empty = record { bound = false; handle = 0 }

-- `~session`
unfoldable pub destroy : SessionApi → State → State
destroy api s = record { session = empty; world = delete_handle api s.session.handle s.world }

-- The move constructor: the new session, and what is left of the other.
unfoldable pub move_construct : Session → Session × Session
move_construct other = (other, empty)

pub record Moved : Type 0 where
  pub self : Session
  pub other : Session
  pub world : World

-- `operator=` from another object.
unfoldable pub move_assign : SessionApi → Session → Session → World → Moved
move_assign api this other w = record {
  self = other;
  other = empty;
  world = delete_handle api this.handle w;
}

-- The beginning of each method.
unfoldable pub ready : SessionApi → M State (Unit {0})
unfolding ensure_session_available
ready api = do
  ensure_session_available api
  λ s. throw_if (s.session.handle == 0) (database_exception no_handle) s

abbrev pub owned : Text → Option Text
owned table = if is_empty table then none else some table

-- The call of `sqlite3session_attach`, and the test of its code.
unfoldable pub attach_table : SessionApi → Text → M State (Unit {0})
attach_table api table s =
    let h = s.session.handle in
    let rc = api.attach s.world.log h (owned table) in
    let s' = record s { world = noted (SessionCall.session_attach h (owned table)) s.world } in
    if rc == sqlite_ok
    then (ok tt, s')
    else (own_handle >>= (λ db t. (raise (exception_code (api.errmsg t.world.log db) rc []), t))) s'

unfoldable pub attach : SessionApi → Text → M State (Unit {0})
attach api table = do ready api; attach_table api table

unfoldable pub attach_all : SessionApi → M State (Unit {0})
unfolding attach
attach_all api = attach api []

unfoldable pub enable : SessionApi → Bool → M State (Unit {0})
enable api value = do ready api; λ s. logged (SessionCall.session_enable s.session.handle value) s

unfoldable pub set_indirect : SessionApi → Bool → M State (Unit {0})
set_indirect api value = do
  ready api
  λ s. logged (SessionCall.session_indirect s.session.handle value) s

-- `take_buffer`
unfoldable pub take_buffer : ℕ → ℕ → Text → Text → M State Text
take_buffer rc buffer bytes message s =
    let s' = record s { world = noted (SessionCall.free_buffer buffer) s.world } in
    if rc == sqlite_ok then (ok bytes, s') else (raise (database_exception message), s')

-- `collect` behind its checks: the handle of the connection is asked for before the buffer is taken.
unfoldable pub gather : SessionApi → Bool → M State Text
unfolding take_buffer
gather api patchset s =
    let h = s.session.handle in
    let (rc, buffer, bytes) = api.collect s.world.log patchset h in
    let s' = record s { world = noted (SessionCall.session_collect patchset h) s.world } in
    (own_handle >>= (λ db t. take_buffer rc buffer bytes (api.errmsg t.world.log db) t)) s'

unfoldable pub collect : SessionApi → Bool → M State Text
collect api patchset = do ready api; gather api patchset

unfoldable pub changeset : SessionApi → M State Text
unfolding collect
changeset api = collect api false

unfoldable pub patchset : SessionApi → M State Text
unfolding collect
patchset api = collect api true

-- The call of `sqlite3changeset_apply` with no conflict handler, which a conflict calls all the same.
unfoldable pub apply_changes : SessionApi → Text → ℕ → M World (Unit {0})
apply_changes api changes db w =
    let rc = api.apply w.log db changes in
    let w' = noted (SessionCall.changeset_apply db changes) w in
    if api.conflicts w.log db changes
    then (undefined, w')
    else if rc == sqlite_ok
    then (ok tt, w')
    else (raise (exception_code (api.errmsg w'.log db) rc []), w')

-- `apply_changeset` and `apply_patchset`.
unfoldable pub apply_changeset : SessionApi → Text → M World (Unit {0})
unfolding handle apply_changes
apply_changeset api changes w =
    let rest = (handle >>= apply_changes api changes) w in
    (ensure_session_available api >>= (λ _ _. if is_empty changes then (ok tt, w) else rest)) w
