-- ===== src/Session/Buffers.antt =====
-- The buffers of collected changes, and the application of changes.
use vsqlite.Base.{
  ℕ, ◌≡◌, ◌≢◌, ◌⊎◌, inl, inr, refl, arith, Bool, true, false, Text, List, [], ◌∷◌, Outcome, ok,
  raise, undefined, is_ok, database_exception,
}
use vsqlite.Sqlite.{sqlite_ok}
use vsqlite.Connection.{not_open}
use vsqlite.Session.{
  SessionApi, SessionCall, World, State, sessions_supported, handle, own_handle, collect, gather,
  apply_changeset, apply_changes,
}
use vsqlite.Session.Calls.{ensured, ready_lem}

-- The buffers that SQLite has given, from its answers to the log, and the freed ones.
abbrev pub given : SessionApi → List SessionCall → List ℕ
given api [] = []
given api (SessionCall.session_collect patchset h ∷ log) =
    (api.collect log patchset h).1 ∷ given api log
given api (_ ∷ log) = given api log

abbrev pub freed : List SessionCall → List ℕ
freed [] = []
freed (SessionCall.free_buffer p ∷ log) = p ∷ freed log
freed (_ ∷ log) = freed log

-- How a collection ends: the bytes, or an exception; the buffer is freed either way, but where the
-- connection is closed.
abbrev pub Gathered : SessionApi → Bool → State → Outcome Text × State → Type 0
Gathered api patchset s (r, t) =
    let (rc, buffer, bytes) = api.collect s.world.log patchset s.session.handle in
    (given api t.world.log ≡ buffer ∷ given api s.world.log)
    × (((rc ≡ sqlite_ok) × (r ≡ ok bytes) × (freed t.world.log ≡ buffer ∷ freed s.world.log))
        ⊎ (((rc ≢ sqlite_ok) × (is_ok r ≡ false) × (freed t.world.log ≡ buffer ∷ freed s.world.log))
            ⊎ ((s.world.db ≡ 0) × (is_ok r ≡ false) × (freed t.world.log ≡ freed s.world.log))))

gather-Gathered :
    (api : SessionApi) (patchset : Bool) (s : State)
    → s.session.bound ≡ true
    → Gathered api patchset s (gather api patchset s)
unfolding gather own_handle handle
gather-Gathered api patchset s b = ground arith

-- Changes that are collected from a session with a handle, where SQLite has the functions: either the
-- bytes come back, which SQLite gives without an error, or SQLite reports one and the call does not
-- return, and the buffer that it gives is freed once; or the connection has been closed before, the
-- call does not return, and the buffer is never freed.
pub collect-Gathered :
    (api : SessionApi) (patchset : Bool) (s : State)
    → sessions_supported api ≡ true
    → s.session.bound ≡ true
    → s.session.handle ≢ 0
    → Gathered api patchset s (collect api patchset s)
unfolding collect
collect-Gathered api patchset s p b h = rw (ready_lem api s p h) (gather-Gathered api patchset s b)

-- Changes are applied as one of four ways: nothing is done for no bytes, a closed connection throws,
-- a conflict calls the conflict handler, which is null, and else the call returns exactly if SQLite
-- gives no error.
pub apply_changeset_lem :
    (api : SessionApi) (changes : Text) (w : World)
    → sessions_supported api ≡ true
    → let (r, w') = apply_changeset api changes w in
      ((changes ≡ []) × (r ≡ ok tt) × (w' ≡ w))
      ⊎ (((w.db ≡ 0) × (r ≡ raise (database_exception not_open)) × (w' ≡ w))
          ⊎ (((api.conflicts w.log w.db changes ≡ true) × (r ≡ undefined))
              ⊎ ((api.conflicts w.log w.db changes ≡ false)
                  × (((r ≡ ok tt) × (api.apply w.log w.db changes ≡ sqlite_ok))
                      ⊎ ((is_ok r ≡ false) × (api.apply w.log w.db changes ≢ sqlite_ok))))))
unfolding apply_changeset handle apply_changes
apply_changeset_lem api [] w p = rw (ensured api w p) (inl (refl, refl, refl))
apply_changeset_lem api (c ∷ changes) w p = rw (ensured api w p) (inr (ground arith))
