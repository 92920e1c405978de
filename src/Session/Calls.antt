-- ===== src/Session/Calls.antt =====
-- What the methods of a session leave alone.
use vsqlite.Base.{
  ℕ, ◌≡◌, ◌≢◌, ◌⊎◌, ap, ◌∙◌, arith, not, throw_if, database_exception, Bool, true, Text, List, [],
  ◌∷◌, ◌++◌, Outcome, bind, ok, raise, undefined,
}
use vsqlite.Sqlite.{sqlite_ok, non_null}
use vsqlite.Session.{
  SessionApi, SessionCall, State, sessions_supported, ensure_session_available, own_handle, handle,
  ready, attach_table, gather, take_buffer, unavailable,
}
use vsqlite.Connection.{not_open}

-- The sessions that SQLite has stored, from its answers to the log, and the deleted ones.
abbrev pub created : SessionApi → List SessionCall → List ℕ
created api [] = []
created api (SessionCall.session_create db schema ∷ log) =
    non_null (api.create log db schema).1 ++ created api log
created api (_ ∷ log) = created api log

abbrev pub deleted : List SessionCall → List ℕ
deleted [] = []
deleted (SessionCall.session_delete h ∷ log) = h ∷ deleted log
deleted (_ ∷ log) = deleted log

-- SQLite documents that a failed `sqlite3session_create` stores a null pointer.
abbrev pub NullOnError : SessionApi → Type 0
NullOnError api =
    (log : List SessionCall) (db : ℕ) (schema : Text)
    → (api.create log db schema).0 ≢ sqlite_ok
    → (api.create log db schema).1 ≡ 0

pub ensured {ℓ} :
    {S : Type ℓ} (api : SessionApi) (s : S)
    → sessions_supported api ≡ true
    → ensure_session_available api s ≡ (ok tt, s)
unfolding ensure_session_available
ensured api s h = ap (λ b. throw_if (not b) (database_exception unavailable) s) h

pub own_handle_cases :
    (s : State)
    → (own_handle s ≡ (ok s.world.db, s))
      ⊎ ((own_handle s ≡ (raise (database_exception not_open), s))
          ⊎ (own_handle s ≡ (undefined, s)))
unfolding own_handle handle
own_handle_cases s = ground arith

pub ready_lem :
    (api : SessionApi) (s : State)
    → sessions_supported api ≡ true
    → s.session.handle ≢ 0
    → ready api s ≡ (ok tt, s)
unfolding ready
ready_lem api s p h = rw (ensured api s p) (ground arith)

-- What a method of a session leaves alone: the session, and what is created and deleted.
pub record Keeps (api : SessionApi) (s t : State) : Type 0 where
  pub same_session : t.session ≡ s.session
  pub same_created : created api t.world.log ≡ created api s.world.log
  pub same_deleted : deleted t.world.log ≡ deleted s.world.log

module _ (api : SessionApi) where
  Keeps-trans : (s t u : State) → Keeps api s t → Keeps api t u → Keeps api s u
  Keeps-trans s t u p q = record {
    same_session = q.same_session ∙ p.same_session;
    same_created = q.same_created ∙ p.same_created;
    same_deleted = q.same_deleted ∙ p.same_deleted;
  }

  pub ready-Keeps : (s : State) → sessions_supported api ≡ true → Keeps api s (ready api s).1
  unfolding ready
  ready-Keeps s p = ground (arith, ensured api s p)

  pub own_handle-Keeps : (s : State) → Keeps api s (own_handle s).1
  unfolding own_handle handle
  own_handle-Keeps s = ground arith

  pub attach_table-Keeps : (table : Text) (s : State) → Keeps api s (attach_table api table s).1
  unfolding attach_table own_handle handle
  attach_table-Keeps table s = ground arith

  pub gather-Keeps : (patchset : Bool) (s : State) → Keeps api s (gather api patchset s).1
  unfolding gather own_handle handle take_buffer
  gather-Keeps patchset s = ground arith

  -- A part of a method that runs once the session is found ready.
  pub behind_ready :
      {A : Type 0} (m : State → Outcome A × State) (s : State)
      → sessions_supported api ≡ true
      → ((t : State) → Keeps api t (m t).1)
      → Keeps api s (bind (ready api s) (λ _. m)).1
  behind_ready m s p k = ground (
    arith,
    ready-Keeps s p,
    k (ready api s).1,
    Keeps-trans s (ready api s).1 (m (ready api s).1).1 (ready-Keeps s p) (k (ready api s).1),
  )
