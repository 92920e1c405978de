-- ===== src/Connection/Lifetime.antt =====
-- Statements over the life of a connection: what closing does, and what a closed connection does.
use vsqlite.Base.{
  is_ok, ℕ, ◌+◌, ◌≡◌, ◌≢◌, ◌⊎◌, true, Text, [], ◌∷◌, ok, raise, arith, count, database_exception,
  exception_code,
}
use vsqlite.Sqlite.{Api, Call, sqlite_ok, finalized, prepared}
use vsqlite.Cache.{Cache, Config, finalize_all}
use vsqlite.Cache
use vsqlite.Cache.Invariant.{
  IsValid, acquire-IsValid, acquire-ok, release-IsValid, clear-IsValid, reset-IsValid,
}
use vsqlite.Cache.Ownership.{
  held, handed, acquire_conserves, release_conserves, clear_conserves, prepared-acquire,
  prepared-release, prepared-clear,
}
use vsqlite.Connection.{
  Connection, not_open, access_check, close_handle, close, destroy, acquire_cached_statement,
  release_cached_statement, clear_statement_cache, configure_statement_cache,
}

-- How often a statement is kept by the connection or has been finalized.
abbrev pub accounted : ℕ → Connection → ℕ
accounted s c = count s (held c.cache.lru) + count s (finalized c.log)

-- The connection keeps a valid cache and its handle, and moves no statement but those named.
pub acquire_cached_statement_lem :
    (s : ℕ) (api : Api) (sql : Text) (c : Connection)
    → IsValid c.cache
    → let r = acquire_cached_statement api sql c in
      IsValid r.1.cache
      × (r.1.handle ≡ c.handle)
      × (accounted s r.1 + count s (handed r.0) ≡ accounted s c)
      × (prepared api r.1.log s ≡ prepared api c.log s)
      × (is_ok r.0 ≡ true)
unfolding acquire_cached_statement
acquire_cached_statement_lem s api sql c v = ground (
  arith,
  acquire-IsValid api c.handle sql c.cache c.log v,
  acquire_conserves s api c.handle sql c.cache c.log v,
  prepared-acquire s api c.handle sql c.cache c.log v,
  acquire-ok api c.handle sql c.cache c.log v,
)

pub release_cached_statement_lem :
    (s : ℕ) (api : Api) (sql : Text) (stmt : ℕ) (c : Connection)
    → IsValid c.cache
    → let r = release_cached_statement sql stmt c in
      (r.0 ≡ ok tt)
      × IsValid r.1.cache
      × (r.1.handle ≡ c.handle)
      × (accounted s r.1 ≡ accounted s c + count s (handed (ok stmt)))
      × (prepared api r.1.log s ≡ prepared api c.log s)
unfolding release_cached_statement
release_cached_statement_lem s api sql stmt c v = ground (
  arith,
  release-IsValid sql stmt c.cache c.log v,
  release_conserves s sql stmt c.cache c.log v,
  prepared-release s api sql stmt c.cache c.log,
)

pub clear_statement_cache_lem :
    (s : ℕ) (api : Api) (c : Connection)
    → IsValid c.cache
    → let r = clear_statement_cache c in
      (r.0 ≡ ok tt)
      × IsValid r.1.cache
      × (r.1.handle ≡ c.handle)
      × (accounted s r.1 ≡ accounted s c)
      × (prepared api r.1.log s ≡ prepared api c.log s)
      × (r.1.cache.lru ≡ [])
unfolding clear_statement_cache Cache.clear
clear_statement_cache_lem s api c v = ground (
  arith,
  clear-IsValid c.cache c.log v,
  clear_conserves s c.cache.config c.cache c.log v,
  prepared-clear s api c.cache.config c.cache c.log,
)

pub configure_statement_cache_lem :
    (s : ℕ) (api : Api) (cfg : Config) (c : Connection)
    → IsValid c.cache
    → let r = configure_statement_cache cfg c in
      IsValid r.1.cache
      × (r.1.handle ≡ c.handle)
      × (accounted s r.1 ≡ accounted s c)
      × (prepared api r.1.log s ≡ prepared api c.log s)
unfolding configure_statement_cache Cache.reset
configure_statement_cache_lem s api cfg c v = ground (
  arith,
  reset-IsValid cfg c.cache c.log v,
  clear_conserves s cfg c.cache c.log v,
  prepared-clear s api cfg c.cache c.log,
)

-- `close` on an open connection finalizes every cached statement before it calls `sqlite3_close`,
-- once; the handle is dropped exactly if SQLite accepts, and otherwise kept, and the error thrown.
pub close_lem :
    (s : ℕ) (api : Api) (c : Connection)
    → IsValid c.cache
    → c.handle ≢ 0
    → let r = close api c in
      let before = finalize_all c.cache.lru c.log in
      (count s (finalized before) ≡ accounted s c)
      × (r.1.log ≡ Call.close c.handle ∷ before)
      × IsValid r.1.cache
      × (r.1.cache.lru ≡ [])
      × (((api.close before c.handle ≡ sqlite_ok) × (r.0 ≡ ok tt) × (r.1.handle ≡ 0))
          ⊎ ((api.close before c.handle ≢ sqlite_ok)
              × (r.0
                  ≡ raise
                      (exception_code (api.errmsg r.1.log c.handle) (api.close before c.handle) []))
              × (r.1.handle ≡ c.handle)))
unfolding close access_check close_handle Cache.clear
close_lem s api c v opened =
    ground (arith, clear-IsValid c.cache c.log v, clear_conserves s c.cache.config c.cache c.log v)

-- A closed connection reaches neither SQLite nor its cache: closing it throws, destroying it does
-- nothing, no statement comes out of the cache, and one that comes back is finalized at once.
pub closed_connection :
    (api : Api) (c : Connection) (sql : Text) (stmt : ℕ)
    → c.handle ≡ 0
    → stmt ≢ 0
    → (close api c ≡ (raise (database_exception not_open), c))
      × (destroy api c ≡ (ok tt, c))
      × (acquire_cached_statement api sql c ≡ (ok 0, c))
      × (release_cached_statement sql stmt c
          ≡ (ok tt, record c { log = Call.finalize stmt ∷ c.log }))
unfolding close destroy access_check acquire_cached_statement release_cached_statement
closed_connection api c sql stmt z n = ground arith
