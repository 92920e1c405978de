-- ===== src/Connection.antt =====
-- connection.hpp and connection.cpp, but for `attach` and `detach`, which run commands and stand in
-- Attachment. The filesystem adapter of a connection never changes and is a parameter.
pub mod Paths
pub mod Validation
pub mod Identifiers
pub mod Opening
pub mod Lifetime
use vsqlite.Base.{
  ℕ, ℤ, Bool, true, false, not, ◌&&◌, ◌||◌, Text, List, [], ◌∷◌, ◌++◌, codes, M, ok, raise, ◌>>=◌,
  ◌>>◌, pure, throw, throw_if, when, swallow, zoom, Outcome, Exception, database_exception,
  exception_code, database_system_error, ◌==◌, if◌then◌else◌,
}
use vsqlite.Sqlite.{Api, Log, Call, sqlite_ok}
use vsqlite.Files.{OsFiles, Adapter, is_symlink, is_regular_file}
use vsqlite.Cache.{Cache, Config, default_config}
use vsqlite.Cache
use Paths.{is_special_database, validate_db_path, make_open_flags, database_error, database_missing}

-- `log` holds the calls of SQLite and of the filesystem made so far.
pub record Connection : Type 0 where
  pub handle : ℕ
  pub cache : Cache
  pub log : Log

pub data OpenMode : Type 0 where
  open_readonly open_existing open_or_create always_create : OpenMode

-- The member initialisers of the constructors, before `open` is called.
unfoldable pub initial : Log → Connection
unfolding Cache.create
initial log = record { handle = 0; cache = Cache.create default_config; log = log }

abbrev pub not_open : Text
not_open = codes "Database is not open."

unfoldable pub access_check : M Connection (Unit {0})
access_check c = throw_if (c.handle == 0) (database_exception not_open) c

-- A method of the statement cache.
abbrev pub on_cache : {A : Type 0} → M (Cache × Log) A → M Connection A
on_cache = zoom (λ c. (c.cache, c.log)) (λ s c. record c { cache = s.0; log = s.1 })

-- A check that changes nothing.
abbrev check : Outcome (Unit {0}) → M Connection (Unit {0})
check r c = (r, c)

abbrev open_failed : Text
open_failed = codes "Could not open database"

-- The rest of `open_with_flags`, on the code and the pointer that `sqlite3_open_v2` gives.
unfoldable pub opened : Api → ℕ → ℕ → M Connection (Unit {0})
opened api err tmp c =
    if err == sqlite_ok
    then (ok tt, record c { handle = tmp; log = Call.extended_result_codes tmp 1 ∷ c.log })
    else if tmp == 0
    then (raise (exception_code open_failed err []), c)
    else (
      raise (exception_code (api.errmsg c.log tmp) err []),
      record c { log = Call.close tmp ∷ c.log },
    )

unfoldable pub open_with_flags : Api → Text → ℕ → M Connection (Unit {0})
unfolding opened
open_with_flags api db flags c =
    let (err, tmp) = api.open_v2 c.log db flags in
    opened api err tmp (record c { log = Call.open_v2 db flags ∷ c.log })

-- `open(db)` and `open(db, readonly)`.
unfoldable pub open_default : Api → OsFiles → Adapter → Text → M Connection (Unit {0})
open_default api os fs db c =
    (do
      check (validate_db_path os fs c.log db false)
      open_with_flags api db (make_open_flags false true))
      c

unfoldable pub open_for : Api → OsFiles → Adapter → Text → Bool → M Connection (Unit {0})
open_for api os fs db readonly c =
    (do
      check (validate_db_path os fs c.log db readonly)
      open_with_flags api db (make_open_flags readonly (not readonly)))
      c

pub readonly_missing : Text → Text
readonly_missing db = codes "Read-only database '" ++ (db ++ codes "' does not exist")

pub existing_error : Text → Text
existing_error db = codes "Failed to inspect existing database '" ++ (db ++ codes "'")

pub symlink_kept : Text → Text
symlink_kept db = codes "Refusing to remove symlinked database '" ++ (db ++ codes "'")

pub irregular_kept : Text → Text
irregular_kept db = codes "Refusing to remove non-regular database target '" ++ (db ++ codes "'")

pub remove_failed : Text → Text
remove_failed db = codes "Failed to remove existing database '" ++ (db ++ codes "'")

-- The `always_create` case: the file that is there is removed, if it is a regular one.
unfoldable pub remove_existing : Adapter → Text → M Connection (Unit {0})
remove_existing fs db c =
    let entry = fs.status c.log db in
    let (removed, ec) = fs.remove c.log db in
    let c' = record c { log = Call.remove_file db ∷ c.log } in
    if not (entry.error == 0)
    then (raise (database_system_error (existing_error db) entry.error), c)
    else if is_symlink entry.status
    then (raise (database_exception (symlink_kept db)), c)
    else if not (is_regular_file entry.status)
    then (raise (database_exception (irregular_kept db)), c)
    else if not removed || not (ec == 0)
    then (raise (database_system_error (remove_failed db) ec), c')
    else (ok tt, c')

-- The `switch` of `open(db, open_mode)`.
unfoldable pub open_as : Api → Adapter → Text → Bool → Bool → OpenMode → M Connection (Unit {0})
open_as api fs db special exists OpenMode.open_readonly = do
  throw_if (not exists && not special) (database_exception (readonly_missing db))
  open_with_flags api db (make_open_flags true false)
open_as api fs db special exists OpenMode.open_existing = do
  throw_if (not exists && not special) (database_exception (database_missing db))
  open_with_flags api db (make_open_flags false false)
open_as api fs db special exists OpenMode.always_create = do
  when (exists && not special) (remove_existing fs db)
  open_with_flags api db (make_open_flags false true)
open_as api fs db special exists OpenMode.open_or_create =
    open_with_flags api db (make_open_flags false true)

abbrev pub must_exist : OpenMode → Bool
must_exist OpenMode.open_readonly = true
must_exist OpenMode.open_existing = true
must_exist _ = false

unfoldable pub open_with_mode : Api → OsFiles → Adapter → Text → OpenMode → M Connection (Unit {0})
open_with_mode api os fs db mode c =
    let special = is_special_database db in
    let (there, ec) = os.exists c.log db in
    (do
      check (if special then ok tt else validate_db_path os fs c.log db (must_exist mode))
      throw_if (not special && not (ec == 0)) (database_system_error (database_error db) ec)
      open_as api fs db special (not special && there) mode)
      c

-- The constructors: an exception of `open` leaves them, and no object is made.
unfoldable pub connect :
    Api → OsFiles → Adapter → Text → OpenMode → Log → Outcome (Unit {0}) × Connection
unfolding open_with_mode initial
connect api os fs db mode log = open_with_mode api os fs db mode (initial log)

unfoldable pub connect_default :
    Api → OsFiles → Adapter → Text → Log → Outcome (Unit {0}) × Connection
unfolding open_default initial
connect_default api os fs db log = open_default api os fs db (initial log)

-- The call of `sqlite3_close`.
unfoldable pub close_handle : Api → M Connection (Unit {0})
close_handle api c =
    let err = api.close c.log c.handle in
    let c' = record c { log = Call.close c.handle ∷ c.log } in
    if err == sqlite_ok
    then (ok tt, record c' { handle = 0 })
    else (raise (exception_code (api.errmsg c'.log c.handle) err []), c')

unfoldable pub close : Api → M Connection (Unit {0})
close api = do access_check; on_cache Cache.clear; close_handle api

-- `~connection`
unfoldable pub destroy : Api → M Connection (Unit {0})
unfolding close
destroy api = swallow (close api)

unfoldable pub get_last_insert_rowid : Api → M Connection ℤ
get_last_insert_rowid api c =
    if c.handle == 0
    then (raise (database_exception not_open), c)
    else (ok (api.last_insert_rowid c.log c.handle), c)

unfoldable pub configure_statement_cache : Config → M Connection (Unit {0})
configure_statement_cache cfg = on_cache (Cache.reset cfg)

pub statement_cache_settings : Connection → Config
statement_cache_settings c = c.cache.config

unfoldable pub acquire_cached_statement : Api → Text → M Connection ℕ
acquire_cached_statement api sql c =
    if c.handle == 0 then (ok 0, c) else on_cache (Cache.acquire api c.handle sql) c

unfoldable pub release_cached_statement : Text → ℕ → M Connection (Unit {0})
release_cached_statement sql stmt c =
    if stmt == 0
    then (ok tt, c)
    else if c.handle == 0
    then (ok tt, record c { log = Call.finalize stmt ∷ c.log })
    else on_cache (Cache.release sql stmt) c

unfoldable pub clear_statement_cache : M Connection (Unit {0})
clear_statement_cache = on_cache Cache.clear
