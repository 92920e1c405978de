-- ===== src/Backup.antt =====
-- backup.hpp and backup.cpp. The backup functions of SQLite are the parameter `BackupApi`; a
-- connection enters by its handle, 0 where it is closed.
use vsqlite.Base.{
  ℕ, ℤ, ◌≡◌, ◌≢◌, ◌⊎◌, refl, Bool, true, false, Text, List, [], ◌∷◌, M, ok, raise, Outcome, is_ok,
  ◌>>◌, throw_if, swallow, arith, codes, database_exception, exception_code, ◌==◌, if◌then◌else◌,
}
use vsqlite.Sqlite.{sqlite_ok, sqlite_done}
use vsqlite.Connection.{not_open}

pub data BackupCall : Type 0 where
  backup_init : ℕ → ℕ → BackupCall
  backup_step : ℕ → ℤ → BackupCall
  backup_finish : ℕ → BackupCall

pub record BackupApi : Type 0 where
  pub init : List BackupCall → ℕ → ℕ → ℕ
  pub step : List BackupCall → ℕ → ℤ → ℕ
  pub finish : List BackupCall → ℕ → ℕ
  pub errmsg : List BackupCall → ℕ → Text
  pub errcode : List BackupCall → ℕ → ℕ

pub record Backup : Type 0 where
  pub backup : ℕ
  pub conn_to : ℕ
  pub log : List BackupCall

pub destroyed_message : Text
destroyed_message = codes "Backup object is already destroyed"

-- The constructor behind its two access checks.
unfoldable pub start : BackupApi → ℕ → M Backup (Unit {0})
start api conn_from b =
    let p = api.init b.log b.conn_to conn_from in
    let b' = record b { backup = p; log = BackupCall.backup_init b.conn_to conn_from ∷ b.log } in
    if p == 0
    then (
      raise (exception_code (api.errmsg b'.log b.conn_to) (api.errcode b'.log b.conn_to) []),
      b',
    )
    else (ok tt, b')

unfoldable pub create : BackupApi → ℕ → ℕ → List BackupCall → Outcome (Unit {0}) × Backup
unfolding start
create api conn_to conn_from log =
    (do
      throw_if (conn_to == 0) (database_exception not_open)
      throw_if (conn_from == 0) (database_exception not_open)
      start api conn_from)
      (record { backup = 0; conn_to = conn_to; log = log })

unfoldable pub step : BackupApi → ℤ → M Backup Bool
step api n b =
    let err = api.step b.log b.backup n in
    let b' = record b { log = BackupCall.backup_step b.backup n ∷ b.log } in
    if b.backup == 0
    then (raise (database_exception destroyed_message), b)
    else if err == sqlite_ok
    then (ok true, b')
    else if err == sqlite_done
    then (ok false, b')
    else (raise (exception_code (api.errmsg b'.log b.conn_to) err []), b')

unfoldable pub finish : BackupApi → M Backup (Unit {0})
finish api b =
    let err = api.finish b.log b.backup in
    let b' = record b { log = BackupCall.backup_finish b.backup ∷ b.log } in
    if b.backup == 0
    then (ok tt, b)
    else if err == sqlite_ok
    then (ok tt, record b' { backup = 0 })
    else (raise (exception_code (api.errmsg b'.log b.conn_to) err []), b')

-- `~backup`
unfoldable pub destroy : BackupApi → M Backup (Unit {0})
unfolding finish
destroy api = swallow (finish api)

-- The pointers for which `sqlite3_backup_finish` was called, which frees them in every case.
abbrev pub finished : List BackupCall → List ℕ
finished [] = []
finished (BackupCall.backup_finish p ∷ log) = p ∷ finished log
finished (_ ∷ log) = finished log

abbrev pub steps : BackupApi → List ℤ → Backup → Backup
steps api [] b = b
steps api (n ∷ ns) b = steps api ns (step api n b).1

steps_keep :
    (api : BackupApi) (ns : List ℤ) (b : Backup)
    → ((steps api ns b).backup ≡ b.backup) × (finished (steps api ns b).log ≡ finished b.log)
unfolding step
steps_keep api [] b = (refl, refl)
steps_keep api (n ∷ ns) b = ground (arith, steps_keep api ns (step api n b).1)

-- A backup that is destroyed without `finish` is freed once; where `finish` succeeds the backup is
-- freed once as well, and cannot be stepped any more. A `finish` that throws keeps the pointer, so
-- the destructor hands it to SQLite a second time, although the first call has freed it.
pub destroy_frees :
    (api : BackupApi) (ns : List ℤ) (n : ℤ) (b : Backup)
    → b.backup ≢ 0
    → let c = steps api ns b in
      let f = finish api c in
      ((destroy api c).0 ≡ ok tt)
      × (finished (destroy api c).1.log ≡ b.backup ∷ finished b.log)
      × (((is_ok f.0 ≡ false)
            × (finished (destroy api f.1).1.log ≡ b.backup ∷ b.backup ∷ finished b.log))
          ⊎ ((f.1.backup ≡ 0)
              × (is_ok (step api n f.1).0 ≡ false)
              × (finished (destroy api f.1).1.log ≡ b.backup ∷ finished b.log)))
unfolding destroy step
destroy_frees api ns n b p = ground (arith, steps_keep api ns b)
