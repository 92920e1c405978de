-- ===== src/Connection/Opening.antt =====
-- What opening a connection does to the disk and asks of SQLite, in every mode and on every path
-- through the `switch` of connection.cpp.
use vsqlite.Base.{
  ℕ, zero, suc, ◌+◌, ◌≡◌, ◌⊎◌, refl, Bool, true, false, not, ◌&&◌, Text, List, [], ◌∷◌, arith,
  count,
}
use vsqlite.Sqlite.{Api, Log, Call, sqlite_ok}
use vsqlite.Files.{FileType, OsFiles, Adapter}
use vsqlite.Connection.Paths.{is_special_database, make_open_flags}
use vsqlite.Connection.{
  Connection, OpenMode, initial, open_with_flags, remove_existing, open_as, open_with_mode, connect,
}

-- The files that the log has removed.
abbrev pub removed : Log → List Text
removed [] = []
removed (Call.remove_file f ∷ log) = f ∷ removed log
removed (_ ∷ log) = removed log

abbrev pub non_null : ℕ → List ℕ → List ℕ
non_null zero hs = hs
non_null (suc h) hs = suc h ∷ hs

-- The database handles that SQLite gave, and those that were closed; null pointers do not count.
abbrev pub given : Api → Log → List ℕ
given api [] = []
given api (Call.open_v2 db flags ∷ log) = non_null (api.open_v2 log db flags).1 (given api log)
given api (_ ∷ log) = given api log

abbrev pub closed : Log → List ℕ
closed [] = []
closed (Call.close h ∷ log) = non_null h (closed log)
closed (_ ∷ log) = closed log

-- The flags that each mode stands for, by their bits in sqlite3.h: SQLITE_OPEN_NOFOLLOW 0x1000000,
-- SQLITE_OPEN_FULLMUTEX 0x10000, SQLITE_OPEN_CREATE 4, SQLITE_OPEN_READWRITE 2 and
-- SQLITE_OPEN_READONLY 1.
abbrev pub mode_flags : OpenMode → ℕ
mode_flags OpenMode.open_readonly = 0x1010001
mode_flags OpenMode.open_existing = 0x1010002
mode_flags OpenMode.open_or_create = 0x1010006
mode_flags OpenMode.always_create = 0x1010006

-- The condition under which a file may go.
pub record IsReplaced (os : OsFiles) (fs : Adapter) (db : Text) (mode : OpenMode) (log : Log)
    : Type 0 where
  pub asked : mode ≡ OpenMode.always_create
  pub a_file : is_special_database db ≡ false
  pub there : (os.exists log db).0 ≡ true
  pub regular : (fs.status log db).status ≡ FileType.regular

-- The log when SQLite is asked to open the database: nothing more, or the one file removed.
abbrev pub Prepared : OsFiles → Adapter → Text → OpenMode → Log → Log → Type 0
Prepared os fs db mode log before =
    (before ≡ log) ⊎ ((before ≡ Call.remove_file db ∷ log) × IsReplaced os fs db mode log)

module _ (api : Api) (os : OsFiles) (fs : Adapter) (db : Text) where
  open_as-removed :
      (mode : OpenMode) (c : Connection) (special exists : Bool)
      → special ≡ is_special_database db
      → exists ≡ (not special && (os.exists c.log db).0)
      → (removed (open_as api fs db special exists mode c).1.log ≡ removed c.log)
        ⊎ ((removed (open_as api fs db special exists mode c).1.log ≡ db ∷ removed c.log)
            × IsReplaced os fs db mode c.log)
  unfolding open_as open_with_flags remove_existing
  open_as-removed OpenMode.open_readonly c special exists p q = ground arith
  open_as-removed OpenMode.open_existing c special exists p q = ground arith
  open_as-removed OpenMode.open_or_create c special exists p q = ground arith
  open_as-removed OpenMode.always_create c special exists p q = ground arith

-- Opening removes no file but the database itself, and that only in the mode `always_create`, where
-- the name is no special one and the file is there and regular: never a symbolic link, never a
-- directory. So it is whether opening succeeds or fails.
pub connect-removed :
    (api : Api) (os : OsFiles) (fs : Adapter) (db : Text) (mode : OpenMode) (log : Log)
    → (removed (connect api os fs db mode log).1.log ≡ removed log)
      ⊎ ((removed (connect api os fs db mode log).1.log ≡ db ∷ removed log)
          × IsReplaced os fs db mode log)
unfolding connect open_with_mode
connect-removed api os fs db mode log = ground (
  arith,
  open_as-removed api os fs db mode (initial log) (is_special_database db)
      (not (is_special_database db) && (os.exists log db).0) refl refl,
)

opened-conserves :
    (h : ℕ) (api : Api) (db : Text) (flags : ℕ) (c : Connection)
    → c.handle ≡ 0
    → let c' = (open_with_flags api db flags c).1 in
      (count h (given api c'.log) + count h (closed c.log)
        ≡ count h (given api c.log) + count h (closed c'.log) + count h (non_null c'.handle []))
unfolding open_with_flags
opened-conserves h api db flags c z = ground arith

open_as-conserves :
    (h : ℕ) (api : Api) (fs : Adapter) (db : Text) (mode : OpenMode) (special exists : Bool)
    (c : Connection)
    → c.handle ≡ 0
    → let c' = (open_as api fs db special exists mode c).1 in
      (count h (given api c'.log) + count h (closed c.log)
        ≡ count h (given api c.log) + count h (closed c'.log) + count h (non_null c'.handle []))
unfolding open_as remove_existing
open_as-conserves h api fs db OpenMode.open_readonly special exists c z =
    ground (arith, opened-conserves h api db (make_open_flags true false) c)
open_as-conserves h api fs db OpenMode.open_existing special exists c z =
    ground (arith, opened-conserves h api db (make_open_flags false false) c)
open_as-conserves h api fs db OpenMode.open_or_create special exists c z =
    ground (arith, opened-conserves h api db (make_open_flags false true) c)
open_as-conserves h api fs db OpenMode.always_create special exists c z = ground (
  arith,
  opened-conserves h api db (make_open_flags false true) c,
  opened-conserves h api db (make_open_flags false true)
      (record c { log = Call.remove_file db ∷ c.log }),
)

-- No database handle leaks: each one that SQLite gives while a connection is opened is closed again,
-- also where SQLite reports an error with it, or is the handle of the connection.
pub connect_conserves :
    (h : ℕ) (api : Api) (os : OsFiles) (fs : Adapter) (db : Text) (mode : OpenMode) (log : Log)
    → let c = (connect api os fs db mode log).1 in
      (count h (given api c.log) + count h (closed log)
        ≡ count h (given api log) + count h (closed c.log) + count h (non_null c.handle []))
unfolding connect open_with_mode
connect_conserves h api os fs db mode log = ground (
  arith,
  open_as-conserves h api fs db mode (is_special_database db)
      (not (is_special_database db) && (os.exists log db).0) (initial log),
)

abbrev WasOpened : Api → Log → Text → ℕ → Connection → Type 0
WasOpened api before db flags c =
    (api.open_v2 before db flags ≡ (sqlite_ok, c.handle))
    × (c.log ≡ Call.extended_result_codes c.handle 1 ∷ Call.open_v2 db flags ∷ before)

-- The log of `open_as` when it calls SQLite.
abbrev log_before : Bool → OpenMode → Text → Log → Log
log_before true OpenMode.always_create db log = Call.remove_file db ∷ log
log_before _ _ db log = log
