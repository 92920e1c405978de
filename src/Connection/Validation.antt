-- ===== src/Connection/Validation.antt =====
-- When connection.cpp lets a database be opened.
use vsqlite.Base.{
  ◌≡◌, ◌≢◌, ◌⊎◌, ◌↔◌, refl, Bool, true, false, not, ◌&&◌, Text, [], arith, ok, raise,
  database_exception, if◌then◌else◌,
}
use Prim.Native.Nat.{bit_and}
use vsqlite.Sqlite.{Log}
use vsqlite.Files.{FilesystemEntry, FileType, OsFiles, Adapter}
use vsqlite.Connection.Paths.{
  is_special_database, ensure_parent_directory_safe, check_database_file, validate_db_path, enoent,
  make_open_flags, open_readonly, open_readwrite, open_create, open_nofollow, open_fullmutex,
  directory_wrong,
}

-- A directory in which a database may lie: the current one, or one that is no symbolic link.
abbrev pub IsSafeDirectory : OsFiles → Adapter → Log → Text → Type 0
IsSafeDirectory os fs log db =
    (os.parent_path db ≡ [])
    ⊎ (((fs.status log (os.parent_path db)).error ≡ 0)
        × ((fs.status log (os.parent_path db)).status ≡ FileType.directory))

-- A file that may be opened: a regular one, or none where one may be made.
abbrev pub IsSafeFile : Bool → FilesystemEntry → Type 0
IsSafeFile require_exists entry =
    ((entry.error ≡ 0) ⊎ (entry.error ≡ enoent))
    × (((entry.status ≡ FileType.not_found) × (require_exists ≡ false))
        ⊎ (entry.status ≡ FileType.regular))

abbrev pub IsAcceptable : OsFiles → Adapter → Log → Text → Bool → Type 0
IsAcceptable os fs log db require_exists =
    (is_special_database db ≡ true)
    ⊎ ((db ≢ []) × IsSafeDirectory os fs log db × IsSafeFile require_exists (fs.status log db))

ensure_parent_directory_safe_iff :
    (os : OsFiles) (fs : Adapter) (log : Log) (db : Text)
    → (ensure_parent_directory_safe os fs log db ≡ ok tt) ↔ IsSafeDirectory os fs log db
unfolding ensure_parent_directory_safe
ensure_parent_directory_safe_iff os fs log db = ground arith

check_database_file_iff :
    (require_exists : Bool) (db : Text) (entry : FilesystemEntry)
    → (check_database_file require_exists db entry ≡ ok tt) ↔ IsSafeFile require_exists entry
unfolding check_database_file
check_database_file_iff require_exists db entry = ground arith

-- `validate_db_path` accepts exactly the special databases, and the files that are regular, or
-- absent where that is allowed, in a directory that is not a symbolic link.
pub validate_db_path_iff :
    (os : OsFiles) (fs : Adapter) (log : Log) (db : Text) (require_exists : Bool)
    → (validate_db_path os fs log db require_exists ≡ ok tt)
      ↔ IsAcceptable os fs log db require_exists
unfolding validate_db_path
validate_db_path_iff os fs log db require_exists = ground (
  arith,
  (ensure_parent_directory_safe_iff os fs log db).0,
  (ensure_parent_directory_safe_iff os fs log db).1,
  (check_database_file_iff require_exists db (fs.status log db)).0,
  (check_database_file_iff require_exists db (fs.status log db)).1,
)

-- A directory that is a symbolic link is refused as no directory: the text written for that case is
-- never used.
pub parent_symlink :
    (os : OsFiles) (fs : Adapter) (log : Log) (db : Text)
    → os.parent_path db ≢ []
    → (fs.status log (os.parent_path db)).error ≡ 0
    → (fs.status log (os.parent_path db)).status ≡ FileType.symlink
    → ensure_parent_directory_safe os fs log db
      ≡ raise (database_exception (directory_wrong (os.parent_path db) db))
unfolding ensure_parent_directory_safe
parent_symlink os fs log db p e l = ground arith

-- The flags ask for writing exactly if the database is not opened for reading only, for creation
-- only with writing, and never let SQLite follow a symbolic link or drop its mutexes.
pub make_open_flags_bits :
    (readonly allow_create : Bool)
    → (bit_and (make_open_flags readonly allow_create) open_readonly ≡ (if readonly then 1 else 0))
      × (bit_and (make_open_flags readonly allow_create) open_readwrite
          ≡ (if readonly then 0 else 2))
      × (bit_and (make_open_flags readonly allow_create) open_create
          ≡ (if not readonly && allow_create then 4 else 0))
      × (bit_and (make_open_flags readonly allow_create) open_nofollow ≡ open_nofollow)
      × (bit_and (make_open_flags readonly allow_create) open_fullmutex ≡ open_fullmutex)
unfolding make_open_flags
make_open_flags_bits true true = (refl, refl, refl, refl, refl)
make_open_flags_bits true false = (refl, refl, refl, refl, refl)
make_open_flags_bits false true = (refl, refl, refl, refl, refl)
make_open_flags_bits false false = (refl, refl, refl, refl, refl)
