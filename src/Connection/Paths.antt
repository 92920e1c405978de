-- ===== src/Connection/Paths.antt =====
-- The helpers at the top of connection.cpp: which database names are files, when such a file may be
-- opened, the flags of `sqlite3_open_v2`, and quoted identifiers.
use vsqlite.Base.{
  ℕ, Bool, true, false, not, ◌&&◌, Text, Text-discrete, [], ◌∷◌, ◌++◌, Option, none, some, codes,
  is_empty, starts_with, contains, Outcome, chain, ok, raise, database_exception,
  database_system_error, ◌==◌, if◌then◌else◌, ite, bit_or,
}
use vsqlite.Sqlite.{Log}
use vsqlite.Files.{
  FilesystemEntry, OsFiles, Adapter, is_not_found, is_directory, is_symlink, is_regular_file,
}

-- What stands behind the first occurrence of a character.
unfoldable pub after_first : ℕ → Text → Option Text
after_first a [] = none
after_first a (c ∷ s) = if c == a then some s else after_first a s

unfoldable pub is_special_database : Text → Bool
unfolding after_first Text-discrete
is_special_database db = ite (Text-discrete db (codes ":memory:")) true (
    if starts_with (codes "file:") db
    then elim (after_first b'?' db) [
      | none ↦ false
      | some params ↦ contains (codes "mode=memory") params
    ]
    else false)

-- The texts of the exceptions, by the path and the database that they name.
quoted : Text → Text
quoted s = codes "'" ++ (s ++ codes "'")

pub describe_path : Text → Text
describe_path path = if is_empty path then codes "." else path

pub directory_error : Text → Text → Text
directory_error parent db =
    codes "Failed to inspect directory "
    ++ (quoted (describe_path parent) ++ (codes " for database " ++ quoted db))

pub directory_missing : Text → Text → Text
directory_missing parent db =
    codes "Directory "
    ++ (quoted (describe_path parent)
        ++ (codes " for database " ++ (quoted db ++ codes " does not exist")))

pub directory_wrong : Text → Text → Text
directory_wrong parent db =
    codes "Path "
    ++ (quoted (describe_path parent)
        ++ (codes " is not a directory (required for database " ++ (quoted db ++ codes ")")))

pub directory_symlink : Text → Text → Text
directory_symlink parent db =
    codes "Directory "
    ++ (quoted (describe_path parent)
        ++ (codes " for database " ++ (quoted db ++ codes " must not be a symlink")))

pub empty_path : Text
empty_path = codes "Database path must not be empty."

pub database_error : Text → Text
database_error db = codes "Failed to inspect database " ++ quoted db

pub database_missing : Text → Text
database_missing db = codes "Database " ++ (quoted db ++ codes " does not exist")

pub database_symlink : Text → Text
database_symlink db = codes "Database path " ++ (quoted db ++ codes " must not be a symlink")

pub database_irregular : Text → Text
database_irregular db =
    codes "Database path " ++ (quoted db ++ codes " must refer to a regular file")

unfoldable pub ensure_parent_directory_safe : OsFiles → Adapter → Log → Text → Outcome (Unit {0})
ensure_parent_directory_safe os fs log db =
    let parent = os.parent_path db in
    let entry = fs.status log parent in
    if is_empty parent
    then ok tt
    else if not (entry.error == 0)
    then raise (database_system_error (directory_error parent db) entry.error)
    else if is_not_found entry.status
    then raise (database_exception (directory_missing parent db))
    else if not (is_directory entry.status)
    then raise (database_exception (directory_wrong parent db))
    else if is_symlink entry.status
    then raise (database_exception (directory_symlink parent db))
    else ok tt

-- `std::errc::no_such_file_or_directory`.
abbrev pub enoent : ℕ
enoent = 2

-- The end of `validate_db_path`, once the directory is known to be safe.
unfoldable pub check_database_file : Bool → Text → FilesystemEntry → Outcome (Unit {0})
check_database_file require_exists db entry =
    if not (entry.error == 0) && not (entry.error == enoent)
    then raise (database_system_error (database_error db) entry.error)
    else if is_not_found entry.status
    then (if require_exists then raise (database_exception (database_missing db)) else ok tt)
    else if is_symlink entry.status
    then raise (database_exception (database_symlink db))
    else if not (is_regular_file entry.status)
    then raise (database_exception (database_irregular db))
    else ok tt

unfoldable pub validate_db_path : OsFiles → Adapter → Log → Text → Bool → Outcome (Unit {0})
validate_db_path os fs log db require_exists =
    if is_special_database db
    then ok tt
    else if is_empty db
    then raise (database_exception empty_path)
    else chain (ensure_parent_directory_safe os fs log db)
        (check_database_file require_exists db (fs.status log db))

-- The flags of sqlite3.h.
abbrev pub open_readonly : ℕ
open_readonly = 0x1

abbrev pub open_readwrite : ℕ
open_readwrite = 0x2

abbrev pub open_create : ℕ
open_create = 0x4

abbrev pub open_fullmutex : ℕ
open_fullmutex = 0x10000

abbrev pub open_nofollow : ℕ
open_nofollow = 0x1000000

-- Built without VSQLITE_ALLOW_FOLLOW_SYMLINKS, as by default.
unfoldable pub make_open_flags : Bool → Bool → ℕ
make_open_flags readonly allow_create =
    let flags : ℕ = bit_or open_fullmutex open_nofollow in
    if readonly
    then bit_or flags open_readonly
    else let flags' : ℕ = bit_or flags open_readwrite in
      if allow_create then bit_or flags' open_create else flags'

-- The loop of `quote_identifier`: a quote is doubled.
unfoldable pub double_quotes : Text → Text
double_quotes [] = []
double_quotes (c ∷ s) =
    let rest = double_quotes s in if c == b'"' then b'"' ∷ b'"' ∷ rest else c ∷ rest

unfoldable pub quote_identifier : Text → Text
unfolding double_quotes
quote_identifier s = b'"' ∷ (double_quotes s ++ b'"' ∷ [])
