-- ===== src/Files.antt =====
-- filesystem_adapter.hpp, and what the program takes from std::filesystem: the parameter `OsFiles`.
-- A path is its text, and an error code its value, 0 for none. Answers may depend on the calls made
-- before, since a file can have been removed.
use vsqlite.Base.{ℕ, Text, Bool, true, false}
use vsqlite.Sqlite.{Log}

pub data FileType : Type 0 where
  none_type not_found regular directory symlink block character fifo socket unknown : FileType

pub record FilesystemEntry : Type 0 where
  pub status : FileType
  pub error : ℕ

-- std::filesystem. `remove` and `exists` give a result and an error code.
pub record OsFiles : Type 0 where
  pub symlink_status : Log → Text → FilesystemEntry
  pub remove : Log → Text → Bool × ℕ
  pub exists : Log → Text → Bool × ℕ
  pub parent_path : Text → Text

-- `filesystem_adapter`: the interface that a caller may implement.
pub record Adapter : Type 0 where
  pub status : Log → Text → FilesystemEntry
  pub remove : Log → Text → Bool × ℕ

-- `default_filesystem_adapter`.
abbrev pub default_adapter : OsFiles → Adapter
default_adapter os = record { status = os.symlink_status; remove = os.remove }

abbrev pub is_not_found : FileType → Bool
is_not_found FileType.not_found = true
is_not_found _ = false

abbrev pub is_directory : FileType → Bool
is_directory FileType.directory = true
is_directory _ = false

abbrev pub is_symlink : FileType → Bool
is_symlink FileType.symlink = true
is_symlink _ = false

abbrev pub is_regular_file : FileType → Bool
is_regular_file FileType.regular = true
is_regular_file _ = false
