-- ===== src/Tests/Fixture.antt =====
-- A SQLite that accepts everything, for the tests: each database and each statement that it gives
-- gets a new number. And a disk with one regular file.
use vsqlite.Base.{suc, true, Text, [], codes, some, pos, length, none}
use vsqlite.Sqlite.{Api}
use vsqlite.Files.{FileType, OsFiles}
use vsqlite.Cache.{Cache, Config, default_config}
use vsqlite.Cache
use vsqlite.Cache.Invariant.{IsValid, create-IsValid}
use vsqlite.Connection.{Connection}

abbrev pub demo_api : Api
demo_api = record {
  open_v2 = λ log db flags. (0, suc (length log));
  close = λ log h. 0;
  prepare_v2 = λ log h sql. (0, suc (length log));
  bind_value = λ log s idx b. 0;
  bind_parameter_index = λ log s name. 1;
  step = λ log s. 101;
  db_handle = λ log s. 1;
  errmsg = λ log h. [];
  changes = λ log h. pos 0;
  last_insert_rowid = λ log h. pos 7;
  column_count = λ log s. 2;
  column_type = λ log s i. 1;
  column_int = λ log s i. pos 42;
  column_int64 = λ log s i. pos 42;
  column_double = λ log s i. 0;
  column_bytes = λ log s i. codes "42";
  column_decltype = λ log s i. none;
  column_name = λ log s i. some (codes "a");
}

-- A disk that holds one regular file, in the current directory.
abbrev pub demo_files : OsFiles
demo_files = record {
  symlink_status = λ log path. record { status = FileType.regular; error = 0 };
  remove = λ log path. (true, 0);
  exists = λ log path. (true, 0);
  parent_path = λ path. [];
}

abbrev pub select : Text
select = codes "SELECT 1"

abbrev pub small : Config
small = record { capacity = 1; enabled = true }

abbrev pub open_connection : Connection
open_connection = record { handle = 1; cache = Cache.create default_config; log = [] }

pub open_connection-IsValid : IsValid open_connection.cache
open_connection-IsValid = create-IsValid default_config
