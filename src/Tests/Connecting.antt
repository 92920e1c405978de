-- ===== src/Tests/Connecting.antt =====
-- The theorems on connections and their paths at concrete inputs.
use vsqlite.Base.{◌+◌, ◌≡◌, ◌⊎◌, ◌↔◌, refl, true, false, [], ◌∷◌, codes, ok, count}
use vsqlite.Files.{FileType, OsFiles, default_adapter}
use vsqlite.Connection.{Connection, OpenMode, initial}
use vsqlite.Connection
use vsqlite.Connection.Paths
use vsqlite.Connection.Validation
use vsqlite.Connection.Opening
use vsqlite.Tests.Fixture.{demo_api, demo_files, open_connection}

validate_db_path_iff_example :
    (Paths.validate_db_path demo_files (default_adapter demo_files) [] (codes "a.db") true ≡ ok tt)
    ↔ Validation.IsAcceptable demo_files (default_adapter demo_files) [] (codes "a.db") true
validate_db_path_iff_example =
    Validation.validate_db_path_iff demo_files (default_adapter demo_files) [] (codes "a.db") true

memory_is_special :
    (Paths.is_special_database (codes ":memory:") ≡ true)
    × (Paths.is_special_database (codes "file:a?mode=memory&cache=shared") ≡ true)
    × (Paths.is_special_database (codes "file:mode=memory") ≡ false)
unfolding Paths.is_special_database
memory_is_special = (refl, refl, refl)

-- A file in a directory that is a symbolic link.
abbrev linked_files : OsFiles
linked_files = record demo_files {
  symlink_status = λ log path. record { status = FileType.symlink; error = 0 };
  parent_path = λ path. codes "link";
}

connect-removed_example :
    (Opening.removed
        (Connection.connect demo_api demo_files
          (default_adapter demo_files)
          (codes "a.db")
          OpenMode.always_create
          []).1.log
      ≡ [])
    ⊎ ((Opening.removed
            (Connection.connect demo_api demo_files
              (default_adapter demo_files)
              (codes "a.db")
              OpenMode.always_create
              []).1.log
          ≡ codes "a.db" ∷ [])
        × Opening.IsReplaced demo_files
            (default_adapter demo_files)
            (codes "a.db")
            OpenMode.always_create
            [])
connect-removed_example =
    Opening.connect-removed demo_api demo_files (default_adapter demo_files) (codes "a.db")
      OpenMode.always_create []

abbrev made : Connection
made =
    (Connection.connect demo_api demo_files (default_adapter demo_files) (codes "a.db")
      OpenMode.always_create []).1

connect_conserves_example :
    count 2 (Opening.given demo_api made.log) + count 2 (Opening.closed [])
    ≡ count 2 (Opening.given demo_api [])
      + count 2 (Opening.closed made.log)
      + count 2 (Opening.non_null made.handle [])
connect_conserves_example =
    Opening.connect_conserves 2 demo_api demo_files (default_adapter demo_files) (codes "a.db")
      OpenMode.always_create []

abbrev closed : Connection
closed = record open_connection { handle = 0 }
