-- ===== src/Tests/Switching.antt =====
-- The theorems on the journal mode at concrete inputs.
use vsqlite.Base.{◌≡◌, ◌⊎◌, refl, true, false, Text, codes, ok, is_ok}
use vsqlite.Sqlite.{Api}
use vsqlite.Connection.{Connection}
use vsqlite.Cache.Index
use vsqlite.Query
use vsqlite.Result
use vsqlite.Wal.{WalMode, parse_journal_mode, to_lower, to_string}
use vsqlite.Wal.Setting
use vsqlite.Tests.Running.{runs}
use vsqlite.Tests.Fixture.{demo_api, open_connection}

-- A SQLite without WAL2, which answers each question with WAL.
abbrev wal_only : Api
wal_only = record demo_api { step = λ log s. 100; column_bytes = λ log s i. codes "WAL" }

enable_wal_ok_example :
    ((true ≡ true)
      × (WalMode.wal ≡ WalMode.wal2)
      × (reported : Text) × ((Setting.ask wal_only
            (Setting.pragma WalMode.wal2)
            Setting.not_set
            open_connection).0
          ≡ ok reported)
      × (to_lower reported ≡ to_lower (to_string WalMode.wal2)))
    ⊎ ((d : Connection) × (((true ≡ false) × (d ≡ open_connection))
          ⊎ ((is_ok (Setting.set_wal_mode wal_only WalMode.wal2 open_connection).0 ≡ false)
              × (d ≡ (Setting.set_wal_mode wal_only WalMode.wal2 open_connection).1)))
        × (reported : Text) × ((Setting.ask wal_only
              (Setting.pragma WalMode.wal)
              Setting.not_set
              d).0
            ≡ ok reported)
        × (to_lower reported ≡ to_lower (to_string WalMode.wal)))
unfolding runs Setting.enable_wal Setting.set_wal_mode Setting.ask Setting.answer Query.get_result
    Setting.first_row Result.next_row Result.get_string Setting.accept parse_journal_mode
    Index.map_set to_string
enable_wal_ok_example = Setting.enable_wal_ok wal_only true WalMode.wal open_connection refl
