-- ===== src/Wal.antt =====
-- snapshot.cpp and snapshot.hpp, the names of the journal modes; the functions that set them stand below.
pub mod Conservation
pub mod Setting
use vsqlite.Base.{
  ℕ, ◌+◌, ◌≡◌, ◌↔◌, ◌&&◌, Text, Text-discrete, ◌++◌, codes, map, ok, raise, Outcome,
  database_exception, leb, if◌then◌else◌, ite, arith,
}

pub data WalMode : Type 0 where
  rollback truncate persist memory wal wal2 : WalMode

unfoldable pub to_string : WalMode → Text
to_string WalMode.rollback = codes "DELETE"
to_string WalMode.truncate = codes "TRUNCATE"
to_string WalMode.persist = codes "PERSIST"
to_string WalMode.memory = codes "MEMORY"
to_string WalMode.wal = codes "WAL"
to_string WalMode.wal2 = codes "WAL2"

-- `std::tolower` in the "C" locale.
abbrev pub tolower : ℕ → ℕ
tolower c = if leb b'A' c && leb c b'Z' then c + 32 else c

abbrev pub to_lower : Text → Text
to_lower = map tolower

abbrev pub unknown_mode : Text → Text
unknown_mode value = codes "Unknown journal mode reported by SQLite: " ++ value

unfoldable pub parse_journal_mode : Text → Outcome WalMode
parse_journal_mode value =
    let normalized = to_lower value in
    ite (Text-discrete normalized (codes "delete")) (ok WalMode.rollback) (
      ite (Text-discrete normalized (codes "truncate")) (ok WalMode.truncate) (
        ite (Text-discrete normalized (codes "persist")) (ok WalMode.persist) (
          ite (Text-discrete normalized (codes "memory")) (ok WalMode.memory) (
            ite (Text-discrete normalized (codes "wal")) (ok WalMode.wal) (
              ite (Text-discrete normalized (codes "wal2")) (ok WalMode.wal2)
                (raise (database_exception (unknown_mode value))))))))

-- A journal mode that SQLite reports is read as a mode exactly if it is the mode's name, in any mix of
-- upper and lower case.
pub parse_journal_mode_iff :
    (value : Text) (mode : WalMode)
    → (parse_journal_mode value ≡ ok mode) ↔ (to_lower value ≡ to_lower (to_string mode))
unfolding parse_journal_mode to_string
parse_journal_mode_iff value WalMode.rollback = ground arith
parse_journal_mode_iff value WalMode.truncate = ground arith
parse_journal_mode_iff value WalMode.persist = ground arith
parse_journal_mode_iff value WalMode.memory = ground arith
parse_journal_mode_iff value WalMode.wal = ground arith
parse_journal_mode_iff value WalMode.wal2 = ground arith
