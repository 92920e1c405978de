-- ===== src/Transaction.antt =====
-- transaction.hpp and transaction.cpp, but for the two snapshot methods, which stand in Snapshot.
pub mod Outcomes
use vsqlite.Base.{
  ℕ, Bool, true, false, Text, ◌++◌, codes, M, ok, raise, ◌>>=◌, ◌>>◌, zoom, swallow, if◌then◌else◌,
  Outcome,
}
use vsqlite.Sqlite.{Api}
use vsqlite.Connection.{Connection}
use vsqlite.Execute.{execute}

pub data TransactionType : Type 0 where
  undefined_type deferred immediate exclusive : TransactionType

pub record Transaction : Type 0 where
  pub con : Connection
  pub is_active : Bool
  pub is_ending : Bool

unfoldable pub exec : Api → Text → M Transaction (Unit {0})
exec api cmd = zoom (λ t. t.con) (λ c t. record t { con = c }) (execute api cmd true)

abbrev pub kind_word : TransactionType → Text
kind_word TransactionType.undefined_type = codes ""
kind_word TransactionType.deferred = codes "DEFERRED "
kind_word TransactionType.immediate = codes "IMMEDIATE "
kind_word TransactionType.exclusive = codes "EXCLUSIVE "

unfoldable pub begin_sql : TransactionType → Text
begin_sql kind = codes "BEGIN " ++ (kind_word kind ++ codes "TRANSACTION")

abbrev set_active : Bool → M Transaction (Unit {0})
set_active b t = (ok tt, record t { is_active = b })

unfoldable pub begin : Api → TransactionType → M Transaction (Unit {0})
begin api kind = do exec api (begin_sql kind); set_active true

-- `ending_guard`: the flag is up while the statement runs, and down again however it ends.
abbrev guarded : M Transaction (Unit {0}) → M Transaction (Unit {0})
guarded m t = let r = m (record t { is_ending = true }) in (r.0, record (r.1) { is_ending = false })

unfoldable pub end_sql : Text
end_sql = codes "END TRANSACTION"

unfoldable pub commit_sql : Text
commit_sql = codes "COMMIT TRANSACTION"

unfoldable pub rollback_sql : Text
rollback_sql = codes "ROLLBACK TRANSACTION"

-- `end`
unfoldable pub finish : Api → M Transaction (Unit {0})
finish api = guarded (do exec api end_sql; set_active false)

unfoldable pub commit : Api → M Transaction (Unit {0})
commit api = guarded (do exec api commit_sql; set_active false)

unfoldable pub rollback : Api → M Transaction (Unit {0})
rollback api = guarded (do exec api rollback_sql; set_active false)

-- The constructor.
unfoldable pub create : Api → TransactionType → Connection → Outcome (Unit {0}) × Transaction
unfolding begin
create api kind con = begin api kind (record { con = con; is_active = false; is_ending = false })

-- `~transaction`
unfoldable pub destroy : Api → M Transaction (Unit {0})
unfolding rollback
destroy api t =
    if t.is_ending then (ok tt, t) else if t.is_active then swallow (rollback api) t else (ok tt, t)
