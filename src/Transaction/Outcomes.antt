-- ===== src/Transaction/Outcomes.antt =====
-- When a transaction counts as active, and what its destructor does.
use vsqlite.Base.{
  ◌≡◌, ◌⊎◌, Bool, true, false, not, ◌&&◌, Text, List, [], ◌∷◌, M, ok, is_ok, is_defined, arith,
  if◌then◌else◌,
}
use vsqlite.Sqlite.{Api}
use vsqlite.Connection.{Connection}
use vsqlite.Execute.{execute}
use vsqlite.Transaction.{
  Transaction, TransactionType, exec, finish, commit, rollback, create, destroy, end_sql,
  commit_sql, rollback_sql,
}

-- The three ways to end a transaction.
pub data Ending : Type 0 where
  ends commits rolls_back : Ending

abbrev pub ending_sql : Ending → Text
ending_sql ends = end_sql
ending_sql commits = commit_sql
ending_sql rolls_back = rollback_sql

unfoldable pub ending : Api → Ending → M Transaction (Unit {0})
unfolding finish commit rollback
ending api ends = finish api
ending api commits = commit api
ending api rolls_back = rollback api

pub ending_lem :
    (api : Api) (e : Ending) (t : Transaction)
    → let r = execute api (ending_sql e) true t.con in
      ending api e t ≡ (
        r.0,
        record {
          con = r.1;
          is_active = if is_ok r.0 then false else t.is_active;
          is_ending = false;
        },
      )
unfolding ending exec
ending_lem api ends t = ground arith
ending_lem api commits t = ground arith
ending_lem api rolls_back t = ground arith

-- Attempts to end a transaction, one after the other, by a caller who goes on after an exception;
-- the flag says whether one of them succeeded.
unfoldable pub attempts : Api → List Ending → Transaction → Bool × Transaction
attempts api [] t = (false, t)
attempts api (e ∷ es) t =
    let r = ending api e t in
    let (later, t') = attempts api es r.1 in ((if is_ok r.0 then true else later), t')

pub attempts_lem :
    (api : Api) (es : List Ending) (t : Transaction)
    → t.is_ending ≡ false
    → ((attempts api es t).1.is_ending ≡ false)
      × ((attempts api es t).1.is_active ≡ (t.is_active && not (attempts api es t).0))
unfolding attempts
attempts_lem api [] t h = ground arith
attempts_lem api (e ∷ es) t h =
    ground (arith, ending_lem api e t, attempts_lem api es (ending api e t).1)

-- A transaction that was begun is rolled back by its destructor exactly if no attempt to end it has
-- succeeded; otherwise the destructor does nothing. Either way it lets no exception out.
pub destroy-attempts :
    (api : Api) (kind : TransactionType) (con : Connection) (es : List Ending)
    → (create api kind con).0 ≡ ok tt
    → let done = attempts api es (create api kind con).1 in
      let after = destroy api done.1 in
      (((done.0 ≡ true) × (after ≡ (ok tt, done.1)))
        ⊎ ((done.0 ≡ false)
            × (after.1.con ≡ (execute api rollback_sql true done.1.con).1)
            × ((is_defined (execute api rollback_sql true done.1.con).0 ≡ false)
                ⊎ (after.0 ≡ ok tt))))
unfolding create exec destroy
destroy-attempts api kind con es h = ground (arith, attempts_lem api es (create api kind con).1)
