-- ===== src/Wal/Conservation.antt =====
-- What becomes of the statements that set the journal mode.
use vsqlite.Base.{
  codes, ℕ, ◌≡◌, ◌⊎◌, inl, inr, refl, subst, arith, Bool, true, false, Text, Outcome, ok, raise,
  undefined, database_exception, is_defined, bind, Bool-cases,
}
use vsqlite.Sqlite.{Api}
use vsqlite.Cache.Invariant.{IsValid}
use vsqlite.Connection.{Connection}
use vsqlite.Connection
use vsqlite.Connection.{not_open}
use vsqlite.Command.{Command}
use vsqlite.Command
use vsqlite.Execute.Conservation.{
  NoneOnError, Conserves, Conserves-trans, Touches, with_command-Conserves,
}
use vsqlite.Execute.Uses.{Touches-trans}
use vsqlite.Result.{Result, next_row, get_string}
use vsqlite.Result
use vsqlite.Query.{get_result}
use vsqlite.Query
use vsqlite.Wal.{WalMode, parse_journal_mode}
use vsqlite.Wal.Setting.{
  first_text, first_row, from_result, of_query, answer, ask, pragma, not_set, not_read,
  get_wal_mode, accept, set_wal_mode, enable_wal, or_else, is_database_exception,
}

check_access_cases :
    (c : Command)
    → (Command.check_access c ≡ (ok tt, c))
      ⊎ ((Command.check_access c ≡ (raise (database_exception not_open), c))
          ⊎ (Command.check_access c ≡ (raise (database_exception Command.invalid_command), c)))
unfolding Command.check_access Connection.access_check
check_access_cases c = ground arith

-- What `get_result` gives: a result that refers to the query as it is, or an exception.
abbrev GotFrom : Command → Outcome Result × Command → Type 0
GotFrom c (ok r, d) = (r.query ≡ c) × (d ≡ c)
GotFrom c (raise e, d) = d ≡ c
GotFrom c (undefined, d) = ⊥

result_of-GotFrom :
    (api : Api) (ended : Bool) (c : Command) → GotFrom c (Query.result_of api ended c)
unfolding Query.result_of
result_of-GotFrom api ended c = elim (check_access_cases c) [
  | inl e ↦ rw e (refl, refl)
  | inr (inl e) ↦ rw e refl
  | inr (inr e) ↦ rw e refl
]

get_result-GotFrom : (api : Api) (c : Command) → GotFrom c (get_result api c)
unfolding get_result
get_result-GotFrom api c = elim (check_access_cases c) [
  | inl e ↦ rw e (result_of-GotFrom api false c)
  | inr (inl e) ↦ rw e refl
  | inr (inr e) ↦ rw e refl
]

next_row-Touches :
    (api : Api) (r : Result) → Touches api r.query (next_row api r).0 (next_row api r).1.query
unfolding next_row Command.step Command.check_access Connection.access_check Command.advance
next_row-Touches api r = ground arith

first_text-Touches :
    (api : Api) (missing : Text) (found : Bool) (r : Result)
    → Touches api r.query
        (first_text api missing found r).0
        (first_text api missing found r).1.query
unfolding get_string Result.unless_null Result.access_check Command.check_access
    Connection.access_check
first_text-Touches api missing true r = ground arith
first_text-Touches api missing false r = ground arith

-- The row that `next_row` comes to, or its exception, and then the text.
after_row-Touches :
    (api : Api) (missing : Text) (c : Command) (o : Outcome Bool) (r : Result)
    → Touches api c o r.query
    → let (t, r') = bind (o, r) (first_text api missing) in Touches api c t r'.query
after_row-Touches api missing c (ok found) r s =
    let (t, r') = first_text api missing found r in
    Touches-trans api c r.query r'.query (ok found) t s (first_text-Touches api missing found r)
after_row-Touches api missing c (raise e) r s = ground (arith, s)
after_row-Touches api missing c undefined r s = absurd (ground (arith, s.defined))

from_result-Touches :
    (api : Api) (missing : Text) (c : Command) (g : Outcome Result × Command)
    → GotFrom c g
    → Touches api c (from_result api missing g).0 (from_result api missing g).1
unfolding first_row
from_result-Touches api missing c (ok r, d) (q, _) =
    subst
      (λ k.
        Touches api k (of_query (first_row api missing r)).0 (of_query (first_row api missing r)).1)
      q
      (after_row-Touches api missing r.query (next_row api r).0 (next_row api r).1
        (next_row-Touches api r))
from_result-Touches api missing c (raise e, d) q = rw q (ground arith)
from_result-Touches api missing c (undefined, d) q = absurd q

answer-Touches :
    (api : Api) (missing : Text) (c : Command)
    → Touches api c (answer api missing c).0 (answer api missing c).1
unfolding answer
answer-Touches api missing c =
    from_result-Touches api missing c (get_result api c) (get_result-GotFrom api c)

pub ask-Conserves :
    (api : Api) (s : ℕ) (sql missing : Text) (con : Connection)
    → NoneOnError api
    → IsValid con.cache
    → Conserves api s 0 0 con (ask api sql missing con).1
      × (is_defined (ask api sql missing con).0 ≡ true)
unfolding ask
ask-Conserves api s sql missing con null v =
    with_command-Conserves api s sql (answer api missing) con null v (answer-Touches api missing)

pub set_wal_mode-Conserves :
    (api : Api) (s : ℕ) (mode : WalMode) (con : Connection)
    → NoneOnError api
    → IsValid con.cache
    → Conserves api s 0 0 con (set_wal_mode api mode con).1
unfolding set_wal_mode
set_wal_mode-Conserves api s mode con null v =
    after_ask (ask api (pragma mode) not_set con)
      (ask-Conserves api s (pragma mode) not_set con null v).0
  where
    after_ask :
        (r : Outcome Text × Connection)
        → Conserves api s 0 0 con r.1
        → Conserves api s 0 0 con (bind r (λ t d. (accept mode t (parse_journal_mode t), d))).1
    after_ask (ok t, d) k = k
    after_ask (raise e, d) k = k
    after_ask (undefined, d) k = k

pub get_wal_mode-Conserves :
    (api : Api) (s : ℕ) (con : Connection)
    → NoneOnError api
    → IsValid con.cache
    → Conserves api s 0 0 con (get_wal_mode api con).1
unfolding get_wal_mode
get_wal_mode-Conserves api s con null v =
    after_ask (ask api (codes "PRAGMA journal_mode;") not_read con)
      (ask-Conserves api s (codes "PRAGMA journal_mode;") not_read con null v).0
  where
    after_ask :
        (r : Outcome Text × Connection)
        → Conserves api s 0 0 con r.1
        → Conserves api s 0 0 con (bind r (λ t d. (parse_journal_mode t, d))).1
    after_ask (ok t, d) k = k
    after_ask (raise e, d) k = k
    after_ask (undefined, d) k = k

-- Enabling WAL, with or without the attempt at WAL2, leaves every prepared statement in the cache or
-- finalized, once, keeps the cache valid and the connection open, also where it throws, if SQLite
-- gives no statement where it fails to prepare one.
pub enable_wal-Conserves :
    (s : ℕ) (api : Api) (prefer_wal2 : Bool) (con : Connection)
    → NoneOnError api
    → IsValid con.cache
    → Conserves api s 0 0 con (enable_wal api prefer_wal2 con).1
unfolding enable_wal
enable_wal-Conserves s api false con null v = set_wal_mode-Conserves api s WalMode.wal con null v
enable_wal-Conserves s api true con null v =
    fallen_back (set_wal_mode api WalMode.wal2 con)
      (set_wal_mode-Conserves api s WalMode.wal2 con null v)
  where
    fallen_back :
        (r : Outcome WalMode × Connection)
        → Conserves api s 0 0 con r.1
        → Conserves api s 0 0 con (or_else r (set_wal_mode api WalMode.wal)).1
    fallen_back (ok m, d) k = k
    fallen_back (undefined, d) k = k
    fallen_back (raise e, d) k = elim (Bool-cases (is_database_exception e)) [
      | inr other ↦ rw other k
      | inl caught ↦
          rw caught
            (Conserves-trans api s k (set_wal_mode-Conserves api s WalMode.wal d null k.valid))
    ]
