-- ===== src/Wal/Setting.antt =====
-- snapshot.cpp: the functions that set and read the journal mode of a connection.
use vsqlite.Base.{
  bind_ok, ◌≡◌, ◌⊎◌, inl, inr, refl, ap, ◌∙◌, arith, pos, Bool, true, false, not, ◌&&◌, Text, ◌++◌,
  codes, M, Outcome, ok, raise, undefined, is_ok, ◌>>=◌, throw, Exception, database_exception,
  database_exception_code, database_system_error, if◌then◌else◌,
}
use vsqlite.Sqlite.{Api}
use vsqlite.Connection.{Connection}
use vsqlite.Command.{Command}
use vsqlite.Execute.{with_command}
use vsqlite.Result.{Result, next_row, get_string}
use vsqlite.Query.{get_result}
use vsqlite.Wal.{WalMode, to_string, to_lower, parse_journal_mode, parse_journal_mode_iff}

-- A result refers to its query: what is done to it is done to the query.
abbrev pub of_query {ℓ} : {A : Type ℓ} → Outcome A × Result → Outcome A × Command
of_query (a, r) = (a, r.query)

abbrev pub first_text : Api → Text → Bool → M Result Text
first_text api missing true = get_string api (pos 0)
first_text api missing false = throw (database_exception missing)

-- `next_row`, and then the text of the first column, or an exception where there is no row.
unfoldable pub first_row : Api → Text → M Result Text
first_row api missing = next_row api >>= first_text api missing

abbrev pub from_result : Api → Text → Outcome Result × Command → Outcome Text × Command
from_result api missing (ok r, c) = of_query (first_row api missing r)
from_result api missing (raise e, c) = (raise e, c)
from_result api missing (undefined, c) = (undefined, c)

unfoldable pub answer : Api → Text → M Command Text
answer api missing c = from_result api missing (get_result api c)

-- A query that is local to the function, and the text of its first column.
unfoldable pub ask : Api → Text → Text → M Connection Text
ask api sql missing = with_command api sql (answer api missing)

abbrev pub pragma : WalMode → Text
pragma mode = codes "PRAGMA journal_mode = " ++ (to_string mode ++ codes ";")

abbrev pub not_set : Text
not_set = codes "Failed to set journal_mode."

abbrev pub not_read : Text
not_read = codes "Failed to read journal_mode."

abbrev pub rejected : Text → Text
rejected reported = codes "SQLite rejected WAL2 mode (reported '" ++ (reported ++ codes "').")

abbrev pub is_wal2 : WalMode → Bool
is_wal2 WalMode.wal2 = true
is_wal2 _ = false

-- The tests on the reported text.
unfoldable pub accept : WalMode → Text → Outcome WalMode → Outcome WalMode
accept mode reported (ok parsed) =
    if is_wal2 mode && not (is_wal2 parsed)
    then raise (database_exception (rejected reported))
    else ok parsed
accept mode reported (raise e) = raise e
accept mode reported undefined = undefined

unfoldable pub set_wal_mode : Api → WalMode → M Connection WalMode
set_wal_mode api mode = do
  reported ← ask api (pragma mode) not_set
  λ con. (accept mode reported (parse_journal_mode reported), con)

-- The exceptions that `catch (database_exception const &)` catches.
abbrev pub is_database_exception : Exception → Bool
is_database_exception (database_exception m) = true
is_database_exception (database_exception_code m code sql) = true
is_database_exception (database_system_error m code) = true
is_database_exception _ = false

abbrev pub or_else :
    Outcome WalMode × Connection → M Connection WalMode → Outcome WalMode × Connection
or_else (ok m, con) k = (ok m, con)
or_else (raise e, con) k = if is_database_exception e then k con else (raise e, con)
or_else (undefined, con) k = (undefined, con)

unfoldable pub enable_wal : Api → Bool → M Connection WalMode
enable_wal api prefer_wal2 con =
    let plain = set_wal_mode api WalMode.wal con in
    let preferred = or_else (set_wal_mode api WalMode.wal2 con) (set_wal_mode api WalMode.wal) in
    if prefer_wal2 then preferred else plain

unfoldable pub get_wal_mode : Api → M Connection WalMode
get_wal_mode api = do
  reported ← ask api (codes "PRAGMA journal_mode;") not_read
  λ con. (parse_journal_mode reported, con)

accept_ok :
    (mode m : WalMode) (reported : Text) (p : Outcome WalMode)
    → accept mode reported p ≡ ok m
    → (p ≡ ok m) × ((is_wal2 mode ≡ false) ⊎ (m ≡ WalMode.wal2))
unfolding accept
accept_ok WalMode.wal2 m reported (ok WalMode.wal2) h = (h, inr (ground arith))
accept_ok WalMode.wal2 m reported (ok _) h = absurd (ground arith)
accept_ok _ m reported (ok p) h = (h, inl refl)
accept_ok mode m reported (raise e) h = absurd (ground arith)
accept_ok mode m reported undefined h = absurd (ground arith)

-- A mode that is set is the one that SQLite reports, in any mix of upper and lower case, and WAL2
-- where WAL2 was asked for.
pub set_wal_mode_ok :
    (api : Api) (mode m : WalMode) (con : Connection)
    → (set_wal_mode api mode con).0 ≡ ok m
    → (reported : Text) × ((ask api (pragma mode) not_set con).0 ≡ ok reported)
      × (to_lower reported ≡ to_lower (to_string m))
      × ((is_wal2 mode ≡ false) ⊎ (m ≡ WalMode.wal2))
unfolding set_wal_mode
set_wal_mode_ok api mode m con h =
    let (reported, asked, accepted) =
      bind_ok (ask api (pragma mode) not_set con)
        (λ t con. (accept mode t (parse_journal_mode t), con)) m h in
    let (parsed, fits) = accept_ok mode m reported (parse_journal_mode reported) accepted in
    (reported, asked, (parse_journal_mode_iff reported m).0 parsed, fits)

or_else_ok :
    (r : Outcome WalMode × Connection) (k : M Connection WalMode) (m : WalMode)
    → (or_else r k).0 ≡ ok m
    → (r.0 ≡ ok m) ⊎ ((is_ok r.0 ≡ false) × ((k r.1).0 ≡ ok m))
or_else_ok (ok n, con) k m h = inl h
or_else_ok (raise e, con) k m h = inr (ground arith)
or_else_ok (undefined, con) k m h = absurd (ground arith)

-- Where `enable_wal` returns a mode, it is WAL2, which was preferred and is what SQLite reported, or
-- it is the mode that SQLite reported when it was asked for WAL, which is asked for only if WAL2 was
-- not preferred or could not be set.
pub enable_wal_ok :
    (api : Api) (prefer_wal2 : Bool) (m : WalMode) (con : Connection)
    → (enable_wal api prefer_wal2 con).0 ≡ ok m
    → ((prefer_wal2 ≡ true)
        × (m ≡ WalMode.wal2)
        × (reported : Text) × ((ask api (pragma WalMode.wal2) not_set con).0 ≡ ok reported)
        × (to_lower reported ≡ to_lower (to_string WalMode.wal2)))
      ⊎ ((d : Connection) × (((prefer_wal2 ≡ false) × (d ≡ con))
            ⊎ ((is_ok (set_wal_mode api WalMode.wal2 con).0 ≡ false)
                × (d ≡ (set_wal_mode api WalMode.wal2 con).1)))
          × (reported : Text) × ((ask api (pragma WalMode.wal) not_set d).0 ≡ ok reported)
          × (to_lower reported ≡ to_lower (to_string m)))
unfolding enable_wal
enable_wal_ok api false m con h =
    let (reported, asked, named, _) = set_wal_mode_ok api WalMode.wal m con h in
    inr (con, inl (refl, refl), reported, asked, named)
enable_wal_ok api true m con h =
    let first = set_wal_mode api WalMode.wal2 con in
    elim (or_else_ok first (set_wal_mode api WalMode.wal) m h) [
      | inl set ↦
          let (reported, asked, named, fits) = set_wal_mode_ok api WalMode.wal2 m con set in
          let same : m ≡ WalMode.wal2 = ground arith in
          inl (refl, same, reported, asked, named ∙ ap (λ n. to_lower (to_string n)) same)
      | inr (refused, later) ↦
          let (reported, asked, named, _) = set_wal_mode_ok api WalMode.wal m first.1 later in
          inr (first.1, inr (refused, refl), reported, asked, named)
    ]
