-- ===== src/Extensions/Statements.antt =====
-- The statements that the probes and `json_contains` prepare, and when a function is registered.
use vsqlite.Base.{
  ℕ, ◌≡◌, ◌≢◌, ◌⊎◌, arith, Bool, true, false, Text, List, [], ◌∷◌, ◌++◌, Outcome, ok, is_ok,
}
use vsqlite.Sqlite.{sqlite_ok, non_null}
use vsqlite.Extensions.{
  ExtensionApi, ExtensionCall, World, db_handle, noted, probe_json, json_contains, contains_three,
  fts_api_from_db, probe_fts, json_available, fts_available, add_contains, add_rank,
  register_contains_function, register_rank_function,
}

-- The statements that SQLite has given, from its answers to the log, and the finalized ones.
abbrev pub given : ExtensionApi → List ExtensionCall → List ℕ
given api [] = []
given api (ExtensionCall.prepare db sql ∷ log) =
    non_null (api.prepare log db sql).1 ++ given api log
given api (_ ∷ log) = given api log

abbrev pub finalized : List ExtensionCall → List ℕ
finalized [] = []
finalized (ExtensionCall.finalize s ∷ log) = non_null s ++ finalized log
finalized (_ ∷ log) = finalized log

abbrev Settled : ExtensionApi → World → Type 0
Settled api w = given api w.log ≡ finalized w.log

probe_json-Settled :
    (api : ExtensionApi) (db : ℕ) (w : World) → Settled api w → Settled api (probe_json api db w).1
unfolding probe_json
probe_json-Settled api db w p = ground (arith, p)

fts_api_from_db-Settled :
    (api : ExtensionApi) (db : ℕ) (w : World)
    → Settled api w
    → Settled api (fts_api_from_db api db w).1
unfolding fts_api_from_db
fts_api_from_db-Settled api db w p = ground (arith, p)

json_contains-Settled :
    (api : ExtensionApi) (args : List ℕ) (w : World)
    → Settled api w
    → Settled api (json_contains api args w).1
unfolding json_contains contains_three
json_contains-Settled api [] w p = p
json_contains-Settled api (a ∷ []) w p = p
json_contains-Settled api (a ∷ b ∷ []) w p = p
json_contains-Settled api (a ∷ b ∷ c ∷ []) w p = ground (arith, p)
json_contains-Settled api (a ∷ b ∷ c ∷ d ∷ args) w p = p

-- How a registration goes, beside the question for the extension, by the code of the registration
-- and the call that makes it.
abbrev pub Registers :
    Outcome Bool × World → Outcome (Unit {0}) × World → ℕ → ExtensionCall → Type 0
Registers (a, asked) (r, w) rc call =
    ((is_ok a ≡ false) × (is_ok r ≡ false) × (w ≡ asked))
    ⊎ (((a ≡ ok false) × (is_ok r ≡ false) × (w ≡ asked))
        ⊎ ((a ≡ ok true)
            × (w ≡ noted call asked)
            × (((rc ≡ sqlite_ok) × (r ≡ ok tt)) ⊎ ((rc ≢ sqlite_ok) × (is_ok r ≡ false)))))

-- Both registrations first ask as the test of the extension does. If that throws or finds none, they
-- throw, and no function is registered; else one call registers it, and they throw exactly if that
-- call fails.
pub register-Registers :
    (api : ExtensionApi) (name : Text) (w : World)
    → let json = json_available api w in
      let fts = fts_available api w in
      Registers json
        (register_contains_function api name w)
        (api.create_function json.1.log w.db name)
        (ExtensionCall.create_function w.db name)
      × Registers fts
          (register_rank_function api name w)
          (api.create_rank fts.1.log (fts_api_from_db api w.db w).0 name)
          (ExtensionCall.create_rank (fts_api_from_db api w.db w).0 name)
unfolding json_available fts_available register_contains_function register_rank_function db_handle
    probe_fts add_contains add_rank
register-Registers api name w = (ground arith, ground arith)

-- What a program asks of the extensions.
pub data Request : Type 0 where
  asks_json asks_fts : Request
  registers_contains registers_rank : Text → Request
  calls_contains : List ℕ → Request

abbrev pub perform : ExtensionApi → Request → World → World
perform api Request.asks_json w = (json_available api w).1
perform api Request.asks_fts w = (fts_available api w).1
perform api (Request.registers_contains name) w = (register_contains_function api name w).1
perform api (Request.registers_rank name) w = (register_rank_function api name w).1
perform api (Request.calls_contains args) w = (json_contains api args w).1

unfoldable pub perform_all : ExtensionApi → List Request → World → World
perform_all api [] w = w
perform_all api (r ∷ rs) w = perform_all api rs (perform api r w)

perform-Settled :
    (api : ExtensionApi) (r : Request) (w : World) → Settled api w → Settled api (perform api r w)
unfolding json_available fts_available register_contains_function register_rank_function db_handle
    probe_fts add_contains add_rank
perform-Settled api Request.asks_json w p = ground (arith, p, probe_json-Settled api w.db w)
perform-Settled api Request.asks_fts w p = ground (arith, p, fts_api_from_db-Settled api w.db w)
perform-Settled api (Request.registers_contains name) w p =
    ground (arith, p, probe_json-Settled api w.db w)
perform-Settled api (Request.registers_rank name) w p =
    ground (arith, p, fts_api_from_db-Settled api w.db w)
perform-Settled api (Request.calls_contains args) w p = json_contains-Settled api args w p

-- Whatever a program asks of the extensions, and however SQLite answers, the statements that were
-- prepared for it are finalized one by one, in their order: none is left open or finalized twice.
pub statements-finalized :
    (api : ExtensionApi) (rs : List Request) (w : World)
    → given api w.log ≡ finalized w.log
    → let w' = perform_all api rs w in given api w'.log ≡ finalized w'.log
unfolding perform_all
statements-finalized api [] w p = p
statements-finalized api (r ∷ rs) w p =
    statements-finalized api rs (perform api r w) (perform-Settled api r w p)
