-- ===== src/Execute.antt =====
-- execute.cpp, and the life of a command that is local to a function: it is made, used, and
-- destroyed when the function is left, also by an exception.
pub mod Conservation
pub mod Uses
use vsqlite.Base.{
  ◌≡◌, refl, ap, ℕ, Bool, true, false, Text, M, ok, raise, ◌>>=◌, ◌>>◌, pure, when, Outcome,
  undefined,
}
use vsqlite.Sqlite.{Api}
use vsqlite.Connection.{Connection}
use vsqlite.Command.{Command}
use vsqlite.Command

-- The destructor runs on the way out; what the body did is what the caller sees.
abbrev pub leave : {A : Type 0} → Outcome A × Command → Outcome A × Connection
leave (r, c) = (r, (Command.destroy c).1.con)

-- A constructor that throws leaves no object to destroy.
abbrev enter : {A : Type 0} → M Command A → Outcome (Unit {0}) × Command → Outcome A × Connection
enter body (ok u, c) = leave (body c)
enter body (raise e, c) = (raise e, c.con)
enter body (undefined, c) = (undefined, c.con)

unfoldable pub with_command : {A : Type 0} → Api → Text → M Command A → M Connection A
with_command api sql body con = enter body (Command.construct api sql con)

enter-cong :
    {A : Type 0} (body body' : M Command A) (r : Outcome (Unit {0}) × Command)
    → body r.1 ≡ body' r.1
    → enter body r ≡ enter body' r
enter-cong body body' (ok u, c) h = ap leave h
enter-cong body body' (raise e, c) h = refl
enter-cong body body' (undefined, c) h = refl

-- Only what the body does with the new command matters.
pub with_command-cong :
    {A : Type 0} (api : Api) (sql : Text) (body body' : M Command A) (con : Connection)
    → body (Command.construct api sql con).1 ≡ body' (Command.construct api sql con).1
    → with_command api sql body con ≡ with_command api sql body' con
unfolding with_command
with_command-cong api sql body body' con h = enter-cong body body' (Command.construct api sql con) h

-- `step_once`, its result dropped.
unfoldable pub step_once : Api → M Command (Unit {0})
unfolding Command.step
step_once api = do _ ← Command.step api; pure tt

-- `execute(con, sql, immediately)` as a temporary.
unfoldable pub execute : Api → Text → Bool → M Connection (Unit {0})
unfolding with_command step_once
execute api sql immediately = with_command api sql (when immediately (step_once api))
