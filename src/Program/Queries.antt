-- ===== src/Program/Queries.antt =====
-- What the queries of a program do to the statements.
use vsqlite.Base.{
  ◌≡◌, refl, sym, subst, arith, ℕ, Bool, not, Text, List, M, Outcome, ok, raise, undefined,
}
use vsqlite.Sqlite.{Api}
use vsqlite.Connection.{access_check}
use vsqlite.Command.{Command}
use vsqlite.Command
use vsqlite.Command.Values.{Value, Argument}
use vsqlite.Result.Conversions.{Target}
use vsqlite.Execute.Conservation.{Touches}
use vsqlite.Execute.Uses.{Touches-trans, bind-Touches, step-Touches, push_all-Touches}
use vsqlite.Query.{ResultRange, result_of, get_result, emit_result, each, each_with}
use vsqlite.Query.Iterators.{RowView, for_each, get_named}
use vsqlite.Query.Steps.{StepsTo, here, step, for_each-StepsTo, get_named-unchanged}
use vsqlite.Query.Each.{each_with_lem}
use vsqlite.Program.{walked}

module _ (api : Api) where
  result_of-Touches :
      (ended : Bool) (c : Command)
      → Touches api c (result_of api ended c).0 (result_of api ended c).1
  unfolding result_of Command.check_access access_check
  result_of-Touches ended c = ground arith

  pub emit_result-Touches :
      (c : Command) → Touches api c (emit_result api c).0 (emit_result api c).1
  unfolding emit_result
  emit_result-Touches c =
      bind-Touches api c (Command.step api c) (λ more. result_of api (not more))
        (step-Touches api c) (λ more d. result_of-Touches (not more) d)

  each-Touches : (c : Command) → Touches api c (each api c).0 (each api c).1
  unfolding each get_result result_of Command.check_access access_check
  each-Touches c = ground arith

  each_with-Touches :
      (args : List Argument) (c : Command)
      → Touches api c (each_with api args c).0 (each_with api args c).1
  unfolding each_with
  each_with-Touches args c =
      bind-Touches api c (Command.push_all api args c) (λ _. each api) (push_all-Touches api args c)
        (λ _. each-Touches)

  -- The outcome of a method that is defined may be left out.
  left : {A : Type 0} {c d : Command} {r : Outcome A} → Touches api c r d → Touches api c (ok tt) d
  left t = record {
    defined = refl;
    stmt_kept = t.stmt_kept;
    sql_kept = t.sql_kept;
    cache_kept = t.cache_kept;
    handle_kept = t.handle_kept;
    finalized_kept = t.finalized_kept;
    prepared_kept = t.prepared_kept;
  }

  StepsTo-Touches : {c d : Command} → StepsTo api c d → Touches api c (ok tt) d
  StepsTo-Touches here = ground arith
  StepsTo-Touches {c} (step {d} p) = left (
      Touches-trans api c d (Command.step api d).1 (ok tt) (Command.step api d).0
        (StepsTo-Touches p) (step-Touches api d))

  after_each :
      (args : List Argument) (c : Command) (o : Outcome ResultRange × Command)
      → each_with api args c ≡ o
      → Touches api c (ok tt) o.1
  after_each args c o e = subst (λ x. Touches api c (ok tt) x.1) e (left (each_with-Touches args c))

  -- A query whose range is walked, from the outcome of `each` on.
  walked_from-Touches :
      (args : List Argument) (t : Target) (name : Text) (n : ℕ) (c : Command)
      (o : Outcome ResultRange × Command)
      → each_with api args c ≡ o
      → Touches api c (ok tt) (walked api t name n o)
  walked_from-Touches args t name n c (ok range, d) e =
      let body : RowView → M ResultRange Value = λ row. get_named api row t name in
      let same = (each_with_lem api args c d range e).3 in
      let start = subst (Touches api c (ok tt)) (sym same) (after_each args c (ok range, d) e) in
      let steps = for_each-StepsTo api body (λ row. get_named-unchanged api row t name) n range in
      Touches-trans api c range.result.query (for_each api body n range).1.result.query (ok tt)
        (ok tt) start (StepsTo-Touches steps)
  walked_from-Touches args t name n c (raise x, d) e = after_each args c (raise x, d) e
  walked_from-Touches args t name n c (undefined, d) e = after_each args c (undefined, d) e

  pub walked-Touches :
      (args : List Argument) (t : Target) (name : Text) (n : ℕ) (c : Command)
      → Touches api c (ok tt) (walked api t name n (each_with api args c))
  walked-Touches args t name n c = walked_from-Touches args t name n c (each_with api args c) refl
