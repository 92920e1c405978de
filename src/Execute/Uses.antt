-- ===== src/Execute/Uses.antt =====
-- The methods of a command that only bind and step, and what they leave alone.
use vsqlite.Base.{
  ℤ, pos, ◌∙◌, refl, arith, Bool, Text, List, [], ◌∷◌, Outcome, ok, raise, undefined, bind, M,
}
use vsqlite.Sqlite.{Api, Binding}
use vsqlite.Connection.{access_check}
use vsqlite.Command.{Command}
use vsqlite.Command
use vsqlite.Command.Values.{Value, Argument, direct}
use vsqlite.Execute.Conservation.{Touches}

pub Touches-trans :
    {A B : Type 0} (api : Api) (c d e : Command) (r : Outcome A) (q : Outcome B)
    → Touches api c r d
    → Touches api d q e
    → Touches api c q e
Touches-trans api c d e r q s t = record {
  defined = t.defined;
  stmt_kept = t.stmt_kept ∙ s.stmt_kept;
  sql_kept = t.sql_kept ∙ s.sql_kept;
  cache_kept = t.cache_kept ∙ s.cache_kept;
  handle_kept = t.handle_kept ∙ s.handle_kept;
  finalized_kept = t.finalized_kept ∙ s.finalized_kept;
  prepared_kept = λ n. t.prepared_kept n ∙ s.prepared_kept n;
}

-- One method after another.
pub bind-Touches :
    {A B : Type 0} (api : Api) (c : Command) (r : Outcome A × Command) (f : A → M Command B)
    → Touches api c r.0 r.1
    → ((a : A) (d : Command) → Touches api d (f a d).0 (f a d).1)
    → Touches api c (bind r f).0 (bind r f).1
bind-Touches api c (ok a, d) f t k = Touches-trans api c d (f a d).1 (ok a) (f a d).0 t (k a d)
bind-Touches api c (raise e, d) f t k = record {
  defined = refl;
  stmt_kept = t.stmt_kept;
  sql_kept = t.sql_kept;
  cache_kept = t.cache_kept;
  handle_kept = t.handle_kept;
  finalized_kept = t.finalized_kept;
  prepared_kept = t.prepared_kept;
}
bind-Touches api c (undefined, d) f t k = absurd (ground (arith, t.defined))

cleared-Touches :
    (api : Api) (result : Bool) (c : Command)
    → Touches api c (ok result) (record c { last_arg_idx = 0 })
cleared-Touches api result c = ground arith

pub step-Touches :
    (api : Api) (c : Command) → Touches api c (Command.step api c).0 (Command.step api c).1
unfolding Command.step Command.check_access access_check
step-Touches api c = ground arith

pub bind_at-Touches :
    (api : Api) (idx : ℤ) (b : Binding) (c : Command)
    → Touches api c (Command.bind_at api idx b c).0 (Command.bind_at api idx b c).1
unfolding Command.bind_at Command.checked_bind Command.check_access access_check
bind_at-Touches api idx b c = ground arith

parameter_index-Touches :
    (api : Api) (name : Text) (c : Command)
    → Touches api c (Command.parameter_index api name c).0 (Command.parameter_index api name c).1
unfolding Command.parameter_index Command.check_access access_check
parameter_index-Touches api name c = ground arith

pub bind_named-Touches :
    (api : Api) (name : Text) (v : Value) (c : Command)
    → Touches api c (Command.bind_named api name v c).0 (Command.bind_named api name v c).1
unfolding Command.bind_named
bind_named-Touches api name v c =
    bind-Touches api c (Command.parameter_index api name c)
      (λ idx. Command.bind_at api (pos idx) (direct v)) (parameter_index-Touches api name c)
      (λ idx. bind_at-Touches api (pos idx) (direct v))

pub push-Touches :
    (api : Api) (v : Value) (c : Command)
    → Touches api c (Command.push api v c).0 (Command.push api v c).1
unfolding Command.push Command.bind_at Command.checked_bind Command.check_access access_check
push-Touches api v c = ground arith

push_argument-Touches :
    (api : Api) (a : Argument) (c : Command)
    → Touches api c (Command.push_argument api a c).0 (Command.push_argument api a c).1
unfolding Command.push_argument
push_argument-Touches api (Argument.next v) c = push-Touches api v c
push_argument-Touches api (Argument.named name v) c = bind_named-Touches api name v c

pub push_all-Touches :
    (api : Api) (vs : List Argument) (c : Command)
    → Touches api c (Command.push_all api vs c).0 (Command.push_all api vs c).1
unfolding Command.push_all
push_all-Touches api [] c = ground arith
push_all-Touches api (v ∷ vs) c =
    bind-Touches api c (Command.push_argument api v c) (λ _. Command.push_all api vs)
      (push_argument-Touches api v c) (λ _. push_all-Touches api vs)

pub clear-Touches :
    (api : Api) (c : Command) → Touches api c (Command.clear c).0 (Command.clear c).1
unfolding Command.clear
clear-Touches api c = ground arith

pub reset_statement-Touches :
    (api : Api) (c : Command)
    → Touches api c (Command.reset_statement c).0 (Command.reset_statement c).1
unfolding Command.reset_statement
reset_statement-Touches api c = ground arith

stepped_clear-Touches :
    (api : Api) (c : Command)
    → let r = bind (Command.step api c) (λ result d. (ok result, record d { last_arg_idx = 0 })) in
      Touches api c r.0 r.1
stepped_clear-Touches api c =
    bind-Touches api c (Command.step api c) (λ result d. (ok result, record d { last_arg_idx = 0 }))
      (step-Touches api c) (cleared-Touches api)

pub call_with-Touches :
    (api : Api) (vs : List Argument) (c : Command)
    → Touches api c (Command.call_with api vs c).0 (Command.call_with api vs c).1
unfolding Command.call_with Command.call
call_with-Touches api [] c = stepped_clear-Touches api c
call_with-Touches api (v ∷ vs) c =
    let finish : M Command Bool =
      λ d. bind (Command.step api d) (λ result e. (ok result, record e { last_arg_idx = 0 })) in
    bind-Touches api c (Command.reset_statement c)
      (λ _ d. bind (Command.push_all api (v ∷ vs) d) (λ _. finish)) (reset_statement-Touches api c)
      (λ _ d.
        bind-Touches api d (Command.push_all api (v ∷ vs) d) (λ _. finish)
          (push_all-Touches api (v ∷ vs) d) (λ _. stepped_clear-Touches api))
