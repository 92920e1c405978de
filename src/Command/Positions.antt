-- ===== src/Command/Positions.antt =====
-- The positions that `operator%` and `operator()` bind to.
use vsqlite.Base.{
  ℕ, ◌+◌, ◌≤◌, ◌≡◌, ◌⊎◌, refl, pos, true, false, List, [], ◌∷◌, arith, ok, is_ok, Text, subst, sym,
}
use vsqlite.Sqlite.{Api, Log, Call, Binding}
use vsqlite.Command.Values.{Value, Argument, direct}
use vsqlite.Command.Bindings.{Carries, direct-Carries}
use vsqlite.Connection.{access_check}
use vsqlite.Command.{
  Command, push, bind_named, push_argument, push_all, call_with, check_access, reset_statement,
  step,
}

-- How many positions arguments take.
abbrev pub positional : List Argument → ℕ
positional [] = 0
positional (Argument.next v ∷ args) = positional args + 1
positional (Argument.named name v ∷ args) = positional args

-- The calls for arguments of which the first without a name goes to position `n + 1`, from one log
-- to another: a name goes to the index that SQLite gives for it, and each value as it should.
abbrev pub BoundFrom : Api → ℕ → ℕ → List Argument → Log → Log → Type 0
BoundFrom api stmt n [] log after = after ≡ log
BoundFrom api stmt n (Argument.next v ∷ args) log after =
    (b : Binding) × Carries v b
    × BoundFrom api stmt (n + 1) args (Call.bind_value stmt (pos (n + 1)) b ∷ log) after
BoundFrom api stmt n (Argument.named name v ∷ args) log after =
    (b : Binding) × Carries v b
    × BoundFrom api stmt n args
        (Call.bind_value stmt (pos (api.bind_parameter_index log stmt name)) b ∷ log) after

-- The same as a log, with what `direct` makes of the values.
abbrev bound_from : Api → ℕ → ℕ → List Argument → Log → Log
bound_from api stmt n [] log = log
bound_from api stmt n (Argument.next v ∷ args) log =
    bound_from api stmt (n + 1) args (Call.bind_value stmt (pos (n + 1)) (direct v) ∷ log)
bound_from api stmt n (Argument.named name v ∷ args) log =
    bound_from api stmt n args
      (Call.bind_value stmt (pos (api.bind_parameter_index log stmt name)) (direct v) ∷ log)

bound_from-BoundFrom :
    (api : Api) (stmt n : ℕ) (args : List Argument) (log : Log)
    → BoundFrom api stmt n args log (bound_from api stmt n args log)
bound_from-BoundFrom api stmt n [] log = refl
bound_from-BoundFrom api stmt n (Argument.next v ∷ args) log =
    (direct v, direct-Carries v, bound_from-BoundFrom api stmt (n + 1) args _)
bound_from-BoundFrom api stmt n (Argument.named name v ∷ args) log =
    (direct v, direct-Carries v, bound_from-BoundFrom api stmt n args _)

push_ok :
    (api : Api) (v : Value) (c : Command)
    → is_ok (push api v c).0 ≡ true
    → push api v c ≡ (
      ok tt,
      record c {
        con = record (c.con) {
          log = Call.bind_value c.stmt (pos (c.last_arg_idx + 1)) (direct v) ∷ c.con.log;
        };
        last_arg_idx = c.last_arg_idx + 1;
      },
    )
unfolding push
push_ok api v c h = ground arith

push-counts :
    (api : Api) (v : Value) (c : Command) → ((push api v c).1.last_arg_idx ≡ c.last_arg_idx + 1)
unfolding push
push-counts api v c = ground arith

bind_named_ok :
    (api : Api) (name : Text) (v : Value) (c : Command)
    → is_ok (bind_named api name v c).0 ≡ true
    → bind_named api name v c ≡ (
      ok tt,
      record c {
        con = record (c.con) {
          log =
              Call.bind_value c.stmt
                (pos (api.bind_parameter_index c.con.log c.stmt name))
                (direct v)
              ∷ c.con.log;
        };
      },
    )
unfolding bind_named
bind_named_ok api name v c h = ground arith

bind_named-counts :
    (api : Api) (name : Text) (v : Value) (c : Command)
    → (bind_named api name v c).1.last_arg_idx ≡ c.last_arg_idx
unfolding bind_named
bind_named-counts api name v c = ground arith

push_all_lem :
    (api : Api) (args : List Argument) (c : Command)
    → is_ok (push_all api args c).0 ≡ true
    → ((push_all api args c).1.con.log ≡ bound_from api c.stmt c.last_arg_idx args c.con.log)
      × ((push_all api args c).1.last_arg_idx ≡ c.last_arg_idx + positional args)
      × ((push_all api args c).1.stmt ≡ c.stmt)
unfolding push_all push_argument
push_all_lem api [] c h = (refl, omega arith, refl)
push_all_lem api (Argument.next v ∷ args) c h =
    let first : is_ok (push api v c).0 ≡ true = ground arith in
    let e = push_ok api v c first in
    let d = (push api v c).1 in
    let rest : is_ok (push_all api args d).0 ≡ true = ground (arith, e) in
    ground (arith, e, push_all_lem api args d rest)
push_all_lem api (Argument.named name v ∷ args) c h =
    let first : is_ok (bind_named api name v c).0 ≡ true = ground arith in
    let e = bind_named_ok api name v c first in
    let d = (bind_named api name v c).1 in
    let rest : is_ok (push_all api args d).0 ≡ true = ground (arith, e) in
    ground (arith, e, push_all_lem api args d rest)

-- Arguments that are all bound, one after the other, come to one call each, which carries the value:
-- NULL for `nil` and an absent optional, an int as it is, another integral number or an enumerator by
-- its low 64 bits, a double as it is, a duration or a time point by its whole microseconds, and a
-- text or bytes in full if they are fewer than 2^31. Those without a name go to consecutive positions
-- behind the last one, as if the others were not there, and each that has a name to the index that
-- SQLite gives for it.
pub push_all_ok :
    (api : Api) (args : List Argument) (c : Command)
    → is_ok (push_all api args c).0 ≡ true
    → let c' = (push_all api args c).1 in
      BoundFrom api c.stmt c.last_arg_idx args c.con.log c'.con.log
      × (c'.last_arg_idx ≡ c.last_arg_idx + positional args)
      × (c'.stmt ≡ c.stmt)
push_all_ok api args c h =
    let (logged, counted, kept) = push_all_lem api args c h in
    let calls = bound_from-BoundFrom api c.stmt c.last_arg_idx args c.con.log in
    (subst (BoundFrom api c.stmt c.last_arg_idx args c.con.log) (sym logged) calls, counted, kept)

push_all-counts :
    (api : Api) (args : List Argument) (c : Command)
    → (c.last_arg_idx ≤ (push_all api args c).1.last_arg_idx)
      × ((push_all api args c).1.last_arg_idx ≤ c.last_arg_idx + positional args)
      × (is_ok (push_all api args c).0 ≡ true
          → (push_all api args c).1.last_arg_idx ≡ c.last_arg_idx + positional args)
unfolding push_all push_argument
push_all-counts api [] c = (omega arith, omega arith, λ _. omega arith)
push_all-counts api (Argument.next v ∷ args) c =
    let ih = push_all-counts api args (push api v c).1 in
    (
      ground (arith, push-counts api v c, ih),
      ground (arith, push-counts api v c, ih),
      λ h. ground (arith, push-counts api v c, ih),
    )
push_all-counts api (Argument.named name v ∷ args) c =
    let ih = push_all-counts api args (bind_named api name v c).1 in
    (
      ground (arith, bind_named-counts api name v c, ih),
      ground (arith, bind_named-counts api name v c, ih),
      λ h. ground (arith, bind_named-counts api name v c, ih),
    )

step-counts : (api : Api) (c : Command) → (step api c).1.last_arg_idx ≡ c.last_arg_idx
unfolding step check_access access_check
step-counts api c = ground arith

-- `operator()` with arguments, once all are bound, sets the count of positions back only
-- if its step succeeds. A step that throws leaves the count behind them, so that the next call, which
-- starts from the count that it finds, binds what has no name to the positions after those of the call
-- that failed.
pub call_with_failed :
    (api : Api) (a : Argument) (args : List Argument) (c : Command)
    → is_ok (push_all api (a ∷ args) (reset_statement c).1).0 ≡ true
    → let r = call_with api (a ∷ args) c in
      ((is_ok r.0 ≡ true) × (r.1.last_arg_idx ≡ 0))
      ⊎ ((is_ok r.0 ≡ false) × (r.1.last_arg_idx ≡ c.last_arg_idx + positional (a ∷ args)))
unfolding call_with reset_statement
call_with_failed api a args c h =
    let d = (push_all api (a ∷ args) (reset_statement c).1).1 in
    let counted = push_all-counts api (a ∷ args) (reset_statement c).1 in
    ground (arith, counted.2 h, step-counts api d)
