-- ===== src/Program/Conservation.antt =====
-- The statements of a program over one connection, from its opening to its end.
use vsqlite.Base.{
  ℕ, zero, suc, ◌+◌, ◌≡◌, ◌≢◌, ◌⊎◌, inl, inr, refl, sym, ◌∙◌, arith, List, [], ◌∷◌, Outcome, ok,
  raise, undefined, count,
}
use vsqlite.Sqlite.{Api, prepared, non_null}
use vsqlite.Files.{OsFiles, Adapter}
use vsqlite.Cache.Invariant.{IsValid}
use vsqlite.Connection.{Connection}
use vsqlite.Connection.Lifetime.{accounted}
use vsqlite.Command.{Command}
use vsqlite.Command
use vsqlite.Execute.Conservation.{NoneOnError, Conserves, construct-Conserves}
use vsqlite.Transaction.{Transaction, TransactionType}
use vsqlite.Transaction
use vsqlite.Savepoint.{Savepoint}
use vsqlite.Savepoint
use vsqlite.Program.Calls.{
  statement_of, answer-Conserves, create_transaction-Conserves, create_savepoint-Conserves,
  use_object-Conserves, destroy_object-Conserves,
}
use vsqlite.Program.{
  Object, World, Use, Operation, destroy_object, made, use_at, destroy_at, perform, perform_all,
  leave_objects,
}

-- How often a statement is held by an object.
abbrev pub held_by : ℕ → List Object → ℕ
held_by s [] = 0
held_by s (o ∷ os) = count s (non_null (statement_of o)) + held_by s os

-- From `c` to `d` no statement is lost: k counts how often it was held by objects, and l how often
-- it is.
pub record Moves (api : Api) (s k l : ℕ) (c d : Connection) : Type 0 where
  pub valid : IsValid d.cache
  pub handle_kept : d.handle ≡ c.handle
  pub balance : accounted s d + l + prepared api c.log s ≡ accounted s c + k + prepared api d.log s

module _ (api : Api) (s : ℕ) where
  of_Conserves :
      {i j : ℕ} {c d : Connection}
      → Conserves api s i j c d
      → Moves api s (count s (non_null i)) (count s (non_null j)) c d
  of_Conserves v = record { valid = v.valid; handle_kept = v.handle_kept; balance = v.balance }

  pub Moves-trans :
      {k l m : ℕ} {c d e : Connection}
      → Moves api s k l c d
      → Moves api s l m d e
      → Moves api s k m c e
  Moves-trans p q = record {
    valid = q.valid;
    handle_kept = q.handle_kept ∙ p.handle_kept;
    balance = omega (arith, p.balance, q.balance);
  }

  -- Objects that are left alone hold what they held.
  beside :
      {k l : ℕ} {c d : Connection} (m : ℕ) → Moves api s k l c d → Moves api s (m + k) (m + l) c d
  beside m p = record {
    valid = p.valid;
    handle_kept = p.handle_kept;
    balance = omega (arith, p.balance);
  }

  before :
      {k l : ℕ} {c d : Connection} (m : ℕ) → Moves api s k l c d → Moves api s (k + m) (l + m) c d
  before m p = record {
    valid = p.valid;
    handle_kept = p.handle_kept;
    balance = omega (arith, p.balance);
  }

  module _ (null : NoneOnError api) where
    use_at-Moves :
        (n : ℕ) (u : Use) (con : Connection) (os : List Object)
        → IsValid con.cache
        → let w = use_at api n u con os in
          Moves api s (held_by s os) (held_by s w.objects) con w.con
    unfolding use_at
    use_at-Moves n u con [] v = record { valid = v; handle_kept = refl; balance = refl }
    use_at-Moves zero u con (o ∷ os) v =
        before (held_by s os) (of_Conserves (use_object-Conserves api s null u con o v))
    use_at-Moves (suc n) u con (o ∷ os) v =
        beside (count s (non_null (statement_of o))) (use_at-Moves n u con os v)

    -- An object that is destroyed beside others.
    gone :
        (m : ℕ) (con : Connection) (o : Object)
        → IsValid con.cache
        → con.handle ≢ 0
        → Moves api s (count s (non_null (statement_of o)) + m) m con (destroy_object api con o)
    gone m con o v h =
        let p = destroy_object-Conserves api s null con o v h in
        record { valid = p.valid; handle_kept = p.handle_kept; balance = omega (arith, p.balance) }

    destroy_at-Moves :
        (n : ℕ) (con : Connection) (os : List Object)
        → IsValid con.cache
        → con.handle ≢ 0
        → let w = destroy_at api n con os in
          Moves api s (held_by s os) (held_by s w.objects) con w.con
    unfolding destroy_at
    destroy_at-Moves n con [] v h = record { valid = v; handle_kept = refl; balance = refl }
    destroy_at-Moves zero con (o ∷ os) v h = gone (held_by s os) con o v h
    destroy_at-Moves (suc n) con (o ∷ os) v h =
        beside (count s (non_null (statement_of o))) (destroy_at-Moves n con os v h)

    pub leave_objects-Moves :
        (con : Connection) (os : List Object)
        → IsValid con.cache
        → con.handle ≢ 0
        → Moves api s (held_by s os) 0 con (leave_objects api con os)
    unfolding leave_objects
    leave_objects-Moves con [] v h = record { valid = v; handle_kept = refl; balance = refl }
    leave_objects-Moves con (o ∷ os) v h =
        let p = gone (held_by s os) con o v h in
        Moves-trans p (
          leave_objects-Moves (destroy_object api con o) os p.valid
            (λ e. h (sym p.handle_kept ∙ e)))

    -- An object that a constructor makes, or does not make, beside others.
    made-Moves :
        (r : Outcome (Unit {0})) (con con' : Connection) (o : Object) (os : List Object)
        → Conserves api s 0 (statement_of o) con con'
        → (r ≡ ok tt) ⊎ (statement_of o ≡ 0)
        → let w = made api r (con', o) os in
          Moves api s (held_by s os) (held_by s w.objects) con w.con
    made-Moves (ok u) con con' o os p h = record {
      valid = p.valid;
      handle_kept = p.handle_kept;
      balance = omega (arith, p.balance);
    }
    made-Moves (raise e) con con' o os p (inl h) = absurd (ground arith)
    made-Moves (raise e) con con' o os p (inr h) = record {
      valid = p.valid;
      handle_kept = p.handle_kept;
      balance = ground (arith, p.balance);
    }
    made-Moves undefined con con' o os p (inl h) = absurd (ground arith)
    made-Moves undefined con con' o os p (inr h) = record {
      valid = p.valid;
      handle_kept = p.handle_kept;
      balance = ground (arith, p.balance);
    }

    perform-Moves :
        (os : OsFiles) (fs : Adapter) (op : Operation) (w : World)
        → IsValid w.con.cache
        → w.con.handle ≢ 0
        → let w' = perform api os fs op w in
          Moves api s (held_by s w.objects) (held_by s w'.objects) w.con w'.con
    unfolding perform
    perform-Moves os fs (Operation.asks request) w v h =
        let p = answer-Conserves api s null os fs request w.con v in
        record { valid = p.valid; handle_kept = p.handle_kept; balance = omega (arith, p.balance) }
    perform-Moves os fs (Operation.makes_command sql) w v h =
        let (r, c) = Command.construct api sql w.con in
        let (p, _, way) = construct-Conserves api s sql w.con null v in
        made-Moves r w.con c.con (Object.command c.sql c.stmt c.last_arg_idx) w.objects p
          (ground (arith, way))
    perform-Moves os fs (Operation.makes_transaction kind) w v h =
        let (r, t) = Transaction.create api kind w.con in
        made-Moves r w.con t.con (Object.transaction t.is_active t.is_ending) w.objects
          (create_transaction-Conserves api s null kind w.con v) (inr refl)
    perform-Moves os fs (Operation.makes_savepoint name) w v h =
        let (r, p) = Savepoint.create api w.con name in
        made-Moves r w.con p.con (Object.savepoint p.name p.is_active) w.objects
          (create_savepoint-Conserves api s null name w.con v) (inr refl)
    perform-Moves os fs (Operation.uses n u) w v h = use_at-Moves n u w.con w.objects v
    perform-Moves os fs (Operation.destroys n) w v h = destroy_at-Moves n w.con w.objects v h

    pub perform_all-Moves :
        (os : OsFiles) (fs : Adapter) (ops : List Operation) (w : World)
        → IsValid w.con.cache
        → w.con.handle ≢ 0
        → let w' = perform_all api os fs ops w in
          Moves api s (held_by s w.objects) (held_by s w'.objects) w.con w'.con
    unfolding perform_all
    perform_all-Moves os fs [] w v h = record { valid = v; handle_kept = refl; balance = refl }
    perform_all-Moves os fs (op ∷ ops) w v h =
        let p = perform-Moves os fs op w v h in
        Moves-trans p (
          perform_all-Moves os fs ops (perform api os fs op w) p.valid
            (λ e. h (sym p.handle_kept ∙ e)))
