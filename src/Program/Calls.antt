-- ===== src/Program/Calls.antt =====
-- What each request, use and destructor of a program does to the statements.
use vsqlite.Base.{
  ℕ, ◌≡◌, ◌≢◌, refl, sym, subst, ap, ◌∙◌, arith, true, false, Text, [], ◌∷◌, Outcome, ok, raise,
  undefined, caught,
}
use vsqlite.Sqlite.{Api}
use vsqlite.Files.{OsFiles, Adapter}
use vsqlite.Cache.Invariant.{IsValid}
use vsqlite.Connection.{Connection}
use vsqlite.Connection.Lifetime.{clear_statement_cache_lem, configure_statement_cache_lem}
use vsqlite.Command.{Command}
use vsqlite.Execute.{execute}
use vsqlite.Execute.Conservation.{
  NoneOnError, Conserves, Touches-Conserves, destroy-Conserves, execute-Conserves,
}
use vsqlite.Execute.Uses
use vsqlite.Transaction.{Transaction, TransactionType}
use vsqlite.Transaction
use vsqlite.Transaction.Outcomes.{Ending, ending, ending_lem, ending_sql}
use vsqlite.Savepoint.{Savepoint}
use vsqlite.Savepoint
use vsqlite.View
use vsqlite.Attachment.{attach-Conserves, detach-Conserves}
use vsqlite.Wal.Conservation.{set_wal_mode-Conserves, enable_wal-Conserves, get_wal_mode-Conserves}
use vsqlite.Program.Queries.{emit_result-Touches, walked-Touches}
use vsqlite.Program.{
  Object, Request, Use, answer, use_command, use_transaction, use_savepoint, use_object,
  destroy_object,
}

-- The statement that an object holds, 0 if none.
abbrev pub statement_of : Object → ℕ
statement_of (Object.command sql stmt idx) = stmt
statement_of _ = 0

module _ (api : Api) (s : ℕ) where
  unmoved : {i : ℕ} (con : Connection) → IsValid con.cache → Conserves api s i i con con
  unmoved con v = record { valid = v; handle_kept = refl; balance = refl }

  pub begin-con :
      (kind : TransactionType) (t : Transaction)
      → (Transaction.begin api kind t).1.con
        ≡ (execute api (Transaction.begin_sql kind) true t.con).1
  unfolding Transaction.begin Transaction.exec
  begin-con kind t = ground arith

  caught-con : (r : Outcome (Unit {0}) × Transaction) → (caught r).1.con ≡ r.1.con
  caught-con (ok u, t) = refl
  caught-con (raise e, t) = refl
  caught-con (undefined, t) = refl

  create-con :
      (con : Connection) (name : Text)
      → (Savepoint.create api con name).1.con
        ≡ (execute api (Savepoint.savepoint_sql name) true con).1
  unfolding Savepoint.create
  create-con con name = ground arith

  release-con :
      (p : Savepoint)
      → (Savepoint.release api p).1.con ≡ (execute api (Savepoint.release_sql p.name) true p.con).1
  unfolding Savepoint.release
  release-con p = ground arith

  rollback-con :
      (p : Savepoint)
      → (Savepoint.rollback api p).1.con
        ≡ (execute api (Savepoint.rollback_sql p.name) true p.con).1
  unfolding Savepoint.rollback
  rollback-con p = ground arith

  module _ (null : NoneOnError api) where
    pub answer-Conserves :
        (os : OsFiles) (fs : Adapter) (r : Request) (con : Connection)
        → IsValid con.cache
        → Conserves api s 0 0 con (answer api os fs r con)
    unfolding View.create View.create_in View.drop View.drop_in
    answer-Conserves os fs (Request.executes sql immediately) con v =
        execute-Conserves api s sql immediately con null v
    answer-Conserves os fs (Request.attaches db alias) con v =
        attach-Conserves s api os fs db alias con null v
    answer-Conserves os fs (Request.detaches alias) con v = detach-Conserves s api alias con null v
    answer-Conserves os fs (Request.creates_view temporary [] query) con v = unmoved con v
    answer-Conserves os fs (Request.creates_view temporary (a ∷ alias) query) con v =
        execute-Conserves api s (View.create_sql temporary [] (a ∷ alias) query) true con null v
    answer-Conserves os fs (Request.creates_view_in temporary [] alias query) con v = unmoved con v
    answer-Conserves os fs (Request.creates_view_in temporary (d ∷ database) [] query) con v =
        unmoved con v
    answer-Conserves os fs (Request.creates_view_in temporary (d ∷ database) (a ∷ alias) query) con
          v =
        execute-Conserves api s (View.create_sql temporary (d ∷ database) (a ∷ alias) query) true
          con null v
    answer-Conserves os fs (Request.drops_view []) con v = unmoved con v
    answer-Conserves os fs (Request.drops_view (a ∷ alias)) con v =
        execute-Conserves api s (View.drop_sql [] (a ∷ alias)) true con null v
    answer-Conserves os fs (Request.drops_view_in [] alias) con v = unmoved con v
    answer-Conserves os fs (Request.drops_view_in (d ∷ database) []) con v = unmoved con v
    answer-Conserves os fs (Request.drops_view_in (d ∷ database) (a ∷ alias)) con v =
        execute-Conserves api s (View.drop_sql (d ∷ database) (a ∷ alias)) true con null v
    answer-Conserves os fs (Request.sets_wal_mode mode) con v =
        set_wal_mode-Conserves api s mode con null v
    answer-Conserves os fs (Request.enables_wal prefer_wal2) con v =
        enable_wal-Conserves s api prefer_wal2 con null v
    answer-Conserves os fs Request.reads_wal_mode con v = get_wal_mode-Conserves api s con null v
    answer-Conserves os fs (Request.configures_cache cfg) con v =
        let kept = configure_statement_cache_lem s api cfg con v in
        record { valid = kept.0; handle_kept = kept.1; balance = omega (arith, kept) }
    answer-Conserves os fs Request.clears_cache con v =
        let kept = clear_statement_cache_lem s api con v in
        record { valid = kept.1; handle_kept = kept.2; balance = omega (arith, kept) }

    use_command-Conserves :
        (u : Use) (c : Command)
        → IsValid c.con.cache
        → Conserves api s c.stmt (use_command api u c).stmt c.con (use_command api u c).con
    use_command-Conserves (Use.binds idx v) c h =
        Touches-Conserves api s h (Uses.bind_at-Touches api idx _ c)
    use_command-Conserves (Use.binds_named name v) c h =
        Touches-Conserves api s h (Uses.bind_named-Touches api name v c)
    use_command-Conserves (Use.pushes vs) c h =
        Touches-Conserves api s h (Uses.push_all-Touches api vs c)
    use_command-Conserves Use.steps c h = Touches-Conserves api s h (Uses.step-Touches api c)
    use_command-Conserves (Use.calls vs) c h =
        Touches-Conserves api s h (Uses.call_with-Touches api vs c)
    use_command-Conserves Use.clears c h = Touches-Conserves api s h (Uses.clear-Touches api c)
    use_command-Conserves Use.resets c h =
        Touches-Conserves api s h (Uses.reset_statement-Touches api c)
    use_command-Conserves Use.emits c h = Touches-Conserves api s h (emit_result-Touches api c)
    use_command-Conserves (Use.reads args t name n) c h =
        Touches-Conserves api s h (walked-Touches api args t name n c)
    use_command-Conserves _ c h = unmoved c.con h

    use_transaction-Conserves :
        (u : Use) (t : Transaction)
        → IsValid t.con.cache
        → Conserves api s 0 0 t.con (use_transaction api u t).con
    use_transaction-Conserves (Use.begins kind) t h =
        subst (Conserves api s 0 0 t.con) (sym (begin-con kind t))
          (execute-Conserves api s (Transaction.begin_sql kind) true t.con null h)
    use_transaction-Conserves (Use.ends e) t h =
        subst (Conserves api s 0 0 t.con) (sym (ap (λ r. r.1.con) (ending_lem api e t)))
          (execute-Conserves api s (ending_sql e) true t.con null h)
    use_transaction-Conserves _ t h = unmoved t.con h

    use_savepoint-Conserves :
        (u : Use) (p : Savepoint)
        → IsValid p.con.cache
        → Conserves api s 0 0 p.con (use_savepoint api u p).con
    use_savepoint-Conserves Use.releases p h =
        subst (Conserves api s 0 0 p.con) (sym (release-con p))
          (execute-Conserves api s (Savepoint.release_sql p.name) true p.con null h)
    use_savepoint-Conserves Use.rolls_back p h =
        subst (Conserves api s 0 0 p.con) (sym (rollback-con p))
          (execute-Conserves api s (Savepoint.rollback_sql p.name) true p.con null h)
    use_savepoint-Conserves _ p h = unmoved p.con h

    pub use_object-Conserves :
        (u : Use) (con : Connection) (o : Object)
        → IsValid con.cache
        → let (con', o') = use_object api u con o in
          Conserves api s (statement_of o) (statement_of o') con con'
    unfolding use_object
    use_object-Conserves u con (Object.command sql stmt idx) h =
        use_command-Conserves u (record { con = con; sql = sql; stmt = stmt; last_arg_idx = idx }) h
    use_object-Conserves u con (Object.transaction active is_ending) h =
        use_transaction-Conserves u
          (record { con = con; is_active = active; is_ending = is_ending }) h
    use_object-Conserves u con (Object.savepoint name active) h =
        use_savepoint-Conserves u (record { con = con; name = name; is_active = active }) h

    pub destroy_object-Conserves :
        (con : Connection) (o : Object)
        → IsValid con.cache
        → con.handle ≢ 0
        → Conserves api s (statement_of o) 0 con (destroy_object api con o)
    unfolding destroy_object Transaction.destroy Savepoint.destroy Transaction.exec ending
    destroy_object-Conserves con (Object.command sql stmt idx) h opened =
        destroy-Conserves api s (record { con = con; sql = sql; stmt = stmt; last_arg_idx = idx }) h
          opened
    destroy_object-Conserves con (Object.transaction active true) h opened = unmoved con h
    destroy_object-Conserves con (Object.transaction false false) h opened = unmoved con h
    destroy_object-Conserves con (Object.transaction true false) h opened =
        let t : Transaction = record { con = con; is_active = true; is_ending = false } in
        subst (Conserves api s 0 0 con)
          (sym (
            caught-con (ending api Ending.rolls_back t)
            ∙ ap (λ r. r.1.con) (ending_lem api Ending.rolls_back t)))
          (execute-Conserves api s Transaction.rollback_sql true con null h)
    destroy_object-Conserves con (Object.savepoint name false) h opened = unmoved con h
    destroy_object-Conserves con (Object.savepoint name true) h opened =
        let p : Savepoint = record { con = con; name = name; is_active = true } in
        let (r, p') = Savepoint.release api p in
        subst (Conserves api s 0 0 con)
          (sym (Savepoint.connection_of-left_by (r, p'.con) ∙ release-con p))
          (execute-Conserves api s (Savepoint.release_sql name) true con null h)

    pub create_transaction-Conserves :
        (kind : TransactionType) (con : Connection)
        → IsValid con.cache
        → Conserves api s 0 0 con (Transaction.create api kind con).1.con
    unfolding Transaction.create
    create_transaction-Conserves kind con v =
        use_transaction-Conserves (Use.begins kind)
          (record { con = con; is_active = false; is_ending = false }) v

    pub create_savepoint-Conserves :
        (name : Text) (con : Connection)
        → IsValid con.cache
        → Conserves api s 0 0 con (Savepoint.create api con name).1.con
    create_savepoint-Conserves name con v =
        subst (Conserves api s 0 0 con) (sym (create-con con name))
          (execute-Conserves api s (Savepoint.savepoint_sql name) true con null v)
