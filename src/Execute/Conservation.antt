-- ===== src/Execute/Conservation.antt =====
-- What a local command does with prepared statements.
use vsqlite.Base.{
  c_str, is_defined, is_ok, subst, sym, ◌∙◌, ℕ, ◌+◌, ◌≡◌, ◌≢◌, ◌⊎◌, inl, inr, refl, true, false,
  Text, M, Outcome, ok, arith, count, Bool, when,
}
use vsqlite.Sqlite.{Api, Log, sqlite_ok, finalized, prepared, non_null}
use vsqlite.Cache.Invariant.{IsValid}
use vsqlite.Connection.{Connection, access_check, acquire_cached_statement, clear_statement_cache}
use vsqlite.Connection.Lifetime.{
  accounted, acquire_cached_statement_lem, release_cached_statement_lem, clear_statement_cache_lem,
}
use vsqlite.Command.{Command}
use vsqlite.Command
use vsqlite.Execute.{with_command, step_once, execute}

-- SQLite documents that a failed `sqlite3_prepare_v2` stores a null pointer.
abbrev pub NoneOnError : Api → Type 0
NoneOnError api =
    (log : Log) (h : ℕ) (sql : Text)
    → (api.prepare_v2 log h sql).0 ≢ sqlite_ok
    → (api.prepare_v2 log h sql).1 ≡ 0

-- `d` comes after `c`, with every statement accounted for: what a command holds counts too.
pub record Conserves (api : Api) (s : ℕ) (held_before held_after : ℕ) (c d : Connection)
    : Type 0 where
  pub valid : IsValid d.cache
  pub handle_kept : d.handle ≡ c.handle
  pub balance :
      accounted s d + count s (non_null held_after) + prepared api c.log s
      ≡ accounted s c + count s (non_null held_before) + prepared api d.log s

-- What a method that only binds and steps leaves alone.
pub record Touches {A : Type 0} (api : Api) (c : Command) (r : Outcome A) (d : Command)
    : Type 0 where
  pub defined : is_defined r ≡ true
  pub stmt_kept : d.stmt ≡ c.stmt
  pub sql_kept : d.sql ≡ c.sql
  pub cache_kept : d.con.cache ≡ c.con.cache
  pub handle_kept : d.con.handle ≡ c.con.handle
  pub finalized_kept : finalized d.con.log ≡ finalized c.con.log
  pub prepared_kept : (s : ℕ) → prepared api d.con.log s ≡ prepared api c.con.log s

module _ (api : Api) (s : ℕ) where
  prepare_new-Conserves :
      (c : Command)
      → NoneOnError api
      → IsValid c.con.cache
      → c.stmt ≡ 0
      → let r = Command.prepare_new api c in
        Conserves api s 0 r.1.stmt c.con r.1.con
        × (r.1.sql ≡ c.sql)
        × ((r.0 ≡ ok tt) ⊎ ((is_ok r.0 ≡ false) × (is_defined r.0 ≡ true) × (r.1.stmt ≡ 0)))
  unfolding Command.prepare_new
  prepare_new-Conserves c null v z = ground (arith, null c.con.log c.con.handle (c_str c.sql))

  fetch-Conserves :
      (c : Command)
      → NoneOnError api
      → IsValid c.con.cache
      → c.stmt ≡ 0
      → let r = Command.fetch api c in
        Conserves api s 0 r.1.stmt c.con r.1.con
        × (r.1.sql ≡ c.sql)
        × ((r.0 ≡ ok tt) ⊎ ((is_ok r.0 ≡ false) × (is_defined r.0 ≡ true) × (r.1.stmt ≡ 0)))
  unfolding Command.fetch
  fetch-Conserves c null v z =
      let got = acquire_cached_statement_lem s api c.sql c.con v in
      ground (
        arith,
        got,
        prepare_new-Conserves c null v z,
        prepare_new-Conserves
            (record c { con = (acquire_cached_statement api c.sql c.con).1; stmt = 0 }) null got.0
            refl,
      )

  pub construct-Conserves :
      (sql : Text) (con : Connection)
      → NoneOnError api
      → IsValid con.cache
      → let r = Command.construct api sql con in
        Conserves api s 0 r.1.stmt con r.1.con
        × (r.1.sql ≡ sql)
        × (((r.0 ≡ ok tt) × (con.handle ≢ 0))
            ⊎ ((is_ok r.0 ≡ false) × (is_defined r.0 ≡ true) × (r.1.stmt ≡ 0)))
  unfolding Command.construct
  construct-Conserves sql con null v =
      let c : Command = record { con = con; sql = sql; stmt = 0; last_arg_idx = 0 } in
      let cleared = clear_statement_cache_lem s api con v in
      ground (
        arith,
        v,
        cleared,
        fetch-Conserves c null v refl,
        fetch-Conserves (record c { con = (clear_statement_cache con).1 }) null cleared.1 refl,
      )

  pub destroy-Conserves :
      (c : Command)
      → IsValid c.con.cache
      → c.con.handle ≢ 0
      → Conserves api s c.stmt 0 c.con (Command.destroy c).1.con
  unfolding Command.destroy Command.check_access
  destroy-Conserves c v opened =
      ground (arith, v, release_cached_statement_lem s api c.sql c.stmt c.con v)

  pub Conserves-trans :
      {i j k : ℕ} {c d e : Connection}
      → Conserves api s i j c d
      → Conserves api s j k d e
      → Conserves api s i k c e
  Conserves-trans p q = record {
    valid = q.valid;
    handle_kept = q.handle_kept ∙ p.handle_kept;
    balance = omega arith;
  }

  pub Touches-Conserves :
      {A : Type 0} {c d : Command} {r : Outcome A}
      → IsValid c.con.cache
      → Touches api c r d
      → Conserves api s c.stmt d.stmt c.con d.con
  Touches-Conserves {c} {d} v t = record {
    valid = subst IsValid (sym t.cache_kept) v;
    handle_kept = t.handle_kept;
    balance = ground (arith, t.prepared_kept s);
  }

  -- A local command gives its statement back however the function is left.
  pub with_command-Conserves :
      {A : Type 0} (sql : Text) (body : M Command A) (con : Connection)
      → NoneOnError api
      → IsValid con.cache
      → ((c : Command) → Touches api c (body c).0 (body c).1)
      → Conserves api s 0 0 con (with_command api sql body con).1
        × (is_defined (with_command api sql body con).0 ≡ true)
  unfolding with_command
  with_command-Conserves sql body con null v touches =
      let made = construct-Conserves sql con null v in
      let c = (Command.construct api sql con).1 in
      let d = (body c).1 in
      let used = Touches-Conserves made.0.valid (touches c) in
      let gone = destroy-Conserves d used.valid in
      elim made.2 [
        | inl (fine, opened) ↦
            let k : d.con.handle ≢ 0 =
              λ e. opened (sym (used.handle_kept ∙ made.0.handle_kept) ∙ e) in
            rw fine (Conserves-trans (Conserves-trans made.0 used) (gone k), (touches c).defined)
        | inr (thrown, defined, empty) ↦ ground (arith, made.0, thrown, defined, empty)
      ]

pub step-Touches : (api : Api) (c : Command) → Touches api c (step_once api c).0 (step_once api c).1
unfolding step_once Command.check_access access_check
step-Touches api c = ground arith

execute-Touches :
    (api : Api) (immediately : Bool) (c : Command)
    → let r = when immediately (step_once api) c in Touches api c r.0 r.1
execute-Touches api true c = step-Touches api c
execute-Touches api false c = ground arith

pub execute-Conserves :
    (api : Api) (s : ℕ) (sql : Text) (immediately : Bool) (con : Connection)
    → NoneOnError api
    → IsValid con.cache
    → Conserves api s 0 0 con (execute api sql immediately con).1
unfolding execute
execute-Conserves api s sql immediately con null v =
    (with_command-Conserves api s sql (when immediately (step_once api)) con null v
      (execute-Touches api immediately)).0

-- Executing a statement, whether it succeeds, fails to be prepared or throws while it runs, leaves
-- every prepared statement in the cache or finalized, once, keeps the cache valid and the connection
-- open, and runs into no undefined behaviour.
pub execute_conserves :
    (s : ℕ) (api : Api) (sql : Text) (immediately : Bool) (con : Connection)
    → NoneOnError api
    → IsValid con.cache
    → let r = execute api sql immediately con in
      (is_defined r.0 ≡ true)
      × IsValid r.1.cache
      × (r.1.handle ≡ con.handle)
      × (accounted s r.1 + prepared api con.log s ≡ accounted s con + prepared api r.1.log s)
unfolding execute
execute_conserves s api sql immediately con null v =
    let (kept, defined) =
      with_command-Conserves api s sql (when immediately (step_once api)) con null v
        (execute-Touches api immediately) in
    (defined, kept.valid, kept.handle_kept, omega (arith, kept.balance))
