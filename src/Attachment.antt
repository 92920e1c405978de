-- ===== src/Attachment.antt =====
-- connection.cpp, attach and detach, which execute a statement on the connection itself.
use vsqlite.Base.{
  ℕ, ◌<◌, ◌∙◌, pos, length, int_of_size_small, is_ok, ◌≡◌, ◌⊎◌, inl, inr, refl, true, false, Text,
  [], ◌∷◌, ◌++◌, some, codes, is_empty, M, Outcome, ok, raise, undefined, bind, subst, sym,
  database_exception, ◌>>◌, throw_if, arith,
}
use vsqlite.Sqlite.{Api, Binding}
use vsqlite.Files.{OsFiles, Adapter}
use vsqlite.Cache.Invariant.{IsValid}
use vsqlite.Connection.{Connection, access_check}
use vsqlite.Connection.Paths.{quote_identifier, validate_db_path}
use vsqlite.Connection.Identifiers.{read_identifier, read_identifier-quote_identifier}
use vsqlite.Command.{Command, construct, prepare, fetch, prepare_new, push, bind_at}
use vsqlite.Command.Values.{Value, direct, generic}
use vsqlite.Execute.{with_command, with_command-cong, execute, step_once}
use vsqlite.Execute.Conservation.{
  NoneOnError, Conserves, Touches, execute-Conserves, with_command-Conserves, step-Touches,
}
use vsqlite.Execute.Uses.{bind-Touches, push-Touches}

pub no_alias : Text
no_alias = codes "Database alias must not be empty."

abbrev pub attach_prefix : Text
attach_prefix = codes "ATTACH DATABASE ? AS "

abbrev pub detach_prefix : Text
detach_prefix = codes "DETACH DATABASE "

-- `cmd % db; cmd.step_once();`
unfoldable pub run_attach : Api → Text → M Command (Unit {0})
run_attach api db = do push api (Value.text db); step_once api

abbrev pub validated : OsFiles → Adapter → Text → M Connection (Unit {0})
validated os fs db c = (validate_db_path os fs c.log db false, c)

unfoldable pub attach : Api → OsFiles → Adapter → Text → Text → M Connection (Unit {0})
attach api os fs db alias = do
  throw_if (is_empty alias) (database_exception no_alias)
  validated os fs db
  with_command api (attach_prefix ++ (quote_identifier alias ++ codes ";")) (run_attach api db)

unfoldable pub detach : Api → Text → M Connection (Unit {0})
detach api alias = do
  throw_if (is_empty alias) (database_exception no_alias)
  execute api (detach_prefix ++ (quote_identifier alias ++ codes ";")) true

run_attach-Touches :
    (api : Api) (db : Text) (c : Command)
    → Touches api c (run_attach api db c).0 (run_attach api db c).1
unfolding run_attach
run_attach-Touches api db c =
    bind-Touches api c (push api (Value.text db) c) (λ _. step_once api)
      (push-Touches api (Value.text db) c) (λ _. step-Touches api)

pub Conserves-refl :
    (api : Api) (s : ℕ) (con : Connection) → IsValid con.cache → Conserves api s 0 0 con con
Conserves-refl api s con v = record { valid = v; handle_kept = refl; balance = refl }

decided :
    (r : Outcome (Unit {0})) (k : M Connection (Unit {0})) (c : Connection)
    → ((is_ok r ≡ false) × (bind (r, c) (λ _. k) ≡ (r, c)))
      ⊎ ((r ≡ ok tt) × (bind (r, c) (λ _. k) ≡ k c))
decided (ok u) k c = inr (refl, refl)
decided (raise e) k c = inl (refl, refl)
decided undefined k c = inl (refl, refl)

-- What the statement of `attach` is to do when it is new: bind the path, all of it, to the first
-- parameter, and take one step.
abbrev pub attach_once : Api → Text → M Command (Unit {0})
attach_once api db c =
    (do bind_at api (pos 1) (Binding.text db (pos (length db))); step_once api)
      (record c { last_arg_idx = 1 })

construct-counts :
    (api : Api) (sql : Text) (con : Connection) → (construct api sql con).1.last_arg_idx ≡ 0
unfolding construct prepare access_check fetch prepare_new
construct-counts api sql con = ground arith

run_attach_lem :
    (api : Api) (db : Text) (c : Command)
    → length db < 2147483648
    → c.last_arg_idx ≡ 0
    → run_attach api db c ≡ attach_once api db c
unfolding run_attach push direct generic
run_attach_lem api db c h z = rw (z, int_of_size_small (length db) h)

abbrev attach_sql : Text → Text
attach_sql alias = codes "ATTACH DATABASE ? AS " ++ (quote_identifier alias ++ codes ";")

run_attach-with_command :
    (api : Api) (db sql : Text) (con : Connection)
    → length db < 2147483648
    → with_command api sql (run_attach api db) con ≡ with_command api sql (attach_once api db) con
run_attach-with_command api db sql con h =
    with_command-cong api sql (run_attach api db) (attach_once api db) con
      (run_attach_lem api db (construct api sql con).1 h (construct-counts api sql con))

-- A database whose path has fewer than 2^31 bytes is attached, and one is detached, under the one
-- name that SQL reads in the statement. Attaching executes one statement, with the path bound to its
-- only parameter, exactly where the path is accepted; where it is refused, and where the name is
-- empty, it throws and changes nothing.
pub attach_names :
    (api : Api) (os : OsFiles) (fs : Adapter) (db alias : Text) (con : Connection)
    → length db < 2147483648
    → ((alias ≡ [])
        × (attach api os fs db alias con ≡ (raise (database_exception no_alias), con))
        × (detach api alias con ≡ (raise (database_exception no_alias), con)))
      ⊎ ((body : Text) × (read_identifier body ≡ some (alias, codes ";"))
          × (detach api alias con ≡ execute api (codes "DETACH DATABASE " ++ body) true con)
          × (((is_ok (validate_db_path os fs con.log db false) ≡ false)
                × (attach api os fs db alias con ≡ (validate_db_path os fs con.log db false, con)))
              ⊎ ((validate_db_path os fs con.log db false ≡ ok tt)
                  × (attach api os fs db alias con
                      ≡ with_command api
                          (codes "ATTACH DATABASE ? AS " ++ body)
                          (attach_once api db)
                          con))))
unfolding attach detach
attach_names api os fs db [] con h = inl (refl, refl, refl)
attach_names api os fs db (c ∷ alias) con h = inr (
  quote_identifier (c ∷ alias) ++ codes ";",
  read_identifier-quote_identifier (c ∷ alias) (codes ";") (omega arith),
  refl,
  elim (decided (validate_db_path os fs con.log db false)
      (with_command api (attach_sql (c ∷ alias)) (run_attach api db)) con) [
        | inl (refused, e) ↦ inl (refused, e)
        | inr (accepted, e) ↦
            inr (accepted, e ∙ run_attach-with_command api db (attach_sql (c ∷ alias)) con h)
      ],
)

-- Attaching a database leaves every prepared statement in the cache or finalized, once, and keeps
-- the cache valid and the connection open, also where it throws, if SQLite gives no statement where
-- it fails to prepare one.
pub attach-Conserves :
    (s : ℕ) (api : Api) (os : OsFiles) (fs : Adapter) (db alias : Text) (con : Connection)
    → NoneOnError api
    → IsValid con.cache
    → Conserves api s 0 0 con (attach api os fs db alias con).1
unfolding attach
attach-Conserves s api os fs db [] con null v = Conserves-refl api s con v
attach-Conserves s api os fs db (c ∷ alias) con null v =
    let sql = attach_prefix ++ (quote_identifier (c ∷ alias) ++ codes ";") in
    elim (decided (validate_db_path os fs con.log db false)
      (with_command api sql (run_attach api db)) con) [
        | inl (_, e) ↦ subst (λ r. Conserves api s 0 0 con r.1) (sym e) (Conserves-refl api s con v)
        | inr (h, e) ↦
            subst (λ r. Conserves api s 0 0 con r.1) (sym e)
              (with_command-Conserves api s sql (run_attach api db) con null v
                (run_attach-Touches api db)).0
      ]

pub detach-Conserves :
    (s : ℕ) (api : Api) (alias : Text) (con : Connection)
    → NoneOnError api
    → IsValid con.cache
    → Conserves api s 0 0 con (detach api alias con).1
unfolding detach
detach-Conserves s api [] con null v = Conserves-refl api s con v
detach-Conserves s api (c ∷ alias) con null v =
    execute-Conserves api s (detach_prefix ++ (quote_identifier (c ∷ alias) ++ codes ";")) true con
      null v
