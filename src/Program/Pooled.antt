-- ===== src/Program/Pooled.antt =====
-- Threads that share a pool whose connections come from `make_factory`, and what each of them does
-- with the connection of its lease.
-- The work on a connection, from a first object to the end of the last, is one step: where a lease
-- has several owners, the operations of all of them are its list.
pub mod Sharing
pub mod Slots
use vsqlite.Base.{
  ℕ, ◌+◌, ◌-◌, ◌<◌, ◌≡◌, ◌≢◌, List, [], ◌∷◌, count, Text, Option, none, some, Outcome, ok, is_ok,
  false, ◌==◌, if◌then◌else◌,
}
use vsqlite.Sqlite.{Api}
use vsqlite.Files.{OsFiles, Adapter, default_adapter}
use vsqlite.Connection.{Connection, OpenMode}
use vsqlite.Pool.{
  Pool, System, take_turn, factory_returns, factory_throws, add_owner, drop, conns, started,
}
use vsqlite.Pool.Factory.{make_factory}
use vsqlite.Program.{Operation, perform_all, leave_objects}

-- The threads with their pool, the connections that were made, and the state of each connection.
-- The program keeps no list of what was made.
pub record Site : Type 0 where
  pub system : System
  pub made : List ℕ
  pub state : ℕ → Connection

unfoldable pub update : ℕ → Connection → (ℕ → Connection) → ℕ → Connection
update n c f m = if n == m then c else f m

-- What the threads share: the SQLite behind each connection, and what the factory was made with.
pub record Setting : Type 0 where
  pub api : ℕ → Api
  pub os : OsFiles
  pub db : Text
  pub mode : OpenMode
  pub adapter : Option Adapter

-- The adapter that each connection holds.
abbrev pub held_adapter : Setting → Adapter
held_adapter u = elim u.adapter [ none ↦ default_adapter u.os | some fs ↦ fs ]

abbrev pub factory : Setting → ℕ → Outcome (Unit {0}) × Connection
factory u conn = make_factory (u.api conn) u.os u.db u.mode u.adapter

-- A thread runs operations on its connection, and its objects go out of scope.
unfoldable pub worked : Setting → ℕ → List Operation → Connection → Connection
worked u conn ops c =
    let w = perform_all (u.api conn) u.os (held_adapter u) ops (record { con = c; objects = [] }) in
    leave_objects (u.api conn) w.con w.objects

abbrev pub moved : Site → System → Site
moved t s = record t { system = s }

-- The steps of `Pool.Step`, with the two ways of the factory; and the use of a leased connection.
pub data Step (u : Setting) (t : Site) : Site → Type 0 where
  enters : Step u t (moved t (take_turn t.system))
  wakes :
      0 < t.system.woken
      → Step u t (moved t (take_turn (record (t.system) { woken = t.system.woken - 1 })))
  stirs :
      0 < t.system.waiting
      → Step u t (moved t (take_turn (record (t.system) { waiting = t.system.waiting - 1 })))
  makes :
      (conn : ℕ)
      → 0 < t.system.creating
      → conn ≢ 0
      → count conn t.made ≡ 0
      → (factory u conn).0 ≡ ok tt
      → (factory u conn).1.handle ≢ 0
      → Step u t (record {
        system = factory_returns conn t.system;
        made = conn ∷ t.made;
        state = update conn (factory u conn).1 t.state;
      })
  fails :
      (conn : ℕ)
      → 0 < t.system.creating
      → is_ok (factory u conn).0 ≡ false
      → Step u t (moved t (factory_throws t.system))
  shares :
      (conn : ℕ)
      → Step u t (moved t (record (t.system) { leased = add_owner conn t.system.leased }))
  drops :
      (conn : ℕ) → 0 < count conn (conns t.system.leased) → Step u t (moved t (drop conn t.system))
  works :
      (conn : ℕ) (ops : List Operation)
      → 0 < count conn (conns t.system.leased)
      → Step u t (record t { state = update conn (worked u conn ops (t.state conn)) t.state })

pub data Reach (u : Setting) (t : Site) : Site → Type 0 where
  here : Reach u t t
  next : {s r : Site} → Reach u t s → Step u s r → Reach u t r

abbrev pub opened : Pool → (ℕ → Connection) → Site
opened p state = record { system = started p; made = []; state = state }
