-- ===== src/Cache.antt =====
-- statement_cache.hpp and statement_cache.cpp: the prepared statements that a connection keeps for
-- reuse, as a list in order of use and an index of iterators into it. The mutex is left out: each
-- method holds it from its first look at the lists to its return. `acquire` and `release` read the
-- configuration before they take it, which another thread's `reset` could change meanwhile.
pub mod Index
pub mod Eviction
pub mod Invariant
pub mod Ownership
pub mod Recency
use vsqlite.Base.{
  ℕ, suc, ◌≡◌, Bool, true, false, not, ◌||◌, Text, List, [], ◌∷◌, Option, none, some, length, init,
  last?, M, ok, undefined, ◌==◌, leb, if◌then◌else◌, Outcome, fault,
}
use vsqlite.Sqlite.{Api, Log, Call}
use Index.{Entry, map_find, map_erase, map_set, node_at, erase_node}

pub record Config : Type 0 where
  pub capacity : ℕ
  pub enabled : Bool

-- `next` is the identity that the next list node gets.
pub record Cache : Type 0 where
  pub config : Config
  pub lru : List Entry
  pub index : List (Text × ℕ)
  pub next : ℕ

abbrev pub default_config : Config
default_config = record { capacity = 32; enabled = true }

unfoldable pub create : Config → Cache
create cfg = record { config = cfg; lru = []; index = []; next = 0 }

abbrev pub is_off : Config → Bool
is_off cfg = not cfg.enabled || cfg.capacity == 0

-- The rest of `acquire`, once the entry is found.
unfoldable pub hand_out : Api → ℕ → Text → Entry → M (Cache × Log) ℕ
hand_out api db sql e (c, log) =
    let c' = record c { lru = erase_node e.node c.lru; index = map_erase sql c.index } in
    let log' = Call.clear_bindings e.stmt ∷ Call.reset e.stmt ∷ log in
    if api.db_handle log' e.stmt == db
    then (ok e.stmt, (c', log'))
    else (ok 0, (c', Call.finalize e.stmt ∷ log'))

-- An iterator that points at no node of the list is followed: undefined behaviour.
unfoldable pub acquire : Api → ℕ → Text → M (Cache × Log) ℕ
unfolding hand_out
acquire api db sql (c, log) =
    if is_off c.config then (ok 0, (c, log)) else elim (map_find sql c.index) [
      | none ↦ (ok 0, (c, log))
      | some it ↦ elim (node_at it c.lru) [
        | none ↦ (undefined, (c, log))
        | some e ↦ hand_out api db sql e (c, log)
      ]
    ]

-- `lru_.push_front(entry{key, stmt}); map_[key] = lru_.begin();`
unfoldable pub push_front : Text → ℕ → Cache → Cache
push_front key stmt c = record c {
  lru = record { node = c.next; sql = key; stmt = stmt } ∷ c.lru;
  index = map_set key c.next c.index;
  next = suc c.next;
}

-- The rest of `release`, for a statement that will be kept.
unfoldable pub keep : Text → ℕ → M (Cache × Log) (Unit {0})
unfolding push_front
keep key stmt (c, log) =
    if leb c.config.capacity (length c.lru)
    then elim (last? c.lru) [
      | none ↦ (undefined, (c, log))
      | some back ↦ (
        ok tt,
        (
          push_front key stmt (record c { lru = init c.lru; index = map_erase back.sql c.index }),
          Call.finalize back.stmt ∷ log,
        ),
      )
    ]
    else (ok tt, (push_front key stmt c, log))

unfoldable pub release : Text → ℕ → M (Cache × Log) (Unit {0})
unfolding keep
release sql stmt (c, log) =
    if is_off c.config || stmt == 0
    then (ok tt, (c, Call.finalize stmt ∷ log))
    else elim (map_find sql c.index) [
      | some _ ↦ (ok tt, (c, Call.finalize stmt ∷ log))
      | none ↦ keep sql stmt (c, log)
    ]

-- `for (auto &node : lru_) sqlite3_finalize(node.stmt);`
unfoldable pub finalize_all : List Entry → Log → Log
finalize_all [] log = log
finalize_all (e ∷ es) log = finalize_all es (Call.finalize e.stmt ∷ log)

unfoldable pub clear : M (Cache × Log) (Unit {0})
clear (c, log) = (ok tt, (record c { lru = []; index = [] }, finalize_all c.lru log))

unfoldable pub reset : Config → M (Cache × Log) (Unit {0})
reset cfg (c, log) =
    (ok tt, (record c { lru = []; index = []; config = cfg }, finalize_all c.lru log))
