-- ===== src/Cache/Invariant.antt =====
-- How the index of the statement cache belongs to its list, through every method.
use mathlib.Core.Option
use vsqlite.Base.{
  is_ok, ℕ, ◌≤◌, ◌<◌, ◌≡◌, ◌≢◌, ◌⊎◌, true, false, refl, Text, List, [], ◌∷◌, Outcome, none, some,
  arith, length, init, last?, length-init, ok, ◌==◌, leb, Option-cases, inl, inr, if◌then◌else◌,
  Bool-cases,
}
use vsqlite.Sqlite.{Api, Log, Call}
use vsqlite.Cache.Index.{
  Entry, map_find, map_erase, entry_find, entry_erase, Below, Distinct, Live, map_find-map_erase,
  map_find-map_set, node_at-entry_find, entry_find-entry_erase, entry_erase-Below,
  entry_erase-Distinct, entry_erase-Live, length-entry_erase,
}
use vsqlite.Cache.Eviction.{entry_find-init, init-Below, init-Live, init-Distinct}
use vsqlite.Cache.{Cache, Config, create, is_off, acquire, push_front, keep, release, clear, reset}

pub record IsValid (c : Cache) : Type 0 where
  pub fresh : Below c.next c.lru
  pub distinct : Distinct c.lru
  pub live : Live c.lru
  pub bounded : length c.lru ≤ c.config.capacity
  pub synced : (k : Text) → map_find k c.index ≡ Option.map (λ e. e.node) (entry_find k c.lru)

pub create-IsValid : (cfg : Config) → IsValid (create cfg)
unfolding create map_find entry_find
create-IsValid cfg = record {
  fresh = tt;
  distinct = tt;
  live = tt;
  bounded = omega arith;
  synced = λ k. refl;
}

-- What is left once the entry for a text is taken out.
unfoldable pub without : Text → Cache → Cache
without k c = record c { lru = entry_erase k c.lru; index = map_erase k c.index }

without-IsValid : (k : Text) (c : Cache) → IsValid c → IsValid (without k c)
unfolding without
without-IsValid k c v = record {
  fresh = entry_erase-Below c.next k c.lru v.fresh;
  distinct = entry_erase-Distinct k c.lru v.distinct;
  live = entry_erase-Live k c.lru v.live;
  bounded = omega (arith, length-entry_erase k c.lru, v.bounded);
  synced = λ j. ground (
    arith,
    v.synced j,
    map_find-map_erase j k c.index,
    entry_find-entry_erase j k c.lru v.distinct,
  );
}

-- On a valid cache no iterator dangles: `acquire` finds the entry of the text, if there is one, and
-- takes it out.
pub acquire_lem :
    (api : Api) (db : ℕ) (sql : Text) (c : Cache) (log : Log)
    → IsValid c
    → acquire api db sql (c, log) ≡ (
        if is_off c.config then (ok 0, (c, log)) else elim (entry_find sql c.lru) [
          | none ↦ (ok 0, (c, log))
          | some e ↦
              let log' = Call.clear_bindings e.stmt ∷ Call.reset e.stmt ∷ log in
              if api.db_handle log' e.stmt == db
              then (ok e.stmt, (without sql c, log'))
              else (ok 0, (without sql c, Call.finalize e.stmt ∷ log'))
        ])
unfolding acquire without
acquire_lem api db sql c log v = elim (Option-cases (entry_find sql c.lru)) [
  | inl missing ↦ ground (arith, v.synced sql)
  | inr (e, found) ↦ ground (arith, v.synced sql, node_at-entry_find c.next sql c.lru e v.fresh)
]

-- The three ways in which `acquire` ends: a miss, a hit, and a statement of another database.
pub acquire_cases {ℓ} :
    (P : Outcome ℕ × (Cache × Log) → Type ℓ) (api : Api) (db : ℕ) (sql : Text) (c : Cache)
    (log : Log)
    → IsValid c
    → ((is_off c.config ≡ true) ⊎ (entry_find sql c.lru ≡ none) → P (ok 0, (c, log)))
    → ((e : Entry)
        → is_off c.config ≡ false
        → entry_find sql c.lru ≡ some e
        → P (ok e.stmt, (without sql c, Call.clear_bindings e.stmt ∷ Call.reset e.stmt ∷ log)))
    → ((e : Entry)
        → is_off c.config ≡ false
        → entry_find sql c.lru ≡ some e
        → P (
          ok 0,
          (
            without sql c,
            Call.finalize e.stmt ∷ Call.clear_bindings e.stmt ∷ Call.reset e.stmt ∷ log,
          ),
        ))
    → P (acquire api db sql (c, log))
acquire_cases P api db sql c log v missed hit stale =
    rw (acquire_lem api db sql c log v) (elim (Bool-cases (is_off c.config)) [
      | inl off ↦ rw off (missed (inl off))
      | inr on ↦ elim (Option-cases (entry_find sql c.lru)) [
        | inl missing ↦ rw (on, missing) (missed (inr missing))
        | inr (e, found) ↦ rw (on, found) (ground (arith, hit e on found, stale e on found))
      ]
    ])

pub acquire-IsValid :
    (api : Api) (db : ℕ) (sql : Text) (c : Cache) (log : Log)
    → IsValid c
    → IsValid (acquire api db sql (c, log)).1.0
acquire-IsValid api db sql c log v =
    acquire_cases (λ r. IsValid r.1.0) api db sql c log v (λ _. v)
      (λ e _ _. without-IsValid sql c v) (λ e _ _. without-IsValid sql c v)

-- No iterator dangles: `acquire` always returns.
pub acquire-ok :
    (api : Api) (db : ℕ) (sql : Text) (c : Cache) (log : Log)
    → IsValid c
    → is_ok (acquire api db sql (c, log)).0 ≡ true
acquire-ok api db sql c log v =
    acquire_cases (λ r. is_ok r.0 ≡ true) api db sql c log v (λ _. refl) (λ _ _ _. refl)
      (λ _ _ _. refl)

push_front-IsValid :
    (sql : Text) (stmt : ℕ) (c : Cache)
    → IsValid c
    → entry_find sql c.lru ≡ none
    → stmt ≢ 0
    → length c.lru < c.config.capacity
    → IsValid (push_front sql stmt c)
unfolding push_front entry_find
push_front-IsValid sql stmt c v new live room = record {
  fresh = (omega arith, v.fresh);
  distinct = (new, v.distinct);
  live = (live, v.live);
  bounded = omega arith;
  synced = λ k. ground (arith, v.synced k, map_find-map_set k sql c.next c.index);
}

-- What is left once the least recently kept entry is dropped.
unfoldable pub evict : Entry → Cache → Cache
evict b c = record c { lru = init c.lru; index = map_erase b.sql c.index }

evict-IsValid : (b : Entry) (c : Cache) → IsValid c → last? c.lru ≡ some b → IsValid (evict b c)
unfolding evict
evict-IsValid b c v h = record {
  fresh = init-Below c.next c.lru v.fresh;
  distinct = init-Distinct c.lru v.distinct;
  live = init-Live c.lru v.live;
  bounded = omega (arith, length-init c.lru, v.bounded);
  synced = λ j. ground (
    arith,
    v.synced j,
    map_find-map_erase j b.sql c.index,
    entry_find-init j b c.lru v.distinct h,
  );
}

pub last?-some : (es : List Entry) → 0 < length es → (b : Entry) × (last? es ≡ some b)
last?-some [] h = absurd (omega arith)
last?-some (e ∷ []) h = (e, refl)
last?-some (e ∷ f ∷ es) h = last?-some (f ∷ es) (omega arith)

entry_find-init_miss :
    (k : Text) (b : Entry) (es : List Entry)
    → Distinct es
    → last? es ≡ some b
    → entry_find k es ≡ none
    → entry_find k (init es) ≡ none
entry_find-init_miss k b es d h m = rw (entry_find-init k b es d h) (ground arith)

keep-IsValid :
    (sql : Text) (stmt : ℕ) (c : Cache) (log : Log)
    → IsValid c
    → entry_find sql c.lru ≡ none
    → stmt ≢ 0
    → 0 < c.config.capacity
    → (IsValid (keep sql stmt (c, log)).1.0) × ((keep sql stmt (c, log)).0 ≡ ok tt)
unfolding keep evict
keep-IsValid sql stmt c log v new live on =
    elim (Bool-cases (leb c.config.capacity (length c.lru))) [
      | inl full ↦
          let (b, h) = last?-some c.lru (ground arith) in
          ground (
            arith,
            h,
            push_front-IsValid sql stmt (evict b c) (evict-IsValid b c v h)
                (entry_find-init_miss sql b c.lru v.distinct h new) live
                (ground (arith, length-init c.lru, v.bounded)),
          )
      | inr room ↦ ground (arith, push_front-IsValid sql stmt c v new live (ground arith))
    ]

-- `release` keeps the cache valid and never runs into undefined behaviour.
pub release-IsValid :
    (sql : Text) (stmt : ℕ) (c : Cache) (log : Log)
    → IsValid c
    → (IsValid (release sql stmt (c, log)).1.0) × ((release sql stmt (c, log)).0 ≡ ok tt)
unfolding release
release-IsValid sql stmt c log v = elim (Option-cases (entry_find sql c.lru)) [
  | inl new ↦ ground (arith, v, v.synced sql, keep-IsValid sql stmt c log v new)
  | inr (e, found) ↦ ground (arith, v, v.synced sql)
]

pub clear-IsValid : (c : Cache) (log : Log) → IsValid c → IsValid (clear (c, log)).1.0
unfolding clear map_find entry_find
clear-IsValid c log v = record {
  fresh = tt;
  distinct = tt;
  live = tt;
  bounded = omega arith;
  synced = λ k. refl;
}

pub reset-IsValid :
    (cfg : Config) (c : Cache) (log : Log) → IsValid c → IsValid (reset cfg (c, log)).1.0
unfolding reset map_find entry_find
reset-IsValid cfg c log v = record {
  fresh = tt;
  distinct = tt;
  live = tt;
  bounded = omega arith;
  synced = λ k. refl;
}
