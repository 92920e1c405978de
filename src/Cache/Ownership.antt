-- ===== src/Cache/Ownership.antt =====
-- Where the prepared statements go: those that are kept, handed out and finalized.
use vsqlite.Base.{
  refl, ℕ, zero, suc, ◌+◌, ◌≡◌, ◌≢◌, Text, List, [], ◌∷◌, some, arith, length, init, last?, map,
  count, ok, raise, undefined, Outcome, leb, Option-cases, inl, inr, Bool-cases,
}
use vsqlite.Sqlite.{Api, Log, Call, finalized, prepared}
use vsqlite.Cache.Index.{Entry, entry_find, entry_erase, Live}
use vsqlite.Cache.Invariant.{IsValid, acquire_cases, without, last?-some}
use vsqlite.Cache.{Cache, Config, acquire, release, finalize_all, clear, reset}

-- The statements in the cache.
abbrev pub held : List Entry → List ℕ
held = map (λ e. e.stmt)

-- How often a statement is in the cache or has been finalized.
abbrev pub accounted : ℕ → Cache × Log → ℕ
accounted s (c, log) = count s (held c.lru) + count s (finalized log)

-- What a call of `acquire` hands to its caller: nothing for a null pointer.
abbrev pub handed : Outcome ℕ → List ℕ
handed (ok zero) = []
handed (ok (suc s)) = suc s ∷ []
handed (raise e) = []
handed undefined = []

count-entry_erase :
    (s : ℕ) (k : Text) (es : List Entry) (e : Entry)
    → entry_find k es ≡ some e
    → count s (held es) ≡ count s (e.stmt ∷ held (entry_erase k es))
unfolding entry_find entry_erase
count-entry_erase s k [] e h = absurd (ground arith)
count-entry_erase s k (x ∷ es) e h = ground (arith, count-entry_erase s k es e)

count-finalize_all :
    (s : ℕ) (es : List Entry) (log : Log)
    → Live es
    → count s (finalized (finalize_all es log)) ≡ count s (held es) + count s (finalized log)
unfolding finalize_all
count-finalize_all s [] log l = omega arith
count-finalize_all s (e ∷ es) log l =
    ground (arith, count-finalize_all s es (Call.finalize e.stmt ∷ log) l.1)

entry_find-Live :
    (k : Text) (es : List Entry) (e : Entry) → Live es → entry_find k es ≡ some e → e.stmt ≢ 0
unfolding entry_find
entry_find-Live k [] e l h = absurd (ground arith)
entry_find-Live k (x ∷ es) e l h = ground (arith, entry_find-Live k es e l.1)

count-init :
    (s : ℕ) (b : Entry) (es : List Entry)
    → last? es ≡ some b
    → count s (held es) ≡ count s (b.stmt ∷ held (init es))
count-init s b [] h = absurd (ground arith)
count-init s b (e ∷ []) h = ground arith
count-init s b (e ∷ f ∷ es) h = ground (arith, count-init s b (f ∷ es))

last?-Live : (b : Entry) (es : List Entry) → Live es → last? es ≡ some b → b.stmt ≢ 0
last?-Live b [] l h = absurd (ground arith)
last?-Live b (e ∷ []) l h = ground (arith, l.0)
last?-Live b (e ∷ f ∷ es) l h = last?-Live b (f ∷ es) l.1 h

-- A statement that leaves the cache through `acquire` is handed out or finalized, never both, and
-- no other one moves.
pub acquire_conserves :
    (s : ℕ) (api : Api) (db : ℕ) (sql : Text) (c : Cache) (log : Log)
    → IsValid c
    → accounted s (acquire api db sql (c, log)).1 + count s (handed (acquire api db sql (c, log)).0)
      ≡ accounted s (c, log)
unfolding without
acquire_conserves s api db sql c log v =
    acquire_cases (λ r. accounted s r.1 + count s (handed r.0) ≡ accounted s (c, log)) api db sql c
      log v (λ _. omega arith)
      (λ e _ f.
        ground (arith, count-entry_erase s sql c.lru e f, entry_find-Live sql c.lru e v.live f))
      (λ e _ f.
        ground (arith, count-entry_erase s sql c.lru e f, entry_find-Live sql c.lru e v.live f))

-- The statement given to `release` is kept or finalized, never both; so is one that it evicts.
pub release_conserves :
    (s : ℕ) (sql : Text) (stmt : ℕ) (c : Cache) (log : Log)
    → IsValid c
    → accounted s (release sql stmt (c, log)).1 ≡ accounted s (c, log) + count s (handed (ok stmt))
unfolding release
release_conserves s sql stmt c log v = elim (Bool-cases (leb c.config.capacity (length c.lru))) [
  | inl full ↦ elim (Option-cases (last? c.lru)) [
    | inl empty ↦ ground (arith, last?-some c.lru)
    | inr (b, h) ↦ ground (arith, count-init s b c.lru, last?-Live b c.lru v.live)
  ]
  | inr room ↦ ground arith
]

-- `clear` and `reset` finalize every statement of the cache, once.
pub clear_conserves :
    (s : ℕ) (cfg : Config) (c : Cache) (log : Log)
    → IsValid c
    → (accounted s (clear (c, log)).1 ≡ accounted s (c, log))
      × (accounted s (reset cfg (c, log)).1 ≡ accounted s (c, log))
      × (held (clear (c, log)).1.0.lru ≡ [])
      × (held (reset cfg (c, log)).1.0.lru ≡ [])
unfolding clear reset
clear_conserves s cfg c log v = ground (arith, count-finalize_all s c.lru log v.live)

-- The cache prepares nothing.
pub prepared-finalize_all :
    (api : Api) (s : ℕ) (es : List Entry) (log : Log)
    → prepared api (finalize_all es log) s ≡ prepared api log s
unfolding finalize_all
prepared-finalize_all api s [] log = refl
prepared-finalize_all api s (e ∷ es) log =
    prepared-finalize_all api s es (Call.finalize e.stmt ∷ log)

pub prepared-acquire :
    (s : ℕ) (api : Api) (db : ℕ) (sql : Text) (c : Cache) (log : Log)
    → IsValid c
    → prepared api (acquire api db sql (c, log)).1.1 s ≡ prepared api log s
prepared-acquire s api db sql c log v =
    acquire_cases (λ r. prepared api r.1.1 s ≡ prepared api log s) api db sql c log v (λ _. refl)
      (λ _ _ _. refl) (λ _ _ _. refl)

pub prepared-release :
    (s : ℕ) (api : Api) (sql : Text) (stmt : ℕ) (c : Cache) (log : Log)
    → prepared api (release sql stmt (c, log)).1.1 s ≡ prepared api log s
unfolding release
prepared-release s api sql stmt c log = ground arith

pub prepared-clear :
    (s : ℕ) (api : Api) (cfg : Config) (c : Cache) (log : Log)
    → (prepared api (clear (c, log)).1.1 s ≡ prepared api log s)
      × (prepared api (reset cfg (c, log)).1.1 s ≡ prepared api log s)
unfolding clear reset
prepared-clear s api cfg c log = ground (arith, prepared-finalize_all api s c.lru log)
