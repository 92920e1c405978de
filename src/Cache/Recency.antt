-- ===== src/Cache/Recency.antt =====
-- The statement cache as its caller sees it: a bounded list of texts and statements, the most
-- recently released first. Iterators, identities and the index are gone.
use vsqlite.Base.{
  ℕ, suc, ◌-◌, ◌≤◌, ◌≡◌, refl, ap, sym, ◌∙◌, Text, Text-discrete, List, [], ◌∷◌, Option, none, some,
  arith, length, init, take, map, ite, ◌==◌, leb, Option-cases, inl, inr, if◌then◌else◌, Bool-cases,
  ◌||◌, length-map, init-take, take_of_length-le,
}
use vsqlite.Sqlite.{Api, Log}
use vsqlite.Cache.Index.{Entry, entry_find, entry_erase}
use vsqlite.Cache.Invariant.{
  IsValid, create-IsValid, acquire_cases, acquire-IsValid, release-IsValid, clear-IsValid,
  reset-IsValid, without, last?-some,
}
use vsqlite.Cache.{Cache, Config, create, is_off, acquire, keep, release, clear, reset}

abbrev pub Kept : Type 0
Kept = List (Text × ℕ)

abbrev pub kept : List Entry → Kept
kept = map (λ e. (e.sql, e.stmt))

unfoldable pub find : Text → Kept → Option ℕ
find k [] = none
find k ((j, s) ∷ l) = ite (Text-discrete j k) (some s) (find k l)

unfoldable pub erase : Text → Kept → Kept
erase k [] = []
erase k ((j, s) ∷ l) = ite (Text-discrete j k) l ((j, s) ∷ erase k l)

-- The specification: a text that is kept already stays as it is, a new one goes to the front, and
-- what does not fit any more falls off the end.
unfoldable pub admit : Config → Text → ℕ → Kept → Kept
unfolding find
admit cfg sql stmt l =
    if is_off cfg || stmt == 0
    then l
    else elim (find sql l) [ some _ ↦ l | none ↦ take cfg.capacity ((sql, stmt) ∷ l) ]

unfoldable pub forget : Config → Text → Kept → Kept
unfolding erase
forget cfg sql l = if is_off cfg then l else erase sql l

kept-entry_erase : (k : Text) (es : List Entry) → kept (entry_erase k es) ≡ erase k (kept es)
unfolding entry_erase erase
kept-entry_erase k [] = refl
kept-entry_erase k (e ∷ es) = ground (arith, kept-entry_erase k es)

find-kept-none : (k : Text) (es : List Entry) → entry_find k es ≡ none → find k (kept es) ≡ none
unfolding entry_find find
find-kept-none k [] h = refl
find-kept-none k (e ∷ es) h = ground (arith, find-kept-none k es)

find-kept-some :
    (k : Text) (es : List Entry) (e : Entry)
    → entry_find k es ≡ some e
    → find k (kept es) ≡ some e.stmt
unfolding entry_find find
find-kept-some k [] e h = absurd (ground arith)
find-kept-some k (x ∷ es) e h = ground (arith, find-kept-some k es e)

erase_absent : (k : Text) (l : Kept) → find k l ≡ none → erase k l ≡ l
unfolding find erase
erase_absent k [] h = refl
erase_absent k ((j, s) ∷ l) h = ground (arith, erase_absent k l)

map-init {ℓ κ} :
    {A : Type ℓ} {B : Type κ} (f : A → B) (xs : List A) → map f (init xs) ≡ init (map f xs)
map-init f [] = refl
map-init f (x ∷ []) = refl
map-init f (x ∷ y ∷ xs) = ap (◌∷◌ (f x)) (map-init f (y ∷ xs))

kept-init : (n : ℕ) (es : List Entry) → length es ≡ suc n → kept (init es) ≡ take n (kept es)
kept-init n es h =
    map-init (λ e. (e.sql, e.stmt)) es
    ∙ init-take n (kept es) (length-map es (λ e. (e.sql, e.stmt)) ∙ h)

keep-kept :
    (sql : Text) (stmt n : ℕ) (c : Cache) (log : Log)
    → length c.lru ≤ c.config.capacity
    → c.config.capacity ≡ suc n
    → kept (keep sql stmt (c, log)).1.0.lru ≡ (sql, stmt) ∷ take n (kept c.lru)
unfolding keep
keep-kept sql stmt n c log fits e = elim (Bool-cases (leb c.config.capacity (length c.lru))) [
  | inl full ↦
      let (b, h) = last?-some c.lru (ground arith) in
      rw (full, h) (ap (◌∷◌ (sql, stmt)) (kept-init n c.lru (ground arith)))
  | inr room ↦ rw room (
      ap (◌∷◌ (sql, stmt)) (
        sym (
          take_of_length-le n (kept c.lru)
            (ground (arith, length-map {B = Text × ℕ} c.lru (λ x. (x.sql, x.stmt)))))))
]

-- `release` refines `admit`.
pub release-admit :
    (sql : Text) (stmt : ℕ) (c : Cache) (log : Log)
    → IsValid c
    → kept (release sql stmt (c, log)).1.0.lru ≡ admit c.config sql stmt (kept c.lru)
unfolding release admit
release-admit sql stmt c log v = elim (Bool-cases (is_off c.config || stmt == 0)) [
  | inl off ↦ rw off
  | inr on ↦ rw on (elim (Option-cases (entry_find sql c.lru)) [
    | inl new ↦
        let e : c.config.capacity ≡ suc (c.config.capacity - 1) = ground arith in
        rw (v.synced sql, new, find-kept-none sql c.lru new)
          (keep-kept sql stmt (c.config.capacity - 1) c log v.bounded e
            ∙ ap (λ n. take n ((sql, stmt) ∷ kept c.lru)) (sym e))
    | inr (x, found) ↦ rw (v.synced sql, found, find-kept-some sql c.lru x found)
  ])
]

-- `acquire` refines `forget`: what it looks for is gone, and nothing else is.
pub acquire-forget :
    (api : Api) (db : ℕ) (sql : Text) (c : Cache) (log : Log)
    → IsValid c
    → kept (acquire api db sql (c, log)).1.0.lru ≡ forget c.config sql (kept c.lru)
unfolding forget without
acquire-forget api db sql c log v =
    acquire_cases (λ r. kept r.1.0.lru ≡ forget c.config sql (kept c.lru)) api db sql c log v
      (λ miss. ground (arith, miss, find-kept-none sql c.lru, erase_absent sql (kept c.lru)))
      (λ e on _. rw on (kept-entry_erase sql c.lru)) (λ e on _. rw on (kept-entry_erase sql c.lru))

-- What a caller can do to a cache.
pub data Operation : Type 0 where
  acquires : ℕ → Text → Operation
  releases : Text → ℕ → Operation
  clears : Operation
  resets : Config → Operation

unfoldable pub perform : Api → Operation → Cache × Log → Cache × Log
unfolding acquire release clear reset
perform api (acquires db sql) (c, log) = (acquire api db sql (c, log)).1
perform api (releases sql stmt) (c, log) = (release sql stmt (c, log)).1
perform api clears (c, log) = (clear (c, log)).1
perform api (resets cfg) (c, log) = (reset cfg (c, log)).1

unfoldable pub perform_all : Api → List Operation → Cache × Log → Cache × Log
unfolding perform
perform_all api [] s = s
perform_all api (o ∷ os) s = perform_all api os (perform api o s)

-- The same on the abstract side, where nothing depends on SQLite.
unfoldable pub intend : Operation → Config × Kept → Config × Kept
unfolding admit forget
intend (acquires db sql) (cfg, l) = (cfg, forget cfg sql l)
intend (releases sql stmt) (cfg, l) = (cfg, admit cfg sql stmt l)
intend clears (cfg, l) = (cfg, [])
intend (resets cfg') (cfg, l) = (cfg', [])

unfoldable pub intend_all : List Operation → Config × Kept → Config × Kept
unfolding intend
intend_all [] a = a
intend_all (o ∷ os) a = intend_all os (intend o a)

abbrev pub view : Cache → Config × Kept
view c = (c.config, kept c.lru)

config_unchanged :
    (api : Api) (db : ℕ) (sql : Text) (stmt : ℕ) (c : Cache) (log : Log)
    → IsValid c
    → ((acquire api db sql (c, log)).1.0.config ≡ c.config)
      × ((release sql stmt (c, log)).1.0.config ≡ c.config)
unfolding release keep without
config_unchanged api db sql stmt c log v = (
  acquire_cases (λ r. r.1.0.config ≡ c.config) api db sql c log v (λ _. refl) (λ _ _ _. refl)
      (λ _ _ _. refl),
  ground arith,
)

perform-intend :
    (api : Api) (o : Operation) (s : Cache × Log)
    → IsValid s.0
    → (IsValid (perform api o s).0) × (view (perform api o s).0 ≡ intend o (view s.0))
unfolding perform intend
perform-intend api (acquires db sql) (c, log) v = (
  acquire-IsValid api db sql c log v,
  λ i. ((config_unchanged api db sql 0 c log v).0 i, acquire-forget api db sql c log v i),
)
perform-intend api (releases sql stmt) (c, log) v = (
  (release-IsValid sql stmt c log v).0,
  λ i. ((config_unchanged api 0 sql stmt c log v).1 i, release-admit sql stmt c log v i),
)
perform-intend api clears (c, log) v = (clear-IsValid c log v, refl)
perform-intend api (resets cfg) (c, log) v = (reset-IsValid cfg c log v, refl)

perform_all-intend_all :
    (api : Api) (os : List Operation) (s : Cache × Log)
    → IsValid s.0
    → (IsValid (perform_all api os s).0)
      × (view (perform_all api os s).0 ≡ intend_all os (view s.0))
unfolding perform_all intend_all
perform_all-intend_all api [] s v = (v, refl)
perform_all-intend_all api (o ∷ os) s v =
    let (v', e) = perform-intend api o s v in
    let (w, f) = perform_all-intend_all api os (perform api o s) v' in (w, f ∙ ap (intend_all os) e)

-- Whatever is done to a new cache, and whatever SQLite answers, its index and list agree and hold
-- what the specification holds.
pub create_refines :
    (api : Api) (cfg : Config) (os : List Operation) (log : Log)
    → (IsValid (perform_all api os (create cfg, log)).0)
      × (view (perform_all api os (create cfg, log)).0 ≡ intend_all os (cfg, []))
unfolding create
create_refines api cfg os log = perform_all-intend_all api os (create cfg, log) (create-IsValid cfg)
