-- ===== src/Symbols/Addresses.antt =====
-- The addresses that a loader gives which answers the same at all times.
use vsqlite.Base.{
  ℕ, ◌≡◌, ◌≢◌, ◌⊎◌, inl, inr, arith, Text, List, [], ◌∷◌, codes, none, some, ◌==◌, if◌then◌else◌,
}
use vsqlite.Symbols.{
  Loader, Statics, SessionSymbols, SnapshotSymbols, ImageSymbols, Question, sqlite_module_handle,
  load_sqlite_symbol, load_session, load_snapshot, load_image,
}

-- The functions of SQLite that a question is about.
abbrev pub names : Question → List Text
names Question.sessions =
    codes "sqlite3session_create"
    ∷ codes "sqlite3session_delete"
    ∷ codes "sqlite3session_attach"
    ∷ codes "sqlite3session_enable"
    ∷ codes "sqlite3session_indirect"
    ∷ codes "sqlite3session_changeset"
    ∷ codes "sqlite3session_patchset"
    ∷ codes "sqlite3changeset_apply"
    ∷ []
names Question.snapshots =
    codes "sqlite3_snapshot_get"
    ∷ codes "sqlite3_snapshot_open"
    ∷ codes "sqlite3_snapshot_free"
    ∷ []
names Question.images = codes "sqlite3_serialize" ∷ codes "sqlite3_deserialize" ∷ []

abbrev pub AllFound : (Text → ℕ) → List Text → Type 0
AllFound f [] = Unit {0}
AllFound f (n ∷ ns) = (f n ≢ 0) × AllFound f ns

module _ (h : ℕ) (f : ℕ → Text → ℕ) where
  -- A loader that gives one module and one address for each name.
  abbrev pub constant : Loader
  constant = record { dlopen = λ log. h; dlsym = λ log. f }

  unfoldable pub address : Text → ℕ
  address name = if h == 0 then 0 else f h name

  abbrev pub Known : Statics → Type 0
  Known s = (s.module_handle ≡ none) ⊎ (s.module_handle ≡ some h)

  symbol-Known :
      (name : Text) (s : Statics)
      → Known s
      → ((load_sqlite_symbol constant name s).0 ≡ address name)
        × Known (load_sqlite_symbol constant name s).1
  unfolding load_sqlite_symbol sqlite_module_handle address
  symbol-Known name s (inl e) = ground arith
  symbol-Known name s (inr e) = ground arith

  abbrev pub of_session : SessionSymbols
  of_session = record {
    create = address (codes "sqlite3session_create");
    destroy = address (codes "sqlite3session_delete");
    attach = address (codes "sqlite3session_attach");
    enable = address (codes "sqlite3session_enable");
    indirect = address (codes "sqlite3session_indirect");
    changeset = address (codes "sqlite3session_changeset");
    patchset = address (codes "sqlite3session_patchset");
    apply_changeset = address (codes "sqlite3changeset_apply");
  }

  abbrev pub of_snapshot : SnapshotSymbols
  of_snapshot = record {
    get = address (codes "sqlite3_snapshot_get");
    open_at = address (codes "sqlite3_snapshot_open");
    free = address (codes "sqlite3_snapshot_free");
  }

  abbrev pub of_image : ImageSymbols
  of_image = record {
    serialize = address (codes "sqlite3_serialize");
    deserialize = address (codes "sqlite3_deserialize");
  }

  pub image-Known :
      (s : Statics)
      → Known s
      → ((load_image constant s).0 ≡ of_image) × Known (load_image constant s).1
  unfolding load_image
  image-Known s k =
      let a = symbol-Known (codes "sqlite3_serialize") s k in
      let b = symbol-Known (codes "sqlite3_deserialize") _ a.1 in
      ((λ i. record { serialize = a.0 i; deserialize = b.0 i }), b.1)

  pub snapshot-Known :
      (s : Statics)
      → Known s
      → ((load_snapshot constant s).0 ≡ of_snapshot) × Known (load_snapshot constant s).1
  unfolding load_snapshot
  snapshot-Known s k =
      let a = symbol-Known (codes "sqlite3_snapshot_get") s k in
      let b = symbol-Known (codes "sqlite3_snapshot_open") _ a.1 in
      let c = symbol-Known (codes "sqlite3_snapshot_free") _ b.1 in
      ((λ i. record { get = a.0 i; open_at = b.0 i; free = c.0 i }), c.1)

  pub session-Known :
      (s : Statics)
      → Known s
      → ((load_session constant s).0 ≡ of_session) × Known (load_session constant s).1
  unfolding load_session
  session-Known s k =
      let a = symbol-Known (codes "sqlite3session_create") s k in
      let b = symbol-Known (codes "sqlite3session_delete") _ a.1 in
      let c = symbol-Known (codes "sqlite3session_attach") _ b.1 in
      let d = symbol-Known (codes "sqlite3session_enable") _ c.1 in
      let e = symbol-Known (codes "sqlite3session_indirect") _ d.1 in
      let g = symbol-Known (codes "sqlite3session_changeset") _ e.1 in
      let p = symbol-Known (codes "sqlite3session_patchset") _ g.1 in
      let q = symbol-Known (codes "sqlite3changeset_apply") _ p.1 in
      (
        (λ i. record {
          create = a.0 i;
          destroy = b.0 i;
          attach = c.0 i;
          enable = d.0 i;
          indirect = e.0 i;
          changeset = g.0 i;
          patchset = p.0 i;
          apply_changeset = q.0 i;
        }),
        q.1,
      )
