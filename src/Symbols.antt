-- ===== src/Symbols.antt =====
-- dynamic_symbols.hpp, and the functions of session.cpp, snapshot.cpp and serialization.cpp that look
-- up what SQLite offers at run time. The loader of the platform is the parameter `Loader`; a pointer
-- is a number, 0 for a null pointer. The static variables are the state.
pub mod Loads
pub mod Loading
pub mod Addresses
pub mod Support
use vsqlite.Base.{ℕ, Bool, not, Text, List, [], ◌∷◌, codes, Option, none, some, ◌==◌, if◌then◌else◌}
use vsqlite.Session.{SessionApi, sessions_supported}
use vsqlite.Snapshot.{SnapshotApi, snapshots_supported}
use vsqlite.Serialization.{ImageApi, serialization_supported}

pub data LoaderCall : Type 0 where
  dlopen : LoaderCall
  dlsym : ℕ → Text → LoaderCall

-- What `dlopen` and `dlsym` answer, which may change with time.
pub record Loader : Type 0 where
  pub dlopen : List LoaderCall → ℕ
  pub dlsym : List LoaderCall → ℕ → Text → ℕ

pub record SessionSymbols : Type 0 where
  pub create : ℕ
  pub destroy : ℕ
  pub attach : ℕ
  pub enable : ℕ
  pub indirect : ℕ
  pub changeset : ℕ
  pub patchset : ℕ
  pub apply_changeset : ℕ

pub record SnapshotSymbols : Type 0 where
  pub get : ℕ
  pub open_at : ℕ
  pub free : ℕ

pub record ImageSymbols : Type 0 where
  pub serialize : ℕ
  pub deserialize : ℕ

-- The static variables of the four functions, `none` before the first call, and the calls made.
pub record Statics : Type 0 where
  pub module_handle : Option ℕ
  pub session : Option SessionSymbols
  pub snapshot : Option SnapshotSymbols
  pub image : Option ImageSymbols
  pub log : List LoaderCall

abbrev called : LoaderCall → Statics → Statics
called call s = record s { log = call ∷ s.log }

-- A static variable, which is set where its function is called first.
abbrev pub initialised {ℓ} :
    {A : Type ℓ} → Option A → A × Statics → (A → Statics → Statics) → Statics → A × Statics
initialised (some a) loaded store s = (a, s)
initialised none (a, s') store s = (a, store a s')

abbrev pub store_session : SessionSymbols → Statics → Statics
store_session a s = record s { session = some a }

abbrev pub store_snapshot : SnapshotSymbols → Statics → Statics
store_snapshot a s = record s { snapshot = some a }

abbrev pub store_image : ImageSymbols → Statics → Statics
store_image a s = record s { image = some a }

module _ (l : Loader) where
  unfoldable pub sqlite_module_handle : Statics → ℕ × Statics
  sqlite_module_handle s =
      let h = l.dlopen s.log in
      elim s.module_handle [
        | some handle ↦ (handle, s)
        | none ↦ (h, record (called LoaderCall.dlopen s) { module_handle = some h })
      ]

  unfoldable pub load_sqlite_symbol : Text → Statics → ℕ × Statics
  unfolding sqlite_module_handle
  load_sqlite_symbol name s0 =
      let (handle, s) = sqlite_module_handle s0 in
      if handle == 0
      then (0, s)
      else (l.dlsym s.log handle name, called (LoaderCall.dlsym handle name) s)

  unfoldable pub load_session : Statics → SessionSymbols × Statics
  unfolding load_sqlite_symbol
  load_session s0 =
      let (create, s1) = load_sqlite_symbol (codes "sqlite3session_create") s0 in
      let (destroy, s2) = load_sqlite_symbol (codes "sqlite3session_delete") s1 in
      let (attach, s3) = load_sqlite_symbol (codes "sqlite3session_attach") s2 in
      let (enable, s4) = load_sqlite_symbol (codes "sqlite3session_enable") s3 in
      let (indirect, s5) = load_sqlite_symbol (codes "sqlite3session_indirect") s4 in
      let (changeset, s6) = load_sqlite_symbol (codes "sqlite3session_changeset") s5 in
      let (patchset, s7) = load_sqlite_symbol (codes "sqlite3session_patchset") s6 in
      let (apply_changeset, s8) = load_sqlite_symbol (codes "sqlite3changeset_apply") s7 in
      (
        record {
          create = create;
          destroy = destroy;
          attach = attach;
          enable = enable;
          indirect = indirect;
          changeset = changeset;
          patchset = patchset;
          apply_changeset = apply_changeset;
        },
        s8,
      )

  unfoldable pub load_snapshot : Statics → SnapshotSymbols × Statics
  unfolding load_sqlite_symbol
  load_snapshot s0 =
      let (get, s1) = load_sqlite_symbol (codes "sqlite3_snapshot_get") s0 in
      let (open_at, s2) = load_sqlite_symbol (codes "sqlite3_snapshot_open") s1 in
      let (free, s3) = load_sqlite_symbol (codes "sqlite3_snapshot_free") s2 in
      (record { get = get; open_at = open_at; free = free }, s3)

  unfoldable pub load_image : Statics → ImageSymbols × Statics
  unfolding load_sqlite_symbol
  load_image s0 =
      let (serialize, s1) = load_sqlite_symbol (codes "sqlite3_serialize") s0 in
      let (deserialize, s2) = load_sqlite_symbol (codes "sqlite3_deserialize") s1 in
      (record { serialize = serialize; deserialize = deserialize }, s2)

  unfoldable pub session_symbols : Statics → SessionSymbols × Statics
  unfolding load_session
  session_symbols s = initialised s.session (load_session s) store_session s

  unfoldable pub snapshot_symbols : Statics → SnapshotSymbols × Statics
  unfolding load_snapshot
  snapshot_symbols s = initialised s.snapshot (load_snapshot s) store_snapshot s

  unfoldable pub serialization_symbols : Statics → ImageSymbols × Statics
  unfolding load_image
  serialization_symbols s = initialised s.image (load_image s) store_image s

-- What the other modules are given of what was found.
abbrev found : ℕ → Bool
found p = not (p == 0)

abbrev pub with_session : SessionSymbols → SessionApi → SessionApi
with_session a api = record api {
  has_create = found a.create;
  has_destroy = found a.destroy;
  has_attach = found a.attach;
  has_enable = found a.enable;
  has_indirect = found a.indirect;
  has_changeset = found a.changeset;
  has_patchset = found a.patchset;
  has_apply = found a.apply_changeset;
}

abbrev pub with_snapshot : SnapshotSymbols → SnapshotApi → SnapshotApi
with_snapshot a api = record api {
  has_get = found a.get;
  has_open = found a.open_at;
  has_free = found a.free;
}

abbrev pub with_image : ImageSymbols → ImageApi → ImageApi
with_image a api = record api {
  has_serialize = found a.serialize;
  has_deserialize = found a.deserialize;
}

-- The questions `sessions_supported`, `snapshots_supported` and `serialization_supported`.
pub data Question : Type 0 where
  sessions snapshots images : Question

-- What SQLite answers once its functions are found.
pub record Apis : Type 0 where
  pub session : SessionApi
  pub snapshot : SnapshotApi
  pub image : ImageApi

unfoldable pub ask : Loader → Apis → Question → Statics → Bool × Statics
unfolding session_symbols snapshot_symbols serialization_symbols sessions_supported
    snapshots_supported
ask l apis Question.sessions s =
    let (a, s') = session_symbols l s in (sessions_supported (with_session a apis.session), s')
ask l apis Question.snapshots s =
    let (a, s') = snapshot_symbols l s in (snapshots_supported (with_snapshot a apis.snapshot), s')
ask l apis Question.images s =
    let (a, s') = serialization_symbols l s in
    (serialization_supported (with_image a apis.image), s')

unfoldable pub ask_all : Loader → Apis → List Question → Statics → Statics
unfolding ask
ask_all l apis [] s = s
ask_all l apis (q ∷ qs) s = ask_all l apis qs (ask l apis q s).1

abbrev pub unasked : Statics
unasked = record { module_handle = none; session = none; snapshot = none; image = none; log = [] }
