-- ===== src/Threading.antt =====
-- threading.hpp and threading.cpp: the threading mode of SQLite, which is set once for a process.
-- The mutex is held by `configure_threading` throughout.
use vsqlite.Base.{ℕ, ◌≡◌, refl, Bool, true, false, List, [], ◌∷◌, arith, ◌==◌, if◌then◌else◌}
use vsqlite.Sqlite.{sqlite_ok}

pub data ThreadingMode : Type 0 where
  single_thread multi_thread serialized : ThreadingMode

-- `==` on the enumeration.
abbrev pub same_mode : ThreadingMode → ThreadingMode → Bool
same_mode ThreadingMode.single_thread ThreadingMode.single_thread = true
same_mode ThreadingMode.multi_thread ThreadingMode.multi_thread = true
same_mode ThreadingMode.serialized ThreadingMode.serialized = true
same_mode _ _ = false

pub data ThreadingCall : Type 0 where
  shutdown : ThreadingCall
  config : ℕ → ThreadingCall
  initialize : ThreadingCall

-- The codes that `sqlite3_config` and `sqlite3_initialize` give.
pub record ThreadingApi : Type 0 where
  pub config : List ThreadingCall → ℕ → ℕ
  pub initialize : List ThreadingCall → ℕ

-- The globals of the file.
pub record Threading : Type 0 where
  pub configured_mode : ThreadingMode
  pub threading_locked : Bool
  pub log : List ThreadingCall

unfoldable pub initial : Threading
initial = record { configured_mode = ThreadingMode.serialized; threading_locked = false; log = [] }

-- SQLITE_CONFIG_SINGLETHREAD, SQLITE_CONFIG_MULTITHREAD and SQLITE_CONFIG_SERIALIZED.
abbrev pub mode_flag : ThreadingMode → ℕ
mode_flag ThreadingMode.single_thread = 1
mode_flag ThreadingMode.multi_thread = 2
mode_flag ThreadingMode.serialized = 3

unfoldable pub configure_threading : ThreadingApi → ThreadingMode → Threading → Bool × Threading
configure_threading api mode t =
    let flag = mode_flag mode in
    let stopped = ThreadingCall.shutdown ∷ t.log in
    let configured = ThreadingCall.config flag ∷ stopped in
    let started = ThreadingCall.initialize ∷ configured in
    if t.threading_locked
    then (same_mode t.configured_mode mode, t)
    else if api.config stopped flag == sqlite_ok
    then (if api.initialize configured == sqlite_ok
        then (true, record t { configured_mode = mode; threading_locked = true; log = started })
        else (false, record t { log = started }))
    else (false, record t { log = started })

pub current_threading_mode : Threading → ThreadingMode
current_threading_mode t = t.configured_mode

unfoldable pub configure_all : ThreadingApi → List ThreadingMode → Threading → Threading
configure_all api [] t = t
configure_all api (m ∷ ms) t = configure_all api ms (configure_threading api m t).1

locked_for_good :
    (api : ThreadingApi) (ms : List ThreadingMode) (t : Threading)
    → t.threading_locked ≡ true
    → configure_all api ms t ≡ t
unfolding configure_all configure_threading
locked_for_good api [] t h = refl
locked_for_good api (m ∷ ms) t h = ground (arith, locked_for_good api ms t)

-- Once a mode has been configured, no later call of any mode changes it or calls SQLite again, and a
-- later call succeeds exactly if it asks for the mode that is set.
pub configure_once :
    (api : ThreadingApi) (mode later : ThreadingMode) (ms : List ThreadingMode) (t : Threading)
    → (configure_threading api mode t).0 ≡ true
    → let u = (configure_threading api mode t).1 in
      (current_threading_mode u ≡ mode)
      × (u.threading_locked ≡ true)
      × (configure_all api ms u ≡ u)
      × ((configure_threading api later u).0 ≡ same_mode mode later)
unfolding configure_threading current_threading_mode
configure_once api mode later ms t h =
    ground (arith, locked_for_good api ms (configure_threading api mode t).1)
