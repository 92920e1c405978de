-- ===== src/Tests/Copying.antt =====
-- The theorems on backups and on the threading mode at concrete inputs.
use vsqlite.Base.{ℕ, pos, ◌≡◌, ◌⊎◌, refl, true, false, [], ◌∷◌, ok, is_ok, arith}
use vsqlite.Backup.{Backup, BackupApi, finished}
use vsqlite.Backup
use vsqlite.Threading.{ThreadingApi, ThreadingMode}
use vsqlite.Threading

-- A step copies the pages it is asked for; `finish` reports the code that it is made for.
abbrev copying : ℕ → BackupApi
copying code = record {
  init = λ log to from. 9;
  step = λ log p n. 0;
  finish = λ log p. code;
  errmsg = λ log h. [];
  errcode = λ log h. 0;
}

abbrev under_way : Backup
under_way = record { backup = 9; conn_to = 1; log = [] }

destroy_frees_example :
    let c = Backup.steps (copying 0) (pos 5 ∷ []) under_way in
    let f = Backup.finish (copying 0) c in
    ((Backup.destroy (copying 0) c).0 ≡ ok tt)
    × (finished (Backup.destroy (copying 0) c).1.log ≡ 9 ∷ [])
    × (((is_ok f.0 ≡ false) × (finished (Backup.destroy (copying 0) f.1).1.log ≡ 9 ∷ 9 ∷ []))
        ⊎ ((f.1.backup ≡ 0)
            × (is_ok (Backup.step (copying 0) (pos 1) f.1).0 ≡ false)
            × (finished (Backup.destroy (copying 0) f.1).1.log ≡ 9 ∷ [])))
destroy_frees_example =
    Backup.destroy_frees (copying 0) (pos 5 ∷ []) (pos 1) under_way (omega arith)

abbrev accepting : ThreadingApi
accepting = record { config = λ log flag. 0; initialize = λ log. 0 }

configure_once_example :
    let u =
      (Threading.configure_threading accepting ThreadingMode.multi_thread Threading.initial).1 in
    (Threading.current_threading_mode u ≡ ThreadingMode.multi_thread)
    × (u.threading_locked ≡ true)
    × (Threading.configure_all accepting (ThreadingMode.serialized ∷ []) u ≡ u)
    × ((Threading.configure_threading accepting ThreadingMode.serialized u).0 ≡ false)
unfolding Threading.configure_threading Threading.initial
configure_once_example =
    Threading.configure_once accepting ThreadingMode.multi_thread ThreadingMode.serialized
      (ThreadingMode.serialized ∷ []) Threading.initial refl
