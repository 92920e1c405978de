-- ===== src/Symbols/Loading.antt =====
-- When the symbols are looked up.
use vsqlite.Base.{◌+◌, ◌≤◌, ◌≡◌, refl, ap, ◌∙◌, arith, Bool, List, [], ◌∷◌, Option, none, some}
use mathlib.Core.Option
use vsqlite.Session.{sessions_supported}
use vsqlite.Snapshot.{snapshots_supported}
use vsqlite.Serialization.{serialization_supported}
use vsqlite.Symbols.{
  initialised, store_session, store_snapshot, store_image, with_session, with_snapshot, with_image,
  Loader, Statics, SessionSymbols, SnapshotSymbols, ImageSymbols, Apis, Question, load_session,
  load_snapshot, load_image, session_symbols, snapshot_symbols, serialization_symbols, ask, ask_all,
  unasked,
}
use vsqlite.Symbols.Loads.{
  opens, look_ups, times, session-Loads, snapshot-Loads, image-Loads, known, stored, beside,
}

-- The module is opened once, and each of the three sets of symbols is looked up once.
pub record IsOnce (s : Statics) : Type 0 where
  pub opened : opens s.log ≡ times 1 s.module_handle
  pub looked : look_ups s.log ≤ times 8 s.session + times 3 s.snapshot + times 2 s.image

module _ (l : Loader) where
  session_symbols_at :
      (o : Option SessionSymbols) (s : Statics)
      → s.session ≡ o
      → IsOnce s
      → IsOnce (initialised o (load_session l s) store_session s).1
  session_symbols_at (some a) s e once = once
  session_symbols_at none s e once =
      let loads = session-Loads l s in
      record {
        opened = omega (arith, loads.opened, once.opened);
        looked = omega (
          arith,
          loads.looked,
          once.looked,
          ap (times 8) e,
          ap (times 3) loads.snapshot_kept,
          ap (times 2) loads.image_kept,
        );
      }

  snapshot_symbols_at :
      (o : Option SnapshotSymbols) (s : Statics)
      → s.snapshot ≡ o
      → IsOnce s
      → IsOnce (initialised o (load_snapshot l s) store_snapshot s).1
  snapshot_symbols_at (some a) s e once = once
  snapshot_symbols_at none s e once =
      let loads = snapshot-Loads l s in
      record {
        opened = omega (arith, loads.opened, once.opened);
        looked = omega (
          arith,
          loads.looked,
          once.looked,
          ap (times 3) e,
          ap (times 8) loads.session_kept,
          ap (times 2) loads.image_kept,
        );
      }

  serialization_symbols_at :
      (o : Option ImageSymbols) (s : Statics)
      → s.image ≡ o
      → IsOnce s
      → IsOnce (initialised o (load_image l s) store_image s).1
  serialization_symbols_at (some a) s e once = once
  serialization_symbols_at none s e once =
      let loads = image-Loads l s in
      record {
        opened = omega (arith, loads.opened, once.opened);
        looked = omega (
          arith,
          loads.looked,
          once.looked,
          ap (times 2) e,
          ap (times 8) loads.session_kept,
          ap (times 3) loads.snapshot_kept,
        );
      }

module _ (l : Loader) (apis : Apis) where
  ask-IsOnce : (q : Question) (s : Statics) → IsOnce s → IsOnce (ask l apis q s).1
  unfolding ask session_symbols snapshot_symbols serialization_symbols
  ask-IsOnce Question.sessions s o = session_symbols_at l s.session s refl o
  ask-IsOnce Question.snapshots s o = snapshot_symbols_at l s.snapshot s refl o
  ask-IsOnce Question.images s o = serialization_symbols_at l s.image s refl o

  ask_all-IsOnce : (qs : List Question) (s : Statics) → IsOnce s → IsOnce (ask_all l apis qs s)
  unfolding ask_all
  ask_all-IsOnce [] s o = o
  ask_all-IsOnce (q ∷ qs) s o = ask_all-IsOnce qs (ask l apis q s).1 (ask-IsOnce q s o)

  -- What is known of a question before it is asked.
  answered : Question → Statics → Option Bool
  answered Question.sessions s =
      Option.map (λ a. sessions_supported (with_session a apis.session)) s.session
  answered Question.snapshots s =
      Option.map (λ a. snapshots_supported (with_snapshot a apis.snapshot)) s.snapshot
  answered Question.images s =
      Option.map (λ a. serialization_supported (with_image a apis.image)) s.image

  ask_known :
      (q : Question) (s : Statics) (b : Bool) → answered q s ≡ some b → ask l apis q s ≡ (b, s)
  unfolding answered ask session_symbols snapshot_symbols serialization_symbols
  ask_known Question.sessions s b h = known s.session (load_session l s) store_session s _ b h
  ask_known Question.snapshots s b h = known s.snapshot (load_snapshot l s) store_snapshot s _ b h
  ask_known Question.images s b h = known s.image (load_image l s) store_image s _ b h

  answered-ask :
      (q : Question) (s : Statics) → answered q (ask l apis q s).1 ≡ some (ask l apis q s).0
  unfolding answered ask session_symbols snapshot_symbols serialization_symbols
  answered-ask Question.sessions s =
      ap (Option.map _)
        (stored (λ r. r.session) s.session (load_session l s) store_session s refl (λ a r. refl))
  answered-ask Question.snapshots s =
      ap (Option.map _) (
        stored (λ r. r.snapshot) s.snapshot (load_snapshot l s) store_snapshot s refl (λ a r. refl))
  answered-ask Question.images s =
      ap (Option.map _)
        (stored (λ r. r.image) s.image (load_image l s) store_image s refl (λ a r. refl))

  answered-kept :
      (q r : Question) (s : Statics) (b : Bool)
      → answered q s ≡ some b
      → answered q (ask l apis r s).1 ≡ some b
  unfolding answered ask session_symbols snapshot_symbols serialization_symbols
  answered-kept Question.sessions Question.sessions s b h =
      ap (λ x. answered Question.sessions x.1) (ask_known Question.sessions s b h) ∙ h
  answered-kept Question.sessions Question.snapshots s b h =
      ap (Option.map _) (
        beside (λ x. x.session) s.snapshot (load_snapshot l s) store_snapshot s
          (snapshot-Loads l s).session_kept (λ a x. refl))
      ∙ h
  answered-kept Question.sessions Question.images s b h =
      ap (Option.map _) (
        beside (λ x. x.session) s.image (load_image l s) store_image s
          (image-Loads l s).session_kept (λ a x. refl))
      ∙ h
  answered-kept Question.snapshots Question.sessions s b h =
      ap (Option.map _) (
        beside (λ x. x.snapshot) s.session (load_session l s) store_session s
          (session-Loads l s).snapshot_kept (λ a x. refl))
      ∙ h
  answered-kept Question.snapshots Question.snapshots s b h =
      ap (λ x. answered Question.snapshots x.1) (ask_known Question.snapshots s b h) ∙ h
  answered-kept Question.snapshots Question.images s b h =
      ap (Option.map _) (
        beside (λ x. x.snapshot) s.image (load_image l s) store_image s
          (image-Loads l s).snapshot_kept (λ a x. refl))
      ∙ h
  answered-kept Question.images Question.sessions s b h =
      ap (Option.map _) (
        beside (λ x. x.image) s.session (load_session l s) store_session s
          (session-Loads l s).image_kept (λ a x. refl))
      ∙ h
  answered-kept Question.images Question.snapshots s b h =
      ap (Option.map _) (
        beside (λ x. x.image) s.snapshot (load_snapshot l s) store_snapshot s
          (snapshot-Loads l s).image_kept (λ a x. refl))
      ∙ h
  answered-kept Question.images Question.images s b h =
      ap (λ x. answered Question.images x.1) (ask_known Question.images s b h) ∙ h

  answered-kept_all :
      (q : Question) (qs : List Question) (s : Statics) (b : Bool)
      → answered q s ≡ some b
      → answered q (ask_all l apis qs s) ≡ some b
  unfolding ask_all
  answered-kept_all q [] s b h = h
  answered-kept_all q (r ∷ qs) s b h =
      answered-kept_all q qs (ask l apis r s).1 b (answered-kept q r s b h)

-- However often and in what order it is asked what SQLite supports, also where the answers of the
-- loader change with time: the module is opened at most once and at most thirteen symbols are looked
-- up; and a question that is asked again gets the answer that it got before, without a call.
pub asked_again :
    (l : Loader) (apis : Apis) (qs rs : List Question) (q : Question)
    → let (b, s) = ask l apis q (ask_all l apis qs unasked) in
      let last = ask_all l apis rs s in
      (opens last.log ≤ 1) × (look_ups last.log ≤ 13) × (ask l apis q last ≡ (b, last))
asked_again l apis qs rs q =
    let s = (ask l apis q (ask_all l apis qs unasked)).1 in
    let last = ask_all l apis rs s in
    let start : IsOnce unasked = record { opened = refl; looked = omega arith } in
    let once =
      ask_all-IsOnce l apis rs s (
        ask-IsOnce l apis q (ask_all l apis qs unasked) (ask_all-IsOnce l apis qs unasked start)) in
    (
      ground (arith, once),
      ground (arith, once),
      ask_known l apis q last (ask l apis q (ask_all l apis qs unasked)).0 (
          answered-kept_all l apis q rs s (ask l apis q (ask_all l apis qs unasked)).0
            (answered-ask l apis q (ask_all l apis qs unasked))),
    )
