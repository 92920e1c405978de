-- ===== src/Symbols/Support.antt =====
-- What is supported, where the loader gives the same answers at all times.
use vsqlite.Base.{
  ℕ, ◌≡◌, ◌≢◌, ◌⊎◌, ◌↔◌, inl, inr, refl, sym, ap, subst, ◌∙◌, arith, Bool, true, Text, List, [],
  ◌∷◌, Option, none, some,
}
use vsqlite.Session.{sessions_supported}
use vsqlite.Snapshot.{snapshots_supported}
use vsqlite.Serialization.{serialization_supported}
use vsqlite.Symbols.{
  Statics, Apis, Question, initialised, store_session, store_snapshot, store_image, with_session,
  with_snapshot, with_image, load_session, load_snapshot, load_image, session_symbols,
  snapshot_symbols, serialization_symbols, ask, ask_all, unasked,
}
use vsqlite.Symbols.Loads.{session-Loads, snapshot-Loads, image-Loads}
use vsqlite.Symbols.Addresses.{
  names, AllFound, constant, address, Known, of_session, of_snapshot, of_image, session-Known,
  snapshot-Known, image-Known,
}

-- What holds before a static variable is loaded, and after, holds in any case.
initialised-in {ℓ κ} :
    {A : Type ℓ} (P : Statics → Type κ) (o : Option A) (loaded : A × Statics)
    (store : A → Statics → Statics) (s : Statics)
    → P s
    → P (store loaded.0 loaded.1)
    → P (initialised o loaded store s).1
initialised-in P (some a) loaded store s p q = p
initialised-in P none (a, r) store s p q = q

initialised-value {ℓ} :
    {A : Type ℓ} (o : Option A) (loaded : A × Statics) (store : A → Statics → Statics) (s : Statics)
    (x : A)
    → (o ≡ none) ⊎ (o ≡ some x)
    → loaded.0 ≡ x
    → (initialised o loaded store s).0 ≡ x
initialised-value (some a) loaded store s x (inl e) h = absurd (cc)
initialised-value (some a) loaded store s x (inr e) h = ground arith
initialised-value none (a, r) store s x e h = h

module _ (h : ℕ) (f : ℕ → Text → ℕ) where
  -- What is loaded is what the loader has.
  abbrev Exact {ℓ} : {A : Type ℓ} → A → Option A → Type ℓ
  Exact x o = (o ≡ none) ⊎ (o ≡ some x)

  record IsExact (s : Statics) : Type 0 where
    handle_known : Known h f s
    session_exact : Exact (of_session h f) s.session
    snapshot_exact : Exact (of_snapshot h f) s.snapshot
    image_exact : Exact (of_image h f) s.image

  ask-IsExact :
      (apis : Apis) (q : Question) (s : Statics)
      → IsExact s
      → IsExact (ask (constant h f) apis q s).1
  unfolding ask session_symbols snapshot_symbols serialization_symbols
  ask-IsExact apis Question.sessions s b =
      let (e, k) = session-Known h f s b.handle_known in
      let loads = session-Loads (constant h f) s in
      initialised-in IsExact s.session (load_session (constant h f) s) store_session s b (record {
        handle_known = k;
        session_exact = inr (ap some e);
        snapshot_exact = subst (Exact (of_snapshot h f)) (sym loads.snapshot_kept) b.snapshot_exact;
        image_exact = subst (Exact (of_image h f)) (sym loads.image_kept) b.image_exact;
      })
  ask-IsExact apis Question.snapshots s b =
      let (e, k) = snapshot-Known h f s b.handle_known in
      let loads = snapshot-Loads (constant h f) s in
      initialised-in IsExact s.snapshot (load_snapshot (constant h f) s) store_snapshot s b
        (record {
          handle_known = k;
          session_exact = subst (Exact (of_session h f)) (sym loads.session_kept) b.session_exact;
          snapshot_exact = inr (ap some e);
          image_exact = subst (Exact (of_image h f)) (sym loads.image_kept) b.image_exact;
        })
  ask-IsExact apis Question.images s b =
      let (e, k) = image-Known h f s b.handle_known in
      let loads = image-Loads (constant h f) s in
      initialised-in IsExact s.image (load_image (constant h f) s) store_image s b (record {
        handle_known = k;
        session_exact = subst (Exact (of_session h f)) (sym loads.session_kept) b.session_exact;
        snapshot_exact = subst (Exact (of_snapshot h f)) (sym loads.snapshot_kept) b.snapshot_exact;
        image_exact = inr (ap some e);
      })

  ask_all-IsExact :
      (apis : Apis) (qs : List Question) (s : Statics)
      → IsExact s
      → IsExact (ask_all (constant h f) apis qs s)
  unfolding ask_all
  ask_all-IsExact apis [] s b = b
  ask_all-IsExact apis (q ∷ qs) s b =
      ask_all-IsExact apis qs (ask (constant h f) apis q s).1 (ask-IsExact apis q s b)

  -- The answer for symbols that are what the loader has.
  answer : Apis → Question → Bool
  answer apis Question.sessions = sessions_supported (with_session (of_session h f) apis.session)
  answer apis Question.snapshots =
      snapshots_supported (with_snapshot (of_snapshot h f) apis.snapshot)
  answer apis Question.images = serialization_supported (with_image (of_image h f) apis.image)

  ask-answer :
      (apis : Apis) (q : Question) (s : Statics)
      → IsExact s
      → (ask (constant h f) apis q s).0 ≡ answer apis q
  unfolding ask session_symbols snapshot_symbols serialization_symbols answer
  ask-answer apis Question.sessions s b =
      ap (λ a. sessions_supported (with_session a apis.session))
        (initialised-value s.session (load_session (constant h f) s) store_session s
          (of_session h f) b.session_exact (session-Known h f s b.handle_known).0)
  ask-answer apis Question.snapshots s b =
      ap (λ a. snapshots_supported (with_snapshot a apis.snapshot))
        (initialised-value s.snapshot (load_snapshot (constant h f) s) store_snapshot s
          (of_snapshot h f) b.snapshot_exact (snapshot-Known h f s b.handle_known).0)
  ask-answer apis Question.images s b =
      ap (λ a. serialization_supported (with_image a apis.image))
        (initialised-value s.image (load_image (constant h f) s) store_image s (of_image h f)
          b.image_exact (image-Known h f s b.handle_known).0)

  answer_iff :
      (apis : Apis) (q : Question) → (answer apis q ≡ true) ↔ ((h ≢ 0) × AllFound (f h) (names q))
  unfolding answer address sessions_supported snapshots_supported
  answer_iff apis Question.sessions = (λ e. ground arith, λ e. ground arith)
  answer_iff apis Question.snapshots = (λ e. ground arith, λ e. ground arith)
  answer_iff apis Question.images = (λ e. ground arith, λ e. ground arith)

-- Where the loader has one module, or none, and one address for each name, a question is answered by
-- true exactly if there is a module and it has each function that the question is about, whatever was
-- asked before.
pub supported_iff :
    (h : ℕ) (f : ℕ → Text → ℕ) (apis : Apis) (qs : List Question) (q : Question)
    → ((ask (constant h f) apis q (ask_all (constant h f) apis qs unasked)).0 ≡ true)
      ↔ ((h ≢ 0) × AllFound (f h) (names q))
supported_iff h f apis qs q =
    let start : IsExact h f unasked = record {
      handle_known = inl refl;
      session_exact = inl refl;
      snapshot_exact = inl refl;
      image_exact = inl refl;
    } in
    let same =
      ask-answer h f apis q (ask_all (constant h f) apis qs unasked)
        (ask_all-IsExact h f apis qs unasked start) in
    let (only, enough) = answer_iff h f apis q in
    ((λ e. only (sym same ∙ e)), λ found. same ∙ enough found)
