-- ===== src/Symbols/Loads.antt =====
-- What a look-up of symbols changes.
use vsqlite.Base.{ℕ, ◌+◌, ◌≤◌, ◌≡◌, refl, ◌∙◌, arith, Bool, Text, List, [], ◌∷◌, Option, none, some}
use mathlib.Core.Option
use vsqlite.Symbols.{
  initialised, LoaderCall, Loader, Statics, sqlite_module_handle, load_sqlite_symbol, load_session,
  load_snapshot, load_image,
}

-- How often the module was opened, and a symbol looked up.
abbrev pub opens : List LoaderCall → ℕ
opens [] = 0
opens (LoaderCall.dlopen ∷ log) = opens log + 1
opens (LoaderCall.dlsym h name ∷ log) = opens log

abbrev pub look_ups : List LoaderCall → ℕ
look_ups [] = 0
look_ups (LoaderCall.dlopen ∷ log) = look_ups log
look_ups (LoaderCall.dlsym h name ∷ log) = look_ups log + 1

abbrev pub times {ℓ} : {A : Type ℓ} → ℕ → Option A → ℕ
times n none = 0
times n (some a) = n

-- At most n symbols are looked up, and nothing else is loaded.
pub record Loads (n : ℕ) (s r : Statics) : Type 0 where
  pub session_kept : r.session ≡ s.session
  pub snapshot_kept : r.snapshot ≡ s.snapshot
  pub image_kept : r.image ≡ s.image
  pub opened : opens r.log + times 1 s.module_handle ≡ opens s.log + times 1 r.module_handle
  pub looked : look_ups r.log ≤ look_ups s.log + n

Loads-trans : {n m : ℕ} {s r q : Statics} → Loads n s r → Loads m r q → Loads (n + m) s q
Loads-trans a b = record {
  session_kept = b.session_kept ∙ a.session_kept;
  snapshot_kept = b.snapshot_kept ∙ a.snapshot_kept;
  image_kept = b.image_kept ∙ a.image_kept;
  opened = omega (arith, a.opened, b.opened);
  looked = omega (arith, a.looked, b.looked);
}

module _ (l : Loader) where
  symbol-Loads : (name : Text) (s : Statics) → Loads 1 s (load_sqlite_symbol l name s).1
  unfolding load_sqlite_symbol sqlite_module_handle
  symbol-Loads name s = ground arith

  pub session-Loads : (s : Statics) → Loads 8 s (load_session l s).1
  unfolding load_session
  session-Loads s =
      Loads-trans
        (Loads-trans
          (Loads-trans
            (Loads-trans
              (Loads-trans
                (Loads-trans (Loads-trans (symbol-Loads _ _) (symbol-Loads _ _)) (symbol-Loads _ _))
                (symbol-Loads _ _))
              (symbol-Loads _ _))
            (symbol-Loads _ _))
          (symbol-Loads _ _))
        (symbol-Loads _ _)

  pub snapshot-Loads : (s : Statics) → Loads 3 s (load_snapshot l s).1
  unfolding load_snapshot
  snapshot-Loads s =
      Loads-trans (Loads-trans (symbol-Loads _ _) (symbol-Loads _ _)) (symbol-Loads _ _)

  pub image-Loads : (s : Statics) → Loads 2 s (load_image l s).1
  unfolding load_image
  image-Loads s = Loads-trans (symbol-Loads _ _) (symbol-Loads _ _)

pub known {ℓ} :
    {A : Type ℓ} (o : Option A) (loaded : A × Statics) (store : A → Statics → Statics) (s : Statics)
    (f : A → Bool) (b : Bool)
    → Option.map f o ≡ some b
    → let r : Bool × Statics =
        (f (initialised o loaded store s).0, (initialised o loaded store s).1) in
      r ≡ (b, s)
known (some a) loaded store s f b h = ground arith
known none loaded store s f b h = absurd (ground arith)

pub stored {ℓ} :
    {A : Type ℓ} (get : Statics → Option A) (o : Option A) (loaded : A × Statics)
    (store : A → Statics → Statics) (s : Statics)
    → get s ≡ o
    → ((a : A) (r : Statics) → get (store a r) ≡ some a)
    → get (initialised o loaded store s).1 ≡ some (initialised o loaded store s).0
stored get (some a) loaded store s e h = e
stored get none (a, r) store s e h = h a r

pub beside {ℓ κ} :
    {A : Type ℓ} {B : Type κ} (get : Statics → Option B) (o : Option A) (loaded : A × Statics)
    (store : A → Statics → Statics) (s : Statics)
    → get loaded.1 ≡ get s
    → ((a : A) (r : Statics) → get (store a r) ≡ get r)
    → get (initialised o loaded store s).1 ≡ get s
beside get (some a) loaded store s e h = refl
beside get none (a, r) store s e h = h a r ∙ e
