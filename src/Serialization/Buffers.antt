-- ===== src/Serialization/Buffers.antt =====
-- What becomes of the buffers that an image is copied through.
use vsqlite.Base.{
  ℕ, ◌≡◌, ◌≢◌, ◌⊎◌, refl, Bool, true, false, Bool-cases, inl, inr, sym, ap, subst, bind, not, Text,
  List, [], ◌∷◌, ◌++◌, length, is_empty, M, ok, raise, Outcome, is_ok, ◌>>=◌, throw_if, arith,
  database_exception, ◌==◌, if◌then◌else◌,
}
use vsqlite.Sqlite.{sqlite_ok, non_null}
use vsqlite.Serialization.{
  ImageCall, ImageApi, Database, noted, get_handle, normalize_schema, serialization_supported,
  unavailable, ensure_serialization_available, copy_image, serialize, empty_image, hand_over,
  allocate, deserialize,
}

-- The buffers that SQLite has given, from its answers to the log.
abbrev pub given : ImageApi → List ImageCall → List ℕ
given api [] = []
given api (ImageCall.serialize_call h s f ∷ log) =
    non_null (api.serialize log h s f).0 ++ given api log
given api (ImageCall.malloc64 n ∷ log) = non_null (api.malloc64 log n) ++ given api log
given api (_ ∷ log) = given api log

-- The buffers that are freed: by `sqlite3_free`, and by a `sqlite3_deserialize` that fails, which
-- with SQLITE_DESERIALIZE_FREEONCLOSE frees its buffer before it returns.
abbrev pub freed : ImageApi → List ImageCall → List ℕ
freed api [] = []
freed api (ImageCall.free p ∷ log) = p ∷ freed api log
freed api (ImageCall.deserialize_call h s p image f ∷ log) =
    if api.deserialize log h s p image f == sqlite_ok then freed api log else p ∷ freed api log
freed api (_ ∷ log) = freed api log

ensured :
    (api : ImageApi) (d : Database)
    → serialization_supported api ≡ true
    → ensure_serialization_available api d ≡ (ok tt, d)
unfolding ensure_serialization_available
ensured api d h = ap (λ b. throw_if (not b) (database_exception unavailable) d) h

not_ensured :
    (api : ImageApi) (d : Database)
    → serialization_supported api ≡ false
    → ensure_serialization_available api d ≡ (raise (database_exception unavailable), d)
unfolding ensure_serialization_available
not_ensured api d h = ap (λ b. throw_if (not b) (database_exception unavailable) d) h

copy_image-freed :
    (api : ImageApi) (schema : Text) (flags handle : ℕ) (d : Database)
    → freed api d.log ≡ given api d.log
    → freed api (copy_image api schema flags handle d).1.log
      ≡ given api (copy_image api schema flags handle d).1.log
unfolding copy_image
copy_image-freed api schema flags handle d h = ground arith

read_image : ImageApi → Text → ℕ → M Database Text
read_image api schema flags = do handle ← get_handle; copy_image api schema flags handle

read_image-freed :
    (api : ImageApi) (schema : Text) (flags : ℕ) (d : Database)
    → freed api d.log ≡ given api d.log
    → freed api (read_image api schema flags d).1.log
      ≡ given api (read_image api schema flags d).1.log
unfolding read_image get_handle
read_image-freed api schema flags d h =
    ground (arith, copy_image-freed api schema flags d.handle d h)

-- Each buffer that `serialize` gets is freed once, whether it returns or throws.
pub serialize-freed :
    (api : ImageApi) (schema : Text) (flags : ℕ) (d : Database)
    → freed api d.log ≡ given api d.log
    → freed api (serialize api schema flags d).1.log
      ≡ given api (serialize api schema flags d).1.log
unfolding serialize read_image
serialize-freed api schema flags d h = elim (Bool-cases (serialization_supported api)) [
  | inl e ↦
      subst Balanced (ap after (sym (ensured api d e)))
        (read_image-freed api (normalize_schema schema) flags d h)
  | inr e ↦ subst Balanced (ap after (sym (not_ensured api d e))) h
]
  where
    after : Outcome (Unit {0}) × Database → Outcome Text × Database
    after r = bind r (λ _. read_image api (normalize_schema schema) flags)

    Balanced : Outcome Text × Database → Type 0
    Balanced r = freed api r.1.log ≡ given api r.1.log

abbrev pub Supported : ImageApi → Type 0
Supported api = serialization_supported api ≡ true

-- The ways of a buffer p that holds the image: if the connection is closed, p is never freed; if
-- `sqlite3_deserialize` fails, p is freed twice; if it succeeds, SQLite keeps p, and only then the
-- call returns.
abbrev pub Ways : ImageApi → ℕ → Database → Outcome (Unit {0}) × Database → Type 0
Ways api p d (r, d') =
    (given api d'.log ≡ p ∷ given api d.log)
    × (((d.handle ≡ 0) × (is_ok r ≡ false) × (freed api d'.log ≡ freed api d.log))
        ⊎ (((is_ok r ≡ false) × (freed api d'.log ≡ p ∷ p ∷ freed api d.log))
            ⊎ ((is_ok r ≡ true) × (freed api d'.log ≡ freed api d.log))))

hand_over-Ways :
    (api : ImageApi) (image schema : Text) (read_only : Bool) (p handle : ℕ) (d e : Database)
    → given api e.log ≡ p ∷ given api d.log
    → freed api e.log ≡ freed api d.log
    → Ways api p d (hand_over api image schema read_only p handle e)
unfolding hand_over
hand_over-Ways api image schema read_only p handle d e g f = ground arith

non_null_append : (p : ℕ) (ps : List ℕ) → p ≢ 0 → non_null p ++ ps ≡ p ∷ ps
non_null_append p ps h = ground arith

allocated :
    (api : ImageApi) (size : ℕ) (d : Database)
    → api.malloc64 d.log size ≢ 0
    → allocate api size d ≡ (ok (api.malloc64 d.log size), noted (ImageCall.malloc64 size) d)
unfolding allocate
allocated api size d h = ground arith

fill : ImageApi → Text → Text → Bool → ℕ → M Database (Unit {0})
fill api image schema read_only p = do
  handle ← get_handle
  hand_over api image schema read_only p handle

fill-Ways :
    (api : ImageApi) (image schema : Text) (read_only : Bool) (p : ℕ) (d e : Database)
    → d.handle ≡ e.handle
    → given api e.log ≡ p ∷ given api d.log
    → freed api e.log ≡ freed api d.log
    → Ways api p d (fill api image schema read_only p e)
unfolding fill get_handle
fill-Ways api image schema read_only p d e q g f =
    ground (arith, hand_over-Ways api image schema read_only p e.handle d e g f)

-- An image that is not empty, where SQLite has the functions and gives a buffer: it is never freed
-- if the connection is closed, freed twice if `sqlite3_deserialize` fails, and kept by SQLite if it
-- succeeds, and only then the call returns.
pub deserialize-freed :
    (api : ImageApi) (image schema : Text) (read_only : Bool) (d : Database)
    → serialization_supported api ≡ true
    → is_empty image ≡ false
    → api.malloc64 d.log (length image) ≢ 0
    → Ways api (api.malloc64 d.log (length image)) d (deserialize api image schema read_only d)
unfolding deserialize fill
deserialize-freed api image schema read_only d s i h =
    subst Good (sym (ap supported (ensured api d s))) (
      subst Good (sym (ap (λ b. full (throw_if b (database_exception empty_image) d)) i)) (
        subst Good (sym (ap filled (allocated api (length image) d h))) (
          fill-Ways api image (normalize_schema schema) read_only p d
            (noted (ImageCall.malloc64 (length image)) d) refl
            (non_null_append (api.malloc64 d.log (length image)) (given api d.log) h) refl)))
  where
    p : ℕ
    p = api.malloc64 d.log (length image)

    Good : Outcome (Unit {0}) × Database → Type 0
    Good = Ways api p d

    filled : Outcome ℕ × Database → Outcome (Unit {0}) × Database
    filled r = bind r (fill api image (normalize_schema schema) read_only)

    full : Outcome (Unit {0}) × Database → Outcome (Unit {0}) × Database
    full r = bind r (λ _ e. filled (allocate api (length image) e))

    supported : Outcome (Unit {0}) × Database → Outcome (Unit {0}) × Database
    supported r =
        bind r (λ _ e. full (throw_if (is_empty image) (database_exception empty_image) e))
