-- ===== src/Serialization.antt =====
-- serialization.hpp and serialization.cpp. The functions of SQLite, which are looked up at run time,
-- are the parameter `ImageApi`; a connection enters by its handle, 0 where it is closed.
pub mod Buffers
use vsqlite.Base.{
  ℕ, ◌+◌, ◌≡◌, ◌≢◌, ◌⊎◌, refl, Bool, true, false, Bool-cases, inl, inr, sym, ap, subst, bind, not,
  ◌&&◌, Text, List, [], ◌∷◌, ◌++◌, codes, length, is_empty, M, ok, raise, Outcome, is_ok, ◌>>=◌,
  ◌>>◌, pure, throw_if, arith, database_exception, exception_code, ◌==◌, if◌then◌else◌,
}
use vsqlite.Sqlite.{sqlite_ok, non_null}
use vsqlite.Connection.{not_open}

-- A buffer goes by its address.
pub data ImageCall : Type 0 where
  serialize_call : ℕ → Text → ℕ → ImageCall
  malloc64 : ℕ → ImageCall
  free : ℕ → ImageCall
  deserialize_call : ℕ → Text → ℕ → Text → ℕ → ImageCall

pub record ImageApi : Type 0 where
  pub has_serialize : Bool
  pub has_deserialize : Bool
  pub serialize : List ImageCall → ℕ → Text → ℕ → ℕ × Text
  pub malloc64 : List ImageCall → ℕ → ℕ
  pub deserialize : List ImageCall → ℕ → Text → ℕ → Text → ℕ → ℕ
  pub errmsg : List ImageCall → ℕ → Text

pub record Database : Type 0 where
  pub handle : ℕ
  pub log : List ImageCall

abbrev pub noted : ImageCall → Database → Database
noted call d = record d { log = call ∷ d.log }

unfoldable pub get_handle : M Database ℕ
get_handle d = if d.handle == 0 then (raise (database_exception not_open), d) else (ok d.handle, d)

abbrev pub normalize_schema : Text → Text
normalize_schema schema = if is_empty schema then codes "main" else schema

abbrev pub serialization_supported : ImageApi → Bool
serialization_supported api = api.has_serialize && api.has_deserialize

abbrev pub unavailable : Text
unavailable = codes "SQLite serialization APIs are not available in this build."

unfoldable pub ensure_serialization_available : ImageApi → M Database (Unit {0})
ensure_serialization_available api =
    throw_if (not (serialization_supported api)) (database_exception unavailable)

abbrev pub serialize_failed : Text
serialize_failed = codes "Failed to serialize database image."

-- The call of `sqlite3_serialize`, and the copy of what it gives.
unfoldable pub copy_image : ImageApi → Text → ℕ → ℕ → M Database Text
copy_image api schema flags handle d =
    let (blob, image) = api.serialize d.log handle schema flags in
    let d' = noted (ImageCall.serialize_call handle schema flags) d in
    if blob == 0
    then (raise (database_exception serialize_failed), d')
    else (ok image, noted (ImageCall.free blob) d')

unfoldable pub serialize : ImageApi → Text → ℕ → M Database Text
unfolding ensure_serialization_available get_handle copy_image
serialize api schema flags = do
  ensure_serialization_available api
  handle ← get_handle
  copy_image api (normalize_schema schema) flags handle

abbrev pub empty_image : Text
empty_image = codes "Serialized database image is empty."

abbrev pub no_buffer : Text
no_buffer = codes "Failed to allocate buffer for sqlite3_deserialize."

-- SQLITE_DESERIALIZE_FREEONCLOSE, with SQLITE_DESERIALIZE_READONLY where asked for.
abbrev pub image_flags : Bool → ℕ
image_flags read_only = if read_only then 5 else 1

-- The call of `sqlite3_deserialize` on a buffer that holds the image, and the test of its code.
unfoldable pub hand_over : ImageApi → Text → Text → Bool → ℕ → ℕ → M Database (Unit {0})
hand_over api image schema read_only buffer handle d =
    let flags = image_flags read_only in
    let rc = api.deserialize d.log handle schema buffer image flags in
    let d' = noted (ImageCall.deserialize_call handle schema buffer image flags) d in
    let d'' = noted (ImageCall.free buffer) d' in
    if rc == sqlite_ok
    then (ok tt, d')
    else (raise (exception_code (api.errmsg d''.log handle) rc []), d'')

-- `sqlite3_malloc64`
unfoldable pub allocate : ImageApi → ℕ → M Database ℕ
allocate api size d =
    let buffer = api.malloc64 d.log size in
    let d' = noted (ImageCall.malloc64 size) d in
    if buffer == 0 then (raise (database_exception no_buffer), d') else (ok buffer, d')

unfoldable pub deserialize : ImageApi → Text → Text → Bool → M Database (Unit {0})
unfolding ensure_serialization_available get_handle allocate hand_over
deserialize api image schema read_only = do
  ensure_serialization_available api
  throw_if (is_empty image) (database_exception empty_image)
  buffer ← allocate api (length image)
  handle ← get_handle
  hand_over api image (normalize_schema schema) read_only buffer handle
