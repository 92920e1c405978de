-- ===== src/Function/Registration.antt =====
-- `create_function`, and who deletes the holder of the callable. A connection enters by its handle,
-- 0 where it is closed.
use vsqlite.Base.{
  ℕ, ◌≡◌, ◌≢◌, ◌⊎◌, arith, ℤ, pos, negsuc, Bool, true, false, Bool-cases, inl, inr, not, Text, List,
  [], ◌∷◌, ◌++◌, codes, Option, none, some, is_empty, M, Outcome, ok, raise, is_ok, bit_or,
  database_exception, exception_code, ◌==◌, if◌then◌else◌,
}
use vsqlite.Sqlite.{sqlite_ok}
use vsqlite.Connection.{not_open}

-- The flags of sqlite3.h, all of which it defines.
abbrev pub sqlite_deterministic : ℕ
sqlite_deterministic = 0x800

abbrev pub sqlite_directonly : ℕ
sqlite_directonly = 0x80000

abbrev pub sqlite_innocuous : ℕ
sqlite_innocuous = 0x200000

pub record Options : Type 0 where
  pub arity : ℤ
  pub text_representation : ℕ
  pub deterministic : Bool
  pub direct_only : Bool
  pub innocuous : Bool

-- SQLITE_UTF8 is 1.
abbrev pub default_options : Options
default_options = record {
  arity = negsuc 0;
  text_representation = 1;
  deterministic = false;
  direct_only = false;
  innocuous = false;
}

unfoldable pub compose_text_rep : Options → ℕ
compose_text_rep options =
    let rep = options.text_representation in
    let rep' = if options.deterministic then bit_or rep sqlite_deterministic else rep in
    let rep'' = if options.direct_only then bit_or rep' sqlite_directonly else rep' in
    if options.innocuous then bit_or rep'' sqlite_innocuous else rep''

unfoldable pub make_function_error : Text → Text
make_function_error name =
    if is_empty name
    then codes "Failed to register SQL function."
    else codes "Failed to register SQL function '" ++ (name ++ codes "'.")

-- A holder goes by its address.
pub data FunctionCall : Type 0 where
  make_holder : ℕ → FunctionCall
  create_function_v2 : ℕ → Text → ℕ → ℕ → ℕ → FunctionCall
  delete_holder : ℕ → FunctionCall

pub record FunctionApi : Type 0 where
  pub allocate : List FunctionCall → ℕ
  pub create_function_v2 : List FunctionCall → ℕ → Text → ℕ → ℕ → ℕ → ℕ
  pub errmsg : List FunctionCall → ℕ → Option Text

pub record Registry : Type 0 where
  pub handle : ℕ
  pub log : List FunctionCall

abbrev pub noted : FunctionCall → Registry → Registry
noted call r = record r { log = call ∷ r.log }

abbrev pub arity_mismatch : Text
arity_mismatch = codes "Explicit arity override does not match callable signature."

abbrev pub text_or : Option Text → Text → Text
text_or none t = t
text_or (some s) t = s

-- The end of `create_function`, with its unique pointer to the holder: whatever leaves the function
-- before `holder.release()` deletes the holder.
unfoldable pub register : FunctionApi → Text → ℕ → Options → ℕ → M Registry (Unit {0})
register api name arity options holder r =
    let rep = compose_text_rep options in
    let rc = api.create_function_v2 r.log r.handle name arity rep holder in
    let r' = noted (FunctionCall.create_function_v2 r.handle name arity rep holder) r in
    let message = text_or (api.errmsg r'.log r.handle) (make_function_error name) in
    if r.handle == 0
    then (raise (database_exception not_open), noted (FunctionCall.delete_holder holder) r)
    else if rc == sqlite_ok
    then (ok tt, r')
    else (raise (exception_code message rc []), noted (FunctionCall.delete_holder holder) r')

abbrev pub asks_other : ℕ → ℤ → Bool
asks_other max_arity (pos n) = not (n == max_arity)
asks_other max_arity (negsuc n) = false

-- `create_function` for a callable with so many parameters.
unfoldable pub create_function : FunctionApi → Text → ℕ → Options → M Registry (Unit {0})
create_function api name max_arity options r =
    let holder = api.allocate r.log in
    if asks_other max_arity options.arity
    then (raise (database_exception arity_mismatch), r)
    else register api name max_arity options holder (noted (FunctionCall.make_holder holder) r)

-- The holders that are deleted: by the unique pointer, and by a `sqlite3_create_function_v2` that
-- fails, which calls the destructor that it was given before it returns.
abbrev pub deleted : FunctionApi → List FunctionCall → List ℕ
deleted api [] = []
deleted api (FunctionCall.delete_holder h ∷ log) = h ∷ deleted api log
deleted api (FunctionCall.create_function_v2 db name arity rep h ∷ log) =
    if api.create_function_v2 log db name arity rep h == sqlite_ok
    then deleted api log
    else h ∷ deleted api log
deleted api (FunctionCall.make_holder h ∷ log) = deleted api log

abbrev pub made : List FunctionCall → List ℕ
made [] = []
made (FunctionCall.make_holder h ∷ log) = h ∷ made log
made (_ ∷ log) = made log

-- Where a call stands with the holder p: SQLite keeps it, it was deleted once since the connection
-- is closed, or twice since SQLite refused the function.
abbrev pub Ways : FunctionApi → ℕ → Registry → Outcome (Unit {0}) × Registry → Type 0
Ways api p r (outcome, r') =
    (made r'.log ≡ p ∷ made r.log)
    × (((is_ok outcome ≡ true) × (deleted api r'.log ≡ deleted api r.log))
        ⊎ (((r.handle ≡ 0) × (is_ok outcome ≡ false) × (deleted api r'.log ≡ p ∷ deleted api r.log))
            ⊎ ((r.handle ≢ 0)
                × (is_ok outcome ≡ false)
                × (deleted api r'.log ≡ p ∷ p ∷ deleted api r.log))))

register-Ways :
    (api : FunctionApi) (name : Text) (arity : ℕ) (options : Options) (p : ℕ) (r : Registry)
    → Ways api p r (register api name arity options p (noted (FunctionCall.make_holder p) r))
unfolding register
register-Ways api name arity options p r = elim (Bool-cases (r.handle == 0)) [
  | inl closed ↦ ground (arith, closed)
  | inr opened ↦ ground (arith, opened)
]

-- The holder p of a callable: an arity that the callable does not have makes none; on a closed
-- connection it is deleted once; if SQLite refuses the function, it is deleted twice, by SQLite and
-- by the unique pointer; and if the call returns, SQLite keeps it.
pub create_function-Ways :
    (api : FunctionApi) (name : Text) (max_arity : ℕ) (options : Options) (r : Registry)
    → ((asks_other max_arity options.arity ≡ true)
        × (create_function api name max_arity options r
            ≡ (raise (database_exception arity_mismatch), r)))
      ⊎ ((asks_other max_arity options.arity ≡ false)
          × Ways api (api.allocate r.log) r (create_function api name max_arity options r))
unfolding create_function
create_function-Ways api name max_arity options r =
    elim (Bool-cases (asks_other max_arity options.arity)) [
      | inl other ↦ inl (other, rw other)
      | inr same ↦
          inr (same, rw same (register-Ways api name max_arity options (api.allocate r.log) r))
    ]
