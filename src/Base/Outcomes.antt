-- ===== src/Base/Outcomes.antt =====
-- What a C++ operation comes back with, and the state and exception monad of the methods.
use mathlib.Core.List.{[], ◌∷◌, ◌++◌}
use mathlib.Core.Bool.{Bool, true, false}
use mathlib.Core.Path.{◌≡◌, refl}
use Prim.Native.Nat.{ℕ}
use native.Mathlib.Omega.{arith}
use vsqlite.Base.Texts.{Text, codes}

-- The exception classes of database_exception.hpp, and the standard ones that the library throws.
-- A `what()` text is kept with each; the classes with a code keep the code, and the SQL context.
pub data Exception : Type 0 where
  database_exception : Text → Exception
  database_exception_code : Text → ℕ → Text → Exception
  buffer_too_small_exception : Text → Exception
  database_misuse_exception_code : Text → ℕ → Text → Exception
  database_system_error : Text → ℕ → Exception
  out_of_range : Text → Exception
  runtime_error : Text → Exception

abbrev pub append_sql_context : Text → Text → Text
append_sql_context message [] = message
append_sql_context message (c ∷ sql) = message ++ (codes " [SQL: " ++ ((c ∷ sql) ++ codes "]"))

-- The constructors of the two classes with a code.
abbrev pub exception_code : Text → ℕ → Text → Exception
exception_code message code sql = database_exception_code (append_sql_context message sql) code sql

abbrev pub misuse_code : Text → ℕ → Text → Exception
misuse_code message code sql =
    database_misuse_exception_code (append_sql_context message sql) code sql

-- `undefined` stands for undefined behaviour: a dangling iterator or a null pointer followed.
pub data Outcome {ℓ} (A : Type ℓ) : Type ℓ where
  ok : A → Outcome A
  raise : Exception → Outcome A
  undefined : Outcome A

-- A method takes the state of its object and returns the outcome beside the state it leaves,
-- also when it throws.
abbrev pub M {ℓ κ} : Type ℓ → Type κ → Type (ℓ ⊔ κ)
M S A = S → Outcome A × S

abbrev pub bind {ℓ κ μ} :
    {S : Type ℓ} {A : Type κ} {B : Type μ} → Outcome A × S → (A → M S B) → Outcome B × S
bind (ok a, s) f = f a s
bind (raise e, s) f = (raise e, s)
bind (undefined, s) f = (undefined, s)

infixl 5 ◌>>=◌ ◌>>◌
abbrev pub ◌>>=◌ {ℓ κ μ} : {S : Type ℓ} {A : Type κ} {B : Type μ} → M S A → (A → M S B) → M S B
◌>>=◌ m f s = bind (m s) f

abbrev pub ◌>>◌ {ℓ μ} : {S : Type ℓ} {B : Type μ} → M S (Unit {0}) → M S B → M S B
◌>>◌ m k s = bind (m s) (λ _. k)

abbrev pub pure {ℓ κ} : {S : Type ℓ} {A : Type κ} → A → M S A
pure a s = (ok a, s)

abbrev pub throw {ℓ κ} : {S : Type ℓ} {A : Type κ} → Exception → M S A
throw e s = (raise e, s)

abbrev pub fault {ℓ κ} : {S : Type ℓ} {A : Type κ} → M S A
fault s = (undefined, s)

-- `if (b) throw e;`
abbrev pub throw_if {ℓ} : {S : Type ℓ} → Bool → Exception → M S (Unit {0})
throw_if true e s = (raise e, s)
throw_if false e s = (ok tt, s)

-- `if (b) { m }`
abbrev pub when {ℓ} : {S : Type ℓ} → Bool → M S (Unit {0}) → M S (Unit {0})
when true m s = m s
when false m s = (ok tt, s)

-- `try { m } catch (...) {}`
abbrev pub caught {ℓ} : {S : Type ℓ} → Outcome (Unit {0}) × S → Outcome (Unit {0}) × S
caught (raise e, s) = (ok tt, s)
caught (ok u, s) = (ok u, s)
caught (undefined, s) = (undefined, s)

abbrev pub swallow {ℓ} : {S : Type ℓ} → M S (Unit {0}) → M S (Unit {0})
swallow m s = caught (m s)

-- A method of an object whose state is a part of another's.
abbrev pub zoom {ℓ κ μ} :
    {S : Type ℓ} {T : Type κ} {A : Type μ} → (S → T) → (T → S → S) → M T A → M S A
zoom get put m s = ((m (get s)).0, put (m (get s)).1 s)

-- One fallible step after another, where nothing changes.
abbrev pub chain {ℓ κ} : {A : Type ℓ} {B : Type κ} → Outcome A → Outcome B → Outcome B
chain (ok a) k = k
chain (raise e) k = raise e
chain undefined k = undefined

abbrev pub is_ok {ℓ} : {A : Type ℓ} → Outcome A → Bool
is_ok (ok a) = true
is_ok (raise e) = false
is_ok undefined = false

abbrev pub is_defined {ℓ} : {A : Type ℓ} → Outcome A → Bool
is_defined undefined = false
is_defined _ = true

-- A chain that returns a value has gone through its first step.
pub bind_ok {ℓ κ μ} :
    {S : Type ℓ} {A : Type κ} {B : Type μ} (r : Outcome A × S) (k : A → M S B) (b : B)
    → (bind r k).0 ≡ ok b
    → (a : A) × (r.0 ≡ ok a) × ((k a r.1).0 ≡ ok b)
bind_ok (ok a, s) k b h = (a, refl, h)
bind_ok (raise e, s) k b h = absurd (ground arith)
bind_ok (undefined, s) k b h = absurd (ground arith)
