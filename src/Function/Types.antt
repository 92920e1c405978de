-- ===== src/Function/Types.antt =====
-- The arguments that a callable is run with.
use vsqlite.Base.{
  ◌+◌, arith, ℤ, pos, negsuc, ltb_ℤ, ◌||◌, ◌≡◌, ◌≢◌, ◌⊎◌, inl, inr, refl, subst, Bool, true, false,
  Text, Option, none, some, List, [], ◌∷◌, Outcome, ok, raise, length, ◌==◌, Bool-cases, dec_lt,
}
use vsqlite.Sqlite.{sqlite_null}
use vsqlite.Result.Conversions.{Width, InRange, half, cast, cast_of_InRange}
use vsqlite.Result.Types.{cast-InRange}
use vsqlite.Function.{
  SqlValue, Parameter, Datum, Callable, Effect, convert, convert_all, joined, mark_present,
  unless_null, invoke, function_entry, view_text, view_of,
}

-- A number, and what it is as a parameter of an integral type: itself, if it is in the range.
abbrev pub IsTaken : Width → Bool → ℤ → ℤ → Type 0
IsTaken w s x n = InRange w s n × ((n ≡ x) ⊎ (InRange w s x → ⊥))

-- A Boolean parameter is true for every number but 0.
abbrev pub IsTruth : ℤ → Bool → Type 0
IsTruth x b = ((b ≡ true) × (x ≢ pos 0)) ⊎ ((b ≡ false) × (x ≡ pos 0))

-- What a parameter is passed of a value of SQLite. Only a parameter that is optional, or that is the
-- value itself, is passed anything of NULL.
abbrev pub Reads : Parameter → SqlValue → Datum → Type 0
Reads (Parameter.integral w s) v (Datum.integer n) = (v.kind ≢ sqlite_null) × IsTaken w s v.int64 n
Reads Parameter.boolean v (Datum.truth b) = (v.kind ≢ sqlite_null) × IsTruth v.int b
Reads Parameter.floating v (Datum.number x) = (v.kind ≢ sqlite_null) × (x ≡ v.double)
Reads Parameter.text v (Datum.text t) =
    (v.kind ≢ sqlite_null) × ((v.text ≡ some t) ⊎ ((v.text ≡ none) × (t ≡ [])))
Reads Parameter.view v (Datum.text t) = (v.kind ≢ sqlite_null) × (v.text ≡ some t)
Reads Parameter.view v Datum.null_view = (v.kind ≢ sqlite_null) × (v.text ≡ none)
Reads Parameter.bytes v (Datum.bytes b) = (v.kind ≢ sqlite_null) × (b ≡ v.blob)
Reads Parameter.value v (Datum.value u) = u ≡ v
Reads (Parameter.optional p) v Datum.absent = v.kind ≡ sqlite_null
Reads (Parameter.optional p) v (Datum.present d) = (v.kind ≢ sqlite_null) × Reads p v d
Reads _ _ _ = ⊥

-- Parameters, values and arguments that are as many as one another.
abbrev pub ReadsAll : List Parameter → List SqlValue → List Datum → Type 0
ReadsAll [] [] [] = Unit
ReadsAll (p ∷ ps) (v ∷ vs) (d ∷ ds) = Reads p v d × ReadsAll ps vs ds
ReadsAll _ _ _ = ⊥

-- All the runs of a callable.
abbrev pub AllRead : List Parameter → List SqlValue → List (List Datum) → Type 0
AllRead ps vs [] = Unit
AllRead ps vs (run ∷ runs) = ReadsAll ps vs run × AllRead ps vs runs

-- The same, of what a conversion comes to.
abbrev Gives : Parameter → SqlValue → Outcome Datum → Type 0
Gives p v (ok d) = Reads p v d
Gives p v _ = Unit

abbrev GivesAll : List Parameter → List SqlValue → Outcome (List Datum) → Type 0
GivesAll ps vs (ok ds) = ReadsAll ps vs ds
GivesAll ps vs _ = Unit

abbrev Runs : List Parameter → List SqlValue → Outcome Effect → Type 0
Runs ps vs (ok e) = AllRead ps vs e.runs
Runs ps vs _ = Unit

cast_or_outside : (w : Width) (s : Bool) (x : ℤ) → (cast w s x ≡ x) ⊎ (InRange w s x → ⊥)
cast_or_outside w true (pos n) = elim (dec_lt n (half w)) [
  | yes h ↦ inl (cast_of_InRange w true (pos n) h)
  | no h ↦ inr h
]
cast_or_outside w true (negsuc n) = elim (dec_lt n (half w)) [
  | yes h ↦ inl (cast_of_InRange w true (negsuc n) h)
  | no h ↦ inr h
]
cast_or_outside w false (pos n) = elim (dec_lt n (half w + half w)) [
  | yes h ↦ inl (cast_of_InRange w false (pos n) h)
  | no h ↦ inr h
]
cast_or_outside w false (negsuc n) = inr (λ h. h)

nonzero-IsTruth : (x : ℤ) → IsTruth x (ltb_ℤ x (pos 0) || ltb_ℤ (pos 0) x)
nonzero-IsTruth (pos n) = ground arith
nonzero-IsTruth (negsuc n) = ground arith

view_text-Reads : (o : Option Text) → (o ≡ some (view_text o)) ⊎ ((o ≡ none) × (view_text o ≡ []))
view_text-Reads none = inr (refl, refl)
view_text-Reads (some t) = inl refl

view_of-Reads :
    (v : SqlValue) (o : Option Text)
    → v.text ≡ o
    → v.kind ≢ sqlite_null
    → Reads Parameter.view v (view_of o)
view_of-Reads v none e h = (h, e)
view_of-Reads v (some t) e h = (h, e)

unless_null-Gives :
    (p : Parameter) (v : SqlValue) (d : Datum)
    → (v.kind ≢ sqlite_null → Reads p v d)
    → Gives p v (unless_null v d)
unless_null-Gives p v d h = elim (Bool-cases (v.kind == sqlite_null)) [
  | inl e ↦ rw e tt
  | inr e ↦ rw e (h (ground arith))
]

optional-Gives :
    (p : Parameter) (v : SqlValue) (r : Outcome Datum)
    → Gives p v r
    → v.kind ≢ sqlite_null
    → Gives (Parameter.optional p) v (mark_present r)
optional-Gives p v (ok d) h q = (q, h)
optional-Gives p v (raise e) h q = tt
optional-Gives p v Outcome.undefined h q = tt

convert-Gives : (p : Parameter) (v : SqlValue) → Gives p v (convert p v)
unfolding convert
convert-Gives (Parameter.integral w s) v =
    unless_null-Gives (Parameter.integral w s) v (Datum.integer (cast w s v.int64))
      (λ h. (h, (cast-InRange w s v.int64, cast_or_outside w s v.int64)))
convert-Gives Parameter.boolean v =
    unless_null-Gives Parameter.boolean v (Datum.truth (ltb_ℤ v.int (pos 0) || ltb_ℤ (pos 0) v.int))
      (λ h. (h, nonzero-IsTruth v.int))
convert-Gives Parameter.floating v =
    unless_null-Gives Parameter.floating v (Datum.number v.double) (λ h. (h, refl))
convert-Gives Parameter.text v =
    unless_null-Gives Parameter.text v (Datum.text (view_text v.text))
      (λ h. (h, view_text-Reads v.text))
convert-Gives Parameter.view v =
    unless_null-Gives Parameter.view v (view_of v.text) (view_of-Reads v v.text refl)
convert-Gives Parameter.bytes v =
    unless_null-Gives Parameter.bytes v (Datum.bytes v.blob) (λ h. (h, refl))
convert-Gives Parameter.value v = refl
convert-Gives (Parameter.optional p) v = elim (Bool-cases (v.kind == sqlite_null)) [
  | inl e ↦ rw e (ground arith)
  | inr e ↦ rw e (optional-Gives p v (convert p v) (convert-Gives p v) (ground arith))
]

joined-GivesAll :
    (p : Parameter) (v : SqlValue) (ps : List Parameter) (vs : List SqlValue) (r : Outcome Datum)
    (rs : Outcome (List Datum))
    → Gives p v r
    → GivesAll ps vs rs
    → GivesAll (p ∷ ps) (v ∷ vs) (joined r rs)
joined-GivesAll p v ps vs (ok d) (ok ds) h hs = (h, hs)
joined-GivesAll p v ps vs (ok d) (raise e) h hs = tt
joined-GivesAll p v ps vs (ok d) Outcome.undefined h hs = tt
joined-GivesAll p v ps vs (raise e) rs h hs = tt
joined-GivesAll p v ps vs Outcome.undefined rs h hs = tt

convert_all-GivesAll :
    (ps : List Parameter) (vs : List SqlValue)
    → length vs ≡ length ps
    → GivesAll ps vs (convert_all ps vs)
unfolding convert_all
convert_all-GivesAll [] [] h = tt
convert_all-GivesAll [] (v ∷ vs) h = absurd (omega arith)
convert_all-GivesAll (p ∷ ps) [] h = tt
convert_all-GivesAll (p ∷ ps) (v ∷ vs) h =
    joined-GivesAll p v ps vs (convert p v) (convert_all ps vs) (convert-Gives p v)
      (convert_all-GivesAll ps vs (omega arith))

invoke-Runs :
    (ps : List Parameter) (vs : List SqlValue) (callable : Callable) (r : Outcome (List Datum))
    → GivesAll ps vs r
    → Runs ps vs (invoke callable r)
unfolding invoke
invoke-Runs ps vs callable (ok args) h = (h, tt)
invoke-Runs ps vs callable (raise e) h = tt
invoke-Runs ps vs callable Outcome.undefined h = tt

function_entry-Runs :
    (has_holder : Bool) (ps : List Parameter) (callable : Callable) (argv : List SqlValue)
    → Runs ps argv (function_entry has_holder ps callable argv)
unfolding function_entry
function_entry-Runs false ps callable argv = tt
function_entry-Runs true ps callable argv = elim (Bool-cases (length argv == length ps)) [
  | inl e ↦ rw e (
      invoke-Runs ps argv callable (convert_all ps argv)
        (convert_all-GivesAll ps argv (ground arith)))
  | inr e ↦ rw e tt
]

-- Whatever SQLite calls a function with, each run of the callable has one argument for each value,
-- which are as many as the parameters, and that argument is the value in its parameter's type: an
-- integer of the range of its type, which is the one that SQLite holds unless that is outside of the
-- range, the truth of a number, a double, a text or bytes as they are; of NULL it is an absent
-- optional or the value itself, and nothing else.
pub function_entry-AllRead :
    (has_holder : Bool) (ps : List Parameter) (callable : Callable) (argv : List SqlValue)
    (e : Effect)
    → function_entry has_holder ps callable argv ≡ ok e
    → AllRead ps argv e.runs
function_entry-AllRead has_holder ps callable argv e h =
    subst (Runs ps argv) h (function_entry-Runs has_holder ps callable argv)
