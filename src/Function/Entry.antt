-- ===== src/Function/Entry.antt =====
-- What a call of a registered function comes to.
use vsqlite.Base.{
  ◌≡◌, ◌⊎◌, inl, inr, refl, arith, Bool, true, false, not, ◌&&◌, ◌||◌, Text, List, [], ◌∷◌, length,
  some, ok, raise, database_exception, ltb_ℤ, pos, ◌==◌, Bool-cases,
}
use vsqlite.Sqlite.{sqlite_null}
use vsqlite.Result.Conversions.{cast}
use vsqlite.Function.{
  SqlValue, Parameter, Datum, Report, Invocation, Callable, convert, convert_all, write, reported,
  function_entry, null_argument, wrong_count, view_text, view_of,
}

abbrev pub takes_null : Parameter → Bool
takes_null Parameter.value = true
takes_null (Parameter.optional p) = true
takes_null _ = false

-- As many values as parameters, and no NULL where the parameter takes none.
pub accepts : List Parameter → List SqlValue → Bool
accepts [] [] = true
accepts [] (v ∷ vs) = false
accepts (p ∷ ps) [] = false
accepts (p ∷ ps) (v ∷ vs) = (takes_null p || not (v.kind == sqlite_null)) && accepts ps vs

-- A value that some writer takes.
abbrev pub IsWritable : Datum → Type 0
IsWritable (Datum.value v) = ⊥
IsWritable (Datum.present d) = IsWritable d
IsWritable _ = Unit {0}

-- A callable whose results have a writer, as the compiler sees to it.
abbrev pub WellTyped : Callable → Type 0
WellTyped callable =
    (args : List Datum) (d : Datum) → callable args ≡ Invocation.returns d → IsWritable d

write-IsWritable : (d : Datum) → IsWritable d → (r : Report) × (write d ≡ some r)
unfolding write
write-IsWritable Datum.nothing h = (_, refl)
write-IsWritable (Datum.integer n) h = (_, refl)
write-IsWritable (Datum.truth b) h = (_, refl)
write-IsWritable (Datum.number x) h = (_, refl)
write-IsWritable (Datum.text t) h = (_, refl)
write-IsWritable Datum.null_view h = (_, refl)
write-IsWritable (Datum.bytes b) h = (_, refl)
write-IsWritable (Datum.value v) h = absurd h
write-IsWritable Datum.absent h = (_, refl)
write-IsWritable (Datum.present d) h = write-IsWritable d h

reported_one :
    (i : Invocation)
    → ((d : Datum) → i ≡ Invocation.returns d → IsWritable d)
    → (r : Report) × (reported i ≡ r ∷ [])
reported_one (Invocation.returns d) h =
    let (r, e) = write-IsWritable d (h d refl) in (r, ground (arith, e))
reported_one (Invocation.throws m) h = (Report.result_error m, refl)
reported_one Invocation.throws_unknown h = (_, refl)

-- A value that is not NULL can be converted to every parameter, and NULL to the ones that take it.
convert_ok :
    (p : Parameter) (v : SqlValue)
    → (v.kind == sqlite_null) ≡ false
    → (d : Datum) × (convert p v ≡ ok d)
unfolding convert
convert_ok (Parameter.integral w s) v h = (Datum.integer (cast w s v.int64), ground arith)
convert_ok Parameter.boolean v h =
    (Datum.truth (ltb_ℤ v.int (pos 0) || ltb_ℤ (pos 0) v.int), ground arith)
convert_ok Parameter.floating v h = (Datum.number v.double, ground arith)
convert_ok Parameter.text v h = (Datum.text (view_text v.text), ground arith)
convert_ok Parameter.view v h = (view_of v.text, ground arith)
convert_ok Parameter.bytes v h = (Datum.bytes v.blob, ground arith)
convert_ok Parameter.value v h = (Datum.value v, refl)
convert_ok (Parameter.optional p) v h =
    let (d, e) = convert_ok p v h in (Datum.present d, ground (arith, e))

convert_null :
    (p : Parameter) (v : SqlValue)
    → (v.kind == sqlite_null) ≡ true
    → takes_null p ≡ true
    → (d : Datum) × (convert p v ≡ ok d)
unfolding convert
convert_null Parameter.value v h t = (Datum.value v, refl)
convert_null (Parameter.optional p) v h t = (Datum.absent, ground arith)
convert_null _ v h t = absurd (ground arith)

convert_refused :
    (p : Parameter) (v : SqlValue)
    → (v.kind == sqlite_null) ≡ true
    → takes_null p ≡ false
    → convert p v ≡ raise (database_exception null_argument)
unfolding convert
convert_refused Parameter.value v h t = absurd (ground arith)
convert_refused (Parameter.optional p) v h t = absurd (ground arith)
convert_refused _ v h t = ground arith

abbrev suits : Parameter → SqlValue → Bool
suits p v = takes_null p || not (v.kind == sqlite_null)

convert-suits :
    (p : Parameter) (v : SqlValue)
    → ((suits p v ≡ true) × (d : Datum) × (convert p v ≡ ok d))
      ⊎ ((suits p v ≡ false) × (convert p v ≡ raise (database_exception null_argument)))
convert-suits p v = elim (Bool-cases (v.kind == sqlite_null)) [
  | inr some_value ↦
      inl (ground arith, (convert_ok p v some_value).0, (convert_ok p v some_value).1)
  | inl null ↦ elim (Bool-cases (takes_null p)) [
    | inl taken ↦
        inl (ground arith, (convert_null p v null taken).0, (convert_null p v null taken).1)
    | inr refused ↦ inr (ground arith, convert_refused p v null refused)
  ]
]

convert_all-accepts :
    (ps : List Parameter) (vs : List SqlValue)
    → length vs ≡ length ps
    → ((accepts ps vs ≡ true) × (args : List Datum) × (convert_all ps vs ≡ ok args))
      ⊎ ((accepts ps vs ≡ false) × (convert_all ps vs ≡ raise (database_exception null_argument)))
unfolding accepts convert_all
convert_all-accepts [] [] h = inl (refl, [], refl)
convert_all-accepts [] (v ∷ vs) h = absurd (omega arith)
convert_all-accepts (p ∷ ps) [] h = absurd (omega arith)
convert_all-accepts (p ∷ ps) (v ∷ vs) h = elim (convert-suits p v) [
  | inr (no_fit, e) ↦ inr (ground (arith, no_fit), ground (arith, e))
  | inl (fit, d, e) ↦ elim (convert_all-accepts ps vs (omega arith)) [
    | inl (fits, ds, es) ↦ inl (ground (arith, fit, fits), d ∷ ds, ground (arith, e, es))
    | inr (refused, es) ↦ inr (ground (arith, fit, refused), ground (arith, e, es))
  ]
]

accepts-length :
    (ps : List Parameter) (vs : List SqlValue) → accepts ps vs ≡ true → length vs ≡ length ps
unfolding accepts
accepts-length [] [] h = refl
accepts-length [] (v ∷ vs) h = absurd (ground arith)
accepts-length (p ∷ ps) [] h = absurd (ground arith)
accepts-length (p ∷ ps) (v ∷ vs) h = ground (arith, accepts-length ps vs)

-- A call of a registered function, with a callable whose results have a writer, reports exactly one
-- result. If its values fit the parameters in number, and no NULL meets a parameter that takes none,
-- the callable is run once, on the converted values, and its result or the text of its exception is
-- reported; otherwise it is not run, and an error is reported. No exception leaves the call.
pub function_entry_lem :
    (ps : List Parameter) (callable : Callable) (vs : List SqlValue)
    → WellTyped callable
    → ((accepts ps vs ≡ true)
        × (args : List Datum) × (r : Report) × (convert_all ps vs ≡ ok args)
        × (reported (callable args) ≡ r ∷ [])
        × (function_entry true ps callable vs ≡ ok (record { runs = args ∷ []; reports = r ∷ [] })))
      ⊎ ((accepts ps vs ≡ false)
          × (message : Text) × (function_entry true ps callable vs
              ≡ ok (record { runs = []; reports = Report.result_error message ∷ [] })))
unfolding function_entry
function_entry_lem ps callable vs typed = elim (Bool-cases (length vs == length ps)) [
  | inr other ↦ elim (Bool-cases (accepts ps vs)) [
    | inl fits ↦ absurd (ground (arith, accepts-length ps vs fits))
    | inr refused ↦ inr (refused, wrong_count, ground (arith, other))
  ]
  | inl same ↦ elim (convert_all-accepts ps vs (ground (arith, same))) [
    | inr (refused, e) ↦ inr (refused, null_argument, ground (arith, same, e))
    | inl (fits, args, e) ↦
        let (r, one) = reported_one (callable args) (typed args) in
        inl (fits, args, r, e, one, ground (arith, same, e, one))
  ]
]
