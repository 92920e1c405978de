-- ===== src/Result/Types.antt =====
-- The type of what `result::get<T>` and `result::get_tuple<Ts...>` return.
use vsqlite.Base.{
  length, throw_if, pos_part, database_exception, ℕ, ◌+◌, ◌<◌, ◌≡◌, subst, arith, Bool, true, false,
  ◌||◌, ltb, ltb_ℤ, ℤ, pos, negsuc, Text, List, [], ◌∷◌, Outcome, ok, bind, bind_ok, M,
  if◌then◌else◌, Bool-cases, inl, inr,
}
use vsqlite.Sqlite.{Api}
use vsqlite.Command.Values.{Value}
use vsqlite.Result.Conversions.{Width, Target, InRange, cast, low_bits, half, from_micros}
use vsqlite.Result.{
  Result, get, get_tuple, tuple_from_row, is_null, get_int64, get_int, get_double, get_string,
  get_binary_span, tuple_too_long,
}

low_bits-lt : (w : Width) (n : ℤ) → low_bits w n < half w + half w
unfolding low_bits
low_bits-lt Width.w8 (pos n) = omega arith
low_bits-lt Width.w16 (pos n) = omega arith
low_bits-lt Width.w32 (pos n) = omega arith
low_bits-lt Width.w64 (pos n) = omega arith
low_bits-lt Width.w8 (negsuc n) = omega arith
low_bits-lt Width.w16 (negsuc n) = omega arith
low_bits-lt Width.w32 (negsuc n) = omega arith
low_bits-lt Width.w64 (negsuc n) = omega arith

-- Every conversion to an integral type gives a number of that type.
pub cast-InRange : (w : Width) (s : Bool) (n : ℤ) → InRange w s (cast w s n)
unfolding cast
cast-InRange w false n = low_bits-lt w n
cast-InRange w true n =
    let b = low_bits w n in
    elim (Bool-cases (ltb b (half w))) [
      | inl p ↦ rw p (ground arith)
      | inr p ↦ rw p (ground (arith, low_bits-lt w n))
    ]

-- The values of a C++ type, as `get<T>` gives them.
pub data HasType : Target → Value → Type 0 where
  absent : (t : Target) → HasType (Target.optional t) Value.absent
  present : (t : Target) (v : Value) → HasType t v → HasType (Target.optional t) (Value.present v)
  duration : (num den : ℕ) (n : ℤ) → HasType (Target.duration num den) (Value.duration n num den)
  time_point :
      (num den : ℕ) (n : ℤ) → HasType (Target.time_point num den) (Value.time_point n num den)
  enumeration :
      (w : Width) (s : Bool) (n : ℤ)
      → InRange w s n
      → HasType (Target.enumeration w s) (Value.enumerator n)
  integral :
      (w : Width) (s : Bool) (n : ℤ) → InRange w s n → HasType (Target.integral w s) (Value.int64 n)
  boolean_false : HasType Target.boolean (Value.int64 (pos 0))
  boolean_true : HasType Target.boolean (Value.int64 (pos 1))
  floating : (x : ℕ) → HasType Target.floating (Value.real x)
  string : (s : Text) → HasType Target.string (Value.text s)
  byte_vector : (b : Text) → HasType Target.byte_vector (Value.bytes b)
  byte_span : (b : Text) → HasType Target.byte_span (Value.bytes b)

pub data HasTypes : List Target → List Value → Type 0 where
  nothing : HasTypes [] []
  next :
      (t : Target) (v : Value) (ts : List Target) (vs : List Value)
      → HasType t v
      → HasTypes ts vs
      → HasTypes (t ∷ ts) (v ∷ vs)

same_value : (v u : Value) → Path (Outcome Value) (ok v) (ok u) → v ≡ u
same_value v u h = ground arith

-- A value that is made of what SQLite gives for the column.
behind :
    {A : Type 0} (t : Target) (m : Outcome A × Result) (f : A → Value) (v : Value)
    → ((a : A) → HasType t (f a))
    → (bind m (λ a r. (ok (f a), r))).0 ≡ ok v
    → HasType t v
behind t m f v typed h =
    let (a, read, e) = bind_ok m (λ a r. (ok (f a), r)) v h in
    subst (HasType t) (same_value (f a) v e) (typed a)

truth : (b : Bool) → HasType Target.boolean (Value.int64 (if b then pos 1 else pos 0))
truth true = HasType.boolean_true
truth false = HasType.boolean_false

optional :
    (t : Target) (missing : Bool) (rest : Outcome Value × Result) (r : Result) (v : Value)
    → ((u : Value) → rest.0 ≡ ok u → HasType t u)
    → (if missing then (ok Value.absent, r) else bind rest (λ u r. (ok (Value.present u), r))).0
      ≡ ok v
    → HasType (Target.optional t) v
optional t true rest r v typed h =
    subst (HasType (Target.optional t)) (same_value Value.absent v h) (HasType.absent t)
optional t false rest r v typed h =
    let (u, read, e) = bind_ok rest (λ u r. (ok (Value.present u), r)) v h in
    subst (HasType (Target.optional t)) (same_value (Value.present u) v e)
      (HasType.present t u (typed u read))

-- A value that `get<T>` returns is one of T: a number lies in the range of the integral type, or of
-- the type that underlies the enumeration, and an optional value is absent or one of its type.
pub get-HasType :
    (api : Api) (t : Target) (idx : ℤ) (r : Result) (v : Value)
    → (get api t idx r).0 ≡ ok v
    → HasType t v
unfolding get
get-HasType api (Target.optional t) idx r v h =
    let (missing, asked, e) =
      bind_ok (is_null api idx r)
        (λ missing r.
          if missing
          then (ok Value.absent, r)
          else bind (get api t idx r) (λ u r. (ok (Value.present u), r)))
        v h in
    let r' = (is_null api idx r).1 in
    optional t missing (get api t idx r') r' v (get-HasType api t idx r') e
get-HasType api (Target.duration num den) idx r v h =
    behind _ (get_int64 api idx r) (λ n. Value.duration (from_micros n num den) num den) v
      (λ n. HasType.duration num den (from_micros n num den)) h
get-HasType api (Target.time_point num den) idx r v h =
    behind _ (get_int64 api idx r) (λ n. Value.time_point (from_micros n num den) num den) v
      (λ n. HasType.time_point num den (from_micros n num den)) h
get-HasType api (Target.enumeration w s) idx r v h =
    behind _ (get_int64 api idx r) (λ n. Value.enumerator (cast w s n)) v
      (λ n. HasType.enumeration w s (cast w s n) (cast-InRange w s n)) h
get-HasType api (Target.integral w s) idx r v h =
    behind _ (get_int64 api idx r) (λ n. Value.int64 (cast w s n)) v
      (λ n. HasType.integral w s (cast w s n) (cast-InRange w s n)) h
get-HasType api Target.boolean idx r v h =
    behind _ (get_int api idx r)
      (λ n. Value.int64 (if ltb_ℤ n (pos 0) || ltb_ℤ (pos 0) n then pos 1 else pos 0)) v
      (λ n. truth (ltb_ℤ n (pos 0) || ltb_ℤ (pos 0) n)) h
get-HasType api Target.floating idx r v h =
    behind _ (get_double api idx r) Value.real v HasType.floating h
get-HasType api Target.string idx r v h =
    behind _ (get_string api idx r) Value.text v HasType.string h
get-HasType api Target.byte_vector idx r v h =
    behind _ (get_binary_span api idx r) Value.bytes v HasType.byte_vector h
get-HasType api Target.byte_span idx r v h =
    behind _ (get_binary_span api idx r) Value.bytes v HasType.byte_span h

same_values : (vs us : List Value) → Path (Outcome (List Value)) (ok vs) (ok us) → vs ≡ us
same_values vs us h = ground arith

tuple_from_row-HasTypes :
    (api : Api) (ts : List Target) (idx : ℕ) (r : Result) (vs : List Value)
    → (tuple_from_row api ts idx r).0 ≡ ok vs
    → HasTypes ts vs
unfolding tuple_from_row
tuple_from_row-HasTypes api [] idx r vs h =
    subst (HasTypes []) (same_values [] vs h) HasTypes.nothing
tuple_from_row-HasTypes api (t ∷ ts) idx r vs h =
    let rest : Value → M Result (List Value) =
      λ v r. bind (tuple_from_row api ts (idx + 1) r) (λ us r. (ok (v ∷ us), r)) in
    let (v, read, e) = bind_ok (get api t (pos idx) r) rest vs h in
    let r' = (get api t (pos idx) r).1 in
    let (us, read', e') =
      bind_ok (tuple_from_row api ts (idx + 1) r') (λ us r. (ok (v ∷ us), r)) vs e in
    subst (HasTypes (t ∷ ts)) (same_values (v ∷ us) vs e') (
      HasTypes.next t v ts us (get-HasType api t (pos idx) r v read)
        (tuple_from_row-HasTypes api ts (idx + 1) r' us read'))

-- A tuple that `get_tuple<Ts...>` returns has one value for each of the types, in their order, and
-- each is of its type: a number lies in the range of its integral type, or of the type that
-- underlies its enumeration, and an optional value is absent or one of its type.
get_tuple-HasTypes :
    (api : Api) (ts : List Target) (start : ℤ) (r : Result) (vs : List Value)
    → (get_tuple api ts start r).0 ≡ ok vs
    → HasTypes ts vs
unfolding get_tuple
get_tuple-HasTypes api ts start r vs h =
    let limit : M Result (Unit {0}) = λ r.
      throw_if (ltb_ℤ start (pos 0) || ltb r.columns (pos_part start + length ts))
        (database_exception tuple_too_long) r in
    let (_, checked, read) = bind_ok (limit r) (λ _. tuple_from_row api ts (pos_part start)) vs h in
    tuple_from_row-HasTypes api ts (pos_part start) (limit r).1 vs read
