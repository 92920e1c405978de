-- ===== src/Query/Steps.antt =====
-- What a walk through a range does to its query.
use vsqlite.Base.{
  ℕ, zero, suc, ◌+◌, ◌≡◌, inl, inr, refl, sym, ap, subst, ◌∙◌, arith, pos, true, false, Bool-cases,
  Text, List, ◌∷◌, M, bind, zoom, Outcome, ok, raise, undefined, Option,
}
use mathlib.Core.Option
use vsqlite.Sqlite.{Api}
use vsqlite.Command.{Command}
use vsqlite.Command
use vsqlite.Connection
use vsqlite.Result.Conversions.{Target}
use vsqlite.Result.{Result, next_row, get_column_name, access_check, get}
use vsqlite.Command.Values.{Value}
use vsqlite.Query.{
  Position, ResultRange, ColumnCache, advance, prime_cache, name_columns, add_column,
}
use vsqlite.Query.Named.{get-unchanged}
use vsqlite.Query.Iterators.{
  RowView, Iterator, Walk, equal, end, unbound, placed, began, moved, start, begin, next, for_rows,
  for_each, get_named, raw, column,
}

pub data StepsTo (api : Api) (c : Command) : Command → Type 0 where
  here : StepsTo api c c
  step : {d : Command} → StepsTo api c d → StepsTo api c (Command.step api d).1

bind-fixed :
    {S A B : Type 0} (o : Outcome A × S) (f : A → M S B) (s : S)
    → o.1 ≡ s
    → ((a : A) → (f a s).1 ≡ s)
    → (bind o f).1 ≡ s
bind-fixed (ok a, s') f s e h = ap (λ x. (f a x).1) e ∙ h a
bind-fixed (raise x, s') f s e h = e
bind-fixed (undefined, s') f s e h = e

module _ (api : Api) where
  StepsTo-trans : {c d e : Command} → StepsTo api c d → StepsTo api d e → StepsTo api c e
  StepsTo-trans p here = p
  StepsTo-trans p (step q) = step (StepsTo-trans p q)

  unmoved : {c d : Command} → d ≡ c → StepsTo api c d
  unmoved {c} e = subst (StepsTo api c) (sym e) here

  advance-StepsTo : (r : Result) → StepsTo api r.query (advance api r).1.query
  unfolding advance next_row
  advance-StepsTo r = elim (Bool-cases r.ended) [
    | inl e ↦ unmoved (ground arith)
    | inr e ↦
        subst (StepsTo api r.query)
          (let q : (Command.step api r.query).1 ≡ (advance api r).1.query = ground arith in q)
          (step here)
  ]

  get_column_name-unchanged : (i : ℕ) (r : Result) → (get_column_name api (pos i) r).1 ≡ r
  unfolding get_column_name access_check Command.check_access Connection.access_check
  get_column_name-unchanged i r = ground arith

  name_columns-unchanged :
      (todo i : ℕ) (cache : ColumnCache) (r : Result) → (name_columns api todo i cache r).1 ≡ r
  unfolding name_columns
  name_columns-unchanged zero i cache r = refl
  name_columns-unchanged (suc todo) i cache r =
      bind-fixed (get_column_name api (pos i) r)
        (λ name. name_columns api todo (i + 1) (add_column name i cache)) r
        (get_column_name-unchanged i r)
        (λ name. name_columns-unchanged todo (i + 1) (add_column name i cache) r)

  prime_cache-unchanged : (cache : ColumnCache) (r : Result) → (prime_cache api cache r).1 ≡ r
  unfolding prime_cache
  prime_cache-unchanged cache r = ground (arith, name_columns-unchanged r.columns 0 cache r)

  bind-StepsTo :
      {S A B : Type 0} (query : S → Command) (c : Command) (o : Outcome A × S) (f : A → M S B)
      → StepsTo api c (query o.1)
      → ((a : A) (s : S) → StepsTo api (query s) (query (f a s).1))
      → StepsTo api c (query (bind o f).1)
  bind-StepsTo query c (ok a, s) f p k = StepsTo-trans p (k a s)
  bind-StepsTo query c (raise e, s) f p k = p
  bind-StepsTo query c (undefined, s) f p k = p

  start-StepsTo :
      (cache : ColumnCache) (r : Result) → StepsTo api r.query (start api cache r).1.query
  unfolding start
  start-StepsTo cache r =
      let it : Iterator = record {
        refers = true;
        ended = false;
        cached = true;
        current = unbound;
      } in
      let there : ColumnCache → Position → M Result (ColumnCache × Iterator) =
        λ cache' p s. (ok (cache', placed p it), s) in
      bind-StepsTo (λ s. s.query) r.query (prime_cache api cache r)
        (λ cache' s. bind (advance api s) (there cache'))
        (unmoved (ap (λ s. s.query) (prime_cache-unchanged cache r)))
        (λ cache' s.
          bind-StepsTo (λ x. x.query) s.query (advance api s) (there cache') (advance-StepsTo s)
            (λ _ _. here))

  began-result :
      (o : Outcome (ColumnCache × Iterator) × Result) (g : ResultRange) → (began o g).1.result ≡ o.1
  began-result (ok (cache, it), r) g = refl
  began-result (raise e, r) g = refl
  began-result (undefined, r) g = refl

  begin-StepsTo : (g : ResultRange) → StepsTo api g.result.query (begin api g).1.result.query
  unfolding begin
  begin-StepsTo g = elim (Bool-cases g.begin_called) [
    | inl called ↦ unmoved (ground arith)
    | inr fresh ↦
        let g' : ResultRange = record g { begin_called = true } in
        let same : (begin api g).1 ≡ (began (start api g.cache g.result) g').1 = ground arith in
        subst (StepsTo api g.result.query)
          (sym (
            ap (λ x. x.result.query) same
            ∙ ap (λ r. r.query) (began-result (start api g.cache g.result) g')))
          (start-StepsTo g.cache g.result)
  ]

  moved-result : (o : Outcome Position × Result) (w : Walk) → (moved o w).1.range.result ≡ o.1
  moved-result (ok p, r) w = refl
  moved-result (raise e, r) w = refl
  moved-result (undefined, r) w = refl

  next-StepsTo : (w : Walk) → StepsTo api w.range.result.query (next api w).1.range.result.query
  unfolding next
  next-StepsTo w = elim (Bool-cases w.it.refers) [
    | inl some_row ↦
        let same : (next api w).1 ≡ (moved (advance api w.range.result) w).1 = ground arith in
        subst (StepsTo api w.range.result.query)
          (sym (
            ap (λ x. x.range.result.query) same
            ∙ ap (λ r. r.query) (moved-result (advance api w.range.result) w)))
          (advance-StepsTo w.range.result)
    | inr none_left ↦ unmoved (ground arith)
  ]

  raw-unchanged : (row : RowView) (g : ResultRange) → (raw row g).1 ≡ g
  unfolding raw
  raw-unchanged row g = ground arith

  column-unchanged : (row : RowView) (name : Text) (g : ResultRange) → (column row name g).1 ≡ g
  unfolding column
  column-unchanged row name g = ground arith

  pub get_named-unchanged :
      (row : RowView) (t : Target) (name : Text) (g : ResultRange)
      → (get_named api row t name g).1 ≡ g
  unfolding get_named
  get_named-unchanged row t name g =
      let read : ℕ → M ResultRange Value = λ idx g. (
        (get api t (pos idx) g.result).0,
        record g { result = (get api t (pos idx) g.result).1 },
      ) in
      bind-fixed (raw row g) (λ _ g. bind (column row name g) read) g (raw-unchanged row g)
        (λ _.
          bind-fixed (column row name g) read g (column-unchanged row name g)
            (λ idx. ap (λ r. record g { result = r }) (get-unchanged api t (pos idx) g.result)))

  module _ {A : Type 0} (body : RowView → M ResultRange A)
      (unchanged : (row : RowView) (g : ResultRange) → (body row g).1 ≡ g) where
    for_rows-StepsTo :
        (n : ℕ) (w : Walk)
        → StepsTo api w.range.result.query (for_rows api body n w).1.range.result.query
    unfolding for_rows
    for_rows-StepsTo zero w = here
    for_rows-StepsTo (suc n) w =
        let query : Walk → Command = λ x. x.range.result.query in
        let here_read = zoom (λ x. x.range) (λ g x. record x { range = g }) (body w.it.current) w in
        let keep : A → Option (List A) → M Walk (Option (List A)) =
          λ v rest x. (ok (Option.map (λ vs. v ∷ vs) rest), x) in
        let rest : A → M Walk (Option (List A)) = λ v x. bind (for_rows api body n x) (keep v) in
        let turn = bind here_read (λ v x. bind (next api x) (λ _. rest v)) in
        let steps : StepsTo api (query w) (query turn.1) =
          bind-StepsTo query (query w) here_read (λ v x. bind (next api x) (λ _. rest v))
            (unmoved (ap (λ g. g.result.query) (unchanged w.it.current w.range)))
            (λ v x.
              bind-StepsTo query (query x) (next api x) (λ _. rest v) (next-StepsTo x)
                (λ _ y.
                  bind-StepsTo query (query y) (for_rows api body n y) (keep v)
                    (for_rows-StepsTo n y) (λ _ _. here))) in
        elim (Bool-cases (equal w.it end)) [
          | inl ended ↦ unmoved (ground arith)
          | inr more ↦
              subst (λ o. StepsTo api (query w) (query o.1))
                (let e : turn ≡ for_rows api body (suc n) w = rw more refl in e) steps
        ]

    pub for_each-StepsTo :
        (n : ℕ) (g : ResultRange)
        → StepsTo api g.result.query (for_each api body n g).1.result.query
    unfolding for_each
    for_each-StepsTo n g =
        bind-StepsTo (λ x. x.result.query) g.result.query (begin api g)
          (λ it range.
            let (o, w) = for_rows api body n (record { range = range; it = it }) in (o, w.range))
          (begin-StepsTo g) (λ it range. for_rows-StepsTo n (record { range = range; it = it }))
