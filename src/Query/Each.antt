-- ===== src/Query/Each.antt =====
-- A loop over `each(args...)`: from the binding of the arguments to the end of the rows.
use vsqlite.Base.{
  ℕ, zero, suc, ◌+◌, ◌-◌, ◌<◌, ◌≡◌, ◌⊎◌, inl, inr, refl, sym, ap, subst, ◌∙◌, arith, pos, true,
  false, Text, List, [], ◌∷◌, map, length, M, bind, Outcome, ok, raise, undefined, is_ok, some,
}
use vsqlite.Sqlite.{Api}
use vsqlite.Command.{Command}
use vsqlite.Command
use vsqlite.Command.Values.{Value, Argument}
use vsqlite.Connection
use vsqlite.Result.Conversions.{Target}
use vsqlite.Result.{Result, next_row, get}
use vsqlite.Query.{
  ColumnCache, ResultRange, advance, prime_cache, index_of, each, each_with, get_result, result_of,
}
use vsqlite.Query.Columns.{Named, find_first, found, prime_cache-index_of}
use vsqlite.Query.Rows.{RowsLeft}
use vsqlite.Query.Iterators.{
  end, RowView, on_row, placed, start, begin, equal, for_rows, for_each, get_named,
}
use vsqlite.Query.Named.{get_named-unchanged, named-get}
use vsqlite.Query.Iteration.{rows, collect, finished, exhausted, Reads, looped, looped-Reads}

module _ {A : Type 0} (api : Api) (body : RowView → M ResultRange A) where
  begin-row :
      (n : ℕ) (g : ResultRange) (cache : ColumnCache)
      → g.begin_called ≡ false
      → g.result.ended ≡ false
      → prime_cache api g.cache g.result ≡ (ok cache, g.result)
      → (Command.step api g.result.query).0 ≡ ok true
      → for_each api body n g
        ≡ looped api body n (record {
          begin_called = true;
          cache = cache;
          result = record (g.result) { query = (Command.step api g.result.query).1 };
        })
  unfolding for_each begin start placed advance next_row
  begin-row n g cache b h p l = ground arith

  begin-no_row :
      (n : ℕ) (g : ResultRange) (cache : ColumnCache)
      → g.begin_called ≡ false
      → g.result.ended ≡ false
      → prime_cache api g.cache g.result ≡ (ok cache, g.result)
      → (Command.step api g.result.query).0 ≡ ok false
      → for_each api body (suc n) g ≡ (
        ok (some []),
        record { begin_called = true; cache = cache; result = exhausted api 0 g.result },
      )
  unfolding for_each begin start placed advance next_row for_rows equal
  begin-no_row n g cache b h p l = ground arith

each_lem :
    (api : Api) (c d : Command) (g : ResultRange)
    → each api c ≡ (ok g, d)
    → (g.begin_called ≡ false)
      × (g.cache ≡ record { names = []; lookup = [] })
      × (g.result.ended ≡ false)
      × (g.result.query ≡ d)
unfolding each get_result result_of Command.check_access Connection.access_check
each_lem api c d g h = ground arith

bound :
    (api : Api) (o : Outcome (Unit {0}) × Command) (d : Command) (g : ResultRange)
    → bind o (λ _. each api) ≡ (ok g, d)
    → (c : Command) × (each api c ≡ (ok g, d))
bound api (ok u, c) d g h = (c, h)
bound api (raise e, c) d g h = absurd (ground arith)
bound api (undefined, c) d g h = absurd (ground arith)

pub each_with_lem :
    (api : Api) (vs : List Argument) (c d : Command) (g : ResultRange)
    → each_with api vs c ≡ (ok g, d)
    → (g.begin_called ≡ false)
      × (g.cache ≡ record { names = []; lookup = [] })
      × (g.result.ended ≡ false)
      × (g.result.query ≡ d)
unfolding each_with
each_with_lem api vs c d g h =
    let b = bound api (Command.push_all api vs c) d g h in each_lem api b.0 d g b.1

-- What a loop over a fresh range comes to.
for_each-Reads :
    {A : Type 0} (api : Api) (body : RowView → M ResultRange A) (k n : ℕ) (g : ResultRange)
    (cache : ColumnCache)
    → ((g' : ResultRange) → (body on_row g').1 ≡ g')
    → g.begin_called ≡ false
    → g.result.ended ≡ false
    → prime_cache api g.cache g.result ≡ (ok cache, g.result)
    → RowsLeft api k g.result.query
    → k < n
    → Reads api body
        (record g { begin_called = true; cache = cache })
        (rows api k g.result)
        (exhausted api k g.result)
        (for_each api body n g)
for_each-Reads api body zero n g cache unchanged b h p l k<n =
    let first = begin-no_row api body (n - 1) g cache b h p l in
    let e : suc (n - 1) ≡ n = omega arith in
    subst
      (λ m.
        Reads api body (record g { begin_called = true; cache = cache }) []
          (exhausted api 0 g.result) (for_each api body m g))
      e
      (subst
        (Reads api body (record g { begin_called = true; cache = cache }) []
          (exhausted api 0 g.result))
        (sym first) (refl, inr refl))
for_each-Reads api body (suc k) n g cache unchanged b h p (now, later) k<n =
    let first = begin-row api body n g cache b h p now in
    let r : Result = record (g.result) { query = (Command.step api g.result.query).1 } in
    let e : (n - (k + 2)) + (k + 2) ≡ n = omega arith in
    let g' : ResultRange = record { begin_called = true; cache = cache; result = r } in
    let loop = looped-Reads api body unchanged k (n - (k + 2)) g' h later in
    subst
      (Reads api body (record g { begin_called = true; cache = cache }) (r ∷ rows api k r)
        (exhausted api k r))
      (sym first)
      (subst (λ m. Reads api body g' (r ∷ rows api k r) (exhausted api k r) (looped api body m g'))
        e loop)

own_cache :
    {s : ResultRange} {cache : ColumnCache} {r : Result}
    → s ≡ record { begin_called = true; cache = cache; result = r }
    → s ≡ record { begin_called = true; cache = s.cache; result = r }
own_cache e = ground arith

begin-called : (api : Api) (range : ResultRange) → (begin api range).1.begin_called ≡ true
unfolding begin
begin-called api range = ground arith

called_begin :
    (api : Api) (range : ResultRange)
    → range.begin_called ≡ true
    → begin api range ≡ (ok end, range)
unfolding begin
called_begin api range h = ground arith

-- A range is walked once: `begin` comes to the end when it is called again, and calls nothing.
begin_again :
    (api : Api) (range : ResultRange)
    → begin api (begin api range).1 ≡ (ok end, (begin api range).1)
begin_again api range = called_begin api (begin api range).1 (begin-called api range)

-- If a query that `each` has bound its arguments to has k rows to come, a range-based loop over the
-- range that reads a column by its name ends, in at most k + 1 turns: it reads the first column of
-- that name from each of the k rows, in their order, and comes to the values, or to the exception of
-- the first row that cannot be read. Where it reads all rows, the statement has been stepped k + 1
-- times, and `begin` is at the end from then on.
pub each_with-for_each :
    (api : Api) (t : Target) (name : Text) (names : List Text) (i k n : ℕ) (vs : List Argument)
    (c d : Command) (range : ResultRange)
    → each_with api vs c ≡ (ok range, d)
    → length names ≡ range.result.columns
    → Named api range.result 0 names
    → find_first name names 0 ≡ some i
    → RowsLeft api k d
    → k < n
    → let out = for_each api (λ row. get_named api row t name) n range in
      let reads = collect (map (λ r. (get api t (pos i) r).0) (rows api k range.result)) in
      (out.0 ≡ finished reads)
      × ((is_ok reads ≡ false)
          ⊎ ((out.1 ≡ record {
            begin_called = true;
            cache = out.1.cache;
            result = exhausted api k range.result;
          })
              × (begin api out.1 ≡ (ok end, out.1))))
each_with-for_each api t name names i k n vs c d range h l named first left k<n =
    let (fresh, empty, running, same) = each_with_lem api vs c d range h in
    let (cache, primed, _, index) = prime_cache-index_of api name range.result names l named in
    let body : RowView → M ResultRange Value = λ row. get_named api row t name in
    let g : ResultRange = record range { begin_called = true; cache = cache } in
    let found_at : index_of name cache ≡ ok i = index ∙ ap found first in
    let reads =
      for_each-Reads api body k n range cache (get_named-unchanged api t name) fresh running
        (ap (λ e. prime_cache api e range.result) empty ∙ primed)
        (subst (RowsLeft api k) (sym same) left) k<n in
    let e = ap collect (named-get api t name i g (rows api k range.result) found_at) in
    (
      reads.0 ∙ ap finished e,
      elim reads.1 [
        | inl x ↦ inl (sym (ap is_ok e) ∙ x)
        | inr x ↦ inr (own_cache x, called_begin api _ (ap (λ g. g.begin_called) x))
      ],
    )
