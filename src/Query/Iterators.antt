-- ===== src/Query/Iterators.antt =====
-- The iterators and the row views of a range, in query.hpp and query.cpp. The result and the column
-- cache are shared: they stand once, in the range, and an iterator or a row view either refers to
-- them or holds a null pointer.
use vsqlite.Base.{
  ℕ, zero, suc, ℤ, pos, Bool, true, false, not, Text, List, [], ◌∷◌, codes, M, Outcome, ok, raise,
  undefined, Option, none, some, ◌>>=◌, ◌>>◌, pure, throw_if, zoom, runtime_error, if◌then◌else◌,
  ◌&&◌,
}
use mathlib.Core.Option
use vsqlite.Sqlite.{Api}
use vsqlite.Command.Values.{Value}
use vsqlite.Result.Conversions.{Target}
use vsqlite.Result.{Result, get}
use vsqlite.Query.{Position, ColumnCache, ResultRange, index_of, prime_cache, advance}

-- `row_view`: whether it has a result, and whether it has a column cache.
pub record RowView : Type 0 where
  pub bound : Bool
  pub cached : Bool

abbrev pub unbound : RowView
unbound = record { bound = false; cached = false }

abbrev pub on_row : RowView
on_row = record { bound = true; cached = true }

-- A method of the range's result.
abbrev on_result : {A : Type 0} → M Result A → M ResultRange A
on_result = zoom (λ g. g.result) (λ r g. record g { result = r })

unfoldable pub raw : RowView → M ResultRange (Unit {0})
raw row = throw_if (not row.bound) (runtime_error (codes "row_view is not bound to a row"))

-- `row_view::get<T>(idx)`
unfoldable pub get_at : Api → RowView → Target → ℤ → M ResultRange Value
unfolding raw
get_at api row t idx = do raw row; on_result (get api t idx)

unfoldable pub column : RowView → Text → M ResultRange ℕ
unfolding index_of
column row name = do
  throw_if (not row.cached) (runtime_error (codes "column cache is not initialized"))
  λ range. (index_of name range.cache, range)

-- `row_view::get<T>(name)`, which is `operator[]` too.
unfoldable pub get_named : Api → RowView → Target → Text → M ResultRange Value
unfolding raw column
get_named api row t name = do raw row; idx ← column row name; on_result (get api t (pos idx))

pub record Iterator : Type 0 where
  pub refers : Bool
  pub ended : Bool
  pub cached : Bool
  pub current : RowView

-- `iterator()`, and `end`
abbrev pub end : Iterator
end = record { refers = false; ended = true; cached = false; current = unbound }

-- The branches of `iterator::advance`.
unfoldable pub placed : Position → Iterator → Iterator
placed Position.at_end it = record it { refers = false; ended = true; current = unbound }
placed Position.at_row it = record it {
  ended = false;
  current = record { bound = true; cached = it.cached };
}

-- The constructor of an iterator with a result and a column cache that is not at the end.
unfoldable pub start : Api → ColumnCache → M Result (ColumnCache × Iterator)
unfolding prime_cache advance placed
start api cache = do
  cache' ← prime_cache api cache
  p ← advance api
  let it : Iterator = record { refers = true; ended = false; cached = true; current = unbound }
  pure (cache', placed p it)

-- An exception while the columns are named leaves the cache that was there; no row refers to it.
abbrev pub began :
    Outcome (ColumnCache × Iterator) × Result → ResultRange → Outcome Iterator × ResultRange
began (ok (cache, it), r) range = (ok it, record range { cache = cache; result = r })
began (raise e, r) range = (raise e, record range { result = r })
began (undefined, r) range = (undefined, record range { result = r })

-- `begin`: a range can be walked once.
unfoldable pub begin : Api → M ResultRange Iterator
unfolding start
begin api range =
    let s = start api range.cache range.result in
    if range.begin_called then (ok end, range) else began s (record range { begin_called = true })

-- A range and one of its iterators.
pub record Walk : Type 0 where
  pub range : ResultRange
  pub it : Iterator

abbrev pub moved : Outcome Position × Result → Walk → Outcome (Unit {0}) × Walk
moved (ok p, r) w = (ok tt, record { range = record (w.range) { result = r }; it = placed p w.it })
moved (raise e, r) w = (raise e, record w { range = record (w.range) { result = r } })
moved (undefined, r) w = (undefined, record w { range = record (w.range) { result = r } })

-- `++it`
unfoldable pub next : Api → M Walk (Unit {0})
unfolding placed advance
next api w =
    let m = moved (advance api w.range.result) w in
    if w.it.refers then m else (ok tt, record w { it = placed Position.at_end w.it })

-- `it++`, which gives the iterator that it was.
unfoldable pub next_after : Api → M Walk Iterator
unfolding next
next_after api w = (do next api; pure w.it) w

abbrev same : Bool → Bool → Bool
same true b = b
same false b = not b

-- `==` of two iterators of one range: a pointer to its result equals another, and no null pointer.
unfoldable pub equal : Iterator → Iterator → Bool
equal a b = if a.ended && b.ended then true else same a.refers b.refers && same a.ended b.ended

-- `for (auto &row : range) body(row)`, in at most so many turns: `none` stands for a walk that has
-- not come to its end, and else the values that the body returned.
unfoldable pub for_rows :
    {A : Type 0} → Api → (RowView → M ResultRange A) → ℕ → M Walk (Option (List A))
for_rows api body zero w = (ok none, w)
for_rows api body (suc n) w =
    let turn = (do
      v ← zoom (λ s. s.range) (λ g s. record s { range = g }) (body w.it.current)
      next api
      rest ← for_rows api body n
      pure (Option.map (λ vs. v ∷ vs) rest)) in
    if equal w.it end then (ok (some []), w) else turn w

unfoldable pub for_each :
    {A : Type 0} → Api → (RowView → M ResultRange A) → ℕ → M ResultRange (Option (List A))
unfolding begin for_rows
for_each api body n = do
  it ← begin api
  λ range. let (o, w) = for_rows api body n (record { range = range; it = it }) in (o, w.range)
