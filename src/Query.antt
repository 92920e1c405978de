-- ===== src/Query.antt =====
-- query.hpp and query.cpp: the results of a query, its ranges and the cache of their column names.
pub mod Columns
pub mod Iterators
pub mod Iteration
pub mod Named
pub mod Each
pub mod Steps
pub mod Rows
use vsqlite.Base.{
  ℕ, zero, suc, ◌+◌, ◌≡◌, ℤ, pos, Bool, true, false, not, Text, Text-discrete, List, [], ◌∷◌, ◌++◌,
  codes, M, ok, raise, Option, none, some, ite, ◌>>=◌, ◌>>◌, pure, throw_if, zoom, Outcome,
  undefined, Exception, out_of_range, runtime_error, ◌==◌, if◌then◌else◌, ◌&&◌,
}
use vsqlite.Sqlite.{Api, Log}
use vsqlite.Command.{Command, check_access}
use vsqlite.Command
use vsqlite.Command.Values.{Value, Argument}
use vsqlite.Result.Conversions.{Target}
use vsqlite.Result.{Result, next_row, get_column_name, get}

-- The parameters that a query passes to a result, and the constructor of the result.
unfoldable pub result_of : Api → Bool → Command → Outcome Result × Command
unfolding check_access
result_of api ended c =
    let db = api.db_handle c.con.log c.stmt in
    (do
      check_access
      λ c'. (
        ok (record {
          query = c';
          statement = c'.stmt;
          changes = api.changes c'.con.log db;
          ended = ended;
          columns = api.column_count c'.con.log c'.stmt;
        }),
        c',
      ))
      c

unfoldable pub get_result : Api → Command → Outcome Result × Command
unfolding result_of
get_result api = do check_access; result_of api false

-- The statement is stepped once beforehand.
unfoldable pub emit_result : Api → Command → Outcome Result × Command
unfolding result_of
emit_result api = do more ← Command.step api; result_of api (not more)

-- `column_cache`
pub record ColumnCache : Type 0 where
  pub names : List Text
  pub lookup : List (Text × ℕ)

unfoldable pub lookup_find : Text → List (Text × ℕ) → Option ℕ
lookup_find name [] = none
lookup_find name ((key, i) ∷ m) = ite (Text-discrete key name) (some i) (lookup_find name m)

-- `lookup.emplace`, which keeps what is there.
unfoldable pub emplace : Text → ℕ → List (Text × ℕ) → List (Text × ℕ)
unfolding lookup_find
emplace name i m = elim (lookup_find name m) [ none ↦ (name, i) ∷ m | some _ ↦ m ]

unfoldable pub add_column : Text → ℕ → ColumnCache → ColumnCache
add_column name i cache = record {
  names = cache.names ++ name ∷ [];
  lookup = emplace name i cache.lookup;
}

unfoldable pub index_of : Text → ColumnCache → Outcome ℕ
unfolding lookup_find
index_of name cache = elim (lookup_find name cache.lookup) [
  | none ↦ raise (out_of_range (codes "no such column name"))
  | some i ↦ ok i
]

-- The loop of `prime_cache`: `todo` columns from position i on.
unfoldable pub name_columns : Api → ℕ → ℕ → ColumnCache → M Result ColumnCache
name_columns api zero i cache = pure cache
name_columns api (suc todo) i cache = do
  name ← get_column_name api (pos i)
  name_columns api todo (i + 1) (add_column name i cache)

abbrev pub is_unprimed : ColumnCache → Bool
is_unprimed cache = elim cache.lookup [ [] ↦ true | _ ∷ _ ↦ false ]

unfoldable pub prime_cache : Api → ColumnCache → M Result ColumnCache
prime_cache api cache r =
    if is_unprimed cache then name_columns api r.columns 0 cache r else (ok cache, r)

-- Where `advance` leads an iterator: to the end, or to a row that its result stands on.
pub data Position : Type 0 where
  at_end : Position
  at_row : Position

unfoldable pub advance : Api → M Result Position
unfolding next_row
advance api = do more ← next_row api; pure (if more then Position.at_row else Position.at_end)

pub record ResultRange : Type 0 where
  pub begin_called : Bool
  pub cache : ColumnCache
  pub result : Result

-- `each`
unfoldable pub each : Api → Command → Outcome ResultRange × Command
unfolding get_result
each api = do
  r ← get_result api
  pure (record { begin_called = false; cache = record { names = []; lookup = [] }; result = r })

-- `each(args...)`, with at least one argument: the values are bound to the next positions.
unfoldable pub each_with : Api → List Argument → M Command ResultRange
unfolding each
each_with api vs = do Command.push_all api vs; each api
