-- ===== src/Query/Columns.antt =====
-- The column cache of a range: columns by their names.
use vsqlite.Base.{
  append_nil, ℕ, pos, ◌+◌, ◌≡◌, refl, sym, ap, ◌∙◌, arith, Text, Text-discrete, List, [], ◌∷◌, ◌++◌,
  Option, none, some, ite, Outcome, ok, raise, length, codes, out_of_range, length-append,
}
use vsqlite.Sqlite.{Api}
use vsqlite.Result.{Result, get_column_name}
use vsqlite.Query.{
  ColumnCache, lookup_find, emplace, add_column, index_of, name_columns, prime_cache,
}

-- The position of the first occurrence of a name, counted from a number.
abbrev pub find_first : Text → List Text → ℕ → Option ℕ
find_first name [] i = none
find_first name (n ∷ ns) i = ite (Text-discrete n name) (some i) (find_first name ns (i + 1))

abbrev pub found : Option ℕ → Outcome ℕ
found none = raise (out_of_range (codes "no such column name"))
found (some i) = ok i

abbrev otherwise : Option ℕ → Option ℕ → Option ℕ
otherwise none o = o
otherwise (some i) o = some i

find_first-append :
    (name n : Text) (ns : List Text) (i : ℕ)
    → find_first name (ns ++ n ∷ []) i
      ≡ otherwise (find_first name ns i) (ite (Text-discrete n name) (some (i + length ns)) none)
find_first-append name n [] i = ground arith
find_first-append name n (m ∷ ns) i = ground (arith, find_first-append name n ns (i + 1))

lookup_find-emplace :
    (name n : Text) (i : ℕ) (m : List (Text × ℕ))
    → lookup_find name (emplace n i m)
      ≡ otherwise (lookup_find name m) (ite (Text-discrete n name) (some i) none)
unfolding emplace lookup_find
lookup_find-emplace name n i m = ground arith

-- The index agrees with the list of names.
abbrev pub Agrees : Text → ColumnCache → Type 0
Agrees name cache = lookup_find name cache.lookup ≡ find_first name cache.names 0

add_column-Agrees :
    (name n : Text) (i : ℕ) (cache : ColumnCache)
    → i ≡ length cache.names
    → Agrees name cache
    → Agrees name (add_column n i cache)
unfolding add_column
add_column-Agrees name n i cache e h =
    ground
      (arith, lookup_find-emplace name n i cache.lookup, find_first-append name n cache.names 0)

append_cons : (ms ns : List Text) (n : Text) → (ms ++ n ∷ []) ++ ns ≡ ms ++ n ∷ ns
append_cons [] ns n = refl
append_cons (m ∷ ms) ns n = ground (arith, append_cons ms ns n)

-- The names that SQLite gives for so many columns from a position on.
abbrev pub Named : Api → Result → ℕ → List Text → Type 0
Named api r i [] = Unit {0}
Named api r i (n ∷ ns) = (get_column_name api (pos i) r ≡ (ok n, r)) × Named api r (i + 1) ns

name_columns-Named :
    (api : Api) (name : Text) (r : Result) (ns : List Text) (i : ℕ) (cache : ColumnCache)
    → i ≡ length cache.names
    → Named api r i ns
    → Agrees name cache
    → (c : ColumnCache) × (name_columns api (length ns) i cache r ≡ (ok c, r))
      × (c.names ≡ cache.names ++ ns)
      × Agrees name c
unfolding name_columns add_column
name_columns-Named api name r [] i cache e h a = (cache, refl, sym (append_nil cache.names), a)
name_columns-Named api name r (n ∷ ns) i cache e h a =
    let next = add_column n i cache in
    let longer : i + 1 ≡ length next.names = omega (arith, e, length-append cache.names (n ∷ [])) in
    let rest =
      name_columns-Named api name r ns (i + 1) next longer h.1
        (add_column-Agrees name n i cache e a) in
    (rest.0, ground (arith, h.0, rest.1), rest.2 ∙ append_cons cache.names ns n, rest.3)

-- When a new range begins, its cache has the names that SQLite gives for the columns, and a name
-- leads to the first column that has it; a name that no column has throws.
pub prime_cache-index_of :
    (api : Api) (name : Text) (r : Result) (ns : List Text)
    → length ns ≡ r.columns
    → Named api r 0 ns
    → (c : ColumnCache) × (prime_cache api (record { names = []; lookup = [] }) r ≡ (ok c, r))
      × (c.names ≡ ns)
      × (index_of name c ≡ found (find_first name ns 0))
unfolding prime_cache index_of lookup_find
prime_cache-index_of api name r ns l h =
    let p = name_columns-Named api name r ns 0 (record { names = []; lookup = [] }) refl h refl in
    (
      p.0,
      ap (λ n. name_columns api n 0 (record { names = []; lookup = [] }) r) (sym l) ∙ p.1,
      p.2,
      ground (arith, p.3, p.2),
    )
