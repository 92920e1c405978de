-- ===== src/Query/Named.antt =====
-- What a row view reads, by the position or the name of a column.
use vsqlite.Base.{
  ℕ, ◌≡◌, refl, ap, ◌∙◌, arith, ℤ, pos, Text, List, [], ◌∷◌, map, M, bind, Outcome, ok, raise,
  undefined,
}
use vsqlite.Sqlite.{Api}
use vsqlite.Command.{Command}
use vsqlite.Command
use vsqlite.Command.Values.{Value}
use vsqlite.Connection
use vsqlite.Result.Conversions.{Target}
use vsqlite.Result.{
  Result, get, access_check, is_null, unless_null, get_int, get_int64, get_double, get_string,
  get_binary_span,
}
use vsqlite.Query.{ResultRange, index_of}
use vsqlite.Query.Iterators.{on_row, get_named, raw, column}
use vsqlite.Query.Iteration.{at}

is_null-unchanged : (api : Api) (idx : ℤ) (r : Result) → (is_null api idx r).1 ≡ r
unfolding is_null access_check Command.check_access Connection.access_check
is_null-unchanged api idx r = ground arith

get_int64-unchanged : (api : Api) (idx : ℤ) (r : Result) → (get_int64 api idx r).1 ≡ r
unfolding get_int64 unless_null access_check Command.check_access Connection.access_check
get_int64-unchanged api idx r = ground arith

get_int-unchanged : (api : Api) (idx : ℤ) (r : Result) → (get_int api idx r).1 ≡ r
unfolding get_int unless_null access_check Command.check_access Connection.access_check
get_int-unchanged api idx r = ground arith

get_double-unchanged : (api : Api) (idx : ℤ) (r : Result) → (get_double api idx r).1 ≡ r
unfolding get_double unless_null access_check Command.check_access Connection.access_check
get_double-unchanged api idx r = ground arith

get_string-unchanged : (api : Api) (idx : ℤ) (r : Result) → (get_string api idx r).1 ≡ r
unfolding get_string unless_null access_check Command.check_access Connection.access_check
get_string-unchanged api idx r = ground arith

get_binary_span-unchanged : (api : Api) (idx : ℤ) (r : Result) → (get_binary_span api idx r).1 ≡ r
unfolding get_binary_span unless_null access_check Command.check_access Connection.access_check
get_binary_span-unchanged api idx r = ground arith

pub get-unchanged : (api : Api) (t : Target) (idx : ℤ) (r : Result) → (get api t idx r).1 ≡ r
unfolding get
get-unchanged api (Target.optional t) idx r =
    ground (arith, is_null-unchanged api idx r, get-unchanged api t idx r)
get-unchanged api (Target.duration num den) idx r = ground (arith, get_int64-unchanged api idx r)
get-unchanged api (Target.time_point num den) idx r = ground (arith, get_int64-unchanged api idx r)
get-unchanged api (Target.enumeration w s) idx r = ground (arith, get_int64-unchanged api idx r)
get-unchanged api (Target.integral w s) idx r = ground (arith, get_int64-unchanged api idx r)
get-unchanged api Target.boolean idx r = ground (arith, get_int-unchanged api idx r)
get-unchanged api Target.floating idx r = ground (arith, get_double-unchanged api idx r)
get-unchanged api Target.string idx r = ground (arith, get_string-unchanged api idx r)
get-unchanged api Target.byte_vector idx r = ground (arith, get_binary_span-unchanged api idx r)
get-unchanged api Target.byte_span idx r = ground (arith, get_binary_span-unchanged api idx r)

-- What a bound row gives by a name, once the name leads to a column.
get_named_lem :
    (api : Api) (t : Target) (name : Text) (i : Outcome ℕ) (g : ResultRange)
    → index_of name g.cache ≡ i
    → get_named api on_row t name g ≡ bind (i, g) (λ idx g. ((get api t (pos idx) g.result).0, g))
unfolding get_named raw column
get_named_lem api t name (ok i) g h = ground (arith, get-unchanged api t (pos i) g.result)
get_named_lem api t name (raise e) g h = ground arith
get_named_lem api t name undefined g h = ground arith

lookup-unchanged :
    (api : Api) (t : Target) (i : Outcome ℕ) (g : ResultRange)
    → (let read : ℕ → M ResultRange Value = λ idx g. ((get api t (pos idx) g.result).0, g) in
        bind (i, g) read).1
      ≡ g
lookup-unchanged api t (ok i) g = refl
lookup-unchanged api t (raise e) g = refl
lookup-unchanged api t undefined g = refl

pub get_named-unchanged :
    (api : Api) (t : Target) (name : Text) (g : ResultRange) → (get_named api on_row t name g).1 ≡ g
get_named-unchanged api t name g =
    ap (λ o. o.1) (get_named_lem api t name (index_of name g.cache) g refl)
    ∙ lookup-unchanged api t (index_of name g.cache) g

pub named-get :
    (api : Api) (t : Target) (name : Text) (i : ℕ) (g : ResultRange) (rs : List Result)
    → index_of name g.cache ≡ ok i
    → map (λ r. (get_named api on_row t name (at g r)).0) rs ≡ map (λ r. (get api t (pos i) r).0) rs
named-get api t name i g [] h = refl
named-get api t name i g (r ∷ rs) h =
    ground (arith, get_named_lem api t name (ok i) (at g r) h, named-get api t name i g rs h)
