-- ===== src/Tests/Reading.antt =====
-- The theorems on results and queries at concrete inputs.
use vsqlite.Base.{
  pos, ◌≡◌, ◌⊎◌, map, inr, refl, true, false, [], ◌∷◌, ok, is_ok, is_defined, arith, codes, length,
  ltb, Text-discrete, if◌then◌else◌,
}
use vsqlite.Sqlite.{Api, Call}
use vsqlite.Connection
use vsqlite.Command.{Command}
use vsqlite.Command
use vsqlite.Command.Values.{Value, Argument, generic, direct}
use vsqlite.Result.Conversions.{Target, Width, cast, low_bits}
use vsqlite.Result.{Result}
use vsqlite.Result
use vsqlite.Result.Access
use vsqlite.Result.Access.{Read}
use vsqlite.Result.RoundTrip
use vsqlite.Result.RoundTrip.{Fits, FitsOptional}
use vsqlite.Query.{Position, ResultRange, ColumnCache}
use vsqlite.Query
use vsqlite.Query.Each
use vsqlite.Query.Iteration
use vsqlite.Query.Iterators
use vsqlite.Query.Rows
use vsqlite.Query.Rows.{stepped, replicate}
use vsqlite.Tests.Fixture.{demo_api, open_connection, select}

abbrev ready : Command
ready = record { con = open_connection; sql = select; stmt = 3; last_arg_idx = 0 }

abbrev row : Result
row = record { query = ready; statement = 3; changes = pos 0; ended = false; columns = 2 }

-- Two rows, and then no more.
abbrev two_rows : Api
two_rows = record demo_api { step = λ log s. if ltb (length log) 2 then 100 else 101 }

get-generic_example :
    Result.get demo_api (Target.optional (Target.integral Width.w8 true)) (pos 1) row
    ≡ (ok (Value.present (Value.int64 (pos 42))), row)
unfolding cast low_bits generic
get-generic_example =
    RoundTrip.get-generic demo_api 1 row (Target.optional (Target.integral Width.w8 true))
      (Value.present (Value.int64 (pos 42)))
      (FitsOptional.present (Target.integral Width.w8 true) (Value.int64 (pos 42))
        (Fits.integral Width.w8 true (pos 42) (omega arith)))
      (omega arith) (omega arith) (omega arith) (refl, refl, refl)

read_outside_example :
    (is_ok (Access.read demo_api Read.variant (pos 2) row).0 ≡ false)
    × (is_defined (Access.read demo_api Read.variant (pos 2) row).0 ≡ true)
    × ((Access.read demo_api Read.variant (pos 2) row).1 ≡ row)
read_outside_example =
    Access.read_outside demo_api Read.variant (pos 2) row (inr (inr (omega arith)))

get_result-RowsLeft_example :
    let (ps, r') = Rows.advances two_rows 1 row in
    let (qs, r'') = Rows.advances two_rows 1 (Result.reset r') in
    let (es, last) = Rows.advances two_rows 3 r'' in
    (ps ≡ replicate 1 Position.at_row)
    × (qs ≡ replicate 1 Position.at_row)
    × (es ≡ replicate 3 Position.at_end)
    × (last.query ≡ stepped two_rows 1 (stepped two_rows 1 (stepped two_rows 1 ready)))
unfolding Query.get_result Query.result_of Command.step Command.check_access Connection.access_check
    Command.advance
get_result-RowsLeft_example =
    Rows.get_result-RowsLeft two_rows 1 1 2 ready row (refl, (refl, refl)) refl

-- The command after `each(3)`.
abbrev asked : Command
asked = record ready {
  con = record open_connection {
    log = Call.bind_value 3 (pos 1) (direct (Value.int (pos 3))) ∷ [];
  };
  last_arg_idx = 1;
}

abbrev fresh : ResultRange
fresh = record {
  begin_called = false;
  cache = record { names = []; lookup = [] };
  result = record row { query = asked };
}

each_with-for_each_example :
    let out =
      Iterators.for_each two_rows
        (λ row. Iterators.get_named two_rows row (Target.integral Width.w64 true) (codes "a"))
        2
        fresh in
    let reads = Iteration.collect (
      map
        (λ r. (Result.get two_rows (Target.integral Width.w64 true) (pos 0) r).0)
        (Iteration.rows two_rows 1 fresh.result)) in
    (out.0 ≡ Iteration.finished reads)
    × ((is_ok reads ≡ false)
        ⊎ ((out.1 ≡ record {
          begin_called = true;
          cache = out.1.cache;
          result = Iteration.exhausted two_rows 1 fresh.result;
        })
            × (Iterators.begin two_rows out.1 ≡ (ok Iterators.end, out.1))))
unfolding Query.each_with Query.each Query.get_result Query.result_of Command.push_all
    Command.push_argument Command.push Command.bind_at Command.checked_bind Command.check_access
    Connection.access_check Command.step Command.advance Result.get_column_name Result.access_check
    Text-discrete direct
each_with-for_each_example =
    Each.each_with-for_each two_rows (Target.integral Width.w64 true) (codes "a")
      (codes "a" ∷ codes "a" ∷ []) 0 1 2 (Argument.next (Value.int (pos 3)) ∷ []) ready asked fresh
      refl refl (refl, (refl, tt)) refl (refl, refl) (omega arith)
