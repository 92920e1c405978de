-- ===== src/Tests/Functions.antt =====
-- The theorems on functions of SQL at concrete inputs.
use vsqlite.Base.{
  suc, ◌≡◌, ◌⊎◌, subst, pos, negsuc, true, false, refl, Text, List, [], ◌∷◌, codes, some, length,
  ok, raise, database_exception, arith,
}
use vsqlite.Result.Conversions.{Width, cast, low_bits}
use vsqlite.Function.{
  SqlValue, Parameter, Datum, Report, Invocation, Callable, convert, convert_all, reported,
  function_entry, write, invoke,
}
use vsqlite.Function.Entry
use vsqlite.Function.Conversions
use vsqlite.Function.Conversions.{Fits, FitsOptional}
use vsqlite.Function.Types
use vsqlite.Function.Registration
use vsqlite.Function.Registration.{FunctionApi, Registry, Options, default_options, Ways}

-- A value that holds 2^64 - 1 in the 64 bits that SQLite keeps.
abbrev all_ones : SqlValue
all_ones = record {
  kind = 1;
  int64 = negsuc 0;
  int = negsuc 0;
  double = 0;
  text = some (codes "-1");
  blob = codes "-1";
}

abbrev u64 : Parameter
u64 = Parameter.integral Width.w64 false

-- A callable that gives nothing back.
abbrev silent : Callable
silent args = Invocation.returns Datum.nothing

nothing_fits : Entry.WellTyped silent
nothing_fits args d e = subst Entry.IsWritable (returned e) tt
  where
    returned : Invocation.returns Datum.nothing ≡ Invocation.returns d → Datum.nothing ≡ d
    returned h = cc

function_entry_lem_example :
    ((Entry.accepts (u64 ∷ []) (all_ones ∷ []) ≡ true)
      × (args : List Datum) × (r : Report) × (convert_all (u64 ∷ []) (all_ones ∷ []) ≡ ok args)
      × (reported (silent args) ≡ r ∷ [])
      × (function_entry true (u64 ∷ []) silent (all_ones ∷ [])
          ≡ ok (record { runs = args ∷ []; reports = r ∷ [] })))
    ⊎ ((Entry.accepts (u64 ∷ []) (all_ones ∷ []) ≡ false)
        × (message : Text) × (function_entry true (u64 ∷ []) silent (all_ones ∷ [])
            ≡ ok (record { runs = []; reports = Report.result_error message ∷ [] })))
function_entry_lem_example = Entry.function_entry_lem (u64 ∷ []) silent (all_ones ∷ []) nothing_fits

convert-write_example : convert u64 all_ones ≡ ok (Datum.integer (pos 18446744073709551615))
unfolding write cast low_bits
convert-write_example =
    Conversions.convert-write u64 (Datum.integer (pos 18446744073709551615)) all_ones
      (FitsOptional.plain u64 (Datum.integer (pos 18446744073709551615))
        (Fits.integral Width.w64 false (pos 18446744073709551615) (omega arith)))
      (refl, refl, refl)

-- A SQLite that refuses every function.
abbrev refusing : FunctionApi
refusing = record {
  allocate = λ log. suc (length log);
  create_function_v2 = λ log h name arity rep holder. 21;
  errmsg = λ log h. some (codes "bad parameter");
}

abbrev registry : Registry
registry = record { handle = 1; log = [] }

create_function-Ways_example :
    ((Registration.asks_other 2 (negsuc 0) ≡ true)
      × (Registration.create_function refusing (codes "f") 2 default_options registry
          ≡ (raise (database_exception Registration.arity_mismatch), registry)))
    ⊎ ((Registration.asks_other 2 (negsuc 0) ≡ false)
        × Ways refusing 1 registry
            (Registration.create_function refusing (codes "f") 2 default_options registry))
create_function-Ways_example =
    Registration.create_function-Ways refusing (codes "f") 2 default_options registry

function_entry-AllRead_example :
    Types.AllRead (u64 ∷ []) (all_ones ∷ []) ((Datum.integer (pos 18446744073709551615) ∷ []) ∷ [])
unfolding function_entry invoke convert_all convert write cast low_bits
function_entry-AllRead_example =
    Types.function_entry-AllRead true (u64 ∷ []) silent (all_ones ∷ [])
      (record {
        runs = (Datum.integer (pos 18446744073709551615) ∷ []) ∷ [];
        reports = Report.result_null ∷ [];
      })
      refl
