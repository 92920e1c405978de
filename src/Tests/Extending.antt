-- ===== src/Tests/Extending.antt =====
-- The theorems on JSON paths and on the extensions of SQLite at concrete inputs.
use vsqlite.Base.{
  ℕ, ◌-◌, ◌≡◌, ◌≢◌, ◌⊎◌, refl, Text, List, [], ◌∷◌, ◌++◌, codes, some, none, suc, ltb, pos, length,
  count, arith, to_decimal, digits_before, if◌then◌else◌,
}
use vsqlite.Json
use vsqlite.Json.{key, index, needs_quoted_key, quote_key, quote_rest}
use vsqlite.Json.Paths
use vsqlite.Json.Paths.{Segment}
use vsqlite.Json.Literals
use vsqlite.Json.Literals.{read_literal}
use vsqlite.Extensions.{ExtensionApi, World}
use vsqlite.Extensions.Statements
use vsqlite.Extensions.Statements.{Request, Registers, given, finalized}
use vsqlite.Extensions.Rank
use vsqlite.Extensions.Rank.{PhraseApi, Place, Enumerates, simple_rank, capped, total_from}

abbrev segments : List Segment
segments = Segment.member (codes "a_1") ∷ Segment.element 10 ∷ Segment.member (codes "x.\"y") ∷ []

-- What the builder makes of a plain key, an index and a key with a dot and a quote.
built : Paths.build segments ≡ codes "$.a_1[10].\"x.\"\"y\""
unfolding Paths.build Paths.build_from Json.root key index needs_quoted_key quote_key quote_rest
    to_decimal digits_before
built = refl

-- A key with a full stop goes into quotes.
abbrev plain_segments : List Segment
plain_segments = Segment.member (codes "a.b") ∷ Segment.element 10 ∷ Segment.member [] ∷ []

read_path-build_example :
    Paths.read_path (Paths.build plain_segments)
    ≡ (if Paths.any_quote plain_segments then none else some plain_segments)
read_path-build_example = Paths.read_path-build plain_segments (refl, (omega arith, (refl, tt)))

expression_literal_example :
    (extracted compared : Text) × (Json.extract_expression (codes "doc") (codes "$.a")
      ≡ ((codes "json_extract(" ++ codes "doc") ++ codes ", '") ++ extracted)
    × (Json.contains_expression (codes "doc") (codes "$.a") (codes "?1")
        ≡ ((codes "json_extract(" ++ codes "doc") ++ codes ", '") ++ compared)
    × (((count 39 (codes "$.a") ≡ 0)
          × (read_literal extracted ≡ some (codes "$.a", codes ")"))
          × (read_literal compared ≡ some (codes "$.a", codes ") = " ++ codes "?1")))
        ⊎ ((count 39 (codes "$.a") ≢ 0)
            × (read_literal extracted ≢ some (codes "$.a", codes ")"))
            × (read_literal compared ≢ some (codes "$.a", codes ") = " ++ codes "?1"))))
expression_literal_example = Literals.expression_literal (codes "doc") (codes "$.a") (codes "?1")

-- The text that SQLite reads where a key holds a single quote: an expression follows it.
injected : read_literal (codes "$.\"' || x || '\"')") ≡ some (codes "$.\"", codes " || x || '\"')")
unfolding read_literal
injected = refl

-- A SQLite that finds both extensions, and refuses the second function.
abbrev extended : ExtensionApi
extended = record {
  prepare = λ log db sql. (0, suc (length log));
  step = λ log s. 100;
  column_int = λ log s. pos 1;
  fts_api = λ log s. 9;
  errmsg = λ log db. [];
  create_function = λ log db name. if ltb (length log) 4 then 0 else 1;
  create_rank = λ log fts name. 1;
}

abbrev world : World
world = record { db = 7; log = [] }

abbrev requests : List Request
requests =
    Request.asks_fts
    ∷ Request.registers_contains (codes "f")
    ∷ Request.calls_contains (1 ∷ 2 ∷ 3 ∷ [])
    ∷ Request.registers_rank (codes "r")
    ∷ []

statements-finalized_example :
    let w' = Statements.perform_all extended requests world in
    given extended w'.log ≡ finalized w'.log
statements-finalized_example = Statements.statements-finalized extended requests world refl

-- Two phrases: each is hit in the columns of a number, down to 0, and then no more.
abbrev countdown : ℕ → Place ℕ
countdown n = record { iter = n - 1; column = if ltb 0 n then some (n - 1) else none }

abbrev phrases : PhraseApi ℕ
phrases = record { phrase_count = 2; first = λ i. countdown 2; next = countdown }

two_hits : Enumerates phrases (countdown 2) 2
two_hits =
    Enumerates.more (countdown 2) 1 1 refl
      (Enumerates.more (countdown 1) 0 0 refl (Enumerates.done (countdown 0) refl))

simple_rank_lem_example : simple_rank phrases 5 ≡ some (capped (total_from (λ i. 2) 2 0))
simple_rank_lem_example = Rank.simple_rank_lem phrases (λ i. 2) 5 (λ i. two_hits) (omega arith)
