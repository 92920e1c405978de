-- ===== src/View.antt =====
-- view.hpp and view.cpp. The object holds nothing but its connection.
use vsqlite.Base.{
  ◌≡◌, ◌≢◌, refl, ap, ◌∙◌, Bool, true, false, Text, [], ◌∷◌, ◌++◌, some, codes, is_empty, M,
  database_exception, ◌>>◌, throw_if, if◌then◌else◌, arith, ◌⊎◌, inl, inr, is_ok,
}
use vsqlite.Sqlite.{Api}
use vsqlite.Connection.{Connection}
use mathlib.Core.List.{append_assoc}
use vsqlite.Connection.Paths.{quote_identifier}
use vsqlite.Connection.Identifiers.{Unquoted, read_identifier, read_identifier-quote_identifier}
use vsqlite.Execute.{execute}

unfoldable pub schema_prefix : Text → Text
schema_prefix database = if is_empty database then [] else quote_identifier database ++ codes "."

pub no_database_create : Text
no_database_create = codes "Database name must not be empty when creating a qualified view."

pub no_database_drop : Text
no_database_drop = codes "Database name must not be empty when dropping a qualified view."

pub no_alias : Text
no_alias = codes "View alias must not be empty."

abbrev pub create_prefix : Bool → Text
create_prefix temporary =
    codes "CREATE " ++ ((if temporary then codes "TEMPORARY " else []) ++ codes "VIEW ")

abbrev pub drop_prefix : Text
drop_prefix = codes "DROP VIEW "

unfoldable pub create_sql : Bool → Text → Text → Text → Text
create_sql temporary database alias sql_query =
    create_prefix temporary
    ++ (schema_prefix database
        ++ (quote_identifier alias ++ (codes " AS " ++ (sql_query ++ codes ";"))))

unfoldable pub drop_sql : Text → Text → Text
drop_sql database alias =
    drop_prefix ++ (schema_prefix database ++ (quote_identifier alias ++ codes ";"))

-- `create(temporary, database, alias, sql_query)`
unfoldable pub create_in : Api → Bool → Text → Text → Text → M Connection (Unit {0})
create_in api temporary database alias sql_query = do
  throw_if (is_empty database) (database_exception no_database_create)
  throw_if (is_empty alias) (database_exception no_alias)
  execute api (create_sql temporary database alias sql_query) true

-- `create(temporary, alias, sql_query)`
unfoldable pub create : Api → Bool → Text → Text → M Connection (Unit {0})
unfolding schema_prefix
create api temporary alias sql_query = do
  throw_if (is_empty alias) (database_exception no_alias)
  execute api (create_sql temporary [] alias sql_query) true

-- `drop(alias)`
unfoldable pub drop : Api → Text → M Connection (Unit {0})
drop api alias = do
  throw_if (is_empty alias) (database_exception no_alias)
  execute api (drop_sql [] alias) true

-- `drop(database, alias)`
unfoldable pub drop_in : Api → Text → Text → M Connection (Unit {0})
drop_in api database alias = do
  throw_if (is_empty database) (database_exception no_database_drop)
  throw_if (is_empty alias) (database_exception no_alias)
  execute api (drop_sql database alias) true

schema_prefix-append :
    (database rest : Text)
    → database ≢ []
    → schema_prefix database ++ rest ≡ quote_identifier database ++ (codes "." ++ rest)
unfolding schema_prefix
schema_prefix-append [] rest n = absurd (n refl)
schema_prefix-append (c ∷ database) rest n =
    append_assoc (quote_identifier (c ∷ database)) (codes ".") rest

-- What follows the keywords of a statement about a view, as SQL reads it: the database, a dot, the
-- alias, and then `rest`, whatever the two names hold.
abbrev pub ReadsQualified : Text → Text → Text → Text → Type 0
ReadsQualified sql database alias rest =
    (tail : Text) × (read_identifier sql ≡ some (database, codes "." ++ tail))
    × (read_identifier tail ≡ some (alias, rest))

reads_qualified :
    (database alias rest : Text)
    → database ≢ []
    → Unquoted rest
    → ReadsQualified
        (schema_prefix database ++ (quote_identifier alias ++ rest))
        database
        alias
        rest
reads_qualified database alias rest n h = (
  quote_identifier alias ++ rest,
  ap read_identifier (schema_prefix-append database (quote_identifier alias ++ rest) n)
      ∙ read_identifier-quote_identifier database (codes "." ++ (quote_identifier alias ++ rest))
          (λ e. absurd (omega arith)),
  read_identifier-quote_identifier alias rest h,
)

-- The statements that are executed for a view in a database name exactly that database and that
-- view; what stands behind them in the statement is the query of the caller, or nothing. An empty
-- name throws before SQLite is called.
pub qualified_names :
    (api : Api) (temporary : Bool) (database alias sql_query : Text) (con : Connection)
    → (((database ≡ []) ⊎ (alias ≡ []))
        × (is_ok (create_in api temporary database alias sql_query con).0 ≡ false)
        × (is_ok (drop_in api database alias con).0 ≡ false)
        × ((create_in api temporary database alias sql_query con).1 ≡ con)
        × ((drop_in api database alias con).1 ≡ con))
      ⊎ ((body : Text) × (tail : Text) × (create_in api temporary database alias sql_query con
            ≡ execute api (create_prefix temporary ++ body) true con)
          × (drop_in api database alias con ≡ execute api (drop_prefix ++ tail) true con)
          × ReadsQualified body database alias (codes " AS " ++ (sql_query ++ codes ";"))
          × ReadsQualified tail database alias (codes ";"))
unfolding create_in drop_in create_sql drop_sql
qualified_names api temporary [] alias sql_query con = inl (inl refl, refl, refl, refl, refl)
qualified_names api temporary (d ∷ database) [] sql_query con =
    inl (inr refl, refl, refl, refl, refl)
qualified_names api temporary (d ∷ database) (a ∷ alias) sql_query con = inr (
  schema_prefix (d ∷ database)
      ++ (quote_identifier (a ∷ alias) ++ (codes " AS " ++ (sql_query ++ codes ";"))),
  schema_prefix (d ∷ database) ++ (quote_identifier (a ∷ alias) ++ codes ";"),
  refl,
  refl,
  reads_qualified (d ∷ database) (a ∷ alias) (codes " AS " ++ (sql_query ++ codes ";")) (λ e. cc)
      (omega arith),
  reads_qualified (d ∷ database) (a ∷ alias) (codes ";") (λ e. cc) (omega arith),
)
