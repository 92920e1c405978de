-- ===== src/Json.antt =====
-- The JSON half of json_fts.cpp and json_fts.hpp: paths and the SQL expressions that hold them. The
-- bytes of a text are below 256, and `std::isalnum` is that of the C locale.
pub mod Paths
pub mod Literals
use vsqlite.Base.{
  ℕ, Bool, true, false, not, ◌||◌, ◌&&◌, Text, List, [], ◌∷◌, ◌++◌, codes, leb, ◌==◌, to_decimal,
  if◌then◌else◌, is_digit,
}

abbrev pub is_alnum : ℕ → Bool
is_alnum c = is_digit c || ((leb b'A' c && leb c b'Z') || (leb b'a' c && leb c b'z'))

-- A byte that an unquoted key may hold.
abbrev pub is_plain : ℕ → Bool
is_plain c = is_alnum c || c == b'_'

abbrev pub any_special : Text → Bool
any_special [] = false
any_special (c ∷ s) = not (is_plain c) || any_special s

unfoldable pub needs_quoted_key : Text → Bool
needs_quoted_key [] = true
needs_quoted_key (c ∷ s) = any_special (c ∷ s)

-- The loop of `quote_key`, with what is pushed after it.
unfoldable pub quote_rest : Text → Text
quote_rest [] = b'"' ∷ []
quote_rest (c ∷ s) = if c == b'"' then b'"' ∷ c ∷ quote_rest s else c ∷ quote_rest s

unfoldable pub quote_key : Text → Text
unfolding quote_rest
quote_key k = b'"' ∷ quote_rest k

-- A builder is its path; a method gives the builder after it.
unfoldable pub root : Text
root = codes "$"

unfoldable pub key : Text → Text → Text
key path segment =
    path ++ (b'.' ∷ (if needs_quoted_key segment then quote_key segment else segment))

unfoldable pub index : Text → ℕ → Text
index path idx = ((path ++ (b'[' ∷ [])) ++ to_decimal idx) ++ (b']' ∷ [])

unfoldable pub extract_expression : Text → Text → Text
extract_expression json_expr path =
    (((codes "json_extract(" ++ json_expr) ++ codes ", '") ++ path) ++ codes "')"

unfoldable pub contains_expression : Text → Text → Text → Text
contains_expression json_expr path value_expr =
    ((((codes "json_extract(" ++ json_expr) ++ codes ", '") ++ path) ++ codes "') = ") ++ value_expr
