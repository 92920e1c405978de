-- ===== src/Command/Keywords.antt =====
-- The first word of an SQL text, as command.cpp finds it to tell statements that change the schema.
use vsqlite.Base.{
  ℕ, ◌-◌, Bool, true, false, ◌&&◌, ◌||◌, Text, Text-discrete, List, [], ◌∷◌, codes, is_empty, ◌==◌,
  leb, if◌then◌else◌, ite,
}

-- The characters that `trim_left` drops: " \t\r\n".
abbrev pub is_trimmed : ℕ → Bool
is_trimmed c = c == b' ' || c == 9 || c == 13 || c == 10

unfoldable pub trim_left : Text → Text
trim_left [] = []
trim_left (c ∷ s) = if is_trimmed c then trim_left s else c ∷ s

-- `std::isspace` and `std::toupper` in the "C" locale.
abbrev pub isspace : ℕ → Bool
isspace c = c == b' ' || leb 9 c && leb c 13

abbrev pub toupper : ℕ → ℕ
toupper c = if leb b'a' c && leb c b'z' then c - 32 else c

abbrev pub ends_token : ℕ → Bool
ends_token c = isspace c || c == b';' || c == b'('

-- The loop of `first_token_upper`.
unfoldable pub token_upper : Text → Text
token_upper [] = []
token_upper (c ∷ s) = let rest = token_upper s in if ends_token c then [] else toupper c ∷ rest

unfoldable pub first_token_upper : Text → Text
unfolding trim_left token_upper
first_token_upper sql = token_upper (trim_left sql)

abbrev pub keywords : List Text
keywords = codes "ATTACH" ∷ codes "DETACH" ∷ codes "CREATE" ∷ codes "DROP" ∷ codes "ALTER" ∷ []

-- `for (auto keyword : keywords) if (token == keyword) return true;`
unfoldable pub matches_one : Text → List Text → Bool
unfolding Text-discrete
matches_one token [] = false
matches_one token (k ∷ ks) = ite (Text-discrete token k) true (matches_one token ks)

unfoldable pub is_schema_changing_statement : Text → Bool
unfolding first_token_upper matches_one
is_schema_changing_statement sql =
    let token = first_token_upper sql in
    if is_empty token then false else matches_one token keywords
