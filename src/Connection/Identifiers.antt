-- ===== src/Connection/Identifiers.antt =====
-- How SQL reads what `quote_identifier` of connection.cpp and view.cpp writes.
use vsqlite.Base.{
  ℕ, ◌≡◌, ◌≢◌, refl, ap, ◌∙◌, Text, [], ◌∷◌, ◌++◌, Option, none, some, arith, ◌==◌, if◌then◌else◌,
  inl, inr, Bool-cases,
}
use mathlib.Core.List.{append_assoc}
use vsqlite.Connection.Paths.{quote_identifier, double_quotes}

abbrev with_char : ℕ → Option (Text × Text) → Option (Text × Text)
with_char c none = none
with_char c (some (s, rest)) = some (c ∷ s, rest)

-- The SQL reading of a quoted identifier behind its first quote: two quotes stand for one, and a
-- single one ends it. The result is the identifier and what follows it.
pub read_quoted : Text → Option (Text × Text)
read_quoted [] = none
read_quoted (c ∷ []) = if c == b'"' then some ([], []) else none
read_quoted (c ∷ d ∷ s) =
    let same = with_char b'"' (read_quoted s) in
    let next = with_char c (read_quoted (d ∷ s)) in
    if c == b'"' then (if d == b'"' then same else some ([], d ∷ s)) else next

pub read_identifier : Text → Option (Text × Text)
read_identifier [] = none
read_identifier (c ∷ s) = if c == b'"' then read_quoted s else none

-- What follows does not begin with a quote.
abbrev pub Unquoted : Text → Type 0
Unquoted [] = Unit {0}
Unquoted (c ∷ s) = c ≢ b'"'

read_quoted-end : (rest : Text) → Unquoted rest → read_quoted (b'"' ∷ rest) ≡ some ([], rest)
unfolding read_quoted
read_quoted-end [] h = refl
read_quoted-end (c ∷ rest) h = ground arith

read_quoted-plain :
    (c : ℕ) (s : Text) → c ≢ b'"' → s ≢ [] → read_quoted (c ∷ s) ≡ with_char c (read_quoted s)
unfolding read_quoted
read_quoted-plain c [] h n = absurd (n refl)
read_quoted-plain c (d ∷ s) h n = ground arith

read_quoted-pair : (s : Text) → read_quoted (b'"' ∷ b'"' ∷ s) ≡ with_char b'"' (read_quoted s)
unfolding read_quoted
read_quoted-pair s = refl

append-ne-nil : (s : Text) (c : ℕ) (t : Text) → s ++ c ∷ t ≢ []
append-ne-nil [] c t = λ e. cc
append-ne-nil (x ∷ s) c t = λ e. cc

read_quoted-double_quotes :
    (s rest : Text) → Unquoted rest → read_quoted (double_quotes s ++ b'"' ∷ rest) ≡ some (s, rest)
unfolding double_quotes
read_quoted-double_quotes [] rest h = read_quoted-end rest h
read_quoted-double_quotes (c ∷ s) rest h = elim (Bool-cases (c == b'"')) [
  | inl same ↦ rw same (rw (read_quoted-pair, read_quoted-double_quotes s rest h) (ground arith))
  | inr other ↦ rw other (
      read_quoted-plain c (double_quotes s ++ b'"' ∷ rest) (ground arith)
        (append-ne-nil (double_quotes s) b'"' rest)
      ∙ ap (with_char c) (read_quoted-double_quotes s rest h))
]

-- Whatever the name holds, the SQL that is built reads it back as that one identifier, and the text
-- behind it is untouched.
pub read_identifier-quote_identifier :
    (s rest : Text) → Unquoted rest → read_identifier (quote_identifier s ++ rest) ≡ some (s, rest)
unfolding quote_identifier read_identifier
read_identifier-quote_identifier s rest h =
    ap read_quoted (append_assoc (double_quotes s) (b'"' ∷ []) rest)
    ∙ read_quoted-double_quotes s rest h
