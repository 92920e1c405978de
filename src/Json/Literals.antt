-- ===== src/Json/Literals.antt =====
-- The SQL expressions with a path in them, by the string literal that SQLite finds there.
use mathlib.Core.List.{append_assoc}
use vsqlite.Base.{
  ℕ, suc, ◌+◌, ◌≡◌, ◌≢◌, ◌⊎◌, inl, inr, refl, ap, ◌∙◌, arith, false, Text, [], ◌∷◌, ◌++◌, codes,
  Option, none, some, ◌==◌, if◌then◌else◌, length, length-append, count, Bool-cases, ℕ_discrete,
  subst,
}
use vsqlite.Json.{extract_expression, contains_expression}

abbrev quote : ℕ
quote = b'\''

abbrev push : ℕ → Option (Text × Text) → Option (Text × Text)
push c none = none
push c (some (t, rest)) = some (c ∷ t, rest)

-- A string literal of SQL after its opening quote: it ends at the first quote that is not doubled.
unfoldable pub read_literal : Text → Option (Text × Text)
read_literal [] = none
read_literal (c ∷ []) = if c == quote then some ([], []) else none
read_literal (c ∷ d ∷ s) =
    let doubled = push quote (read_literal s) in
    let more = push c (read_literal (d ∷ s)) in
    if c == quote then if d == quote then doubled else some ([], d ∷ s) else more

-- A byte that is not a quote stands for itself.
read_literal-other :
    (c : ℕ) (s : Text) → (c == quote) ≡ false → read_literal (c ∷ s) ≡ push c (read_literal s)
unfolding read_literal
read_literal-other c [] p = ground arith
read_literal-other c (d ∷ s) p = ground arith

count_cons :
    (c : ℕ) (t : Text) → count quote (c ∷ t) ≡ 0 → ((c == quote) ≡ false) × (count quote t ≡ 0)
count_cons c t p = ground arith

read_literal-append :
    (t rest : Text)
    → count quote t ≡ 0
    → read_literal (t ++ quote ∷ b')' ∷ rest) ≡ some (t, b')' ∷ rest)
unfolding read_literal
read_literal-append [] rest p = refl
read_literal-append (c ∷ t) rest p =
    let (other, more) = count_cons c t p in
    read_literal-other c (t ++ quote ∷ b')' ∷ rest) other
    ∙ ap (push c) (read_literal-append t rest more)

-- Every byte of a literal takes one byte, a quote takes two, and one more ends it.
abbrev Spent : ℕ → Option (Text × Text) → Type 0
Spent n none = Unit
Spent n (some (t, rest)) = length t + count quote t + suc (length rest) ≡ n

push-quote-Spent :
    (n : ℕ) (o : Option (Text × Text)) → Spent n o → Spent (suc (suc n)) (push quote o)
push-quote-Spent n none p = tt
push-quote-Spent n (some (t, rest)) p = omega (arith, p)

push-Spent :
    (c n : ℕ) (o : Option (Text × Text))
    → (c == quote) ≡ false
    → Spent n o
    → Spent (suc n) (push c o)
push-Spent c n none q p = tt
push-Spent c n (some (t, rest)) q p = ground (arith, p)

read_literal-Spent : (s : Text) → Spent (length s) (read_literal s)
unfolding read_literal
read_literal-Spent [] = tt
read_literal-Spent (c ∷ []) = elim (Bool-cases (c == quote)) [ inl p ↦ rw p refl | inr p ↦ rw p tt ]
read_literal-Spent (c ∷ d ∷ s) = elim (Bool-cases (c == quote)) [
  | inl p ↦ rw p (elim (Bool-cases (d == quote)) [
    | inl q ↦ rw q (push-quote-Spent (length s) (read_literal s) (read_literal-Spent s))
    | inr q ↦ rw q (omega arith)
  ])
  | inr p ↦
      rw p (push-Spent c (suc (length s)) (read_literal (d ∷ s)) p (read_literal-Spent (d ∷ s)))
]

read_literal-length :
    (s t rest : Text)
    → read_literal s ≡ some (t, rest)
    → length t + count quote t + suc (length rest) ≡ length s
read_literal-length s t rest p = subst (Spent (length s)) p (read_literal-Spent s)

no_literal :
    (path rest : Text)
    → count quote path ≢ 0
    → read_literal (path ++ quote ∷ b')' ∷ rest) ≢ some (path, b')' ∷ rest)
no_literal path rest p e = p (
    omega (
      arith,
      read_literal-length (path ++ quote ∷ b')' ∷ rest) path (b')' ∷ rest) e,
      length-append path (quote ∷ b')' ∷ rest),
    ))

-- Both expressions are the call of `json_extract` up to the opening quote of a literal, and a rest.
-- If the path has no single quote, the literal that SQLite reads there is the path, and what
-- follows closes the call, before the comparison with the value in the second expression. If it
-- has one, neither literal is the path, since the functions do not double it.
pub expression_literal :
    (json_expr path value_expr : Text)
    → (extracted compared : Text) × (extract_expression json_expr path
        ≡ ((codes "json_extract(" ++ json_expr) ++ codes ", '") ++ extracted)
      × (contains_expression json_expr path value_expr
          ≡ ((codes "json_extract(" ++ json_expr) ++ codes ", '") ++ compared)
      × (((count quote path ≡ 0)
            × (read_literal extracted ≡ some (path, codes ")"))
            × (read_literal compared ≡ some (path, codes ") = " ++ value_expr)))
          ⊎ ((count quote path ≢ 0)
              × (read_literal extracted ≢ some (path, codes ")"))
              × (read_literal compared ≢ some (path, codes ") = " ++ value_expr))))
unfolding extract_expression contains_expression
expression_literal json_expr path value_expr = (
  path ++ codes "')",
  path ++ (codes "') = " ++ value_expr),
  simp append_assoc,
  simp append_assoc,
  elim (ℕ_discrete (count quote path) 0) [
    | yes p ↦
        inl
          (p, read_literal-append path [] p, read_literal-append path (codes " = " ++ value_expr) p)
    | no p ↦ inr (p, no_literal path [] p, no_literal path (codes " = " ++ value_expr) p)
  ],
)
