-- ===== src/Command/Tokens.antt =====
-- Which texts command.cpp takes for statements that change the schema.
use vsqlite.Base.{
  ℕ, ◌+◌, ◌≡◌, ◌≢◌, refl, Bool, true, false, ◌||◌, ◌&&◌, ◌==◌, List, Text, Text-discrete, [], ◌∷◌,
  ◌++◌, codes, map, arith, ite, if_pos, if_neg, ap, ◌∙◌, leb, ◌⊎◌, inl, inr,
}
use vsqlite.Command.Keywords.{
  is_trimmed, trim_left, toupper, ends_token, token_upper, keywords, matches_one,
  is_schema_changing_statement,
}

abbrev pub All : (ℕ → Bool) → Bool → Text → Type 0
All p b [] = Unit {0}
All p b (c ∷ s) = (p c ≡ b) × All p b s

abbrev pub among : ℕ → List ℕ → Bool
among c [] = false
among c (d ∷ ds) = c == d || among c ds

-- Tab, newline, carriage return and space.
abbrev pub blanks : List ℕ
blanks = 9 ∷ 10 ∷ 13 ∷ 32 ∷ []

-- The blanks, the vertical tab, the form feed, a semicolon and an opening bracket.
abbrev pub enders : List ℕ
enders = 9 ∷ 10 ∷ 11 ∷ 12 ∷ 13 ∷ 32 ∷ 59 ∷ 40 ∷ []

-- What follows a word: nothing, or a character that ends it.
abbrev pub Ends : Text → Type 0
Ends [] = Unit {0}
Ends (c ∷ s) = among c enders ≡ true

-- Whether a word is a keyword, letter by letter, in upper or lower case.
abbrev pub spells : Text → Text → Bool
spells [] [] = true
spells (c ∷ s) (k ∷ ks) = (c == k || c == k + 32) && spells s ks
spells _ _ = false

All-map :
    (p q : ℕ → Bool) (b : Bool) (s : Text) → ((c : ℕ) → p c ≡ b → q c ≡ b) → All p b s → All q b s
All-map p q b [] f h = tt
All-map p q b (c ∷ s) f h = (f c h.0, All-map p q b s f h.1)

abbrev pub spells_one : Text → List Text → Bool
spells_one word [] = false
spells_one word (k ∷ ks) = spells word k || spells_one word ks

abbrev is_upper : Text → Bool
is_upper [] = true
is_upper (k ∷ ks) = leb 65 k && leb k 90 && is_upper ks

abbrev are_upper : List Text → Bool
are_upper [] = true
are_upper (k ∷ ks) = is_upper k && are_upper ks

trim_left-append :
    (blank s : Text) → All is_trimmed true blank → trim_left (blank ++ s) ≡ trim_left s
unfolding trim_left
trim_left-append [] s h = refl
trim_left-append (c ∷ blank) s h = ground (arith, trim_left-append blank s h.1)

token_upper-append :
    (word rest : Text)
    → All ends_token false word
    → Ends rest
    → token_upper (word ++ rest) ≡ map toupper word
unfolding token_upper
token_upper-append [] [] h e = refl
token_upper-append [] (c ∷ rest) h e = ground arith
token_upper-append (c ∷ word) rest h e = ground (arith, token_upper-append word rest h.1 e)

trim_left-word :
    (word rest : Text)
    → word ≢ []
    → All ends_token false word
    → trim_left (word ++ rest) ≡ word ++ rest
unfolding trim_left
trim_left-word [] rest n h = absurd (n refl)
trim_left-word (c ∷ word) rest n h = ground arith

schema_lem :
    (blank word rest : Text)
    → All is_trimmed true blank
    → word ≢ []
    → All ends_token false word
    → Ends rest
    → is_schema_changing_statement (blank ++ (word ++ rest))
      ≡ matches_one (map toupper word) keywords
unfolding is_schema_changing_statement
schema_lem blank [] rest b n h e = absurd (n refl)
schema_lem blank (c ∷ word) rest b n h e =
    rw (trim_left-append blank (c ∷ (word ++ rest)) b, trim_left-word (c ∷ word) rest n h)
      (rw (token_upper-append (c ∷ word) rest h e))

spells-toupper :
    (word keyword : Text)
    → is_upper keyword ≡ true
    → ((spells word keyword ≡ true) × (map toupper word ≡ keyword))
      ⊎ ((spells word keyword ≡ false) × (map toupper word ≢ keyword))
spells-toupper [] [] u = inl (refl, refl)
spells-toupper [] (k ∷ ks) u = inr (refl, λ e. cc)
spells-toupper (c ∷ s) [] u = inr (refl, λ e. cc)
spells-toupper (c ∷ s) (k ∷ ks) u = ground (arith, spells-toupper s ks)

spells_lem :
    (word keyword : Text) (b : Bool)
    → is_upper keyword ≡ true
    → ite (Text-discrete (map toupper word) keyword) true b ≡ spells word keyword || b
spells_lem word keyword b u = elim (spells-toupper word keyword u) [
  | inl (p, e) ↦ rw p (if_pos (Text-discrete (map toupper word) keyword) e true b)
  | inr (p, e) ↦ rw p (if_neg (Text-discrete (map toupper word) keyword) e true b)
]

matches_one-spells :
    (word : Text) (ks : List Text)
    → are_upper ks ≡ true
    → matches_one (map toupper word) ks ≡ spells_one word ks
unfolding matches_one
matches_one-spells word [] u = refl
matches_one-spells word (k ∷ ks) u =
    let first : is_upper k ≡ true = ground arith in
    let rest : are_upper ks ≡ true = ground arith in
    spells_lem word k (matches_one (map toupper word) ks) first
    ∙ ap (λ b. spells word k || b) (matches_one-spells word ks rest)

-- Behind blanks, a statement changes the schema exactly if its first word is ATTACH, DETACH, CREATE,
-- DROP or ALTER, each letter in upper or lower case; white space, a semicolon or an opening bracket
-- ends the word.
pub is_schema_changing_statement-append :
    (blank word rest : Text)
    → All (λ c. among c blanks) true blank
    → word ≢ []
    → All (λ c. among c enders) false word
    → Ends rest
    → is_schema_changing_statement (blank ++ (word ++ rest))
      ≡ spells_one word
          (codes "ATTACH" ∷ codes "DETACH" ∷ codes "CREATE" ∷ codes "DROP" ∷ codes "ALTER" ∷ [])
is_schema_changing_statement-append blank word rest b n h e =
    schema_lem blank word rest
      (All-map (λ c. among c blanks) is_trimmed true blank (λ c p. ground arith) b) n
      (All-map (λ c. among c enders) ends_token false word (λ c p. ground arith) h) e
    ∙ matches_one-spells word keywords refl
