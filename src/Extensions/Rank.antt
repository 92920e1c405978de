-- ===== src/Extensions/Rank.antt =====
-- `simple_rank` of json_fts.cpp: the rank of a row counts the hits of all phrases. The iterator of
-- FTS5 is a parameter: its state, where `xPhraseFirst` and `xPhraseNext` leave it, and the column,
-- none where it is below 0. The score is a double that holds a whole number: 1.0 is added exactly
-- up to 2 ^ 53, and adding it there gives 2 ^ 53 again, by rounding to even.
use vsqlite.Base.{
  ap, ◌∙◌, ℕ, zero, suc, ◌+◌, ◌^◌, ◌<◌, ◌≤◌, ◌≡◌, arith, Option, none, some, if◌then◌else◌, ltb,
}

-- A place of an iterator, with the column that is stored there.
pub record Place (A : Type 0) : Type 0 where
  pub iter : A
  pub column : Option ℕ

pub record PhraseApi (A : Type 0) : Type 0 where
  pub phrase_count : ℕ
  pub first : ℕ → Place A
  pub next : A → Place A

abbrev pub exact_limit : ℕ
exact_limit = 2 ^ 53

abbrev pub add_one : ℕ → ℕ
add_one score = if ltb score exact_limit then score + 1 else score

module _ {A : Type 0} (api : PhraseApi A) where
  -- The inner loop; none where the fuel ends first.
  unfoldable pub count_hits : ℕ → Place A → ℕ → Option ℕ
  count_hits zero p score = none
  count_hits (suc fuel) p score =
      let more = count_hits fuel (api.next p.iter) (add_one score) in
      elim (p.column) as (λ _. Option ℕ) [ none ↦ some score | some col ↦ more ]

  -- The outer loop, over the phrases from a number on.
  unfoldable pub count_phrases : ℕ → ℕ → ℕ → ℕ → Option ℕ
  count_phrases fuel zero i score = some score
  count_phrases fuel (suc left) i score =
      elim (count_hits fuel (api.first i) score) as (λ _. Option ℕ) [
        | none ↦ none
        | some score' ↦ count_phrases fuel left (i + 1) score'
      ]

  -- The score that is reported.
  unfoldable pub simple_rank : ℕ → Option ℕ
  simple_rank fuel = count_phrases fuel api.phrase_count 0 0

abbrev pub capped : ℕ → ℕ
capped n = if ltb n exact_limit then n else exact_limit

-- The hits of the phrases from a number on.
abbrev pub total_from : (ℕ → ℕ) → ℕ → ℕ → ℕ
total_from hits zero i = 0
total_from hits (suc left) i = hits i + total_from hits left (i + 1)

-- An iterator that comes to its end after a number of places with a column.
pub data Enumerates {A : Type 0} (api : PhraseApi A) : Place A → ℕ → Type 0 where
  done : (p : Place A) → p.column ≡ none → Enumerates api p 0
  more :
      (p : Place A) (col n : ℕ)
      → p.column ≡ some col
      → Enumerates api (api.next p.iter) n
      → Enumerates api p (suc n)

add_one-le : (score : ℕ) → score ≤ exact_limit → add_one score ≤ exact_limit
add_one-le score s = ground arith

capped-add_one :
    (score n : ℕ) → score ≤ exact_limit → capped (add_one score + n) ≡ capped (score + suc n)
capped-add_one score n s = ground arith

capped_twice : (score n : ℕ) → capped (capped score + n) ≡ capped (score + n)
capped_twice score n = ground arith

some-capped : (m n : ℕ) → m ≡ n → some (capped m) ≡ some (capped n)
some-capped m n p = ap (λ k. some (capped k)) p

capped-le : (n : ℕ) → capped n ≤ exact_limit
capped-le n = ground arith

module _ {A : Type 0} (api : PhraseApi A) where
  count_hits_lem :
      (fuel : ℕ) (p : Place A) (n score : ℕ)
      → Enumerates api p n
      → n < fuel
      → score ≤ exact_limit
      → count_hits api fuel p score ≡ some (capped (score + n))
  unfolding count_hits
  count_hits_lem zero p n score e f s = absurd (omega arith)
  count_hits_lem (suc fuel) p zero score (done p' c) f s = rw c (ground arith)
  count_hits_lem (suc fuel) p (suc n) score (more p' col n' c e) f s = rw c (
      count_hits_lem fuel (api.next p.iter) n (add_one score) e (omega arith) (add_one-le score s)
      ∙ ap some (capped-add_one score n s))

  count_phrases_lem :
      (fuel left i score : ℕ) (hits : ℕ → ℕ)
      → ((j : ℕ) → Enumerates api (api.first j) (hits j))
      → total_from hits left i < fuel
      → score ≤ exact_limit
      → count_phrases api fuel left i score ≡ some (capped (score + total_from hits left i))
  unfolding count_phrases
  count_phrases_lem fuel zero i score hits e f s = ground arith
  count_phrases_lem fuel (suc left) i score hits e f s =
      let more = total_from hits left (i + 1) in
      let inner = count_hits_lem fuel (api.first i) (hits i) score (e i) (omega arith) s in
      rw (count_phrases, inner)
        (count_phrases_lem fuel left (i + 1) (capped (score + hits i)) hits e (omega arith)
            (capped-le (score + hits i))
          ∙ ap some (capped_twice (score + hits i) more)
          ∙ some-capped (score + hits i + more) (score + (hits i + more)) (omega arith))

  -- If FTS5 comes to the end of the hits of each phrase, as it documents, the rank ends, within as
  -- many turns as there are hits in all, and its score is their number, up to 2 ^ 53.
  pub simple_rank_lem :
      (hits : ℕ → ℕ) (fuel : ℕ)
      → ((i : ℕ) → Enumerates api (api.first i) (hits i))
      → total_from hits api.phrase_count 0 < fuel
      → simple_rank api fuel ≡ some (capped (total_from hits api.phrase_count 0))
  unfolding simple_rank
  simple_rank_lem hits fuel e f =
      let total = total_from hits api.phrase_count 0 in
      count_phrases_lem fuel api.phrase_count 0 0 hits e f (omega arith)
      ∙ some-capped (0 + total) total (omega arith)
