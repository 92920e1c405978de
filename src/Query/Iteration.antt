-- ===== src/Query/Iteration.antt =====
-- A range-based loop over the rows of a query.
use vsqlite.Base.{
  ℕ, zero, suc, ◌+◌, ◌≡◌, ◌⊎◌, inl, inr, refl, sym, ap, subst, ◌∙◌, arith, true, false, List, [],
  ◌∷◌, map, M, bind, pure, Outcome, ok, raise, undefined, is_ok, Option, some,
}
use mathlib.Core.Option
use vsqlite.Sqlite.{Api}
use vsqlite.Command.{Command}
use vsqlite.Command
use vsqlite.Result.{Result, next_row}
use vsqlite.Query.{ResultRange, advance}
use vsqlite.Query.Rows.{RowsLeft, stepped}
use vsqlite.Query.Iterators.{RowView, Iterator, Walk, on_row, placed, next, equal, for_rows}

-- The result where it stands on each of so many rows.
abbrev pub rows : Api → ℕ → Result → List Result
rows api zero r = []
rows api (suc k) r =
    let r' : Result = record r { query = (Command.step api r.query).1 } in r' ∷ rows api k r'

abbrev in_front : {A : Type 0} → A → Outcome (List A) → Outcome (List A)
in_front v (ok vs) = ok (v ∷ vs)
in_front v (raise e) = raise e
in_front v undefined = undefined

-- What a loop collects: the values, or the first exception.
abbrev pub collect : {A : Type 0} → List (Outcome A) → Outcome (List A)
collect [] = ok []
collect (ok v ∷ os) = in_front v (collect os)
collect (raise e ∷ os) = raise e
collect (undefined ∷ os) = undefined

abbrev pub finished : {A : Type 0} → Outcome A → Outcome (Option A)
finished (ok a) = ok (some a)
finished (raise e) = raise e
finished undefined = undefined

-- An iterator that stands on a row.
abbrev pub standing : Iterator
standing = record { refers = true; ended = false; cached = true; current = on_row }

abbrev pub at : ResultRange → Result → ResultRange
at g r = record g { result = r }

abbrev pub exhausted : Api → ℕ → Result → Result
exhausted api k r = record r { query = stepped api 1 (stepped api k r.query); ended = true }

-- The rest of a loop, after a row that gave a value.
abbrev onward :
    {A : Type 0} → A → Outcome (Option (List A)) × Walk → Outcome (Option (List A)) × Walk
onward v out = bind out (λ rest. pure (Option.map (λ vs. v ∷ vs) rest))

onward-in_front :
    {A : Type 0} (v : A) (out : Outcome (Option (List A)) × Walk) (c : Outcome (List A))
    (g : ResultRange)
    → out.0 ≡ finished c
    → (is_ok c ≡ false) ⊎ (out.1.range ≡ g)
    → ((onward v out).0 ≡ finished (in_front v c))
      × ((is_ok (in_front v c) ≡ false) ⊎ ((onward v out).1.range ≡ g))
onward-in_front v (o, w) (ok vs) g h k = ground (arith)
onward-in_front v (o, w) (raise e) g h k = ground (arith)
onward-in_front v (o, w) undefined g h k = ground (arith)

module _ {A : Type 0} (api : Api) (body : RowView → M ResultRange A) where
  -- What a loop comes to that reads these rows, and leaves this result where no row throws.
  abbrev pub Reads :
      ResultRange → List Result → Result → Outcome (Option (List A)) × ResultRange → Type 0
  Reads g rs last out =
      (out.0 ≡ finished (collect (map (λ r. (body on_row (at g r)).0) rs)))
      × ((is_ok (collect (map (λ r. (body on_row (at g r)).0) rs)) ≡ false) ⊎ (out.1 ≡ at g last))

  abbrev pub looped : ℕ → ResultRange → Outcome (Option (List A)) × ResultRange
  looped n g =
      let (o, w) = for_rows api body n (record { range = g; it = standing }) in (o, w.range)

  last_row :
      (n : ℕ) (g : ResultRange) (b : Outcome A)
      → body on_row g ≡ (b, g)
      → g.result.ended ≡ false
      → (Command.step api g.result.query).0 ≡ ok false
      → Reads g (g.result ∷ []) (exhausted api 0 g.result) (looped (suc (suc n)) g)
  unfolding for_rows next placed equal advance next_row
  last_row n g (ok v) e h l = ground (arith)
  last_row n g (raise x) e h l = ground (arith)
  last_row n g undefined e h l = ground (arith)

  abbrev standing_on : ResultRange → Walk
  standing_on g = record { range = g; it = standing }

  one_turn :
      (n : ℕ) (g : ResultRange) (r : Result) (v : A)
      → body on_row g ≡ (ok v, g)
      → g.result.ended ≡ false
      → (Command.step api g.result.query).0 ≡ ok true
      → r ≡ record (g.result) { query = (Command.step api g.result.query).1 }
      → for_rows api body (suc n) (standing_on g)
        ≡ onward v (for_rows api body n (standing_on (at g r)))
  unfolding for_rows next placed equal advance next_row
  one_turn n g r v e h l q = ground arith

  -- A row that gave a value, before others.
  valued_row :
      (n : ℕ) (g : ResultRange) (rs : List Result) (last : Result) (v : A)
      (out : Outcome (Option (List A)) × Walk)
      → (body on_row g).0 ≡ ok v
      → for_rows api body (suc n) (standing_on g) ≡ onward v out
      → Reads g rs last (out.0, out.1.range)
      → Reads g (g.result ∷ rs) last (looped (suc n) g)
  valued_row n g rs last v out now t p =
      let c = collect (map (λ r. (body on_row (at g r)).0) rs) in
      let f = onward-in_front v out c (at g last) p.0 p.1 in
      let same = ap collect (ap (λ b. b ∷ map (λ r. (body on_row (at g r)).0) rs) now) in
      let there = ap (λ w. w.1.range) t in
      (
        ap (λ w. w.0) t ∙ f.0 ∙ ap finished (sym same),
        elim f.1 [ inl h ↦ inl (ap is_ok same ∙ h) | inr h ↦ inr (there ∙ h) ],
      )

  more_rows :
      (n : ℕ) (g : ResultRange) (r : Result) (rs : List Result) (last : Result) (b : Outcome A)
      → body on_row g ≡ (b, g)
      → g.result.ended ≡ false
      → (Command.step api g.result.query).0 ≡ ok true
      → r ≡ record (g.result) { query = (Command.step api g.result.query).1 }
      → Reads g rs last (looped n (at g r))
      → Reads g (g.result ∷ rs) last (looped (suc n) g)
  unfolding equal for_rows
  more_rows n g r rs last (ok v) e h l q p =
      valued_row n g rs last v (for_rows api body n (standing_on (at g r))) (ap (λ w. w.0) e)
        (one_turn n g r v e h l q) p
  more_rows n g r rs last (raise x) e h l q p = ground (arith)
  more_rows n g r rs last undefined e h l q p = ground (arith)

  pair : {g : ResultRange} → (body on_row g).1 ≡ g → body on_row g ≡ ((body on_row g).0, g)
  pair e = ground arith

  module _ (unchanged : (g : ResultRange) → (body on_row g).1 ≡ g) where
    pub looped-Reads :
        (k n : ℕ) (g : ResultRange)
        → g.result.ended ≡ false
        → RowsLeft api k g.result.query
        → Reads g
            (g.result ∷ rows api k g.result)
            (exhausted api k g.result)
            (looped (n + (k + 2)) g)
    looped-Reads zero n g h l =
        subst (λ m. Reads g (g.result ∷ []) (exhausted api 0 g.result) (looped m g))
          (let e : suc (suc n) ≡ n + 2 = omega arith in e)
          (last_row n g (body on_row g).0 (pair (unchanged g)) h l)
    looped-Reads (suc k) n g h (now, later) =
        let r : Result = record (g.result) { query = (Command.step api g.result.query).1 } in
        subst
          (λ m.
            Reads g (g.result ∷ rows api (suc k) g.result) (exhausted api (suc k) g.result)
              (looped m g))
          (let e : suc (n + (k + 2)) ≡ n + (suc k + 2) = omega arith in e)
          (more_rows (n + (k + 2)) g r (r ∷ rows api k r) (exhausted api k r) (body on_row g).0
            (pair (unchanged g)) h now refl (looped-Reads k n (at g r) h later))
