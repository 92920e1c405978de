-- ===== src/Query/Rows.antt =====
-- How the rows of a query are visited.
use vsqlite.Base.{
  ℕ, zero, suc, ◌≡◌, refl, sym, ap, subst, ◌∙◌, arith, true, false, List, [], ◌∷◌, Outcome, ok,
}
use vsqlite.Sqlite.{Api}
use vsqlite.Command.{Command}
use vsqlite.Command
use vsqlite.Connection
use vsqlite.Result.{Result, next_row, reset}
use vsqlite.Query.{Position, advance, get_result}

-- A command that has a number of rows to come, and then is done.
abbrev pub RowsLeft : Api → ℕ → Command → Type 0
RowsLeft api zero c = (Command.step api c).0 ≡ ok false
RowsLeft api (suc k) c = ((Command.step api c).0 ≡ ok true) × RowsLeft api k (Command.step api c).1

-- So many rows, and then as many as are counted by another number.
abbrev pub RowsThen : Api → ℕ → ℕ → Command → Type 0
RowsThen api zero j c = RowsLeft api j c
RowsThen api (suc k) j c =
    ((Command.step api c).0 ≡ ok true) × RowsThen api k j (Command.step api c).1

abbrev pub stepped : Api → ℕ → Command → Command
stepped api zero c = c
stepped api (suc k) c = stepped api k (Command.step api c).1

abbrev pub replicate : ℕ → Position → List (Outcome Position)
replicate zero p = []
replicate (suc k) p = ok p ∷ replicate k p

-- So many advances of an iterator, and where each of them leads.
abbrev pub advances : Api → ℕ → Result → List (Outcome Position) × Result
advances api zero r = ([], r)
advances api (suc k) r =
    let (p, r') = advance api r in let (ps, r'') = advances api k r' in (p ∷ ps, r'')

advances_ended :
    (api : Api) (m : ℕ) (r : Result)
    → r.ended ≡ true
    → advances api m r ≡ (replicate m Position.at_end, r)
unfolding advance next_row
advances_ended api zero r h = refl
advances_ended api (suc m) r h = ground (arith, advances_ended api m r h)

advances_rows :
    (api : Api) (k j : ℕ) (r : Result)
    → r.ended ≡ false
    → RowsThen api k j r.query
    → (advances api k r ≡ (replicate k Position.at_row, record r { query = stepped api k r.query }))
      × (RowsLeft api j (stepped api k r.query))
unfolding advance next_row
advances_rows api zero j r h l = (refl, l)
advances_rows api (suc k) j r h l =
    let r' : Result = record r { query = (Command.step api r.query).1 } in
    ground (arith, advances_rows api k j r' h l.1)

RowsLeft-RowsThen : (api : Api) (k : ℕ) (c : Command) → RowsLeft api k c → RowsThen api k 0 c
RowsLeft-RowsThen api zero c l = l
RowsLeft-RowsThen api (suc k) c (now, later) =
    (now, RowsLeft-RowsThen api k (Command.step api c).1 later)

advances-RowsLeft :
    (api : Api) (k m : ℕ) (r : Result)
    → r.ended ≡ false
    → RowsLeft api k r.query
    → let (ps, r') = advances api k r in
      let (qs, r'') = advances api (suc m) r' in
      (ps ≡ replicate k Position.at_row)
      × (qs ≡ replicate (suc m) Position.at_end)
      × (r'' ≡ record r { query = stepped api 1 (stepped api k r.query); ended = true })
unfolding advance next_row
advances-RowsLeft api k m r h l =
    let e = advances_rows api k 0 r h (RowsLeft-RowsThen api k r.query l) in
    let last : Result = (record r {
      query = (Command.step api (stepped api k r.query)).1;
      ended = true;
    }) in
    ground (arith, e, advances_ended api m last refl)

reset_running : (r : Result) → r.ended ≡ false → reset r ≡ r
unfolding reset
reset_running r h = ground arith

advances-reset :
    (api : Api) (k j m : ℕ) (r : Result)
    → r.ended ≡ false
    → RowsThen api k j r.query
    → let (ps, r') = advances api k r in
      let (qs, r'') = advances api j (reset r') in
      let (es, last) = advances api (suc m) r'' in
      (ps ≡ replicate k Position.at_row)
      × (qs ≡ replicate j Position.at_row)
      × (es ≡ replicate (suc m) Position.at_end)
      × (last.query ≡ stepped api 1 (stepped api j (stepped api k r.query)))
unfolding reset
advances-reset api k j m r h l =
    let (walked, left) = advances_rows api k j r h l in
    let r' : Result = record r { query = stepped api k r.query } in
    let (rows, ends, last) = advances-RowsLeft api j m r' h left in
    let same = ap (λ v. reset v.1) walked ∙ reset_running r' h in
    (
      ap (λ v. v.0) walked,
      ap (λ v. (advances api j v).0) same ∙ rows,
      ap (λ v. (advances api (suc m) (advances api j v).1).0) same ∙ ends,
      ap (λ v. (advances api (suc m) (advances api j v).1).1.query) same ∙ ap (λ v. v.query) last,
    )

get_result_lem :
    (api : Api) (c : Command) (r : Result)
    → (get_result api c).0 ≡ ok r
    → (r.query ≡ c) × (r.ended ≡ false)
unfolding get_result Command.check_access Connection.access_check
get_result_lem api c r h = ground arith

-- If a query has k and then j rows to come, the result of `get_result` stands on a row for k
-- advances; a `reset` then does not lead back to the first row, but the result stands on a row for j
-- more advances, and is at the end for ever after them. The statement is stepped k + j + 1 times,
-- however often the result is advanced after that.
pub get_result-RowsLeft :
    (api : Api) (k j m : ℕ) (c : Command) (r : Result)
    → RowsThen api k j c
    → (get_result api c).0 ≡ ok r
    → let (ps, r') = advances api k r in
      let (qs, r'') = advances api j (reset r') in
      let (es, last) = advances api (suc m) r'' in
      (ps ≡ replicate k Position.at_row)
      × (qs ≡ replicate j Position.at_row)
      × (es ≡ replicate (suc m) Position.at_end)
      × (last.query ≡ stepped api 1 (stepped api j (stepped api k c)))
get_result-RowsLeft api k j m c r l h =
    let (q, e) = get_result_lem api c r h in
    let (ps, qs, es, last) = advances-reset api k j m r e (subst (RowsThen api k j) (sym q) l) in
    (ps, qs, es, last ∙ ap (λ d. stepped api 1 (stepped api j (stepped api k d))) q)
