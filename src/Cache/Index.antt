-- ===== src/Cache/Index.antt =====
-- The containers behind statement_cache: std::list<entry>, whose nodes have an identity, and
-- std::unordered_map from a text to an iterator, as an association list.
use vsqlite.Base.{
  ℕ, ◌<◌, ◌≤◌, ◌≡◌, ◌≢◌, Text, Text-discrete, List, [], ◌∷◌, Option, none, some, ite, ℕ_discrete,
  arith, length,
}

pub record Entry : Type 0 where
  pub node : ℕ
  pub sql : Text
  pub stmt : ℕ

unfoldable pub map_find : Text → List (Text × ℕ) → Option ℕ
map_find k [] = none
map_find k ((j, v) ∷ m) = ite (Text-discrete j k) (some v) (map_find k m)

unfoldable pub map_erase : Text → List (Text × ℕ) → List (Text × ℕ)
map_erase k [] = []
map_erase k ((j, v) ∷ m) = ite (Text-discrete j k) (map_erase k m) ((j, v) ∷ map_erase k m)

-- `map_[k] = v;`
unfoldable pub map_set : Text → ℕ → List (Text × ℕ) → List (Text × ℕ)
unfolding map_erase
map_set k v m = (k, v) ∷ map_erase k m

-- `*it`
unfoldable pub node_at : ℕ → List Entry → Option Entry
node_at n [] = none
node_at n (e ∷ es) = ite (ℕ_discrete e.node n) (some e) (node_at n es)

-- `lru_.erase(it)`
unfoldable pub erase_node : ℕ → List Entry → List Entry
erase_node n [] = []
erase_node n (e ∷ es) = ite (ℕ_discrete e.node n) es (e ∷ erase_node n es)

-- What the list holds for a text, and the list without it: the view of the list by its keys.
unfoldable pub entry_find : Text → List Entry → Option Entry
entry_find k [] = none
entry_find k (e ∷ es) = ite (Text-discrete e.sql k) (some e) (entry_find k es)

unfoldable pub entry_erase : Text → List Entry → List Entry
entry_erase k [] = []
entry_erase k (e ∷ es) = ite (Text-discrete e.sql k) es (e ∷ entry_erase k es)

pub map_find-map_erase :
    (k j : Text) (m : List (Text × ℕ))
    → map_find k (map_erase j m) ≡ ite (Text-discrete j k) none (map_find k m)
unfolding map_find map_erase
map_find-map_erase k j [] = ground arith
map_find-map_erase k j ((i, v) ∷ m) = ground (arith, map_find-map_erase k j m)

pub map_find-map_set :
    (k j : Text) (v : ℕ) (m : List (Text × ℕ))
    → map_find k (map_set j v m) ≡ ite (Text-discrete j k) (some v) (map_find k m)
unfolding map_find map_set
map_find-map_set k j v m = ground (arith, map_find-map_erase k j m)

-- The identities fall along the list, from below a bound.
abbrev pub Below : ℕ → List Entry → Type 0
Below n [] = Unit {0}
Below n (e ∷ es) = (e.node < n) × Below e.node es

pub Below-mono : {m n : ℕ} (es : List Entry) → m ≤ n → Below m es → Below n es
Below-mono [] h b = tt
Below-mono (e ∷ es) h b = (omega arith, b.1)

-- No text stands twice.
abbrev pub Distinct : List Entry → Type 0
Distinct [] = Unit {0}
Distinct (e ∷ es) = (entry_find e.sql es ≡ none) × Distinct es

abbrev pub Live : List Entry → Type 0
Live [] = Unit {0}
Live (e ∷ es) = (e.stmt ≢ 0) × Live es

pub entry_find-sql : (k : Text) (es : List Entry) (e : Entry) → entry_find k es ≡ some e → e.sql ≡ k
unfolding entry_find
entry_find-sql k [] e h = absurd (ground arith)
entry_find-sql k (x ∷ es) e h = ground (arith, entry_find-sql k es e)

pub entry_find-Below :
    (n : ℕ) (k : Text) (es : List Entry) (e : Entry)
    → Below n es
    → entry_find k es ≡ some e
    → e.node < n
unfolding entry_find
entry_find-Below n k [] e b h = absurd (ground arith)
entry_find-Below n k (x ∷ es) e b h = ground (arith, entry_find-Below x.node k es e b.1)

-- The iterator of an entry leads to it, and erasing at it erases the text's entry.
pub node_at-entry_find :
    (n : ℕ) (k : Text) (es : List Entry) (e : Entry)
    → Below n es
    → entry_find k es ≡ some e
    → (node_at e.node es ≡ some e) × (erase_node e.node es ≡ entry_erase k es)
unfolding entry_find node_at erase_node entry_erase
node_at-entry_find n k [] e b h = absurd (ground arith)
node_at-entry_find n k (x ∷ es) e b h =
    ground (arith, node_at-entry_find x.node k es e b.1, entry_find-Below x.node k es e b.1)

pub entry_find-entry_erase :
    (k j : Text) (es : List Entry)
    → Distinct es
    → entry_find k (entry_erase j es) ≡ ite (Text-discrete j k) none (entry_find k es)
unfolding entry_find entry_erase
entry_find-entry_erase k j [] d = ground arith
entry_find-entry_erase k j (e ∷ es) d = ground (arith, entry_find-entry_erase k j es d.1)

pub entry_erase-Below :
    (n : ℕ) (k : Text) (es : List Entry) → Below n es → Below n (entry_erase k es)
unfolding entry_erase
entry_erase-Below n k [] b = tt
entry_erase-Below n k (e ∷ es) b =
    ground (arith, entry_erase-Below e.node k es b.1, Below-mono {m = e.node} {n = n} es)

pub entry_erase-Distinct : (k : Text) (es : List Entry) → Distinct es → Distinct (entry_erase k es)
unfolding entry_erase
entry_erase-Distinct k [] d = tt
entry_erase-Distinct k (e ∷ es) d =
    ground (arith, entry_erase-Distinct k es d.1, entry_find-entry_erase e.sql k es d.1)

pub entry_erase-Live : (k : Text) (es : List Entry) → Live es → Live (entry_erase k es)
unfolding entry_erase
entry_erase-Live k [] l = tt
entry_erase-Live k (e ∷ es) l = ground (arith, entry_erase-Live k es l.1)

pub length-entry_erase : (k : Text) (es : List Entry) → length (entry_erase k es) ≤ length es
unfolding entry_erase
length-entry_erase k [] = omega arith
length-entry_erase k (e ∷ es) = ground (arith, length-entry_erase k es)
