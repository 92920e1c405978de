-- ===== src/Cache/Eviction.antt =====
-- What dropping the last entry of the list does to the entries found by their texts.
use vsqlite.Base.{
  ℕ, ◌≡◌, ◌≢◌, refl, Text, Text-discrete, List, [], ◌∷◌, none, some, ite, arith, init, last?,
}
use vsqlite.Cache.Index.{Entry, entry_find, Below, Distinct, Live}

pub entry_find-last? :
    (b : Entry) (es : List Entry) → last? es ≡ some b → entry_find b.sql es ≢ none
unfolding entry_find
entry_find-last? b [] h = absurd (ground arith)
entry_find-last? b (e ∷ []) h = ground arith
entry_find-last? b (e ∷ f ∷ es) h = ground (arith, entry_find-last? b (f ∷ es))

-- The last entry is the one that its text finds, so dropping it hides that text alone.
pub entry_find-init :
    (k : Text) (b : Entry) (es : List Entry)
    → Distinct es
    → last? es ≡ some b
    → entry_find k (init es) ≡ ite (Text-discrete b.sql k) none (entry_find k es)
unfolding entry_find
entry_find-init k b [] d h = absurd (ground arith)
entry_find-init k b (e ∷ []) d h = ground arith
entry_find-init k b (e ∷ f ∷ es) d h =
    ground (arith, entry_find-init k b (f ∷ es) d.1, entry_find-last? b (f ∷ es))

pub init-Below : (n : ℕ) (es : List Entry) → Below n es → Below n (init es)
init-Below n [] b = tt
init-Below n (e ∷ []) b = tt
init-Below n (e ∷ f ∷ es) b = (b.0, init-Below e.node (f ∷ es) b.1)

pub init-Live : (es : List Entry) → Live es → Live (init es)
init-Live [] l = tt
init-Live (e ∷ []) l = tt
init-Live (e ∷ f ∷ es) l = (l.0, init-Live (f ∷ es) l.1)

entry_find-init-none :
    (k : Text) (es : List Entry) → entry_find k es ≡ none → entry_find k (init es) ≡ none
unfolding entry_find
entry_find-init-none k [] h = refl
entry_find-init-none k (e ∷ []) h = refl
entry_find-init-none k (e ∷ f ∷ es) h = ground (arith, entry_find-init-none k (f ∷ es))

pub init-Distinct : (es : List Entry) → Distinct es → Distinct (init es)
init-Distinct [] d = tt
init-Distinct (e ∷ []) d = tt
init-Distinct (e ∷ f ∷ es) d = (entry_find-init-none e.sql (f ∷ es) d.0, init-Distinct (f ∷ es) d.1)
