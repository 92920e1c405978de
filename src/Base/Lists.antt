-- ===== src/Base/Lists.antt =====
-- Lists measured and counted by native numbers, under the library's names.
use Prim.Native.Nat.{ℕ, zero, suc, ◌+◌, ◌-◌, ◌≤◌}
use mathlib.Core.Path.{◌≡◌, refl, ap}
use mathlib.Core.List.{List, [], ◌∷◌, ◌++◌, map}
use mathlib.Core.Option.{Option, none, some}
use native.Mathlib.Omega.{arith}
use vsqlite.Base.Tests.{◌==◌, if◌then◌else◌}

module _ {ℓ} {A : Type ℓ} where
  abbrev pub length : List A → ℕ
  length [] = 0
  length (x ∷ xs) = suc (length xs)

  abbrev pub get_elem? : List A → ℕ → Option A
  get_elem? [] i = none
  get_elem? (x ∷ xs) zero = some x
  get_elem? (x ∷ xs) (suc i) = get_elem? xs i

  abbrev pub take : ℕ → List A → List A
  take zero ys = []
  take (suc k) [] = []
  take (suc k) (y ∷ ys) = y ∷ take k ys

  abbrev pub drop : ℕ → List A → List A
  drop zero xs = xs
  drop (suc n) [] = []
  drop (suc n) (x ∷ xs) = drop n xs

  -- `pop_back` and `back` of a sequence container.
  abbrev pub init : List A → List A
  init [] = []
  init (x ∷ []) = []
  init (x ∷ y ∷ xs) = x ∷ init (y ∷ xs)

  abbrev pub last? : List A → Option A
  last? [] = none
  last? (x ∷ []) = some x
  last? (x ∷ y ∷ xs) = last? (y ∷ xs)

  pub length-append : (xs ys : List A) → length (xs ++ ys) ≡ length xs + length ys
  length-append [] ys = omega arith
  length-append (x ∷ xs) ys = omega (arith, length-append xs ys)

  pub append_nil : (xs : List A) → xs ++ [] ≡ xs
  append_nil [] = refl
  append_nil (x ∷ xs) = ap (◌∷◌ x) (append_nil xs)

  pub length-init : (xs : List A) → length (init xs) ≡ length xs - 1
  length-init [] = refl
  length-init (x ∷ []) = omega arith
  length-init (x ∷ y ∷ xs) = omega (arith, length-init (y ∷ xs))

  pub last?-append : (xs : List A) (x : A) → last? (xs ++ x ∷ []) ≡ some x
  last?-append [] x = refl
  last?-append (y ∷ []) x = refl
  last?-append (y ∷ z ∷ xs) x = last?-append (z ∷ xs) x

  pub init-append : (xs : List A) (x : A) → init (xs ++ x ∷ []) ≡ xs
  init-append [] x = refl
  init-append (y ∷ []) x = refl
  init-append (y ∷ z ∷ xs) x = ap (◌∷◌ y) (init-append (z ∷ xs) x)

  pub init-take : (n : ℕ) (xs : List A) → length xs ≡ suc n → init xs ≡ take n xs
  init-take zero (x ∷ []) h = refl
  init-take (suc n) (x ∷ y ∷ xs) h = ap (◌∷◌ x) (init-take n (y ∷ xs) (omega arith))
  init-take n [] h = absurd (omega arith)
  init-take zero (x ∷ y ∷ xs) h = absurd (omega arith)
  init-take (suc n) (x ∷ []) h = absurd (omega arith)

  pub take_of_length-le : (k : ℕ) (ys : List A) → length ys ≤ k → take k ys ≡ ys
  take_of_length-le (suc k) (y ∷ ys) h = ground (arith, take_of_length-le k ys)
  take_of_length-le zero ys h = ground arith
  take_of_length-le (suc k) [] h = refl

pub length-map {ℓ κ} :
    {A : Type ℓ} {B : Type κ} (us : List A) (f : A → B) → length (map f us) ≡ length us
length-map [] f = refl
length-map (a ∷ us) f = omega (arith, length-map us f)

-- How often a number stands in a list.
abbrev pub count : ℕ → List ℕ → ℕ
count a [] = 0
count a (x ∷ xs) = if a == x then suc (count a xs) else count a xs

pub count-append : (n : ℕ) (us vs : List ℕ) → count n (us ++ vs) ≡ count n us + count n vs
count-append n (a ∷ us) vs = ground (arith, count-append n us vs)
count-append n [] vs = omega arith
