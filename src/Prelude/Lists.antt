-- ===== src/Prelude/Lists.antt =====
-- Lists measured and indexed by native numbers, and sums of a weight over a list.
use Prim.Native.Nat.{ℕ, zero, suc, ◌+◌, ◌<◌, ◌≤◌}
use mathlib.Core.Path.{◌≡◌, refl, ap}
use mathlib.Core.Logic.{◌≢◌, ◌⊎◌}
use mathlib.Core.List.{List, [], ◌∷◌, ◌++◌}
use mathlib.Core.Option.{Option, none, some}
use native.Mathlib.Omega.{arith}
use brandish_bot_go.Prelude.Tests.{◌==◌, if◌then◌else◌}

module _ {ℓ} {A : Type ℓ} where
  abbrev pub length : List A → ℕ
  length [] = 0
  length (x ∷ xs) = suc (length xs)

  abbrev pub get_elem? : List A → ℕ → Option A
  get_elem? [] i = none
  get_elem? (x ∷ xs) zero = some x
  get_elem? (x ∷ xs) (suc i) = get_elem? xs i

  -- A write out of bounds changes nothing.
  abbrev pub set : List A → ℕ → A → List A
  set [] i v = []
  set (x ∷ xs) zero v = v ∷ xs
  set (x ∷ xs) (suc i) v = x ∷ set xs i v

  -- `append(s[:i], s[i+1:]...)`
  abbrev pub remove_at : List A → ℕ → List A
  remove_at [] i = []
  remove_at (x ∷ xs) zero = xs
  remove_at (x ∷ xs) (suc i) = x ∷ remove_at xs i

  abbrev pub take : ℕ → List A → List A
  take zero xs = []
  take (suc n) [] = []
  take (suc n) (x ∷ xs) = x ∷ take n xs

  -- The sum of a weight over a list; two lists with the same sums hold the same elements.
  abbrev pub sum_by : (A → ℕ) → List A → ℕ
  sum_by f [] = 0
  sum_by f (x ∷ xs) = f x + sum_by f xs

  pub length-append : (xs ys : List A) → length (xs ++ ys) ≡ length xs + length ys
  length-append [] ys = omega arith
  length-append (x ∷ xs) ys = omega (arith, length-append xs ys)

  pub length-set : (xs : List A) (i : ℕ) (v : A) → length (set xs i v) ≡ length xs
  length-set [] i v = refl
  length-set (x ∷ xs) zero v = refl
  length-set (x ∷ xs) (suc i) v = ap suc (length-set xs i v)

  pub get_elem?-set_self :
      (xs : List A) (i : ℕ) (v : A) → i < length xs → get_elem? (set xs i v) i ≡ some v
  get_elem?-set_self [] i v h = elim h [ ]
  get_elem?-set_self (x ∷ xs) zero v h = refl
  get_elem?-set_self (x ∷ xs) (suc i) v h = get_elem?-set_self xs i v (omega arith)

  pub get_elem?-set_ne :
      (xs : List A) {i j : ℕ} (v : A) → i ≢ j → get_elem? (set xs i v) j ≡ get_elem? xs j
  get_elem?-set_ne [] v h = refl
  get_elem?-set_ne (x ∷ xs) {i = zero} {j = zero} v h = absurd (h refl)
  get_elem?-set_ne (x ∷ xs) {i = zero} {j = suc j} v h = refl
  get_elem?-set_ne (x ∷ xs) {i = suc i} {j = zero} v h = refl
  get_elem?-set_ne (x ∷ xs) {i = suc i} {j = suc j} v h = get_elem?-set_ne xs v (λ e. h (ap suc e))

  pub get_elem?_lt : (xs : List A) (i : ℕ) (v : A) → get_elem? xs i ≡ some v → i < length xs
  get_elem?_lt [] i v h = cc
  get_elem?_lt (x ∷ xs) zero v h = omega arith
  get_elem?_lt (x ∷ xs) (suc i) v h = omega (arith, get_elem?_lt xs i v h)

  pub get_elem?_total : (xs : List A) (i : ℕ) → i < length xs → (v : A) × (get_elem? xs i ≡ some v)
  get_elem?_total [] i h = elim h [ ]
  get_elem?_total (x ∷ xs) zero h = (x, refl)
  get_elem?_total (x ∷ xs) (suc i) h = get_elem?_total xs i (omega arith)

  pub sum_by-append : (f : A → ℕ) (xs ys : List A) → sum_by f (xs ++ ys) ≡ sum_by f xs + sum_by f ys
  sum_by-append f [] ys = omega arith
  sum_by-append f (x ∷ xs) ys = omega (arith, sum_by-append f xs ys)

  -- A write replaces the weight of the old element by that of the new one.
  pub sum_by-set :
      (f : A → ℕ) (xs : List A) (i : ℕ) (old v : A)
      → get_elem? xs i ≡ some old
      → sum_by f (set xs i v) + f old ≡ sum_by f xs + f v
  sum_by-set f [] i old v h = cc
  sum_by-set f (x ∷ xs) zero old v h = ground arith
  sum_by-set f (x ∷ xs) (suc i) old v h = omega (arith, sum_by-set f xs i old v h)

  pub sum_by-remove_at :
      (f : A → ℕ) (xs : List A) (i : ℕ) (old : A)
      → get_elem? xs i ≡ some old
      → sum_by f (remove_at xs i) + f old ≡ sum_by f xs
  sum_by-remove_at f [] i old h = cc
  sum_by-remove_at f (x ∷ xs) zero old h = ground arith
  sum_by-remove_at f (x ∷ xs) (suc i) old h = omega (arith, sum_by-remove_at f xs i old h)

  pub sum_by_le_of_get :
      (f : A → ℕ) (xs : List A) (i : ℕ) (v : A) → get_elem? xs i ≡ some v → f v ≤ sum_by f xs
  sum_by_le_of_get f [] i v h = cc
  sum_by_le_of_get f (x ∷ xs) zero v h = ground arith
  sum_by_le_of_get f (x ∷ xs) (suc i) v h = omega (arith, sum_by_le_of_get f xs i v h)

  -- Exchange of two places: `s[i], s[j] = s[j], s[i]`. Out of range Go panics; `none` here.
  abbrev pub swap_at : List A → ℕ → ℕ → Option (List A)
  swap_at xs i j = elim (get_elem? xs i) [
    | none ↦ none
    | some a ↦ elim (get_elem? xs j) [ none ↦ none | some b ↦ some (set (set xs i b) j a) ]
  ]

abbrev pub IsIn : {A : Type 0} → A → List A → Type 0
IsIn x [] = ⊥
IsIn x (y ∷ ys) = (x ≡ y) ⊎ IsIn x ys

-- How often a number stands in a list.
abbrev pub count : ℕ → List ℕ → ℕ
count a = sum_by (λ b. if a == b then 1 else 0)
