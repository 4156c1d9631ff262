-- ===== src/Shuffle.antt =====
-- The Fisher-Yates loop that internal/utils/inventory_consume.go (getShuffledIndices) and
-- internal/progression/voting_logic.go (selectRandomNodes) both write out. `draw n` is the
-- position that the random source gives for the bound `n`.
use brandish_bot_go.Prelude.{
  ℕ, zero, suc, ◌<◌, ◌≡◌, refl, Option, none, some, List, length, get_elem?, set, sum_by, swap_at,
  sum_by-set, get_elem?_total, get_elem?-set_self, get_elem?-set_ne, length-set, arith, ◌∙◌,
}
use native.Mathlib.Decide.{ℕ_discrete}

-- `for i := last; i > 0; i-- { j := draw(i+1); s[i], s[j] = s[j], s[i] }`
unfoldable pub shuffle_from {ℓ} : {A : Type ℓ} → ℕ → (ℕ → ℕ) → List A → Option (List A)
shuffle_from zero draw xs = some xs
shuffle_from (suc i) draw xs = elim (swap_at xs (suc i) (draw (suc (suc i)))) [
  | none ↦ none
  | some ys ↦ shuffle_from i draw ys
]

module _ {ℓ} {A : Type ℓ} where
  after_write :
      (xs : List A) (i j : ℕ) (b : A)
      → i < length xs
      → get_elem? xs j ≡ some b
      → get_elem? (set xs i b) j ≡ some b
  after_write xs i j b hi eb = elim (ℕ_discrete i j) [
    | yes e ↦ rw (← e) (get_elem?-set_self xs i b hi)
    | no ne ↦ rw (get_elem?-set_ne xs b ne) eb
  ]

  -- An exchange of two places in range succeeds and keeps every sum.
  pub swap_at-sum_by :
      (xs : List A) (i j : ℕ)
      → i < length xs
      → j < length xs
      → (ys : List A) × (swap_at xs i j ≡ some ys)
        × (length ys ≡ length xs)
        × ((f : A → ℕ) → sum_by f ys ≡ sum_by f xs)
  swap_at-sum_by xs i j hi hj =
      let (a, ea) = get_elem?_total xs i hi in
      let (b, eb) = get_elem?_total xs j hj in
      (
        set (set xs i b) j a,
        ground arith,
        length-set (set xs i b) j a ∙ length-set xs i b,
        λ f. omega (
          arith,
          sum_by-set f xs i a b ea,
          sum_by-set f (set xs i b) j b a (after_write xs i j b hi eb),
        ),
      )

  -- With draws in range the loop ends without a fault, and every sum over the list is kept: the
  -- result holds the same elements, each as often.
  pub shuffle_from-sum_by :
      (i : ℕ) (draw : ℕ → ℕ) (xs : List A)
      → ((n : ℕ) → 0 < n → draw n < n)
      → i < length xs
      → (ys : List A) × (shuffle_from i draw xs ≡ some ys)
        × (length ys ≡ length xs)
        × ((f : A → ℕ) → sum_by f ys ≡ sum_by f xs)
  unfolding shuffle_from
  shuffle_from-sum_by zero draw xs ok h = (xs, refl, refl, λ f. refl)
  shuffle_from-sum_by (suc i) draw xs ok h =
      let d : draw (suc (suc i)) < suc (suc i) = ok (suc (suc i)) (omega arith) in
      let (ys, e, l, s) = swap_at-sum_by xs (suc i) (draw (suc (suc i))) h (omega arith) in
      let (zs, e', l', s') = shuffle_from-sum_by i draw ys ok (omega arith) in
      (zs, rw (e, shuffle_from) e', l' ∙ l, λ f. s' f ∙ s f)
