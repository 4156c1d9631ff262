-- ===== src/Slots/Reels.antt =====
-- The reels that are shown fit the result that was drawn.
use brandish_bot_go.Prelude.{
  ℕ, zero, suc, ◌<◌, ◌≡◌, ◌≢◌, sym, refl, true, false, some, List, [], ◌∷◌, get_elem?, length,
  get_elem?_total, arith, Bool-cases, inl, inr,
}
use brandish_bot_go.Slots.{
  Symbol, lemon, cherry, bell, bar, seven, diamond, star, same_symbol, all_symbols, ResultType,
  no_match, lemon_two_match, lemon_three_match, cherry_three_match, bell_three_match,
  bar_three_match, seven_three_match, diamond_three_match, star_three_match, bind, contains,
  available, random_symbol_excluding, Reels, build_reels,
}

available-not-contains :
    (excluding xs : List Symbol) (k : ℕ) (s : Symbol)
    → get_elem? (available excluding xs) k ≡ some s
    → contains excluding s ≡ false
available-not-contains excluding [] k s h = cc
available-not-contains excluding (x ∷ xs) zero s h = elim (Bool-cases (contains excluding x)) [
  | inl out ↦ available-not-contains excluding xs zero s (ground arith)
  | inr stay ↦ let e : x ≡ s = ground arith in rw (← e) stay
]
available-not-contains excluding (x ∷ xs) (suc k) s h = elim (Bool-cases (contains excluding x)) [
  | inl out ↦ available-not-contains excluding xs (suc k) s (ground arith)
  | inr stay ↦ available-not-contains excluding xs k s (ground arith)
]

choices_one : (a : Symbol) → 0 < length (available (a ∷ []) all_symbols)
choices_one a = ground arith

choices_two : (a b : Symbol) → 0 < length (available (a ∷ b ∷ []) all_symbols)
choices_two lemon b = ground arith
choices_two cherry b = ground arith
choices_two bell b = ground arith
choices_two bar b = ground arith
choices_two seven b = ground arith
choices_two diamond b = ground arith
choices_two star b = ground arith

-- With a draw in range a symbol comes out, and it is none of the excluded ones.
excluding_lem :
    (draw : ℕ → ℕ) (excluding : List Symbol)
    → ((n : ℕ) → 0 < n → draw n < n)
    → 0 < length (available excluding all_symbols)
    → (s : Symbol) × (random_symbol_excluding draw excluding ≡ some s)
      × (contains excluding s ≡ false)
unfolding random_symbol_excluding
excluding_lem draw excluding ok h =
    let choices : List Symbol = available excluding all_symbols in
    let (s, e) = get_elem?_total choices (draw (length choices)) (ok (length choices) h) in
    (s, e, available-not-contains excluding all_symbols (draw (length choices)) s e)

same_symbol_self : (s : Symbol) → same_symbol s s ≡ true
same_symbol_self s = ground arith

not_contains :
    (a : Symbol) (xs : List Symbol) (s : Symbol)
    → contains (a ∷ xs) s ≡ false
    → (a ≢ s) × (contains xs s ≡ false)
not_contains a xs s h = elim (Bool-cases (same_symbol a s)) [
  | inl same ↦ ground arith
  | inr other ↦ (λ e. ground (arith, e, other, same_symbol_self s), rw other at h)
]

-- What the reels show of a result: three of a kind for a three-match and only for one, and two
-- lemons with another symbol for a near miss.
abbrev pub Shows : ResultType → Reels → Type 0
Shows no_match (a, b, c) = (a ≢ b) × (b ≢ c) × (a ≢ c)
Shows lemon_two_match (a, b, c) = (a ≡ lemon) × (b ≡ lemon) × (c ≢ lemon)
Shows lemon_three_match r = r ≡ (lemon, lemon, lemon)
Shows cherry_three_match r = r ≡ (cherry, cherry, cherry)
Shows bell_three_match r = r ≡ (bell, bell, bell)
Shows bar_three_match r = r ≡ (bar, bar, bar)
Shows seven_three_match r = r ≡ (seven, seven, seven)
Shows diamond_three_match r = r ≡ (diamond, diamond, diamond)
Shows star_three_match r = r ≡ (star, star, star)

module _ (rng : ℕ → ℕ → ℕ) (in_range : (k n : ℕ) → 0 < n → rng k n < n) where
  -- With draws in range the reels are always built, without an index out of range, and show the
  -- result: three equal symbols of its kind for a three-match, two lemons and another symbol for
  -- the two-match, three different symbols otherwise.
  build_reels-Shows : (t : ResultType) → (r : Reels) × (build_reels rng t ≡ some r) × Shows t r
  unfolding build_reels
  build_reels-Shows lemon_two_match =
      let (s, e, out) = excluding_lem (rng 0) (lemon ∷ []) (in_range 0) (choices_one lemon) in
      ((lemon, lemon, s), rw e refl, (refl, refl, λ e. (not_contains lemon [] s out).0 (sym e)))
  build_reels-Shows no_match =
      let (a, ea, oa) = excluding_lem (rng 0) [] (in_range 0) (omega arith) in
      let (b, eb, ob) = excluding_lem (rng 1) (a ∷ []) (in_range 1) (choices_one a) in
      let (c, ec, oc) = excluding_lem (rng 2) (a ∷ b ∷ []) (in_range 2) (choices_two a b) in
      (
        (a, b, c),
        rw (ea, bind, eb, ec) refl,
        (
          (not_contains a [] b ob).0,
          (not_contains b [] c (not_contains a (b ∷ []) c oc).1).0,
          (not_contains a (b ∷ []) c oc).0,
        ),
      )
  build_reels-Shows lemon_three_match = ((lemon, lemon, lemon), refl, refl)
  build_reels-Shows cherry_three_match = ((cherry, cherry, cherry), refl, refl)
  build_reels-Shows bell_three_match = ((bell, bell, bell), refl, refl)
  build_reels-Shows bar_three_match = ((bar, bar, bar), refl, refl)
  build_reels-Shows seven_three_match = ((seven, seven, seven), refl, refl)
  build_reels-Shows diamond_three_match = ((diamond, diamond, diamond), refl, refl)
  build_reels-Shows star_three_match = ((star, star, star), refl, refl)
