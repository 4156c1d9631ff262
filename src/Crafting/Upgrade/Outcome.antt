-- ===== src/Crafting/Upgrade/Outcome.antt =====
-- What UpgradeItem leaves behind.
use brandish_bot_go.Prelude.{
  ℕ, zero, suc, ◌+◌, ◌-◌, ◌≤◌, ◌<◌, ◌≡◌, ◌↔◌, refl, Bool, false, some, [], ◌∷◌, ltb, ◌==◌,
  if◌then◌else◌, arith, Bool-cases, inl, inr,
}
use brandish_bot_go.Prelude.Int.{ℤ}
use brandish_bot_go.Failure.{
  Result, ok, err, insufficient_quantity, panic, transact, fail_if, with_ok, fail_if-eq-ok,
  required-eq-ok,
}
use brandish_bot_go.Inventory.{Inventory, QualityLevel, common, slot}
use brandish_bot_go.Inventory.Consume.Conservation.{amount}
use brandish_bot_go.Inventory.Add.{add_linear}
use brandish_bot_go.Inventory.Quality.{
  get_quality_value, total_quantity, calculate_average_quality, LiesWithin,
  calculate_average_quality-LiesWithin,
}
use brandish_bot_go.Economy.Exchange.{amount-add_linear}
use brandish_bot_go.Crafting.{Recipe, Calls}
use brandish_bot_go.Crafting.Upgrade.{
  calculate_max_possible_crafts, consume_recipe_materials, UpgradeResult, roll_crafts,
  calculate_upgrade_output, average_of, execute_upgrade_tx, validate_upgrade_input, check_job_level,
  upgrade_steps, upgrade_item,
}
use brandish_bot_go.Crafting.Upgrade.Materials.{
  of_item, needed, lucky_count, Affords, HasDistinctItems, le-calculate_max_possible_crafts,
  consume_recipe_materials-PaidAll, consume_recipe_materials-total,
}

roll_crafts_lem :
    (is_lucky : ℕ → Bool) (n : ℕ)
    → ((roll_crafts is_lucky n).0 ≡ n + lucky_count is_lucky n)
      × ((roll_crafts is_lucky n).1 ≡ lucky_count is_lucky n)
unfolding roll_crafts
roll_crafts_lem is_lucky zero = (refl, refl)
roll_crafts_lem is_lucky (suc n) = ground (arith, roll_crafts_lem is_lucky n)

-- What the crafts of a recipe leave behind.
pub record Upgraded (c : Calls) (inv : Inventory) (item_id : ℕ) (recipe : Recipe) (requested : ℕ)
    (made : UpgradeResult) (inv' : Inventory) : Type 0 where
  pub actual : ℕ
  pub taken : Inventory
  pub output_quality : QualityLevel
  pub is_most : (n : ℕ) → (n ≤ actual) ↔ ((n ≤ requested) × Affords inv recipe.base_cost n)
  pub makes_some : 0 < actual
  pub has_bonus : made.quantity ≡ actual + made.bonus_quantity
  pub is_bonus : made.bonus_quantity ≡ lucky_count c.is_lucky actual
  pub is_masterwork : made.is_masterwork ≡ ltb 0 made.bonus_quantity
  pub is_average : calculate_average_quality taken ≡ some output_quality
  pub costs : (i : ℕ) → amount (of_item i) taken ≡ needed i recipe.base_cost actual
  pub balanced :
      (p : ℕ → QualityLevel → Bool)
      → amount p inv' + amount p taken
        ≡ amount p inv + (if p item_id output_quality then made.quantity else 0)

output_lem :
    (c : Calls) (name actual : ℕ)
    → let r = calculate_upgrade_output c name actual in
      (r.quantity ≡ actual + r.bonus_quantity)
      × (r.bonus_quantity ≡ lucky_count c.is_lucky actual)
      × (r.is_masterwork ≡ ltb 0 r.bonus_quantity)
unfolding calculate_upgrade_output
output_lem c name actual =
    let (a, b) = roll_crafts_lem c.is_lucky actual in
    let e : (roll_crafts c.is_lucky actual).0 - actual ≡ (roll_crafts c.is_lucky actual).1 =
      omega (arith, a, b) in
    (omega (arith, a), omega (arith, a), rw e refl)

execute_upgrade_tx-Upgraded :
    (c : Calls) (inv : Inventory) (item_id : ℕ) (recipe : Recipe) (requested name : ℕ)
    (made : UpgradeResult) (n : ℕ) (inv' : Inventory)
    → execute_upgrade_tx c inv item_id recipe requested name ≡ ok ((made, n), inv')
    → Upgraded c inv item_id recipe requested made inv'
unfolding execute_upgrade_tx
execute_upgrade_tx-Upgraded c inv item_id recipe requested name made n inv' h =
    let costs = recipe.base_cost in
    let actual : ℕ = calculate_max_possible_crafts inv costs requested in
    let r : UpgradeResult = calculate_upgrade_output c name actual in
    with_ok c.begin_tx _ h λ u1 e1 h1. with_ok c.get_inventory _ h1 λ u2 e2 h2.
      with_ok (fail_if (actual == 0) insufficient_quantity) _ h2 λ u3 e3 h3.
        with_ok (consume_recipe_materials c.picks 0 inv costs actual) _ h3 λ materials e4 h4.
          with_ok (average_of materials.0) _ h4 λ quality e5 h5.
            with_ok c.update_inventory _ h5 λ u6 e6 h6. with_ok c.commit _ h6 λ u7 e7 h7.
              let er : r ≡ made = cc in
              let (bonus, lucky, masterwork) = output_lem c name actual in
              let g =
                consume_recipe_materials-PaidAll c.picks 0 inv costs actual materials.1 materials.0
                  e4 in
              let none_made = fail_if-eq-ok (actual == 0) insufficient_quantity e3 in
              let ei : add_linear materials.1 (slot item_id r.quantity quality) ≡ inv' = cc in
              record {
                actual = actual;
                taken = materials.0;
                output_quality = quality;
                is_most = le-calculate_max_possible_crafts inv costs requested;
                makes_some = ground arith;
                has_bonus = rw (← er) bonus;
                is_bonus = rw (← er) lucky;
                is_masterwork = rw (← er) masterwork;
                is_average = required-eq-ok (calculate_average_quality materials.0) panic e5;
                costs = g.whole;
                balanced = λ p.
                    rw (← ei, ← er)
                      (omega (
                        arith,
                        g.kept p,
                        amount-add_linear p materials.1 (slot item_id r.quantity quality),
                      ));
              }

module _ (c : Calls) (inv : Inventory) (platform platform_id name : ℕ) (wanted : ℤ) where
  -- What UpgradeItem leaves behind, by how it ends.
  abbrev pub UpgradeOutcome : Result UpgradeResult × Inventory → Type 0
  UpgradeOutcome (err e, inv') = inv' ≡ inv
  UpgradeOutcome (ok made, inv') =
      (recipe : Recipe) × (item : ℕ × ℕ) × (requested : ℕ) × (validate_upgrade_input c platform
          platform_id name wanted
        ≡ ok ((recipe, item), requested))
      × (check_job_level c.job_service recipe.required_job_level ≡ ok tt)
      × Upgraded c inv item.0 recipe requested made inv'

  -- An upgrade that returns an error leaves the stored inventory as it was. One that succeeds makes
  -- as many crafts as the materials allow of those asked for, at least one: it takes exactly what
  -- they cost of each item, and adds one item for each craft and one more for each of them whose draw
  -- is lucky, in the average quality of the materials; nothing else changes.
  pub upgrade_item-UpgradeOutcome :
      UpgradeOutcome (upgrade_item c inv platform platform_id name wanted)
  unfolding upgrade_item upgrade_steps
  upgrade_item-UpgradeOutcome = outcome (upgrade_steps c inv platform platform_id name wanted) refl
    where
      outcome :
          (r : Result (UpgradeResult × Inventory))
          → upgrade_steps c inv platform platform_id name wanted ≡ r
          → UpgradeOutcome (transact inv r)
      outcome (err e) h = refl
      outcome (ok (made, inv')) h =
          with_ok (validate_upgrade_input c platform platform_id name wanted) _ h λ input e1 h1.
            with_ok (check_job_level c.job_service input.0.0.required_job_level) _ h1 λ u2 e2 h2.
              with_ok (execute_upgrade_tx c inv input.0.1.0 input.0.0 input.1 input.0.1.1) _ h2
                λ m e3 h3.
                  let em : m.0.0 ≡ made = cc in
                  let ei : m.1 ≡ inv' = cc in
                  (
                    input.0.0,
                    input.0.1,
                    input.1,
                    e1,
                    e2,
                    rw (← em, ← ei)
                        (execute_upgrade_tx-Upgraded c inv input.0.1.0 input.0.0 input.1 input.0.1.1
                          m.0.0 m.0.1 m.1 e3),
                  )

LiesWithin-all : (inv : Inventory) → LiesWithin 0 7 inv
LiesWithin-all [] = tt
LiesWithin-all (s ∷ ss) = (λ h. (omega arith, at_most s.quality_level), LiesWithin-all ss)
  where
    at_most : (q : QualityLevel) → get_quality_value q ≤ 7
    at_most q = ground arith

average_total : (inv : Inventory) → (q : QualityLevel) × (calculate_average_quality inv ≡ some q)
unfolding calculate_average_quality
average_total [] = (common, refl)
average_total (s ∷ ss) = elim (Bool-cases (ltb 0 (total_quantity (s ∷ ss)))) [
  | inl full ↦
      let (q, e, _, _) =
        calculate_average_quality-LiesWithin 0 7 (s ∷ ss) (LiesWithin-all (s ∷ ss)) (omega arith)
          (ground arith) in
      (q, e)
  | inr empty ↦ let z : total_quantity (s ∷ ss) ≡ 0 = ground arith in (common, rw z refl)
]

-- An upgrade whose input and level are accepted succeeds, whatever is drawn, where the storage
-- answers, no item is a material twice and the materials allow one craft.
pub upgrade_item-total :
    (c : Calls) (inv : Inventory) (platform platform_id name : ℕ) (wanted : ℤ) (recipe : Recipe)
    (item : ℕ × ℕ) (requested : ℕ)
    → validate_upgrade_input c platform platform_id name wanted ≡ ok ((recipe, item), requested)
    → check_job_level c.job_service recipe.required_job_level ≡ ok tt
    → c.begin_tx ≡ ok tt
    → c.get_inventory ≡ ok tt
    → c.update_inventory ≡ ok tt
    → c.commit ≡ ok tt
    → HasDistinctItems recipe.base_cost
    → Affords inv recipe.base_cost 1
    → 0 < requested
    → (made : UpgradeResult) × (inv' : Inventory) × (upgrade_item c inv platform platform_id name
          wanted
        ≡ (ok made, inv'))
unfolding upgrade_item upgrade_steps execute_upgrade_tx
upgrade_item-total c inv platform platform_id name wanted recipe item requested v l b g u k d a p =
    let costs = recipe.base_cost in
    let actual : ℕ = calculate_max_possible_crafts inv costs requested in
    let some_made : 1 ≤ actual =
      (le-calculate_max_possible_crafts inv costs requested 1).1 (omega (arith, p), a) in
    let (_, affords) =
      (le-calculate_max_possible_crafts inv costs requested actual).0 (omega arith) in
    let not_none : (actual == 0) ≡ false = ground arith in
    let (taken, inv1, e) = consume_recipe_materials-total c.picks 0 inv costs actual d affords in
    let (q, f) = average_total taken in
    (
      calculate_upgrade_output c item.1 actual,
      add_linear inv1 (slot item.0 (calculate_upgrade_output c item.1 actual).quantity q),
      rw (v, l, b, g, not_none, e, f, u, k) refl,
    )
