-- ===== src/Crafting/Upgrade.antt =====
-- internal/crafting/upgrade.go and inventory.go: UpgradeItem makes as many items of a recipe as its
-- materials allow.
pub mod Materials
pub mod Outcome
use brandish_bot_go.Prelude.{
  ℕ, zero, suc, ◌+◌, ◌-◌, ◌*◌, ◌/◌, Bool, Option, none, some, List, [], ◌∷◌, ◌++◌, ltb, ◌==◌,
  if◌then◌else◌,
}
use brandish_bot_go.Prelude.Int.{ℤ}
use brandish_bot_go.Failure.{
  Result, ok, err, insufficient_quantity, recipe_not_found, job_level_unverified, job_level_too_low,
  panic, fail_if, required, transact, ◌>>=◌, ◌>>◌,
}
use brandish_bot_go.Inventory.{Inventory, InventorySlot, QualityLevel, slot, get_total_quantity}
use brandish_bot_go.Inventory.Add.{add_linear}
use brandish_bot_go.Inventory.Consume.{
  ConsumeResult, consumed, insufficient, unexpected_insufficient, panic, consume_items,
}
use brandish_bot_go.Inventory.Quality.{calculate_average_quality}
use brandish_bot_go.Crafting.{
  Recipe, RecipeCost, Calls, JobService, validate_quantity, validate_platform_input,
  validate_item_name, validate_user, resolve_item_name, feature_gate, check_recipe_unlocked,
  display_name,
}

-- `calculateMaxPossibleCrafts`, with the least so far as an argument.
unfoldable pub calculate_max_possible_crafts : Inventory → List RecipeCost → ℕ → ℕ
calculate_max_possible_crafts inv [] max_possible = max_possible
calculate_max_possible_crafts inv (cost ∷ costs) max_possible =
    let affordable = get_total_quantity inv cost.item_id / cost.quantity in
    calculate_max_possible_crafts inv costs (
      if ltb 0 cost.quantity
      then if ltb affordable max_possible then affordable else max_possible
      else max_possible)

-- What the caller makes of the result of ConsumeItemsWithTracking.
abbrev pub taken_from : ConsumeResult → Result (List InventorySlot × Inventory)
taken_from (consumed inv taken) = ok (taken, inv)
taken_from insufficient = err insufficient_quantity
taken_from unexpected_insufficient = err insufficient_quantity
taken_from panic = err panic

-- `consumeRecipeMaterials`, from the material at index `i` on.
unfoldable pub consume_recipe_materials :
    (ℕ → ℕ → ℕ) → ℕ → Inventory → List RecipeCost → ℕ → Result (List InventorySlot × Inventory)
consume_recipe_materials picks i inv [] actual = ok ([], inv)
consume_recipe_materials picks i inv (cost ∷ costs) actual = do
  first ← taken_from (consume_items inv cost.item_id (cost.quantity * actual) (picks i))
  rest ← consume_recipe_materials picks (suc i) first.1 costs actual
  ok (first.0 ++ rest.0, rest.1)

-- `Result`
pub record UpgradeResult : Type 0 where
  pub item_name : ℕ
  pub quantity : ℕ
  pub is_masterwork : Bool
  pub bonus_quantity : ℕ

abbrev pub masterwork_multiplier : ℕ
masterwork_multiplier = 2

-- The loop of `calculateUpgradeOutput`: the quantity and the number of masterworks.
unfoldable pub roll_crafts : (ℕ → Bool) → ℕ → ℕ × ℕ
roll_crafts is_lucky zero = (0, 0)
roll_crafts is_lucky (suc n) =
    let (quantity, count) = roll_crafts is_lucky n in
    if is_lucky n then (quantity + masterwork_multiplier, suc count) else (quantity + 1, count)

-- `calculateUpgradeOutput`
unfoldable pub calculate_upgrade_output : Calls → ℕ → ℕ → UpgradeResult
unfolding roll_crafts
calculate_upgrade_output c name actual =
    let (quantity, count) = roll_crafts c.is_lucky actual in
    record {
      item_name = display_name c name;
      quantity = quantity;
      is_masterwork = ltb 0 count;
      bonus_quantity = quantity - actual;
    }

-- An average quality; an index out of range would be a panic.
abbrev pub average_of : List InventorySlot → Result QualityLevel
average_of taken = required (calculate_average_quality taken) panic

-- `executeUpgradeTx`: the result, the number of crafts and the inventory that is stored.
unfoldable pub execute_upgrade_tx :
    Calls → Inventory → ℕ → Recipe → ℕ → ℕ → Result ((UpgradeResult × ℕ) × Inventory)
execute_upgrade_tx c inv item_id recipe requested name = do
  c.begin_tx
  c.get_inventory
  let actual = calculate_max_possible_crafts inv recipe.base_cost requested
  fail_if (actual == 0) insufficient_quantity
  materials ← consume_recipe_materials c.picks 0 inv recipe.base_cost actual
  output_quality ← average_of materials.0
  let made = calculate_upgrade_output c name actual
  c.update_inventory
  c.commit
  ok ((made, actual), add_linear materials.1 (slot item_id made.quantity output_quality))

-- `checkUpgradeFeatureLock`
abbrev pub check_upgrade_feature_lock : Option JobService → Result (Unit {0})
check_upgrade_feature_lock none = ok tt
check_upgrade_feature_lock (some s) = feature_gate s.is_job_feature_unlocked

-- The second half of `findRecipe`: by the item, where an error of the lookup counts as no item.
abbrev pub recipe_of_item : Calls → Result (Option ℕ) → Result (Option Recipe)
recipe_of_item c (err e) = ok none
recipe_of_item c (ok none) = ok none
recipe_of_item c (ok (some item)) = c.get_recipe_by_target_item_id item

abbrev pub or_recipe_of_item : Calls → ℕ → Option Recipe → Result (Option Recipe)
or_recipe_of_item c name (some recipe) = ok (some recipe)
or_recipe_of_item c name none = recipe_of_item c (c.get_item_by_name name)

-- `findRecipe`
unfoldable pub find_recipe : Calls → ℕ → Result (Option Recipe)
find_recipe c name = do recipe ← c.get_crafting_recipe_by_key name; or_recipe_of_item c name recipe

-- `verifyRecipeUnlock`
abbrev pub verify_recipe_unlock : Calls → Recipe → Result (Unit {0})
verify_recipe_unlock c recipe =
    if recipe.is_auto_unlock then ok tt else check_recipe_unlocked c recipe.id

-- `validateUpgradeInput`: the recipe, the id and the internal name of its item, and the quantity.
unfoldable pub validate_upgrade_input : Calls → ℕ → ℕ → ℕ → ℤ → Result ((Recipe × (ℕ × ℕ)) × ℕ)
validate_upgrade_input c platform platform_id name quantity = do
  requested ← validate_quantity quantity
  validate_platform_input platform platform_id
  validate_item_name name
  resolved ← resolve_item_name c name
  validate_user c
  check_upgrade_feature_lock c.job_service
  found ← find_recipe c resolved
  recipe ← required found recipe_not_found
  verify_recipe_unlock c recipe
  target ← c.get_item_by_id recipe.target_item_id
  item ← required target panic
  ok ((recipe, item), requested)

-- The check of the Blacksmith level, which an error of the job service fails.
abbrev pub level_at_least : ℕ → Result ℕ → Result (Unit {0})
level_at_least needed (err e) = err job_level_unverified
level_at_least needed (ok level) = fail_if (ltb level needed) job_level_too_low

abbrev pub check_job_level : Option JobService → ℕ → Result (Unit {0})
check_job_level none needed = ok tt
check_job_level (some s) needed = if ltb 0 needed then level_at_least needed s.job_level else ok tt

-- `UpgradeItem`
unfoldable pub upgrade_steps :
    Calls → Inventory → ℕ → ℕ → ℕ → ℤ → Result (UpgradeResult × Inventory)
unfolding execute_upgrade_tx
upgrade_steps c inv platform platform_id name quantity = do
  input ← validate_upgrade_input c platform platform_id name quantity
  let recipe = input.0.0
  let item = input.0.1
  check_job_level c.job_service recipe.required_job_level
  made ← execute_upgrade_tx c inv item.0 recipe input.1 item.1
  ok (made.0.0, made.1)

unfoldable pub upgrade_item : Calls → Inventory → ℕ → ℕ → ℕ → ℤ → Result UpgradeResult × Inventory
unfolding upgrade_steps
upgrade_item c inv platform platform_id name quantity =
    transact inv (upgrade_steps c inv platform platform_id name quantity)
