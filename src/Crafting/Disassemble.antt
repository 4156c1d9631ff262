-- ===== src/Crafting/Disassemble.antt =====
-- internal/crafting/disassemble.go: DisassembleItem takes items apart into the outputs of a recipe.
pub mod Outcome
use brandish_bot_go.Prelude.{
  ℕ, zero, suc, ◌+◌, ◌-◌, ◌*◌, ◌/◌, Bool, not, Option, none, some, List, [], ◌∷◌, ltb, ◌==◌,
  if◌then◌else◌,
}
use brandish_bot_go.Prelude.Int.{ℤ}
use brandish_bot_go.Failure.{
  Result, ok, err, insufficient_quantity, item_not_found, recipe_not_found, panic, fail_if,
  required, transact, ◌>>=◌, ◌>>◌,
}
use brandish_bot_go.Inventory.{Inventory, InventorySlot, QualityLevel, slot, get_total_quantity}
use brandish_bot_go.Inventory.Add.{add_items}
use brandish_bot_go.Inventory.Consume.{consume_items}
use brandish_bot_go.Crafting.{
  RecipeOutput, DisassembleRecipe, Calls, JobService, validate_quantity, validate_platform_input,
  validate_item_name, validate_user, validate_item, resolve_item_name, feature_gate,
  check_recipe_unlocked, display_name,
}
use brandish_bot_go.Crafting.Upgrade.{taken_from, average_of}

-- The feature check, which reads the job service without a test for nil.
abbrev pub disassemble_gate : Option JobService → Result (Unit {0})
disassemble_gate none = err panic
disassemble_gate (some s) = feature_gate s.is_job_feature_unlocked

-- `getAndValidateDisassembleRecipe`
unfoldable pub get_and_validate_disassemble_recipe : Calls → ℕ → Result DisassembleRecipe
get_and_validate_disassemble_recipe c item_id = do
  found ← c.get_disassemble_recipe item_id
  recipe ← required found recipe_not_found
  upgrade ← c.get_associated_upgrade_recipe_id recipe.id
  check_recipe_unlocked c upgrade
  ok recipe

-- `validateDisassembleInput`: the item and the recipe.
unfoldable pub validate_disassemble_input : Calls → ℕ → Result (ℕ × DisassembleRecipe)
validate_disassemble_input c name = do
  resolved ← resolve_item_name c name
  validate_user c
  disassemble_gate c.job_service
  item ← validate_item c resolved
  recipe ← get_and_validate_disassemble_recipe c item
  ok (item, recipe)

-- `calculateDisassembleQuantity`. A division by zero panics.
unfoldable pub calculate_disassemble_quantity : Inventory → ℕ → ℕ → ℕ → Result ℕ
calculate_disassemble_quantity inv item_id quantity_consumed quantity = do
  let max_possible = get_total_quantity inv item_id / quantity_consumed
  fail_if (quantity_consumed == 0) panic
  fail_if (max_possible == 0) insufficient_quantity
  ok (if ltb quantity max_possible then quantity else max_possible)

-- `calculatePerfectSalvage`
unfoldable pub calculate_perfect_salvage : (ℕ → Bool) → ℕ → ℕ
calculate_perfect_salvage is_lucky zero = 0
calculate_perfect_salvage is_lucky (suc n) =
    let count = calculate_perfect_salvage is_lucky n in if is_lucky n then suc count else count

-- `int(math.Ceil(float64(basePerItem) * PerfectSalvageMultiplier))`, with a multiplier of 1.5.
abbrev pub perfect_per_item : ℕ → ℕ
perfect_per_item base = (3 * base + 1) / 2

-- `totalOutput` of an output.
unfoldable pub total_output : ℕ → ℕ → ℕ → ℕ
total_output actual perfect base =
    (actual - perfect) * base + (if ltb 0 perfect then perfect * perfect_per_item base else 0)

-- `outputMap`
abbrev pub OutputMap : Type 0
OutputMap = ℕ → Option ℕ

abbrev pub with_output : OutputMap → ℕ → ℕ → OutputMap
with_output m name n = λ k. if k == name then some n else m k

-- The loop of `processDisassembleOutputs`: the map and the items to add.
unfoldable pub collect_outputs :
    Calls
    → (ℕ → Option ℕ)
    → ℕ
    → ℕ
    → QualityLevel
    → OutputMap
    → List RecipeOutput
    → Result (OutputMap × List InventorySlot)
collect_outputs c names actual perfect q m [] = ok (m, [])
collect_outputs c names actual perfect q m (output ∷ outputs) = do
  let total = total_output actual perfect output.quantity
  name ← required (names output.item_id) item_not_found
  rest ←
      collect_outputs c names actual perfect q (with_output m (display_name c name) total) outputs
  ok (rest.0, slot output.item_id total q ∷ rest.1)

-- `processDisassembleOutputs`: the map and the inventory.
unfoldable pub process_disassemble_outputs :
    Calls → Inventory → List RecipeOutput → ℕ → ℕ → QualityLevel → Result (OutputMap × Inventory)
process_disassemble_outputs c inv outputs actual perfect q = do
  names ← c.get_items_by_ids
  collected ← collect_outputs c names actual perfect q (λ k. none) outputs
  inv' ← required (add_items inv collected.1 none) panic
  ok (collected.0, inv')

-- `DisassembleResult`, with the number of perfect salvages that the event reports.
pub record DisassembleResult : Type 0 where
  pub outputs : OutputMap
  pub quantity_processed : ℕ
  pub is_perfect_salvage : Bool
  pub perfect_salvage_count : ℕ

-- `executeDisassembleTx`
unfoldable pub execute_disassemble_tx :
    Calls → Inventory → ℕ → DisassembleRecipe → ℕ → Result (DisassembleResult × Inventory)
unfolding calculate_perfect_salvage
execute_disassemble_tx c inv item_id recipe requested = do
  c.begin_tx
  c.get_inventory
  actual ← calculate_disassemble_quantity inv item_id recipe.quantity_consumed requested
  sources ← taken_from (consume_items inv item_id (recipe.quantity_consumed * actual) (c.picks 0))
  output_quality ← average_of sources.0
  let perfect = calculate_perfect_salvage c.is_lucky actual
  outputs ← process_disassemble_outputs c sources.1 recipe.outputs actual perfect output_quality
  c.update_inventory
  c.commit
  ok (
    record {
      outputs = outputs.0;
      quantity_processed = actual;
      is_perfect_salvage = ltb 0 perfect;
      perfect_salvage_count = perfect;
    },
    outputs.1,
  )

-- `DisassembleItem`
unfoldable pub disassemble_steps :
    Calls → Inventory → ℕ → ℕ → ℕ → ℤ → Result (DisassembleResult × Inventory)
disassemble_steps c inv platform platform_id name quantity = do
  requested ← validate_quantity quantity
  validate_platform_input platform platform_id
  validate_item_name name
  input ← validate_disassemble_input c name
  execute_disassemble_tx c inv input.0 input.1 requested

unfoldable pub disassemble_item :
    Calls → Inventory → ℕ → ℕ → ℕ → ℤ → Result DisassembleResult × Inventory
unfolding disassemble_steps
disassemble_item c inv platform platform_id name quantity =
    transact inv (disassemble_steps c inv platform platform_id name quantity)
