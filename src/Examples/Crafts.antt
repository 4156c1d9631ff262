-- ===== src/Examples/Crafts.antt =====
-- The theorems on crafting at a concrete inventory and recipe.
use brandish_bot_go.Prelude.{◌≡◌, refl, true, false, none, some, List, [], ◌∷◌, ltb, arith}
use brandish_bot_go.Prelude.Int.{pos}
use brandish_bot_go.Failure.{ok}
use brandish_bot_go.Inventory.{Inventory, common, rare, slot}
use brandish_bot_go.Crafting.{
  Recipe, RecipeCost, DisassembleRecipe, Calls, validate_quantity, validate_platform_input,
  resolve_item_name,
}
use brandish_bot_go.Crafting.Upgrade.{
  UpgradeResult, find_recipe, validate_upgrade_input, upgrade_item,
}
use brandish_bot_go.Crafting.Upgrade.Outcome.{
  UpgradeOutcome, upgrade_item-UpgradeOutcome, upgrade_item-total,
}
use brandish_bot_go.Crafting.Disassemble.{disassemble_item}
use brandish_bot_go.Crafting.Disassemble.Outcome.{
  DisassembleOutcome, disassemble_item-DisassembleOutcome,
}

abbrev materials : Inventory
materials = slot 5 3 common ∷ slot 6 4 rare ∷ slot 5 2 rare ∷ []

abbrev costs : List RecipeCost
costs = record { item_id = 5; quantity = 2 } ∷ record { item_id = 6; quantity = 1 } ∷ []

abbrev sword : Recipe
sword = record {
  id = 1;
  target_item_id = 9;
  base_cost = costs;
  required_job_level = 2;
  is_auto_unlock = false;
}

abbrev scrap : DisassembleRecipe
scrap = record {
  id = 1;
  quantity_consumed = 2;
  outputs = record { item_id = 6; quantity = 1 } ∷ [];
}

abbrev workshop : Calls
workshop = record {
  get_user = ok (some 1);
  resolve_public_name = λ n. none;
  resolve_internal_name = λ n. none;
  get_item_by_name = λ n. ok (some 5);
  get_item_by_id = λ i. ok (some (i, 40));
  job_service = some (record { job_level = ok 3; is_job_feature_unlocked = ok true });
  get_crafting_recipe_by_key = λ n. ok none;
  get_recipe_by_target_item_id = λ i. ok (some sword);
  get_disassemble_recipe = λ i. ok (some scrap);
  get_associated_upgrade_recipe_id = λ i. ok 1;
  is_recipe_unlocked = λ i. ok true;
  get_items_by_ids = ok (λ i. some 41);
  begin_tx = ok tt;
  get_inventory = ok tt;
  update_inventory = ok tt;
  commit = ok tt;
  picks = λ i n. 0;
  is_lucky = λ i. ltb i 1;
}

upgrade_item-UpgradeOutcome_example :
    UpgradeOutcome workshop materials 1 7 8 (pos 5) (upgrade_item workshop materials 1 7 8 (pos 5))
upgrade_item-UpgradeOutcome_example = upgrade_item-UpgradeOutcome workshop materials 1 7 8 (pos 5)

valid : validate_upgrade_input workshop 1 7 8 (pos 5) ≡ ok ((sword, (9, 40)), 5)
unfolding validate_upgrade_input validate_quantity validate_platform_input resolve_item_name
    find_recipe
valid = refl

upgrade_item-total_example :
    (made : UpgradeResult) × (inv' : Inventory) × (upgrade_item workshop materials 1 7 8 (pos 5)
      ≡ (ok made, inv'))
upgrade_item-total_example =
    upgrade_item-total workshop materials 1 7 8 (pos 5) sword (9, 40) 5 valid refl refl refl refl
      refl ((ground arith, tt), (tt, tt)) (omega arith, (omega arith, tt)) (omega arith)

disassemble_item-DisassembleOutcome_example :
    DisassembleOutcome workshop materials 1 7 8
      (pos 5)
      (disassemble_item workshop materials 1 7 8 (pos 5))
disassemble_item-DisassembleOutcome_example =
    disassemble_item-DisassembleOutcome workshop materials 1 7 8 (pos 5)
