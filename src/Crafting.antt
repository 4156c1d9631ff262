-- ===== src/Crafting.antt =====
-- internal/crafting and internal/domain/recipe.go: recipes, and the checks that come before an
-- upgrade or a disassembly.
--
-- Names, platforms and platform ids are numbers, 0 is the empty string. `Calls` holds the answers
-- of the storage, the name resolver, the job service and the random source during one call. The
-- quantities of a recipe are natural numbers.
pub mod Upgrade
pub mod Disassemble
use brandish_bot_go.Prelude.{
  ℕ, Bool, not, ◌||◌, Option, none, some, List, ltb, leb, ◌==◌, if◌then◌else◌,
}
use brandish_bot_go.Prelude.Int.{ℤ, pos, pos_part, leb_ℤ}
use brandish_bot_go.Failure.{
  Result, ok, err, invalid_quantity, invalid_input, invalid_platform, user_not_found,
  item_not_found, feature_locked, recipe_locked, fail_if, required, ◌>>=◌, ◌>>◌,
}

pub record RecipeCost : Type 0 where
  pub item_id : ℕ
  pub quantity : ℕ

pub record Recipe : Type 0 where
  pub id : ℕ
  pub target_item_id : ℕ
  pub base_cost : List RecipeCost
  pub required_job_level : ℕ
  pub is_auto_unlock : Bool

pub record RecipeOutput : Type 0 where
  pub item_id : ℕ
  pub quantity : ℕ

pub record DisassembleRecipe : Type 0 where
  pub id : ℕ
  pub quantity_consumed : ℕ
  pub outputs : List RecipeOutput

-- What the job service answers about the user.
pub record JobService : Type 0 where
  pub job_level : Result ℕ
  pub is_job_feature_unlocked : Result Bool

pub record Calls : Type 0 where
  pub get_user : Result (Option ℕ)
  pub resolve_public_name : ℕ → Option ℕ
  pub resolve_internal_name : ℕ → Option ℕ
  pub get_item_by_name : ℕ → Result (Option ℕ)
  pub get_item_by_id : ℕ → Result (Option (ℕ × ℕ))  -- its id and internal name
  pub job_service : Option JobService
  pub get_crafting_recipe_by_key : ℕ → Result (Option Recipe)
  pub get_recipe_by_target_item_id : ℕ → Result (Option Recipe)
  pub get_disassemble_recipe : ℕ → Result (Option DisassembleRecipe)
  pub get_associated_upgrade_recipe_id : ℕ → Result ℕ
  pub is_recipe_unlocked : ℕ → Result Bool
  pub get_items_by_ids : Result (ℕ → Option ℕ)  -- the internal names of the items that exist
  pub begin_tx : Result (Unit {0})
  pub get_inventory : Result (Unit {0})
  pub update_inventory : Result (Unit {0})
  pub commit : Result (Unit {0})
  pub picks : ℕ → ℕ → ℕ  -- the draws of the shuffle for the material at an index
  pub is_lucky : ℕ → Bool  -- whether a draw is below the chance of a masterwork or of a salvage

-- `domain.PlatformTwitch`, `PlatformDiscord` and `PlatformYoutube`
abbrev pub platform_twitch : ℕ
platform_twitch = 1

abbrev pub platform_discord : ℕ
platform_discord = 2

abbrev pub platform_youtube : ℕ
platform_youtube = 3

-- `validateQuantity`
unfoldable pub validate_quantity : ℤ → Result ℕ
validate_quantity quantity = do
  fail_if (leb_ℤ quantity (pos 0)) invalid_quantity
  ok (pos_part quantity)

-- `validatePlatformInput`
unfoldable pub validate_platform_input : ℕ → ℕ → Result (Unit {0})
validate_platform_input platform platform_id = do
  fail_if (platform == 0 || platform_id == 0) invalid_input
  fail_if
      (not (
        platform == platform_twitch
        || platform == platform_discord
        || platform == platform_youtube))
      invalid_platform

-- `validateItemName`
abbrev pub validate_item_name : ℕ → Result (Unit {0})
validate_item_name name = fail_if (name == 0) invalid_input

-- `validateUser`
abbrev pub validate_user : Calls → Result ℕ
validate_user c = do user ← c.get_user; required user user_not_found

-- `validateItem`
abbrev pub validate_item : Calls → ℕ → Result ℕ
validate_item c name = do item ← c.get_item_by_name name; required item item_not_found

-- `resolveItemName`
unfoldable pub resolve_item_name : Calls → ℕ → Result ℕ
resolve_item_name c name = elim (c.resolve_public_name name) [
  | some internal ↦ ok internal
  | none ↦ do item ← validate_item c name; ok name
]

-- `if err == nil && !jobUnlocked`: an error of the job service is passed over.
abbrev pub feature_gate : Result Bool → Result (Unit {0})
feature_gate (err e) = ok tt
feature_gate (ok unlocked) = fail_if (not unlocked) feature_locked

-- `if !unlocked`, after the storage was asked about a recipe.
abbrev pub check_recipe_unlocked : Calls → ℕ → Result (Unit {0})
check_recipe_unlocked c recipe = do
  unlocked ← c.is_recipe_unlocked recipe
  fail_if (not unlocked) recipe_locked

-- `displayName`: the public name of an item if it has one.
abbrev pub display_name : Calls → ℕ → ℕ
display_name c name = elim (c.resolve_internal_name name) [ some shown ↦ shown | none ↦ name ]
