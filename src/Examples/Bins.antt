-- ===== src/Examples/Bins.antt =====
-- The theorems on compost bins at a concrete bin and inventory.
use brandish_bot_go.Prelude.{
  ◌+◌, ◌*◌, ◌≡◌, refl, true, false, none, some, List, [], ◌∷◌, ltb, ◌/◌, if◌then◌else◌, arith,
}
use brandish_bot_go.Prelude.Int.{pos}
use brandish_bot_go.Failure.{ok}
use brandish_bot_go.Inventory.{common, rare, slot}
use brandish_bot_go.Inventory.Consume.Conservation.{amount}
use brandish_bot_go.Crafting.Upgrade.Materials.{of_item}
use brandish_bot_go.Compost.{CompostBin, CompostBinItem, Item, composting}
use brandish_bot_go.Compost.Deposit
use brandish_bot_go.Compost.Deposit.{World, DepositItem, ResolvedDeposit, deposit}
use brandish_bot_go.Compost.Harvest
use brandish_bot_go.Compost.Harvest.{
  CompostOutput, sludge_output, calculate_output, collect_steps, collect,
}
use brandish_bot_go.Compost.Bins.{IsBin, HasBin, stay, go, collects, HasBin-Steps}
use brandish_bot_go.Compost.Deposits.{DepositOutcome, deposit-DepositOutcome}
use brandish_bot_go.Compost.Output.{Gives, calculate_output-Gives}
use brandish_bot_go.Compost.Collected.{collect-twice}

abbrev apple : Item
apple = record {
  id = 5;
  internal_name = 50;
  public_name = 51;
  base_value = 7;
  content_types = 4 ∷ [];
  types = 1 ∷ [];
}

abbrev garden : World
garden = record { bin = none; inventory = slot 5 3 common ∷ slot 6 4 rare ∷ [] }

abbrev peel : CompostBinItem
peel = record {
  item_id = 5;
  item_name = 50;
  quantity = 2;
  quality_level = common;
  base_value = 7;
  content_types = 4 ∷ [];
}

abbrev old_bin : CompostBin
old_bin = record {
  status = composting;
  capacity = 5;
  items = peel ∷ [];
  item_count = 2;
  started_at = some 10;
  ready_at = some 20;
  sludge_at = some 700000000000000;
  input_value = 14;
  dominant_type = 4;
}

abbrev full_garden : World
full_garden = record { bin = some old_bin; inventory = slot 5 3 common ∷ [] }

abbrev depositing : Deposit.Calls
depositing = record {
  get_user = ok tt;
  get_bin = ok tt;
  create_bin = ok tt;
  is_feature_unlocked = ok true;
  is_job_feature_unlocked = ok true;
  capacity = 3;
  get_all_items = ok (apple ∷ []);
  begin_tx = ok tt;
  get_bin_for_update = ok tt;
  get_inventory = ok tt;
  update_inventory = ok tt;
  update_bin = ok tt;
  commit = ok tt;
  value = λ x. x.base_value * x.quantity;
  iterate = λ ts. ts;
  reduced = λ d. d;
  sludge_extension = 0;
}

abbrev harvesting : Harvest.Calls
harvesting = record {
  get_user = ok tt;
  get_bin = ok tt;
  is_feature_unlocked = ok true;
  is_job_feature_unlocked = ok true;
  get_all_items = ok (apple ∷ []);
  begin_tx = ok tt;
  get_inventory = ok tt;
  get_items_by_names = ok (λ n. some 5);
  update_inventory = ok tt;
  reset_bin = ok tt;
  commit = ok tt;
  yield = λ v. v / 2;
  sort = λ is. is;
}

abbrev two_apples : List DepositItem
two_apples = record { item_name = 51; quantity = pos 2 } ∷ []

deposit-DepositOutcome_example :
    DepositOutcome depositing 100 two_apples garden (deposit depositing 100 two_apples garden)
deposit-DepositOutcome_example = deposit-DepositOutcome depositing 100 two_apples garden tt

is_old_bin : IsBin old_bin
is_old_bin = ((10, 20, 700000000000000, refl, refl, refl, omega arith, omega arith), refl)

abbrev one_apple : CompostOutput
one_apple = record { name = 50; quantity = 1; is_sludge = false; total_value = 7 }

HasBin-Steps_example :
    HasBin (collect harvesting one_apple (collect harvesting one_apple full_garden).1).1.bin
HasBin-Steps_example =
    HasBin-Steps
      (go (go (stay full_garden) (collects harvesting one_apple full_garden))
        (collects harvesting one_apple (collect harvesting one_apple full_garden).1))
      is_old_bin

calculate_output-Gives_example :
    Gives 20 4 (apple ∷ []) (calculate_output (λ v. 20) (λ is. is) 40 4 false (apple ∷ []))
    × (calculate_output (λ v. 20) (λ is. is) 40 4 true (apple ∷ [])
        ≡ sludge_output (if ltb (40 / 10) 1 then 1 else 40 / 10))
calculate_output-Gives_example =
    calculate_output-Gives (λ v. 20) (λ is. is) 40 4 (apple ∷ []) (λ j h. absurd h, tt)
      (λ i. (λ h. h, λ h. h))

collected_once :
    collect harvesting one_apple full_garden ≡ (ok tt, (collect harvesting one_apple full_garden).1)
unfolding collect collect_steps
collected_once = refl

collected_again :
    collect harvesting one_apple (collect harvesting one_apple full_garden).1
    ≡ (ok tt, (collect harvesting one_apple (collect harvesting one_apple full_garden).1).1)
unfolding collect collect_steps
collected_again = refl

collect-twice_example :
    amount
      (of_item 5)
      (collect harvesting one_apple (collect harvesting one_apple full_garden).1).1.inventory
    ≡ amount (of_item 5) full_garden.inventory + 2 * 1
collect-twice_example =
    collect-twice harvesting harvesting one_apple full_garden
      (collect harvesting one_apple full_garden).1
      (collect harvesting one_apple (collect harvesting one_apple full_garden).1).1 tt tt
      (λ n. some 5) 5 refl refl refl collected_once collected_again
