-- ===== src/Examples.antt =====
-- Concrete inventories, calls and stores on which the theorems are applied.
pub mod Crafts
pub mod Bins
pub mod Links
pub mod Votes
pub mod Items
pub mod Services
pub mod Gambles
pub mod Executed
pub mod Loot
pub mod Quests
pub mod Trees
pub mod Cooldowns
pub mod Progress
pub mod Retried
use brandish_bot_go.Prelude.{ℕ, true, Option, none, some, List, [], ◌∷◌, ◌==◌, ◌&&◌, if◌then◌else◌}
use brandish_bot_go.Prelude.Int.{pos}
use brandish_bot_go.Failure.{ok}
use brandish_bot_go.Inventory.{Inventory, slot, common, rare, epic}
use brandish_bot_go.Economy.Pricing.{absent}
use brandish_bot_go.Economy.Purchase
use brandish_bot_go.Economy.Purchase.{Item}
use brandish_bot_go.Slots.Spin
use brandish_bot_go.Users
use brandish_bot_go.Users.{Inventories}
use brandish_bot_go.Duel
use brandish_bot_go.Duel.{DuelStakes, World, pending}

-- Money is item 0, the traded item is item 7.
abbrev pub purse : Inventory
purse = slot 0 500 common ∷ slot 7 3 rare ∷ slot 7 2 epic ∷ []

abbrev pub money_item : Item
money_item = record { id = 0; internal_name = 0; base_value = 1; types = [] }

abbrev pub blaster : Item
blaster = record { id = 7; internal_name = 7; base_value = 20; types = [] }

abbrev pub shop : Purchase.Calls
shop = record {
  get_user = ok (some 1);
  resolve_public_name = λ n. none;
  get_item_by_name = λ n. if n == 0 then ok (some money_item) else ok (some blaster);
  begin_tx = ok tt;
  is_item_buyable = λ n. ok true;
  is_item_unlocked = none;
  get_inventory = ok tt;
  get_inventory_again = ok tt;
  update_inventory = ok tt;
  commit = ok tt;
  pick = λ n. 0;
  weekly_discount = absent;
  weekly_sales = [];
  iso_week = 1;
}

abbrev pub machine : Spin.Calls
machine = record {
  get_user = ok tt;
  is_feature_unlocked = ok true;
  cooldown_before = ok tt;
  begin_tx = ok tt;
  get_money_item = ok (some money_item);
  get_inventory = ok tt;
  pick = λ n. 0;
  roll = 860;
  update_inventory = ok tt;
  commit = ok tt;
  rng = λ k n. 0;
  cooldown_after = ok tt;
}

abbrev pub user_service : Users.Calls
user_service = record {
  get_user = ok tt;
  get_item = λ n. ok (some n);
  begin_tx = ok tt;
  get_inventory = ok tt;
  get_receiver_inventory = ok tt;
  update_inventory = ok tt;
  update_receiver_inventory = ok tt;
  commit = ok tt;
  pick = λ n. 0;
}

abbrev pub everyone : Inventories
everyone = λ u. purse

abbrev pub stakes : DuelStakes
stakes = record { timeout_duration = pos 60; wager_item_key = some 7; wager_amount = pos 2 }

-- User 1 challenges user 2.
abbrev pub challenging : Duel.Calls
challenging = record {
  now = 100;
  named = λ u. u;
  caller = ok 1;
  opponent = ok 2;
  parse_ids = ok tt;
  create_duel = ok tt;
  begin_tx = ok tt;
  get_duel = ok tt;
  get_challenger = ok tt;
  update_duel_state = ok tt;
  accept_duel = ok tt;
  commit = ok tt;
  coin = 1;
  removing = user_service;
  adding = user_service;
}

abbrev pub accepting : Duel.Calls
accepting = record challenging { caller = ok 2 }

abbrev pub start : World
start = record { inventories = everyone; duels = λ i. none; timeouts = λ u. none }
