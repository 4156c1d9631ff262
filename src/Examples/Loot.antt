-- ===== src/Examples/Loot.antt =====
-- The theorems on lootboxes at a concrete pool and box.
use brandish_bot_go.Prelude.{
  ℕ, ◌≡◌, ◌<◌, ◌≤◌, refl, true, false, Option, none, some, List, [], ◌∷◌, ◌-◌, get_elem?, arith,
  ◌==◌, if◌then◌else◌,
}
use brandish_bot_go.Failure.{ok, err, storage}
use brandish_bot_go.Lootbox
use brandish_bot_go.Lootbox.{
  PoolItemDef, FlatPoolEntry, FlatPool, add_item, add_all, pool_from, build_flat_pool, select_item,
}
use brandish_bot_go.Lootbox.Choice.{start_of, select_item-Chosen}
use brandish_bot_go.Lootbox.Boxes.{
  FlattenedLootbox, PoolRef, Rolls, add_refs, build_flattened_lootbox, process_loot_table,
}
use brandish_bot_go.Lootbox.Boxes.Counts.{IsOpened, process_loot_table-IsOpened}

-- Item 8 is locked.
abbrev calls : Lootbox.Calls
calls = record {
  item_by_name = λ n. some n;
  items_by_type = λ t. 7 ∷ 8 ∷ 9 ∷ [];
  is_item_unlocked = some (λ n. if n == 8 then ok false else err storage);
}

abbrev defined : List PoolItemDef
defined =
    record { item_name = some 3; item_type = none; weight = 5 }
    ∷ record { item_name = none; item_type = some 1; weight = 2 }
    ∷ []

abbrev pool : FlatPool
pool = record {
  entries =
      record { item_name = 3; cumul_weight = 5 }
      ∷ record { item_name = 7; cumul_weight = 7 }
      ∷ record { item_name = 9; cumul_weight = 9 }
      ∷ [];
  total_weight = 9;
}

pool-built : build_flat_pool calls defined ≡ ok pool
unfolding build_flat_pool pool_from add_item add_all
pool-built = refl

select_item-Chosen_example :
    (k : ℕ) × (e : FlatPoolEntry) × (select_item pool 6 ≡ some e)
    × (get_elem? pool.entries k ≡ some e)
    × (start_of FlatPoolEntry.cumul_weight pool.entries k ≤ 6)
    × (6 < e.cumul_weight)
select_item-Chosen_example = select_item-Chosen calls defined pool 6 pool-built (omega arith)

abbrev pools : ℕ → Option FlatPool
pools name = if name == 4 then some pool else none

abbrev refs : List PoolRef
refs = record { pool_name = 4; weight = 1 } ∷ []

abbrev flat : FlattenedLootbox
flat = record {
  money_min = 2;
  money_max = 9;
  pool_refs = record { pool_name = 4; cumul_weight = 1 } ∷ [];
  total_pool_weight = 1;
  pools = λ name. if name == 4 then some pool else none;
}

flat-built : build_flattened_lootbox pools 2 9 refs ≡ ok flat
unfolding build_flattened_lootbox add_refs
flat-built = refl

abbrev rolls : List Rolls
rolls =
    record { gate_fails = true; amount = λ min max. min; pool_roll = λ t. 0; item_roll = λ t. 0 }
    ∷ record {
      gate_fails = false;
      amount = λ min max. min;
      pool_roll = λ t. t - 1;
      item_roll = λ t. t - 1;
    }
    ∷ []

process_loot_table-IsOpened_example :
    IsOpened 2 (record { drop_counts = []; consolation_money = 0 }) (process_loot_table flat rolls)
process_loot_table-IsOpened_example =
    process_loot_table-IsOpened pools 2 9 refs flat rolls flat-built
