-- ===== src/Lootbox/Boxes.antt =====
-- internal/lootbox/cache.go and engine.go: a lootbox with its pools, and the opening of many boxes.
--
-- What is drawn for a box is a parameter, with the rounded amount of its consolation money.
pub mod Counts
use brandish_bot_go.Prelude.{
  ℕ, zero, suc, ◌+◌, ◌-◌, Bool, true, false, Option, none, some, List, [], ◌∷◌, ◌++◌, length, ltb,
  ◌==◌, if◌then◌else◌,
}
use brandish_bot_go.Failure.{Result, ok, err, pool_not_defined, no_pool_references, required, ◌>>=◌}
use brandish_bot_go.Lootbox.{FlatPool, FlatPoolEntry, bisect, entry_at, select_item}

pub record FlatPoolRef : Type 0 where
  pub pool_name : ℕ
  pub cumul_weight : ℕ

pub record FlattenedLootbox : Type 0 where
  pub money_min : ℕ
  pub money_max : ℕ
  pub pool_refs : List FlatPoolRef
  pub total_pool_weight : ℕ
  pub pools : ℕ → Option FlatPool

pub record PoolRef : Type 0 where
  pub pool_name : ℕ
  pub weight : ℕ

-- The loop of `buildFlattenedLootbox` over the references.
unfoldable pub add_refs :
    (ℕ → Option FlatPool) → List PoolRef → FlattenedLootbox → Result FlattenedLootbox
add_refs pools [] flb = ok flb
add_refs pools (r ∷ rs) flb = do
  fp ← required (pools r.pool_name) pool_not_defined
  add_refs pools rs (record flb {
    total_pool_weight = flb.total_pool_weight + r.weight;
    pool_refs =
        flb.pool_refs
        ++ (record { pool_name = r.pool_name; cumul_weight = flb.total_pool_weight + r.weight }
            ∷ []);
    pools = λ name. if name == r.pool_name then some fp else flb.pools name;
  })

-- `buildFlattenedLootbox`; without any reference the lootbox is refused.
unfoldable pub build_flattened_lootbox :
    (ℕ → Option FlatPool) → ℕ → ℕ → List PoolRef → Result FlattenedLootbox
unfolding add_refs
build_flattened_lootbox pools min max [] = err no_pool_references
build_flattened_lootbox pools min max (r ∷ rs) = add_refs pools (r ∷ rs) (record {
  money_min = min;
  money_max = if ltb max min then min else max;
  pool_refs = [];
  total_pool_weight = 0;
  pools = λ name. none;
})

-- `selectPool`
abbrev pub name_of : Option FlatPoolRef → Option ℕ
name_of none = none
name_of (some r) = some r.pool_name

unfoldable pub select_pool : FlattenedLootbox → ℕ → Option ℕ
unfolding bisect
select_pool flat roll = name_of (
    entry_at flat.pool_refs (
      bisect FlatPoolRef.cumul_weight flat.pool_refs roll (length flat.pool_refs)
        (0, length flat.pool_refs - 1)))

-- What is drawn for one box; a roll is for a total weight.
pub record Rolls : Type 0 where
  pub gate_fails : Bool
  pub amount : ℕ → ℕ → ℕ  -- the rounded amount between MoneyMin and MoneyMax
  pub pool_roll : ℕ → ℕ
  pub item_roll : ℕ → ℕ

-- `dropCounts` as a list, and the consolation money.
pub record LootTally : Type 0 where
  pub drop_counts : List (ℕ × ℕ)
  pub consolation_money : ℕ

-- `dropCounts[entry.ItemName]`
unfoldable pub count_drop : ℕ → List (ℕ × ℕ) → List (ℕ × ℕ)
count_drop name [] = (name, 1) ∷ []
count_drop name ((n, qty) ∷ ds) =
    if n == name then (n, qty + 1) ∷ ds else (n, qty) ∷ count_drop name ds

-- A box without an item: at least 1 of consolation money.
abbrev pub console : FlattenedLootbox → Rolls → LootTally → LootTally
console flat r o = record o {
  consolation_money =
      o.consolation_money
      + (if ltb (r.amount flat.money_min flat.money_max) 1
          then 1
          else r.amount flat.money_min flat.money_max);
}

-- A box with a pool: the pool may be empty. `none` is a nil pool or an index out of range.
abbrev pub count_entry : Option FlatPoolEntry → LootTally → Option LootTally
count_entry none o = none
count_entry (some e) o = some (record o { drop_counts = count_drop e.item_name o.drop_counts })

abbrev pub from_entries :
    FlattenedLootbox → Rolls → FlatPool → List FlatPoolEntry → LootTally → Option LootTally
from_entries flat r pool [] o = some (console flat r o)
from_entries flat r pool (e ∷ es) o =
    count_entry (select_item pool (r.item_roll pool.total_weight)) o

abbrev pub open_pool : FlattenedLootbox → Rolls → Option FlatPool → LootTally → Option LootTally
open_pool flat r none o = none
open_pool flat r (some pool) o = from_entries flat r pool pool.entries o

abbrev pub pool_at : FlattenedLootbox → Option ℕ → Option FlatPool
pool_at flat none = none
pool_at flat (some name) = flat.pools name

unfoldable pub open_box : FlattenedLootbox → Rolls → LootTally → Option LootTally
open_box flat r o =
    if r.gate_fails
    then some (console flat r o)
    else open_pool flat r (pool_at flat (select_pool flat (r.pool_roll flat.total_pool_weight))) o

-- `processLootTable`: one box for every member of the list of rolls.
unfoldable pub process_from : FlattenedLootbox → List Rolls → LootTally → Option LootTally
process_from flat [] o = some o
process_from flat (r ∷ rs) o = elim (open_box flat r o) [
  | none ↦ none
  | some o' ↦ process_from flat rs o'
]

unfoldable pub process_loot_table : FlattenedLootbox → List Rolls → Option LootTally
unfolding process_from
process_loot_table flat rolls =
    process_from flat rolls (record { drop_counts = []; consolation_money = 0 })
