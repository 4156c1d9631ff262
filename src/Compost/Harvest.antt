-- ===== src/Compost/Harvest.antt =====
-- internal/compost/harvest.go and CalculateOutput of engine.go: a bin that is done is emptied, and
-- what it gives goes to the user.
--
-- What is paid is planned from a bin that is read before the transaction; the transaction neither
-- locks nor reads the bin. `harvest` is the two in sequence, and `collect` alone is the transaction
-- on whatever the store holds by then.
use brandish_bot_go.Prelude.{
  ℕ, ◌/◌, Bool, true, false, ◌&&◌, Option, none, some, List, [], ◌∷◌, ◌++◌, get_elem?, set, ltb,
  leb, if◌then◌else◌,
}
use brandish_bot_go.Failure.{Result, ok, err, transact, ◌>>=◌, ◌>>◌}
use brandish_bot_go.Inventory.{Inventory, common, slot, add_quantity, find_slot}
use brandish_bot_go.Compost.{
  CompostBinStatus, idle, composting, ready, sludge, CompostBin, Item, has_tag,
  resolve_lazy_bin_status,
}
use brandish_bot_go.Compost.Deposit.{World, new_bin, validate_feature}

-- `domain.ItemSludge` and `domain.ItemMoney`, as names.
abbrev pub item_sludge : ℕ
item_sludge = 2

abbrev pub item_money : ℕ
item_money = 3

-- `CompostOutput`: its map has one entry.
pub record CompostOutput : Type 0 where
  pub name : ℕ
  pub quantity : ℕ
  pub is_sludge : Bool
  pub total_value : ℕ

-- `if v < 1 { v = 1 }`
abbrev pub at_least_one : ℕ → ℕ
at_least_one v = if ltb v 1 then 1 else v

-- The loop that collects the candidates.
abbrev pub candidates : ℕ → List Item → List Item
candidates dominant_type [] = []
candidates dominant_type (i ∷ is) =
    let rest = candidates dominant_type is in
    if has_tag i.content_types dominant_type then i ∷ rest else rest

-- The loop over the sorted candidates.
abbrev pub first_affordable : ℕ → List Item → Option Item
first_affordable value [] = none
first_affordable value (i ∷ is) =
    if leb i.base_value value && ltb 0 i.base_value then some i else first_affordable value is

abbrev pub output_of : ℕ → Option Item → CompostOutput
output_of value (some i) = record {
  name = i.internal_name;
  quantity = at_least_one (value / i.base_value);
  is_sludge = false;
  total_value = value;
}
output_of value none = record {
  name = item_money;
  quantity = value;
  is_sludge = false;
  total_value = value;
}

abbrev pub sludge_output : ℕ → CompostOutput
sludge_output n = record { name = item_sludge; quantity = n; is_sludge = true; total_value = n }

-- `CalculateOutput`; `yield` is the rounded product with the multiplier, `sort` is sort.Slice by
-- falling base value.
unfoldable pub calculate_output :
    (ℕ → ℕ) → (List Item → List Item) → ℕ → ℕ → Bool → List Item → CompostOutput
calculate_output yield sort input_value dominant_type is_sludge all_items =
    if is_sludge
    then sludge_output (at_least_one (input_value / 10))
    else let value = at_least_one (yield input_value) in
      output_of value (first_affordable value (sort (candidates dominant_type all_items)))

pub record Calls : Type 0 where
  pub get_user : Result (Unit {0})
  pub get_bin : Result (Unit {0})
  pub is_feature_unlocked : Result Bool
  pub is_job_feature_unlocked : Result Bool
  pub get_all_items : Result (List Item)
  pub begin_tx : Result (Unit {0})
  pub get_inventory : Result (Unit {0})
  pub get_items_by_names : Result (ℕ → Option ℕ)  -- the ids of the items that exist
  pub update_inventory : Result (Unit {0})
  pub reset_bin : Result (Unit {0})
  pub commit : Result (Unit {0})
  pub yield : ℕ → ℕ
  pub sort : List Item → List Item

-- `HarvestResult`
pub data HarvestResult : Type 0 where
  empty_bin : HarvestResult
  still_composting : CompostBin → HarvestResult
  harvested : CompostOutput → HarvestResult

-- The store's part of `processHarvestItems`: the first slot of the item, whatever its quality.
abbrev pub store_at : Inventory → ℕ → ℕ → Option ℕ → Inventory
store_at inv id n none = inv ++ (slot id n common ∷ [])
store_at inv id n (some i) = elim (get_elem? inv i) [
  | none ↦ inv
  | some s ↦ set inv i (add_quantity s n)
]

-- An output whose item does not exist is skipped.
abbrev pub store_output : Inventory → Option ℕ → ℕ → Inventory
store_output inv none n = inv
store_output inv (some id) n = store_at inv id n (find_slot inv id).0

-- `ResetCompostBin`: the bin is empty and idle.
abbrev pub reset : Option CompostBin → Option CompostBin
reset none = none
reset (some bin) = some (new_bin bin.capacity)

-- The transaction of `Harvest`.
unfoldable pub collect_steps : Calls → CompostOutput → World → Result (Unit {0} × World)
collect_steps c output w = do
  c.begin_tx
  c.get_inventory
  ids ← c.get_items_by_names
  c.update_inventory
  c.reset_bin
  c.commit
  ok (
    tt,
    record {
      bin = reset w.bin;
      inventory = store_output w.inventory (ids output.name) output.quantity;
    },
  )

unfoldable pub collect : Calls → CompostOutput → World → Result (Unit {0}) × World
unfolding collect_steps
collect c output w = transact w (collect_steps c output w)

abbrev pub is_sludge_status : CompostBinStatus → Bool
is_sludge_status idle = false
is_sludge_status composting = false
is_sludge_status ready = false
is_sludge_status sludge = true

-- What the status of the bin at the time asks for.
abbrev pub plan_for : Calls → CompostBin → CompostBinStatus → Result HarvestResult
plan_for c bin composting = ok (still_composting bin)
plan_for c bin s = do
  all ← c.get_all_items
  ok (
      harvested (
        calculate_output c.yield c.sort bin.input_value bin.dominant_type (is_sludge_status s) all))

abbrev pub plan_at : Calls → ℕ → CompostBin → CompostBinStatus → Result HarvestResult
plan_at c now bin idle = ok empty_bin
plan_at c now bin s =
    let current = resolve_lazy_bin_status now bin in plan_for c current current.status

abbrev pub plan_of : Calls → ℕ → Option CompostBin → Result HarvestResult
plan_of c now none = ok empty_bin
plan_of c now (some bin) = plan_at c now bin bin.status

-- The part of `Harvest` before the transaction.
unfoldable pub plan_harvest : Calls → ℕ → Option CompostBin → Result HarvestResult
plan_harvest c now bin = do
  c.get_user
  c.get_bin
  validate_feature c.is_feature_unlocked c.is_job_feature_unlocked
  plan_of c now bin

abbrev pub collected : CompostOutput → Result (Unit {0}) × World → Result HarvestResult × World
collected output (err e, w) = (err e, w)
collected output (ok u, w) = (ok (harvested output), w)

abbrev pub carried_out : Calls → Result HarvestResult → World → Result HarvestResult × World
carried_out c (err e) w = (err e, w)
carried_out c (ok empty_bin) w = (ok empty_bin, w)
carried_out c (ok (still_composting bin)) w = (ok (still_composting bin), w)
carried_out c (ok (harvested output)) w = collected output (collect c output w)

-- `Harvest`
unfoldable pub harvest : Calls → ℕ → World → Result HarvestResult × World
unfolding plan_harvest collect
harvest c now w = carried_out c (plan_harvest c now w.bin) w
