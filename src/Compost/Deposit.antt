-- ===== src/Compost/Deposit.antt =====
-- internal/compost/deposit.go, with the checks of service.go: items of a user go into the bin.
--
-- The checks run on a bin that is read before the transaction; the transaction locks the bin, reads
-- it again and does not repeat them. `deposit` is the two in sequence, and `store_deposit` alone is
-- the second half on whatever the store holds by then.
use brandish_bot_go.Prelude.{
  ℕ, ◌+◌, Bool, true, false, not, Option, none, some, List, [], ◌∷◌, ◌++◌, ltb, ◌==◌, if◌then◌else◌,
}
use brandish_bot_go.Prelude.Int.{ℤ, pos, pos_part, leb_ℤ}
use brandish_bot_go.Failure.{
  Result, ok, err, item_not_found, feature_locked, insufficient_quantity, invalid_quantity,
  must_harvest, bin_full, not_compostable, panic, fail_if, required, transact, ◌>>=◌, ◌>>◌,
}
use brandish_bot_go.Stateful.{continue}
use brandish_bot_go.Inventory.{Inventory, common, find_slot, remove_from_slot}
use brandish_bot_go.Compost.{
  CompostBinStatus, idle, composting, ready, sludge, CompostBinItem, CompostBin, Item, has_tag, due,
  calculate_ready_at, calculate_sludge_at, total_item_count, calculate_input_value,
  determine_dominant_type,
}

-- A user's bin and inventory as they are stored.
pub record World : Type 0 where
  pub bin : Option CompostBin
  pub inventory : Inventory

pub record Calls : Type 0 where
  pub get_user : Result (Unit {0})
  pub get_bin : Result (Unit {0})
  pub create_bin : Result (Unit {0})
  pub is_feature_unlocked : Result Bool
  pub is_job_feature_unlocked : Result Bool
  pub capacity : ℕ
  pub get_all_items : Result (List Item)
  pub begin_tx : Result (Unit {0})
  pub get_bin_for_update : Result (Unit {0})
  pub get_inventory : Result (Unit {0})
  pub update_inventory : Result (Unit {0})
  pub update_bin : Result (Unit {0})
  pub commit : Result (Unit {0})
  pub value : CompostBinItem → ℕ
  pub iterate : List ℕ → List ℕ
  pub reduced : ℕ → ℕ
  pub sludge_extension : ℕ

abbrev pub compostable_tag : ℕ
compostable_tag = 1

abbrev pub default_capacity : ℕ
default_capacity = 5

-- The row that `CreateCompostBin` inserts: by the defaults of the table an empty idle bin of the
-- default capacity.
abbrev pub new_bin : ℕ → CompostBin
new_bin capacity = record {
  status = idle;
  capacity = capacity;
  items = [];
  item_count = 0;
  started_at = none;
  ready_at = none;
  sludge_at = none;
  input_value = 0;
  dominant_type = 0;
}

-- `validateFeature`: an error of the job service is passed over.
abbrev pub job_gate : Result Bool → Result (Unit {0})
job_gate (err e) = ok tt
job_gate (ok unlocked) = fail_if (not unlocked) feature_locked

unfoldable pub validate_feature : Result Bool → Result Bool → Result (Unit {0})
validate_feature feature job = do
  unlocked ← feature
  fail_if (not unlocked) feature_locked
  job_gate job

-- `checkDepositPossible`
abbrev pub must_be_harvested : ℕ → CompostBin → CompostBinStatus → Bool
must_be_harvested now bin idle = false
must_be_harvested now bin composting = due now bin.ready_at
must_be_harvested now bin ready = true
must_be_harvested now bin sludge = true

abbrev pub check_deposit_possible : ℕ → CompostBin → Result (Unit {0})
check_deposit_possible now bin = fail_if (must_be_harvested now bin bin.status) must_harvest

-- `itemsByName[name]`: of two items with one name the later one stays in the map.
abbrev pub by_internal_name : List Item → ℕ → Option Item
by_internal_name [] name = none
by_internal_name (i ∷ is) name = elim (by_internal_name is name) [
  | some j ↦ some j
  | none ↦ if i.internal_name == name then some i else none
]

abbrev pub by_public_name : List Item → ℕ → Option Item
by_public_name [] name = none
by_public_name (i ∷ is) name = if i.public_name == name then some i else by_public_name is name

abbrev pub named_item : List Item → ℕ → Option Item
named_item items name = elim (by_internal_name items name) [
  | some i ↦ some i
  | none ↦ by_public_name items name
]

pub record DepositItem : Type 0 where
  pub item_name : ℕ
  pub quantity : ℤ

pub record ResolvedDeposit : Type 0 where
  pub item : Item
  pub quantity : ℕ

-- The loop of `resolveDepositItems`.
unfoldable pub resolve_from : List Item → List DepositItem → Result (List ResolvedDeposit)
resolve_from items [] = ok []
resolve_from items (d ∷ ds) = do
  item ← required (named_item items d.item_name) item_not_found
  fail_if (not (has_tag item.types compostable_tag)) not_compostable
  fail_if (leb_ℤ d.quantity (pos 0)) invalid_quantity
  rest ← resolve_from items ds
  ok (record { item = item; quantity = pos_part d.quantity } ∷ rest)

abbrev pub total_resolved : List ResolvedDeposit → ℕ
total_resolved [] = 0
total_resolved (r ∷ rs) = r.quantity + total_resolved rs

-- The part of `Deposit` before the transaction: what will be stored.
unfoldable pub check_deposit :
    Calls → ℕ → List DepositItem → CompostBin → Result (List ResolvedDeposit)
check_deposit c now items bin = do
  validate_feature c.is_feature_unlocked c.is_job_feature_unlocked
  check_deposit_possible now bin
  all ← c.get_all_items
  resolved ← resolve_from all items
  fail_if (ltb c.capacity (bin.item_count + total_resolved resolved)) bin_full
  ok resolved

-- The slot that the loop of `executeDepositTransaction` takes an item from.
abbrev pub enough_in : Option ℕ × ℕ → ℕ → Result ℕ
enough_in (none, held) n = err insufficient_quantity
enough_in (some i, held) n = if ltb held n then err insufficient_quantity else ok i

unfoldable pub take_deposits : Inventory → List ResolvedDeposit → Result Inventory
take_deposits inv [] = ok inv
take_deposits inv (r ∷ rs) = do
  i ← enough_in (find_slot inv r.item.id) r.quantity
  inv' ← required (remove_from_slot inv i r.quantity) panic
  take_deposits inv' rs

abbrev pub bin_items : List ResolvedDeposit → List CompostBinItem
bin_items [] = []
bin_items (r ∷ rs) =
    record {
      item_id = r.item.id;
      item_name = r.item.internal_name;
      quantity = r.quantity;
      quality_level = common;
      base_value = r.item.base_value;
      content_types = r.item.content_types;
    }
    ∷ bin_items rs

-- `updateBinWithDeposits`. A bin that is not idle and has no start is a nil dereference.
abbrev pub started_status : CompostBinStatus → CompostBinStatus
started_status idle = composting
started_status composting = composting
started_status ready = ready
started_status sludge = sludge

abbrev pub started_when : ℕ → CompostBinStatus → Option ℕ → Option ℕ
started_when now idle started_at = some now
started_when now composting started_at = started_at
started_when now ready started_at = started_at
started_when now sludge started_at = started_at

abbrev pub refilled : Calls → ℕ → ℕ → CompostBinStatus → List CompostBinItem → CompostBin
refilled c capacity start status items =
    let count = total_item_count items in
    let ready_time = calculate_ready_at c.reduced start count in
    record {
      status = status;
      capacity = capacity;
      items = items;
      item_count = count;
      started_at = some start;
      ready_at = some ready_time;
      sludge_at = some (calculate_sludge_at ready_time c.sludge_extension);
      input_value = calculate_input_value c.value items;
      dominant_type = determine_dominant_type c.value c.iterate items;
    }

unfoldable pub update_bin_with_deposits :
    Calls → ℕ → ℕ → CompostBin → List ResolvedDeposit → Result CompostBin
update_bin_with_deposits c now capacity bin rs = do
  start ← required (started_when now bin.status bin.started_at) panic
  ok (refilled c capacity start (started_status bin.status) (bin.items ++ bin_items rs))

-- `executeDepositTransaction`
unfoldable pub deposit_steps :
    Calls → ℕ → List ResolvedDeposit → World → Result (CompostBin × World)
deposit_steps c now rs w = do
  c.begin_tx
  c.get_bin_for_update
  locked ← required w.bin panic
  c.get_inventory
  inv ← take_deposits w.inventory rs
  c.update_inventory
  bin ← update_bin_with_deposits c now c.capacity locked rs
  c.update_bin
  c.commit
  ok (bin, record { bin = some (record bin { capacity = locked.capacity }); inventory = inv })

unfoldable pub store_deposit : Calls → ℕ → List ResolvedDeposit → World → Result CompostBin × World
unfolding deposit_steps
store_deposit c now rs w = transact w (deposit_steps c now rs w)

-- `getUserAndBin` with `createIfMissing`: the new bin stays, whatever follows.
abbrev pub created : World → Result (Unit {0}) → Result CompostBin × World
created w (err e) = (err e, w)
created w (ok u) =
    (ok (new_bin default_capacity), record w { bin = some (new_bin default_capacity) })

abbrev pub bin_or_new : Calls → World → Option CompostBin → Result CompostBin × World
bin_or_new c w (some bin) = (ok bin, w)
bin_or_new c w none = created w c.create_bin

abbrev pub located : Calls → World → Result (Unit {0}) → Result CompostBin × World
located c w (err e) = (err e, w)
located c w (ok u) = bin_or_new c w w.bin

abbrev pub get_user_and_bin : Calls → World → Result CompostBin × World
get_user_and_bin c w = located c w (c.get_user >> c.get_bin)

-- `Deposit`
unfoldable pub deposit : Calls → ℕ → List DepositItem → World → Result CompostBin × World
unfolding check_deposit store_deposit
deposit c now items w =
    continue (get_user_and_bin c w)
      λ bin w1. continue (check_deposit c now items bin, w1) (store_deposit c now)
