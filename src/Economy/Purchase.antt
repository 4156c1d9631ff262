-- ===== src/Economy/Purchase.antt =====
-- internal/economy/buy.go, with the checks and lookups of helpers.go, validation.go and
-- transaction_ops.go (getMoneyBalance).
pub mod Conservation
use brandish_bot_go.Prelude.{
  ℕ, zero, suc, ◌+◌, ◌-◌, ◌*◌, ◌≤◌, ◌<◌, ◌≡◌, refl, Bool, true, false, not, Option, none, some,
  List, [], ◌∷◌, ltb, leb, ◌==◌, if◌then◌else◌, arith,
}
use brandish_bot_go.Prelude.Int.{ℤ}
use brandish_bot_go.Failure.{
  Result, ok, err, Error, storage, user_not_found, item_not_found, not_buyable, item_locked,
  insufficient_funds, panic, fail_if, required, transact, ◌>>=◌, ◌>>◌,
}
use brandish_bot_go.Inventory.{Inventory, InventorySlot, find_random_slot}
use brandish_bot_go.Economy.Pricing.{
  WeeklySale, Gate, validate_quantity, calculate_affordable_quantity, apply_weekly_sale_discount,
}
use brandish_bot_go.Economy.Exchange.{process_exchange}

-- The fields of `domain.Item` that the economy reads.
pub record Item : Type 0 where
  pub id : ℕ
  pub internal_name : ℕ
  pub base_value : ℕ
  pub types : List ℕ

-- `domain.ItemMoney`, and the category of an item with no type, as names.
abbrev pub money : ℕ
money = 0

abbrev pub default_category : ℕ
default_category = 1

-- What the repository, the naming resolver and the progression service answer during one call.
pub record Calls : Type 0 where
  pub get_user : Result (Option ℕ)
  pub resolve_public_name : ℕ → Option ℕ
  pub get_item_by_name : ℕ → Result (Option Item)
  pub begin_tx : Result (Unit {0})
  pub is_item_buyable : ℕ → Result Bool
  pub is_item_unlocked : Option (ℕ → Result Bool)  -- none without a progression service
  pub get_inventory : Result (Unit {0})
  pub get_inventory_again : Result (Unit {0})
  pub update_inventory : Result (Unit {0})
  pub commit : Result (Unit {0})
  pub pick : ℕ → ℕ
  pub weekly_discount : Gate
  pub weekly_sales : List WeeklySale
  pub iso_week : ℕ

-- `getItemCategory`
unfoldable pub get_item_category : Item → ℕ
get_item_category item = elim (item.types) [ [] ↦ default_category | t ∷ ts ↦ t ]

-- `resolveItemName`
unfoldable pub resolve_item_name : Calls → ℕ → Result ℕ
resolve_item_name c name = elim (c.resolve_public_name name) [
  | some internal ↦ ok internal
  | none ↦ do item ← c.get_item_by_name name; required item item_not_found; ok name
]

-- `getBuyEntities`: the item that is bought.
unfoldable pub get_buy_entities : Calls → ℕ → Result Item
unfolding resolve_item_name
get_buy_entities c name = do
  user ← c.get_user
  required user user_not_found
  resolved ← resolve_item_name c name
  item ← c.get_item_by_name resolved
  required item item_not_found

-- The unlock check of `checkBuyEligibility`, which is skipped without a progression service.
abbrev pub unlock_of : Option (ℕ → Result Bool) → ℕ → Result (Unit {0})
unlock_of none name = ok tt
unlock_of (some is_unlocked) name = do
  unlocked ← is_unlocked name
  fail_if (not unlocked) item_locked

-- `checkBuyEligibility`
unfoldable pub check_buy_eligibility : Calls → Item → Result (Unit {0})
check_buy_eligibility c item = do
  buyable ← c.is_item_buyable item.internal_name
  fail_if (not buyable) not_buyable
  unlock_of c.is_item_unlocked item.internal_name

-- The balance must be positive: `if moneyBalance <= 0`.
abbrev pub positive_balance : Option (Option ℕ × ℕ) → Result (Option ℕ × ℕ)
positive_balance none = err panic
positive_balance (some (i, n)) = if n == 0 then err insufficient_funds else ok (i, n)

-- `getMoneyBalance`: a slot of money, chosen at random, and what it holds.
unfoldable pub get_money_balance : Calls → Inventory → Result (Option ℕ × ℕ)
get_money_balance c inv = do
  item ← c.get_item_by_name money
  money_item ← required item item_not_found
  c.get_inventory
  positive_balance (find_random_slot inv money_item.id c.pick)

-- `inventory, _ := tx.GetInventory(...)`: the error is dropped, and a nil inventory then panics.
abbrev pub ignored : Result (Unit {0}) → Result (Unit {0})
ignored (ok _) = ok tt
ignored (err _) = err panic

abbrev pub index : Option ℕ → Result ℕ
index none = err panic
index (some i) = ok i

-- The rest of `BuyItem` once the quantity and its cost are known.
unfoldable pub settle : Calls → Inventory → Item → Option ℕ → ℕ × ℕ → Result (ℕ × Inventory)
settle c inv item money_slot (n, cost) = do
  fail_if (n == 0) insufficient_funds
  ignored c.get_inventory_again
  i ← index money_slot
  inv' ← process_exchange inv i cost n item.id
  c.update_inventory
  c.commit
  ok (n, inv')

module _ (equal_fold : ℕ → ℕ → Bool) (discount : ℕ → ℕ → ℕ) where
  -- `calculatePurchaseDetails`
  unfoldable pub calculate_purchase_details : Calls → Item → ℕ → ℕ → ℕ × ℕ
  calculate_purchase_details c item requested available =
      let price =
        apply_weekly_sale_discount equal_fold discount c.weekly_discount c.weekly_sales c.iso_week
          item.base_value (get_item_category item) in
      calculate_affordable_quantity requested price available

  -- The body of `BuyItem`: the quantity bought and the inventory to be stored.
  unfoldable pub buy_steps : Calls → Inventory → ℕ → ℤ → Result (ℕ × Inventory)
  buy_steps c inv name quantity = do
    n ← validate_quantity quantity
    item ← get_buy_entities c name
    c.begin_tx
    check_buy_eligibility c item
    balance ← get_money_balance c inv
    settle c inv item balance.0 (calculate_purchase_details c item n balance.1)

  -- `BuyItem`
  unfoldable pub buy_item : Calls → Inventory → ℕ → ℤ → Result ℕ × Inventory
  unfolding buy_steps
  buy_item c inv name quantity = transact inv (buy_steps c inv name quantity)
