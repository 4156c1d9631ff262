-- ===== src/Economy/Sale.antt =====
-- internal/economy/sell.go, with getSellEntities of helpers.go.
pub mod Conservation
use brandish_bot_go.Prelude.{ℕ, ◌*◌, Bool, Option, none, some, ltb, if◌then◌else◌}
use brandish_bot_go.Prelude.Int.{ℤ}
use brandish_bot_go.Failure.{
  Result, ok, err, user_not_found, item_not_found, not_in_inventory, panic, required, transact,
  ◌>>=◌, ◌>>◌,
}
use brandish_bot_go.Inventory.{Inventory, find_random_slot}
use brandish_bot_go.Economy.Pricing.{validate_quantity, calculate_sell_price}
use brandish_bot_go.Economy.Exchange.{process_exchange}
use brandish_bot_go.Economy.Purchase.{Item, Calls, money, resolve_item_name}

-- `getSellEntities`: the item that is sold and the money item.
unfoldable pub get_sell_entities : Calls → ℕ → Result (Item × Item)
unfolding resolve_item_name
get_sell_entities c name = do
  user ← c.get_user
  required user user_not_found
  resolved ← resolve_item_name c name
  found ← c.get_item_by_name resolved
  item ← required found item_not_found
  found_money ← c.get_item_by_name money
  money_item ← required found_money item_not_found
  ok (item, money_item)

-- `if itemSlotIndex == -1`
abbrev pub slot_in : Option (Option ℕ × ℕ) → Result (ℕ × ℕ)
slot_in none = err panic
slot_in (some (none, n)) = err not_in_inventory
slot_in (some (some i, n)) = ok (i, n)

-- `if slotQuantity < quantity { actualQuantity = slotQuantity }`
abbrev pub actual_quantity : ℕ → ℕ → ℕ
actual_quantity slot_quantity quantity =
    if ltb slot_quantity quantity then slot_quantity else quantity

-- The rest of `SellItem` once the slot is chosen: the money gained, the quantity sold, the inventory.
unfoldable pub settle : Calls → Inventory → ℕ → ℕ → ℕ → ℕ → Result ((ℕ × ℕ) × Inventory)
settle c inv i sold gained money_id = do
  inv' ← process_exchange inv i sold gained money_id
  c.update_inventory
  c.commit
  ok ((gained, sold), inv')

module _ (scaled : ℕ → ℕ) (modified : ℕ → Option ℕ) where
  -- The body of `SellItem`.
  unfoldable pub sell_steps : Calls → Inventory → ℕ → ℤ → Result ((ℕ × ℕ) × Inventory)
  sell_steps c inv name quantity = do
    n ← validate_quantity quantity
    entities ← get_sell_entities c name
    c.begin_tx
    c.get_inventory
    found ← slot_in (find_random_slot inv entities.0.id c.pick)
    let sold = actual_quantity found.1 n
    let price = calculate_sell_price scaled modified entities.0.base_value
    settle c inv found.0 sold (sold * price) entities.1.id

  -- `SellItem`
  unfoldable pub sell_item : Calls → Inventory → ℕ → ℤ → Result (ℕ × ℕ) × Inventory
  unfolding sell_steps
  sell_item c inv name quantity = transact inv (sell_steps c inv name quantity)
