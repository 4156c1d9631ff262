-- ===== src/Users.antt =====
-- internal/user/inventory.go: items of users, added, removed and given.
--
-- A user is a number, as is an item. `Calls` holds the answers of the lookups and of the storage;
-- withTx writes what the function stored only when the function and the commit end without error.
pub mod Items
pub mod Gifts
use brandish_bot_go.Prelude.{
  ℕ, ◌+◌, ◌-◌, Bool, true, false, Option, none, some, List, [], ◌∷◌, ◌++◌, get_elem?, set,
  remove_at, ltb, leb, ◌==◌, if◌then◌else◌,
}
use brandish_bot_go.Failure.{
  Result, ok, err, storage, item_not_found, not_in_inventory, insufficient_quantity, panic,
  required, fail_if, transact, ◌>>=◌, ◌>>◌,
}
use brandish_bot_go.Inventory.{
  Inventory, InventorySlot, QualityLevel, common, slot, add_quantity, find_slot_with_quality,
  find_random_slot,
}

abbrev pub Inventories : Type 0
Inventories = ℕ → Inventory

abbrev pub write : Inventories → ℕ → Inventory → Inventories
write w user inv = λ u. if u == user then inv else w u

pub record Calls : Type 0 where
  pub get_user : Result (Unit {0})
  pub get_item : ℕ → Result (Option ℕ)
  pub begin_tx : Result (Unit {0})
  pub get_inventory : Result (Unit {0})
  pub get_receiver_inventory : Result (Unit {0})
  pub update_inventory : Result (Unit {0})
  pub update_receiver_inventory : Result (Unit {0})
  pub commit : Result (Unit {0})
  pub pick : ℕ → ℕ

-- The search and the update that adding an item has, here and in addItemToTx.
abbrev pub store_at : Inventory → ℕ → ℕ → QualityLevel → Option ℕ → Inventory
store_at inv id n q none = inv ++ (slot id n q ∷ [])
store_at inv id n q (some i) = elim (get_elem? inv i) [
  | none ↦ inv
  | some s ↦ set inv i (add_quantity s n)
]

unfoldable pub store_item : Inventory → ℕ → ℕ → QualityLevel → Inventory
store_item inv id n q = store_at inv id n q (find_slot_with_quality inv id q).0

-- `addItemToUserInternal`: what is added has common quality.
unfoldable pub add_item_to_user : Calls → Inventory → ℕ → ℕ → Result (Unit {0} × Inventory)
add_item_to_user c inv name n = do
  found ← c.get_item name
  id ← required found item_not_found
  c.begin_tx
  c.get_inventory
  c.update_inventory
  c.commit
  ok (tt, store_item inv id n common)

-- `AddItemByUsername`
unfoldable pub add_item_by_username :
    Calls → Inventories → ℕ → ℕ → ℕ → Result (Unit {0}) × Inventories
unfolding add_item_to_user
add_item_by_username c w user name n =
    let (r, inv') = transact (w user) (c.get_user >> add_item_to_user c (w user) name n) in
    (r, write w user inv')

-- The found slot, or what a search without a slot returns.
abbrev pub found_slot : Option (Option ℕ × ℕ) → Result (ℕ × ℕ)
found_slot none = err panic
found_slot (some (none, n)) = err not_in_inventory
found_slot (some (some i, n)) = ok (i, n)

-- How many are removed from a slot that holds `held`, and the slot afterwards.
abbrev pub removed_of : ℕ → ℕ → ℕ
removed_of held n = if leb n held then n else held

abbrev pub shrink_at : Inventory → ℕ → ℕ → Inventory
shrink_at inv i n = elim (get_elem? inv i) [
  | none ↦ inv
  | some s ↦
      let left = if leb n s.quantity then s.quantity - n else 0 in
      if left == 0 then remove_at inv i else set inv i (record s { quantity = left })
]

-- `removeItemFromUserInternal`: how many were removed, and the inventory.
unfoldable pub remove_item_from_user : Calls → Inventory → ℕ → ℕ → Result (ℕ × Inventory)
remove_item_from_user c inv name n = do
  found ← c.get_item name
  id ← required found item_not_found
  c.begin_tx
  c.get_inventory
  at ← found_slot (find_random_slot inv id c.pick)
  c.update_inventory
  c.commit
  ok (removed_of at.1 n, shrink_at inv at.0 n)

-- `RemoveItemByUsername`
unfoldable pub remove_item_by_username : Calls → Inventories → ℕ → ℕ → ℕ → Result ℕ × Inventories
unfolding remove_item_from_user
remove_item_by_username c w user name n =
    let (r, inv') = transact (w user) (c.get_user >> remove_item_from_user c (w user) name n) in
    (r, write w user inv')

-- `executeGiveItemTx`. The inventories of both are read before either is written, and the
-- receiver's is written last.
unfoldable pub give_steps : Calls → Inventories → ℕ → ℕ → ℕ → ℕ → Result (Unit {0} × Inventories)
give_steps c w owner receiver id n = do
  c.begin_tx
  c.get_inventory
  at ← found_slot (find_random_slot (w owner) id c.pick)
  fail_if (ltb at.1 n) insufficient_quantity
  s ← required (get_elem? (w owner) at.0) panic
  c.get_receiver_inventory
  c.update_inventory
  c.update_receiver_inventory
  c.commit
  let left =
      if at.1 == n
      then remove_at (w owner) at.0
      else set (w owner) at.0 (record s { quantity = s.quantity - n })
  let got = store_item (w receiver) id n s.quality_level
  ok (tt, write (write w owner left) receiver got)

unfoldable pub execute_give_item_tx :
    Calls → Inventories → ℕ → ℕ → ℕ → ℕ → Result (Unit {0}) × Inventories
unfolding give_steps
execute_give_item_tx c w owner receiver id n = transact w (give_steps c w owner receiver id n)

-- internal/user/timeout.go: when each user's timeout ends. A timeout that has ended is removed by
-- its timer.
abbrev pub Timeouts : Type 0
Timeouts = ℕ → Option ℕ

-- `AddTimeout`: what is left of a running timeout is added to the new duration.
abbrev extended : ℕ → ℕ → Option ℕ → ℕ
extended now duration none = now + duration
extended now duration (some expires_at) = now + ((expires_at - now) + duration)

unfoldable pub add_timeout : ℕ → Timeouts → ℕ → ℕ → Timeouts
add_timeout now timeouts user duration =
    λ u. if u == user then some (extended now duration (timeouts user)) else timeouts u
