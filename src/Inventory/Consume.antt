-- ===== src/Inventory/Consume.antt =====
-- internal/utils/inventory_consume.go, ConsumeItemsWithTracking: take a quantity of an item from
-- the slots that hold it, in shuffled order.
pub mod Indices
pub mod Conservation
use brandish_bot_go.Prelude.{
  ℕ, zero, suc, ◌-◌, ◌≡◌, Bool, Option, none, some, List, [], ◌∷◌, ◌++◌, get_elem?, leb, ltb, ◌==◌,
  if◌then◌else◌,
}
use brandish_bot_go.Inventory.{
  Inventory, InventorySlot, slot, get_total_quantity, get_shuffled_indices,
}

-- `reductions`, a Go map from slot indices.
abbrev pub Reductions : Type 0
Reductions = ℕ → Option ℕ

abbrev pub reduce_at : Reductions → ℕ → ℕ → Reductions
reduce_at red i n j = if j == i then some n else red j

-- `take := slotQty; if take > remaining { take = remaining }`
abbrev pub take_of : ℕ → ℕ → ℕ
take_of quantity remaining = if ltb remaining quantity then remaining else quantity

pub record Taken : Type 0 where
  pub reductions : Reductions
  pub consumed : List InventorySlot
  pub remaining : ℕ

-- The loop over the shuffled indices. `none` is an index out of range.
unfoldable pub consume_loop : Inventory → List ℕ → Taken → Option Taken
consume_loop inv [] t = some t
consume_loop inv (i ∷ is) t = if t.remaining == 0 then some t else elim (get_elem? inv i) [
  | none ↦ none
  | some s ↦
      let n = take_of s.quantity t.remaining in
      consume_loop inv is (record {
        reductions = reduce_at t.reductions i n;
        consumed = t.consumed ++ (slot s.item_id n s.quality_level ∷ []);
        remaining = t.remaining - n;
      })
]

-- The loop that builds `newSlots`.
unfoldable pub apply_reductions : ℕ → Inventory → Reductions → Inventory
apply_reductions i [] red = []
apply_reductions i (s ∷ ss) red =
    let rest = apply_reductions (suc i) ss red in
    elim (red i) [
      | none ↦ s ∷ rest
      | some n ↦ if ltb n s.quantity then (record s { quantity = s.quantity - n }) ∷ rest else rest
    ]

pub data ConsumeResult : Type 0 where
  consumed : Inventory → List InventorySlot → ConsumeResult
  insufficient : ConsumeResult
  unexpected_insufficient : ConsumeResult
  panic : ConsumeResult

abbrev pub finish_consume : Inventory → Option Taken → ConsumeResult
finish_consume inv none = panic
finish_consume inv (some t) =
    if ltb 0 t.remaining
    then unexpected_insufficient
    else consumed (apply_reductions 0 inv t.reductions) t.consumed

abbrev pub nothing_taken : ℕ → Taken
nothing_taken n = record { reductions = λ i. none; consumed = []; remaining = n }

abbrev pub consume_from : Inventory → Option (List ℕ) → ℕ → ConsumeResult
consume_from inv none n = panic
consume_from inv (some is) n = finish_consume inv (consume_loop inv is (nothing_taken n))

-- `ConsumeItemsWithTracking`. An error leaves the inventory as it was.
unfoldable pub consume_items : Inventory → ℕ → ℕ → (ℕ → ℕ) → ConsumeResult
consume_items inv id n pick =
    if ltb (get_total_quantity inv id) n
    then insufficient
    else consume_from inv (get_shuffled_indices inv id pick) n
