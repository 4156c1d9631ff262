-- ===== src/Examples/Items.antt =====
-- The inventory theorems at concrete inventories.
use brandish_bot_go.Prelude.{
  ℕ, ◌+◌, ◌<◌, ◌≤◌, ◌≡◌, ◌⊎◌, refl, Bool, not, none, some, List, [], ◌∷◌, ◌==◌,
}
use brandish_bot_go.Inventory.{
  Inventory, InventorySlot, QualityLevel, slot, common, rare, get_total_quantity,
}
use brandish_bot_go.Inventory.Add.{add_items, add_all_linear, same_key}
use brandish_bot_go.Inventory.Add.Equivalence.{HasUniqueKeys, add_items-eq-add_all_linear}
use brandish_bot_go.Inventory.Consume.{consume_items, consumed, insufficient}
use brandish_bot_go.Inventory.Consume.Conservation.{amount, everything, consume_items_lem}
use brandish_bot_go.Examples.{purse}

consume_items_lem_example :
    ((get_total_quantity purse 7 < 4) × (consume_items purse 7 4 (λ n. 0) ≡ insufficient))
    ⊎ ((inv' : Inventory) × (taken : Inventory) × (4 ≤ get_total_quantity purse 7)
        × (consume_items purse 7 4 (λ n. 0) ≡ consumed inv' taken)
        × (amount everything taken ≡ 4)
        × ((p : ℕ → QualityLevel → Bool) → amount p inv' + amount p taken ≡ amount p purse)
        × (amount (λ i q. not (i == 7)) taken ≡ 0))
consume_items_lem_example = consume_items_lem purse 7 4 (λ n. 0)

loot : List InventorySlot
loot = slot 7 1 rare ∷ slot 8 5 common ∷ []

purse-HasUniqueKeys : HasUniqueKeys purse
unfolding same_key
purse-HasUniqueKeys = (refl, (refl, (refl, tt)))

add_items-eq-add_all_linear_example : add_items purse loot none ≡ some (add_all_linear purse loot)
add_items-eq-add_all_linear_example =
    add_items-eq-add_all_linear purse loot none purse-HasUniqueKeys tt
