-- ===== src/Inventory/Add/Totals.antt =====
-- What adding items does to the quantities, and that it keeps the slots apart.
use brandish_bot_go.Prelude.{ℕ, ◌+◌, ◌≡◌, refl, Option, some, List, [], ◌∷◌, if◌then◌else◌, arith}
use brandish_bot_go.Inventory.{Inventory, InventorySlot, QualityLevel}
use brandish_bot_go.Inventory.Add.{same_key, SlotMap, add_linear, add_all_linear, add_items}
use brandish_bot_go.Inventory.Add.Equivalence.{
  HasUniqueKeys, IsPrepared, same_key_eq, same_key_self, index_of-add_linear,
  add_items-eq-add_all_linear,
}

-- How much of an item a slot's key holds in an inventory.
abbrev pub quantity_of : Inventory → ℕ → QualityLevel → ℕ
quantity_of [] id q = 0
quantity_of (s ∷ ss) id q =
    (if same_key s.item_id s.quality_level id q then s.quantity else 0) + quantity_of ss id q

quantity_of-add_linear :
    (inv : Inventory) (x : InventorySlot) (id : ℕ) (q : QualityLevel)
    → quantity_of (add_linear inv x) id q ≡ quantity_of inv id q + quantity_of (x ∷ []) id q
unfolding add_linear
quantity_of-add_linear [] x id q = ground arith
quantity_of-add_linear (s ∷ ss) x id q = ground (
  arith,
  quantity_of-add_linear ss x id q,
  same_key_eq s.item_id s.quality_level x.item_id x.quality_level,
)

add_linear-HasUniqueKeys :
    (inv : Inventory) (x : InventorySlot) → HasUniqueKeys inv → HasUniqueKeys (add_linear inv x)
unfolding add_linear
add_linear-HasUniqueKeys [] x h = (refl, tt)
add_linear-HasUniqueKeys (s ∷ ss) x h = ground (
  arith,
  add_linear-HasUniqueKeys ss x h.1,
  index_of-add_linear ss x s.item_id s.quality_level,
  same_key_eq x.item_id x.quality_level s.item_id s.quality_level,
  same_key_self s.item_id s.quality_level,
)

add_all_linear_lem :
    (inv : Inventory) (xs : List InventorySlot) (id : ℕ) (q : QualityLevel)
    → HasUniqueKeys inv
    → HasUniqueKeys (add_all_linear inv xs)
      × (quantity_of (add_all_linear inv xs) id q ≡ quantity_of inv id q + quantity_of xs id q)
unfolding add_all_linear
add_all_linear_lem inv [] id q h = (h, omega arith)
add_all_linear_lem inv (x ∷ xs) id q h =
    let (u, e) = add_all_linear_lem (add_linear inv x) xs id q (add_linear-HasUniqueKeys inv x h) in
    (u, omega (arith, e, quantity_of-add_linear inv x id q))

-- Adding items to an inventory with one slot for each item and quality succeeds; the result again
-- has one slot for each, and holds of every item and quality what was there and what was added.
add_items_total :
    (inv : Inventory) (xs : List InventorySlot) (given : Option SlotMap) (id : ℕ) (q : QualityLevel)
    → HasUniqueKeys inv
    → IsPrepared given inv
    → (inv' : Inventory) × (add_items inv xs given ≡ some inv')
      × HasUniqueKeys inv'
      × (quantity_of inv' id q ≡ quantity_of inv id q + quantity_of xs id q)
add_items_total inv xs given id q h p =
    let (u, e) = add_all_linear_lem inv xs id q h in
    (add_all_linear inv xs, add_items-eq-add_all_linear inv xs given h p, u, e)
