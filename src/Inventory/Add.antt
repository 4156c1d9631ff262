-- ===== src/Inventory/Add.antt =====
-- internal/utils/inventory_add.go and internal/utils/inventory.go: adding items by a linear scan
-- or, for 50 items and more, through a map from slot keys to indices.

pub mod Equivalence
pub mod Totals
pub mod Amounts
use brandish_bot_go.Prelude.{
  ℕ, zero, suc, ◌≡◌, Bool, ◌&&◌, Option, none, some, List, [], ◌∷◌, ◌++◌, length, get_elem?, set,
  leb, ◌==◌, if◌then◌else◌,
}
use brandish_bot_go.Inventory.{
  Inventory, InventorySlot, QualityLevel, same_quality, slot, add_quantity,
}

-- The keys of two slots agree: `SlotKey{ItemID, QualityLevel}`.
unfoldable pub same_key : ℕ → QualityLevel → ℕ → QualityLevel → Bool
same_key id q id' q' = id == id' && same_quality q q'

-- `map[SlotKey]int`
abbrev pub SlotMap : Type 0
SlotMap = ℕ → QualityLevel → Option ℕ

abbrev pub put : SlotMap → ℕ → QualityLevel → ℕ → SlotMap
put m id q i id' q' = if same_key id q id' q' then some i else m id' q'

-- `BuildSlotMap`, from index `i` on: a later slot of the same key overwrites an earlier one.
unfoldable pub build_from : ℕ → Inventory → SlotMap → SlotMap
build_from i [] m = m
build_from i (s ∷ ss) m = build_from (suc i) ss (put m s.item_id s.quality_level i)

unfoldable pub build_slot_map : Inventory → SlotMap
unfolding build_from
build_slot_map inv = build_from 0 inv (λ id q. none)

-- One item by the linear scan: the first slot of its key, or a new slot at the end.
unfoldable pub add_linear : Inventory → InventorySlot → Inventory
add_linear [] x = slot x.item_id x.quantity x.quality_level ∷ []
add_linear (s ∷ ss) x =
    if same_key s.item_id s.quality_level x.item_id x.quality_level
    then add_quantity s x.quantity ∷ ss
    else s ∷ add_linear ss x

-- One item through the map. `none` is an index out of range, which only a stale map gives.
unfoldable pub add_mapped : Inventory → SlotMap → InventorySlot → Option (Inventory × SlotMap)
add_mapped inv m x = elim (m x.item_id x.quality_level) [
  | none ↦ some (
    inv ++ (slot x.item_id x.quantity x.quality_level ∷ []),
    put m x.item_id x.quality_level (length inv),
  )
  | some i ↦ elim (get_elem? inv i) [
    | none ↦ none
    | some s ↦ some (set inv i (add_quantity s x.quantity), m)
  ]
]

unfoldable pub add_all_linear : Inventory → List InventorySlot → Inventory
add_all_linear inv [] = inv
add_all_linear inv (x ∷ xs) = add_all_linear (add_linear inv x) xs

unfoldable pub add_all_mapped : Inventory → SlotMap → List InventorySlot → Option Inventory
add_all_mapped inv m [] = some inv
add_all_mapped inv m (x ∷ xs) = elim (add_mapped inv m x) [
  | none ↦ none
  | some (inv', m') ↦ add_all_mapped inv' m' xs
]

abbrev pub lookup_threshold : ℕ
lookup_threshold = 50

abbrev map_or_build : Option SlotMap → Inventory → SlotMap
map_or_build none inv = build_slot_map inv
map_or_build (some m) inv = m

-- `AddItemsToInventory`; the caller may pass a map of its own.
unfoldable pub add_items : Inventory → List InventorySlot → Option SlotMap → Option Inventory
add_items inv [] given = some inv
add_items inv (x ∷ xs) given =
    if leb lookup_threshold (length (x ∷ xs))
    then add_all_mapped inv (map_or_build given inv) (x ∷ xs)
    else some (add_all_linear inv (x ∷ xs))
