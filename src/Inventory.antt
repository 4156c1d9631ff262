-- ===== src/Inventory.antt =====
-- internal/domain/inventory.go and internal/utils/inventory_find.go, inventory_add.go,
-- inventory_consume.go: the slots of a user's inventory and the operations on them.
--
-- A quantity is a natural number. Where the source could subtract below zero (`RemoveFromSlot`)
-- or index past the end (a Go panic) the model has a fault, and a theorem shows when none occurs.
-- `LastUpdate` is not touched by these operations, so an inventory is its list of slots.
pub mod Add
pub mod Consume
pub mod Quality
pub mod Slots
use brandish_bot_go.Prelude.{
  ℕ, suc, ◌+◌, ◌-◌, Bool, ◌&&◌, Option, none, some, List, [], ◌∷◌, length, get_elem?, set,
  remove_at, ltb, leb, ◌==◌, if◌then◌else◌,
}
use brandish_bot_go.Shuffle.{shuffle_from}

-- `domain.QualityLevel`; `unset` is the empty string, which some callers store.
pub data QualityLevel : Type 0 where
  common uncommon rare epic legendary poor junk cursed unset : QualityLevel

pub QualityLevel-discrete : Discrete QualityLevel
QualityLevel-discrete = hlevel

abbrev pub quality_number : QualityLevel → ℕ
quality_number common = 0
quality_number uncommon = 1
quality_number rare = 2
quality_number epic = 3
quality_number legendary = 4
quality_number poor = 5
quality_number junk = 6
quality_number cursed = 7
quality_number unset = 8

-- `==` on quality levels.
abbrev pub same_quality : QualityLevel → QualityLevel → Bool
same_quality a b = quality_number a == quality_number b

pub record InventorySlot : Type 0 where
  pub item_id : ℕ
  pub quantity : ℕ
  pub quality_level : QualityLevel

abbrev pub Inventory : Type 0
Inventory = List InventorySlot

abbrev pub slot : ℕ → ℕ → QualityLevel → InventorySlot
slot id n q = record { item_id = id; quantity = n; quality_level = q }

abbrev pub add_quantity : InventorySlot → ℕ → InventorySlot
add_quantity s n = record s { quantity = s.quantity + n }

-- `FindSlot`, from index `i` on; the index -1 is `none`.
pub find_slot_from : ℕ → Inventory → ℕ → Option ℕ × ℕ
find_slot_from i [] id = (none, 0)
find_slot_from i (s ∷ ss) id =
    if s.item_id == id then (some i, s.quantity) else find_slot_from (suc i) ss id

unfoldable pub find_slot : Inventory → ℕ → Option ℕ × ℕ
unfolding find_slot_from
find_slot inv id = find_slot_from 0 inv id

unfoldable pub find_slot_with_quality_from : ℕ → Inventory → ℕ → QualityLevel → Option ℕ × ℕ
find_slot_with_quality_from i [] id q = (none, 0)
find_slot_with_quality_from i (s ∷ ss) id q =
    if s.item_id == id && same_quality s.quality_level q
    then (some i, s.quantity)
    else find_slot_with_quality_from (suc i) ss id q

unfoldable pub find_slot_with_quality : Inventory → ℕ → QualityLevel → Option ℕ × ℕ
unfolding find_slot_with_quality_from
find_slot_with_quality inv id q = find_slot_with_quality_from 0 inv id q

-- The first loop of `FindRandomSlot` and of `getShuffledIndices`.
unfoldable pub matching_indices : ℕ → Inventory → ℕ → List ℕ
matching_indices i [] id = []
matching_indices i (s ∷ ss) id =
    let rest = matching_indices (suc i) ss id in if s.item_id == id then i ∷ rest else rest

-- `inventory.Slots[idx].Quantity`; the outer `none` is an index out of range.
abbrev pub slot_of : Inventory → Option ℕ → Option (Option ℕ × ℕ)
slot_of inv none = none
slot_of inv (some i) = elim (get_elem? inv i) [ none ↦ none | some s ↦ some (some i, s.quantity) ]

-- `if randomIdx >= len(matchingIndices) { randomIdx = len(matchingIndices) - 1 }`
abbrev pub clamp_index : ℕ → ℕ → ℕ
clamp_index n i = if leb n i then n - 1 else i

-- `FindRandomSlot`; `pick n` is `int(rnd() * float64(n))`. An outer `none` is a panic.
unfoldable pub choose_slot : Inventory → List ℕ → (ℕ → ℕ) → Option (Option ℕ × ℕ)
choose_slot inv [] pick = some (none, 0)
choose_slot inv (i ∷ []) pick = slot_of inv (some i)
choose_slot inv (i ∷ j ∷ rest) pick =
    let n = length (i ∷ j ∷ rest) in slot_of inv (get_elem? (i ∷ j ∷ rest) (clamp_index n (pick n)))

unfoldable pub find_random_slot : Inventory → ℕ → (ℕ → ℕ) → Option (Option ℕ × ℕ)
unfolding choose_slot matching_indices
find_random_slot inv id pick = choose_slot inv (matching_indices 0 inv id) pick

-- `GetTotalQuantity`
abbrev pub get_total_quantity : Inventory → ℕ → ℕ
get_total_quantity [] id = 0
get_total_quantity (s ∷ ss) id =
    (if s.item_id == id then s.quantity else 0) + get_total_quantity ss id

-- `RemoveFromSlot`. An index out of range returns at once. `none`: the slot holds less than
-- `n`, and the source would store a negative quantity.
pub remove_from_slot : Inventory → ℕ → ℕ → Option Inventory
remove_from_slot inv i n = elim (get_elem? inv i) [
  | none ↦ some inv
  | some s ↦
      if s.quantity == n
      then some (remove_at inv i)
      else if ltb s.quantity n
      then none
      else some (set inv i (record s { quantity = s.quantity - n }))
]

-- `getShuffledIndices`; `j := int(rnd() * float64(i+1)); if j > i { j = i }`. `none` is a panic.
abbrev pub clamp_draw : (ℕ → ℕ) → ℕ → ℕ
clamp_draw pick n = if leb n (pick n) then n - 1 else pick n

pub get_shuffled_indices : Inventory → ℕ → (ℕ → ℕ) → Option (List ℕ)
unfolding matching_indices shuffle_from
get_shuffled_indices inv id pick =
    let m = matching_indices 0 inv id in
    if ltb 1 (length m) then shuffle_from (length m - 1) (clamp_draw pick) m else some m
