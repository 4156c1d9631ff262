-- ===== src/Inventory/Add/Equivalence.antt =====
-- The map-based path of AddItemsToInventory against the linear scan.
use brandish_bot_go.Prelude.{
  ℕ, suc, ◌+◌, ◌≡◌, refl, Bool, true, false, Option, none, some, List, [], ◌∷◌, ◌++◌, length,
  get_elem?, set, if◌then◌else◌, arith, Bool-cases, Option-cases, inl, inr,
}
use brandish_bot_go.Inventory.{
  Inventory, InventorySlot, QualityLevel, same_quality, slot, add_quantity,
}
use brandish_bot_go.Inventory.Add.{
  same_key, SlotMap, put, build_from, build_slot_map, add_linear, add_mapped, add_all_linear,
  add_all_mapped, add_items,
}

same_quality_eq : (a b : QualityLevel) → same_quality a b ≡ true → a ≡ b
same_quality_eq a b h = ground arith

same_quality_self : (a : QualityLevel) → same_quality a a ≡ true
same_quality_self a = ground arith

pub same_key_eq :
    (id : ℕ) (q : QualityLevel) (id' : ℕ) (q' : QualityLevel)
    → same_key id q id' q' ≡ true
    → (id ≡ id') × (q ≡ q')
unfolding same_key
same_key_eq id q id' q' h = (
  ground arith,
  same_quality_eq q q' (elim (Bool-cases (same_quality q q')) [ inl e ↦ e | inr e ↦ ground arith ]),
)

pub same_key_self : (id : ℕ) (q : QualityLevel) → same_key id q id q ≡ true
unfolding same_key
same_key_self id q = rw (same_quality_self q) (ground arith)

-- The index of the first slot with a key.
abbrev pub index_of : Inventory → ℕ → QualityLevel → Option ℕ
index_of [] id q = none
index_of (s ∷ ss) id q =
    if same_key s.item_id s.quality_level id q
    then some 0
    else elim (index_of ss id q) [ none ↦ none | some k ↦ some (suc k) ]

-- No two slots have the same key.
abbrev pub HasUniqueKeys : Inventory → Type 0
HasUniqueKeys [] = Unit
HasUniqueKeys (s ∷ ss) = (index_of ss s.item_id s.quality_level ≡ none) × HasUniqueKeys ss

-- The map gives the first index of every key.
abbrev pub IsMapOf : SlotMap → Inventory → Type 0
IsMapOf m inv = (id : ℕ) (q : QualityLevel) → m id q ≡ index_of inv id q

abbrev shifted : ℕ → Option ℕ → Option ℕ → Option ℕ
shifted i none old = old
shifted i (some k) old = some (i + k)

build_from_lem :
    (i : ℕ) (inv : Inventory) (m : SlotMap) (id : ℕ) (q : QualityLevel)
    → HasUniqueKeys inv
    → build_from i inv m id q ≡ shifted i (index_of inv id q) (m id q)
unfolding build_from
build_from_lem i [] m id q h = refl
build_from_lem i (s ∷ ss) m id q h = elim (Bool-cases (same_key s.item_id s.quality_level id q)) [
  | inl same ↦
      let (e, f) = same_key_eq s.item_id s.quality_level id q same in
      let absent : index_of ss id q ≡ none = cc (h.0) in
      ground (arith, build_from_lem (suc i) ss (put m s.item_id s.quality_level i) id q h.1)
  | inr other ↦
      ground (arith, build_from_lem (suc i) ss (put m s.item_id s.quality_level i) id q h.1)
]

-- For an inventory with unique keys the map that is built gives every key's index.
pub build_slot_map-IsMapOf :
    (inv : Inventory) → HasUniqueKeys inv → IsMapOf (build_slot_map inv) inv
unfolding build_slot_map
build_slot_map-IsMapOf inv h id q = ground (arith, build_from_lem 0 inv (λ id q. none) id q h)

-- Where the key is found, the scan writes to that slot.
add_linear_found :
    (inv : Inventory) (x : InventorySlot) (k : ℕ)
    → index_of inv x.item_id x.quality_level ≡ some k
    → (s : InventorySlot) × (get_elem? inv k ≡ some s)
      × (add_linear inv x ≡ set inv k (add_quantity s x.quantity))
unfolding add_linear
add_linear_found [] x k h = cc
add_linear_found (s ∷ ss) x k h =
    elim (Bool-cases (same_key s.item_id s.quality_level x.item_id x.quality_level)) [
      | inl same ↦ (s, ground arith, ground arith)
      | inr other ↦ elim (Option-cases (index_of ss x.item_id x.quality_level)) [
        | inl absent ↦ ground arith
        | inr (j, e) ↦ let (t, f, g) = add_linear_found ss x j e in (t, ground arith, ground arith)
      ]
    ]

add_linear_absent :
    (inv : Inventory) (x : InventorySlot)
    → index_of inv x.item_id x.quality_level ≡ none
    → add_linear inv x ≡ inv ++ (slot x.item_id x.quantity x.quality_level ∷ [])
unfolding add_linear
add_linear_absent [] x h = refl
add_linear_absent (s ∷ ss) x h = ground (arith, add_linear_absent ss x)

-- Where the key stands afterwards: where it stood, or at the end.
abbrev pub or_end : Option ℕ → Bool → ℕ → Option ℕ
or_end (some k) same n = some k
or_end none true n = some n
or_end none false n = none

pub index_of-add_linear :
    (inv : Inventory) (x : InventorySlot) (id : ℕ) (q : QualityLevel)
    → index_of (add_linear inv x) id q
      ≡ or_end (index_of inv id q) (same_key x.item_id x.quality_level id q) (length inv)
unfolding add_linear
index_of-add_linear [] x id q = ground arith
index_of-add_linear (s ∷ ss) x id q = ground (
  arith,
  index_of-add_linear ss x id q,
  same_key_eq s.item_id s.quality_level x.item_id x.quality_level,
)

-- One item: the map step gives the inventory of the scan, and a map of that inventory.
add_mapped_lem :
    (inv : Inventory) (m : SlotMap) (x : InventorySlot)
    → IsMapOf m inv
    → (m' : SlotMap) × (add_mapped inv m x ≡ some (add_linear inv x, m'))
      × IsMapOf m' (add_linear inv x)
unfolding add_mapped
add_mapped_lem inv m x h = elim (Option-cases (index_of inv x.item_id x.quality_level)) [
  | inl absent ↦ (
    put m x.item_id x.quality_level (length inv),
    ground (arith, h x.item_id x.quality_level, add_linear_absent inv x absent),
    λ id q.
        ground (
          arith,
          h id q,
          index_of-add_linear inv x id q,
          same_key_eq x.item_id x.quality_level id q,
        ),
  )
  | inr (k, e) ↦
      let (s, f, g) = add_linear_found inv x k e in
      (
        m,
        ground (arith, h x.item_id x.quality_level),
        λ id q. ground (
          arith,
          h id q,
          index_of-add_linear inv x id q,
          same_key_eq x.item_id x.quality_level id q,
        ),
      )
]

add_all_mapped_lem :
    (inv : Inventory) (m : SlotMap) (xs : List InventorySlot)
    → IsMapOf m inv
    → add_all_mapped inv m xs ≡ some (add_all_linear inv xs)
unfolding add_all_mapped add_all_linear
add_all_mapped_lem inv m [] h = refl
add_all_mapped_lem inv m (x ∷ xs) h =
    let (m', e, h') = add_mapped_lem inv m x h in
    rw (e, add_all_mapped) (add_all_mapped_lem (add_linear inv x) m' xs h')

-- A prepared map, where one is given, gives the first index of every key.
abbrev pub IsPrepared : Option SlotMap → Inventory → Type 0
IsPrepared none inv = Unit
IsPrepared (some m) inv = IsMapOf m inv

-- The threshold chooses between two algorithms with one result: on an inventory where no two slots
-- share an item and a quality, adding any items, with no prepared map or with a correct one, gives
-- the inventory of the linear scan, and no index is out of range.
pub add_items-eq-add_all_linear :
    (inv : Inventory) (xs : List InventorySlot) (given : Option SlotMap)
    → HasUniqueKeys inv
    → IsPrepared given inv
    → add_items inv xs given ≡ some (add_all_linear inv xs)
unfolding add_items add_all_linear
add_items-eq-add_all_linear inv [] given h p = refl
add_items-eq-add_all_linear inv (x ∷ xs) none h p =
    ground
      (arith, add_all_mapped_lem inv (build_slot_map inv) (x ∷ xs) (build_slot_map-IsMapOf inv h))
add_items-eq-add_all_linear inv (x ∷ xs) (some m) h p =
    ground (arith, add_all_mapped_lem inv m (x ∷ xs) p)
