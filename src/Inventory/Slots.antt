-- ===== src/Inventory/Slots.antt =====
-- Finding and removing: the index that is found holds the item, and removal takes from that slot
-- alone.
use brandish_bot_go.Prelude.{
  ℕ, zero, suc, ◌+◌, ◌-◌, ◌≤◌, ◌<◌, ◌≡◌, refl, Bool, Option, none, some, List, [], ◌∷◌, length,
  get_elem?, set, remove_at, count, ◌==◌, if◌then◌else◌, arith, Bool-cases, get_elem?_total,
  sum_by_le_of_get, ◌⊎◌, inl, inr,
}
use brandish_bot_go.Inventory.{
  Inventory, InventorySlot, QualityLevel, find_slot, find_slot_from, find_random_slot,
  matching_indices, choose_slot, clamp_index, remove_from_slot, get_total_quantity,
}
use brandish_bot_go.Inventory.Consume.Conservation.{amount}
use brandish_bot_go.Inventory.Consume.Indices.{CoversItem, matching-CoversItem}

-- A slot that a search has found: in range, of the item, with the quantity that is returned.
abbrev pub IsFound : Inventory → ℕ → Option ℕ × ℕ → Type 0
IsFound inv id (none, n) = (n ≡ 0) × (get_total_quantity inv id ≡ 0)
IsFound inv id (some i, n) =
    (s : InventorySlot) × (get_elem? inv i ≡ some s) × (s.item_id ≡ id) × (s.quantity ≡ n)

find_slot_from_lem :
    (i : ℕ) (inv : Inventory) (id : ℕ)
    → (((find_slot_from i inv id ≡ (none, 0)) × (get_total_quantity inv id ≡ 0))
        ⊎ ((k : ℕ) × (s : InventorySlot) × (find_slot_from i inv id ≡ (some (i + k), s.quantity))
            × (get_elem? inv k ≡ some s)
            × (s.item_id ≡ id)))
unfolding find_slot_from
find_slot_from_lem i [] id = inl (refl, refl)
find_slot_from_lem i (s ∷ ss) id = elim (Bool-cases (s.item_id == id)) [
  | inl same ↦ inr (0, s, ground arith, refl, ground arith)
  | inr other ↦ elim (find_slot_from_lem (suc i) ss id) [
    | inl (e, f) ↦ inl (ground arith, ground arith)
    | inr (k, t, e, f, g) ↦ inr (suc k, t, ground arith, f, g)
  ]
]

-- FindSlot returns a slot of the item with its quantity, and -1 only where the item has none.
pub find_slot-IsFound : (inv : Inventory) (id : ℕ) → IsFound inv id (find_slot inv id)
unfolding find_slot
find_slot-IsFound inv id = elim (find_slot_from_lem 0 inv id) [
  | inl (e, f) ↦ rw e (refl, f)
  | inr (k, s, e, f, g) ↦ let z : 0 + k ≡ k = omega arith in rw (e, z) (s, f, g, refl)
]

get-count : (xs : List ℕ) (k j : ℕ) → get_elem? xs k ≡ some j → 0 < count j xs
get-count xs k j e = ground (arith, sum_by_le_of_get (λ b. if j == b then 1 else 0) xs k j e)

choose_slot-IsFound :
    (inv : Inventory) (id : ℕ) (pick : ℕ → ℕ) (m : List ℕ)
    → CoversItem inv id m
    → (r : Option ℕ × ℕ) × (choose_slot inv m pick ≡ some r) × IsFound inv id r
unfolding choose_slot
choose_slot-IsFound inv id pick [] c = ((none, 0), refl, (refl, ground (arith, c.whole)))
choose_slot-IsFound inv id pick (i ∷ []) c =
    let (s, f, g) = c.holds i (ground arith) in
    ((some i, s.quantity), ground (arith, f), (s, f, g, refl))
choose_slot-IsFound inv id pick (i ∷ j ∷ rest) c =
    let m : List ℕ = i ∷ j ∷ rest in
    let (k, e) = get_elem?_total m (clamp_index (length m) (pick (length m))) (ground arith) in
    let (s, f, g) = c.holds k (get-count m (clamp_index (length m) (pick (length m))) k e) in
    ((some k, s.quantity), ground (arith, e, f), (s, f, g, refl))

-- FindRandomSlot does not fault, whatever the random source gives: it returns a slot of the item
-- with its quantity, and -1 only where the item has none.
pub find_random_slot-IsFound :
    (inv : Inventory) (id : ℕ) (pick : ℕ → ℕ)
    → (r : Option ℕ × ℕ) × (find_random_slot inv id pick ≡ some r) × IsFound inv id r
unfolding find_random_slot
find_random_slot-IsFound inv id pick =
    choose_slot-IsFound inv id pick (matching_indices 0 inv id) (matching-CoversItem inv id)

pub amount-set :
    (p : ℕ → QualityLevel → Bool) (inv : Inventory) (i n : ℕ) (s : InventorySlot)
    → get_elem? inv i ≡ some s
    → n ≤ s.quantity
    → amount p (set inv i (record s { quantity = s.quantity - n }))
        + (if p s.item_id s.quality_level then n else 0)
      ≡ amount p inv
amount-set p [] i n s e h = cc
amount-set p (t ∷ ss) zero n s e h = ground arith
amount-set p (t ∷ ss) (suc i) n s e h = omega (arith, amount-set p ss i n s e h)

pub amount-remove_at :
    (p : ℕ → QualityLevel → Bool) (inv : Inventory) (i : ℕ) (s : InventorySlot)
    → get_elem? inv i ≡ some s
    → amount p (remove_at inv i) + (if p s.item_id s.quality_level then s.quantity else 0)
      ≡ amount p inv
amount-remove_at p [] i s e = cc
amount-remove_at p (t ∷ ss) zero s e = ground arith
amount-remove_at p (t ∷ ss) (suc i) s e = omega (arith, amount-remove_at p ss i s e)

-- RemoveFromSlot at a slot that holds enough takes the quantity from its item and quality, and
-- changes no other amount.
pub remove_from_slot_lem :
    (inv : Inventory) (i n : ℕ) (s : InventorySlot)
    → get_elem? inv i ≡ some s
    → n ≤ s.quantity
    → (inv' : Inventory) × (remove_from_slot inv i n ≡ some inv')
      × ((p : ℕ → QualityLevel → Bool)
          → amount p inv' + (if p s.item_id s.quality_level then n else 0) ≡ amount p inv)
unfolding remove_from_slot
remove_from_slot_lem inv i n s e h = elim (Bool-cases (s.quantity == n)) [
  | inl all ↦ (
    remove_at inv i,
    rw (remove_from_slot, e, all) refl,
    λ p. ground (arith, amount-remove_at p inv i s e),
  )
  | inr part ↦ (
    set inv i (record s { quantity = s.quantity - n }),
    rw (remove_from_slot, e) (ground arith),
    λ p. amount-set p inv i n s e h,
  )
]
