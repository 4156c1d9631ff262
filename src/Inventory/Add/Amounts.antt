-- ===== src/Inventory/Add/Amounts.antt =====
-- AddItemsToInventory against the amounts, for any inventory, also with a key in several slots.
use brandish_bot_go.Prelude.{
  ℕ, zero, suc, ◌+◌, ◌≡◌, refl, ◌∙◌, Bool, none, some, List, [], ◌∷◌, ◌++◌, length, get_elem?,
  get_elem?_lt, get_elem?-set_self, get_elem?-set_ne, set, leb, ◌==◌, if◌then◌else◌, arith,
  Bool-cases, Option-cases, inl, inr,
}
use brandish_bot_go.Inventory.{Inventory, InventorySlot, QualityLevel, slot, add_quantity}
use brandish_bot_go.Inventory.Add.{
  same_key, SlotMap, put, build_from, build_slot_map, add_linear, add_mapped, add_all_linear,
  add_all_mapped, lookup_threshold, add_items,
}
use brandish_bot_go.Inventory.Add.Equivalence.{same_key_eq}
use brandish_bot_go.Inventory.Consume.Conservation.{amount, amount-append}
use brandish_bot_go.Economy.Exchange.{amount-add_linear}

-- An index holds a slot of the key.
abbrev HoldsKey : Inventory → ℕ → QualityLevel → ℕ → Type 0
HoldsKey inv id q i =
    (s : InventorySlot) × (get_elem? inv i ≡ some s) × (s.item_id ≡ id) × (s.quality_level ≡ q)

-- Each entry of the map leads to a slot of its key, not needfully the first.
abbrev LeadsInto : SlotMap → Inventory → Type 0
LeadsInto m inv = (id : ℕ) (q : QualityLevel) (i : ℕ) → m id q ≡ some i → HoldsKey inv id q i

LeadsInto-put :
    (m : SlotMap) (inv : Inventory) (i : ℕ) (s : InventorySlot)
    → LeadsInto m inv
    → get_elem? inv i ≡ some s
    → LeadsInto (put m s.item_id s.quality_level i) inv
LeadsInto-put m inv i s h e id q j g = elim (Bool-cases (same_key s.item_id s.quality_level id q)) [
  | inl same ↦
      let (a, b) = same_key_eq s.item_id s.quality_level id q same in
      let at : i ≡ j = ground arith in (s, rw (← at) e, a, b)
  | inr other ↦ h id q j (ground arith)
]

LeadsInto-build_from :
    (i : ℕ) (rest : Inventory) (m : SlotMap) (inv : Inventory)
    → LeadsInto m inv
    → ((k : ℕ) (s : InventorySlot) → get_elem? rest k ≡ some s → get_elem? inv (i + k) ≡ some s)
    → LeadsInto (build_from i rest m) inv
unfolding build_from
LeadsInto-build_from i [] m inv h sub = h
LeadsInto-build_from i (s ∷ ss) m inv h sub =
    let z : i + 0 ≡ i = omega arith in
    LeadsInto-build_from (suc i) ss (put m s.item_id s.quality_level i) inv
      (LeadsInto-put m inv i s h (rw (← z) (sub 0 s refl)))
      (λ k t e. let shift : suc i + k ≡ i + suc k = omega arith in rw shift (sub (suc k) t e))

get_elem?-append :
    {A : Type 0} (xs ys : List A) (i : ℕ) (v : A)
    → get_elem? xs i ≡ some v
    → get_elem? (xs ++ ys) i ≡ some v
get_elem?-append [] ys i v h = cc
get_elem?-append (x ∷ xs) ys zero v h = h
get_elem?-append (x ∷ xs) ys (suc i) v h = get_elem?-append xs ys i v h

get_elem?-append_last :
    {A : Type 0} (xs : List A) (v : A) → get_elem? (xs ++ (v ∷ [])) (length xs) ≡ some v
get_elem?-append_last [] v = refl
get_elem?-append_last (x ∷ xs) v = get_elem?-append_last xs v

HoldsKey-set :
    (inv : Inventory) (i n : ℕ) (s : InventorySlot) (id : ℕ) (q : QualityLevel) (j : ℕ)
    → get_elem? inv i ≡ some s
    → HoldsKey inv id q j
    → HoldsKey (set inv i (add_quantity s n)) id q j
HoldsKey-set inv i n s id q j e (t, f, a, b) = elim (Bool-cases (i == j)) [
  | inl same ↦
      let at : i ≡ j = ground arith in
      let ts : t ≡ s = cc in
      (
        add_quantity s n,
        rw (← at) (get_elem?-set_self inv i (add_quantity s n) (get_elem?_lt inv i s e)),
        rw (← ts) a,
        rw (← ts) b,
      )
  | inr other ↦ (t, get_elem?-set_ne inv (add_quantity s n) (λ g. ground (arith, g)) ∙ f, a, b)
]

pub amount-add :
    (p : ℕ → QualityLevel → Bool) (inv : Inventory) (i n : ℕ) (s : InventorySlot)
    → get_elem? inv i ≡ some s
    → amount p (set inv i (add_quantity s n))
      ≡ amount p inv + (if p s.item_id s.quality_level then n else 0)
amount-add p [] i n s e = cc
amount-add p (t ∷ ss) zero n s e = ground arith
amount-add p (t ∷ ss) (suc i) n s e = omega (arith, amount-add p ss i n s e)

-- The inventory with the items added, and a map that still leads into it.
abbrev AddsOne : Inventory → InventorySlot → Inventory × SlotMap → Type 0
AddsOne inv x (inv', m) =
    LeadsInto m inv'
    × ((p : ℕ → QualityLevel → Bool)
        → amount p inv' ≡ amount p inv + (if p x.item_id x.quality_level then x.quantity else 0))

add_mapped_lem :
    (inv : Inventory) (m : SlotMap) (x : InventorySlot)
    → LeadsInto m inv
    → (r : Inventory × SlotMap) × (add_mapped inv m x ≡ some r) × AddsOne inv x r
unfolding add_mapped
add_mapped_lem inv m x h = elim (Option-cases (m x.item_id x.quality_level)) [
  | inl absent ↦
      let new : InventorySlot = slot x.item_id x.quantity x.quality_level in
      let longer : Inventory = inv ++ (new ∷ []) in
      (
        (longer, put m x.item_id x.quality_level (length inv)),
        rw (add_mapped, absent) refl,
        (
          LeadsInto-put m longer (length inv) new
              (λ id q j e.
                let (t, f, a, b) = h id q j e in (t, get_elem?-append inv (new ∷ []) j t f, a, b))
              (get_elem?-append_last inv new),
          λ p. omega (arith, amount-append p inv (new ∷ [])),
        ),
      )
  | inr (i, found) ↦
      let (s, e, a, b) = h x.item_id x.quality_level i found in
      (
        (set inv i (add_quantity s x.quantity), m),
        rw (add_mapped, found, e) refl,
        (
          λ id q j g. HoldsKey-set inv i x.quantity s id q j e (h id q j g),
          λ p. rw (← a, ← b) (amount-add p inv i x.quantity s e),
        ),
      )
]

add_all_mapped_lem :
    (inv : Inventory) (m : SlotMap) (xs : List InventorySlot)
    → LeadsInto m inv
    → (inv' : Inventory) × (add_all_mapped inv m xs ≡ some inv')
      × ((p : ℕ → QualityLevel → Bool) → amount p inv' ≡ amount p inv + amount p xs)
unfolding add_all_mapped
add_all_mapped_lem inv m [] h = (inv, refl, λ p. omega arith)
add_all_mapped_lem inv m (x ∷ xs) h =
    let ((inv1, m1), e, (h1, one)) = add_mapped_lem inv m x h in
    let (inv2, f, rest) = add_all_mapped_lem inv1 m1 xs h1 in
    (inv2, rw (add_all_mapped, e) f, λ p. omega (arith, one p, rest p))

amount-add_all_linear :
    (p : ℕ → QualityLevel → Bool) (inv : Inventory) (xs : List InventorySlot)
    → amount p (add_all_linear inv xs) ≡ amount p inv + amount p xs
unfolding add_all_linear
amount-add_all_linear p inv [] = omega arith
amount-add_all_linear p inv (x ∷ xs) =
    omega (arith, amount-add_all_linear p (add_linear inv x) xs, amount-add_linear p inv x)

-- AddItemsToInventory without a prepared map adds every item, in either of its two ways, and never
-- reads out of range: for each item and quality the amount grows by what is added.
pub add_items-amount :
    (inv : Inventory) (xs : List InventorySlot)
    → (inv' : Inventory) × (add_items inv xs none ≡ some inv')
      × ((p : ℕ → QualityLevel → Bool) → amount p inv' ≡ amount p inv + amount p xs)
unfolding add_items build_slot_map
add_items-amount inv [] = (inv, refl, λ p. omega arith)
add_items-amount inv (x ∷ xs) = elim (Bool-cases (leb lookup_threshold (length (x ∷ xs)))) [
  | inl many ↦
      let (inv', e, h) = add_all_mapped_lem inv (build_slot_map inv) (x ∷ xs) (
        LeadsInto-build_from 0 inv (λ id q. none) inv (λ id q i e. cc)
          (λ k s e. let z : 0 + k ≡ k = omega arith in rw z e)) in
      (inv', rw many e, h)
  | inr few ↦ (add_all_linear inv (x ∷ xs), rw few refl, λ p. amount-add_all_linear p inv (x ∷ xs))
]
