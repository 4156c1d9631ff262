-- ===== src/Inventory/Consume/Indices.antt =====
-- The indices that getShuffledIndices returns: each slot of the item once.
use brandish_bot_go.Prelude.{
  ℕ, suc, ◌+◌, ◌-◌, ◌≤◌, ◌<◌, ◌≡◌, refl, ◌∙◌, ap, none, some, List, [], ◌∷◌, length, get_elem?,
  sum_by, count, ltb, ◌==◌, if◌then◌else◌, arith, Bool-cases, inl, inr, ==_iff,
}
use brandish_bot_go.Shuffle.{shuffle_from-sum_by}
use brandish_bot_go.Inventory.{
  Inventory, InventorySlot, matching_indices, get_total_quantity, get_shuffled_indices, clamp_draw,
}

-- The quantity at an index, 0 past the end.
abbrev pub quantity_at : Inventory → ℕ → ℕ
quantity_at inv i = elim (get_elem? inv i) [ none ↦ 0 | some s ↦ s.quantity ]

-- `ss` is what is left of `inv` from index `i` on.
abbrev IsRest : Inventory → ℕ → Inventory → Type 0
IsRest inv i ss = (k : ℕ) → get_elem? inv (i + k) ≡ get_elem? ss k

IsRest-tail :
    (inv : Inventory) (i : ℕ) (s : InventorySlot) (ss : Inventory)
    → IsRest inv i (s ∷ ss)
    → IsRest inv (suc i) ss
IsRest-tail inv i s ss h k =
    let e : suc i + k ≡ i + suc k = omega arith in ap (get_elem? inv) e ∙ h (suc k)

IsRest-head :
    (inv : Inventory) (i : ℕ) (s : InventorySlot) (ss : Inventory)
    → IsRest inv i (s ∷ ss)
    → get_elem? inv i ≡ some s
IsRest-head inv i s ss h = let e : i ≡ i + 0 = omega arith in ap (get_elem? inv) e ∙ h 0

matching_sum :
    (inv : Inventory) (id i : ℕ) (ss : Inventory)
    → IsRest inv i ss
    → sum_by (quantity_at inv) (matching_indices i ss id) ≡ get_total_quantity ss id
unfolding matching_indices
matching_sum inv id i [] h = refl
matching_sum inv id i (s ∷ ss) h =
    ground
      (arith, matching_sum inv id (suc i) ss (IsRest-tail inv i s ss h), IsRest-head inv i s ss h)

matching_below : (id i j : ℕ) (ss : Inventory) → j < i → count j (matching_indices i ss id) ≡ 0
unfolding matching_indices
matching_below id i j [] h = refl
matching_below id i j (s ∷ ss) h = ground (arith, matching_below id (suc i) j ss)

matching_once : (id i j : ℕ) (ss : Inventory) → count j (matching_indices i ss id) ≤ 1
unfolding matching_indices
matching_once id i j [] = omega arith
matching_once id i j (s ∷ ss) =
    ground (arith, matching_once id (suc i) j ss, matching_below id (suc i) j ss)

-- An index is of the item if the slot there holds it.
abbrev pub HoldsItem : Inventory → ℕ → ℕ → Type 0
HoldsItem inv id i = (s : InventorySlot) × (get_elem? inv i ≡ some s) × (s.item_id ≡ id)

matching_holds :
    (inv : Inventory) (id i j : ℕ) (ss : Inventory)
    → IsRest inv i ss
    → 0 < count j (matching_indices i ss id)
    → HoldsItem inv id j
unfolding matching_indices
matching_holds inv id i j [] h p = absurd (omega arith)
matching_holds inv id i j (s ∷ ss) h p = elim (Bool-cases (s.item_id == id)) [
  | inl e ↦ elim (Bool-cases (j == i)) [
    | inl f ↦ (s, ap (get_elem? inv) ((==_iff j i).0 f) ∙ IsRest-head inv i s ss h, ground arith)
    | inr f ↦ matching_holds inv id (suc i) j ss (IsRest-tail inv i s ss h) (ground arith)
  ]
  | inr e ↦ matching_holds inv id (suc i) j ss (IsRest-tail inv i s ss h) (ground arith)
]

-- A list of indices, each of the item, none twice, that together hold the item's total.
pub record CoversItem (inv : Inventory) (id : ℕ) (is : List ℕ) : Type 0 where
  pub once : (j : ℕ) → count j is ≤ 1
  pub holds : (j : ℕ) → 0 < count j is → HoldsItem inv id j
  pub whole : sum_by (quantity_at inv) is ≡ get_total_quantity inv id

pub matching-CoversItem : (inv : Inventory) (id : ℕ) → CoversItem inv id (matching_indices 0 inv id)
matching-CoversItem inv id = record {
  once = λ j. matching_once id 0 j inv;
  holds = λ j. matching_holds inv id 0 j inv (λ k. ap (get_elem? inv) (omega arith));
  whole = matching_sum inv id 0 inv (λ k. ap (get_elem? inv) (omega arith));
}

CoversItem-resp :
    (inv : Inventory) (id : ℕ) (is js : List ℕ)
    → ((f : ℕ → ℕ) → sum_by f js ≡ sum_by f is)
    → CoversItem inv id is
    → CoversItem inv id js
CoversItem-resp inv id is js same c = record {
  once = λ j. omega (arith, same (λ b. if j == b then 1 else 0), c.once j);
  holds = λ j p. c.holds j (omega (arith, same (λ b. if j == b then 1 else 0)));
  whole = same (quantity_at inv) ∙ c.whole;
}

clamp_draw-lt : (pick : ℕ → ℕ) (n : ℕ) → 0 < n → clamp_draw pick n < n
clamp_draw-lt pick n h = ground arith

-- Whatever the random source gives, the shuffle does not fault, and its indices cover the item.
pub get_shuffled_indices-CoversItem :
    (inv : Inventory) (id : ℕ) (pick : ℕ → ℕ)
    → (is : List ℕ) × (get_shuffled_indices inv id pick ≡ some is) × CoversItem inv id is
unfolding get_shuffled_indices
get_shuffled_indices-CoversItem inv id pick =
    let m : List ℕ = matching_indices 0 inv id in
    elim (Bool-cases (ltb 1 (length m))) [
      | inl many ↦
          let (js, e, l, same) =
            shuffle_from-sum_by (length m - 1) (clamp_draw pick) m (clamp_draw-lt pick)
              (ground arith) in
          (js, rw many e, CoversItem-resp inv id m js same (matching-CoversItem inv id))
      | inr few ↦ (m, rw few, matching-CoversItem inv id)
    ]
