-- ===== src/Inventory/Consume/Conservation.antt =====
-- ConsumeItemsWithTracking takes exactly what is asked for, and nothing is lost or made up.
use brandish_bot_go.Prelude.{
  ℕ, zero, suc, ◌+◌, ◌-◌, ◌≤◌, ◌<◌, ◌≡◌, refl, ◌∙◌, Bool, true, false, not, none, some, List, [],
  ◌∷◌, ◌++◌, ◌⊎◌, get_elem?, sum_by, count, ltb, ◌==◌, if◌then◌else◌, arith, Bool-cases, inl, inr,
}
use brandish_bot_go.Inventory.{Inventory, InventorySlot, QualityLevel, slot, get_total_quantity}
use brandish_bot_go.Inventory.Consume.{
  Reductions, reduce_at, take_of, Taken, consume_loop, apply_reductions, consumed, insufficient,
  nothing_taken, consume_from, consume_items,
}
use brandish_bot_go.Inventory.Consume.Indices.{
  quantity_at, HoldsItem, get_shuffled_indices-CoversItem,
}

-- The quantity in the slots whose item and quality a test accepts.
abbrev pub amount : (ℕ → QualityLevel → Bool) → Inventory → ℕ
amount p [] = 0
amount p (s ∷ ss) = (if p s.item_id s.quality_level then s.quantity else 0) + amount p ss

pub amount-append :
    (p : ℕ → QualityLevel → Bool) (xs ys : Inventory)
    → amount p (xs ++ ys) ≡ amount p xs + amount p ys
amount-append p [] ys = omega arith
amount-append p (x ∷ xs) ys = omega (arith, amount-append p xs ys)

apply_none : (i : ℕ) (inv : Inventory) → apply_reductions i inv (λ j. none) ≡ inv
unfolding apply_reductions
apply_none i [] = refl
apply_none i (s ∷ ss) = rw (apply_none (suc i) ss)

-- A reduction below the index is not seen.
apply_below :
    (i : ℕ) (inv : Inventory) (red : Reductions) (j n : ℕ)
    → j < i
    → apply_reductions i inv (reduce_at red j n) ≡ apply_reductions i inv red
unfolding apply_reductions
apply_below i [] red j n h = refl
apply_below i (s ∷ ss) red j n h = ground (arith, apply_below (suc i) ss red j n)

-- A new reduction takes its quantity from the slot at its index.
amount-reduce :
    (p : ℕ → QualityLevel → Bool) (i : ℕ) (inv : Inventory) (red : Reductions) (k n : ℕ)
    (s : InventorySlot)
    → get_elem? inv k ≡ some s
    → red (i + k) ≡ none
    → n ≤ s.quantity
    → amount p (apply_reductions i inv (reduce_at red (i + k) n))
        + (if p s.item_id s.quality_level then n else 0)
      ≡ amount p (apply_reductions i inv red)
unfolding apply_reductions
amount-reduce p i [] red k n s e f h = cc
amount-reduce p i (t ∷ ss) red zero n s e f h =
    let z : i + 0 ≡ i = omega arith in
    rw z (ground (arith, apply_below (suc i) ss red i n (omega arith), rw z at f))
amount-reduce p i (t ∷ ss) red (suc k) n s e f h =
    let shift : i + suc k ≡ suc i + k = omega arith in
    rw shift (ground (arith, amount-reduce p (suc i) ss red k n s e (rw shift at f) h))

-- The indices still to come: each of the item, without a reduction yet, and not twice.
abbrev Ready : Inventory → ℕ → Reductions → List ℕ → Type 0
Ready inv id red [] = Unit
Ready inv id red (i ∷ is) =
    HoldsItem inv id i × (red i ≡ none) × (count i is ≡ 0) × Ready inv id red is

Ready-reduce :
    (inv : Inventory) (id : ℕ) (red : Reductions) (i n : ℕ) (is : List ℕ)
    → count i is ≡ 0
    → Ready inv id red is
    → Ready inv id (reduce_at red i n) is
Ready-reduce inv id red i n [] c r = tt
Ready-reduce inv id red i n (j ∷ js) c r =
    (r.0, ground arith, r.2, Ready-reduce inv id red i n js (ground arith) r.3)

Ready-start :
    (inv : Inventory) (id : ℕ) (is : List ℕ)
    → ((j : ℕ) → count j is ≤ 1)
    → ((j : ℕ) → 0 < count j is → HoldsItem inv id j)
    → Ready inv id (λ j. none) is
Ready-start inv id [] once holds = tt
Ready-start inv id (i ∷ is) once holds = (
  holds i (ground arith),
  refl,
  ground (arith, once i),
  Ready-start inv id is (λ j. omega (arith, once j)) (λ j p. holds j (omega arith)),
)

abbrev pub everything : ℕ → QualityLevel → Bool
everything id q = true

-- What the loop over the indices has done, from `t` to `t'`.
record Progress (inv : Inventory) (id : ℕ) (is : List ℕ) (t t' : Taken) : Type 0 where
  kept :
      (p : ℕ → QualityLevel → Bool)
      → amount p (apply_reductions 0 inv t'.reductions) + amount p t'.consumed
        ≡ amount p (apply_reductions 0 inv t.reductions) + amount p t.consumed
  left : t'.remaining ≡ t.remaining - sum_by (quantity_at inv) is
  paid : amount everything t'.consumed + t'.remaining ≡ amount everything t.consumed + t.remaining
  own :
      (p : ℕ → QualityLevel → Bool)
      → ((q : QualityLevel) → p id q ≡ false)
      → amount p t'.consumed ≡ amount p t.consumed

-- The state after one slot.
abbrev taken_one : InventorySlot → ℕ → Taken → Taken
taken_one s i t =
    let n = take_of s.quantity t.remaining in
    record {
      reductions = reduce_at t.reductions i n;
      consumed = t.consumed ++ (slot s.item_id n s.quality_level ∷ []);
      remaining = t.remaining - n;
    }

one_kept :
    (inv : Inventory) (i : ℕ) (t : Taken) (s : InventorySlot)
    → get_elem? inv i ≡ some s
    → t.reductions i ≡ none
    → (p : ℕ → QualityLevel → Bool)
    → amount p (apply_reductions 0 inv (taken_one s i t).reductions)
        + amount p (taken_one s i t).consumed
      ≡ amount p (apply_reductions 0 inv t.reductions) + amount p t.consumed
one_kept inv i t s e free p =
    let n : ℕ = take_of s.quantity t.remaining in
    let z : 0 + i ≡ i = omega arith in
    let cut = amount-reduce p 0 inv t.reductions i n s e (rw z free) (ground arith) in
    ground (arith, rw z at cut, amount-append p t.consumed (slot s.item_id n s.quality_level ∷ []))

Progress-cons :
    (inv : Inventory) (id : ℕ) (i : ℕ) (is : List ℕ) (t t' : Taken) (s : InventorySlot)
    → get_elem? inv i ≡ some s
    → s.item_id ≡ id
    → t.reductions i ≡ none
    → Progress inv id is (taken_one s i t) t'
    → Progress inv id (i ∷ is) t t'
Progress-cons inv id i is t t' s e own_id free g = record {
  kept = λ p. g.kept p ∙ one_kept inv i t s e free p;
  left = ground (arith, g.left);
  paid = ground (
    arith,
    g.paid,
    amount-append everything t.consumed
        (slot s.item_id (take_of s.quantity t.remaining) s.quality_level ∷ []),
  );
  own = λ p h. ground (
    arith,
    g.own p h,
    h s.quality_level,
    amount-append p t.consumed
        (slot s.item_id (take_of s.quantity t.remaining) s.quality_level ∷ []),
  );
}

consume_loop-Progress :
    (inv : Inventory) (id : ℕ) (is : List ℕ) (t : Taken)
    → Ready inv id t.reductions is
    → (t' : Taken) × (consume_loop inv is t ≡ some t') × Progress inv id is t t'
unfolding consume_loop
consume_loop-Progress inv id [] t r =
    (t, refl, record { kept = λ p. refl; left = omega arith; paid = refl; own = λ p h. refl })
consume_loop-Progress inv id (i ∷ is) t ((s, e, own_id), free, fresh, r) =
    elim (Bool-cases (t.remaining == 0)) [
      | inl done ↦ (
        t,
        rw done refl,
        record { kept = λ p. refl; left = ground arith; paid = refl; own = λ p h. refl },
      )
      | inr more ↦
          let t1 : Taken = taken_one s i t in
          let (t', f, g) =
            consume_loop-Progress inv id is t1
              (Ready-reduce inv id t.reductions i (take_of s.quantity t.remaining) is fresh r) in
          (t', rw (more, e) f, Progress-cons inv id i is t t' s e own_id free g)
    ]

-- A request for more than the inventory holds of the item is refused. Any other succeeds whatever
-- the random source gives: the slots taken add up to the request and are of the item alone, and
-- together with the slots that are left they make up the inventory, for every item and quality.
pub consume_items_lem :
    (inv : Inventory) (id n : ℕ) (pick : ℕ → ℕ)
    → ((get_total_quantity inv id < n) × (consume_items inv id n pick ≡ insufficient))
      ⊎ ((inv' : Inventory) × (taken : Inventory) × (n ≤ get_total_quantity inv id)
          × (consume_items inv id n pick ≡ consumed inv' taken)
          × (amount everything taken ≡ n)
          × ((p : ℕ → QualityLevel → Bool) → amount p inv' + amount p taken ≡ amount p inv)
          × (amount (λ i q. not (i == id)) taken ≡ 0))
unfolding consume_items
consume_items_lem inv id n pick = elim (Bool-cases (ltb (get_total_quantity inv id) n)) [
  | inl short ↦ inl (ground arith, rw short)
  | inr enough ↦
      let (is, e, c) = get_shuffled_indices-CoversItem inv id pick in
      let (t, f, g) =
        consume_loop-Progress inv id is (nothing_taken n) (Ready-start inv id is c.once c.holds) in
      let paid_off : t.remaining ≡ 0 = ground (arith, g.left, c.whole) in
      inr (
        apply_reductions 0 inv t.reductions,
        t.consumed,
        ground arith,
        rw (enough, e, consume_from, f, paid_off) refl,
        omega (arith, g.paid, paid_off),
        λ p. g.kept p ∙ rw (apply_none 0 inv) (omega arith),
        g.own (λ i q. not (i == id)) (λ q. ground arith),
      )
]
