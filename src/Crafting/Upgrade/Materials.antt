-- ===== src/Crafting/Upgrade/Materials.antt =====
-- The number of crafts that the materials allow, and that this many can be made.
use brandish_bot_go.Prelude.{
  ℕ, zero, suc, ◌+◌, ◌*◌, ◌/◌, ◌≤◌, ◌≡◌, ◌≢◌, ◌↔◌, refl, Bool, true, not, List, [], ◌∷◌, ◌++◌, ltb,
  ◌==◌, if◌then◌else◌, arith, Bool-cases, inl, inr,
}
use native.Mathlib.Nat.{le-div_iff_mul-le}
use brandish_bot_go.Failure.{ok, with_ok}
use brandish_bot_go.Inventory.{Inventory, QualityLevel, get_total_quantity}
use brandish_bot_go.Inventory.Consume.{consumed, insufficient, consume_items}
use brandish_bot_go.Inventory.Consume.Conservation.{
  amount, amount-append, everything, consume_items_lem,
}
use brandish_bot_go.Crafting.{RecipeCost}
use brandish_bot_go.Crafting.Upgrade.{
  calculate_max_possible_crafts, taken_from, consume_recipe_materials,
}

-- The inventory holds what `n` crafts need of each material.
abbrev pub Affords : Inventory → List RecipeCost → ℕ → Type 0
Affords inv [] n = Unit
Affords inv (cost ∷ costs) n =
    (cost.quantity * n ≤ get_total_quantity inv cost.item_id) × Affords inv costs n

least_lem :
    (total quantity n most : ℕ)
    → (n ≤ (
        if ltb 0 quantity
        then if ltb (total / quantity) most then total / quantity else most
        else most))
      ↔ ((n ≤ most) × (quantity * n ≤ total))
least_lem total zero n most = (λ h. omega (arith, h), λ h. h.0)
least_lem total (suc q) n most =
    let d = le-div_iff_mul-le {k = suc q} {x = n} {y = total} (omega arith) in
    let swapped : n * suc q ≡ suc q * n = grind arith in
    (λ h. ground (arith, swapped, d.0), λ h. ground (arith, swapped, d.1))

-- A number of crafts is at most what calculateMaxPossibleCrafts returns exactly where it is at most
-- what is asked for and the inventory holds what it needs of each material.
pub le-calculate_max_possible_crafts :
    (inv : Inventory) (costs : List RecipeCost) (requested n : ℕ)
    → (n ≤ calculate_max_possible_crafts inv costs requested)
      ↔ ((n ≤ requested) × Affords inv costs n)
unfolding calculate_max_possible_crafts
le-calculate_max_possible_crafts inv [] requested n = (λ h. (h, tt), λ h. h.0)
le-calculate_max_possible_crafts inv (cost ∷ costs) requested n =
    let total : ℕ = get_total_quantity inv cost.item_id in
    let quantity : ℕ = cost.quantity in
    let least : ℕ =
      if ltb 0 quantity
      then if ltb (total / quantity) requested then total / quantity else requested
      else requested in
    let rest = le-calculate_max_possible_crafts inv costs least n in
    let here = least_lem total quantity n requested in
    (
      λ h. let (a, b) = rest.0 h in let (c, d) = here.0 a in (c, (d, b)),
      λ (a, (b, c)). rest.1 (here.1 (a, b), c),
    )

-- Wider tests accept more.
amount_mono :
    (p p' : ℕ → QualityLevel → Bool) (inv : Inventory)
    → ((id : ℕ) (q : QualityLevel) → p id q ≡ true → p' id q ≡ true)
    → amount p inv ≤ amount p' inv
amount_mono p p' [] h = omega arith
amount_mono p p' (s ∷ ss) h = ground (arith, amount_mono p p' ss h, h s.item_id s.quality_level)

amount-not :
    (p : ℕ → QualityLevel → Bool) (inv : Inventory)
    → amount p inv + amount (λ id q. not (p id q)) inv ≡ amount everything inv
amount-not p [] = refl
amount-not p (s ∷ ss) = ground (arith, amount-not p ss)

abbrev pub of_item : ℕ → ℕ → QualityLevel → Bool
of_item id i q = i == id

get_total_quantity-eq-amount :
    (inv : Inventory) (id : ℕ) → get_total_quantity inv id ≡ amount (of_item id) inv
get_total_quantity-eq-amount [] id = refl
get_total_quantity-eq-amount (s ∷ ss) id = omega (arith, get_total_quantity-eq-amount ss id)

-- What `n` crafts need of an item.
abbrev pub needed : ℕ → List RecipeCost → ℕ → ℕ
needed id [] n = 0
needed id (cost ∷ costs) n =
    (if cost.item_id == id then cost.quantity * n else 0) + needed id costs n

-- How many of the first draws are below the chance.
abbrev pub lucky_count : (ℕ → Bool) → ℕ → ℕ
lucky_count is_lucky zero = 0
lucky_count is_lucky (suc n) = lucky_count is_lucky n + (if is_lucky n then 1 else 0)

-- The taken slots of one material: none of another item, and as much as asked for.
pub record Paid (inv : Inventory) (id n : ℕ) (inv' taken : Inventory) : Type 0 where
  pub kept : (p : ℕ → QualityLevel → Bool) → amount p inv' + amount p taken ≡ amount p inv
  pub whole : (i : ℕ) → amount (of_item i) taken ≡ (if id == i then n else 0)

Paid-taken :
    (inv : Inventory) (id n : ℕ) (inv' taken : Inventory)
    → ((p : ℕ → QualityLevel → Bool) → amount p inv' + amount p taken ≡ amount p inv)
    → amount everything taken ≡ n
    → amount (λ i q. not (i == id)) taken ≡ 0
    → Paid inv id n inv' taken
Paid-taken inv id n inv' taken kept all none_else = record {
  kept = kept;
  whole = λ i. elim (Bool-cases (id == i)) [
    | inl same ↦
        let e : id ≡ i = ground arith in
        rw (same, ← e) (omega (arith, all, none_else, amount-not (of_item id) taken))
    | inr other ↦ rw other (
        omega (
          arith,
          none_else,
          amount_mono (of_item i) (λ j q. not (j == id)) taken (λ j q h. ground arith),
        ))
  ];
}

take_material :
    (inv : Inventory) (id n : ℕ) (pick : ℕ → ℕ)
    → n ≤ get_total_quantity inv id
    → (inv' : Inventory) × (taken : Inventory) × (taken_from (consume_items inv id n pick)
        ≡ ok (taken, inv'))
      × Paid inv id n inv' taken
take_material inv id n pick h = elim (consume_items_lem inv id n pick) [
  | inl (short, e) ↦ absurd (omega (arith, short, h))
  | inr (inv', taken, enough, e, all, kept, own) ↦
      (inv', taken, rw e refl, Paid-taken inv id n inv' taken kept all own)
]

pub material_taken :
    (inv : Inventory) (id n : ℕ) (pick : ℕ → ℕ) (inv' taken : Inventory)
    → taken_from (consume_items inv id n pick) ≡ ok (taken, inv')
    → Paid inv id n inv' taken
material_taken inv id n pick inv' taken h = elim (consume_items_lem inv id n pick) [
  | inl (short, e) ↦ let r : taken_from insufficient ≡ ok (taken, inv') = rw e at h in cc
  | inr (inv2, taken2, enough, e, all, kept, own) ↦
      let r : taken_from (consumed inv2 taken2) ≡ ok (taken, inv') = rw e at h in
      let ei : inv2 ≡ inv' = cc in
      let et : taken2 ≡ taken = cc in rw (← ei, ← et) (Paid-taken inv id n inv2 taken2 kept all own)
]

-- All materials of a recipe, where the materials are taken.
pub record PaidAll (inv : Inventory) (costs : List RecipeCost) (n : ℕ) (inv' taken : Inventory)
    : Type 0 where
  pub kept : (p : ℕ → QualityLevel → Bool) → amount p inv' + amount p taken ≡ amount p inv
  pub whole : (i : ℕ) → amount (of_item i) taken ≡ needed i costs n

PaidAll-append :
    (inv : Inventory) (cost : RecipeCost) (costs : List RecipeCost) (n : ℕ)
    (inv1 inv2 first rest : Inventory)
    → Paid inv cost.item_id (cost.quantity * n) inv1 first
    → PaidAll inv1 costs n inv2 rest
    → PaidAll inv (cost ∷ costs) n inv2 (first ++ rest)
PaidAll-append inv cost costs n inv1 inv2 first rest g h = record {
  kept = λ p. omega (arith, g.kept p, h.kept p, amount-append p first rest);
  whole = λ i. omega (arith, g.whole i, h.whole i, amount-append (of_item i) first rest);
}

-- Where the materials are taken they are what the recipe costs, for each item.
pub consume_recipe_materials-PaidAll :
    (picks : ℕ → ℕ → ℕ) (i : ℕ) (inv : Inventory) (costs : List RecipeCost) (n : ℕ)
    (inv' taken : Inventory)
    → consume_recipe_materials picks i inv costs n ≡ ok (taken, inv')
    → PaidAll inv costs n inv' taken
unfolding consume_recipe_materials
consume_recipe_materials-PaidAll picks i inv [] n inv' taken h =
    let ei : inv ≡ inv' = cc in
    let et : [] ≡ taken = cc in
    rw (← ei, ← et) (record { kept = λ p. omega arith; whole = λ i. refl })
consume_recipe_materials-PaidAll picks i inv (cost ∷ costs) n inv' taken h =
    with_ok (taken_from (consume_items inv cost.item_id (cost.quantity * n) (picks i))) _ h
      λ first e1 h1.
        with_ok (consume_recipe_materials picks (suc i) first.1 costs n) _ h1 λ rest e2 h2.
          let ei : rest.1 ≡ inv' = cc in
          let et : first.0 ++ rest.0 ≡ taken = cc in
          rw (← ei, ← et)
            (PaidAll-append inv cost costs n first.1 rest.1 first.0 rest.0
              (material_taken inv cost.item_id (cost.quantity * n) (picks i) first.1 first.0 e1)
              (consume_recipe_materials-PaidAll picks (suc i) first.1 costs n rest.1 rest.0 e2))

abbrev Lacks : ℕ → List RecipeCost → Type 0
Lacks id [] = Unit
Lacks id (cost ∷ costs) = (id ≢ cost.item_id) × Lacks id costs

-- No item is a material twice.
abbrev pub HasDistinctItems : List RecipeCost → Type 0
HasDistinctItems [] = Unit
HasDistinctItems (cost ∷ costs) = Lacks cost.item_id costs × HasDistinctItems costs

Affords-Paid :
    (inv : Inventory) (id n : ℕ) (inv' taken : Inventory) (costs : List RecipeCost) (k : ℕ)
    → Paid inv id n inv' taken
    → Lacks id costs
    → Affords inv costs k
    → Affords inv' costs k
Affords-Paid inv id n inv' taken [] k g l h = tt
Affords-Paid inv id n inv' taken (cost ∷ costs) k g l h = (
  ground (
    arith,
    l.0,
    g.kept (of_item cost.item_id),
    g.whole cost.item_id,
    get_total_quantity-eq-amount inv cost.item_id,
    get_total_quantity-eq-amount inv' cost.item_id,
  ),
  Affords-Paid inv id n inv' taken costs k g l.1 h.1,
)

-- The materials of different items that the inventory holds can be taken, whatever is drawn.
pub consume_recipe_materials-total :
    (picks : ℕ → ℕ → ℕ) (i : ℕ) (inv : Inventory) (costs : List RecipeCost) (n : ℕ)
    → HasDistinctItems costs
    → Affords inv costs n
    → (taken : Inventory) × (inv' : Inventory) × (consume_recipe_materials picks i inv costs n
        ≡ ok (taken, inv'))
unfolding consume_recipe_materials
consume_recipe_materials-total picks i inv [] n d a = ([], inv, refl)
consume_recipe_materials-total picks i inv (cost ∷ costs) n d a =
    let (inv1, first, e, g) = take_material inv cost.item_id (cost.quantity * n) (picks i) a.0 in
    let (rest, inv2, f) =
      consume_recipe_materials-total picks (suc i) inv1 costs n d.1
        (Affords-Paid inv cost.item_id (cost.quantity * n) inv1 first costs n g d.0 a.1) in
    (first ++ rest, inv2, rw (e, f) refl)
