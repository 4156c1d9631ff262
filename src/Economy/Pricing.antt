-- ===== src/Economy/Pricing.antt =====
-- internal/economy/pricing.go, validation.go (validateQuantity) and weekly_sales.go
-- (getCurrentWeeklySale): prices, discounts and the affordable quantity.
use brandish_bot_go.Prelude.{
  ℕ, ◌+◌, ◌-◌, ◌*◌, ◌/◌, ◌%◌, ◌≤◌, ◌<◌, ◌≡◌, refl, Bool, true, false, not, ◌⊎◌, inl, inr,
  Bool-cases, Option, none, some, List, [], ◌∷◌, ltb, leb, ◌==◌, if◌then◌else◌, arith,
}
use native.Mathlib.Nat.{div-mul-le_self, le-div_iff_mul-le, div-eq_of_lt}
use brandish_bot_go.Prelude.Int.{ℤ, pos, negsuc, pos_part, leb_ℤ, ltb_ℤ}
use brandish_bot_go.Failure.{Result, ok, err, invalid_input, fail_if, ◌>>◌}

abbrev pub max_transaction_quantity : ℕ
max_transaction_quantity = 10000

-- `validateQuantity`; a valid quantity is handed on as a natural number.
unfoldable pub validate_quantity : ℤ → Result ℕ
validate_quantity q = do
  fail_if (leb_ℤ q (pos 0)) invalid_input
  fail_if (ltb_ℤ (pos max_transaction_quantity) q) invalid_input
  ok (pos_part q)

-- The accepted quantities are those from 1 to the maximum.
pub validate_quantity_lem :
    (q : ℤ)
    → ((n : ℕ) × (q ≡ pos n)
        × (0 < n)
        × (n ≤ max_transaction_quantity)
        × (validate_quantity q ≡ ok n))
      ⊎ (((leb_ℤ q (pos 0) ≡ true) ⊎ (ltb_ℤ (pos max_transaction_quantity) q ≡ true))
          × (validate_quantity q ≡ err invalid_input))
unfolding validate_quantity
validate_quantity_lem (negsuc n) = inr (inl (ground arith), ground arith)
validate_quantity_lem (pos n) = elim (Bool-cases (leb n 0)) [
  | inl zero_or_less ↦ inr (inl (ground arith), ground arith)
  | inr positive ↦ elim (Bool-cases (ltb max_transaction_quantity n)) [
    | inl large ↦ inr (inr (ground arith), ground arith)
    | inr small ↦ inl (n, refl, ground arith, ground arith, ground arith)
  ]
]

-- `calculateAffordableQuantity`: the quantity and its cost.
unfoldable pub calculate_affordable_quantity : ℕ → ℕ → ℕ → ℕ × ℕ
calculate_affordable_quantity desired unit_price balance =
    if unit_price == 0
    then (desired, 0)
    else if ltb balance unit_price
    then (0, 0)
    else let most = balance / unit_price in
      if leb desired most then (desired, desired * unit_price) else (most, most * unit_price)

most_affordable :
    (desired unit_price balance m : ℕ)
    → m ≤ desired
    → m * unit_price ≤ balance
    → m ≤ (calculate_affordable_quantity desired unit_price balance).0
unfolding calculate_affordable_quantity
most_affordable desired unit_price balance m a b = elim (Bool-cases (unit_price == 0)) [
  | inl free ↦ ground arith
  | inr paid ↦
      let fits : m ≤ balance / unit_price =
        (le-div_iff_mul-le {k = unit_price} {x = m} {y = balance} (ground arith)).1 b in
      elim (Bool-cases (ltb balance unit_price)) [
        | inl short ↦ ground (arith, div-eq_of_lt {n = balance} {m = unit_price})
        | inr enough ↦ ground arith
      ]
]

no_more :
    (desired unit_price balance : ℕ)
    → (calculate_affordable_quantity desired unit_price balance).0 ≤ desired
    → let n = (calculate_affordable_quantity desired unit_price balance).0 in
      (n ≡ desired) ⊎ (balance < (n + 1) * unit_price)
no_more desired unit_price balance h =
    let n : ℕ = (calculate_affordable_quantity desired unit_price balance).0 in
    elim (Bool-cases (leb desired n)) [
      | inl all ↦ inl (ground arith)
      | inr some_left ↦ elim (Bool-cases (leb ((n + 1) * unit_price) balance)) [
        | inl fits ↦
            (let le =
                most_affordable desired unit_price balance (n + 1) (ground arith) (ground arith) in
              ground arith)
        | inr dear ↦ inr (ground arith)
      ]
    ]

-- The quantity never exceeds the request, its cost is its price and never exceeds the balance, and
-- where it is less than the request one more could not be paid.
pub calculate_affordable_quantity_lem :
    (desired unit_price balance : ℕ)
    → let (n, cost) = calculate_affordable_quantity desired unit_price balance in
      (n ≤ desired)
      × (cost ≡ n * unit_price)
      × (cost ≤ balance)
      × ((n ≡ desired) ⊎ (balance < (n + 1) * unit_price))
unfolding calculate_affordable_quantity
calculate_affordable_quantity_lem desired unit_price balance = (
  grind (arith, div-mul-le_self),
  grind (arith, div-mul-le_self),
  grind (arith, div-mul-le_self),
  no_more desired unit_price balance (grind (arith, div-mul-le_self)),
)

pub record WeeklySale : Type 0 where
  pub week_offset : ℕ
  pub target_category : Option ℕ
  pub discount_percent : ℕ

-- `getCurrentWeeklySale`: the first sale for the week of the rotation; ISO weeks start at 1.
find_sale : List WeeklySale → ℕ → Option WeeklySale
find_sale [] week = none
find_sale (s ∷ ss) week = if s.week_offset == week then some s else find_sale ss week

unfoldable pub get_current_weekly_sale : List WeeklySale → ℕ → Option WeeklySale
unfolding find_sale
get_current_weekly_sale sales iso_week = find_sale sales ((iso_week - 1) % 4)

-- `s.progressionService.IsFeatureUnlocked(FeatureWeeklyDiscount)`, where there is such a service.
pub data Gate : Type 0 where
  absent : Gate
  failed : Gate
  answered : Bool → Gate

abbrev pub passes : Gate → Bool
passes absent = true
passes failed = false
passes (answered b) = b

-- `sale.TargetCategory != nil && !strings.EqualFold(*sale.TargetCategory, itemCategory)`
abbrev pub misses : (ℕ → ℕ → Bool) → Option ℕ → ℕ → Bool
misses equal_fold none category = false
misses equal_fold (some c) category = not (equal_fold c category)

-- `applyWeeklySaleDiscount`. `equal_fold` is strings.EqualFold; `discount price percent` is
-- `int(float64(price) * (percent / 100.0))`, floating-point arithmetic that the model takes as given.
module _ (equal_fold : ℕ → ℕ → Bool) (discount : ℕ → ℕ → ℕ) where
  abbrev discounted : ℕ → ℕ → Option WeeklySale → ℕ
  discounted price category none = price
  discounted price category (some s) =
      if misses equal_fold s.target_category category
      then price
      else price - discount price s.discount_percent

  unfoldable pub apply_weekly_sale_discount : Gate → List WeeklySale → ℕ → ℕ → ℕ → ℕ
  apply_weekly_sale_discount gate sales iso_week price category =
      if passes gate
      then discounted price category (get_current_weekly_sale sales iso_week)
      else price

-- `calculateSellPriceWithModifier`: `scaled n` is `int(float64(n) * SellPriceRatio)`, `modified` the
-- answer of GetModifiedValue for "economy_bonus", if there is one.
unfoldable pub calculate_sell_price : (ℕ → ℕ) → (ℕ → Option ℕ) → ℕ → ℕ
calculate_sell_price scaled modified base = elim (modified (scaled base)) [
  | none ↦ scaled base
  | some price ↦ price
]
