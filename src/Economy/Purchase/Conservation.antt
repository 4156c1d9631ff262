-- ===== src/Economy/Purchase/Conservation.antt =====
-- What a purchase does to the inventory.
use brandish_bot_go.Prelude.{
  ℕ, ◌+◌, ◌*◌, ◌≤◌, ◌<◌, ◌≡◌, refl, ◌∙◌, ap, Bool, Option, none, some, get_elem?, ◌==◌,
  if◌then◌else◌, arith, Bool-cases, inl, inr,
}
use mathlib.Core.Path.{subst, subst₂}
use brandish_bot_go.Prelude.Int.{ℤ, pos_part}
use brandish_bot_go.Failure.{
  Result, ok, err, insufficient_funds, item_not_found, fail_if, required, transact, with_ok,
  required-eq-ok, fail_if-eq-ok,
}
use brandish_bot_go.Inventory.{Inventory, InventorySlot, QualityLevel, common}
use brandish_bot_go.Inventory.Consume.Conservation.{amount}
use brandish_bot_go.Inventory.Slots.{IsFound, find_random_slot-IsFound}
use brandish_bot_go.Economy.Pricing.{
  apply_weekly_sale_discount, validate_quantity, validate_quantity_lem,
  calculate_affordable_quantity_lem,
}
use brandish_bot_go.Economy.Exchange.{process_exchange, process_exchange_lem}
use brandish_bot_go.Economy.Purchase.{
  Calls, Item, money, get_item_category, positive_balance, ignored, get_buy_entities,
  check_buy_eligibility, get_money_balance, calculate_purchase_details, settle, buy_steps, buy_item,
}

-- The balance that is used is that of a slot of the money item.
record MoneySlot (c : Calls) (inv : Inventory) (balance : Option ℕ × ℕ) : Type 0 where
  item : Item
  named : c.get_item_by_name money ≡ ok (some item)
  found : IsFound inv item.id balance
  positive : 0 < balance.1

positive_balance_lem :
    (r balance : Option ℕ × ℕ)
    → positive_balance (some r) ≡ ok balance
    → (r ≡ balance) × (0 < balance.1)
positive_balance_lem r balance h = elim (Bool-cases (r.1 == 0)) [
  | inl zero_balance ↦ ground arith
  | inr some_balance ↦
      let same : ok r ≡ ok balance = rw some_balance at h in
      let e : r ≡ balance = cc in (e, ground arith)
]

get_money_balance_lem :
    (c : Calls) (inv : Inventory) (balance : Option ℕ × ℕ)
    → get_money_balance c inv ≡ ok balance
    → MoneySlot c inv balance
unfolding get_money_balance
get_money_balance_lem c inv balance h = with_ok (c.get_item_by_name money) _ h λ found_item e h1.
    with_ok (required found_item item_not_found) _ h1 λ item f h2.
      with_ok c.get_inventory _ h2 λ u g h3.
        let (r, k, l) = find_random_slot-IsFound inv item.id c.pick in
        let (same, p) = positive_balance_lem r balance (rw k at h3) in
        record {
          item = item;
          named = e ∙ ap ok (required-eq-ok found_item item_not_found f);
          found = subst (IsFound inv item.id) same l;
          positive = p;
        }

-- What a purchase of `n` items leaves behind.
pub record Bought (c : Calls) (inv : Inventory) (name : ℕ) (wanted : ℤ) (n : ℕ) (inv' : Inventory)
    (price : Item → ℕ) : Type 0 where
  pub item : Item
  pub money_item : Item
  pub money_quality : QualityLevel
  pub is_the_item : get_buy_entities c name ≡ ok item
  pub is_money : c.get_item_by_name money ≡ ok (some money_item)
  pub positive : 0 < n
  pub at_most_wanted : n ≤ pos_part wanted
  pub balanced :
      (p : ℕ → QualityLevel → Bool)
      → amount p inv' + (if p money_item.id money_quality then n * price item else 0)
        ≡ amount p inv + (if p item.id common then n else 0)

module _ (equal_fold : ℕ → ℕ → Bool) (discount : ℕ → ℕ → ℕ) (c : Calls) (inv : Inventory) (name : ℕ)
    (wanted : ℤ) where
  -- The price after this week's discount.
  abbrev pub price_of : Item → ℕ
  price_of item =
      apply_weekly_sale_discount equal_fold discount c.weekly_discount c.weekly_sales c.iso_week
        item.base_value (get_item_category item)

  validated : (k : ℕ) → validate_quantity wanted ≡ ok k → k ≡ pos_part wanted
  validated k e = ground (arith, validate_quantity_lem wanted)

  -- What is bought is wanted, and is paid in full.
  details_lem :
      (item : Item) (k available : ℕ)
      → let (n, cost) = calculate_purchase_details equal_fold discount c item k available in
        (n ≤ k) × (cost ≡ n * price_of item) × (cost ≤ available)
  unfolding calculate_purchase_details
  details_lem item k available =
      let (a, b, d, e) = calculate_affordable_quantity_lem k (price_of item) available in (a, b, d)

  settled :
      (item : Item) (k i n cost b : ℕ) (s : InventorySlot) (m : Item) (inv' : Inventory)
      → get_buy_entities c name ≡ ok item
      → c.get_item_by_name money ≡ ok (some m)
      → k ≡ pos_part wanted
      → 0 < n
      → (n ≤ k) × (cost ≡ n * price_of item) × (cost ≤ b)
      → get_elem? inv i ≡ some s
      → s.item_id ≡ m.id
      → s.quantity ≡ b
      → process_exchange inv i cost n item.id ≡ ok inv'
      → Bought c inv name wanted n inv' price_of
  settled item k i n cost b s m inv' e2 em ek pos_n (le, eq, fits) es eid eb ex =
      let (inv2, same, keep) = process_exchange_lem inv i cost n item.id s es (omega arith) in
      let e : inv' ≡ inv2 = cc in
      record {
        item = item;
        money_item = m;
        money_quality = s.quality_level;
        is_the_item = e2;
        is_money = em;
        positive = pos_n;
        at_most_wanted = omega arith;
        balanced = λ p.
            subst
              (λ z.
                amount p inv' + (if p m.id s.quality_level then z else 0)
                ≡ amount p inv + (if p item.id common then n else 0))
              eq (rw (e, ← eid) (keep p));
      }

  paid :
      (item : Item) (k n : ℕ) (balance : Option ℕ × ℕ) (inv' : Inventory) (details : ℕ × ℕ)
      → get_buy_entities c name ≡ ok item
      → k ≡ pos_part wanted
      → MoneySlot c inv balance
      → (details.0 ≤ k) × (details.1 ≡ details.0 * price_of item) × (details.1 ≤ balance.1)
      → settle c inv item balance.0 details ≡ ok (n, inv')
      → Bought c inv name wanted n inv' price_of
  unfolding settle
  paid item k n (none, b) inv' (d, cost) e2 ek m f h = ground (arith, m.positive, m.found.0)
  paid item k n (some i, b) inv' (d, cost) e2 ek m f h =
      with_ok (fail_if (d == 0) insufficient_funds) _ h λ u1 g1 h1.
        with_ok (ignored c.get_inventory_again) _ h1 λ u2 g2 h2.
          with_ok (process_exchange inv i cost d item.id) _ h2 λ inv2 g3 h3.
            with_ok c.update_inventory _ h3 λ u4 g4 h4. with_ok c.commit _ h4 λ u5 g5 h5.
              let en : d ≡ n = cc in
              let ei : inv2 ≡ inv' = cc in
              let s = m.found.0 in
              subst₂ (λ x y. Bought c inv name wanted x y price_of) en ei
                (settled item k i d cost b s m.item inv2 e2 m.named ek
                  (ground (arith, fail_if-eq-ok (d == 0) insufficient_funds g1)) f m.found.1
                  m.found.2 m.found.3 g3)

  buy_steps_lem :
      (n : ℕ) (inv' : Inventory)
      → buy_steps equal_fold discount c inv name wanted ≡ ok (n, inv')
      → Bought c inv name wanted n inv' price_of
  unfolding buy_steps
  buy_steps_lem n inv' h = with_ok (validate_quantity wanted) _ h λ k e1 h1.
      with_ok (get_buy_entities c name) _ h1 λ item e2 h2. with_ok c.begin_tx _ h2 λ u3 e3 h3.
        with_ok (check_buy_eligibility c item) _ h3 λ u4 e4 h4.
          with_ok (get_money_balance c inv) _ h4 λ balance e5 h5.
            paid item k n balance inv'
              (calculate_purchase_details equal_fold discount c item k balance.1) e2
              (validated k e1) (get_money_balance_lem c inv balance e5)
              (details_lem item k balance.1) h5

  -- What BuyItem leaves behind, by how it ends.
  abbrev pub BuyOutcome : Result ℕ × Inventory → Type 0
  BuyOutcome (ok n, inv') = Bought c inv name wanted n inv' price_of
  BuyOutcome (err e, inv') = inv' ≡ inv

  -- A purchase that returns an error leaves the stored inventory as it was. One that succeeds adds
  -- at least one and at most the wanted number of the item in common quality, and takes their
  -- price, after this week's discount, from the money of one quality; nothing else changes.
  pub buy_item-BuyOutcome : BuyOutcome (buy_item equal_fold discount c inv name wanted)
  unfolding buy_item
  buy_item-BuyOutcome = outcome (buy_steps equal_fold discount c inv name wanted) refl
    where
      outcome :
          (r : Result (ℕ × Inventory))
          → buy_steps equal_fold discount c inv name wanted ≡ r
          → BuyOutcome (transact inv r)
      outcome (ok (n, inv')) e = buy_steps_lem n inv' e
      outcome (err x) e = refl
