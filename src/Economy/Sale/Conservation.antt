-- ===== src/Economy/Sale/Conservation.antt =====
-- What a sale does to the inventory.
use brandish_bot_go.Prelude.{
  ℕ, ◌+◌, ◌*◌, ◌≤◌, ◌≡◌, refl, Bool, Option, none, some, get_elem?, if◌then◌else◌, arith,
}
use mathlib.Core.Path.{subst₂}
use brandish_bot_go.Prelude.Int.{ℤ, pos_part}
use brandish_bot_go.Failure.{Result, ok, err, transact, with_ok}
use brandish_bot_go.Inventory.{Inventory, InventorySlot, QualityLevel, common, find_random_slot}
use brandish_bot_go.Inventory.Consume.Conservation.{amount}
use brandish_bot_go.Inventory.Slots.{IsFound, find_random_slot-IsFound}
use brandish_bot_go.Economy.Pricing.{calculate_sell_price, validate_quantity, validate_quantity_lem}
use brandish_bot_go.Economy.Exchange.{process_exchange, process_exchange_lem}
use brandish_bot_go.Economy.Purchase.{Calls, Item}
use brandish_bot_go.Economy.Sale.{
  get_sell_entities, slot_in, actual_quantity, settle, sell_steps, sell_item,
}

-- What a sale of `n` items for `gained` leaves behind.
pub record Sold (c : Calls) (inv : Inventory) (name : ℕ) (wanted : ℤ) (price : Item → ℕ)
    (gained n : ℕ) (inv' : Inventory) : Type 0 where
  pub item : Item
  pub money_item : Item
  pub item_quality : QualityLevel
  pub are_entities : get_sell_entities c name ≡ ok (item, money_item)
  pub at_most_wanted : n ≤ pos_part wanted
  pub priced : gained ≡ n * price item
  pub balanced :
      (p : ℕ → QualityLevel → Bool)
      → amount p inv' + (if p item.id item_quality then n else 0)
        ≡ amount p inv + (if p money_item.id common then gained else 0)

slot_in_lem :
    (inv : Inventory) (id : ℕ) (pick : ℕ → ℕ) (i n : ℕ)
    → slot_in (find_random_slot inv id pick) ≡ ok (i, n)
    → IsFound inv id (some i, n)
slot_in_lem inv id pick i n h =
    let (r, e, f) = find_random_slot-IsFound inv id pick in from r f (rw e at h)
  where
    from :
        (r : Option ℕ × ℕ)
        → IsFound inv id r
        → slot_in (some r) ≡ ok (i, n)
        → IsFound inv id (some i, n)
    from (none, m) f g = cc
    from (some j, m) f g =
        let ej : j ≡ i = cc in
        let em : m ≡ n = cc in subst₂ (λ x y. IsFound inv id (some x, y)) ej em f

module _ (scaled : ℕ → ℕ) (modified : ℕ → Option ℕ) (c : Calls) (inv : Inventory) (name : ℕ)
    (wanted : ℤ) where
  abbrev pub price_of : Item → ℕ
  price_of item = calculate_sell_price scaled modified item.base_value

  validated : (k : ℕ) → validate_quantity wanted ≡ ok k → k ≡ pos_part wanted
  validated k e = ground (arith, validate_quantity_lem wanted)

  settled :
      (item m : Item) (k i sold gained n : ℕ) (s : InventorySlot) (inv' : Inventory) (gain : ℕ)
      → get_sell_entities c name ≡ ok (item, m)
      → k ≡ pos_part wanted
      → sold ≤ k
      → sold ≤ s.quantity
      → gain ≡ sold * price_of item
      → get_elem? inv i ≡ some s
      → s.item_id ≡ item.id
      → settle c inv i sold gain m.id ≡ ok ((gained, n), inv')
      → Sold c inv name wanted price_of gained n inv'
  unfolding settle
  settled item m k i sold gained n s inv' gain ee ek le fits eg es eid h =
      with_ok (process_exchange inv i sold gain m.id) _ h λ inv2 g1 h1.
        with_ok c.update_inventory _ h1 λ u2 g2 h2. with_ok c.commit _ h2 λ u3 g3 h3.
          let (inv3, same, keep) = process_exchange_lem inv i sold gain m.id s es fits in
          let e : inv' ≡ inv3 = cc in
          let en : sold ≡ n = cc in
          let ev : gain ≡ gained = cc in
          record {
            item = item;
            money_item = m;
            item_quality = s.quality_level;
            are_entities = ee;
            at_most_wanted = omega arith;
            priced = rw (← en, ← ev) eg;
            balanced = λ p. rw (e, ← en, ← ev, ← eid) (keep p);
          }

  sell_steps_lem :
      (gained n : ℕ) (inv' : Inventory)
      → sell_steps scaled modified c inv name wanted ≡ ok ((gained, n), inv')
      → Sold c inv name wanted price_of gained n inv'
  unfolding sell_steps
  sell_steps_lem gained n inv' h = with_ok (validate_quantity wanted) _ h λ k e1 h1.
      with_ok (get_sell_entities c name) _ h1 λ entities e2 h2. with_ok c.begin_tx _ h2 λ u3 e3 h3.
        with_ok c.get_inventory _ h3 λ u4 e4 h4.
          with_ok (slot_in (find_random_slot inv entities.0.id c.pick)) _ h4 λ found e5 h5.
            let (s, es, eid, eq) = slot_in_lem inv entities.0.id c.pick found.0 found.1 e5 in
            let sold : ℕ = actual_quantity found.1 k in
            settled entities.0 entities.1 k found.0 sold gained n s inv'
              (sold * price_of entities.0) e2 (validated k e1) (ground arith) (ground (arith, eq))
              refl es eid h5

  -- What SellItem leaves behind, by how it ends.
  abbrev pub SellOutcome : Result (ℕ × ℕ) × Inventory → Type 0
  SellOutcome (ok (gained, n), inv') = Sold c inv name wanted price_of gained n inv'
  SellOutcome (err e, inv') = inv' ≡ inv

  -- A sale that returns an error leaves the stored inventory as it was. One that succeeds takes at
  -- most the wanted number of the item from one quality and adds their price to the money of
  -- common quality; nothing else changes.
  pub sell_item-SellOutcome : SellOutcome (sell_item scaled modified c inv name wanted)
  unfolding sell_item
  sell_item-SellOutcome = outcome (sell_steps scaled modified c inv name wanted) refl
    where
      outcome :
          (r : Result ((ℕ × ℕ) × Inventory))
          → sell_steps scaled modified c inv name wanted ≡ r
          → SellOutcome (transact inv r)
      outcome (ok ((gained, n), inv')) e = sell_steps_lem gained n inv' e
      outcome (err x) e = refl
