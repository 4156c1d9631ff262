-- ===== src/Slots/Spin/Balance.antt =====
-- What a spin does to the money of the user.
use brandish_bot_go.Prelude.{ℕ, ◌+◌, ◌≤◌, ◌≡◌, Bool, none, some, get_elem?, if◌then◌else◌, ◌⊎◌}
use brandish_bot_go.Failure.{Result, ok, err}
use brandish_bot_go.Inventory.{Inventory, InventorySlot, QualityLevel, find_random_slot}
use brandish_bot_go.Inventory.Consume.Conservation.{amount}
use brandish_bot_go.Economy.Purchase.{Item}
use brandish_bot_go.Slots.{ResultType, build_reels, calculate_payout, random_result_type}
use brandish_bot_go.Slots.Spin.{Calls, SlotsResult, min_bet_amount, max_bet_amount}

-- The inventory after a spin for `bet` that drew the result of the roll: in the money slot `s`,
-- which covered the bet, the payout replaces the bet.
pub record Played (c : Calls) (inv : Inventory) (bet : ℕ) (inv' : Inventory) : Type 0 where
  pub money_item : Item
  pub money_slot : InventorySlot
  pub index : ℕ
  pub is_money_item : c.get_money_item ≡ ok (some money_item)
  pub is_drawn : find_random_slot inv money_item.id c.pick ≡ some (some index, money_slot.quantity)
  pub is_stored : get_elem? inv index ≡ some money_slot
  pub is_money : money_slot.item_id ≡ money_item.id
  pub covered : bet ≤ money_slot.quantity
  pub at_least_minimum : min_bet_amount ≤ bet
  pub at_most_maximum : bet ≤ max_bet_amount
  pub balanced :
      (p : ℕ → QualityLevel → Bool)
      → amount p inv' + (if p money_item.id money_slot.quality_level then bet else 0)
        ≡ amount p inv
          + (if p money_item.id money_slot.quality_level
              then (calculate_payout (random_result_type c.roll) bet).0
              else 0)

module _ (c : Calls) (inv : Inventory) where
  drawn : ResultType
  drawn = random_result_type c.roll

  -- What SpinSlots leaves behind, by how it ends.
  abbrev pub SpinOutcome : Result SlotsResult × Inventory → Type 0
  SpinOutcome (ok r, inv') =
      Played c inv r.bet_amount inv'
      × (build_reels c.rng (random_result_type c.roll) ≡ some r.reels)
      × (r.payout_amount ≡ (calculate_payout (random_result_type c.roll) r.bet_amount).0)
  SpinOutcome (err e, inv') =
      (inv' ≡ inv)
      ⊎ ((bet : ℕ) × Played c inv bet inv'
          × ((build_reels c.rng (random_result_type c.roll) ≡ none) ⊎ (c.cooldown_after ≡ err e)))
