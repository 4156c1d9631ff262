-- ===== src/Slots/Spin.antt =====
-- internal/slots/spin.go (SpinSlots, executeSpin) and formatMessage of payout.go.
--
-- `Calls` holds what the services and the repository answer. EnforceCooldown is the check before
-- the spin (`cooldown_before`) and the update of the stored time after it (`cooldown_after`).
pub mod Balance
use brandish_bot_go.Prelude.{
  ℕ, ◌+◌, ◌-◌, ◌*◌, Bool, true, false, Option, none, some, ltb, ◌==◌, if◌then◌else◌, set, remove_at,
  get_elem?,
}
use brandish_bot_go.Prelude.Int.{ℤ, pos, pos_part, ltb_ℤ, sub_ℕ}
use brandish_bot_go.Failure.{
  Result, ok, err, invalid_input, feature_locked, storage, item_not_found, insufficient_funds,
  panic, fail_if, required, transact, ◌>>=◌, ◌>>◌,
}
use brandish_bot_go.Inventory.{Inventory, find_random_slot}
use brandish_bot_go.Economy.Purchase.{Item, money}
use brandish_bot_go.Slots.{
  ResultType, no_match, lemon_two_match, Trigger, normal, big_win, jackpot, mega_jackpot, Reels,
  calculate_payout, random_result_type, build_reels, is_win, is_near_miss,
}

abbrev pub min_bet_amount : ℕ
min_bet_amount = 10

abbrev pub max_bet_amount : ℕ
max_bet_amount = 10000

pub record Calls : Type 0 where
  pub get_user : Result (Unit {0})
  pub is_feature_unlocked : Result Bool
  pub cooldown_before : Result (Unit {0})
  pub begin_tx : Result (Unit {0})
  pub get_money_item : Result (Option Item)
  pub get_inventory : Result (Unit {0})
  pub pick : ℕ → ℕ
  pub roll : ℕ
  pub update_inventory : Result (Unit {0})
  pub commit : Result (Unit {0})
  pub rng : ℕ → ℕ → ℕ  -- the draws of buildReels
  pub cooldown_after : Result (Unit {0})

-- What `formatMessage` says, with the amounts that it prints.
pub data Message : Type 0 where
  better_luck : ℕ → Message
  mega_jackpot_won jackpot_won big_win_won won : ℕ → ℤ → Message
  broke_even : ℕ → Message
  consolation no_luck : ℕ → ℤ → Message

abbrev is_lemon_two_match : ResultType → Bool
is_lemon_two_match lemon_two_match = true
is_lemon_two_match _ = false

abbrev format_small : ResultType → ℕ → ℕ → Message
format_small t bet amount =
    if ltb bet amount
    then won amount (sub_ℕ amount bet)
    else if amount == bet
    then broke_even amount
    else if is_lemon_two_match t
    then consolation amount (sub_ℕ amount bet)
    else no_luck amount (sub_ℕ amount bet)

abbrev format_win : Trigger → ResultType → ℕ → ℕ → Message
format_win mega_jackpot t bet amount = mega_jackpot_won amount (sub_ℕ amount bet)
format_win jackpot t bet amount = jackpot_won amount (sub_ℕ amount bet)
format_win big_win t bet amount = big_win_won amount (sub_ℕ amount bet)
format_win normal t bet amount = format_small t bet amount

-- `formatMessage`
abbrev pub format_message : ResultType → ℕ → ℕ → Trigger → Message
format_message t bet amount trigger =
    if amount == 0 then better_luck bet else format_win trigger t bet amount

pub record SlotsResult : Type 0 where
  pub reels : Reels
  pub bet_amount : ℕ
  pub payout_amount : ℕ
  pub payout_multiplier : ℕ
  pub won_money : Bool
  pub near_miss : Bool
  pub trigger_type : Trigger
  pub message : Message

-- The checks of the bet; a valid bet is handed on as a natural number.
unfoldable pub validate_bet : ℤ → Result ℕ
validate_bet bet = do
  fail_if (ltb_ℤ bet (pos min_bet_amount)) invalid_input
  fail_if (ltb_ℤ (pos max_bet_amount) bet) invalid_input
  ok (pos_part bet)

-- `if err != nil { log.Warn(...) }`, then the test of a flag that is false on an error.
abbrev pub unlocked : Result Bool → Bool
unlocked (ok b) = b
unlocked (err e) = false

-- An index out of range in FindRandomSlot or in buildReels.
abbrev pub no_panic {ℓ} : {A : Type ℓ} → Option A → Result A
no_panic o = required o panic

-- The money slot gets the new balance, or goes when that is 0.
abbrev pub store_balance : Inventory → Option ℕ → ℕ → Inventory
store_balance inv none balance = inv
store_balance inv (some i) balance = elim (get_elem? inv i) [
  | none ↦ inv
  | some s ↦ if balance == 0 then remove_at inv i else set inv i (record s { quantity = balance })
]

abbrev pub result_of : ResultType → ℕ → Reels → SlotsResult
result_of t bet reels =
    let (amount, quarters, trigger) = calculate_payout t bet in
    record {
      reels = reels;
      bet_amount = bet;
      payout_amount = amount;
      payout_multiplier = quarters;
      won_money = is_win t;
      near_miss = is_near_miss t;
      trigger_type = trigger;
      message = format_message t bet amount trigger;
    }

-- The transaction of `executeSpin`. Both sides of the test on the new balance are natural numbers,
-- so `newBalance < 0` is `currentMoney + amount < bet`.
unfoldable pub spin_steps : Calls → Inventory → ℕ → Result (ResultType × Inventory)
spin_steps c inv bet = do
  c.begin_tx
  found ← c.get_money_item
  money_item ← required found item_not_found
  c.get_inventory
  slot ← no_panic (find_random_slot inv money_item.id c.pick)
  fail_if (ltb slot.1 bet) insufficient_funds
  let t = random_result_type c.roll
  let amount = (calculate_payout t bet).0
  fail_if (ltb (slot.1 + amount) bet) insufficient_funds
  c.update_inventory
  c.commit
  ok (t, store_balance inv slot.0 (slot.1 + amount - bet))

-- After the commit: the reels that are shown.
abbrev pub report : Calls → ℕ → Result ResultType → Result SlotsResult
report c bet (err e) = err e
report c bet (ok t) = no_panic (build_reels c.rng t) >>= λ reels. ok (result_of t bet reels)

-- `executeSpin`
unfoldable pub execute_spin : Calls → Inventory → ℕ → Result SlotsResult × Inventory
unfolding spin_steps
execute_spin c inv bet =
    let (r, inv') = transact inv (spin_steps c inv bet) in (report c bet r, inv')

-- What EnforceCooldown does with the result of the spin: an error of its own update is returned.
abbrev pub finish : Calls → Result SlotsResult → Result SlotsResult
finish c (err e) = err e
finish c (ok r) = c.cooldown_after >> ok r

-- What stands before the spin.
unfoldable pub before_spin : Calls → ℤ → Result ℕ
before_spin c bet = do
  n ← validate_bet bet
  c.get_user
  fail_if (if unlocked c.is_feature_unlocked then false else true) feature_locked
  c.cooldown_before
  ok n

-- `SpinSlots`
unfoldable pub spin_slots : Calls → Inventory → ℤ → Result SlotsResult × Inventory
unfolding before_spin execute_spin
spin_slots c inv bet = elim (before_spin c bet) [
  | err e ↦ (err e, inv)
  | ok n ↦ (let (r, inv') = execute_spin c inv n in (finish c r, inv'))
]
