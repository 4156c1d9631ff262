-- ===== src/Examples/Services.antt =====
-- The theorems on whole calls at concrete stores.
use brandish_bot_go.Prelude.{
  ◌+◌, ◌*◌, ◌/◌, ℕ, ◌≤◌, ◌<◌, ◌≡◌, refl, Bool, none, ◌==◌, if◌then◌else◌, arith,
}
use brandish_bot_go.Prelude.Int.{pos}
use brandish_bot_go.Failure.{ok}
use brandish_bot_go.Inventory.Consume.Conservation.{everything}
use brandish_bot_go.Inventory.{
  QualityLevel, common, find_random_slot, choose_slot, matching_indices,
}
use brandish_bot_go.Economy.Purchase.{buy_item}
use brandish_bot_go.Economy.Purchase.Conservation.{BuyOutcome, buy_item-BuyOutcome}
use brandish_bot_go.Economy.Sale.{sell_item}
use brandish_bot_go.Economy.Sale.Conservation.{SellOutcome, sell_item-SellOutcome}
use brandish_bot_go.Slots.Odds.{sum_rolls, paid, sum_rolls-paid}
use brandish_bot_go.Users.{
  add_item_by_username, remove_item_by_username, execute_give_item_tx, remove_item_from_user,
  add_item_to_user,
}
use brandish_bot_go.Users.Gifts.{GiveOutcome, execute_give_item_tx-GiveOutcome}
use brandish_bot_go.Users.Items.{owned}
use brandish_bot_go.Duel.{
  World, Duel, DuelResult, challenge, accept, new_duel, validate_and_get_duel, process_duel_stakes,
}
use brandish_bot_go.Duel.Accepted.{int_limit, Fits, Accepted, accept-Accepted}
use brandish_bot_go.Duel.Escrow.{Answers, HasDuel, declines, declines-refund}
use brandish_bot_go.Examples.{
  purse, shop, user_service, everyone, stakes, challenging, accepting, start,
}

buy_item-BuyOutcome_example :
    BuyOutcome
      (λ a b. a == b)
      (λ n d. n)
      shop
      purse
      7
      (pos 30)
      (buy_item (λ a b. a == b) (λ n d. n) shop purse 7 (pos 30))
buy_item-BuyOutcome_example = buy_item-BuyOutcome (λ a b. a == b) (λ n d. n) shop purse 7 (pos 30)

sell_item-SellOutcome_example :
    SellOutcome
      (λ n. n / 2)
      (λ n. none)
      shop
      purse
      7
      (pos 5)
      (sell_item (λ n. n / 2) (λ n. none) shop purse 7 (pos 5))
sell_item-SellOutcome_example = sell_item-SellOutcome (λ n. n / 2) (λ n. none) shop purse 7 (pos 5)

sum_rolls-paid_example :
    (sum_rolls (paid 10) 0 1000
      ≡ 250 * (10 / 4)
        + 150 * (10 / 2)
        + 60 * (3 * 10)
        + 35 * (8 * 10)
        + 20 * (15 * 10)
        + 10 * (30 * 10)
        + 5 * (75 * 10))
    × (2 * sum_rolls (paid (4 * 10)) 0 1000 ≡ 3145 * (4 * 10))
sum_rolls-paid_example = sum_rolls-paid 10

execute_give_item_tx-GiveOutcome_example :
    GiveOutcome everyone 1 2 7 2 (execute_give_item_tx user_service everyone 1 2 7 2)
execute_give_item_tx-GiveOutcome_example =
    execute_give_item_tx-GiveOutcome user_service everyone 1 2 7 2

abbrev opened : World
opened = (challenge 60 challenging 5 stakes start).1

abbrev fresh : Duel
fresh = new_duel 1 2 stakes 160

is_opened : challenge 60 challenging 5 stakes start ≡ (ok fresh, opened)
unfolding challenge remove_item_by_username remove_item_from_user find_random_slot choose_slot
    matching_indices
is_opened = refl

abbrev won : DuelResult
won = record { winner_id = 2; loser_id = 1 }

abbrev finished : World
finished = (accept accepting 5 opened).1

is_won : accept accepting 5 opened ≡ (ok won, finished)
unfolding accept validate_and_get_duel process_duel_stakes challenge remove_item_by_username
    remove_item_from_user find_random_slot choose_slot matching_indices add_item_by_username
    add_item_to_user
is_won = refl

opened-Fits : Fits opened 5
unfolding challenge remove_item_by_username remove_item_from_user find_random_slot choose_slot
    matching_indices
opened-Fits d u h =
    let e : fresh ≡ d = cc in
    let few : owned opened.inventories u everything ≤ 10000 = ground arith in
    rw (← e) (omega (arith, few))

accept-Accepted_example : Accepted accepting 5 opened won finished
accept-Accepted_example = accept-Accepted accepting 5 opened finished won opened-Fits is_won

opened-Answers : Answers challenging 7 7
opened-Answers = record {
  begun = refl;
  got = refl;
  known = refl;
  updated = refl;
  user_known = refl;
  item_known = refl;
  tx = refl;
  inventory_read = refl;
  inventory_written = refl;
  committed = refl;
}

opened-HasDuel : HasDuel opened 5 1 stakes
unfolding challenge remove_item_by_username remove_item_from_user find_random_slot choose_slot
    matching_indices
opened-HasDuel = (fresh, refl, refl, refl)

opened-small : owned opened.inventories 1 everything + 6 < int_limit
unfolding challenge remove_item_by_username remove_item_from_user find_random_slot choose_slot
    matching_indices
opened-small = omega arith

declines-refund_example :
    ((p : ℕ → QualityLevel → Bool)
      → owned (declines challenging 5 3 opened).inventories 1 p
        ≡ owned opened.inventories 1 p + (if p 7 common then 3 * 2 else 0))
    × (owned (declines challenging 5 3 opened).inventories 1 everything < int_limit)
declines-refund_example =
    declines-refund challenging 5 1 7 7 2 stakes 3 opened opened-Answers refl opened-HasDuel
      opened-small
