-- ===== src/Examples/Executed.antt =====
-- The theorems on the execution of a gamble at a concrete one.
use brandish_bot_go.Prelude.{none, some, [], ◌∷◌, ◌≡◌, refl, ◌-◌}
use brandish_bot_go.Failure.{ok}
use brandish_bot_go.Inventory.{slot, common}
use brandish_bot_go.Gamble.{joining, Gamble}
use brandish_bot_go.Gamble.Execute
use brandish_bot_go.Gamble.Execute.{
  World, GambleResult, execute_steps, execute_gamble, cancel_steps, refund_all,
}
use brandish_bot_go.Gamble.Execute.Once.{
  ExecuteOutcome, execute_gamble-ExecuteOutcome, execute_gamble-once,
}
use brandish_bot_go.Examples.Gambles.{bet, running, calls}

abbrev table : World
table = record { state = joining; inventories = λ u. slot 30 1 common ∷ [] }

abbrev full : Gamble
full = record running {
  participants =
      record { user_id = 1; lootbox_bets = bet ∷ [] }
      ∷ record { user_id = 2; lootbox_bets = bet ∷ [] }
      ∷ [];
}

abbrev executing : Execute.Calls
executing = record {
  base = calls;
  begin_tx = ok tt;
  transition = ok tt;
  get_inventory = λ u. ok tt;
  update_inventory = λ u. ok tt;
  mark_refunded = ok tt;
  get_item_by_id = λ i. ok (some i);
  open_lootbox =
      λ i n q. ok (record { item_id = 9; quantity = n; value = 5; quality_level = common } ∷ []);
  modified = λ v. v;
  save_opened = ok tt;
  iterate = λ vs. vs;
  rng = λ n. n - 1;
  complete = ok tt;
  commit = ok tt;
}

execute_gamble-ExecuteOutcome_example :
    ExecuteOutcome executing
      (ok (some full))
      table
      (execute_gamble executing (ok (some full)) table)
execute_gamble-ExecuteOutcome_example =
    execute_gamble-ExecuteOutcome executing (ok (some full)) table

-- The gamble with one participant, refunded.
abbrev ended : World
ended = (execute_gamble executing (ok (some running)) table).1

abbrev nobody : GambleResult
nobody = record { winner_id = none; total_value = 0; items = [] }

was_executed : execute_gamble executing (ok (some running)) table ≡ (ok (some nobody), ended)
unfolding execute_gamble execute_steps cancel_steps refund_all
was_executed = refl

execute_gamble-once_example : (execute_gamble executing (ok (some full)) ended).1 ≡ ended
execute_gamble-once_example =
    execute_gamble-once executing executing (ok (some running)) (ok (some full)) table ended nobody
      was_executed
