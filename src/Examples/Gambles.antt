-- ===== src/Examples/Gambles.antt =====
-- The theorems on gambles at concrete bets.
use brandish_bot_go.Prelude.{◌≡◌, refl, true, none, some, List, [], ◌∷◌}
use brandish_bot_go.Prelude.Int.{pos}
use brandish_bot_go.Failure.{ok}
use mathlib.Core.List.{Permᴰ}
use brandish_bot_go.Inventory.{Inventory, slot, common, rare}
use brandish_bot_go.Gamble
use brandish_bot_go.Gamble.{
  LootboxBet, BetRequest, Participant, joining, GambleOpenedItem, start_gamble, join_gamble,
  refund_bets, award_items,
}
use brandish_bot_go.Gamble.Bets.{
  StartOutcome, JoinOutcome, start_gamble-StartOutcome, join_gamble-JoinOutcome,
}
use brandish_bot_go.Gamble.Winner.{determine_gamble_winners}
use brandish_bot_go.Gamble.Winner.Order.{determine_gamble_winners-perm}

abbrev boxes : Inventory
boxes = slot 30 5 rare ∷ slot 31 1 common ∷ []

abbrev pub bet : LootboxBet
bet = record { item_name = 30; quantity = 2; quality_level = rare }

abbrev pub running : Gamble.Gamble
running = record {
  initiator_id = 1;
  state = joining;
  join_deadline = 200;
  participants = record { user_id = 1; lootbox_bets = bet ∷ [] } ∷ [];
}

abbrev pub calls : Gamble.Calls
calls = record {
  now = 100;
  get_user = ok (some 2);
  active_gamble = ok none;
  get_gamble = ok (some running);
  resolve_item_name = λ n. ok n;
  get_item_by_name = λ n. ok (some (n, true));
  begin_tx = ok tt;
  get_inventory = ok tt;
  update_inventory = ok tt;
  create_gamble = ok tt;
  join_gamble = ok tt;
  commit = ok tt;
}

abbrev requests : List BetRequest
requests = record { item_name = 30; quantity = pos 2 } ∷ []

start_gamble-StartOutcome_example :
    StartOutcome calls boxes requests (start_gamble calls boxes requests)
start_gamble-StartOutcome_example = start_gamble-StartOutcome calls boxes requests

join_gamble-JoinOutcome_example : JoinOutcome calls boxes (join_gamble calls boxes)
join_gamble-JoinOutcome_example = join_gamble-JoinOutcome calls boxes

determine_gamble_winners-perm_example :
    determine_gamble_winners (λ n. 1) ((1, 8) ∷ (2, 8) ∷ [])
    ≡ determine_gamble_winners (λ n. 1) ((2, 8) ∷ (1, 8) ∷ [])
determine_gamble_winners-perm_example =
    determine_gamble_winners-perm (λ n. 1) ((1, 8) ∷ (2, 8) ∷ []) ((2, 8) ∷ (1, 8) ∷ [])
      (Permᴰ.swap refl refl)
