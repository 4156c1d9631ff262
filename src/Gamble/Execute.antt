-- ===== src/Gamble/Execute.antt =====
-- internal/gamble/execute.go, ExecuteGamble: a gamble is refunded or opened, once.
--
-- The gamble that decides is read before the transaction; the transaction changes the stored state
-- only if it is still joining (UpdateGambleStateIfMatches). What only goes into the published
-- event, near misses and critical failures, is left out.
pub mod Ends
pub mod Once
use brandish_bot_go.Prelude.{
  ℕ, ◌+◌, ◌*◌, Bool, true, false, not, Option, none, some, List, [], ◌∷◌, ◌++◌, length, ltb, ◌==◌,
  if◌then◌else◌,
}
use brandish_bot_go.Failure.{
  Result, ok, err, gamble_not_found, not_in_joining_state, already_executed, panic, required,
  fail_if, transact, ◌>>=◌, ◌>>◌,
}
use brandish_bot_go.Inventory.{QualityLevel}
use brandish_bot_go.Users.{Inventories, write}
use brandish_bot_go.Gamble
use brandish_bot_go.Gamble.{
  GambleState, created, joining, opening, completed, refunded, LootboxBet, Participant, Gamble,
  GambleOpenedItem, is_joining, resolve_lootbox_bet, refund_bets, add_entry, award_items,
}
use brandish_bot_go.Gamble.Winner.{WinnerResult, determine_gamble_winners}

-- What a lootbox gives.
pub record DroppedItem : Type 0 where
  pub item_id : ℕ
  pub quantity : ℕ
  pub value : ℕ
  pub quality_level : QualityLevel

pub record Calls : Type 0 where
  pub base : Gamble.Calls
  pub begin_tx : Result (Unit {0})
  pub transition : Result (Unit {0})
  pub get_inventory : ℕ → Result (Unit {0})
  pub update_inventory : ℕ → Result (Unit {0})
  pub mark_refunded : Result (Unit {0})
  pub get_item_by_id : ℕ → Result (Option ℕ)  -- its internal name
  pub open_lootbox : ℕ → ℕ → QualityLevel → Result (List DroppedItem)
  pub modified : ℕ → ℕ  -- a value with the bonus of the progression
  pub save_opened : Result (Unit {0})
  pub iterate : List (ℕ × ℕ) → List (ℕ × ℕ)  -- the order of the map of values
  pub rng : ℕ → ℕ
  pub complete : Result (Unit {0})
  pub commit : Result (Unit {0})

-- The stored state of the gamble, and the inventories.
pub record World : Type 0 where
  pub state : GambleState
  pub inventories : Inventories

pub record GambleResult : Type 0 where
  pub winner_id : Option ℕ
  pub total_value : ℕ
  pub items : List GambleOpenedItem

abbrev pub is_opening : GambleState → Bool
is_opening opening = true
is_opening _ = false

abbrev pub is_completed : GambleState → Bool
is_completed completed = true
is_completed _ = false

-- `transitionToOpeningState`
abbrev pub transition_to_opening : Calls → GambleState → World → Result (Unit {0})
transition_to_opening c read w =
    if is_opening read
    then ok tt
    else c.transition >> fail_if (not (is_joining w.state)) already_executed

-- The loop of `refundGamble` over the participants.
unfoldable pub refund_all : Calls → List Participant → Inventories → Result Inventories
refund_all c [] w = ok w
refund_all c (p ∷ ps) w = do
  c.get_inventory p.user_id
  c.update_inventory p.user_id
  refund_all c ps (write w p.user_id (refund_bets c.base (w p.user_id) p.lootbox_bets))

-- `drop.Value * drop.Quantity` with the bonus, for every drop of a lootbox.
abbrev pub opened_items : Calls → ℕ → List DroppedItem → List GambleOpenedItem
opened_items c user [] = []
opened_items c user (d ∷ ds) =
    record {
      user_id = user;
      item_id = d.item_id;
      quantity = d.quantity;
      value = c.modified (d.value * d.quantity);
      quality_level = d.quality_level;
    }
    ∷ opened_items c user ds

-- The drops of a bet; an error of a lookup or of the opening passes over the bet.
abbrev pub drops_of : Result (List DroppedItem) → List DroppedItem
drops_of (err e) = []
drops_of (ok ds) = ds

abbrev pub bet_drops : Calls → LootboxBet → Result (List DroppedItem)
bet_drops c b = do
  id ← resolve_lootbox_bet c.base b
  found ← c.get_item_by_id id
  name ← required found gamble_not_found
  c.open_lootbox name b.quantity b.quality_level

abbrev pub open_bets : Calls → ℕ → List LootboxBet → List GambleOpenedItem
open_bets c user [] = []
open_bets c user (b ∷ bs) = opened_items c user (drops_of (bet_drops c b)) ++ open_bets c user bs

-- `openParticipantsLootboxes`: the opened items.
unfoldable pub open_participants_lootboxes : Calls → List Participant → List GambleOpenedItem
open_participants_lootboxes c [] = []
open_participants_lootboxes c (p ∷ ps) =
    open_bets c p.user_id p.lootbox_bets ++ open_participants_lootboxes c ps

-- `userValues` and `totalGambleValue`
unfoldable pub user_values : List GambleOpenedItem → List (ℕ × ℕ) → List (ℕ × ℕ)
user_values [] values = values
user_values (x ∷ xs) values = user_values xs (add_entry x.user_id x.value values)

abbrev pub total_gamble_value : List GambleOpenedItem → ℕ
total_gamble_value [] = 0
total_gamble_value (x ∷ xs) = x.value + total_gamble_value xs

-- `awardItemsToWinner`, where there is a winner.
abbrev pub award : Calls → Inventories → Option ℕ → List GambleOpenedItem → Result Inventories
award c w none items = ok w
award c w (some user) items = do
  c.get_inventory user
  c.update_inventory user
  ok (write w user (award_items (w user) items))

-- The end of a gamble with too few participants.
unfoldable pub cancel_steps :
    Calls → List Participant → World → Result (Option GambleResult × World)
cancel_steps c ps w = do
  inventories ← refund_all c ps w.inventories
  c.mark_refunded
  c.commit
  ok (
    some (record { winner_id = none; total_value = 0; items = [] }),
    record { state = refunded; inventories = inventories },
  )

-- The end of any other.
unfoldable pub open_steps : Calls → List Participant → World → Result (Option GambleResult × World)
open_steps c ps w = do
  let items = open_participants_lootboxes c ps
  c.save_opened
  winners ← required (determine_gamble_winners c.rng (c.iterate (user_values items []))) panic
  inventories ← award c w.inventories winners.winner_id items
  c.complete
  c.commit
  ok (
    some (record {
      winner_id = winners.winner_id;
      total_value = total_gamble_value items;
      items = items;
    }),
    record { state = completed; inventories = inventories },
  )

-- The two ends of a gamble: under two participants it is cancelled.
abbrev pub end_steps : Calls → Gamble → World → Result (Option GambleResult × World)
end_steps c g w =
    if ltb (length g.participants) 2
    then cancel_steps c g.participants w
    else open_steps c g.participants w

abbrev pub run_steps : Calls → Gamble → World → Result (Option GambleResult × World)
run_steps c g w = do
  fail_if (not (is_joining g.state)) not_in_joining_state
  c.begin_tx
  transition_to_opening c g.state w
  end_steps c g w

-- `ExecuteGamble` once the gamble is read: no result where it is completed already.
unfoldable pub execute_steps : Calls → Gamble → World → Result (Option GambleResult × World)
execute_steps c g w = if is_completed g.state then ok (none, w) else run_steps c g w

-- `ExecuteGamble`; `read` is what GetGamble has returned.
unfoldable pub execute_gamble :
    Calls → Result (Option Gamble) → World → Result (Option GambleResult) × World
unfolding execute_steps
execute_gamble c read w =
    transact w (do found ← read; g ← required found gamble_not_found; execute_steps c g w)
