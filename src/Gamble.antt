-- ===== src/Gamble.antt =====
-- internal/gamble: bets of lootboxes, joining, and what happens to the items of a gamble
-- (start.go, join.go, helpers.go, execute.go).
--
-- Users, items and names are numbers. `Calls` holds the answers of the repository and of the
-- resolution of names; a transaction ends in `transact`.
pub mod Bets
pub mod Payback
pub mod Winner
pub mod Execute
use brandish_bot_go.Prelude.{
  ℕ, zero, suc, ◌+◌, ◌-◌, Bool, true, false, not, Option, none, some, List, [], ◌∷◌, ◌++◌, ltb, leb,
  ◌==◌, if◌then◌else◌, length,
}
use brandish_bot_go.Prelude.Int.{ℤ, pos, pos_part, leb_ℤ, ltb_ℤ}
use brandish_bot_go.Failure.{
  Result, ok, err, storage, user_not_found, item_not_found, insufficient_quantity,
  quantity_too_high, gamble_not_found, gamble_already_active, not_in_joining_state,
  join_deadline_passed, at_least_one_lootbox, not_a_lootbox, bet_not_positive, required, fail_if,
  transact, ◌>>=◌, ◌>>◌,
}
use brandish_bot_go.Inventory.{Inventory, InventorySlot, QualityLevel, unset, slot, add_quantity}
use brandish_bot_go.Economy.Pricing.{max_transaction_quantity}

pub data GambleState : Type 0 where
  created joining opening completed refunded : GambleState

pub record LootboxBet : Type 0 where
  pub item_name : ℕ
  pub quantity : ℕ
  pub quality_level : QualityLevel

pub record Participant : Type 0 where
  pub user_id : ℕ
  pub lootbox_bets : List LootboxBet

pub record Gamble : Type 0 where
  pub initiator_id : ℕ
  pub state : GambleState
  pub join_deadline : ℕ
  pub participants : List Participant

pub record GambleOpenedItem : Type 0 where
  pub user_id : ℕ
  pub item_id : ℕ
  pub quantity : ℕ
  pub value : ℕ
  pub quality_level : QualityLevel

pub record Calls : Type 0 where
  pub now : ℕ
  pub get_user : Result (Option ℕ)
  pub active_gamble : Result (Option Gamble)
  pub get_gamble : Result (Option Gamble)
  pub resolve_item_name : ℕ → Result ℕ
  pub get_item_by_name : ℕ → Result (Option (ℕ × Bool))  -- the id, and whether the name starts with "lootbox"
  pub begin_tx : Result (Unit {0})
  pub get_inventory : Result (Unit {0})
  pub update_inventory : Result (Unit {0})
  pub create_gamble : Result (Unit {0})
  pub join_gamble : Result (Unit {0})
  pub commit : Result (Unit {0})

abbrev pub with_rest :
    InventorySlot → Result (QualityLevel × Inventory) → Result (QualityLevel × Inventory)
with_rest s (ok (q, inv)) = ok (q, s ∷ inv)
with_rest s (err e) = err e

-- `consumeItem`: only the first slot of the item is looked at.
unfoldable pub consume_item : Inventory → ℕ → ℕ → Result (QualityLevel × Inventory)
consume_item [] id n = err item_not_found
consume_item (s ∷ ss) id n =
    let rest = consume_item ss id n in
    if s.item_id == id
    then if ltb s.quantity n
      then err insufficient_quantity
      else if s.quantity == n
      then ok (s.quality_level, ss)
      else ok (s.quality_level, record s { quantity = s.quantity - n } ∷ ss)
    else with_rest s rest

-- The loop that consumes the bets; `ids` are the resolved item ids. A missing id is out of range.
unfoldable pub consume_bets :
    Inventory → List LootboxBet → List ℕ → Result (List LootboxBet × Inventory)
consume_bets inv [] ids = ok ([], inv)
consume_bets inv (b ∷ bs) [] = err storage
consume_bets inv (b ∷ bs) (id ∷ ids) = do
  taken ← consume_item inv id b.quantity
  rest ← consume_bets taken.1 bs ids
  ok ((record b { quality_level = taken.0 }) ∷ rest.0, rest.1)

-- `resolveLootboxBet`
unfoldable pub resolve_lootbox_bet : Calls → LootboxBet → Result ℕ
resolve_lootbox_bet c b = do
  name ← c.resolve_item_name b.item_name
  found ← c.get_item_by_name name
  item ← required found item_not_found
  fail_if (not item.1) not_a_lootbox
  ok item.0

-- `validateGambleBets`
unfoldable pub validate_gamble_bets : Calls → List LootboxBet → Result (List ℕ)
validate_gamble_bets c [] = ok []
validate_gamble_bets c (b ∷ bs) = do
  fail_if (ltb max_transaction_quantity b.quantity) quantity_too_high
  id ← resolve_lootbox_bet c b
  ids ← validate_gamble_bets c bs
  ok (id ∷ ids)

-- A bet as it is asked for: its quantity may be negative.
pub record BetRequest : Type 0 where
  pub item_name : ℕ
  pub quantity : ℤ

-- The checks of `validateGambleStartInput` on the bets one after another; valid bets are handed on
-- with a natural number.
unfoldable pub validate_requests : List BetRequest → Result (List LootboxBet)
validate_requests [] = ok []
validate_requests (r ∷ rs) = do
  fail_if (leb_ℤ r.quantity (pos 0)) bet_not_positive
  fail_if (ltb_ℤ (pos max_transaction_quantity) r.quantity) quantity_too_high
  bets ← validate_requests rs
  ok (
      record { item_name = r.item_name; quantity = pos_part r.quantity; quality_level = unset }
      ∷ bets)

-- `validateGambleStartInput`
unfoldable pub validate_gamble_start_input : List BetRequest → Result (List LootboxBet)
unfolding validate_requests
validate_gamble_start_input [] = err at_least_one_lootbox
validate_gamble_start_input (r ∷ rs) = validate_requests (r ∷ rs)

-- `ensureNoActiveGamble`
abbrev pub ensure_no_active_gamble : Option Gamble → Result (Unit {0})
ensure_no_active_gamble none = ok tt
ensure_no_active_gamble (some g) = err gamble_already_active

-- The transaction of a start or a join: the bets with their qualities, and the inventory.
unfoldable pub stake_steps :
    Calls
    → Inventory
    → List LootboxBet
    → List ℕ
    → Result (Unit {0})
    → Result (List LootboxBet × Inventory)
stake_steps c inv bets ids create = do
  c.begin_tx
  c.get_inventory
  taken ← consume_bets inv bets ids
  c.update_inventory
  create
  c.join_gamble
  c.commit
  ok taken

-- The body of `StartGamble`: the user and the bets of the first participant.
unfoldable pub start_steps :
    Calls → Inventory → List BetRequest → Result (List LootboxBet × Inventory)
start_steps c inv requests = do
  bets ← validate_gamble_start_input requests
  user ← c.get_user
  required user user_not_found
  active ← c.active_gamble
  ensure_no_active_gamble active
  ids ← validate_gamble_bets c bets
  stake_steps c inv bets ids c.create_gamble

-- `StartGamble`
unfoldable pub start_gamble :
    Calls → Inventory → List BetRequest → Result (List LootboxBet) × Inventory
unfolding start_steps
start_gamble c inv requests = transact inv (start_steps c inv requests)

abbrev pub is_joining : GambleState → Bool
is_joining joining = true
is_joining _ = false

-- `getAndValidateActiveGamble`
unfoldable pub get_and_validate_active_gamble : Calls → Result Gamble
get_and_validate_active_gamble c = do
  found ← c.get_gamble
  g ← required found gamble_not_found
  fail_if (not (is_joining g.state)) not_in_joining_state
  fail_if (ltb g.join_deadline c.now) join_deadline_passed
  ok g

-- The initiator's bets, which a joiner has to match.
abbrev pub initiator_bets : ℕ → List Participant → List LootboxBet
initiator_bets initiator [] = []
initiator_bets initiator (p ∷ ps) =
    if p.user_id == initiator then p.lootbox_bets else initiator_bets initiator ps

abbrev pub some_bets : List LootboxBet → Result (List LootboxBet)
some_bets [] = err gamble_not_found
some_bets (b ∷ bs) = ok (b ∷ bs)

-- The body of `JoinGamble`.
unfoldable pub join_steps : Calls → Inventory → Result (List LootboxBet × Inventory)
join_steps c inv = do
  user ← c.get_user
  required user user_not_found
  g ← get_and_validate_active_gamble c
  bets ← some_bets (initiator_bets g.initiator_id g.participants)
  ids ← validate_gamble_bets c bets
  stake_steps c inv bets ids (ok tt)

-- `JoinGamble`
unfoldable pub join_gamble : Calls → Inventory → Result (List LootboxBet) × Inventory
unfolding join_steps
join_gamble c inv = transact inv (join_steps c inv)

-- The inner loops of `refundGamble`: a bet goes to the first slot of its item, of any quality, or
-- to a new slot without a quality. A bet whose item is not resolved is passed over.
unfoldable pub add_to_item : Inventory → ℕ → ℕ → Inventory
add_to_item [] id n = slot id n unset ∷ []
add_to_item (s ∷ ss) id n =
    let rest = add_to_item ss id n in if s.item_id == id then add_quantity s n ∷ ss else s ∷ rest

unfoldable pub refund_bets : Calls → Inventory → List LootboxBet → Inventory
refund_bets c inv [] = inv
refund_bets c inv (b ∷ bs) = elim (resolve_lootbox_bet c b) [
  | err e ↦ refund_bets c inv bs
  | ok id ↦ refund_bets c (add_to_item inv id b.quantity) bs
]

-- `itemsToAdd` of awardItemsToWinner, as an association list.
abbrev pub add_entry : ℕ → ℕ → List (ℕ × ℕ) → List (ℕ × ℕ)
add_entry id n [] = (id, n) ∷ []
add_entry id n ((k, m) ∷ es) = if k == id then (k, m + n) ∷ es else (k, m) ∷ add_entry id n es

unfoldable pub items_to_add : List GambleOpenedItem → List (ℕ × ℕ) → List (ℕ × ℕ)
items_to_add [] es = es
items_to_add (x ∷ xs) es = items_to_add xs (add_entry x.item_id x.quantity es)

abbrev pub lookup : ℕ → List (ℕ × ℕ) → ℕ
lookup id [] = 0
lookup id ((k, m) ∷ es) = if k == id then m else lookup id es

abbrev pub delete : ℕ → List (ℕ × ℕ) → List (ℕ × ℕ)
delete id [] = []
delete id ((k, m) ∷ es) = let rest = delete id es in if k == id then es else (k, m) ∷ rest

-- The loop over the slots: the inventory, and the entries that are left. An entry that is missing
-- adds nothing.
unfoldable pub award_slots : Inventory → List (ℕ × ℕ) → Inventory × List (ℕ × ℕ)
award_slots [] es = ([], es)
award_slots (s ∷ ss) es =
    let (inv, left) = award_slots ss (delete s.item_id es) in
    (add_quantity s (lookup s.item_id es) ∷ inv, left)

-- `sort.Ints`
abbrev pub insert_entry : ℕ × ℕ → List (ℕ × ℕ) → List (ℕ × ℕ)
insert_entry e [] = e ∷ []
insert_entry e (f ∷ fs) =
    let rest = insert_entry e fs in if leb e.0 f.0 then e ∷ f ∷ fs else f ∷ rest

unfoldable pub sort_entries : List (ℕ × ℕ) → List (ℕ × ℕ)
sort_entries [] = []
sort_entries (e ∷ es) = insert_entry e (sort_entries es)

abbrev pub new_slots : List (ℕ × ℕ) → Inventory
new_slots [] = []
new_slots ((id, n) ∷ es) = slot id n unset ∷ new_slots es

-- `awardItemsToWinner`
unfoldable pub award_items : Inventory → List GambleOpenedItem → Inventory
unfolding items_to_add award_slots sort_entries
award_items inv opened =
    let (inv', left) = award_slots inv (items_to_add opened []) in
    inv' ++ new_slots (sort_entries left)
