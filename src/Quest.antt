-- ===== src/Quest.antt =====
-- internal/quest/service.go: weekly quests, progress on events, and the claim of a reward.
--
-- The store is the tables quests and quest_progress (migrations/0017_create_quests.sql); its
-- operations are the queries of internal/database/queries/quest.sql. Nothing here runs in a
-- transaction. Whether an instant is set is all that the code reads of completed_at and claimed_at.
-- Rows are read in the order of the table, where the queries order them by quest or completion, and the
-- experience of a reward is left out, as are published events, logging and the stored state of the reset.
pub mod Rounds
pub mod Advance
pub mod Earned
pub mod Reached
pub mod Runs
pub mod Weekly
use brandish_bot_go.Prelude.{
  ℕ, suc, ◌+◌, ◌*◌, Bool, true, false, not, ◌&&◌, ◌||◌, Option, none, some, List, [], ◌∷◌, ◌++◌,
  length, take, map, ltb, leb, ◌==◌, if◌then◌else◌,
}
use brandish_bot_go.Failure.{
  Result, ok, err, storage, quest_pool_too_small, quest_not_claimable, fail_if,
}
use brandish_bot_go.Stateful.{Run, ◌>>=◌, ◌>>◌, return, lift, get, modify, run_if, continue}

pub data QuestType : Type 0 where
  buy_items sell_items earn_money craft_recipe perform_searches unknown_type : QuestType

pub record QuestTemplate : Type 0 where
  pub quest_key : ℕ
  pub quest_type : QuestType
  pub target_category : Option ℕ
  pub target_recipe_key : Option ℕ
  pub base_requirement : ℕ
  pub base_reward_money : ℕ

pub record Quest : Type 0 where
  pub quest_id : ℕ
  pub template : QuestTemplate
  pub active : Bool
  pub week_number : ℕ
  pub year : ℕ

-- A row of quest_progress.
pub record ProgressRow : Type 0 where
  pub user_id : ℕ
  pub quest_id : ℕ
  pub progress_current : ℕ
  pub progress_required : ℕ
  pub reward_money : ℕ
  pub completed : Bool
  pub claimed : Bool

-- A row joined with its quest.
pub record QuestProgress : Type 0 where
  pub row : ProgressRow
  pub template : QuestTemplate

pub record Store : Type 0 where
  pub quests : List Quest
  pub progress : List ProgressRow
  pub next_id : ℕ  -- the next value of the serial quest_id

-- `equal_fold` is strings.EqualFold, `shuffle` what rand.Shuffle makes of a list for a seed.
pub record Calls : Type 0 where
  pub read : Result (Unit {0})
  pub increment : ℕ → Result (Unit {0})
  pub complete : ℕ → Result (Unit {0})
  pub claim : Result (Unit {0})
  pub delete : Result (Unit {0})
  pub create : ℕ → Result (Unit {0})
  pub equal_fold : ℕ → ℕ → Bool
  pub shuffle : ℕ → List QuestTemplate → List QuestTemplate

-- A write of the storage that answers `r`.
abbrev pub written : Result (Unit {0}) → (Store → Store) → Run Store (Unit {0})
written (err e) f = lift (err e)
written (ok u) f = modify f

unfoldable pub find_quest : ℕ → List Quest → Option Quest
find_quest id [] = none
find_quest id (q ∷ qs) = if q.quest_id == id then some q else find_quest id qs

abbrev pub is_key : ℕ → ℕ → ProgressRow → Bool
is_key user id r = r.user_id == user && r.quest_id == id

-- An UPDATE of the row of a user and quest.
unfoldable pub update_row :
    ℕ → ℕ → (ProgressRow → ProgressRow) → List ProgressRow → List ProgressRow
update_row user id f [] = []
update_row user id f (r ∷ rs) = (if is_key user id r then f r else r) ∷ update_row user id f rs

abbrev pub on_progress : (List ProgressRow → List ProgressRow) → Store → Store
on_progress f s = record s { progress = f s.progress }

abbrev pub incremented : ℕ → ProgressRow → ProgressRow
incremented n r = record r { progress_current = r.progress_current + n }

abbrev pub completing : ProgressRow → ProgressRow
completing r = record r { completed = true }

abbrev pub claiming : ProgressRow → ProgressRow
claiming r = record r { claimed = true }

-- `IncrementQuestProgress`, `CompleteQuest`, `ClaimQuestReward` of the storage. The last two change
-- nothing in a row that is marked already.
abbrev pub increment_quest_progress : ℕ → ℕ → ℕ → Store → Store
increment_quest_progress user id n = on_progress (update_row user id (incremented n))

abbrev pub complete_quest : ℕ → ℕ → Store → Store
complete_quest user id = on_progress (update_row user id completing)

abbrev pub claim_quest : ℕ → ℕ → Store → Store
claim_quest user id = on_progress (update_row user id claiming)

-- The rows of a user that a test on the row and its quest lets through, with their quests.
abbrev pub joined :
    (ProgressRow → Quest → Bool)
    → ProgressRow
    → Option Quest
    → List QuestProgress
    → List QuestProgress
joined test r none rest = rest
joined test r (some q) rest =
    if test r q then record { row = r; template = q.template } ∷ rest else rest

unfoldable pub select_progress :
    (ProgressRow → Quest → Bool) → ℕ → List Quest → List ProgressRow → List QuestProgress
select_progress test user qs [] = []
select_progress test user qs (r ∷ rs) =
    let rest = select_progress test user qs rs in
    if r.user_id == user then joined test r (find_quest r.quest_id qs) rest else rest

-- `GetUserActiveQuestProgress`
unfoldable pub get_user_active_quest_progress : ℕ → Store → List QuestProgress
unfolding select_progress
get_user_active_quest_progress user s = select_progress (λ r q. q.active) user s.quests s.progress

-- `GetUnclaimedCompletedQuests`
unfoldable pub get_unclaimed_completed_quests : ℕ → Store → List QuestProgress
unfolding select_progress
get_unclaimed_completed_quests user s =
    select_progress (λ r q. r.completed && not r.claimed) user s.quests s.progress

-- `incrementAndCheckCompletion`
abbrev pub new_progress : ProgressRow → ℕ → ℕ
new_progress r n =
    if ltb r.progress_required (r.progress_current + n)
    then r.progress_required
    else r.progress_current + n

abbrev pub increment_and_check_completion : Calls → ℕ → ProgressRow → ℕ → Run Store (Unit {0})
increment_and_check_completion c user r n =
    written (c.increment r.quest_id) (increment_quest_progress user r.quest_id n)
    >> run_if (leb r.progress_required (new_progress r n))
        (written (c.complete r.quest_id) (complete_quest user r.quest_id))

-- `matchesCategoryFilter`
abbrev pub matches_category_filter : Calls → ℕ → Option ℕ → Bool
matches_category_filter c category none = true
matches_category_filter c category (some wanted) = c.equal_fold category wanted

abbrev pub matches_recipe : Calls → ℕ → Option ℕ → Bool
matches_recipe c key none = false
matches_recipe c key (some wanted) = c.equal_fold key wanted

-- What an event counts for a quest, if it counts.
pub data Event : Type 0 where
  item_bought : (category quantity : ℕ) → Event
  item_sold : (category quantity money_earned : ℕ) → Event
  recipe_crafted : (recipe_key quantity : ℕ) → Event
  search_performed : Event

abbrev pub only_if : Bool → ℕ → Option ℕ
only_if true n = some n
only_if false n = none

abbrev pub amount : Calls → Event → QuestType → QuestTemplate → Option ℕ
amount c (item_bought category n) buy_items t =
    only_if (matches_category_filter c category t.target_category) n
amount c (item_sold category n money) sell_items t =
    only_if (matches_category_filter c category t.target_category) n
amount c (item_sold category n money) earn_money t = some money
amount c (recipe_crafted key n) craft_recipe t =
    only_if (matches_recipe c key t.target_recipe_key) n
amount c search_performed perform_searches t = some 1
amount c _ _ t = none

-- The loops of `OnItemBought`, `OnItemSold`, `OnRecipeCrafted` and `OnSearch`.
abbrev pub advance : Calls → ℕ → ProgressRow → Option ℕ → Run Store (Unit {0})
advance c user r none = return tt
advance c user r (some n) = increment_and_check_completion c user r n

unfoldable pub on_each : Calls → ℕ → Event → List QuestProgress → Run Store (Unit {0})
on_each c user e [] = return tt
on_each c user e (qp ∷ qps) =
    advance c user qp.row
      (if qp.row.completed then none else amount c e qp.template.quest_type qp.template)
    >> on_each c user e qps

unfoldable pub on_event : Calls → ℕ → Event → Run Store (Unit {0})
unfolding on_each get_user_active_quest_progress
on_event c user e =
    lift c.read >> (get >>= λ s. on_each c user e (get_user_active_quest_progress user s))

abbrev on_item_bought : Calls → ℕ → ℕ → ℕ → Run Store (Unit {0})
on_item_bought c user category n = on_event c user (item_bought category n)

abbrev on_item_sold : Calls → ℕ → ℕ → ℕ → ℕ → Run Store (Unit {0})
on_item_sold c user category n money = on_event c user (item_sold category n money)

abbrev on_recipe_crafted : Calls → ℕ → ℕ → ℕ → Run Store (Unit {0})
on_recipe_crafted c user key n = on_event c user (recipe_crafted key n)

abbrev on_search : Calls → ℕ → Run Store (Unit {0})
on_search c user = on_event c user search_performed

-- `ClaimQuestReward`
unfoldable pub find_target : ℕ → List QuestProgress → Option ProgressRow
find_target id [] = none
find_target id (qp ∷ qps) = if qp.row.quest_id == id then some qp.row else find_target id qps

abbrev pub claim_target : Calls → ℕ → ℕ → Option ProgressRow → Run Store ℕ
claim_target c user id none = lift (err quest_not_claimable)
claim_target c user id (some r) = written c.claim (claim_quest user id) >> return r.reward_money

unfoldable pub claim_quest_reward : Calls → ℕ → ℕ → Run Store ℕ
unfolding find_target get_unclaimed_completed_quests
claim_quest_reward c user id =
    lift c.read
    >> (get >>= λ s.
        claim_target c user id (find_target id (get_unclaimed_completed_quests user s)))

-- `CreateQuest` of the storage: a key that is there already violates the unique constraint.
unfoldable pub has_key : ℕ → List Quest → Bool
has_key key [] = false
has_key key (q ∷ qs) = q.template.quest_key == key || has_key key qs

abbrev pub with_quest : ℕ → ℕ → QuestTemplate → Store → Store
with_quest year week t s = record s {
  quests =
      s.quests
      ++ (record {
        quest_id = s.next_id;
        template = t;
        active = true;
        week_number = week;
        year = year;
      }
          ∷ []);
  next_id = suc s.next_id;
}

abbrev pub create_quest : ℕ → ℕ → QuestTemplate → Run Store (Unit {0})
create_quest year week t = get >>= λ s.
    lift (fail_if (has_key t.quest_key s.quests) storage) >> modify (with_quest year week t)

unfoldable pub create_all : Calls → ℕ → ℕ → List QuestTemplate → Run Store (Unit {0})
create_all c year week [] = return tt
create_all c year week (t ∷ ts) =
    lift (c.create t.quest_key) >> create_quest year week t >> create_all c year week ts

-- `GenerateWeeklyQuests`, with the pool of templates that was loaded.
unfoldable pub generate_weekly_quests : Calls → List QuestTemplate → ℕ → ℕ → Run Store (Unit {0})
unfolding create_all
generate_weekly_quests c pool year week =
    lift (fail_if (ltb (length pool) 3) quest_pool_too_small)
    >> create_all c year week (take 3 (c.shuffle (year * 100 + week) pool))

-- `DeleteAllQuests`: the rows of progress go with their quests.
abbrev pub delete_all_quests : Store → Store
delete_all_quests s = record s { quests = []; progress = [] }

-- `ResetWeeklyQuests`
unfoldable pub reset_weekly_quests : Calls → List QuestTemplate → ℕ → ℕ → Run Store (Unit {0})
unfolding generate_weekly_quests
reset_weekly_quests c pool year week =
    written c.delete delete_all_quests >> generate_weekly_quests c pool year week
