-- ===== src/Examples/Quests.antt =====
-- The theorems on quests at a concrete quest with one row of progress.
use brandish_bot_go.Prelude.{
  ◌≡◌, ◌≤◌, refl, true, false, none, List, [], ◌∷◌, map, IsIn, arith, ◌==◌,
}
use brandish_bot_go.Failure.{Error, ok, err}
use brandish_bot_go.Quest
use brandish_bot_go.Quest.{
  QuestTemplate, ProgressRow, Store, perform_searches, search_performed, select_progress,
  find_quest, update_row, on_each, on_event, find_target, claim_quest_reward, has_key, create_all,
  generate_weekly_quests, reset_weekly_quests, get_user_active_quest_progress,
  get_unclaimed_completed_quests,
}
use brandish_bot_go.Quest.Rounds.{Answers, advanced}
use brandish_bot_go.Quest.Advance.{on_event-advanced}
use brandish_bot_go.Quest.Earned.{IsClaimable}
use brandish_bot_go.Quest.Runs.{event, run_ops, claim_quest_reward-earned}
use brandish_bot_go.Quest.Weekly.{reset_weekly_quests-no_claims}

abbrev calls : Quest.Calls
calls = record {
  read = ok tt;
  increment = λ id. ok tt;
  complete = λ id. ok tt;
  claim = ok tt;
  delete = ok tt;
  create = λ key. ok tt;
  equal_fold = λ a b. a == b;
  shuffle = λ seed ts. ts;
}

all_answer : Answers calls
all_answer = record { reads = refl; increments = λ id. refl; completes = λ id. refl }

abbrev searches : QuestTemplate
searches = record {
  quest_key = 1;
  quest_type = perform_searches;
  target_category = none;
  target_recipe_key = none;
  base_requirement = 3;
  base_reward_money = 50;
}

abbrev begun : ProgressRow
begun = record {
  user_id = 1;
  quest_id = 5;
  progress_current = 2;
  progress_required = 3;
  reward_money = 50;
  completed = false;
  claimed = false;
}

abbrev week : Store
week = record {
  quests =
      record { quest_id = 5; template = searches; active = true; week_number = 7; year = 2025 }
      ∷ [];
  progress = begun ∷ [];
  next_id = 6;
}

on_event-advanced_example : on_event calls 1 search_performed week ≡ (
  ok tt,
  record week { progress = map (advanced calls 1 search_performed week.quests) (begun ∷ []) },
)
on_event-advanced_example = on_event-advanced calls all_answer 1 search_performed week (tt, tt)

abbrev searched : Store
searched = run_ops (event calls 1 search_performed ∷ []) week

abbrev paid : Store
paid = (claim_quest_reward calls 1 5 searched).1

was_paid : claim_quest_reward calls 1 5 searched ≡ (ok 50, paid)
unfolding claim_quest_reward on_event find_quest update_row
was_paid = refl

claim_quest_reward-earned_example :
    (r : ProgressRow) × IsIn r searched.progress
    × IsClaimable 1 5 r
    × (50 ≡ r.reward_money)
    × (r.progress_required ≤ r.progress_current)
claim_quest_reward-earned_example =
    claim_quest_reward-earned calls (event calls 1 search_performed ∷ []) 1 5 50 week paid
      ((tt, tt), (λ h. absurd (ground (arith, h)), tt)) was_paid

abbrev pool : List QuestTemplate
pool = searches ∷ record searches { quest_key = 2 } ∷ record searches { quest_key = 3 } ∷ []

abbrev renewed : Store
renewed = (reset_weekly_quests calls pool 2025 8 week).1

was_reset : reset_weekly_quests calls pool 2025 8 week ≡ (ok tt, renewed)
unfolding reset_weekly_quests has_key
was_reset = refl

reset_weekly_quests-no_claims_example :
    (e : Error) × (claim_quest_reward calls 1 6
        (run_ops (event calls 1 search_performed ∷ []) renewed)
      ≡ (err e, run_ops (event calls 1 search_performed ∷ []) renewed))
reset_weekly_quests-no_claims_example =
    reset_weekly_quests-no_claims calls calls pool 2025 8 week renewed
      (event calls 1 search_performed ∷ []) 1 6 was_reset
