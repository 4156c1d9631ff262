-- ===== src/Examples/Progress.antt =====
-- The theorems on levels and awards, with a curve of 250 for each level.
use brandish_bot_go.Prelude.{ℕ, ◌*◌, refl, true, false}
use brandish_bot_go.Failure.{ok}
use brandish_bot_go.Jobs
use brandish_bot_go.Jobs.{calculate_level_and_next_xp}
use brandish_bot_go.Jobs.Levels.{IsLevelOf, calculate_level-IsLevelOf}

abbrev curve : ℕ → ℕ
curve n = 250 * n

abbrev calls : Jobs.Calls
calls = record {
  is_node_unlocked = ok true;
  disable_xp_gains = false;
  get_job = ok tt;
  get_user_job = ok tt;
  actual_xp = λ n. n * 2;
  daily_cap = 500;
  max_job_level = 10;
  upsert_user_job = ok tt;
}

calculate_level-IsLevelOf_example : IsLevelOf curve 800 (calculate_level_and_next_xp curve 800)
calculate_level-IsLevelOf_example = calculate_level-IsLevelOf curve 800 refl
