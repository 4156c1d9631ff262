-- ===== src/Jobs.antt =====
-- internal/job/level.go and xp.go: levels from experience, and awards with the daily cap.
--
-- `curve n` is `int64(BaseXP * math.Pow(n, LevelExponent))`, a parameter. Experience and amounts are
-- natural numbers. `Calls` holds the answers of the repository and of the progression service.
pub mod Levels
pub mod Awards
use brandish_bot_go.Prelude.{
  ℕ, zero, suc, ◌+◌, ◌-◌, Bool, true, false, not, ◌||◌, Option, none, some, ltb, leb, ◌==◌,
  if◌then◌else◌,
}
use brandish_bot_go.Failure.{
  Result, ok, err, storage, feature_locked, daily_cap_reached, fail_if, transact, ◌>>=◌, ◌>>◌,
}

abbrev pub base_xp : ℕ
base_xp = 250

abbrev pub max_iteration_level : ℕ
max_iteration_level = 100

pub record UserJob : Type 0 where
  pub current_xp : ℕ
  pub current_level : ℕ
  pub xp_gained_today : ℕ

pub data Source : Type 0 where
  rare_candy harvest other : Source

pub record Calls : Type 0 where
  pub is_node_unlocked : Result Bool
  pub disable_xp_gains : Bool
  pub get_job : Result (Unit {0})
  pub get_user_job : Result (Unit {0})
  pub actual_xp : ℕ → ℕ  -- calculateActualXP: the multiplier and the epiphany
  pub daily_cap : ℕ
  pub max_job_level : ℕ
  pub upsert_user_job : Result (Unit {0})

pub record XpAwardResult : Type 0 where
  pub xp_gained : ℕ
  pub new_xp : ℕ
  pub new_level : ℕ
  pub leveled_up : Bool

abbrev bypasses : Source → Bool
bypasses rare_candy = true
bypasses harvest = true
bypasses other = false

-- `checkDailyCap`: the amount that is awarded.
unfoldable pub check_daily_cap : Calls → UserJob → ℕ → Source → Result ℕ
check_daily_cap c job amount source =
    if bypasses source
    then ok amount
    else if ltb c.daily_cap (job.xp_gained_today + amount)
    then if leb c.daily_cap job.xp_gained_today
      then err daily_cap_reached
      else ok (c.daily_cap - job.xp_gained_today)
    else ok amount

-- `getOrCreateUserJob`
abbrev pub or_new : Option UserJob → UserJob
or_new none = record { current_xp = 0; current_level = 0; xp_gained_today = 0 }
or_new (some job) = job

-- `updateUserJobProgress`
abbrev pub progressed : UserJob → ℕ → ℕ → ℕ → UserJob
progressed job xp level amount = record {
  current_xp = xp;
  current_level = level;
  xp_gained_today = job.xp_gained_today + amount;
}

-- A result that gains nothing.
abbrev pub nothing_gained : XpAwardResult
nothing_gained = record { xp_gained = 0; new_xp = 0; new_level = 0; leveled_up = false }

module _ (curve : ℕ → ℕ) where
  -- `GetXPForLevel`
  unfoldable pub get_xp_for_level : ℕ → ℕ
  get_xp_for_level zero = 0
  get_xp_for_level (suc n) = get_xp_for_level n + curve (suc n)

  -- The loop of `calculateLevelAndNextXP`, with as many turns left as there are levels up to
  -- MaxIterationLevel: the level, where it starts, and where the next one starts.
  unfoldable pub climb : ℕ → ℕ → ℕ → ℕ → ℕ × ℕ × ℕ
  climb zero level cumulative total = (level, cumulative, cumulative + curve (suc level))
  climb (suc turns) level cumulative total =
      let rest = climb turns (suc level) (cumulative + curve (suc level)) total in
      if ltb total (cumulative + curve (suc level))
      then (level, cumulative, cumulative + curve (suc level))
      else rest

  -- `calculateLevelAndNextXP`
  unfoldable pub calculate_level_and_next_xp : ℕ → ℕ × ℕ × ℕ
  unfolding climb
  calculate_level_and_next_xp total =
      if total == 0 then (0, 0, base_xp) else climb max_iteration_level 0 0 total

  -- `CalculateLevel`
  unfoldable pub calculate_level : ℕ → ℕ
  calculate_level total = (calculate_level_and_next_xp total).0

  -- `calculateNewLevel`
  abbrev pub calculate_new_level : Calls → ℕ → ℕ
  calculate_new_level c xp =
      let level = calculate_level xp in if ltb c.max_job_level level then c.max_job_level else level

  -- The award once XP gains are known to be enabled.
  unfoldable pub award_enabled :
      Calls → Option UserJob → ℕ → Source → Result (XpAwardResult × Option UserJob)
  unfolding check_daily_cap
  award_enabled c stored base source = do
    c.get_job
    c.get_user_job
    let job = or_new stored
    amount ← check_daily_cap c job (c.actual_xp base) source
    let xp = job.current_xp + amount
    let level = calculate_new_level c xp
    c.upsert_user_job
    ok (
      record {
        xp_gained = amount;
        new_xp = xp;
        new_level = level;
        leveled_up = ltb job.current_level level;
      },
      some (progressed job xp level amount),
    )

  -- The body of `AwardXP`.
  unfoldable pub award_steps :
      Calls → Option UserJob → ℕ → Source → Result (XpAwardResult × Option UserJob)
  award_steps c stored base source = do
    unlocked ← c.is_node_unlocked
    fail_if (not unlocked) feature_locked
    if c.disable_xp_gains then ok (nothing_gained, stored) else award_enabled c stored base source

  -- `AwardXP` on the stored progress of the user in the job.
  unfoldable pub award_xp :
      Calls → Option UserJob → ℕ → Source → Result XpAwardResult × Option UserJob
  unfolding award_steps
  award_xp c stored base source = transact stored (award_steps c stored base source)
