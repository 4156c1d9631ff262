-- ===== src/Jobs/Awards.antt =====
-- What an award does to the stored progress.
use brandish_bot_go.Prelude.{ℕ, ◌+◌, ◌≤◌, ◌<◌, ◌≡◌, true, Option, none, some, ltb, ◌⊎◌}
use brandish_bot_go.Failure.{Result, ok, err}
use brandish_bot_go.Jobs.{
  Calls, UserJob, Source, rare_candy, harvest, other, XpAwardResult, calculate_level,
}

module _ (curve : ℕ → ℕ) (c : Calls) (stored : Option UserJob) (base : ℕ) where
  -- What is stored before: nothing of a job that is new.
  abbrev before : (UserJob → ℕ) → ℕ
  before field = elim stored [ none ↦ 0 | some job ↦ field job ]

  abbrev gained_today : ℕ
  gained_today = before UserJob.xp_gained_today

  -- The whole amount within the cap of the day or what is left up to it, but from the sources that
  -- are not capped.
  abbrev pub IsCapped : Source → ℕ → Type 0
  IsCapped rare_candy amount = amount ≡ c.actual_xp base
  IsCapped harvest amount = amount ≡ c.actual_xp base
  IsCapped other amount =
      ((amount ≡ c.actual_xp base) × (gained_today + amount ≤ c.daily_cap))
      ⊎ ((0 < amount) × (amount < c.actual_xp base) × (gained_today + amount ≡ c.daily_cap))

  -- The level that the experience has reached, or the cap below it.
  abbrev pub IsReached : ℕ → ℕ → Type 0
  IsReached xp level =
      (level ≤ c.max_job_level)
      × (level ≤ calculate_level curve xp)
      × ((level ≡ c.max_job_level) ⊎ (level ≡ calculate_level curve xp))

  -- What AwardXP leaves behind, by how it ends.
  abbrev pub AwardOutcome : Source → Result XpAwardResult × Option UserJob → Type 0
  AwardOutcome source (err e, stored') = stored' ≡ stored
  AwardOutcome source (ok r, stored') =
      ((c.disable_xp_gains ≡ true) × (stored' ≡ stored) × (r.xp_gained ≡ 0))
      ⊎ (IsCapped source r.xp_gained
          × (r.new_xp ≡ before UserJob.current_xp + r.xp_gained)
          × IsReached r.new_xp r.new_level
          × (r.leveled_up ≡ ltb (before UserJob.current_level) r.new_level)
          × ((job : UserJob) × (stored' ≡ some job)
              × (job.current_xp ≡ r.new_xp)
              × (job.current_level ≡ r.new_level)
              × (job.xp_gained_today ≡ gained_today + r.xp_gained)))
