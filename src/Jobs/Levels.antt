-- ===== src/Jobs/Levels.antt =====
-- The level of an amount of experience.
use brandish_bot_go.Prelude.{
  ℕ, zero, suc, ◌+◌, ◌≤◌, ◌<◌, ◌≡◌, refl, ltb, ◌==◌, arith, Bool-cases, ◌⊎◌, inl, inr,
}
use brandish_bot_go.Jobs.{
  base_xp, max_iteration_level, get_xp_for_level, climb, calculate_level_and_next_xp,
}

module _ (curve : ℕ → ℕ) where
  -- A level with its start and that of the next one, for an amount of experience.
  abbrev pub IsLevelOf : ℕ → ℕ × ℕ × ℕ → Type 0
  IsLevelOf total (level, start, next) =
      (start ≡ get_xp_for_level curve level)
      × (start ≤ total)
      × (next ≡ get_xp_for_level curve (suc level))
      × (level ≤ max_iteration_level)
      × ((level ≡ max_iteration_level) ⊎ (total < next))

  climb_lem :
      (turns level total : ℕ)
      → turns + level ≡ max_iteration_level
      → get_xp_for_level curve level ≤ total
      → IsLevelOf total (climb curve turns level (get_xp_for_level curve level) total)
  unfolding climb get_xp_for_level
  climb_lem zero level total e h = (refl, h, refl, omega arith, inl (omega arith))
  climb_lem (suc turns) level total e h =
      let up : ℕ = get_xp_for_level curve level + curve (suc level) in
      elim (Bool-cases (ltb total up)) [
        | inl here ↦ rw here (refl, h, refl, omega arith, inr (ground arith))
        | inr on ↦ rw on (climb_lem turns (suc level) total (omega arith) (ground arith))
      ]

  -- Where the curve starts at BaseXP, the level of any experience has been reached and, below the
  -- last level, the next one has not; both bounds are those of GetXPForLevel.
  pub calculate_level-IsLevelOf :
      (total : ℕ) → curve 1 ≡ base_xp → IsLevelOf total (calculate_level_and_next_xp curve total)
  unfolding calculate_level_and_next_xp get_xp_for_level
  calculate_level-IsLevelOf total first = elim (Bool-cases (total == 0)) [
    | inl none_yet ↦
        rw none_yet
          (refl, omega arith, omega (arith, first), omega arith, inr (ground (arith, first)))
    | inr some_xp ↦ rw some_xp (climb_lem max_iteration_level 0 total (omega arith) (omega arith))
  ]
