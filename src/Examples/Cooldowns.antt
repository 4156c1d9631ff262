-- ===== src/Examples/Cooldowns.antt =====
-- The theorems on cooldowns at concrete interleavings.
use brandish_bot_go.Prelude.{◌≡◌, refl, true, Option, none, some, List, [], ◌∷◌}
use brandish_bot_go.Cooldown.{
  State, Move, tick, check, acquire, recheck, execute, stamp, commit, step, run, initial,
  check_cooldown_internal,
}
use brandish_bot_go.Cooldown.Invariant.{IsSpaced, is_critical}
use brandish_bot_go.Cooldown.Spacing.{run-IsSpaced}

-- Requests 1 and 2 both pass the check without the lock; 2 is rejected with the lock, and comes
-- back when the cooldown of 30 is over.
abbrev race : List Move
race =
    check 1
    ∷ check 2
    ∷ acquire 1
    ∷ recheck 1
    ∷ execute 1
    ∷ tick 3
    ∷ stamp 1
    ∷ commit 1
    ∷ acquire 2
    ∷ recheck 2
    ∷ tick 30
    ∷ check 2
    ∷ acquire 2
    ∷ recheck 2
    ∷ execute 2
    ∷ stamp 2
    ∷ commit 2
    ∷ []

abbrev or_initial : Option State → State
or_initial none = initial 0
or_initial (some s) = s

abbrev final : State
final = or_initial (run 30 (initial 100) race)

is_final : run 30 (initial 100) race ≡ some final
unfolding run step check_cooldown_internal
is_final = refl

final-uses : final.uses ≡ 133 ∷ 103 ∷ []
unfolding run step check_cooldown_internal
final-uses = refl

run-IsSpaced_example : IsSpaced 30 final.uses
run-IsSpaced_example = run-IsSpaced 30 100 race final is_final

abbrev entering : List Move
entering = check 1 ∷ check 2 ∷ acquire 1 ∷ recheck 1 ∷ []

abbrev entered : State
entered = or_initial (run 30 (initial 100) entering)

is_entered : run 30 (initial 100) entering ≡ some entered
unfolding run step check_cooldown_internal
is_entered = refl

entered-critical : is_critical (entered.phase 1) ≡ true
unfolding run step check_cooldown_internal
entered-critical = refl
