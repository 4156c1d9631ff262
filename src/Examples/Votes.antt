-- ===== src/Examples/Votes.antt =====
-- The theorems on the progression at concrete votes, caches and modifiers.
use brandish_bot_go.Prelude.{
  ℕ, ◌+◌, ◌-◌, ◌*◌, ◌≡◌, ◌⊎◌, refl, true, none, some, List, [], ◌∷◌, IsIn, ltb, ◌==◌, if◌then◌else◌,
  arith,
}
use brandish_bot_go.Failure.{ok}
use brandish_bot_go.Progression.Voting.{VotingOption, find_winning_option}
use brandish_bot_go.Progression.Voting.Winner.{StandsBefore, find_winning_option-StandsBefore}
use brandish_bot_go.Progression.Unlocks.{UnlockCache, are_items_unlocked}
use brandish_bot_go.Progression.Unlocks.Batch.{BatchOutcome, are_items_unlocked-BatchOutcome}
use brandish_bot_go.Progression.Modifiers.{
  Floats, BonusConfig, ValueModifier, Sources, linear, progression, collect_modifiers,
  get_all_modifiers_for_feature, get_modified_value,
}
use brandish_bot_go.Progression.Modifiers.Cached.{Call, after_calls, get_modified_value-cached}

abbrev early : VotingOption
early = record {
  id = 1;
  node_id = 1;
  target_level = 1;
  vote_count = 3;
  last_highest_vote_at = some 5;
}

abbrev late : VotingOption
late = record early { id = 2; last_highest_vote_at = some 9 }

find_winning_option-StandsBefore_example :
    (w : VotingOption) × (find_winning_option (late ∷ early ∷ []) (λ n. n - 1) ≡ ok (some w))
    × IsIn w (late ∷ early ∷ [])
    × ((p : VotingOption) → IsIn p (late ∷ early ∷ []) → (p.vote_count ≡ 0) ⊎ StandsBefore w p)
find_winning_option-StandsBefore_example =
    find_winning_option-StandsBefore late (early ∷ []) (λ n. n - 1) (λ n h. omega (arith, h))

abbrev half_known : UnlockCache
half_known = λ n l. if n == 7 then some true else none

are_items_unlocked-BatchOutcome_example :
    BatchOutcome
      (λ i. i)
      (λ n l. ok true)
      (7 ∷ 8 ∷ [])
      (are_items_unlocked (λ i. i) (λ n l. ok true) half_known (7 ∷ 8 ∷ []))
are_items_unlocked-BatchOutcome_example =
    are_items_unlocked-BatchOutcome (λ i. i) (λ n l. ok true) half_known (7 ∷ 8 ∷ [])
      (λ n l u h. ground (arith, h))

abbrev numbers : Floats ℕ
numbers = record {
  add = λ a b. a + b;
  mul = λ a b. a * b;
  of_int = λ n. n;
  min = λ a b. if ltb a b then a else b;
  max = λ a b. if ltb a b then b else a;
}

abbrev doubled : BonusConfig ℕ
doubled = record {
  node_key = 1;
  source_type = progression;
  modifier_type = linear;
  base_value = 0;
  per_level_value = 10;
  progression_level = 2;
  max_value = none;
  min_value = none;
}

abbrev bonus_of : Sources ℕ
bonus_of = record { get_bonus_modifiers = λ k. ok (doubled ∷ []); get_job_level = none; ttl = 60 }

abbrev at_two : ValueModifier ℕ
at_two = record { config = doubled; current_level = 2 }

found : get_all_modifiers_for_feature bonus_of 1 3 ≡ ok (at_two ∷ [])
unfolding get_all_modifiers_for_feature collect_modifiers
found = refl

-- Another feature's value is cached, and the feature itself is read.
abbrev calls_between : List (Call numbers bonus_of)
calls_between = (105, 2, 4, 50) ∷ (110, 3, 3, 60) ∷ []

get_modified_value-cached_example :
    let (r, cache1) = get_modified_value numbers bonus_of (λ k. none) 100 1 3 5 in
    let cache2 = after_calls numbers bonus_of calls_between cache1 in
    get_modified_value numbers bonus_of cache2 120 2 3 700 ≡ (r, cache2)
get_modified_value-cached_example =
    get_modified_value-cached numbers bonus_of (λ k. none) 100 120 1 2 3 5 700 at_two []
      calls_between refl found (omega arith, (omega arith, tt)) (omega arith)
