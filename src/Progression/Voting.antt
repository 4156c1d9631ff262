-- ===== src/Progression/Voting.antt =====
-- internal/progression/voting_logic.go, and validateVotingSession of voting.go.
pub mod Winner
use brandish_bot_go.Prelude.{
  ℕ, zero, suc, ◌-◌, Bool, true, false, ◌&&◌, ◌||◌, not, Option, none, some, List, [], ◌∷◌, length,
  get_elem?, take, ltb, leb, ◌==◌, if◌then◌else◌,
}
use brandish_bot_go.Prelude.Int.{ℤ, pos, negsuc, pos_part, ltb_ℤ}
use brandish_bot_go.Failure.{
  Result, ok, err, no_voting_session, invalid_option_index, panic, fail_if, required, ◌>>=◌, ◌>>◌,
}
use brandish_bot_go.Shuffle.{shuffle_from}

-- The fields of `domain.ProgressionVotingOption` that the vote reads.
pub record VotingOption : Type 0 where
  pub id : ℕ
  pub node_id : ℕ
  pub target_level : ℕ
  pub vote_count : ℕ
  pub last_highest_vote_at : Option ℕ

pub data VotingStatus : Type 0 where
  voting frozen completed : VotingStatus

pub record VotingSession : Type 0 where
  pub id : ℕ
  pub status : VotingStatus
  pub options : List VotingOption

-- `selectRandomNodes`. `none` is a draw out of range, a panic.
unfoldable pub select_random_nodes {ℓ} : {A : Type ℓ} → List A → ℕ → (ℕ → ℕ) → Option (List A)
select_random_nodes nodes count rng =
    if leb (length nodes) count
    then some nodes
    else elim (shuffle_from (length nodes - 1) rng nodes) [
      | none ↦ none
      | some shuffled ↦ some (take count shuffled)
    ]

-- The loop that looks for a vote.
abbrev pub all_zero_votes : List VotingOption → Bool
all_zero_votes [] = true
all_zero_votes (o ∷ os) = if ltb 0 o.vote_count then false else all_zero_votes os

-- The tie-breaker on `LastHighestVoteAt`.
abbrev pub earlier : Option ℕ → Option ℕ → Bool
earlier none at = false
earlier (some t) none = true
earlier (some t) (some s) = ltb t s

-- Whether an option takes the place of the winner so far.
abbrev pub beats : VotingOption → VotingOption → Bool
beats o w =
    if ltb w.vote_count o.vote_count
    then true
    else (o.vote_count == w.vote_count) && earlier o.last_highest_vote_at w.last_highest_vote_at

unfoldable pub winner_from : VotingOption → List VotingOption → VotingOption
winner_from w [] = w
winner_from w (o ∷ os) = winner_from (if beats o w then o else w) os

abbrev pub by_votes : List VotingOption → Result (Option VotingOption)
by_votes [] = ok none
by_votes (o ∷ os) = ok (some (winner_from o os))

-- `findWinningOption`; nil is `none`.
unfoldable pub find_winning_option : List VotingOption → (ℕ → ℕ) → Result (Option VotingOption)
unfolding winner_from
find_winning_option [] rng = ok none
find_winning_option (o ∷ os) rng =
    if all_zero_votes (o ∷ os)
    then (do w ← required (get_elem? (o ∷ os) (rng (length (o ∷ os)))) panic; ok (some w))
    else by_votes (o ∷ os)

abbrev pub is_voting : VotingStatus → Bool
is_voting voting = true
is_voting frozen = false
is_voting completed = false

-- `validateVotingSession`
unfoldable pub validate_voting_session :
    Result (Option VotingSession) → ℤ → Result (VotingSession × VotingOption)
validate_voting_session read index = do
  found ← read
  session ← required found no_voting_session
  fail_if (not (is_voting session.status)) no_voting_session
  fail_if (ltb_ℤ index (pos 1) || ltb_ℤ (pos (length session.options)) index) invalid_option_index
  option ← required (get_elem? session.options (pos_part index - 1)) panic
  ok (session, option)
