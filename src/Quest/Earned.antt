-- ===== src/Quest/Earned.antt =====
-- A reward is paid once, and only for a quest whose requirement was reached.
use brandish_bot_go.Prelude.{
  ℕ, ◌≡◌, refl, ap, ◌∙◌, true, false, not, ◌&&◌, Option, none, some, List, [], ◌∷◌, IsIn, ◌==◌,
  if◌then◌else◌, arith, Bool-cases, Option-cases, inl, inr,
}
use mathlib.Core.Path.{subst}
use brandish_bot_go.Failure.{Error, Result, ok, err, Result-cases}
use brandish_bot_go.Quest.{
  Quest, ProgressRow, Store, Calls, find_quest, is_key, update_row, claiming, select_progress,
  get_unclaimed_completed_quests, claim_quest, find_target, claim_target, claim_quest_reward,
}

-- A row that a claim may pay.
abbrev pub IsClaimable : ℕ → ℕ → ProgressRow → Type 0
IsClaimable user id r =
    (r.user_id ≡ user) × (r.quest_id ≡ id) × (r.completed ≡ true) × (r.claimed ≡ false)

-- What a claim does: an error changes nothing; money is that of a completed row that was not claimed
-- before, and the row is claimed after.
abbrev pub ClaimOutcome : ℕ → ℕ → Store → Result ℕ × Store → Type 0
ClaimOutcome user id s (err e, s') = s' ≡ s
ClaimOutcome user id s (ok money, s') =
    (r : ProgressRow) × IsIn r s.progress
    × IsClaimable user id r
    × (money ≡ r.reward_money)
    × (s' ≡ claim_quest user id s)

target_lem :
    (user id : ℕ) (qs : List Quest) (rs : List ProgressRow) (r : ProgressRow)
    → find_target id (select_progress (λ r q. r.completed && not r.claimed) user qs rs) ≡ some r
    → IsIn r rs × IsClaimable user id r
unfolding find_target select_progress
target_lem user id qs [] r h = cc
target_lem user id qs (x ∷ xs) r h = elim (Bool-cases (x.user_id == user)) [
  | inr other ↦ later (target_lem user id qs xs r (rw other at h))
  | inl mine ↦ elim (Option-cases (find_quest x.quest_id qs)) [
    | inl gone ↦ later (target_lem user id qs xs r (rw (mine, gone) at h))
    | inr (q, found) ↦ elim (Bool-cases (x.completed && not x.claimed)) [
      | inr closed ↦ later (target_lem user id qs xs r (rw (mine, found, closed) at h))
      | inl claimable ↦ elim (Bool-cases (x.quest_id == id)) [
        | inr another ↦
            later (target_lem user id qs xs r (rw (mine, found, claimable, another) at h))
        | inl wanted ↦
            let same : some x ≡ some r = rw (mine, found, claimable, wanted) at h in
            let e : r ≡ x = cc in
            rw e (
              inl refl,
              (
                ground (arith, mine),
                ground (arith, wanted),
                ground (arith, claimable),
                ground (arith, claimable),
              ),
            )
      ]
    ]
  ]
]
  where
    later : IsIn r xs × IsClaimable user id r → IsIn r (x ∷ xs) × IsClaimable user id r
    later (i, k) = (inr i, k)

claim_target_lem :
    (c : Calls) (user id : ℕ) (s : Store) (o : Option ProgressRow)
    → ((r : ProgressRow) → o ≡ some r → IsIn r s.progress × IsClaimable user id r)
    → ClaimOutcome user id s (claim_target c user id o s)
claim_target_lem c user id s none h = refl
claim_target_lem c user id s (some r) h = elim (Result-cases c.claim) [
  | inl (e, failed) ↦ rw failed refl
  | inr (u, done) ↦ let (i, k) = h r refl in rw done (r, i, k, refl, refl)
]

-- A claim that fails changes nothing. One that succeeds pays the reward of a row of the user and the
-- quest that is completed and was not claimed, and marks it as claimed.
pub claim_quest_reward-ClaimOutcome :
    (c : Calls) (user id : ℕ) (s : Store) → ClaimOutcome user id s (claim_quest_reward c user id s)
unfolding claim_quest_reward get_unclaimed_completed_quests
claim_quest_reward-ClaimOutcome c user id s = elim (Result-cases c.read) [
  | inl (e, failed) ↦ rw failed refl
  | inr (u, done) ↦ rw done (
      claim_target_lem c user id s
        (find_target id
          (select_progress (λ r q. r.completed && not r.claimed) user s.quests s.progress))
        (target_lem user id s.quests s.progress))
]

-- A row of the key is claimed after the update.
claimed_lem :
    (user id : ℕ) (rs : List ProgressRow) (r : ProgressRow)
    → IsIn r (update_row user id claiming rs)
    → is_key user id r ≡ true
    → r.claimed ≡ true
unfolding update_row
claimed_lem user id [] r i k = absurd i
claimed_lem user id (x ∷ xs) r (inr i) k = claimed_lem user id xs r i k
claimed_lem user id (x ∷ xs) r (inl e) k = elim (Bool-cases (is_key user id x)) [
  | inl mine ↦
      let g : r ≡ claiming x = e ∙ ap (λ b. if b then claiming x else x) mine in
      ap ProgressRow.claimed g
  | inr other ↦
      let g : r ≡ x = e ∙ ap (λ b. if b then claiming x else x) other in
      let same : is_key user id x ≡ true = rw g at k in cc
]

-- Where a quest was claimed, every other claim of it fails and changes nothing.
claim_quest_reward-twice :
    (c c' : Calls) (user id : ℕ) (s s' : Store) (money : ℕ)
    → claim_quest_reward c user id s ≡ (ok money, s')
    → (e : Error) × (claim_quest_reward c' user id s' ≡ (err e, s'))
claim_quest_reward-twice c c' user id s s' money h =
    let (r, i, k, reward, e) : ClaimOutcome user id s (ok money, s') =
      subst (ClaimOutcome user id s) h (claim_quest_reward-ClaimOutcome c user id s) in
    again (claim_quest_reward c' user id s') (claim_quest_reward-ClaimOutcome c' user id s') e
  where
    again :
        (x : Result ℕ × Store)
        → ClaimOutcome user id s' x
        → s' ≡ claim_quest user id s
        → (e : Error) × (x ≡ (err e, s'))
    again (err e, t) o done = (e, ap (λ t. (err e, t)) o)
    again (ok m, t) (r, i, (u, q, _, open_still), paid, moved) done =
        let i' : IsIn r (update_row user id claiming s.progress) = rw done at i in
        let k : is_key user id r ≡ true = ground (arith, u, q) in
        let closed = claimed_lem user id s.progress r i' k in cc
