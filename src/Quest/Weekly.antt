-- ===== src/Quest/Weekly.antt =====
-- The weekly reset: what it leaves, and what can happen after it.
use brandish_bot_go.Prelude.{
  ℕ, suc, ◌+◌, ◌*◌, ◌≤◌, ◌≡◌, sym, ap, ◌∙◌, true, List, [], ◌∷◌, ◌++◌, take, length, ltb, IsIn,
  arith, Bool-cases, inl, inr,
}
use mathlib.Core.Path.{subst}
use mathlib.Core.List.{append-nil, append_assoc}
use brandish_bot_go.Failure.{Error, Result, ok, err, Result-cases, quest_pool_too_small, storage}
use brandish_bot_go.Quest.{
  QuestTemplate, Quest, Store, Calls, has_key, with_quest, create_all, delete_all_quests,
  generate_weekly_quests, reset_weekly_quests, claim_quest_reward,
}
use brandish_bot_go.Quest.Earned.{ClaimOutcome, claim_quest_reward-ClaimOutcome}
use brandish_bot_go.Quest.Runs.{Op, run_ops, run_ops-no_rows}

-- Active quests of a week from templates, with ids in order.
abbrev pub quests_of : ℕ → ℕ → ℕ → List QuestTemplate → List Quest
quests_of id year week [] = []
quests_of id year week (t ∷ ts) =
    record { quest_id = id; template = t; active = true; week_number = week; year = year }
    ∷ quests_of (suc id) year week ts

abbrev IsCreated : ℕ → ℕ → List QuestTemplate → Store → Store → Type 0
IsCreated year week ts s s' =
    (s'.quests ≡ s.quests ++ quests_of s.next_id year week ts) × (s'.progress ≡ s.progress)

not_done :
    {P : Type 0}
    → (e : Error) (s s' : Store) → ◌≡◌ {A = Result (Unit {0}) × Store} (err e, s) (ok tt, s')
    → P
not_done e s s' h = cc

create_all-IsCreated :
    (c : Calls) (year week : ℕ) (ts : List QuestTemplate) (s s' : Store)
    → create_all c year week ts s ≡ (ok tt, s')
    → IsCreated year week ts s s'
unfolding create_all
create_all-IsCreated c year week [] s s' h =
    let e : s ≡ s' = ap (λ x. x.1) h in
    (ap Store.quests (sym e) ∙ sym (append-nil s.quests), ap Store.progress (sym e))
create_all-IsCreated c year week (t ∷ ts) s s' h = elim (Result-cases (c.create t.quest_key)) [
  | inl (e, failed) ↦ not_done e s s' (rw failed at h)
  | inr (u, answered) ↦ elim (Bool-cases (has_key t.quest_key s.quests)) [
    | inl taken ↦ not_done storage s s' (rw (answered, taken) at h)
    | inr new ↦
        let (qs, rs) =
          create_all-IsCreated c year week ts (with_quest year week t s) s'
            (rw (answered, new) at h) in
        (qs ∙ append_assoc s.quests _ _, rs)
  ]
]

-- After a reset that succeeds the quests are those of the first three templates of the shuffled pool,
-- active and of the week, with ids in order, and there is no row of progress.
pub reset_weekly_quests-IsReset :
    (c : Calls) (pool : List QuestTemplate) (year week : ℕ) (s s' : Store)
    → reset_weekly_quests c pool year week s ≡ (ok tt, s')
    → (3 ≤ length pool)
      × (s'.quests ≡ quests_of s.next_id year week (take 3 (c.shuffle (year * 100 + week) pool)))
      × (s'.progress ≡ [])
unfolding reset_weekly_quests generate_weekly_quests
reset_weekly_quests-IsReset c pool year week s s' h = elim (Result-cases c.delete) [
  | inl (e, failed) ↦ not_done e s s' (rw failed at h)
  | inr (u, answered) ↦ elim (Bool-cases (ltb (length pool) 3)) [
    | inl small ↦ not_done quest_pool_too_small (delete_all_quests s) s' (rw (answered, small) at h)
    | inr enough ↦
        let (qs, rs) =
          create_all-IsCreated c year week (take 3 (c.shuffle (year * 100 + week) pool))
            (delete_all_quests s) s' (rw (answered, enough) at h) in
        (ground (arith, enough), qs, rs)
  ]
]

-- Nothing makes rows of progress: after a reset, whatever events and claims run, every claim fails.
pub reset_weekly_quests-no_claims :
    (c c' : Calls) (pool : List QuestTemplate) (year week : ℕ) (s s' : Store) (os : List Op)
    (user id : ℕ)
    → reset_weekly_quests c pool year week s ≡ (ok tt, s')
    → (e : Error) × (claim_quest_reward c' user id (run_ops os s') ≡ (err e, run_ops os s'))
reset_weekly_quests-no_claims c c' pool year week s s' os user id h =
    let (_, _, none_left) = reset_weekly_quests-IsReset c pool year week s s' h in
    let t : Store = run_ops os s' in
    refused t (claim_quest_reward c' user id t) (claim_quest_reward-ClaimOutcome c' user id t)
      (run_ops-no_rows os s' none_left)
  where
    refused :
        (t : Store) (x : Result ℕ × Store)
        → ClaimOutcome user id t x
        → t.progress ≡ []
        → (e : Error) × (x ≡ (err e, t))
    refused t (err e, u) o gone = (e, ap (λ v. (err e, v)) o)
    refused t (ok money, u) (r, i, k, paid, moved) gone =
        let i' : IsIn r [] = subst (IsIn r) gone i in absurd i'
