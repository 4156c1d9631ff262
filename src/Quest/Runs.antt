-- ===== src/Quest/Runs.antt =====
-- Runs of events and claims on the tables of the quests.
use brandish_bot_go.Prelude.{
  ℕ, ◌≤◌, ◌≡◌, refl, sym, Bool, true, false, Option, none, some, List, [], ◌∷◌, IsIn, leb, ◌==◌,
  arith, Bool-cases, Option-cases, inl, inr,
}
use mathlib.Core.Path.{subst}
use brandish_bot_go.Failure.{Result, ok, err, Result-cases}
use brandish_bot_go.Stateful.{run_if, Keeps, Keeps->>=}
use brandish_bot_go.Quest.{
  Quest, ProgressRow, QuestProgress, Store, Calls, Event, written, find_quest, is_key, update_row,
  on_progress, incremented, completing, claiming, select_progress, get_user_active_quest_progress,
  get_unclaimed_completed_quests, new_progress, increment_and_check_completion, advance, on_each,
  on_event, find_target, claim_quest_reward,
}
use brandish_bot_go.Quest.Rounds.{HasDistinctKeys, IsAbsent, counts}
use brandish_bot_go.Quest.Earned.{IsClaimable, ClaimOutcome, claim_quest_reward-ClaimOutcome}
use brandish_bot_go.Quest.Reached.{
  AllRows, IsEarned, IsRead, IsGood, on_each-IsEarned, AllRows-update_row,
}

-- The row agrees with every row of its key.
abbrev Agrees : ProgressRow → ProgressRow → Type 0
Agrees x r =
    is_key r.user_id r.quest_id x ≡ true
    → (r.progress_current ≤ x.progress_current) × (r.progress_required ≡ x.progress_required)

head_lem :
    (x : ProgressRow) (rs : List ProgressRow)
    → IsAbsent x.user_id x.quest_id rs
    → AllRows (Agrees x) rs
head_lem x [] h = tt
head_lem x (r ∷ rs) h = (λ k. absurd (ground (arith, h.0, k)), head_lem x rs h.1)

tail_lem :
    (r : ProgressRow) (rs xs : List ProgressRow)
    → IsAbsent r.user_id r.quest_id xs
    → AllRows (λ x. AllRows (Agrees x) rs) xs
    → AllRows (λ x. AllRows (Agrees x) (r ∷ rs)) xs
tail_lem r rs [] h a = tt
tail_lem r rs (x ∷ xs) h a = ((λ k. absurd (ground (arith, h.0, k)), a.0), tail_lem r rs xs h.1 a.1)

agree_lem : (rs : List ProgressRow) → HasDistinctKeys rs → AllRows (λ x. AllRows (Agrees x) rs) rs
agree_lem [] h = tt
agree_lem (r ∷ rs) h =
    ((λ k. (omega arith, refl), head_lem r rs h.0), tail_lem r rs rs h.0 (agree_lem rs h.1))

-- What was just read of a table holds of its rows.
read_lem :
    (user : ℕ) (qs : List Quest) (rs : List ProgressRow) (x : ProgressRow)
    → AllRows (Agrees x) rs
    → IsRead user (select_progress (λ r q. q.active) user qs rs) x
unfolding select_progress
read_lem user qs [] x h = tt
read_lem user qs (r ∷ rs) x (h, hs) =
    let rest = read_lem user qs rs x hs in
    elim (Bool-cases (r.user_id == user)) [
      | inr other ↦ rw other rest
      | inl mine ↦ elim (Option-cases (find_quest r.quest_id qs)) [
        | inl gone ↦ rw (mine, gone) rest
        | inr (q, found) ↦ elim (Bool-cases q.active) [
          | inr over ↦ rw (mine, found, over) rest
          | inl active ↦ rw (mine, found, active) (λ k. h (ground (arith, mine, k)), rest)
        ]
      ]
    ]

good_lem :
    (user : ℕ) (qps : List QuestProgress) (xs rs : List ProgressRow)
    → ((x : ProgressRow) → AllRows (Agrees x) rs → IsRead user qps x)
    → AllRows IsEarned xs
    → AllRows (λ x. AllRows (Agrees x) rs) xs
    → AllRows (IsGood user qps) xs
good_lem user qps [] rs f e a = tt
good_lem user qps (x ∷ xs) rs f e a = ((e.0, f x a.0), good_lem user qps xs rs f e.1 a.1)

-- What holds of the tables: the primary key, and that completed quests are earned.
abbrev pub IsSound : Store → Type 0
IsSound s = HasDistinctKeys s.progress × AllRows IsEarned s.progress

abbrev IsKeyed : Store → Type 0
IsKeyed s = HasDistinctKeys s.progress

-- An update that leaves the key alone.
abbrev KeepsKey : (ProgressRow → ProgressRow) → Type 0
KeepsKey f = (x : ProgressRow) → ((f x).user_id ≡ x.user_id) × ((f x).quest_id ≡ x.quest_id)

IsAbsent-update_row :
    (u i user id : ℕ) (f : ProgressRow → ProgressRow) (rs : List ProgressRow)
    → KeepsKey f
    → IsAbsent u i rs
    → IsAbsent u i (update_row user id f rs)
unfolding update_row
IsAbsent-update_row u i user id f [] keep h = tt
IsAbsent-update_row u i user id f (x ∷ xs) keep h =
    let rest = IsAbsent-update_row u i user id f xs keep h.1 in
    elim (Bool-cases (is_key user id x)) [
      | inl mine ↦ let (a, b) = keep x in rw (mine, a, b) (h.0, rest)
      | inr other ↦ rw other (h.0, rest)
    ]

update_row-HasDistinctKeys :
    (user id : ℕ) (f : ProgressRow → ProgressRow) (rs : List ProgressRow)
    → KeepsKey f
    → HasDistinctKeys rs
    → HasDistinctKeys (update_row user id f rs)
unfolding update_row
update_row-HasDistinctKeys user id f [] keep h = tt
update_row-HasDistinctKeys user id f (x ∷ xs) keep h =
    let rest = update_row-HasDistinctKeys user id f xs keep h.1 in
    let away = IsAbsent-update_row x.user_id x.quest_id user id f xs keep h.0 in
    elim (Bool-cases (is_key user id x)) [
      | inl mine ↦ let (a, b) = keep x in rw (mine, a, b) (away, rest)
      | inr other ↦ rw other (away, rest)
    ]

written-IsKeyed :
    (r : Result (Unit {0})) (user id : ℕ) (f : ProgressRow → ProgressRow)
    → KeepsKey f
    → Keeps IsKeyed (written r (on_progress (update_row user id f)))
written-IsKeyed (err e) user id f keep s h = h
written-IsKeyed (ok u) user id f keep s h = update_row-HasDistinctKeys user id f s.progress keep h

check-IsKeyed :
    (c : Calls) (user : ℕ) (r : ProgressRow) (n : ℕ)
    → Keeps IsKeyed (increment_and_check_completion c user r n)
check-IsKeyed c user r n =
    Keeps->>= IsKeyed (written (c.increment r.quest_id) _) _
      (written-IsKeyed (c.increment r.quest_id) user r.quest_id (incremented n) (λ x. (refl, refl)))
      (λ u. when (leb r.progress_required (new_progress r n)))
  where
    when :
        (b : Bool)
        → Keeps IsKeyed (
            run_if b (
              written
                (c.complete r.quest_id)
                (on_progress (update_row user r.quest_id completing))))
    when true s h =
        written-IsKeyed (c.complete r.quest_id) user r.quest_id completing (λ x. (refl, refl)) s h
    when false s h = h

advance-IsKeyed :
    (c : Calls) (user : ℕ) (r : ProgressRow) (o : Option ℕ) → Keeps IsKeyed (advance c user r o)
advance-IsKeyed c user r none s h = h
advance-IsKeyed c user r (some n) s h = check-IsKeyed c user r n s h

on_each-IsKeyed :
    (c : Calls) (user : ℕ) (e : Event) (qps : List QuestProgress)
    → Keeps IsKeyed (on_each c user e qps)
unfolding on_each
on_each-IsKeyed c user e [] s h = h
on_each-IsKeyed c user e (qp ∷ qps) s h =
    Keeps->>= IsKeyed (advance c user qp.row (counts c e qp)) (λ u. on_each c user e qps)
      (advance-IsKeyed c user qp.row (counts c e qp)) (λ u. on_each-IsKeyed c user e qps) s h

on_event-IsSound : (c : Calls) (user : ℕ) (e : Event) → Keeps IsSound (on_event c user e)
unfolding on_event get_user_active_quest_progress
on_event-IsSound c user e s (keys, earned) = elim (Result-cases c.read) [
  | inl (f, failed) ↦ rw failed (keys, earned)
  | inr (u, answered) ↦
      let qps : List QuestProgress = select_progress (λ r q. q.active) user s.quests s.progress in
      let good =
        good_lem user qps s.progress s.progress (read_lem user s.quests s.progress) earned
          (agree_lem s.progress keys) in
      rw answered (on_each-IsKeyed c user e qps s keys, on_each-IsEarned c user e qps s good)
]

claim-IsSound : (c : Calls) (user id : ℕ) → Keeps IsSound (claim_quest_reward c user id)
claim-IsSound c user id s h =
    kept (claim_quest_reward c user id s) (claim_quest_reward-ClaimOutcome c user id s)
  where
    kept : (x : Result ℕ × Store) → ClaimOutcome user id s x → IsSound x.1
    kept (err e, t) o = subst IsSound (sym o) h
    kept (ok money, t) (r, i, k, paid, moved) = subst IsSound (sym moved) (
      update_row-HasDistinctKeys user id claiming s.progress (λ x. (refl, refl)) h.0,
      AllRows-update_row IsEarned IsEarned user id claiming s.progress (λ x p k'. p) (λ x p k'. p)
          h.1,
    )

-- An event or a claim, with what the storage answers in it.
pub data Op : Type 0 where
  event : Calls → ℕ → Event → Op
  claim : Calls → ℕ → ℕ → Op

abbrev pub run_op : Op → Store → Store
run_op (event c user e) s = (on_event c user e s).1
run_op (claim c user id) s = (claim_quest_reward c user id s).1

abbrev pub run_ops : List Op → Store → Store
run_ops [] s = s
run_ops (o ∷ os) s = run_ops os (run_op o s)

run_op-IsSound : (o : Op) (s : Store) → IsSound s → IsSound (run_op o s)
run_op-IsSound (event c user e) s h = on_event-IsSound c user e s h
run_op-IsSound (claim c user id) s h = claim-IsSound c user id s h

pub run_ops-IsSound : (os : List Op) (s : Store) → IsSound s → IsSound (run_ops os s)
run_ops-IsSound [] s h = h
run_ops-IsSound (o ∷ os) s h = run_ops-IsSound os (run_op o s) (run_op-IsSound o s h)

of_member :
    (P : ProgressRow → Type 0) (r : ProgressRow) (rs : List ProgressRow)
    → IsIn r rs
    → AllRows P rs
    → P r
of_member P r [] i h = absurd i
of_member P r (x ∷ xs) (inl e) h = subst P (sym e) h.0
of_member P r (x ∷ xs) (inr i) h = of_member P r xs i h.1

-- Where completed quests have reached their requirement at first, a claim that pays after any events
-- and claims, with any failures of the storage, pays the reward of a row of the user and the quest
-- that is completed, not claimed yet, and has reached its requirement.
pub claim_quest_reward-earned :
    (c : Calls) (os : List Op) (user id money : ℕ) (s s' : Store)
    → IsSound s
    → claim_quest_reward c user id (run_ops os s) ≡ (ok money, s')
    → (r : ProgressRow) × IsIn r (run_ops os s).progress
      × IsClaimable user id r
      × (money ≡ r.reward_money)
      × (r.progress_required ≤ r.progress_current)
claim_quest_reward-earned c os user id money s s' h e =
    let t : Store = run_ops os s in
    let (r, i, k, paid, moved) : ClaimOutcome user id t (ok money, s') =
      subst (ClaimOutcome user id t) e (claim_quest_reward-ClaimOutcome c user id t) in
    let (u, q, done, new) = k in
    (r, i, k, paid, of_member IsEarned r t.progress i (run_ops-IsSound os s h).1 done)

-- No quest operation makes a row of progress.
no_rows : (o : Op) (s : Store) → s.progress ≡ [] → (run_op o s).progress ≡ []
unfolding on_event get_user_active_quest_progress select_progress on_each claim_quest_reward
    find_target get_unclaimed_completed_quests
no_rows (event c user e) s h = elim (Result-cases c.read) [
  | inl (f, failed) ↦ rw failed h
  | inr (u, answered) ↦ rw (answered, h) refl
]
no_rows (claim c user id) s h = elim (Result-cases c.read) [
  | inl (f, failed) ↦ rw failed h
  | inr (u, answered) ↦ rw (answered, h) refl
]

pub run_ops-no_rows : (os : List Op) (s : Store) → s.progress ≡ [] → (run_ops os s).progress ≡ []
run_ops-no_rows [] s h = h
run_ops-no_rows (o ∷ os) s h = run_ops-no_rows os (run_op o s) (no_rows o s h)
