-- ===== src/Quest/Reached.antt =====
-- Whatever events and claims have run, with whatever failures of the storage: a completed quest has
-- reached its requirement.
use brandish_bot_go.Prelude.{
  ℕ, ◌+◌, ◌≤◌, ◌≡◌, true, false, Option, none, some, List, [], ◌∷◌, leb, arith, Bool-cases, inl,
  inr,
}
use brandish_bot_go.Failure.{Result, ok, err, Result-cases}
use brandish_bot_go.Stateful.{continue}
use brandish_bot_go.Quest.{
  ProgressRow, QuestProgress, Store, Calls, Event, is_key, update_row, incremented, completing,
  new_progress, advance, on_each,
}
use brandish_bot_go.Quest.Rounds.{counts}

abbrev pub AllRows : (ProgressRow → Type 0) → List ProgressRow → Type 0
AllRows P [] = Unit {0}
AllRows P (r ∷ rs) = P r × AllRows P rs

-- A completed quest has reached its requirement.
abbrev pub IsEarned : ProgressRow → Type 0
IsEarned r = r.completed ≡ true → r.progress_required ≤ r.progress_current

-- What was read of a row still holds of it, but for progress that came since.
abbrev pub IsRead : ℕ → List QuestProgress → ProgressRow → Type 0
IsRead user [] x = Unit {0}
IsRead user (qp ∷ qps) x =
    (is_key user qp.row.quest_id x ≡ true
      → (qp.row.progress_current ≤ x.progress_current)
        × (qp.row.progress_required ≡ x.progress_required))
    × IsRead user qps x

abbrev pub IsGood : ℕ → List QuestProgress → ProgressRow → Type 0
IsGood user qps x = IsEarned x × IsRead user qps x

pub AllRows-update_row :
    (P Q : ProgressRow → Type 0) (user id : ℕ) (f : ProgressRow → ProgressRow)
    (rs : List ProgressRow)
    → ((x : ProgressRow) → P x → is_key user id x ≡ true → Q (f x))
    → ((x : ProgressRow) → P x → is_key user id x ≡ false → Q x)
    → AllRows P rs
    → AllRows Q (update_row user id f rs)
unfolding update_row
AllRows-update_row P Q user id f [] hit miss h = tt
AllRows-update_row P Q user id f (x ∷ xs) hit miss (p, ps) =
    let rest = AllRows-update_row P Q user id f xs hit miss ps in
    elim (Bool-cases (is_key user id x)) [
      | inl mine ↦ rw mine (hit x p mine, rest)
      | inr other ↦ rw other (miss x p other, rest)
    ]

AllRows-weaken :
    (P Q : ProgressRow → Type 0) (rs : List ProgressRow)
    → ((x : ProgressRow) → P x → Q x)
    → AllRows P rs
    → AllRows Q rs
AllRows-weaken P Q [] f h = tt
AllRows-weaken P Q (x ∷ xs) f (p, ps) = (f x p, AllRows-weaken P Q xs f ps)

IsRead-incremented :
    (user n : ℕ) (qps : List QuestProgress) (x : ProgressRow)
    → IsRead user qps x
    → IsRead user qps (incremented n x)
IsRead-incremented user n [] x h = tt
IsRead-incremented user n (qp ∷ qps) x (h, hs) =
    (λ k. let (a, b) = h k in (omega arith, b), IsRead-incremented user n qps x hs)

IsRead-completing :
    (user : ℕ) (qps : List QuestProgress) (x : ProgressRow)
    → IsRead user qps x
    → IsRead user qps (completing x)
IsRead-completing user [] x h = tt
IsRead-completing user (qp ∷ qps) x (h, hs) = (λ k. h k, IsRead-completing user qps x hs)

-- A row that was counted up from what was read.
abbrev IsCounted : ℕ → ℕ → QuestProgress → List QuestProgress → ProgressRow → Type 0
IsCounted user n qp qps x =
    IsGood user qps x
    × (is_key user qp.row.quest_id x ≡ true
        → (qp.row.progress_current + n ≤ x.progress_current)
          × (qp.row.progress_required ≡ x.progress_required))

-- What holds of the table after one round, if the round ends well or not.
abbrev IsStepped : ℕ → List QuestProgress → Result (Unit {0}) × Store → Type 0
IsStepped user qps x = AllRows (IsGood user qps) x.1.progress

module _ (user n : ℕ) (qp : QuestProgress) (qps : List QuestProgress) where
  count_lem :
      (rs : List ProgressRow)
      → AllRows (IsGood user (qp ∷ qps)) rs
      → AllRows (IsCounted user n qp qps) (update_row user qp.row.quest_id (incremented n) rs)
  count_lem rs h =
      AllRows-update_row (IsGood user (qp ∷ qps)) (IsCounted user n qp qps) user qp.row.quest_id
        (incremented n) rs counted_up untouched h
    where
      counted_up :
          (x : ProgressRow)
          → IsGood user (qp ∷ qps) x
          → is_key user qp.row.quest_id x ≡ true
          → IsCounted user n qp qps (incremented n x)
      counted_up x (earned, (h, hs)) k =
          let (le, eq) = h k in
          (
            (λ d. let r = earned d in omega arith, IsRead-incremented user n qps x hs),
            λ k'. (omega arith, eq),
          )

      untouched :
          (x : ProgressRow)
          → IsGood user (qp ∷ qps) x
          → is_key user qp.row.quest_id x ≡ false
          → IsCounted user n qp qps x
      untouched x (earned, (h, hs)) k = ((earned, hs), λ k'. cc)

  complete_lem :
      (rs : List ProgressRow)
      → leb qp.row.progress_required (new_progress qp.row n) ≡ true
      → AllRows (IsCounted user n qp qps) rs
      → AllRows (IsGood user qps) (update_row user qp.row.quest_id completing rs)
  complete_lem rs done h =
      AllRows-update_row (IsCounted user n qp qps) (IsGood user qps) user qp.row.quest_id completing
        rs reached (λ x p k. p.0) h
    where
      reached :
          (x : ProgressRow)
          → IsCounted user n qp qps x
          → is_key user qp.row.quest_id x ≡ true
          → IsGood user qps (completing x)
      reached x ((earned, hs), h) k =
          let (le, eq) = h k in
          let most : qp.row.progress_required ≤ qp.row.progress_current + n =
            ground (arith, done) in
          (λ d. omega arith, IsRead-completing user qps x hs)

IsGood-next :
    (user : ℕ) (qp : QuestProgress) (qps : List QuestProgress) (rs : List ProgressRow)
    → AllRows (IsGood user (qp ∷ qps)) rs
    → AllRows (IsGood user qps) rs
IsGood-next user qp qps rs h =
    AllRows-weaken (IsGood user (qp ∷ qps)) (IsGood user qps) rs (λ x p. (p.0, p.1.1)) h

-- A round keeps what holds, also where a write fails.
advance-IsStepped :
    (c : Calls) (user : ℕ) (qp : QuestProgress) (qps : List QuestProgress) (o : Option ℕ)
    (s : Store)
    → AllRows (IsGood user (qp ∷ qps)) s.progress
    → IsStepped user qps (advance c user qp.row o s)
advance-IsStepped c user qp qps none s h = IsGood-next user qp qps s.progress h
advance-IsStepped c user qp qps (some n) s h =
    let id = qp.row.quest_id in
    let up = count_lem user n qp qps s.progress h in
    let weak =
      AllRows-weaken (IsCounted user n qp qps) (IsGood user qps)
        (update_row user id (incremented n) s.progress) (λ x p. p.0) up in
    elim (Result-cases (c.increment id)) [
      | inl (e, failed) ↦ rw failed (IsGood-next user qp qps s.progress h)
      | inr (u, answered) ↦
          elim (Bool-cases (leb qp.row.progress_required (new_progress qp.row n))) [
            | inr more ↦ rw (answered, more) weak
            | inl done ↦ elim (Result-cases (c.complete id)) [
              | inl (e, failed) ↦ rw (answered, done, failed) weak
              | inr (u', stored) ↦
                  rw (answered, done, stored)
                    (complete_lem user n qp qps (update_row user id (incremented n) s.progress) done
                      up)
            ]
          ]
    ]

pub on_each-IsEarned :
    (c : Calls) (user : ℕ) (e : Event) (qps : List QuestProgress) (s : Store)
    → AllRows (IsGood user qps) s.progress
    → AllRows IsEarned (on_each c user e qps s).1.progress
unfolding on_each
on_each-IsEarned c user e [] s h =
    AllRows-weaken (IsGood user []) IsEarned s.progress (λ x p. p.0) h
on_each-IsEarned c user e (qp ∷ qps) s h =
    next (advance c user qp.row (counts c e qp) s)
      (advance-IsStepped c user qp qps (counts c e qp) s h) (on_each-IsEarned c user e qps)
  where
    next :
        (x : Result (Unit {0}) × Store)
        → IsStepped user qps x
        → ((t : Store)
            → AllRows (IsGood user qps) t.progress
            → AllRows IsEarned (on_each c user e qps t).1.progress)
        → AllRows IsEarned (continue x (λ u. on_each c user e qps)).1.progress
    next (ok u, t) p ih = ih t p
    next (err f, t) p ih = AllRows-weaken (IsGood user qps) IsEarned t.progress (λ x p. p.0) p
