-- ===== src/Quest/Rounds.antt =====
-- The loop that an event runs over the progress that was read, as one pass over the rows.
use brandish_bot_go.Prelude.{
  ℕ, ◌+◌, ◌≡◌, refl, sym, ap, ◌∙◌, true, false, Option, none, some, List, [], ◌∷◌, map, leb, ◌==◌,
  if◌then◌else◌, arith, Bool-cases, inl, inr,
}
use brandish_bot_go.Failure.{ok}
use brandish_bot_go.Quest.{
  Quest, ProgressRow, QuestProgress, Store, Calls, Event, find_quest, is_key, update_row,
  incremented, completing, new_progress, amount, advance, on_each,
}

-- All services answer.
pub record Answers (c : Calls) : Type 0 where
  pub reads : c.read ≡ ok tt
  pub increments : (id : ℕ) → c.increment id ≡ ok tt
  pub completes : (id : ℕ) → c.complete id ≡ ok tt

-- What counts for a row, by its quest.
abbrev pub counted : Calls → Event → Option Quest → Option ℕ
counted c e none = none
counted c e (some q) = if q.active then amount c e q.template.quest_type q.template else none

-- The progress grows, and the row is completed once it reaches what is required.
abbrev pub reach : Option ℕ → ProgressRow → ProgressRow
reach none r = r
reach (some n) r = record r {
  progress_current = r.progress_current + n;
  completed = leb r.progress_required (r.progress_current + n);
}

-- What an event of a user does to a row.
unfoldable pub advanced : Calls → ℕ → Event → List Quest → ProgressRow → ProgressRow
advanced c user e qs r =
    if r.user_id == user
    then if r.completed then r else reach (counted c e (find_quest r.quest_id qs)) r
    else r

-- No row has the key.
abbrev pub IsAbsent : ℕ → ℕ → List ProgressRow → Type 0
IsAbsent user id [] = Unit {0}
IsAbsent user id (r ∷ rs) = (is_key user id r ≡ false) × IsAbsent user id rs

-- The primary key of the table.
abbrev pub HasDistinctKeys : List ProgressRow → Type 0
HasDistinctKeys [] = Unit {0}
HasDistinctKeys (r ∷ rs) = IsAbsent r.user_id r.quest_id rs × HasDistinctKeys rs

-- What one round of the loop does to a row of the key, by the row that was read.
abbrev pub hit : ProgressRow → Option ℕ → ProgressRow → ProgressRow
hit read none x = x
hit read (some n) x = record x {
  progress_current = x.progress_current + n;
  completed = if leb read.progress_required (new_progress read n) then true else x.completed;
}

abbrev pub effect : ℕ → ProgressRow → Option ℕ → ProgressRow → ProgressRow
effect user read o x = if is_key user read.quest_id x then hit read o x else x

abbrev pub with_progress : Store → List ProgressRow → Store
with_progress s rs = record s { progress = rs }

effect-none :
    (user : ℕ) (read : ProgressRow) (rs : List ProgressRow) → map (effect user read none) rs ≡ rs
effect-none user read [] = refl
effect-none user read (x ∷ xs) = elim (Bool-cases (is_key user read.quest_id x)) [
  | inl same ↦ rw same (ap (λ t. x ∷ t) (effect-none user read xs))
  | inr other ↦ rw other (ap (λ t. x ∷ t) (effect-none user read xs))
]

-- The two updates of a round, where the second is made and where it is not.
completed_lem :
    (user n : ℕ) (read : ProgressRow) (rs : List ProgressRow)
    → leb read.progress_required (new_progress read n) ≡ true
    → update_row user read.quest_id completing (update_row user read.quest_id (incremented n) rs)
      ≡ map (effect user read (some n)) rs
unfolding update_row
completed_lem user n read [] h = refl
completed_lem user n read (x ∷ xs) h =
    let rest = completed_lem user n read xs h in
    elim (Bool-cases (is_key user read.quest_id x)) [
      | inl same ↦ rw (same, same, h) (ap (λ t. completing (incremented n x) ∷ t) rest)
      | inr other ↦ rw (other, other) (ap (λ t. x ∷ t) rest)
    ]

open_lem :
    (user n : ℕ) (read : ProgressRow) (rs : List ProgressRow)
    → leb read.progress_required (new_progress read n) ≡ false
    → update_row user read.quest_id (incremented n) rs ≡ map (effect user read (some n)) rs
unfolding update_row
open_lem user n read [] h = refl
open_lem user n read (x ∷ xs) h =
    let rest = open_lem user n read xs h in
    elim (Bool-cases (is_key user read.quest_id x)) [
      | inl same ↦ rw (same, h) (ap (λ t. incremented n x ∷ t) rest)
      | inr other ↦ rw other (ap (λ t. x ∷ t) rest)
    ]

module _ {c : Calls} (a : Answers c) (user : ℕ) where
  advance_lem :
      (read : ProgressRow) (o : Option ℕ) (s : Store)
      → advance c user read o s ≡ (ok tt, with_progress s (map (effect user read o) s.progress))
  advance_lem read none s =
      ap (λ t. (ok tt, with_progress s t)) (sym (effect-none user read s.progress))
  advance_lem read (some n) s =
      elim (Bool-cases (leb read.progress_required (new_progress read n))) [
        | inl done ↦
            rw (a.increments read.quest_id, done, a.completes read.quest_id)
              (ap (λ t. (ok tt, with_progress s t)) (completed_lem user n read s.progress done))
        | inr more ↦
            rw (a.increments read.quest_id, more)
              (ap (λ t. (ok tt, with_progress s t)) (open_lem user n read s.progress more))
      ]

pub kept_lem : (r : ProgressRow) → r ≡ (if r.completed then r else r)
kept_lem r = ground arith

-- A round for a row by the row itself.
pub hit_self :
    (r : ProgressRow) (o : Option ℕ)
    → hit r (if r.completed then none else o) r ≡ (if r.completed then r else reach o r)
hit_self r none = ground arith
hit_self r (some n) = ground arith

-- What a round counts.
abbrev pub counts : Calls → Event → QuestProgress → Option ℕ
counts c e qp = if qp.row.completed then none else amount c e qp.template.quest_type qp.template

-- What all rounds do to a row.
abbrev pub rounds : Calls → ℕ → Event → List QuestProgress → ProgressRow → ProgressRow
rounds c user e [] x = x
rounds c user e (qp ∷ qps) x = rounds c user e qps (effect user qp.row (counts c e qp) x)

module _ (c : Calls) (user : ℕ) (e : Event) where
  map_none : (rs : List ProgressRow) → map (rounds c user e []) rs ≡ rs
  map_none [] = refl
  map_none (x ∷ xs) = ap (λ t. x ∷ t) (map_none xs)

  map-rounds :
      (qp : QuestProgress) (qps : List QuestProgress) (rs : List ProgressRow)
      → map (rounds c user e qps) (map (effect user qp.row (counts c e qp)) rs)
        ≡ map (rounds c user e (qp ∷ qps)) rs
  map-rounds qp qps [] = refl
  map-rounds qp qps (x ∷ xs) = ap (λ t. rounds c user e (qp ∷ qps) x ∷ t) (map-rounds qp qps xs)

  pub on_each_lem :
      (a : Answers c) (qps : List QuestProgress) (s : Store)
      → on_each c user e qps s ≡ (ok tt, with_progress s (map (rounds c user e qps) s.progress))
  unfolding on_each
  on_each_lem a [] s = ap (λ t. (ok tt, with_progress s t)) (sym (map_none s.progress))
  on_each_lem a (qp ∷ qps) s = rw (advance_lem a user qp.row (counts c e qp) s) (
      on_each_lem a qps (with_progress s (map (effect user qp.row (counts c e qp)) s.progress))
      ∙ ap (λ t. (ok tt, with_progress s t)) (map-rounds qp qps s.progress))
