-- ===== src/Quest/Advance.antt =====
-- What an event does to the table of progress: the loop of updates by key against one pass over the
-- rows.
use brandish_bot_go.Prelude.{
  ℕ, ◌≡◌, refl, ap, ◌∙◌, true, false, Option, none, some, List, [], ◌∷◌, map, ◌==◌, if◌then◌else◌,
  arith, Bool-cases, Option-cases, inl, inr,
}
use brandish_bot_go.Failure.{Result, ok}
use brandish_bot_go.Stateful.{Run, ◌>>=◌, ◌>>◌, lift, get}
use brandish_bot_go.Quest.{
  Quest, ProgressRow, QuestProgress, Store, Calls, Event, find_quest, is_key, select_progress,
  get_user_active_quest_progress, amount, on_each, on_event,
}
use brandish_bot_go.Quest.Rounds.{
  Answers, counted, reach, advanced, IsAbsent, HasDistinctKeys, effect, with_progress, kept_lem,
  hit_self, counts, rounds, on_each_lem,
}

module _ (c : Calls) (user : ℕ) (e : Event) (qs : List Quest) where
  -- The quests that are read for the rows.
  abbrev selected : List ProgressRow → List QuestProgress
  selected rs = select_progress (λ r q. q.active) user qs rs

  -- What the round of one row does, if it has one.
  abbrev turn : Option Quest → ProgressRow → ProgressRow → ProgressRow
  turn none r x = x
  turn (some q) r x =
      if q.active
      then effect user r (counts c e (record { row = r; template = q.template })) x
      else x

  abbrev own_turn : ProgressRow → ProgressRow → ProgressRow
  own_turn r x = if r.user_id == user then turn (find_quest r.quest_id qs) r x else x

  rounds-selected :
      (r : ProgressRow) (rs : List ProgressRow) (x : ProgressRow)
      → rounds c user e (selected (r ∷ rs)) x ≡ rounds c user e (selected rs) (own_turn r x)
  unfolding select_progress
  rounds-selected r rs x = elim (Bool-cases (r.user_id == user)) [
    | inr other ↦ rw other refl
    | inl mine ↦ elim (Option-cases (find_quest r.quest_id qs)) [
      | inl gone ↦ rw (mine, gone) refl
      | inr (q, found) ↦ elim (Bool-cases q.active) [
        | inl open_still ↦ rw (mine, found, open_still) refl
        | inr over ↦ rw (mine, found, over) refl
      ]
    ]
  ]

  turn_other :
      (o : Option Quest) (r x : ProgressRow)
      → is_key r.user_id r.quest_id x ≡ false
      → (r.user_id == user) ≡ true
      → turn o r x ≡ x
  turn_other none r x h mine = refl
  turn_other (some q) r x h mine =
      let other : is_key user r.quest_id x ≡ false = ground arith in
      elim (Bool-cases q.active) [ inl a ↦ rw (a, other) refl | inr a ↦ rw a refl ]

  own_turn_other : (r x : ProgressRow) → is_key r.user_id r.quest_id x ≡ false → own_turn r x ≡ x
  own_turn_other r x h = elim (Bool-cases (r.user_id == user)) [
    | inl mine ↦ rw mine (turn_other (find_quest r.quest_id qs) r x h mine)
    | inr other ↦ rw other refl
  ]

  rounds_absent :
      (rs : List ProgressRow) (x : ProgressRow)
      → IsAbsent x.user_id x.quest_id rs
      → rounds c user e (selected rs) x ≡ x
  unfolding select_progress
  rounds_absent [] x h = refl
  rounds_absent (r ∷ rs) x h =
      let other : is_key r.user_id r.quest_id x ≡ false = ground (arith, h.0) in
      rounds-selected r rs x
      ∙ ap (rounds c user e (selected rs)) (own_turn_other r x other)
      ∙ rounds_absent rs x h.1

  rounds_others :
      (r : ProgressRow) (rs xs : List ProgressRow)
      → IsAbsent r.user_id r.quest_id xs
      → map (rounds c user e (selected (r ∷ rs))) xs ≡ map (rounds c user e (selected rs)) xs
  rounds_others r rs [] h = refl
  rounds_others r rs (x ∷ xs) h =
      let first =
        rounds-selected r rs x ∙ ap (rounds c user e (selected rs)) (own_turn_other r x h.0) in
      rw (first, rounds_others r rs xs h.1)

  turn_self :
      (o : Option Quest) (r : ProgressRow)
      → (r.user_id == user) ≡ true
      → turn o r r ≡ (if r.completed then r else reach (counted c e o) r)
  turn_self none r mine = ground arith
  turn_self (some q) r mine =
      let own : is_key user r.quest_id r ≡ true = ground arith in
      let o : Option ℕ = amount c e q.template.quest_type q.template in
      elim (Bool-cases q.active) [ inl a ↦ rw (a, own) (hit_self r o) | inr a ↦ rw a (kept_lem r) ]

  own_turn_self : (r : ProgressRow) → own_turn r r ≡ advanced c user e qs r
  unfolding advanced
  own_turn_self r = elim (Bool-cases (r.user_id == user)) [
    | inl mine ↦ rw (mine, advanced) (turn_self (find_quest r.quest_id qs) r mine)
    | inr other ↦ rw (other, advanced) refl
  ]

  advanced-key :
      (r : ProgressRow)
      → ((advanced c user e qs r).user_id ≡ r.user_id)
        × ((advanced c user e qs r).quest_id ≡ r.quest_id)
  unfolding advanced
  advanced-key r = elim (Bool-cases (r.user_id == user)) [
    | inr other ↦ rw other (refl, refl)
    | inl mine ↦ elim (Bool-cases r.completed) [
      | inl done ↦ rw (mine, done) (refl, refl)
      | inr more ↦ elim (Option-cases (counted c e (find_quest r.quest_id qs))) [
        | inl uncounted ↦ rw (mine, more, uncounted) (refl, refl)
        | inr (n, h) ↦ rw (mine, more, h) (refl, refl)
      ]
    ]
  ]

  settle :
      (rs : List ProgressRow)
      → HasDistinctKeys rs
      → map (rounds c user e (selected rs)) rs ≡ map (advanced c user e qs) rs
  settle [] h = refl
  settle (r ∷ rs) h =
      let (ku, ki) = advanced-key r in
      let later : IsAbsent (advanced c user e qs r).user_id (advanced c user e qs r).quest_id rs =
        rw (ku, ki) h.0 in
      let head =
        rounds-selected r rs r
        ∙ ap (rounds c user e (selected rs)) (own_turn_self r)
        ∙ rounds_absent rs (advanced c user e qs r) later in
      rw (head, rounds_others r rs rs h.0, settle rs h.1)

read_lem :
    (r : Result (Unit {0})) (m : Run Store (Unit {0})) (s : Store)
    → r ≡ ok tt
    → (lift r >> m) s ≡ m s
read_lem r m s h = rw h refl

-- Where all services answer, an event of a user changes nothing but the user's rows of active quests
-- that it counts for and that are not completed: their progress grows by the amount, and they are
-- completed exactly where it reaches what is required.
pub on_event-advanced :
    (c : Calls) (a : Answers c) (user : ℕ) (e : Event) (s : Store)
    → HasDistinctKeys s.progress
    → on_event c user e s
      ≡ (ok tt, record s { progress = map (advanced c user e s.quests) s.progress })
unfolding on_event get_user_active_quest_progress
on_event-advanced c a user e s h =
    read_lem c.read (get >>= λ t. on_each c user e (get_user_active_quest_progress user t)) s
      a.reads
    ∙ on_each_lem c user e a (selected c user e s.quests s.progress) s
    ∙ ap (λ t. (ok tt, with_progress s t)) (settle c user e s.quests s.progress h)
