-- ===== src/Gamble/Execute/Once.antt =====
-- What ExecuteGamble leaves behind, and that it does so once.
use brandish_bot_go.Prelude.{
  ◌≡◌, ◌⊎◌, refl, true, false, not, Option, none, some, List, [], length, ltb, arith, Bool-cases,
  inl, inr,
}
use mathlib.Core.Path.{subst}
use brandish_bot_go.Failure.{
  Result, ok, err, not_in_joining_state, already_executed, panic, required, fail_if, transact, ◌>>◌,
  with_ok, fail_if-eq-ok,
}
use brandish_bot_go.Gamble.{GambleState, joining, Gamble, GambleOpenedItem, is_joining}
use brandish_bot_go.Gamble.Winner.{determine_gamble_winners}
use brandish_bot_go.Gamble.Execute.Ends.{
  Refunded, Opened, Ended, is_joining_eq, cancel_steps_lem, open_steps_lem,
}
use brandish_bot_go.Gamble.Execute.{
  Calls, World, GambleResult, is_completed, transition_to_opening, refund_all,
  open_participants_lootboxes, user_values, award, end_steps, run_steps, cancel_steps, open_steps,
  execute_steps, execute_gamble,
}

end_steps_lem :
    (c : Calls) (g : Gamble) (w w' : World) (r : GambleResult)
    → end_steps c g w ≡ ok (some r, w')
    → Refunded c g w r w' ⊎ Opened c g w r w'
end_steps_lem c g w w' r h = elim (Bool-cases (ltb (length g.participants) 2)) [
  | inl few ↦ inl (cancel_steps_lem c g w w' r (ground (arith, few)) (rw few at h))
  | inr many ↦ inr (open_steps_lem c g w w' r (ground (arith, many)) (rw many at h))
]

joining_lem :
    (c : Calls) (s : GambleState) (w : World) {u : Unit {0}}
    → s ≡ joining
    → transition_to_opening c s w ≡ ok u
    → w.state ≡ joining
joining_lem c s w e h =
    let run : (c.transition >> fail_if (not (is_joining w.state)) already_executed) ≡ ok _ =
      rw e at h in
    with_ok c.transition _ run λ u1 e1 h1.
      let is_not = fail_if-eq-ok (not (is_joining w.state)) already_executed h1 in
      is_joining_eq w.state (ground (arith, is_not))

run_steps_lem :
    (c : Calls) (g : Gamble) (w w' : World) (r : GambleResult)
    → run_steps c g w ≡ ok (some r, w')
    → Ended c g w r w'
run_steps_lem c g w w' r h =
    with_ok (fail_if (not (is_joining g.state)) not_in_joining_state) _ h λ u1 e1 h1.
      with_ok c.begin_tx _ h1 λ u2 e2 h2.
        with_ok (transition_to_opening c g.state w) _ h2 λ u3 e3 h3.
          let is_not = fail_if-eq-ok (not (is_joining g.state)) not_in_joining_state e1 in
          let reads : g.state ≡ joining = is_joining_eq g.state (ground (arith, is_not)) in
          (joining_lem c g.state w reads e3, reads, end_steps_lem c g w w' r h3)

no_result_absurd : (c : Calls) (g : Gamble) (w w' : World) → end_steps c g w ≡ ok (none, w') → ⊥
unfolding cancel_steps open_steps
no_result_absurd c g w w' h = elim (Bool-cases (ltb (length g.participants) 2)) [
  | inl few ↦
      let run : cancel_steps c g.participants w ≡ ok (none, w') = rw few at h in
      with_ok (refund_all c g.participants w.inventories) _ run λ inventories e1 h1.
        with_ok c.mark_refunded _ h1 λ u2 e2 h2. with_ok c.commit _ h2 λ u3 e3 h3. cc
  | inr many ↦
      let run : open_steps c g.participants w ≡ ok (none, w') = rw many at h in
      let items : List GambleOpenedItem = open_participants_lootboxes c g.participants in
      let found = determine_gamble_winners c.rng (c.iterate (user_values items [])) in
      with_ok c.save_opened _ run λ u1 e1 h1. with_ok (required found panic) _ h1 λ winners e2 h2.
        with_ok (award c w.inventories winners.winner_id items) _ h2 λ inventories e3 h3.
          with_ok c.complete _ h3 λ u4 e4 h4. with_ok c.commit _ h4 λ u5 e5 h5. cc
]

run_absurd : (c : Calls) (g : Gamble) (w w' : World) → run_steps c g w ≡ ok (none, w') → ⊥
run_absurd c g w w' h =
    with_ok (fail_if (not (is_joining g.state)) not_in_joining_state) _ h λ u1 e1 h1.
      with_ok c.begin_tx _ h1 λ u2 e2 h2.
        with_ok (transition_to_opening c g.state w) _ h2 λ u3 e3 h3. no_result_absurd c g w w' h3

-- What ExecuteGamble leaves behind, by how it ends.
abbrev pub ExecuteOutcome :
    Calls → Result (Option Gamble) → World → Result (Option GambleResult) × World → Type 0
ExecuteOutcome c read w (err e, w') = w' ≡ w
ExecuteOutcome c read w (ok none, w') =
    (g : Gamble) × (read ≡ ok (some g)) × (is_completed g.state ≡ true) × (w' ≡ w)
ExecuteOutcome c read w (ok (some r), w') = (g : Gamble) × (read ≡ ok (some g)) × Ended c g w r w'

-- The result of an execution that finds the gamble completed.
abbrev kept : World → Result (Option GambleResult × World)
kept w = ok (none, w)

steps_lem :
    (c : Calls) (g : Gamble) (w w' : World) (o : Option GambleResult)
    → execute_steps c g w ≡ ok (o, w')
    → ExecuteOutcome c (ok (some g)) w (ok o, w')
unfolding execute_steps
steps_lem c g w w' none h = elim (Bool-cases (is_completed g.state)) [
  | inl done ↦ let e : kept w ≡ kept w' = rw done at h in (g, refl, done, cc)
  | inr running ↦ absurd (run_absurd c g w w' (rw running at h))
]
steps_lem c g w w' (some r) h = elim (Bool-cases (is_completed g.state)) [
  | inl done ↦ let e : kept w ≡ ok (some r, w') = rw done at h in cc
  | inr running ↦ (g, refl, run_steps_lem c g w w' r (rw running at h))
]

-- An execution that returns an error, or finds the gamble completed, changes nothing. Any other was
-- of a gamble that is joining, both as it was read and as it is stored, and ends it. With under two
-- participants it is refunded, and everyone gains what the resolved bets hold. With two or more it is
-- completed: the map holds for each user what all is worth that the user opened; the winner has the
-- highest value of those that the map gives, where it gives any, and gains all that was opened of
-- each item, and nobody else gains anything.
pub execute_gamble-ExecuteOutcome :
    (c : Calls) (read : Result (Option Gamble)) (w : World)
    → ExecuteOutcome c read w (execute_gamble c read w)
unfolding execute_gamble
execute_gamble-ExecuteOutcome c (err e) w = refl
execute_gamble-ExecuteOutcome c (ok none) w = refl
execute_gamble-ExecuteOutcome c (ok (some g)) w = outcome (execute_steps c g w) refl
  where
    outcome :
        (r : Result (Option GambleResult × World))
        → execute_steps c g w ≡ r
        → ExecuteOutcome c (ok (some g)) w (transact w r)
    outcome (err e) h = refl
    outcome (ok (o, w')) h = steps_lem c g w w' o h

not_joining :
    (c : Calls) (g : Gamble) (w w' : World) (r : GambleResult)
    → Ended c g w r w'
    → is_joining w'.state ≡ false
not_joining c g w w' r ended = elim (ended.2) [
  | inl gone ↦ rw gone.1 refl
  | inr done ↦ rw done.1 refl
]

unchanged :
    (c : Calls) (read : Result (Option Gamble)) (w : World)
    (x : Result (Option GambleResult) × World)
    → is_joining w.state ≡ false
    → ExecuteOutcome c read w x
    → x.1 ≡ w
unchanged c read w (err e, w') n h = h
unchanged c read w (ok none, w') n h = h.3
unchanged c read w (ok (some r), w') n (g, _, ended) =
    let e : is_joining w.state ≡ true = rw ended.0 refl in cc

-- After an execution that ended a gamble every other changes nothing, whatever was read before: the
-- bets are paid once.
pub execute_gamble-once :
    (c c' : Calls) (read read' : Result (Option Gamble)) (w w' : World) (r : GambleResult)
    → execute_gamble c read w ≡ (ok (some r), w')
    → (execute_gamble c' read' w').1 ≡ w'
execute_gamble-once c c' read read' w w' r h =
    let (g, _, ended) : ExecuteOutcome c read w (ok (some r), w') =
      subst (ExecuteOutcome c read w) h (execute_gamble-ExecuteOutcome c read w) in
    unchanged c' read' w' (execute_gamble c' read' w') (not_joining c g w w' r ended)
      (execute_gamble-ExecuteOutcome c' read' w')
