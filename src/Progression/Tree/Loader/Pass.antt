-- ===== src/Progression/Tree/Loader/Pass.antt =====
-- One pass over the nodes: it stores every node that is met and not stored yet.
use brandish_bot_go.Prelude.{
  ℕ, suc, ◌+◌, ◌≤◌, ◌<◌, ◌≡◌, ◌⊎◌, refl, sym, ap, ◌∙◌, Bool, true, false, Option, none, some, List,
  [], ◌∷◌, length, IsIn, ◌==◌, arith, Bool-cases, inl, inr,
}
use mathlib.Core.Path.{subst}
use brandish_bot_go.Failure.{Result, ok, err}
use brandish_bot_go.Progression.Tree.{Parsed, NodeConfig}
use brandish_bot_go.Progression.Tree.Loader.{
  ExistingNode, Calls, SyncResult, SyncState, find_existing, is_member, needs_update,
  are_prerequisites_met, sync_one_node, sync_prerequisites_and_modifiers, mark_processed,
  is_passed_over, pass_one, sync_pass, unlocked, inserted, updated, skipped, with_result,
}
use brandish_bot_go.Progression.Tree.Checks.Valid.{HasDistinctNodes}
use brandish_bot_go.Progression.Tree.Loader.Ids.{
  total, counted, Answers, counted_new, HasId, HasId-more, HasId-own, resolve_all, met_more,
}

module _ (parse : ℕ → Result Parsed) (existing : List ExistingNode) (c : Calls)
    (a : Answers c) where
  -- What storing one node does.
  abbrev Stores : ℕ → SyncState → SyncState → Type 0
  Stores k st st' =
      (st'.processed ≡ st.processed)
      × HasId parse existing st'.inserted_node_ids k
      × ((x : ℕ)
          → HasId parse existing st.inserted_node_ids x
          → HasId parse existing st'.inserted_node_ids x)
      × (total st'.result ≡ total st.result + 1)

  modifiers_lem :
      (id : ℕ) (n : NodeConfig) (ids : List (ℕ × ℕ))
      → are_prerequisites_met parse existing ids n.prerequisites ≡ true
      → sync_prerequisites_and_modifiers parse existing c id n ids ≡ ok tt
  modifiers_lem id n ids met =
      let (xs, e) = resolve_all parse existing ids n.prerequisites met in
      rw (e, a.prerequisites id xs, a.dynamics id, a.modifiers n.key) refl

  total-unlocked :
      (b : Bool) (r : Result (Unit {0})) (x : SyncResult)
      → total (unlocked parse existing c b r x) ≡ total x
  total-unlocked true (ok u) x = refl
  total-unlocked true (err e) x = refl
  total-unlocked false r x = refl

  store_lem :
      (n : NodeConfig) (o : Option ExistingNode) (st : SyncState)
      → find_existing n.key existing ≡ o
      → are_prerequisites_met parse existing st.inserted_node_ids n.prerequisites ≡ true
      → (st' : SyncState) × (sync_one_node parse existing c n o st ≡ ok st') × Stores n.key st st'
  store_lem n (some x) st found met = elim (Bool-cases (needs_update x n)) [
    | inl changed ↦ (
      with_result parse existing c st (updated parse existing c),
      rw (changed, a.updates x.id, modifiers_lem x.id n st.inserted_node_ids met) refl,
      (refl, rw found refl, λ y h. h, omega arith),
    )
    | inr same ↦ (
      with_result parse existing c st (skipped parse existing c),
      rw same refl,
      (refl, rw found refl, λ y h. h, omega arith),
    )
  ]
  store_lem n none st found met =
      let (id, e) = a.inserts n.key in
      let ids : List (ℕ × ℕ) = (n.key, id) ∷ st.inserted_node_ids in
      let met' = met_more parse existing st.inserted_node_ids n.key id n.prerequisites met in
      let st' : SyncState = record st {
        inserted_node_ids = ids;
        result =
            unlocked parse existing c n.auto_unlock (c.unlock_node id)
              (inserted parse existing c st.result);
      } in
      (
        st',
        rw (e, modifiers_lem id n ids met') refl,
        (
          refl,
          HasId-own parse existing st.inserted_node_ids n.key id,
          λ y h. HasId-more parse existing st.inserted_node_ids n.key id y h,
          total-unlocked n.auto_unlock (c.unlock_node id) (inserted parse existing c st.result)
              ∙ omega arith,
        ),
      )

  module _ (nodes : List NodeConfig) (distinct : HasDistinctNodes nodes) where
    -- What holds between the passes.
    abbrev pub IsStored : SyncState → Type 0
    IsStored st =
        ((k : ℕ) → is_member k st.processed ≡ true → HasId parse existing st.inserted_node_ids k)
        × (counted st.processed nodes ≡ length st.processed)
        × (total st.result ≡ length st.processed)

    mark_lem :
        (n : NodeConfig) (st st' : SyncState)
        → IsIn n nodes
        → is_member n.key st.processed ≡ false
        → IsStored st
        → Stores n.key st st'
        → IsStored (mark_processed parse existing c n.key st')
    unfolding is_member
    mark_lem n st st' i new (ids, count, sum) (same, own, grown, one_more) = (
      λ k h. elim (Bool-cases (n.key == k)) [
        | inl e ↦
            let g : n.key ≡ k = ground (arith, e) in
            subst (HasId parse existing st'.inserted_node_ids) g own
        | inr other ↦
            let old : is_member k st'.processed ≡ true = rw other at h in
            grown k (ids k (subst (λ p. is_member k p ≡ true) same old))
      ],
      subst (λ p. counted (n.key ∷ p) nodes ≡ suc (length p)) (sym same)
          (omega (arith, counted_new parse existing st.processed n nodes i distinct new, count)),
      omega (arith, one_more, sum, ap length same),
    )

    -- A pass from a state, with the flag of its progress.
    abbrev pub Passes : List NodeConfig → SyncState → Bool → Result (SyncState × Bool) → Type 0
    Passes ns st progress r =
        (st' : SyncState) × (progress' : Bool) × (r ≡ ok (st', progress'))
        × IsStored st'
        × (length st.processed ≤ length st'.processed)
        × (progress ≡ true → progress' ≡ true)
        × (progress' ≡ true → (progress ≡ true) ⊎ (length st.processed < length st'.processed))
        × ((n : NodeConfig)
            → IsIn n ns
            → is_member n.key st.processed ≡ false
            → are_prerequisites_met parse existing st.inserted_node_ids n.prerequisites ≡ true
            → progress' ≡ true)

    pass_over :
        (n : NodeConfig) (ns : List NodeConfig) (st : SyncState) (progress : Bool)
        (r : Result (SyncState × Bool))
        → is_passed_over parse existing c n st ≡ true
        → Passes ns st progress r
        → Passes (n ∷ ns) st progress r
    pass_over n ns st progress r over (st', p', run, kept, le, on, off, all) = (
      st',
      p',
      run,
      kept,
      le,
      on,
      off,
      λ m i new met. elim i [
        | inl e ↦
            let g : is_passed_over parse existing c n st ≡ false =
              subst (λ x. is_passed_over parse existing c x st ≡ false) e (rw (new, met) refl) in
            cc
        | inr later ↦ all m later new met
      ],
    )

    pass_stored :
        (n : NodeConfig) (ns : List NodeConfig) (st st' : SyncState) (progress : Bool)
        (r : Result (SyncState × Bool))
        → st'.processed ≡ st.processed
        → Passes ns (mark_processed parse existing c n.key st') true r
        → Passes (n ∷ ns) st progress r
    pass_stored n ns st st' progress r same (t, p', run, kept, le, on, off, all) = (
      t,
      p',
      run,
      kept,
      omega (arith, ap length same),
      λ h. on refl,
      λ h. inr (omega (arith, ap length same)),
      λ m i new met. on refl,
    )

    pass_one_lem :
        (n : NodeConfig) (ns : List NodeConfig) (st : SyncState) (progress b : Bool)
        → is_passed_over parse existing c n st ≡ b
        → IsIn n nodes
        → IsStored st
        → ((t : SyncState) (q : Bool)
            → IsStored t
            → Passes ns t q (sync_pass parse existing c ns t q))
        → Passes
            (n ∷ ns)
            st
            progress
            (pass_one parse existing c (sync_pass parse existing c ns) n b st progress)
    pass_one_lem n ns st progress true over i stored rec =
        pass_over n ns st progress _ over (rec st progress stored)
    pass_one_lem n ns st progress false over i stored rec =
        let new : is_member n.key st.processed ≡ false = ground (arith, over) in
        let met : are_prerequisites_met parse existing st.inserted_node_ids n.prerequisites ≡ true =
          ground (arith, over) in
        let (st', run, stores) = store_lem n (find_existing n.key existing) st refl met in
        rw run (
          pass_stored n ns st st' progress _ stores.0 (
            rec (mark_processed parse existing c n.key st') true
              (mark_lem n st st' i new stored stores)))

    pub pass_lem :
        (ns : List NodeConfig) (st : SyncState) (progress : Bool)
        → ((n : NodeConfig) → IsIn n ns → IsIn n nodes)
        → IsStored st
        → Passes ns st progress (sync_pass parse existing c ns st progress)
    unfolding sync_pass
    pass_lem [] st progress sub stored =
        (st, progress, refl, stored, omega arith, λ h. h, λ h. inl h, λ n i. absurd i)
    pass_lem (n ∷ ns) st progress sub stored =
        pass_one_lem n ns st progress (is_passed_over parse existing c n st) refl (sub n (inl refl))
          stored (λ t q s. pass_lem ns t q (λ m i. sub m (inr i)) s)
