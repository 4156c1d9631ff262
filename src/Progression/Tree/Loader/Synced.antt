-- ===== src/Progression/Tree/Loader/Synced.antt =====
-- The loop that stores a checked tree ends with every node stored.
use brandish_bot_go.Prelude.{
  ℕ, zero, suc, ◌+◌, ◌-◌, ◌≤◌, ◌<◌, ◌≡◌, ◌⊎◌, refl, sym, ap, ◌∙◌, true, false, Option, some, List,
  [], ◌∷◌, length, IsIn, ltb, arith, Bool-cases, Option-cases, inl, inr,
}
use mathlib.Core.Path.{subst}
use brandish_bot_go.Failure.{Result, ok}
use brandish_bot_go.Progression.Tree.{Parsed, static, dynamic, NodeConfig, find_node}
use brandish_bot_go.Progression.Tree.Search.{IsStatic, Requires, IsNode, IsOrdered}
use brandish_bot_go.Progression.Tree.Calls.{IsClosed}
use brandish_bot_go.Progression.Tree.Cycles.{find_self, find_member}
use brandish_bot_go.Progression.Tree.Checks.{validate}
use brandish_bot_go.Progression.Tree.Loader.{
  ExistingNode, Calls, SyncState, is_member, is_met, are_prerequisites_met, sync_pass, sync_nodes,
  sync_to_database,
}
use brandish_bot_go.Progression.Tree.Checks.Valid.{
  ValidateOutcome, validate-ValidateOutcome, AllParse, IsTree,
}
use brandish_bot_go.Progression.Tree.Loader.Ids.{
  counted-le, all_counted, none_counted, total, counted, Answers, HasId,
}
use brandish_bot_go.Progression.Tree.Loader.Pass.{IsStored, pass_lem}

-- What the loop ends with.
abbrev pub IsSynced : List NodeConfig → Option (Result SyncState) → Type 0
IsSynced nodes o =
    (st : SyncState) × (o ≡ some (ok st))
    × ((n : NodeConfig) → IsIn n nodes → is_member n.key st.processed ≡ true)
    × (total st.result ≡ length nodes)

module _ (parse : ℕ → Result Parsed) (nodes : List NodeConfig) where
  -- A key of a node that is not processed.
  abbrev IsPending : List ℕ → ℕ → Type 0
  IsPending p k = IsNode parse nodes k × (is_member k p ≡ false)

  abbrev AllDone : List ℕ → List ℕ → Type 0
  AllDone p ks = (k : ℕ) → IsIn k ks → IsNode parse nodes k → is_member k p ≡ true

  -- Of an ordered list with a pending key one is pending with all its prerequisites processed.
  abbrev HasReady : List ℕ → Type 0
  HasReady p = (k : ℕ) × IsPending p k × ((y : ℕ) → Requires parse nodes k y → is_member y p ≡ true)

  done_or : (p : List ℕ) (k : ℕ) → IsPending p k ⊎ (IsNode parse nodes k → is_member k p ≡ true)
  done_or p k = elim (Bool-cases (is_member k p)) [
    | inl done ↦ inr (λ h. done)
    | inr open_still ↦ elim (Option-cases (find_node nodes k)) [
      | inl gone ↦ inr (λ h. let (n, found) = h in cc)
      | inr (n, found) ↦ inl ((n, found), open_still)
    ]
  ]

  ready_lem :
      (closed : IsClosed parse nodes) (p ks : List ℕ)
      → IsOrdered parse nodes ks
      → HasReady p ⊎ AllDone p ks
  ready_lem closed p [] sorted = inr (λ k i h. absurd i)
  ready_lem closed p (k ∷ ks) (first, sorted) = elim (ready_lem closed p ks sorted) [
    | inl ready ↦ inl ready
    | inr rest ↦ elim (done_or p k) [
      | inl pending ↦ inl (k, pending, λ y edge. rest y (first y edge) (closed k y edge))
      | inr done ↦ inr (λ x i h. elim i [
        | inl e ↦ subst (λ z. is_member z p ≡ true) (sym e) (done (subst (IsNode parse nodes) e h))
        | inr later ↦ rest x later h
      ])
    ]
  ]

  -- Where some node is left, one is ready.
  some_pending :
      (p : List ℕ) (ns : List NodeConfig)
      → counted p ns < length ns
      → (n : NodeConfig) × IsIn n ns × (is_member n.key p ≡ false)
  some_pending p [] lt = absurd (omega arith)
  some_pending p (n ∷ ns) lt = elim (Bool-cases (is_member n.key p)) [
    | inr open_still ↦ (n, inl refl, open_still)
    | inl old ↦
        let g : 1 + counted p ns < suc (length ns) = rw old at lt in
        let (m, i, new) = some_pending p ns (omega arith) in (m, inr i, new)
  ]

  find_ready : IsTree parse nodes → (p : List ℕ) → counted p nodes < length nodes → HasReady p
  find_ready (distinct, closed, (o, sorted, all), acyclic, parses) p lt =
      elim (ready_lem closed p o sorted) [
        | inl ready ↦ ready
        | inr done ↦
            let (n, i, new) = some_pending p nodes lt in
            let old = done n.key (all n i) (find_self parse nodes nodes n i) in cc
      ]

  module _ (existing : List ExistingNode) where
    met_lem :
        (ids : List (ℕ × ℕ)) (ps : List ℕ)
        → AllParse parse nodes ps
        → ((y : ℕ) → IsStatic parse nodes y ps → HasId parse existing ids y)
        → are_prerequisites_met parse existing ids ps ≡ true
    unfolding are_prerequisites_met
    met_lem ids [] parses has = refl
    met_lem ids (p ∷ ps) ((r, e), parses) has =
        rw (first r e) (met_lem ids ps parses (λ y i. has y (inr i)))
      where
        first : (r : Parsed) → parse p ≡ ok r → is_met parse existing ids (parse p) ≡ true
        first (static k) e = rw e (has k (inl e))
        first (dynamic n) e = rw e refl

    module _ (c : Calls) (a : Answers c) (tree : IsTree parse nodes) where
      abbrev IsHeld : SyncState → Type 0
      IsHeld st = IsStored parse existing c a nodes tree.0 st

      end_lem :
          (st : SyncState)
          → IsHeld st
          → length nodes ≤ length st.processed
          → IsSynced nodes (some (ok st))
      end_lem st (ids, count, sum) le =
          let most = counted-le st.processed nodes in
          let full : counted st.processed nodes ≡ length nodes = omega arith in
          (st, refl, all_counted st.processed nodes full, omega arith)

      -- A pass over an open tree makes progress.
      progress_lem :
          (st : SyncState)
          → IsHeld st
          → length st.processed < length nodes
          → (st' : SyncState) × (sync_pass parse existing c nodes st false ≡ ok (st', true))
            × IsHeld st'
            × (length st.processed < length st'.processed)
      progress_lem st held lt =
          let (k, ((n, found), new), done) = find_ready tree st.processed (omega (arith, held.1)) in
          let (i, e) = find_member parse nodes nodes k n found in
          let met =
            met_lem st.inserted_node_ids n.prerequisites (tree.4 n i)
              (λ y s. held.0 y (done y (n, found, s))) in
          let (st', p', run, kept, le, on, off, all) =
            pass_lem parse existing c a nodes tree.0 nodes st false (λ m j. j) held in
          let moved : p' ≡ true =
            all n i (subst (λ z. is_member z st.processed ≡ false) (sym e) new) met in
          (
            st',
            run ∙ ap (λ b. ok (st', b)) moved,
            kept,
            elim (off moved) [ inl h ↦ cc | inr more ↦ more ],
          )

      sync_nodes-IsSynced :
          (fuel : ℕ) (st : SyncState)
          → IsHeld st
          → length nodes - length st.processed < fuel
          → IsSynced nodes (sync_nodes parse existing c fuel nodes st)
      unfolding sync_nodes
      sync_nodes-IsSynced zero st held lt = absurd (omega arith)
      sync_nodes-IsSynced (suc fuel) st held lt =
          elim (Bool-cases (ltb (length st.processed) (length nodes))) [
            | inr closed ↦ rw closed (end_lem st held (ground (arith, closed)))
            | inl open_still ↦
                let (st', run, kept, more) = progress_lem st held (ground (arith, open_still)) in
                rw (open_still, run)
                  (sync_nodes-IsSynced fuel st' kept (ground (arith, open_still)))
          ]

-- A tree that passes the checks is stored where the storage answers: the loop ends, within one pass
-- for each node and one more test, with every node processed, and as many were inserted, updated or
-- skipped as there are nodes.
pub sync_to_database-IsSynced :
    (parse : ℕ → Result Parsed) (nodes : List NodeConfig) (existing : List ExistingNode) (c : Calls)
    → Answers c
    → validate parse nodes ≡ ok tt
    → IsSynced nodes (sync_to_database parse existing c nodes)
unfolding sync_to_database is_member
sync_to_database-IsSynced parse nodes existing c a valid =
    let tree : IsTree parse nodes =
      subst (ValidateOutcome parse nodes) valid (validate-ValidateOutcome parse nodes) in
    let start : SyncState = record {
      processed = [];
      inserted_node_ids = [];
      result = record {
        nodes_inserted = 0;
        nodes_updated = 0;
        nodes_skipped = 0;
        auto_unlocked = 0;
      };
    } in
    sync_nodes-IsSynced parse nodes existing c a tree (suc (length nodes)) start
      ((λ k h. cc), none_counted nodes, refl) (omega arith)
