-- ===== src/Progression/Tree/Loader.antt =====
-- internal/progression/tree_loader.go and tree_loader_helpers.go: the loop that
-- stores the nodes of a configured tree.
--
-- What the storage writes is left out but for the ids of new nodes; its answers are in `Calls`, and it
-- has the optional interfaces that store prerequisites and modifiers. The loop runs on fuel; `none` is
-- that it ran out.
pub mod Ids
pub mod Pass
pub mod Synced
use brandish_bot_go.Prelude.{
  ℕ, zero, suc, ◌+◌, Bool, true, false, not, ◌&&◌, ◌||◌, Option, none, some, List, [], ◌∷◌, ◌++◌,
  length, ltb, ◌==◌, if◌then◌else◌,
}
use brandish_bot_go.Prelude.Int.{ℤ, pos, leb_ℤ, ltb_ℤ, eq_ℤ}
use brandish_bot_go.Failure.{
  Result, ok, err, invalid_config, duplicate_node_key, missing_parent, prerequisite_not_found,
  no_progress, panic, fail_if, ◌>>=◌, ◌>>◌,
}
use brandish_bot_go.Progression.Tree.{
  PrereqType, nodes_unlocked_below_tier, total_nodes_unlocked, DynamicPrerequisite, Parsed, static,
  dynamic, NodeConfig, Traversal, out_of_fuel, failed, done, find_node, detect_cycles,
}

pub record ExistingNode : Type 0 where
  pub id : ℕ
  pub node_key : ℕ
  pub display_name : ℕ
  pub description : ℕ
  pub max_level : ℤ
  pub sort_order : ℤ
  pub node_type : ℕ
  pub tier : ℤ
  pub size : ℕ
  pub category : ℕ

pub record Calls : Type 0 where
  pub update_node : ℕ → Result (Unit {0})
  pub insert_node : ℕ → Result ℕ  -- also where no cost can be calculated
  pub sync_prerequisites : ℕ → List ℕ → Result (Unit {0})
  pub sync_dynamic_prerequisites : ℕ → Result (Unit {0})
  pub sync_bonus_modifiers : ℕ → Result (Unit {0})
  pub unlock_node : ℕ → Result (Unit {0})

pub record SyncResult : Type 0 where
  pub nodes_inserted : ℕ
  pub nodes_updated : ℕ
  pub nodes_skipped : ℕ
  pub auto_unlocked : ℕ

-- The variables of `SyncToDatabase`.
pub record SyncState : Type 0 where
  pub processed : List ℕ
  pub inserted_node_ids : List (ℕ × ℕ)
  pub result : SyncResult

unfoldable pub find_existing : ℕ → List ExistingNode → Option ExistingNode
find_existing k [] = none
find_existing k (x ∷ xs) = if x.node_key == k then some x else find_existing k xs

unfoldable pub find_id : ℕ → List (ℕ × ℕ) → Option ℕ
find_id k [] = none
find_id k ((key, id) ∷ ids) = if key == k then some id else find_id k ids

unfoldable pub is_member : ℕ → List ℕ → Bool
is_member k [] = false
is_member k (x ∷ xs) = x == k || is_member k xs

-- The id of a static prerequisite: of an existing node first.
abbrev pub id_or : Option ExistingNode → Option ℕ → Result ℕ
id_or (some x) o = ok x.id
id_or none (some id) = ok id
id_or none none = err prerequisite_not_found

abbrev pub is_some : Result ℕ → Bool
is_some (ok id) = true
is_some (err e) = false

-- `needsUpdate`: prerequisites and modifiers are not compared.
abbrev pub needs_update : ExistingNode → NodeConfig → Bool
needs_update x n = not (
    x.display_name == n.name
    && (x.description == n.description
        && (eq_ℤ x.max_level n.max_level
            && (eq_ℤ x.sort_order n.sort_order
                && (x.node_type == n.node_type
                    && (eq_ℤ x.tier n.tier && (x.size == n.size && x.category == n.category)))))))

module _ (parse : ℕ → Result Parsed) (existing : List ExistingNode) where
  abbrev pub lookup_id : ℕ → List (ℕ × ℕ) → Result ℕ
  lookup_id k ids = id_or (find_existing k existing) (find_id k ids)

  -- `arePrerequisitesMet`
  abbrev pub is_met : List (ℕ × ℕ) → Result Parsed → Bool
  is_met ids (err e) = false
  is_met ids (ok (dynamic d)) = true
  is_met ids (ok (static k)) = is_some (lookup_id k ids)

  unfoldable pub are_prerequisites_met : List (ℕ × ℕ) → List ℕ → Bool
  are_prerequisites_met ids [] = true
  are_prerequisites_met ids (p ∷ ps) = is_met ids (parse p) && are_prerequisites_met ids ps

  -- The ids that `syncPrerequisites` resolves.
  abbrev pub resolve_one : List (ℕ × ℕ) → Result Parsed → Result (List ℕ)
  resolve_one ids (err e) = err e
  resolve_one ids (ok (dynamic d)) = ok []
  resolve_one ids (ok (static k)) = do id ← lookup_id k ids; ok (id ∷ [])

  unfoldable pub resolve_prerequisites : List (ℕ × ℕ) → List ℕ → Result (List ℕ)
  resolve_prerequisites ids [] = ok []
  resolve_prerequisites ids (p ∷ ps) = do
    found ← resolve_one ids (parse p)
    rest ← resolve_prerequisites ids ps
    ok (found ++ rest)

  module _ (c : Calls) where
    -- `syncPrerequisitesAndModifiers`
    abbrev pub sync_prerequisites_and_modifiers : ℕ → NodeConfig → List (ℕ × ℕ) → Result (Unit {0})
    sync_prerequisites_and_modifiers id n ids = do
      prereqs ← resolve_prerequisites ids n.prerequisites
      c.sync_prerequisites id prereqs
      c.sync_dynamic_prerequisites id
      c.sync_bonus_modifiers n.key

    abbrev pub skipped : SyncResult → SyncResult
    skipped r = record r { nodes_skipped = r.nodes_skipped + 1 }

    abbrev pub updated : SyncResult → SyncResult
    updated r = record r { nodes_updated = r.nodes_updated + 1 }

    abbrev pub inserted : SyncResult → SyncResult
    inserted r = record r { nodes_inserted = r.nodes_inserted + 1 }

    -- An error of the unlock is logged.
    abbrev pub unlocked : Bool → Result (Unit {0}) → SyncResult → SyncResult
    unlocked true (ok u) r = record r { auto_unlocked = r.auto_unlocked + 1 }
    unlocked true (err e) r = r
    unlocked false u r = r

    abbrev pub with_result : SyncState → (SyncResult → SyncResult) → SyncState
    with_result st f = record st { result = f st.result }

    -- `syncExistingNode`
    abbrev pub sync_existing_node : NodeConfig → ExistingNode → SyncState → Result SyncState
    sync_existing_node n x st =
        if needs_update x n
        then c.update_node x.id
          >> (sync_prerequisites_and_modifiers x.id n st.inserted_node_ids
              >> ok (with_result st updated))
        else ok (with_result st skipped)

    -- `syncNewNode`
    abbrev pub sync_new_node : NodeConfig → SyncState → Result SyncState
    sync_new_node n st = do
      id ← c.insert_node n.key
      let ids = (n.key, id) ∷ st.inserted_node_ids
      sync_prerequisites_and_modifiers id n ids
      ok (record st {
        inserted_node_ids = ids;
        result = unlocked n.auto_unlock (c.unlock_node id) (inserted st.result);
      })

    -- `syncOneNode`
    abbrev pub sync_one_node : NodeConfig → Option ExistingNode → SyncState → Result SyncState
    sync_one_node n (some x) st = sync_existing_node n x st
    sync_one_node n none st = sync_new_node n st

    abbrev pub mark_processed : ℕ → SyncState → SyncState
    mark_processed k st = record st { processed = k ∷ st.processed }

    abbrev pub is_passed_over : NodeConfig → SyncState → Bool
    is_passed_over n st =
        is_member n.key st.processed
        || not (are_prerequisites_met st.inserted_node_ids n.prerequisites)

    abbrev pub pass_one :
        (SyncState → Bool → Result (SyncState × Bool))
        → NodeConfig
        → Bool
        → SyncState
        → Bool
        → Result (SyncState × Bool)
    pass_one rec n true st progress = rec st progress
    pass_one rec n false st progress = sync_one_node n (find_existing n.key existing) st >>= λ st'.
        rec (mark_processed n.key st') true

    -- One pass over the nodes, with whether it made progress.
    unfoldable pub sync_pass : List NodeConfig → SyncState → Bool → Result (SyncState × Bool)
    sync_pass [] st progress = ok (st, progress)
    sync_pass (n ∷ ns) st progress = pass_one (sync_pass ns) n (is_passed_over n st) st progress

    -- After a pass: without progress the loop gives up.
    abbrev pub after_pass :
        (SyncState → Option (Result SyncState))
        → Result (SyncState × Bool)
        → Option (Result SyncState)
    after_pass rec (err e) = some (err e)
    after_pass rec (ok (st, false)) = some (err no_progress)
    after_pass rec (ok (st, true)) = rec st

    abbrev pub while_open :
        (SyncState → Option (Result SyncState))
        → List NodeConfig
        → Bool
        → SyncState
        → Option (Result SyncState)
    while_open rec nodes false st = some (ok st)
    while_open rec nodes true st = after_pass rec (sync_pass nodes st false)

    unfoldable pub sync_nodes : ℕ → List NodeConfig → SyncState → Option (Result SyncState)
    sync_nodes zero nodes st = none
    sync_nodes (suc fuel) nodes st =
        while_open (sync_nodes fuel nodes) nodes (ltb (length st.processed) (length nodes)) st

    -- The loop of `SyncToDatabase` over a tree whose file has changed.
    unfoldable pub sync_to_database : List NodeConfig → Option (Result SyncState)
    unfolding sync_nodes
    sync_to_database nodes = sync_nodes (suc (length nodes)) nodes (record {
      processed = [];
      inserted_node_ids = [];
      result = record {
        nodes_inserted = 0;
        nodes_updated = 0;
        nodes_skipped = 0;
        auto_unlocked = 0;
      };
    })
