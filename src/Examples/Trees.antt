-- ===== src/Examples/Trees.antt =====
-- The theorems on the progression tree at a concrete one, whose nodes stand before their
-- prerequisites.
use brandish_bot_go.Prelude.{ℕ, ◌==◌, if◌then◌else◌, ◌≡◌, refl, false, true, List, [], ◌∷◌}
use mathlib.Core.Path.{subst}
use brandish_bot_go.Prelude.Int.{pos}
use brandish_bot_go.Failure.{Result, ok, err, storage}
use brandish_bot_go.Progression.Tree.{
  nodes_unlocked_below_tier, Parsed, static, dynamic, NodeConfig, find_node, dfs_each, dfs,
  detect_from, detect_cycles,
}
use brandish_bot_go.Progression.Tree.Calls.{IsClosed}
use brandish_bot_go.Progression.Tree.Cycles.{DetectOutcome, detect_cycles-DetectOutcome}
use brandish_bot_go.Progression.Tree.Loader
use brandish_bot_go.Progression.Tree.Checks.{validate_nodes, validate_each, validate_all, validate}
use brandish_bot_go.Progression.Tree.Loader.{ExistingNode, sync_to_database}
use brandish_bot_go.Progression.Tree.Loader.Ids.{Answers}
use brandish_bot_go.Progression.Tree.Checks.Valid.{
  IsTree, ValidateOutcome, validate-ValidateOutcome,
}
use brandish_bot_go.Progression.Tree.Loader.Synced.{IsSynced, sync_to_database-IsSynced}

abbrev parse : ℕ → Result Parsed
parse p =
    if p == 100
    then ok
        (dynamic (record { prereq_type = nodes_unlocked_below_tier; tier = pos 2; count = pos 1 }))
    else ok (static p)

abbrev root_node : NodeConfig
root_node = record {
  key = 1;
  name = 10;
  node_type = 20;
  description = 0;
  tier = pos 0;
  size = 3;
  max_level = pos 1;
  category = 4;
  prerequisites = [];
  sort_order = pos 0;
  auto_unlock = true;
}

abbrev nodes : List NodeConfig
nodes =
    record root_node { key = 3; prerequisites = 2 ∷ 100 ∷ 1 ∷ []; auto_unlock = false }
    ∷ record root_node { key = 2; prerequisites = 1 ∷ [] }
    ∷ root_node
    ∷ []

validate-ValidateOutcome_example : ValidateOutcome parse nodes (validate parse nodes)
validate-ValidateOutcome_example = validate-ValidateOutcome parse nodes

is_valid : validate parse nodes ≡ ok tt
unfolding validate find_node dfs_each dfs detect_from detect_cycles validate_nodes validate_each
    validate_all
is_valid = refl

is_tree : IsTree parse nodes
is_tree = subst (ValidateOutcome parse nodes) is_valid (validate-ValidateOutcome parse nodes)

is_closed : IsClosed parse nodes
is_closed = is_tree.1

detect_cycles-DetectOutcome_example : DetectOutcome parse nodes (detect_cycles parse nodes)
detect_cycles-DetectOutcome_example = detect_cycles-DetectOutcome parse nodes is_closed

abbrev calls : Loader.Calls
calls = record {
  update_node = λ id. ok tt;
  insert_node = λ k. ok k;
  sync_prerequisites = λ id ids. ok tt;
  sync_dynamic_prerequisites = λ id. ok tt;
  sync_bonus_modifiers = λ k. ok tt;
  unlock_node = λ id. err storage;
}

all_answer : Answers calls
all_answer = record {
  updates = λ id. refl;
  inserts = λ k. (k, refl);
  prerequisites = λ id ids. refl;
  dynamics = λ id. refl;
  modifiers = λ k. refl;
}

sync_to_database-IsSynced_example : IsSynced nodes (sync_to_database parse [] calls nodes)
sync_to_database-IsSynced_example =
    sync_to_database-IsSynced parse nodes [] calls all_answer is_valid
