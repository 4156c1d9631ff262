-- ===== src/Progression/Tree/Checks.antt =====
-- internal/progression/tree_loader.go: the checks of a configured tree, with those of tiers and sizes
-- (cost_calculator.go) and of dynamic prerequisites (prerequisite_parser.go).
pub mod Valid
use brandish_bot_go.Prelude.{
  ℕ, zero, suc, ◌+◌, Bool, true, false, not, ◌&&◌, ◌||◌, Option, none, some, List, [], ◌∷◌, ◌++◌,
  length, ltb, ◌==◌, if◌then◌else◌,
}
use brandish_bot_go.Prelude.Int.{ℤ, pos, leb_ℤ, ltb_ℤ, eq_ℤ}
use brandish_bot_go.Failure.{
  Result, ok, err, invalid_config, duplicate_node_key, missing_parent, prerequisite_not_found,
  no_progress, panic, fail_if, ◌>>=◌, ◌>>◌,
}
use brandish_bot_go.Progression.Tree.{
  PrereqType, nodes_unlocked_below_tier, total_nodes_unlocked, DynamicPrerequisite, Parsed, static,
  dynamic, NodeConfig, Traversal, out_of_fuel, failed, done, find_node, detect_cycles,
}

abbrev pub exists_node : Option NodeConfig → Bool
exists_node none = false
exists_node (some n) = true

abbrev pub validate_tier : ℤ → Result (Unit {0})
validate_tier tier = fail_if (ltb_ℤ tier (pos 0)) invalid_config

abbrev pub node_size_small : ℕ
node_size_small = 1

abbrev pub node_size_medium : ℕ
node_size_medium = 2

abbrev pub node_size_large : ℕ
node_size_large = 3

abbrev pub validate_size : ℕ → Result (Unit {0})
validate_size size =
    fail_if (not (size == node_size_small || (size == node_size_medium || size == node_size_large)))
      invalid_config

-- `validateNodeConfig`
abbrev pub validate_node_config : NodeConfig → List NodeConfig → Result (Unit {0})
validate_node_config n earlier = do
  fail_if (n.key == 0) invalid_config
  fail_if (exists_node (find_node earlier n.key)) duplicate_node_key
  fail_if (n.name == 0) invalid_config
  fail_if (n.node_type == 0) invalid_config
  fail_if (leb_ℤ n.max_level (pos 0)) invalid_config
  validate_tier n.tier
  validate_size n.size
  fail_if (n.category == 0) invalid_config

unfoldable pub validate_nodes : List NodeConfig → List NodeConfig → Result (Unit {0})
validate_nodes [] earlier = ok tt
validate_nodes (n ∷ ns) earlier = do validate_node_config n earlier; validate_nodes ns (n ∷ earlier)

abbrev pub validate_dynamic_tier : PrereqType → ℤ → Result (Unit {0})
validate_dynamic_tier nodes_unlocked_below_tier tier = validate_tier tier
validate_dynamic_tier total_nodes_unlocked tier = ok tt

-- `ValidateDynamicPrerequisite`
abbrev pub validate_dynamic_prerequisite : DynamicPrerequisite → Result (Unit {0})
validate_dynamic_prerequisite d = do
  fail_if (leb_ℤ d.count (pos 0)) invalid_config
  validate_dynamic_tier d.prereq_type d.tier

-- The checks of a dynamic prerequisite, and a static one is the key of a node.
abbrev pub validate_prerequisite : List NodeConfig → Result Parsed → Result (Unit {0})
validate_prerequisite nodes (err e) = err invalid_config
validate_prerequisite nodes (ok (dynamic d)) = validate_dynamic_prerequisite d
validate_prerequisite nodes (ok (static k)) =
    fail_if (not (exists_node (find_node nodes k))) missing_parent

module _ (parse : ℕ → Result Parsed) where
  unfoldable pub validate_each : List NodeConfig → List ℕ → Result (Unit {0})
  validate_each nodes [] = ok tt
  validate_each nodes (p ∷ ps) = do validate_prerequisite nodes (parse p); validate_each nodes ps

  unfoldable pub validate_all : List NodeConfig → List NodeConfig → Result (Unit {0})
  validate_all nodes [] = ok tt
  validate_all nodes (n ∷ ns) = do validate_each nodes n.prerequisites; validate_all nodes ns

  abbrev pub to_result : Traversal → Result (Unit {0})
  to_result out_of_fuel = err panic
  to_result (failed e) = err e
  to_result (done st) = ok tt

  -- `Validate`
  unfoldable pub validate : List NodeConfig → Result (Unit {0})
  unfolding validate_nodes validate_all validate_each detect_cycles
  validate [] = err invalid_config
  validate (n ∷ ns) = do
    validate_nodes (n ∷ ns) []
    validate_all (n ∷ ns) (n ∷ ns)
    to_result (detect_cycles parse (n ∷ ns))
