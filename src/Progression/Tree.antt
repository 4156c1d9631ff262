-- ===== src/Progression/Tree.antt =====
-- internal/progression/tree_loader.go: the search for cycles in the static prerequisites of the
-- configured nodes.
--
-- The marks of the search (0, 1 and 2 in the source) are a function of the key. A prerequisite is a
-- number as all strings are, and `parse` is ParsePrerequisite. The search runs on fuel.
pub mod Search
pub mod Calls
pub mod Cycles
pub mod Checks
pub mod Loader
use brandish_bot_go.Prelude.{
  ℕ, zero, suc, ◌≡◌, Bool, true, false, Option, none, some, List, [], ◌∷◌, length, ◌==◌,
  if◌then◌else◌,
}
use brandish_bot_go.Prelude.Int.{ℤ}
use brandish_bot_go.Failure.{Error, Result, ok, err, cycle_detected, panic}

pub data PrereqType : Type 0 where
  nodes_unlocked_below_tier total_nodes_unlocked : PrereqType

pub record DynamicPrerequisite : Type 0 where
  pub prereq_type : PrereqType
  pub tier : ℤ
  pub count : ℤ

-- What ParsePrerequisite reads.
pub data Parsed : Type 0 where
  static : (key : ℕ) → Parsed
  dynamic : DynamicPrerequisite → Parsed

-- Strings are numbers, 0 the empty string.
pub record NodeConfig : Type 0 where
  pub key : ℕ
  pub name : ℕ
  pub node_type : ℕ
  pub description : ℕ
  pub tier : ℤ
  pub size : ℕ
  pub max_level : ℤ
  pub category : ℕ
  pub prerequisites : List ℕ
  pub sort_order : ℤ
  pub auto_unlock : Bool

pub data Mark : Type 0 where
  unvisited visiting visited : Mark

abbrev pub Marks : Type 0
Marks = ℕ → Mark

abbrev pub set_mark : ℕ → Mark → Marks → Marks
set_mark k m st x = if x == k then m else st x

-- The end of a search.
pub data Traversal : Type 0 where
  out_of_fuel : Traversal
  failed : Error → Traversal
  done : Marks → Traversal

abbrev pub continue : Traversal → (Marks → Traversal) → Traversal
continue out_of_fuel f = out_of_fuel
continue (failed e) f = failed e
continue (done st) f = f st

-- `nodesByKey[key]`
unfoldable pub find_node : List NodeConfig → ℕ → Option NodeConfig
find_node [] k = none
find_node (n ∷ ns) k = if n.key == k then some n else find_node ns k

module _ (parse : ℕ → Result Parsed) where
  -- Dynamic and invalid prerequisites are passed over.
  abbrev pub dfs_one : (ℕ → Marks → Traversal) → Result Parsed → Marks → Traversal
  dfs_one rec (err e) st = done st
  dfs_one rec (ok (dynamic n)) st = done st
  dfs_one rec (ok (static k)) st = rec k st

  unfoldable pub dfs_each : (ℕ → Marks → Traversal) → List ℕ → Marks → Traversal
  dfs_each rec [] st = done st
  dfs_each rec (p ∷ ps) st = continue (dfs_one rec (parse p) st) (dfs_each rec ps)

  abbrev pub finish : ℕ → Marks → Traversal
  finish k st = done (set_mark k visited st)

  abbrev pub enter : (ℕ → Marks → Traversal) → ℕ → Option NodeConfig → Marks → Traversal
  enter rec k none st = failed panic
  enter rec k (some node) st =
      continue (dfs_each rec node.prerequisites (set_mark k visiting st)) (finish k)

  abbrev pub by_mark : List NodeConfig → Mark → (ℕ → Marks → Traversal) → ℕ → Marks → Traversal
  by_mark nodes visiting rec k st = failed cycle_detected
  by_mark nodes visited rec k st = done st
  by_mark nodes unvisited rec k st = enter rec k (find_node nodes k) st

  -- `dfs` of `detectCycles`
  unfoldable pub dfs : List NodeConfig → ℕ → ℕ → Marks → Traversal
  dfs nodes zero k st = out_of_fuel
  dfs nodes (suc n) k st = by_mark nodes (st k) (dfs nodes n) k st

  abbrev pub start_at : Mark → (ℕ → Marks → Traversal) → ℕ → Marks → Traversal
  start_at unvisited rec k st = rec k st
  start_at visiting rec k st = done st
  start_at visited rec k st = done st

  unfoldable pub detect_from : (ℕ → Marks → Traversal) → List NodeConfig → Marks → Traversal
  detect_from rec [] st = done st
  detect_from rec (n ∷ ns) st = continue (start_at (st n.key) rec n.key st) (detect_from rec ns)

  -- `detectCycles`
  unfoldable pub detect_cycles : List NodeConfig → Traversal
  unfolding dfs detect_from
  detect_cycles nodes = detect_from (dfs nodes (suc (length nodes))) nodes (λ k. unvisited)
