-- ===== src/Progression/Tree/Checks/Valid.antt =====
-- What the checks of a configured tree establish.
use brandish_bot_go.Prelude.{
  ℕ, ◌≡◌, ◌≢◌, refl, sym, Bool, true, false, not, Option, none, some, List, [], ◌∷◌, IsIn, ◌==◌,
  arith, Bool-cases, inl, inr,
}
use mathlib.Core.Path.{subst}
use brandish_bot_go.Prelude.Int.{ℤ, pos, leb_ℤ, ltb_ℤ}
use brandish_bot_go.Failure.{
  Error, Result, ok, err, invalid_config, duplicate_node_key, missing_parent, panic, fail_if, ◌>>◌,
  with_ok, fail_if-eq-ok,
}
use brandish_bot_go.Progression.Tree.{
  PrereqType, nodes_unlocked_below_tier, total_nodes_unlocked, Parsed, static, dynamic, NodeConfig,
  Traversal, out_of_fuel, failed, done, find_node, detect_cycles,
}
use brandish_bot_go.Progression.Tree.Search.{IsStatic, IsNode, HasCycle}
use brandish_bot_go.Progression.Tree.Calls.{IsClosed}
use brandish_bot_go.Progression.Tree.Cycles.{
  HasOrder, DetectOutcome, detect_cycles-DetectOutcome, find_self, find_member,
}
use brandish_bot_go.Progression.Tree.Checks.{
  exists_node, validate_tier, validate_size, validate_dynamic_tier, validate_node_config,
  validate_nodes, validate_prerequisite, validate_each, validate_all, to_result, validate,
}

-- No two nodes have one key.
abbrev pub HasDistinctNodes : List NodeConfig → Type 0
HasDistinctNodes [] = Unit {0}
HasDistinctNodes (n ∷ ns) = (find_node ns n.key ≡ none) × HasDistinctNodes ns

exists_node_lem : (o : Option NodeConfig) → exists_node o ≡ false → o ≡ none
exists_node_lem none h = refl
exists_node_lem (some n) h = cc

exists_node-some : (o : Option NodeConfig) → exists_node o ≡ true → (n : NodeConfig) × (o ≡ some n)
exists_node-some none h = cc
exists_node-some (some n) h = (n, refl)

new_key_lem :
    (n : NodeConfig) (earlier : List NodeConfig)
    → validate_node_config n earlier ≡ ok tt
    → find_node earlier n.key ≡ none
new_key_lem n earlier h = with_ok (fail_if (n.key == 0) invalid_config) _ h λ u1 e1 h1.
    with_ok (fail_if (exists_node (find_node earlier n.key)) duplicate_node_key) _ h1 λ u2 e2 h2.
      exists_node_lem (find_node earlier n.key)
        (fail_if-eq-ok (exists_node (find_node earlier n.key)) duplicate_node_key e2)

module _ (parse : ℕ → Result Parsed) where
  distinct_lem :
      (ns earlier : List NodeConfig)
      → validate_nodes ns earlier ≡ ok tt
      → ((m : NodeConfig) → IsIn m earlier → find_node ns m.key ≡ none) × HasDistinctNodes ns
  unfolding validate_nodes find_node
  distinct_lem [] earlier h = (λ m i. refl, tt)
  distinct_lem (n ∷ ns) earlier h = with_ok (validate_node_config n earlier) _ h λ u e1 h1.
      let (away, distinct) = distinct_lem ns (n ∷ earlier) h1 in
      let new = new_key_lem n earlier e1 in
      (
        λ m i. elim (Bool-cases (n.key == m.key)) [
          | inr other ↦ rw other (away m (inr i))
          | inl same ↦
              let (x, found) = find_self parse earlier earlier m i in
              let e : m.key ≡ n.key = ground (arith, same) in
              let g : find_node earlier n.key ≡ some x =
                subst (λ k. find_node earlier k ≡ some x) e found in
              cc
        ],
        (away n (inl refl), distinct),
      )

  module _ (nodes : List NodeConfig) where
    known_each :
        (ps : List ℕ) (y : ℕ)
        → validate_each parse nodes ps ≡ ok tt
        → IsStatic parse nodes y ps
        → IsNode parse nodes y
    unfolding validate_each
    known_each [] y h i = absurd i
    known_each (p ∷ ps) y h (inr i) =
        with_ok (validate_prerequisite nodes (parse p)) _ h λ u e1 h1. known_each ps y h1 i
    known_each (p ∷ ps) y h (inl e) = with_ok (validate_prerequisite nodes (parse p)) _ h λ u e1 h1.
        let g : fail_if (not (exists_node (find_node nodes y))) missing_parent ≡ ok u =
          subst (λ r. validate_prerequisite nodes r ≡ ok u) e e1 in
        let there = fail_if-eq-ok (not (exists_node (find_node nodes y))) missing_parent g in
        exists_node-some (find_node nodes y) (ground (arith, there))

    known_all :
        (ns : List NodeConfig) (n : NodeConfig)
        → validate_all parse nodes ns ≡ ok tt
        → IsIn n ns
        → validate_each parse nodes n.prerequisites ≡ ok tt
    unfolding validate_all
    known_all [] n h i = absurd i
    known_all (x ∷ xs) n h i = with_ok (validate_each parse nodes x.prerequisites) _ h λ u e1 h1.
        elim i [
          | inl e ↦ subst (λ m. validate_each parse nodes m.prerequisites ≡ ok tt) (sym e) e1
          | inr later ↦ known_all xs n h1 later
        ]

    closed_lem : validate_all parse nodes nodes ≡ ok tt → IsClosed parse nodes
    closed_lem h x y (n, found, i) =
        let (member, e) = find_member parse nodes nodes x n found in
        known_each n.prerequisites y (known_all nodes n h member) i

    -- Every prerequisite can be read.
    abbrev pub AllParse : List ℕ → Type 0
    AllParse [] = Unit {0}
    AllParse (p ∷ ps) = ((r : Parsed) × (parse p ≡ ok r)) × AllParse ps

    parsed_lem :
        (r : Result Parsed) {u : Unit {0}}
        → validate_prerequisite nodes r ≡ ok u
        → (x : Parsed) × (r ≡ ok x)
    parsed_lem (err e) h = cc
    parsed_lem (ok x) h = (x, refl)

    parse_each : (ps : List ℕ) → validate_each parse nodes ps ≡ ok tt → AllParse ps
    unfolding validate_each
    parse_each [] h = tt
    parse_each (p ∷ ps) h =
        with_ok (validate_prerequisite nodes (parse p)) _ h
          λ u e1 h1. (parsed_lem (parse p) e1, parse_each ps h1)

    -- A tree that can be stored.
    abbrev pub IsTree : Type 0
    IsTree =
        HasDistinctNodes nodes
        × IsClosed parse nodes
        × HasOrder parse nodes
        × (HasCycle parse nodes → ⊥)
        × ((n : NodeConfig) → IsIn n nodes → AllParse n.prerequisites)

    abbrev pub ValidateOutcome : Result (Unit {0}) → Type 0
    ValidateOutcome (ok u) = IsTree
    ValidateOutcome (err e) = e ≢ panic

    cycles_lem :
        (r : Traversal)
        → HasDistinctNodes nodes
        → IsClosed parse nodes
        → ((n : NodeConfig) → IsIn n nodes → AllParse n.prerequisites)
        → DetectOutcome parse nodes r
        → ValidateOutcome (to_result parse r)
    cycles_lem out_of_fuel distinct closed parses h = absurd h
    cycles_lem (failed e) distinct closed parses (is_cycle, cycle) = λ g. cc
    cycles_lem (done st) distinct closed parses (order, none_there) =
        (distinct, closed, order, none_there, parses)

-- A check that fails, if it does, with an error of its own.
abbrev IsClean : Result (Unit {0}) → Type 0
IsClean (ok u) = Unit {0}
IsClean (err e) = e ≢ panic

IsClean->> : (m k : Result (Unit {0})) → IsClean m → IsClean k → IsClean (m >> k)
IsClean->> (ok u) k h g = g
IsClean->> (err e) k h g = h

IsClean-fail_if : (b : Bool) (e : Error) → e ≢ panic → IsClean (fail_if b e)
IsClean-fail_if true e h = h
IsClean-fail_if false e h = tt

bad_config : (b : Bool) → IsClean (fail_if b invalid_config)
bad_config b = IsClean-fail_if b invalid_config (λ g. cc)

config-IsClean :
    (n : NodeConfig) (earlier : List NodeConfig) → IsClean (validate_node_config n earlier)
config-IsClean n earlier =
    IsClean->> (fail_if (n.key == 0) invalid_config) _ (bad_config (n.key == 0)) (
      IsClean->> (fail_if (exists_node (find_node earlier n.key)) duplicate_node_key) _
        (IsClean-fail_if (exists_node (find_node earlier n.key)) duplicate_node_key (λ g. cc))
        (IsClean->> (fail_if (n.name == 0) invalid_config) _ (bad_config (n.name == 0)) (
          IsClean->> (fail_if (n.node_type == 0) invalid_config) _ (bad_config (n.node_type == 0)) (
            IsClean->> (fail_if (leb_ℤ n.max_level (pos 0)) invalid_config) _
              (bad_config (leb_ℤ n.max_level (pos 0)))
              (IsClean->> (validate_tier n.tier) _ (bad_config (ltb_ℤ n.tier (pos 0))) (
                IsClean->> (validate_size n.size) _ (bad_config _)
                  (bad_config (n.category == 0))))))))

nodes-IsClean : (ns earlier : List NodeConfig) → IsClean (validate_nodes ns earlier)
unfolding validate_nodes
nodes-IsClean [] earlier = tt
nodes-IsClean (n ∷ ns) earlier =
    IsClean->> (validate_node_config n earlier) (validate_nodes ns (n ∷ earlier))
      (config-IsClean n earlier) (nodes-IsClean ns (n ∷ earlier))

tier-IsClean : (t : PrereqType) (tier : ℤ) → IsClean (validate_dynamic_tier t tier)
tier-IsClean nodes_unlocked_below_tier tier = bad_config (ltb_ℤ tier (pos 0))
tier-IsClean total_nodes_unlocked tier = tt

prerequisite-IsClean :
    (nodes : List NodeConfig) (r : Result Parsed) → IsClean (validate_prerequisite nodes r)
prerequisite-IsClean nodes (err e) = λ g. cc
prerequisite-IsClean nodes (ok (dynamic d)) =
    IsClean->> (fail_if (leb_ℤ d.count (pos 0)) invalid_config) _
      (bad_config (leb_ℤ d.count (pos 0))) (tier-IsClean d.prereq_type d.tier)
prerequisite-IsClean nodes (ok (static k)) =
    IsClean-fail_if (not (exists_node (find_node nodes k))) missing_parent (λ g. cc)

module _ (parse : ℕ → Result Parsed) (nodes : List NodeConfig) where
  each-IsClean : (ps : List ℕ) → IsClean (validate_each parse nodes ps)
  unfolding validate_each
  each-IsClean [] = tt
  each-IsClean (p ∷ ps) =
      IsClean->> (validate_prerequisite nodes (parse p)) (validate_each parse nodes ps)
        (prerequisite-IsClean nodes (parse p)) (each-IsClean ps)

  all-IsClean : (ns : List NodeConfig) → IsClean (validate_all parse nodes ns)
  unfolding validate_all
  all-IsClean [] = tt
  all-IsClean (n ∷ ns) =
      IsClean->> (validate_each parse nodes n.prerequisites) (validate_all parse nodes ns)
        (each-IsClean n.prerequisites) (all-IsClean ns)

  then_lem :
      (m k : Result (Unit {0}))
      → IsClean m
      → (m ≡ ok tt → ValidateOutcome parse nodes k)
      → ValidateOutcome parse nodes (m >> k)
  then_lem (ok u) k h g = g refl
  then_lem (err e) k h g = h

-- A tree passes the checks only if its keys are distinct, every static prerequisite is the key of a
-- node, and there is an order in which every node stands after its static prerequisites; so there is
-- no cycle, and every prerequisite can be read. The search neither runs out of fuel nor meets a key without a node.
pub validate-ValidateOutcome :
    (parse : ℕ → Result Parsed) (nodes : List NodeConfig)
    → ValidateOutcome parse nodes (validate parse nodes)
unfolding validate
validate-ValidateOutcome parse [] = λ g. cc
validate-ValidateOutcome parse (n ∷ ns) =
    let nodes : List NodeConfig = n ∷ ns in
    then_lem parse nodes (validate_nodes nodes [])
      (validate_all parse nodes nodes >> to_result parse (detect_cycles parse nodes))
      (nodes-IsClean nodes [])
      (λ e1.
        then_lem parse nodes (validate_all parse nodes nodes)
          (to_result parse (detect_cycles parse nodes)) (all-IsClean parse nodes nodes)
          (λ e2.
            let closed = closed_lem parse nodes e2 in
            cycles_lem parse nodes (detect_cycles parse nodes) (distinct_lem parse nodes [] e1).1
              closed
              (λ m i. parse_each parse nodes m.prerequisites (known_all parse nodes nodes m e2 i))
              (detect_cycles-DetectOutcome parse nodes closed)))
