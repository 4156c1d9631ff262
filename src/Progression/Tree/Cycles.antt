-- ===== src/Progression/Tree/Cycles.antt =====
-- The search for cycles fails exactly where there is one, and else leaves an order of the nodes.
use brandish_bot_go.Prelude.{
  ℕ, suc, ◌<◌, ◌≡◌, refl, sym, ap, ◌∙◌, some, List, [], ◌∷◌, length, IsIn, ◌==◌, arith, Bool-cases,
  inl, inr,
}
use mathlib.Core.Path.{subst}
use brandish_bot_go.Failure.{Result, cycle_detected}
use brandish_bot_go.Progression.Tree.{
  Parsed, NodeConfig, Mark, unvisited, visiting, visited, Marks, Traversal, out_of_fuel, failed,
  done, find_node, start_at, dfs, detect_from, detect_cycles,
}
use brandish_bot_go.Progression.Tree.Search.{
  open_nodes, Requires, Chain, one, more, IsOrdered, Keeps, HasCycle, Ends, IsNode, Ends-continue,
  Ends-map, Grows-refl,
}
use brandish_bot_go.Progression.Tree.Calls.{IsClosed, dfs-IsCall}

module _ (parse : ℕ → Result Parsed) (nodes : List NodeConfig) where
  pub find_self :
      (ns : List NodeConfig) (n : NodeConfig)
      → IsIn n ns
      → (m : NodeConfig) × (find_node ns n.key ≡ some m)
  unfolding find_node
  find_self [] n i = absurd i
  find_self (x ∷ xs) n i = elim (Bool-cases (x.key == n.key)) [
    | inl same ↦ (x, rw same refl)
    | inr other ↦ elim i [
      | inl e ↦ absurd (ground (arith, ap NodeConfig.key e))
      | inr later ↦ let (m, found) = find_self xs n later in (m, rw other found)
    ]
  ]

  pub find_member :
      (ns : List NodeConfig) (k : ℕ) (n : NodeConfig)
      → find_node ns k ≡ some n
      → IsIn n ns × (n.key ≡ k)
  unfolding find_node
  find_member [] k n h = cc
  find_member (x ∷ xs) k n h = elim (Bool-cases (x.key == k)) [
    | inl same ↦
        let g : some x ≡ some n = rw same at h in
        let e : n ≡ x = cc in (inl e, ap NodeConfig.key e ∙ ground (arith, same))
    | inr other ↦ let (i, e) = find_member xs k n (rw other at h) in (inr i, e)
  ]

  -- Nothing is being visited.
  abbrev IsIdle : Marks → Type 0
  IsIdle st = (x : ℕ) → st x ≡ visiting → ⊥

  -- The keys of all the nodes.
  abbrev pub AllIn : List NodeConfig → List ℕ → Type 0
  AllIn ns o = (n : NodeConfig) → IsIn n ns → IsIn n.key o

  start_lem :
      (known : IsClosed parse nodes) (f k : ℕ) (st : Marks) (order : List ℕ) (m : Mark)
      → st k ≡ m
      → IsNode parse nodes k
      → Keeps parse nodes st order
      → IsIdle st
      → Ends parse nodes (λ o. IsIn k o) f st order (start_at parse m (dfs parse nodes f) k st)
  start_lem known f k st order unvisited h is_node keeps idle =
      dfs-IsCall parse nodes known f k st order keeps (λ x v. absurd (idle x v)) is_node
  start_lem known f k st order visiting h is_node keeps idle = absurd (idle k h)
  start_lem known f k st order visited h is_node keeps idle =
      (order, Grows-refl parse nodes st order keeps, keeps.0 k h)

  detect_lem :
      (known : IsClosed parse nodes) (f : ℕ) (ns : List NodeConfig) (st : Marks) (order : List ℕ)
      → ((n : NodeConfig) → IsIn n ns → IsIn n nodes)
      → Keeps parse nodes st order
      → IsIdle st
      → Ends parse nodes (AllIn ns) f st order (detect_from parse (dfs parse nodes f) ns st)
  unfolding detect_from
  detect_lem known f [] st order sub keeps idle =
      (order, Grows-refl parse nodes st order keeps, λ n i. absurd i)
  detect_lem known f (n ∷ ns) st order sub keeps idle =
      Ends-continue parse nodes (λ o. IsIn n.key o) (AllIn (n ∷ ns)) f st order
        (start_at parse (st n.key) (dfs parse nodes f) n.key st)
        (detect_from parse (dfs parse nodes f) ns)
        (λ st' o' g first.
          Ends-map parse nodes (AllIn ns) (AllIn (n ∷ ns)) f st st' order o'
            (detect_from parse (dfs parse nodes f) ns st') g
            (λ o grown rest m i. elim i [
              | inl e ↦ subst (λ z. IsIn z o) (sym (ap NodeConfig.key e)) (grown n.key first)
              | inr later ↦ rest m later
            ])
            (detect_lem known f ns st' o' (λ m i. sub m (inr i)) g.0 (λ x v. idle x (g.2 x v))))
        (start_lem known f n.key st order (st n.key) refl (find_self nodes n (sub n (inl refl)))
          keeps idle)

  -- What follows a member of an ordered list stays in it.
  next_lem :
      (ks : List ℕ) (x z : ℕ)
      → IsOrdered parse nodes ks
      → IsIn x ks
      → Requires parse nodes x z
      → IsIn z ks
  next_lem [] x z h i edge = absurd i
  next_lem (k ∷ ks) x z (first, h) (inl e) edge =
      inr (first z (subst (λ y. Requires parse nodes y z) e edge))
  next_lem (k ∷ ks) x z (first, h) (inr i) edge = inr (next_lem ks x z h i edge)

  after_lem :
      (k : ℕ) (ks : List ℕ) {z : ℕ}
      → IsOrdered parse nodes (k ∷ ks)
      → Chain parse nodes k z
      → IsIn z ks
  after_lem k ks (first, h) (one edge) = first _ edge
  after_lem k ks (first, h) (more c edge) = next_lem ks _ _ h (after_lem k ks (first, h) c) edge

  acyclic_lem :
      (ks : List ℕ) (c : ℕ) → IsOrdered parse nodes ks → IsIn c ks → Chain parse nodes c c → ⊥
  acyclic_lem [] c h i chain = i
  acyclic_lem (k ∷ ks) c h (inr i) chain = acyclic_lem ks c h.1 i chain
  acyclic_lem (k ∷ ks) c h (inl e) chain =
      let own : Chain parse nodes k k = subst (λ x. Chain parse nodes x x) e chain in
      acyclic_lem ks k h.1 (after_lem k ks h own) own

  first_lem : {x z : ℕ} → Chain parse nodes x z → IsNode parse nodes x
  first_lem (one (n, found, i)) = (n, found)
  first_lem (more c edge) = first_lem c

  -- An order of the keys of all nodes, the last first, where every key stands after its prerequisites.
  abbrev pub HasOrder : Type 0
  HasOrder = (o : List ℕ) × IsOrdered parse nodes o × AllIn nodes o

  abbrev pub DetectOutcome : Traversal → Type 0
  DetectOutcome out_of_fuel = ⊥
  DetectOutcome (failed e) = (e ≡ cycle_detected) × HasCycle parse nodes
  DetectOutcome (done st) = HasOrder × (HasCycle parse nodes → ⊥)

  outcome_lem :
      (f : ℕ) (st : Marks) (r : Traversal)
      → open_nodes st nodes < f
      → Ends parse nodes (AllIn nodes) f st [] r
      → DetectOutcome r
  outcome_lem f st out_of_fuel lt h = absurd (omega arith)
  outcome_lem f st (failed e) lt h = h
  outcome_lem f st (done st') lt (o, ((keeps, sorted), sub, on, le), all) = (
    (o, sorted, all),
    λ cycle.
        let (c, chain) = cycle in
        let (n, found) = first_lem chain in
        let (i, e) = find_member nodes c n found in
        acyclic_lem o c sorted (subst (λ z. IsIn z o) e (all n i)) chain,
  )

all_open : (ns : List NodeConfig) → open_nodes (λ k. unvisited) ns ≡ length ns
all_open [] = refl
all_open (n ∷ ns) = omega (arith, all_open ns)

-- Where every static prerequisite is the key of a node, the search for cycles ends on fuel of one more
-- than the number of nodes: with an error exactly where a chain of static prerequisites leads from a
-- key back to it, and else with an order in which every node stands after its static prerequisites.
pub detect_cycles-DetectOutcome :
    (parse : ℕ → Result Parsed) (nodes : List NodeConfig)
    → IsClosed parse nodes
    → DetectOutcome parse nodes (detect_cycles parse nodes)
unfolding detect_cycles
detect_cycles-DetectOutcome parse nodes known =
    let none_yet : Marks = λ k. unvisited in
    outcome_lem parse nodes (suc (length nodes)) none_yet
      (detect_from parse (dfs parse nodes (suc (length nodes))) nodes none_yet)
      (omega (arith, all_open nodes))
      (detect_lem parse nodes known (suc (length nodes)) nodes none_yet [] (λ n i. i)
        (λ x h. cc, tt) (λ x h. cc))
