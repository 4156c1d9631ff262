-- ===== src/Progression/Tree/Search.antt =====
-- What one call of the search for cycles leaves, by how it ends.
use brandish_bot_go.Prelude.{ℕ, ◌≤◌, ◌≡◌, ◌⊎◌, some, List, [], ◌∷◌, IsIn, sum_by, arith}
use brandish_bot_go.Failure.{Result, ok, cycle_detected}
use brandish_bot_go.Progression.Tree.{
  Parsed, static, NodeConfig, Mark, unvisited, visiting, visited, Marks, Traversal, out_of_fuel,
  failed, done, continue, find_node,
}

abbrev pub unvisited_one : Mark → ℕ
unvisited_one unvisited = 1
unvisited_one visiting = 0
unvisited_one visited = 0

-- How many nodes are unvisited.
abbrev pub open_nodes : Marks → List NodeConfig → ℕ
open_nodes st = sum_by (λ n. unvisited_one (st n.key))

module _ (parse : ℕ → Result Parsed) (nodes : List NodeConfig) where
  -- A static prerequisite among those of a node.
  abbrev pub IsStatic : ℕ → List ℕ → Type 0
  IsStatic y [] = ⊥
  IsStatic y (p ∷ ps) = (parse p ≡ ok (static y)) ⊎ IsStatic y ps

  abbrev pub Requires : ℕ → ℕ → Type 0
  Requires x y = (n : NodeConfig) × (find_node nodes x ≡ some n) × IsStatic y n.prerequisites

  pub data Chain (x : ℕ) : ℕ → Type 0 where
    one : {y : ℕ} → Requires x y → Chain x y
    more : {y z : ℕ} → Chain x y → Requires y z → Chain x z

  -- A list of keys, the last first, where every key stands after its prerequisites.
  abbrev pub IsOrdered : List ℕ → Type 0
  IsOrdered [] = Unit {0}
  IsOrdered (k ∷ ks) = ((y : ℕ) → Requires k y → IsIn y ks) × IsOrdered ks

  abbrev pub Keeps : Marks → List ℕ → Type 0
  Keeps st order = ((x : ℕ) → st x ≡ visited → IsIn x order) × IsOrdered order

  -- What a search that ends well leaves.
  abbrev pub Grows : Marks → List ℕ → Marks → List ℕ → Type 0
  Grows st order st' order' =
      Keeps st' order'
      × ((x : ℕ) → IsIn x order → IsIn x order')
      × ((x : ℕ) → st' x ≡ visiting → st x ≡ visiting)
      × (open_nodes st' nodes ≤ open_nodes st nodes)

  abbrev pub HasCycle : Type 0
  HasCycle = (c : ℕ) × Chain c c

  -- The end of a call at a key on fuel `n`, and of the loop over its prerequisites.
  abbrev pub Ends : (List ℕ → Type 0) → ℕ → Marks → List ℕ → Traversal → Type 0
  Ends P n st order out_of_fuel = n ≤ open_nodes st nodes
  Ends P n st order (failed e) = (e ≡ cycle_detected) × HasCycle
  Ends P n st order (done st') = (order' : List ℕ) × Grows st order st' order' × P order'

  pub Grows-refl : (st : Marks) (order : List ℕ) → Keeps st order → Grows st order st order
  Grows-refl st order k = (k, λ x h. h, λ x h. h, omega arith)

  -- The key is that of a node.
  abbrev pub IsNode : ℕ → Type 0
  IsNode k = (node : NodeConfig) × (find_node nodes k ≡ some node)

  -- The visiting keys lead to the key.
  abbrev pub LeadsTo : Marks → ℕ → Type 0
  LeadsTo st k = (x : ℕ) → st x ≡ visiting → Chain x k

  -- What is to be shown of a call.
  abbrev pub IsCall : ℕ → (ℕ → Marks → Traversal) → Type 0
  IsCall n rec =
      (k : ℕ) (st : Marks) (order : List ℕ)
      → Keeps st order
      → LeadsTo st k
      → IsNode k
      → Ends (λ o. IsIn k o) n st order (rec k st)

  pub Grows-trans :
      (st st' st'' : Marks) (o o' o'' : List ℕ)
      → Grows st o st' o'
      → Grows st' o' st'' o''
      → Grows st o st'' o''
  Grows-trans st st' st'' o o' o'' (k, e, v, m) (k', e', v', m') =
      (k', λ x h. e' x (e x h), λ x h. v x (v' x h), omega arith)

  pub Ends-map :
      (P Q : List ℕ → Type 0) (n : ℕ) (st st' : Marks) (o o' : List ℕ) (r : Traversal)
      → Grows st o st' o'
      → ((o'' : List ℕ) → ((x : ℕ) → IsIn x o' → IsIn x o'') → P o'' → Q o'')
      → Ends P n st' o' r
      → Ends Q n st o r
  Ends-map P Q n st st' o o' out_of_fuel (k, e, v, m) f h = omega arith
  Ends-map P Q n st st' o o' (failed b) g f h = h
  Ends-map P Q n st st' o o' (done st'') g f (o'', g', p) =
      (o'', Grows-trans st st' st'' o o' o'' g g', f o'' (g'.1) p)

  pub Ends-continue :
      (P Q : List ℕ → Type 0) (n : ℕ) (st : Marks) (o : List ℕ) (r : Traversal)
      (f : Marks → Traversal)
      → ((st' : Marks) (o' : List ℕ) → Grows st o st' o' → P o' → Ends Q n st o (f st'))
      → Ends P n st o r
      → Ends Q n st o (continue r f)
  Ends-continue P Q n st o out_of_fuel f next h = h
  Ends-continue P Q n st o (failed e) f next h = h
  Ends-continue P Q n st o (done st') f next (o', g, p) = next st' o' g p
