-- ===== src/Progression/Tree/Calls.antt =====
-- One call of the search for cycles ends as it is to end.
use brandish_bot_go.Prelude.{
  ℕ, zero, suc, ◌≤◌, ◌<◌, ◌≡◌, ◌⊎◌, refl, sym, Option, none, some, List, [], ◌∷◌, IsIn, ◌==◌, arith,
  Bool-cases, inl, inr,
}
use mathlib.Core.Path.{subst}
use brandish_bot_go.Failure.{Result, ok, err}
use brandish_bot_go.Progression.Tree.{
  Parsed, static, dynamic, NodeConfig, Mark, unvisited, visiting, visited, Marks, set_mark,
  Traversal, out_of_fuel, failed, done, continue, find_node, dfs_one, dfs_each, finish, enter,
  by_mark, dfs,
}
use brandish_bot_go.Progression.Tree.Search.{
  unvisited_one, open_nodes, IsStatic, Requires, Chain, one, more, Keeps, Grows, Ends, Grows-refl,
  IsNode, LeadsTo, IsCall, Ends-map, Ends-continue,
}

module _ (parse : ℕ → Result Parsed) (nodes : List NodeConfig) where
  -- A static prerequisite that is read is in the list.
  abbrev pub IsTaken : Result Parsed → List ℕ → Type 0
  IsTaken r o = (y : ℕ) → r ≡ ok (static y) → IsIn y o

  -- The visiting keys are the parent and those that lead to it.
  abbrev pub StandsUnder : Marks → ℕ → Type 0
  StandsUnder st parent = (x : ℕ) → st x ≡ visiting → (x ≡ parent) ⊎ Chain parse nodes x parent

  extended :
      {parent : ℕ}
      → (x k : ℕ) → Requires parse nodes parent k
      → (x ≡ parent) ⊎ Chain parse nodes x parent
      → Chain parse nodes x k
  extended x k edge (inl e) = subst (λ z. Chain parse nodes z k) (sym e) (one edge)
  extended x k edge (inr c) = more c edge

  one_lem :
      (n : ℕ) (rec : ℕ → Marks → Traversal) (parent : ℕ) (r : Result Parsed) (st : Marks)
      (order : List ℕ)
      → IsCall parse nodes n rec
      → ((y : ℕ) → r ≡ ok (static y) → Requires parse nodes parent y × IsNode parse nodes y)
      → Keeps parse nodes st order
      → StandsUnder st parent
      → Ends parse nodes (IsTaken r) n st order (dfs_one parse rec r st)
  one_lem n rec parent (err e) st order call edge keeps leads =
      (order, Grows-refl parse nodes st order keeps, λ y h. cc)
  one_lem n rec parent (ok (dynamic d)) st order call edge keeps leads =
      (order, Grows-refl parse nodes st order keeps, λ y h. cc)
  one_lem n rec parent (ok (static k)) st order call edge keeps leads =
      Ends-map parse nodes (λ o. IsIn k o) (IsTaken (ok (static k))) n st st order order (rec k st)
        (Grows-refl parse nodes st order keeps)
        (λ o sub i y h. let e : k ≡ y = cc in subst (λ z. IsIn z o) e i)
        (call k st order keeps (λ x h. extended x k (edge k refl).0 (leads x h)) (edge k refl).1)

  each_lem :
      (n : ℕ) (rec : ℕ → Marks → Traversal) (parent : ℕ) (ps : List ℕ) (st : Marks) (order : List ℕ)
      → IsCall parse nodes n rec
      → ((y : ℕ) → IsStatic parse nodes y ps → Requires parse nodes parent y × IsNode parse nodes y)
      → Keeps parse nodes st order
      → StandsUnder st parent
      → Ends parse nodes
          (λ o. (y : ℕ) → IsStatic parse nodes y ps → IsIn y o)
          n
          st
          order
          (dfs_each parse rec ps st)
  unfolding dfs_each
  each_lem n rec parent [] st order call edges keeps leads =
      (order, Grows-refl parse nodes st order keeps, λ y h. absurd h)
  each_lem n rec parent (p ∷ ps) st order call edges keeps leads =
      Ends-continue parse nodes (IsTaken (parse p))
        (λ o. (y : ℕ) → IsStatic parse nodes y (p ∷ ps) → IsIn y o) n st order
        (dfs_one parse rec (parse p) st) (dfs_each parse rec ps)
        (λ st' o' g taken.
          Ends-map parse nodes (λ o. (y : ℕ) → IsStatic parse nodes y ps → IsIn y o)
            (λ o. (y : ℕ) → IsStatic parse nodes y (p ∷ ps) → IsIn y o) n st st' order o'
            (dfs_each parse rec ps st') g
            (λ o sub rest y h. elim h [ inl e ↦ sub y (taken y e) | inr later ↦ rest y later ])
            (each_lem n rec parent ps st' o' call (λ y h. edges y (inr h)) g.0
              (λ x h. leads x (g.2 x h))))
        (one_lem n rec parent (parse p) st order call (λ y h. edges y (inl h)) keeps leads)

  open-set_mark :
      (k : ℕ) (st : Marks) (m : Mark) (ns : List NodeConfig)
      → unvisited_one m ≡ 0
      → open_nodes (set_mark k m st) ns ≤ open_nodes st ns
  open-set_mark k st m [] h = omega arith
  open-set_mark k st m (n ∷ ns) h =
      let rest = open-set_mark k st m ns h in
      elim (Bool-cases (n.key == k)) [
        | inl same ↦ rw same (omega (arith, h, rest))
        | inr other ↦ rw other (omega (arith, rest))
      ]

  open-set_mark_lt :
      (k : ℕ) (st : Marks) (ns : List NodeConfig) (node : NodeConfig)
      → find_node ns k ≡ some node
      → st k ≡ unvisited
      → open_nodes (set_mark k visiting st) ns < open_nodes st ns
  unfolding find_node
  open-set_mark_lt k st [] node h u = cc
  open-set_mark_lt k st (n ∷ ns) node h u = elim (Bool-cases (n.key == k)) [
    | inl same ↦
        let e : n.key ≡ k = ground (arith, same) in
        let le = open-set_mark k st visiting ns refl in
        let one_open : unvisited_one (st n.key) ≡ 1 = rw (e, u) refl in
        rw same (omega (arith, le, one_open))
    | inr other ↦
        let lt = open-set_mark_lt k st ns node (rw other at h) u in rw other (omega (arith, lt))
  ]

  -- A node whose loop is through is visited, and stands last.
  finish_lem :
      (n k : ℕ) (st st' : Marks) (order o' : List ℕ) (node : NodeConfig)
      → find_node nodes k ≡ some node
      → st k ≡ unvisited
      → Grows parse nodes (set_mark k visiting st) order st' o'
      → ((y : ℕ) → IsStatic parse nodes y node.prerequisites → IsIn y o')
      → Ends parse nodes (λ o. IsIn k o) (suc n) st order (done (set_mark k visited st'))
  finish_lem n k st st' order o' node found u ((keeps, sorted), sub, on, le) taken =
      (k ∷ o', ((now, (needed, sorted)), (λ x h. inr (sub x h)), open_before, fewer), inl refl)
    where
      now : (x : ℕ) → set_mark k visited st' x ≡ visited → IsIn x (k ∷ o')
      now x h = elim (Bool-cases (x == k)) [
        | inl same ↦ inl (ground (arith, same))
        | inr other ↦ inr (keeps x (rw other at h))
      ]

      needed : (y : ℕ) → Requires parse nodes k y → IsIn y o'
      needed y (n', found', i) = let e : node ≡ n' = cc in taken y (rw (← e) at i)

      open_before : (x : ℕ) → set_mark k visited st' x ≡ visiting → st x ≡ visiting
      open_before x h = elim (Bool-cases (x == k)) [
        | inl same ↦ let g : visited ≡ visiting = rw same at h in cc
        | inr other ↦
            let g : set_mark k visiting st x ≡ visiting = on x (rw other at h) in rw other at g
      ]

      fewer : open_nodes (set_mark k visited st') nodes ≤ open_nodes st nodes
      fewer =
          omega (
            arith,
            open-set_mark k st' visited nodes refl,
            open-set_mark_lt k st nodes node found u,
          )

  -- Every static prerequisite is the key of a node.
  abbrev pub IsClosed : Type 0
  IsClosed = (x y : ℕ) → Requires parse nodes x y → IsNode parse nodes y

  module _ (n k : ℕ) (st : Marks) (order : List ℕ) (u : st k ≡ unvisited) where
    -- The loop of a node that was found.
    loop_lem :
        (node : NodeConfig) (r : Traversal)
        → find_node nodes k ≡ some node
        → Ends parse nodes
            (λ o. (y : ℕ) → IsStatic parse nodes y node.prerequisites → IsIn y o)
            n
            (set_mark k visiting st)
            order
            r
        → Ends parse nodes (λ o. IsIn k o) (suc n) st order (continue r (finish parse k))
    loop_lem node out_of_fuel found h = omega (arith, open-set_mark_lt k st nodes node found u)
    loop_lem node (failed e) found h = h
    loop_lem node (done st') found (o', g, taken) =
        finish_lem n k st st' order o' node found u g taken

    enter_lem :
        (known : IsClosed) (rec : ℕ → Marks → Traversal) (o : Option NodeConfig)
        → IsCall parse nodes n rec
        → find_node nodes k ≡ o
        → Keeps parse nodes st order
        → LeadsTo parse nodes st k
        → IsNode parse nodes k
        → Ends parse nodes (λ o. IsIn k o) (suc n) st order (enter parse rec k o st)
    enter_lem known rec none call found keeps leads (node, found') = cc
    enter_lem known rec (some node) call found (keeps, sorted) leads is_node =
        loop_lem node (dfs_each parse rec node.prerequisites (set_mark k visiting st)) found (
          each_lem n rec k node.prerequisites (set_mark k visiting st) order call
            (λ y i.
              let edge : Requires parse nodes k y = (node, found, i) in (edge, known k y edge))
            (kept, sorted) under)
      where
        kept : (x : ℕ) → set_mark k visiting st x ≡ visited → IsIn x order
        kept x h = elim (Bool-cases (x == k)) [
          | inl same ↦ let g : visiting ≡ visited = rw same at h in cc
          | inr other ↦ keeps x (rw other at h)
        ]

        under : StandsUnder (set_mark k visiting st) k
        under x h = elim (Bool-cases (x == k)) [
          | inl same ↦ inl (ground (arith, same))
          | inr other ↦ inr (leads x (rw other at h))
        ]

  mark_lem :
      (known : IsClosed) (n : ℕ) (rec : ℕ → Marks → Traversal) (k : ℕ) (st : Marks) (order : List ℕ)
      (m : Mark)
      → IsCall parse nodes n rec
      → st k ≡ m
      → Keeps parse nodes st order
      → LeadsTo parse nodes st k
      → IsNode parse nodes k
      → Ends parse nodes (λ o. IsIn k o) (suc n) st order (by_mark parse nodes m rec k st)
  mark_lem known n rec k st order unvisited call h keeps leads is_node =
      enter_lem n k st order h known rec (find_node nodes k) call refl keeps leads is_node
  mark_lem known n rec k st order visiting call h keeps leads is_node = (refl, (k, leads k h))
  mark_lem known n rec k st order visited call h keeps leads is_node =
      (order, Grows-refl parse nodes st order keeps, keeps.0 k h)

  pub dfs-IsCall : (known : IsClosed) (n : ℕ) → IsCall parse nodes n (dfs parse nodes n)
  unfolding dfs
  dfs-IsCall known zero k st order keeps leads is_node = omega arith
  dfs-IsCall known (suc n) k st order keeps leads is_node =
      mark_lem known n (dfs parse nodes n) k st order (st k) (dfs-IsCall known n) refl keeps leads
        is_node
