-- ===== src/Progression/Tree/Loader/Ids.antt =====
-- The ids and the count of the nodes that are stored so far.
use brandish_bot_go.Prelude.{
  ℕ, suc, ◌+◌, ◌≤◌, ◌≡◌, refl, sym, ap, Bool, true, false, Option, none, some, List, [], ◌∷◌, ◌++◌,
  length, sum_by, IsIn, ◌==◌, if◌then◌else◌, arith, Bool-cases, inl, inr,
}
use mathlib.Core.Path.{subst}
use brandish_bot_go.Failure.{Result, ok, err, ◌>>=◌}
use brandish_bot_go.Progression.Tree.{Parsed, static, dynamic, NodeConfig, find_node}
use brandish_bot_go.Progression.Tree.Cycles.{find_self}
use brandish_bot_go.Progression.Tree.Loader.{
  ExistingNode, Calls, SyncResult, find_existing, find_id, is_member, id_or, is_some, lookup_id,
  is_met, are_prerequisites_met, resolve_one, resolve_prerequisites,
}
use brandish_bot_go.Progression.Tree.Checks.Valid.{HasDistinctNodes}

abbrev pub total : SyncResult → ℕ
total r = r.nodes_inserted + r.nodes_updated + r.nodes_skipped

-- How many of the nodes are processed.
abbrev pub counted : List ℕ → List NodeConfig → ℕ
counted p = sum_by (λ n. if is_member n.key p then 1 else 0)

-- The storage answers without an error; an unlock may fail.
pub record Answers (c : Calls) : Type 0 where
  pub updates : (id : ℕ) → c.update_node id ≡ ok tt
  pub inserts : (k : ℕ) → (id : ℕ) × (c.insert_node k ≡ ok id)
  pub prerequisites : (id : ℕ) (ids : List ℕ) → c.sync_prerequisites id ids ≡ ok tt
  pub dynamics : (id : ℕ) → c.sync_dynamic_prerequisites id ≡ ok tt
  pub modifiers : (k : ℕ) → c.sync_bonus_modifiers k ≡ ok tt

counted_other :
    (p : List ℕ) (k : ℕ) (ns : List NodeConfig)
    → find_node ns k ≡ none
    → counted (k ∷ p) ns ≡ counted p ns
unfolding is_member find_node
counted_other p k [] h = refl
counted_other p k (n ∷ ns) h = elim (Bool-cases (n.key == k)) [
  | inl same ↦ let g : some n ≡ none = rw same at h in cc
  | inr other ↦
      let away : (k == n.key) ≡ false = ground (arith, other) in
      let rest = counted_other p k ns (rw other at h) in rw away (omega (arith, rest))
]

pub counted-le : (p : List ℕ) (ns : List NodeConfig) → counted p ns ≤ length ns
counted-le p [] = omega arith
counted-le p (n ∷ ns) =
    let rest = counted-le p ns in
    elim (Bool-cases (is_member n.key p)) [
      | inl old ↦ rw old (omega (arith, rest))
      | inr new ↦ rw new (omega (arith, rest))
    ]

pub all_counted :
    (p : List ℕ) (ns : List NodeConfig)
    → counted p ns ≡ length ns
    → (n : NodeConfig) → IsIn n ns
    → is_member n.key p ≡ true
all_counted p [] h n i = absurd i
all_counted p (x ∷ xs) h n i =
    let le = counted-le p xs in
    elim (Bool-cases (is_member x.key p)) [
      | inr new ↦ let g : 0 + counted p xs ≡ suc (length xs) = rw new at h in absurd (omega arith)
      | inl old ↦
          let g : 1 + counted p xs ≡ suc (length xs) = rw old at h in
          elim i [
            | inl e ↦ subst (λ m. is_member m.key p ≡ true) (sym e) old
            | inr later ↦ all_counted p xs (omega arith) n later
          ]
    ]

pub none_counted : (ns : List NodeConfig) → counted [] ns ≡ 0
unfolding is_member
none_counted [] = refl
none_counted (n ∷ ns) = omega (arith, none_counted ns)

module _ (parse : ℕ → Result Parsed) (existing : List ExistingNode) where
  pub counted_new :
      (p : List ℕ) (n : NodeConfig) (ns : List NodeConfig)
      → IsIn n ns
      → HasDistinctNodes ns
      → is_member n.key p ≡ false
      → counted (n.key ∷ p) ns ≡ counted p ns + 1
  unfolding is_member find_node
  counted_new p n [] i d h = absurd i
  counted_new p n (x ∷ xs) (inl e) (away, d) h =
      let k : n.key ≡ x.key = ap NodeConfig.key e in
      let self : (n.key == x.key) ≡ true = ground (arith, k) in
      let old : is_member x.key p ≡ false = subst (λ z. is_member z p ≡ false) k h in
      let rest = counted_other p n.key xs (subst (λ z. find_node xs z ≡ none) (sym k) away) in
      rw (self, old) (omega (arith, rest))
  counted_new p n (x ∷ xs) (inr i) (away, d) h =
      let rest = counted_new p n xs i d h in
      elim (Bool-cases (n.key == x.key)) [
        | inr other ↦ rw other (omega (arith, rest))
        | inl same ↦
            let (m, found) = find_self parse xs xs n i in
            let e : n.key ≡ x.key = ground (arith, same) in
            let g : find_node xs x.key ≡ some m = subst (λ z. find_node xs z ≡ some m) e found in cc
      ]

  -- A key that has an id.
  abbrev pub HasId : List (ℕ × ℕ) → ℕ → Type 0
  HasId ids k = is_some (lookup_id parse existing k ids) ≡ true

  id_or_more :
      (o : Option ExistingNode) (b : Bool) (id : ℕ) (q : Option ℕ)
      → is_some (id_or o q) ≡ true
      → is_some (id_or o (if b then some id else q)) ≡ true
  id_or_more (some x) b id q h = refl
  id_or_more none true id q h = refl
  id_or_more none false id q h = h

  pub HasId-more : (ids : List (ℕ × ℕ)) (a id k : ℕ) → HasId ids k → HasId ((a, id) ∷ ids) k
  unfolding find_id
  HasId-more ids a id k h = id_or_more (find_existing k existing) (a == k) id (find_id k ids) h

  id_or_own : (o : Option ExistingNode) (id : ℕ) → is_some (id_or o (some id)) ≡ true
  id_or_own (some x) id = refl
  id_or_own none id = refl

  pub HasId-own : (ids : List (ℕ × ℕ)) (k id : ℕ) → HasId ((k, id) ∷ ids) k
  unfolding find_id
  HasId-own ids k id =
      let self : (k == k) ≡ true = ground arith in rw self (id_or_own (find_existing k existing) id)

  -- What is met can be resolved.
  resolve_lem :
      (ids : List (ℕ × ℕ)) (r : Result Parsed)
      → is_met parse existing ids r ≡ true
      → (xs : List ℕ) × (resolve_one parse existing ids r ≡ ok xs)
  resolve_lem ids (err e) h = cc
  resolve_lem ids (ok (dynamic n)) h = ([], refl)
  resolve_lem ids (ok (static k)) h = found_lem (lookup_id parse existing k ids) h
    where
      found_lem :
          (r : Result ℕ) → is_some r ≡ true → (xs : List ℕ) × ((r >>= λ id. ok (id ∷ [])) ≡ ok xs)
      found_lem (ok id) h = (id ∷ [], refl)
      found_lem (err e) h = cc

  pub resolve_all :
      (ids : List (ℕ × ℕ)) (ps : List ℕ)
      → are_prerequisites_met parse existing ids ps ≡ true
      → (xs : List ℕ) × (resolve_prerequisites parse existing ids ps ≡ ok xs)
  unfolding are_prerequisites_met resolve_prerequisites
  resolve_all ids [] h = ([], refl)
  resolve_all ids (p ∷ ps) h = elim (Bool-cases (is_met parse existing ids (parse p))) [
    | inl first ↦
        let (xs, e) = resolve_lem ids (parse p) first in
        let (ys, f) = resolve_all ids ps (rw first at h) in (xs ++ ys, rw (e, f) refl)
    | inr unmet ↦ let g : false ≡ true = rw unmet at h in cc
  ]

  pub met_more :
      (ids : List (ℕ × ℕ)) (a id : ℕ) (ps : List ℕ)
      → are_prerequisites_met parse existing ids ps ≡ true
      → are_prerequisites_met parse existing ((a, id) ∷ ids) ps ≡ true
  unfolding are_prerequisites_met
  met_more ids a id [] h = refl
  met_more ids a id (p ∷ ps) h = elim (Bool-cases (is_met parse existing ids (parse p))) [
    | inl first ↦ rw (still (parse p) first) (met_more ids a id ps (rw first at h))
    | inr unmet ↦ let g : false ≡ true = rw unmet at h in cc
  ]
    where
      still :
          (r : Result Parsed)
          → is_met parse existing ids r ≡ true
          → is_met parse existing ((a, id) ∷ ids) r ≡ true
      still (err e) h = h
      still (ok (dynamic n)) h = refl
      still (ok (static k)) h = HasId-more ids a id k h
