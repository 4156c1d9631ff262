-- ===== src/Compost/Dominant.antt =====
-- DetermineDominantType does not depend on the order in which Go runs over the map.
use brandish_bot_go.Prelude.{
  ℕ, ◌≤◌, ◌<◌, ◌≡◌, ◌↔◌, ◌⊎◌, refl, Bool, ◌&&◌, ◌||◌, List, [], ◌∷◌, count, ltb, ◌==◌, arith,
  Bool-cases, inl, inr,
}
use brandish_bot_go.Compost.{
  CompostBinItem, type_values, type_keys, dominant_from, determine_dominant_type,
}

-- A type `d` with a value `v` stands before a type `t` with a value `w`, or is the same.
abbrev Precedes : ℕ → ℕ → ℕ → ℕ → Type 0
Precedes d v t w = (w < v) ⊎ ((w ≡ v) × (d ≤ t))

Precedes-trans : (a u b v c w : ℕ) → Precedes a u b v → Precedes b v c w → Precedes a u c w
Precedes-trans a u b v c w h g = ground (arith, h, g)

-- What the loop makes of the first type and value.
record Leads (values : ℕ → ℕ) (ts : List ℕ) (d m r v : ℕ) : Type 0 where
  over_start : Precedes r v d m
  over_all : (t : ℕ) → 0 < count t ts → Precedes r v t (values t)
  is_one : ((r ≡ d) × (v ≡ m)) ⊎ ((0 < count r ts) × (values r ≡ v))

module _ (values : ℕ → ℕ) where
  Leads-cons :
      (t : ℕ) (ts : List ℕ) (d m d' m' r v : ℕ)
      → Precedes d' m' d m
      → Precedes d' m' t (values t)
      → ((d' ≡ d) × (m' ≡ m)) ⊎ ((d' ≡ t) × (m' ≡ values t))
      → Leads values ts d' m' r v
      → Leads values (t ∷ ts) d m r v
  Leads-cons t ts d m d' m' r v a b c g = record {
    over_start = Precedes-trans r v d' m' d m g.over_start a;
    over_all = λ u h. elim (Bool-cases (u == t)) [
      | inl same ↦
          let e : t ≡ u = ground arith in
          rw (← e) (Precedes-trans r v d' m' t (values t) g.over_start b)
      | inr other ↦ g.over_all u (ground (arith, h))
    ];
    is_one = elim (g.is_one) [
      | inr (h, e) ↦ inr (omega (arith, h), e)
      | inl (er, ev) ↦ elim c [
        | inl (ed, em) ↦ inl (omega (arith, er, ed), omega (arith, ev, em))
        | inr (ed, em) ↦
            let e : r ≡ t = omega (arith, er, ed) in
            inr (rw e (ground arith), rw e (omega (arith, ev, em)))
      ]
    ];
  }

  dominant_from_lem :
      (ts : List ℕ) (d m : ℕ) → (v : ℕ) × Leads values ts d m (dominant_from values ts d m) v
  unfolding dominant_from
  dominant_from_lem [] d m = (
    m,
    record {
      over_start = inr (refl, omega arith);
      over_all = λ t h. absurd (omega (arith, h));
      is_one = inl (refl, refl);
    },
  )
  dominant_from_lem (t ∷ ts) d m =
      let better : Bool = ltb m (values t) || (values t == m && ltb t d) in
      elim (Bool-cases better) [
        | inl yes_better ↦
            let (v, g) = dominant_from_lem ts t (values t) in
            (
              v,
              rw yes_better (
                  Leads-cons t ts d m t (values t) (dominant_from values ts t (values t)) v
                    (ground arith) (inr (refl, omega arith)) (inr (refl, refl)) g),
            )
        | inr not_better ↦
            let (v, g) = dominant_from_lem ts d m in
            (
              v,
              rw not_better (
                  Leads-cons t ts d m d m (dominant_from values ts d m) v (inr (refl, omega arith))
                    (ground arith) (inl (refl, refl)) g),
            )
      ]

  Leads-Precedes :
      (ts ts' : List ℕ) (r v r' v' : ℕ)
      → ((t : ℕ) → 0 < count t ts' → 0 < count t ts)
      → Leads values ts 0 0 r v
      → Leads values ts' 0 0 r' v'
      → Precedes r v r' v'
  Leads-Precedes ts ts' r v r' v' sub g h = elim (h.is_one) [
    | inl (er, ev) ↦ rw (er, ev) g.over_start
    | inr (is_in, e) ↦ rw (← e) (g.over_all r' (sub r' is_in))
  ]

  dominant_from-order :
      (ts ts' : List ℕ)
      → ((t : ℕ) → (0 < count t ts) ↔ (0 < count t ts'))
      → dominant_from values ts 0 0 ≡ dominant_from values ts' 0 0
  dominant_from-order ts ts' same =
      let (v, g) = dominant_from_lem ts 0 0 in
      let (v', h) = dominant_from_lem ts' 0 0 in
      let r : ℕ = dominant_from values ts 0 0 in
      let r' : ℕ = dominant_from values ts' 0 0 in
      let a : Precedes r v r' v' = Leads-Precedes ts ts' r v r' v' (λ t. (same t).1) g h in
      let b : Precedes r' v' r v = Leads-Precedes ts' ts r' v' r v (λ t. (same t).0) h g in
      ground (arith, a, b)

-- An order of iteration runs over the keys, each once or more.
abbrev pub RunsOver : (List ℕ → List ℕ) → Type 0
RunsOver iterate = (ts : List ℕ) (t : ℕ) → (0 < count t (iterate ts)) ↔ (0 < count t ts)

-- The dominant type is the same whatever order Go runs over the types in.
determine_dominant_type-order :
    (value : CompostBinItem → ℕ) (iterate iterate' : List ℕ → List ℕ) (items : List CompostBinItem)
    → RunsOver iterate
    → RunsOver iterate'
    → determine_dominant_type value iterate items ≡ determine_dominant_type value iterate' items
unfolding determine_dominant_type
determine_dominant_type-order value iterate iterate' items h h' = by_keys (type_keys items) refl
  where
    by_keys :
        (ks : List ℕ)
        → type_keys items ≡ ks
        → determine_dominant_type value iterate items ≡ determine_dominant_type value iterate' items
    by_keys [] e = rw (determine_dominant_type, e) refl
    by_keys (k ∷ ks) e =
        rw (determine_dominant_type, e)
          (dominant_from-order (type_values value items) (iterate (k ∷ ks)) (iterate' (k ∷ ks))
            (λ t. (
              λ g. (h' (k ∷ ks) t).1 ((h (k ∷ ks) t).0 g),
              λ g. (h (k ∷ ks) t).1 ((h' (k ∷ ks) t).0 g),
            )))
