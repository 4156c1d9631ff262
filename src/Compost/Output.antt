-- ===== src/Compost/Output.antt =====
-- What a harvest gives: the items of CalculateOutput, and what Harvest does with them.
use brandish_bot_go.Prelude.{
  ℕ, ◌+◌, ◌*◌, ◌/◌, ◌≤◌, ◌<◌, ◌≡◌, ◌↔◌, ◌⊎◌, refl, true, false, ◌&&◌, Option, none, some, List, [],
  ◌∷◌, IsIn, ltb, leb, if◌then◌else◌, arith, Bool-cases, inl, inr,
}
use native.Mathlib.Nat.{le-div_iff_mul-le, div-lt_iff_lt-mul}
use brandish_bot_go.Compost.{Item, has_tag}
use brandish_bot_go.Compost.Harvest.{
  item_money, CompostOutput, at_least_one, candidates, first_affordable, output_of, sludge_output,
  calculate_output,
}

-- Falling base values: no item is worth more than one before it.
abbrev pub IsFalling : List Item → Type 0
IsFalling [] = Unit
IsFalling (i ∷ is) = ((j : Item) → IsIn j is → j.base_value ≤ i.base_value) × IsFalling is

IsIn-candidates :
    (t : ℕ) (items : List Item) (i : Item)
    → IsIn i (candidates t items) ↔ (IsIn i items × (has_tag i.content_types t ≡ true))
IsIn-candidates t [] i = (λ h. absurd h, λ h. h.0)
IsIn-candidates t (j ∷ js) i = elim (Bool-cases (has_tag j.content_types t)) [
  | inl tagged ↦ rw tagged (
    λ h. elim h [
      | inl e ↦ (inl e, rw e tagged)
      | inr g ↦ let (a, b) = (IsIn-candidates t js i).0 g in (inr a, b)
    ],
    λ (h, g). elim h [ inl e ↦ inl e | inr a ↦ inr ((IsIn-candidates t js i).1 (a, g)) ],
  )
  | inr other ↦ rw other (
    λ h. let (a, b) = (IsIn-candidates t js i).0 h in (inr a, b),
    λ (h, g). elim h [
      | inl e ↦ let f : has_tag j.content_types t ≡ true = rw (← e) g in cc
      | inr a ↦ (IsIn-candidates t js i).1 (a, g)
    ],
  )
]

-- The item is affordable: its value is positive and at most what there is.
abbrev pub IsAffordable : ℕ → Item → Type 0
IsAffordable value i = (0 < i.base_value) × (i.base_value ≤ value)

abbrev pub Chosen : ℕ → List Item → Option Item → Type 0
Chosen value items none = (j : Item) → IsIn j items → (j.base_value ≡ 0) ⊎ (value < j.base_value)
Chosen value items (some i) =
    IsIn i items
    × IsAffordable value i
    × ((j : Item) → IsIn j items → j.base_value ≤ value → j.base_value ≤ i.base_value)

Chosen-cons :
    (value : ℕ) (i : Item) (is : List Item) (o : Option Item)
    → (i.base_value ≡ 0) ⊎ (value < i.base_value)
    → Chosen value is o
    → Chosen value (i ∷ is) o
Chosen-cons value i is none out h = λ j g. elim g [ inl e ↦ rw e out | inr a ↦ h j a ]
Chosen-cons value i is (some k) out (a, b, most) = (
  inr a,
  b,
  λ j g le. elim g [
    | inl e ↦ let le_i : i.base_value ≤ value = rw e at le in rw e (omega (arith, out))
    | inr c ↦ most j c le
  ],
)

first_affordable-Chosen :
    (value : ℕ) (items : List Item)
    → IsFalling items
    → Chosen value items (first_affordable value items)
first_affordable-Chosen value [] f = λ j h. absurd h
first_affordable-Chosen value (i ∷ is) f =
    elim (Bool-cases (leb i.base_value value && ltb 0 i.base_value)) [
      | inl takes ↦ rw takes (
        inl refl,
        (ground arith, ground arith),
        λ j h le. elim h [ inl e ↦ rw e (omega arith) | inr a ↦ f.0 j a ],
      )
      | inr leaves ↦ rw leaves (
          Chosen-cons value i is (first_affordable value is) (ground arith)
            (first_affordable-Chosen value is f.1))
    ]

-- The items that have the dominant type.
abbrev pub IsCandidate : ℕ → List Item → Item → Type 0
IsCandidate t items i = IsIn i items × (has_tag i.content_types t ≡ true)

-- What a harvest with a value gives.
abbrev pub Gives : ℕ → ℕ → List Item → CompostOutput → Type 0
Gives value t items out =
    (((out.name ≡ item_money) × (out.quantity ≡ value))
      × ((j : Item) → IsCandidate t items j → (j.base_value ≡ 0) ⊎ (value < j.base_value)))
    ⊎ ((i : Item) × IsCandidate t items i
        × IsAffordable value i
        × (out.name ≡ i.internal_name)
        × (out.quantity * i.base_value ≤ value)
        × (value < (out.quantity + 1) * i.base_value)
        × ((j : Item) → IsCandidate t items j → j.base_value ≤ value → j.base_value ≤ i.base_value))

quantity_lem :
    (value base : ℕ)
    → 0 < base
    → base ≤ value
    → (at_least_one (value / base) * base ≤ value)
      × (value < (at_least_one (value / base) + 1) * base)
quantity_lem value base h le =
    let n : ℕ = value / base in
    let one : 1 ≤ n = (le-div_iff_mul-le {k = base} {x = 1} {y = value} h).1 (omega (arith, le)) in
    let same : at_least_one n ≡ n = ground (arith, one) in
    rw same (
      (le-div_iff_mul-le {k = base} {x = n} {y = value} h).0 (omega arith),
      (div-lt_iff_lt-mul {x = value} {y = n + 1} h).0 (omega arith),
    )

module _ (yield : ℕ → ℕ) (sort : List Item → List Item) (input_value t : ℕ)
    (items : List Item) where
  abbrev value : ℕ
  value = at_least_one (yield input_value)

  abbrev sorted : List Item
  sorted = sort (candidates t items)

  Gives-output_of :
      ((i : Item) → IsIn i sorted ↔ IsIn i (candidates t items))
      → (o : Option Item) → Chosen value sorted o
      → Gives value t items (output_of value o)
  Gives-output_of same none h =
      inl ((refl, refl), λ j c. h j ((same j).1 ((IsIn-candidates t items j).1 c)))
  Gives-output_of same (some i) (a, (b, c), most) =
      let (few, many) = quantity_lem value i.base_value b c in
      inr (
        i,
        (IsIn-candidates t items i).0 ((same i).0 a),
        (b, c),
        refl,
        few,
        many,
        λ j g. most j ((same j).1 ((IsIn-candidates t items j).1 g)),
      )

  -- Where the sort gives the candidates by falling value, a bin that is not sludge gives an item of
  -- its dominant type that is worth the most of those that its value pays for, and as many as the
  -- value pays for; where it pays for none, it gives the value in money. Sludge gives a tenth of
  -- the input value, at least one.
  pub calculate_output-Gives :
      IsFalling (sort (candidates t items))
      → ((i : Item) → IsIn i (sort (candidates t items)) ↔ IsIn i (candidates t items))
      → Gives
          (at_least_one (yield input_value))
          t
          items
          (calculate_output yield sort input_value t false items)
        × (calculate_output yield sort input_value t true items
            ≡ sludge_output (if ltb (input_value / 10) 1 then 1 else input_value / 10))
  unfolding calculate_output
  calculate_output-Gives falling same = (
    Gives-output_of same (first_affordable value sorted)
        (first_affordable-Chosen value sorted falling),
    refl,
  )
