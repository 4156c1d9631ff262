-- ===== src/Inventory/Quality.antt =====
-- internal/utils/quality.go: the order of the quality levels and the average quality of a set of
-- materials.
use brandish_bot_go.Prelude.{
  ℕ, zero, suc, ◌+◌, ◌-◌, ◌*◌, ◌/◌, ◌<◌, ◌≤◌, ◌≡◌, refl, Option, some, List, [], ◌∷◌, get_elem?,
  length, leb, ◌==◌, if◌then◌else◌, arith,
}
use native.Mathlib.Nat.{le-div_iff_mul-le, div-lt_iff_lt-mul}
use brandish_bot_go.Prelude.Int.{ℤ, sub_ℕ}
use brandish_bot_go.Inventory.{
  Inventory, QualityLevel, common, uncommon, rare, epic, legendary, poor, junk, cursed, unset,
}

-- `GetQualityValue` over the table `qualityToValue`: a level that is not in it counts as common.
abbrev pub get_quality_value : QualityLevel → ℕ
get_quality_value cursed = 0
get_quality_value junk = 1
get_quality_value poor = 2
get_quality_value common = 3
get_quality_value uncommon = 4
get_quality_value rare = 5
get_quality_value epic = 6
get_quality_value legendary = 7
get_quality_value unset = 3

-- `valueToQuality`
abbrev pub value_to_quality : List QualityLevel
value_to_quality = cursed ∷ junk ∷ poor ∷ common ∷ uncommon ∷ rare ∷ epic ∷ legendary ∷ []

-- `CompareQuality`
unfoldable pub compare_quality : QualityLevel → QualityLevel → ℤ
compare_quality a b = sub_ℕ (get_quality_value a) (get_quality_value b)

abbrev pub total_value : Inventory → ℕ
total_value [] = 0
total_value (s ∷ ss) = get_quality_value s.quality_level * s.quantity + total_value ss

abbrev pub total_quantity : Inventory → ℕ
total_quantity [] = 0
total_quantity (s ∷ ss) = s.quantity + total_quantity ss

-- `if averageValue >= len(valueToQuality) { averageValue = len(valueToQuality) - 1 }`, and the
-- lookup. `none` is an index out of range.
abbrev level_at : ℕ → Option QualityLevel
level_at v =
    get_elem? value_to_quality
      (if leb (length value_to_quality) v then length value_to_quality - 1 else v)

-- `CalculateAverageQuality`
unfoldable pub calculate_average_quality : Inventory → Option QualityLevel
calculate_average_quality [] = some common
calculate_average_quality (s ∷ ss) =
    let n = total_quantity (s ∷ ss) in
    if n == 0 then some common else level_at ((total_value (s ∷ ss) + n / 2) / n)

-- Every slot that is not empty has a quality value in a range.
abbrev pub LiesWithin : ℕ → ℕ → Inventory → Type 0
LiesWithin lo hi [] = Unit
LiesWithin lo hi (s ∷ ss) =
    (0 < s.quantity
      → (lo ≤ get_quality_value s.quality_level) × (get_quality_value s.quality_level ≤ hi))
    × LiesWithin lo hi ss

scaled : (lo v hi q : ℕ) → (0 < q → (lo ≤ v) × (v ≤ hi)) → (lo * q ≤ v * q) × (v * q ≤ hi * q)
scaled lo v hi zero h = omega arith
scaled lo v hi (suc q) h = let (a, b) = h (omega arith) in (grind arith, grind arith)

value_bounds :
    (lo hi : ℕ) (inv : Inventory)
    → LiesWithin lo hi inv
    → (lo * total_quantity inv ≤ total_value inv) × (total_value inv ≤ hi * total_quantity inv)
value_bounds lo hi [] h = omega arith
value_bounds lo hi (s ∷ ss) h = omega (
  arith,
  scaled lo (get_quality_value s.quality_level) hi s.quantity h.0,
  value_bounds lo hi ss h.1,
)

rounded_div :
    (lo hi tv n : ℕ)
    → 0 < n
    → lo * n ≤ tv
    → tv ≤ hi * n
    → (lo ≤ (tv + n / 2) / n) × ((tv + n / 2) / n ≤ hi)
rounded_div lo hi tv n h a b = (
  (le-div_iff_mul-le h).1 (omega (arith, a)),
  omega (arith, (div-lt_iff_lt-mul {x = tv + n / 2} {y = suc hi} h).1 (omega (arith, h, b))),
)

level_at_value :
    (v : ℕ) → v ≤ 7 → (q : QualityLevel) × (level_at v ≡ some q) × (get_quality_value q ≡ v)
level_at_value zero h = (cursed, refl, refl)
level_at_value (suc zero) h = (junk, refl, refl)
level_at_value (suc (suc zero)) h = (poor, refl, refl)
level_at_value (suc (suc (suc zero))) h = (common, refl, refl)
level_at_value (suc (suc (suc (suc zero)))) h = (uncommon, refl, refl)
level_at_value (suc (suc (suc (suc (suc zero))))) h = (rare, refl, refl)
level_at_value (suc (suc (suc (suc (suc (suc zero)))))) h = (epic, refl, refl)
level_at_value (suc (suc (suc (suc (suc (suc (suc zero))))))) h = (legendary, refl, refl)
level_at_value (suc (suc (suc (suc (suc (suc (suc (suc n)))))))) h = absurd (omega arith)

-- The average of materials, with at least one item among them, is a level between the lowest and
-- the highest of them, and no index is out of range.
pub calculate_average_quality-LiesWithin :
    (lo hi : ℕ) (inv : Inventory)
    → LiesWithin lo hi inv
    → hi ≤ 7
    → 0 < total_quantity inv
    → (q : QualityLevel) × (calculate_average_quality inv ≡ some q)
      × (lo ≤ get_quality_value q)
      × (get_quality_value q ≤ hi)
unfolding calculate_average_quality
calculate_average_quality-LiesWithin lo hi [] w h pos_total = absurd (omega arith)
calculate_average_quality-LiesWithin lo hi (s ∷ ss) w h pos_total =
    let n : ℕ = total_quantity (s ∷ ss) in
    let (a, b) = value_bounds lo hi (s ∷ ss) w in
    let (c, d) = rounded_div lo hi (total_value (s ∷ ss)) n pos_total a b in
    let (q, e, f) = level_at_value ((total_value (s ∷ ss) + n / 2) / n) (omega arith) in
    (q, ground (arith, e), omega arith, omega arith)
