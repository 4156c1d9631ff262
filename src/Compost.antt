-- ===== src/Compost.antt =====
-- internal/domain/compost.go and internal/compost/engine.go: compost bins, when they are ready, and
-- what they give.
--
-- Times are numbers of nanoseconds. A name or a content type is a number, numbered in the order of
-- the strings, 0 for the empty string. The floating point parts are parameters: the value of a bin
-- item, what the speed bonus leaves of a duration, and the yield of an input value.
pub mod Deposit
pub mod Harvest
pub mod Bins
pub mod Status
pub mod Deposits
pub mod Dominant
pub mod Output
pub mod Collected
use brandish_bot_go.Prelude.{
  ℕ, zero, suc, ◌+◌, ◌*◌, ◌/◌, Bool, true, false, ◌&&◌, ◌||◌, Option, none, some, List, [], ◌∷◌,
  ◌++◌, ltb, leb, ◌==◌, if◌then◌else◌,
}
use brandish_bot_go.Inventory.{QualityLevel}

pub data CompostBinStatus : Type 0 where
  idle composting ready sludge : CompostBinStatus

pub record CompostBinItem : Type 0 where
  pub item_id : ℕ
  pub item_name : ℕ
  pub quantity : ℕ
  pub quality_level : QualityLevel
  pub base_value : ℕ
  pub content_types : List ℕ

pub record CompostBin : Type 0 where
  pub status : CompostBinStatus
  pub capacity : ℕ
  pub items : List CompostBinItem
  pub item_count : ℕ
  pub started_at : Option ℕ
  pub ready_at : Option ℕ
  pub sludge_at : Option ℕ
  pub input_value : ℕ
  pub dominant_type : ℕ

-- The fields of `domain.Item` that are read.
pub record Item : Type 0 where
  pub id : ℕ
  pub internal_name : ℕ
  pub public_name : ℕ
  pub base_value : ℕ
  pub content_types : List ℕ
  pub types : List ℕ

abbrev pub hour : ℕ
hour = 3600000000000

abbrev pub warmup_duration : ℕ
warmup_duration = hour

abbrev pub per_item_duration : ℕ
per_item_duration = 1800000000000

abbrev pub sludge_timeout : ℕ
sludge_timeout = 168 * hour

-- `HasTag`, and `HasType`.
abbrev pub has_tag : List ℕ → ℕ → Bool
has_tag [] tag = false
has_tag (t ∷ ts) tag = if t == tag then true else has_tag ts tag

-- `CalculateReadyAt`; `reduced` is `baseDuration * (1.0 - speedMultiplier)`.
abbrev pub calculate_ready_at : (ℕ → ℕ) → ℕ → ℕ → ℕ
calculate_ready_at reduced started_at count =
    started_at + reduced (warmup_duration + count * per_item_duration)

-- `CalculateSludgeAt`
abbrev pub calculate_sludge_at : ℕ → ℕ → ℕ
calculate_sludge_at ready_at extension = ready_at + (sludge_timeout + extension)

-- `TotalItemCount`
abbrev pub total_item_count : List CompostBinItem → ℕ
total_item_count [] = 0
total_item_count (x ∷ xs) = x.quantity + total_item_count xs

-- `HasType` and the names that `DetermineDominantType` falls back on.
abbrev pub content_type_material : ℕ
content_type_material = 1

module _ (value : CompostBinItem → ℕ) where
  -- `CalculateInputValue`; `value` is `math.Round(float64(item.BaseValue) * mult * ...)`.
  abbrev pub calculate_input_value : List CompostBinItem → ℕ
  calculate_input_value [] = 0
  calculate_input_value (x ∷ xs) = value x + calculate_input_value xs

  abbrev pub value_for : ℕ → List ℕ → ℕ → ℕ
  value_for t [] v = 0
  value_for t (ct ∷ cts) v = (if ct == t then v else 0) + value_for t cts v

  -- `typeValues[t]`
  abbrev pub type_values : List CompostBinItem → ℕ → ℕ
  type_values [] t = 0
  type_values (x ∷ xs) t = value_for t x.content_types (value x) + type_values xs t

-- The keys of `typeValues`.
abbrev pub add_keys : List ℕ → List ℕ → List ℕ
add_keys [] keys = keys
add_keys (t ∷ ts) keys = let rest = add_keys ts keys in if has_tag rest t then rest else t ∷ rest

abbrev pub type_keys : List CompostBinItem → List ℕ
type_keys [] = []
type_keys (x ∷ xs) = add_keys x.content_types (type_keys xs)

-- The loop of `DetermineDominantType` over the map, from `dominant` and `maxVal` on.
unfoldable pub dominant_from : (ℕ → ℕ) → List ℕ → ℕ → ℕ → ℕ
dominant_from values [] dominant most = dominant
dominant_from values (t ∷ ts) dominant most =
    let v = values t in
    let better = ltb most v || (v == most && ltb t dominant) in
    dominant_from values ts (if better then t else dominant) (if better then v else most)

-- `DetermineDominantType`; `iterate` gives the order in which Go runs over the map.
unfoldable pub determine_dominant_type :
    (CompostBinItem → ℕ) → (List ℕ → List ℕ) → List CompostBinItem → ℕ
determine_dominant_type value iterate items = elim (type_keys items) [
  | [] ↦ content_type_material
  | k ∷ ks ↦ dominant_from (type_values value items) (iterate (k ∷ ks)) 0 0
]

-- `resolveLazyBinStatus`: `due now at` is `at != nil && !now.Before(*at)`.
abbrev pub due : ℕ → Option ℕ → Bool
due now none = false
due now (some at) = leb at now

unfoldable pub status_at : ℕ → CompostBinStatus → Option ℕ → Option ℕ → CompostBinStatus
status_at now idle ready_at sludge_at = idle
status_at now composting ready_at sludge_at =
    if due now ready_at then if due now sludge_at then sludge else ready else composting
status_at now ready ready_at sludge_at = if due now sludge_at then sludge else ready
status_at now sludge ready_at sludge_at = sludge

unfoldable pub resolve_lazy_bin_status : ℕ → CompostBin → CompostBin
unfolding status_at
resolve_lazy_bin_status now bin = record bin {
  status = status_at now bin.status bin.ready_at bin.sludge_at;
}
