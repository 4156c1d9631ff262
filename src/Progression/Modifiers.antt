-- ===== src/Progression/Modifiers.antt =====
-- internal/progression/modifiers.go, cache.go and modifier_resolver.go: values that the progression
-- changes, and the cache that they are read from.
--
-- The values are floating point numbers; they are a parameter type here, with the operations that
-- ApplyModifier needs.
pub mod Cached
use brandish_bot_go.Prelude.{
  ℕ, ◌+◌, Bool, true, false, not, ◌&&◌, Option, none, some, List, [], ◌∷◌, ltb, ◌==◌, if◌then◌else◌,
}
use brandish_bot_go.Failure.{Result, ok, err, ◌>>=◌}

pub data ModifierType : Type 0 where
  multiplicative linear fixed percentage unknown : ModifierType

pub data SourceType : Type 0 where
  job progression other : SourceType

-- The operations on `float64` that are used.
pub record Floats (F : Type 0) : Type 0 where
  pub add : F → F → F
  pub mul : F → F → F
  pub of_int : ℕ → F
  pub min : F → F → F
  pub max : F → F → F

-- A row of `GetBonusModifiers`.
pub record BonusConfig (F : Type 0) : Type 0 where
  pub node_key : ℕ
  pub source_type : SourceType
  pub modifier_type : ModifierType
  pub base_value : F
  pub per_level_value : F
  pub progression_level : ℕ
  pub max_value : Option F
  pub min_value : Option F

-- `ValueModifier`: a row with the level that counts.
pub record ValueModifier (F : Type 0) : Type 0 where
  pub config : BonusConfig F
  pub current_level : ℕ

-- `CachedModifier`
pub record CachedModifier (F : Type 0) : Type 0 where
  pub value : F
  pub node_level : ℕ
  pub expires_at : ℕ

module _ {F : Type 0} (fl : Floats F) where
  abbrev pub at_most : Option F → F → F
  at_most none v = v
  at_most (some m) v = fl.min v m

  abbrev pub at_least : Option F → F → F
  at_least none v = v
  at_least (some m) v = fl.max v m

  abbrev pub bounded : BonusConfig F → F → F
  bounded c v = at_least c.min_value (at_most c.max_value v)

  abbrev pub bonus : ValueModifier F → F
  bonus m = fl.mul (fl.of_int m.current_level) m.config.per_level_value

  -- `ApplyModifier`
  abbrev pub apply_as : ModifierType → ValueModifier F → F → F
  apply_as multiplicative m base = bounded m.config (fl.mul base (fl.add (fl.of_int 1) (bonus m)))
  apply_as linear m base = bounded m.config (fl.add base (bonus m))
  apply_as fixed m base = bounded m.config (fl.add m.config.base_value (bonus m))
  apply_as percentage m base = bounded m.config (fl.add base (bonus m))
  apply_as unknown m base = base

  unfoldable pub apply_modifier : ValueModifier F → F → F
  apply_modifier m base = apply_as m.config.modifier_type m base

  -- The loop of `GetModifiedValue`: the value and the sum of the levels.
  unfoldable pub apply_all : List (ValueModifier F) → F → ℕ → F × ℕ
  apply_all [] value total = (value, total)
  apply_all (m ∷ ms) value total = apply_all ms (apply_modifier m value) (total + m.current_level)

-- What the storage and the job service answer, `none` without a job service.
pub record Sources (F : Type 0) : Type 0 where
  pub get_bonus_modifiers : ℕ → Result (List (BonusConfig F))
  pub get_job_level : Option (ℕ → ℕ → Result ℕ)
  pub ttl : ℕ

-- The level of a row; `none` where the loop skips the row.
abbrev pub ok_level : Result ℕ → Option ℕ
ok_level (err e) = none
ok_level (ok level) = some level

abbrev pub job_level : Option (ℕ → ℕ → Result ℕ) → ℕ → ℕ → Option ℕ
job_level none user node = none
job_level (some level_of) user node = if user == 0 then none else ok_level (level_of user node)

abbrev pub current_level : {F : Type 0} → Sources F → ℕ → SourceType → BonusConfig F → Option ℕ
current_level s user job c = job_level s.get_job_level user c.node_key
current_level s user progression c = some c.progression_level
current_level s user other c = some 0

abbrev pub keep :
    {F : Type 0} → BonusConfig F → Option ℕ → List (ValueModifier F) → List (ValueModifier F)
keep c none ms = ms
keep c (some level) ms =
    if ltb 0 level then record { config = c; current_level = level } ∷ ms else ms

-- The loop of `GetAllModifiersForFeature`.
unfoldable pub collect_modifiers :
    {F : Type 0} → Sources F → ℕ → List (BonusConfig F) → List (ValueModifier F)
collect_modifiers s user [] = []
collect_modifiers s user (c ∷ cs) =
    keep c (current_level s user c.source_type c) (collect_modifiers s user cs)

-- `GetAllModifiersForFeature`
unfoldable pub get_all_modifiers_for_feature :
    {F : Type 0} → Sources F → ℕ → ℕ → Result (List (ValueModifier F))
get_all_modifiers_for_feature s user feature = do
  configs ← s.get_bonus_modifiers feature
  ok (collect_modifiers s user configs)

-- `ModifierCache`
abbrev pub ModifierCache : Type 0 → Type 0
ModifierCache F = ℕ → Option (CachedModifier F)

-- `Get`
abbrev pub fresh : {F : Type 0} → ℕ → Option (CachedModifier F) → Option F
fresh now none = none
fresh now (some c) = if ltb c.expires_at now then none else some c.value

abbrev pub get_cached : {F : Type 0} → ModifierCache F → ℕ → ℕ → Option F
get_cached cache now feature = fresh now (cache feature)

-- `Set`
abbrev pub set_cached : {F : Type 0} → ModifierCache F → ℕ → ℕ → ℕ → F → ℕ → ModifierCache F
set_cached cache ttl now feature value level = λ k.
    if k == feature
    then some (record { value = value; node_level = level; expires_at = now + ttl })
    else cache k

-- `Invalidate` and `InvalidateAll`
abbrev pub invalidate : {F : Type 0} → ModifierCache F → ℕ → ModifierCache F
invalidate cache feature = λ k. if k == feature then none else cache k

abbrev pub invalidate_all : {F : Type 0} → ModifierCache F → ModifierCache F
invalidate_all cache = λ k. none

-- What GetModifiedValue returns: the value, and whether an error comes with it.
module _ {F : Type 0} (fl : Floats F) (s : Sources F) where
  abbrev pub modified :
      ModifierCache F → ℕ → ℕ → F → Result (List (ValueModifier F)) → (F × Bool) × ModifierCache F
  modified cache now feature base (err e) = ((base, true), cache)
  modified cache now feature base (ok []) = ((base, false), cache)
  modified cache now feature base (ok (m ∷ ms)) =
      let (value, total) = apply_all fl (m ∷ ms) base 0 in
      ((value, false), set_cached cache s.ttl now feature value total)

  abbrev pub cached_or_modified :
      ModifierCache F → ℕ → ℕ → ℕ → F → Option F → (F × Bool) × ModifierCache F
  cached_or_modified cache now user feature base (some value) = ((value, false), cache)
  cached_or_modified cache now user feature base none =
      modified cache now feature base (get_all_modifiers_for_feature s user feature)

  -- `GetModifiedValue`
  unfoldable pub get_modified_value : ModifierCache F → ℕ → ℕ → ℕ → F → (F × Bool) × ModifierCache F
  get_modified_value cache now user feature base =
      cached_or_modified cache now user feature base (get_cached cache now feature)
