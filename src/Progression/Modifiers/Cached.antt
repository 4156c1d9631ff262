-- ===== src/Progression/Modifiers/Cached.antt =====
-- What GetModifiedValue answers after it has cached a value, until the cache is invalidated.
use brandish_bot_go.Prelude.{
  ℕ, ◌+◌, ◌≤◌, ◌≡◌, refl, true, false, none, some, List, [], ◌∷◌, ltb, ◌==◌, arith, Bool-cases,
  Option-cases, inl, inr,
}
use brandish_bot_go.Failure.{Result, ok, err}
use brandish_bot_go.Progression.Modifiers.{
  ValueModifier, Floats, Sources, ModifierCache, get_cached, set_cached, apply_all,
  get_all_modifiers_for_feature, modified, get_modified_value,
}

module _ {F : Type 0} (fl : Floats F) (s : Sources F) where
  get_cached-set_cached :
      (cache : ModifierCache F) (now later feature level : ℕ) (value : F)
      → later ≤ now + s.ttl
      → get_cached (set_cached cache s.ttl now feature value level) later feature ≡ some value
  get_cached-set_cached cache now later feature level value h =
      let self : (feature == feature) ≡ true = ground arith in
      let in_time : ltb (now + s.ttl) later ≡ false = ground (arith, h) in rw (self, in_time) refl

  -- Until that time the cache holds the value for the feature.
  abbrev pub Holds : ModifierCache F → ℕ → ℕ → F → Type 0
  Holds cache until feature value =
      (now : ℕ) → now ≤ until → get_cached cache now feature ≡ some value

  -- A call of GetModifiedValue: its time, user, feature and base value.
  abbrev pub Call : Type 0
  Call = ℕ × ℕ × ℕ × F

  -- The cache after calls, one after the other.
  abbrev pub after_calls : List Call → ModifierCache F → ModifierCache F
  after_calls [] cache = cache
  after_calls ((now, user, feature, base) ∷ calls) cache =
      after_calls calls (get_modified_value fl s cache now user feature base).1

  abbrev pub AllUntil : ℕ → List Call → Type 0
  AllUntil until [] = Unit {0}
  AllUntil until ((now, user, feature, base) ∷ calls) = (now ≤ until) × AllUntil until calls

  other_feature :
      (cache : ModifierCache F) (until now feature feature' : ℕ) (value base : F)
      (r : Result (List (ValueModifier F)))
      → (feature == feature') ≡ false
      → Holds cache until feature value
      → Holds (modified fl s cache now feature' base r).1 until feature value
  other_feature cache until now feature feature' value base (err e) away h = h
  other_feature cache until now feature feature' value base (ok []) away h = h
  other_feature cache until now feature feature' value base (ok (m ∷ ms)) away h =
      λ t le. rw away (h t le)

  one_call :
      (cache : ModifierCache F) (until now user feature feature' : ℕ) (value base : F)
      → now ≤ until
      → Holds cache until feature value
      → Holds (get_modified_value fl s cache now user feature' base).1 until feature value
  unfolding get_modified_value
  one_call cache until now user feature feature' value base le h =
      elim (Option-cases (get_cached cache now feature')) [
        | inr (other, hit) ↦ rw hit h
        | inl miss ↦ elim (Bool-cases (feature == feature')) [
          | inl same ↦
              let e : feature ≡ feature' = ground (arith, same) in
              let held = h now le in
              let g : get_cached cache now feature' ≡ some value = rw e at held in cc
          | inr away ↦ rw miss (
              other_feature cache until now feature feature' value base
                (get_all_modifiers_for_feature s user feature') away h)
        ]
      ]

  all_calls :
      (calls : List Call) (cache : ModifierCache F) (until feature : ℕ) (value : F)
      → AllUntil until calls
      → Holds cache until feature value
      → Holds (after_calls calls cache) until feature value
  all_calls [] cache until feature value le h = h
  all_calls ((now, user, feature', base) ∷ calls) cache until feature value (le, les) h =
      all_calls calls (get_modified_value fl s cache now user feature' base).1 until feature value
        les (one_call cache until now user feature feature' value base le h)

  -- After a call that found no value in the cache and computed one with a modifier, and after any
  -- calls of GetModifiedValue for any features within the time of the cache, with no invalidation in
  -- between, a call for the feature within that time returns the same value without an error,
  -- whatever user and base value it is for.
  pub get_modified_value-cached :
      (cache : ModifierCache F) (now later user user' feature : ℕ) (base base' : F)
      (m : ValueModifier F) (ms : List (ValueModifier F)) (calls : List Call)
      → get_cached cache now feature ≡ none
      → get_all_modifiers_for_feature s user feature ≡ ok (m ∷ ms)
      → AllUntil (now + s.ttl) calls
      → later ≤ now + s.ttl
      → let (r, cache1) = get_modified_value fl s cache now user feature base in
        let cache2 = after_calls calls cache1 in
        get_modified_value fl s cache2 later user' feature base' ≡ (r, cache2)
  unfolding get_modified_value
  get_modified_value-cached cache now later user user' feature base base' m ms calls e f les le =
      let value : F = (apply_all fl (m ∷ ms) base 0).0 in
      let total : ℕ = (apply_all fl (m ∷ ms) base 0).1 in
      let stored : ModifierCache F = set_cached cache s.ttl now feature value total in
      let held : Holds (after_calls calls stored) (now + s.ttl) feature value =
        all_calls calls stored (now + s.ttl) feature value les
          (λ t h. get_cached-set_cached cache now t feature total value h) in
      let again = held later le in rw (e, f, again) refl
