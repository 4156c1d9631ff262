-- ===== src/Progression/Unlocks.antt =====
-- internal/progression/unlock.go and unlock_cache.go: whether nodes are unlocked, asked of the
-- storage once and then of a cache.
pub mod Batch
use brandish_bot_go.Prelude.{
  ℕ, ◌≡◌, refl, sym, Bool, true, false, ◌&&◌, Option, none, some, List, [], ◌∷◌, ◌++◌, ◌==◌,
  if◌then◌else◌, arith, Bool-cases, Option-cases, inl, inr,
}
use brandish_bot_go.Failure.{Result, ok, err, Result-cases}

-- `UnlockCache`, by its keys "nodeKey:level".
abbrev pub UnlockCache : Type 0
UnlockCache = ℕ → ℕ → Option Bool

-- `Set`
abbrev pub set_unlock : UnlockCache → ℕ → ℕ → Bool → UnlockCache
set_unlock cache node level unlocked =
    λ n l. if (n == node) && (l == level) then some unlocked else cache n l

-- `InvalidateAll`
abbrev pub invalidate_all : UnlockCache → UnlockCache
invalidate_all cache = λ n l. none

-- The answer of the storage, which is cached unless it is an error.
abbrev pub remembered : UnlockCache → ℕ → ℕ → Result Bool → Result Bool × UnlockCache
remembered cache node level (err e) = (err e, cache)
remembered cache node level (ok unlocked) = (ok unlocked, set_unlock cache node level unlocked)

abbrev pub looked_up :
    (ℕ → ℕ → Result Bool) → UnlockCache → ℕ → ℕ → Option Bool → Result Bool × UnlockCache
looked_up stored cache node level (some unlocked) = (ok unlocked, cache)
looked_up stored cache node level none = remembered cache node level (stored node level)

-- `IsNodeUnlocked`; `stored` is the storage.
unfoldable pub is_node_unlocked :
    (ℕ → ℕ → Result Bool) → UnlockCache → ℕ → ℕ → Result Bool × UnlockCache
is_node_unlocked stored cache node level = looked_up stored cache node level (cache node level)

-- `IsFeatureUnlocked`
unfoldable pub is_feature_unlocked :
    (ℕ → ℕ → Result Bool) → UnlockCache → ℕ → Result Bool × UnlockCache
unfolding is_node_unlocked
is_feature_unlocked stored cache feature = is_node_unlocked stored cache feature 1

-- `IsItemUnlocked`; `node_of` is `mapItemToProgressionKey`.
unfoldable pub is_item_unlocked :
    (ℕ → ℕ) → (ℕ → ℕ → Result Bool) → UnlockCache → ℕ → Result Bool × UnlockCache
unfolding is_node_unlocked
is_item_unlocked node_of stored cache item = is_node_unlocked stored cache (node_of item) 1

-- `result`, a Go map.
abbrev pub Answers : Type 0
Answers = ℕ → Option Bool

abbrev pub with_answer : Answers → ℕ → Bool → Answers
with_answer m item unlocked = λ i. if i == item then some unlocked else m i

-- The first loop of `AreItemsUnlocked`: the answers of the cache, and the items it has none for.
abbrev pub note_cached : ℕ → Option Bool → Answers × List ℕ → Answers × List ℕ
note_cached item (some unlocked) (m, missing) = (with_answer m item unlocked, missing)
note_cached item none (m, missing) = (m, missing ++ (item ∷ []))

unfoldable pub from_cache : (ℕ → ℕ) → UnlockCache → List ℕ → Answers × List ℕ → Answers × List ℕ
from_cache node_of cache [] seen = seen
from_cache node_of cache (item ∷ items) seen =
    from_cache node_of cache items (note_cached item (cache (node_of item) 1) seen)

-- The second loop, over the others.
unfoldable pub from_storage :
    (ℕ → ℕ) → (ℕ → ℕ → Result Bool) → UnlockCache → List ℕ → Answers → Result Answers × UnlockCache
from_storage node_of stored cache [] m = (ok m, cache)
from_storage node_of stored cache (item ∷ items) m = elim (stored (node_of item) 1) [
  | err e ↦ (err e, cache)
  | ok unlocked ↦
      from_storage node_of stored (set_unlock cache (node_of item) 1 unlocked) items
        (with_answer m item unlocked)
]

-- `AreItemsUnlocked`
unfoldable pub are_items_unlocked :
    (ℕ → ℕ) → (ℕ → ℕ → Result Bool) → UnlockCache → List ℕ → Result Answers × UnlockCache
unfolding from_cache from_storage
are_items_unlocked node_of stored cache items =
    let (m, missing) = from_cache node_of cache items ((λ i. none), []) in
    from_storage node_of stored cache missing m

-- The cache says nothing but what the storage answers.
abbrev pub IsCoherent : (ℕ → ℕ → Result Bool) → UnlockCache → Type 0
IsCoherent stored cache =
    (node level : ℕ) (unlocked : Bool)
    → cache node level ≡ some unlocked
    → stored node level ≡ ok unlocked

pub IsCoherent-set :
    (stored : ℕ → ℕ → Result Bool) (cache : UnlockCache) (node level : ℕ) (unlocked : Bool)
    → IsCoherent stored cache
    → stored node level ≡ ok unlocked
    → IsCoherent stored (set_unlock cache node level unlocked)
IsCoherent-set stored cache node level unlocked h e n l u g =
    elim (Bool-cases ((n == node) && (l == level))) [
      | inl same ↦
          let en : n ≡ node = ground (arith, same) in
          let el : l ≡ level = ground (arith, same) in
          let eu : unlocked ≡ u = cc (rw same at g) in rw (en, el, ← eu) e
      | inr other ↦ h n l u (rw other at g)
    ]

-- With a cache that agrees with the storage a check answers what the storage answers, and leaves a
-- cache that agrees with it again.
pub is_node_unlocked-stored :
    (stored : ℕ → ℕ → Result Bool) (cache : UnlockCache) (node level : ℕ)
    → IsCoherent stored cache
    → ((is_node_unlocked stored cache node level).0 ≡ stored node level)
      × IsCoherent stored (is_node_unlocked stored cache node level).1
unfolding is_node_unlocked
is_node_unlocked-stored stored cache node level h = by_cache (cache node level) refl
  where
    Agrees : Result Bool × UnlockCache → Type 0
    Agrees r = (r.0 ≡ stored node level) × IsCoherent stored r.1

    by_storage : (r : Result Bool) → stored node level ≡ r → Agrees (remembered cache node level r)
    by_storage (err x) e = (sym e, h)
    by_storage (ok u) e = (sym e, IsCoherent-set stored cache node level u h e)

    by_cache :
        (o : Option Bool) → cache node level ≡ o → Agrees (looked_up stored cache node level o)
    by_cache none e = by_storage (stored node level) refl
    by_cache (some u) e = (sym (h node level u e), h)
