-- ===== src/Progression/Unlocks/Batch.antt =====
-- AreItemsUnlocked against the storage that the single checks ask.
use brandish_bot_go.Prelude.{
  ℕ, ◌≡◌, ◌⊎◌, refl, Bool, true, Option, none, some, List, [], ◌∷◌, ◌++◌, IsIn, ◌==◌, arith,
  Bool-cases, inl, inr,
}
use brandish_bot_go.Failure.{Result, ok, err, Result-cases}
use brandish_bot_go.Progression.Unlocks.{
  UnlockCache, set_unlock, Answers, with_answer, note_cached, from_cache, from_storage,
  are_items_unlocked, IsCoherent, IsCoherent-set,
}

IsIn-append_left : (x : ℕ) (xs ys : List ℕ) → IsIn x xs → IsIn x (xs ++ ys)
IsIn-append_left x [] ys h = absurd h
IsIn-append_left x (z ∷ zs) ys (inl e) = inl e
IsIn-append_left x (z ∷ zs) ys (inr h) = inr (IsIn-append_left x zs ys h)

IsIn-append_last : (x : ℕ) (xs : List ℕ) → IsIn x (xs ++ (x ∷ []))
IsIn-append_last x [] = inl refl
IsIn-append_last x (z ∷ zs) = inr (IsIn-append_last x zs)

module _ (node_of : ℕ → ℕ) (stored : ℕ → ℕ → Result Bool) where
  -- The answers say nothing but what the storage answers.
  abbrev pub IsTrue : Answers → Type 0
  IsTrue m = (item : ℕ) (u : Bool) → m item ≡ some u → stored (node_of item) 1 ≡ ok u

  abbrev pub Knows : Answers → ℕ → Type 0
  Knows m item = (u : Bool) × (m item ≡ some u)

  IsTrue-with_answer :
      (m : Answers) (item : ℕ) (u : Bool)
      → IsTrue m
      → stored (node_of item) 1 ≡ ok u
      → IsTrue (with_answer m item u)
  IsTrue-with_answer m item u h e i v g = elim (Bool-cases (i == item)) [
    | inl same ↦
        let ei : i ≡ item = ground (arith, same) in
        let eu : u ≡ v = cc (rw same at g) in rw (ei, ← eu) e
    | inr other ↦ h i v (rw other at g)
  ]

  Knows-with_answer :
      (m : Answers) (item : ℕ) (u : Bool) (i : ℕ) → Knows m i → Knows (with_answer m item u) i
  Knows-with_answer m item u i (v, e) = elim (Bool-cases (i == item)) [
    | inl same ↦ (u, rw same refl)
    | inr other ↦ (v, rw other e)
  ]

  Knows-answered : (m : Answers) (item : ℕ) (u : Bool) → Knows (with_answer m item u) item
  Knows-answered m item u = let self : (item == item) ≡ true = ground arith in (u, rw self refl)

  -- An item that is answered or still missing.
  abbrev IsSeen : Answers × List ℕ → ℕ → Type 0
  IsSeen (m, missing) i = Knows m i ⊎ IsIn i missing

  IsSeen-note :
      (item : ℕ) (o : Option Bool) (m : Answers) (missing : List ℕ) (i : ℕ)
      → IsSeen (m, missing) i
      → IsSeen (note_cached item o (m, missing)) i
  IsSeen-note item none m missing i (inl k) = inl k
  IsSeen-note item none m missing i (inr h) = inr (IsIn-append_left i missing (item ∷ []) h)
  IsSeen-note item (some u) m missing i (inl k) = inl (Knows-with_answer m item u i k)
  IsSeen-note item (some u) m missing i (inr h) = inr h

  IsSeen-noted :
      (item : ℕ) (o : Option Bool) (m : Answers) (missing : List ℕ)
      → IsSeen (note_cached item o (m, missing)) item
  IsSeen-noted item none m missing = inr (IsIn-append_last item missing)
  IsSeen-noted item (some u) m missing = inl (Knows-answered m item u)

  IsTrue-note :
      (item : ℕ) (o : Option Bool) (m : Answers) (missing : List ℕ)
      → IsTrue m
      → ((u : Bool) → o ≡ some u → stored (node_of item) 1 ≡ ok u)
      → IsTrue (note_cached item o (m, missing)).0
  IsTrue-note item none m missing h g = h
  IsTrue-note item (some u) m missing h g = IsTrue-with_answer m item u h (g u refl)

  from_cache_lem :
      (cache : UnlockCache) (items : List ℕ) (seen : Answers × List ℕ)
      → IsCoherent stored cache
      → IsTrue seen.0
      → let r = from_cache node_of cache items seen in
        IsTrue r.0 × ((i : ℕ) → IsSeen seen i ⊎ IsIn i items → IsSeen r i)
  unfolding from_cache
  from_cache_lem cache [] seen c h = (h, λ i g. elim g [ inl k ↦ k | inr f ↦ absurd f ])
  from_cache_lem cache (item ∷ items) (m, missing) c h =
      let o : Option Bool = cache (node_of item) 1 in
      let (a, b) =
        from_cache_lem cache items (note_cached item o (m, missing)) c
          (IsTrue-note item o m missing h (λ u. c (node_of item) 1 u)) in
      (
        a,
        λ i g. b i (elim g [
          | inl k ↦ inl (IsSeen-note item o m missing i k)
          | inr f ↦ elim f [ inl e ↦ inl (rw e (IsSeen-noted item o m missing)) | inr f ↦ inr f ]
        ]),
      )

  -- What the checks of many items end with: answers for all of them, or an error of the storage.
  abbrev pub BatchOutcome : List ℕ → Result Answers × UnlockCache → Type 0
  BatchOutcome items (err e, cache) =
      IsCoherent stored cache × ((item : ℕ) × (stored (node_of item) 1 ≡ err e))
  BatchOutcome items (ok m, cache) =
      IsCoherent stored cache × IsTrue m × ((i : ℕ) → IsIn i items → Knows m i)

  from_storage_lem :
      (missing items : List ℕ) (cache : UnlockCache) (m : Answers)
      → IsCoherent stored cache
      → IsTrue m
      → ((i : ℕ) → IsIn i items → Knows m i ⊎ IsIn i missing)
      → BatchOutcome items (from_storage node_of stored cache missing m)
  unfolding from_storage
  from_storage_lem [] items cache m c h g =
      (c, h, λ i f. elim (g i f) [ inl k ↦ k | inr no_more ↦ absurd no_more ])
  from_storage_lem (x ∷ xs) items cache m c h g = elim (Result-cases (stored (node_of x) 1)) [
    | inl (e, f) ↦ rw (from_storage, f) (c, (x, f))
    | inr (u, f) ↦
        rw (from_storage, f)
          (from_storage_lem xs items (set_unlock cache (node_of x) 1 u) (with_answer m x u)
            (IsCoherent-set stored cache (node_of x) 1 u c f) (IsTrue-with_answer m x u h f)
            (λ i k. elim (g i k) [
              | inl known ↦ inl (Knows-with_answer m x u i known)
              | inr still ↦ elim still [
                | inl e ↦ inl (rw e (Knows-answered m x u))
                | inr rest ↦ inr rest
              ]
            ]))
  ]

  -- With a cache that agrees with the storage the check of many items answers for each of them what
  -- the storage answers for its node, or ends with an error of the storage, and leaves a cache that
  -- agrees with it.
  pub are_items_unlocked-BatchOutcome :
      (cache : UnlockCache) (items : List ℕ)
      → IsCoherent stored cache
      → BatchOutcome items (are_items_unlocked node_of stored cache items)
  unfolding are_items_unlocked
  are_items_unlocked-BatchOutcome cache items c =
      let (a, b) = from_cache_lem cache items ((λ i. none), []) c (λ i u h. cc) in
      let r = from_cache node_of cache items ((λ i. none), []) in
      from_storage_lem r.1 items cache r.0 c a (λ i h. b i (inr h))
