-- ===== src/Lootbox/Choice.antt =====
-- The bisection over the cumulative weights of a pool ends, at the entry the roll falls into.
use brandish_bot_go.Prelude.{
  ℕ, zero, suc, ◌+◌, ◌-◌, ◌/◌, ◌<◌, ◌≤◌, ◌≡◌, refl, false, Option, none, some, List, [], ◌∷◌, ◌++◌,
  length, get_elem?, ltb, leb, arith, Bool-cases, inl, inr,
}
use brandish_bot_go.Failure.{ok, item_not_found, required, with_ok}
use brandish_bot_go.Lootbox.{
  PoolItemDef, FlatPoolEntry, FlatPool, Calls, unlocked_by, add_item, add_all, add_type,
  add_definition, pool_from, build_flat_pool, narrow, bisect, entry_at, select_item,
}

module _ {A : Type 0} (weight : A → ℕ) where
  -- The cumulative weight of the entry at an index.
  abbrev pub cumul_at : List A → ℕ → ℕ
  cumul_at [] k = 0
  cumul_at (e ∷ es) zero = weight e
  cumul_at (e ∷ es) (suc k) = cumul_at es k

  -- Where the rolls of the entry at an index start.
  abbrev pub start_of : List A → ℕ → ℕ
  start_of es zero = 0
  start_of es (suc k) = cumul_at es k

  elem_at :
      (es : List A) (k : ℕ)
      → k < length es
      → (e : A) × (get_elem? es k ≡ some e) × (cumul_at es k ≡ weight e)
  elem_at [] k h = absurd (omega arith)
  elem_at (e ∷ es) zero h = (e, refl, refl)
  elem_at (e ∷ es) (suc k) h = elem_at es k (omega arith)

  -- The roll falls between the bounds.
  abbrev IsBetween : List A → ℕ → ℕ × ℕ → Type 0
  IsBetween es roll (lo, hi) =
      (lo ≤ hi)
      × (hi < length es)
      × (start_of es lo ≤ roll)
      × (roll < start_of es (length es) → roll < cumul_at es hi)

  -- What a bisection ends with.
  abbrev IsFound : List A → ℕ → Option ℕ → Type 0
  IsFound es roll o =
      (k : ℕ) × (o ≡ some k)
      × (k < length es)
      × (start_of es k ≤ roll)
      × (roll < start_of es (length es) → roll < cumul_at es k)

  -- A round keeps the roll between the bounds and brings them closer.
  abbrev IsCloser : List A → ℕ → ℕ → ℕ → Type 0
  IsCloser es roll lo hi =
      (next : ℕ × ℕ) × (narrow weight es roll lo hi ≡ some next)
      × IsBetween es roll next
      × (next.1 - next.0 < hi - lo)

  narrow-IsCloser :
      (es : List A) (roll lo hi : ℕ) → lo < hi → IsBetween es roll (lo, hi) → IsCloser es roll lo hi
  narrow-IsCloser es roll lo hi more (le, lt, above, below) =
      halved (elem_at es ((lo + hi) / 2) (omega arith))
    where
      halved :
          (e : A) × (get_elem? es ((lo + hi) / 2) ≡ some e)
            × (cumul_at es ((lo + hi) / 2) ≡ weight e)
          → IsCloser es roll lo hi
      halved (e, found, total) = elim (Bool-cases (leb (weight e) roll)) [
        | inl right ↦ (
          (suc ((lo + hi) / 2), hi),
          rw (found, right) refl,
          (omega arith, lt, ground (arith, right, total), below),
          omega arith,
        )
        | inr left ↦ (
          (lo, (lo + hi) / 2),
          rw (found, left) refl,
          (omega arith, omega arith, above, λ b. ground (arith, left, total)),
          omega arith,
        )
      ]

  bisect_lem :
      (es : List A) (roll n lo hi : ℕ)
      → hi - lo ≤ n
      → IsBetween es roll (lo, hi)
      → IsFound es roll (bisect weight es roll n (lo, hi))
  unfolding bisect
  bisect_lem es roll zero lo hi fuel (le, lt, above, below) =
      let same : lo ≡ hi = omega arith in
      let stop : ltb lo hi ≡ false = ground arith in
      (lo, rw stop refl, omega arith, above, rw same below)
  bisect_lem es roll (suc n) lo hi fuel (le, lt, above, below) = elim (Bool-cases (ltb lo hi)) [
    | inl more ↦
        let (next, e, between, closer) : IsCloser es roll lo hi =
          narrow-IsCloser es roll lo hi (ground (arith, more)) (le, lt, above, below) in
        rw (more, e) (bisect_lem es roll n next.0 next.1 (omega arith) between)
    | inr stop ↦
        let same : lo ≡ hi = ground (arith, stop) in
        (lo, rw stop refl, omega arith, above, rw same below)
  ]

-- What a pool holds: its last cumulative weight is its total.
abbrev IsTotalled : FlatPool → Type 0
IsTotalled fp = start_of FlatPoolEntry.cumul_weight fp.entries (length fp.entries) ≡ fp.total_weight

start_of-append :
    (es : List FlatPoolEntry) (e : FlatPoolEntry)
    → start_of FlatPoolEntry.cumul_weight (es ++ (e ∷ [])) (length (es ++ (e ∷ [])))
      ≡ e.cumul_weight
start_of-append [] e = refl
start_of-append (x ∷ []) e = refl
start_of-append (x ∷ y ∷ es) e = start_of-append (y ∷ es) e

add_item-IsTotalled :
    (c : Calls) (internal name weight : ℕ) (fp : FlatPool)
    → IsTotalled fp
    → IsTotalled (add_item c internal name weight fp)
unfolding add_item
add_item-IsTotalled c internal name weight fp h =
    elim (Bool-cases (unlocked_by c.is_item_unlocked internal)) [
      | inl open_to ↦ rw open_to (start_of-append fp.entries _)
      | inr locked ↦ rw locked h
    ]

add_all-IsTotalled :
    (c : Calls) (is : List ℕ) (weight : ℕ) (fp : FlatPool)
    → IsTotalled fp
    → IsTotalled (add_all c is weight fp)
unfolding add_all
add_all-IsTotalled c [] weight fp h = h
add_all-IsTotalled c (i ∷ is) weight fp h =
    add_all-IsTotalled c is weight (add_item c i i weight fp)
      (add_item-IsTotalled c i i weight fp h)

add_type-IsTotalled :
    (c : Calls) (is : List ℕ) (weight : ℕ) (fp fp' : FlatPool)
    → IsTotalled fp
    → add_type c is weight fp ≡ ok fp'
    → IsTotalled fp'
add_type-IsTotalled c [] weight fp fp' h e = cc
add_type-IsTotalled c (i ∷ is) weight fp fp' h e =
    let same : add_all c (i ∷ is) weight fp ≡ fp' = cc in
    rw (← same) (add_all-IsTotalled c (i ∷ is) weight fp h)

add_definition-IsTotalled :
    (c : Calls) (name t : Option ℕ) (weight : ℕ) (fp fp' : FlatPool)
    → IsTotalled fp
    → add_definition c name t weight fp ≡ ok fp'
    → IsTotalled fp'
add_definition-IsTotalled c (some name) t weight fp fp' h e =
    with_ok (required (c.item_by_name name) item_not_found) _ e λ item e1 h1.
      let same : add_item c item name weight fp ≡ fp' = cc in
      rw (← same) (add_item-IsTotalled c item name weight fp h)
add_definition-IsTotalled c none (some t) weight fp fp' h e =
    add_type-IsTotalled c (c.items_by_type t) weight fp fp' h e
add_definition-IsTotalled c none none weight fp fp' h e = let same : fp ≡ fp' = cc in rw (← same) h

pool_from-IsTotalled :
    (c : Calls) (def : List PoolItemDef) (fp fp' : FlatPool)
    → IsTotalled fp
    → pool_from c def fp ≡ ok fp'
    → IsTotalled fp'
unfolding pool_from
pool_from-IsTotalled c [] fp fp' h e = let same : fp ≡ fp' = cc in rw (← same) h
pool_from-IsTotalled c (d ∷ ds) fp fp' h e =
    with_ok (add_definition c d.item_name d.item_type d.weight fp) _ e λ next e1 h1.
      pool_from-IsTotalled c ds next fp'
        (add_definition-IsTotalled c d.item_name d.item_type d.weight fp next h e1) h1

-- The entry that a choice returns.
module _ {A : Type 0} (weight : A → ℕ) where
  abbrev pub IsChosen : List A → ℕ → Option A → Type 0
  IsChosen es roll o =
      (k : ℕ) × (e : A) × (o ≡ some e)
      × (get_elem? es k ≡ some e)
      × (start_of weight es k ≤ roll)
      × (roll < start_of weight es (length es) → roll < weight e)

full_lem :
    {A : Type 0}
    → (weight : A → ℕ) (es : List A) (roll : ℕ) → 0 < length es
    → IsBetween weight es roll (0, length es - 1)
full_lem weight [] roll h = absurd (omega arith)
full_lem weight (e ∷ es) roll h =
    let last : length (e ∷ es) - 1 ≡ length es = omega arith in
    (omega arith, omega arith, omega arith, λ b. rw last b)

-- A bisection over entries ends at one of them, whatever is rolled.
pub bisect-IsChosen :
    {A : Type 0}
    → (weight : A → ℕ) (es : List A) (roll : ℕ) → 0 < length es
    → IsChosen weight es roll (entry_at es (bisect weight es roll (length es) (0, length es - 1)))
bisect-IsChosen weight es roll some_entries =
    chosen (bisect weight es roll (length es) (0, length es - 1)) (
      bisect_lem weight es roll (length es) 0 (length es - 1) (omega arith)
        (full_lem weight es roll some_entries))
  where
    chosen : (o : Option ℕ) → IsFound weight es roll o → IsChosen weight es roll (entry_at es o)
    chosen o (k, run, lt, above, below) =
        let (e, found, total) = elem_at weight es k lt in
        (k, e, rw run found, found, above, λ b. rw total at below b)

some_lem :
    {A : Type 0}
    → (weight : A → ℕ) (es : List A) (n : ℕ) → n < start_of weight es (length es)
    → 0 < length es
some_lem weight [] n h = absurd (omega arith)
some_lem weight (e ∷ es) n h = omega arith

-- In every pool that is built a roll under its total weight ends the bisection, within as many
-- rounds as the pool has entries, at the entry whose share of the rolls it falls into: at least the
-- cumulative weight before the entry, and less than the entry's own.
pub select_item-Chosen :
    (c : Calls) (def : List PoolItemDef) (pool : FlatPool) (roll : ℕ)
    → build_flat_pool c def ≡ ok pool
    → roll < pool.total_weight
    → (k : ℕ) × (e : FlatPoolEntry) × (select_item pool roll ≡ some e)
      × (get_elem? pool.entries k ≡ some e)
      × (start_of FlatPoolEntry.cumul_weight pool.entries k ≤ roll)
      × (roll < e.cumul_weight)
unfolding build_flat_pool select_item
select_item-Chosen c def pool roll h lt =
    let total : IsTotalled pool =
      pool_from-IsTotalled c def (record { entries = []; total_weight = 0 }) pool refl h in
    let inside : roll < start_of FlatPoolEntry.cumul_weight pool.entries (length pool.entries) =
      rw total lt in
    let (k, e, run, found, above, below) =
      bisect-IsChosen FlatPoolEntry.cumul_weight pool.entries roll
        (some_lem FlatPoolEntry.cumul_weight pool.entries roll inside) in
    (k, e, run, found, above, below inside)
