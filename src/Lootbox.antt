-- ===== src/Lootbox.antt =====
-- internal/lootbox: the pools of a lootbox and the weighted choice of an entry by bisection.
--
-- Weights are natural numbers, as the schema of the loot tables has them. `roll` is
-- `int(rnd * float64(TotalWeight))`. The bisection runs on fuel, and has none left is `none`.
pub mod Choice
pub mod Boxes
use brandish_bot_go.Prelude.{
  ℕ, zero, suc, ◌+◌, ◌-◌, ◌/◌, Bool, true, false, Option, none, some, List, [], ◌∷◌, ◌++◌, length,
  get_elem?, ltb, leb, if◌then◌else◌,
}
use brandish_bot_go.Failure.{Result, ok, err, item_not_found, required, ◌>>=◌}

pub record PoolItemDef : Type 0 where
  pub item_name : Option ℕ
  pub item_type : Option ℕ
  pub weight : ℕ

pub record FlatPoolEntry : Type 0 where
  pub item_name : ℕ
  pub cumul_weight : ℕ

pub record FlatPool : Type 0 where
  pub entries : List FlatPoolEntry
  pub total_weight : ℕ

pub record Calls : Type 0 where
  pub item_by_name : ℕ → Option ℕ  -- its internal name
  pub items_by_type : ℕ → List ℕ
  pub is_item_unlocked : Option (ℕ → Result Bool)  -- none without a progression service

abbrev pub or_unlocked : Result Bool → Bool
or_unlocked (ok b) = b
or_unlocked (err e) = true

-- `isItemUnlocked`
abbrev pub unlocked_by : Option (ℕ → Result Bool) → ℕ → Bool
unlocked_by none name = true
unlocked_by (some check) name = or_unlocked (check name)

-- An item joins the pool unless it is locked.
unfoldable pub add_item : Calls → ℕ → ℕ → ℕ → FlatPool → FlatPool
add_item c internal name weight fp =
    if unlocked_by c.is_item_unlocked internal
    then record {
      entries =
          fp.entries ++ (record { item_name = name; cumul_weight = fp.total_weight + weight } ∷ []);
      total_weight = fp.total_weight + weight;
    }
    else fp

unfoldable pub add_all : Calls → List ℕ → ℕ → FlatPool → FlatPool
add_all c [] weight fp = fp
add_all c (i ∷ is) weight fp = add_all c is weight (add_item c i i weight fp)

abbrev pub add_type : Calls → List ℕ → ℕ → FlatPool → Result FlatPool
add_type c [] weight fp = err item_not_found
add_type c (i ∷ is) weight fp = ok (add_all c (i ∷ is) weight fp)

-- One entry of the definition: by its name, else by its type, else nothing.
abbrev pub add_definition : Calls → Option ℕ → Option ℕ → ℕ → FlatPool → Result FlatPool
add_definition c (some name) t weight fp = do
  item ← required (c.item_by_name name) item_not_found
  ok (add_item c item name weight fp)
add_definition c none (some t) weight fp = add_type c (c.items_by_type t) weight fp
add_definition c none none weight fp = ok fp

unfoldable pub pool_from : Calls → List PoolItemDef → FlatPool → Result FlatPool
pool_from c [] fp = ok fp
pool_from c (d ∷ ds) fp = do
  next ← add_definition c d.item_name d.item_type d.weight fp
  pool_from c ds next

-- `buildFlatPool`
unfoldable pub build_flat_pool : Calls → List PoolItemDef → Result FlatPool
unfolding pool_from
build_flat_pool c def = pool_from c def (record { entries = []; total_weight = 0 })

module _ {A : Type 0} (weight : A → ℕ) where
  -- One round of the bisection: the next bounds.
  abbrev pub bounds : ℕ → ℕ → ℕ → ℕ → Option A → Option (ℕ × ℕ)
  bounds roll lo hi mid none = none
  bounds roll lo hi mid (some e) = some (if leb (weight e) roll then (suc mid, hi) else (lo, mid))

  abbrev pub narrow : List A → ℕ → ℕ → ℕ → Option (ℕ × ℕ)
  narrow entries roll lo hi = bounds roll lo hi ((lo + hi) / 2) (get_elem? entries ((lo + hi) / 2))

  unfoldable pub bisect : List A → ℕ → ℕ → ℕ × ℕ → Option ℕ
  bisect entries roll zero (lo, hi) = if ltb lo hi then none else some lo
  bisect entries roll (suc n) (lo, hi) =
      if ltb lo hi
      then elim (narrow entries roll lo hi) [ none ↦ none | some next ↦ bisect entries roll n next ]
      else some lo

abbrev pub entry_at {ℓ} : {A : Type ℓ} → List A → Option ℕ → Option A
entry_at entries none = none
entry_at entries (some lo) = get_elem? entries lo

-- `selectItem`
unfoldable pub select_item : FlatPool → ℕ → Option FlatPoolEntry
unfolding bisect
select_item pool roll = entry_at pool.entries (
    bisect FlatPoolEntry.cumul_weight pool.entries roll (length pool.entries)
      (0, length pool.entries - 1))
