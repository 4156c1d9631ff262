-- ===== src/Lootbox/Boxes/Counts.antt =====
-- Every box that is opened gives an item or consolation money.
use brandish_bot_go.Prelude.{
  ℕ, zero, suc, ◌+◌, ◌<◌, ◌≤◌, ◌≡◌, refl, true, Option, none, some, List, [], ◌∷◌, ◌++◌, length,
  get_elem?, ltb, ◌==◌, if◌then◌else◌, arith, Bool-cases, inl, inr,
}
use brandish_bot_go.Failure.{ok, pool_not_defined, required, with_ok}
use brandish_bot_go.Lootbox.{FlatPool, FlatPoolEntry, select_item}
use brandish_bot_go.Lootbox.Choice.{bisect-IsChosen}
use brandish_bot_go.Lootbox.Boxes.{
  FlatPoolRef, FlattenedLootbox, PoolRef, Rolls, LootTally, add_refs, build_flattened_lootbox,
  select_pool, count_drop, console, count_entry, from_entries, pool_at, open_box, process_from,
  process_loot_table,
}

-- A lootbox knows the pools it refers to.
abbrev IsKnown : (ℕ → Option FlatPool) → List FlatPoolRef → Type 0
IsKnown pools [] = Unit {0}
IsKnown pools (r ∷ rs) = ((p : FlatPool) × (pools r.pool_name ≡ some p)) × IsKnown pools rs

abbrev added : (ℕ → Option FlatPool) → ℕ → FlatPool → ℕ → Option FlatPool
added pools name fp n = if n == name then some fp else pools n

IsKnown-added :
    (pools : ℕ → Option FlatPool) (rs : List FlatPoolRef) (name weight : ℕ) (fp : FlatPool)
    → IsKnown pools rs
    → IsKnown
        (added pools name fp)
        (rs ++ (record { pool_name = name; cumul_weight = weight } ∷ []))
IsKnown-added pools [] name weight fp h =
    let same : (name == name) ≡ true = ground arith in ((fp, rw same refl), tt)
IsKnown-added pools (r ∷ rs) name weight fp ((p, e), h) =
    let rest = IsKnown-added pools rs name weight fp h in
    elim (Bool-cases (r.pool_name == name)) [
      | inl same ↦ ((fp, rw same refl), rest)
      | inr other ↦ ((p, rw other e), rest)
    ]

IsKnown-at :
    (pools : ℕ → Option FlatPool) (rs : List FlatPoolRef) (k : ℕ) (r : FlatPoolRef)
    → IsKnown pools rs
    → get_elem? rs k ≡ some r
    → (p : FlatPool) × (pools r.pool_name ≡ some p)
IsKnown-at pools [] k r h e = cc
IsKnown-at pools (x ∷ rs) zero r ((p, known), h) e = let same : x ≡ r = cc in (p, rw (← same) known)
IsKnown-at pools (x ∷ rs) (suc k) r (_, h) e = IsKnown-at pools rs k r h e

length-append_one : {A : Type 0} → (xs : List A) (x : A) → length (xs ++ (x ∷ [])) ≡ length xs + 1
length-append_one [] x = refl
length-append_one (y ∷ xs) x = omega (arith, length-append_one xs x)

-- A lootbox that can be opened.
abbrev IsReady : FlattenedLootbox → Type 0
IsReady flat = (0 < length flat.pool_refs) × IsKnown flat.pools flat.pool_refs

add_refs-IsReady :
    (pools : ℕ → Option FlatPool) (rs : List PoolRef) (flb flat : FlattenedLootbox)
    → 0 < length flb.pool_refs + length rs
    → IsKnown flb.pools flb.pool_refs
    → add_refs pools rs flb ≡ ok flat
    → IsReady flat
unfolding add_refs
add_refs-IsReady pools [] flb flat more known h =
    let same : flb ≡ flat = cc in rw (← same) (omega arith, known)
add_refs-IsReady pools (r ∷ rs) flb flat more known h =
    with_ok (required (pools r.pool_name) pool_not_defined) _ h λ fp e1 h1.
      add_refs-IsReady pools rs _ flat (rw (length-append_one flb.pool_refs _) (omega arith))
        (IsKnown-added flb.pools flb.pool_refs r.pool_name (flb.total_pool_weight + r.weight) fp
          known)
        h1

build-IsReady :
    (pools : ℕ → Option FlatPool) (min max : ℕ) (rs : List PoolRef) (flat : FlattenedLootbox)
    → build_flattened_lootbox pools min max rs ≡ ok flat
    → IsReady flat
unfolding build_flattened_lootbox
build-IsReady pools min max [] flat h = cc
build-IsReady pools min max (r ∷ rs) flat h =
    add_refs-IsReady pools (r ∷ rs)
      (record {
        money_min = min;
        money_max = if ltb max min then min else max;
        pool_refs = [];
        total_pool_weight = 0;
        pools = λ name. none;
      })
      flat (omega arith) tt h

-- How many items were dropped.
abbrev pub dropped : List (ℕ × ℕ) → ℕ
dropped [] = 0
dropped ((n, qty) ∷ ds) = qty + dropped ds

dropped-count_drop : (name : ℕ) (ds : List (ℕ × ℕ)) → dropped (count_drop name ds) ≡ dropped ds + 1
unfolding count_drop
dropped-count_drop name [] = refl
dropped-count_drop name ((n, qty) ∷ ds) = elim (Bool-cases (n == name)) [
  | inl same ↦ rw same (omega arith)
  | inr other ↦ rw other (omega (arith, dropped-count_drop name ds))
]

-- What `n` more boxes do: so many of them fail, each for at least 1 of money, the others drop an item.
abbrev pub IsOpened : ℕ → LootTally → Option LootTally → Type 0
IsOpened n o o? =
    (o' : LootTally) × (failed : ℕ) × (o? ≡ some o')
    × (dropped o'.drop_counts + failed ≡ dropped o.drop_counts + n)
    × (o.consolation_money + failed ≤ o'.consolation_money)

console-IsOpened :
    (flat : FlattenedLootbox) (r : Rolls) (o : LootTally) → IsOpened 1 o (some (console flat r o))
console-IsOpened flat r o = (console flat r o, 1, refl, refl, ground arith)

count-IsOpened : (e : FlatPoolEntry) (o : LootTally) → IsOpened 1 o (count_entry (some e) o)
count-IsOpened e o =
    (_, 0, refl, omega (arith, dropped-count_drop e.item_name o.drop_counts), omega arith)

select_lem :
    (pool : FlatPool) (roll : ℕ)
    → 0 < length pool.entries
    → (e : FlatPoolEntry) × (select_item pool roll ≡ some e)
unfolding select_item
select_lem pool roll more =
    let (k, e, run, found, above, below) =
      bisect-IsChosen FlatPoolEntry.cumul_weight pool.entries roll more in
    (e, run)

from_entries-IsOpened :
    (flat : FlattenedLootbox) (r : Rolls) (pool : FlatPool) (es : List FlatPoolEntry)
    (o : LootTally)
    → pool.entries ≡ es
    → IsOpened 1 o (from_entries flat r pool es o)
from_entries-IsOpened flat r pool [] o h = console-IsOpened flat r o
from_entries-IsOpened flat r pool (x ∷ es) o h =
    let more : 0 < length pool.entries = rw h (omega arith) in
    let (e, run) = select_lem pool (r.item_roll pool.total_weight) more in
    rw run (count-IsOpened e o)

pool_lem :
    (flat : FlattenedLootbox) (roll : ℕ)
    → IsReady flat
    → (p : FlatPool) × (pool_at flat (select_pool flat roll) ≡ some p)
unfolding select_pool
pool_lem flat roll (more, known) =
    let (k, r, run, found, above, below) =
      bisect-IsChosen FlatPoolRef.cumul_weight flat.pool_refs roll more in
    let (p, e) = IsKnown-at flat.pools flat.pool_refs k r known found in
    (p, rw (select_pool, run) e)

open_box-IsOpened :
    (flat : FlattenedLootbox) (r : Rolls) (o : LootTally)
    → IsReady flat
    → IsOpened 1 o (open_box flat r o)
unfolding open_box
open_box-IsOpened flat r o ready = elim (Bool-cases r.gate_fails) [
  | inl fails ↦ rw fails (console-IsOpened flat r o)
  | inr passes ↦
      let (p, e) = pool_lem flat (r.pool_roll flat.total_pool_weight) ready in
      rw (passes, e) (from_entries-IsOpened flat r p p.entries o refl)
]

process_from-IsOpened :
    (flat : FlattenedLootbox) (rs : List Rolls) (o : LootTally)
    → IsReady flat
    → IsOpened (length rs) o (process_from flat rs o)
unfolding process_from
process_from-IsOpened flat [] o ready = (o, 0, refl, refl, omega arith)
process_from-IsOpened flat (r ∷ rs) o ready =
    let (o1, f1, e1, n1, m1) = open_box-IsOpened flat r o ready in
    let (o2, f2, e2, n2, m2) = process_from-IsOpened flat rs o1 ready in
    (o2, f1 + f2, rw (process_from, e1) e2, omega arith, omega arith)

-- In every lootbox that is built any number of boxes opens without an index out of range, whatever
-- is drawn: each box drops one item, or fails and gives at least 1 of consolation money.
pub process_loot_table-IsOpened :
    (pools : ℕ → Option FlatPool) (min max : ℕ) (refs : List PoolRef) (flat : FlattenedLootbox)
    (rolls : List Rolls)
    → build_flattened_lootbox pools min max refs ≡ ok flat
    → IsOpened
        (length rolls)
        (record { drop_counts = []; consolation_money = 0 })
        (process_loot_table flat rolls)
unfolding process_loot_table
process_loot_table-IsOpened pools min max refs flat rolls h =
    process_from-IsOpened flat rolls _ (build-IsReady pools min max refs flat h)
