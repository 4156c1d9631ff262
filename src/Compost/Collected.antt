-- ===== src/Compost/Collected.antt =====
-- What Harvest does to the bin and to the inventory.
use brandish_bot_go.Prelude.{
  ℕ, ◌+◌, ◌*◌, ◌≤◌, ◌<◌, ◌≡◌, refl, Option, none, some, [], ◌∷◌, ◌==◌, if◌then◌else◌, arith,
}
use mathlib.Core.Path.{subst}
use brandish_bot_go.Failure.{Result, ok, err, transact, with_ok, ◌>>=◌}
use brandish_bot_go.Inventory.{Inventory, common, slot, find_slot}
use brandish_bot_go.Inventory.Consume.Conservation.{amount, amount-append}
use brandish_bot_go.Inventory.Add.Amounts.{amount-add}
use brandish_bot_go.Inventory.Slots.{IsFound, find_slot-IsFound}
use brandish_bot_go.Crafting.Upgrade.Materials.{of_item}
use brandish_bot_go.Compost.{CompostBinStatus, idle, composting, ready, sludge, CompostBin}
use brandish_bot_go.Compost.Deposit.{World}
use brandish_bot_go.Compost.Harvest.{
  CompostOutput, Calls, HarvestResult, empty_bin, still_composting, harvested, store_at,
  store_output, reset, collect_steps, collect, is_sludge_status, calculate_output, plan_harvest,
}

-- The quantity that an output with a known item adds to an item.
abbrev pub paid_to : ℕ → Option ℕ → ℕ → ℕ
paid_to id none n = 0
paid_to id (some i) n = if i == id then n else 0

store_at_lem :
    (inv : Inventory) (i n id : ℕ) (r : Option ℕ × ℕ)
    → IsFound inv i r
    → amount (of_item id) (store_at inv i n r.0)
      ≡ amount (of_item id) inv + (if i == id then n else 0)
store_at_lem inv i n id (none, m) f =
    omega (arith, amount-append (of_item id) inv (slot i n common ∷ []))
store_at_lem inv i n id (some k, m) (s, e, own, _) =
    rw (store_at, e, ← own) (amount-add (of_item id) inv k n s e)

store_output_lem :
    (inv : Inventory) (o : Option ℕ) (n id : ℕ)
    → amount (of_item id) (store_output inv o n) ≡ amount (of_item id) inv + paid_to id o n
store_output_lem inv none n id = omega arith
store_output_lem inv (some i) n id =
    store_at_lem inv i n id (find_slot inv i) (find_slot-IsFound inv i)

-- What the transaction of a harvest leaves behind, by how it ends.
abbrev pub CollectOutcome : Calls → CompostOutput → World → Result (Unit {0}) × World → Type 0
CollectOutcome c out w (err e, w') = w' ≡ w
CollectOutcome c out w (ok u, w') =
    (ids : ℕ → Option ℕ) × (c.get_items_by_names ≡ ok ids)
    × (w'.bin ≡ reset w.bin)
    × ((id : ℕ)
        → amount (of_item id) w'.inventory
          ≡ amount (of_item id) w.inventory + paid_to id (ids out.name) out.quantity)

collect-CollectOutcome :
    (c : Calls) (out : CompostOutput) (w : World) → CollectOutcome c out w (collect c out w)
unfolding collect collect_steps
collect-CollectOutcome c out w = outcome (collect_steps c out w) refl
  where
    outcome :
        (r : Result (Unit {0} × World))
        → collect_steps c out w ≡ r
        → CollectOutcome c out w (transact w r)
    outcome (err x) e = refl
    outcome (ok (u, w')) e = with_ok c.begin_tx _ e λ u1 e1 h1.
        with_ok c.get_inventory _ h1 λ u2 e2 h2. with_ok c.get_items_by_names _ h2 λ ids e3 h3.
          with_ok c.update_inventory _ h3 λ u4 e4 h4. with_ok c.reset_bin _ h4 λ u5 e5 h5.
            with_ok c.commit _ h5 λ u6 e6 h6.
              let after : World = record {
                bin = reset w.bin;
                inventory = store_output w.inventory (ids out.name) out.quantity;
              } in
              let ew : after ≡ w' = cc in
              (
                ids,
                e3,
                rw (← ew) refl,
                λ id. rw (← ew) (store_output_lem w.inventory (ids out.name) out.quantity id),
              )

-- There is no bin, or it is idle.
abbrev pub IsEmpty : Option CompostBin → Type 0
IsEmpty none = Unit {0}
IsEmpty (some bin) = bin.status ≡ idle

-- The time has not come.
abbrev pub IsEarly : ℕ → Option ℕ → Type 0
IsEarly now none = Unit {0}
IsEarly now (some at) = now < at

abbrev pub HasCome : ℕ → Option ℕ → Type 0
HasCome now none = ⊥
HasCome now (some at) = at ≤ now

-- A bin of this status has something to harvest.
abbrev pub IsDone : ℕ → CompostBinStatus → Option ℕ → Type 0
IsDone now idle at = ⊥
IsDone now composting at = HasCome now at
IsDone now ready at = Unit {0}
IsDone now sludge at = Unit {0}

-- What the plan says of the stored bin.
abbrev pub IsPlanned : ℕ → Option CompostBin → HarvestResult → Type 0
IsPlanned now o empty_bin = IsEmpty o
IsPlanned now o (still_composting bin) =
    (o ≡ some bin) × (bin.status ≡ composting) × IsEarly now bin.ready_at
IsPlanned now o (harvested out) =
    (bin : CompostBin) × (o ≡ some bin) × IsDone now bin.status bin.ready_at

-- What pays once the items are read.
abbrev paid_out : Calls → CompostBin → CompostBinStatus → Result HarvestResult
paid_out c bin s = do
  all ← c.get_all_items
  ok (
      harvested (
        calculate_output c.yield c.sort bin.input_value bin.dominant_type (is_sludge_status s) all))

module _ (c : Calls) (now : ℕ) (w : World) where
  -- What Harvest leaves behind, by how it ends.
  abbrev pub HarvestOutcome : Result HarvestResult × World → Type 0
  HarvestOutcome (err e, w') = w' ≡ w
  HarvestOutcome (ok empty_bin, w') = IsEmpty w.bin × (w' ≡ w)
  HarvestOutcome (ok (still_composting bin), w') =
      (w.bin ≡ some bin) × (bin.status ≡ composting) × IsEarly now bin.ready_at × (w' ≡ w)
  HarvestOutcome (ok (harvested out), w') =
      (bin : CompostBin) × (w.bin ≡ some bin)
      × IsDone now bin.status bin.ready_at
      × (plan_harvest c now w.bin ≡ ok (harvested out))
      × CollectOutcome c out w (ok tt, w')

-- Two harvests that were both planned from one bin are both paid, one after the other: the second
-- finds the bin empty and does not look at it.
pub collect-twice :
    (c c' : Calls) (out : CompostOutput) (w w1 w2 : World) (u u' : Unit {0}) (ids : ℕ → Option ℕ)
    (id : ℕ)
    → c.get_items_by_names ≡ ok ids
    → c'.get_items_by_names ≡ ok ids
    → ids out.name ≡ some id
    → collect c out w ≡ (ok u, w1)
    → collect c' out w1 ≡ (ok u', w2)
    → amount (of_item id) w2.inventory ≡ amount (of_item id) w.inventory + 2 * out.quantity
collect-twice c c' out w w1 w2 u u' ids id e e' k h h' =
    let first : CollectOutcome c out w (ok u, w1) =
      subst (CollectOutcome c out w) h (collect-CollectOutcome c out w) in
    let second : CollectOutcome c' out w1 (ok u', w2) =
      subst (CollectOutcome c' out w1) h' (collect-CollectOutcome c' out w1) in
    let (ids1, f1, _, g1) = first in
    let (ids2, f2, _, g2) = second in
    let s1 : ids1 ≡ ids = cc (e, f1) in
    let s2 : ids2 ≡ ids = cc (e', f2) in
    let a = g1 id in let b = g2 id in ground (arith, rw (s1, k) at a, rw (s2, k) at b)
