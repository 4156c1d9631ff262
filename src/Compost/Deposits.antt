-- ===== src/Compost/Deposits.antt =====
-- What Deposit does to the bin and to the inventory.
use brandish_bot_go.Prelude.{
  ℕ, ◌+◌, ◌≤◌, ◌≡◌, refl, Option, none, some, List, [], ◌∷◌, ◌++◌, ltb, ◌==◌, if◌then◌else◌, arith,
  Bool-cases, inl, inr,
}
use brandish_bot_go.Failure.{
  Result, ok, err, bin_full, panic, transact, required, fail_if, ◌>>◌, with_ok, fail_if-eq-ok,
  required-eq-ok,
}
use brandish_bot_go.Stateful.{continue}
use brandish_bot_go.Inventory.{Inventory, find_slot, remove_from_slot}
use brandish_bot_go.Inventory.Consume.Conservation.{amount}
use brandish_bot_go.Inventory.Slots.{IsFound, find_slot-IsFound, remove_from_slot_lem}
use brandish_bot_go.Crafting.Upgrade.Materials.{of_item}
use brandish_bot_go.Compost.{CompostBinItem, CompostBin, total_item_count}
use brandish_bot_go.Compost.Deposit.{
  World, Calls, DepositItem, ResolvedDeposit, validate_feature, check_deposit_possible,
  resolve_from, total_resolved, check_deposit, enough_in, take_deposits, bin_items, store_deposit,
  deposit_steps, created, bin_or_new, located, get_user_and_bin, deposit,
}
use brandish_bot_go.Compost.Bins.{IsBin, HasBin, HasBin-opens, Deposited, deposit_steps-Deposited}

-- How much of an item is deposited, and how much of it a bin holds.
abbrev pub deposited : ℕ → List ResolvedDeposit → ℕ
deposited id [] = 0
deposited id (r ∷ rs) = (if r.item.id == id then r.quantity else 0) + deposited id rs

abbrev pub composted : ℕ → List CompostBinItem → ℕ
composted id [] = 0
composted id (x ∷ xs) = (if x.item_id == id then x.quantity else 0) + composted id xs

composted-append :
    (id : ℕ) (xs : List CompostBinItem) (rs : List ResolvedDeposit)
    → composted id (xs ++ bin_items rs) ≡ composted id xs + deposited id rs
composted-append id [] [] = refl
composted-append id [] (r ∷ rs) = omega (arith, composted-append id [] rs)
composted-append id (x ∷ xs) rs = omega (arith, composted-append id xs rs)

total-append :
    (xs : List CompostBinItem) (rs : List ResolvedDeposit)
    → total_item_count (xs ++ bin_items rs) ≡ total_item_count xs + total_resolved rs
total-append [] [] = refl
total-append [] (r ∷ rs) = omega (arith, total-append [] rs)
total-append (x ∷ xs) rs = omega (arith, total-append xs rs)

found_lem :
    (inv : Inventory) (id n i : ℕ) (r : Option ℕ × ℕ)
    → IsFound inv id r
    → enough_in r n ≡ ok i
    → (m : ℕ) × IsFound inv id (some i, m) × (n ≤ m)
found_lem inv id n i (none, m) f h = cc
found_lem inv id n i (some j, m) f h = elim (Bool-cases (ltb m n)) [
  | inl short ↦ let g : enough_in (some j, m) n ≡ ok i = h in cc
  | inr enough ↦ let e : j ≡ i = ground (arith, h) in (m, rw (← e) f, ground arith)
]

-- What is taken is what is deposited, for each item.
take_deposits_lem :
    (inv : Inventory) (rs : List ResolvedDeposit) (inv' : Inventory)
    → take_deposits inv rs ≡ ok inv'
    → (id : ℕ) → amount (of_item id) inv' + deposited id rs ≡ amount (of_item id) inv
unfolding take_deposits
take_deposits_lem inv [] inv' h id = let e : inv ≡ inv' = cc in rw (← e) (omega arith)
take_deposits_lem inv (r ∷ rs) inv' h id =
    with_ok (enough_in (find_slot inv r.item.id) r.quantity) _ h λ i e1 h1.
      with_ok (required (remove_from_slot inv i r.quantity) panic) _ h1 λ inv1 e2 h2.
        let (m, (s, es, own, held), enough) =
          found_lem inv r.item.id r.quantity i (find_slot inv r.item.id)
            (find_slot-IsFound inv r.item.id) e1 in
        let (inv2, e3, keep) =
          remove_from_slot_lem inv i r.quantity s es (omega (arith, held, enough)) in
        let same : inv2 ≡ inv1 = cc (required-eq-ok (remove_from_slot inv i r.quantity) panic e2) in
        omega (arith, rw (same, own) at (keep (of_item id)), take_deposits_lem inv1 rs inv' h2 id)

-- The bin that the checks see, which the storage holds from then on.
abbrev OpensBin : World → Result CompostBin × World → Type 0
OpensBin w (err e, w1) = (w1.inventory ≡ w.inventory)
OpensBin w (ok bin, w1) = (w1.bin ≡ some bin) × (w1.inventory ≡ w.inventory)

OpensBin-created : (w : World) (r : Result (Unit {0})) → OpensBin w (created w r)
OpensBin-created w (err e) = refl
OpensBin-created w (ok u) = (refl, refl)

OpensBin-bin_or_new :
    (c : Calls) (w : World) (o : Option CompostBin) → w.bin ≡ o → OpensBin w (bin_or_new c w o)
OpensBin-bin_or_new c w none e = OpensBin-created w c.create_bin
OpensBin-bin_or_new c w (some bin) e = (e, refl)

OpensBin-located : (c : Calls) (w : World) (r : Result (Unit {0})) → OpensBin w (located c w r)
OpensBin-located c w (err e) = refl
OpensBin-located c w (ok u) = OpensBin-bin_or_new c w w.bin refl

-- What a deposit that succeeds leaves behind: the items `rs` have gone from the inventory into the
-- bin `old` that was there or was made.
pub record Filled (c : Calls) (now : ℕ) (items : List DepositItem) (w : World) (bin : CompostBin)
    (w' : World) : Type 0 where
  pub old : CompostBin
  pub new : CompostBin
  pub rs : List ResolvedDeposit
  pub was_opened : (get_user_and_bin c w).0 ≡ ok old
  pub is_checked : check_deposit c now items old ≡ ok rs
  pub is_stored : w'.bin ≡ some new
  pub is_bin : IsBin new
  pub same_items : new.items ≡ bin.items
  pub counted : bin.item_count ≡ old.item_count + total_resolved rs
  pub fits : bin.item_count ≤ c.capacity
  pub gained : (id : ℕ) → composted id bin.items ≡ composted id old.items + deposited id rs
  pub taken :
      (id : ℕ)
      → amount (of_item id) w'.inventory + deposited id rs ≡ amount (of_item id) w.inventory

check_deposit-fits :
    (c : Calls) (now : ℕ) (items : List DepositItem) (bin : CompostBin) (rs : List ResolvedDeposit)
    → check_deposit c now items bin ≡ ok rs
    → bin.item_count + total_resolved rs ≤ c.capacity
unfolding check_deposit
check_deposit-fits c now items bin rs h =
    with_ok (validate_feature c.is_feature_unlocked c.is_job_feature_unlocked) _ h λ u1 e1 h1.
      with_ok (check_deposit_possible now bin) _ h1 λ u2 e2 h2.
        with_ok c.get_all_items _ h2 λ all e3 h3.
          with_ok (resolve_from all items) _ h3 λ resolved e4 h4.
            let full = ltb c.capacity (bin.item_count + total_resolved resolved) in
            with_ok (fail_if full bin_full) _ h4 λ u5 e5 h5.
              let e : resolved ≡ rs = cc in
              let fits = fail_if-eq-ok full bin_full e5 in rw (← e) (ground arith)

Filled-Deposited :
    (c : Calls) (now : ℕ) (items : List DepositItem) (w w1 w2 : World) (old bin : CompostBin)
    (rs : List ResolvedDeposit)
    → get_user_and_bin c w ≡ (ok old, w1)
    → (w1.bin ≡ some old) × (w1.inventory ≡ w.inventory)
    → IsBin old
    → check_deposit c now items old ≡ ok rs
    → Deposited c rs w1 bin w2
    → Filled c now items w bin w2
Filled-Deposited c now items w w1 w2 old bin rs opens (is_old, same) g checks d =
    let e : d.old ≡ old = cc (d.was_stored, is_old) in
    let was_bin : IsBin d.old = rw e g in
    let (f, i) = d.filled was_bin in
    let ei : bin.items ≡ old.items ++ bin_items rs = rw (d.returned, i, e) refl in
    let en : bin.item_count ≡ total_item_count bin.items = rw d.returned f.1 in
    let total : total_item_count bin.items ≡ total_item_count old.items + total_resolved rs =
      rw ei (total-append old.items rs) in
    let count : bin.item_count ≡ old.item_count + total_resolved rs =
      omega (arith, en, total, g.1) in
    record {
      old = old;
      new = d.new;
      rs = rs;
      was_opened = rw opens refl;
      is_checked = checks;
      is_stored = d.is_stored;
      is_bin = f;
      same_items = rw d.returned refl;
      counted = count;
      fits = rw count (check_deposit-fits c now items old rs checks);
      gained = λ id. rw ei (composted-append id old.items rs);
      taken = λ id. rw (← same) (take_deposits_lem w1.inventory rs w2.inventory d.takes id);
    }

module _ (c : Calls) (now : ℕ) (items : List DepositItem) (w : World) where
  -- What Deposit leaves behind, by how it ends.
  abbrev pub DepositOutcome : Result CompostBin × World → Type 0
  DepositOutcome (err e, w') = w'.inventory ≡ w.inventory
  DepositOutcome (ok bin, w') = Filled c now items w bin w'

  -- A deposit into a stored bin that returns an error leaves the inventory as it was. One that
  -- succeeds moves the quantities of the resolved items from the inventory into the bin: what the
  -- bin gains of each item the inventory has lost, the count grows by the total and is within the
  -- capacity, and what is stored is again a bin that composts.
  pub deposit-DepositOutcome : HasBin w.bin → DepositOutcome (deposit c now items w)
  unfolding deposit store_deposit
  deposit-DepositOutcome has =
      opened (get_user_and_bin c w) refl (OpensBin-located c w (c.get_user >> c.get_bin))
        (HasBin-opens c w has)
    where
      stored :
          (old : CompostBin) (w1 : World) (rs : List ResolvedDeposit)
          → get_user_and_bin c w ≡ (ok old, w1)
          → (w1.bin ≡ some old) × (w1.inventory ≡ w.inventory)
          → IsBin old
          → check_deposit c now items old ≡ ok rs
          → (r : Result (CompostBin × World)) → deposit_steps c now rs w1 ≡ r
          → DepositOutcome (transact w1 r)
      stored old w1 rs e o g f (err x) h = o.1
      stored old w1 rs e o g f (ok (bin, w2)) h =
          Filled-Deposited c now items w w1 w2 old bin rs e o g f
            (deposit_steps-Deposited c now rs w1 bin w2 h)

      checked :
          (old : CompostBin) (w1 : World)
          → get_user_and_bin c w ≡ (ok old, w1)
          → (w1.bin ≡ some old) × (w1.inventory ≡ w.inventory)
          → IsBin old
          → (r : Result (List ResolvedDeposit)) → check_deposit c now items old ≡ r
          → DepositOutcome (continue (r, w1) (store_deposit c now))
      checked old w1 e o g (err x) f = o.1
      checked old w1 e o g (ok rs) f = stored old w1 rs e o g f (deposit_steps c now rs w1) refl

      opened :
          (r : Result CompostBin × World)
          → get_user_and_bin c w ≡ r
          → OpensBin w r
          → HasBin (r.1).bin
          → DepositOutcome (
              continue r
                λ bin w1. continue (check_deposit c now items bin, w1) (store_deposit c now))
      opened (err x, w1) e o g = o
      opened (ok old, w1) e o g =
          let is_old : IsBin old = rw o.0 at g in
          checked old w1 e o is_old (check_deposit c now items old) refl
