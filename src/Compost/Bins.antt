-- ===== src/Compost/Bins.antt =====
-- The bin as it is stored, in any order of the transactions of deposits and harvests.
use brandish_bot_go.Prelude.{
  ℕ, ◌+◌, ◌≤◌, ◌≡◌, refl, sym, ap, ◌∙◌, Option, none, some, List, [], ◌++◌, arith,
}
use brandish_bot_go.Failure.{
  Result, ok, err, panic, transact, required, ◌>>◌, with_ok, required-eq-ok,
}
use brandish_bot_go.Compost.{
  CompostBinStatus, idle, composting, ready, sludge, CompostBinItem, CompostBin, sludge_timeout,
  total_item_count, calculate_ready_at, calculate_sludge_at,
}
use brandish_bot_go.Compost.Deposit
use brandish_bot_go.Compost.Deposit.{
  World, ResolvedDeposit, started_when, started_status, take_deposits, update_bin_with_deposits,
  bin_items, refilled, deposit_steps, store_deposit, get_user_and_bin, created, bin_or_new, located,
}
use brandish_bot_go.Compost.Harvest
use brandish_bot_go.Compost.Harvest.{CompostOutput, reset, collect_steps, collect}

-- The times of a bin that composts.
abbrev pub IsTimed : CompostBin → Type 0
IsTimed bin =
    (start : ℕ) × (r : ℕ) × (s : ℕ) × (bin.started_at ≡ some start)
    × (bin.ready_at ≡ some r)
    × (bin.sludge_at ≡ some s)
    × (start ≤ r)
    × (r + sludge_timeout ≤ s)

-- What is stored of a bin, by its stored status: `ready` and `sludge` are never stored.
abbrev pub IsBinOf : CompostBinStatus → CompostBin → Type 0
IsBinOf idle bin = (bin.items ≡ []) × (bin.started_at ≡ none) × (bin.ready_at ≡ none)
IsBinOf composting bin = IsTimed bin
IsBinOf ready bin = ⊥
IsBinOf sludge bin = ⊥

abbrev pub IsBin : CompostBin → Type 0
IsBin bin = IsBinOf bin.status bin × (bin.item_count ≡ total_item_count bin.items)

abbrev pub HasBin : Option CompostBin → Type 0
HasBin none = Unit
HasBin (some bin) = IsBin bin

-- The transactions that change what is stored, in any state and with any calls.
pub data Step : World → World → Type 0 where
  opens : (c : Deposit.Calls) (w : World) → Step w (get_user_and_bin c w).1
  deposits :
      (c : Deposit.Calls) (now : ℕ) (rs : List ResolvedDeposit) (w : World)
      → Step w (store_deposit c now rs w).1
  collects :
      (c : Harvest.Calls) (output : CompostOutput) (w : World) → Step w (collect c output w).1

pub data Steps : World → World → Type 0 where
  stay : (w : World) → Steps w w
  go : {w w1 w2 : World} → Steps w w1 → Step w1 w2 → Steps w w2

HasBin-created : (w : World) (r : Result (Unit {0})) → HasBin w.bin → HasBin (created w r).1.bin
HasBin-created w (err e) h = h
HasBin-created w (ok u) h = ((refl, refl, refl), refl)

HasBin-bin_or_new :
    (c : Deposit.Calls) (w : World) (o : Option CompostBin)
    → HasBin w.bin
    → HasBin (bin_or_new c w o).1.bin
HasBin-bin_or_new c w none h = HasBin-created w c.create_bin h
HasBin-bin_or_new c w (some bin) h = h

HasBin-located :
    (c : Deposit.Calls) (w : World) (r : Result (Unit {0}))
    → HasBin w.bin
    → HasBin (located c w r).1.bin
HasBin-located c w (err e) h = h
HasBin-located c w (ok u) h = HasBin-bin_or_new c w w.bin h

pub HasBin-opens :
    (c : Deposit.Calls) (w : World) → HasBin w.bin → HasBin (get_user_and_bin c w).1.bin
HasBin-opens c w h = HasBin-located c w (c.get_user >> c.get_bin) h

has_started :
    (s : CompostBinStatus) (bin : CompostBin) → IsBinOf s bin → started_status s ≡ composting
has_started idle bin h = refl
has_started composting bin h = refl
has_started ready bin h = absurd h
has_started sludge bin h = absurd h

IsTimed-refilled :
    (c : Deposit.Calls) (capacity start : ℕ) (items : List CompostBinItem)
    → IsBin (refilled c capacity start composting items)
IsTimed-refilled c capacity start items = (
  (
    start,
    calculate_ready_at c.reduced start (total_item_count items),
    calculate_sludge_at (calculate_ready_at c.reduced start (total_item_count items))
        c.sludge_extension,
    refl,
    refl,
    refl,
    omega arith,
    omega arith,
  ),
  refl,
)

update_lem :
    (c : Deposit.Calls) (now capacity : ℕ) (bin bin' : CompostBin) (rs : List ResolvedDeposit)
    → IsBin bin
    → update_bin_with_deposits c now capacity bin rs ≡ ok bin'
    → IsBin bin' × (bin'.items ≡ bin.items ++ bin_items rs)
unfolding update_bin_with_deposits
update_lem c now capacity bin bin' rs h e =
    with_ok (required (started_when now bin.status bin.started_at) panic) _ e λ start e1 h1.
      let items : List CompostBinItem = bin.items ++ bin_items rs in
      let eb : refilled c capacity start (started_status bin.status) items ≡ bin' = cc in
      let es : started_status bin.status ≡ composting = has_started bin.status bin h.0 in
      rw (← eb, es) (IsTimed-refilled c capacity start items, refl)

update_capacity :
    (c : Deposit.Calls) (now capacity : ℕ) (bin bin' : CompostBin) (rs : List ResolvedDeposit)
    → update_bin_with_deposits c now capacity bin rs ≡ ok bin'
    → bin'.capacity ≡ capacity
unfolding update_bin_with_deposits
update_capacity c now capacity bin bin' rs e =
    with_ok (required (started_when now bin.status bin.started_at) panic) _ e λ start e1 h1.
      let items : List CompostBinItem = bin.items ++ bin_items rs in
      let eb : refilled c capacity start (started_status bin.status) items ≡ bin' = cc in
      rw (← eb) refl

IsBinOf-capacity :
    (s : CompostBinStatus) (bin : CompostBin) (n : ℕ)
    → IsBinOf s bin
    → IsBinOf s (record bin { capacity = n })
IsBinOf-capacity idle bin n h = h
IsBinOf-capacity composting bin n h = h
IsBinOf-capacity ready bin n h = h
IsBinOf-capacity sludge bin n h = h

-- What a deposit stores: the bin with the items, in the inventory that they were taken from.
pub record Deposited (c : Deposit.Calls) (rs : List ResolvedDeposit) (w : World) (bin : CompostBin)
    (w' : World) : Type 0 where
  pub old : CompostBin
  pub new : CompostBin
  pub was_stored : w.bin ≡ some old
  pub is_stored : w'.bin ≡ some new
  pub takes : take_deposits w.inventory rs ≡ ok w'.inventory
  pub returned : bin ≡ record new { capacity = c.capacity }
  pub filled : IsBin old → IsBin new × (new.items ≡ old.items ++ bin_items rs)

pub deposit_steps-Deposited :
    (c : Deposit.Calls) (now : ℕ) (rs : List ResolvedDeposit) (w : World) (bin : CompostBin)
    (w' : World)
    → deposit_steps c now rs w ≡ ok (bin, w')
    → Deposited c rs w bin w'
unfolding deposit_steps
deposit_steps-Deposited c now rs w bin w' h = with_ok c.begin_tx _ h λ u1 e1 h1.
    with_ok c.get_bin_for_update _ h1 λ u2 e2 h2.
      with_ok (required w.bin panic) _ h2 λ locked e3 h3. with_ok c.get_inventory _ h3 λ u4 e4 h4.
        with_ok (take_deposits w.inventory rs) _ h4 λ inv e5 h5.
          with_ok c.update_inventory _ h5 λ u6 e6 h6.
            with_ok (update_bin_with_deposits c now c.capacity locked rs) _ h6 λ b e7 h7.
              with_ok c.update_bin _ h7 λ u8 e8 h8. with_ok c.commit _ h8 λ u9 e9 h9.
                let stored : CompostBin = record b { capacity = locked.capacity } in
                let after : World = record { bin = some stored; inventory = inv } in
                let eb : b ≡ bin = cc in
                let ew : after ≡ w' = cc in
                rw (← ew) (record {
                  old = locked;
                  new = stored;
                  was_stored = required-eq-ok w.bin panic e3;
                  is_stored = refl;
                  takes = e5;
                  returned =
                      sym eb
                      ∙ ap (λ n. record b { capacity = n })
                          (update_capacity c now c.capacity locked b rs e7);
                  filled = λ g.
                      let (f, i) = update_lem c now c.capacity locked b rs g e7 in
                      ((IsBinOf-capacity b.status b locked.capacity f.0, f.1), i);
                })

HasBin-deposits :
    (c : Deposit.Calls) (now : ℕ) (rs : List ResolvedDeposit) (w : World)
    → HasBin w.bin
    → HasBin (store_deposit c now rs w).1.bin
unfolding store_deposit
HasBin-deposits c now rs w h = outcome (deposit_steps c now rs w) refl
  where
    outcome :
        (r : Result (CompostBin × World))
        → deposit_steps c now rs w ≡ r
        → HasBin (transact w r).1.bin
    outcome (err x) e = h
    outcome (ok (bin, w')) e =
        let d = deposit_steps-Deposited c now rs w bin w' e in
        rw d.is_stored (d.filled (rw d.was_stored at h)).0

HasBin-reset : (bin : Option CompostBin) → HasBin (reset bin)
HasBin-reset none = tt
HasBin-reset (some bin) = ((refl, refl, refl), refl)

HasBin-collects :
    (c : Harvest.Calls) (output : CompostOutput) (w : World)
    → HasBin w.bin
    → HasBin (collect c output w).1.bin
unfolding collect collect_steps
HasBin-collects c output w h = outcome (collect_steps c output w) refl
  where
    outcome :
        (r : Result (Unit {0} × World)) → collect_steps c output w ≡ r → HasBin (transact w r).1.bin
    outcome (err x) e = h
    outcome (ok (u, w')) e = with_ok c.begin_tx _ e λ u1 e1 h1.
        with_ok c.get_inventory _ h1 λ u2 e2 h2. with_ok c.get_items_by_names _ h2 λ ids e3 h3.
          with_ok c.update_inventory _ h3 λ u4 e4 h4. with_ok c.reset_bin _ h4 λ u5 e5 h5.
            with_ok c.commit _ h5
              λ u6 e6 h6. let eb : reset w.bin ≡ w'.bin = cc in rw (← eb) (HasBin-reset w.bin)

HasBin-Step : {w w' : World} → Step w w' → HasBin w.bin → HasBin w'.bin
HasBin-Step (Step.opens c w) h = HasBin-opens c w h
HasBin-Step (Step.deposits c now rs w) h = HasBin-deposits c now rs w h
HasBin-Step (Step.collects c output w) h = HasBin-collects c output w h

-- Whatever transactions of deposits and harvests have run, in any order and from any state that was
-- read before them, the stored bin is idle and empty or composting, with a start, and from then on
-- due no earlier than the start and sludge no earlier than a week after that; the count is that of
-- its items. It is never stored as ready or as sludge.
pub HasBin-Steps : {w w' : World} → Steps w w' → HasBin w.bin → HasBin w'.bin
HasBin-Steps (stay w) h = h
HasBin-Steps (go s t) h = HasBin-Step t (HasBin-Steps s h)
