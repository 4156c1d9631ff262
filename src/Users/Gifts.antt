-- ===== src/Users/Gifts.antt =====
-- What giving an item does to the inventories.
use brandish_bot_go.Prelude.{
  ℕ, ◌+◌, ◌-◌, ◌≤◌, ◌≡◌, ◌≢◌, refl, Bool, not, ◌&&◌, some, get_elem?, set, remove_at, ltb, ◌==◌,
  if◌then◌else◌, arith, Bool-cases, inl, inr,
}
use brandish_bot_go.Failure.{
  Result, ok, err, transact, required, fail_if, insufficient_quantity, panic, with_ok,
  required-eq-ok, fail_if-eq-ok,
}
use brandish_bot_go.Inventory.{Inventory, InventorySlot, QualityLevel, find_random_slot}
use brandish_bot_go.Inventory.Consume.Conservation.{amount}
use brandish_bot_go.Inventory.Slots.{amount-remove_at, amount-set}
use brandish_bot_go.Users.{
  Inventories, write, Calls, store_item, found_slot, give_steps, execute_give_item_tx,
}
use brandish_bot_go.Users.Items.{owned, amount-store_item, write_self, write_other, found_slot_lem}

-- What executeGiveItemTx leaves behind, by how it ends: it gives from a slot `s` of the owner.
abbrev pub GiveOutcome : Inventories → ℕ → ℕ → ℕ → ℕ → Result (Unit {0}) × Inventories → Type 0
GiveOutcome w owner receiver id n (err e, w') = w' ≡ w
GiveOutcome w owner receiver id n (ok u, w') =
    (s : InventorySlot) × (s.item_id ≡ id)
    × (n ≤ s.quantity)
    × ((u : ℕ) (p : ℕ → QualityLevel → Bool)
        → owned w' u p
            + (if u == owner && not (owner == receiver) && p id s.quality_level then n else 0)
          ≡ owned w u p + (if u == receiver && p id s.quality_level then n else 0))

left_lem :
    (p : ℕ → QualityLevel → Bool) (inv : Inventory) (i n : ℕ) (s : InventorySlot)
    → get_elem? inv i ≡ some s
    → n ≤ s.quantity
    → amount p (
          if s.quantity == n
          then remove_at inv i
          else set inv i (record s { quantity = s.quantity - n }))
        + (if p s.item_id s.quality_level then n else 0)
      ≡ amount p inv
left_lem p inv i n s e h = elim (Bool-cases (s.quantity == n)) [
  | inl all ↦ rw all (ground (arith, amount-remove_at p inv i s e))
  | inr part ↦ rw part (amount-set p inv i n s e h)
]

moved :
    (w : Inventories) (owner receiver id n : ℕ) (s : InventorySlot) (left got : Inventory) (u : ℕ)
    (p : ℕ → QualityLevel → Bool)
    → amount p got ≡ amount p (w receiver) + (if p id s.quality_level then n else 0)
    → amount p left + (if p id s.quality_level then n else 0) ≡ amount p (w owner)
    → owned (write (write w owner left) receiver got) u p
        + (if u == owner && not (owner == receiver) && p id s.quality_level then n else 0)
      ≡ owned w u p + (if u == receiver && p id s.quality_level then n else 0)
moved w owner receiver id n s left got u p hg hl = elim (Bool-cases (u == receiver)) [
  | inl gets ↦
      let e : u ≡ receiver = ground arith in
      rw (e, write_self (write w owner left) receiver got) (ground (arith, hg))
  | inr gets_not ↦ elim (Bool-cases (u == owner)) [
    | inl gives ↦
        let e : u ≡ owner = ground arith in
        let other : owner ≢ receiver = ground arith in
        rw (e, write_other (write w owner left) receiver owner got other, write_self w owner left)
          (ground (arith, hl))
    | inr gives_not ↦ ground arith
  ]
]

-- A gift that succeeds moves `n` of the item, in one quality, from the owner to the receiver and
-- changes nobody else. Where owner and receiver are one user nothing is taken: that user gains
-- `n`. After an error nothing has changed.
pub execute_give_item_tx-GiveOutcome :
    (c : Calls) (w : Inventories) (owner receiver id n : ℕ)
    → GiveOutcome w owner receiver id n (execute_give_item_tx c w owner receiver id n)
unfolding execute_give_item_tx give_steps
execute_give_item_tx-GiveOutcome c w owner receiver id n =
    outcome (give_steps c w owner receiver id n) refl
  where
    outcome :
        (r : Result (Unit {0} × Inventories))
        → give_steps c w owner receiver id n ≡ r
        → GiveOutcome w owner receiver id n (transact w r)
    outcome (err e) h = refl
    outcome (ok (a, w')) h = with_ok c.begin_tx _ h λ u0 e0 h0.
        with_ok c.get_inventory _ h0 λ u1 e1 h1.
          with_ok (found_slot (find_random_slot (w owner) id c.pick)) _ h1 λ at e2 h2.
            with_ok (fail_if (ltb at.1 n) insufficient_quantity) _ h2 λ u3 e3 h3.
              with_ok (required (get_elem? (w owner) at.0) panic) _ h3 λ s e4 h4.
                with_ok c.get_receiver_inventory _ h4 λ u5 e5 h5.
                  with_ok c.update_inventory _ h5 λ u6 e6 h6.
                    with_ok c.update_receiver_inventory _ h6 λ u7 e7 h7.
                      with_ok c.commit _ h7 λ u8 e8 h8.
                        let (t, et, tid, tq) = found_slot_lem (w owner) id c.pick at.0 at.1 e2 in
                        let es : get_elem? (w owner) at.0 ≡ some s =
                          required-eq-ok (get_elem? (w owner) at.0) panic e4 in
                        let same : s ≡ t = cc in
                        let enough : n ≤ s.quantity =
                          ground (
                            arith,
                            fail_if-eq-ok (ltb at.1 n) insufficient_quantity e3,
                            same,
                            tq,
                          ) in
                        let sid : s.item_id ≡ id = rw same tid in
                        let sq : s.quantity ≡ at.1 = rw same tq in
                        given s at.0 at.1 w' es sid sq enough cc
      where
        given :
            (s : InventorySlot) (i m : ℕ) (w' : Inventories)
            → get_elem? (w owner) i ≡ some s
            → s.item_id ≡ id
            → s.quantity ≡ m
            → n ≤ s.quantity
            → write
                (write w owner (
                  if m == n
                  then remove_at (w owner) i
                  else set (w owner) i (record s { quantity = s.quantity - n })))
                receiver
                (store_item (w receiver) id n s.quality_level)
              ≡ w'
            → GiveOutcome w owner receiver id n (ok tt, w')
        given s i m w' es sid sq enough e =
            let left : Inventory =
              if s.quantity == n
              then remove_at (w owner) i
              else set (w owner) i (record s { quantity = s.quantity - n }) in
            let got : Inventory = store_item (w receiver) id n s.quality_level in
            let written : write (write w owner left) receiver got ≡ w' = rw (← sq) at e in
            (
              s,
              sid,
              enough,
              λ u p. rw (← written) (
                  moved w owner receiver id n s left got u p
                    (amount-store_item p (w receiver) id n s.quality_level)
                    (rw (← sid) (left_lem p (w owner) i n s es enough))),
            )
