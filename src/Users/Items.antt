-- ===== src/Users/Items.antt =====
-- What adding and removing an item does to the inventories.
use brandish_bot_go.Prelude.{
  ℕ, suc, ◌+◌, ◌≡◌, ◌≢◌, refl, Bool, ◌&&◌, Option, none, some, [], ◌∷◌, ◌++◌, get_elem?, set, ap,
  ltb, leb, ◌==◌, if◌then◌else◌, arith, Bool-cases, ◌⊎◌, inl, inr,
}
use mathlib.Core.Path.{subst₂}
use brandish_bot_go.Failure.{
  Result, ok, err, transact, required, item_not_found, ◌>>◌, with_ok, required-eq-ok,
}
use brandish_bot_go.Inventory.{
  Inventory, InventorySlot, QualityLevel, common, slot, add_quantity, find_slot_with_quality,
  find_slot_with_quality_from, find_random_slot,
}
use brandish_bot_go.Inventory.Add.{add_linear, same_key}
use brandish_bot_go.Inventory.Consume.Conservation.{amount}
use brandish_bot_go.Inventory.Slots.{
  IsFound, find_random_slot-IsFound, amount-remove_at, amount-set,
}
use brandish_bot_go.Economy.Exchange.{amount-add_linear}
use brandish_bot_go.Users.{
  Inventories, write, Calls, store_at, store_item, add_item_to_user, add_item_by_username,
  found_slot, removed_of, shrink_at, remove_item_from_user, remove_item_by_username,
}

search_lem :
    (i : ℕ) (inv : Inventory) (id n : ℕ) (q : QualityLevel)
    → ((find_slot_with_quality_from i inv id q ≡ (none, 0))
        × (add_linear inv (slot id n q) ≡ inv ++ (slot id n q ∷ [])))
      ⊎ ((k : ℕ) × (s : InventorySlot) × (find_slot_with_quality_from i inv id q
            ≡ (some (i + k), s.quantity))
          × (get_elem? inv k ≡ some s)
          × (add_linear inv (slot id n q) ≡ set inv k (add_quantity s n)))
unfolding find_slot_with_quality_from add_linear same_key
search_lem i [] id n q = inl (refl, refl)
search_lem i (s ∷ ss) id n q = elim (Bool-cases (same_key s.item_id s.quality_level id q)) [
  | inl same ↦ inr (0, s, ground arith, refl, ground arith)
  | inr other ↦ elim (search_lem (suc i) ss id n q) [
    | inl (e, f) ↦ inl (ground arith, ground arith)
    | inr (k, t, e, f, g) ↦ inr (suc k, t, ground arith, f, ground arith)
  ]
]

-- Adding through the index that the search returns is the search and update in one loop.
store_item-eq-add_linear :
    (inv : Inventory) (id n : ℕ) (q : QualityLevel)
    → store_item inv id n q ≡ add_linear inv (slot id n q)
unfolding store_item find_slot_with_quality
store_item-eq-add_linear inv id n q = elim (search_lem 0 inv id n q) [
  | inl (e, f) ↦ rw (e, f) refl
  | inr (k, s, e, f, g) ↦
      let z : 0 + k ≡ k = omega arith in
      let e' : find_slot_with_quality_from 0 inv id q ≡ (some k, s.quantity) = rw z at e in
      rw (e', store_at, f, g) refl
]

pub amount-store_item :
    (p : ℕ → QualityLevel → Bool) (inv : Inventory) (id n : ℕ) (q : QualityLevel)
    → amount p (store_item inv id n q) ≡ amount p inv + (if p id q then n else 0)
amount-store_item p inv id n q =
    rw (store_item-eq-add_linear inv id n q) (amount-add_linear p inv (slot id n q))

pub amount-shrink_at :
    (p : ℕ → QualityLevel → Bool) (inv : Inventory) (i n : ℕ) (s : InventorySlot)
    → get_elem? inv i ≡ some s
    → amount p (shrink_at inv i n)
        + (if p s.item_id s.quality_level then removed_of s.quantity n else 0)
      ≡ amount p inv
amount-shrink_at p inv i n s e = elim (Bool-cases (ltb n s.quantity)) [
  | inl part ↦ rw (shrink_at, e) (ground (arith, amount-set p inv i n s e))
  | inr all ↦ rw (shrink_at, e) (ground (arith, amount-remove_at p inv i s e))
]

-- The amounts of one user.
abbrev pub owned : Inventories → ℕ → (ℕ → QualityLevel → Bool) → ℕ
owned w user p = amount p (w user)

-- `n` of `item` and quality `q` are gone from `user`; all else is as it was.
abbrev pub Less : Inventories → Inventories → ℕ → ℕ → QualityLevel → ℕ → Type 0
Less w w' user item q n =
    (u : ℕ) (p : ℕ → QualityLevel → Bool)
    → owned w' u p + (if u == user && p item q then n else 0) ≡ owned w u p

-- `n` more of `item` and quality `q` are with `user`; all else is as it was.
abbrev pub More : Inventories → Inventories → ℕ → ℕ → QualityLevel → ℕ → Type 0
More w w' user item q n =
    (u : ℕ) (p : ℕ → QualityLevel → Bool)
    → owned w' u p ≡ owned w u p + (if u == user && p item q then n else 0)

-- What AddItemByUsername leaves behind, by how it ends.
abbrev pub AddOutcome : Calls → Inventories → ℕ → ℕ → ℕ → Result (Unit {0}) × Inventories → Type 0
AddOutcome c w user name n (err e, w') =
    (u : ℕ) (p : ℕ → QualityLevel → Bool) → owned w' u p ≡ owned w u p
AddOutcome c w user name n (ok u, w') =
    (id : ℕ) × (c.get_item name ≡ ok (some id)) × More w w' user id common n

pub write_self : (w : Inventories) (user : ℕ) (inv : Inventory) → write w user inv user ≡ inv
write_self w user inv = ground arith

pub write_other :
    (w : Inventories) (user u : ℕ) (inv : Inventory) → u ≢ user → write w user inv u ≡ w u
write_other w user u inv h = ground arith

write_same : (w : Inventories) (user u : ℕ) → write w user (w user) u ≡ w u
write_same w user u = elim (Bool-cases (u == user)) [
  | inl e ↦ let same : u ≡ user = ground arith in rw (e, same) refl
  | inr e ↦ rw e refl
]

more :
    (w : Inventories) (user item n : ℕ) (q : QualityLevel) (inv : Inventory)
    → ((p : ℕ → QualityLevel → Bool)
        → amount p inv ≡ amount p (w user) + (if p item q then n else 0))
    → More w (write w user inv) user item q n
more w user item n q inv h u p = elim (Bool-cases (u == user)) [
  | inl same ↦
      let e : u ≡ user = ground arith in rw (e, write_self w user inv) (ground (arith, h p))
  | inr other ↦ ground arith
]

less :
    (w : Inventories) (user item n : ℕ) (q : QualityLevel) (inv : Inventory)
    → ((p : ℕ → QualityLevel → Bool)
        → amount p inv + (if p item q then n else 0) ≡ amount p (w user))
    → Less w (write w user inv) user item q n
less w user item n q inv h u p = elim (Bool-cases (u == user)) [
  | inl same ↦
      let e : u ≡ user = ground arith in rw (e, write_self w user inv) (ground (arith, h p))
  | inr other ↦ ground arith
]

-- An item is added in common quality, to the user alone; after an error nothing has changed.
pub add_item_by_username-AddOutcome :
    (c : Calls) (w : Inventories) (user name n : ℕ)
    → AddOutcome c w user name n (add_item_by_username c w user name n)
unfolding add_item_by_username add_item_to_user
add_item_by_username-AddOutcome c w user name n =
    outcome (c.get_user >> add_item_to_user c (w user) name n) refl
  where
    outcome :
        (r : Result (Unit {0} × Inventory))
        → (c.get_user >> add_item_to_user c (w user) name n) ≡ r
        → AddOutcome c w user name n (let (a, inv') = transact (w user) r in (a, write w user inv'))
    outcome (err e) h = λ u p. ap (amount p) (write_same w user u)
    outcome (ok (a, inv')) h = with_ok c.get_user _ h λ u0 e0 h0.
        with_ok (c.get_item name) _ h0 λ found e1 h1.
          with_ok (required found item_not_found) _ h1 λ id e2 h2.
            with_ok c.begin_tx _ h2 λ u3 e3 h3. with_ok c.get_inventory _ h3 λ u4 e4 h4.
              with_ok c.update_inventory _ h4 λ u5 e5 h5. with_ok c.commit _ h5 λ u6 e6 h6.
                let stored : store_item (w user) id n common ≡ inv' = cc in
                let is_some : found ≡ some id = required-eq-ok found item_not_found e2 in
                (
                  id,
                  rw (← is_some) e1,
                  more w user id n common inv'
                      λ p. rw (← stored) (amount-store_item p (w user) id n common),
                )

pub found_slot_lem :
    (inv : Inventory) (id : ℕ) (pick : ℕ → ℕ) (i n : ℕ)
    → found_slot (find_random_slot inv id pick) ≡ ok (i, n)
    → IsFound inv id (some i, n)
found_slot_lem inv id pick i n h =
    let (r, e, f) = find_random_slot-IsFound inv id pick in from r f (rw e at h)
  where
    from :
        (r : Option ℕ × ℕ)
        → IsFound inv id r
        → found_slot (some r) ≡ ok (i, n)
        → IsFound inv id (some i, n)
    from (none, m) f g = cc
    from (some j, m) f g =
        let ej : j ≡ i = cc in
        let em : m ≡ n = cc in subst₂ (λ x y. IsFound inv id (some x, y)) ej em f

-- What RemoveItemByUsername leaves behind, by how it ends: with a slot `s` of the item.
abbrev pub RemoveOutcome : Calls → Inventories → ℕ → ℕ → ℕ → Result ℕ × Inventories → Type 0
RemoveOutcome c w user name n (err e, w') =
    (u : ℕ) (p : ℕ → QualityLevel → Bool) → owned w' u p ≡ owned w u p
RemoveOutcome c w user name n (ok r, w') =
    (s : InventorySlot) × (c.get_item name ≡ ok (some s.item_id))
    × (r ≡ (if leb n s.quantity then n else s.quantity))
    × Less w w' user s.item_id s.quality_level r

-- A removal that succeeds takes the lesser of the wanted quantity and what one slot of the item
-- holds, from that slot's quality, and reports it: it does not fail where the slot holds less.
-- Nothing else changes, and nothing at all after an error.
pub remove_item_by_username-RemoveOutcome :
    (c : Calls) (w : Inventories) (user name n : ℕ)
    → RemoveOutcome c w user name n (remove_item_by_username c w user name n)
unfolding remove_item_by_username remove_item_from_user
remove_item_by_username-RemoveOutcome c w user name n =
    outcome (c.get_user >> remove_item_from_user c (w user) name n) refl
  where
    outcome :
        (r : Result (ℕ × Inventory))
        → (c.get_user >> remove_item_from_user c (w user) name n) ≡ r
        → RemoveOutcome c w user name n
            (let (a, inv') = transact (w user) r in (a, write w user inv'))
    outcome (err e) h = λ u p. ap (amount p) (write_same w user u)
    outcome (ok (a, inv')) h = with_ok c.get_user _ h λ u0 e0 h0.
        with_ok (c.get_item name) _ h0 λ found e1 h1.
          with_ok (required found item_not_found) _ h1 λ id e2 h2.
            with_ok c.begin_tx _ h2 λ u3 e3 h3. with_ok c.get_inventory _ h3 λ u4 e4 h4.
              with_ok (found_slot (find_random_slot (w user) id c.pick)) _ h4 λ at e5 h5.
                with_ok c.update_inventory _ h5 λ u6 e6 h6. with_ok c.commit _ h6 λ u7 e7 h7.
                  let (s, es, eid, eq) = found_slot_lem (w user) id c.pick at.0 at.1 e5 in
                  let stored : shrink_at (w user) at.0 n ≡ inv' = cc in
                  let count : removed_of at.1 n ≡ a = cc in
                  let is_some : found ≡ some id = required-eq-ok found item_not_found e2 in
                  let held : removed_of s.quantity n ≡ a = rw eq count in
                  (
                    s,
                    rw (eid, ← is_some) e1,
                    rw (← held) refl,
                    less w user s.item_id a s.quality_level inv'
                        λ p. rw (← stored, ← held) (amount-shrink_at p (w user) at.0 n s es),
                  )
