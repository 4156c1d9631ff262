-- ===== src/Economy/Exchange.antt =====
-- internal/economy/transaction_ops.go, processExchangeTransaction: take from one slot, add to
-- another.
use brandish_bot_go.Prelude.{
  ℕ, ◌+◌, ◌-◌, ◌≤◌, ◌≡◌, refl, Bool, none, some, [], ◌∷◌, get_elem?, set, remove_at, leb,
  if◌then◌else◌, arith, inl, inr, Bool-cases,
}
use brandish_bot_go.Failure.{Result, ok, err, panic}
use brandish_bot_go.Inventory.{Inventory, InventorySlot, QualityLevel, common, slot}
use brandish_bot_go.Inventory.Add.{add_linear}
use brandish_bot_go.Inventory.Add.Equivalence.{same_key_eq}
use brandish_bot_go.Inventory.Consume.Conservation.{amount}
use brandish_bot_go.Inventory.Slots.{amount-set, amount-remove_at}

-- The first `if`: a slot that holds no more than the amount is removed.
abbrev take_from : Inventory → ℕ → InventorySlot → ℕ → Inventory
take_from inv i s n =
    if leb s.quantity n then remove_at inv i else set inv i (record s { quantity = s.quantity - n })

-- `processExchangeTransaction`. An index out of range is a panic. What is added goes to the first
-- slot of the item with common quality, or to a new one.
unfoldable pub process_exchange : Inventory → ℕ → ℕ → ℕ → ℕ → Result Inventory
process_exchange inv i remove add add_id = elim (get_elem? inv i) [
  | none ↦ err panic
  | some s ↦ ok (add_linear (take_from inv i s remove) (slot add_id add common))
]

pub amount-add_linear :
    (p : ℕ → QualityLevel → Bool) (inv : Inventory) (x : InventorySlot)
    → amount p (add_linear inv x)
      ≡ amount p inv + (if p x.item_id x.quality_level then x.quantity else 0)
unfolding add_linear
amount-add_linear p [] x = ground arith
amount-add_linear p (s ∷ ss) x = ground (
  arith,
  amount-add_linear p ss x,
  same_key_eq s.item_id s.quality_level x.item_id x.quality_level,
)

amount-take_from :
    (p : ℕ → QualityLevel → Bool) (inv : Inventory) (i n : ℕ) (s : InventorySlot)
    → get_elem? inv i ≡ some s
    → n ≤ s.quantity
    → amount p (take_from inv i s n) + (if p s.item_id s.quality_level then n else 0) ≡ amount p inv
amount-take_from p inv i n s e h = elim (Bool-cases (leb s.quantity n)) [
  | inl all ↦ ground (arith, amount-remove_at p inv i s e)
  | inr part ↦ ground (arith, amount-set p inv i n s e h)
]

-- An exchange at a slot that holds enough succeeds. Of every item and quality the inventory then
-- holds what it held, less what was taken from the slot, plus what was added.
pub process_exchange_lem :
    (inv : Inventory) (i remove add add_id : ℕ) (s : InventorySlot)
    → get_elem? inv i ≡ some s
    → remove ≤ s.quantity
    → (inv' : Inventory) × (process_exchange inv i remove add add_id ≡ ok inv')
      × ((p : ℕ → QualityLevel → Bool)
          → amount p inv' + (if p s.item_id s.quality_level then remove else 0)
            ≡ amount p inv + (if p add_id common then add else 0))
unfolding process_exchange
process_exchange_lem inv i remove add add_id s e h =
    let inv' : Inventory = add_linear (take_from inv i s remove) (slot add_id add common) in
    (
      inv',
      rw (process_exchange, e) refl,
      λ p. omega (
        arith,
        amount-add_linear p (take_from inv i s remove) (slot add_id add common),
        amount-take_from p inv i remove s e h,
      ),
    )
