-- ===== src/Gamble/Payback.antt =====
-- What a refund and an award add to an inventory, item by item.
use brandish_bot_go.Prelude.{
  ℕ, ◌+◌, ◌≡◌, refl, List, [], ◌∷◌, ◌++◌, ◌==◌, if◌then◌else◌, arith, inl, inr,
}
use brandish_bot_go.Failure.{ok, err, Result-cases}
use brandish_bot_go.Inventory.{Inventory, get_total_quantity}
use brandish_bot_go.Gamble.{
  Calls, LootboxBet, GambleOpenedItem, add_to_item, resolve_lootbox_bet, refund_bets, add_entry,
  items_to_add, lookup, delete, award_slots, insert_entry, sort_entries, new_slots, award_items,
}

add_to_item_lem :
    (inv : Inventory) (k id n : ℕ)
    → get_total_quantity (add_to_item inv k n) id
      ≡ get_total_quantity inv id + (if k == id then n else 0)
unfolding add_to_item
add_to_item_lem [] k id n = ground arith
add_to_item_lem (s ∷ ss) k id n = ground (arith, add_to_item_lem ss k id n)

-- What the bets that are resolved hold of an item.
abbrev pub refundable : Calls → List LootboxBet → ℕ → ℕ
refundable c [] id = 0
refundable c (b ∷ bs) id =
    (elim (resolve_lootbox_bet c b) [ err e ↦ 0 | ok k ↦ (if k == id then b.quantity else 0) ])
    + refundable c bs id

-- A refund adds to every item exactly what the resolved bets hold of it.
pub refund_bets_lem :
    (c : Calls) (inv : Inventory) (bets : List LootboxBet) (id : ℕ)
    → get_total_quantity (refund_bets c inv bets) id
      ≡ get_total_quantity inv id + refundable c bets id
unfolding refund_bets
refund_bets_lem c inv [] id = omega arith
refund_bets_lem c inv (b ∷ bs) id = elim (Result-cases (resolve_lootbox_bet c b)) [
  | inl (e, f) ↦ rw (refund_bets, refundable, f) (omega (arith, refund_bets_lem c inv bs id))
  | inr (k, f) ↦
      rw (refund_bets, refundable, f)
        (omega (
          arith,
          refund_bets_lem c (add_to_item inv k b.quantity) bs id,
          add_to_item_lem inv k id b.quantity,
        ))
]

abbrev entries_of : List (ℕ × ℕ) → ℕ → ℕ
entries_of [] id = 0
entries_of ((k, m) ∷ es) id = (if k == id then m else 0) + entries_of es id

add_entry_lem :
    (k n : ℕ) (es : List (ℕ × ℕ)) (id : ℕ)
    → entries_of (add_entry k n es) id ≡ entries_of es id + (if k == id then n else 0)
add_entry_lem k n [] id = ground arith
add_entry_lem k n ((j, m) ∷ es) id = ground (arith, add_entry_lem k n es id)

-- What was opened of an item.
abbrev pub opened_of : List GambleOpenedItem → ℕ → ℕ
opened_of [] id = 0
opened_of (x ∷ xs) id = (if x.item_id == id then x.quantity else 0) + opened_of xs id

items_to_add_lem :
    (xs : List GambleOpenedItem) (es : List (ℕ × ℕ)) (id : ℕ)
    → entries_of (items_to_add xs es) id ≡ entries_of es id + opened_of xs id
unfolding items_to_add
items_to_add_lem [] es id = omega arith
items_to_add_lem (x ∷ xs) es id = omega (
  arith,
  items_to_add_lem xs (add_entry x.item_id x.quantity es) id,
  add_entry_lem x.item_id x.quantity es id,
)

delete_lem :
    (k : ℕ) (es : List (ℕ × ℕ)) (id : ℕ)
    → entries_of (delete k es) id + (if k == id then lookup k es else 0) ≡ entries_of es id
delete_lem k [] id = ground arith
delete_lem k ((j, m) ∷ es) id = ground (arith, delete_lem k es id)

award_slots_lem :
    (inv : Inventory) (es : List (ℕ × ℕ)) (id : ℕ)
    → get_total_quantity (award_slots inv es).0 id + entries_of (award_slots inv es).1 id
      ≡ get_total_quantity inv id + entries_of es id
unfolding award_slots
award_slots_lem [] es id = omega arith
award_slots_lem (s ∷ ss) es id =
    ground (arith, award_slots_lem ss (delete s.item_id es) id, delete_lem s.item_id es id)

insert_entry_lem :
    (e : ℕ × ℕ) (es : List (ℕ × ℕ)) (id : ℕ)
    → entries_of (insert_entry e es) id ≡ (if e.0 == id then e.1 else 0) + entries_of es id
insert_entry_lem e [] id = omega arith
insert_entry_lem e (f ∷ fs) id = ground (arith, insert_entry_lem e fs id)

sort_entries_lem : (es : List (ℕ × ℕ)) (id : ℕ) → entries_of (sort_entries es) id ≡ entries_of es id
unfolding sort_entries
sort_entries_lem [] id = refl
sort_entries_lem (e ∷ es) id =
    omega (arith, sort_entries_lem es id, insert_entry_lem e (sort_entries es) id)

new_slots_lem :
    (inv : Inventory) (es : List (ℕ × ℕ)) (id : ℕ)
    → get_total_quantity (inv ++ new_slots es) id ≡ get_total_quantity inv id + entries_of es id
new_slots_lem [] [] id = omega arith
new_slots_lem [] (e ∷ es) id = omega (arith, new_slots_lem [] es id)
new_slots_lem (s ∷ ss) es id = omega (arith, new_slots_lem ss es id)

-- The winner gains, of every item, exactly what all participants opened of it.
pub award_items_lem :
    (inv : Inventory) (opened : List GambleOpenedItem) (id : ℕ)
    → get_total_quantity (award_items inv opened) id
      ≡ get_total_quantity inv id + opened_of opened id
unfolding award_items
award_items_lem inv opened id =
    let (inv', left) = award_slots inv (items_to_add opened []) in
    omega (
      arith,
      award_slots_lem inv (items_to_add opened []) id,
      items_to_add_lem opened [] id,
      sort_entries_lem left id,
      new_slots_lem inv' (sort_entries left) id,
    )
