-- ===== src/Gamble/Execute/Ends.antt =====
-- The two ends of a gamble: what a refund and what the opening of the lootboxes leave behind.
use brandish_bot_go.Prelude.{
  ℕ, ◌+◌, ◌≤◌, ◌<◌, ◌≡◌, ◌⊎◌, refl, true, Option, none, some, List, [], ◌∷◌, length, ◌==◌,
  if◌then◌else◌, arith, Bool-cases, inl, inr,
}
use brandish_bot_go.Failure.{ok, panic, required, with_ok, required-eq-ok}
use brandish_bot_go.Inventory.{get_total_quantity}
use brandish_bot_go.Users.{Inventories, write}
use brandish_bot_go.Users.Items.{write_self}
use brandish_bot_go.Gamble.{
  GambleState, joining, completed, refunded, Participant, Gamble, GambleOpenedItem, is_joining,
  refund_bets, add_entry, award_items,
}
use brandish_bot_go.Gamble.Payback.{refundable, refund_bets_lem, opened_of, award_items_lem}
use brandish_bot_go.Gamble.Winner.{determine_gamble_winners}
use brandish_bot_go.Gamble.Winner.Leader.{IsLeader, determine_gamble_winners-IsLeader}
use brandish_bot_go.Gamble.Execute.{
  Calls, World, GambleResult, refund_all, open_participants_lootboxes, user_values,
  total_gamble_value, award, cancel_steps, open_steps,
}

-- How much of an item a user has.
abbrev pub held : Inventories → ℕ → ℕ → ℕ
held w user id = get_total_quantity (w user) id

-- What a refund owes to a user of an item.
abbrev pub owed : Calls → List Participant → ℕ → ℕ → ℕ
owed c [] user id = 0
owed c (p ∷ ps) user id =
    (if user == p.user_id then refundable c.base p.lootbox_bets id else 0) + owed c ps user id

held-write :
    (w : Inventories) (user u id n : ℕ) (inv : _)
    → get_total_quantity inv id ≡ get_total_quantity (w user) id + n
    → held (write w user inv) u id ≡ held w u id + (if u == user then n else 0)
held-write w user u id n inv h = elim (Bool-cases (u == user)) [
  | inl same ↦
      let e : u ≡ user = ground (arith, same) in rw (e, write_self w user inv) (ground (arith, h))
  | inr other ↦ ground (arith, other)
]

refund_all_lem :
    (c : Calls) (ps : List Participant) (w w' : Inventories)
    → refund_all c ps w ≡ ok w'
    → (u id : ℕ) → held w' u id ≡ held w u id + owed c ps u id
unfolding refund_all
refund_all_lem c [] w w' h u id = let e : w ≡ w' = cc in rw (← e) (omega arith)
refund_all_lem c (p ∷ ps) w w' h u id = with_ok (c.get_inventory p.user_id) _ h λ u1 e1 h1.
    with_ok (c.update_inventory p.user_id) _ h1 λ u2 e2 h2.
      let back = refund_bets c.base (w p.user_id) p.lootbox_bets in
      omega (
        arith,
        refund_all_lem c ps (write w p.user_id back) w' h2 u id,
        held-write w p.user_id u id (refundable c.base p.lootbox_bets id) back
            (refund_bets_lem c.base (w p.user_id) p.lootbox_bets id),
      )

-- The part of an item that goes to a user.
abbrev pub prize : Option ℕ → List GambleOpenedItem → ℕ → ℕ → ℕ
prize none items user id = 0
prize (some winner) items user id = if user == winner then opened_of items id else 0

award_lem :
    (c : Calls) (w w' : Inventories) (winner : Option ℕ) (items : List GambleOpenedItem)
    → award c w winner items ≡ ok w'
    → (u id : ℕ) → held w' u id ≡ held w u id + prize winner items u id
award_lem c w w' none items h u id = let e : w ≡ w' = cc in rw (← e) (omega arith)
award_lem c w w' (some winner) items h u id = with_ok (c.get_inventory winner) _ h λ u1 e1 h1.
    with_ok (c.update_inventory winner) _ h1 λ u2 e2 h2.
      let got = award_items (w winner) items in
      let e : write w winner got ≡ w' = cc in
      rw (← e)
        (held-write w winner u id (opened_of items id) got (award_items_lem (w winner) items id))

-- What the map of the values holds for a user.
abbrev pub entries_of : ℕ → List (ℕ × ℕ) → ℕ
entries_of u [] = 0
entries_of u ((user, value) ∷ es) = (if user == u then value else 0) + entries_of u es

-- What all that a user opened is worth.
abbrev pub value_of : ℕ → List GambleOpenedItem → ℕ
value_of u [] = 0
value_of u (x ∷ xs) = (if x.user_id == u then x.value else 0) + value_of u xs

add_entry_lem :
    (u user value : ℕ) (es : List (ℕ × ℕ))
    → entries_of u (add_entry user value es) ≡ entries_of u es + (if user == u then value else 0)
add_entry_lem u user value [] = omega arith
add_entry_lem u user value ((k, n) ∷ es) = ground (arith, add_entry_lem u user value es)

user_values_lem :
    (u : ℕ) (items : List GambleOpenedItem) (es : List (ℕ × ℕ))
    → entries_of u (user_values items es) ≡ entries_of u es + value_of u items
unfolding user_values
user_values_lem u [] es = omega arith
user_values_lem u (x ∷ xs) es = omega (
  arith,
  user_values_lem u xs (add_entry x.user_id x.value es),
  add_entry_lem u x.user_id x.value es,
)

-- A gamble that was ended: refunded where it had fewer than two participants, else opened.
abbrev pub Refunded : Calls → Gamble → World → GambleResult → World → Type 0
Refunded c g w r w' =
    (length g.participants < 2)
    × (w'.state ≡ refunded)
    × (r.winner_id ≡ none)
    × ((u id : ℕ) → held w'.inventories u id ≡ held w.inventories u id + owed c g.participants u id)

abbrev pub Opened : Calls → Gamble → World → GambleResult → World → Type 0
Opened c g w r w' =
    (2 ≤ length g.participants)
    × (w'.state ≡ completed)
    × (r.items ≡ open_participants_lootboxes c g.participants)
    × IsLeader (c.iterate (user_values r.items [])) r.winner_id
    × ((u : ℕ) → entries_of u (user_values r.items []) ≡ value_of u r.items)
    × ((u id : ℕ)
        → held w'.inventories u id ≡ held w.inventories u id + prize r.winner_id r.items u id)

abbrev pub Ended : Calls → Gamble → World → GambleResult → World → Type 0
Ended c g w r w' =
    (w.state ≡ joining) × (g.state ≡ joining) × (Refunded c g w r w' ⊎ Opened c g w r w')

pub is_joining_eq : (s : GambleState) → is_joining s ≡ true → s ≡ joining
is_joining_eq s h = ground arith

pub cancel_steps_lem :
    (c : Calls) (g : Gamble) (w w' : World) (r : GambleResult)
    → length g.participants < 2
    → cancel_steps c g.participants w ≡ ok (some r, w')
    → Refunded c g w r w'
unfolding cancel_steps
cancel_steps_lem c g w w' r few h =
    with_ok (refund_all c g.participants w.inventories) _ h λ inventories e1 h1.
      with_ok c.mark_refunded _ h1 λ u2 e2 h2. with_ok c.commit _ h2 λ u3 e3 h3.
        let after : World = record { state = refunded; inventories = inventories } in
        let ew : after ≡ w' = cc in
        let none_won : GambleResult = record { winner_id = none; total_value = 0; items = [] } in
        let er : none_won ≡ r = cc in
        rw (← ew, ← er)
          (few, refl, refl, refund_all_lem c g.participants w.inventories inventories e1)

pub open_steps_lem :
    (c : Calls) (g : Gamble) (w w' : World) (r : GambleResult)
    → 2 ≤ length g.participants
    → open_steps c g.participants w ≡ ok (some r, w')
    → Opened c g w r w'
unfolding open_steps
open_steps_lem c g w w' r many h =
    let items : List GambleOpenedItem = open_participants_lootboxes c g.participants in
    let found = determine_gamble_winners c.rng (c.iterate (user_values items [])) in
    with_ok c.save_opened _ h λ u1 e1 h1. with_ok (required found panic) _ h1 λ winners e2 h2.
      with_ok (award c w.inventories winners.winner_id items) _ h2 λ inventories e3 h3.
        with_ok c.complete _ h3 λ u4 e4 h4. with_ok c.commit _ h4 λ u5 e5 h5.
          let after : World = record { state = completed; inventories = inventories } in
          let ew : after ≡ w' = cc in
          let won : GambleResult = record {
            winner_id = winners.winner_id;
            total_value = total_gamble_value items;
            items = items;
          } in
          let er : won ≡ r = cc in
          rw (← ew, ← er)
            (
              many,
              refl,
              refl,
              determine_gamble_winners-IsLeader c.rng (c.iterate (user_values items [])) winners
                  (required-eq-ok found panic e2),
              λ u. omega (arith, user_values_lem u items []),
              award_lem c w.inventories inventories winners.winner_id items e3,
            )
