-- ===== src/Gamble/Bets.antt =====
-- What a start or a join takes from the inventory.
use brandish_bot_go.Prelude.{
  ℕ, ◌+◌, ◌≡◌, ◌≢◌, ◌⊎◌, refl, Bool, List, [], ◌∷◌, ltb, ◌==◌, if◌then◌else◌, arith, Bool-cases,
  inl, inr,
}
use brandish_bot_go.Failure.{
  Result, ok, err, transact, required, user_not_found, with_ok, Result-cases,
}
use brandish_bot_go.Inventory.{Inventory, QualityLevel, unset}
use brandish_bot_go.Inventory.Consume.Conservation.{amount}
use brandish_bot_go.Gamble.{
  Calls, LootboxBet, Participant, BetRequest, Gamble, consume_item, consume_bets,
  validate_gamble_start_input, validate_gamble_bets, ensure_no_active_gamble, stake_steps,
  start_steps, start_gamble, get_and_validate_active_gamble, initiator_bets, some_bets, join_steps,
  join_gamble,
}

pub consume_item_lem :
    (p : ℕ → QualityLevel → Bool) (inv : Inventory) (id n : ℕ) (q : QualityLevel) (inv' : Inventory)
    → consume_item inv id n ≡ ok (q, inv')
    → amount p inv' + (if p id q then n else 0) ≡ amount p inv
unfolding consume_item
consume_item_lem p [] id n q inv' h = cc
consume_item_lem p (s ∷ ss) id n q inv' h = elim (Bool-cases (s.item_id == id)) [
  | inl same ↦ elim (Bool-cases (ltb s.quantity n)) [
    | inl short ↦ ground (arith, h)
    | inr enough ↦ ground (arith, h)
  ]
  | inr other ↦ elim (Result-cases (consume_item ss id n)) [
    | inl (e, f) ↦ ground (arith, h, f)
    | inr (r, f) ↦ ground (arith, h, f, consume_item_lem p ss id n r.0 r.1 f)
  ]
]

-- What the bets hold together, at the resolved items and the qualities that were consumed.
abbrev pub staked : (ℕ → QualityLevel → Bool) → List LootboxBet → List ℕ → ℕ
staked p [] ids = 0
staked p (b ∷ bs) [] = 0
staked p (b ∷ bs) (id ∷ ids) = (if p id b.quality_level then b.quantity else 0) + staked p bs ids

pub consume_bets_lem :
    (p : ℕ → QualityLevel → Bool) (inv : Inventory) (bets : List LootboxBet) (ids : List ℕ)
    (bets' : List LootboxBet) (inv' : Inventory)
    → consume_bets inv bets ids ≡ ok (bets', inv')
    → amount p inv' + staked p bets' ids ≡ amount p inv
unfolding consume_bets
consume_bets_lem p inv [] ids bets' inv' h = ground (arith, h)
consume_bets_lem p inv (b ∷ bs) [] bets' inv' h = cc
consume_bets_lem p inv (b ∷ bs) (id ∷ ids) bets' inv' h =
    with_ok (consume_item inv id b.quantity) _ h λ taken e1 h1.
      with_ok (consume_bets taken.1 bs ids) _ h1 λ rest e2 h2.
        let one = consume_item_lem p inv id b.quantity taken.0 taken.1 e1 in
        let more = consume_bets_lem p taken.1 bs ids rest.0 rest.1 e2 in
        let eb : (record b { quality_level = taken.0 }) ∷ rest.0 ≡ bets' = cc in
        let ei : rest.1 ≡ inv' = cc in rw (← eb, ← ei) (omega (arith, one, more))

-- The bets without their qualities.
abbrev pub unmarked : List LootboxBet → List LootboxBet
unmarked [] = []
unmarked (b ∷ bs) = (record b { quality_level = unset }) ∷ unmarked bs

consume_bets-unmarked :
    (inv : Inventory) (bets : List LootboxBet) (ids : List ℕ) (bets' : List LootboxBet)
    (inv' : Inventory)
    → consume_bets inv bets ids ≡ ok (bets', inv')
    → unmarked bets' ≡ unmarked bets
unfolding consume_bets
consume_bets-unmarked inv [] ids bets' inv' h = let e : [] ≡ bets' = cc in rw (← e) refl
consume_bets-unmarked inv (b ∷ bs) [] bets' inv' h = cc
consume_bets-unmarked inv (b ∷ bs) (id ∷ ids) bets' inv' h =
    with_ok (consume_item inv id b.quantity) _ h λ taken e1 h1.
      with_ok (consume_bets taken.1 bs ids) _ h1 λ rest e2 h2.
        let more = consume_bets-unmarked taken.1 bs ids rest.0 rest.1 e2 in
        let eb : (record b { quality_level = taken.0 }) ∷ rest.0 ≡ bets' = cc in
        rw (← eb, more) refl

-- The stored bets are those that were asked for, with the qualities of what was consumed for them.
abbrev pub IsStaked : Calls → Inventory → List LootboxBet → Inventory → List LootboxBet → Type 0
IsStaked c inv bets inv' stored =
    (ids : List ℕ) × (validate_gamble_bets c bets ≡ ok ids)
    × (unmarked stored ≡ unmarked bets)
    × ((p : ℕ → QualityLevel → Bool) → amount p inv' + staked p stored ids ≡ amount p inv)

-- What a start leaves behind, by how it ends.
abbrev pub StartOutcome :
    Calls → Inventory → List BetRequest → Result (List LootboxBet) × Inventory → Type 0
StartOutcome c inv requests (err e, inv') = inv' ≡ inv
StartOutcome c inv requests (ok stored, inv') =
    (bets : List LootboxBet) × (validate_gamble_start_input requests ≡ ok bets)
    × IsStaked c inv bets inv' stored

-- The participant is the first one with the user's id.
abbrev pub IsFirst : ℕ → Participant → List Participant → Type 0
IsFirst user p [] = ⊥
IsFirst user p (q ∷ qs) = ((q ≡ p) × (q.user_id ≡ user)) ⊎ ((q.user_id ≢ user) × IsFirst user p qs)

initiator_lem :
    (user : ℕ) (ps : List Participant) (b : LootboxBet) (bs : List LootboxBet)
    → initiator_bets user ps ≡ b ∷ bs
    → (p : Participant) × IsFirst user p ps × (p.lootbox_bets ≡ b ∷ bs)
initiator_lem user [] b bs h = cc
initiator_lem user (q ∷ qs) b bs h = elim (Bool-cases (q.user_id == user)) [
  | inl same ↦ (q, inl (refl, ground (arith, same)), rw same at h)
  | inr other ↦
      let (p, first, e) = initiator_lem user qs b bs (rw other at h) in
      (p, inr (λ g. ground (arith, other, g), first), e)
]

-- What a join leaves behind, by how it ends.
abbrev pub JoinOutcome : Calls → Inventory → Result (List LootboxBet) × Inventory → Type 0
JoinOutcome c inv (err e, inv') = inv' ≡ inv
JoinOutcome c inv (ok stored, inv') =
    (g : Gamble) × (get_and_validate_active_gamble c ≡ ok g)
    × ((p : Participant) × IsFirst g.initiator_id p g.participants
        × IsStaked c inv p.lootbox_bets inv' stored)

some_bets_lem :
    (user : ℕ) (ps : List Participant) (bs bets : List LootboxBet)
    → initiator_bets user ps ≡ bs
    → some_bets bs ≡ ok bets
    → (p : Participant) × IsFirst user p ps × (p.lootbox_bets ≡ bets)
some_bets_lem user ps [] bets e h = cc
some_bets_lem user ps (b ∷ bs) bets e h =
    let same : b ∷ bs ≡ bets = cc in rw (← same) (initiator_lem user ps b bs e)

stake_steps_lem :
    (c : Calls) (inv : Inventory) (bets : List LootboxBet) (ids : List ℕ)
    (create : Result (Unit {0})) (bets' : List LootboxBet) (inv' : Inventory)
    → stake_steps c inv bets ids create ≡ ok (bets', inv')
    → validate_gamble_bets c bets ≡ ok ids
    → IsStaked c inv bets inv' bets'
unfolding stake_steps
stake_steps_lem c inv bets ids create bets' inv' h valid = with_ok c.begin_tx _ h λ u1 e1 h1.
    with_ok c.get_inventory _ h1 λ u2 e2 h2. with_ok (consume_bets inv bets ids) _ h2 λ taken e3 h3.
      with_ok c.update_inventory _ h3 λ u4 e4 h4. with_ok create _ h4 λ u5 e5 h5.
        with_ok c.join_gamble _ h5 λ u6 e6 h6. with_ok c.commit _ h6 λ u7 e7 h7.
          let e : consume_bets inv bets ids ≡ ok (bets', inv') = cc in
          (
            ids,
            valid,
            consume_bets-unmarked inv bets ids bets' inv' e,
            λ p. consume_bets_lem p inv bets ids bets' inv' e,
          )

-- A start that fails leaves the inventory as it was. One that succeeds stores the requested bets,
-- with qualities, and takes from the inventory exactly what they hold, in every quality.
pub start_gamble-StartOutcome :
    (c : Calls) (inv : Inventory) (requests : List BetRequest)
    → StartOutcome c inv requests (start_gamble c inv requests)
unfolding start_gamble start_steps
start_gamble-StartOutcome c inv requests = outcome (start_steps c inv requests) refl
  where
    outcome :
        (r : Result (List LootboxBet × Inventory))
        → start_steps c inv requests ≡ r
        → StartOutcome c inv requests (transact inv r)
    outcome (err e) h = refl
    outcome (ok (bets', inv')) h = with_ok (validate_gamble_start_input requests) _ h λ bets e1 h1.
        with_ok c.get_user _ h1 λ user e2 h2.
          with_ok (required user user_not_found) _ h2 λ u3 e3 h3.
            with_ok c.active_gamble _ h3 λ active e4 h4.
              with_ok (ensure_no_active_gamble active) _ h4 λ u5 e5 h5.
                with_ok (validate_gamble_bets c bets) _ h5 λ ids e6 h6.
                  (bets, e1, stake_steps_lem c inv bets ids c.create_gamble bets' inv' h6 e6)

-- A join that fails leaves the inventory as it was. One that succeeds stores the bets of the first
-- participant who is the initiator, with qualities, and takes from the inventory exactly what they
-- hold, in every quality.
pub join_gamble-JoinOutcome : (c : Calls) (inv : Inventory) → JoinOutcome c inv (join_gamble c inv)
unfolding join_gamble join_steps
join_gamble-JoinOutcome c inv = outcome (join_steps c inv) refl
  where
    outcome :
        (r : Result (List LootboxBet × Inventory))
        → join_steps c inv ≡ r
        → JoinOutcome c inv (transact inv r)
    outcome (err e) h = refl
    outcome (ok (bets', inv')) h = with_ok c.get_user _ h λ user e1 h1.
        with_ok (required user user_not_found) _ h1 λ u2 e2 h2.
          with_ok (get_and_validate_active_gamble c) _ h2 λ g e3 h3.
            with_ok (some_bets (initiator_bets g.initiator_id g.participants)) _ h3 λ bets e4 h4.
              with_ok (validate_gamble_bets c bets) _ h4 λ ids e5 h5.
                let (p, first, same) =
                  some_bets_lem g.initiator_id g.participants
                    (initiator_bets g.initiator_id g.participants) bets refl e4 in
                (
                  g,
                  e3,
                  (p, first, rw same (stake_steps_lem c inv bets ids (ok tt) bets' inv' h5 e5)),
                )
