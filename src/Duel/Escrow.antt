-- ===== src/Duel/Escrow.antt =====
-- The challenger's stake: taken by a challenge, given back by a decline.
use brandish_bot_go.Prelude.{
  ap, ℕ, zero, suc, ◌+◌, ◌*◌, ◌<◌, ◌≡◌, refl, sym, Bool, some, ◌==◌, if◌then◌else◌, arith, inl, inr,
}
use brandish_bot_go.Failure.{Result, ok, Result-cases}
use brandish_bot_go.Stateful.{lift, with_run}
use brandish_bot_go.Inventory.{QualityLevel, common}
use brandish_bot_go.Users.{add_item_by_username, add_item_to_user, write, store_item}
use brandish_bot_go.Users.Items.{owned, amount-store_item}
use brandish_bot_go.Duel.{
  Calls, World, Duel, declined, DuelStakes, wager, take_stakes, pay, on_inventories, put_duel,
  new_duel, create, challenge, refund, mark_declined, decline,
}
use brandish_bot_go.Inventory.Consume.Conservation.{everything}
use brandish_bot_go.Duel.Accepted.{int_limit, Took, Took-duels, take_stakes-Took}

-- A challenge that succeeds, from the store `w` to the store `w'`.
pub record Opened (expire_duration : ℕ) (c : Calls) (id : ℕ) (stakes : DuelStakes) (w : World)
    (d : Duel) (w' : World) : Type 0 where
  pub challenger : ℕ
  pub opponent : ℕ
  pub is_caller : c.caller ≡ ok challenger
  pub is_named : c.opponent ≡ ok opponent
  pub between : World
  pub stakes_taken : Took c challenger (wager stakes) w between
  pub same_items : w'.inventories ≡ between.inventories
  pub is_new : d ≡ new_duel challenger opponent stakes (c.now + expire_duration)
  pub is_stored : (i : ℕ) → w'.duels i ≡ (if i == id then some d else w.duels i)

create_lem :
    (c : Calls) (id : ℕ) (d d' : Duel) (w w' : World)
    → create c id d w ≡ (ok d', w')
    → (d ≡ d') × (put_duel id d w ≡ w')
create_lem c id d d' w w' h = elim (Result-cases c.create_duel) [
  | inl (e, q) ↦ (let h' = rw q at h in cc)
  | inr (u, q) ↦ made (rw q at h)
]
  where
    made :
        Path (Result Duel × World) (ok d, put_duel id d w) (ok d', w')
        → (d ≡ d') × (put_duel id d w ≡ w')
    made e = (cc, cc)

-- A challenge that succeeds takes the stake from the caller and stores a pending duel between the
-- caller and the named opponent, which ends after the configured time; no other duel changes.
challenge-Opened :
    (expire_duration : ℕ) (c : Calls) (id : ℕ) (stakes : DuelStakes) (w w' : World) (d : Duel)
    → challenge expire_duration c id stakes w ≡ (ok d, w')
    → Opened expire_duration c id stakes w d w'
unfolding challenge
challenge-Opened expire_duration c id stakes w w' d h =
    with_run (lift c.caller w) _ h λ challenger w1 e1 h1.
      with_run (lift c.opponent w1) _ h1 λ opponent w2 e2 h2.
        with_run (lift c.parse_ids w2) _ h2 λ u3 w3 e3 h3.
          with_run (take_stakes c challenger (wager stakes) w3) _ h3 λ u4 w4 e4 h4.
            let fresh : Duel = new_duel challenger opponent stakes (c.now + expire_duration) in
            let (ed, ew) = create_lem c id fresh d w4 w' h4 in
            let start : w3 ≡ w = cc in
            let taken : Took c challenger (wager stakes) w w4 =
              rw start at (take_stakes-Took c challenger (wager stakes) w3 w4 u4 e4) in
            let rows : w4.duels ≡ w.duels = Took-duels c challenger (wager stakes) w w4 taken in
            record {
              challenger = challenger;
              opponent = opponent;
              is_caller = cc;
              is_named = cc;
              between = w4;
              stakes_taken = taken;
              same_items = rw (← ew) refl;
              is_new = sym ed;
              is_stored = λ i. rw (← ew, ← ed, ← ap (λ f. f i) rows) refl;
            }

-- Every service and the storage answer during a decline, and the wagered key is `item`.
pub record Answers (c : Calls) (key item : ℕ) : Type 0 where
  pub begun : c.begin_tx ≡ ok tt
  pub got : c.get_duel ≡ ok tt
  pub known : c.get_challenger ≡ ok tt
  pub updated : c.update_duel_state ≡ ok tt
  pub user_known : c.adding.get_user ≡ ok tt
  pub item_known : c.adding.get_item key ≡ ok (some item)
  pub tx : c.adding.begin_tx ≡ ok tt
  pub inventory_read : c.adding.get_inventory ≡ ok tt
  pub inventory_written : c.adding.update_inventory ≡ ok tt
  pub committed : c.adding.commit ≡ ok tt

-- The stored duel of challenger `user` with the stakes `s`, in any state.
abbrev pub HasDuel : World → ℕ → ℕ → DuelStakes → Type 0
HasDuel w id user s = (d : Duel) × (w.duels id ≡ some d) × (d.challenger_id ≡ user) × (d.stakes ≡ s)

add_lem :
    (c : Calls) (w : World) (user key item n : ℕ)
    → Answers c key item
    → add_item_by_username c.adding w.inventories user key n
      ≡ (ok tt, write w.inventories user (store_item (w.inventories user) item n common))
unfolding add_item_by_username add_item_to_user
add_lem c w user key item n a =
    rw (a.user_known, a.item_known, a.tx, a.inventory_read, a.inventory_written, a.committed) refl

refunded : World → ℕ → ℕ → ℕ → World
refunded w user item n = record w {
  inventories = write w.inventories user (store_item (w.inventories user) item n common);
}

refund_lem :
    (c : Calls) (w : World) (key item n : ℕ) (d : Duel)
    → Answers c key item
    → wager d.stakes ≡ some (key, n)
    → refund c (some d) w ≡ (ok tt, refunded w (c.named d.challenger_id) item n)
unfolding refunded
refund_lem c w key item n d a e =
    rw (a.got, a.known, e, pay, on_inventories, add_lem c w (c.named d.challenger_id) key item n a)
      refl

marked_has :
    (c : Calls) (id user : ℕ) (s : DuelStakes) (w : World)
    → HasDuel w id user s
    → HasDuel (mark_declined c id w) id user s
      × ((mark_declined c id w).inventories ≡ w.inventories)
marked_has c id user s w (d, e, eu, es) = elim (Result-cases c.commit) [
  | inl (x, q) ↦ rw (mark_declined, e, q) ((d, e, eu, es), refl)
  | inr (x, q) ↦
      rw (mark_declined, e, q) ((record d { state = declined }, ground arith, eu, es), refl)
]

-- One decline after another.
abbrev pub declines : Calls → ℕ → ℕ → World → World
declines c id zero w = w
declines c id (suc k) w = declines c id k (decline c id w).1

decline_lem :
    (c : Calls) (id user key item n : ℕ) (s : DuelStakes) (w : World)
    → Answers c key item
    → wager s ≡ some (key, n)
    → HasDuel w id user s
    → HasDuel (decline c id w).1 id user s
      × ((p : ℕ → QualityLevel → Bool)
          → owned (decline c id w).1.inventories (c.named user) p
            ≡ owned w.inventories (c.named user) p + (if p item common then n else 0))
unfolding decline refunded
decline_lem c id user key item n s w a ew (d, e, eu, es) =
    let w1 : World = refunded w (c.named user) item n in
    let ew' : wager d.stakes ≡ some (key, n) = rw es ew in
    let (has, same) = marked_has c id user s w1 (d, e, eu, es) in
    let run : (decline c id w).1 ≡ mark_declined c id w1 =
      rw (a.begun, e, refund_lem c w key item n d a ew', eu, a.updated) refl in
    (
      rw run has,
      λ p.
          rw (run, same)
            (ground (arith, amount-store_item p (w.inventories (c.named user)) item n common)),
    )

paid_back :
    (c : Calls) (id user key item n : ℕ) (s : DuelStakes) (k : ℕ) (w : World)
    → Answers c key item
    → wager s ≡ some (key, n)
    → HasDuel w id user s
    → (p : ℕ → QualityLevel → Bool)
    → owned (declines c id k w).inventories (c.named user) p
      ≡ owned w.inventories (c.named user) p + (if p item common then k * n else 0)
paid_back c id user key item n s zero w a ew has p = ground arith
paid_back c id user key item n s (suc k) w a ew has p =
    let (has', more) = decline_lem c id user key item n s w a ew has in
    ground (arith, paid_back c id user key item n s k (decline c id w).1 a ew has' p, more p)

-- Decline gives the stake back whatever state the duel is in and whoever calls: where all services
-- answer, and `k` times the wager fits in an int with what the user has, `k` declines of one duel add
-- `k` times the wager to the user that the challenger's name finds, and that still fits in an int.
pub declines-refund :
    (c : Calls) (id user key item n : ℕ) (s : DuelStakes) (k : ℕ) (w : World)
    → Answers c key item
    → wager s ≡ some (key, n)
    → HasDuel w id user s
    → owned w.inventories (c.named user) everything + k * n < int_limit
    → ((p : ℕ → QualityLevel → Bool)
        → owned (declines c id k w).inventories (c.named user) p
          ≡ owned w.inventories (c.named user) p + (if p item common then k * n else 0))
      × (owned (declines c id k w).inventories (c.named user) everything < int_limit)
declines-refund c id user key item n s k w a ew has fits =
    let paid = paid_back c id user key item n s k w a ew has in
    (paid, omega (arith, paid everything, fits))
