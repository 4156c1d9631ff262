-- ===== src/Duel/Accepted.antt =====
-- What an accepted duel does to the items of both players and to the duel.
use brandish_bot_go.Prelude.{
  ap, ℕ, ◌+◌, ◌*◌, ◌%◌, ◌^◌, ◌<◌, ◌⊎◌, ◌≤◌, ◌≡◌, ◌≢◌, refl, false, not, Option, none, some, ltb,
  leb, ◌==◌, if◌then◌else◌, arith, Bool-cases, inl, inr,
}
use brandish_bot_go.Prelude.Int.{ltb_ℤ, pos}
use brandish_bot_go.Failure.{
  Result, ok, err, required, fail_if, duel_not_found, duel_not_pending, duel_unauthorized,
  required-eq-ok, fail_if-eq-ok, Result-cases,
}
use brandish_bot_go.Stateful.{lift, run_if, with_run}
use brandish_bot_go.Inventory.{InventorySlot, common}
use brandish_bot_go.Users.{Inventories, add_item_by_username, remove_item_by_username}
use brandish_bot_go.Users.Items.{
  owned, Less, More, AddOutcome, add_item_by_username-AddOutcome, RemoveOutcome,
  remove_item_by_username-RemoveOutcome,
}
use brandish_bot_go.Inventory.Consume.Conservation.{everything}
use brandish_bot_go.Duel.{
  Calls, World, Duel, DuelState, pending, DuelStakes, DuelResult, wager, take_stakes, pay, doubled,
  on_inventories, put_duel, add_loser_timeout, process_duel_stakes, expire, validate_and_get_duel,
  resolve_winner, with_result, accept, is_pending, completed, word,
}

abbrev pub SameRest : World → World → Type 0
SameRest w w' = (w'.duels ≡ w.duels) × (w'.timeouts ≡ w.timeouts)

-- Go's int ends before this number.
abbrev pub int_limit : ℕ
int_limit = 2 ^ 63

-- How many items a wager is of.
abbrev pub staked : Option (ℕ × ℕ) → ℕ
staked none = 0
staked (some (key, n)) = n

-- With twice the wager of the duel the items of no user come near the end of an int.
abbrev pub Fits : World → ℕ → Type 0
Fits w id =
    (d : Duel) (u : ℕ)
    → w.duels id ≡ some d
    → owned w.inventories u everything + staked (wager d.stakes) * 2 < int_limit

-- What take_stakes does when it succeeds.
abbrev pub Took : Calls → ℕ → Option (ℕ × ℕ) → World → World → Type 0
Took c user none w w' = w' ≡ w
Took c user (some (key, n)) w w' =
    (s : InventorySlot) × (c.removing.get_item key ≡ ok (some s.item_id))
    × Less w.inventories w'.inventories (c.named user) s.item_id s.quality_level
        (if leb n s.quantity then n else s.quantity)
    × SameRest w w'

-- What the user gains when the pool of two wagers is paid.
abbrev pub Paid : Calls → ℕ → Option (ℕ × ℕ) → World → World → Type 0
Paid c user none w w' = w' ≡ w
Paid c user (some (key, n)) w w' =
    (item : ℕ) × (c.adding.get_item key ≡ ok (some item))
    × More w.inventories w'.inventories (c.named user) item common (2 * n)
    × SameRest w w'

took :
    (c : Calls) (user key n a : ℕ) (w : World) (r : Result ℕ × Inventories)
    → r.0 ≡ ok a
    → RemoveOutcome c.removing w.inventories (c.named user) key n r
    → Took c user (some (key, n)) w (record w { inventories = r.1 })
took c user key n a w (err e, i) h o = cc
took c user key n a w (ok b, i) h (s, found, eb, taken) = (s, found, rw (← eb) taken, (refl, refl))

pub take_stakes-Took :
    (c : Calls) (user : ℕ) (o : Option (ℕ × ℕ)) (w w' : World) (v : Unit {0})
    → take_stakes c user o w ≡ (ok v, w')
    → Took c user o w w'
take_stakes-Took c user none w w' v h = cc
take_stakes-Took c user (some (key, n)) w w' v h =
    with_run (on_inventories (λ i. remove_item_by_username c.removing i (c.named user) key n) w) _ h
      λ a w1 e1 h1.
        let r : Result ℕ × Inventories =
          remove_item_by_username c.removing w.inventories (c.named user) key n in
        let e : record w { inventories = r.1 } ≡ w' = cc in
        let ea : r.0 ≡ ok a = cc in
        rw (← e) (
          took c user key n a w r ea
            (remove_item_by_username-RemoveOutcome c.removing w.inventories (c.named user) key n))

paid :
    (c : Calls) (user key n : ℕ) (w : World) (v : Unit {0}) (r : Result (Unit {0}) × Inventories)
    → r.0 ≡ ok v
    → n * 2 < int_limit
    → AddOutcome c.adding w.inventories (c.named user) key (n * 2 % word) r
    → Paid c user (some (key, n)) w (record w { inventories = r.1 })
paid c user key n w v (err e, i) h fits o = cc
paid c user key n w v (ok b, i) h fits (item, found, added) =
    let e : n * 2 % word ≡ 2 * n = omega (arith, fits) in (item, found, rw e at added, (refl, refl))

pub pay-Paid :
    (c : Calls) (user : ℕ) (o : Option (ℕ × ℕ)) (w w' : World) (v : Unit {0})
    → pay c user (doubled o) w ≡ (ok v, w')
    → staked o * 2 < int_limit
    → Paid c user o w w'
pay-Paid c user none w w' v h fits = cc
pay-Paid c user (some (key, n)) w w' v h fits =
    let r : Result (Unit {0}) × Inventories =
      add_item_by_username c.adding w.inventories (c.named user) key (n * 2 % word) in
    let e : record w { inventories = r.1 } ≡ w' = cc in
    let ea : r.0 ≡ ok v = cc in
    rw (← e) (
      paid c user key n w v r ea fits
        (add_item_by_username-AddOutcome c.adding w.inventories (c.named user) key (n * 2 % word)))

-- What validateAndGetDuel has checked when it succeeds, without a change of the store.
pub record Valid (c : Calls) (id : ℕ) (w : World) (d : Duel) (opponent : ℕ) : Type 0 where
  pub is_found : w.duels id ≡ some d
  pub is_waiting : d.state ≡ pending
  pub in_time : c.now ≤ d.expires_at
  pub is_opponent : d.opponent_id ≡ some opponent
  pub is_caller : c.caller ≡ ok opponent

is_pending_eq : (s : DuelState) → not (is_pending s) ≡ false → s ≡ pending
is_pending_eq s h = ground arith

expire_fails :
    (c : Calls) (id : ℕ) (d : Duel) (w w' : World) (v : Unit {0}) → expire c id d w ≢ (ok v, w')
expire_fails c id d w w' v h = elim (Result-cases c.update_duel_state) [
  | inl (e, q) ↦ (let h' = rw q at h in cc)
  | inr (u, q) ↦ elim (Result-cases c.commit) [
    | inl (e, q') ↦ (let h' = rw (q, q') at h in cc)
    | inr (u', q') ↦ (let h' = rw (q, q') at h in cc)
  ]
]

expiry_lem :
    (c : Calls) (id : ℕ) (d : Duel) (w w' : World) (v : Unit {0})
    → run_if (ltb d.expires_at c.now) (expire c id d) w ≡ (ok v, w')
    → (c.now ≤ d.expires_at) × (w' ≡ w)
expiry_lem c id d w w' v h = elim (Bool-cases (ltb d.expires_at c.now)) [
  | inl late ↦ elim (expire_fails c id d w w' v (rw late at h)) [ ]
  | inr in_time ↦ (ground arith, kept (rw in_time at h))
]
  where
    kept : Path (Result (Unit {0}) × World) (ok tt, w) (ok v, w') → w' ≡ w
    kept e = cc

pub validate_and_get_duel-Valid :
    (c : Calls) (id : ℕ) (w w' : World) (d : Duel) (opponent : ℕ)
    → validate_and_get_duel c id w ≡ (ok (d, opponent), w')
    → Valid c id w d opponent × (w' ≡ w)
unfolding validate_and_get_duel
validate_and_get_duel-Valid c id w w' d opponent h = with_run (lift c.get_duel w) _ h λ u1 w1 e1 h1.
    with_run (lift (required (w1.duels id) duel_not_found) w1) _ h1 λ found w3 e3 h3.
      with_run (lift (fail_if (not (is_pending found.state)) duel_not_pending) w3) _ h3
        λ u4 w4 e4 h4.
          with_run (run_if (ltb found.expires_at c.now) (expire c id found) w4) _ h4 λ u5 w5 e5 h5.
            with_run (lift c.caller w5) _ h5 λ caller w6 e6 h6.
              with_run (lift (required found.opponent_id duel_unauthorized) w6) _ h6 λ opp w7 e7 h7.
                with_run (lift (fail_if (not (caller == opp)) duel_unauthorized) w7) _ h7
                  λ u8 w8 e8 h8.
                    let (timely, same5) = expiry_lem c id found w4 w5 u5 e5 in
                    let start : w1 ≡ w = cc in
                    let ed : found ≡ d = cc in
                    let eo : opp ≡ opponent = cc in
                    let row : w1.duels id ≡ some found =
                      required-eq-ok (w1.duels id) duel_not_found cc in
                    let waiting : not (is_pending found.state) ≡ false =
                      fail_if-eq-ok (not (is_pending found.state)) duel_not_pending cc in
                    let named : found.opponent_id ≡ some opp =
                      required-eq-ok found.opponent_id duel_unauthorized cc in
                    let same_user : not (caller == opp) ≡ false =
                      fail_if-eq-ok (not (caller == opp)) duel_unauthorized cc in
                    let is_opp : caller ≡ opp = ground arith in
                    let called : c.caller ≡ ok caller = cc in
                    (
                      record {
                        is_found = rw (← start, ← ed) row;
                        is_waiting = rw (← ed) (is_pending_eq found.state waiting);
                        in_time = rw (← ed) timely;
                        is_opponent = rw (← ed, ← eo) named;
                        is_caller = rw (← eo, ← is_opp) called;
                      },
                      cc,
                    )

-- An accepted duel, from the store `w` to the store `w'`: the stakes are taken from the opponent
-- in between, and twice the wager is paid to the winner.
pub record Accepted (c : Calls) (id : ℕ) (w : World) (r : DuelResult) (w' : World) : Type 0 where
  pub duel : Duel
  pub opponent : ℕ
  pub is_valid : Valid c id w duel opponent
  pub between : World
  pub stakes_taken : Took c opponent (wager duel.stakes) w between
  pub settled : World
  pub winner_paid : Paid c r.winner_id (wager duel.stakes) between settled
  pub same_items : w'.inventories ≡ settled.inventories
  pub fits : (u : ℕ) → owned w'.inventories u everything < int_limit
  pub players :
      ((c.coin ≡ 0) × (r.winner_id ≡ duel.challenger_id) × (r.loser_id ≡ opponent))
      ⊎ ((c.coin ≢ 0) × (r.winner_id ≡ opponent) × (r.loser_id ≡ duel.challenger_id))
  pub is_completed :
      (i : ℕ)
      → w'.duels i
        ≡ (if i == id then some (record duel { state = completed; result = some r }) else w.duels i)

flip_lem :
    (c : Calls) (challenger opponent : ℕ)
    → let players = resolve_winner c challenger opponent in
      ((c.coin ≡ 0) × (players.0 ≡ challenger) × (players.1 ≡ opponent))
      ⊎ ((c.coin ≢ 0) × (players.0 ≡ opponent) × (players.1 ≡ challenger))
flip_lem c challenger opponent = elim (Bool-cases (c.coin == 0)) [
  | inl heads ↦ rw heads (inl (ground (arith, heads), refl, refl))
  | inr tails ↦ rw tails (inr (λ e. ground (arith, tails, e), refl, refl))
]

-- Nobody's items come near the end of an int.
fits_lem :
    (c : Calls) (loser winner : ℕ) (o : Option (ℕ × ℕ)) (w w1 w2 : World) (u : ℕ)
    → Took c loser o w w1
    → Paid c winner o w1 w2
    → owned w.inventories u everything + staked o * 2 < int_limit
    → owned w2.inventories u everything < int_limit
fits_lem c loser winner none w w1 w2 u took paid h = let e : w2 ≡ w = cc in rw e (omega (arith, h))
fits_lem c loser winner (some (key, n)) w w1 w2 u (s, found, less, rest) (item, found', more, rest')
      h =
    let a = less u everything in let b = more u everything in ground (arith, a, b, h)

timeout_lem :
    (c : Calls) (d : DuelStakes) (loser : ℕ) (w w' : World) (v : Unit {0})
    → add_loser_timeout c loser d.timeout_duration w ≡ (ok v, w')
    → (w'.inventories ≡ w.inventories) × (w'.duels ≡ w.duels)
timeout_lem c d loser w w' v h = elim (Bool-cases (ltb_ℤ (pos 0) d.timeout_duration)) [
  | inl some_time ↦ (let e = rw some_time at h in (cc, cc))
  | inr no_time ↦ (let e = rw no_time at h in (cc, cc))
]

pub Took-duels :
    (c : Calls) (user : ℕ) (o : Option (ℕ × ℕ)) (w w' : World)
    → Took c user o w w'
    → w'.duels ≡ w.duels
Took-duels c user none w w' t = cc
Took-duels c user (some (key, n)) w w' (s, found, less, rest) = rest.0

Paid-duels :
    (c : Calls) (user : ℕ) (o : Option (ℕ × ℕ)) (w w' : World)
    → Paid c user o w w'
    → w'.duels ≡ w.duels
Paid-duels c user none w w' t = cc
Paid-duels c user (some (key, n)) w w' (s, found, more, rest) = rest.0

-- Where twice the wager of the duel fits in an int with what any user has, Accept succeeds only for a
-- pending duel that has not expired, called by its opponent. The user found by the opponent's name
-- loses what was taken for the wager, the one found by the name of the winner of the coin flip gains
-- twice the wager, and nobody has more than an int can hold; the duel is completed with that winner,
-- and no other duel changes.
pub accept-Accepted :
    (c : Calls) (id : ℕ) (w w' : World) (r : DuelResult)
    → Fits w id
    → accept c id w ≡ (ok r, w')
    → Accepted c id w r w'
unfolding accept process_duel_stakes
accept-Accepted c id w w' r small h = with_run (lift c.begin_tx w) _ h λ u1 w1 e1 h1.
    with_run (validate_and_get_duel c id w1) _ h1 λ found w2 e2 h2.
      with_run (lift c.get_challenger w2) _ h2 λ u3 w3 e3 h3.
        with_run (take_stakes c found.1 (wager found.0.stakes) w3) _ h3 λ u4 w4 e4 h4.
          let players : ℕ × ℕ = resolve_winner c found.0.challenger_id found.1 in
          with_run (process_duel_stakes c found.0.stakes players.0 players.1 w4) _ h4 λ u5 w5 e5 h5.
            with_run (lift c.accept_duel w5) _ h5 λ u6 w6 e6 h6.
              with_run (lift c.commit w6) _ h6 λ u7 w7 e7 h7.
                with_run (pay c players.0 (doubled (wager found.0.stakes)) w4) _ e5 λ u8 w8 e8 h8.
                  let (valid, same2) = validate_and_get_duel-Valid c id w1 w2 found.0 found.1 e2 in
                  let (items, rows) = timeout_lem c found.0.stakes players.1 w8 w5 u5 h8 in
                  let start : w1 ≡ w = cc in
                  let before : w3 ≡ w = cc in
                  let taken : Took c found.1 (wager found.0.stakes) w w4 =
                    rw before at (take_stakes-Took c found.1 (wager found.0.stakes) w3 w4 u4 e4) in
                  let row : w.duels id ≡ some found.0 = rw start at valid.is_found in
                  let fits = λ (u : ℕ). small found.0 u row in
                  let gained : Paid c players.0 (wager found.0.stakes) w4 w8 =
                    pay-Paid c players.0 (wager found.0.stakes) w4 w8 u8 e8
                      (omega (arith, fits 0)) in
                  let d4 : w4.duels ≡ w.duels =
                    Took-duels c found.1 (wager found.0.stakes) w w4 taken in
                  let d8 : w8.duels ≡ w4.duels =
                    Paid-duels c players.0 (wager found.0.stakes) w4 w8 gained in
                  let end : put_duel id (with_result found.0 players) w5 ≡ w' = cc in
                  let ew : players.0 ≡ r.winner_id = cc in
                  let el : players.1 ≡ r.loser_id = cc in
                  let d5 : w5.duels ≡ w.duels = cc in
                  record {
                    duel = found.0;
                    opponent = found.1;
                    is_valid = rw start at valid;
                    between = w4;
                    stakes_taken = taken;
                    settled = w8;
                    winner_paid = rw ew at gained;
                    same_items = rw (← end) items;
                    fits = λ u.
                        rw (← end, items)
                          (fits_lem c found.1 players.0 (wager found.0.stakes) w w4 w8 u taken
                            gained (fits u));
                    players = rw (← ew, ← el) (flip_lem c found.0.challenger_id found.1);
                    is_completed = λ i. rw (← end, ← ew, ← el, ← ap (λ f. f i) d5) refl;
                  }
