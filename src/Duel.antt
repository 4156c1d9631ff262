-- ===== src/Duel.antt =====
-- internal/duel/service.go: challenges, escrowed stakes and the coin flip.
--
-- A handler runs as one step on the store. The duel row changes only in the transaction; items and
-- timeouts are changed through the user service, outside of it, and stay when the handler fails
-- later. An item's name and key are one number. The user service is called with the name of a user on
-- the platform of the caller; `named` is the user that it finds there. Quantities are natural numbers,
-- and their sums do not wrap; a product with a wager, which has no limit, has the 64 bits of an int.
pub mod Accepted
pub mod Escrow
use brandish_bot_go.Prelude.{
  ℕ, ◌+◌, ◌-◌, ◌*◌, ◌%◌, ◌^◌, Bool, true, false, not, ◌&&◌, Option, none, some, ltb, leb, ◌==◌,
  if◌then◌else◌,
}
use brandish_bot_go.Prelude.Int.{ℤ, pos, pos_part, ltb_ℤ}
use brandish_bot_go.Failure.{
  Result, ok, err, storage, duel_not_found, duel_not_pending, duel_expired, duel_unauthorized,
  required, fail_if,
}
use brandish_bot_go.Stateful.{Run, ◌>>=◌, ◌>>◌, continue, return, lift, get, modify, run_if, ignore}
use brandish_bot_go.Users
use brandish_bot_go.Users.{
  Inventories, Timeouts, add_item_by_username, remove_item_by_username, add_timeout,
}

pub data DuelState : Type 0 where
  pending accepted in_progress completed declined expired : DuelState

pub record DuelStakes : Type 0 where
  pub timeout_duration : ℤ  -- seconds
  pub wager_item_key : Option ℕ  -- none is the empty key
  pub wager_amount : ℤ

pub record DuelResult : Type 0 where
  pub winner_id : ℕ
  pub loser_id : ℕ

pub record Duel : Type 0 where
  pub challenger_id : ℕ
  pub opponent_id : Option ℕ
  pub state : DuelState
  pub stakes : DuelStakes
  pub expires_at : ℕ
  pub result : Option DuelResult

pub record World : Type 0 where
  pub inventories : Inventories
  pub duels : ℕ → Option Duel
  pub timeouts : Timeouts

-- The answers of the other services and of the repository during one handler.
pub record Calls : Type 0 where
  pub now : ℕ
  pub caller : Result ℕ  -- FindUserByPlatformID
  pub opponent : Result ℕ  -- GetUserByPlatformUsername
  pub parse_ids : Result (Unit {0})
  pub create_duel : Result (Unit {0})
  pub begin_tx : Result (Unit {0})
  pub get_duel : Result (Unit {0})
  pub get_challenger : Result (Unit {0})  -- GetUserByID
  pub update_duel_state : Result (Unit {0})
  pub accept_duel : Result (Unit {0})
  pub commit : Result (Unit {0})
  pub coin : ℕ  -- rand.Int below 2
  pub named : ℕ → ℕ
  pub removing : Users.Calls
  pub adding : Users.Calls

abbrev pub put_duel : ℕ → Duel → World → World
put_duel id d w = record w { duels = λ i. if i == id then some d else w.duels i }

-- A call of the user service.
abbrev pub on_inventories {ℓ} : {A : Type ℓ} → (Inventories → Result A × Inventories) → Run World A
on_inventories f = λ w. let (r, i) = f w.inventories in (r, record w { inventories = i })

-- `stakes.WagerItemKey != "" && stakes.WagerAmount > 0`, with the key and the amount.
abbrev pub wager : DuelStakes → Option (ℕ × ℕ)
wager s = elim s.wager_item_key [
  | none ↦ none
  | some key ↦ if ltb_ℤ (pos 0) s.wager_amount then some (key, pos_part s.wager_amount) else none
]

-- Of what RemoveItemByUsername returns only the error is read.
abbrev pub take_stakes : Calls → ℕ → Option (ℕ × ℕ) → Run World (Unit {0})
take_stakes c user none = return tt
take_stakes c user (some (key, n)) = do
  on_inventories (λ i. remove_item_by_username c.removing i (c.named user) key n)
  return tt

abbrev pub pay : Calls → ℕ → Option (ℕ × ℕ) → Run World (Unit {0})
pay c user none = return tt
pay c user (some (key, n)) =
    on_inventories (λ i. add_item_by_username c.adding i (c.named user) key n)

abbrev pub word : ℕ
word = 2 ^ 64

-- From half of `word` on the product is negative, which no quantity of the model is.
abbrev pub doubled : Option (ℕ × ℕ) → Option (ℕ × ℕ)
doubled none = none
doubled (some (key, n)) = some (key, n * 2 % word)

abbrev pub new_duel : ℕ → ℕ → DuelStakes → ℕ → Duel
new_duel challenger opponent stakes expires_at = record {
  challenger_id = challenger;
  opponent_id = some opponent;
  state = pending;
  stakes = stakes;
  expires_at = expires_at;
  result = none;
}

-- CreateDuel, with the refund when it fails.
abbrev create : Calls → ℕ → Duel → Run World Duel
create c id d = elim c.create_duel [
  | ok u ↦ (modify (put_duel id d) >> return d)
  | err e ↦ (ignore (pay c d.challenger_id (wager d.stakes)) >> lift (err e))
]

-- `Challenge`; `id` is the new duel's id.
unfoldable pub challenge : ℕ → Calls → ℕ → DuelStakes → Run World Duel
challenge expire_duration c id stakes = do
  challenger ← lift c.caller
  opponent ← lift c.opponent
  lift c.parse_ids
  take_stakes c challenger (wager stakes)
  create c id (new_duel challenger opponent stakes (c.now + expire_duration))

abbrev pub add_loser_timeout : Calls → ℕ → ℤ → Run World (Unit {0})
add_loser_timeout c loser seconds =
    run_if (ltb_ℤ (pos 0) seconds)
      (modify λ w. record w { timeouts = add_timeout c.now w.timeouts loser (pos_part seconds) })

-- `processDuelStakes`
unfoldable pub process_duel_stakes : Calls → DuelStakes → ℕ → ℕ → Run World (Unit {0})
process_duel_stakes c stakes winner loser = do
  pay c winner (doubled (wager stakes))
  add_loser_timeout c loser stakes.timeout_duration

abbrev is_pending : DuelState → Bool
is_pending pending = true
is_pending _ = false

-- An expired duel is marked so, and that is committed before the error is returned.
abbrev pub expire : Calls → ℕ → Duel → Run World (Unit {0})
expire c id d = elim c.update_duel_state [
  | err e ↦ lift (err duel_expired)
  | ok u ↦ elim c.commit [
    | err e ↦ lift (err duel_expired)
    | ok u ↦ (modify (put_duel id (record d { state = expired })) >> lift (err duel_expired))
  ]
]

-- `validateAndGetDuel`: the duel and the opponent.
unfoldable pub validate_and_get_duel : Calls → ℕ → Run World (Duel × ℕ)
validate_and_get_duel c id = do
  lift c.get_duel
  w ← get
  d ← lift (required (w.duels id) duel_not_found)
  lift (fail_if (not (is_pending d.state)) duel_not_pending)
  run_if (ltb d.expires_at c.now) (expire c id d)
  caller ← lift c.caller
  opponent ← lift (required d.opponent_id duel_unauthorized)
  lift (fail_if (not (caller == opponent)) duel_unauthorized)
  return (d, opponent)

-- `resolveWinner`: the winner and the loser.
abbrev pub resolve_winner : Calls → ℕ → ℕ → ℕ × ℕ
resolve_winner c challenger opponent =
    if c.coin == 0 then (challenger, opponent) else (opponent, challenger)

abbrev pub with_result : Duel → ℕ × ℕ → Duel
with_result d (winner, loser) = record d {
  state = completed;
  result = some (record { winner_id = winner; loser_id = loser });
}

-- `Accept`
unfoldable pub accept : Calls → ℕ → Run World DuelResult
unfolding validate_and_get_duel process_duel_stakes
accept c id = do
  lift c.begin_tx
  found ← validate_and_get_duel c id
  lift c.get_challenger
  take_stakes c found.1 (wager found.0.stakes)
  let players = resolve_winner c found.0.challenger_id found.1
  process_duel_stakes c found.0.stakes players.0 players.1
  lift c.accept_duel
  lift c.commit
  modify (put_duel id (with_result found.0 players))
  return (record { winner_id = players.0; loser_id = players.1 })

-- The refund of `Decline`: whatever the duel's state, and whoever calls.
abbrev pub refund : Calls → Option Duel → Run World (Unit {0})
refund c none = return tt
refund c (some d) = elim c.get_duel [
  | err e ↦ return tt
  | ok u ↦ elim c.get_challenger [
    | err e ↦ return tt
    | ok u ↦ ignore (pay c d.challenger_id (wager d.stakes))
  ]
]

-- UpdateDuelState and the commit, whose error is dropped. A missing row is no error.
abbrev pub mark_declined : Calls → ℕ → World → World
mark_declined c id w = elim (w.duels id) [
  | none ↦ w
  | some d ↦ elim c.commit [ err e ↦ w | ok u ↦ put_duel id (record d { state = declined }) w ]
]

-- `Decline`
unfoldable pub decline : Calls → ℕ → Run World (Unit {0})
decline c id = do
  lift c.begin_tx
  w ← get
  refund c (w.duels id)
  lift c.update_duel_state
  modify (mark_declined c id)
