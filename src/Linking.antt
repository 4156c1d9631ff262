-- ===== src/Linking.antt =====
-- internal/linking: accounts of two platforms are linked in three steps through a token, and
-- unlinked in two through a cache.
--
-- Times are nanoseconds; strings are numbers, 0 the empty string. The table of tokens has the newest
-- first; its operations are the queries of internal/database/queries/linking.sql, where the primary
-- key lets one row at most have a token.
pub mod Confirm
pub mod Tokens
pub mod Steps
pub mod Links
pub mod Unlinks
use brandish_bot_go.Prelude.{
  ℕ, ◌+◌, Bool, true, false, not, ◌&&◌, Option, none, some, List, [], ◌∷◌, ◌++◌, ltb, ◌==◌,
  if◌then◌else◌,
}
use brandish_bot_go.Failure.{
  Result, ok, err, storage, user_not_found, token_not_found, token_already_used, token_expired,
  cannot_link_same_account, no_pending_link, link_token_expired, no_pending_unlink,
}
use brandish_bot_go.Stateful.{Run, ◌>>=◌, ◌>>◌, return, lift, get, modify, run_if, ignore, continue}
use brandish_bot_go.Crafting.{platform_twitch, platform_discord, platform_youtube}

pub data TokenState : Type 0 where
  pending claimed confirmed expired : TokenState

pub record LinkToken : Type 0 where
  pub token : ℕ
  pub source_platform : ℕ
  pub source_platform_id : ℕ
  pub target_platform : ℕ
  pub target_platform_id : ℕ
  pub state : TokenState
  pub expires_at : ℕ

abbrev pub Table : Type 0
Table = List LinkToken

-- 10 minutes, and 60 seconds.
abbrev pub token_expiration : ℕ
token_expiration = 600000000000

abbrev pub unlink_timeout : ℕ
unlink_timeout = 60000000000

abbrev pub is_pending : TokenState → Bool
is_pending pending = true
is_pending claimed = false
is_pending confirmed = false
is_pending expired = false

abbrev pub is_claimed : TokenState → Bool
is_claimed pending = false
is_claimed claimed = true
is_claimed confirmed = false
is_claimed expired = false

abbrev pub is_source : ℕ → ℕ → LinkToken → Bool
is_source platform id t = t.source_platform == platform && t.source_platform_id == id

-- `GetToken`
abbrev pub find_token : Table → ℕ → Option LinkToken
find_token [] name = none
find_token (t ∷ ts) name = if t.token == name then some t else find_token ts name

-- `UpdateToken`
abbrev pub update_token : LinkToken → Table → Table
update_token t [] = []
update_token t (r ∷ rs) =
    if r.token == t.token
    then record r {
      target_platform = t.target_platform;
      target_platform_id = t.target_platform_id;
      state = t.state;
    }
      ∷ rs
    else r ∷ update_token t rs

abbrev pub ended : TokenState → TokenState
ended pending = expired
ended claimed = expired
ended confirmed = confirmed
ended expired = expired

-- `InvalidateTokensForSource`
abbrev pub invalidate_tokens_for_source : ℕ → ℕ → Table → Table
invalidate_tokens_for_source platform id [] = []
invalidate_tokens_for_source platform id (t ∷ ts) =
    (if is_source platform id t then record t { state = ended t.state } else t)
    ∷ invalidate_tokens_for_source platform id ts

-- `GetClaimedTokenForSource`
abbrev pub find_claimed : ℕ → ℕ → Table → Option LinkToken
find_claimed platform id [] = none
find_claimed platform id (t ∷ ts) =
    if is_source platform id t && is_claimed t.state then some t else find_claimed platform id ts

-- `CreateToken`: a token that is there already violates the primary key.
abbrev pub create_token : LinkToken → Table → Result (Unit {0}) × Table
create_token t ts = elim (find_token ts t.token) [
  | none ↦ (ok tt, t ∷ ts)
  | some r ↦ (err storage, ts)
]

-- A write of the storage that answers `r`.
abbrev pub written : Result (Unit {0}) → (Table → Table) → Run Table (Unit {0})
written (err e) f = lift (err e)
written (ok u) f = modify f

-- `generate` is `generateToken`, `upper` is strings.ToUpper.
pub record Calls : Type 0 where
  pub generate : Result ℕ
  pub upper : ℕ → ℕ
  pub invalidate : Result (Unit {0})
  pub create : Result (Unit {0})
  pub read : Result (Unit {0})
  pub update : Result (Unit {0})

abbrev pub new_token : ℕ → ℕ → ℕ → ℕ → LinkToken
new_token name platform id now = record {
  token = name;
  source_platform = platform;
  source_platform_id = id;
  target_platform = 0;
  target_platform_id = 0;
  state = pending;
  expires_at = now + token_expiration;
}

abbrev pub stored_token : Calls → LinkToken → Run Table LinkToken
stored_token c t = lift c.create >> (create_token t >> return t)

-- `InitiateLink`: an error of the invalidation is logged.
unfoldable pub initiate_link : Calls → ℕ → ℕ → ℕ → Run Table LinkToken
initiate_link c now platform id =
    ignore (written c.invalidate (invalidate_tokens_for_source platform id))
    >> (lift c.generate >>= λ name. stored_token c (new_token name platform id now))

-- A token past its time is marked, the error of that write is logged.
abbrev pub expire : Calls → LinkToken → Run Table (Unit {0})
expire c t = ignore (written c.update (update_token (record t { state = expired })))

-- The rest of `ClaimLink`, once the token is read.
abbrev pub claim_token : Calls → ℕ → ℕ → ℕ → LinkToken → Run Table LinkToken
claim_token c now platform id t =
    if not (is_pending t.state)
    then lift (err token_already_used)
    else if ltb t.expires_at now
    then expire c t >> lift (err token_expired)
    else if is_source platform id t
    then lift (err cannot_link_same_account)
    else let taken = record t {
      target_platform = platform;
      target_platform_id = id;
      state = claimed;
    } in
      written c.update (update_token taken) >> return taken

abbrev pub claim_found : Calls → ℕ → ℕ → ℕ → Option LinkToken → Run Table LinkToken
claim_found c now platform id none = lift (err token_not_found)
claim_found c now platform id (some t) = claim_token c now platform id t

abbrev pub found_if : Result (Unit {0}) → Option LinkToken → Option LinkToken
found_if (err e) o = none
found_if (ok u) o = o

-- `ClaimLink`: any error of the read is an unknown token.
unfoldable pub claim_link : Calls → ℕ → ℕ → ℕ → ℕ → Run Table LinkToken
claim_link c now name platform id =
    λ ts. claim_found c now platform id (found_if c.read (find_token ts (c.upper name))) ts
