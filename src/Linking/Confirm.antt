-- ===== src/Linking/Confirm.antt =====
-- internal/linking/service.go, ConfirmLink: the third step, which joins the users.
use brandish_bot_go.Prelude.{ℕ, Option, none, some, List, [], ◌∷◌, ltb, ◌==◌, if◌then◌else◌}
use brandish_bot_go.Failure.{Result, ok, err, no_pending_link, link_token_expired}
use brandish_bot_go.Stateful.{Run, ◌>>=◌, ◌>>◌, return, lift}
use brandish_bot_go.Crafting.{platform_twitch, platform_discord, platform_youtube}
use brandish_bot_go.Linking.{
  LinkToken, Table, confirmed, update_token, find_claimed, Calls, written, expire, found_if,
}

-- `domain.User`, as far as it is read.
pub record User : Type 0 where
  pub id : ℕ
  pub discord_id : ℕ
  pub twitch_id : ℕ
  pub youtube_id : ℕ

-- `setPlatformID`
abbrev pub set_platform_id : User → ℕ → ℕ → User
set_platform_id u platform id =
    if platform == platform_discord
    then record u { discord_id = id }
    else if platform == platform_twitch
    then record u { twitch_id = id }
    else if platform == platform_youtube
    then record u { youtube_id = id }
    else u

abbrev pub listed : ℕ → ℕ → List ℕ → List ℕ
listed id platform rest = if id == 0 then rest else platform ∷ rest

-- `getLinkedPlatforms`
abbrev pub get_linked_platforms : User → List ℕ
get_linked_platforms u =
    listed u.discord_id platform_discord
      (listed u.twitch_id platform_twitch (listed u.youtube_id platform_youtube []))

-- What the user service answers.
pub record UserService : Type 0 where
  pub find_user : ℕ → ℕ → Result User
  pub register_user : User → Result User
  pub merge_users : ℕ → ℕ → Result (Unit {0})
  pub linked_platforms : ℕ → ℕ → List ℕ

abbrev pub no_user : User
no_user = record { id = 0; discord_id = 0; twitch_id = 0; youtube_id = 0 }

-- The source user, who is registered where the search fails.
abbrev pub or_registered : UserService → LinkToken → Result User → Result User
or_registered s t (ok u) = ok u
or_registered s t (err e) =
    s.register_user (set_platform_id no_user t.source_platform t.source_platform_id)

abbrev pub confirm_with : Calls → LinkToken → Run Table (Unit {0})
confirm_with c t = written c.update (update_token (record t { state = confirmed }))

-- The target user: a missing one is added to the source user, another is merged into it.
abbrev pub joined :
    Calls → UserService → ℕ → ℕ → LinkToken → User → Result User → Run Table (List ℕ)
joined c s platform id t source (err e) =
    lift (s.register_user (set_platform_id source t.target_platform t.target_platform_id)) >>= λ u.
    confirm_with c t >> return (get_linked_platforms u)
joined c s platform id t source (ok target) =
    lift (s.merge_users source.id target.id)
    >> (confirm_with c t >> return (s.linked_platforms platform id))

abbrev pub confirm_token : Calls → UserService → ℕ → ℕ → ℕ → LinkToken → Run Table (List ℕ)
confirm_token c s now platform id t =
    if ltb t.expires_at now
    then expire c t >> lift (err link_token_expired)
    else lift (or_registered s t (s.find_user t.source_platform t.source_platform_id)) >>= λ source.
        joined c s platform id t source (s.find_user t.target_platform t.target_platform_id)

abbrev pub confirm_found : Calls → UserService → ℕ → ℕ → ℕ → Option LinkToken → Run Table (List ℕ)
confirm_found c s now platform id none = lift (err no_pending_link)
confirm_found c s now platform id (some t) = confirm_token c s now platform id t

-- `ConfirmLink`: any error of the read is no pending link.
unfoldable pub confirm_link : Calls → UserService → ℕ → ℕ → ℕ → Run Table (List ℕ)
confirm_link c s now platform id =
    λ ts. confirm_found c s now platform id (found_if c.read (find_claimed platform id ts)) ts
