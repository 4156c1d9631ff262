-- ===== src/Linking/Unlinks.antt =====
-- internal/linking/service.go, InitiateUnlink and ConfirmUnlink: an unlink is confirmed within a
-- minute, once.
use brandish_bot_go.Prelude.{
  ℕ, ◌+◌, ◌≡◌, refl, true, Option, none, some, ltb, ◌==◌, if◌then◌else◌, arith, Bool-cases, inl,
  inr,
}
use brandish_bot_go.Failure.{Result, ok, err, user_not_found, no_pending_unlink}
use brandish_bot_go.Linking.{unlink_timeout}

-- `unlinkCache`: when each key expires.
abbrev pub Cache : Type 0
Cache = ℕ → Option ℕ

-- `key` is fmt.Sprintf of the platform, the id and the target platform.
pub record Calls : Type 0 where
  pub key : ℕ → ℕ → ℕ → ℕ
  pub find_user : Result (Unit {0})
  pub unlink_platform : Result (Unit {0})

abbrev pub with_key : Cache → ℕ → Option ℕ → Cache
with_key cache key at = λ k. if k == key then at else cache k

-- `InitiateUnlink`
unfoldable pub initiate_unlink : Calls → ℕ → ℕ → ℕ → ℕ → Cache → Cache
initiate_unlink c now platform id target cache =
    with_key cache (c.key platform id target) (some (now + unlink_timeout))

-- The user service's part of `ConfirmUnlink`.
abbrev pub unlinked : Calls → Result (Unit {0}) → Result (Unit {0})
unlinked c (err e) = err user_not_found
unlinked c (ok u) = c.unlink_platform

abbrev pub confirm_at : Calls → ℕ → ℕ → Cache → Option ℕ → Result (Unit {0}) × Cache
confirm_at c now key cache none = (err no_pending_unlink, cache)
confirm_at c now key cache (some expiry) =
    if ltb expiry now
    then (err no_pending_unlink, cache)
    else (unlinked c c.find_user, with_key cache key none)

-- `ConfirmUnlink`
unfoldable pub confirm_unlink : Calls → ℕ → ℕ → ℕ → ℕ → Cache → Result (Unit {0}) × Cache
confirm_unlink c now platform id target cache =
    let key = c.key platform id target in confirm_at c now key cache (cache key)

module _ (c : Calls) (platform id target : ℕ) where
  abbrev key : ℕ
  key = c.key platform id target

  -- An unlink that was initiated is confirmed where it comes within a minute; another confirmation
  -- right after it finds nothing pending, whatever the user service answered.
  pub confirm_unlink-initiate_unlink :
      (cache : Cache) (now later last : ℕ)
      → let (r, cache') =
          confirm_unlink c later platform id target
            (initiate_unlink c now platform id target cache) in
        (r ≡ (
          if ltb (now + unlink_timeout) later
          then err no_pending_unlink
          else unlinked c c.find_user))
        × (if ltb (now + unlink_timeout) later
            then Unit
            else confirm_unlink c last platform id target cache' ≡ (err no_pending_unlink, cache'))
  unfolding confirm_unlink initiate_unlink
  confirm_unlink-initiate_unlink cache now later last =
      let self : (key == key) ≡ true = ground arith in
      elim (Bool-cases (ltb (now + unlink_timeout) later)) [
        | inl late ↦ rw (self, late) (refl, tt)
        | inr in_time ↦ rw (self, in_time, self) (refl, refl)
      ]
