-- ===== src/Failure.antt =====
-- The errors that the services return (internal/domain/errors.go), results, and the shape of a
-- database transaction: what is written stays only if the handler ends without an error
-- (repository.SafeRollback undoes the rest).
use brandish_bot_go.Prelude.{Bool, true, false, Option, none, some, ◌≡◌, refl, ◌⊎◌, inl, inr}

-- `storage` is any error of a repository or of another service that is passed on.
pub data Error : Type 0 where
  storage invalid_input quantity_too_high user_not_found : Error
  item_not_found not_in_inventory insufficient_funds insufficient_quantity : Error
  not_buyable item_locked feature_locked on_cooldown : Error
  daily_cap_reached gamble_not_found gamble_already_active not_in_joining_state : Error
  join_deadline_passed at_least_one_lootbox not_a_lootbox bet_not_positive : Error
  duel_not_found duel_not_pending duel_expired duel_unauthorized : Error
  already_executed pool_not_defined no_pool_references : Error
  no_voting_session invalid_option_index : Error
  token_not_found token_already_used token_expired : Error
  cannot_link_same_account no_pending_link link_token_expired no_pending_unlink : Error
  must_harvest bin_full not_compostable : Error
  invalid_quantity invalid_platform recipe_not_found recipe_locked : Error
  job_level_unverified job_level_too_low : Error
  quest_pool_too_small quest_not_claimable : Error
  cycle_detected missing_parent invalid_config duplicate_node_key : Error
  prerequisite_not_found no_progress : Error
  panic : Error

pub data Result {ℓ} (A : Type ℓ) : Type ℓ where
  err : Error → Result A
  ok : A → Result A

-- `if c { return e }`
abbrev pub fail_if : Bool → Error → Result (Unit {0})
fail_if true e = err e
fail_if false e = ok tt

-- `if p == nil { return e }`
abbrev pub required {ℓ} : {A : Type ℓ} → Option A → Error → Result A
required none e = err e
required (some a) e = ok a

-- The next step of a handler, which an error skips.
infixl 5 ◌>>=◌ ◌>>◌
abbrev pub ◌>>=◌ {ℓ κ} : {B : Type κ} {A : Type ℓ} → Result A → (A → Result B) → Result B
err e >>= next = err e
ok a >>= next = next a

abbrev pub ◌>>◌ {ℓ κ} : {B : Type κ} {A : Type ℓ} → Result A → Result B → Result B
step >> next = step >>= λ _. next

-- The end of a transaction over a stored value: a result with the value that was committed, or
-- an error with the old one.
abbrev pub transact {ℓ κ} : {S : Type ℓ} {A : Type κ} → S → Result (A × S) → Result A × S
transact s (ok (a, s')) = (ok a, s')
transact s (err e) = (err e, s)

pub Result-cases {ℓ} :
    {A : Type ℓ} (r : Result A) → ((e : Error) × (r ≡ err e)) ⊎ ((a : A) × (r ≡ ok a))
Result-cases (ok a) = inr (a, refl)
Result-cases (err e) = inl (e, refl)

pub required-eq-ok {ℓ} :
    {A : Type ℓ} (o : Option A) (e : Error) {a : A} → required o e ≡ ok a → o ≡ some a
required-eq-ok none e h = cc
required-eq-ok (some a) e h = cc

pub fail_if-eq-ok : (b : Bool) (e : Error) {u : Unit {0}} → fail_if b e ≡ ok u → b ≡ false
fail_if-eq-ok true e h = cc
fail_if-eq-ok false e h = refl

-- The two steps of a handler that succeeds.
pub with_ok {ℓ κ μ} :
    {A : Type ℓ} {B : Type κ} {P : Type μ} (m : Result A) (f : A → Result B) {b : B}
    → (m >>= f) ≡ ok b
    → ((a : A) → m ≡ ok a → f a ≡ ok b → P)
    → P
with_ok (ok a) f h k = k a refl h
with_ok (err e) f h k = cc
