-- ===== src/Linking/Steps.antt =====
-- The three steps of linking as moves on the table of tokens, in any order and at any times.
use brandish_bot_go.Prelude.{
  ℕ, ◌≤◌, ◌≡◌, ◌⊎◌, refl, sym, ap, ◌∙◌, Option, none, some, [], ◌∷◌, ltb, arith, Bool-cases, inl,
  inr,
}
use mathlib.Core.Path.{subst}
use brandish_bot_go.Failure.{Result, ok, err}
use brandish_bot_go.Stateful.{Run, ◌>>=◌, ◌>>◌, return, lift}
use brandish_bot_go.Linking.{
  TokenState, pending, claimed, confirmed, expired, LinkToken, Table, is_source, find_token, ended,
  invalidate_tokens_for_source, find_claimed, create_token, written, Calls, new_token, stored_token,
  initiate_link, found_if, claim_link,
}
use brandish_bot_go.Linking.Confirm.{
  User, UserService, set_platform_id, get_linked_platforms, or_registered, confirm_with, joined,
  confirm_token, confirm_found, confirm_link,
}
use brandish_bot_go.Linking.Tokens.{
  Evolves, AllEvolve, all_stay, HasUniqueTokens, find_claimed_lem, continue_keeps, written-Evolves,
  expire_evolves, is_claimed_eq, found_if_lem, claim_link_evolves,
}

confirm_with_evolves :
    {A : Type 0} (c : Calls) (now : ℕ) (t : LinkToken) (ts : Table) (a : A)
    → find_token ts t.token ≡ some t
    → t.state ≡ claimed
    → now ≤ t.expires_at
    → AllEvolve now ts ((confirm_with c t >> return a) ts).1
confirm_with_evolves c now t ts a h g le =
    rw (continue_keeps (confirm_with c t ts) (λ u. return a) (λ u s. refl)) (
      written-Evolves now ts c.update t (record t { state = confirmed }) h
        (Evolves.confirms t g le))

-- A check before a run either fails, or the run goes on with the same table.
lift_evolves :
    {A B : Type 0} (now : ℕ) (ts : Table) (r : Result A) (f : A → Run Table B)
    → ((a : A) → AllEvolve now ts (f a ts).1)
    → AllEvolve now ts ((lift r >>= f) ts).1
lift_evolves now ts (ok a) f h = h a
lift_evolves now ts (err e) f h = all_stay now ts

joined_evolves :
    (c : Calls) (s : UserService) (now platform id : ℕ) (t : LinkToken) (source : User)
    (target : Result User) (ts : Table)
    → find_token ts t.token ≡ some t
    → t.state ≡ claimed
    → now ≤ t.expires_at
    → AllEvolve now ts (joined c s platform id t source target ts).1
joined_evolves c s now platform id t source (err e) ts h g le =
    lift_evolves now ts
      (s.register_user (set_platform_id source t.target_platform t.target_platform_id))
      (λ u. confirm_with c t >> return (get_linked_platforms u))
      λ u. confirm_with_evolves c now t ts (get_linked_platforms u) h g le
joined_evolves c s now platform id t source (ok target) ts h g le =
    lift_evolves now ts (s.merge_users source.id target.id)
      (λ u. confirm_with c t >> return (s.linked_platforms platform id))
      λ u. confirm_with_evolves c now t ts (s.linked_platforms platform id) h g le

confirm_token_evolves :
    (c : Calls) (s : UserService) (now platform id : ℕ) (t : LinkToken) (ts : Table)
    → find_token ts t.token ≡ some t
    → t.state ≡ claimed
    → AllEvolve now ts (confirm_token c s now platform id t ts).1
confirm_token_evolves c s now platform id t ts h g = elim (Bool-cases (ltb t.expires_at now)) [
  | inl late ↦ rw late (expire_evolves now ts c t h (inr g))
  | inr fresh ↦ rw fresh (
      lift_evolves now ts (or_registered s t (s.find_user t.source_platform t.source_platform_id))
        (λ source.
          joined c s platform id t source (s.find_user t.target_platform t.target_platform_id))
        λ source.
          joined_evolves c s now platform id t source
            (s.find_user t.target_platform t.target_platform_id) ts h g (ground arith))
]

confirm_found_evolves :
    (c : Calls) (s : UserService) (now platform id : ℕ) (o : Option LinkToken) (ts : Table)
    → ((t : LinkToken) → o ≡ some t → (find_token ts t.token ≡ some t) × (t.state ≡ claimed))
    → AllEvolve now ts (confirm_found c s now platform id o ts).1
confirm_found_evolves c s now platform id none ts h = all_stay now ts
confirm_found_evolves c s now platform id (some t) ts h =
    confirm_token_evolves c s now platform id t ts (h t refl).0 (h t refl).1

confirm_link_evolves :
    (c : Calls) (s : UserService) (now platform id : ℕ) (ts : Table)
    → HasUniqueTokens ts
    → AllEvolve now ts (confirm_link c s now platform id ts).1
unfolding confirm_link
confirm_link_evolves c s now platform id ts u =
    confirm_found_evolves c s now platform id (found_if c.read (find_claimed platform id ts)) ts
      λ t h.
        let e = found_if_lem c.read (find_claimed platform id ts) t h in
        let (a, b) = find_claimed_lem platform id ts t u e in (a, is_claimed_eq t.state b)

-- A new token at the front, or none, and every other row has evolved.
abbrev pub Grows : ℕ → Table → Table → Type 0
Grows now ts ts' =
    AllEvolve now ts ts'
    ⊎ ((t : LinkToken) × (rs : Table) × (ts' ≡ t ∷ rs)
        × (t.state ≡ pending)
        × (find_token rs t.token ≡ none)
        × AllEvolve now ts rs)

invalidate_evolves :
    (now platform id : ℕ) (ts : Table)
    → AllEvolve now ts (invalidate_tokens_for_source platform id ts)
invalidate_evolves now platform id [] = tt
invalidate_evolves now platform id (t ∷ ts) = elim (Bool-cases (is_source platform id t)) [
  | inr other ↦ rw other (Evolves.stays t, invalidate_evolves now platform id ts)
  | inl own ↦ rw own (by_state t.state refl, invalidate_evolves now platform id ts)
]
  where
    changed : TokenState → Type 0
    changed x = Evolves now t (record t { state = x })

    by_state : (s : TokenState) → t.state ≡ s → Evolves now t (record t { state = ended t.state })
    by_state pending e = subst changed (sym (ap ended e)) (Evolves.expires t (inl e))
    by_state claimed e = subst changed (sym (ap ended e)) (Evolves.expires t (inr e))
    by_state confirmed e = subst changed (e ∙ sym (ap ended e)) (Evolves.stays t)
    by_state expired e = subst changed (e ∙ sym (ap ended e)) (Evolves.stays t)

written_invalidates :
    (now platform id : ℕ) (r : Result (Unit {0})) (ts : Table)
    → AllEvolve now ts (written r (invalidate_tokens_for_source platform id) ts).1
written_invalidates now platform id (err e) ts = all_stay now ts
written_invalidates now platform id (ok u) ts = invalidate_evolves now platform id ts

-- The rest of InitiateLink on the table `ts1` that the invalidation leaves.
create-Grows :
    (now : ℕ) (ts ts1 : Table) (t : LinkToken) (o : Option LinkToken)
    → t.state ≡ pending
    → AllEvolve now ts ts1
    → find_token ts1 t.token ≡ o
    → Grows now ts ((create_token t >> return t) ts1).1
create-Grows now ts ts1 t none s h e = rw (create_token, e) (inr (t, ts1, refl, s, e, h))
create-Grows now ts ts1 t (some r) s h e = rw (create_token, e) (inl h)

stored-Grows :
    (c : Calls) (now : ℕ) (ts ts1 : Table) (t : LinkToken) (r : Result (Unit {0}))
    → t.state ≡ pending
    → AllEvolve now ts ts1
    → Grows now ts ((lift r >> (create_token t >> return t)) ts1).1
stored-Grows c now ts ts1 t (err e) s h = inl h
stored-Grows c now ts ts1 t (ok u) s h = create-Grows now ts ts1 t (find_token ts1 t.token) s h refl

generated-Grows :
    (c : Calls) (now platform id : ℕ) (ts ts1 : Table) (r : Result ℕ)
    → AllEvolve now ts ts1
    → Grows now ts ((lift r >>= λ name. stored_token c (new_token name platform id now)) ts1).1
generated-Grows c now platform id ts ts1 (err e) h = inl h
generated-Grows c now platform id ts ts1 (ok name) h =
    stored-Grows c now ts ts1 (new_token name platform id now) c.create refl h

initiate_link-Grows :
    (c : Calls) (now platform id : ℕ) (ts : Table)
    → Grows now ts (initiate_link c now platform id ts).1
unfolding initiate_link
initiate_link-Grows c now platform id ts =
    generated-Grows c now platform id ts
      (written c.invalidate (invalidate_tokens_for_source platform id) ts).1 c.generate
      (written_invalidates now platform id c.invalidate ts)

-- One request of a user at a time.
pub data Step (now : ℕ) : Table → Table → Type 0 where
  initiates :
      (c : Calls) (platform id : ℕ) (ts : Table)
      → Step now ts (initiate_link c now platform id ts).1
  claim :
      (c : Calls) (name platform id : ℕ) (ts : Table)
      → Step now ts (claim_link c now name platform id ts).1
  confirm :
      (c : Calls) (s : UserService) (platform id : ℕ) (ts : Table)
      → Step now ts (confirm_link c s now platform id ts).1

-- A request on a table of distinct tokens adds at most one pending token; every other token stays,
-- or goes from pending to claimed by an account other than its source within its time, from claimed
-- to confirmed within its time, or from one of these two to expired. What is confirmed or expired
-- stays so.
pub Step-Grows :
    {now : ℕ} {ts ts' : Table} → Step now ts ts' → HasUniqueTokens ts → Grows now ts ts'
Step-Grows {now = now} (Step.initiates c platform id ts) u =
    initiate_link-Grows c now platform id ts
Step-Grows {now = now} (Step.claim c name platform id ts) u =
    inl (claim_link_evolves c now name platform id ts)
Step-Grows {now = now} (Step.confirm c s platform id ts) u =
    inl (confirm_link_evolves c s now platform id ts u)
