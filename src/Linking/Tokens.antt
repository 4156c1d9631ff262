-- ===== src/Linking/Tokens.antt =====
-- A token runs through its states in one direction, whatever requests are made.
use brandish_bot_go.Prelude.{
  ℕ, ◌≤◌, ◌≡◌, ◌⊎◌, refl, ap, ◌∙◌, true, false, ◌&&◌, Option, none, some, [], ◌∷◌, ltb, ◌==◌, arith,
  Bool-cases, inl, inr,
}
use brandish_bot_go.Failure.{Result, ok, err}
use brandish_bot_go.Stateful.{Run, continue, return}
use brandish_bot_go.Linking.{
  TokenState, pending, claimed, confirmed, expired, LinkToken, Table, is_pending, is_claimed,
  is_source, find_token, update_token, find_claimed, written, Calls, expire, claim_token,
  claim_found, found_if, claim_link,
}

-- What a request at a time may do to a stored token.
pub data Evolves (now : ℕ) : LinkToken → LinkToken → Type 0 where
  stays : (t : LinkToken) → Evolves now t t
  claims :
      (t : LinkToken) (platform id : ℕ)
      → t.state ≡ pending
      → now ≤ t.expires_at
      → is_source platform id t ≡ false
      → Evolves now t
          (record t { target_platform = platform; target_platform_id = id; state = claimed })
  confirms :
      (t : LinkToken)
      → t.state ≡ claimed
      → now ≤ t.expires_at
      → Evolves now t (record t { state = confirmed })
  expires :
      (t : LinkToken)
      → (t.state ≡ pending) ⊎ (t.state ≡ claimed)
      → Evolves now t (record t { state = expired })

abbrev pub AllEvolve : ℕ → Table → Table → Type 0
AllEvolve now [] [] = Unit
AllEvolve now [] (t ∷ ts) = ⊥
AllEvolve now (t ∷ ts) [] = ⊥
AllEvolve now (t ∷ ts) (r ∷ rs) = Evolves now t r × AllEvolve now ts rs

pub all_stay : (now : ℕ) (ts : Table) → AllEvolve now ts ts
all_stay now [] = tt
all_stay now (t ∷ ts) = (Evolves.stays t, all_stay now ts)

-- The write of `t'` onto the stored row `t`.
abbrev pub overwritten : LinkToken → LinkToken → LinkToken
overwritten t t' = record t {
  target_platform = t'.target_platform;
  target_platform_id = t'.target_platform_id;
  state = t'.state;
}

update-Evolves :
    (now : ℕ) (ts : Table) (t t' : LinkToken)
    → find_token ts t'.token ≡ some t
    → Evolves now t (overwritten t t')
    → AllEvolve now ts (update_token t' ts)
update-Evolves now [] t t' h e = tt
update-Evolves now (r ∷ rs) t t' h e = elim (Bool-cases (r.token == t'.token)) [
  | inl same ↦ let er : r ≡ t = cc (rw same at h) in rw (same, er) (e, all_stay now rs)
  | inr other ↦
      let rest : find_token rs t'.token ≡ some t = rw other at h in
      rw other (Evolves.stays r, update-Evolves now rs t t' rest e)
]

find_token-token :
    (ts : Table) (name : ℕ) (t : LinkToken) → find_token ts name ≡ some t → t.token ≡ name
find_token-token [] name t h = cc
find_token-token (r ∷ rs) name t h = elim (Bool-cases (r.token == name)) [
  | inl same ↦ let er : r ≡ t = cc (rw same at h) in rw (← er) (ground arith)
  | inr other ↦ find_token-token rs name t (rw other at h)
]

-- No token stands in two rows.
abbrev pub HasUniqueTokens : Table → Type 0
HasUniqueTokens [] = Unit
HasUniqueTokens (t ∷ ts) = (find_token ts t.token ≡ none) × HasUniqueTokens ts

-- The claimed token that is found is the row of its token.
pub find_claimed_lem :
    (platform id : ℕ) (ts : Table) (t : LinkToken)
    → HasUniqueTokens ts
    → find_claimed platform id ts ≡ some t
    → (find_token ts t.token ≡ some t) × (is_claimed t.state ≡ true)
find_claimed_lem platform id [] t u h = cc
find_claimed_lem platform id (r ∷ rs) t u h =
    elim (Bool-cases (is_source platform id r && is_claimed r.state)) [
      | inl found ↦
          let er : r ≡ t = cc (rw found at h) in
          let self : (t.token == t.token) ≡ true = ground arith in
          (rw (er, self) refl, rw (← er) (ground (arith, found)))
      | inr other ↦
          let (a, b) = find_claimed_lem platform id rs t u.1 (rw other at h) in
          (
            elim (Bool-cases (r.token == t.token)) [
              | inl same ↦
                  let e : r.token ≡ t.token = ground arith in
                  let absent : find_token rs t.token ≡ none = rw e at u.0 in cc
              | inr fresh ↦ rw fresh a
            ],
            b,
          )
    ]

pub continue_keeps :
    {A B : Type 0} (x : Result A × Table) (f : A → Run Table B)
    → ((a : A) (ts : Table) → (f a ts).1 ≡ ts)
    → (continue x f).1 ≡ x.1
continue_keeps (ok a, ts) f h = h a ts
continue_keeps (err e, ts) f h = refl

pub written-Evolves :
    (now : ℕ) (ts : Table) (r : Result (Unit {0})) (t t' : LinkToken)
    → find_token ts t'.token ≡ some t
    → Evolves now t (overwritten t t')
    → AllEvolve now ts (written r (update_token t') ts).1
written-Evolves now ts (err e) t t' h g = all_stay now ts
written-Evolves now ts (ok u) t t' h g = update-Evolves now ts t t' h g

pub expire_evolves :
    (now : ℕ) (ts : Table) (c : Calls) (t : LinkToken)
    → find_token ts t.token ≡ some t
    → (t.state ≡ pending) ⊎ (t.state ≡ claimed)
    → AllEvolve now ts (expire c t ts).1
expire_evolves now ts c t h g =
    written-Evolves now ts c.update t (record t { state = expired }) h (Evolves.expires t g)

is_pending_eq : (s : TokenState) → is_pending s ≡ true → s ≡ pending
is_pending_eq s h = ground arith

pub is_claimed_eq : (s : TokenState) → is_claimed s ≡ true → s ≡ claimed
is_claimed_eq s h = ground arith

claim_token_evolves :
    (c : Calls) (now platform id : ℕ) (t : LinkToken) (ts : Table)
    → find_token ts t.token ≡ some t
    → AllEvolve now ts (claim_token c now platform id t ts).1
claim_token_evolves c now platform id t ts h = elim (Bool-cases (is_pending t.state)) [
  | inr used ↦ rw used (all_stay now ts)
  | inl is_open ↦ elim (Bool-cases (ltb t.expires_at now)) [
    | inl late ↦
        rw (is_open, late) (expire_evolves now ts c t h (inl (is_pending_eq t.state is_open)))
    | inr fresh ↦ elim (Bool-cases (is_source platform id t)) [
      | inl own ↦ rw (is_open, fresh, own) (all_stay now ts)
      | inr other ↦
          let taken : LinkToken = record t {
            target_platform = platform;
            target_platform_id = id;
            state = claimed;
          } in
          rw
            (
              is_open,
              fresh,
              other,
              continue_keeps (written c.update (update_token taken) ts) (λ u. return taken)
                  (λ u s. refl),
            )
            (written-Evolves now ts c.update t taken h
              (Evolves.claims t platform id (is_pending_eq t.state is_open) (ground arith) other))
    ]
  ]
]

claim_found_evolves :
    (c : Calls) (now platform id : ℕ) (o : Option LinkToken) (ts : Table)
    → ((t : LinkToken) → o ≡ some t → find_token ts t.token ≡ some t)
    → AllEvolve now ts (claim_found c now platform id o ts).1
claim_found_evolves c now platform id none ts h = all_stay now ts
claim_found_evolves c now platform id (some t) ts h =
    claim_token_evolves c now platform id t ts (h t refl)

pub found_if_lem :
    (r : Result (Unit {0})) (o : Option LinkToken) (t : LinkToken)
    → found_if r o ≡ some t
    → o ≡ some t
found_if_lem (err e) o t h = cc
found_if_lem (ok u) o t h = h

pub claim_link_evolves :
    (c : Calls) (now name platform id : ℕ) (ts : Table)
    → AllEvolve now ts (claim_link c now name platform id ts).1
unfolding claim_link
claim_link_evolves c now name platform id ts =
    claim_found_evolves c now platform id (found_if c.read (find_token ts (c.upper name))) ts λ t h.
      let e = found_if_lem c.read (find_token ts (c.upper name)) t h in
      ap (find_token ts) (find_token-token ts (c.upper name) t e) ∙ e
