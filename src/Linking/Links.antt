-- ===== src/Linking/Links.antt =====
-- The tables of tokens that are reached from the empty one.
use brandish_bot_go.Prelude.{ℕ, ◌≡◌, refl, false, none, some, [], ◌∷◌, ◌==◌, Bool-cases, inl, inr}
use brandish_bot_go.Linking.{
  TokenState, pending, claimed, confirmed, expired, LinkToken, Table, is_source, find_token,
}
use brandish_bot_go.Linking.Tokens.{
  Evolves, stays, claims, confirms, expires, AllEvolve, HasUniqueTokens,
}
use brandish_bot_go.Linking.Steps.{Grows, Step, Step-Grows}

-- The target of a token that is claimed or confirmed is not its source.
abbrev pub IsLink : TokenState → LinkToken → Type 0
IsLink pending t = Unit
IsLink claimed t = is_source t.target_platform t.target_platform_id t ≡ false
IsLink confirmed t = is_source t.target_platform t.target_platform_id t ≡ false
IsLink expired t = Unit

abbrev pub AllLink : Table → Type 0
AllLink [] = Unit
AllLink (t ∷ ts) = IsLink t.state t × AllLink ts

IsLink-Evolves : {now : ℕ} {t r : LinkToken} → Evolves now t r → IsLink t.state t → IsLink r.state r
IsLink-Evolves (stays t) h = h
IsLink-Evolves (claims t platform id s le other) h = other
IsLink-Evolves (confirms t s le) h = rw s at h
IsLink-Evolves (expires t s) h = tt

AllLink-AllEvolve : (now : ℕ) (ts rs : Table) → AllEvolve now ts rs → AllLink ts → AllLink rs
AllLink-AllEvolve now [] [] e h = tt
AllLink-AllEvolve now [] (r ∷ rs) e h = absurd e
AllLink-AllEvolve now (t ∷ ts) [] e h = tt
AllLink-AllEvolve now (t ∷ ts) (r ∷ rs) e h =
    (IsLink-Evolves e.0 h.0, AllLink-AllEvolve now ts rs e.1 h.1)

token-Evolves : {now : ℕ} {t r : LinkToken} → Evolves now t r → r.token ≡ t.token
token-Evolves (stays t) = refl
token-Evolves (claims t platform id s le other) = refl
token-Evolves (confirms t s le) = refl
token-Evolves (expires t s) = refl

absent_lem :
    (now : ℕ) (ts rs : Table) (name : ℕ)
    → AllEvolve now ts rs
    → find_token ts name ≡ none
    → find_token rs name ≡ none
absent_lem now [] [] name e h = refl
absent_lem now [] (r ∷ rs) name e h = absurd e
absent_lem now (t ∷ ts) [] name e h = refl
absent_lem now (t ∷ ts) (r ∷ rs) name e h =
    let same : r.token ≡ t.token = token-Evolves e.0 in
    elim (Bool-cases (t.token == name)) [
      | inl found ↦ let g : some t ≡ none = rw found at h in cc
      | inr other ↦ rw (same, other) (absent_lem now ts rs name e.1 (rw other at h))
    ]

unique_lem :
    (now : ℕ) (ts rs : Table) → AllEvolve now ts rs → HasUniqueTokens ts → HasUniqueTokens rs
unique_lem now [] [] e h = tt
unique_lem now [] (r ∷ rs) e h = absurd e
unique_lem now (t ∷ ts) [] e h = tt
unique_lem now (t ∷ ts) (r ∷ rs) e h =
    (rw (token-Evolves e.0) (absent_lem now ts rs t.token e.1 h.0), unique_lem now ts rs e.1 h.1)

abbrev pub IsSound : Table → Type 0
IsSound ts = HasUniqueTokens ts × AllLink ts

IsSound-Grows : (now : ℕ) (ts rs : Table) → Grows now ts rs → IsSound ts → IsSound rs
IsSound-Grows now ts rs (inl e) (u, l) = (unique_lem now ts rs e u, AllLink-AllEvolve now ts rs e l)
IsSound-Grows now ts rs (inr (t, rest, g, s, absent, e)) (u, l) =
    rw g ((absent, unique_lem now ts rest e u), (rw s tt, AllLink-AllEvolve now ts rest e l))

-- What requests at any times, one after the other, make of the empty table.
pub data Reached : Table → Type 0 where
  start : Reached []
  next : {now : ℕ} {ts rs : Table} → Step now ts rs → Reached ts → Reached rs

-- In every table that requests reach no token stands twice, and a token that is claimed or confirmed
-- joins two different accounts.
pub Reached-IsSound : {ts : Table} → Reached ts → IsSound ts
Reached-IsSound start = (tt, tt)
Reached-IsSound (next {now} {ts} {rs} s r) =
    let h = Reached-IsSound r in IsSound-Grows now ts rs (Step-Grows s h.0) h
