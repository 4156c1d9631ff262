-- ===== src/Stateful.antt =====
-- Handlers that change a store step by step without a transaction around them: what a step has
-- changed stays when a later step fails.
use brandish_bot_go.Prelude.{◌≡◌, refl, Bool, true, false}
use brandish_bot_go.Failure.{Result, ok, err}

abbrev pub Run {ℓ κ} : Type ℓ → Type κ → Type (ℓ ⊔ κ)
Run S A = S → Result A × S

abbrev pub continue {ℓ κ μ} :
    {S : Type ℓ} {A : Type κ} {B : Type μ} → Result A × S → (A → Run S B) → Result B × S
continue (ok a, s) f = f a s
continue (err e, s) f = (err e, s)

infixl 5 ◌>>=◌ ◌>>◌
abbrev pub ◌>>=◌ {ℓ κ μ} :
    {S : Type ℓ} {A : Type κ} {B : Type μ} → Run S A → (A → Run S B) → Run S B
m >>= f = λ s. continue (m s) f

abbrev pub ◌>>◌ {ℓ κ μ} : {S : Type ℓ} {A : Type κ} {B : Type μ} → Run S A → Run S B → Run S B
m >> k = m >>= λ _. k

abbrev pub return {ℓ κ} : {S : Type ℓ} {A : Type κ} → A → Run S A
return a = λ s. (ok a, s)

abbrev pub lift {ℓ κ} : {S : Type ℓ} {A : Type κ} → Result A → Run S A
lift r = λ s. (r, s)

abbrev pub get {ℓ} : {S : Type ℓ} → Run S S
get = λ s. (ok s, s)

abbrev pub modify {ℓ} : {S : Type ℓ} → (S → S) → Run S (Unit {0})
modify f = λ s. (ok tt, f s)

abbrev pub run_if {ℓ} : {S : Type ℓ} → Bool → Run S (Unit {0}) → Run S (Unit {0})
run_if true m = m
run_if false m = return tt

-- `_ = f()`: the error is dropped, what was changed stays.
abbrev pub ignore {ℓ κ} : {S : Type ℓ} {A : Type κ} → Run S A → Run S (Unit {0})
ignore m = λ s. (ok tt, (m s).1)

-- The steps of a run that succeeds.
pub with_run {ℓ κ μ ν} :
    {S : Type ℓ} {A : Type κ} {B : Type μ} {P : Type ν} (r : Result A × S) (f : A → Run S B) {b : B}
    {s' : S}
    → continue r f ≡ (ok b, s')
    → ((a : A) (s1 : S) → r ≡ (ok a, s1) → f a s1 ≡ (ok b, s') → P)
    → P
with_run (ok a, s) f h k = k a s refl h
with_run (err e, s) f h k = cc

-- A property of the store that every step keeps.
abbrev pub Keeps {ℓ κ μ} : {S : Type ℓ} {A : Type κ} → (S → Type μ) → Run S A → Type (ℓ ⊔ μ)
Keeps {S = S} P m = (s : S) → P s → P (m s).1

pub Keeps->>= {ℓ κ μ ν} :
    {S : Type ℓ} {A : Type κ} {B : Type μ} (P : S → Type ν) (m : Run S A) (f : A → Run S B)
    → Keeps P m
    → ((a : A) → Keeps P (f a))
    → Keeps P (m >>= f)
Keeps->>= P m f hm hf s h = after (m s) (hm s h)
  where
    after : (r : Result _ × _) → P r.1 → P (continue r f).1
    after (ok a, s1) h1 = hf a s1 h1
    after (err e, s1) h1 = h1

pub Keeps-lift {ℓ κ μ} :
    {S : Type ℓ} {A : Type κ} (P : S → Type μ) (r : Result A) → Keeps P (lift r)
Keeps-lift P r s h = h
