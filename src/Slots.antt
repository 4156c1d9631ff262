-- ===== src/Slots.antt =====
-- internal/slots: the slot machine (constants.go, payout.go, spin.go).
--
-- A payout multiplier is a multiple of 1/4, so `int(float64(bet) * mult)` is exact for the allowed
-- bets and is `bet * quarters / 4`. A weight is a multiple of 1/1000, and `int(weight * 1000)` is
-- that multiple. The random source is a parameter: `rng k n` is the k-th draw below `n`.
pub mod Reels
pub mod Odds
pub mod Spin
use brandish_bot_go.Prelude.{
  ℕ, zero, suc, ◌+◌, ◌-◌, ◌*◌, ◌/◌, Bool, true, false, not, ◌||◌, Option, none, some, List, [], ◌∷◌,
  get_elem?, length, ltb, leb, ◌==◌, if◌then◌else◌,
}

pub data Symbol : Type 0 where
  lemon cherry bell bar seven diamond star : Symbol

abbrev pub symbol_number : Symbol → ℕ
symbol_number lemon = 0
symbol_number cherry = 1
symbol_number bell = 2
symbol_number bar = 3
symbol_number seven = 4
symbol_number diamond = 5
symbol_number star = 6

abbrev pub same_symbol : Symbol → Symbol → Bool
same_symbol a b = symbol_number a == symbol_number b

abbrev pub all_symbols : List Symbol
all_symbols = lemon ∷ cherry ∷ bell ∷ bar ∷ seven ∷ diamond ∷ star ∷ []

-- `ResultType`, in the order of the loop in randomResultType.
pub data ResultType : Type 0 where
  no_match lemon_two_match lemon_three_match cherry_three_match bell_three_match : ResultType
  bar_three_match seven_three_match diamond_three_match star_three_match : ResultType

abbrev pub all_results : List ResultType
all_results =
    no_match ∷ lemon_two_match ∷ lemon_three_match ∷ cherry_three_match ∷ bell_three_match
    ∷ bar_three_match ∷ seven_three_match ∷ diamond_three_match ∷ star_three_match ∷ []

-- `int(ResultWeights[t] * 1000)`; a key that the map lacks has weight 0.
abbrev pub result_weight : ResultType → ℕ
result_weight no_match = 450
result_weight lemon_two_match = 250
result_weight lemon_three_match = 150
result_weight cherry_three_match = 60
result_weight bell_three_match = 35
result_weight bar_three_match = 20
result_weight seven_three_match = 10
result_weight diamond_three_match = 0
result_weight star_three_match = 5

-- `ResultPayouts[t]`, in quarters; a key that the map lacks pays 0.
abbrev pub result_payout : ResultType → ℕ
result_payout no_match = 0
result_payout lemon_two_match = 1
result_payout lemon_three_match = 2
result_payout cherry_three_match = 12
result_payout bell_three_match = 32
result_payout bar_three_match = 60
result_payout seven_three_match = 120
result_payout diamond_three_match = 0
result_payout star_three_match = 300

pub data Trigger : Type 0 where
  normal big_win jackpot mega_jackpot : Trigger

-- `determineWinType`: 100.0, JackpotThreshold 50.0 and BigWinThreshold 10.0, in quarters.
unfoldable pub determine_win_type : ℕ → Trigger
determine_win_type quarters =
    if leb 400 quarters
    then mega_jackpot
    else if leb 200 quarters
    then jackpot
    else if leb 40 quarters
    then big_win
    else normal

-- `calculatePayout`: the amount, the multiplier and the trigger.
unfoldable pub calculate_payout : ResultType → ℕ → ℕ × ℕ × Trigger
calculate_payout t bet =
    (bet * result_payout t / 4, result_payout t, determine_win_type (result_payout t))

-- The loop of `randomResultType`.
abbrev pick_result : ℕ → ℕ → List ResultType → ResultType
pick_result roll cumulative [] = no_match
pick_result roll cumulative (t ∷ ts) =
    if ltb roll (cumulative + result_weight t)
    then t
    else pick_result roll (cumulative + result_weight t) ts

-- `randomResultType`
unfoldable pub random_result_type : ℕ → ResultType
random_result_type roll = pick_result roll 0 all_results

-- `slices.Contains`
abbrev pub contains : List Symbol → Symbol → Bool
contains [] s = false
contains (x ∷ xs) s = same_symbol x s || contains xs s

abbrev pub available : List Symbol → List Symbol → List Symbol
available excluding [] = []
available excluding (s ∷ ss) =
    let rest = available excluding ss in if contains excluding s then rest else s ∷ rest

-- `randomSymbolExcluding`; `none` is an index out of range.
unfoldable pub random_symbol_excluding : (ℕ → ℕ) → List Symbol → Option Symbol
random_symbol_excluding draw excluding =
    let choices = available excluding all_symbols in get_elem? choices (draw (length choices))

abbrev pub Reels : Type 0
Reels = Symbol × Symbol × Symbol

abbrev pub bind {ℓ κ} : {A : Type ℓ} {B : Type κ} → Option A → (A → Option B) → Option B
bind none f = none
bind (some a) f = f a

-- `buildReels`
unfoldable pub build_reels : (ℕ → ℕ → ℕ) → ResultType → Option Reels
build_reels rng lemon_two_match =
    bind (random_symbol_excluding (rng 0) (lemon ∷ [])) λ s. some (lemon, lemon, s)
build_reels rng lemon_three_match = some (lemon, lemon, lemon)
build_reels rng cherry_three_match = some (cherry, cherry, cherry)
build_reels rng bell_three_match = some (bell, bell, bell)
build_reels rng bar_three_match = some (bar, bar, bar)
build_reels rng seven_three_match = some (seven, seven, seven)
build_reels rng diamond_three_match = some (diamond, diamond, diamond)
build_reels rng star_three_match = some (star, star, star)
build_reels rng no_match = bind (random_symbol_excluding (rng 0) []) λ s1.
    bind (random_symbol_excluding (rng 1) (s1 ∷ []))
      λ s2. bind (random_symbol_excluding (rng 2) (s1 ∷ s2 ∷ [])) λ s3. some (s1, s2, s3)

-- `isWin` and `isNearMiss` of executeSpin.
abbrev pub is_win : ResultType → Bool
is_win cherry_three_match = true
is_win bell_three_match = true
is_win bar_three_match = true
is_win seven_three_match = true
is_win diamond_three_match = true
is_win star_three_match = true
is_win _ = false

abbrev pub is_near_miss : ResultType → Bool
is_near_miss lemon_two_match = true
is_near_miss _ = false
