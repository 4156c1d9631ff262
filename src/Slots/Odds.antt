-- ===== src/Slots/Odds.antt =====
-- The distribution of the results over the 1000 rolls, and what a spin pays on average.
use brandish_bot_go.Prelude.{
  ℕ, zero, suc, ◌+◌, ◌*◌, ◌/◌, ◌<◌, ◌≤◌, ◌≡◌, ◌≢◌, refl, arith, ltb, if◌then◌else◌,
}
use brandish_bot_go.Slots.{
  ResultType, no_match, lemon_two_match, lemon_three_match, cherry_three_match, bell_three_match,
  bar_three_match, seven_three_match, diamond_three_match, star_three_match, mega_jackpot,
  random_result_type, result_payout, determine_win_type, calculate_payout,
}

-- The sum of a function over the `n` rolls from `lo` on.
pub sum_rolls : (ℕ → ℕ) → ℕ → ℕ → ℕ
sum_rolls f lo zero = 0
sum_rolls f lo (suc n) = f lo + sum_rolls f (suc lo) n

sum_rolls-split :
    (f : ℕ → ℕ) (lo m n : ℕ) → sum_rolls f lo (m + n) ≡ sum_rolls f lo m + sum_rolls f (lo + m) n
unfolding sum_rolls
sum_rolls-split f lo zero n =
    let e : 0 + n ≡ n = omega arith in
    let e' : lo + 0 ≡ lo = omega arith in rw (e, e') (omega arith)
sum_rolls-split f lo (suc m) n =
    let e : suc m + n ≡ suc (m + n) = omega arith in
    let e' : lo + suc m ≡ suc lo + m = omega arith in
    rw (e, e') (omega (arith, sum_rolls-split f (suc lo) m n))

sum_rolls-const :
    (f : ℕ → ℕ) (lo n c : ℕ) → ((r : ℕ) → lo ≤ r → r < lo + n → f r ≡ c) → sum_rolls f lo n ≡ n * c
unfolding sum_rolls
sum_rolls-const f lo zero c h = omega arith
sum_rolls-const f lo (suc n) c h =
    omega (arith, h lo, sum_rolls-const f (suc lo) n c (λ r a b. h r (omega arith) (omega arith)))

-- Which result a roll gives.
abbrev pub expected : ℕ → ResultType
expected r =
    if ltb r 450
    then no_match
    else if ltb r 700
    then lemon_two_match
    else if ltb r 850
    then lemon_three_match
    else if ltb r 910
    then cherry_three_match
    else if ltb r 945
    then bell_three_match
    else if ltb r 965
    then bar_three_match
    else if ltb r 975
    then seven_three_match
    else if ltb r 980
    then star_three_match
    else no_match

random_result_type_lem : (r : ℕ) → random_result_type r ≡ expected r
unfolding random_result_type
random_result_type_lem r = ground arith

-- No roll gives three diamonds, and no spin triggers the mega jackpot.
random_result_type-ne-diamond :
    (roll bet : ℕ)
    → (random_result_type roll ≢ diamond_three_match)
      × ((calculate_payout (random_result_type roll) bet).2 ≢ mega_jackpot)
unfolding calculate_payout determine_win_type
random_result_type-ne-diamond roll bet = rw random_result_type_lem (ground arith)

-- What the 1000 equally likely rolls pay together for a bet.
abbrev pub paid : ℕ → ℕ → ℕ
paid bet roll = (calculate_payout (random_result_type roll) bet).0

block :
    (bet lo n : ℕ) (t : ResultType)
    → ((r : ℕ) → lo ≤ r → r < lo + n → expected r ≡ t)
    → sum_rolls (paid bet) lo n ≡ n * (bet * result_payout t / 4)
unfolding calculate_payout
block bet lo n t h =
    sum_rolls-const (paid bet) lo n (bet * result_payout t / 4)
      λ r a b. rw (random_result_type_lem r, h r a b) refl

common_rolls : (bet : ℕ) → sum_rolls (paid bet) 0 850 ≡ 250 * (bet * 1 / 4) + 150 * (bet * 2 / 4)
common_rolls bet = omega (
  arith,
  sum_rolls-split (paid bet) 0 450 400,
  sum_rolls-split (paid bet) 450 250 150,
  block bet 0 450 no_match (λ r a b. ground arith),
  block bet 450 250 lemon_two_match (λ r a b. ground arith),
  block bet 700 150 lemon_three_match (λ r a b. ground arith),
)

middle_rolls :
    (bet : ℕ)
    → sum_rolls (paid bet) 850 115 ≡ 60 * (bet * 12 / 4) + 35 * (bet * 32 / 4) + 20 * (bet * 60 / 4)
middle_rolls bet = omega (
  arith,
  sum_rolls-split (paid bet) 850 60 55,
  sum_rolls-split (paid bet) 910 35 20,
  block bet 850 60 cherry_three_match (λ r a b. ground arith),
  block bet 910 35 bell_three_match (λ r a b. ground arith),
  block bet 945 20 bar_three_match (λ r a b. ground arith),
)

rare_rolls : (bet : ℕ) → sum_rolls (paid bet) 965 35 ≡ 10 * (bet * 120 / 4) + 5 * (bet * 300 / 4)
rare_rolls bet = omega (
  arith,
  sum_rolls-split (paid bet) 965 10 25,
  sum_rolls-split (paid bet) 975 5 20,
  block bet 965 10 seven_three_match (λ r a b. ground arith),
  block bet 975 5 star_three_match (λ r a b. ground arith),
  block bet 980 20 no_match (λ r a b. ground arith),
)

all_rolls :
    (bet : ℕ)
    → sum_rolls (paid bet) 0 1000
      ≡ 250 * (bet / 4)
        + 150 * (bet / 2)
        + 60 * (3 * bet)
        + 35 * (8 * bet)
        + 20 * (15 * bet)
        + 10 * (30 * bet)
        + 5 * (75 * bet)
all_rolls bet = omega (
  arith,
  sum_rolls-split (paid bet) 0 850 150,
  sum_rolls-split (paid bet) 850 115 35,
  common_rolls bet,
  middle_rolls bet,
  rare_rolls bet,
)

-- The 1000 equally likely rolls pay together a quarter of the bet for 250 of them and half of it for
-- 150, each rounded down, 3 times the bet for 60, 8 times for 35, 15 times for 20, 30 times for 10, 75
-- times for 5, and nothing for the others: 1572.5 times the bet in all, where 4 divides it.
pub sum_rolls-paid :
    (bet : ℕ)
    → (sum_rolls (paid bet) 0 1000
        ≡ 250 * (bet / 4)
          + 150 * (bet / 2)
          + 60 * (3 * bet)
          + 35 * (8 * bet)
          + 20 * (15 * bet)
          + 10 * (30 * bet)
          + 5 * (75 * bet))
      × (2 * sum_rolls (paid (4 * bet)) 0 1000 ≡ 3145 * (4 * bet))
sum_rolls-paid bet = let exact = all_rolls (4 * bet) in (all_rolls bet, omega (arith, exact))
