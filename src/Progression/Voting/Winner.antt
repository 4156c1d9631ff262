-- ===== src/Progression/Voting/Winner.antt =====
-- Who wins a vote, and which nodes are put to it.
use brandish_bot_go.Prelude.{
  ℕ, zero, suc, ◌+◌, ◌-◌, ◌≤◌, ◌<◌, ◌≡◌, ◌⊎◌, refl, sym, ◌∙◌, true, false, Option, none, some, List,
  [], ◌∷◌, IsIn, length, get_elem?, get_elem?_total, take, sum_by, ltb, leb, ◌==◌, if◌then◌else◌,
  arith, Bool-cases, inl, inr,
}
use mathlib.Core.Path.{subst}
use brandish_bot_go.Failure.{ok}
use brandish_bot_go.Shuffle.{shuffle_from-sum_by}
use brandish_bot_go.Progression.Voting.{
  VotingOption, select_random_nodes, all_zero_votes, earlier, beats, winner_from,
  find_winning_option,
}

-- A time, where there is one, that is no later than another.
abbrev pub IsNoLater : Option ℕ → Option ℕ → Type 0
IsNoLater at none = Unit
IsNoLater none (some t) = ⊥
IsNoLater (some s) (some t) = s ≤ t

-- `w` has more votes than `o`, or as many and reached them no later.
abbrev pub StandsBefore : VotingOption → VotingOption → Type 0
StandsBefore w o =
    (o.vote_count < w.vote_count)
    ⊎ ((o.vote_count ≡ w.vote_count) × IsNoLater w.last_highest_vote_at o.last_highest_vote_at)

IsNoLater-trans : (a b c : Option ℕ) → IsNoLater a b → IsNoLater b c → IsNoLater a c
IsNoLater-trans a b none h g = tt
IsNoLater-trans a none (some t) h g = absurd g
IsNoLater-trans none (some s) (some t) h g = absurd h
IsNoLater-trans (some r) (some s) (some t) h g = omega (arith, h, g)

IsNoLater-self : (a : Option ℕ) → IsNoLater a a
IsNoLater-self none = tt
IsNoLater-self (some t) = omega arith

stands_trans : (a b c : VotingOption) → StandsBefore a b → StandsBefore b c → StandsBefore a c
stands_trans a b c (inl h) (inl g) = inl (omega (arith, h, g))
stands_trans a b c (inl h) (inr (e, g)) = inl (omega (arith, h, e))
stands_trans a b c (inr (e, h)) (inl g) = inl (omega (arith, e, g))
stands_trans a b c (inr (e, h)) (inr (f, g)) = inr (
  omega (arith, e, f),
  IsNoLater-trans a.last_highest_vote_at b.last_highest_vote_at c.last_highest_vote_at h g,
)

stands_self : (a : VotingOption) → StandsBefore a a
stands_self a = inr (refl, IsNoLater-self a.last_highest_vote_at)

earlier_lem : (a b : Option ℕ) → earlier a b ≡ true → IsNoLater a b
earlier_lem none b h = cc
earlier_lem (some t) none h = tt
earlier_lem (some t) (some s) h = ground (arith, h)

not_earlier_lem : (a b : Option ℕ) → earlier a b ≡ false → IsNoLater b a
not_earlier_lem none b h = tt
not_earlier_lem (some t) none h = cc
not_earlier_lem (some t) (some s) h = ground (arith, h)

beats_lem : (o w : VotingOption) → beats o w ≡ true → StandsBefore o w
beats_lem o w h = elim (Bool-cases (ltb w.vote_count o.vote_count)) [
  | inl more ↦ inl (ground arith)
  | inr le ↦ inr (
    ground (arith, h),
    earlier_lem o.last_highest_vote_at w.last_highest_vote_at (ground (arith, h)),
  )
]

not_beats_lem : (o w : VotingOption) → beats o w ≡ false → StandsBefore w o
not_beats_lem o w h = elim (Bool-cases (o.vote_count == w.vote_count)) [
  | inl same ↦ inr (
    ground arith,
    not_earlier_lem o.last_highest_vote_at w.last_highest_vote_at (ground (arith, h)),
  )
  | inr other ↦ inl (ground (arith, h))
]

-- `r` is an option that stands before all.
abbrev Wins : VotingOption → List VotingOption → VotingOption → Type 0
Wins w os r =
    IsIn r (w ∷ os) × StandsBefore r w × ((o : VotingOption) → IsIn o os → StandsBefore r o)

Wins-better :
    (w o r : VotingOption) (os : List VotingOption)
    → StandsBefore o w
    → Wins o os r
    → Wins w (o ∷ os) r
Wins-better w o r os h (a, b, c) =
    (inr a, stands_trans r o w b h, λ p g. elim g [ inl e ↦ rw e b | inr d ↦ c p d ])

Wins-worse :
    (w o r : VotingOption) (os : List VotingOption)
    → StandsBefore w o
    → Wins w os r
    → Wins w (o ∷ os) r
Wins-worse w o r os h (a, b, c) = (
  elim a [ inl e ↦ inl e | inr d ↦ inr (inr d) ],
  b,
  λ p g. elim g [ inl e ↦ rw e (stands_trans r w o b h) | inr d ↦ c p d ],
)

winner_from-Wins : (w : VotingOption) (os : List VotingOption) → Wins w os (winner_from w os)
unfolding winner_from
winner_from-Wins w [] = (inl refl, stands_self w, λ o h. absurd h)
winner_from-Wins w (o ∷ os) = elim (Bool-cases (beats o w)) [
  | inl better ↦
      let e : winner_from w (o ∷ os) ≡ winner_from o os = rw (winner_from, better) refl in
      subst (Wins w (o ∷ os)) (sym e)
        (Wins-better w o (winner_from o os) os (beats_lem o w better) (winner_from-Wins o os))
  | inr worse ↦
      let e : winner_from w (o ∷ os) ≡ winner_from w os = rw (winner_from, worse) refl in
      subst (Wins w (o ∷ os)) (sym e)
        (Wins-worse w o (winner_from w os) os (not_beats_lem o w worse) (winner_from-Wins w os))
]

get-IsIn : {A : Type 0} (xs : List A) (i : ℕ) (x : A) → get_elem? xs i ≡ some x → IsIn x xs
get-IsIn [] i x h = cc
get-IsIn (y ∷ ys) zero x h = inl cc
get-IsIn (y ∷ ys) (suc i) x h = inr (get-IsIn ys i x h)

zero_votes :
    (os : List VotingOption) (o : VotingOption)
    → all_zero_votes os ≡ true
    → IsIn o os
    → o.vote_count ≡ 0
zero_votes [] o h g = absurd g
zero_votes (p ∷ ps) o h (inl e) = rw e (ground (arith, h))
zero_votes (p ∷ ps) o h (inr g) = zero_votes ps o (ground (arith, h)) g

-- A vote with options ends with one of them: no other has more votes, and where one has as many it
-- did not reach them earlier. Without any vote an option is drawn.
pub find_winning_option-StandsBefore :
    (o : VotingOption) (os : List VotingOption) (rng : ℕ → ℕ)
    → ((n : ℕ) → 0 < n → rng n < n)
    → (w : VotingOption) × (find_winning_option (o ∷ os) rng ≡ ok (some w))
      × IsIn w (o ∷ os)
      × ((p : VotingOption) → IsIn p (o ∷ os) → (p.vote_count ≡ 0) ⊎ StandsBefore w p)
unfolding find_winning_option
find_winning_option-StandsBefore o os rng in_range = elim (Bool-cases (all_zero_votes (o ∷ os))) [
  | inl none_voted ↦
      let (w, e) =
        get_elem?_total (o ∷ os) (rng (length (o ∷ os)))
          (in_range (length (o ∷ os)) (omega arith)) in
      (
        w,
        rw (none_voted, e) refl,
        get-IsIn (o ∷ os) (rng (length (o ∷ os))) w e,
        λ p h. inl (zero_votes (o ∷ os) p none_voted h),
      )
  | inr voted ↦
      let (a, b, c) = winner_from-Wins o os in
      (winner_from o os, rw voted refl, a, λ p h. inr (elim h [ inl e ↦ rw e b | inr g ↦ c p g ]))
]

module _ {A : Type 0} where
  take-drop :
      (n : ℕ) (xs : List A)
      → n ≤ length xs
      → (rest : List A) × (length (take n xs) ≡ n)
        × ((f : A → ℕ) → sum_by f (take n xs) + sum_by f rest ≡ sum_by f xs)
  take-drop zero xs h = (xs, refl, λ f. omega arith)
  take-drop (suc n) [] h = absurd (omega (arith, h))
  take-drop (suc n) (x ∷ xs) h =
      let (rest, e, g) = take-drop n xs (omega (arith, h)) in
      (rest, omega (arith, e), λ f. omega (arith, g f))

  -- With draws in range the nodes that are put to the vote are as many as wanted, or all where there
  -- are fewer, and with some others they make up the list: none stands twice that did not before.
  pub select_random_nodes-sum_by :
      (nodes : List A) (count : ℕ) (rng : ℕ → ℕ)
      → ((n : ℕ) → 0 < n → rng n < n)
      → (chosen : List A) × (rest : List A) × (select_random_nodes nodes count rng ≡ some chosen)
        × (length chosen ≡ (if leb (length nodes) count then length nodes else count))
        × ((f : A → ℕ) → sum_by f chosen + sum_by f rest ≡ sum_by f nodes)
  unfolding select_random_nodes
  select_random_nodes-sum_by nodes count rng in_range =
      elim (Bool-cases (leb (length nodes) count)) [
        | inl few ↦ (nodes, [], rw few refl, rw few refl, λ f. omega arith)
        | inr many ↦
            let (ys, e, l, g) =
              shuffle_from-sum_by (length nodes - 1) rng nodes in_range (ground (arith, many)) in
            let (rest, n, h) = take-drop count ys (ground (arith, l, many)) in
            (take count ys, rest, rw (many, e) refl, rw (many, n) refl, λ f. h f ∙ g f)
      ]
