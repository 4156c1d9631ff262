-- ===== src/Gamble/Winner/Leader.antt =====
-- The drawn winner is one of those with the highest value.
use brandish_bot_go.Prelude.{
  ℕ, zero, suc, ◌≤◌, ◌<◌, ◌≡◌, ◌⊎◌, refl, Option, none, some, List, [], ◌∷◌, ◌++◌, IsIn, length,
  get_elem?, leb, ◌==◌, arith, Bool-cases, Option-cases, inl, inr,
}
use mathlib.Core.Path.{subst}
use brandish_bot_go.Gamble.Winner.{
  Leaders, consider, find_leaders, insert_user, sort_users, WinnerResult, break_tie, announce,
  determine_gamble_winners,
}

-- The winner has a value that no other exceeds; there is none only where nobody has a value.
abbrev pub IsLeader : List (ℕ × ℕ) → Option ℕ → Type 0
IsLeader values none = values ≡ []
IsLeader values (some w) =
    (v : ℕ) × IsIn (w, v) values × ((u v' : ℕ) → IsIn (u, v') values → v' ≤ v)

-- The value of a leader is one under the bound.
abbrev Has : List (ℕ × ℕ) → ℕ → ℕ → Type 0
Has values above w = (v : ℕ) × (suc v ≡ above) × IsIn (w, v) values

-- Of the leaders so far: each has the highest value, and of the values no other is above.
abbrev Leads : List (ℕ × ℕ) → Leaders → Type 0
Leads values s = (w : ℕ) → IsIn w s.1 → Has values s.0 w

IsIn-append : (w u : ℕ) (ws : List ℕ) → IsIn w (ws ++ (u ∷ [])) → IsIn w ws ⊎ (w ≡ u)
IsIn-append w u [] (inl e) = inr e
IsIn-append w u [] (inr i) = absurd i
IsIn-append w u (x ∷ xs) (inl e) = inl (inl e)
IsIn-append w u (x ∷ xs) (inr i) = elim (IsIn-append w u xs i) [
  | inl before ↦ inl (inr before)
  | inr e ↦ inr e
]

new_leader : (values : List (ℕ × ℕ)) (u v w : ℕ) → IsIn (u, v) values → w ≡ u → Has values (suc v) w
new_leader values u v w i e = (v, refl, subst (λ x. IsIn (x, v) values) (cc) i)

Leads-consider :
    (values : List (ℕ × ℕ)) (above u v : ℕ) (ws : List ℕ)
    → IsIn (u, v) values
    → Leads values (above, ws)
    → Leads values (consider (above, ws) (u, v))
unfolding consider
Leads-consider values above u v ws i h = elim (Bool-cases (leb above v)) [
  | inl more ↦
      rw more
        (λ w j. elim j [ inl e ↦ new_leader values u v w i e | inr none_else ↦ absurd none_else ])
  | inr less ↦ elim (Bool-cases (suc v == above)) [
    | inl same ↦
        let e : suc v ≡ above = ground (arith, same) in
        rw (less, same)
          (λ w j. elim (IsIn-append w u ws j) [
            | inl old ↦ h w old
            | inr new ↦ subst (λ a. Has values a w) e (new_leader values u v w i new)
          ])
    | inr other ↦ rw (less, other) h
  ]
]

Leads-find :
    (values xs : List (ℕ × ℕ)) (s : Leaders)
    → ((y : ℕ × ℕ) → IsIn y xs → IsIn y values)
    → Leads values s
    → Leads values (find_leaders s xs)
unfolding find_leaders
Leads-find values [] s sub h = h
Leads-find values ((u, v) ∷ xs) s sub h =
    Leads-find values xs (consider s (u, v)) (λ y i. sub y (inr i))
      (Leads-consider values s.0 u v s.1 (sub (u, v) (inl refl)) h)

-- The bound only grows, and once there is a leader there is one.
consider-grows :
    (above u v : ℕ) (ws : List ℕ)
    → (above ≤ (consider (above, ws) (u, v)).0) × (v < (consider (above, ws) (u, v)).0)
unfolding consider
consider-grows above u v ws = ground arith

find_leaders-grows : (s : Leaders) (xs : List (ℕ × ℕ)) → s.0 ≤ (find_leaders s xs).0
unfolding find_leaders
find_leaders-grows s [] = omega arith
find_leaders-grows s ((u, v) ∷ xs) =
    omega (arith, (consider-grows s.0 u v s.1).0, find_leaders-grows (consider s (u, v)) xs)

below : (s : Leaders) (xs : List (ℕ × ℕ)) (u v : ℕ) → IsIn (u, v) xs → v < (find_leaders s xs).0
unfolding find_leaders
below s [] u v i = absurd i
below s ((x, y) ∷ xs) u v (inr i) = below (consider s (x, y)) xs u v i
below s ((x, y) ∷ xs) u v (inl e) =
    let same : v ≡ y = cc in
    omega (arith, same, (consider-grows s.0 x y s.1).1, find_leaders-grows (consider s (x, y)) xs)

IsIn-get_elem? : (l : List ℕ) (i w : ℕ) → get_elem? l i ≡ some w → IsIn w l
IsIn-get_elem? [] i w h = cc
IsIn-get_elem? (x ∷ xs) zero w h = inl cc
IsIn-get_elem? (x ∷ xs) (suc i) w h = inr (IsIn-get_elem? xs i w h)

IsIn-insert_user : (w u : ℕ) (l : List ℕ) → IsIn w (insert_user u l) → IsIn w (u ∷ l)
unfolding insert_user
IsIn-insert_user w u [] i = i
IsIn-insert_user w u (v ∷ vs) i = elim (Bool-cases (leb u v)) [
  | inl le ↦ rw le at i
  | inr gt ↦
      let j : IsIn w (v ∷ insert_user u vs) = rw gt at i in
      elim j [
        | inl e ↦ inr (inl e)
        | inr later ↦ elim (IsIn-insert_user w u vs later) [ inl e ↦ inl e | inr k ↦ inr (inr k) ]
      ]
]

IsIn-sort_users : (w : ℕ) (l : List ℕ) → IsIn w (sort_users l) → IsIn w l
unfolding sort_users
IsIn-sort_users w [] i = i
IsIn-sort_users w (u ∷ us) i = elim (IsIn-insert_user w u (sort_users us) i) [
  | inl e ↦ inl e
  | inr later ↦ inr (IsIn-sort_users w us later)
]

-- Who is announced is one of the leaders, or there is none.
Announced : List ℕ → Option ℕ → Type 0
Announced ws none = ws ≡ []
Announced ws (some w) = IsIn w ws

announce_lem :
    (rng : ℕ → ℕ) (above : ℕ) (ws : List ℕ) (r : WinnerResult)
    → announce rng (above, ws) ≡ some r
    → Announced ws r.winner_id
unfolding announce break_tie Announced
announce_lem rng above [] r h = let e : none ≡ r.winner_id = cc in rw (← e) refl
announce_lem rng above (w ∷ []) r h = let e : some w ≡ r.winner_id = cc in rw (← e) (inl refl)
announce_lem rng above (w ∷ v ∷ ws) r h =
    let sorted : List ℕ = sort_users (w ∷ v ∷ ws) in
    elim (Option-cases (get_elem? sorted (rng (length sorted)))) [
      | inl out ↦ let g : Path (Option WinnerResult) none (some r) = rw (break_tie, out) at h in cc
      | inr (x, found) ↦
          let g = rw (break_tie, found) at h in
          let e : some x ≡ r.winner_id = cc in
          rw (← e)
            (IsIn-sort_users x (w ∷ v ∷ ws) (IsIn-get_elem? sorted (rng (length sorted)) x found))
    ]

append_not_empty : (ws : List ℕ) (u : ℕ) → ws ++ (u ∷ []) ≡ [] → ⊥
append_not_empty [] u h = cc
append_not_empty (w ∷ ws) u h = cc

consider_empty :
    (above u v : ℕ) (ws : List ℕ) → (consider (above, ws) (u, v)).1 ≡ [] → (ws ≡ []) × (v < above)
unfolding consider
consider_empty above u v ws h = elim (Bool-cases (leb above v)) [
  | inl more ↦ let g : u ∷ [] ≡ [] = rw more at h in cc
  | inr less ↦ elim (Bool-cases (suc v == above)) [
    | inl same ↦ absurd (append_not_empty ws u (rw (less, same) at h))
    | inr other ↦ (rw (less, other) at h, ground arith)
  ]
]

find_leaders_empty : (s : Leaders) (xs : List (ℕ × ℕ)) → (find_leaders s xs).1 ≡ [] → s.1 ≡ []
unfolding find_leaders
find_leaders_empty s [] h = h
find_leaders_empty s ((u, v) ∷ xs) h =
    (consider_empty s.0 u v s.1 (find_leaders_empty (consider s (u, v)) xs h)).0

nobody : (values : List (ℕ × ℕ)) → (find_leaders (0, []) values).1 ≡ [] → values ≡ []
unfolding find_leaders
nobody [] h = refl
nobody ((u, v) ∷ xs) h =
    let e = find_leaders_empty (consider (0, []) (u, v)) xs h in
    absurd (omega (arith, (consider_empty 0 u v [] e).1))

pub determine_gamble_winners-IsLeader :
    (rng : ℕ → ℕ) (values : List (ℕ × ℕ)) (r : WinnerResult)
    → determine_gamble_winners rng values ≡ some r
    → IsLeader values r.winner_id
unfolding determine_gamble_winners Announced
determine_gamble_winners-IsLeader rng values r h = leads r.winner_id (announce_lem rng s.0 s.1 r h)
  where
    s : Leaders
    s = find_leaders (0, []) values

    leads : (o : Option ℕ) → Announced s.1 o → IsLeader values o
    leads none e = nobody values e
    leads (some w) i =
        let (v, top, member) = Leads-find values values (0, []) (λ y j. j) (λ u j. absurd j) w i in
        (v, member, λ u v' j. omega (arith, top, below (0, []) values u v' j))
