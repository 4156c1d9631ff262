-- ===== src/Gamble/Winner.antt =====
-- internal/gamble/calculation.go, determineGambleWinners: the values of the users come out of a map,
-- in an order that is not determined.
pub mod Order
pub mod Leader
use brandish_bot_go.Prelude.{
  ℕ, zero, suc, ◌+◌, ◌-◌, Bool, true, false, not, Option, none, some, List, [], ◌∷◌, ◌++◌, length,
  get_elem?, ltb, leb, ◌==◌, if◌then◌else◌,
}

-- The highest value so far, plus one (so that the initial -1 is 0), and who has it.
abbrev pub Leaders : Type 0
Leaders = ℕ × List ℕ

-- One turn of the loop.
unfoldable pub consider : Leaders → ℕ × ℕ → Leaders
consider (above, winners) (user, value) =
    if leb above value
    then (suc value, user ∷ [])
    else if suc value == above
    then (above, winners ++ (user ∷ []))
    else (above, winners)

unfoldable pub find_leaders : Leaders → List (ℕ × ℕ) → Leaders
find_leaders s [] = s
find_leaders s (x ∷ xs) = find_leaders (consider s x) xs

-- `sort.Strings`; users are numbers in the order of their names.
unfoldable pub insert_user : ℕ → List ℕ → List ℕ
insert_user u [] = u ∷ []
insert_user u (v ∷ vs) = let rest = insert_user u vs in if leb u v then u ∷ v ∷ vs else v ∷ rest

unfoldable pub sort_users : List ℕ → List ℕ
sort_users [] = []
sort_users (u ∷ us) = insert_user u (sort_users us)

abbrev pub others : ℕ → List ℕ → List ℕ
others winner [] = []
others winner (u ∷ us) = let rest = others winner us in if u == winner then rest else u ∷ rest

pub record WinnerResult : Type 0 where
  pub winner_id : Option ℕ  -- none is the empty name
  pub highest_value : ℕ
  pub tie_break_lost : List ℕ

-- The draw among several winners, who are sorted; an index out of range is a panic.
unfoldable pub break_tie : (ℕ → ℕ) → ℕ → List ℕ → Option WinnerResult
break_tie rng above sorted = elim (get_elem? sorted (rng (length sorted))) [
  | none ↦ none
  | some w ↦
      some
        (record { winner_id = some w; highest_value = above - 1; tie_break_lost = others w sorted })
]

unfoldable pub announce : (ℕ → ℕ) → Leaders → Option WinnerResult
announce rng (above, []) =
    some (record { winner_id = none; highest_value = 0; tie_break_lost = [] })
announce rng (above, w ∷ []) =
    some (record { winner_id = some w; highest_value = above - 1; tie_break_lost = [] })
announce rng (above, w ∷ v ∷ ws) = break_tie rng above (sort_users (w ∷ v ∷ ws))

-- `determineGambleWinners`; the outer `none` is a panic.
unfoldable pub determine_gamble_winners : (ℕ → ℕ) → List (ℕ × ℕ) → Option WinnerResult
unfolding find_leaders announce
determine_gamble_winners rng values = announce rng (find_leaders (0, []) values)
