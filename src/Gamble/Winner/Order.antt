-- ===== src/Gamble/Winner/Order.antt =====
-- The order in which the map gives the users does not matter.
use brandish_bot_go.Prelude.{
  ℕ, suc, ◌-◌, ◌≡◌, refl, sym, ◌∙◌, ap, Option, none, some, List, [], ◌∷◌, ◌++◌, length, arith,
}
use mathlib.Core.List.{Permᴰ}
use brandish_bot_go.Gamble.Winner.{
  Leaders, consider, find_leaders, insert_user, sort_users, WinnerResult, break_tie, announce,
  determine_gamble_winners,
}

insert_comm :
    (a b : ℕ) (l : List ℕ) → insert_user a (insert_user b l) ≡ insert_user b (insert_user a l)
unfolding insert_user
insert_comm a b [] = ground arith
insert_comm a b (x ∷ xs) = ground (arith, insert_comm a b xs)

sort-append : (ws : List ℕ) (u : ℕ) → sort_users (ws ++ (u ∷ [])) ≡ insert_user u (sort_users ws)
unfolding sort_users
sort-append [] u = refl
sort-append (w ∷ ws) u = ap (insert_user w) (sort-append ws u) ∙ insert_comm w u (sort_users ws)

-- The same highest value, and the same winners up to their order.
Same : Leaders → Leaders → Type 0
Same s t = (s.0 ≡ t.0) × (sort_users s.1 ≡ sort_users t.1)

Same-consider : (s t : Leaders) (x : ℕ × ℕ) → Same s t → Same (consider s x) (consider t x)
unfolding Same consider
Same-consider (a, ws) (b, vs) (u, v) (e, f) = ground (arith, sort-append ws u, sort-append vs u)

Same-find :
    (s t : Leaders) (xs : List (ℕ × ℕ)) → Same s t → Same (find_leaders s xs) (find_leaders t xs)
unfolding find_leaders
Same-find s t [] h = h
Same-find s t (x ∷ xs) h = Same-find (consider s x) (consider t x) xs (Same-consider s t x h)

sort_pair : (a b : ℕ) → sort_users (a ∷ b ∷ []) ≡ sort_users (b ∷ a ∷ [])
unfolding sort_users
sort_pair a b = insert_comm a b []

Same-swap :
    (s : Leaders) (x y : ℕ × ℕ) → Same (consider (consider s x) y) (consider (consider s y) x)
unfolding Same consider
Same-swap (a, ws) (u, v) (u', v') = ground (
  arith,
  sort-append (ws ++ (u ∷ [])) u',
  sort-append (ws ++ (u' ∷ [])) u,
  sort-append ws u,
  sort-append ws u',
  insert_comm u u' (sort_users ws),
  sort_pair u u',
)

Same-self : (s : Leaders) → Same s s
unfolding Same
Same-self s = (refl, refl)

Same-trans : (s t r : Leaders) → Same s t → Same t r → Same s r
unfolding Same
Same-trans s t r (e, f) (e', f') = (e ∙ e', f ∙ f')

Same-perm :
    (xs ys : List (ℕ × ℕ)) (s t : Leaders)
    → Permᴰ xs ys
    → Same s t
    → Same (find_leaders s xs) (find_leaders t ys)
unfolding find_leaders
Same-perm xs ys s t Permᴰ.nil h = h
Same-perm xs ys s t (Permᴰ.cons {a} {b} {l₁} {l₂} e d) h =
    rw e (Same-perm l₁ l₂ (consider s b) (consider t b) d (Same-consider s t b h))
Same-perm xs ys s t (Permᴰ.swap {a} {b} {a'} {b'} {l} e f) h =
    let one = Same-consider (consider s a) (consider t a) b (Same-consider s t a h) in
    let two = Same-swap t a b in
    rw (← e, ← f)
      (Same-find (consider (consider s a) b) (consider (consider t b) a) l (
        Same-trans (consider (consider s a) b) (consider (consider t a) b)
          (consider (consider t b) a) one two))
Same-perm xs ys s t (Permᴰ.trans {l₁} {l₂} {l₃} d d') h =
    Same-trans (find_leaders s xs) (find_leaders t l₂) (find_leaders t ys) (Same-perm xs l₂ s t d h)
      (Same-perm l₂ ys t t d' (Same-self t))

length-insert : (u : ℕ) (l : List ℕ) → length (insert_user u l) ≡ suc (length l)
unfolding insert_user
length-insert u [] = refl
length-insert u (v ∷ vs) = ground (arith, length-insert u vs)

length-sort : (l : List ℕ) → length (sort_users l) ≡ length l
unfolding sort_users
length-sort [] = refl
length-sort (u ∷ us) = omega (arith, length-insert u (sort_users us), length-sort us)

-- What is announced, from the sorted winners.
abbrev from_sorted : (ℕ → ℕ) → ℕ → List ℕ → Option WinnerResult
from_sorted rng above [] =
    some (record { winner_id = none; highest_value = 0; tie_break_lost = [] })
from_sorted rng above (w ∷ []) =
    some (record { winner_id = some w; highest_value = above - 1; tie_break_lost = [] })
from_sorted rng above (w ∷ v ∷ ws) = break_tie rng above (w ∷ v ∷ ws)

from_several :
    (rng : ℕ → ℕ) (above n : ℕ) (l : List ℕ)
    → length l ≡ suc (suc n)
    → from_sorted rng above l ≡ break_tie rng above l
from_several rng above n [] h = absurd (omega arith)
from_several rng above n (w ∷ []) h = absurd (omega arith)
from_several rng above n (w ∷ v ∷ ws) h = refl

announce_sorted :
    (rng : ℕ → ℕ) (s : Leaders) → announce rng s ≡ from_sorted rng s.0 (sort_users s.1)
unfolding announce sort_users insert_user
announce_sorted rng (above, []) = refl
announce_sorted rng (above, w ∷ []) = refl
announce_sorted rng (above, w ∷ v ∷ ws) =
    sym (from_several rng above (length ws) (sort_users (w ∷ v ∷ ws)) (length-sort (w ∷ v ∷ ws)))

-- Whatever the order in which the map gives the users, the same winner is drawn for the same draw,
-- with the same highest value and the same users who lost the tie-break.
pub determine_gamble_winners-perm :
    (rng : ℕ → ℕ) (values values' : List (ℕ × ℕ))
    → Permᴰ values values'
    → determine_gamble_winners rng values ≡ determine_gamble_winners rng values'
unfolding determine_gamble_winners Same
determine_gamble_winners-perm rng values values' d =
    let (e, f) = Same-perm values values' (0, []) (0, []) d (refl, refl) in
    rw
      (
        announce_sorted rng (find_leaders (0, []) values),
        announce_sorted rng (find_leaders (0, []) values'),
        e,
        f,
      )
      refl
