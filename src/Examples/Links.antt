-- ===== src/Examples/Links.antt =====
-- The theorems on linking at concrete tokens.
use brandish_bot_go.Prelude.{◌+◌, ◌≡◌, refl, none, [], ◌∷◌, ltb, if◌then◌else◌}
use brandish_bot_go.Failure.{ok, err, no_pending_unlink}
use brandish_bot_go.Linking.{Calls, Table, new_token, unlink_timeout, initiate_link, claim_link}
use brandish_bot_go.Linking.Steps.{Grows, initiates, claim, Step-Grows}
use brandish_bot_go.Linking.Links.{IsSound, start, next, Reached-IsSound}
use brandish_bot_go.Linking.Unlinks
use brandish_bot_go.Linking.Unlinks.{
  initiate_unlink, confirm_unlink, unlinked, confirm_unlink-initiate_unlink,
}

abbrev linking : Calls
linking = record {
  generate = ok 77;
  upper = λ n. n;
  invalidate = ok tt;
  create = ok tt;
  read = ok tt;
  update = ok tt;
}

abbrev one_token : Table
one_token = new_token 77 1 10 0 ∷ []

Step-Grows_example : Grows 5 one_token (claim_link linking 5 77 2 20 one_token).1
Step-Grows_example = Step-Grows (claim linking 77 2 20 one_token) (refl, tt)

Reached-IsSound_example :
    IsSound (claim_link linking 5 77 2 20 (initiate_link linking 0 1 10 []).1).1
Reached-IsSound_example = Reached-IsSound (
    next (claim linking 77 2 20 (initiate_link linking 0 1 10 []).1)
      (next (initiates linking 1 10 []) start))

abbrev unlinking : Unlinks.Calls
unlinking = record {
  key = λ platform id target. platform + (id + target);
  find_user = ok tt;
  unlink_platform = ok tt;
}

confirm_unlink-initiate_unlink_example :
    let (r, cache') =
      confirm_unlink unlinking 9 1 10 2 (initiate_unlink unlinking 3 1 10 2 (λ k. none)) in
    (r ≡ (
      if ltb (3 + unlink_timeout) 9
      then err no_pending_unlink
      else unlinked unlinking (unlinking.find_user)))
    × (if ltb (3 + unlink_timeout) 9
        then Unit
        else confirm_unlink unlinking 10 1 10 2 cache' ≡ (err no_pending_unlink, cache'))
confirm_unlink-initiate_unlink_example =
    confirm_unlink-initiate_unlink unlinking 1 10 2 (λ k. none) 3 9 10
