-- ===== src/Examples/Retried.antt =====
-- The theorem on retries at a concrete run.
use brandish_bot_go.Prelude.{◌≡◌, refl, true, false, Option, none, some, List, [], ◌∷◌}
use brandish_bot_go.Events.{
  Publisher, PublisherMove, publish, process, requeue, move, moves, new_publisher,
  publish_with_retry, process_retry, requeue_at,
}
use brandish_bot_go.Events.Retries.{whereabouts, published, moves-whereabouts}

-- Event 4 fails twice, event 5 is delivered at once.
abbrev attempts : List PublisherMove
attempts =
    publish 4 false true
    ∷ publish 5 true true
    ∷ process false true
    ∷ requeue 0
    ∷ process true true
    ∷ []

abbrev or_new_publisher : Option Publisher → Publisher
or_new_publisher none = new_publisher
or_new_publisher (some s) = s

abbrev tried : Publisher
tried = or_new_publisher (moves 5 new_publisher attempts)

is_tried : moves 5 new_publisher attempts ≡ some tried
unfolding moves move publish_with_retry process_retry requeue_at
is_tried = refl

moves-whereabouts_example : whereabouts 4 tried ≡ published 4 attempts
moves-whereabouts_example = moves-whereabouts 5 4 attempts tried is_tried
