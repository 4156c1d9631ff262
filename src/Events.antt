-- ===== src/Events.antt =====
-- internal/event/resilient_publisher.go: publishing with retries and dead letters.
--
-- An event is a number. A move is one step of a publisher, of the worker or of a goroutine that
-- waits to queue an event again; whether the bus delivers, and whether a dead letter
-- could be written, is part of the move.
pub mod Retries
use brandish_bot_go.Prelude.{
  ℕ, ◌+◌, Bool, true, false, Option, none, some, List, [], ◌∷◌, ◌++◌, length, get_elem?, remove_at,
  ltb, leb, if◌then◌else◌,
}

-- `RetryQueueBufferSize`
abbrev pub retry_queue_buffer_size : ℕ
retry_queue_buffer_size = 1000

pub record RetryEntry : Type 0 where
  pub event : ℕ
  pub attempt : ℕ

pub record Publisher : Type 0 where
  pub retry_queue : List RetryEntry
  pub waiting : List RetryEntry  -- in goroutines that wait to queue them
  pub dead_letters : List RetryEntry
  pub dropped : List RetryEntry  -- whose dead letter could not be written
  pub delivered : List RetryEntry

pub data PublisherMove : Type 0 where
  publish : ℕ → Bool → Bool → PublisherMove
  process drain : Bool → Bool → PublisherMove
  requeue : ℕ → PublisherMove
  give_up : ℕ → Bool → PublisherMove

abbrev pub entry : ℕ → ℕ → RetryEntry
entry e n = record { event = e; attempt = n }

abbrev pub deliver : Publisher → RetryEntry → Publisher
deliver s x = record s { delivered = x ∷ s.delivered }

-- A dead letter: where its write fails that is logged, and the event is gone.
abbrev pub bury : Bool → Publisher → RetryEntry → Publisher
bury true s x = record s { dead_letters = x ∷ s.dead_letters }
bury false s x = record s { dropped = x ∷ s.dropped }

-- `PublishWithRetry`: a send that does not block, or a dead letter.
unfoldable pub publish_with_retry : Publisher → ℕ → Bool → Bool → Publisher
publish_with_retry s e true written = deliver s (entry e 0)
publish_with_retry s e false written =
    if ltb (length s.retry_queue) retry_queue_buffer_size
    then record s { retry_queue = s.retry_queue ++ (entry e 1 ∷ []) }
    else bury written s (entry e 0)

-- What processRetry does with an entry that the bus has not delivered.
abbrev pub not_delivered : Bool → ℕ → Publisher → RetryEntry → Publisher
not_delivered written max_retries s x =
    if leb max_retries x.attempt
    then bury written s x
    else record s { waiting = entry x.event (x.attempt + 1) ∷ s.waiting }

-- `processRetry`, on the first entry of the queue.
unfoldable pub process_retry : ℕ → Publisher → List RetryEntry → Bool → Bool → Option Publisher
process_retry max_retries s [] ok written = none
process_retry max_retries s (x ∷ xs) true written = some (deliver (record s { retry_queue = xs }) x)
process_retry max_retries s (x ∷ xs) false written =
    some (not_delivered written max_retries (record s { retry_queue = xs }) x)

-- One turn of `drainQueue`.
unfoldable pub drain_queue : Publisher → List RetryEntry → Bool → Bool → Option Publisher
drain_queue s [] ok written = none
drain_queue s (x ∷ xs) true written = some (deliver (record s { retry_queue = xs }) x)
drain_queue s (x ∷ xs) false written = some (bury written (record s { retry_queue = xs }) x)

-- The two ends of a waiting goroutine: there is room in the queue, or the publisher shuts down.
unfoldable pub requeue_at : Publisher → ℕ → Option Publisher
requeue_at s i = elim (get_elem? s.waiting i) [
  | none ↦ none
  | some x ↦
      if ltb (length s.retry_queue) retry_queue_buffer_size
      then some
          (record s { waiting = remove_at s.waiting i; retry_queue = s.retry_queue ++ (x ∷ []) })
      else none
]

unfoldable pub give_up_at : Publisher → ℕ → Bool → Option Publisher
give_up_at s i written = elim (get_elem? s.waiting i) [
  | none ↦ none
  | some x ↦ some (bury written (record s { waiting = remove_at s.waiting i }) x)
]

unfoldable pub move : ℕ → Publisher → PublisherMove → Option Publisher
unfolding publish_with_retry process_retry drain_queue requeue_at give_up_at
move max_retries s (publish e ok written) = some (publish_with_retry s e ok written)
move max_retries s (process ok written) = process_retry max_retries s s.retry_queue ok written
move max_retries s (drain ok written) = drain_queue s s.retry_queue ok written
move max_retries s (requeue i) = requeue_at s i
move max_retries s (give_up i written) = give_up_at s i written

unfoldable pub moves : ℕ → Publisher → List PublisherMove → Option Publisher
moves max_retries s [] = some s
moves max_retries s (m ∷ ms) = elim (move max_retries s m) [
  | none ↦ none
  | some s' ↦ moves max_retries s' ms
]

abbrev pub new_publisher : Publisher
new_publisher = record {
  retry_queue = [];
  waiting = [];
  dead_letters = [];
  dropped = [];
  delivered = [];
}
