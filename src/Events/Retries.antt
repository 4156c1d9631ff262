-- ===== src/Events/Retries.antt =====
-- No event is doubled by the retries, and none is lost but by a dead letter that cannot be written.
use brandish_bot_go.Prelude.{
  ℕ, zero, suc, ◌+◌, ◌≡◌, refl, Bool, true, false, Option, none, some, List, [], ◌∷◌, ◌++◌, length,
  get_elem?, remove_at, ltb, leb, ◌==◌, if◌then◌else◌, arith, Bool-cases, Option-cases, inl, inr,
}
use brandish_bot_go.Events.{
  retry_queue_buffer_size, RetryEntry, Publisher, PublisherMove, publish, process, drain, requeue,
  give_up, entry, deliver, bury, publish_with_retry, process_retry, drain_queue, requeue_at,
  give_up_at, move, moves, new_publisher,
}

abbrev pub occurrences : ℕ → List RetryEntry → ℕ
occurrences e [] = 0
occurrences e (x ∷ xs) = (if x.event == e then 1 else 0) + occurrences e xs

-- Where an event can be.
abbrev pub whereabouts : ℕ → Publisher → ℕ
whereabouts e s =
    occurrences e s.retry_queue
    + occurrences e s.waiting
    + occurrences e s.dead_letters
    + occurrences e s.dropped
    + occurrences e s.delivered

abbrev pub published : ℕ → List PublisherMove → ℕ
published e [] = 0
published e (publish f ok written ∷ ms) = (if f == e then 1 else 0) + published e ms
published e (process ok written ∷ ms) = published e ms
published e (drain ok written ∷ ms) = published e ms
published e (requeue i ∷ ms) = published e ms
published e (give_up i written ∷ ms) = published e ms

occurrences-append :
    (e : ℕ) (xs ys : List RetryEntry)
    → occurrences e (xs ++ ys) ≡ occurrences e xs + occurrences e ys
occurrences-append e [] ys = omega arith
occurrences-append e (x ∷ xs) ys = omega (arith, occurrences-append e xs ys)

occurrences-remove_at :
    (e : ℕ) (xs : List RetryEntry) (i : ℕ) (x : RetryEntry)
    → get_elem? xs i ≡ some x
    → occurrences e (remove_at xs i) + (if x.event == e then 1 else 0) ≡ occurrences e xs
occurrences-remove_at e [] i x h = cc
occurrences-remove_at e (y ∷ ys) zero x h = ground (arith, h)
occurrences-remove_at e (y ∷ ys) (suc i) x h = omega (arith, occurrences-remove_at e ys i x h)

bury_lem :
    (e : ℕ) (written : Bool) (s : Publisher) (x : RetryEntry)
    → whereabouts e (bury written s x) ≡ whereabouts e s + (if x.event == e then 1 else 0)
bury_lem e true s x = omega arith
bury_lem e false s x = omega arith

publish_lem :
    (s : Publisher) (f e : ℕ) (ok written : Bool)
    → whereabouts e (publish_with_retry s f ok written)
      ≡ whereabouts e s + (if f == e then 1 else 0)
unfolding publish_with_retry
publish_lem s f e true written = omega arith
publish_lem s f e false written =
    elim (Bool-cases (ltb (length s.retry_queue) retry_queue_buffer_size)) [
      | inl room ↦ rw room (omega (arith, occurrences-append e s.retry_queue (entry f 1 ∷ [])))
      | inr full ↦ rw full (bury_lem e written s (entry f 0))
    ]

process_lem :
    (max_retries : ℕ) (s s' : Publisher) (q : List RetryEntry) (ok written : Bool) (e : ℕ)
    → s.retry_queue ≡ q
    → process_retry max_retries s q ok written ≡ some s'
    → whereabouts e s' ≡ whereabouts e s
unfolding process_retry
process_lem max_retries s s' [] ok written e eq h = cc
process_lem max_retries s s' (x ∷ xs) true written e eq h =
    let r : deliver (record s { retry_queue = xs }) x ≡ s' = cc in rw (← r, eq) (omega arith)
process_lem max_retries s s' (x ∷ xs) false written e eq h =
    elim (Bool-cases (leb max_retries x.attempt)) [
      | inl last ↦
          let h' : Path (Option Publisher) (some (bury written (record s { retry_queue = xs }) x))
              (some s') =
            rw last at h in
          let r : bury written (record s { retry_queue = xs }) x ≡ s' = cc in
          rw (← r, eq) (omega (arith, bury_lem e written (record s { retry_queue = xs }) x))
      | inr again ↦
          let t : Publisher = record s {
            retry_queue = xs;
            waiting = entry x.event (x.attempt + 1) ∷ s.waiting;
          } in
          let h' : Path (Option Publisher) (some t) (some s') = rw again at h in
          let r : t ≡ s' = cc in rw (← r, eq) (omega arith)
    ]

drain_lem :
    (s s' : Publisher) (q : List RetryEntry) (ok written : Bool) (e : ℕ)
    → s.retry_queue ≡ q
    → drain_queue s q ok written ≡ some s'
    → whereabouts e s' ≡ whereabouts e s
unfolding drain_queue
drain_lem s s' [] ok written e eq h = cc
drain_lem s s' (x ∷ xs) true written e eq h =
    let r : deliver (record s { retry_queue = xs }) x ≡ s' = cc in rw (← r, eq) (omega arith)
drain_lem s s' (x ∷ xs) false written e eq h =
    let r : bury written (record s { retry_queue = xs }) x ≡ s' = cc in
    rw (← r, eq) (omega (arith, bury_lem e written (record s { retry_queue = xs }) x))

requeue_lem :
    (s s' : Publisher) (i e : ℕ) → requeue_at s i ≡ some s' → whereabouts e s' ≡ whereabouts e s
unfolding requeue_at
requeue_lem s s' i e h = elim (Option-cases (get_elem? s.waiting i)) [
  | inl gone ↦ (let h' : Path (Option Publisher) none (some s') = rw (requeue_at, gone) at h in cc)
  | inr (x, found) ↦ elim (Bool-cases (ltb (length s.retry_queue) retry_queue_buffer_size)) [
    | inl room ↦
        let t : Publisher = record s {
          waiting = remove_at s.waiting i;
          retry_queue = s.retry_queue ++ (x ∷ []);
        } in
        let h' : Path (Option Publisher) (some t) (some s') = rw (requeue_at, found, room) at h in
        let r : t ≡ s' = cc in
        rw (← r) (
          omega (
            arith,
            occurrences-append e s.retry_queue (x ∷ []),
            occurrences-remove_at e s.waiting i x found,
          ))
    | inr full ↦
        (let h' : Path (Option Publisher) none (some s') = rw (requeue_at, found, full) at h in cc)
  ]
]

give_up_lem :
    (s s' : Publisher) (i e : ℕ) (written : Bool)
    → give_up_at s i written ≡ some s'
    → whereabouts e s' ≡ whereabouts e s
unfolding give_up_at
give_up_lem s s' i e written h = elim (Option-cases (get_elem? s.waiting i)) [
  | inl gone ↦ (let h' : Path (Option Publisher) none (some s') = rw (give_up_at, gone) at h in cc)
  | inr (x, found) ↦
      let t : Publisher = bury written (record s { waiting = remove_at s.waiting i }) x in
      let h' : Path (Option Publisher) (some t) (some s') = rw (give_up_at, found) at h in
      let r : t ≡ s' = cc in
      rw (← r) (
        omega (
          arith,
          bury_lem e written (record s { waiting = remove_at s.waiting i }) x,
          occurrences-remove_at e s.waiting i x found,
        ))
]

moves_lem :
    (max_retries e : ℕ) (ms : List PublisherMove) (s s' : Publisher)
    → moves max_retries s ms ≡ some s'
    → whereabouts e s' ≡ whereabouts e s + published e ms
unfolding moves move
moves_lem max_retries e [] s s' h = let r : s ≡ s' = cc in rw r (omega arith)
moves_lem max_retries e (publish f ok written ∷ ms) s s' h = omega (
  arith,
  moves_lem max_retries e ms (publish_with_retry s f ok written) s' h,
  publish_lem s f e ok written,
)
moves_lem max_retries e (process ok written ∷ ms) s s' h =
    elim (Option-cases (process_retry max_retries s s.retry_queue ok written)) [
      | inl stuck ↦ (let h' : Path (Option Publisher) none (some s') = rw (moves, stuck) at h in cc)
      | inr (t, q) ↦ omega (
        arith,
        moves_lem max_retries e ms t s' (rw (moves, q) at h),
        process_lem max_retries s t s.retry_queue ok written e refl q,
      )
    ]
moves_lem max_retries e (drain ok written ∷ ms) s s' h =
    elim (Option-cases (drain_queue s s.retry_queue ok written)) [
      | inl stuck ↦ (let h' : Path (Option Publisher) none (some s') = rw (moves, stuck) at h in cc)
      | inr (t, q) ↦ omega (
        arith,
        moves_lem max_retries e ms t s' (rw (moves, q) at h),
        drain_lem s t s.retry_queue ok written e refl q,
      )
    ]
moves_lem max_retries e (requeue i ∷ ms) s s' h = elim (Option-cases (requeue_at s i)) [
  | inl stuck ↦ (let h' : Path (Option Publisher) none (some s') = rw (moves, stuck) at h in cc)
  | inr (t, q) ↦
      omega (arith, moves_lem max_retries e ms t s' (rw (moves, q) at h), requeue_lem s t i e q)
]
moves_lem max_retries e (give_up i written ∷ ms) s s' h =
    elim (Option-cases (give_up_at s i written)) [
      | inl stuck ↦ (let h' : Path (Option Publisher) none (some s') = rw (moves, stuck) at h in cc)
      | inr (t, q) ↦ omega (
        arith,
        moves_lem max_retries e ms t s' (rw (moves, q) at h),
        give_up_lem s t i e written q,
      )
    ]

-- However the moves of a new publisher, its worker and its goroutines interleave, every event is
-- as often delivered, dead, queued, waiting or dropped by a dead letter that could not be written,
-- taken together, as it was published.
pub moves-whereabouts :
    (max_retries e : ℕ) (ms : List PublisherMove) (s : Publisher)
    → moves max_retries new_publisher ms ≡ some s
    → whereabouts e s ≡ published e ms
moves-whereabouts max_retries e ms s h = omega (arith, moves_lem max_retries e ms new_publisher s h)
