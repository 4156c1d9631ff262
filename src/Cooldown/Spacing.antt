-- ===== src/Cooldown/Spacing.antt =====
-- The committed uses of an action are apart by the cooldown, and one request at a time is past the
-- lock.
use brandish_bot_go.Prelude.{
  ℕ, ◌+◌, ◌≡◌, refl, true, Option, none, some, List, [], ◌∷◌, ◌==◌, arith, Bool-cases, Option-cases,
  inl, inr,
}
use brandish_bot_go.Cooldown.{
  Phase, idle, checked, locked, passed, ran, stamped, State, Move, tick, check, acquire, recheck,
  execute, stamp, commit, abort, set_phase, release, on_cooldown, step, run, initial, check_at,
  acquire_at, recheck_at, execute_at, stamp_at, commit_at, abort_at,
}
use brandish_bot_go.Cooldown.Invariant.{
  is_critical, IsSpaced, Inv, IsReady-later, over, Inv-move, Inv-release, Inv-commit,
}

module _ (duration : ℕ) (s : State) (p : ℕ) (s' : State) (i : Inv duration s) where
  becomes : (r : State) → Inv duration r → Path (Option State) (some r) (some s') → Inv duration s'
  becomes r j h = let e : r ≡ s' = cc in rw (← e) j

  Inv-check : (f : Phase) → check_at duration s p f ≡ some s' → Inv duration s'
  Inv-check idle h = elim (Bool-cases (on_cooldown duration s)) [
    | inl late ↦ becomes s i (rw late at h)
    | inr over ↦
        becomes (set_phase s p checked) (Inv-move duration s p checked i (λ c. cc) tt)
          (rw over at h)
  ]
  Inv-check checked h = cc
  Inv-check locked h = cc
  Inv-check passed h = cc
  Inv-check ran h = cc
  Inv-check (stamped t) h = cc

  -- Before anybody holds the lock nobody is past it.
  lock_free : (q : ℕ) → s.holder ≡ none → is_critical (s.phase q) ≡ true → s.holder ≡ some p
  lock_free q e c = let a = i.alone q c in cc

  taken : State
  taken = record (set_phase s p locked) { holder = some p }

  Inv-taken : s.holder ≡ none → Inv duration taken
  unfolding taken
  Inv-taken e = record {
    alone = λ q. elim (Bool-cases (q == p)) [
      | inl same ↦ (let eq : q ≡ p = ground arith in rw eq (λ c. refl))
      | inr other ↦ rw other (λ c. let a = i.alone q c in cc)
    ];
    ready = λ q. elim (Bool-cases (q == p)) [
      | inl same ↦ rw same tt
      | inr other ↦ rw other (i.ready q)
    ];
    agrees = i.agrees;
    spaced = i.spaced;
  }

  Inv-acquire :
      (f : Phase) (o : Option ℕ) → s.holder ≡ o → acquire_at s p f o ≡ some s' → Inv duration s'
  unfolding taken
  Inv-acquire checked none e h = becomes taken (Inv-taken e) h
  Inv-acquire checked (some q) e h = cc
  Inv-acquire idle none e h = cc
  Inv-acquire idle (some q) e h = cc
  Inv-acquire locked none e h = cc
  Inv-acquire locked (some q) e h = cc
  Inv-acquire passed none e h = cc
  Inv-acquire passed (some q) e h = cc
  Inv-acquire ran none e h = cc
  Inv-acquire ran (some q) e h = cc
  Inv-acquire (stamped t) none e h = cc
  Inv-acquire (stamped t) (some q) e h = cc

  Inv-recheck : (f : Phase) → s.phase p ≡ f → recheck_at duration s p f ≡ some s' → Inv duration s'
  Inv-recheck idle e h = cc
  Inv-recheck checked e h = cc
  Inv-recheck locked e h = elim (Bool-cases (on_cooldown duration s)) [
    | inl late ↦ becomes (release s p) (Inv-release duration s p i (rw e refl)) (rw late at h)
    | inr ended ↦
        becomes (set_phase s p passed)
          (Inv-move duration s p passed i (λ c. i.alone p (rw e refl))
            (over duration s.clock s.last_used ended))
          (rw ended at h)
  ]
  Inv-recheck passed e h = cc
  Inv-recheck ran e h = cc
  Inv-recheck (stamped t) e h = cc

  Inv-execute : (f : Phase) → s.phase p ≡ f → execute_at s p f ≡ some s' → Inv duration s'
  Inv-execute idle e h = cc
  Inv-execute checked e h = cc
  Inv-execute locked e h = cc
  Inv-execute passed e h =
      becomes (set_phase s p ran)
        (Inv-move duration s p ran i (λ c. i.alone p (rw e refl)) (rw e at (i.ready p))) h
  Inv-execute ran e h = cc
  Inv-execute (stamped t) e h = cc

  Inv-stamp : (f : Phase) → s.phase p ≡ f → stamp_at s p f ≡ some s' → Inv duration s'
  Inv-stamp idle e h = cc
  Inv-stamp checked e h = cc
  Inv-stamp locked e h = cc
  Inv-stamp passed e h = cc
  Inv-stamp ran e h =
      becomes (set_phase s p (stamped s.clock))
        (Inv-move duration s p (stamped s.clock) i (λ c. i.alone p (rw e refl))
          (rw e at (i.ready p)))
        h
  Inv-stamp (stamped t) e h = cc

  Inv-commit_at : (f : Phase) → s.phase p ≡ f → commit_at s p f ≡ some s' → Inv duration s'
  Inv-commit_at idle e h = cc
  Inv-commit_at checked e h = cc
  Inv-commit_at locked e h = cc
  Inv-commit_at passed e h = cc
  Inv-commit_at ran e h = cc
  Inv-commit_at (stamped t) e h =
      becomes (record (release s p) { last_used = some t; uses = t ∷ s.uses })
        (Inv-commit duration s p t i e) h

  Inv-abort : (f : Phase) → s.phase p ≡ f → abort_at s p f ≡ some s' → Inv duration s'
  Inv-abort idle e h = cc
  Inv-abort checked e h = becomes (set_phase s p idle) (Inv-move duration s p idle i (λ c. cc) tt) h
  Inv-abort locked e h = becomes (release s p) (Inv-release duration s p i (rw e refl)) h
  Inv-abort passed e h = becomes (release s p) (Inv-release duration s p i (rw e refl)) h
  Inv-abort ran e h = becomes (release s p) (Inv-release duration s p i (rw e refl)) h
  Inv-abort (stamped t) e h = becomes (release s p) (Inv-release duration s p i (rw e refl)) h

Inv-tick :
    (duration : ℕ) (s : State) (n : ℕ)
    → Inv duration s
    → Inv duration (record s { clock = s.clock + n })
Inv-tick duration s n i = record {
  alone = i.alone;
  ready = λ q. IsReady-later duration s.last_used s.clock n (s.phase q) (i.ready q);
  agrees = i.agrees;
  spaced = i.spaced;
}

Inv-step :
    (duration : ℕ) (s s' : State) (m : Move)
    → Inv duration s
    → step duration s m ≡ some s'
    → Inv duration s'
unfolding step
Inv-step duration s s' (tick n) i h =
    becomes duration s 0 s' i (record s { clock = s.clock + n }) (Inv-tick duration s n i) h
Inv-step duration s s' (check p) i h = Inv-check duration s p s' i (s.phase p) h
Inv-step duration s s' (acquire p) i h = Inv-acquire duration s p s' i (s.phase p) s.holder refl h
Inv-step duration s s' (recheck p) i h = Inv-recheck duration s p s' i (s.phase p) refl h
Inv-step duration s s' (execute p) i h = Inv-execute duration s p s' i (s.phase p) refl h
Inv-step duration s s' (stamp p) i h = Inv-stamp duration s p s' i (s.phase p) refl h
Inv-step duration s s' (commit p) i h = Inv-commit_at duration s p s' i (s.phase p) refl h
Inv-step duration s s' (abort p) i h = Inv-abort duration s p s' i (s.phase p) refl h

Inv-run :
    (duration : ℕ) (s s' : State) (ms : List Move)
    → Inv duration s
    → run duration s ms ≡ some s'
    → Inv duration s'
unfolding run
Inv-run duration s s' [] i h = becomes duration s 0 s' i s i h
Inv-run duration s s' (m ∷ ms) i h = elim (Option-cases (step duration s m)) [
  | inl e ↦ (let stuck : Path (Option State) none (some s') = rw (run, e) at h in cc)
  | inr (t, e) ↦ Inv-run duration t s' ms (Inv-step duration s t m i e) (rw (run, e) at h)
]

Inv-initial : (duration clock : ℕ) → Inv duration (initial clock)
Inv-initial duration clock = record {
  alone = λ p c. cc;
  ready = λ p. tt;
  agrees = refl;
  spaced = tt;
}

-- However the moves of the requests for one user and action interleave, two committed uses are
-- apart by at least the cooldown.
pub run-IsSpaced :
    (duration clock : ℕ) (ms : List Move) (s : State)
    → run duration (initial clock) ms ≡ some s
    → IsSpaced duration s.uses
run-IsSpaced duration clock ms s h =
    (Inv-run duration (initial clock) s ms (Inv-initial duration clock) h).spaced

-- However they interleave, at most one request is between its lock and the end of its transaction.
run-alone :
    (duration clock : ℕ) (ms : List Move) (s : State) (p q : ℕ)
    → run duration (initial clock) ms ≡ some s
    → is_critical (s.phase p) ≡ true
    → is_critical (s.phase q) ≡ true
    → p ≡ q
run-alone duration clock ms s p q h cp cq =
    let i = Inv-run duration (initial clock) s ms (Inv-initial duration clock) h in
    let a = i.alone p cp in let b = i.alone q cq in cc
