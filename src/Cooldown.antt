-- ===== src/Cooldown.antt =====
-- internal/cooldown/postgres.go: EnforceCooldown, called at once by many requests for one user and
-- one action, outside of the dev mode.
--
-- A request is a number. A move is one statement of one request, on the shared row, the advisory
-- lock of the user and action, and one clock that all requests read; the lock is held from its
-- statement to the end of the transaction. The duration of the cooldown is a parameter.
pub mod Invariant
pub mod Spacing
use brandish_bot_go.Prelude.{
  ℕ, ◌+◌, ◌-◌, Bool, true, false, Option, none, some, List, [], ◌∷◌, ltb, ◌==◌, if◌then◌else◌,
}

-- `checkCooldownInternal`: whether the action is on cooldown, and what remains. The test
-- `now - lastUsed < duration` is written without a difference that may be negative.
unfoldable pub check_cooldown_internal : ℕ → ℕ → Option ℕ → Bool × ℕ
check_cooldown_internal duration now none = (false, 0)
check_cooldown_internal duration now (some last_used) =
    if ltb now (last_used + duration) then (true, last_used + duration - now) else (false, 0)

-- Where a request stands: before CheckCooldown, after it, with the lock, past the second check,
-- after its function, and with the time that it is about to store.
pub data Phase : Type 0 where
  idle checked locked passed ran : Phase
  stamped : ℕ → Phase

pub record State : Type 0 where
  pub clock : ℕ
  pub last_used : Option ℕ
  pub holder : Option ℕ
  pub phase : ℕ → Phase
  pub uses : List ℕ  -- the committed times, the last one first

pub data Move : Type 0 where
  tick check acquire recheck execute stamp commit abort : ℕ → Move

abbrev pub set_phase : State → ℕ → Phase → State
set_phase s p f = record s { phase = λ q. if q == p then f else s.phase q }

-- The end of a transaction, which gives the lock back.
abbrev pub release : State → ℕ → State
release s p = record (set_phase s p idle) { holder = none }

abbrev pub on_cooldown : ℕ → State → Bool
on_cooldown duration s = (check_cooldown_internal duration s.clock s.last_used).0

-- CheckCooldown, without the lock: a request on cooldown ends.
abbrev check_at : ℕ → State → ℕ → Phase → Option State
check_at duration s p idle = if on_cooldown duration s then some s else some (set_phase s p checked)
check_at duration s p _ = none

-- The advisory lock is free.
abbrev acquire_at : State → ℕ → Phase → Option ℕ → Option State
acquire_at s p checked none = some (record (set_phase s p locked) { holder = some p })
acquire_at s p _ _ = none

-- The second check, with the lock.
abbrev recheck_at : ℕ → State → ℕ → Phase → Option State
recheck_at duration s p locked =
    if on_cooldown duration s then some (release s p) else some (set_phase s p passed)
recheck_at duration s p _ = none

-- The function of the caller.
abbrev execute_at : State → ℕ → Phase → Option State
execute_at s p passed = some (set_phase s p ran)
execute_at s p _ = none

-- `now := time.Now()` and the write of it, which nobody sees before the commit.
abbrev stamp_at : State → ℕ → Phase → Option State
stamp_at s p ran = some (set_phase s p (stamped s.clock))
stamp_at s p _ = none

abbrev commit_at : State → ℕ → Phase → Option State
commit_at s p (stamped t) = some (record (release s p) { last_used = some t; uses = t ∷ s.uses })
commit_at s p _ = none

-- An error of a statement or of the function: the transaction is rolled back.
abbrev abort_at : State → ℕ → Phase → Option State
abort_at s p idle = none
abort_at s p checked = some (set_phase s p idle)
abort_at s p _ = some (release s p)

unfoldable pub step : ℕ → State → Move → Option State
step duration s (tick n) = some (record s { clock = s.clock + n })
step duration s (check p) = check_at duration s p (s.phase p)
step duration s (acquire p) = acquire_at s p (s.phase p) s.holder
step duration s (recheck p) = recheck_at duration s p (s.phase p)
step duration s (execute p) = execute_at s p (s.phase p)
step duration s (stamp p) = stamp_at s p (s.phase p)
step duration s (commit p) = commit_at s p (s.phase p)
step duration s (abort p) = abort_at s p (s.phase p)

-- Some moves, one after another; `none` where one of them is not possible.
unfoldable pub run : ℕ → State → List Move → Option State
run duration s [] = some s
run duration s (m ∷ ms) = elim (step duration s m) [ none ↦ none | some s' ↦ run duration s' ms ]

abbrev pub initial : ℕ → State
initial clock = record {
  clock = clock;
  last_used = none;
  holder = none;
  phase = λ p. idle;
  uses = [];
}
