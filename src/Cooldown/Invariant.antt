-- ===== src/Cooldown/Invariant.antt =====
-- The invariant of the requests: one of them is past the lock, and the cooldown is over for it.
use brandish_bot_go.Prelude.{
  ℕ, ◌+◌, ◌≤◌, ◌≡◌, refl, Bool, true, false, Option, none, some, List, [], ◌∷◌, ◌==◌, arith,
  Bool-cases, inl, inr,
}
use brandish_bot_go.Cooldown.{
  check_cooldown_internal, Phase, idle, checked, locked, passed, ran, stamped, State, set_phase,
  release,
}

-- The request has the lock.
abbrev pub is_critical : Phase → Bool
is_critical idle = false
is_critical checked = false
is_critical _ = true

-- At `now` the cooldown since the last use is over.
abbrev pub IsOver : ℕ → Option ℕ → ℕ → Type 0
IsOver duration none now = Unit
IsOver duration (some last) now = last + duration ≤ now

abbrev pub IsReady : ℕ → Option ℕ → ℕ → Phase → Type 0
IsReady duration last now passed = IsOver duration last now
IsReady duration last now ran = IsOver duration last now
IsReady duration last now (stamped t) = IsOver duration last t
IsReady duration last now _ = Unit

abbrev pub newest : List ℕ → Option ℕ
newest [] = none
newest (t ∷ ts) = some t

-- Every use is later than the one before it by at least the cooldown.
abbrev pub IsSpaced : ℕ → List ℕ → Type 0
IsSpaced duration [] = Unit
IsSpaced duration (t ∷ ts) = IsOver duration (newest ts) t × IsSpaced duration ts

pub record Inv (duration : ℕ) (s : State) : Type 0 where
  pub alone : (p : ℕ) → is_critical (s.phase p) ≡ true → s.holder ≡ some p
  pub ready : (p : ℕ) → IsReady duration s.last_used s.clock (s.phase p)
  pub agrees : s.last_used ≡ newest s.uses
  pub spaced : IsSpaced duration s.uses

IsOver-later :
    (duration : ℕ) (last : Option ℕ) (now n : ℕ)
    → IsOver duration last now
    → IsOver duration last (now + n)
IsOver-later duration none now n h = tt
IsOver-later duration (some t) now n h = omega arith

pub IsReady-later :
    (duration : ℕ) (last : Option ℕ) (now n : ℕ) (f : Phase)
    → IsReady duration last now f
    → IsReady duration last (now + n) f
IsReady-later duration last now n idle h = tt
IsReady-later duration last now n checked h = tt
IsReady-later duration last now n locked h = tt
IsReady-later duration last now n passed h = IsOver-later duration last now n h
IsReady-later duration last now n ran h = IsOver-later duration last now n h
IsReady-later duration last now n (stamped t) h = h

pub over :
    (duration now : ℕ) (last : Option ℕ)
    → (check_cooldown_internal duration now last).0 ≡ false
    → IsOver duration last now
unfolding check_cooldown_internal
over duration now none h = tt
over duration now (some t) h = ground arith

-- A request moves to a phase without the lock, or stays with it, and nothing else changes.
pub Inv-move :
    (duration : ℕ) (s : State) (p : ℕ) (f : Phase)
    → Inv duration s
    → (is_critical f ≡ true → s.holder ≡ some p)
    → IsReady duration s.last_used s.clock f
    → Inv duration (set_phase s p f)
Inv-move duration s p f i held rd = record {
  alone = λ q. elim (Bool-cases (q == p)) [
    | inl same ↦ (let e : q ≡ p = ground arith in rw (same, e) held)
    | inr other ↦ rw other (i.alone q)
  ];
  ready =
      λ q. elim (Bool-cases (q == p)) [ inl same ↦ rw same rd | inr other ↦ rw other (i.ready q) ];
  agrees = i.agrees;
  spaced = i.spaced;
}

-- Everybody else is without the lock when one request has it.
not_critical :
    (duration : ℕ) (s : State) (p q : ℕ)
    → Inv duration s
    → is_critical (s.phase p) ≡ true
    → (q == p) ≡ false
    → is_critical (s.phase q) ≡ false
not_critical duration s p q i h other = elim (Bool-cases (is_critical (s.phase q))) [
  | inl crit ↦ let a = i.alone p h in let b = i.alone q crit in let e : q ≡ p = cc in ground arith
  | inr free ↦ free
]

IsReady-free :
    (duration : ℕ) (last : Option ℕ) (now : ℕ) (f : Phase)
    → is_critical f ≡ false
    → IsReady duration last now f
IsReady-free duration last now idle h = tt
IsReady-free duration last now checked h = tt
IsReady-free duration last now locked h = cc
IsReady-free duration last now passed h = cc
IsReady-free duration last now ran h = cc
IsReady-free duration last now (stamped t) h = cc

pub Inv-release :
    (duration : ℕ) (s : State) (p : ℕ)
    → Inv duration s
    → is_critical (s.phase p) ≡ true
    → Inv duration (release s p)
Inv-release duration s p i h = record {
  alone = λ q. elim (Bool-cases (q == p)) [
    | inl same ↦ rw same (λ c. cc)
    | inr other ↦ rw (other, not_critical duration s p q i h other) (λ c. cc)
  ];
  ready =
      λ q. elim (Bool-cases (q == p)) [ inl same ↦ rw same tt | inr other ↦ rw other (i.ready q) ];
  agrees = i.agrees;
  spaced = i.spaced;
}

pub Inv-commit :
    (duration : ℕ) (s : State) (p t : ℕ)
    → Inv duration s
    → s.phase p ≡ stamped t
    → Inv duration (record (release s p) { last_used = some t; uses = t ∷ s.uses })
Inv-commit duration s p t i h =
    let crit : is_critical (s.phase p) ≡ true = rw h refl in
    let late : IsOver duration s.last_used t = rw h at (i.ready p) in
    let free : Inv duration (release s p) = Inv-release duration s p i crit in
    record {
      alone = free.alone;
      ready = λ q. elim (Bool-cases (q == p)) [
        | inl same ↦ rw same tt
        | inr other ↦ rw other (
            IsReady-free duration (some t) s.clock (s.phase q)
              (not_critical duration s p q i crit other))
      ];
      agrees = refl;
      spaced = (rw i.agrees at late, i.spaced);
    }
