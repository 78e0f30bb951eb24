-- ===== src/Zen/Invariant.antt =====
-- What every interleaving of the steps of the timer keeps.
use tdns.Base.{
  eqb, eqb_iff, nat_eq, text_eq, Bool-cases, if_elim, ℕ, ◌+◌, ◌≤◌, ◌≡◌, refl, ap, inl, inr, Bool,
  true, false, arith,
}
use tdns.Zen.Timer.{
  Pc, outside, seen_off, enabling_done, disabled, acquired, waiting, holds, duration, ZenWorld,
  set_pc,
}

-- What a call knows of the object at each place. `waiting t` ends neither before the time that the
-- object shows nor later than the period from now.
abbrev pub Phase : ℕ → Bool → ℕ → ℕ → ℕ → Pc → Type 0
Phase now enabled started ends period outside = Unit
Phase now enabled started ends period seen_off = Unit
Phase now enabled started ends period (acquired t) = (enabled ≡ false) × (t ≤ now)
Phase now enabled started ends period enabling_done =
    (enabled ≡ true) × (ends ≡ started + period) × (started ≤ now)
Phase now enabled started ends period (waiting t) =
    (enabled ≡ true) × (ends ≡ started + period) × (ends ≤ t) × (t ≤ now + period)
Phase now enabled started ends period disabled = enabled ≡ false

-- One call at most holds the slot, it is taken if and only if one does, and the mode is on only then.
pub record IsTimed (now : ℕ) (taken enabled : Bool) (started ends period : ℕ) (pc : ℕ → Pc)
    : Type 0 where
  pub held : (i : ℕ) → holds (pc i) ≡ true → taken ≡ true
  pub unique : (i j : ℕ) → holds (pc i) ≡ true → holds (pc j) ≡ true → i ≡ j
  pub owned : taken ≡ true → (i : ℕ) × (holds (pc i) ≡ true)
  pub off : taken ≡ false → enabled ≡ false
  pub phase : (i : ℕ) → Phase now enabled started ends period (pc i)

abbrev pub Timed : ZenWorld → Type 0
Timed w =
    IsTimed w.now w.zen.timer_taken w.zen.enabled w.zen.started_at w.zen.ends_at (duration w.zen)
      w.pc

Phase-idle :
    (now : ℕ) (enabled : Bool) (started ends period : ℕ) (p : Pc)
    → holds p ≡ false
    → Phase now enabled started ends period p
Phase-idle now enabled started ends period outside h = tt
Phase-idle now enabled started ends period seen_off h = tt
Phase-idle now enabled started ends period enabling_done h = cc
Phase-idle now enabled started ends period disabled h = cc
Phase-idle now enabled started ends period (acquired t) h = cc
Phase-idle now enabled started ends period (waiting t) h = cc

pub Phase-tick :
    (now n : ℕ) (enabled : Bool) (started ends period : ℕ) (p : Pc)
    → Phase now enabled started ends period p
    → Phase (now + n) enabled started ends period p
Phase-tick now n enabled started ends period outside h = tt
Phase-tick now n enabled started ends period seen_off h = tt
Phase-tick now n enabled started ends period enabling_done h = (h.0, h.1, omega arith)
Phase-tick now n enabled started ends period disabled h = h
Phase-tick now n enabled started ends period (acquired t) h = (h.0, omega arith)
Phase-tick now n enabled started ends period (waiting t) h = (h.0, h.1, h.2, omega arith)

-- The holder of the slot moves, and keeps it.
pub holder_moves :
    {now : ℕ} {taken e e' : Bool} {s s' x x' period : ℕ} {pc : ℕ → Pc} (i : ℕ) (p : Pc)
    → holds (pc i) ≡ true
    → holds p ≡ true
    → Phase now e' s' x' period p
    → IsTimed now taken e s x period pc
    → IsTimed now taken e' s' x' period (set_pc pc i p)
holder_moves {now} {taken} {e} {e'} {s} {s'} {x} {x'} {period} {pc} i p h k new t = record {
  held = λ j _. t.held i h;
  unique = λ j k' a b. elim (Bool-cases (eqb i j)) [
    | inl same ↦ elim (Bool-cases (eqb i k')) [
      | inl same' ↦ ground arith
      | inr other' ↦ ground (arith, t.unique i k' h)
    ]
    | inr other ↦ absurd (ground (arith, t.unique i j h))
  ];
  owned = λ _. (i, ground arith);
  off = λ c. absurd (ground (arith, t.held i h));
  phase = λ j.
      if_elim {A = Pc} (Phase now e' s' x' period) (eqb i j) p (pc j) (λ _. new)
        λ other. Phase-idle now e' s' x' period (pc j) (ground (arith, t.unique i j h));
}

-- A call that does not hold the slot moves without taking it.
pub other_moves :
    {now : ℕ} {taken e : Bool} {s x period : ℕ} {pc : ℕ → Pc} (i : ℕ) (p : Pc)
    → holds (pc i) ≡ false
    → holds p ≡ false
    → IsTimed now taken e s x period pc
    → IsTimed now taken e s x period (set_pc pc i p)
other_moves {now} {taken} {e} {s} {x} {period} {pc} i p h k t = record {
  held = λ j a. elim (Bool-cases (eqb i j)) [
    | inl same ↦ absurd (ground arith)
    | inr other ↦ t.held j (ground arith)
  ];
  unique = λ j k' a b. elim (Bool-cases (eqb i j)) [
    | inl same ↦ absurd (ground arith)
    | inr other ↦ elim (Bool-cases (eqb i k')) [
      | inl same' ↦ absurd (ground arith)
      | inr other' ↦ t.unique j k' (ground arith) (ground arith)
    ]
  ];
  owned = λ c.
      let (j, a) = t.owned c in
      (
        j,
        elim (Bool-cases (eqb i j)) [
          | inl same ↦ absurd (ground (arith, ap (λ n. holds (pc n)) ((eqb_iff i j).0 same)))
          | inr other ↦ ground arith
        ],
      );
  off = t.off;
  phase = λ j.
      if_elim {A = Pc} (Phase now e s x period) (eqb i j) p (pc j)
        (λ _. Phase-idle now e s x period p k) (λ _. t.phase j);
}

-- The slot is free, and a call takes it.
pub slot_is_taken :
    {now : ℕ} {taken e : Bool} {s x period : ℕ} {pc : ℕ → Pc} (i : ℕ) (p : Pc)
    → taken ≡ false
    → holds p ≡ true
    → (e ≡ false → Phase now e s x period p)
    → IsTimed now taken e s x period pc
    → IsTimed now true e s x period (set_pc pc i p)
slot_is_taken {now} {taken} {e} {s} {x} {period} {pc} i p c k new t = record {
  held = λ j _. refl;
  unique = λ j k' a b. elim (Bool-cases (eqb i j)) [
    | inl same ↦ elim (Bool-cases (eqb i k')) [
      | inl same' ↦ ground arith
      | inr other' ↦ absurd (ground (arith, t.held k'))
    ]
    | inr other ↦ absurd (ground (arith, t.held j))
  ];
  owned = λ _. (i, ground arith);
  off = λ c. cc;
  phase = λ j.
      if_elim {A = Pc} (Phase now e s x period) (eqb i j) p (pc j) (λ _. new (t.off c))
        (λ _. t.phase j);
}

-- The holder frees the slot.
pub slot_is_freed :
    {now : ℕ} {taken e : Bool} {s x period : ℕ} {pc : ℕ → Pc} (i : ℕ) (p : Pc)
    → holds (pc i) ≡ true
    → holds p ≡ false
    → e ≡ false
    → IsTimed now taken e s x period pc
    → IsTimed now false e s x period (set_pc pc i p)
slot_is_freed {now} {taken} {e} {s} {x} {period} {pc} i p h k d t = record {
  held = λ j a. elim (Bool-cases (eqb i j)) [
    | inl same ↦ absurd (ground arith)
    | inr other ↦ absurd (ground (arith, t.unique i j h))
  ];
  unique = λ j k' a b. elim (Bool-cases (eqb i j)) [
    | inl same ↦ absurd (ground arith)
    | inr other ↦ absurd (ground (arith, t.unique i j h))
  ];
  owned = λ c. cc;
  off = λ _. d;
  phase = λ j.
      if_elim {A = Pc} (Phase now e s x period) (eqb i j) p (pc j)
        (λ _. Phase-idle now e s x period p k) (λ _. t.phase j);
}
