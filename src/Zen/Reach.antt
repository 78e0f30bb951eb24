-- ===== src/Zen/Reach.antt =====
-- The steps of the timer, and all that they lead to.
use tdns.Base.{
  if◌then◌else◌, nat_eq, text_eq, if_elim, is_empty, ℕ, ◌+◌, ◌≡◌, refl, subst, ◌⊎◌, inl, inr, false,
  Option, [], arith,
}
use tdns.Static.Hosts.{HostMap, HostsError, HostsLines, read_hosts}
use tdns.Zen.{
  ZenMode, reset_state, with_file, init, replace_domains, replace_persisted_domains,
  replace_persisted_excludes,
}
use tdns.Zen.Timer.{
  Pc, outside, seen_off, enabling_done, disabled, acquired, waiting, duration, Move, see_on,
  see_off, take_slot, give_up, turn_on, sleep, turn_off, free, ZenWorld, set_pc, ZenOp, domains,
  persisted, excluded, apply_op, Step, tick, change, move, Steps, done, more,
}
use tdns.Zen.Invariant.{
  Phase, Timed, Phase-tick, holder_moves, other_moves, slot_is_taken, slot_is_freed,
}

-- What a step that is no step of the timer keeps of the object.
pub record SameTimer (z z' : ZenMode) : Type 0 where
  pub taken : z'.timer_taken ≡ z.timer_taken
  pub enabled : z'.enabled ≡ z.enabled
  pub started : z'.started_at ≡ z.started_at
  pub ends : z'.ends_at ≡ z.ends_at
  pub conf : z'.conf ≡ z.conf

same_timer : (z : ZenMode) → SameTimer z z
same_timer z = record { taken = refl; enabled = refl; started = refl; ends = refl; conf = refl }

pub apply_op-SameTimer : (op : ZenOp) (z : ZenMode) → SameTimer z (apply_op op z)
unfolding replace_domains replace_persisted_domains replace_persisted_excludes
apply_op-SameTimer (domains hosts) z =
    if_elim {A = ZenMode × Option HostsError} (λ r. SameTimer z r.0) (is_empty hosts) _ _
      (λ _. same_timer z)
      (λ _. record { taken = refl; enabled = refl; started = refl; ends = refl; conf = refl })
apply_op-SameTimer (persisted ds) z =
    if_elim {A = ZenMode} (SameTimer z) (is_empty z.runtime_hosts) _ _
      (λ _. record { taken = refl; enabled = refl; started = refl; ends = refl; conf = refl })
      (λ _. record { taken = refl; enabled = refl; started = refl; ends = refl; conf = refl })
apply_op-SameTimer (excluded values) z = record {
  taken = refl;
  enabled = refl;
  started = refl;
  ends = refl;
  conf = refl;
}

change-IsTimed :
    (now : ℕ) (z z' : ZenMode) (pc : ℕ → Pc)
    → SameTimer z z'
    → Timed (record { now = now; zen = z; pc = pc })
    → Timed (record { now = now; zen = z'; pc = pc })
change-IsTimed now z z' pc s t = rw (s.taken, s.enabled, s.started, s.ends, s.conf) t

-- What a call knows of the object itself.
abbrev pub PhaseOf : ZenMode → ℕ → Pc → Type 0
PhaseOf z now = Phase now z.enabled z.started_at z.ends_at (duration z)

Move-IsTimed :
    {now : ℕ} {z z' : ZenMode} {p p' : Pc} (pc : ℕ → Pc) (i : ℕ)
    → pc i ≡ p
    → Move now z p z' p'
    → Timed (record { now = now; zen = z; pc = pc })
    → Timed (record { now = now; zen = z'; pc = set_pc pc i p' })
Move-IsTimed pc i e (see_on z h) t = other_moves i outside (rw e refl) refl t
Move-IsTimed pc i e (see_off z h) t = other_moves i seen_off (rw e refl) refl t
Move-IsTimed {now} pc i e (take_slot z h) t =
    slot_is_taken i (acquired now) h refl (λ off. (off, omega arith)) t
Move-IsTimed pc i e (give_up z h) t = other_moves i outside (rw e refl) refl t
Move-IsTimed {now} pc i e (turn_on z s) t =
    let (off, past) = subst (PhaseOf z now) e (t.phase i) in
    holder_moves i enabling_done (rw e refl) refl (refl, refl, past) t
Move-IsTimed {now} pc i e (sleep z) t =
    let (on, ends, past) = subst (PhaseOf z now) e (t.phase i) in
    holder_moves i (waiting (now + duration z)) (rw e refl) refl
      (on, ends, omega arith, omega arith) t
Move-IsTimed pc i e (turn_off z s h) t = holder_moves i disabled (rw e refl) refl refl t
Move-IsTimed {now} pc i e (free z) t =
    slot_is_freed i outside (rw e refl) refl (subst (PhaseOf z now) e (t.phase i)) t

Step-IsTimed : {w w' : ZenWorld} → Step w w' → Timed w → Timed w'
Step-IsTimed (tick w n) t = record {
  held = t.held;
  unique = t.unique;
  owned = t.owned;
  off = t.off;
  phase = λ i.
      Phase-tick w.now n w.zen.enabled w.zen.started_at w.zen.ends_at (duration w.zen) (w.pc i)
        (t.phase i);
}
Step-IsTimed (change w op) t =
    change-IsTimed w.now w.zen (apply_op op w.zen) w.pc (apply_op-SameTimer op w.zen) t
Step-IsTimed (move w i m) t = Move-IsTimed w.pc i refl m t

-- After `Init`, which may have failed to read the file, before any call of `Start`.
abbrev pub start_world : ℕ → HostsLines → ZenMode → ZenWorld
start_world now file z = record { now = now; zen = (init file z).0; pc = λ _. outside }

pub start-IsTimed : (now : ℕ) (file : HostsLines) (z : ZenMode) → Timed (start_world now file z)
unfolding init
start-IsTimed now file z = loaded z (if is_empty z.conf.file then inl [] else read_hosts file)
  where
    idle_world :
        (z : ZenMode)
        → z.timer_taken ≡ false
        → z.enabled ≡ false
        → Timed (record { now = now; zen = z; pc = λ _. outside })
    idle_world z c d = record {
      held = λ i a. cc;
      unique = λ i j a b. cc;
      owned = λ e. absurd (ground arith);
      off = λ _. d;
      phase = λ i. tt;
    }

    loaded :
        (z : ZenMode) (r : HostMap ⊎ HostsError)
        → Timed (record { now = now; zen = (with_file (reset_state z) r).0; pc = λ _. outside })
    loaded z (inr e) = idle_world (reset_state z) refl refl
    loaded z (inl h) = idle_world (with_file (reset_state z) (inl h)).0 refl refl

pub Steps-IsTimed : {w w' : ZenWorld} → Timed w → Steps w w' → Timed w'
Steps-IsTimed t done = t
Steps-IsTimed t (more r s) = Step-IsTimed s (Steps-IsTimed t r)
