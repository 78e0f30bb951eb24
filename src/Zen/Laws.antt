-- ===== src/Zen/Laws.antt =====
-- When a period of the zen mode ends.
use tdns.Base.{nat_eq, text_eq, ℕ, ◌+◌, ◌-◌, ◌≤◌, ◌≡◌, refl, sym, subst, true, false, arith}
use tdns.Static.Hosts.{HostsLines}
use tdns.Zen.Timer.{
  Pc, outside, seen_off, enabling_done, disabled, acquired, waiting, holds, duration, Move, see_on,
  see_off, take_slot, give_up, turn_on, sleep, turn_off, free, ZenWorld, set_pc, ZenOp, apply_op,
  Step, tick, change, move, Steps, done, more,
}
use tdns.Zen.Invariant.{Timed}
use tdns.Zen.Reach.{apply_op-SameTimer, PhaseOf, start_world, start-IsTimed, Steps-IsTimed}
use tdns.Zen.{ZenMode}

-- However the calls of `Start`, their goroutines, the clock and the changes of the lists are
-- interleaved after `Init`: at most one call holds the slot, and one does whenever the mode is on; an
-- enabled mode ends one period after its start; and the timer waits no less than until then, and
-- no longer than a period from now.
pub timer-IsTimed :
    (now : ℕ) (file : HostsLines) (z : ZenMode) {w : ZenWorld}
    → Steps (start_world now file z) w
    → Timed w
timer-IsTimed now file z r = Steps-IsTimed (start-IsTimed now file z) r

change-enabled : (op : ZenOp) (z : ZenMode) → (apply_op op z).enabled ≡ z.enabled
change-enabled op z = (apply_op-SameTimer op z).enabled

Move-ends :
    {now : ℕ} {z z' : ZenMode} {p p' : Pc}
    → Move now z p z' p'
    → PhaseOf z now p
    → z.enabled ≡ true
    → z'.enabled ≡ false
    → (z.ends_at ≤ now) × (z.ends_at ≡ z.started_at + duration z)
Move-ends (see_on z h) f a b = absurd (ground arith)
Move-ends (see_off z h) f a b = absurd (ground arith)
Move-ends (take_slot z h) f a b = absurd (ground arith)
Move-ends (give_up z h) f a b = absurd (ground arith)
Move-ends (turn_on z t) f a b = cc
Move-ends (sleep z) f a b = absurd (ground arith)
Move-ends (turn_off z t h) (on, ends, early, late) a b = (omega arith, ends)
Move-ends (free z) f a b = absurd (ground arith)

Step-ends :
    {w w' : ZenWorld}
    → Step w w'
    → Timed w
    → w.zen.enabled ≡ true
    → w'.zen.enabled ≡ false
    → (w.zen.ends_at ≤ w.now) × (w.zen.ends_at ≡ w.zen.started_at + duration w.zen)
Step-ends (tick w n) t a b = absurd (ground arith)
Step-ends (change w op) t a b = absurd (ground (arith, change-enabled op w.zen))
Step-ends (move w i m) t a b = Move-ends m (t.phase i) a b

-- The mode, once it is on, is switched off only when the whole period since its start is over,
-- however the steps are interleaved.
pub zen_not_early :
    (now : ℕ) (file : HostsLines) (z : ZenMode) {w w' : ZenWorld}
    → Steps (start_world now file z) w
    → Step w w'
    → w.zen.enabled ≡ true
    → w'.zen.enabled ≡ false
    → (w.zen.ends_at ≤ w.now) × (w.zen.ends_at ≡ w.zen.started_at + duration w.zen)
zen_not_early now file z r s a b = Step-ends s (timer-IsTimed now file z r) a b

Steps-of_Step : {u v w : ZenWorld} → Step u v → Steps v w → Steps u w
Steps-of_Step s done = more done s
Steps-of_Step s (more r t) = more (Steps-of_Step s r) t

-- Steps lead from a world to one where the mode is off and the slot free, before a time.
abbrev pub Ends : ZenWorld → ℕ → Type 0
Ends w b =
    (w' : ZenWorld) × Steps w w'
    × (w'.zen.enabled ≡ false)
    × (w'.zen.timer_taken ≡ false)
    × (w'.now ≤ b)

Ends-of_Step : {w u : ZenWorld} (b : ℕ) → Step w u → Ends u b → Ends w b
Ends-of_Step b s (w', r, off, freed, late) = (w', Steps-of_Step s r, off, freed, late)

set_pc-same : (pc : ℕ → Pc) (i : ℕ) (p : Pc) → set_pc pc i p i ≡ p
set_pc-same pc i p = ground arith

-- The call moves on from its place.
Step-from :
    (w : ZenWorld) (i : ℕ) (p : Pc) {z : ZenMode} {p' : Pc}
    → w.pc i ≡ p
    → Move w.now w.zen p z p'
    → Step w (record w { zen = z; pc = set_pc w.pc i p' })
Step-from w i p {z} {p'} e m = move w i (subst (λ q. Move w.now w.zen q z p') (sym e) m)

Ends-disabled :
    (w : ZenWorld) (i b : ℕ) → w.pc i ≡ disabled → w.zen.enabled ≡ false → w.now ≤ b → Ends w b
Ends-disabled w i b e off h =
    Ends-of_Step b (Step-from w i disabled e (free w.zen)) (_, done, off, refl, h)

Ends-waiting : (w : ZenWorld) (i t b : ℕ) → w.pc i ≡ waiting t → t ≤ b → w.now ≤ b → Ends w b
Ends-waiting w i t b e h k = Ends-of_Step b (tick w (t - w.now)) (
    Ends-of_Step b
      (Step-from (record w { now = w.now + (t - w.now) }) i (waiting t) e
        (turn_off w.zen t (omega arith)))
      (Ends-disabled _ i b (set_pc-same w.pc i disabled) refl (omega arith)))

Ends-enabling : (w : ZenWorld) (i : ℕ) → w.pc i ≡ enabling_done → Ends w (w.now + duration w.zen)
Ends-enabling w i e =
    Ends-of_Step _ (Step-from w i enabling_done e (sleep w.zen)) (
      Ends-waiting _ i (w.now + duration w.zen) _ (set_pc-same w.pc i _) (omega arith)
        (omega arith))

Ends-holder :
    (w : ZenWorld) (i : ℕ) (p : Pc)
    → w.pc i ≡ p
    → holds p ≡ true
    → PhaseOf w.zen w.now p
    → Ends w (w.now + duration w.zen)
Ends-holder w i outside e h f = cc
Ends-holder w i seen_off e h f = cc
Ends-holder w i enabling_done e h f = Ends-enabling w i e
Ends-holder w i disabled e h f = Ends-disabled w i _ e f (omega arith)
Ends-holder w i (acquired t) e h f =
    Ends-of_Step _ (Step-from w i (acquired t) e (turn_on w.zen t))
      (Ends-enabling _ i (set_pc-same w.pc i enabling_done))
Ends-holder w i (waiting t) e h (on, ends, early, late) = Ends-waiting w i t _ e late (omega arith)

-- From every state that the steps can reach, if the slot is taken, steps lead within one period to a
-- state where the mode is off and the slot is free.
pub zen-Ends :
    (now : ℕ) (file : HostsLines) (z : ZenMode) {w : ZenWorld}
    → Steps (start_world now file z) w
    → w.zen.timer_taken ≡ true
    → Ends w (w.now + duration w.zen)
zen-Ends now file z {w} r h =
    let t = timer-IsTimed now file z r in
    let (i, a) = t.owned h in Ends-holder w i (w.pc i) refl a (t.phase i)
