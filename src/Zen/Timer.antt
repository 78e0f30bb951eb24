-- ===== src/Zen/Timer.antt =====
-- The timer of middleware/zen.go: `Start` and the goroutine that it spawns, step by step, in any
-- interleaving of any number of calls with the other operations and with the clock.
use tdns.Base.{
  eqb, if◌then◌else◌, nat_eq, Text, text_eq, ℕ, ◌+◌, ◌-◌, ◌*◌, ◌/◌, ◌≤◌, ◌≡◌, Bool, true, false,
  not, ◌||◌, List,
}
use tdns.Static.Hosts.{HostMap}
use tdns.Zen.{ZenMode, replace_domains, replace_persisted_domains, replace_persisted_excludes}

-- A minute in nanoseconds.
abbrev minute : ℕ
minute = 60 * 1000000000

-- Where a call of `Start` stands: it is not begun, or has returned; it has seen that the mode is off; it
-- holds the slot, and has read the time; it has enabled the mode; its goroutine waits until a time; its
-- goroutine has disabled the mode, and still holds the slot.
pub data Pc : Type 0 where
  outside seen_off enabling_done disabled : Pc
  acquired waiting : ℕ → Pc

abbrev pub holds : Pc → Bool
holds outside = false
holds seen_off = false
holds enabling_done = true
holds disabled = true
holds (acquired t) = true
holds (waiting t) = true

-- Within 2 ^ 63 nanoseconds, so less than 292 years: `time.Duration` does not wrap around.
abbrev pub duration : ZenMode → ℕ
duration z = z.conf.time * minute

-- `RemainingSeconds`, at a time.
unfoldable remaining_seconds : ℕ → ZenMode → ℕ
remaining_seconds now z =
    if not z.enabled || eqb z.ends_at 0 then 0 else (z.ends_at - now) / 1000000000

-- One step of a call at a time.
pub data Move (now : ℕ) : ZenMode → Pc → ZenMode → Pc → Type 0 where
  -- `if enabled`
  see_on : (z : ZenMode) → z.enabled ≡ true → Move now z outside z outside
  see_off : (z : ZenMode) → z.enabled ≡ false → Move now z outside z seen_off
  -- `select`
  take_slot :
      (z : ZenMode)
      → z.timer_taken ≡ false
      → Move now z seen_off (record z { timer_taken = true }) (acquired now)
  give_up : (z : ZenMode) → z.timer_taken ≡ true → Move now z seen_off z outside
  turn_on :
      (z : ZenMode) (t : ℕ)
      → Move now z
          (acquired t)
          (record z { enabled = true; started_at = t; ends_at = t + duration z })
          enabling_done
  -- `<-time.After(...)`
  sleep : (z : ZenMode) → Move now z enabling_done z (waiting (now + duration z))
  turn_off :
      (z : ZenMode) (t : ℕ)
      → t ≤ now
      → Move now z (waiting t) (record z { enabled = false; started_at = 0; ends_at = 0 }) disabled
  -- `<-z.timerMu`
  free : (z : ZenMode) → Move now z disabled (record z { timer_taken = false }) outside

pub record ZenWorld : Type 0 where
  pub now : ℕ
  pub zen : ZenMode
  pub pc : ℕ → Pc

abbrev pub set_pc : (ℕ → Pc) → ℕ → Pc → ℕ → Pc
set_pc pc i p j = if eqb i j then p else pc j

-- What else changes the object.
pub data ZenOp : Type 0 where
  domains : HostMap → ZenOp
  persisted excluded : List Text → ZenOp

abbrev pub apply_op : ZenOp → ZenMode → ZenMode
apply_op (domains hosts) z = (replace_domains hosts z).0
apply_op (persisted ds) z = replace_persisted_domains ds z
apply_op (excluded values) z = replace_persisted_excludes values z

pub data Step : ZenWorld → ZenWorld → Type 0 where
  tick : (w : ZenWorld) (n : ℕ) → Step w (record w { now = w.now + n })
  change : (w : ZenWorld) (op : ZenOp) → Step w (record w { zen = apply_op op w.zen })
  move :
      (w : ZenWorld) (i : ℕ) {z : ZenMode} {p : Pc}
      → Move w.now w.zen (w.pc i) z p
      → Step w (record w { zen = z; pc = set_pc w.pc i p })

pub data Steps (w : ZenWorld) : ZenWorld → Type 0 where
  done : Steps w w
  more : {u v : ZenWorld} → Steps w u → Step u v → Steps w v
