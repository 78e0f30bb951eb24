-- ===== src/Zen/Tests.antt =====
-- One call of `Start` with a period of no minutes, and a question for a distracting domain.
use tdns.Base.{nat_eq, text_eq, ◌+◌, ◌≤◌, ◌≡◌, refl, true, false, none, some, [], ◌∷◌, arith}
use tdns.Base.Strings.{txt}
use tdns.Message.{Question, Msg, Message}
use tdns.Message.Tests.{query, asked}
use tdns.Selectors.{no_selectors}
use tdns.Zen.Timer.{
  outside, seen_off, enabling_done, acquired, waiting, duration, see_off, take_slot, turn_on, sleep,
  turn_off, ZenWorld, set_pc, move, Steps, done, more,
}
use tdns.Zen.Invariant.{Timed}
use tdns.Zen.Reach.{start_world}
use tdns.Zen.Laws.{timer-IsTimed, zen_not_early, Ends, zen-Ends}
use tdns.Zen.Answers.{IsZen, IsMarked, run_zen_lem}
use tdns.Zen.{ZenMode, init, mark_zen, run_zen}
use tdns.Static.Tests.{is_named, new_a}

abbrev fresh : ZenMode
fresh = record {
  enabled = false;
  init_done = false;
  timer_taken = false;
  conf = record {
    file = [];
    time = 0;
    labels = [];
    domains = txt "x.com" ∷ [];
    persisted_domains = [];
    excludes = [];
    persisted_excludes = [];
  };
  hosts = [];
  configured_hosts = [];
  persisted_hosts = [];
  runtime_hosts = [];
  configured_excludes = [];
  persisted_excludes = [];
  exclude_rules = no_selectors;
  labels = [];
  started_at = 0;
  ends_at = 0;
}

abbrev loaded : ZenMode
loaded = (init none fresh).0

abbrev zen_on : ZenMode
zen_on = record loaded { timer_taken = true; enabled = true; started_at = 5; ends_at = 5 }

-- The call has enabled the mode, and its goroutine waits.
abbrev asleep : ZenWorld
asleep = record {
  now = 5;
  zen = zen_on;
  pc =
      set_pc (set_pc (set_pc (set_pc (λ _. outside) 0 seen_off) 0 (acquired 5)) 0 enabling_done) 0
        (waiting 5);
}

asleep_reached : Steps (start_world 5 none fresh) asleep
unfolding init
asleep_reached =
    more
      (more
        (more (more done (move (start_world 5 none fresh) 0 (see_off loaded refl)))
          (move _ 0 (take_slot loaded refl)))
        (move _ 0 (turn_on (record loaded { timer_taken = true }) 5)))
      (move _ 0 (sleep zen_on))

timer-IsTimed_example : Timed asleep
timer-IsTimed_example = timer-IsTimed 5 none fresh asleep_reached

zen-Ends_example : Ends asleep 5
unfolding init
zen-Ends_example = zen-Ends 5 none fresh asleep_reached refl

zen_not_early_example :
    (zen_on.ends_at ≤ 5) × (zen_on.ends_at ≡ zen_on.started_at + duration zen_on)
unfolding init
zen_not_early_example =
    zen_not_early 5 none fresh asleep_reached (move asleep 0 (turn_off zen_on 5 (omega arith))) refl
      refl

abbrev x_question : Question
x_question = record { qname = txt "x.com."; qtype = 1; qclass = 1 }

abbrev x_query : Msg
x_query = record query { question = x_question ∷ [] }

abbrev x_asked : Message
x_asked = record asked { msg = some x_query }

run_zen_example :
    IsZen is_named new_a zen_on x_asked x_query x_question.qname
      (run_zen is_named new_a zen_on x_asked)
    × ((answered : Message) → IsMarked is_named new_a answered (mark_zen is_named new_a answered))
run_zen_example = run_zen_lem is_named new_a zen_on x_asked x_query x_question [] refl refl
