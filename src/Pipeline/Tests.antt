-- ===== src/Pipeline/Tests.antt =====
-- The blocked query of the other examples, at an empty cache.
use tdns.Base.{nat_eq, text_beq, text_eq, any, contains, ◌≡◌, refl, true, some, [], ◌∷◌}
use tdns.Base.Maps.{insert}
use tdns.Base.Strings.{txt, to_lower, trim_left, trim_right, has_suffix, trim_dot}
use tdns.Message.{other, Rr, Message, add_value}
use tdns.Message.Tests.{query, context, asked}
use tdns.Cache.{run_set}
use tdns.Cache.Tests.{list_backend, no_net, empty_cache}
use tdns.Blacklist.{run}
use tdns.Blacklist.Decisions.{is_blocked}
use tdns.Blacklist.Tests.{list_tree, new_a, blocking, question}
use tdns.Pipeline.{run_set-run}

abbrev blocked_answer : Rr
blocked_answer = record { owner = txt "ads.example"; rrtype = 1; ttl = 3600; rdata = txt "0.0.0.0" }

abbrev blocked_message : Message
blocked_message = record {
  msg = some (record query { answer = some blocked_answer ∷ [] });
  ctx = some (record context { values = (txt "a", txt "1") ∷ (txt "blocked", txt "1") ∷ [] });
  resolved = true;
}

run_set-run_example :
    (run_set no_net list_backend empty_cache 5500000000 blocked_message).0 ≡ empty_cache
unfolding is_blocked run tdns.Selectors.normalize_domain_pattern tdns.Selectors.matches_suffix
    tdns.Selectors.matches_any_label tdns.Base.any tdns.Base.contains tdns.Base.text_beq
    tdns.Base.Strings.trim_dot tdns.Base.Strings.trim_right tdns.Base.Strings.trim_left
    tdns.Base.Strings.to_lower tdns.Base.Strings.has_suffix tdns.Message.add_value
    tdns.Base.Maps.insert
run_set-run_example =
    run_set-run no_net list_backend list_tree blocking new_a empty_cache 5500000000 asked
      blocked_message query question [] refl refl refl refl refl
