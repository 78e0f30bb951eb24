-- ===== src/Blacklist.antt =====
-- middleware/blacklist.go: the domains that are answered by 0.0.0.0, the lists that exempt a domain
-- or a client, and the operations that replace them.
pub mod Hole
pub mod Contents
pub mod Decisions
pub mod Refresh
pub mod Tests
use Hole.{Tree, HoleError, Limits, HostsFile, Built, built, refused, build_hole, empty_build}
use tdns.Base.{
  eqb, if◌then◌else◌, nat_eq, Text, text_eq, length, is_empty, contains, Bool, true, false, not,
  ◌&&◌, ◌||◌, Option, none, some, List, [], ◌∷◌, ◌++◌,
}
use tdns.Base.Strings.{txt}
use tdns.Message.{
  Question, Rr, Msg, Message, Result, ok, err, Run, ran, failed, panic, set_resolved, set_msg,
  get_msg, add_value, labels,
}
use tdns.Selectors.{
  SelectorSet, normalize_domain_pattern, normalize_domain_patterns, matches_suffix, parse_selectors,
  normalize_selector_values, matches_any_label,
}

-- `dns.NewRR` on "domain A address": a record, or an error.
abbrev pub NewRr : Type 0
NewRr = Text → Text → Result Rr

pub data OpError : Type 0 where
  invalid_config no_values all_present : OpError
  hole_error : HoleError → OpError

module _ (t : Tree) where
  pub record BlackList : Type 0 where
    pub enabled : Bool
    pub hole : Option t.Node
    pub hole_loaded : Bool
    pub white_list : List Text
    pub persisted_list : List Text
    pub extra_hosts : List Text
    pub white_rules : SelectorSet
    pub runtime_list : List Text
    pub runtime_rules : SelectorSet

  -- `Run` reads the list if the rules are empty and the list is not.
  abbrev pub rules_or_list : SelectorSet → List Text → SelectorSet
  rules_or_list rules list =
      if is_empty rules.domains && is_empty rules.labels && not (is_empty list)
      then parse_selectors list
      else rules

  abbrev pub bypasses : SelectorSet → Message → Text → Bool
  bypasses rules mess domain =
      matches_suffix domain rules.domains || matches_any_label (labels mess) rules.labels

  abbrev pub in_hole : Option t.Node → Text → Bool
  in_hole none domain = false
  in_hole (some h) domain = t.member h domain

  -- `AddValue`, its error dropped.
  abbrev pub mark_blocked : Message → Result Message → Message
  mark_blocked mess (err e) = mess
  mark_blocked mess (ok m) = m

  abbrev pub answer_with : Message → Msg → Result Rr → Run
  answer_with mess m (err e) = failed mess e
  answer_with mess m (ok rr) =
      ran (set_resolved (set_msg mess (record m { answer = m.answer ++ some rr ∷ [] })) true)

  abbrev pub run_question : BlackList → NewRr → Message → Msg → List Question → Run
  run_question b new_rr mess m [] = panic
  run_question b new_rr mess m (q ∷ _) =
      let domain = normalize_domain_pattern q.qname in
      if bypasses (rules_or_list b.runtime_rules b.runtime_list) mess domain
      then ran mess
      else if bypasses (rules_or_list b.white_rules b.white_list) mess domain
      then ran mess
      else if in_hole b.hole domain
      then answer_with (mark_blocked mess (add_value mess (txt "blocked") (txt "1"))) m
          (new_rr domain (txt "0.0.0.0"))
      else ran mess

  abbrev pub run_msg : BlackList → NewRr → Message → Result Msg → Run
  run_msg b new_rr mess (err e) = failed mess e
  run_msg b new_rr mess (ok m) = run_question b new_rr mess m m.question

  unfoldable pub run : BlackList → NewRr → Message → Run
  run b new_rr mess = if not b.enabled then ran mess else run_msg b new_rr mess (get_msg mess)

  unfoldable pub set_enabled : BlackList → Bool → BlackList
  set_enabled b state = record b { enabled = state }

  abbrev pub after_build : BlackList → Built t → BlackList × Option OpError
  after_build b (refused e) = (b, some (hole_error e))
  after_build b (built s) = (record b { hole = some s.hole; hole_loaded = true }, none)

  -- `reloadHoleLocked`; the file is created if it is missing, so it can be read.
  unfoldable pub reload_hole : Limits → Option HostsFile → BlackList → BlackList × Option OpError
  reload_hole limits file b =
      after_build b (build_hole t false limits b.white_rules.domains b.extra_hosts file)

  -- `ReplacePersistedHosts`: the list is replaced before the hole is built.
  unfoldable pub replace_persisted_hosts :
      Limits → Option HostsFile → List Text → BlackList → BlackList × Option OpError
  replace_persisted_hosts limits file domains b =
      reload_hole limits file (record b { extra_hosts = normalize_domain_patterns domains })

  abbrev pub with_excludes : BlackList → List Text → BlackList
  with_excludes b normalized = record b {
    persisted_list = normalized;
    white_rules = parse_selectors (b.white_list ++ normalized);
  }

  -- `ReplacePersistedExcludes`
  unfoldable pub replace_persisted_excludes :
      Limits → Option HostsFile → List Text → BlackList → BlackList × Option OpError
  replace_persisted_excludes limits file values b =
      reload_hole limits file (with_excludes b (normalize_selector_values values))

  -- The loop of `AddRuntimeWhitelist`: the values that are not in the list go behind it.
  unfoldable add_missing : List Text → List Text → List Text
  add_missing have [] = have
  add_missing have (value ∷ values) =
      add_missing (if contains have value then have else have ++ value ∷ []) values

  abbrev with_runtime_list : BlackList → List Text → BlackList × Option OpError
  with_runtime_list b list =
      if eqb (length list) (length b.runtime_list)
      then (b, some all_present)
      else (record b { runtime_list = list; runtime_rules = parse_selectors list }, none)

  -- `AddRuntimeWhitelist`: nothing changes if there is no value, or none is new.
  unfoldable add_runtime_whitelist : List Text → BlackList → BlackList × Option OpError
  add_runtime_whitelist domains b =
      let normalized = normalize_selector_values domains in
      if is_empty normalized
      then (b, some no_values)
      else with_runtime_list b (add_missing b.runtime_list normalized)
