-- ===== src/Zen.antt =====
-- middleware/zen.go: domains that are answered with an address of nowhere for a while. The timer is a
-- module of its own.
pub mod Timer
pub mod Invariant
pub mod Reach
pub mod Laws
pub mod Answers
mod Tests
use tdns.Message.{labels}
use tdns.Base.{
  if◌then◌else◌, nat_eq, Text, text_eq, is_empty, ℕ, zero, ◌⊎◌, inl, inr, Bool, true, false, not,
  ◌||◌, Option, none, some, List, [], ◌∷◌, ◌++◌, map,
}
use tdns.Base.Maps.{keys, insert}
use tdns.Base.Strings.{txt}
use tdns.Base.Sorting.{sort_texts}
use tdns.Message.{
  Question, Msg, Message, Result, ok, err, Run, ran, failed, panic, get_msg, add_value,
}
use tdns.Selectors.{
  SelectorSet, normalize_domain_pattern, matches_suffix, normalize_labels, parse_selectors,
  normalize_selector_values, matches_any_label, matches_client_scope,
}
use tdns.Static.Hosts.{
  HostMap, HostsError, empty_hosts, copy_into, clone_host_map, merge_host_maps, HostsLines,
  read_hosts,
}
use tdns.Static.{answered_with, try_hosts}
use tdns.Blacklist.{NewRr}

-- The section of the configuration that the middleware reads; the time is in minutes.
pub record ZenConfig : Type 0 where
  pub file : Text
  pub time : ℕ
  pub labels : List Text
  pub domains : List Text
  pub persisted_domains : List Text
  pub excludes : List Text
  pub persisted_excludes : List Text

-- `timer_taken`: the channel `timerMu` holds its one element. A time of 0 is Go's zero time.
pub record ZenMode : Type 0 where
  pub enabled : Bool
  pub init_done : Bool
  pub timer_taken : Bool
  pub conf : ZenConfig
  pub hosts : HostMap
  pub configured_hosts : HostMap
  pub persisted_hosts : HostMap
  pub runtime_hosts : HostMap
  pub configured_excludes : List Text
  pub persisted_excludes : List Text
  pub exclude_rules : SelectorSet
  pub labels : List Text
  pub started_at : ℕ
  pub ends_at : ℕ

-- `ZenModeIP` of config/config.go
abbrev zen_mode_ip : Text
zen_mode_ip = txt "0.0.0.0"

abbrev pub zen_value : Text
zen_value = txt "tdns/zen-mode"

-- The loops `hosts[each] = ZenModeIP`
unfoldable pub put_domains : HostMap → List Text → HostMap
put_domains hosts [] = hosts
put_domains hosts (each ∷ domains) = put_domains (insert each zen_mode_ip hosts) domains

-- `refreshActiveHostsLocked`
abbrev pub refresh_active_hosts : ZenMode → ZenMode
refresh_active_hosts z = record z {
  hosts = merge_host_maps (z.configured_hosts ∷ z.persisted_hosts ∷ []);
}

abbrev pub reset_state : ZenMode → ZenMode
reset_state z =
    let configured = normalize_selector_values z.conf.excludes in
    let persisted = normalize_selector_values z.conf.persisted_excludes in
    record z {
      timer_taken = false;
      enabled = false;
      init_done = true;
      hosts = [];
      configured_hosts = [];
      persisted_hosts = [];
      runtime_hosts = [];
      labels = normalize_labels z.conf.labels;
      configured_excludes = configured;
      persisted_excludes = persisted;
      exclude_rules = parse_selectors (configured ++ persisted);
      started_at = 0;
      ends_at = 0;
    }

abbrev pub with_file : ZenMode → HostMap ⊎ HostsError → ZenMode × Option HostsError
with_file z (inr e) = (z, some e)
with_file z (inl h) = (
  refresh_active_hosts (record z {
    configured_hosts = put_domains (clone_host_map h) z.conf.domains;
    persisted_hosts = put_domains [] z.conf.persisted_domains;
  }),
  none,
)

-- `Init`, with the lines of the configured file. Without one, the map of the file is empty.
unfoldable pub init : HostsLines → ZenMode → ZenMode × Option HostsError
init file z = with_file (reset_state z) (if is_empty z.conf.file then inl [] else read_hosts file)

unfoldable pub replace_domains : HostMap → ZenMode → ZenMode × Option HostsError
replace_domains hosts z =
    if is_empty hosts
    then (z, some empty_hosts)
    else (record z { runtime_hosts = clone_host_map hosts; hosts = clone_host_map hosts }, none)

unfoldable pub replace_persisted_domains : List Text → ZenMode → ZenMode
replace_persisted_domains domains z =
    let z' = record z { persisted_hosts = put_domains [] domains } in
    if is_empty z'.runtime_hosts then refresh_active_hosts z' else z'

unfoldable pub replace_persisted_excludes : List Text → ZenMode → ZenMode
replace_persisted_excludes values z = record z {
  persisted_excludes = values;
  exclude_rules = parse_selectors (z.configured_excludes ++ values);
}

-- `GetDomains`
abbrev get_domains : ZenMode → List Text
get_domains z = sort_texts (keys z.hosts)

-- The keys of the map `configured` of `configuredDomains`, sorted.
unfoldable configured_domains : HostsLines → ZenMode → List Text ⊎ HostsError
configured_domains file z = list_domains (if is_empty z.conf.file then inl [] else read_hosts file)
  where
    list_domains : HostMap ⊎ HostsError → List Text ⊎ HostsError
    list_domains (inr e) = inr e
    list_domains (inl h) = inl (sort_texts (keys (put_domains (copy_into [] h) z.conf.domains)))

module _ (match_string : Text → Text → Bool) (new_rr : NewRr) where
  abbrev after_value : Message → Result Message → Run
  after_value mess (err e) = failed mess e
  after_value mess (ok m) = ran m

  -- The value is added to a message that is resolved already.
  abbrev pub mark_zen : Message → Run
  mark_zen mess = after_value mess (add_value mess zen_value (txt "true"))

  abbrev pub is_exempt : ZenMode → Message → Text → Bool
  is_exempt z mess domain =
      matches_suffix (normalize_domain_pattern domain) z.exclude_rules.domains
      || matches_any_label (labels mess) z.exclude_rules.labels

  abbrev pub zen_question : ZenMode → Message → Msg → List Question → Run
  zen_question z mess m [] = panic
  zen_question z mess m (q ∷ _) =
      if is_exempt z mess q.qname
      then ran mess
      else try_hosts match_string new_rr mark_zen z.hosts mess m q.qname

  abbrev pub zen_msg : ZenMode → Message → Result Msg → Run
  zen_msg z mess (err e) = failed mess e
  zen_msg z mess (ok m) = zen_question z mess m m.question

  -- `Run`
  unfoldable pub run_zen : ZenMode → Message → Run
  run_zen z mess =
      if z.enabled
      then if not (matches_client_scope mess z.labels)
        then ran mess
        else zen_msg z mess (get_msg mess)
      else ran mess
