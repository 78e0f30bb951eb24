-- ===== src/Static.antt =====
-- middleware/static.go: domains that are answered with an address of their own. The regular
-- expressions and the making of records are parameters.
pub mod Hosts
pub mod Active
pub mod Laws
pub mod Tests
use tdns.Base.{
  if◌then◌else◌, nat_eq, Text, text_eq, is_empty, ◌⊎◌, inl, inr, Bool, true, not, Option, none,
  some, List, [], ◌∷◌, ◌++◌,
}
use tdns.Base.Strings.{txt}
use tdns.Message.{
  Question, Rr, Msg, Message, Result, ok, err, Run, ran, failed, panic, set_resolved, set_msg,
  get_msg,
}
use tdns.Selectors.{normalize_labels, matches_client_scope}
use tdns.Static.Hosts.{
  HostMap, HostsError, no_file, empty_hosts, clone_host_map, merge_host_maps, HostsLines,
  read_hosts,
}
use tdns.Blacklist.{NewRr}

-- The section of the configuration that the middleware reads.
pub record StaticConfig : Type 0 where
  pub enabled : Bool
  pub file : Text
  pub labels : List Text

pub record StaticResponse : Type 0 where
  pub hosts_file : Text
  pub hosts : HostMap
  pub configured_hosts : HostMap
  pub persisted_hosts : HostMap
  pub runtime_hosts : HostMap
  pub enabled : Bool
  pub labels : List Text

-- `Config`: the mode and the labels are set before the file is looked for.
unfoldable pub config : StaticConfig → StaticResponse → StaticResponse × Option HostsError
config c sr =
    let sr' = record sr { enabled = c.enabled; labels = normalize_labels c.labels } in
    if not (is_empty c.file)
    then (record sr' { hosts_file = c.file }, none)
    else (sr', some no_file)

-- `refreshActiveHostsLocked`
abbrev pub refresh_active_hosts : StaticResponse → StaticResponse
refresh_active_hosts sr = record sr {
  hosts = merge_host_maps (sr.configured_hosts ∷ sr.persisted_hosts ∷ []);
}

abbrev init_with :
    StaticResponse → HostMap → HostMap ⊎ HostsError → StaticResponse × Option HostsError
init_with sr extra_hosts (inr e) = (sr, some e)
init_with sr extra_hosts (inl h) = (
  refresh_active_hosts (record sr {
    configured_hosts = clone_host_map h;
    persisted_hosts = clone_host_map extra_hosts;
    runtime_hosts = [];
  }),
  none,
)

-- `Init`, with the lines of the file and the extra hosts of the running configuration.
unfoldable pub init : HostsLines → HostMap → StaticResponse → StaticResponse × Option HostsError
init file extra_hosts sr = init_with sr extra_hosts (read_hosts file)

unfoldable pub set_enabled : StaticResponse → Bool → StaticResponse
set_enabled sr state = record sr { enabled = state }

unfoldable pub replace_runtime_hosts : HostMap → StaticResponse → StaticResponse × Option HostsError
replace_runtime_hosts hosts sr =
    if is_empty hosts
    then (sr, some empty_hosts)
    else (record sr { runtime_hosts = clone_host_map hosts; hosts = clone_host_map hosts }, none)

unfoldable pub replace_persisted_hosts : HostMap → StaticResponse → StaticResponse
replace_persisted_hosts hosts sr =
    let sr' = record sr { persisted_hosts = clone_host_map hosts } in
    if is_empty sr'.runtime_hosts then refresh_active_hosts sr' else sr'

module _ (match_string : Text → Text → Bool) (new_rr : NewRr) where
  -- `k+"\\."`
  abbrev pub host_pattern : Text → Text
  host_pattern k = k ++ txt "\\."

  -- The message with one record more, resolved.
  abbrev pub answered_with : Message → Msg → Rr → Message
  answered_with mess m rr =
      set_resolved (set_msg mess (record m { answer = m.answer ++ some rr ∷ [] })) true

  abbrev pub on_record : (Message → Run) → Message → Msg → Result Rr → Run
  on_record finish mess m (err e) = failed mess e
  on_record finish mess m (ok rr) = finish (answered_with mess m rr)

  -- The loop over the hosts; `finish` is what follows `mess.Resolved(true)`.
  unfoldable pub try_hosts : (Message → Run) → HostMap → Message → Msg → Text → Run
  try_hosts finish [] mess m domain = ran mess
  try_hosts finish ((k, v) ∷ hosts) mess m domain =
      let rest = try_hosts finish hosts mess m domain in
      if match_string (host_pattern k) domain
      then on_record finish mess m (new_rr domain v)
      else rest

  abbrev pub static_question : StaticResponse → Message → Msg → List Question → Run
  static_question sr mess m [] = panic
  static_question sr mess m (q ∷ _) = try_hosts ran sr.hosts mess m q.qname

  abbrev pub static_msg : StaticResponse → Message → Result Msg → Run
  static_msg sr mess (err e) = failed mess e
  static_msg sr mess (ok m) = static_question sr mess m m.question

  -- `Run`
  unfoldable pub run_static : StaticResponse → Message → Run
  run_static sr mess =
      if not sr.enabled
      then ran mess
      else if not (matches_client_scope mess sr.labels)
      then ran mess
      else static_msg sr mess (get_msg mess)
