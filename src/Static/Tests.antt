-- ===== src/Static/Tests.antt =====
-- A middleware whose file names one host, with patterns that match what holds them.
use tdns.Base.{
  nat_eq, Text, text_beq, text_eq, ◌==◌, ◌≡◌, refl, inr, Bool, true, some, List, [], ◌∷◌, ◌++◌,
}
use tdns.Base.Maps.{insert}
use tdns.Base.Strings.{txt, trim_left, trim_right, has_prefix, trim_dot, fields}
use tdns.Message.{Rr, Result, ok}
use tdns.Static.Hosts.{
  invalid_entry, copy_into, clone_host_map, read_lines, read_entries, read_hosts_lines,
}
use tdns.Static.{StaticResponse, init, set_enabled, replace_persisted_hosts}
use tdns.Static.Laws.{StaticOp, persisted, enable, apply_ops}

-- The pattern of one host matches the domain that is its name with a dot behind it.
abbrev pub is_named : Text → Text → Bool
is_named pattern domain = pattern == (trim_dot domain ++ txt "\\.")

abbrev pub new_a : Text → Text → Result Rr
new_a domain address = ok (record { owner = domain; rrtype = 1; ttl = 3600; rdata = address })

abbrev blank : StaticResponse
blank = record {
  hosts_file = txt "/etc/hosts";
  hosts = [];
  configured_hosts = [];
  persisted_hosts = [];
  runtime_hosts = [];
  enabled = true;
  labels = [];
}

abbrev file_lines : List Text
file_lines = txt "# comment" ∷ txt "10.0.0.1  nas.lan" ∷ txt "10.0.0.2 tv.lan alias" ∷ []

abbrev operations : List StaticOp
operations = persisted ((txt "nas.lan", txt "10.9.9.9") ∷ []) ∷ enable true ∷ []

-- The persisted address overrides that of the file.
operations_hosts :
    (apply_ops (init (some file_lines) [] blank).0 operations).hosts
    ≡ (txt "nas.lan", txt "10.9.9.9") ∷ (txt "tv.lan", txt "10.0.0.2") ∷ []
unfolding apply_ops tdns.Static.set_enabled tdns.Static.replace_persisted_hosts init
    tdns.Static.Hosts.copy_into tdns.Static.Hosts.clone_host_map tdns.Base.Maps.insert
    tdns.Static.Hosts.read_lines tdns.Base.Strings.has_prefix tdns.Base.Strings.fields
    tdns.Base.text_beq
operations_hosts = refl

lines_error :
    read_hosts_lines (txt " 10.0.0.1 a" ∷ txt "broken" ∷ []) ≡ inr (invalid_entry (txt "broken"))
unfolding tdns.Static.Hosts.read_entries tdns.Base.Strings.trim_right tdns.Base.Strings.trim_left
    tdns.Base.Strings.has_prefix tdns.Base.Strings.fields
lines_error = refl
