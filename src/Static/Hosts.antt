-- ===== src/Static/Hosts.antt =====
-- middleware/static.go: maps from domains to addresses, read from lines, copied and merged. A map is
-- the list of its entries in the order in which it is iterated.
use tdns.Base.{
  if◌then◌else◌, nat_eq, Text, text_eq, is_empty, ◌⊎◌, inl, inr, Bool, ◌||◌, Option, none, some,
  List, [], ◌∷◌,
}
use tdns.Base.Maps.{insert}
use tdns.Base.Strings.{txt, trim_space, has_prefix, fields}
use tdns.Base.Sorting.{sort_by, text_leb}

abbrev pub HostMap : Type 0
HostMap = List (Text × Text)

pub data HostsError : Type 0 where
  open_failed no_file empty_hosts : HostsError
  invalid_entry : Text → HostsError

-- `merged[domain] = address` for each entry of `hosts`.
unfoldable pub copy_into : HostMap → HostMap → HostMap
copy_into merged [] = merged
copy_into merged ((domain, address) ∷ hosts) = copy_into (insert domain address merged) hosts

unfoldable pub clone_host_map : HostMap → HostMap
clone_host_map hosts = if is_empty hosts then [] else copy_into [] hosts

abbrev merge_each : HostMap → List HostMap → HostMap
merge_each merged [] = merged
merge_each merged (hosts ∷ maps) = merge_each (copy_into merged hosts) maps

abbrev pub merge_host_maps : List HostMap → HostMap
merge_host_maps = merge_each []

-- `hosts[fields[1]] = fields[0]` if there are two fields.
abbrev pub put_fields : HostMap → List Text → HostMap
put_fields hosts [] = hosts
put_fields hosts (address ∷ []) = hosts
put_fields hosts (address ∷ domain ∷ _) = insert domain address hosts

unfoldable pub read_lines : HostMap → List Text → HostMap
read_lines hosts [] = hosts
read_lines hosts (s ∷ lines) =
    read_lines (if has_prefix s (txt "#") then hosts else put_fields hosts (fields s)) lines

-- The lines of a file, or none if it cannot be opened.
abbrev pub HostsLines : Type 0
HostsLines = Option (List Text)

abbrev pub read_hosts : HostsLines → HostMap ⊎ HostsError
read_hosts none = inr open_failed
read_hosts (some lines) = inl (read_lines [] lines)

abbrev put_entry : HostMap → Text → List Text → HostMap ⊎ HostsError
put_entry hosts line [] = inr (invalid_entry line)
put_entry hosts line (address ∷ []) = inr (invalid_entry line)
put_entry hosts line (address ∷ domain ∷ _) = inl (insert domain address hosts)

abbrev with_hosts : HostMap ⊎ HostsError → (HostMap → HostMap ⊎ HostsError) → HostMap ⊎ HostsError
with_hosts (inl hosts) f = f hosts
with_hosts (inr e) f = inr e

abbrev read_entry : HostMap → Text → HostMap ⊎ HostsError
read_entry hosts line =
    let s = trim_space line in
    if is_empty s || has_prefix s (txt "#") then inl hosts else put_entry hosts line (fields s)

unfoldable pub read_entries : HostMap → List Text → HostMap ⊎ HostsError
read_entries hosts [] = inl hosts
read_entries hosts (line ∷ lines) =
    with_hosts (read_entry hosts line) (λ next_hosts. read_entries next_hosts lines)

-- `ReadHostsLines`
abbrev pub read_hosts_lines : List Text → HostMap ⊎ HostsError
read_hosts_lines lines = read_entries [] lines

abbrev pub by_domain : Text × Text → Text × Text → Bool
by_domain (d, a) (e, b) = text_leb d e

abbrev sorted_host_entries : HostMap → HostMap
sorted_host_entries hosts = sort_by by_domain hosts
