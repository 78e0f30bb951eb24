-- ===== src/Selectors/Requests.antt =====
-- middleware/labels.go, the second half: selectors of requests by label, address or network. The
-- address functions of Go's `net` are an interface.
use tdns.Message.{
  Message, Addr, udp, tcp, ip_only, other, absent, labels as message_labels, CtxValue,
}
use tdns.Base.{
  if◌then◌else◌, nat_eq, Text, text_eq, is_empty, any, contains, Bool, true, false, Option, none,
  some, List, [], ◌∷◌, ◌++◌, map,
}
use tdns.Base.Strings.{txt, to_lower, trim_space, cut_prefix}
use tdns.Base.Sorting.{sort_texts}
use tdns.Selectors.{add_new, matches_any_label}

-- `net.ParseCIDR`, `net.ParseIP`, `IP.String`, `IPNet.String`, `IPNet.Contains`, and the host of
-- `net.SplitHostPort`, if there is one.
pub record Net : Type 1 where
  pub Network : Type 0
  pub Ip : Type 0
  pub parse_cidr : Text → Option Network
  pub parse_ip : Text → Option Ip
  pub ip_string : Ip → Text
  pub network_string : Network → Text
  pub network_contains : Network → Ip → Bool
  pub split_host : Text → Option Text

-- `remoteAddressIP`
unfoldable pub remote_address_ip : (n : Net) → Addr → Text
remote_address_ip n (udp ip) = ip
remote_address_ip n (tcp ip) = ip
remote_address_ip n absent = []
remote_address_ip n (ip_only addr) = elim (n.split_host addr) [ some host ↦ host | none ↦ addr ]
remote_address_ip n (other addr) = elim (n.split_host addr) [ some host ↦ host | none ↦ addr ]

module _ (n : Net) where
  open n use {Network, Ip, parse_cidr, parse_ip, ip_string, network_string, network_contains}

  pub record RequestSelectorSet : Type 0 where
    pub labels : List Text
    pub ips : List Text
    pub cidrs : List Network

  abbrev add_cidr : RequestSelectorSet → Option Network → RequestSelectorSet
  add_cidr s none = s
  add_cidr s (some network) = record s { cidrs = s.cidrs ++ network ∷ [] }

  abbrev add_ip : RequestSelectorSet → Option Ip → RequestSelectorSet
  add_ip s none = s
  add_ip s (some ip) =
      let printed = ip_string ip in
      if contains s.ips printed then s else record s { ips = s.ips ++ printed ∷ [] }

  abbrev add_address : RequestSelectorSet → Text → Option Network → RequestSelectorSet
  add_address s value (some network) = add_cidr s (some network)
  add_address s value none = add_ip s (parse_ip value)

  -- The `switch` of `parseRequestSelectors`, after the three prefixes were looked for.
  abbrev add_request_selector :
      RequestSelectorSet → Text → Option Text → Option Text → Option Text → RequestSelectorSet
  add_request_selector s value (some label) _ _ = record s {
    labels = add_new s.labels (trim_space label);
  }
  add_request_selector s value none (some ip) _ = record s { ips = add_new s.ips (trim_space ip) }
  add_request_selector s value none none (some cidr) = add_cidr s (parse_cidr (trim_space cidr))
  add_request_selector s value none none none = add_address s value (parse_cidr value)

  unfoldable pub parse_request_selector : RequestSelectorSet → Text → RequestSelectorSet
  parse_request_selector s raw =
      let value = trim_space (to_lower raw) in
      if is_empty value
      then s
      else add_request_selector s value (cut_prefix value (txt "label:"))
          (cut_prefix value (txt "ip:")) (cut_prefix value (txt "cidr:"))

  unfoldable pub collect_request_selectors : RequestSelectorSet → List Text → RequestSelectorSet
  collect_request_selectors s [] = s
  collect_request_selectors s (value ∷ values) =
      collect_request_selectors (parse_request_selector s value) values

  abbrev no_request_selectors : RequestSelectorSet
  no_request_selectors = record { labels = []; ips = []; cidrs = [] }

  unfoldable pub parse_request_selectors : List Text → RequestSelectorSet
  parse_request_selectors values =
      let s = collect_request_selectors no_request_selectors values in
      record s { labels = sort_texts s.labels; ips = sort_texts s.ips }

  unfoldable pub normalize_request_selectors : List Text → List Text
  normalize_request_selectors values =
      let s = parse_request_selectors values in
      map (λ label. txt "label:" ++ label) s.labels
      ++ (map (λ ip. txt "ip:" ++ ip) s.ips
          ++ map (λ network. txt "cidr:" ++ network_string network) s.cidrs)

  abbrev in_networks : List Network → Option Ip → Bool
  in_networks networks none = false
  in_networks networks (some ip) = any (λ network. network_contains network ip) networks

  abbrev matches_remote : RequestSelectorSet → Text → Bool
  matches_remote s remote =
      if is_empty remote
      then false
      else if contains s.ips remote
      then true
      else in_networks s.cidrs (parse_ip remote)

  abbrev matches_ctx : RequestSelectorSet → Option CtxValue → Bool
  matches_ctx s none = false
  matches_ctx s (some cv) = matches_remote s (remote_address_ip n cv.remote_addr)

  unfoldable pub matches_request_selectors : Message → RequestSelectorSet → Bool
  matches_request_selectors message s =
      if matches_any_label (message_labels message) s.labels
      then true
      else matches_ctx s message.ctx
