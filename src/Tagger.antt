-- ===== src/Tagger.antt =====
-- middleware/tagger.go: the labels of a client by its address. What the storage returns
-- (`GetAllMemberLabels`) is an argument; the addresses of Go's `net` are an interface.
pub mod Laws
mod Tests
use tdns.Base.{
  if◌then◌else◌, nat_eq, Text, text_eq, is_empty, contains, Bool, not, ◌||◌, Option, none, some,
  List, [], ◌∷◌, ◌++◌,
}
use tdns.Base.Maps.{lookup, insert}
use tdns.Base.Strings.{trim_space}
use tdns.Message.{
  Addr, udp, tcp, ip_only, other, absent, CtxValue, Message, Result, ok, err, Run, ran, failed,
  add_labels,
}
use tdns.Selectors.{normalize_labels}
use tdns.Selectors.Requests.{Net}

pub record Member : Type 0 where
  pub address : Text
  pub labels : List Text

-- `remoteAddressKey`
unfoldable pub remote_address_key : Addr → Text
remote_address_key (udp ip) = ip
remote_address_key (tcp ip) = ip
remote_address_key (ip_only ip) = ip
remote_address_key (other addr) = addr
remote_address_key absent = []

-- The labels that are not there yet go behind the others.
unfoldable pub add_unseen : List Text → List Text → List Text
add_unseen have [] = have
add_unseen have (label ∷ ls) =
    add_unseen (if contains have label then have else have ++ label ∷ []) ls

module _ (n : Net) where
  open n use {Network, Ip, parse_cidr, parse_ip, network_contains}

  pub record CidrLabels : Type 0 where
    pub network : Network
    pub labels : List Text

  pub record Tagger : Type 0 where
    -- the storage is there
    pub ready : Bool
    pub exact_match : List (Text × List Text)
    pub cidr_match : List CidrLabels

  abbrev add_matcher : Tagger → Text → List Text → Option Network → Tagger
  add_matcher t address ls (some network) = record t {
    cidr_match = t.cidr_match ++ record { network = network; labels = ls } ∷ [];
  }
  add_matcher t address ls none = record t { exact_match = insert address ls t.exact_match }

  -- One round of the loop of `refreshMatchers`.
  unfoldable pub add_member : Tagger → Member → Tagger
  add_member t member =
      let address = trim_space member.address in
      let ls = normalize_labels member.labels in
      if is_empty address || is_empty ls then t else add_matcher t address ls (parse_cidr address)

  unfoldable pub add_members : Tagger → List Member → Tagger
  add_members t [] = t
  add_members t (member ∷ members) = add_members (add_member t member) members

  -- `refreshMatchers`, with what the storage returned: nothing changes if it failed.
  unfoldable pub refresh_matchers : Tagger → Option (List Member) → Tagger
  refresh_matchers t none = t
  refresh_matchers t (some members) =
      add_members (record t { exact_match = []; cidr_match = [] }) members

  abbrev or_no_labels : Option (List Text) → List Text
  or_no_labels none = []
  or_no_labels (some ls) = ls

  abbrev pub exact_labels : Tagger → Text → List Text
  exact_labels t address = or_no_labels (lookup address t.exact_match)

  -- The loop over the networks.
  unfoldable pub add_networks : Ip → List Text → List CidrLabels → List Text
  add_networks ip have [] = have
  add_networks ip have (c ∷ cs) =
      add_networks ip (if network_contains c.network ip then add_unseen have c.labels else have) cs

  abbrev with_networks : Tagger → List Text → Option Ip → List Text
  with_networks t have none = have
  with_networks t have (some ip) = normalize_labels (add_networks ip have t.cidr_match)

  unfoldable pub lookup_labels : Tagger → Text → List Text
  lookup_labels t address = with_networks t (exact_labels t address) (parse_ip address)

  -- An error of `AddLabels` is logged.
  abbrev pub tagged : Message → Result Message → Run
  tagged m (err e) = ran m
  tagged m (ok m') = ran m'

  abbrev pub add_tags : Message → List Text → Run
  add_tags m tags = if is_empty tags then ran m else tagged m (add_labels m tags)

  abbrev tag_address : Tagger → Message → Text → Run
  tag_address t m address = if is_empty address then ran m else add_tags m (lookup_labels t address)

  abbrev pub tag_client : Tagger → Message → Option CtxValue → Run
  tag_client t m none = ran m
  tag_client t m (some cv) = tag_address t m (remote_address_key cv.remote_addr)

  -- `Run`
  unfoldable pub run_tagger : Tagger → Message → Run
  run_tagger t m = if not t.ready then ran m else tag_client t m m.ctx
