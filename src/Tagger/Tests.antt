-- ===== src/Tagger/Tests.antt =====
-- A tagger with an address and a network.
use tdns.Base.{
  if◌then◌else◌, nat_eq, Text, text_eq, is_empty, any, contains, ◌≡◌, refl, true, not, ◌&&◌, ◌||◌,
  none, some, [], ◌∷◌,
}
use tdns.Base.Strings.{txt, has_prefix, has_suffix}
use tdns.Message.Tests.{asked}
use tdns.Selectors.Requests.{Net}
use tdns.Tagger.{CidrLabels, Tagger, exact_labels, lookup_labels, run_tagger}
use tdns.Tagger.Laws.{trims_to, gives, lookup_labels_lem, client_labels, IsTagged, run_tagger_lem}

-- A network is the text that its addresses begin with, and ends in a dot.
abbrev prefix_net : Net
prefix_net = record {
  Network = Text;
  Ip = Text;
  parse_cidr = λ t. if has_suffix t (txt ".") then some t else none;
  parse_ip = λ t. some t;
  ip_string = λ ip. ip;
  network_string = λ network. network;
  network_contains = λ network ip. has_prefix ip network;
  split_host = λ t. none;
}

abbrev home_network : CidrLabels prefix_net
home_network = record { network = txt "10."; labels = txt "home" ∷ [] }

abbrev home : Tagger prefix_net
home = record {
  ready = true;
  exact_match = (txt "10.0.0.9", txt "kids" ∷ []) ∷ [];
  cidr_match = home_network ∷ [];
}

lookup_labels_example : contains (lookup_labels prefix_net home (txt "10.0.0.9")) (txt "home") ≡ (
    not (is_empty (txt "home"))
    && (any (trims_to (txt "home")) (exact_labels prefix_net home (txt "10.0.0.9"))
        || any (gives prefix_net (txt "10.0.0.9") (txt "home")) home.cidr_match))
lookup_labels_example =
    lookup_labels_lem prefix_net home (txt "10.0.0.9") (txt "home") (txt "10.0.0.9") refl

run_tagger_example :
    IsTagged prefix_net asked
      (client_labels prefix_net home asked)
      (txt "home")
      (run_tagger prefix_net home asked)
run_tagger_example =
    run_tagger_lem prefix_net home asked (txt "home") (unfold contains in (refl, tt))
