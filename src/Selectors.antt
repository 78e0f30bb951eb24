-- ===== src/Selectors.antt =====
-- middleware/labels.go and the domain patterns of middleware/blacklist.go: selectors of domains
-- and client labels, and how a request is matched against them.
pub mod Laws
pub mod Plain
pub mod Roundtrip
pub mod Requests
mod Tests
use tdns.Message.{Message, labels}
use tdns.Base.{
  if◌then◌else◌, nat_eq, Text, text_eq, is_empty, any, contains, Bool, true, false, ◌||◌, Option,
  none, some, List, [], ◌∷◌, ◌++◌, map,
}
use tdns.Base.Strings.{txt, to_lower, trim_space, cut_prefix, has_suffix, trim_dot, join}
use tdns.Base.Sorting.{sort_texts}

pub record SelectorSet : Type 0 where
  pub domains : List Text
  pub labels : List Text

unfoldable pub normalize_domain_pattern : Text → Text
normalize_domain_pattern value = trim_dot (trim_space (to_lower value))

-- One round of the loop of `normalizeDomainPatterns`; what is `seen` is what is collected.
unfoldable collect_domain : List Text → Text → List Text
collect_domain out value =
    let domain = normalize_domain_pattern value in
    if is_empty domain || contains out domain then out else out ++ domain ∷ []

collect_domains : List Text → List Text → List Text
collect_domains out [] = out
collect_domains out (value ∷ values) = collect_domains (collect_domain out value) values

unfoldable pub normalize_domain_patterns : List Text → List Text
unfolding collect_domains collect_domain
normalize_domain_patterns values = collect_domains [] values

unfoldable pub matches_suffix : Text → List Text → Bool
matches_suffix domain values = any (λ each. has_suffix domain each) values

-- One round of the loop of `normalizeLabels`.
abbrev collect_label : List Text → Text → List Text
collect_label out value =
    let label = trim_space value in
    if is_empty label || contains out label then out else out ++ label ∷ []

unfoldable pub collect_labels : List Text → List Text → List Text
collect_labels out [] = out
collect_labels out (value ∷ values) = collect_labels (collect_label out value) values

unfoldable pub normalize_labels : List Text → List Text
normalize_labels ls = sort_texts (collect_labels [] ls)

abbrev pub label_prefix : Text
label_prefix = txt "label:"

abbrev pub add_new : List Text → Text → List Text
add_new have value = if is_empty value || contains have value then have else have ++ value ∷ []

abbrev pub add_selector : SelectorSet → Text → Option Text → SelectorSet
add_selector s value (some label) = record s { labels = add_new s.labels (trim_space label) }
add_selector s value none = record s {
  domains = add_new s.domains (normalize_domain_pattern value);
}

-- One round of the loop of `parseSelectors`.
unfoldable pub parse_selector : SelectorSet → Text → SelectorSet
parse_selector s raw =
    let value = trim_space raw in
    if is_empty value then s else add_selector s value (cut_prefix value label_prefix)

unfoldable pub collect_selectors : SelectorSet → List Text → SelectorSet
collect_selectors s [] = s
collect_selectors s (value ∷ values) = collect_selectors (parse_selector s value) values

abbrev pub no_selectors : SelectorSet
no_selectors = record { domains = []; labels = [] }

abbrev pub sort_selectors : SelectorSet → SelectorSet
sort_selectors s = record { domains = sort_texts s.domains; labels = sort_texts s.labels }

unfoldable pub parse_selectors : List Text → SelectorSet
parse_selectors values = sort_selectors (collect_selectors no_selectors values)

abbrev pub print_selectors : SelectorSet → List Text
print_selectors s = s.domains ++ map (λ label. label_prefix ++ label) s.labels

unfoldable pub normalize_selector_values : List Text → List Text
normalize_selector_values values = print_selectors (parse_selectors values)

unfoldable pub matches_any_label : List Text → List Text → Bool
matches_any_label have wanted =
    if is_empty have || is_empty wanted then false else any (λ label. contains wanted label) have

unfoldable pub matches_client_scope : Message → List Text → Bool
matches_client_scope message ls =
    if is_empty ls then true else matches_any_label (labels message) ls

unfoldable pub label_fingerprint : List Text → Text
label_fingerprint ls = if is_empty ls then [] else join (normalize_labels ls) (txt ",")
