-- ===== src/Overrides/Apply.antt =====
-- internal/overrides/apply.go: the rows are applied to a configuration, in their order.
use tdns.Base.{
  if◌then◌else◌, nat_eq, Text, text_eq, is_empty, contains, Bool, true, false, ◌||◌, Option, none,
  some, List, [], ◌∷◌, ◌++◌,
}
use tdns.Base.Maps.{insert}
use tdns.Base.Strings.{txt, to_lower, trim_space, cut_prefix, trim_dot}
use tdns.Overrides.Types.{
  Kind, static_host, zen_domain, zen_exclude, blacklist_host, blacklist_exclude, cache_enabled,
  cache_exclude, dns_log_enabled, dns_log_domains_pseudonymized, dns_log_clients_pseudonymized, Row,
}

-- The fields of the configuration that an override changes.
pub record AppConf : Type 0 where
  pub extra_hosts : List (Text × Text)
  pub zen_domains : List Text
  pub zen_excludes : List Text
  pub blacklist_hosts : List Text
  pub blacklist_excludes : List Text
  pub cache_on : Bool
  pub cache_excludes : List Text
  pub dns_log_on : Bool
  pub pseudonymized_domains : Bool
  pub pseudonymized_clients : Bool

unfoldable pub append_unique : List Text → Text → List Text
append_unique values value =
    if is_empty value || contains values value then values else values ++ value ∷ []

unfoldable pub normalize_domain : Text → Text
normalize_domain value = trim_dot (trim_space (to_lower value))

-- A value behind a prefix, trimmed, with the prefix before it; nothing if it is empty.
abbrev with_prefix : Text → Text → Text
with_prefix prefix rest = if is_empty rest then [] else prefix ++ rest

abbrev or_domain : Text → Option Text → Text
or_domain value (some label) = with_prefix (txt "label:") (trim_space label)
or_domain value none = normalize_domain value

unfoldable pub normalize_selector : Text → Text
normalize_selector value =
    let v = trim_space (to_lower value) in
    if is_empty v then [] else or_domain v (cut_prefix v (txt "label:"))

abbrev or_cidr : Text → Option Text → Text
or_cidr value (some cidr) = with_prefix (txt "cidr:") (trim_space cidr)
or_cidr value none = value

abbrev or_ip : Text → Option Text → Text
or_ip value (some ip) = with_prefix (txt "ip:") (trim_space ip)
or_ip value none = or_cidr value (cut_prefix value (txt "cidr:"))

abbrev or_label : Text → Option Text → Text
or_label value (some label) = with_prefix (txt "label:") (trim_space label)
or_label value none = or_ip value (cut_prefix value (txt "ip:"))

unfoldable pub normalize_cache_selector : Text → Text
normalize_cache_selector value =
    let v = trim_space (to_lower value) in
    if is_empty v then [] else or_label v (cut_prefix v (txt "label:"))

-- The loop of `NormalizeDomains`, `NormalizeSelectors` and `NormalizeCacheSelectors`.
unfoldable normalize_each : (Text → Text) → List Text → List Text → List Text
normalize_each normalize normalized [] = normalized
normalize_each normalize normalized (value ∷ values) =
    normalize_each normalize (append_unique normalized (normalize value)) values

abbrev normalize_domains : List Text → List Text
normalize_domains values = normalize_each normalize_domain [] values

abbrev normalize_selectors : List Text → List Text
normalize_selectors values = normalize_each normalize_selector [] values

abbrev normalize_cache_selectors : List Text → List Text
normalize_cache_selectors values = normalize_each normalize_cache_selector [] values

abbrev true_texts : List Text
true_texts = txt "1" ∷ txt "t" ∷ txt "T" ∷ txt "TRUE" ∷ txt "true" ∷ txt "True" ∷ []

abbrev false_texts : List Text
false_texts = txt "0" ∷ txt "f" ∷ txt "F" ∷ txt "FALSE" ∷ txt "false" ∷ txt "False" ∷ []

-- `strconv.ParseBool`
unfoldable pub parse_bool : Text → Option Bool
parse_bool value =
    if contains true_texts value
    then some true
    else if contains false_texts value
    then some false
    else none

abbrev put_host : AppConf → Row → Text → AppConf
put_host conf row target =
    if is_empty target || is_empty row.value
    then conf
    else record conf { extra_hosts = insert target (trim_space row.value) conf.extra_hosts }

-- One of the switches; no configuration is the error of `ParseBool`.
abbrev pub switch : (Bool → AppConf) → Option Bool → Option AppConf
switch set none = none
switch set (some enabled) = some (set enabled)

abbrev pub row_bool : Row → Option Bool
row_bool row = parse_bool (trim_space row.value)

-- What a row of a kind does.
abbrev pub apply_kind : Kind → AppConf → Row → Option AppConf
apply_kind static_host conf row = some (put_host conf row (normalize_domain row.target))
apply_kind zen_domain conf row =
    some
      (record conf { zen_domains = append_unique conf.zen_domains (normalize_domain row.target) })
apply_kind zen_exclude conf row =
    some (record conf {
      zen_excludes = append_unique conf.zen_excludes (normalize_selector row.target);
    })
apply_kind blacklist_host conf row = some (record conf {
  blacklist_hosts = append_unique conf.blacklist_hosts (normalize_domain row.target);
})
apply_kind blacklist_exclude conf row = some (record conf {
  blacklist_excludes = append_unique conf.blacklist_excludes (normalize_selector row.target);
})
apply_kind cache_enabled conf row =
    switch (λ enabled. record conf { cache_on = enabled }) (row_bool row)
apply_kind cache_exclude conf row = some (record conf {
  cache_excludes = append_unique conf.cache_excludes (normalize_cache_selector row.target);
})
apply_kind dns_log_enabled conf row =
    switch (λ enabled. record conf { dns_log_on = enabled }) (row_bool row)
apply_kind dns_log_domains_pseudonymized conf row =
    switch (λ enabled. record conf { pseudonymized_domains = enabled }) (row_bool row)
apply_kind dns_log_clients_pseudonymized conf row =
    switch (λ enabled. record conf { pseudonymized_clients = enabled }) (row_bool row)

-- The configuration after the rows, and whether there was no error: the rows before an error are
-- applied.
unfoldable pub apply : AppConf → List Row → AppConf × Bool
apply conf [] = (conf, true)
apply conf (row ∷ rows) = elim (apply_kind row.kind conf row) [
  | none ↦ (conf, false)
  | some conf' ↦ apply conf' rows
]
