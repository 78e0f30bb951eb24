-- ===== src/Selectors/Tests.antt =====
-- Examples of selectors.
use tdns.Base.{nat_eq, Text, text_eq, any, contains, ◌≡◌, refl, ◌↔◌, true, List, [], ◌∷◌, ◌++◌}
use tdns.Base.Strings.{txt}
use tdns.Base.Sorting.{IsSorted, text_leb}
use tdns.Selectors.{matches_suffix, parse_selectors, normalize_selector_values}
use tdns.Selectors.Laws.{classify, is_domain, is_label, IsDistinctSet, parse_selectors_lem}
use tdns.Selectors.Roundtrip.{parse_selectors-normalize_selector_values}

abbrev values : List Text
values = txt "label:kids" ∷ txt " Example.com. " ∷ txt "ads.org" ∷ txt "label:kids" ∷ []

parse_selectors_example :
    (contains (parse_selectors values).domains (txt "ads.org")
      ≡ any (λ v. is_domain (txt "ads.org") (classify v)) values)
    × (contains (parse_selectors values).labels (txt "ads.org")
        ≡ any (λ v. is_label (txt "ads.org") (classify v)) values)
    × IsDistinctSet (parse_selectors values)
    × IsSorted text_leb (parse_selectors values).domains
    × IsSorted text_leb (parse_selectors values).labels
parse_selectors_example = parse_selectors_lem values (txt "ads.org")

normalize_selector_values_example :
    parse_selectors (normalize_selector_values values) ≡ parse_selectors values
unfolding parse_selectors tdns.Base.Sorting.sort_by tdns.Selectors.collect_selectors
    tdns.Selectors.parse_selector tdns.Base.Strings.trim_right tdns.Base.Strings.trim_left
    tdns.Base.Strings.cut_prefix tdns.Selectors.normalize_domain_pattern tdns.Base.Strings.trim_dot
    tdns.Base.Strings.to_lower contains tdns.Base.text_beq text_leb classify
    tdns.Selectors.Plain.ends_plainly tdns.Base.Strings.has_prefix
normalize_selector_values_example =
    parse_selectors-normalize_selector_values values (refl, (refl, tt))
