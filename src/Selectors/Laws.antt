-- ===== src/Selectors/Laws.antt =====
-- What the lists of selectors hold.
use tdns.Base.{any-eq-true, any_of_contains, refl}
use tdns.Base.Strings.{has_suffix-append}
use tdns.Selectors.{matches_any_label}
use tdns.Base.{
  if◌then◌else◌, ◌==◌, nat_eq, Text, text_beq_iff, text_eq, Bool-cases, is_empty, any, contains,
  contains-append, Distinct, Distinct-concat, ◌≡◌, ◌↔◌, ◌∙◌, inl, inr, Bool, true, false, not, ◌&&◌,
  ◌||◌, Option, none, some, List, [], ◌∷◌, ◌++◌, arith,
}
use tdns.Base.Strings.{trim_space, cut_prefix, has_suffix, append_of_has_suffix}
use tdns.Base.Sorting.{
  IsSorted, sort_by-IsSorted, contains-sort_by, Distinct-sort_by, text_leb, text_leb-IsOrder,
}
use tdns.Selectors.{
  SelectorSet, normalize_domain_pattern, matches_suffix, label_prefix, add_new, add_selector,
  parse_selector, collect_selectors, no_selectors, parse_selectors,
}

-- What one value selects.
pub data Selector : Type 0 where
  ignored : Selector
  by_label by_domain : Text → Selector

abbrev pub selector_of : Text → Option Text → Selector
selector_of value (some l) = if is_empty (trim_space l) then ignored else by_label (trim_space l)
selector_of value none =
    let d = normalize_domain_pattern value in if is_empty d then ignored else by_domain d

unfoldable pub classify : Text → Selector
classify raw =
    let value = trim_space raw in
    if is_empty value then ignored else selector_of value (cut_prefix value label_prefix)

abbrev pub is_domain : Text → Selector → Bool
is_domain d (by_domain d') = d' == d
is_domain d _ = false

abbrev pub is_label : Text → Selector → Bool
is_label l (by_label l') = l' == l
is_label l _ = false

contains-add_new :
    (have : List Text) (v q : Text)
    → contains (add_new have v) q ≡ (contains have q || (not (is_empty v) && v == q))
unfolding contains
contains-add_new have v q = ground (arith, contains-append have (v ∷ []) q, text_beq_iff v q)

Distinct-add_new : (have : List Text) (v : Text) → Distinct have → Distinct (add_new have v)
Distinct-add_new have v d = ground (arith, Distinct-concat have v d)

contains-add_selector :
    (s : SelectorSet) (v q : Text) (o : Option Text)
    → (contains (add_selector s v o).domains q
        ≡ (contains s.domains q || is_domain q (selector_of v o)))
      × (contains (add_selector s v o).labels q
          ≡ (contains s.labels q || is_label q (selector_of v o)))
contains-add_selector s v q (some l) = ground (arith, contains-add_new s.labels (trim_space l) q)
contains-add_selector s v q none =
    ground (arith, contains-add_new s.domains (normalize_domain_pattern v) q)

contains-parse_selector :
    (s : SelectorSet) (v q : Text)
    → (contains (parse_selector s v).domains q ≡ (contains s.domains q || is_domain q (classify v)))
      × (contains (parse_selector s v).labels q ≡ (contains s.labels q || is_label q (classify v)))
unfolding parse_selector classify
contains-parse_selector s v q =
    ground
      (arith, contains-add_selector s (trim_space v) q (cut_prefix (trim_space v) label_prefix))

contains-collect_selectors :
    (s : SelectorSet) (vs : List Text) (q : Text)
    → (contains (collect_selectors s vs).domains q
        ≡ (contains s.domains q || any (λ v. is_domain q (classify v)) vs))
      × (contains (collect_selectors s vs).labels q
          ≡ (contains s.labels q || any (λ v. is_label q (classify v)) vs))
unfolding collect_selectors any
contains-collect_selectors s [] q = ground arith
contains-collect_selectors s (v ∷ vs) q =
    ground
      (arith, contains-parse_selector s v q, contains-collect_selectors (parse_selector s v) vs q)

abbrev pub IsDistinctSet : SelectorSet → Type 0
IsDistinctSet s = Distinct s.domains × Distinct s.labels

Distinct-add_selector :
    (s : SelectorSet) (v : Text) (o : Option Text)
    → IsDistinctSet s
    → IsDistinctSet (add_selector s v o)
Distinct-add_selector s v (some l) d = (d.0, Distinct-add_new s.labels (trim_space l) d.1)
Distinct-add_selector s v none d =
    (Distinct-add_new s.domains (normalize_domain_pattern v) d.0, d.1)

Distinct-parse_selector :
    (s : SelectorSet) (v : Text) → IsDistinctSet s → IsDistinctSet (parse_selector s v)
unfolding parse_selector
Distinct-parse_selector s v d = elim (Bool-cases (is_empty (trim_space v))) [
  | inl e ↦ rw (e, parse_selector) d
  | inr e ↦
      rw (e, parse_selector)
        (Distinct-add_selector s (trim_space v) (cut_prefix (trim_space v) label_prefix) d)
]

Distinct-collect_selectors :
    (s : SelectorSet) (vs : List Text) → IsDistinctSet s → IsDistinctSet (collect_selectors s vs)
unfolding collect_selectors
Distinct-collect_selectors s [] d = d
Distinct-collect_selectors s (v ∷ vs) d =
    Distinct-collect_selectors (parse_selector s v) vs (Distinct-parse_selector s v d)

-- The parsed lists are sorted and without repetition, and hold exactly what some value selects.
pub parse_selectors_lem :
    (vs : List Text) (q : Text)
    → (contains (parse_selectors vs).domains q ≡ any (λ v. is_domain q (classify v)) vs)
      × (contains (parse_selectors vs).labels q ≡ any (λ v. is_label q (classify v)) vs)
      × IsDistinctSet (parse_selectors vs)
      × IsSorted text_leb (parse_selectors vs).domains
      × IsSorted text_leb (parse_selectors vs).labels
unfolding parse_selectors any contains
parse_selectors_lem vs q =
    let s = collect_selectors no_selectors vs in
    let (domains, labels) = contains-collect_selectors no_selectors vs q in
    let (d, l) = Distinct-collect_selectors no_selectors vs (tt, tt) in
    (
      contains-sort_by text_leb q s.domains ∙ domains,
      contains-sort_by text_leb q s.labels ∙ labels,
      (Distinct-sort_by text_leb s.domains d, Distinct-sort_by text_leb s.labels l),
      sort_by-IsSorted text_leb text_leb-IsOrder s.domains,
      sort_by-IsSorted text_leb text_leb-IsOrder s.labels,
    )

-- A domain is matched exactly when it ends in a listed value, at whatever byte that begins.
matches_suffix_iff :
    (domain : Text) (values : List Text)
    → (matches_suffix domain values ≡ true)
      ↔ ((p v : Text) × (contains values v ≡ true) × (domain ≡ p ++ v))
unfolding matches_suffix
matches_suffix_iff domain values = (
  λ h.
      let (v, listed, ends) = any-eq-true (λ each. has_suffix domain each) values h in
      let (p, e) = append_of_has_suffix domain v ends in (p, v, listed, e),
  λ (p, v, listed, e).
      any_of_contains (λ each. has_suffix domain each) values v listed
        (rw e (has_suffix-append p v)),
)

-- Two label lists meet.
pub matches_any_label-eq_any :
    (have wanted : List Text) → matches_any_label have wanted ≡ any (λ l. contains wanted l) have
unfolding matches_any_label any contains
matches_any_label-eq_any [] wanted = refl
matches_any_label-eq_any (h ∷ hs) [] = any_none hs
  where
    any_none : (ls : List Text) → false ≡ any (λ l. contains [] l) ls
    any_none [] = refl
    any_none (l ∷ ls) = any_none ls
matches_any_label-eq_any (h ∷ hs) (w ∷ ws) = refl
