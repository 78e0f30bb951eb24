-- ===== src/Selectors/Roundtrip.antt =====
-- Selectors are stored in a normal form and parsed again: when that changes nothing.
use mathlib.Core.List.{append-nil, append_assoc}
use tdns.Base.{
  nat_eq, Text, text_beq_iff, text_eq, Bool-cases, is_empty, All, contains, Distinct, any-eq-true,
  All-of_contains, not_contains_of_Distinct, ◌≡◌, refl, sym, ap, ◌∙◌, inl, inr, true, false, Option,
  none, some, List, [], ◌∷◌, ◌++◌, map, arith,
}
use tdns.Base.Strings.{
  trim_space, cut_prefix, cut_prefix-append, trim_space_idem, trim_space-cons, trim_right-cons,
  trim_right_of_trim_space,
}
use tdns.Base.Sorting.{text_leb, sort_by_of_IsSorted}
use tdns.Selectors.{
  SelectorSet, normalize_domain_pattern, label_prefix, add_new, add_selector, parse_selector,
  collect_selectors, no_selectors, sort_selectors, parse_selectors, print_selectors,
  normalize_selector_values,
}
use tdns.Selectors.Laws.{
  by_domain, selector_of, classify, is_label, IsDistinctSet, parse_selectors_lem,
}
use tdns.Selectors.Plain.{is_plain, classify_plain}

-- A label that a value selects is trimmed and not empty.
abbrev IsTrimmed : Text → Type 0
IsTrimmed l = (trim_space l ≡ l) × (is_empty l ≡ false)

selector_of-label :
    (v l : Text) (o : Option Text) → is_label l (selector_of v o) ≡ true → IsTrimmed l
selector_of-label v l (some r) h = elim (Bool-cases (is_empty (trim_space r))) [
  | inl e ↦ absurd (ground arith)
  | inr e ↦
      let q : trim_space r ≡ l = (text_beq_iff _ _).0 (ground arith) in
      rw (← q) (trim_space_idem r, e)
]
selector_of-label v l none h = ground arith

classify-label : (v l : Text) → is_label l (classify v) ≡ true → IsTrimmed l
unfolding classify
classify-label v l h =
    ground (arith, selector_of-label (trim_space v) l (cut_prefix (trim_space v) label_prefix))

labels-IsTrimmed :
    (vs : List Text) (l : Text) → contains (parse_selectors vs).labels l ≡ true → IsTrimmed l
labels-IsTrimmed vs l h =
    let (v, _, selects) =
      any-eq-true (λ v. is_label l (classify v)) vs (sym ((parse_selectors_lem vs l).1) ∙ h) in
    classify-label v l selects

trim_space-label_prefix :
    (l : Text) → trim_space l ≡ l → trim_space (label_prefix ++ l) ≡ label_prefix ++ l
trim_space-label_prefix l h =
    let step = trim_right-cons in
    trim_space-cons _ _ refl (
      step _ _ refl (
        step _ _ refl
          (step _ _ refl (step _ _ refl (step _ _ refl (trim_right_of_trim_space l h))))))

parse_selector-label :
    (s : SelectorSet) (l : Text)
    → IsTrimmed l
    → parse_selector s (label_prefix ++ l) ≡ record s { labels = add_new s.labels l }
unfolding parse_selector
parse_selector-label s l h =
    rw (trim_space-label_prefix l h.0, cut_prefix-append label_prefix l, h.0) refl

-- Values that are new, one by one.
abbrev Fresh : List Text → List Text → Type 0
Fresh have [] = Unit
Fresh have (v ∷ vs) = (contains have v ≡ false) × (is_empty v ≡ false) × Fresh (have ++ v ∷ []) vs

add_new_fresh :
    (have : List Text) (v : Text)
    → contains have v ≡ false
    → is_empty v ≡ false
    → add_new have v ≡ have ++ v ∷ []
add_new_fresh have v h k = ground arith

add_selector-domain :
    (s : SelectorSet) (v d : Text) (o : Option Text)
    → selector_of v o ≡ by_domain d
    → (add_selector s v o ≡ record s { domains = add_new s.domains d }) × (is_empty d ≡ false)
add_selector-domain s v d (some l) h = elim (Bool-cases (is_empty (trim_space l))) [
  | inl e ↦ absurd (ground arith)
  | inr e ↦ absurd (ground arith)
]
add_selector-domain s v d none h = elim (Bool-cases (is_empty (normalize_domain_pattern v))) [
  | inl e ↦ absurd (ground arith)
  | inr e ↦ let q : normalize_domain_pattern v ≡ d = ground arith in (rw q, rw (← q) e)
]

parse_selector-domain :
    (s : SelectorSet) (d : Text)
    → classify d ≡ by_domain d
    → (parse_selector s d ≡ record s { domains = add_new s.domains d }) × (is_empty d ≡ false)
unfolding parse_selector classify
parse_selector-domain s d h = elim (Bool-cases (is_empty (trim_space d))) [
  | inl e ↦ absurd (ground arith)
  | inr e ↦
      rw (e, parse_selector)
        (add_selector-domain s (trim_space d) d (cut_prefix (trim_space d) label_prefix)
          (ground arith))
]

Fresh-of_Distinct :
    (have vs : List Text) → Distinct (have ++ vs) → All (λ v. is_empty v ≡ false) vs → Fresh have vs
Fresh-of_Distinct have [] d n = tt
Fresh-of_Distinct have (v ∷ vs) d n = (
  not_contains_of_Distinct have vs v d,
  n.0,
  Fresh-of_Distinct (have ++ v ∷ []) vs (rw append_assoc d) n.1,
)

collect-domains :
    (s : SelectorSet) (ds rest : List Text)
    → Fresh s.domains ds
    → All (λ d. classify d ≡ by_domain d) ds
    → collect_selectors s (ds ++ rest)
      ≡ collect_selectors (record s { domains = s.domains ++ ds }) rest
unfolding collect_selectors
collect-domains s [] rest f c = rw append-nil
collect-domains s (d ∷ ds) rest f c =
    ap (λ z. collect_selectors z (ds ++ rest))
      ((parse_selector-domain s d c.0).0
        ∙ ap (λ have. record s { domains = have }) (add_new_fresh s.domains d f.0 f.1))
    ∙ collect-domains (record s { domains = s.domains ++ d ∷ [] }) ds rest f.2 c.1
    ∙ ap (λ have. collect_selectors (record s { domains = have }) rest)
        (append_assoc s.domains (d ∷ []) ds)

collect-labels :
    (s : SelectorSet) (ls : List Text)
    → Fresh s.labels ls
    → All IsTrimmed ls
    → collect_selectors s (map (λ l. label_prefix ++ l) ls) ≡ record s { labels = s.labels ++ ls }
unfolding collect_selectors
collect-labels s [] f t = rw append-nil
collect-labels s (l ∷ ls) f t =
    ap (λ z. collect_selectors z (map (λ l. label_prefix ++ l) ls))
      (parse_selector-label s l t.0
        ∙ ap (λ have. record s { labels = have }) (add_new_fresh s.labels l f.0 f.1))
    ∙ collect-labels (record s { labels = s.labels ++ l ∷ [] }) ls f.2 t.1
    ∙ ap (λ have. record s { labels = have }) (append_assoc s.labels (l ∷ []) ls)

collect-print :
    (s : SelectorSet)
    → IsDistinctSet s
    → All (λ d. classify d ≡ by_domain d) s.domains
    → All IsTrimmed s.labels
    → collect_selectors no_selectors (print_selectors s) ≡ s
collect-print s d c t =
    collect-domains no_selectors s.domains (map (λ l. label_prefix ++ l) s.labels)
      (Fresh-of_Distinct [] s.domains d.0 (nonempty s.domains c)) c
    ∙ collect-labels (record { domains = s.domains; labels = [] }) s.labels
        (Fresh-of_Distinct [] s.labels d.1 (trimmed s.labels t)) t
  where
    nonempty :
        (ds : List Text) → All (λ d. classify d ≡ by_domain d) ds → All (λ d. is_empty d ≡ false) ds
    nonempty [] _ = tt
    nonempty (d' ∷ ds) k = ((parse_selector-domain no_selectors d' k.0).1, nonempty ds k.1)

    trimmed : (ls : List Text) → All IsTrimmed ls → All (λ l. is_empty l ≡ false) ls
    trimmed [] _ = tt
    trimmed (l ∷ ls) k = (k.0.1, trimmed ls k.1)

domains_classified :
    (vs ds : List Text)
    → All (λ d. is_plain d ≡ true) ds
    → All (λ d. contains (parse_selectors vs).domains d ≡ true) ds
    → All (λ d. classify d ≡ by_domain d) ds
domains_classified vs [] p c = tt
domains_classified vs (d ∷ ds) p c = (classify_plain vs d c.0 p.0, domains_classified vs ds p.1 c.1)

-- Parsing the normal form of selectors gives the same selectors as parsing the values, if none of the
-- parsed domains ends in a dot or a space or begins with "label:".
pub parse_selectors-normalize_selector_values :
    (vs : List Text)
    → All (λ d. is_plain d ≡ true) (parse_selectors vs).domains
    → parse_selectors (normalize_selector_values vs) ≡ parse_selectors vs
unfolding normalize_selector_values
parse_selectors-normalize_selector_values vs plain =
    let s = parse_selectors vs in
    let (_, _, distinct, sorted_domains, sorted_labels) = parse_selectors_lem vs [] in
    let c = domains_classified vs s.domains plain (All-of_contains s.domains (λ d h. h)) in
    let again = collect-print s distinct c (All-of_contains s.labels (labels-IsTrimmed vs)) in
    unfold parse_selectors in
    (ap sort_selectors again ∙ λ i. record {
      domains = sort_by_of_IsSorted text_leb s.domains sorted_domains i;
      labels = sort_by_of_IsSorted text_leb s.labels sorted_labels i;
    })
