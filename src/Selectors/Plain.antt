-- ===== src/Selectors/Plain.antt =====
-- Domains that are read again as they were written.
use tdns.Base.{
  eqb, if◌then◌else◌, nat_eq, Text, text_beq_iff, text_eq, Bool-cases, is_empty, contains,
  any-eq-true, ◌≡◌, refl, sym, ap, ◌∙◌, subst, inl, inr, Bool, true, false, not, ◌&&◌, Option, none,
  some, List, [], ◌∷◌, arith,
}
use tdns.Base.Strings.{
  to_lower, is_space, trim_left, trim_right, trim_space, has_prefix, cut_prefix, trim_dot,
  to_lower_idem,
}
use tdns.Selectors.{normalize_domain_pattern, label_prefix, parse_selectors}
use tdns.Selectors.Laws.{by_domain, selector_of, classify, is_domain, parse_selectors_lem}

-- The last byte is neither a space nor a dot.
unfoldable pub ends_plainly : Text → Bool
ends_plainly [] = true
ends_plainly (c ∷ s) =
    let rest = ends_plainly s in if is_empty s then not (is_space c) && not (eqb c b'.') else rest

-- A domain that ends in no dot or space and does not begin like a label.
abbrev pub is_plain : Text → Bool
is_plain d = ends_plainly d && not (has_prefix d label_prefix)

to_lower-trim_left : (s : Text) → to_lower s ≡ s → to_lower (trim_left s) ≡ trim_left s
unfolding to_lower trim_left
to_lower-trim_left [] h = refl
to_lower-trim_left (c ∷ s) h = ground (arith, to_lower-trim_left s)

to_lower-trim_right : (s : Text) → to_lower s ≡ s → to_lower (trim_right s) ≡ trim_right s
unfolding to_lower trim_right
to_lower-trim_right [] h = refl
to_lower-trim_right (c ∷ s) h = ground (arith, to_lower-trim_right s)

to_lower-trim_dot : (s : Text) → to_lower s ≡ s → to_lower (trim_dot s) ≡ trim_dot s
unfolding to_lower trim_dot
to_lower-trim_dot [] h = refl
to_lower-trim_dot (c ∷ s) h = ground (arith, to_lower-trim_dot s)

trim_left-trim_dot :
    (s : Text)
    → trim_left (trim_dot (trim_right (trim_left s))) ≡ trim_dot (trim_right (trim_left s))
unfolding trim_left trim_right trim_dot
trim_left-trim_dot [] = refl
trim_left-trim_dot (c ∷ s) = ground (arith, trim_left-trim_dot s)

trim_right_plain : (s : Text) → ends_plainly s ≡ true → trim_right s ≡ s
unfolding trim_right ends_plainly
trim_right_plain [] h = refl
trim_right_plain (c ∷ []) h = ground arith
trim_right_plain (c ∷ d ∷ s) h = ground (arith, trim_right_plain (d ∷ s))

trim_dot_plain : (s : Text) → ends_plainly s ≡ true → trim_dot s ≡ s
unfolding trim_dot ends_plainly
trim_dot_plain [] h = refl
trim_dot_plain (c ∷ []) h = ground arith
trim_dot_plain (c ∷ d ∷ s) h = ground (arith, trim_dot_plain (d ∷ s))

cut_prefix-eq-none : (s p : Text) → has_prefix s p ≡ false → cut_prefix s p ≡ none
unfolding cut_prefix has_prefix
cut_prefix-eq-none s [] h = ground arith
cut_prefix-eq-none [] (p ∷ ps) h = refl
cut_prefix-eq-none (c ∷ s) (p ∷ ps) h = ground (arith, cut_prefix-eq-none s ps)

to_lower-normalize : (v : Text) → to_lower (normalize_domain_pattern v) ≡ normalize_domain_pattern v
unfolding normalize_domain_pattern
to_lower-normalize v = to_lower-trim_dot (trim_space (to_lower v)) (
    to_lower-trim_right (trim_left (to_lower v))
      (to_lower-trim_left (to_lower v) (to_lower_idem v)))

-- A plain domain that comes from a value is selected by itself.
classify_normal :
    (v : Text)
    → is_plain (normalize_domain_pattern v) ≡ true
    → is_empty (normalize_domain_pattern v) ≡ false
    → classify (normalize_domain_pattern v) ≡ by_domain (normalize_domain_pattern v)
unfolding classify
classify_normal v plain n =
    let d = normalize_domain_pattern v in
    let ends : ends_plainly d ≡ true = ground arith in
    let front : trim_left d ≡ d =
      unfold normalize_domain_pattern in trim_left-trim_dot (to_lower v) in
    let trimmed : trim_space d ≡ d = rw front (trim_right_plain d ends) in
    let again : normalize_domain_pattern d ≡ d =
      unfold normalize_domain_pattern in
      (ap (λ x. trim_dot (trim_space x)) (to_lower-normalize v)
        ∙ ap trim_dot trimmed
        ∙ trim_dot_plain d ends) in
    rw (trimmed, n, cut_prefix-eq-none d label_prefix (ground arith), again, n) refl

selector_of-domain :
    (v d : Text) (o : Option Text)
    → is_domain d (selector_of v o) ≡ true
    → (normalize_domain_pattern v ≡ d) × (is_empty d ≡ false)
selector_of-domain v d (some l) h = ground arith
selector_of-domain v d none h = elim (Bool-cases (is_empty (normalize_domain_pattern v))) [
  | inl e ↦ absurd (ground arith)
  | inr e ↦
      let q : normalize_domain_pattern v ≡ d = (text_beq_iff _ _).0 (ground arith) in
      (q, rw (← q) e)
]

classify-domain :
    (v d : Text)
    → is_domain d (classify v) ≡ true
    → (normalize_domain_pattern (trim_space v) ≡ d) × (is_empty d ≡ false)
unfolding classify
classify-domain v d h =
    ground (arith, selector_of-domain (trim_space v) d (cut_prefix (trim_space v) label_prefix))

-- Each plain domain that the values select is selected by itself.
pub classify_plain :
    (vs : List Text) (d : Text)
    → contains (parse_selectors vs).domains d ≡ true
    → is_plain d ≡ true
    → classify d ≡ by_domain d
classify_plain vs d h plain =
    let (v, _, selects) =
      any-eq-true (λ v. is_domain d (classify v)) vs (sym ((parse_selectors_lem vs d).0) ∙ h) in
    let (q, n) = classify-domain v d selects in
    let x = trim_space v in
    subst (λ d. classify d ≡ by_domain d) q (classify_normal x (rw q plain) (rw q n))
