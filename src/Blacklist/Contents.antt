-- ===== src/Blacklist/Contents.antt =====
-- Which domains a hole holds.
use tdns.Base.{◌⊎◌}
use tdns.Base.{eqb, if_elim, suc, ◌%◌, subst, ◌&&◌, ◌||◌}
use tdns.Base.Strings.{trim_space, fields}
use tdns.Blacklist.Hole.{finish_hole, empty_build}
use tdns.Base.{◌<◌, not, Option, some}
use tdns.Blacklist.Hole.{
  HostsFile, after_round, and_then, add_split, add_line, add_lines, add_extra, build_hole,
}
use tdns.Base.{ltb, ℕ, ◌+◌, ◌≤◌, Bool, none, [], ◌∷◌}
use tdns.Base.Strings.{txt, has_prefix}
use tdns.Selectors.{normalize_domain_pattern}
use tdns.Blacklist.Hole.{
  Limits, Build, Built, built, refused, Round, go, stop, fail, add_domain, check_domain, add_field,
  add_fields,
}
use tdns.Base.{
  ◌==◌, nat_eq, Text, text_beq_iff, text_eq, Bool-cases, is_empty, ◌≡◌, inl, inr, true, false, List,
  arith,
}
use tdns.Selectors.{matches_suffix}
use tdns.Blacklist.Hole.{Tree, IsTree}

module _ (t : Tree) (laws : IsTree t) where
  -- What every step keeps: no domain of the hole ends in an excluded one, none is empty, and
  -- the count of a strict build is within the limit.
  pub record IsClean (white : List Text) (h : t.Node) : Type 0 where
    pub allowed : (q : Text) → t.member h q ≡ true → matches_suffix q white ≡ false
    pub named : (q : Text) → t.member h q ≡ true → is_empty q ≡ false

  insert-IsClean :
      (white : List Text) (h : t.Node) (d : Text)
      → matches_suffix d white ≡ false
      → is_empty d ≡ false
      → IsClean white h
      → IsClean white (t.insert h d)
  insert-IsClean white h d m n c = record {
    allowed = λ q e. elim (Bool-cases (d == q)) [
      | inl same ↦ rw (← (text_beq_iff d q).0 same) m
      | inr other ↦ c.allowed q (ground (arith, laws.member-insert h d q))
    ];
    named = λ q e. elim (Bool-cases (d == q)) [
      | inl same ↦ rw (← (text_beq_iff d q).0 same) n
      | inr other ↦ c.named q (ground (arith, laws.member-insert h d q))
    ];
  }

  new-IsClean : (white : List Text) → IsClean white t.new
  new-IsClean white = record {
    allowed = λ q e. absurd (ground (arith, laws.member-new q));
    named = λ q e. absurd (ground (arith, laws.member-new q));
  }

  module _ (strict : Bool) (limits : Limits) (white : List Text) where
    pub record IsBuild (s : Build t) : Type 0 where
      pub clean : IsClean white s.hole
      pub bounded : s.entries ≤ limits.max_entries

    abbrev IsRound : Round t → Type 0
    IsRound (go s) = IsBuild s
    IsRound stop = Unit
    IsRound (fail e) = Unit

    abbrev IsBuilt : Built t → Type 0
    IsBuilt (built s) = IsBuild s
    IsBuilt (refused e) = Unit

    add_domain-IsClean :
        (line : ℕ) (s : Build t) (d : Text)
        → is_empty d ≡ false
        → IsClean white s.hole
        → IsClean white (add_domain t strict limits white line s d).hole
    add_domain-IsClean line s d n c = elim (Bool-cases (matches_suffix d white)) [
      | inl e ↦ rw e c
      | inr e ↦ rw e (insert-IsClean white s.hole d e n c)
    ]

    add_domain-entries :
        (line : ℕ) (s : Build t) (d : Text)
        → (add_domain t strict limits white line s d).entries ≡ s.entries
    add_domain-entries line s d = ground arith

    check_domain-IsRound :
        (line : ℕ) (s : Build t) (d : Text)
        → is_empty d ≡ false
        → IsBuild s
        → IsRound (check_domain t strict limits white line s d)
    check_domain-IsRound line s d n h =
        if_elim IsRound (not (t.is_domain_name d)) _ _ (λ _. tt)
          λ _.
            if_elim IsRound (ltb limits.max_entries (s.entries + 1)) _ _ (λ _. tt)
              λ room. record {
                clean = add_domain-IsClean line s d n h.clean;
                bounded = ground arith;
              }

    add_field-IsRound :
        (line : ℕ) (s : Build t) (field : Text)
        → IsBuild s
        → IsRound (add_field t strict limits white line s field)
    unfolding add_field
    add_field-IsRound line s field h =
        let domain = normalize_domain_pattern field in
        if_elim IsRound (has_prefix field (txt "#")) _ _ (λ _. tt)
          λ _.
            if_elim IsRound (is_empty domain) _ _
              (λ _. if_elim IsRound strict _ _ (λ _. tt) (λ _. h))
              λ n.
                if_elim IsRound strict _ _ (λ _. check_domain-IsRound line s domain n h)
                  λ _. record {
                    clean = add_domain-IsClean line s domain n h.clean;
                    bounded = rw (add_domain-entries line s domain) h.bounded;
                  }

    after_round-IsBuilt :
        (s : Build t) (r : Round t) (rest : Build t → Built t)
        → IsBuild s
        → IsRound r
        → ((s' : Build t) → IsBuild s' → IsBuilt (rest s'))
        → IsBuilt (after_round t s r rest)
    after_round-IsBuilt s (go s') rest h k next = next s' k
    after_round-IsBuilt s stop rest h k next = h
    after_round-IsBuilt s (fail e) rest h k next = tt

    and_then-IsBuilt :
        (r : Built t) (rest : Build t → Built t)
        → IsBuilt r
        → ((s' : Build t) → IsBuild s' → IsBuilt (rest s'))
        → IsBuilt (and_then t r rest)
    and_then-IsBuilt (built s) rest k next = next s k
    and_then-IsBuilt (refused e) rest k next = tt

    add_fields-IsBuilt :
        (line : ℕ) (fs : List Text) (s : Build t)
        → IsBuild s
        → IsBuilt (add_fields t strict limits white line fs s)
    unfolding add_fields
    add_fields-IsBuilt line [] s h = h
    add_fields-IsBuilt line (f ∷ fs) s h =
        after_round-IsBuilt s (add_field t strict limits white line s f) _ h
          (add_field-IsRound line s f h) (add_fields-IsBuilt line fs)

    add_split-IsBuilt :
        (line : ℕ) (fs : List Text) (s : Build t)
        → IsBuild s
        → IsBuilt (add_split t strict limits white line fs s)
    add_split-IsBuilt line [] s h = if_elim IsBuilt strict _ _ (λ _. tt) (λ _. h)
    add_split-IsBuilt line (f ∷ []) s h = if_elim IsBuilt strict _ _ (λ _. tt) (λ _. h)
    add_split-IsBuilt line (f ∷ g ∷ fs) s h =
        if_elim IsBuilt strict _ _
          (λ _.
            if_elim IsBuilt (t.is_address f) _ _ (λ _. add_fields-IsBuilt line (g ∷ fs) s h)
              (λ _. tt))
          (λ _. add_fields-IsBuilt line (g ∷ []) s h)

    add_line-IsBuilt :
        (line : ℕ) (text : Text) (s : Build t)
        → IsBuild s
        → IsBuilt (add_line t strict limits white line text s)
    unfolding add_line
    add_line-IsBuilt line text s h =
        if_elim IsBuilt (is_empty (trim_space text) || has_prefix (trim_space text) (txt "#")) _ _
          (λ _. h) (λ _. add_split-IsBuilt line (fields (trim_space text)) s h)

    module _ (is_cancelled : ℕ → Bool) where
      add_lines-IsBuilt :
          (line : ℕ) (texts : List Text) (s : Build t)
          → IsBuild s
          → IsBuilt (add_lines t strict limits white is_cancelled line texts s)
      unfolding add_lines
      add_lines-IsBuilt line [] s h = h
      add_lines-IsBuilt line (text ∷ rest) s h =
          if_elim IsBuilt (eqb (suc line % 1024) 0 && is_cancelled (suc line)) _ _ (λ _. tt)
            λ _.
              and_then-IsBuilt (add_line t strict limits white (suc line) text s) _
                (add_line-IsBuilt (suc line) text s h) (add_lines-IsBuilt (suc line) rest)

  add_extra-IsClean :
      (white extra : List Text) (hole : t.Node)
      → IsClean white hole
      → IsClean white (add_extra t white extra hole)
  unfolding add_extra
  add_extra-IsClean white [] hole c = c
  add_extra-IsClean white (each ∷ rest) hole c = add_extra-IsClean white rest _ (
      if_elim (IsClean white) (is_empty each || matches_suffix each white) _ _ (λ _. c)
        (λ e. insert-IsClean white hole each (ground arith) (ground arith) c))

  finish_hole-IsClean :
      (strict scan_error : Bool) (limits : Limits) (white extra : List Text) (r : Built t)
      (s : Build t)
      → IsBuilt strict limits white r
      → finish_hole t strict scan_error white extra r ≡ built s
      → IsClean white s.hole
        × (s.entries ≤ limits.max_entries)
        × ((strict ≡ false) ⊎ (0 < s.entries))
  finish_hole-IsClean strict scan_error limits white extra (refused e) s k h = cc
  finish_hole-IsClean strict scan_error limits white extra (built s') s k h =
      elim (Bool-cases scan_error) [
        | inl e ↦ absurd (ground arith)
        | inr e ↦ elim (Bool-cases (strict && eqb s'.entries 0)) [
          | inl e' ↦ absurd (ground arith)
          | inr e' ↦
              let same : record s' { hole = add_extra t white extra s'.hole } ≡ s = ground arith in
              (
                subst (λ x. IsClean white x.hole) same
                    (add_extra-IsClean white extra s'.hole k.clean),
                subst (λ x. x.entries ≤ limits.max_entries) same k.bounded,
                subst (λ x. (strict ≡ false) ⊎ (0 < x.entries)) same (ground arith),
              )
        ]
      ]

  -- A hole that was built blocks no domain that ends in an excluded one, and not the empty
  -- domain; its count is within the limit, and a strict build has counted a domain at least.
  pub build_hole-IsClean :
      (strict : Bool) (limits : Limits) (white extra : List Text) (file : Option HostsFile)
      (s : Build t)
      → build_hole t strict limits white extra file ≡ built s
      → IsClean white s.hole
        × (s.entries ≤ limits.max_entries)
        × ((strict ≡ false) ⊎ (0 < s.entries))
  unfolding build_hole
  build_hole-IsClean strict limits white extra none s h = cc
  build_hole-IsClean strict limits white extra (some file) s h =
      finish_hole-IsClean strict file.scan_error limits white extra _ s
        (add_lines-IsBuilt strict limits white file.is_cancelled 0 file.lines (empty_build t)
          (record { clean = new-IsClean white; bounded = omega arith }))
        h
