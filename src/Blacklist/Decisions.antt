-- ===== src/Blacklist/Decisions.antt =====
-- What `Run` answers, and what the operations on the lists promise.
use tdns.Base.{
  if◌then◌else◌, nat_eq, Text, text_eq, any, contains, ◌≡◌, refl, sym, ap, ◌∙◌, subst, inl, inr,
  Bool, true, false, not, ◌&&◌, ◌||◌, Option, none, some, List, [], ◌∷◌, ◌++◌, arith,
}
use tdns.Base.Strings.{txt, has_suffix}
use tdns.Message.{
  Question, Rr, Msg, Message, no_msg, Result, ok, err, Run, ran, failed, or_fail, add_value, labels,
}
use tdns.Message.Laws.{get_value-add_value}
use tdns.Selectors.{
  SelectorSet, normalize_domain_pattern, matches_suffix, parse_selectors, normalize_selector_values,
}
use tdns.Selectors.Laws.{matches_any_label-eq_any}
use tdns.Blacklist.Hole.{Tree, IsTree, Limits, HostsFile, Built, built, refused, build_hole}
use tdns.Blacklist.Contents.{IsClean, build_hole-IsClean}
use tdns.Blacklist.{
  NewRr, BlackList, rules_or_list, bypasses, in_hole, mark_blocked, answer_with, run_question,
  run_msg, run, after_build, reload_hole, with_excludes, replace_persisted_excludes,
}

-- A rule selects the domain, which ends in one of its domains, or a label of the client.
abbrev selects : SelectorSet → Message → Text → Bool
selects rules mess domain =
    any (λ d. has_suffix domain d) rules.domains
    || any (λ label. contains rules.labels label) (labels mess)

-- The blacklist is enabled, the domain of the question is in the hole, and neither the runtime rules
-- nor the configured ones exempt it.
unfoldable pub is_blocked : (t : Tree) → BlackList t → Message → Question → Bool
is_blocked t b mess q =
    let domain = normalize_domain_pattern q.qname in
    b.enabled
    && (in_hole t b.hole domain
        && not (selects (rules_or_list t b.runtime_rules b.runtime_list) mess domain)
        && not (selects (rules_or_list t b.white_rules b.white_list) mess domain))

bypasses-eq_selects :
    (t : Tree) (rules : SelectorSet) (mess : Message) (domain : Text)
    → bypasses t rules mess domain ≡ selects rules mess domain
unfolding matches_suffix
bypasses-eq_selects t rules mess domain =
    ap (λ b. matches_suffix domain rules.domains || b)
      (matches_any_label-eq_any (labels mess) rules.labels)

module _ (t : Tree) (b : BlackList t) (new_rr : NewRr) (mess : Message) (m : Msg) (q : Question)
    (rest : List Question) where
  run-run_question :
      mess.msg ≡ some m
      → m.question ≡ q ∷ rest
      → run t b new_rr mess
        ≡ (if not b.enabled then ran mess else run_question t b new_rr mess m (q ∷ rest))
  unfolding run
  run-run_question e k =
      ap (λ r. if not b.enabled then ran mess else r)
        (ap (λ o. run_msg t b new_rr mess (or_fail o no_msg)) e
          ∙ ap (λ qs. run_question t b new_rr mess m qs) k)

  marked_lem :
      (key value : Text)
      → (labels (mark_blocked t mess (add_value mess key value)) ≡ labels mess)
        × ((mark_blocked t mess (add_value mess key value)).resolved ≡ mess.resolved)
  marked_lem key value = elim (get_value-add_value mess key [] value) [
    | inl (_, e) ↦ rw e (refl, refl)
    | inr (m', e, _, l, _, r) ↦ rw e (l, r)
  ]

  -- What `Run` returns for a blocked question, by what `dns.NewRR` returns.
  abbrev pub IsAnswered : Result Rr → Run → Type 0
  IsAnswered (err e) r = (m' : Message) × (r ≡ failed m' e) × (m'.resolved ≡ mess.resolved)
  IsAnswered (ok rr) r =
      (m' : Message) × (r ≡ ran m')
      × (m'.resolved ≡ true)
      × (labels m' ≡ labels mess)
      × (m'.msg ≡ some (record m { answer = m.answer ++ some rr ∷ [] }))

  answer_with-IsAnswered :
      (marked : Message) (r : Result Rr)
      → labels marked ≡ labels mess
      → marked.resolved ≡ mess.resolved
      → IsAnswered r (answer_with t marked m r)
  answer_with-IsAnswered marked (err e) l h = (marked, refl, h)
  answer_with-IsAnswered marked (ok rr) l h = (_, refl, refl, l, refl)

  -- What `Run` makes of the question.
  abbrev pub IsDecided : Run → Type 0
  IsDecided r =
      if is_blocked t b mess q
      then IsAnswered (new_rr (normalize_domain_pattern q.qname) (txt "0.0.0.0")) r
      else (r ≡ ran mess)

  -- The tests of `Run` in their order.
  decide-IsDecided :
      (rr : Result Rr) (on by_runtime by_rules held : Bool) (a : Run)
      → IsAnswered rr a
      → if on && (held && not by_runtime && not by_rules)
        then IsAnswered rr (
            if not on
            then ran mess
            else if by_runtime
            then ran mess
            else if by_rules
            then ran mess
            else if held
            then a
            else ran mess)
        else ((if not on
              then ran mess
              else if by_runtime
              then ran mess
              else if by_rules
              then ran mess
              else if held
              then a
              else ran mess)
            ≡ ran mess)
  decide-IsDecided rr false x y z a k = refl
  decide-IsDecided rr true true y false a k = refl
  decide-IsDecided rr true true y true a k = refl
  decide-IsDecided rr true false true false a k = refl
  decide-IsDecided rr true false true true a k = refl
  decide-IsDecided rr true false false false a k = refl
  decide-IsDecided rr true false false true a k = k

  -- A domain that is in the hole, and that no rule exempts, neither of the runtime list nor of the
  -- configured one, by the domain itself or by a label of the client, is answered while the blacklist is
  -- enabled: the message is resolved with the record 0.0.0.0 behind its answers, its labels and the
  -- rest of its DNS message unchanged, or it fails if the record cannot be made. Any other question leaves the
  -- message as it is.
  pub run_lem : mess.msg ≡ some m → m.question ≡ q ∷ rest → IsDecided (run t b new_rr mess)
  unfolding is_blocked
  run_lem e k =
      let domain = normalize_domain_pattern q.qname in
      let marked = mark_blocked t mess (add_value mess (txt "blocked") (txt "1")) in
      let rr = new_rr domain (txt "0.0.0.0") in
      let (l, r) = marked_lem (txt "blocked") (txt "1") in
      rw
        (
          run-run_question e k,
          bypasses-eq_selects t (rules_or_list t b.runtime_rules b.runtime_list) mess domain,
          bypasses-eq_selects t (rules_or_list t b.white_rules b.white_list) mess domain,
        )
        (decide-IsDecided rr b.enabled
          (selects (rules_or_list t b.runtime_rules b.runtime_list) mess domain)
          (selects (rules_or_list t b.white_rules b.white_list) mess domain)
          (in_hole t b.hole domain) (answer_with t marked m rr)
          (answer_with-IsAnswered marked rr l r))

  pub run_blocked :
      mess.msg ≡ some m
      → m.question ≡ q ∷ rest
      → is_blocked t b mess q ≡ true
      → IsAnswered (new_rr (normalize_domain_pattern q.qname) (txt "0.0.0.0")) (run t b new_rr mess)
  run_blocked e k h =
      let rr = new_rr (normalize_domain_pattern q.qname) (txt "0.0.0.0") in
      subst
        (λ x. if x then IsAnswered rr (run t b new_rr mess) else (run t b new_rr mess ≡ ran mess)) h
        (run_lem e k)

module _ (t : Tree) (laws : IsTree t) where
  after_build-IsClean :
      (strict : Bool) (limits : Limits) (white extra : List Text) (file : Option HostsFile)
      (b b' : BlackList t) (h : t.Node) (r : Built t)
      → r ≡ build_hole t strict limits white extra file
      → after_build t b r ≡ (b', none)
      → b'.hole ≡ some h
      → IsClean t laws white h × (b' ≡ record b { hole = some h; hole_loaded = true })
  after_build-IsClean strict limits white extra file b b' h (refused e) k p q = cc
  after_build-IsClean strict limits white extra file b b' h (built s) k p q =
      let same : s.hole ≡ h = ground arith in
      (
        subst (IsClean t laws white) same
            (build_hole-IsClean t laws strict limits white extra file s (sym k)).0,
        ground arith,
      )

  -- When new exclusions were stored and the hole was built again, the hole holds no domain that
  -- ends in an excluded domain, configured or new; the rules are those of both lists, and the
  -- runtime list and the switch are as they were.
  pub replace_persisted_excludes-IsClean :
      (limits : Limits) (file : Option HostsFile) (values : List Text) (b b' : BlackList t)
      (h : t.Node)
      → replace_persisted_excludes t limits file values b ≡ (b', none)
      → b'.hole ≡ some h
      → IsClean t laws
          (parse_selectors (b.white_list ++ normalize_selector_values values)).domains
          h
        × (b'.white_rules ≡ parse_selectors (b.white_list ++ normalize_selector_values values))
        × (b'.runtime_list ≡ b.runtime_list)
        × (b'.enabled ≡ b.enabled)
  unfolding replace_persisted_excludes reload_hole
  replace_persisted_excludes-IsClean limits file values b b' h p q =
      let white = parse_selectors (b.white_list ++ normalize_selector_values values) in
      let (clean, same) =
        after_build-IsClean false limits white.domains b.extra_hosts file
          (with_excludes t b (normalize_selector_values values)) b' h _ refl p q in
      (clean, ap (λ x. x.white_rules) same, ap (λ x. x.runtime_list) same, ap (λ x. x.enabled) same)
