-- ===== src/Zen/Answers.antt =====
-- The questions that the zen mode answers.
use tdns.Message.Laws.{get_value-add_value}
use tdns.Base.Strings.{txt}
use tdns.Base.{
  none, beq_refl, ◌⊎◌, if◌then◌else◌, nat_eq, Text, text_eq, Bool-cases, ◌≡◌, refl, sym, ap, ◌∙◌,
  subst, inl, inr, Bool, not, ◌&&◌, some, List, ◌∷◌,
}
use tdns.Message.{
  no_context, get_value, labels, failed, Question, Msg, Message, no_msg, Run, ran, or_fail, get_msg,
}
use tdns.Selectors.{matches_client_scope}
use tdns.Blacklist.{NewRr}
use tdns.Static.Laws.{IsServed, try_hosts-IsServed}
use tdns.Zen.{zen_value, ZenMode, mark_zen, is_exempt, zen_question, zen_msg, run_zen}

module _ (match_string : Text → Text → Bool) (new_rr : NewRr) where
  -- What is made of a question, by what the middleware is: off, or not for this client, or exempting
  -- the domain or a label of the client; else by the hosts.
  abbrev pub IsZen : ZenMode → Message → Msg → Text → Run → Type 0
  IsZen z mess m domain r =
      if z.enabled
        && (matches_client_scope mess z.labels && not (is_exempt match_string new_rr z mess domain))
      then IsServed match_string new_rr (mark_zen match_string new_rr) z.hosts mess m domain r
      else (r ≡ ran mess)

  -- What becomes of a resolved message: it is marked as that of the zen mode, or it has no context.
  abbrev pub IsMarked : Message → Run → Type 0
  IsMarked mess r =
      ((mess.ctx ≡ none) × (r ≡ failed mess no_context))
      ⊎ ((m' : Message) × (r ≡ ran m')
          × (get_value m' zen_value ≡ some (txt "true"))
          × (labels m' ≡ labels mess)
          × (m'.msg ≡ mess.msg)
          × (m'.resolved ≡ mess.resolved))

  mark_zen-IsMarked : (mess : Message) → IsMarked mess (mark_zen match_string new_rr mess)
  mark_zen-IsMarked mess = elim (get_value-add_value mess zen_value zen_value (txt "true")) [
    | inl (c, e) ↦ inl (c, rw e refl)
    | inr (m', e, v, l, same, r) ↦ inr (m', rw e refl, v ∙ rw (beq_refl zen_value) refl, l, same, r)
  ]

  run_zen-IsZen :
      (z : ZenMode) (mess : Message) (m : Msg) (q : Question) (rest : List Question)
      → mess.msg ≡ some m
      → m.question ≡ q ∷ rest
      → IsZen z mess m q.qname (run_zen match_string new_rr z mess)
  unfolding run_zen
  run_zen-IsZen z mess m q rest e k = elim (Bool-cases z.enabled) [
    | inl on ↦ elim (Bool-cases (matches_client_scope mess z.labels)) [
      | inl inside ↦ elim (Bool-cases (is_exempt match_string new_rr z mess q.qname)) [
        | inl exempt ↦ rw (on, inside, exempt) (asked ∙ rw exempt refl)
        | inr meant ↦
            rw (on, inside, meant)
              (subst
                (IsServed match_string new_rr (mark_zen match_string new_rr) z.hosts mess m q.qname)
                (sym (asked ∙ rw meant refl))
                (try_hosts-IsServed match_string new_rr (mark_zen match_string new_rr) z.hosts mess
                  m q.qname))
      ]
      | inr elsewhere ↦ rw (on, elsewhere) refl
    ]
    | inr off ↦ rw off refl
  ]
    where
      asked :
          zen_msg match_string new_rr z mess (get_msg mess)
          ≡ zen_question match_string new_rr z mess m (q ∷ rest)
      asked =
          ap (λ o. zen_msg match_string new_rr z mess (or_fail o no_msg)) e
          ∙ ap (zen_question match_string new_rr z mess m) k

  -- What the middleware makes of a question: a message for which the mode is off, whose client is not in
  -- its scope, that an exclusion exempts, or for which no host matches stays as it is; any other is
  -- resolved with the address of the first host that matches, in the order of the iteration, and
  -- handed to `mark_zen`, or fails if the record cannot be made. What `mark_zen` is handed is
  -- returned with the value of the zen mode, and is the same message else; without a context it fails.
  pub run_zen_lem :
      (z : ZenMode) (mess : Message) (m : Msg) (q : Question) (rest : List Question)
      → mess.msg ≡ some m
      → m.question ≡ q ∷ rest
      → IsZen z mess m q.qname (run_zen match_string new_rr z mess)
        × ((answered : Message) → IsMarked answered (mark_zen match_string new_rr answered))
  run_zen_lem z mess m q rest e k = (run_zen-IsZen z mess m q rest e k, mark_zen-IsMarked)
