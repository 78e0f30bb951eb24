-- ===== src/Stub/Laws.antt =====
-- Which upstreams are asked for a domain, and what is made of their answer.
use tdns.Base.{
  eqb, nat_eq, Text, text_eq, beq_refl, if_elim, is_empty, any, ◌≡◌, refl, sym, ap, ◌∙◌, subst, ◌≢◌,
  ◌⊎◌, inl, inr, Bool, true, false, not, ◌||◌, none, some, List, [], ◌∷◌, ◌++◌, arith,
}
use tdns.Base.Strings.{txt}
use tdns.Message.{
  Question, Msg, Message, no_context, no_msg, no_answer, Result, ok, err, Run, ran, failed, or_fail,
  set_resolved, set_msg, add_value, get_value,
}
use tdns.Stub.{
  stub_value, stub_pattern, StubResolver, with_stub, on_response, after_resolve, try_stubs,
  stub_question, stub_msg, run_stub,
}
use tdns.Message.Laws.{get_value-add_value}

module _ {Mux S : Type 0} (match_string : Text → Text → Bool)
    (resolve : S → Mux → Msg → S × Result Msg) where
  -- What a middleware may return for `mess` of which `response` is the answer: an error, or the
  -- message resolved by a success with answers, marked as that of a stub.
  abbrev IsStubbed : Message → Result Msg → Run → Type 0
  IsStubbed mess (err e) r = r ≡ failed mess e
  IsStubbed mess (ok d) r =
      (((d.rcode ≢ 0) ⊎ (is_empty d.answer ≡ true)) × (r ≡ failed mess (no_answer d.rcode)))
      ⊎ ((mess.ctx ≡ none) × (r ≡ failed (set_msg mess d) no_context))
      ⊎ ((m' : Message) × (r ≡ ran m')
          × (m'.resolved ≡ true)
          × (m'.msg ≡ some d)
          × (d.rcode ≡ 0)
          × (is_empty d.answer ≡ false)
          × (get_value m' stub_value ≡ some (txt "true")))

  with_stub-IsStubbed :
      (mess : Message) (d : Msg)
      → d.rcode ≡ 0
      → is_empty d.answer ≡ false
      → IsStubbed mess (ok d) (
          with_stub match_string resolve mess d
            (add_value (set_msg mess d) stub_value (txt "true")))
  with_stub-IsStubbed mess d z a =
      elim (get_value-add_value (set_msg mess d) stub_value stub_value (txt "true")) [
        | inl (c, e) ↦ inr (inl (c, ap (with_stub match_string resolve mess d) e))
        | inr (m', e, v, _, same, _) ↦ inr (
            inr (
              set_resolved m' true,
              ap (with_stub match_string resolve mess d) e,
              refl,
              same,
              z,
              a,
              marked m' (v ∙ rw (beq_refl stub_value) refl),
            ))
      ]
    where
      marked :
          (m' : Message)
          → get_value m' stub_value ≡ some (txt "true")
          → get_value (set_resolved m' true) stub_value ≡ some (txt "true")
      marked m' h = unfold get_value in (unfold get_value in h)

  on_response-IsStubbed :
      (mess : Message) (r : Result Msg) → IsStubbed mess r (on_response match_string resolve mess r)
  on_response-IsStubbed mess (err e) = refl
  on_response-IsStubbed mess (ok d) =
      if_elim {A = Run} (IsStubbed mess (ok d)) (not (eqb d.rcode 0) || is_empty d.answer) _ _
        (λ bad. inl (ground arith, refl))
        (λ good. with_stub-IsStubbed mess d (ground arith) (ground arith))

  abbrev matches_stub : Text → Text × Mux → Bool
  matches_stub domain p = match_string (stub_pattern p.0) domain

  -- No stub's pattern matches, and nothing was asked; or the upstreams were asked of the first stub whose
  -- pattern does, in the order of the iteration.
  abbrev pub IsTried : List (Text × Mux) → S → Message → Msg → Text → S × Run → Type 0
  IsTried stubs s mess m domain (s', r) =
      ((any (matches_stub domain) stubs ≡ false) × (s' ≡ s) × (r ≡ ran mess))
      ⊎ ((before : List (Text × Mux)) × (k : Text) × (mux : Mux) × (after : List (Text × Mux))
          × (stubs ≡ before ++ (k, mux) ∷ after)
          × (any (matches_stub domain) before ≡ false)
          × (matches_stub domain (k, mux) ≡ true)
          × (s' ≡ (resolve s mux m).0)
          × IsStubbed mess (resolve s mux m).1 r)

  IsTried-cons :
      (k : Text) (mux : Mux) (stubs : List (Text × Mux)) (s : S) (mess : Message) (m : Msg)
      (domain : Text) (x : S × Run)
      → match_string (stub_pattern k) domain ≡ false
      → IsTried stubs s mess m domain x
      → IsTried ((k, mux) ∷ stubs) s mess m domain x
  unfolding any
  IsTried-cons k mux stubs s mess m domain (s', r) h (inl (others, p, q)) = inl (rw h others, p, q)
  IsTried-cons k mux stubs s mess m domain (s', r) h
        (inr (before, k', mux', after, p, others, q, u, t)) =
      inr ((k, mux) ∷ before, k', mux', after, ap (λ x. (k, mux) ∷ x) p, rw h others, q, u, t)

  try_stubs-IsTried :
      (stubs : List (Text × Mux)) (s : S) (mess : Message) (m : Msg) (domain : Text)
      → IsTried stubs s mess m domain (try_stubs match_string resolve stubs s mess m domain)
  unfolding try_stubs any
  try_stubs-IsTried [] s mess m domain = inl (refl, refl, refl)
  try_stubs-IsTried ((k, mux) ∷ stubs) s mess m domain =
      if_elim {A = S × Run} (IsTried ((k, mux) ∷ stubs) s mess m domain)
        (match_string (stub_pattern k) domain)
        (after_resolve match_string resolve mess (resolve s mux m))
        (try_stubs match_string resolve stubs s mess m domain)
        (λ h.
          inr (
            [],
            k,
            mux,
            stubs,
            refl,
            refl,
            h,
            refl,
            on_response-IsStubbed mess (resolve s mux m).1,
          ))
        (λ h.
          IsTried-cons k mux stubs s mess m domain _ h (try_stubs-IsTried stubs s mess m domain))

  -- While stubs are enabled, a question whose domain no stub matches leaves everything as it is; for any
  -- other, the upstreams of the first stub that matches are asked, and their answer resolves the message
  -- only if it is a success with answers, and the message has a context.
  pub run_stub_lem :
      (sr : StubResolver match_string resolve) (s : S) (mess : Message) (m : Msg) (q : Question)
      (rest : List Question)
      → mess.msg ≡ some m
      → m.question ≡ q ∷ rest
      → sr.enable_stubs ≡ true
      → IsTried sr.stubs s mess m q.qname (run_stub match_string resolve sr s mess)
  unfolding run_stub
  run_stub_lem sr s mess m q rest e k on =
      subst (IsTried sr.stubs s mess m q.qname)
        (sym (
          ap (λ o. stub_msg match_string resolve sr s mess (or_fail o no_msg)) e
          ∙ ap (stub_question match_string resolve sr s mess m) k
          ∙ rw on refl))
        (try_stubs-IsTried sr.stubs s mess m q.qname)
