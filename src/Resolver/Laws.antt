-- ===== src/Resolver/Laws.antt =====
-- Which upstream answers.
use tdns.Base.{
  nat_eq, text_eq, if_elim, is_empty, ◌≡◌, refl, ap, ◌∙◌, ◌⊎◌, inl, inr, true, false, ◌&&◌, Option,
  none, some, List, [], ◌∷◌, ◌++◌, arith,
}
use tdns.Message.{Msg, Error, mux_timeout, no_response}
use tdns.Resolver.{
  Network, rcode_server_failure, Answer, returned, panicked, is_skipped, is_error, after_exchange,
  resolve_context,
}

module _ (n : Network) (m : Msg) where
  -- From the world `w`, the upstreams were asked in turn and each failed as a server, which leads
  -- to the other world.
  pub data IsSkipped : n.World → List n.Upstream → n.World → Type 0 where
    start : {w : n.World} → IsSkipped w [] w
    next :
        {w w' w'' : n.World} {u : n.Upstream} {us : List n.Upstream} (r : Msg) (e : Option Error)
        → n.exchange w u m ≡ (w', (some r, e))
        → r.rcode ≡ rcode_server_failure
        → IsSkipped w' us w''
        → IsSkipped w (u ∷ us) w''

  -- An upstream behind those that were skipped gives the answer, which is no server failure.
  abbrev IsFound : List n.Upstream → n.World → n.World → Option Msg → Option Error → Type 0
  IsFound us w w₁ r e =
      (fs : List n.Upstream) × (u : n.Upstream) × (rest : List n.Upstream) × (w₀ : n.World) × (us
        ≡ fs ++ u ∷ rest)
      × IsSkipped w fs w₀
      × (n.exchange w₀ u m ≡ (w₁, (r, e)))
      × (is_skipped n r ≡ false)

  abbrev pub IsOutcome : List n.Upstream → n.World → n.World × Answer n → Type 0
  IsOutcome us w (w₁, panicked) = ⊥
  IsOutcome us w (w₁, returned r e) =
      ((r ≡ none) × (e ≡ some mux_timeout) × (n.is_expired w₁ ≡ true))
      ⊎ ((r ≡ none) × (e ≡ some no_response) × IsSkipped w us w₁)
      ⊎ IsFound us w w₁ r e

  skipped_lem :
      (o : Option Msg)
      → is_skipped n o ≡ true
      → (r : Msg) × (o ≡ some r) × (r.rcode ≡ rcode_server_failure)
  skipped_lem none h = cc
  skipped_lem (some r) h = (r, refl, ground arith)

  IsOutcome-cons :
      (us : List n.Upstream) (u : n.Upstream) (w w' : n.World) (r : Msg) (e : Option Error)
      (x : n.World × Answer n)
      → n.exchange w u m ≡ (w', (some r, e))
      → r.rcode ≡ rcode_server_failure
      → IsOutcome us w' x
      → IsOutcome (u ∷ us) w x
  IsOutcome-cons us u w w' r e (w₁, panicked) h k o = absurd o
  IsOutcome-cons us u w w' r e (w₁, returned d f) h k (inl o) = inl o
  IsOutcome-cons us u w w' r e (w₁, returned d f) h k (inr (inl (p, q, s))) =
      inr (inl (p, q, IsSkipped.next r e h k s))
  IsOutcome-cons us u w w' r e (w₁, returned d f) h k (inr (inr (fs, v, rest, w₀, same, s, x, y))) =
      inr (inr (u ∷ fs, v, rest, w₀, ap (◌∷◌ u) same, IsSkipped.next r e h k s, x, y))

  after_exchange-IsOutcome :
      (u : n.Upstream) (us : List n.Upstream) (w : n.World)
      (x : n.World × (Option Msg × Option Error)) (rest : n.World → n.World × Answer n)
      → n.exchange w u m ≡ x
      → ((w' : n.World) → IsOutcome us w' (rest w'))
      → IsOutcome (u ∷ us) w (after_exchange n x rest)
  after_exchange-IsOutcome u us w (w', (r, e)) rest h later =
      if_elim {A = n.World × Answer n} (IsOutcome (u ∷ us) w) (is_error n e && n.is_expired w') _ _
        (λ late. inl (refl, refl, ground arith))
        λ _.
          if_elim {A = n.World × Answer n} (IsOutcome (u ∷ us) w) (is_skipped n r) (rest w')
            (w', returned r e)
            (λ skipped.
              let (d, is, code) = skipped_lem r skipped in
              IsOutcome-cons us u w w' d e (rest w') (h ∙ ap (λ o. (w', (o, e))) is) code
                (later w'))
            (λ kept. inr (inr ([], u, us, w, refl, IsSkipped.start, h, kept)))

  -- For a message with a question, the upstreams are asked in turn until one does not fail as a
  -- server, and what that one returns is the answer; otherwise all have failed, or the deadline
  -- has passed.
  pub resolve_context_lem :
      (us : List n.Upstream) (w : n.World)
      → is_empty m.question ≡ false
      → IsOutcome us w (resolve_context n us w m)
  unfolding resolve_context
  resolve_context_lem [] w q = inr (inl (refl, refl, IsSkipped.start))
  resolve_context_lem (u ∷ us) w q =
      if_elim {A = n.World × Answer n} (IsOutcome (u ∷ us) w) (n.is_expired w) _ _
        (λ late. inl (refl, refl, late))
        λ _. rw q (
          after_exchange-IsOutcome u us w (n.exchange w u m) _ refl
            (λ w'. resolve_context_lem us w' q))
