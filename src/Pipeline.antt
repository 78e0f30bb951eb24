-- ===== src/Pipeline.antt =====
-- How the middlewares meet: what the blacklist answers goes to the cache in the post-routing.
mod Tests
use tdns.Selectors.{normalize_domain_pattern}
use tdns.Base.{
  nat_eq, text_eq, ℕ, ◌≡◌, refl, sym, ap, ◌∙◌, subst, inl, inr, true, false, some, List, [], ◌∷◌,
  ◌++◌, arith,
}
use tdns.Base.Strings.{txt}
use tdns.Message.{Question, Rr, Msg, Message, Result, ok, err, ran}
use tdns.Selectors.Requests.{Net}
use tdns.Cache.{Backend, Cache, run_set}
use tdns.Cache.Laws.{stored}
use tdns.Cache.Hits.{run_set_lem}
use tdns.Blacklist.{NewRr, BlackList, run}
use tdns.Blacklist.Hole.{Tree}
use tdns.Blacklist.Decisions.{is_blocked, IsAnswered, run_blocked}

module _ (n : Net) (k : Backend) (t : Tree) (b : BlackList t) (new_rr : NewRr) where
  answered-run_set :
      (c : Cache n k) (now : ℕ) (mess' : Message) (m d : Msg)
      → m.response ≡ false
      → d.response ≡ m.response
      → mess'.msg ≡ some d
      → (run_set n k c now mess').0 ≡ c
  answered-run_set c now mess' m d fresh same is = elim (run_set_lem n k c now mess') [
    | inl e ↦ e
    | inr (s, stored, may) ↦
        let q : d ≡ s = ground arith in
        let (_, _, _, _, response, _) = may in
        absurd (true_false (sym response ∙ ap (λ x. x.response) (sym q) ∙ same ∙ fresh))
  ]
    where
      true_false : true ≡ false → ⊥
      true_false h = cc

  -- The answer of the blacklist to a request that is not a response is never cached: `CacheSet`
  -- leaves the cache as it is.
  pub run_set-run :
      (c : Cache n k) (now : ℕ) (mess mess' : Message) (m : Msg) (q : Question)
      (rest : List Question)
      → mess.msg ≡ some m
      → m.question ≡ q ∷ rest
      → m.response ≡ false
      → is_blocked t b mess q ≡ true
      → run t b new_rr mess ≡ ran mess'
      → (run_set n k c now mess').0 ≡ c
  run_set-run c now mess mess' m q rest e qs fresh blocked h =
      go (new_rr (normalize_domain_pattern q.qname) (txt "0.0.0.0"))
        (run_blocked t b new_rr mess m q rest e qs blocked)
    where
      go :
          (r : Result Rr)
          → IsAnswered t b new_rr mess m q rest r (run t b new_rr mess)
          → (run_set n k c now mess').0 ≡ c
      go (err x) (m', f, _) = absurd (ground (arith, f))
      go (ok rr) (m', f, _, _, is) =
          let same : m' ≡ mess' = ground (arith, f) in
          answered-run_set c now mess' m (record m { answer = m.answer ++ some rr ∷ [] }) fresh refl
            (subst (λ x. x.msg ≡ some (record m { answer = m.answer ++ some rr ∷ [] })) same is)
