-- ===== src/Resolver/Tests.antt =====
-- Upstreams that answer with a fixed code.
use tdns.Base.{ltb, nat_eq, text_eq, ℕ, ◌+◌, ◌≡◌, refl, true, none, some, [], ◌∷◌}
use tdns.Message.Tests.{query}
use tdns.Resolver.{Network, returned, resolve_context}
use tdns.Resolver.Laws.{IsOutcome, resolve_context_lem}

abbrev coded : Network
coded = record {
  World = ℕ;
  Upstream = ℕ;
  is_expired = λ w. ltb 9 w;
  exchange = λ w u m. (w + 1, (some (record m { response = true; rcode = u }), none));
}

resolve_context_example :
    IsOutcome coded query (2 ∷ 0 ∷ 3 ∷ []) 0 (resolve_context coded (2 ∷ 0 ∷ 3 ∷ []) 0 query)
resolve_context_example = resolve_context_lem coded query (2 ∷ 0 ∷ 3 ∷ []) 0 refl

resolve_context_fallback :
    resolve_context coded (2 ∷ 0 ∷ 3 ∷ []) 0 query
    ≡ (2, returned (some (record query { response = true })) none)
unfolding resolve_context
resolve_context_fallback = refl
