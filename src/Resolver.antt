-- ===== src/Resolver.antt =====
-- resolver/client.go: the upstreams that are asked in turn. The network exchange and the deadline
-- of the context are an interface over a world `W`.
pub mod Laws
mod Tests
use tdns.Base.{
  eqb, if◌then◌else◌, nat_eq, text_eq, is_empty, ℕ, Bool, true, false, not, ◌&&◌, Option, none,
  some, List, [], ◌∷◌,
}
use tdns.Message.{Msg, Message, Error, mux_timeout, no_response}

-- `ctx.Err()`, and `ExchangeContext` or `Exchange` with an upstream: it may return a message, an
-- error, or both.
pub record Network : Type 1 where
  pub World : Type 0
  pub Upstream : Type 0
  pub is_expired : World → Bool
  pub exchange : World → Upstream → Msg → World × (Option Msg × Option Error)

abbrev rcode_success : ℕ
rcode_success = 0

abbrev pub rcode_server_failure : ℕ
rcode_server_failure = 2

module _ (n : Network) where
  open n use {World, Upstream, is_expired, exchange}

  pub data Answer : Type 0 where
    returned : Option Msg → Option Error → Answer
    -- the question is read for the log, and the message has none
    panicked : Answer

  -- The response makes the loop go on.
  abbrev pub is_skipped : Option Msg → Bool
  is_skipped none = false
  is_skipped (some r) =
      if not (eqb r.rcode rcode_success) then eqb r.rcode rcode_server_failure else false

  abbrev pub is_error : Option Error → Bool
  is_error none = false
  is_error (some e) = true

  abbrev pub after_exchange :
      World × (Option Msg × Option Error) → (World → World × Answer) → World × Answer
  after_exchange (w, (r, e)) rest =
      if is_error e && is_expired w
      then (w, returned none (some mux_timeout))
      else if is_skipped r
      then rest w
      else (w, returned r e)

  -- The loop of `ResolveContext`.
  unfoldable pub resolve_context : List Upstream → World → Msg → World × Answer
  resolve_context [] w m = (w, returned none (some no_response))
  resolve_context (u ∷ us) w m =
      if is_expired w
      then (w, returned none (some mux_timeout))
      else if is_empty m.question
      then (w, panicked)
      else after_exchange (exchange w u m) (λ w'. resolve_context us w' m)
