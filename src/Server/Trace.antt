-- ===== src/Server/Trace.antt =====
-- Who is asked for a request, in which order, and what the server replies: for middlewares that leave a
-- trace, and each of which passes a message on, resolves it or fails.
use tdns.Base.{
  if◌then◌else◌, nat_eq, Text, text_eq, ◌⊎◌, inl, inr, Bool, true, false, Option, some, List, [],
  ◌∷◌, ◌++◌,
}
use tdns.Base.Strings.{txt}
use tdns.Message.{Addr, Msg, Message, Error, saturated, Run, ran, failed, set_resolved}
use tdns.Server.Order.{MiddlewareIndex}
use tdns.Server.{
  Outcome, replied, refused, Upstream, answered, unanswered, Server, Resolving, went, stopped, post,
}

pub data Behaviour : Type 0 where
  passes resolves : Behaviour
  fails : Error → Behaviour

abbrev act : Behaviour → Message → Run
act passes m = ran m
act resolves m = ran (set_resolved m true)
act (fails e) m = failed m e

abbrev is_resolving : Behaviour → Bool
is_resolving passes = false
is_resolving resolves = true
is_resolving (fails e) = false

abbrev is_stopping : Behaviour → Bool
is_stopping passes = false
is_stopping resolves = true
is_stopping (fails e) = true

abbrev pub upstream_name : Text
upstream_name = txt "upstream"

abbrev arriving : Msg → Addr → Message
arriving request remote = record {
  msg = some request;
  ctx = some (record { remote_addr = remote; values = []; labels = [] });
  resolved = false;
}

module _ (behave : Text → Behaviour) (answer : Msg ⊎ Error) where
  -- The state is the list of those who were asked.
  abbrev pub tracing : Text → List Text → Message → List Text × Run
  tracing name asked m = (asked ++ name ∷ [], act (behave name) m)

  abbrev upstream_of : Msg ⊎ Error → Upstream
  upstream_of (inl d) = answered d
  upstream_of (inr e) = unanswered e

  abbrev pub tracing_upstream : List Text → Option Msg → List Text × Upstream
  tracing_upstream asked d = (asked ++ upstream_name ∷ [], upstream_of answer)

  -- The names up to the first at which a loop stops, and what that one does.
  unfoldable pub asked_until : (Behaviour → Bool) → List Text → List Text
  asked_until stops [] = []
  asked_until stops (p ∷ ps) = if stops (behave p) then p ∷ [] else p ∷ asked_until stops ps

  unfoldable pub first_of : (Behaviour → Bool) → List Text → Behaviour
  first_of stops [] = passes
  first_of stops (p ∷ ps) = if stops (behave p) then behave p else first_of stops ps

  -- Who is asked, and what the request ends in.
  abbrev Ending : Type 0
  Ending = List Text × Outcome

  abbrev after_asking : List Text → Ending → Ending
  after_asking names (rest, o) = (names ++ rest, o)

  -- A message that is resolved goes through the whole of the post-routing.
  abbrev ending_upstream : List Text → Msg ⊎ Error → Ending
  ending_upstream post (inl d) = (upstream_name ∷ post, replied (some d))
  ending_upstream post (inr e) = (upstream_name ∷ [], refused e)

  abbrev ending_resolving : List Text → Option Msg → Behaviour → Ending
  ending_resolving post d passes = ending_upstream post answer
  ending_resolving post d resolves = (post, replied d)
  ending_resolving post d (fails e) = ([], refused e)

  abbrev ending_unresolved : MiddlewareIndex → Bool → Option Msg → Ending
  ending_unresolved index is_free d =
      if is_free
      then after_asking (asked_until is_stopping index.resolving_names)
          (ending_resolving index.post_routing_names d (first_of is_stopping index.resolving_names))
      else ([], refused saturated)

  abbrev ending_pre : MiddlewareIndex → Bool → Option Msg → Bool → Ending
  ending_pre index is_free d is_resolved =
      if is_resolved
      then (index.post_routing_names, replied d)
      else ending_unresolved index is_free d

  abbrev pub expected : MiddlewareIndex → Bool → Msg → Ending
  expected index is_free request = after_asking (asked_until is_resolving index.pre_routing_names) (
      ending_pre index is_free (some request)
        (is_resolving (first_of is_resolving index.pre_routing_names)))

  abbrev marked : Bool → Message → Message
  marked is_resolved m = if is_resolved then set_resolved m true else m

  abbrev resolving_of : Behaviour → Message → Resolving
  resolving_of passes m = went m
  resolving_of resolves m = went (set_resolved m true)
  resolving_of (fails e) m = stopped e

  -- The server after a request, which differs in its state alone.
  abbrev pub ended : Server (List Text) → List Text → Ending → Server (List Text) × Outcome
  ended srv asked (names, o) = (record srv { state = asked ++ names }, o)
