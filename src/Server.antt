-- ===== src/Server.antt =====
-- server/server.go: the pipeline that a request goes through. The middlewares share one state, and
-- `run name` is `Run` of the middleware of that name; the default upstream is a parameter. A value
-- of `Message` is what the message object holds after a call.
pub mod Order
pub mod Laws
pub mod Trace
mod Tests
use Order.{MiddlewareIndex}
use tdns.Base.{
  ltb, eqb, if◌then◌else◌, nat_eq, Text, text_eq, length, is_empty, ℕ, ◌+◌, ◌-◌, true, false,
  Option, none, some, List, [], ◌∷◌,
}
use tdns.Message.{
  Addr, Msg, Message, Error, saturated, no_response, upstream, Run, ran, failed, lost, panic,
  set_resolved, set_msg, labels,
}

pub data Outcome : Type 0 where
  replied : Option Msg → Outcome
  refused : Error → Outcome
  crashed : Outcome

-- What the default upstream does with the message: it may be asked with no message.
pub data Upstream : Type 0 where
  answered : Msg → Upstream
  unanswered : Error → Upstream
  broken : Upstream

pub record Server (S : Type 0) : Type 0 where
  pub state : S
  pub index : MiddlewareIndex
  -- the length and the capacity of the channel `upstreamSlots`
  pub slots : ℕ
  pub capacity : ℕ

-- `NewServer`; a configured maximum that is not positive is 0.
unfoldable new_server : {S : Type 0} → S → MiddlewareIndex → ℕ → Server S
new_server state index max_concurrent = record {
  state = state;
  index = index;
  slots = 0;
  capacity = if eqb max_concurrent 0 then 128 else max_concurrent;
}

pub data Resolving : Type 0 where
  went : Message → Resolving
  stopped : Error → Resolving
  fell : Resolving

module _ {S : Type 0} (run : Text → S → Message → S × Run)
    (resolve : S → Option Msg → S × Upstream) where
  -- A round of the pre-routing loop; `none` is a nil message, which panics at its next use.
  abbrev pub after_pre : S × Run → (S → Message → S × Option Message) → S × Option Message
  after_pre (s, ran m) rest = if m.resolved then (s, some m) else rest s m
  after_pre (s, failed m e) rest = rest s m
  after_pre (s, lost e) rest = (s, none)
  after_pre (s, panic) rest = (s, none)

  unfoldable pub pre_route : List Text → S → Message → S × Option Message
  pre_route [] s m = (s, some m)
  pre_route (p ∷ ps) s m = after_pre (run p s m) (λ s' m'. pre_route ps s' m')

  abbrev pub after_resolving : S × Run → (S → Message → S × Resolving) → S × Resolving
  after_resolving (s, ran m) rest = if m.resolved then (s, went m) else rest s m
  after_resolving (s, failed m e) rest = (s, stopped e)
  after_resolving (s, lost e) rest = (s, stopped e)
  after_resolving (s, panic) rest = (s, fell)

  -- `tryResolve`
  unfoldable pub try_resolve : List Text → S → Message → S × Resolving
  try_resolve [] s m = (s, went m)
  try_resolve (p ∷ ps) s m = after_resolving (run p s m) (λ s' m'. try_resolve ps s' m')

  abbrev pub after_upstream : Message → S × Upstream → S × Resolving
  after_upstream m (s, answered d) = (s, went (set_resolved (set_msg m d) true))
  after_upstream m (s, unanswered e) = (s, stopped e)
  after_upstream m (s, broken) = (s, fell)

  abbrev pub or_upstream : S × Resolving → S × Resolving
  or_upstream (s, went m) = if m.resolved then (s, went m) else after_upstream m (resolve s m.msg)
  or_upstream (s, stopped e) = (s, stopped e)
  or_upstream (s, fell) = (s, fell)

  abbrev nil_message : List Text → Outcome
  nil_message [] = refused no_response
  nil_message (_ ∷ _) = crashed

  abbrev pub after_post : List Text → S × Run → (S → Message → S × Outcome) → S × Outcome
  after_post ps (s, ran m) rest = rest s m
  after_post ps (s, failed m e) rest = rest s m
  after_post ps (s, lost e) rest = (s, nil_message ps)
  after_post ps (s, panic) rest = (s, crashed)

  unfoldable pub post_route : List Text → S → Message → S × Outcome
  post_route [] s m = (s, replied m.msg)
  post_route (p ∷ ps) s m = after_post ps (run p s m) (λ s' m'. post_route ps s' m')

  abbrev pub post : Server S → S × Outcome → Server S × Outcome
  post srv (s, o) = (record srv { state = s }, o)

  abbrev pub acquire : Server S → Server S
  acquire srv = record srv { slots = srv.slots + 1 }

  abbrev pub release : Server S → Server S
  release srv = record srv { slots = srv.slots - 1 }

  -- The slot is released before the post-routing, or by the deferred call: on an error, and while
  -- a panic unwinds.
  abbrev pub after_slot : Server S → S × Resolving → Server S × Outcome
  after_slot srv (s, went m) = post (release srv) (post_route srv.index.post_routing_names s m)
  after_slot srv (s, stopped e) = (record (release srv) { state = s }, refused e)
  after_slot srv (s, fell) = (record (release srv) { state = s }, crashed)

  abbrev pub route_unresolved : Server S → S → Message → Server S × Outcome
  route_unresolved srv s m =
      if ltb srv.slots srv.capacity
      then after_slot (acquire srv) (or_upstream (try_resolve srv.index.resolving_names s m))
      else (record srv { state = s }, refused saturated)

  abbrev pub after_pre_routing : Server S → S × Option Message → Server S × Outcome
  after_pre_routing srv (s, none) = (record srv { state = s }, crashed)
  after_pre_routing srv (s, some m) =
      if m.resolved
      then post srv (post_route srv.index.post_routing_names s m)
      else route_unresolved srv s m

  unfoldable pub process : Server S → Message → Server S × Outcome
  process srv m = after_pre_routing srv (pre_route srv.index.pre_routing_names srv.state m)

  abbrev empty_msg : Msg
  empty_msg = record {
    id = 0;
    response = false;
    opcode = 0;
    recursion_desired = false;
    checking_disabled = false;
    rcode = 0;
    question = [];
    answer = [];
    ns = [];
    extra = [];
  }

  -- `Handler`: the message of a request, and an empty response to one without a question.
  unfoldable pub handler : Server S → Msg → Addr → Server S × Outcome
  handler srv request remote =
      if is_empty request.question
      then (srv, replied (some empty_msg))
      else process srv (record {
        msg = some request;
        ctx = some (record { remote_addr = remote; values = []; labels = [] });
        resolved = false;
      })
