-- ===== src/DnsServer/Handler.antt =====
-- internal/dnsserver/handler.go: `ServeDNS`. The resolver is a parameter; `SetRcode` and `SetReply`
-- of the DNS library are an interface.
use tdns.Server.{Outcome, replied, refused, crashed}
use tdns.Limits.Table.{Limiter}
use tdns.Base.{eqb, if◌then◌else◌, nat_eq, text_eq, ℕ, Bool, Option, none, some}
use tdns.Message.{Addr, Msg}
use tdns.DnsServer.Policy.{
  NetIp, Policy, Admission, acl, client_rate, admitted, admit, allow_response,
}

pub record Replies : Type 0 where
  pub set_rcode : Msg → ℕ → Msg
  pub set_reply : Msg → Msg → Msg

abbrev pub opcode_query : ℕ
opcode_query = 0

abbrev pub rcode_server_failure : ℕ
rcode_server_failure = 2

-- What a request ends in: a written response, nothing, or a crash of the process.
pub data Written : Type 0 where
  wrote : Msg → Written
  silent : Written
  died : Written

module _ (n : NetIp) (l global : Limiter) (r : Replies) {S : Type 0}
    (resolve : S → Msg → Addr → S × Outcome) where
  pub record Listener : Type 0 where
    pub policy : Policy n l global
    pub resolver : S

  -- The response to the outcome of the resolver; `none` if it panicked.
  abbrev pub response_to : Msg → Outcome → Option Msg
  response_to request (refused e) = some (r.set_rcode request rcode_server_failure)
  response_to request (replied none) = some (r.set_rcode request rcode_server_failure)
  response_to request (replied (some m)) = some (r.set_reply m request)
  response_to request crashed = none

  abbrev write_if : S → Msg → Policy n l global × Bool → Listener × Written
  write_if s m (p, passed) =
      (record { policy = p; resolver = s }, if passed then wrote m else silent)

  abbrev pub write : Policy n l global → ℕ → S → Option Msg → Listener × Written
  write p now s none = (record { policy = p; resolver = s }, died)
  write p now s (some m) = write_if s m (allow_response n l global p now)

  abbrev respond : Policy n l global → ℕ → Msg → S × Outcome → Listener × Written
  respond p now request (s, o) = write p now s (response_to request o)

  abbrev serve_admitted : Policy n l global → S → ℕ → ℕ → Msg → Addr → Listener × Written
  serve_admitted p s now later request remote =
      if eqb request.opcode opcode_query
      then respond p later request (resolve s request remote)
      else (record { policy = p; resolver = s }, silent)

  abbrev pub serve_if :
      Policy n l global × Admission n l global → S → ℕ → ℕ → Msg → Addr → Listener × Written
  serve_if (p, admitted) s now later request remote = serve_admitted p s now later request remote
  serve_if (p, acl) s now later request remote = (record { policy = p; resolver = s }, silent)
  serve_if (p, client_rate) s now later request remote =
      (record { policy = p; resolver = s }, silent)

  -- A request that arrives at `now` and is answered at `later`.
  unfoldable pub serve_dns : Listener → ℕ → ℕ → Msg → Addr → Listener × Written
  serve_dns h now later request remote =
      serve_if (admit n l global h.policy now remote) h.resolver now later request remote
