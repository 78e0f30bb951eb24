-- ===== src/DnsServer/Tests.antt =====
-- A listener for the addresses under a prefix.
use tdns.Base.{
  if◌then◌else◌, nat_eq, Text, text_eq, is_empty, ℕ, ◌+◌, ◌≡◌, ◌⊎◌, true, false, none, some, [],
  ◌∷◌,
}
use tdns.Base.Strings.{txt, has_prefix}
use tdns.Message.{Addr, udp, Msg}
use tdns.Message.Tests.{query}
use tdns.Limits.Tests.{bucket}
use tdns.DnsServer.Policy.{NetIp, Conf, Policy, remote_ip, is_allowed, admit}
use tdns.DnsServer.Handler.{Replies, opcode_query, Listener, serve_dns}
use tdns.DnsServer.Answers.{dropped, serve_dns_lem}
use tdns.Server.{Outcome, replied}

-- Addresses and prefixes are their texts.
abbrev text_ip : NetIp
text_ip = record {
  Ip = Text;
  Prefix = Text;
  ip_eq = text_eq;
  prefix_eq = text_eq;
  from_slice = some;
  unmap = λ ip. ip;
  is_loopback = λ ip. has_prefix ip (txt "127.");
  parse_prefix = λ t. if is_empty t then none else some t;
  is_mapped = λ p. false;
  unmap_prefix = λ p. p;
  masked = λ p. p;
  prefix_contains = λ p ip. has_prefix ip p;
}

abbrev conf : Conf
conf = record {
  allowed_client_cidrs = txt "10." ∷ [];
  client_queries_per_second = 20;
  client_burst = 40;
  global_responses_per_second = 200;
  global_response_burst = 400;
  max_concurrent_upstreams = 16;
  max_tracked_clients = 2;
  client_idle_timeout = some 60000000000;
}

abbrev fresh_policy : Policy text_ip bucket bucket
fresh_policy = record {
  allowed = txt "10." ∷ [];
  clients = record { entries = []; order = [] };
  max_entries = 2;
  idle_timeout = 60000000000;
  response_limit = 2;
}

abbrev plain_replies : Replies
plain_replies = record {
  set_rcode = λ request code. record request { response = true; rcode = code };
  set_reply = λ m request. record m { id = request.id; response = true; rcode = 0 };
}

abbrev echo : ℕ → Msg → Addr → ℕ × Outcome
echo s request remote = (s + 1, replied (some request))

abbrev listening : Listener text_ip bucket bucket plain_replies echo
listening = record { policy = fresh_policy; resolver = 0 }

serve_dns_example :
    (serve_dns text_ip bucket bucket plain_replies echo listening 5 6 query (udp (txt "10.0.0.9"))
      ≡ dropped text_ip bucket bucket plain_replies echo listening.resolver
          (admit text_ip bucket bucket listening.policy 5 (udp (txt "10.0.0.9"))).0)
    ⊎ ((query.opcode ≡ opcode_query)
        × ((a : Text) × (remote_ip text_ip bucket bucket (udp (txt "10.0.0.9")) ≡ some a)
            × (is_allowed text_ip bucket bucket listening.policy a ≡ true)))
serve_dns_example =
    serve_dns_lem text_ip bucket bucket plain_replies echo listening 5 6 query
      (udp (txt "10.0.0.9"))
