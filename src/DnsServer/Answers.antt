-- ===== src/DnsServer/Answers.antt =====
-- For which requests a listener asks its resolver.
use tdns.Base.{eqb, nat_eq, text_eq, Bool-cases, ℕ, ◌≡◌, refl, ap, ◌⊎◌, inl, inr, true, some, arith}
use tdns.Message.{Addr, Msg}
use tdns.Limits.Table.{Limiter}
use tdns.DnsServer.Policy.{
  NetIp, Policy, remote_ip, is_allowed, Admission, acl, client_rate, admitted, admit,
}
use tdns.DnsServer.Handler.{Replies, opcode_query, Written, silent, Listener, serve_if, serve_dns}
use tdns.Server.{Outcome}
use tdns.DnsServer.Laws.{admit_lem}

module _ (n : NetIp) (l global : Limiter) (r : Replies) {S : Type 0}
    (resolve : S → Msg → Addr → S × Outcome) where
  -- The listener after a request that it drops.
  abbrev pub dropped : S → Policy n l global → Listener n l global r resolve × Written
  dropped s p = (record { policy = p; resolver = s }, silent)

  serve_if-cases :
      (x : Policy n l global × Admission n l global) (s : S) (now later : ℕ) (request : Msg)
      (remote : Addr)
      → (serve_if n l global r resolve x s now later request remote ≡ dropped s x.0)
        ⊎ ((x.1 ≡ admitted) × (request.opcode ≡ opcode_query))
  serve_if-cases (p, acl) s now later request remote = inl refl
  serve_if-cases (p, client_rate) s now later request remote = inl refl
  serve_if-cases (p, admitted) s now later request remote =
      elim (Bool-cases (eqb request.opcode opcode_query)) [
        | inl e ↦ inr (refl, ground arith)
        | inr e ↦ inl (rw e refl)
      ]

  -- The resolver is asked, and a response written, only for a standard query of an address that is
  -- allowed; any other request is dropped, with no change but that of the access policy.
  pub serve_dns_lem :
      (h : Listener n l global r resolve) (now later : ℕ) (request : Msg) (remote : Addr)
      → (serve_dns n l global r resolve h now later request remote
          ≡ dropped h.resolver (admit n l global h.policy now remote).0)
        ⊎ ((request.opcode ≡ opcode_query)
            × ((a : n.Ip) × (remote_ip n l global remote ≡ some a)
                × (is_allowed n l global h.policy a ≡ true)))
  unfolding serve_dns
  serve_dns_lem h now later request remote =
      elim (serve_if-cases (admit n l global h.policy now remote) h.resolver now later request
        remote) [
          | inl e ↦ inl e
          | inr (e, q) ↦ elim (admit_lem n l global h.policy now remote) [
            | inl (out, _) ↦ absurd (rejected (ap (λ x. x.1) out) e)
            | inr (a, is, allowed, _) ↦ inr (q, (a, is, allowed))
          ]
        ]
    where
      rejected : {x : Admission n l global} → x ≡ acl → x ≡ admitted → ⊥
      rejected h k = cc
