-- ===== src/DnsServer/Laws.antt =====
-- What the access policy promises: who is admitted, and what a listener does for whom.
use tdns.Base.{
  nat_eq, Text, text_eq, Bool-cases, if_elim, contains, Distinct, Distinct-concat, ℕ, ◌≤◌, ◌<◌, ◌≡◌,
  refl, ◌⊎◌, inl, inr, true, false, Option, none, some, List, [], ◌∷◌, ◌++◌, arith,
}
use tdns.Message.{Addr}
use tdns.Limits.Table.{Limiter, allow}
use tdns.Limits.Laws.{IsBounded, allow-IsBounded}
use tdns.DnsServer.Policy.{
  NetIp, Checked, valid, invalid, ◌>>=◌, max_client_idle_period, validate_limit, validate_timeout,
  canonical, add_prefix, add_prefixes, Policy, remote_ip, is_allowed, Admission, acl, after_allow,
  admit_ip, admit,
}
use tdns.Base.{length}
use tdns.Limits.Laws.{empty-IsBounded}
use tdns.DnsServer.Policy.{
  Conf, max_cidrs, max_configured_rate, max_configured_burst, max_concurrent_work, max_client_state,
  new_policy,
}
use tdns.Base.{ltb, if◌then◌else◌}
use tdns.DnsServer.Policy.{too_many_cidrs}

bind-eq-valid {ℓ κ} :
    {A : Type ℓ} {B : Type κ} {b : B} (m : Checked A) (f : A → Checked B)
    → (m >>= f) ≡ valid b
    → (a : A) × (m ≡ valid a) × (f a ≡ valid b)
bind-eq-valid (valid a) f h = (a, refl, h)
bind-eq-valid (invalid e) f h = cc

-- The limit is at least 1, and at most the maximum.
abbrev IsInRange : ℕ → ℕ → Type 0
IsInRange maximum value = (0 < value) × (value ≤ maximum)

validate_limit-IsInRange :
    (value maximum : ℕ) → validate_limit value maximum ≡ valid tt → IsInRange maximum value
unfolding validate_limit
validate_limit-IsInRange value maximum h = ground arith

validate_timeout-IsInRange :
    (o : Option ℕ) (t : ℕ) → validate_timeout o ≡ valid t → IsInRange max_client_idle_period t
unfolding validate_timeout
validate_timeout-IsInRange none t h = cc
validate_timeout-IsInRange (some u) t h = ground arith

module _ (n : NetIp) where
  add_prefix-Distinct :
      (have out : List n.Prefix) (value : Text) (o : Option n.Prefix)
      → Distinct ⦃e = n.prefix_eq⦄ have
      → add_prefix n have value o ≡ valid out
      → Distinct ⦃e = n.prefix_eq⦄ out
  add_prefix-Distinct have out value none d h = cc
  add_prefix-Distinct have out value (some p) d h =
      elim (Bool-cases (contains ⦃e = n.prefix_eq⦄ have (canonical n p))) [
        | inl e ↦ absurd (ground arith)
        | inr e ↦
            let q : have ++ canonical n p ∷ [] ≡ out = ground arith in
            rw (← q) (Distinct-concat ⦃e = n.prefix_eq⦄ have (canonical n p) d e)
      ]

  add_prefixes-Distinct :
      (have out : List n.Prefix) (values : List Text)
      → Distinct ⦃e = n.prefix_eq⦄ have
      → add_prefixes n have values ≡ valid out
      → Distinct ⦃e = n.prefix_eq⦄ out
  unfolding add_prefixes
  add_prefixes-Distinct have out [] d h = let q : have ≡ out = ground arith in rw (← q) d
  add_prefixes-Distinct have out (v ∷ vs) d h =
      let (have', e, rest) = bind-eq-valid (add_prefix n have v (n.parse_prefix v)) _ h in
      add_prefixes-Distinct have' out vs (add_prefix-Distinct have have' v (n.parse_prefix v) d e)
        rest

module _ (n : NetIp) (l global : Limiter) where
  -- The table of clients has room for one at least, is consistent, and within its limit.
  abbrev pub IsSound : Policy n l global → Type 0
  IsSound p = (0 < p.max_entries) × IsBounded n.Ip ⦃e = n.ip_eq⦄ l p.max_entries p.clients

  -- No address, or one that may not ask.
  abbrev IsOutside : Policy n l global → Option n.Ip → Type 0
  IsOutside p none = Unit
  IsOutside p (some a) = is_allowed n l global p a ≡ false

  -- A request of an address that is missing or not allowed is rejected, with the policy unchanged;
  -- any other is decided by the limiter of its address, and only the table of clients changes.
  pub admit_lem :
      (p : Policy n l global) (now : ℕ) (remote : Addr)
      → ((admit n l global p now remote ≡ (p, acl)) × IsOutside p (remote_ip n l global remote))
        ⊎ ((a : n.Ip) × (remote_ip n l global remote ≡ some a)
            × (is_allowed n l global p a ≡ true)
            × (admit n l global p now remote
                ≡ after_allow n l global p
                    (allow n.Ip ⦃e = n.ip_eq⦄ l p.idle_timeout p.max_entries a now p.clients)))
  unfolding admit
  admit_lem p now remote = go (remote_ip n l global remote)
    where
      go :
          (o : Option n.Ip)
          → ((admit_ip n l global p now o ≡ (p, acl)) × IsOutside p o)
            ⊎ ((a : n.Ip) × (o ≡ some a)
                × (is_allowed n l global p a ≡ true)
                × (admit_ip n l global p now o
                    ≡ after_allow n l global p
                        (allow n.Ip ⦃e = n.ip_eq⦄ l p.idle_timeout p.max_entries a now p.clients)))
      go none = inl (refl, tt)
      go (some a) = elim (Bool-cases (is_allowed n l global p a)) [
        | inl e ↦ inr (a, refl, e, rw e refl)
        | inr e ↦ inl (rw e refl, e)
      ]

  admit_ip-IsSound :
      (p : Policy n l global) (now : ℕ) (o : Option n.Ip)
      → IsSound p
      → IsSound (admit_ip n l global p now o).0
  admit_ip-IsSound p now none s = s
  admit_ip-IsSound p now (some a) s =
      if_elim {A = Policy n l global × Admission n l global} (λ r. IsSound r.0)
        (is_allowed n l global p a) _ _
        (λ _. (
          s.0,
          allow-IsBounded n.Ip ⦃e = n.ip_eq⦄ l p.idle_timeout p.max_entries a now p.clients s.0 s.1,
        ))
        (λ _. s)

  -- Whoever asks, the table of clients stays consistent and within the configured limit.
  pub admit-IsSound :
      (p : Policy n l global) (now : ℕ) (remote : Addr)
      → IsSound p
      → IsSound (admit n l global p now remote).0
  unfolding admit
  admit-IsSound p now remote s = admit_ip-IsSound p now (remote_ip n l global remote) s

  empty_table-IsBounded :
      (limit : ℕ) → IsBounded n.Ip ⦃e = n.ip_eq⦄ l limit (record { entries = []; order = [] })
  empty_table-IsBounded = empty-IsBounded n.Ip ⦃e = n.ip_eq⦄ l

  -- A configuration that is accepted has every limit in its range, and makes a policy with
  -- distinct prefixes, an idle timeout in its range, and a table of clients that has room, is
  -- consistent and within its limit.
  new_policy_lem :
      (conf : Conf) (p : Policy n l global)
      → new_policy n l global conf ≡ valid p
      → (length conf.allowed_client_cidrs ≤ max_cidrs)
        × IsInRange max_configured_rate conf.client_queries_per_second
        × IsInRange max_configured_burst conf.client_burst
        × IsInRange max_configured_rate conf.global_responses_per_second
        × IsInRange max_configured_burst conf.global_response_burst
        × IsInRange max_concurrent_work conf.max_concurrent_upstreams
        × IsInRange max_client_state p.max_entries
        × IsInRange max_client_idle_period p.idle_timeout
        × Distinct ⦃e = n.prefix_eq⦄ p.allowed
        × IsSound p
  unfolding new_policy
  new_policy_lem conf p h =
      let (_, few, h₁) =
        bind-eq-valid
          (if ltb max_cidrs (length conf.allowed_client_cidrs)
            then invalid too_many_cidrs
            else valid tt)
          _ h in
      let (_, qps, h₂) =
        bind-eq-valid (validate_limit conf.client_queries_per_second max_configured_rate) _ h₁ in
      let (_, burst, h₃) =
        bind-eq-valid (validate_limit conf.client_burst max_configured_burst) _ h₂ in
      let (_, rps, h₄) =
        bind-eq-valid (validate_limit conf.global_responses_per_second max_configured_rate) _ h₃ in
      let (_, rburst, h₅) =
        bind-eq-valid (validate_limit conf.global_response_burst max_configured_burst) _ h₄ in
      let (_, work, h₆) =
        bind-eq-valid (validate_limit conf.max_concurrent_upstreams max_concurrent_work) _ h₅ in
      let (_, clients, h₇) =
        bind-eq-valid (validate_limit conf.max_tracked_clients max_client_state) _ h₆ in
      let (idle, timeout, h₈) = bind-eq-valid (validate_timeout conf.client_idle_timeout) _ h₇ in
      let (prefixes, listed, h₉) =
        bind-eq-valid (add_prefixes n [] conf.allowed_client_cidrs) _ h₈ in
      let range = validate_limit-IsInRange in
      let room = range _ _ clients in
      let made : Policy n l global = record {
        allowed = prefixes;
        clients = record { entries = []; order = [] };
        max_entries = conf.max_tracked_clients;
        idle_timeout = idle;
        response_limit = global.fresh;
      } in
      let same : made ≡ p = ground arith in
      (
        ground arith,
        range _ _ qps,
        range _ _ burst,
        range _ _ rps,
        range _ _ rburst,
        range _ _ work,
        rw (← same) room,
        rw (← same) (validate_timeout-IsInRange conf.client_idle_timeout idle timeout),
        rw (← same) (add_prefixes-Distinct n [] prefixes conf.allowed_client_cidrs tt listed),
        rw (← same) (room.0, empty_table-IsBounded _),
      )
