-- ===== src/DnsServer/Policy.antt =====
-- internal/dnsserver/policy.go: the access policy. The addresses and prefixes of `net/netip` are an
-- interface; the rate of a client and that of all responses are limiters. A limit that is negative
-- in the configuration is refused like 0.
use tdns.Limits.Table.{Limiter, Table, allow}
use tdns.Base.{
  ltb, eqb, if◌then◌else◌, Eq, nat_eq, Text, text_eq, length, any, contains, ℕ, Bool, true, ◌||◌,
  Option, none, some, List, [], ◌∷◌, ◌++◌,
}
use tdns.Message.{Addr, udp, tcp, ip_only, other, absent}
use tdns.Limits.Table.{seen}

pub record NetIp : Type 1 where
  pub Ip : Type 0
  pub Prefix : Type 0
  pub ip_eq : Eq Ip
  pub prefix_eq : Eq Prefix
  -- `AddrFromSlice`, on the address of a connection, which is its text here
  pub from_slice : Text → Option Ip
  pub unmap : Ip → Ip
  pub is_loopback : Ip → Bool
  pub parse_prefix : Text → Option Prefix
  -- `Addr().Is4In6()`; the prefix without it; `Masked`
  pub is_mapped : Prefix → Bool
  pub unmap_prefix : Prefix → Prefix
  pub masked : Prefix → Prefix
  pub prefix_contains : Prefix → Ip → Bool

pub record Conf : Type 0 where
  pub allowed_client_cidrs : List Text
  pub client_queries_per_second : ℕ
  pub client_burst : ℕ
  pub global_responses_per_second : ℕ
  pub global_response_burst : ℕ
  pub max_concurrent_upstreams : ℕ
  pub max_tracked_clients : ℕ
  -- `time.ParseDuration` of the timeout
  pub client_idle_timeout : Option ℕ

-- What is refused: a limit above or below its range, which ends at the number; or the prefix of a
-- text.
pub data PolicyError : Type 0 where
  too_many_cidrs bad_duration bad_timeout : PolicyError
  out_of_range : ℕ → PolicyError
  bad_prefix duplicate_prefix : Text → PolicyError

pub data Checked {ℓ} (A : Type ℓ) : Type ℓ where
  valid : A → Checked A
  invalid : PolicyError → Checked A

infixl 5 ◌>>=◌ ◌>>◌
abbrev pub ◌>>=◌ {ℓ κ} : {A : Type ℓ} {B : Type κ} → Checked A → (A → Checked B) → Checked B
valid a >>= f = f a
invalid e >>= f = invalid e

abbrev pub ◌>>◌ {ℓ} : {B : Type ℓ} → Checked (Unit {0}) → Checked B → Checked B
m >> k = m >>= λ _. k

abbrev pub max_cidrs : ℕ
max_cidrs = 256

abbrev pub max_configured_rate : ℕ
max_configured_rate = 1000000

abbrev pub max_configured_burst : ℕ
max_configured_burst = 2000000

abbrev pub max_concurrent_work : ℕ
max_concurrent_work = 4096

abbrev pub max_client_state : ℕ
max_client_state = 65536

-- 24 hours
abbrev pub max_client_idle_period : ℕ
max_client_idle_period = 86400000000000

unfoldable pub validate_limit : ℕ → ℕ → Checked (Unit {0})
validate_limit value maximum =
    if eqb value 0 || ltb maximum value then invalid (out_of_range maximum) else valid tt

unfoldable pub validate_timeout : Option ℕ → Checked ℕ
validate_timeout none = invalid bad_duration
validate_timeout (some t) =
    if eqb t 0 || ltb max_client_idle_period t then invalid bad_timeout else valid t

module _ (n : NetIp) where
  open n use {
    Ip, Prefix, ip_eq, prefix_eq, from_slice, unmap, is_loopback, parse_prefix, is_mapped,
    unmap_prefix, masked, prefix_contains,
  }

  abbrev pub canonical : Prefix → Prefix
  canonical p = masked (if is_mapped p then unmap_prefix p else p)

  abbrev pub add_prefix : List Prefix → Text → Option Prefix → Checked (List Prefix)
  add_prefix seen value none = invalid (bad_prefix value)
  add_prefix seen value (some p) =
      if contains ⦃e = prefix_eq⦄ seen (canonical p)
      then invalid (duplicate_prefix value)
      else valid (seen ++ canonical p ∷ [])

  -- The loop over `AllowedClientCIDRs`; what is `seen` is what is allowed.
  unfoldable pub add_prefixes : List Prefix → List Text → Checked (List Prefix)
  add_prefixes seen [] = valid seen
  add_prefixes seen (value ∷ values) =
      add_prefix seen value (parse_prefix value) >>= λ seen'. add_prefixes seen' values

  module _ (l : Limiter) (global : Limiter) where
    pub record Policy : Type 0 where
      pub allowed : List Prefix
      pub clients : Table Ip ⦃e = ip_eq⦄ l
      pub max_entries : ℕ
      pub idle_timeout : ℕ
      pub response_limit : global.State

    unfoldable pub new_policy : Conf → Checked Policy
    new_policy conf = do
      (if ltb max_cidrs (length conf.allowed_client_cidrs)
          then invalid too_many_cidrs
          else valid tt)
      validate_limit conf.client_queries_per_second max_configured_rate
      validate_limit conf.client_burst max_configured_burst
      validate_limit conf.global_responses_per_second max_configured_rate
      validate_limit conf.global_response_burst max_configured_burst
      validate_limit conf.max_concurrent_upstreams max_concurrent_work
      validate_limit conf.max_tracked_clients max_client_state
      idle ← validate_timeout conf.client_idle_timeout
      prefixes ← add_prefixes [] conf.allowed_client_cidrs
      valid (record {
        allowed = prefixes;
        clients = record { entries = []; order = [] };
        max_entries = conf.max_tracked_clients;
        idle_timeout = idle;
        response_limit = global.fresh;
      })

    abbrev unmapped : Option Ip → Option Ip
    unmapped none = none
    unmapped (some ip) = some (unmap ip)

    unfoldable pub remote_ip : Addr → Option Ip
    remote_ip (udp ip) = unmapped (from_slice ip)
    remote_ip (tcp ip) = unmapped (from_slice ip)
    remote_ip (ip_only ip) = unmapped (from_slice ip)
    remote_ip (other _) = none
    remote_ip absent = none

    unfoldable pub is_allowed : Policy → Ip → Bool
    is_allowed p addr =
        let addr' = unmap addr in
        if is_loopback addr' then true else any (λ prefix. prefix_contains prefix addr') p.allowed

    pub data Admission : Type 0 where
      acl client_rate admitted : Admission

    abbrev pub after_allow : Policy → Table Ip ⦃e = ip_eq⦄ l × Bool → Policy × Admission
    after_allow p (t, passed) = (record p { clients = t }, if passed then admitted else client_rate)

    abbrev pub admit_ip : Policy → ℕ → Option Ip → Policy × Admission
    admit_ip p now none = (p, acl)
    admit_ip p now (some addr) =
        if is_allowed p addr
        then after_allow p (allow Ip ⦃e = ip_eq⦄ l p.idle_timeout p.max_entries addr now p.clients)
        else (p, acl)

    unfoldable pub admit : Policy → ℕ → Addr → Policy × Admission
    admit p now remote = admit_ip p now (remote_ip remote)

    abbrev with_limit : Policy → global.State × Bool → Policy × Bool
    with_limit p (s, passed) = (record p { response_limit = s }, passed)

    unfoldable pub allow_response : Policy → ℕ → Policy × Bool
    allow_response p now = with_limit p (global.allow_n p.response_limit now)
