-- ===== src/Limits/Exchange.antt =====
-- internal/httpapi/exchange_limiter.go: how often a client, and all of them, may exchange a code
-- for a token. `net.SplitHostPort` and the addresses of net/netip are an interface.
use tdns.Base.{
  Eq, nat_eq, Text, text_eq, ℕ, ◌≡◌, refl, Bool, true, false, Option, none, some, [], arith,
}
use tdns.Limits.Table.{Limiter, Table, touch, charge}
use tdns.Limits.Laws.{IsBounded, touch-IsBounded, charge-IsBounded}

pub record HostNet : Type 1 where
  pub Ip : Type 0
  pub ip_eq : Eq Ip
  -- the host, if the text is a host and a port
  pub split_host : Text → Option Text
  pub parse_addr : Text → Option Ip
  pub unmap : Ip → Ip

abbrev exchange_client_limit : ℕ
exchange_client_limit = 1024

-- 10 minutes
abbrev exchange_client_idle : ℕ
exchange_client_idle = 600000000000

module _ (n : HostNet) where
  open n use {Ip, ip_eq, split_host, parse_addr, unmap}

  abbrev unmapped : Option Ip → Option Ip
  unmapped none = none
  unmapped (some ip) = some (unmap ip)

  abbrev host_of : Text → Option Text → Text
  host_of remote none = remote
  host_of remote (some host) = host

  unfoldable pub remote_ip : Text → Option Ip
  remote_ip remote = unmapped (parse_addr (host_of remote (split_host remote)))

  module _ (l global : Limiter) where
    pub record ExchangeLimiter : Type 0 where
      pub global_limit : global.State
      pub clients : Table Ip ⦃e = ip_eq⦄ l

    unfoldable new_exchange_limiter : ExchangeLimiter
    new_exchange_limiter = record {
      global_limit = global.fresh;
      clients = record { entries = []; order = [] };
    }

    abbrev with_client : global.State → Table Ip ⦃e = ip_eq⦄ l × Bool → ExchangeLimiter × Bool
    with_client g (t, allowed) = (record { global_limit = g; clients = t }, allowed)

    -- `l.global.AllowN(now, 1) && entry.limiter.AllowN(now, 1)`: the client is not charged if
    -- the global limit refuses.
    abbrev and_client :
        Ip → ℕ → Table Ip ⦃e = ip_eq⦄ l → global.State × Bool → ExchangeLimiter × Bool
    and_client address now t (g, true) = with_client g (charge Ip ⦃e = ip_eq⦄ l address now t)
    and_client address now t (g, false) = (record { global_limit = g; clients = t }, false)

    abbrev allow_ip : ExchangeLimiter → ℕ → Option Ip → ExchangeLimiter × Bool
    allow_ip x now none = (x, false)
    allow_ip x now (some address) =
        and_client address now
          (touch Ip ⦃e = ip_eq⦄ l exchange_client_idle exchange_client_limit address now x.clients)
          (global.allow_n x.global_limit now)

    unfoldable allow_exchange : ExchangeLimiter → ℕ → Text → ExchangeLimiter × Bool
    allow_exchange x now remote = allow_ip x now (remote_ip remote)

    -- The table of clients is consistent, and holds at most 1024 of them.
    abbrev IsSoundExchange : ExchangeLimiter → Type 0
    IsSoundExchange x = IsBounded Ip ⦃e = ip_eq⦄ l exchange_client_limit x.clients

    and_client-IsSound :
        (address : Ip) (now : ℕ) (t : Table Ip ⦃e = ip_eq⦄ l) (r : global.State × Bool)
        → IsBounded Ip ⦃e = ip_eq⦄ l exchange_client_limit t
        → IsSoundExchange (and_client address now t r).0
    and_client-IsSound address now t (g, true) b =
        charge-IsBounded Ip ⦃e = ip_eq⦄ l exchange_client_limit address now t b
    and_client-IsSound address now t (g, false) b = b

    allow_ip-IsSound :
        (x : ExchangeLimiter) (now : ℕ) (o : Option Ip)
        → IsSoundExchange x
        → IsSoundExchange (allow_ip x now o).0
    allow_ip-IsSound x now none b = b
    allow_ip-IsSound x now (some address) b =
        and_client-IsSound address now
          (touch Ip ⦃e = ip_eq⦄ l exchange_client_idle exchange_client_limit address now x.clients)
          (global.allow_n x.global_limit now)
          (touch-IsBounded Ip ⦃e = ip_eq⦄ l exchange_client_idle exchange_client_limit address now
            x.clients (omega arith) b)

    -- Whatever addresses ask for an exchange, the table of clients stays consistent and holds at
    -- most 1024 of them.
    allow_exchange-IsSound :
        (x : ExchangeLimiter) (now : ℕ) (remote : Text)
        → IsSoundExchange x
        → IsSoundExchange (allow_exchange x now remote).0
    unfolding allow_exchange
    allow_exchange-IsSound x now remote b = allow_ip-IsSound x now (remote_ip remote) b

    -- An exchange that is allowed was allowed by the global limiter, and came from an address.
    allow_exchange_lem :
        (x : ExchangeLimiter) (now : ℕ) (remote : Text)
        → (allow_exchange x now remote).1 ≡ true
        → ((global.allow_n x.global_limit now).1 ≡ true) × ((a : Ip) × (remote_ip remote ≡ some a))
    unfolding allow_exchange
    allow_exchange_lem x now remote h = go (remote_ip remote) h
      where
        passed :
            (address : Ip) (t : Table Ip ⦃e = ip_eq⦄ l) (r : global.State × Bool)
            → (and_client address now t r).1 ≡ true
            → r.1 ≡ true
        passed address t (g, true) k = refl
        passed address t (g, false) k = cc

        go :
            (o : Option Ip)
            → (allow_ip x now o).1 ≡ true
            → ((global.allow_n x.global_limit now).1 ≡ true) × ((a : Ip) × (o ≡ some a))
        go none k = cc
        go (some a) k = (passed a _ (global.allow_n x.global_limit now) k, (a, refl))
