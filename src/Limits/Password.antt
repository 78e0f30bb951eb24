-- ===== src/Limits/Password.antt =====
-- internal/httpapi/password_limiter.go: how often a password may be tried, by all, from a source
-- and for a username. The SHA-256 of a username is a parameter.
use tdns.Base.{
  if◌then◌else◌, Eq, nat_eq, Text, text_eq, ℕ, Bool, true, false, Option, none, some, [], arith,
}
use tdns.Limits.Table.{Limiter, Table, allow}
use tdns.Limits.Laws.{IsBounded, allow-IsBounded}
use tdns.Limits.Exchange.{HostNet, remote_ip}
use tdns.Base.{◌≡◌, refl}

abbrev password_limit_capacity : ℕ
password_limit_capacity = 1024

-- 15 minutes
abbrev password_limit_idle : ℕ
password_limit_idle = 900000000000

pub data PasswordLimitReason : Type 0 where
  allowed by_global by_source by_username : PasswordLimitReason

module _ (n : HostNet) (source_limiter username_limiter global : Limiter) {Digest : Type 0}
    ⦃digest_eq : Eq Digest⦄ (sha256 : Text → Digest) where
  pub record PasswordLimiter : Type 0 where
    pub global_limit : global.State
    pub sources : Table n.Ip ⦃e = n.ip_eq⦄ source_limiter
    pub usernames : Table Digest username_limiter

  unfoldable new_password_limiter : PasswordLimiter
  new_password_limiter = record {
    global_limit = global.fresh;
    sources = record { entries = []; order = [] };
    usernames = record { entries = []; order = [] };
  }

  -- `allowPasswordBucket`
  abbrev pub allow_password_bucket :
      (K : Type 0) ⦃e : Eq K⦄ (l : Limiter) → Table K l → K → ℕ → Table K l × Bool
  allow_password_bucket K l t k now = allow K l password_limit_idle password_limit_capacity k now t

  abbrev after_username :
      PasswordLimiter → Table Digest username_limiter × Bool → PasswordLimiter × PasswordLimitReason
  after_username x (t, passed) =
      (record x { usernames = t }, if passed then allowed else by_username)

  abbrev after_source :
      Digest
      → ℕ
      → PasswordLimiter
      → Table n.Ip ⦃e = n.ip_eq⦄ source_limiter × Bool
      → PasswordLimiter × PasswordLimitReason
  after_source d now x (t, false) = (record x { sources = t }, by_source)
  after_source d now x (t, true) =
      after_username (record x { sources = t })
        (allow_password_bucket Digest username_limiter x.usernames d now)

  abbrev after_global :
      n.Ip
      → Digest
      → ℕ
      → PasswordLimiter
      → global.State × Bool
      → PasswordLimiter × PasswordLimitReason
  after_global a d now x (g, false) = (record x { global_limit = g }, by_global)
  after_global a d now x (g, true) =
      after_source d now (record x { global_limit = g })
        (allow_password_bucket n.Ip ⦃e = n.ip_eq⦄ source_limiter x.sources a now)

  abbrev allow_from :
      PasswordLimiter → ℕ → Text → Option n.Ip → PasswordLimiter × PasswordLimitReason
  allow_from x now username none = (x, by_source)
  allow_from x now username (some a) =
      after_global a (sha256 username) now x (global.allow_n x.global_limit now)

  -- `Allow`
  unfoldable pub allow_password :
      PasswordLimiter → ℕ → Text → Text → PasswordLimiter × PasswordLimitReason
  allow_password x now remote username = allow_from x now username (remote_ip n remote)

  -- The two tables are consistent and within their capacity.
  abbrev IsSoundPassword : PasswordLimiter → Type 0
  IsSoundPassword x =
      IsBounded n.Ip ⦃e = n.ip_eq⦄ source_limiter password_limit_capacity x.sources
      × IsBounded Digest username_limiter password_limit_capacity x.usernames

  after_source-IsSound :
      (d : Digest) (now : ℕ) (x : PasswordLimiter)
      (r : Table n.Ip ⦃e = n.ip_eq⦄ source_limiter × Bool)
      → IsBounded n.Ip ⦃e = n.ip_eq⦄ source_limiter password_limit_capacity r.0
      → IsBounded Digest username_limiter password_limit_capacity x.usernames
      → IsSoundPassword (after_source d now x r).0
  after_source-IsSound d now x (t, false) b k = (b, k)
  after_source-IsSound d now x (t, true) b k = (
    b,
    allow-IsBounded Digest username_limiter password_limit_idle password_limit_capacity d now
        x.usernames (omega arith) k,
  )

  after_global-IsSound :
      (a : n.Ip) (d : Digest) (now : ℕ) (x : PasswordLimiter) (r : global.State × Bool)
      → IsSoundPassword x
      → IsSoundPassword (after_global a d now x r).0
  after_global-IsSound a d now x (g, false) s = s
  after_global-IsSound a d now x (g, true) s =
      after_source-IsSound d now (record x { global_limit = g })
        (allow_password_bucket n.Ip ⦃e = n.ip_eq⦄ source_limiter x.sources a now)
        (allow-IsBounded n.Ip ⦃e = n.ip_eq⦄ source_limiter password_limit_idle
          password_limit_capacity a now x.sources (omega arith) s.0)
        s.1

  allow_from-IsSound :
      (x : PasswordLimiter) (now : ℕ) (username : Text) (o : Option n.Ip)
      → IsSoundPassword x
      → IsSoundPassword (allow_from x now username o).0
  allow_from-IsSound x now username none s = s
  allow_from-IsSound x now username (some a) s =
      after_global-IsSound a (sha256 username) now x (global.allow_n x.global_limit now) s

  -- Whoever tries whatever usernames, the tables of sources and of usernames stay consistent and
  -- hold at most 1024 entries each.
  allow_password-IsSound :
      (x : PasswordLimiter) (now : ℕ) (remote username : Text)
      → IsSoundPassword x
      → IsSoundPassword (allow_password x now remote username).0
  unfolding allow_password
  allow_password-IsSound x now remote username s =
      allow_from-IsSound x now username (remote_ip n remote) s

  -- A password may be tried only if the limiters of all, of the source and of the username allow it.
  pub allow_password_lem :
      (x : PasswordLimiter) (now : ℕ) (remote username : Text)
      → (allow_password x now remote username).1 ≡ allowed
      → (a : n.Ip) × (remote_ip n remote ≡ some a)
        × ((global.allow_n x.global_limit now).1 ≡ true)
        × ((allow_password_bucket n.Ip ⦃e = n.ip_eq⦄ source_limiter x.sources a now).1 ≡ true)
        × ((allow_password_bucket Digest username_limiter x.usernames (sha256 username) now).1
            ≡ true)
  unfolding allow_password
  allow_password_lem x now remote username h = go (remote_ip n remote) h
    where
      by_table :
          (y : PasswordLimiter) (r : Table Digest username_limiter × Bool)
          → (after_username y r).1 ≡ allowed
          → r.1 ≡ true
      by_table y (t, true) k = refl
      by_table y (t, false) k = cc

      by_sources :
          (d : Digest) (y : PasswordLimiter) (r : Table n.Ip ⦃e = n.ip_eq⦄ source_limiter × Bool)
          → (after_source d now y r).1 ≡ allowed
          → (r.1 ≡ true)
            × ((allow_password_bucket Digest username_limiter y.usernames d now).1 ≡ true)
      by_sources d y (t, true) k = (
        refl,
        by_table (record y { sources = t })
            (allow_password_bucket Digest username_limiter y.usernames d now) k,
      )
      by_sources d y (t, false) k = cc

      by_all :
          (a : n.Ip) (d : Digest) (r : global.State × Bool)
          → (after_global a d now x r).1 ≡ allowed
          → (r.1 ≡ true)
            × ((allow_password_bucket n.Ip ⦃e = n.ip_eq⦄ source_limiter x.sources a now).1 ≡ true)
            × ((allow_password_bucket Digest username_limiter x.usernames d now).1 ≡ true)
      by_all a d (g, true) k =
          let (source, username) =
            by_sources d (record x { global_limit = g })
              (allow_password_bucket n.Ip ⦃e = n.ip_eq⦄ source_limiter x.sources a now) k in
          (refl, source, username)
      by_all a d (g, false) k = cc

      go :
          (o : Option n.Ip)
          → (allow_from x now username o).1 ≡ allowed
          → (a : n.Ip) × (o ≡ some a)
            × ((global.allow_n x.global_limit now).1 ≡ true)
            × ((allow_password_bucket n.Ip ⦃e = n.ip_eq⦄ source_limiter x.sources a now).1 ≡ true)
            × ((allow_password_bucket Digest username_limiter x.usernames (sha256 username) now).1
                ≡ true)
      go none k = cc
      go (some a) k =
          let (p, q, r) = by_all a (sha256 username) (global.allow_n x.global_limit now) k in
          (a, refl, p, q, r)
