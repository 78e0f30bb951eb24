-- ===== src/Limits/Attempts.antt =====
-- Examples of the limiters of the HTTP API.
use tdns.Base.{if◌then◌else◌, nat_eq, Text, text_eq, is_empty, ◌≡◌, refl, true, none, some, []}
use tdns.Base.Strings.{txt}
use tdns.Limits.Tests.{bucket}
use tdns.Limits.Exchange.{HostNet, remote_ip, ExchangeLimiter}
use tdns.Limits.Password.{
  PasswordLimiter, allow_password_bucket, allow_password, allow_password_lem,
}

abbrev text_host : HostNet
text_host = record {
  Ip = Text;
  ip_eq = text_eq;
  split_host = λ t. none;
  parse_addr = λ t. if is_empty t then none else some t;
  unmap = λ ip. ip;
}

abbrev exchanges : ExchangeLimiter text_host bucket bucket
exchanges = record { global_limit = 1; clients = record { entries = []; order = [] } }

abbrev passwords : PasswordLimiter text_host bucket bucket bucket (λ t. t)
passwords = record {
  global_limit = 1;
  sources = record { entries = []; order = [] };
  usernames = record { entries = []; order = [] };
}

allow_password_example :
    (a : Text) × (remote_ip text_host (txt "10.0.0.9") ≡ some a)
    × ((bucket.allow_n passwords.global_limit 60).1 ≡ true)
    × ((allow_password_bucket text_host bucket bucket bucket
          (λ t. t)
          Text
          bucket
          passwords.sources
          a
          60).1
        ≡ true)
    × ((allow_password_bucket text_host bucket bucket bucket
          (λ t. t)
          Text
          bucket
          passwords.usernames
          (txt "admin")
          60).1
        ≡ true)
unfolding allow_password remote_ip tdns.Limits.Table.allow tdns.Limits.Table.charge
    tdns.Limits.Table.charge_order tdns.Limits.Table.touch tdns.Base.contains
    tdns.Limits.Table.remove_idle tdns.Base.text_beq
allow_password_example =
    allow_password_lem text_host bucket bucket bucket (λ t. t) passwords 60 (txt "10.0.0.9")
      (txt "admin") refl
