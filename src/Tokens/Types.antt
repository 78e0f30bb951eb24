-- ===== src/Tokens/Types.antt =====
-- internal/auth/manager.go: claims, keys and the manager; what the code asks of the library for JSON web
-- tokens.
use tdns.Base.{nat_eq, Text, text_eq, ℕ, ◌*◌, Bool, Option, List}
use tdns.Base.Strings.{txt}
use tdns.Sessions.Types.{one_second}

abbrev pub bearer_purpose : Text
bearer_purpose = txt "api-bearer"

abbrev pub browser_code_audience : Text
browser_code_audience = txt "tdns-browser-exchange"

-- `BrowserCodeTTL`, in nanoseconds as all durations.
abbrev pub browser_code_ttl : ℕ
browser_code_ttl = 120 * one_second

-- `MaximumTokenDays`, as a duration.
abbrev pub maximum_lifetime : ℕ
maximum_lifetime = 180 * 24 * 3600 * one_second

abbrev pub clock_skew : ℕ
clock_skew = 30 * one_second

pub data TokenError : Type 0 where
  persistent_key_required empty_subject unsupported_scope bad_lifetime no_identifier : TokenError
  not_signed malformed unverifiable signature_invalid token_expired refused_claims : TokenError
  invalid_claims invalid_purpose insufficient_scope no_key : TokenError

-- A date of a token is a number of seconds, none if it is missing.
pub record Claims : Type 0 where
  pub scope : Text
  pub purpose : Text
  pub issuer : Text
  pub subject : Text
  pub audience : List Text
  pub expires_at : Option ℕ
  pub not_before : Option ℕ
  pub issued_at : Option ℕ
  pub id : Text

pub record SigningKey : Type 0 where
  pub id : Text
  pub value : Text

-- No previous key is the empty identifier.
pub record Manager : Type 0 where
  pub issuer : Text
  pub bearer_audience : Text
  pub active : SigningKey
  pub verification_keys : List (Text × Text)
  pub previous_accept : ℕ
  pub previous_id : Text
  pub persistent : Bool

pub record ParseOptions : Type 0 where
  pub audience : Text
  pub issuer : Text
  pub leeway : ℕ
  pub now : ℕ

-- What stands for github.com/golang-jwt/jwt, crypto/hkdf and the pattern of key identifiers. `read`
-- takes a token of the method HS512 apart, into the identifier of its key, if it has one, and its claims;
-- `accepts` checks the claims against the options, an expiry required.
pub record Jwt : Type 0 where
  pub sign : Text → Text → Claims → Option Text
  pub read : Text → Option (Option Text × Claims)
  pub verify : Text → Text → Bool
  pub accepts : ParseOptions → Claims → Bool
  pub derive : Text → Option Text
  pub is_key_id : Text → Bool
