-- ===== src/Sessions/Types.antt =====
-- internal/browserauth/store.go: constants, options and credentials. A random secret is an argument,
-- none if the source of randomness failed.
use tdns.Base.{
  ltb, leb, eqb, if◌then◌else◌, nat_eq, Text, text_eq, ℕ, ◌+◌, ◌*◌, ◌/◌, ◌⊎◌, inl, inr, Bool, false,
  not, ◌&&◌, ◌||◌, Option, none, some, List, [], ◌∷◌,
}
use tdns.Base.Strings.{txt}

abbrev pub one_second : ℕ
one_second = 1000000000

-- `Unix()`
abbrev pub unix : ℕ → ℕ
unix t = t / one_second

abbrev pub max_csrf_tokens : ℕ
max_csrf_tokens = 8

-- `auth.BrowserSessionTTL`, and `MaxBrowserSessionTTL`.
abbrev browser_session_ttl : ℕ
browser_session_ttl = 12 * 3600 * one_second

abbrev max_browser_session_ttl : ℕ
max_browser_session_ttl = 30 * 24 * 3600 * one_second

abbrev pub browser_code_purpose : Text
browser_code_purpose = txt "browser-login"

abbrev pub scope_read : Text
scope_read = txt "tdns.kubewire.net:ro"

abbrev pub scope_write : Text
scope_write = txt "tdns.kubewire.net:rw"

abbrev pub method_browser_code : Text
method_browser_code = txt "browser_code"

abbrev pub method_password : Text
method_password = txt "password"

pub data SessionError : Type 0 where
  invalid_principal code_expired code_consumed session_not_found session_expired : SessionError
  invalid_csrf invalid_options no_random storage invalid_limit : SessionError
  unavailable invalid_name invalid_password invalid_credentials : SessionError

-- The fields of `auth.Principal` that a browser code has.
pub record Principal : Type 0 where
  pub purpose : Text
  pub token_id : Text
  pub subject : Text
  pub scope : Text
  pub expires_at : ℕ

-- Its times are whole seconds, and kept as their number.
pub record Session : Type 0 where
  pub subject : Text
  pub scope : Text
  pub authentication_method : Text
  pub persistent : Bool
  pub created_at : ℕ
  pub last_used : ℕ
  pub expires_at : ℕ

pub record SessionOptions : Type 0 where
  pub lifetime : ℕ
  pub persistent : Bool

pub record Credentials : Type 0 where
  pub session_id : Text
  pub csrf_token : Text
  pub session : Session

abbrev pub default_session_options : SessionOptions
default_session_options = record { lifetime = browser_session_ttl; persistent = false }

unfoldable pub resolve_session_options : List SessionOptions → SessionOptions ⊎ SessionError
resolve_session_options [] = inl default_session_options
resolve_session_options (options ∷ []) =
    if eqb options.lifetime 0 || ltb max_browser_session_ttl options.lifetime
    then inr invalid_options
    else if not options.persistent && not (eqb options.lifetime browser_session_ttl)
    then inr invalid_options
    else inl options
resolve_session_options (_ ∷ _ ∷ _) = inr invalid_options

-- The two secrets of `newSessionCredentials`.
pub record Secrets : Type 0 where
  pub session_id : Option Text
  pub csrf_token : Option Text

abbrev pub new_session : Text → Text → Text → ℕ → SessionOptions → Session
new_session subject scope method now options = record {
  subject = subject;
  scope = scope;
  authentication_method = method;
  persistent = options.persistent;
  created_at = unix now;
  last_used = unix now;
  expires_at = unix (now + options.lifetime);
}

abbrev pub with_secrets : Session → Option Text → Option Text → Credentials ⊎ SessionError
with_secrets session none csrf = inr no_random
with_secrets session (some id) none = inr no_random
with_secrets session (some id) (some csrf) =
    inl (record { session_id = id; csrf_token = csrf; session = session })

-- `newSessionCredentials`
abbrev pub new_session_credentials : Secrets → Session → Credentials ⊎ SessionError
new_session_credentials secrets session = with_secrets session secrets.session_id secrets.csrf_token

-- `!now.Before(...)` for a time in seconds.
abbrev pub is_past : ℕ → ℕ → Bool
is_past now expires_at = leb (expires_at * one_second) now
