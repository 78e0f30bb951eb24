-- ===== src/Tokens/Manager.antt =====
-- internal/auth/manager.go and internal/auth/browser_code.go: what is issued, and what is accepted.
use tdns.Base.{
  ltb, leb, eqb, if◌then◌else◌, nat_eq, Text, text_eq, ◌==◌, is_empty, ℕ, ◌+◌, ◌-◌, ◌*◌, ◌⊎◌, inl,
  inr, Bool, true, false, not, ◌&&◌, ◌||◌, Option, none, some, [], ◌∷◌,
}
use tdns.Base.Maps.{lookup}
use tdns.Base.Strings.{trim_space}
use tdns.Sessions.Types.{one_second, unix, browser_code_purpose, scope_read, scope_write, Principal}
use tdns.Tokens.Types.{
  bearer_purpose, browser_code_audience, browser_code_ttl, maximum_lifetime, clock_skew, TokenError,
  persistent_key_required, empty_subject, unsupported_scope, bad_lifetime, no_identifier,
  not_signed, malformed, unverifiable, signature_invalid, token_expired, refused_claims,
  invalid_claims, invalid_purpose, insufficient_scope, no_key, Claims, Manager, ParseOptions, Jwt,
}

unfoldable pub scope_allows : Text → Text → Bool
scope_allows granted required =
    if required == scope_read
    then granted == scope_read || granted == scope_write
    else if required == scope_write
    then granted == scope_write
    else false

abbrev pub is_scope : Text → Bool
is_scope scope = scope == scope_read || scope == scope_write

module _ (j : Jwt) (m : Manager) where
  -- The claims of a new token; its dates are cut to seconds.
  abbrev pub new_claims : Text → Text → Text → Text → ℕ → ℕ → Text → Claims
  new_claims scope purpose subject audience now lifetime identifier = record {
    scope = scope;
    purpose = purpose;
    issuer = m.issuer;
    subject = subject;
    audience = audience ∷ [];
    expires_at = some (unix (now + lifetime));
    not_before = some (unix now);
    issued_at = some (unix now);
    id = identifier;
  }

  abbrev pub signed : Option Text → Text ⊎ TokenError
  signed none = inr not_signed
  signed (some token) = inl token

  abbrev sign_bearer : Text → Text → ℕ → ℕ → Option Text → Text ⊎ TokenError
  sign_bearer subject scope now lifetime none = inr no_identifier
  sign_bearer subject scope now lifetime (some identifier) = signed (
      j.sign m.active.value m.active.id
        (new_claims scope bearer_purpose subject m.bearer_audience now lifetime identifier))

  -- `issueBearer`, with the random identifier.
  unfoldable pub issue_bearer : Text → Text → ℕ → Bool → ℕ → Option Text → Text ⊎ TokenError
  issue_bearer subject scope lifetime allow_long_lived now identifier =
      if is_empty (trim_space subject)
      then inr empty_subject
      else if not (is_scope scope)
      then inr unsupported_scope
      else if eqb lifetime 0
      then inr bad_lifetime
      else if ltb maximum_lifetime lifetime && not allow_long_lived
      then inr bad_lifetime
      else sign_bearer (trim_space subject) scope now lifetime identifier

  abbrev pub sign_code_with : Text → Text → ℕ → ℕ → Text → Option Text → Text ⊎ TokenError
  sign_code_with subject scope now lifetime identifier none = inr no_key
  sign_code_with subject scope now lifetime identifier (some key) = signed (
      j.sign key m.active.id (
        new_claims scope browser_code_purpose subject browser_code_audience now lifetime
          identifier))

  abbrev sign_code : Text → Text → ℕ → ℕ → Option Text → Text ⊎ TokenError
  sign_code subject scope now lifetime none = inr no_identifier
  sign_code subject scope now lifetime (some identifier) =
      sign_code_with subject scope now lifetime identifier (j.derive m.active.value)

  unfoldable pub issue_browser_code : Text → Text → ℕ → ℕ → Option Text → Text ⊎ TokenError
  issue_browser_code subject scope lifetime now identifier =
      if not m.persistent
      then inr persistent_key_required
      else if is_empty (trim_space subject)
      then inr empty_subject
      else if not (is_scope scope)
      then inr unsupported_scope
      else if eqb lifetime 0 || ltb browser_code_ttl lifetime
      then inr bad_lifetime
      else sign_code (trim_space subject) scope now lifetime identifier

  abbrev accept_key : Text → ℕ → Option Text → Text ⊎ TokenError
  accept_key key_id now none = inr signature_invalid
  accept_key key_id now (some key) =
      if key_id == m.previous_id && leb m.previous_accept now then inr token_expired else inl key

  -- The key function of both parsers.
  unfoldable pub find_verification_key : ℕ → Option Text → Text ⊎ TokenError
  find_verification_key now none = inr unverifiable
  find_verification_key now (some key_id) =
      if not (j.is_key_id key_id)
      then inr unverifiable
      else accept_key key_id now (lookup key_id m.verification_keys)

  abbrev derived_key : Option Text → Text ⊎ TokenError
  derived_key none = inr no_key
  derived_key (some key) = inl key

  abbrev pub derived : Text ⊎ TokenError → Text ⊎ TokenError
  derived (inr e) = inr e
  derived (inl key) = derived_key (j.derive key)

  abbrev pub verify_with : ParseOptions → Text → Claims → Text ⊎ TokenError → Claims ⊎ TokenError
  verify_with options token claims (inr e) = inr e
  verify_with options token claims (inl key) =
      if not (j.verify token key)
      then inr signature_invalid
      else if not (j.accepts options claims)
      then inr refused_claims
      else inl claims

  -- `jwt.ParseWithClaims`, with the key that is found for an identifier.
  abbrev pub parse_with :
      ParseOptions
      → (Option Text → Text ⊎ TokenError)
      → Text
      → Option (Option Text × Claims)
      → Claims ⊎ TokenError
  parse_with options find token none = inr malformed
  parse_with options find token (some (key_id, claims)) =
      verify_with options token claims (find key_id)

  abbrev has_date : Option ℕ → Bool
  has_date none = false
  has_date (some t) = true

  abbrev pub has_all : Claims → Bool
  has_all c =
      has_date c.issued_at
      && (has_date c.not_before
          && (has_date c.expires_at
              && not (is_empty (trim_space c.id) || is_empty (trim_space c.subject))))

  -- Seconds of a date as nanoseconds.
  abbrev time_of : Option ℕ → ℕ
  time_of none = 0
  time_of (some t) = t * one_second

  abbrev pub principal_of : Claims → Principal
  principal_of c = record {
    purpose = c.purpose;
    token_id = c.id;
    subject = c.subject;
    scope = c.scope;
    expires_at = time_of c.expires_at;
  }

  abbrev pub check_bearer : Text → Claims ⊎ TokenError → Principal ⊎ TokenError
  check_bearer required (inr e) = inr e
  check_bearer required (inl c) =
      if not (has_all c)
      then inr invalid_claims
      else if not (c.purpose == bearer_purpose)
      then inr invalid_purpose
      else if not (scope_allows c.scope required)
      then inr insufficient_scope
      else inl (principal_of c)

  abbrev pub bearer_options : ℕ → ParseOptions
  bearer_options now = record {
    audience = m.bearer_audience;
    issuer = m.issuer;
    leeway = clock_skew;
    now = now;
  }

  unfoldable pub validate_bearer : Text → Text → ℕ → Principal ⊎ TokenError
  validate_bearer token required now =
      check_bearer required
        (parse_with (bearer_options now) (find_verification_key now) token (j.read token))

  abbrev pub check_code : Claims ⊎ TokenError → Principal ⊎ TokenError
  check_code (inr e) = inr e
  check_code (inl c) =
      if not (has_all c)
      then inr invalid_claims
      else if not (c.purpose == browser_code_purpose)
      then inr invalid_purpose
      else if not (is_scope c.scope)
      then inr invalid_claims
      else if ltb browser_code_ttl (time_of c.expires_at - time_of c.issued_at)
      then inr invalid_claims
      else inl (principal_of c)

  abbrev pub code_options : ℕ → ParseOptions
  code_options now = record {
    audience = browser_code_audience;
    issuer = m.issuer;
    leeway = 0;
    now = now;
  }

  unfoldable pub validate_browser_code : Text → ℕ → Principal ⊎ TokenError
  validate_browser_code token now = check_code (
      parse_with (code_options now) (λ key_id. derived (find_verification_key now key_id)) token
        (j.read token))
