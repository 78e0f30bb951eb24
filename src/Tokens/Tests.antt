-- ===== src/Tokens/Tests.antt =====
-- Libraries for tokens, one that reads a bearer token and one that signs a code and reads it back, and
-- a manager with one key.

use native.Mathlib.Decide.{ℕ_discrete}
use tdns.Base.{
  ltb, if◌then◌else◌, nat_eq, Text, text_beq, text_eq, ◌==◌, contains, ℕ, ◌*◌, ◌≡◌, refl, sym, ap,
  subst, inl, inr, Bool, true, false, ◌&&◌, Option, none, some, [], ◌∷◌, arith,
}
use tdns.Base.Maps.{lookup}
use tdns.Base.Strings.{txt, trim_left, trim_right}
use tdns.Sessions.Types.{one_second, browser_code_purpose, scope_read}
use tdns.Tokens.Types.{bearer_purpose, browser_code_audience, TokenError, Claims, Manager, Jwt}
use tdns.Tokens.Manager.{
  scope_allows, signed, issue_browser_code, find_verification_key, derived, principal_of,
  validate_bearer, validate_browser_code,
}
use tdns.Tokens.Issued.{IsJwt, IsManager, validate_browser_code-issue_browser_code}
use tdns.Tokens.Laws.{validate_browser_code_of_bearer}

abbrev one_key : Manager
one_key = record {
  issuer = txt "tdns";
  bearer_audience = txt "api";
  active = record { id = txt "k1"; value = txt "secret" };
  verification_keys = (txt "k1", txt "secret") ∷ [];
  previous_accept = 0;
  previous_id = [];
  persistent = true;
}

abbrev code_claims : Claims
code_claims = record {
  scope = scope_read;
  purpose = browser_code_purpose;
  issuer = txt "tdns";
  subject = txt "ops";
  audience = browser_code_audience ∷ [];
  expires_at = some 70;
  not_before = some 10;
  issued_at = some 10;
  id = txt "id1";
}

abbrev bearer_claims : Claims
bearer_claims = record code_claims { purpose = bearer_purpose; audience = txt "api" ∷ [] }

abbrev toy_read : Text → Option (Option Text × Claims)
toy_read token = if token == txt "b" then some (some (txt "k1"), bearer_claims) else none

abbrev toy : Jwt
toy = record {
  sign = λ key key_id c. none;
  read = toy_read;
  verify = λ token key. true;
  accepts = λ o c. contains c.audience o.audience;
  derive = λ key. some key;
  is_key_id = λ k. true;
}

abbrev Signed : Type 0
Signed = Text × (Text × Claims)

Signed-discrete : Discrete Signed
Signed-discrete = hlevel (ℕ_discrete)

abbrev code_signed : Signed
code_signed = (txt "derived", (txt "k1", code_claims))

-- A library that signs one code with the key derived from the active one, and reads it back.
abbrev sign_one : (s : Signed) → Dec (s ≡ code_signed) → Option Text
sign_one s (no n) = none
sign_one s (yes p) = some (txt "code")

abbrev is_before : ℕ → Option ℕ → Bool
is_before now none = false
is_before now (some e) = ltb now (e * one_second)

abbrev signer : Jwt
signer = record {
  sign =
      λ key key_id c. sign_one (key, (key_id, c)) (Signed-discrete (key, (key_id, c)) code_signed);
  read = λ token. if token == txt "code" then some (some (txt "k1"), code_claims) else none;
  verify = λ token key. key == txt "derived";
  accepts = λ o c. contains c.audience o.audience && is_before o.now c.expires_at;
  derive = λ key. if key == txt "secret" then some (txt "derived") else none;
  is_key_id = λ k. k == txt "k1";
}

read-sign_one :
    (s : Signed) (token : Text) (d : Dec (s ≡ code_signed))
    → sign_one s d ≡ some token
    → (signer.read token ≡ some (some s.1.0, s.1.1)) × (signer.verify token s.0 ≡ true)
unfolding text_beq
read-sign_one s token (no n) h = cc
read-sign_one s token (yes p) h =
    let same : txt "code" ≡ token = cc in
    subst (λ s. (signer.read token ≡ some (some s.1.0, s.1.1)) × (signer.verify token s.0 ≡ true))
      (sym p)
      (subst (λ t. (signer.read t ≡ some (some (txt "k1"), code_claims)) × (true ≡ true)) same
        (refl, refl))

signer-IsJwt : IsJwt signer one_key
signer-IsJwt = record {
  read-sign = λ key key_id c token h.
      read-sign_one (key, (key_id, c)) token (Signed-discrete (key, (key_id, c)) code_signed) h;
  accepts_current = λ o c e i a b x later y z w. rw (a, x) (ground arith);
}

one_key-IsManager : IsManager signer one_key
unfolding lookup text_beq
one_key-IsManager = record { named = refl; known = refl; current = refl }

signed_one : (d : Dec (code_signed ≡ code_signed)) → sign_one code_signed d ≡ some (txt "code")
signed_one (no n) = absurd (n refl)
signed_one (yes p) = refl

issued_one :
    issue_browser_code signer one_key
      (txt " ops ")
      scope_read
      (60 * one_second)
      (10 * one_second)
      (some (txt "id1"))
    ≡ inl (txt "code")
unfolding issue_browser_code trim_right Signed-discrete trim_left ℕ_discrete text_beq
issued_one = ap (signed signer one_key) (signed_one (Signed-discrete code_signed code_signed))

validate_browser_code-issue_browser_code_example :
    validate_browser_code signer one_key (txt "code") (30 * one_second)
    ≡ inl (record {
      purpose = browser_code_purpose;
      token_id = txt "id1";
      subject = txt "ops";
      scope = scope_read;
      expires_at = 70 * one_second;
    })
unfolding trim_right trim_left
validate_browser_code-issue_browser_code_example =
    validate_browser_code-issue_browser_code signer one_key signer-IsJwt one_key-IsManager
      (txt " ops ") scope_read (60 * one_second) (10 * one_second) (30 * one_second) (txt "id1")
      (txt "code") issued_one refl (omega arith) (omega arith)

validate_browser_code_of_bearer_example :
    (e : TokenError) × (validate_browser_code toy one_key (txt "b") 20 ≡ inr e)
unfolding tdns.Tokens.Manager.validate_bearer tdns.Base.text_beq
    tdns.Tokens.Manager.find_verification_key tdns.Base.Maps.lookup contains
    tdns.Base.Strings.trim_right tdns.Base.Strings.trim_left tdns.Tokens.Manager.scope_allows
validate_browser_code_of_bearer_example =
    validate_browser_code_of_bearer toy one_key (txt "b") scope_read 15 20
      (principal_of toy one_key bearer_claims) refl
