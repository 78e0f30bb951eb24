-- ===== src/Blocklist/Redirect.antt =====
-- internal/blocklist/client.go: `redirectPolicy`, which hosts a request of the client may be sent on to,
-- and whether it carries the token there.
use tdns.Base.{
  ltb, if◌then◌else◌, nat_eq, Text, text_eq, ◌==◌, length, contains, ℕ, ◌⊎◌, inl, inr, Bool, true,
  not, ◌&&◌, ◌||◌, List, [], ◌∷◌,
}
use tdns.Base.Strings.{txt, to_lower}
use tdns.Blocklist.Types.{RefreshKind, kind_redirect_rejected}

pub record Target : Type 0 where
  pub scheme : Text
  pub hostname : Text
  pub has_user : Bool

abbrev allowed_hosts : List Text
allowed_hosts =
    txt "api.github.com"
    ∷ txt "raw.githubusercontent.com"
    ∷ txt "objects.githubusercontent.com"
    ∷ []

-- Whether the request still has its `Authorization`.
abbrev keeps_token : Target → List Target → Bool
keeps_token req [] = true
keeps_token req (first ∷ via) = to_lower req.hostname == to_lower first.hostname

-- The kind of the error, or whether the token stays.
unfoldable redirect_policy : ℕ → Bool → Target → List Target → Bool ⊎ RefreshKind
redirect_policy max_redirects allow_http req via =
    if ltb max_redirects (length via)
    then inr kind_redirect_rejected
    else if req.has_user || (not allow_http && not (req.scheme == txt "https"))
    then inr kind_redirect_rejected
    else if not allow_http && not (contains allowed_hosts (to_lower req.hostname))
    then inr kind_redirect_rejected
    else inl (keeps_token req via)
