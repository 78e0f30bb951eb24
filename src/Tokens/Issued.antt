-- ===== src/Tokens/Issued.antt =====
-- A code that was issued is accepted until it expires.
use tdns.Base.{
  ltb, eqb, nat_eq, Text, text_eq, ◌==◌, beq_refl, if_elim, is_empty, contains, ℕ, ◌+◌, ◌-◌, ◌*◌,
  ◌≤◌, ◌<◌, ◌≡◌, refl, subst, ◌⊎◌, inl, inr, true, false, not, ◌||◌, Option, none, some, arith,
}
use tdns.Base.Maps.{lookup}
use tdns.Base.Strings.{trim_space, trim_space_idem}
use tdns.Sessions.Types.{one_second, unix, browser_code_purpose, Principal}
use tdns.Tokens.Types.{
  browser_code_audience, browser_code_ttl, TokenError, Claims, Manager, ParseOptions, Jwt,
}
use tdns.Tokens.Manager.{
  is_scope, new_claims, signed, sign_code_with, issue_browser_code, find_verification_key,
  principal_of, code_options, validate_browser_code,
}

module _ (j : Jwt) (m : Manager) where
  -- What the library promises of a token that it signed, and of claims that are current.
  pub record IsJwt : Type 0 where
    pub read-sign :
        (key key_id : Text) (c : Claims) (token : Text)
        → j.sign key key_id c ≡ some token
        → (j.read token ≡ some (some key_id, c)) × (j.verify token key ≡ true)
    pub accepts_current :
        (o : ParseOptions) (c : Claims) (e i : ℕ)
        → contains c.audience o.audience ≡ true
        → c.issuer ≡ o.issuer
        → c.expires_at ≡ some e
        → o.now < e * one_second
        → c.issued_at ≡ some i
        → c.not_before ≡ some i
        → i * one_second ≤ o.now
        → j.accepts o c ≡ true

  -- The active key is one of the keys, and not the previous one.
  pub record IsManager : Type 0 where
    pub named : j.is_key_id m.active.id ≡ true
    pub known : lookup m.active.id m.verification_keys ≡ some m.active.value
    pub current : (m.active.id == m.previous_id) ≡ false

  abbrev IsIssued : Text → Text → ℕ → ℕ → Text → Text ⊎ TokenError → Type 0
  IsIssued subject scope lifetime now identifier (inr e) = Unit
  IsIssued subject scope lifetime now identifier (inl token) =
      (is_empty (trim_space subject) ≡ false)
      × (is_scope scope ≡ true)
      × (lifetime ≤ browser_code_ttl)
      × ((key : Text) × (j.derive m.active.value ≡ some key)
          × (j.sign key m.active.id (
                new_claims j m scope browser_code_purpose (trim_space subject) browser_code_audience
                  now lifetime identifier)
              ≡ some token))

  signed-IsIssued :
      (subject scope : Text) (lifetime now : ℕ) (identifier : Text) (k : Option Text)
      → j.derive m.active.value ≡ k
      → is_empty (trim_space subject) ≡ false
      → is_scope scope ≡ true
      → lifetime ≤ browser_code_ttl
      → IsIssued subject scope lifetime now identifier
          (sign_code_with j m (trim_space subject) scope now lifetime identifier k)
  signed-IsIssued subject scope lifetime now identifier none d a b c = tt
  signed-IsIssued subject scope lifetime now identifier (some key) d a b c = of_signed _ refl
    where
      of_signed :
          (t : Option Text)
          → j.sign key m.active.id (
              new_claims j m scope browser_code_purpose
                (trim_space subject)
                browser_code_audience
                now
                lifetime
                identifier)
            ≡ t
          → IsIssued subject scope lifetime now identifier (signed j m t)
      of_signed none e = tt
      of_signed (some token) e = (a, b, c, (key, d, e))

  issue_browser_code-IsIssued :
      (subject scope : Text) (lifetime now : ℕ) (identifier : Text)
      → IsIssued subject scope lifetime now identifier
          (issue_browser_code j m subject scope lifetime now (some identifier))
  unfolding issue_browser_code
  issue_browser_code-IsIssued subject scope lifetime now identifier =
      let P = IsIssued subject scope lifetime now identifier in
      if_elim {A = Text ⊎ TokenError} P (not m.persistent) _ _ (λ _. tt)
        λ _.
          if_elim {A = Text ⊎ TokenError} P (is_empty (trim_space subject)) _ _ (λ _. tt)
            λ a.
              if_elim {A = Text ⊎ TokenError} P (not (is_scope scope)) _ _ (λ _. tt)
                λ b.
                  if_elim {A = Text ⊎ TokenError} P
                    (eqb lifetime 0 || ltb browser_code_ttl lifetime) _ _ (λ _. tt)
                    λ c.
                      signed-IsIssued subject scope lifetime now identifier _ refl a (ground arith)
                        (ground arith)

  found_active :
      (laws : IsManager) (now : ℕ)
      → find_verification_key j m now (some m.active.id) ≡ inl m.active.value
  unfolding find_verification_key
  found_active laws now = rw (laws.named, laws.known, laws.current) refl

  whole_seconds :
      (now lifetime : ℕ)
      → lifetime ≤ browser_code_ttl
      → unix (now + lifetime) * one_second - unix now * one_second ≤ browser_code_ttl
  whole_seconds now lifetime h = omega arith

  -- A code that was issued is accepted, without the leeway of the bearer tokens, from then until the
  -- second of its expiry, and names the trimmed subject, the scope and the purpose that it was
  -- issued for.
  pub validate_browser_code-issue_browser_code :
      (laws : IsJwt) (active : IsManager) (subject scope : Text) (lifetime now later : ℕ)
      (identifier token : Text)
      → issue_browser_code j m subject scope lifetime now (some identifier) ≡ inl token
      → is_empty (trim_space identifier) ≡ false
      → now ≤ later
      → later < unix (now + lifetime) * one_second
      → validate_browser_code j m token later
        ≡ inl (record {
          purpose = browser_code_purpose;
          token_id = identifier;
          subject = trim_space subject;
          scope = scope;
          expires_at = unix (now + lifetime) * one_second;
        })
  unfolding validate_browser_code contains
  validate_browser_code-issue_browser_code laws active subject scope lifetime now later identifier
        token h n a b =
      let (named, scoped, short, (key, d, s)) =
        subst (IsIssued subject scope lifetime now identifier) h
          (issue_browser_code-IsIssued subject scope lifetime now identifier) in
      let claims =
        new_claims j m scope browser_code_purpose (trim_space subject) browser_code_audience now
          lifetime identifier in
      let (read, verified) = laws.read-sign key m.active.id claims token s in
      let accepted =
        laws.accepts_current (code_options j m later) claims (unix (now + lifetime)) (unix now)
          (rw (beq_refl browser_code_audience) refl) refl refl b refl refl (omega arith) in
      rw
        (
          read,
          found_active active later,
          d,
          verified,
          accepted,
          n,
          trim_space_idem subject,
          named,
          beq_refl browser_code_purpose,
          scoped,
        )
        (if_elim {A = Principal ⊎ TokenError} (λ r. r ≡ inl (principal_of j m claims))
          (ltb browser_code_ttl (unix (now + lifetime) * one_second - unix now * one_second)) _ _
          (λ long. absurd (ground (arith, whole_seconds now lifetime short))) (λ _. refl))
