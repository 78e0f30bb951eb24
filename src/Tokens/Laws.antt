-- ===== src/Tokens/Laws.antt =====
-- What a token that is accepted was issued as.
use tdns.Base.{
  nat_eq, Text, text_beq, text_beq_iff, text_eq, ◌==◌, Bool-cases, ℕ, ◌≡◌, refl, sym, ap, ◌∙◌, ◌⊎◌,
  inl, inr, Option, none, some, arith,
}
use tdns.Sessions.Types.{Principal}
use tdns.Tokens.Types.{
  bearer_purpose, TokenError, signature_invalid, refused_claims, invalid_claims, invalid_purpose,
  Claims, Manager, ParseOptions, Jwt,
}
use tdns.Tokens.Manager.{
  find_verification_key, derived, verify_with, parse_with, has_all, check_bearer, bearer_options,
  validate_bearer, check_code, code_options, validate_browser_code,
}

module _ (j : Jwt) (m : Manager) where
  -- Both parsers give the claims that stand in the token, or an error.
  parse_cases :
      (options : ParseOptions) (find : Option Text → Text ⊎ TokenError) (token : Text)
      (key_id : Option Text) (c : Claims)
      → (parse_with j m options find token (some (key_id, c)) ≡ inl c)
        ⊎ ((e : TokenError) × (parse_with j m options find token (some (key_id, c)) ≡ inr e))
  parse_cases options find token key_id c = verified (find key_id)
    where
      verified :
          (k : Text ⊎ TokenError)
          → (verify_with j m options token c k ≡ inl c)
            ⊎ ((e : TokenError) × (verify_with j m options token c k ≡ inr e))
      verified (inr e) = inr (e, refl)
      verified (inl key) = elim (Bool-cases (j.verify token key)) [
        | inl v ↦ elim (Bool-cases (j.accepts options c)) [
          | inl a ↦ inl (rw (v, a) refl)
          | inr a ↦ inr (refused_claims, rw (v, a) refl)
        ]
        | inr v ↦ inr (signature_invalid, rw v refl)
      ]

  bearer_is_bearer :
      (required : Text) (c : Claims) (p : Principal)
      → check_bearer j m required (inl c) ≡ inl p
      → c.purpose ≡ bearer_purpose
  bearer_is_bearer required c p h = elim (Bool-cases (has_all j m c)) [
    | inl a ↦ elim (Bool-cases (c.purpose == bearer_purpose)) [
      | inl b ↦ (text_beq_iff c.purpose bearer_purpose).0 b
      | inr b ↦ absurd (ground arith)
    ]
    | inr a ↦ absurd (ground arith)
  ]

  code_is_no_bearer :
      (c : Claims)
      → c.purpose ≡ bearer_purpose
      → (e : TokenError) × (check_code j m (inl c) ≡ inr e)
  unfolding text_beq
  code_is_no_bearer c h = elim (Bool-cases (has_all j m c)) [
    | inl a ↦ (invalid_purpose, rw (a, h) refl)
    | inr a ↦ (invalid_claims, rw a refl)
  ]

  read_is_bearer :
      (token required : Text) (now later : ℕ) (p : Principal) (o : Option (Option Text × Claims))
      → check_bearer j m required
          (parse_with j m (bearer_options j m now) (find_verification_key j m now) token o)
        ≡ inl p
      → (e : TokenError) × (check_code j m (
            parse_with j m
              (code_options j m later)
              (λ k. derived j m (find_verification_key j m later k))
              token
              o)
          ≡ inr e)
  read_is_bearer token required now later p none h = cc
  read_is_bearer token required now later p (some (key_id, c)) h =
      elim (parse_cases (bearer_options j m now) (find_verification_key j m now) token key_id c) [
        | inr (e, q) ↦ absurd (ground (arith, ap (check_bearer j m required) q))
        | inl q ↦
            elim (parse_cases (code_options j m later)
              (λ k. derived j m (find_verification_key j m later k)) token key_id c) [
                | inr (e, q') ↦ (e, ap (check_code j m) q')
                | inl q' ↦
                    let (e, x) = code_is_no_bearer c (
                      bearer_is_bearer required c p (sym (ap (check_bearer j m required) q) ∙ h)) in
                    (e, ap (check_code j m) q' ∙ x)
              ]
      ]

  -- A token that is accepted as a bearer token of the API is never accepted as a code for a browser,
  -- at any time, whatever the library for tokens does.
  pub validate_browser_code_of_bearer :
      (token required : Text) (now later : ℕ) (p : Principal)
      → validate_bearer j m token required now ≡ inl p
      → (e : TokenError) × (validate_browser_code j m token later ≡ inr e)
  unfolding validate_bearer validate_browser_code
  validate_browser_code_of_bearer token required now later p h =
      read_is_bearer token required now later p (j.read token) h
