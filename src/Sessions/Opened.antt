-- ===== src/Sessions/Opened.antt =====
-- A session that a code opens is usable until it expires.
use tdns.Base.{
  nat_eq, Text, text_eq, beq_refl, is_empty, any, ℕ, ◌*◌, ◌<◌, ◌≡◌, refl, subst, inl, true, false,
  none, List, [], ◌∷◌, ◌++◌, arith,
}
use tdns.Sessions.Tables.{SessionRow, TokenRow, Db, find_row, has_hash}
use tdns.Sessions.Types.{one_second, Principal, SessionOptions, Credentials, Secrets}
use tdns.Sessions.Store.{
  session_row, token_row, has_token, consume, redeem_code, check_row, get_session, validate_csrf,
}
use tdns.Sessions.Rows.{any_concat, find_row_concat}
use tdns.Sessions.Outcomes.{IsRedeemed, redeem_code-IsRedeemed, inserted}

module _ (hash_secret : Text → Text) where
  opened_row :
      (c : Credentials) (now : ℕ) (sessions : List SessionRow)
      → is_empty c.session_id ≡ false
      → now < c.session.expires_at * one_second
      → any (has_hash (hash_secret c.session_id)) sessions ≡ false
      → check_row hash_secret now (
          find_row
            (has_hash (hash_secret c.session_id))
            (sessions ++ session_row hash_secret c ∷ []))
        ≡ inl (session_row hash_secret c)
  opened_row c now sessions i live new =
      rw
        (find_row_concat (has_hash (hash_secret c.session_id)) sessions (session_row hash_secret c)
          new (beq_refl (hash_secret c.session_id)))
        (ground arith)

  own_token :
      (c : Credentials) (now : ℕ) (tokens : List TokenRow)
      → any
          (has_token hash_secret (hash_secret c.session_id) (hash_secret c.csrf_token))
          (tokens ++ token_row hash_secret (hash_secret c.session_id) c.csrf_token now ∷ [])
        ≡ true
  own_token c now tokens =
      any_concat _ tokens _
        (rw (beq_refl (hash_secret c.session_id), beq_refl (hash_secret c.csrf_token)) refl)

  -- The credentials that a code was exchanged for are accepted until the session expires: the
  -- session is found, with the subject and scope of the code, and its CSRF token is valid.
  pub get_session-redeem_code :
      (principal : Principal) (first now : ℕ) (requested : List SessionOptions) (secrets : Secrets)
      (db db' : Db) (c : Credentials)
      → redeem_code hash_secret principal first requested secrets db ≡ (db', inl c)
      → is_empty c.session_id ≡ false
      → is_empty c.csrf_token ≡ false
      → now < c.session.expires_at * one_second
      → (get_session hash_secret c.session_id now db' ≡ inl c.session)
        × (validate_csrf hash_secret c.session_id c.csrf_token now db' ≡ none)
        × (c.session.subject ≡ principal.subject)
        × (c.session.scope ≡ principal.scope)
  unfolding get_session validate_csrf
  get_session-redeem_code principal first now requested secrets db db' c h i k live =
      let (v, f, n, x, subject, scope, method) =
        subst (IsRedeemed hash_secret principal first db) h
          (redeem_code-IsRedeemed hash_secret principal first requested secrets db) in
      let (new, lives, same) =
        inserted hash_secret c first (consume hash_secret principal first db) db' x in
      let found = opened_row c now db.sessions i live new in
      (
        rw (same, i, found) refl,
        rw (same, i, k, found) (rw (own_token c first db.tokens) refl),
        subject,
        scope,
      )
