-- ===== src/Sessions/Outcomes.antt =====
-- What a success and a failure of the operations that open a session mean.
use tdns.Base.{
  leb, nat_eq, Text, text_eq, if_elim, any, ℕ, ◌<◌, ◌≡◌, refl, subst, ◌⊎◌, inl, inr, false, ◌||◌,
  Option, none, some, List, [], ◌∷◌, ◌++◌, arith,
}
use tdns.Sessions.Tables.{Db, has_hash, is_code}
use tdns.Sessions.Types.{
  method_browser_code, SessionError, Principal, Session, SessionOptions, Credentials, Secrets,
  with_secrets,
}
use tdns.Sessions.Store.{
  session_row, token_row, has_token, insert_session, commit_session, consume, consume_and_insert,
  redeem_with, is_invalid, redeem_code,
}

module _ (hash_secret : Text → Text) where
  -- A failure changes nothing. A success had a code that was neither expired nor consumed, consumed it,
  -- and inserted a session with its subject and scope.
  abbrev pub IsRedeemed : Principal → ℕ → Db → Db × (Credentials ⊎ SessionError) → Type 0
  IsRedeemed principal now db (db', inr e) = db' ≡ db
  IsRedeemed principal now db (db', inl c) =
      (is_invalid hash_secret principal ≡ false)
      × (now < principal.expires_at)
      × (any (is_code (hash_secret principal.token_id)) db.codes ≡ false)
      × (insert_session hash_secret c now (consume hash_secret principal now db) ≡ inl db')
      × (c.session.subject ≡ principal.subject)
      × (c.session.scope ≡ principal.scope)
      × (c.session.authentication_method ≡ method_browser_code)

  commit-IsRedeemed :
      (principal : Principal) (now : ℕ) (db : Db) (c : Credentials) (r : Db ⊎ SessionError)
      → is_invalid hash_secret principal ≡ false
      → now < principal.expires_at
      → any (is_code (hash_secret principal.token_id)) db.codes ≡ false
      → insert_session hash_secret c now (consume hash_secret principal now db) ≡ r
      → (c.session.subject ≡ principal.subject)
        × (c.session.scope ≡ principal.scope)
        × (c.session.authentication_method ≡ method_browser_code)
      → IsRedeemed principal now db (commit_session hash_secret db c r)
  commit-IsRedeemed principal now db c (inr e) v f n h s = refl
  commit-IsRedeemed principal now db c (inl db') v f n h (s, p, m) = (v, f, n, h, s, p, m)

  consumed-IsRedeemed :
      (principal : Principal) (now : ℕ) (db : Db) (session : Session) (id csrf : Option Text)
      → is_invalid hash_secret principal ≡ false
      → now < principal.expires_at
      → (session.subject ≡ principal.subject)
        × (session.scope ≡ principal.scope)
        × (session.authentication_method ≡ method_browser_code)
      → IsRedeemed principal now db
          (consume_and_insert hash_secret principal now db (with_secrets session id csrf))
  consumed-IsRedeemed principal now db session none csrf v f s = refl
  consumed-IsRedeemed principal now db session (some id) none v f s = refl
  consumed-IsRedeemed principal now db session (some id) (some csrf) v f s =
      if_elim {A = Db × (Credentials ⊎ SessionError)} (IsRedeemed principal now db)
        (any (is_code (hash_secret principal.token_id)) db.codes) _ _ (λ _. refl)
        (λ n. commit-IsRedeemed principal now db _ _ v f n refl s)

  with-IsRedeemed :
      (principal : Principal) (now : ℕ) (secrets : Secrets) (db : Db)
      (options : SessionOptions ⊎ SessionError)
      → is_invalid hash_secret principal ≡ false
      → now < principal.expires_at
      → IsRedeemed principal now db (redeem_with hash_secret principal now secrets db options)
  with-IsRedeemed principal now secrets db (inr e) v f = refl
  with-IsRedeemed principal now secrets db (inl options) v f =
      consumed-IsRedeemed principal now db _ secrets.session_id secrets.csrf_token v f
        (refl, refl, refl)

  pub redeem_code-IsRedeemed :
      (principal : Principal) (now : ℕ) (requested : List SessionOptions) (secrets : Secrets)
      (db : Db)
      → IsRedeemed principal now db (redeem_code hash_secret principal now requested secrets db)
  unfolding redeem_code
  redeem_code-IsRedeemed principal now requested secrets db =
      if_elim {A = Db × (Credentials ⊎ SessionError)} (IsRedeemed principal now db)
        (is_invalid hash_secret principal) _ _ (λ _. refl)
        λ v.
          if_elim {A = Db × (Credentials ⊎ SessionError)} (IsRedeemed principal now db)
            (leb principal.expires_at now) _ _ (λ _. refl)
            λ f. with-IsRedeemed principal now secrets db _ v (ground arith)

  -- The rows that `insert_session` adds.
  abbrev IsInserted : Credentials → ℕ → Db → Db ⊎ SessionError → Type 0
  IsInserted c now db (inr e) = Unit
  IsInserted c now db (inl db') =
      (any (has_hash (hash_secret c.session_id)) db.sessions ≡ false)
      × (c.session.created_at < c.session.expires_at)
      × (db' ≡ record db {
        sessions = db.sessions ++ session_row hash_secret c ∷ [];
        tokens =
            db.tokens ++ token_row hash_secret (hash_secret c.session_id) c.csrf_token now ∷ [];
      })

  insert_session-IsInserted :
      (c : Credentials) (now : ℕ) (db : Db)
      → IsInserted c now db (insert_session hash_secret c now db)
  unfolding insert_session
  insert_session-IsInserted c now db =
      if_elim {A = Db ⊎ SessionError} (IsInserted c now db)
        (any (has_hash (hash_secret c.session_id)) db.sessions
          || leb c.session.expires_at c.session.created_at)
        _ _ (λ _. tt)
        λ new.
          if_elim {A = Db ⊎ SessionError} (IsInserted c now db)
            (any (has_token hash_secret (hash_secret c.session_id) (hash_secret c.csrf_token))
              db.tokens)
            _ _ (λ _. tt) (λ _. (ground arith, ground arith, refl))

  -- The same, of a success.
  pub inserted :
      (c : Credentials) (now : ℕ) (db db' : Db)
      → insert_session hash_secret c now db ≡ inl db'
      → IsInserted c now db (inl db')
  inserted c now db db' h = subst (IsInserted c now db) h (insert_session-IsInserted c now db)
