-- ===== src/Sessions/Bounds.antt =====
-- Every operation keeps the tables sound.
use tdns.Base.{
  ltb, eqb, nat_eq, Text, text_eq, ◌==◌, if_elim, is_empty, any, ℕ, ◌≡◌, refl, sym, ◌∙◌, subst, ◌⊎◌,
  inl, inr, true, not, ◌&&◌, Option, none, some, List, [], ◌∷◌, ◌++◌, arith,
}
use tdns.Sessions.Tables.{SessionRow, TokenRow, AdministratorRow, Db, has_hash}
use tdns.Sessions.Types.{unix, method_password, SessionError, Principal, Credentials}
use tdns.Sessions.Store.{has_token, insert_token, consume, live_row, touch_session, revoke_session}
use tdns.Sessions.Csrf.{expired_sessions, purge_expired, after_insert, issue_for, issue_csrf}
use tdns.Sessions.Password.{
  bcrypt_cost, Bcrypt, normalize_username, revoke_password_sessions, is_valid_password,
  store_administrator, set_hash, set_for, set_administrator_password, disable_row,
  disable_administrator,
}
use tdns.Sessions.Ops.{
  SessionOp, redeem, use_session, revoke, issue, purge, set_password, disable, log_in, run_op,
  run_ops,
}
use tdns.Sessions.Outcomes.{IsRedeemed, redeem_code-IsRedeemed}
use tdns.Sessions.Sound.{is_known, IsSound, delete_sessions-IsSound}
use tdns.Sessions.Trim.{trim_tokens-IsSound, insert_token-owned, count_rows-insert_token}
use tdns.Sessions.Added.{touch_rows-known, touch_rows-lives, inserted-IsSound, live_row-known}
use tdns.Sessions.Logins.{IsLoggedIn, create_password_session_lem}

module _ (hash_secret : Text → Text) where
  redeemed-IsSound :
      (principal : Principal) (now : ℕ) (db : Db) (r : Db × (Credentials ⊎ SessionError))
      → IsRedeemed hash_secret principal now db r
      → IsSound db
      → IsSound r.0
  redeemed-IsSound principal now db (db', inr e) same s = subst IsSound (sym same) s
  redeemed-IsSound principal now db (db', inl c) (v, f, n, i, subject, scope, method) s =
      inserted-IsSound hash_secret c now (consume hash_secret principal now db) db' i
        (record { owned = s.owned; bounded = s.bounded; lives = s.lives })

  logged_in-IsSound :
      (b : Bcrypt) (username password : Text) (now : ℕ) (db : Db)
      (r : Db × (Credentials ⊎ SessionError))
      → IsLoggedIn hash_secret b username password now db r
      → IsSound db
      → IsSound r.0
  logged_in-IsSound b username password now db (db', inr e) same s = subst IsSound (sym same) s
  logged_in-IsSound b username password now db (db', inl c) (row, a, n, v, k, i, m) s =
      inserted-IsSound hash_secret c now db db' i s

  use_session-IsSound :
      (session_id : Text) (now : ℕ) (db : Db)
      → IsSound db
      → IsSound (touch_session hash_secret session_id now db).0
  unfolding touch_session
  use_session-IsSound session_id now db s =
      if_elim {A = Db × Option SessionError} (λ r. IsSound r.0) (is_empty session_id) _ _ (λ _. s)
        λ _.
          if_elim {A = Db × Option SessionError} (λ r. IsSound r.0)
            (any (λ row. has_hash (hash_secret session_id) row && ltb (unix now) row.expires_at)
              db.sessions)
            _ _
            (λ _. record {
              owned = λ h a.
                  touch_rows-known (hash_secret session_id) (unix now) db.sessions h ∙ s.owned h a;
              bounded = s.bounded;
              lives = touch_rows-lives (hash_secret session_id) (unix now) db.sessions s.lives;
            })
            (λ _. s)

  trimmed-IsSound :
      (hash token : Text) (row : TokenRow) (db : Db)
      → row.session_hash ≡ hash
      → is_known db.sessions hash ≡ true
      → IsSound db
      → IsSound (after_insert hash_secret db hash token (insert_token hash_secret row db)).0
  trimmed-IsSound hash token row db same k s =
      if_elim {A = Db ⊎ SessionError} (λ r. IsSound (after_insert hash_secret db hash token r).0)
        (any (has_token hash_secret row.session_hash row.csrf_hash) db.tokens) _ _ (λ _. s)
        λ _.
          trim_tokens-IsSound hash (record db { tokens = db.tokens ++ row ∷ [] })
            (insert_token-owned row db (rw same k) s)
            (λ q e. omega (arith, count_rows-insert_token q row db.tokens (rw same e), s.bounded q))
            s.lives

  issue_for-IsSound :
      (session_id token : Text) (now : ℕ) (db : Db) (r : SessionRow ⊎ SessionError)
      → live_row hash_secret session_id now db ≡ r
      → IsSound db
      → IsSound (issue_for hash_secret (hash_secret session_id) now token db r).0
  issue_for-IsSound session_id token now db (inr e) h s = s
  issue_for-IsSound session_id token now db (inl row) h s =
      trimmed-IsSound (hash_secret session_id) token _ db refl
        (live_row-known hash_secret session_id now db row h).0 s

  issue-IsSound :
      (session_id : Text) (now : ℕ) (secret : Option Text) (db : Db)
      → IsSound db
      → IsSound (issue_csrf hash_secret session_id now secret db).0
  unfolding issue_csrf
  issue-IsSound session_id now none db s =
      if_elim {A = Db × (Text ⊎ SessionError)} (λ r. IsSound r.0) (is_empty session_id) _ _ (λ _. s)
        (λ _. s)
  issue-IsSound session_id now (some token) db s =
      if_elim {A = Db × (Text ⊎ SessionError)} (λ r. IsSound r.0) (is_empty session_id) _ _ (λ _. s)
        (λ _. issue_for-IsSound session_id token now db _ refl s)

  module _ (b : Bcrypt) where
    set_hash-IsSound :
        (username : Text) (now : ℕ) (db : Db) (o : Option Text)
        → IsSound db
        → IsSound (set_hash b username now db o).0
    unfolding revoke_password_sessions
    set_hash-IsSound username now db none s = s
    set_hash-IsSound username now db (some hash) s =
        delete_sessions-IsSound (λ row. row.authentication_method == method_password)
          (store_administrator b username hash now db)
          (record { owned = s.owned; bounded = s.bounded; lives = s.lives })

    set_for-IsSound :
        (password : Text) (now : ℕ) (db : Db) (r : Text ⊎ SessionError)
        → IsSound db
        → IsSound (set_for b password now db r).0
    set_for-IsSound password now db (inr e) s = s
    set_for-IsSound password now db (inl username) s =
        if_elim {A = Db × Option SessionError} (λ r. IsSound r.0)
          (not (is_valid_password b password)) _ _ (λ _. s)
          (λ _. set_hash-IsSound username now db (b.generate password bcrypt_cost) s)

    disable-IsSound :
        (now : ℕ) (db : Db) (o : Option AdministratorRow)
        → IsSound db
        → IsSound (disable_row b now db o).0
    unfolding revoke_password_sessions
    disable-IsSound now db none s = s
    disable-IsSound now db (some row) s =
        delete_sessions-IsSound (λ row. row.authentication_method == method_password) _
          (record { owned = s.owned; bounded = s.bounded; lives = s.lives })

    purge-IsSound : (now limit : ℕ) (db : Db) → IsSound db → IsSound (purge_expired now limit db).0
    unfolding purge_expired
    purge-IsSound now limit db s =
        if_elim {A = Db × ((ℕ × ℕ) ⊎ SessionError)} (λ r. IsSound r.0) (eqb limit 0) _ _ (λ _. s)
          λ _.
            let k =
              delete_sessions-IsSound
                (λ row. any (has_hash row.session_hash) (expired_sessions (unix now) limit db)) db
                s in
            record { owned = k.owned; bounded = k.bounded; lives = k.lives }

    revoke-IsSound :
        (session_id : Text) (db : Db)
        → IsSound db
        → IsSound (revoke_session hash_secret session_id db).0
    unfolding revoke_session
    revoke-IsSound session_id db s =
        if_elim {A = Db × Option SessionError} (λ r. IsSound r.0) (is_empty session_id) _ _ (λ _. s)
          (λ _. delete_sessions-IsSound (has_hash (hash_secret session_id)) db s)

    op-IsSound : (op : SessionOp) (db : Db) → IsSound db → IsSound (run_op hash_secret b op db)
    unfolding set_administrator_password disable_administrator
    op-IsSound (redeem principal now requested secrets) db s =
        redeemed-IsSound principal now db _
          (redeem_code-IsRedeemed hash_secret principal now requested secrets db) s
    op-IsSound (use_session session_id now) db s = use_session-IsSound session_id now db s
    op-IsSound (revoke session_id) db s = revoke-IsSound session_id db s
    op-IsSound (issue session_id now secret) db s = issue-IsSound session_id now secret db s
    op-IsSound (purge now limit) db s = purge-IsSound now limit db s
    op-IsSound (set_password username password now) db s =
        set_for-IsSound password now db (normalize_username username) s
    op-IsSound (disable now) db s = disable-IsSound now db db.administrator s
    op-IsSound (log_in username password now requested secrets before) db s =
        logged_in-IsSound b username password now db _
          (create_password_session_lem hash_secret b username password now requested secrets before
            db)
          s

    -- Whatever operations are run on tables that are sound: each CSRF token is that of a session in the
    -- table, no session has more than eight, and every session expires after its creation.
    pub run_ops-IsSound :
        (ops : List SessionOp) (db : Db) → IsSound db → IsSound (run_ops hash_secret b ops db)
    unfolding run_ops
    run_ops-IsSound [] db s = s
    run_ops-IsSound (op ∷ ops) db s =
        run_ops-IsSound ops (run_op hash_secret b op db) (op-IsSound op db s)
