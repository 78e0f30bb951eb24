-- ===== src/Sessions/Replay.antt =====
-- No operation makes a code that was redeemed usable again.
use tdns.Base.{
  nat_eq, Text, text_eq, if_elim, is_empty, any, All, ℕ, ◌*◌, ◌≤◌, ◌≡◌, refl, ap, subst, ◌⊎◌, inl,
  inr, not, Option, none, some, List, [], ◌∷◌, arith,
}
use tdns.Base.Maps.{keys}
use tdns.Sessions.Tables.{SessionRow, TokenRow, AdministratorRow, Db, delete_sessions}
use tdns.Sessions.Types.{
  one_second, unix, SessionError, Principal, SessionOptions, Credentials, Secrets,
}
use tdns.Sessions.Store.{
  has_token, insert_token, redeem_code, live_row, touch_session, revoke_session,
}
use tdns.Sessions.Csrf.{after_insert, issue_for, issue_csrf}
use tdns.Sessions.Password.{
  bcrypt_cost, Bcrypt, normalize_username, revoke_password_sessions, is_valid_password, set_hash,
  set_for, set_administrator_password, disable_row, disable_administrator,
}
use tdns.Sessions.Ops.{
  SessionOp, redeem, use_session, revoke, issue, purge, set_password, disable, log_in, op_time,
  run_op, run_ops,
}
use tdns.Sessions.Outcomes.{IsRedeemed, redeem_code-IsRedeemed, inserted}
use tdns.Sessions.Spent.{IsSpent, purge-IsSpent, redeemed-IsSpent, success-IsSpent}
use tdns.Sessions.Logins.{IsLoggedIn, create_password_session_lem}

module _ (hash_secret : Text → Text) where
  log_in-codes :
      (b : Bcrypt) (username password : Text) (now : ℕ) (db : Db)
      (r : Db × (Credentials ⊎ SessionError))
      → IsLoggedIn hash_secret b username password now db r
      → r.0.codes ≡ db.codes
  log_in-codes b username password now db (db', inr e) same = ap (λ d. d.codes) same
  log_in-codes b username password now db (db', inl c) (row, a, n, v, k, i, m) =
      let (new, lives, same) = inserted hash_secret c now db db' i in ap (λ d. d.codes) same

  use_session-codes :
      (session_id : Text) (now : ℕ) (db : Db)
      → (touch_session hash_secret session_id now db).0.codes ≡ db.codes
  unfolding touch_session
  use_session-codes session_id now db = ground arith

  revoke-codes :
      (session_id : Text) (db : Db) → (revoke_session hash_secret session_id db).0.codes ≡ db.codes
  unfolding revoke_session delete_sessions
  revoke-codes session_id db = ground arith

  after_insert-codes :
      (db : Db) (hash token : Text) (row : TokenRow)
      → (after_insert hash_secret db hash token (insert_token hash_secret row db)).0.codes
        ≡ db.codes
  after_insert-codes db hash token row =
      if_elim {A = Db ⊎ SessionError}
        (λ r. (after_insert hash_secret db hash token r).0.codes ≡ db.codes)
        (any (has_token hash_secret row.session_hash row.csrf_hash) db.tokens) _ _ (λ _. refl)
        (λ _. refl)

  issue_for-codes :
      (hash token : Text) (now : ℕ) (db : Db) (r : SessionRow ⊎ SessionError)
      → (issue_for hash_secret hash now token db r).0.codes ≡ db.codes
  issue_for-codes hash token now db (inr e) = refl
  issue_for-codes hash token now db (inl row) = after_insert-codes db hash token _

  issue-codes :
      (session_id : Text) (now : ℕ) (secret : Option Text) (db : Db)
      → (issue_csrf hash_secret session_id now secret db).0.codes ≡ db.codes
  unfolding issue_csrf
  issue-codes session_id now none db = ground arith
  issue-codes session_id now (some token) db =
      if_elim {A = Db × (Text ⊎ SessionError)} (λ r. r.0.codes ≡ db.codes) (is_empty session_id) _ _
        (λ _. refl)
        (λ _.
          issue_for-codes (hash_secret session_id) token now db
            (live_row hash_secret session_id now db))

  module _ (b : Bcrypt) where
    set_hash-codes :
        (username : Text) (now : ℕ) (db : Db) (o : Option Text)
        → (set_hash b username now db o).0.codes ≡ db.codes
    unfolding revoke_password_sessions delete_sessions
    set_hash-codes username now db none = refl
    set_hash-codes username now db (some hash) = refl

    set_for-codes :
        (password : Text) (now : ℕ) (db : Db) (r : Text ⊎ SessionError)
        → (set_for b password now db r).0.codes ≡ db.codes
    set_for-codes password now db (inr e) = refl
    set_for-codes password now db (inl username) =
        if_elim {A = Db × Option SessionError} (λ r. r.0.codes ≡ db.codes)
          (not (is_valid_password b password)) _ _ (λ _. refl)
          (λ _. set_hash-codes username now db (b.generate password bcrypt_cost))

    disable-codes :
        (now : ℕ) (db : Db) (o : Option AdministratorRow)
        → (disable_row b now db o).0.codes ≡ db.codes
    unfolding revoke_password_sessions delete_sessions
    disable-codes now db none = refl
    disable-codes now db (some row) = refl

    op-IsSpent :
        (op : SessionOp) (h : Text) (e t : ℕ) (db : Db)
        → unix (op_time op) ≤ t
        → IsSpent h e t db.codes
        → IsSpent h e t (run_op hash_secret b op db).codes
    unfolding set_administrator_password disable_administrator
    op-IsSpent (redeem principal now requested secrets) h e t db k s =
        redeemed-IsSpent hash_secret principal now e t h db _
          (redeem_code-IsRedeemed hash_secret principal now requested secrets db) s
    op-IsSpent (use_session session_id now) h e t db k s =
        rw (use_session-codes session_id now db) s
    op-IsSpent (revoke session_id) h e t db k s = rw (revoke-codes session_id db) s
    op-IsSpent (issue session_id now secret) h e t db k s =
        rw (issue-codes session_id now secret db) s
    op-IsSpent (purge now limit) h e t db k s = purge-IsSpent h e now t limit db k s
    op-IsSpent (set_password username password now) h e t db k s =
        rw (set_for-codes password now db (normalize_username username)) s
    op-IsSpent (disable now) h e t db k s = rw (disable-codes now db db.administrator) s
    op-IsSpent (log_in username password now requested secrets before) h e t db k s =
        rw
          (log_in-codes b username password now db _ (
            create_password_session_lem hash_secret b username password now requested secrets before
              db))
          s

    ops-IsSpent :
        (ops : List SessionOp) (h : Text) (e t : ℕ) (db : Db)
        → All (λ op. unix (op_time op) ≤ t) ops
        → IsSpent h e t db.codes
        → IsSpent h e t (run_ops hash_secret b ops db).codes
    unfolding run_ops
    ops-IsSpent [] h e t db k s = s
    ops-IsSpent (op ∷ ops) h e t db k s =
        ops-IsSpent ops h e t (run_op hash_secret b op db) k.1 (op-IsSpent op h e t db k.0 s)

    unix_times :
        (ops : List SessionOp) (now : ℕ)
        → All (λ op. op_time op ≤ now) ops
        → All (λ op. unix (op_time op) ≤ unix now) ops
    unix_times [] now t = tt
    unix_times (op ∷ ops) now t = (omega (arith, t.0), unix_times ops now t.1)

    refused_again :
        (principal : Principal) (now : ℕ) (db : Db) (r : Db × (Credentials ⊎ SessionError))
        → IsRedeemed hash_secret principal now db r
        → principal.expires_at ≡ unix principal.expires_at * one_second
        → IsSpent (hash_secret principal.token_id) (unix principal.expires_at) (unix now) db.codes
        → (e : SessionError) × (r ≡ (db, inr e))
    refused_again principal now db (db', inr e) same w s = (e, ap (λ d. (d, inr e)) same)
    refused_again principal now db (db', inl c) (v, f, n, i, subject, scope, method) w
          (inl (a, k)) =
        absurd (ground arith)
    refused_again principal now db (db', inl c) (v, f, n, i, subject, scope, method) w (inr late) =
        absurd (omega arith)

    -- A code whose expiry is a whole second, once it is redeemed, is never redeemed again: after any
    -- operations, of which none is run later than the new attempt, the attempt fails and changes
    -- nothing.
    pub redeem_code_once :
        (principal : Principal) (first now : ℕ) (options requested : List SessionOptions)
        (keys secrets : Secrets) (db db' : Db) (c : Credentials) (ops : List SessionOp)
        → principal.expires_at ≡ unix principal.expires_at * one_second
        → redeem_code hash_secret principal first options keys db ≡ (db', inl c)
        → All (λ op. op_time op ≤ now) ops
        → (e : SessionError) × (redeem_code hash_secret principal now requested secrets
              (run_ops hash_secret b ops db')
            ≡ (run_ops hash_secret b ops db', inr e))
    redeem_code_once principal first now options requested keys secrets db db' c ops w h times =
        refused_again principal now (run_ops hash_secret b ops db') _
          (redeem_code-IsRedeemed hash_secret principal now requested secrets _) w
          (ops-IsSpent ops (hash_secret principal.token_id) (unix principal.expires_at) (unix now)
            db' (unix_times ops now times)
            (success-IsSpent hash_secret principal first (unix now) db db' c (
              subst (IsRedeemed hash_secret principal first db) h
                (redeem_code-IsRedeemed hash_secret principal first options keys db))))
