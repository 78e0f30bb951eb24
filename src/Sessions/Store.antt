-- ===== src/Sessions/Store.antt =====
-- internal/browserauth/store.go: the operations on codes and sessions. The hash of a secret is a
-- parameter. A statement that the database cannot carry out for a reason of its own is left out;
-- one that a constraint of a table refuses is the error `storage`. Each operation is one
-- transaction.
use tdns.Base.{
  ltb, leb, if◌then◌else◌, nat_eq, Text, text_eq, ◌==◌, is_empty, any, ℕ, ◌⊎◌, inl, inr, Bool, not,
  ◌&&◌, ◌||◌, Option, none, some, List, [], ◌∷◌, ◌++◌,
}
use tdns.Base.Strings.{trim_space}
use tdns.Sessions.Tables.{
  SessionRow, TokenRow, Db, find_row, has_hash, is_code, delete_sessions, touch_rows,
}
use tdns.Sessions.Types.{
  unix, browser_code_purpose, scope_read, scope_write, method_browser_code, SessionError,
  invalid_principal, code_expired, code_consumed, session_not_found, session_expired, invalid_csrf,
  storage, Principal, Session, SessionOptions, Credentials, resolve_session_options, Secrets,
  new_session, new_session_credentials, is_past,
}

module _ (hash_secret : Text → Text) where
  abbrev pub session_row : Credentials → SessionRow
  session_row credentials = record {
    session_hash = hash_secret credentials.session_id;
    subject = credentials.session.subject;
    scope = credentials.session.scope;
    csrf_hash = hash_secret credentials.csrf_token;
    created_at = credentials.session.created_at;
    last_used_at = credentials.session.last_used;
    expires_at = credentials.session.expires_at;
    authentication_method = credentials.session.authentication_method;
    persistent = credentials.session.persistent;
  }

  abbrev pub token_row : Text → Text → ℕ → TokenRow
  token_row session_hash csrf now = record {
    session_hash = session_hash;
    csrf_hash = hash_secret csrf;
    created_at = now;
  }

  -- The primary key of the tokens.
  abbrev pub has_token : Text → Text → TokenRow → Bool
  has_token session_hash csrf_hash row =
      row.session_hash == session_hash && row.csrf_hash == csrf_hash

  abbrev pub insert_token : TokenRow → Db → Db ⊎ SessionError
  insert_token row db =
      if any (has_token row.session_hash row.csrf_hash) db.tokens
      then inr storage
      else inl (record db { tokens = db.tokens ++ row ∷ [] })

  -- `insertSession`: keys are unique, and a session expires after its creation.
  unfoldable pub insert_session : Credentials → ℕ → Db → Db ⊎ SessionError
  insert_session credentials now db =
      let row = session_row credentials in
      if any (has_hash row.session_hash) db.sessions || leb row.expires_at row.created_at
      then inr storage
      else insert_token (token_row row.session_hash credentials.csrf_token now)
          (record db { sessions = db.sessions ++ row ∷ [] })

  -- What a transaction that inserts a session does: it is rolled back on an error.
  abbrev pub commit_session :
      Db → Credentials → Db ⊎ SessionError → Db × (Credentials ⊎ SessionError)
  commit_session db credentials (inr e) = (db, inr e)
  commit_session db credentials (inl db') = (db', inl credentials)

  abbrev pub consume : Principal → ℕ → Db → Db
  consume principal now db = record db {
    codes =
        db.codes
        ++ (record {
          code_hash = hash_secret principal.token_id;
          consumed_at = unix now;
          expires_at = unix principal.expires_at;
        })
          ∷ [];
  }

  abbrev pub consume_and_insert :
      Principal → ℕ → Db → Credentials ⊎ SessionError → Db × (Credentials ⊎ SessionError)
  consume_and_insert principal now db (inr e) = (db, inr e)
  consume_and_insert principal now db (inl credentials) =
      if any (is_code (hash_secret principal.token_id)) db.codes
      then (db, inr code_consumed)
      else commit_session db credentials (insert_session credentials now (consume principal now db))

  abbrev pub redeem_with :
      Principal
      → ℕ
      → Secrets
      → Db
      → SessionOptions ⊎ SessionError
      → Db × (Credentials ⊎ SessionError)
  redeem_with principal now secrets db (inr e) = (db, inr e)
  redeem_with principal now secrets db (inl options) = consume_and_insert principal now db (
      new_session_credentials secrets
        (new_session principal.subject principal.scope method_browser_code now options))

  abbrev pub is_invalid : Principal → Bool
  is_invalid principal =
      not (principal.purpose == browser_code_purpose)
      || is_empty (trim_space principal.token_id)
      || is_empty (trim_space principal.subject)
      || not (principal.scope == scope_read || principal.scope == scope_write)

  unfoldable pub redeem_code :
      Principal → ℕ → List SessionOptions → Secrets → Db → Db × (Credentials ⊎ SessionError)
  redeem_code principal now requested secrets db =
      if is_invalid principal
      then (db, inr invalid_principal)
      else if leb principal.expires_at now
      then (db, inr code_expired)
      else redeem_with principal now secrets db (resolve_session_options requested)

  abbrev pub session_of_row : SessionRow → Session
  session_of_row row = record {
    subject = row.subject;
    scope = row.scope;
    authentication_method = row.authentication_method;
    persistent = row.persistent;
    created_at = row.created_at;
    last_used = row.last_used_at;
    expires_at = row.expires_at;
  }

  abbrev pub check_row : ℕ → Option SessionRow → SessionRow ⊎ SessionError
  check_row now none = inr session_not_found
  check_row now (some row) = if is_past now row.expires_at then inr session_expired else inl row

  -- The row of a session that has not expired.
  abbrev pub live_row : Text → ℕ → Db → SessionRow ⊎ SessionError
  live_row session_id now db =
      if is_empty session_id
      then inr session_not_found
      else check_row now (find_row (has_hash (hash_secret session_id)) db.sessions)

  abbrev pub to_session : SessionRow ⊎ SessionError → Session ⊎ SessionError
  to_session (inr e) = inr e
  to_session (inl row) = inl (session_of_row row)

  unfoldable pub get_session : Text → ℕ → Db → Session ⊎ SessionError
  get_session session_id now db = to_session (live_row session_id now db)

  unfoldable pub touch_session : Text → ℕ → Db → Db × Option SessionError
  touch_session session_id now db =
      let hash = hash_secret session_id in
      if is_empty session_id
      then (db, some session_not_found)
      else if any (λ row. has_hash hash row && ltb (unix now) row.expires_at) db.sessions
      then (record db { sessions = touch_rows hash (unix now) db.sessions }, none)
      else (db, some session_not_found)

  unfoldable pub revoke_session : Text → Db → Db × Option SessionError
  revoke_session session_id db =
      if is_empty session_id
      then (db, some session_not_found)
      else (delete_sessions (has_hash (hash_secret session_id)) db, none)

  abbrev check_csrf : Text → Text → Db → SessionRow ⊎ SessionError → Option SessionError
  check_csrf session_id csrf_token db (inr e) = some e
  check_csrf session_id csrf_token db (inl row) =
      if any (has_token (hash_secret session_id) (hash_secret csrf_token)) db.tokens
      then none
      else some invalid_csrf

  -- `ValidateCSRF`: no error if the token is one of the session's.
  unfoldable pub validate_csrf : Text → Text → ℕ → Db → Option SessionError
  validate_csrf session_id csrf_token now db =
      if is_empty session_id
      then some session_not_found
      else if is_empty csrf_token
      then some invalid_csrf
      else check_csrf session_id csrf_token db (live_row session_id now db)
