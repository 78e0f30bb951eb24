-- ===== src/Sessions/Rotation.antt =====
-- What is left of the sessions after the password was changed, and who can log in then.
use tdns.Base.{
  if◌then◌else◌, nat_eq, Text, text_eq, ◌==◌, Bool-cases, if_elim, is_empty, keep, any, ℕ, ◌≡◌,
  refl, sym, ap, ◌∙◌, subst, ◌⊎◌, inl, inr, Bool, true, false, not, Option, none, some, List, arith,
}
use tdns.Sessions.Tables.{SessionRow, AdministratorRow, Db, find_row, has_hash, delete_sessions}
use tdns.Sessions.Types.{
  method_password, SessionError, session_not_found, Session, SessionOptions, Credentials, Secrets,
  is_past,
}
use tdns.Sessions.Store.{session_of_row, check_row, to_session, get_session}
use tdns.Sessions.Password.{
  bcrypt_cost, Bcrypt, normalize_username, revoke_password_sessions, is_valid_password,
  store_administrator, set_hash, set_for, set_administrator_password, is_usable, usable_row,
  administrator_credential, create_password_session,
}
use tdns.Sessions.Rows.{find_row-keep, any-keep_none}
use tdns.Sessions.Logins.{IsLoggedIn, create_password_session_lem}

abbrev pub by_password : SessionRow → Bool
by_password row = row.authentication_method == method_password

module _ (b : Bcrypt) where
  -- A failure changes nothing. A success stores the hash of a valid password under the normal form of
  -- the name, and deletes the sessions that a password opened.
  abbrev IsRotated : Text → Text → Db → Db × Option SessionError → Type 0
  IsRotated username password db (db', some e) = db' ≡ db
  IsRotated username password db (db', none) =
      (name : Text) × (hash : Text) × (now : ℕ) × (normalize_username username ≡ inl name)
      × (is_valid_password b password ≡ true)
      × (b.generate password bcrypt_cost ≡ some hash)
      × (db' ≡ delete_sessions by_password (store_administrator b name hash now db))

  hash-IsRotated :
      (username name password : Text) (now : ℕ) (db : Db) (o : Option Text)
      → normalize_username username ≡ inl name
      → is_valid_password b password ≡ true
      → b.generate password bcrypt_cost ≡ o
      → IsRotated username password db (set_hash b name now db o)
  unfolding revoke_password_sessions
  hash-IsRotated username name password now db none n v g = refl
  hash-IsRotated username name password now db (some hash) n v g = (name, hash, now, n, v, g, refl)

  for-IsRotated :
      (username password : Text) (now : ℕ) (db : Db) (r : Text ⊎ SessionError)
      → normalize_username username ≡ r
      → IsRotated username password db (set_for b password now db r)
  for-IsRotated username password now db (inr e) n = refl
  for-IsRotated username password now db (inl name) n =
      if_elim {A = Db × Option SessionError} (IsRotated username password db)
        (not (is_valid_password b password)) _ _ (λ _. refl)
        (λ v. hash-IsRotated username name password now db _ n (ground arith) refl)

  set_administrator_password-IsRotated :
      (username password : Text) (now : ℕ) (db : Db)
      → IsRotated username password db (set_administrator_password b username password now db)
  unfolding set_administrator_password
  set_administrator_password-IsRotated username password now db =
      for-IsRotated username password now db (normalize_username username) refl

  -- The credential in a table whose administrator is known.
  credential_of :
      (row : AdministratorRow) (o : Option AdministratorRow) (current : AdministratorRow)
      → o ≡ some row
      → usable_row b o ≡ some current
      → row ≡ current
  credential_of row none current h k = cc
  credential_of row (some x) current h k = elim (Bool-cases (is_usable b x)) [
    | inl e ↦
        let first : x ≡ row = ground arith in
        let last : x ≡ current = ground arith in sym first ∙ last
    | inr e ↦ absurd (ground arith)
  ]

  module _ (hash_secret : Text → Text) where
    -- A login that succeeds just after the password was changed, whatever it had read of the tables
    -- before, was made with the name and the new password: its password compares with the hash that
    -- was stored.
    pub login_after_rotation :
        (username password : Text) (changed : ℕ) (db db' : Db) (login attempt : Text) (now : ℕ)
        (requested : List SessionOptions) (secrets : Secrets) (before after : Db) (c : Credentials)
        → set_administrator_password b username password changed db ≡ (db', none)
        → create_password_session b hash_secret login attempt now requested secrets before db'
          ≡ (after, inl c)
        → (hash : Text) × (b.generate password bcrypt_cost ≡ some hash)
          × (b.compare hash attempt ≡ true)
          × (normalize_username login ≡ normalize_username username)
    unfolding administrator_credential delete_sessions
    login_after_rotation username password changed db db' login attempt now requested secrets before
          after c h k =
        let (name, hash, at_time, n, v, g, same) =
          subst (IsRotated username password db) h
            (set_administrator_password-IsRotated username password changed db) in
        let (row, a, m, w, x, i, method) =
          subst (IsLoggedIn hash_secret b login attempt now db') k (
            create_password_session_lem hash_secret b login attempt now requested secrets before
              db') in
        let stored = credential_of _ db'.administrator row (ap (λ d. d.administrator) same) a in
        (
          hash,
          g,
          subst (λ r. b.compare r.password_hash attempt ≡ true) (sym stored) x,
          m ∙ ap (λ r. inl r.username) (sym stored) ∙ sym n,
        )

    same_live :
        (session_id : Text) (now : ℕ) (sessions : List SessionRow) (o : Option SessionRow)
        (s : Session)
        → find_row (has_hash (hash_secret session_id)) sessions ≡ o
        → to_session hash_secret (check_row hash_secret now o) ≡ inl s
        → (s.authentication_method == method_password) ≡ false
        → find_row
            (has_hash (hash_secret session_id))
            (keep (λ row. not (by_password row)) sessions)
          ≡ o
    same_live session_id now sessions none s f e m = cc
    same_live session_id now sessions (some row) s f e m =
        elim (Bool-cases (is_past now row.expires_at)) [
          | inl past ↦ absurd (ground arith)
          | inr live ↦
              let same : session_of_row hash_secret row ≡ s = ground arith in
              find_row-keep _ _ sessions row f
                (ground (arith, ap (λ x. x.authentication_method == method_password) same))
        ]

    same_session :
        (session_id : Text) (now : ℕ) (sessions : List SessionRow) (s : Session)
        → to_session hash_secret (
            if is_empty session_id
            then inr session_not_found
            else check_row hash_secret now (find_row (has_hash (hash_secret session_id)) sessions))
          ≡ inl s
        → (s.authentication_method == method_password) ≡ false
        → find_row
            (has_hash (hash_secret session_id))
            (keep (λ row. not (by_password row)) sessions)
          ≡ find_row (has_hash (hash_secret session_id)) sessions
    same_session session_id now sessions s e m = elim (Bool-cases (is_empty session_id)) [
      | inl none_given ↦ absurd (ground arith)
      | inr given ↦ same_live session_id now sessions _ s refl (ground arith) m
    ]

    -- After the password was changed, the table holds no session that a password opened, and any
    -- other session that was live is still found, unchanged.
    pub get_session_after_rotation :
        (username password : Text) (changed : ℕ) (db db' : Db) (session_id : Text) (now : ℕ)
        (s : Session)
        → set_administrator_password b username password changed db ≡ (db', none)
        → get_session hash_secret session_id now db ≡ inl s
        → (s.authentication_method == method_password) ≡ false
        → (any by_password db'.sessions ≡ false)
          × (get_session hash_secret session_id now db' ≡ inl s)
    unfolding get_session delete_sessions
    get_session_after_rotation username password changed db db' session_id now s h e m =
        let (name, hash, at_time, n, v, g, same) =
          subst (IsRotated username password db) h
            (set_administrator_password-IsRotated username password changed db) in
        let kept = ap (λ d. d.sessions) same in
        (
          rw kept (any-keep_none by_password db.sessions),
          rw (kept, same_session session_id now db.sessions s e m) e,
        )
