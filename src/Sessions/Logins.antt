-- ===== src/Sessions/Logins.antt =====
-- What a success of a login with a password means, whatever happens while it is checked.
use tdns.Base.{
  nat_eq, Text, text_beq_iff, text_eq, if_elim, ℕ, ◌≡◌, refl, sym, ap, ◌∙◌, ◌⊎◌, inl, inr, true,
  ◌&&◌, Option, none, some, List, arith,
}
use tdns.Sessions.Tables.{AdministratorRow, Db}
use tdns.Sessions.Types.{
  method_password, SessionError, Session, SessionOptions, Credentials, Secrets, with_secrets,
}
use tdns.Sessions.Store.{insert_session, commit_session}
use tdns.Sessions.Password.{
  Bcrypt, normalize_username, is_valid_password, administrator_credential, names, open_session,
  is_current, in_transaction, with_credential, create_password_session,
}

module _ (hash_secret : Text → Text) where
  module _ (b : Bcrypt) where
    -- A failure changes nothing. After a success the session is that of the administrator whose row
    -- is in the table then, and the password is the one of this row.
    abbrev pub IsLoggedIn : Text → Text → ℕ → Db → Db × (Credentials ⊎ SessionError) → Type 0
    IsLoggedIn username password now db (db', inr e) = db' ≡ db
    IsLoggedIn username password now db (db', inl c) =
        (row : AdministratorRow) × (administrator_credential b db ≡ some row)
        × (normalize_username username ≡ inl row.username)
        × (is_valid_password b password ≡ true)
        × (b.compare row.password_hash password ≡ true)
        × (insert_session hash_secret c now db ≡ inl db')
        × (c.session.authentication_method ≡ method_password)

    commit-IsLoggedIn :
        (username password : Text) (now : ℕ) (db : Db) (c : Credentials) (r : Db ⊎ SessionError)
        (row : AdministratorRow)
        → administrator_credential b db ≡ some row
        → normalize_username username ≡ inl row.username
        → is_valid_password b password ≡ true
        → b.compare row.password_hash password ≡ true
        → insert_session hash_secret c now db ≡ r
        → c.session.authentication_method ≡ method_password
        → IsLoggedIn username password now db (commit_session hash_secret db c r)
    commit-IsLoggedIn username password now db c (inr e) row a n v k h m = refl
    commit-IsLoggedIn username password now db c (inl db') row a n v k h m = (row, a, n, v, k, h, m)

    open-IsLoggedIn :
        (username password : Text) (now : ℕ) (db : Db) (session : Session) (id csrf : Option Text)
        (row : AdministratorRow)
        → administrator_credential b db ≡ some row
        → normalize_username username ≡ inl row.username
        → is_valid_password b password ≡ true
        → b.compare row.password_hash password ≡ true
        → session.authentication_method ≡ method_password
        → IsLoggedIn username password now db
            (open_session b hash_secret db now (with_secrets session id csrf))
    open-IsLoggedIn username password now db session none csrf row a n v k m = refl
    open-IsLoggedIn username password now db session (some id) none row a n v k m = refl
    open-IsLoggedIn username password now db session (some id) (some csrf) row a n v k m =
        commit-IsLoggedIn username password now db _ _ row a n v k refl m

    -- The row that was read before is the current one, by name and hash.
    current_row :
        (row : AdministratorRow) (o : Option AdministratorRow)
        → is_current b hash_secret row o ≡ true
        → (current : AdministratorRow) × (o ≡ some current)
          × (current.username ≡ row.username)
          × (current.password_hash ≡ row.password_hash)
    current_row row none h = cc
    current_row row (some current) h = (
      current,
      refl,
      (text_beq_iff current.username row.username).0 (ground arith),
      (text_beq_iff current.password_hash row.password_hash).0 (ground arith),
    )

    names_lem :
        (r : Text ⊎ SessionError) (row : AdministratorRow)
        → names b r row ≡ true
        → r ≡ inl row.username
    names_lem (inr e) row h = cc
    names_lem (inl normalized) row h = ap inl ((text_beq_iff normalized row.username).0 h)

    transaction-IsLoggedIn :
        (username password : Text) (now : ℕ) (secrets : Secrets) (db : Db) (row : AdministratorRow)
        (options : SessionOptions ⊎ SessionError)
        → normalize_username username ≡ inl row.username
        → is_valid_password b password ≡ true
        → b.compare row.password_hash password ≡ true
        → IsLoggedIn username password now db
            (in_transaction b hash_secret row now secrets db options)
    transaction-IsLoggedIn username password now secrets db row (inr e) n v k = refl
    transaction-IsLoggedIn username password now secrets db row (inl options) n v k =
        if_elim {A = Db × (Credentials ⊎ SessionError)} (IsLoggedIn username password now db)
          (is_current b hash_secret row (administrator_credential b db)) _ _
          (λ same.
            let (current, a, name, hash) = current_row row (administrator_credential b db) same in
            open-IsLoggedIn username password now db _ secrets.session_id secrets.csrf_token current
              a (n ∙ ap inl (sym name)) v (rw hash k) refl)
          (λ _. refl)

    credential-IsLoggedIn :
        (username password : Text) (now : ℕ) (requested : List SessionOptions) (secrets : Secrets)
        (o : Option AdministratorRow) (db : Db)
        → IsLoggedIn username password now db
            (with_credential b hash_secret username password now requested secrets o db)
    credential-IsLoggedIn username password now requested secrets none db = refl
    credential-IsLoggedIn username password now requested secrets (some row) db =
        if_elim {A = Db × (Credentials ⊎ SessionError)} (IsLoggedIn username password now db)
          (names b (normalize_username username) row
            && (is_valid_password b password && b.compare row.password_hash password))
          _ _
          (λ h.
            transaction-IsLoggedIn username password now secrets db row _
              (names_lem (normalize_username username) row (ground arith)) (ground arith)
              (ground arith))
          (λ _. refl)

    -- Whatever the state was when the credential was read: a login that fails changes nothing, and one
    -- that opens a session has the name and the password of the usable administrator whose row is
    -- in the table at that moment.
    pub create_password_session_lem :
        (username password : Text) (now : ℕ) (requested : List SessionOptions) (secrets : Secrets)
        (before db : Db)
        → IsLoggedIn username password now db (
            create_password_session b hash_secret username password now requested secrets before db)
    unfolding create_password_session
    create_password_session_lem username password now requested secrets before db =
        credential-IsLoggedIn username password now requested secrets
          (administrator_credential b before) db
