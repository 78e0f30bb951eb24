-- ===== src/Sessions/Password.antt =====
-- internal/browserauth/password.go: the local administrator, and the sessions that its password opens.
-- What the code asks of bcrypt and of UTF-8 is a parameter.
use tdns.Base.{
  ltb, leb, eqb, if◌then◌else◌, nat_eq, Text, text_eq, ◌==◌, length, is_empty, ℕ, ◌⊎◌, inl, inr,
  Bool, true, false, not, ◌&&◌, ◌||◌, Option, none, some, List, [], ◌∷◌,
}
use tdns.Base.Strings.{to_lower, trim_space}
use tdns.Sessions.Tables.{AdministratorRow, Db, delete_sessions}
use tdns.Sessions.Types.{
  unix, scope_write, method_password, SessionError, storage, unavailable, invalid_name,
  invalid_password, invalid_credentials, SessionOptions, Credentials, resolve_session_options,
  Secrets, new_session, new_session_credentials,
}
use tdns.Sessions.Store.{insert_session, commit_session}

abbrev password_min : ℕ
password_min = 12

abbrev password_max : ℕ
password_max = 72

abbrev pub username_limit : ℕ
username_limit = 64

-- `AdministratorBcryptCost`
abbrev pub bcrypt_cost : ℕ
bcrypt_cost = 12

-- What stands for golang.org/x/crypto/bcrypt and unicode/utf8: a hash with a salt, or an error; whether a
-- password has a hash; and the cost of a hash, if it is one.
pub record Bcrypt : Type 0 where
  pub generate : Text → ℕ → Option Text
  pub compare : Text → Text → Bool
  pub cost : Text → Option ℕ
  pub is_utf8 : Text → Bool

abbrev is_mark : ℕ → Bool
is_mark c = eqb c b'.' || eqb c b'_' || eqb c b'-'

abbrev is_name_byte : ℕ → Bool
is_name_byte c = (leb b'a' c && leb c b'z') || (leb b'0' c && leb c b'9') || is_mark c

unfoldable pub all_name_bytes : Text → Bool
all_name_bytes [] = true
all_name_bytes (c ∷ s) = is_name_byte c && all_name_bytes s

abbrev starts_with_mark : Text → Bool
starts_with_mark [] = false
starts_with_mark (c ∷ s) = is_mark c

-- The last byte of a text.
unfoldable pub ends_with_mark : Text → Bool
ends_with_mark [] = false
ends_with_mark (c ∷ []) = is_mark c
ends_with_mark (c ∷ d ∷ s) = ends_with_mark (d ∷ s)

abbrev check_username : Text → Text ⊎ SessionError
check_username username =
    if is_empty username || ltb username_limit (length username)
    then inr invalid_name
    else if not (all_name_bytes username) || starts_with_mark username
    then inr invalid_name
    else if ends_with_mark username
    then inr invalid_name
    else inl username

-- `NormalizeAdministratorUsername`
unfoldable pub normalize_username : Text → Text ⊎ SessionError
normalize_username username = check_username (to_lower (trim_space username))

unfoldable pub revoke_password_sessions : Db → Db
revoke_password_sessions db =
    delete_sessions (λ row. row.authentication_method == method_password) db

module _ (b : Bcrypt) where
  -- `ValidateAdministratorPassword`
  abbrev pub is_valid_password : Text → Bool
  is_valid_password password =
      b.is_utf8 password
      && (leb password_min (length password) && leb (length password) password_max)

  abbrev created_of : Option AdministratorRow → ℕ → ℕ
  created_of none now = now
  created_of (some row) now = row.created_at

  abbrev pub store_administrator : Text → Text → ℕ → Db → Db
  store_administrator username hash now db = record db {
    administrator = some (record {
      username = username;
      password_hash = hash;
      subject = username;
      scope = scope_write;
      enabled = true;
      created_at = created_of db.administrator (unix now);
      updated_at = unix now;
    });
  }

  abbrev pub set_hash : Text → ℕ → Db → Option Text → Db × Option SessionError
  set_hash username now db none = (db, some storage)
  set_hash username now db (some hash) =
      (revoke_password_sessions (store_administrator username hash now db), none)

  abbrev pub set_for : Text → ℕ → Db → Text ⊎ SessionError → Db × Option SessionError
  set_for password now db (inr e) = (db, some e)
  set_for password now db (inl username) =
      if not (is_valid_password password)
      then (db, some invalid_password)
      else set_hash username now db (b.generate password bcrypt_cost)

  unfoldable pub set_administrator_password : Text → Text → ℕ → Db → Db × Option SessionError
  set_administrator_password username password now db =
      set_for password now db (normalize_username username)

  abbrev pub disable_row : ℕ → Db → Option AdministratorRow → Db × Option SessionError
  disable_row now db none = (db, some unavailable)
  disable_row now db (some row) = (
    revoke_password_sessions (record db {
      administrator = some (record row { enabled = false; updated_at = unix now });
    }),
    none,
  )

  unfoldable pub disable_administrator : ℕ → Db → Db × Option SessionError
  disable_administrator now db = disable_row now db db.administrator

  abbrev is_normal : Text → Text ⊎ SessionError → Bool
  is_normal username (inr e) = false
  is_normal username (inl normalized) = normalized == username

  abbrev has_cost : Option ℕ → Bool
  has_cost none = false
  has_cost (some n) = eqb n bcrypt_cost

  abbrev pub is_usable : AdministratorRow → Bool
  is_usable row =
      is_normal row.username (normalize_username row.username)
      && (row.enabled
          && (row.subject == row.username
              && (row.scope == scope_write && has_cost (b.cost row.password_hash))))

  abbrev pub usable_row : Option AdministratorRow → Option AdministratorRow
  usable_row none = none
  usable_row (some row) = if is_usable row then some row else none

  -- `administratorCredential`; none is `ErrAdministratorUnavailable`.
  unfoldable pub administrator_credential : Db → Option AdministratorRow
  administrator_credential db = usable_row db.administrator

  abbrev pub names : Text ⊎ SessionError → AdministratorRow → Bool
  names (inr e) row = false
  names (inl normalized) row = normalized == row.username

  module _ (hash_secret : Text → Text) where
    abbrev pub open_session :
        Db → ℕ → Credentials ⊎ SessionError → Db × (Credentials ⊎ SessionError)
    open_session db now (inr e) = (db, inr e)
    open_session db now (inl credentials) =
        commit_session hash_secret db credentials (insert_session hash_secret credentials now db)

    -- The credential that was read first is still the one in the transaction.
    abbrev pub is_current : AdministratorRow → Option AdministratorRow → Bool
    is_current row none = false
    is_current row (some current) =
        current.username == row.username && current.password_hash == row.password_hash

    abbrev pub in_transaction :
        AdministratorRow
        → ℕ
        → Secrets
        → Db
        → SessionOptions ⊎ SessionError
        → Db × (Credentials ⊎ SessionError)
    in_transaction row now secrets db (inr e) = (db, inr e)
    in_transaction row now secrets db (inl options) =
        if is_current row (administrator_credential db)
        then open_session db now (
            new_session_credentials secrets
              (new_session row.subject row.scope method_password now options))
        else (db, inr invalid_credentials)

    abbrev pub with_credential :
        Text
        → Text
        → ℕ
        → List SessionOptions
        → Secrets
        → Option AdministratorRow
        → Db
        → Db × (Credentials ⊎ SessionError)
    with_credential username password now requested secrets none db = (db, inr invalid_credentials)
    with_credential username password now requested secrets (some row) db =
        if names (normalize_username username) row
          && (is_valid_password password && b.compare row.password_hash password)
        then in_transaction row now secrets db (resolve_session_options requested)
        else (db, inr invalid_credentials)

    -- `CreatePasswordSession`: the credential is read in `before`, and other transactions may have led
    -- from there to `db`, in which the session is opened.
    unfoldable pub create_password_session :
        Text
        → Text
        → ℕ
        → List SessionOptions
        → Secrets
        → Db
        → Db
        → Db × (Credentials ⊎ SessionError)
    create_password_session username password now requested secrets before db =
        with_credential username password now requested secrets (administrator_credential before) db
