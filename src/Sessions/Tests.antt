-- ===== src/Sessions/Tests.antt =====
-- One code, one administrator, and a hash that is the secret itself.
use tdns.Base.{
  nat_eq, Text, text_beq, text_eq, ◌==◌, keep, any, ◌*◌, ◌≡◌, refl, ◌⊎◌, inl, inr, true, false,
  none, some, List, [], ◌∷◌, arith,
}
use tdns.Base.Strings.{txt, to_lower, trim_left, trim_right}
use tdns.Sessions.Tables.{Db, find_row, delete_sessions}
use tdns.Sessions.Types.{
  one_second, browser_code_purpose, scope_read, scope_write, method_browser_code, method_password,
  SessionError, Principal, Credentials, default_session_options, resolve_session_options, Secrets,
  new_session,
}
use tdns.Sessions.Store.{insert_session, redeem_code, get_session, validate_csrf}
use tdns.Sessions.Password.{
  bcrypt_cost, Bcrypt, all_name_bytes, ends_with_mark, normalize_username, revoke_password_sessions,
  set_administrator_password, administrator_credential, create_password_session,
}
use tdns.Sessions.Rows.{count_rows}
use tdns.Sessions.Ops.{SessionOp, use_session, issue, purge, run_ops}
use tdns.Sessions.Replay.{redeem_code_once}
use tdns.Sessions.Sound.{IsSound}
use tdns.Sessions.Bounds.{run_ops-IsSound}
use tdns.Sessions.Rotation.{by_password, login_after_rotation, get_session_after_rotation}
use tdns.Sessions.Opened.{get_session-redeem_code}

abbrev plain : Text → Text
plain secret = secret

abbrev plain_bcrypt : Bcrypt
plain_bcrypt = record {
  generate = λ password cost. some password;
  compare = λ hash password. hash == password;
  cost = λ hash. some bcrypt_cost;
  is_utf8 = λ t. true;
}

abbrev empty_db : Db
empty_db = record { codes = []; sessions = []; tokens = []; administrator = none }

abbrev code : Principal
code = record {
  purpose = browser_code_purpose;
  token_id = txt "t1";
  subject = txt "ops";
  scope = scope_read;
  expires_at = 60 * one_second;
}

abbrev secrets : Secrets
secrets = record { session_id = some (txt "s1"); csrf_token = some (txt "c1") }

abbrev opened : Credentials
opened = record {
  session_id = txt "s1";
  csrf_token = txt "c1";
  session =
      new_session (txt "ops") scope_read method_browser_code (10 * one_second)
        default_session_options;
}

abbrev with_session : Db
with_session = (redeem_code plain code (10 * one_second) [] secrets empty_db).0

abbrev between : List SessionOp
between =
    use_session (txt "s1") (11 * one_second)
    ∷ issue (txt "s1") (12 * one_second) (some (txt "c2"))
    ∷ purge (40 * one_second) 500
    ∷ []

redeem_code_once_example :
    (e : SessionError) × (redeem_code plain code
        (50 * one_second)
        []
        secrets
        (run_ops plain plain_bcrypt between with_session)
      ≡ (run_ops plain plain_bcrypt between with_session, inr e))
unfolding redeem_code tdns.Base.text_beq tdns.Base.Strings.trim_right tdns.Base.Strings.trim_left
    tdns.Sessions.Types.resolve_session_options any tdns.Sessions.Store.insert_session
redeem_code_once_example =
    redeem_code_once plain plain_bcrypt code (10 * one_second) (50 * one_second) [] [] secrets
      secrets empty_db with_session opened between refl refl
      (omega arith, (omega arith, (omega arith, tt)))

empty_db-IsSound : IsSound empty_db
unfolding any count_rows
empty_db-IsSound = record { owned = λ h a. cc; bounded = λ h. omega arith; lives = tt }

run_ops-IsSound_example : IsSound (run_ops plain plain_bcrypt between empty_db)
run_ops-IsSound_example = run_ops-IsSound plain plain_bcrypt between empty_db empty_db-IsSound

get_session-redeem_code_example :
    (get_session plain (txt "s1") (20 * one_second) with_session ≡ inl opened.session)
    × (validate_csrf plain (txt "s1") (txt "c1") (20 * one_second) with_session ≡ none)
    × (opened.session.subject ≡ code.subject)
    × (opened.session.scope ≡ code.scope)
unfolding redeem_code tdns.Base.text_beq tdns.Base.Strings.trim_right tdns.Base.Strings.trim_left
    tdns.Sessions.Types.resolve_session_options any tdns.Sessions.Store.insert_session
get_session-redeem_code_example =
    get_session-redeem_code plain code (10 * one_second) (20 * one_second) [] secrets empty_db
      with_session opened refl refl refl (omega arith)

abbrev password : Text
password = txt "correct horse"

abbrev changed : Db
changed =
    (set_administrator_password plain_bcrypt (txt "Admin") password (15 * one_second)
      with_session).0

abbrev login : Db × (Credentials ⊎ SessionError)
login =
    create_password_session plain_bcrypt plain (txt "admin ") password (16 * one_second) []
      (record { session_id = some (txt "s2"); csrf_token = some (txt "c3") }) changed changed

abbrev logged_in : Credentials
logged_in = record {
  session_id = txt "s2";
  csrf_token = txt "c3";
  session =
      new_session (txt "admin") scope_write method_password (16 * one_second)
        default_session_options;
}

login_after_rotation_example :
    (hash : Text) × (plain_bcrypt.generate password bcrypt_cost ≡ some hash)
    × (plain_bcrypt.compare hash password ≡ true)
    × (normalize_username (txt "admin ") ≡ normalize_username (txt "Admin"))
unfolding set_administrator_password create_password_session administrator_credential
    normalize_username to_lower trim_left trim_right all_name_bytes ends_with_mark text_beq
    revoke_password_sessions delete_sessions keep any insert_session resolve_session_options
    redeem_code
login_after_rotation_example =
    login_after_rotation plain_bcrypt plain (txt "Admin") password (15 * one_second) with_session
      changed (txt "admin ") password (16 * one_second) []
      (record { session_id = some (txt "s2"); csrf_token = some (txt "c3") }) changed login.0
      logged_in refl refl

get_session_after_rotation_example :
    (any by_password changed.sessions ≡ false)
    × (get_session plain (txt "s1") (20 * one_second) changed ≡ inl opened.session)
unfolding set_administrator_password normalize_username tdns.Base.Strings.to_lower
    tdns.Base.Strings.trim_right tdns.Base.Strings.trim_left tdns.Sessions.Password.all_name_bytes
    tdns.Sessions.Password.ends_with_mark get_session tdns.Sessions.Tables.find_row redeem_code
    tdns.Base.text_beq tdns.Sessions.Types.resolve_session_options any
    tdns.Sessions.Store.insert_session
get_session_after_rotation_example =
    get_session_after_rotation plain_bcrypt plain (txt "Admin") password (15 * one_second)
      with_session changed (txt "s1") (20 * one_second) opened.session refl refl refl
