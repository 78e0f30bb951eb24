-- ===== src/Sessions/Ops.antt =====
-- All that changes the tables of internal/browserauth, one operation after the other.
use tdns.Base.{nat_eq, Text, text_eq, ℕ, Option, List, [], ◌∷◌}
use tdns.Sessions.Tables.{Db}
use tdns.Sessions.Types.{Principal, SessionOptions, Secrets}
use tdns.Sessions.Store.{redeem_code, touch_session, revoke_session}
use tdns.Sessions.Csrf.{purge_expired, issue_csrf}
use tdns.Sessions.Password.{
  Bcrypt, set_administrator_password, disable_administrator, create_password_session,
}

pub data SessionOp : Type 0 where
  redeem : Principal → ℕ → List SessionOptions → Secrets → SessionOp
  use_session : Text → ℕ → SessionOp
  revoke : Text → SessionOp
  issue : Text → ℕ → Option Text → SessionOp
  purge : ℕ → ℕ → SessionOp
  set_password : Text → Text → ℕ → SessionOp
  disable : ℕ → SessionOp
  log_in : Text → Text → ℕ → List SessionOptions → Secrets → Db → SessionOp

-- The time at which an operation is run; one that reads no clock may be run at any.
abbrev pub op_time : SessionOp → ℕ
op_time (redeem principal now requested secrets) = now
op_time (use_session session_id now) = now
op_time (revoke session_id) = 0
op_time (issue session_id now secret) = now
op_time (purge now limit) = now
op_time (set_password username password now) = now
op_time (disable now) = now
op_time (log_in username password now requested secrets before) = now

module _ (hash_secret : Text → Text) (b : Bcrypt) where
  abbrev pub run_op : SessionOp → Db → Db
  run_op (redeem principal now requested secrets) db =
      (redeem_code hash_secret principal now requested secrets db).0
  run_op (use_session session_id now) db = (touch_session hash_secret session_id now db).0
  run_op (revoke session_id) db = (revoke_session hash_secret session_id db).0
  run_op (issue session_id now secret) db = (issue_csrf hash_secret session_id now secret db).0
  run_op (purge now limit) db = (purge_expired now limit db).0
  run_op (set_password username password now) db =
      (set_administrator_password b username password now db).0
  run_op (disable now) db = (disable_administrator b now db).0
  run_op (log_in username password now requested secrets before) db =
      (create_password_session b hash_secret username password now requested secrets before db).0

  unfoldable pub run_ops : List SessionOp → Db → Db
  run_ops [] db = db
  run_ops (op ∷ ops) db = run_ops ops (run_op op db)
