-- ===== src/Sessions/Csrf.antt =====
-- internal/browserauth/store.go: `IssueCSRF`, which keeps the newest tokens of a session, and
-- `PurgeExpired`.
use tdns.Base.{
  ltb, leb, eqb, if◌then◌else◌, nat_eq, Text, text_eq, ◌==◌, length, is_empty, keep, any, ℕ, ◌⊎◌,
  inl, inr, Bool, not, ◌&&◌, ◌||◌, Option, none, some, List,
}
use tdns.Base.Sorting.{sort_by, text_leb}
use tdns.Sessions.Tables.{
  CodeRow, SessionRow, TokenRow, Db, take_rows, skip_rows, has_hash, of_session, is_code,
  delete_sessions,
}
use tdns.Sessions.Types.{
  unix, max_csrf_tokens, SessionError, session_not_found, no_random, invalid_limit,
}
use tdns.Sessions.Store.{token_row, insert_token, live_row}

-- `ORDER BY created_at DESC, csrf_hash DESC`
abbrev pub newer : TokenRow → TokenRow → Bool
newer a b =
    ltb b.created_at a.created_at
    || (eqb a.created_at b.created_at && text_leb b.csrf_hash a.csrf_hash)

-- The hashes that the inner `SELECT` of `IssueCSRF` finds.
abbrev pub surplus : Text → List TokenRow → List TokenRow
surplus hash tokens = skip_rows max_csrf_tokens (sort_by newer (keep (of_session hash) tokens))

abbrev pub is_surplus : Text → List TokenRow → TokenRow → Bool
is_surplus hash dropped row =
    of_session hash row && any (λ other. other.csrf_hash == row.csrf_hash) dropped

unfoldable pub drop_surplus : Text → List TokenRow → List TokenRow
drop_surplus hash tokens = keep (λ row. not (is_surplus hash (surplus hash tokens) row)) tokens

abbrev pub trim_tokens : Text → Db → Db
trim_tokens hash db = record db { tokens = drop_surplus hash db.tokens }

-- `DELETE FROM ... WHERE rowid IN (SELECT ... ORDER BY expires_at LIMIT ?)`, of the sessions.
abbrev expires_first : SessionRow → SessionRow → Bool
expires_first a b = leb a.expires_at b.expires_at

abbrev pub code_expires_first : CodeRow → CodeRow → Bool
code_expires_first a b = leb a.expires_at b.expires_at

abbrev pub expired_sessions : ℕ → ℕ → Db → List SessionRow
expired_sessions now limit db =
    take_rows limit (sort_by expires_first (keep (λ row. leb row.expires_at now) db.sessions))

abbrev pub expired_codes : ℕ → ℕ → Db → List CodeRow
expired_codes now limit db =
    take_rows limit (sort_by code_expires_first (keep (λ row. leb row.expires_at now) db.codes))

-- The key of a row of each table finds it.
abbrev pub purge_sessions : ℕ → ℕ → Db → Db
purge_sessions now limit db =
    delete_sessions (λ row. any (has_hash row.session_hash) (expired_sessions now limit db)) db

abbrev pub purge_codes : ℕ → ℕ → Db → Db
purge_codes now limit db = record db {
  codes = keep (λ row. not (any (is_code row.code_hash) (expired_codes now limit db))) db.codes;
}

-- `PurgeExpired`, with the counts of the removed sessions and codes.
unfoldable pub purge_expired : ℕ → ℕ → Db → Db × ((ℕ × ℕ) ⊎ SessionError)
purge_expired now limit db = if eqb limit 0 then (db, inr invalid_limit) else (
  purge_codes (unix now) limit (purge_sessions (unix now) limit db),
  inl (length (expired_sessions (unix now) limit db), length (expired_codes (unix now) limit db)),
)

module _ (hash_secret : Text → Text) where
  abbrev pub after_insert : Db → Text → Text → Db ⊎ SessionError → Db × (Text ⊎ SessionError)
  after_insert db hash token (inr e) = (db, inr e)
  after_insert db hash token (inl db') = (trim_tokens hash db', inl token)

  abbrev pub issue_for :
      Text → ℕ → Text → Db → SessionRow ⊎ SessionError → Db × (Text ⊎ SessionError)
  issue_for hash now token db (inr e) = (db, inr e)
  issue_for hash now token db (inl row) =
      after_insert db hash token
        (insert_token hash_secret (token_row hash_secret hash token now) db)

  abbrev issue_token : Text → ℕ → Option Text → Db → Db × (Text ⊎ SessionError)
  issue_token session_id now none db = (db, inr no_random)
  issue_token session_id now (some token) db =
      issue_for (hash_secret session_id) now token db (live_row hash_secret session_id now db)

  -- `IssueCSRF`
  unfoldable pub issue_csrf : Text → ℕ → Option Text → Db → Db × (Text ⊎ SessionError)
  issue_csrf session_id now secret db =
      if is_empty session_id
      then (db, inr session_not_found)
      else issue_token session_id now secret db
