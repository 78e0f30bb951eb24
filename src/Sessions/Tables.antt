-- ===== src/Sessions/Tables.antt =====
-- The tables of internal/db/migrations/auth that internal/browserauth reads and writes, as lists of
-- their rows in the order of insertion. Times in the rows are Unix seconds, but those of CSRF
-- tokens, which are nanoseconds.
use tdns.Base.{
  ltb, if◌then◌else◌, nat_eq, Text, text_eq, ◌==◌, keep, any, ℕ, zero, suc, Bool, not, ◌&&◌, Option,
  none, some, List, [], ◌∷◌,
}

pub record CodeRow : Type 0 where
  pub code_hash : Text
  pub consumed_at : ℕ
  pub expires_at : ℕ

pub record SessionRow : Type 0 where
  pub session_hash : Text
  pub subject : Text
  pub scope : Text
  pub csrf_hash : Text
  pub created_at : ℕ
  pub last_used_at : ℕ
  pub expires_at : ℕ
  pub authentication_method : Text
  pub persistent : Bool

pub record TokenRow : Type 0 where
  pub session_hash : Text
  pub csrf_hash : Text
  pub created_at : ℕ

pub record AdministratorRow : Type 0 where
  pub username : Text
  pub password_hash : Text
  pub subject : Text
  pub scope : Text
  pub enabled : Bool
  pub created_at : ℕ
  pub updated_at : ℕ

-- The row of the administrator is a singleton.
pub record Db : Type 0 where
  pub codes : List CodeRow
  pub sessions : List SessionRow
  pub tokens : List TokenRow
  pub administrator : Option AdministratorRow

-- The first row that passes a test.
unfoldable pub find_row {ℓ} : {A : Type ℓ} → (A → Bool) → List A → Option A
find_row p [] = none
find_row p (x ∷ xs) = let rest = find_row p xs in if p x then some x else rest

unfoldable pub take_rows {ℓ} : {A : Type ℓ} → ℕ → List A → List A
take_rows zero xs = []
take_rows (suc n) [] = []
take_rows (suc n) (x ∷ xs) = x ∷ take_rows n xs

unfoldable pub skip_rows {ℓ} : {A : Type ℓ} → ℕ → List A → List A
skip_rows zero xs = xs
skip_rows (suc n) [] = []
skip_rows (suc n) (x ∷ xs) = skip_rows n xs

abbrev pub has_hash : Text → SessionRow → Bool
has_hash hash row = row.session_hash == hash

abbrev pub of_session : Text → TokenRow → Bool
of_session hash row = row.session_hash == hash

abbrev pub is_code : Text → CodeRow → Bool
is_code hash row = row.code_hash == hash

-- `DELETE FROM browser_sessions WHERE p`: the tokens of the sessions go with them.
unfoldable pub delete_sessions : (SessionRow → Bool) → Db → Db
delete_sessions p db =
    let gone = keep p db.sessions in
    record db {
      sessions = keep (λ row. not (p row)) db.sessions;
      tokens = keep (λ row. not (any (has_hash row.session_hash) gone)) db.tokens;
    }

-- `UPDATE browser_sessions SET last_used_at = now WHERE session_hash = hash AND expires_at > now`
unfoldable pub touch_rows : Text → ℕ → List SessionRow → List SessionRow
touch_rows hash now [] = []
touch_rows hash now (row ∷ rows) =
    (if has_hash hash row && ltb now row.expires_at then record row { last_used_at = now } else row)
    ∷ touch_rows hash now rows
