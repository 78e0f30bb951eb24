-- ===== src/Sessions/Sound.antt =====
-- What all operations keep of the tables: each token is that of a session, no session has more
-- than eight, and a session expires after its creation.
use tdns.Base.{text_beq_iff}
use tdns.Base.{ap}
use tdns.Base.{
  nat_eq, Text, text_eq, Bool-cases, if_elim, keep, any, All, ◌≤◌, ◌<◌, ◌≡◌, inl, inr, Bool, true,
  false, not, List, [], ◌∷◌, ◌++◌, arith,
}
use tdns.Sessions.Tables.{SessionRow, TokenRow, Db, has_hash, of_session, delete_sessions}
use tdns.Sessions.Types.{max_csrf_tokens}
use tdns.Sessions.Rows.{count_rows, count_rows-keep-le}

-- A session with this hash is in the table.
abbrev pub is_known : List SessionRow → Text → Bool
is_known rows hash = any (has_hash hash) rows

pub record IsSound (db : Db) : Type 0 where
  pub owned :
      (hash : Text) → any (of_session hash) db.tokens ≡ true → is_known db.sessions hash ≡ true
  pub bounded : (hash : Text) → count_rows (of_session hash) db.tokens ≤ max_csrf_tokens
  pub lives : All (λ row. row.created_at < row.expires_at) db.sessions

All-keep {ℓ κ} :
    {A : Type ℓ} (P : A → Type κ) (p : A → Bool) (xs : List A) → All P xs → All P (keep p xs)
unfolding keep
All-keep P p [] h = tt
All-keep P p (x ∷ xs) h =
    if_elim (All P) (p x) _ _ (λ _. (h.0, All-keep P p xs h.1)) (λ _. All-keep P p xs h.1)

pub All-concat {ℓ κ} :
    {A : Type ℓ} (P : A → Type κ) (xs : List A) (a : A) → All P xs → P a → All P (xs ++ a ∷ [])
All-concat P [] a h k = (k, tt)
All-concat P (x ∷ xs) a h k = (h.0, All-concat P xs a h.1 k)

-- A session is left, or is among the deleted ones.
is_known-keep :
    (p : SessionRow → Bool) (rows : List SessionRow) (hash : Text)
    → is_known rows hash ≡ true
    → is_known (keep p rows) hash ≡ false
    → is_known (keep (λ row. not (p row)) rows) hash ≡ true
unfolding any keep
is_known-keep p [] hash h k = cc
is_known-keep p (row ∷ rows) hash h k = ground (arith, is_known-keep p rows hash)

any-keep-not :
    (hash : Text) (gone : List SessionRow) (tokens : List TokenRow)
    → any (of_session hash) (keep (λ row. not (is_known gone row.session_hash)) tokens) ≡ true
    → (any (of_session hash) tokens ≡ true) × (is_known gone hash ≡ false)
unfolding any keep
any-keep-not hash gone [] h = cc
any-keep-not hash gone (row ∷ tokens) h = elim (Bool-cases (of_session hash row)) [
  | inl e ↦ ground (
    arith,
    ap (is_known gone) ((text_beq_iff row.session_hash hash).0 e),
    any-keep-not hash gone tokens,
  )
  | inr e ↦ ground (arith, any-keep-not hash gone tokens)
]

pub delete_sessions-IsSound :
    (p : SessionRow → Bool) (db : Db) → IsSound db → IsSound (delete_sessions p db)
unfolding delete_sessions
delete_sessions-IsSound p db s = record {
  owned = λ hash a.
      let (b, c) = any-keep-not hash (keep p db.sessions) db.tokens a in
      is_known-keep p db.sessions hash (s.owned hash b) c;
  bounded = λ hash. omega (arith, s.bounded hash, count_rows-keep-le (of_session hash) _ db.tokens);
  lives = All-keep _ _ db.sessions s.lives;
}
