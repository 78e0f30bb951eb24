-- ===== src/Sessions/Added.antt =====
-- Tables to which a session or a token is added.
use tdns.Base.{
  ltb, nat_eq, Text, text_beq_iff, text_eq, Bool-cases, beq_refl, if_elim, any, All, ℕ, ◌*◌, ◌<◌,
  ◌≡◌, refl, sym, ap, ◌∙◌, subst, inl, inr, true, false, ◌&&◌, Option, none, some, List, [], ◌∷◌,
  ◌++◌, arith,
}
use tdns.Sessions.Tables.{SessionRow, TokenRow, Db, find_row, has_hash, of_session, touch_rows}
use tdns.Sessions.Types.{one_second, Credentials, is_past}
use tdns.Sessions.Store.{session_row, insert_session, check_row, live_row}
use tdns.Sessions.Rows.{any-append, count_rows-eq-zero, find_row-eq-some}
use tdns.Sessions.Outcomes.{inserted}
use tdns.Sessions.Sound.{is_known, IsSound, All-concat}
use tdns.Sessions.Trim.{count_rows-insert_token, count_rows-insert_token_le}

known_concat :
    (rows : List SessionRow) (row : SessionRow) (h : Text)
    → is_known rows h ≡ true
    → is_known (rows ++ row ∷ []) h ≡ true
known_concat rows row h k = any-append (has_hash h) rows (row ∷ []) ∙ rw k refl

known_own :
    (rows : List SessionRow) (row : SessionRow)
    → is_known (rows ++ row ∷ []) row.session_hash ≡ true
unfolding any
known_own rows row =
    any-append (has_hash row.session_hash) rows (row ∷ [])
    ∙ ground (arith, beq_refl row.session_hash)

-- A session and its first token.
new_session-IsSound :
    (row : SessionRow) (token : TokenRow) (db : Db)
    → is_known db.sessions row.session_hash ≡ false
    → row.created_at < row.expires_at
    → token.session_hash ≡ row.session_hash
    → IsSound db
    → IsSound (record db { sessions = db.sessions ++ row ∷ []; tokens = db.tokens ++ token ∷ [] })
unfolding any
new_session-IsSound row token db new live same s = record {
  owned = λ h a. elim (Bool-cases (of_session h token)) [
    | inl e ↦
        subst (λ q. is_known (db.sessions ++ row ∷ []) q ≡ true)
          (sym same ∙ (text_beq_iff token.session_hash h).0 e) (known_own db.sessions row)
    | inr e ↦
        known_concat db.sessions row h
          (s.owned h (ground (arith, any-append (of_session h) db.tokens (token ∷ []))))
  ];
  bounded = λ h. elim (Bool-cases (any (of_session h) db.tokens)) [
    | inl e ↦ elim (Bool-cases (of_session h token)) [
      | inl same_hash ↦ absurd (
          ground (
            arith,
            s.owned h e,
            ap (is_known db.sessions) (sym same ∙ (text_beq_iff token.session_hash h).0 same_hash),
          ))
      | inr differs ↦ omega (arith, count_rows-insert_token h token db.tokens differs, s.bounded h)
    ]
    | inr e ↦ omega (
      arith,
      count_rows-eq-zero (of_session h) db.tokens e,
      count_rows-insert_token_le h token db.tokens,
    )
  ];
  lives = All-concat _ db.sessions row s.lives live;
}

pub touch_rows-known :
    (hash : Text) (now : ℕ) (rows : List SessionRow) (h : Text)
    → is_known (touch_rows hash now rows) h ≡ is_known rows h
unfolding touch_rows any
touch_rows-known hash now [] h = refl
touch_rows-known hash now (row ∷ rows) h = ground (arith, touch_rows-known hash now rows h)

pub touch_rows-lives :
    (hash : Text) (now : ℕ) (rows : List SessionRow)
    → All (λ row. row.created_at < row.expires_at) rows
    → All (λ row. row.created_at < row.expires_at) (touch_rows hash now rows)
unfolding touch_rows
touch_rows-lives hash now [] h = tt
touch_rows-lives hash now (row ∷ rows) h = (
  if_elim {A = SessionRow} (λ r. r.created_at < r.expires_at)
      (has_hash hash row && ltb now row.expires_at) (record row { last_used_at = now }) row
      (λ _. h.0) (λ _. h.0),
  touch_rows-lives hash now rows h.1,
)

module _ (hash_secret : Text → Text) where
  pub inserted-IsSound :
      (c : Credentials) (now : ℕ) (db db' : Db)
      → insert_session hash_secret c now db ≡ inl db'
      → IsSound db
      → IsSound db'
  inserted-IsSound c now db db' i s =
      let (new, live, same) = inserted hash_secret c now db db' i in
      subst IsSound (sym same)
        (new_session-IsSound (session_row hash_secret c) _ db new live refl s)

  -- A session that is live is there.
  pub live_row-known :
      (session_id : Text) (now : ℕ) (db : Db) (row : SessionRow)
      → live_row hash_secret session_id now db ≡ inl row
      → (is_known db.sessions (hash_secret session_id) ≡ true) × (now < row.expires_at * one_second)
  live_row-known session_id now db row h =
      from_check (find_row (has_hash (hash_secret session_id)) db.sessions) refl (ground arith)
    where
      from_check :
          (o : Option SessionRow)
          → find_row (has_hash (hash_secret session_id)) db.sessions ≡ o
          → check_row hash_secret now o ≡ inl row
          → (is_known db.sessions (hash_secret session_id) ≡ true)
            × (now < row.expires_at * one_second)
      from_check none f c = cc
      from_check (some r) f c = elim (Bool-cases (is_past now r.expires_at)) [
        | inl past ↦ absurd (ground arith)
        | inr live ↦
            let same : r ≡ row = ground arith in
            (
              (find_row-eq-some (has_hash (hash_secret session_id)) db.sessions r f).1,
              ground (arith, ap (λ x. x.expires_at) same),
            )
      ]
