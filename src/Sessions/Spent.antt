-- ===== src/Sessions/Spent.antt =====
-- A code that was redeemed is never redeemed again.
use tdns.Base.{
  leb, eqb, nat_eq, Text, text_beq_iff, text_eq, Bool-cases, beq_refl, if_elim, keep, any, All, ℕ,
  ◌≤◌, ◌≡◌, refl, sym, ap, ◌∙◌, ◌⊎◌, inl, inr, Bool, true, false, not, ◌&&◌, List, [], ◌∷◌, ◌++◌,
  arith,
}
use tdns.Sessions.Tables.{CodeRow, Db, is_code, delete_sessions}
use tdns.Sessions.Types.{unix, SessionError, Principal, Credentials}
use tdns.Sessions.Store.{consume}
use tdns.Sessions.Csrf.{
  code_expires_first, expired_codes, purge_sessions, purge_codes, purge_expired,
}
use tdns.Sessions.Rows.{any-keep, any-take_rows, any-sort_by, any-append}
use tdns.Sessions.Outcomes.{IsRedeemed, inserted}

-- Every row of a code has this expiry.
abbrev HasExpiry : Text → ℕ → List CodeRow → Type 0
HasExpiry h e = All (λ row. is_code h row ≡ true → row.expires_at ≡ e)

-- The code is in the table, or has expired at a time.
abbrev pub IsSpent : Text → ℕ → ℕ → List CodeRow → Type 0
IsSpent h e now codes = ((any (is_code h) codes ≡ true) × HasExpiry h e codes) ⊎ (e ≤ now)

HasExpiry-concat :
    (h : Text) (e : ℕ) (codes : List CodeRow) (row : CodeRow)
    → HasExpiry h e codes
    → (is_code h row ≡ true → row.expires_at ≡ e)
    → HasExpiry h e (codes ++ row ∷ [])
HasExpiry-concat h e [] row k new = (new, tt)
HasExpiry-concat h e (r ∷ codes) row k new = (k.0, HasExpiry-concat h e codes row k.1 new)

HasExpiry-of_none :
    (h : Text) (e : ℕ) (codes : List CodeRow) → any (is_code h) codes ≡ false → HasExpiry h e codes
unfolding any
HasExpiry-of_none h e [] n = tt
HasExpiry-of_none h e (row ∷ codes) n =
    (λ c. absurd (ground arith), HasExpiry-of_none h e codes (ground arith))

HasExpiry-keep :
    (h : Text) (e : ℕ) (p : CodeRow → Bool) (codes : List CodeRow)
    → HasExpiry h e codes
    → HasExpiry h e (keep p codes)
unfolding keep
HasExpiry-keep h e p [] k = tt
HasExpiry-keep h e p (row ∷ codes) k =
    if_elim {A = List CodeRow} (HasExpiry h e) (p row) _ _
      (λ _. (k.0, HasExpiry-keep h e p codes k.1)) (λ _. HasExpiry-keep h e p codes k.1)

-- A code that is among the expired has expired.
expiry_of_any :
    (h : Text) (e now : ℕ) (codes : List CodeRow)
    → HasExpiry h e codes
    → any (λ row. leb row.expires_at now && is_code h row) codes ≡ true
    → e ≤ now
unfolding any
expiry_of_any h e now [] k a = cc
expiry_of_any h e now (row ∷ codes) k a =
    elim (Bool-cases (leb row.expires_at now && is_code h row)) [
      | inl c ↦ ground (arith, k.0)
      | inr c ↦ expiry_of_any h e now codes k.1 (ground arith)
    ]

-- A row of the code is left unless the code is among those that are deleted.
any-keep_code :
    (h : Text) (dead codes : List CodeRow)
    → any (is_code h) dead ≡ false
    → any (is_code h) (keep (λ row. not (any (is_code row.code_hash) dead)) codes)
      ≡ any (is_code h) codes
unfolding any keep
any-keep_code h dead [] n = refl
any-keep_code h dead (row ∷ codes) n = elim (Bool-cases (is_code h row)) [
  | inl c ↦ rw (c, (text_beq_iff row.code_hash h).0 c, n) (rw (beq_refl h) refl)
  | inr c ↦ ground (arith, any-keep_code h dead codes n)
]

purge_codes-IsSpent :
    (h : Text) (e now t limit : ℕ) (db : Db)
    → now ≤ t
    → IsSpent h e t db.codes
    → IsSpent h e t (purge_codes now limit db).codes
purge_codes-IsSpent h e now t limit db o (inr late) = inr late
purge_codes-IsSpent h e now t limit db o (inl (a, k)) =
    elim (Bool-cases (any (is_code h) (expired_codes now limit db))) [
      | inl dead ↦
          let past = expiry_of_any h e now db.codes k (
            sym (any-keep (is_code h) (λ row. leb row.expires_at now) db.codes)
            ∙ sym (
                any-sort_by (is_code h) code_expires_first
                  (keep (λ row. leb row.expires_at now) db.codes))
            ∙ any-take_rows (is_code h) limit _ dead) in
          inr (omega arith)
      | inr alive ↦ inl (
        any-keep_code h (expired_codes now limit db) db.codes alive ∙ a,
        HasExpiry-keep h e _ db.codes k,
      )
    ]

pub purge-IsSpent :
    (h : Text) (e now t limit : ℕ) (db : Db)
    → unix now ≤ t
    → IsSpent h e t db.codes
    → IsSpent h e t (purge_expired now limit db).0.codes
unfolding purge_expired delete_sessions
purge-IsSpent h e now t limit db o s =
    if_elim {A = Db × ((ℕ × ℕ) ⊎ SessionError)} (λ r. IsSpent h e t r.0.codes) (eqb limit 0) _ _
      (λ _. s)
      (λ _. purge_codes-IsSpent h e (unix now) t limit (purge_sessions (unix now) limit db) o s)

any_own : (h : Text) (row : CodeRow) → row.code_hash ≡ h → any (is_code h) (row ∷ []) ≡ true
unfolding any
any_own h row e = rw e (rw (beq_refl h) refl)

module _ (hash_secret : Text → Text) where
  -- What is known of the codes after a redemption.
  pub redeemed-IsSpent :
      (principal : Principal) (now e t : ℕ) (h : Text) (db : Db)
      (r : Db × (Credentials ⊎ SessionError))
      → IsRedeemed hash_secret principal now db r
      → IsSpent h e t db.codes
      → IsSpent h e t r.0.codes
  redeemed-IsSpent principal now e t h db (db', inr x) same s = rw same s
  redeemed-IsSpent principal now e t h db (db', inl c) k (inr late) = inr late
  redeemed-IsSpent principal now e t h db (db', inl c) (v, f, n, i, subject, scope, method)
        (inl (a, x)) =
      let (new, lives, same) =
        inserted hash_secret c now (consume hash_secret principal now db) db' i in
      rw (ap (λ d. d.codes) same) (
        inl (
          any-append (is_code h) db.codes _ ∙ rw a refl,
          HasExpiry-concat h e db.codes _ x λ own. absurd (
              ground (
                arith,
                ap (λ q. any (is_code q) db.codes)
                    ((text_beq_iff (hash_secret principal.token_id) h).0 own),
              )),
        ))

  -- What is known of the codes after a success.
  pub success-IsSpent :
      (principal : Principal) (now t : ℕ) (db db' : Db) (c : Credentials)
      → IsRedeemed hash_secret principal now db (db', inl c)
      → IsSpent (hash_secret principal.token_id) (unix principal.expires_at) t db'.codes
  success-IsSpent principal now t db db' c (v, f, n, i, subject, scope, method) =
      let h = hash_secret principal.token_id in
      let e = unix principal.expires_at in
      let (new, lives, same) =
        inserted hash_secret c now (consume hash_secret principal now db) db' i in
      rw (ap (λ d. d.codes) same) (
        inl (
          any-append (is_code h) db.codes _ ∙ rw n (any_own h _ refl),
          HasExpiry-concat h e db.codes _ (HasExpiry-of_none h e db.codes n) (λ _. refl),
        ))
