-- ===== src/Sessions/Trim.antt =====
-- How many tokens of a session are left when the surplus is dropped.
use tdns.Base.{
  nat_eq, Text, text_beq_iff, text_eq, ◌==◌, Bool-cases, beq_refl, keep, any, All, ◌+◌, ◌≤◌, ◌<◌,
  ◌≡◌, refl, sym, ◌∙◌, subst, inl, inr, Bool, true, false, not, ◌&&◌, List, [], ◌∷◌, ◌++◌, arith,
}
use tdns.Base.Sorting.{sort_by}
use tdns.Sessions.Tables.{TokenRow, Db, skip_rows, of_session}
use tdns.Sessions.Types.{max_csrf_tokens}
use tdns.Sessions.Csrf.{newer, surplus, is_surplus, drop_surplus, trim_tokens}
use tdns.Sessions.Rows.{
  any-append, count_rows, count_rows-append, count_rows-keep-le, count_rows-keep,
  count_rows-sort_by, count_rows-skip_rows,
}
use tdns.Sessions.Sound.{is_known, IsSound}

abbrev same_csrf : List TokenRow → TokenRow → Bool
same_csrf rows row = any (λ other. other.csrf_hash == row.csrf_hash) rows

abbrev is_new_csrf : List TokenRow → TokenRow → Bool
is_new_csrf rows row = not (same_csrf rows row)

same_csrf-weaken :
    (row : TokenRow) (rows xs : List TokenRow)
    → All (λ x. same_csrf rows x ≡ true) xs
    → All (λ x. same_csrf (row ∷ rows) x ≡ true) xs
unfolding any
same_csrf-weaken row rows [] h = tt
same_csrf-weaken row rows (x ∷ xs) h = (ground (arith, h.0), same_csrf-weaken row rows xs h.1)

same_csrf_self : (rows : List TokenRow) → All (λ x. same_csrf rows x ≡ true) rows
unfolding any
same_csrf_self [] = tt
same_csrf_self (row ∷ rows) =
    (rw (beq_refl row.csrf_hash) refl, same_csrf-weaken row rows rows (same_csrf_self rows))

count_rows-not {ℓ} :
    {A : Type ℓ} (p : A → Bool) (xs : List A)
    → All (λ x. p x ≡ true) xs
    → count_rows (λ x. not (p x)) xs ≡ 0
unfolding count_rows
count_rows-not p [] h = refl
count_rows-not p (x ∷ xs) h = ground (arith, h.0, count_rows-not p xs h.1)

count_rows-congr {ℓ} :
    {A : Type ℓ} (p q : A → Bool)
    → ((x : A) → p x ≡ q x)
    → (xs : List A) → count_rows p xs ≡ count_rows q xs
unfolding count_rows
count_rows-congr p q h [] = refl
count_rows-congr p q h (x ∷ xs) = ground (arith, h x, count_rows-congr p q h xs)

-- At most eight tokens of the session are left.
count_rows-drop_surplus :
    (hash : Text) (tokens : List TokenRow)
    → count_rows (of_session hash) (drop_surplus hash tokens) ≤ max_csrf_tokens
unfolding drop_surplus
count_rows-drop_surplus hash tokens =
    let mine = sort_by newer (keep (of_session hash) tokens) in
    let extra = skip_rows max_csrf_tokens mine in
    let new = is_new_csrf extra in
    let small =
      count_rows-skip_rows new max_csrf_tokens mine
        (count_rows-not (same_csrf extra) extra (same_csrf_self extra)) in
    let same =
      count_rows-keep (of_session hash) (λ row. not (is_surplus hash extra row)) tokens
      ∙ count_rows-congr _ (λ row. of_session hash row && new row) (λ row. ground arith) tokens
      ∙ sym (count_rows-keep new (of_session hash) tokens)
      ∙ sym (count_rows-sort_by new newer (keep (of_session hash) tokens)) in
    omega (arith, small, same)

any-keep_le {ℓ} :
    {A : Type ℓ} (p q : A → Bool) (xs : List A) → any p (keep q xs) ≡ true → any p xs ≡ true
unfolding any keep
any-keep_le p q [] h = cc
any-keep_le p q (x ∷ xs) h = ground (arith, any-keep_le p q xs)

-- The surplus of one session may be there before.
pub trim_tokens-IsSound :
    (hash : Text) (db : Db)
    → ((h : Text) → any (of_session h) db.tokens ≡ true → is_known db.sessions h ≡ true)
    → ((h : Text) → (hash == h) ≡ false → count_rows (of_session h) db.tokens ≤ max_csrf_tokens)
    → All (λ row. row.created_at < row.expires_at) db.sessions
    → IsSound (trim_tokens hash db)
unfolding drop_surplus
trim_tokens-IsSound hash db owned bounded lives = record {
  owned = λ h a. owned h (any-keep_le (of_session h) _ db.tokens a);
  bounded = λ h. elim (Bool-cases (hash == h)) [
    | inl e ↦
        subst (λ q. count_rows (of_session q) (drop_surplus hash db.tokens) ≤ max_csrf_tokens)
          ((text_beq_iff hash h).0 e) (count_rows-drop_surplus hash db.tokens)
    | inr e ↦ omega (
      arith,
      bounded h e,
      count_rows-keep-le (of_session h) (λ row. not (is_surplus hash (surplus hash db.tokens) row))
          db.tokens,
    )
  ];
  lives = lives;
}

-- A token of a session that is there.
pub insert_token-owned :
    (row : TokenRow) (db : Db)
    → is_known db.sessions row.session_hash ≡ true
    → IsSound db
    → (h : Text) → any (of_session h) (db.tokens ++ row ∷ []) ≡ true
    → is_known db.sessions h ≡ true
unfolding any
insert_token-owned row db k s h a = elim (Bool-cases (of_session h row)) [
  | inl e ↦ subst (λ q. is_known db.sessions q ≡ true) ((text_beq_iff row.session_hash h).0 e) k
  | inr e ↦ s.owned h (ground (arith, any-append (of_session h) db.tokens (row ∷ [])))
]

pub count_rows-insert_token :
    (h : Text) (row : TokenRow) (tokens : List TokenRow)
    → (row.session_hash == h) ≡ false
    → count_rows (of_session h) (tokens ++ row ∷ []) ≡ count_rows (of_session h) tokens
unfolding count_rows
count_rows-insert_token h row tokens e =
    ground (arith, count_rows-append (of_session h) tokens (row ∷ []))

pub count_rows-insert_token_le :
    (h : Text) (row : TokenRow) (tokens : List TokenRow)
    → count_rows (of_session h) (tokens ++ row ∷ []) ≤ count_rows (of_session h) tokens + 1
unfolding count_rows
count_rows-insert_token_le h row tokens =
    ground (arith, count_rows-append (of_session h) tokens (row ∷ []))
