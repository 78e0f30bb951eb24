-- ===== src/Sessions/Rows.antt =====
-- Lemmas on the rows of a table: which of them a deletion, a sorting or a limit leaves.
use tdns.Base.{not}
use tdns.Base.{ap}
use tdns.Base.{sym}
use tdns.Base.{
  if◌then◌else◌, nat_eq, text_eq, Bool-cases, keep, any, ℕ, zero, suc, ◌+◌, ◌≤◌, ◌≡◌, refl, subst,
  inl, inr, Bool, true, false, ◌&&◌, ◌||◌, some, List, [], ◌∷◌, ◌++◌, arith,
}
use tdns.Base.Sorting.{insert_sorted, sort_by}
use tdns.Sessions.Tables.{find_row, take_rows, skip_rows}

module _ {ℓ} {A : Type ℓ} where
  pub any-keep : (p q : A → Bool) (xs : List A) → any p (keep q xs) ≡ any (λ x. q x && p x) xs
  unfolding any keep
  any-keep p q [] = refl
  any-keep p q (x ∷ xs) = ground (arith, any-keep p q xs)

  pub any-take_rows :
      (p : A → Bool) (n : ℕ) (xs : List A) → any p (take_rows n xs) ≡ true → any p xs ≡ true
  unfolding any take_rows
  any-take_rows p zero xs h = cc
  any-take_rows p (suc n) [] h = cc
  any-take_rows p (suc n) (x ∷ xs) h = ground (arith, any-take_rows p n xs)

  any-insert_sorted :
      (p : A → Bool) (le : A → A → Bool) (a : A) (xs : List A)
      → any p (insert_sorted le a xs) ≡ (p a || any p xs)
  unfolding any insert_sorted
  any-insert_sorted p le a [] = refl
  any-insert_sorted p le a (x ∷ xs) = ground (arith, any-insert_sorted p le a xs)

  pub any-sort_by :
      (p : A → Bool) (le : A → A → Bool) (xs : List A) → any p (sort_by le xs) ≡ any p xs
  unfolding any sort_by
  any-sort_by p le [] = refl
  any-sort_by p le (x ∷ xs) =
      ground (arith, any-insert_sorted p le x (sort_by le xs), any-sort_by p le xs)

  pub any-append : (p : A → Bool) (xs ys : List A) → any p (xs ++ ys) ≡ (any p xs || any p ys)
  unfolding any
  any-append p [] ys = refl
  any-append p (x ∷ xs) ys = ground (arith, any-append p xs ys)

  pub any_concat : (p : A → Bool) (xs : List A) (a : A) → p a ≡ true → any p (xs ++ a ∷ []) ≡ true
  unfolding any
  any_concat p [] a h = ground arith
  any_concat p (x ∷ xs) a h = ground (arith, any_concat p xs a h)

  -- How many rows pass a test.
  unfoldable pub count_rows : (A → Bool) → List A → ℕ
  count_rows p [] = 0
  count_rows p (x ∷ xs) = let rest = count_rows p xs in if p x then suc rest else rest

  pub count_rows-append :
      (p : A → Bool) (xs ys : List A) → count_rows p (xs ++ ys) ≡ count_rows p xs + count_rows p ys
  unfolding count_rows
  count_rows-append p [] ys = omega arith
  count_rows-append p (x ∷ xs) ys = ground (arith, count_rows-append p xs ys)

  pub count_rows-keep-le :
      (p q : A → Bool) (xs : List A) → count_rows p (keep q xs) ≤ count_rows p xs
  unfolding count_rows keep
  count_rows-keep-le p q [] = omega arith
  count_rows-keep-le p q (x ∷ xs) = ground (arith, count_rows-keep-le p q xs)

  pub count_rows-keep :
      (p q : A → Bool) (xs : List A) → count_rows p (keep q xs) ≡ count_rows (λ x. q x && p x) xs
  unfolding count_rows keep
  count_rows-keep p q [] = refl
  count_rows-keep p q (x ∷ xs) = ground (arith, count_rows-keep p q xs)

  count_rows-insert_sorted :
      (p : A → Bool) (le : A → A → Bool) (a : A) (xs : List A)
      → count_rows p (insert_sorted le a xs) ≡ count_rows p (a ∷ xs)
  unfolding count_rows insert_sorted
  count_rows-insert_sorted p le a [] = refl
  count_rows-insert_sorted p le a (x ∷ xs) = ground (arith, count_rows-insert_sorted p le a xs)

  pub count_rows-sort_by :
      (p : A → Bool) (le : A → A → Bool) (xs : List A)
      → count_rows p (sort_by le xs) ≡ count_rows p xs
  unfolding count_rows sort_by
  count_rows-sort_by p le [] = refl
  count_rows-sort_by p le (x ∷ xs) =
      ground (arith, count_rows-insert_sorted p le x (sort_by le xs), count_rows-sort_by p le xs)

  -- No row passes if none does.
  pub count_rows-eq-zero : (p : A → Bool) (xs : List A) → any p xs ≡ false → count_rows p xs ≡ 0
  unfolding any count_rows
  count_rows-eq-zero p [] h = refl
  count_rows-eq-zero p (x ∷ xs) h = ground (arith, count_rows-eq-zero p xs)

  -- A test that no row behind the first `n` passes counts `n` rows at most.
  pub count_rows-skip_rows :
      (p : A → Bool) (n : ℕ) (xs : List A) → count_rows p (skip_rows n xs) ≡ 0 → count_rows p xs ≤ n
  unfolding count_rows skip_rows
  count_rows-skip_rows p zero xs h = omega arith
  count_rows-skip_rows p (suc n) [] h = omega arith
  count_rows-skip_rows p (suc n) (x ∷ xs) h = ground (arith, count_rows-skip_rows p n xs)

  pub find_row-eq-some :
      (p : A → Bool) (xs : List A) (a : A)
      → find_row p xs ≡ some a
      → (p a ≡ true) × (any p xs ≡ true)
  unfolding find_row any
  find_row-eq-some p [] a h = cc
  find_row-eq-some p (x ∷ xs) a h = elim (Bool-cases (p x)) [
    | inl e ↦ (subst (λ y. p y ≡ true) (ground arith) e, rw e refl)
    | inr e ↦ ground (arith, find_row-eq-some p xs a)
  ]

  pub find_row_concat :
      (p : A → Bool) (xs : List A) (a : A)
      → any p xs ≡ false
      → p a ≡ true
      → find_row p (xs ++ a ∷ []) ≡ some a
  unfolding find_row any
  find_row_concat p [] a h k = ground arith
  find_row_concat p (x ∷ xs) a h k = ground (arith, find_row_concat p xs a)

  -- A row that is found and left is still found.
  pub find_row-keep :
      (p q : A → Bool) (xs : List A) (a : A)
      → find_row p xs ≡ some a
      → q a ≡ true
      → find_row p (keep q xs) ≡ some a
  unfolding find_row keep
  find_row-keep p q [] a h k = cc
  find_row-keep p q (x ∷ xs) a h k = elim (Bool-cases (p x)) [
    | inl e ↦
        let same : x ≡ a = ground arith in
        rw (subst (λ y. q y ≡ true) (sym same) k, e) (ap some same)
    | inr e ↦ ground (arith, find_row-keep p q xs a)
  ]

  -- A row that is found after a deletion was left.
  find_row-keep_of :
      (p q : A → Bool) (xs : List A) (a : A) → find_row p (keep q xs) ≡ some a → q a ≡ true
  unfolding find_row keep
  find_row-keep_of p q [] a h = cc
  find_row-keep_of p q (x ∷ xs) a h = elim (Bool-cases (q x)) [
    | inl e ↦ elim (Bool-cases (p x)) [
      | inl e' ↦ let same : x ≡ a = ground arith in subst (λ y. q y ≡ true) same e
      | inr e' ↦ find_row-keep_of p q xs a (ground arith)
    ]
    | inr e ↦ find_row-keep_of p q xs a (ground arith)
  ]

  pub any-keep_none : (p : A → Bool) (xs : List A) → any p (keep (λ x. not (p x)) xs) ≡ false
  unfolding any keep
  any-keep_none p [] = refl
  any-keep_none p (x ∷ xs) = ground (arith, any-keep_none p xs)
