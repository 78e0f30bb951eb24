-- ===== src/Overrides/Keys.antt =====
-- The row that is found for a kind and a target after a change of the rows.
use tdns.Base.{
  if◌then◌else◌, nat_eq, Text, text_beq_iff, text_eq, ◌==◌, Bool-cases, keep, any, ◌≡◌, refl, sym,
  ap, ◌∙◌, inl, inr, true, false, not, ◌&&◌, none, some, List, [], ◌∷◌, ◌++◌, arith,
}
use tdns.Overrides.Types.{Kind, Row}
use tdns.Overrides.Store.{has_key, update_rows, find_key}
use tdns.Overrides.Spec.{content}
use mathlib.Core.Path.{ap₂}
use tdns.Overrides.Types.{kind_eq, kind_beq_iff}

-- Rows with the same key have every key together.
same_key :
    (new row : Row) (kind : Kind) (target : Text)
    → has_key new.kind new.target row ≡ true
    → has_key kind target row ≡ has_key kind target new
same_key new row kind target h =
    ap₂ (λ k t. k == kind && t == target) ((kind_beq_iff row.kind new.kind).0 (ground arith))
      ((text_beq_iff row.target new.target).0 (ground arith))

has_key_trans :
    (new row : Row) (kind : Kind) (target : Text)
    → has_key kind target new ≡ true
    → has_key kind target row ≡ true
    → has_key new.kind new.target row ≡ true
has_key_trans new row kind target h k =
    rw
      (
        (kind_beq_iff new.kind kind).0 (ground arith),
        (text_beq_iff new.target target).0 (ground arith),
      )
      k

pub find_key-update_rows_ne :
    (new : Row) (rows : List Row) (kind : Kind) (target : Text)
    → has_key kind target new ≡ false
    → content (find_key kind target (update_rows new rows)) ≡ content (find_key kind target rows)
unfolding find_key update_rows
find_key-update_rows_ne new [] kind target h = refl
find_key-update_rows_ne new (row ∷ rows) kind target h =
    elim (Bool-cases (has_key new.kind new.target row)) [
      | inl e ↦
          rw (e, same_key new row kind target e, h) (find_key-update_rows_ne new rows kind target h)
      | inr e ↦ elim (Bool-cases (has_key kind target row)) [
        | inl k ↦ rw (e, k) refl
        | inr k ↦ rw (e, k) (find_key-update_rows_ne new rows kind target h)
      ]
    ]

pub find_key-update_rows_eq :
    (new : Row) (rows : List Row) (kind : Kind) (target : Text)
    → has_key kind target new ≡ true
    → any (has_key new.kind new.target) rows ≡ true
    → content (find_key kind target (update_rows new rows)) ≡ some (new.op, new.value)
unfolding find_key update_rows any
find_key-update_rows_eq new [] kind target h a = cc
find_key-update_rows_eq new (row ∷ rows) kind target h a =
    elim (Bool-cases (has_key new.kind new.target row)) [
      | inl e ↦ rw (e, same_key new row kind target e, h) refl
      | inr e ↦ elim (Bool-cases (has_key kind target row)) [
        | inl k ↦ absurd (ground (arith, has_key_trans new row kind target h k))
        | inr k ↦ rw (e, k) (find_key-update_rows_eq new rows kind target h (ground arith))
      ]
    ]

pub find_key_concat_ne :
    (new : Row) (rows : List Row) (kind : Kind) (target : Text)
    → has_key kind target new ≡ false
    → find_key kind target (rows ++ new ∷ []) ≡ find_key kind target rows
unfolding find_key
find_key_concat_ne new [] kind target h = rw h refl
find_key_concat_ne new (row ∷ rows) kind target h =
    ground (arith, find_key_concat_ne new rows kind target h)

pub find_key_concat_eq :
    (new : Row) (rows : List Row) (kind : Kind) (target : Text)
    → has_key kind target new ≡ true
    → any (has_key new.kind new.target) rows ≡ false
    → find_key kind target (rows ++ new ∷ []) ≡ some new
unfolding find_key any
find_key_concat_eq new [] kind target h a = rw h refl
find_key_concat_eq new (row ∷ rows) kind target h a = elim (Bool-cases (has_key kind target row)) [
  | inl k ↦ absurd (ground (arith, has_key_trans new row kind target h k))
  | inr k ↦ rw k (find_key_concat_eq new rows kind target h (ground arith))
]

-- A row with a key has it in place of any other.
key_of :
    (kind : Kind) (target : Text) (row : Row) (j : Kind) (t : Text)
    → has_key kind target row ≡ true
    → (row.kind ≡ kind) × (has_key j t row ≡ (kind == j && target == t))
key_of kind target row j t h =
    let own : row.kind ≡ kind = (kind_beq_iff row.kind kind).0 (ground arith) in
    (own, ap₂ (λ k u. k == j && u == t) own ((text_beq_iff row.target target).0 (ground arith)))

pub find_key-keep_key :
    (j : Kind) (t : Text) (rows : List Row) (kind : Kind) (target : Text)
    → find_key kind target (keep (λ row. not (has_key j t row)) rows)
      ≡ (if kind == j && target == t then none else find_key kind target rows)
unfolding find_key keep
find_key-keep_key j t [] kind target = ground arith
find_key-keep_key j t (row ∷ rows) kind target = elim (Bool-cases (has_key kind target row)) [
  | inl k ↦ elim (Bool-cases (has_key j t row)) [
    | inl gone ↦
        rw (gone, k, sym (key_of kind target row j t k).1 ∙ gone)
          (find_key-keep_key j t rows kind target
            ∙ rw (sym (key_of kind target row j t k).1 ∙ gone) refl)
    | inr left ↦ rw (left, k, sym (key_of kind target row j t k).1 ∙ left) refl
  ]
  | inr k ↦ elim (Bool-cases (has_key j t row)) [
    | inl gone ↦ rw (gone, k) (find_key-keep_key j t rows kind target)
    | inr left ↦ rw (left, k) (find_key-keep_key j t rows kind target)
  ]
]

pub find_key-keep_kind :
    (j : Kind) (rows : List Row) (kind : Kind) (target : Text)
    → find_key kind target (keep (λ row. not (row.kind == j)) rows)
      ≡ (if kind == j then none else find_key kind target rows)
unfolding find_key keep
find_key-keep_kind j [] kind target = ground arith
find_key-keep_kind j (row ∷ rows) kind target = elim (Bool-cases (has_key kind target row)) [
  | inl k ↦
      let own = ap (λ x. x == j) (key_of kind target row j target k).0 in
      elim (Bool-cases (row.kind == j)) [
        | inl gone ↦
            rw (gone, k, sym own ∙ gone)
              (find_key-keep_kind j rows kind target ∙ rw (sym own ∙ gone) refl)
        | inr left ↦ rw (left, k, sym own ∙ left) refl
      ]
  | inr k ↦ elim (Bool-cases (row.kind == j)) [
    | inl gone ↦ rw (gone, k) (find_key-keep_kind j rows kind target)
    | inr left ↦ rw (left, k) (find_key-keep_kind j rows kind target)
  ]
]
