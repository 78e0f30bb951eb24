-- ===== src/Base/Lists.antt =====
-- Lists: lengths, membership as a test, lists without repetition.
use Prim.Native.Nat.{ℕ, suc, ◌+◌, ◌≤◌}
use mathlib.Core.Path.{◌≡◌, refl, ap}
use mathlib.Core.Logic.{inl, inr}
use mathlib.Core.Bool.{Bool, true, false, ◌||◌, ◌&&◌}
use mathlib.Core.List.{List, [], ◌∷◌, ◌++◌}
use native.Mathlib.Omega.{arith}
use tdns.Base.Tests.{Eq, ◌==◌, if◌then◌else◌, Bool-cases}

module _ {ℓ} {A : Type ℓ} where
  abbrev pub length : List A → ℕ
  length [] = 0
  length (x ∷ xs) = suc (length xs)

  pub length-append : (xs ys : List A) → length (xs ++ ys) ≡ length xs + length ys
  length-append [] ys = omega arith
  length-append (x ∷ xs) ys = omega (arith, length-append xs ys)

  -- `len(xs) == 0`
  abbrev pub is_empty : List A → Bool
  is_empty [] = true
  is_empty (x ∷ xs) = false

  -- The elements that pass a test, in order.
  unfoldable pub keep : (A → Bool) → List A → List A
  keep p [] = []
  keep p (x ∷ xs) = let rest = keep p xs in if p x then x ∷ rest else rest

  keep-append : (p : A → Bool) (xs ys : List A) → keep p (xs ++ ys) ≡ keep p xs ++ keep p ys
  unfolding keep
  keep-append p [] ys = refl
  keep-append p (x ∷ xs) ys = ground (arith, keep-append p xs ys)

  length-keep-le : (p : A → Bool) (xs : List A) → length (keep p xs) ≤ length xs
  unfolding keep
  length-keep-le p [] = omega arith
  length-keep-le p (x ∷ xs) = ground (arith, length-keep-le p xs)

  -- Some element passes the test.
  unfoldable pub any : (A → Bool) → List A → Bool
  any p [] = false
  any p (x ∷ xs) = p x || any p xs

  abbrev pub All {κ} : (A → Type κ) → List A → Type κ
  All P [] = Unit
  All P (x ∷ xs) = P x × All P xs

module _ {ℓ} {A : Type ℓ} ⦃e : Eq A⦄ where
  -- `slices.Contains`
  unfoldable pub contains : List A → A → Bool
  contains [] a = false
  contains (x ∷ xs) a = x == a || contains xs a

  pub contains-append :
      (xs ys : List A) (a : A) → contains (xs ++ ys) a ≡ (contains xs a || contains ys a)
  unfolding contains
  contains-append [] ys a = refl
  contains-append (x ∷ xs) ys a = ground (arith, contains-append xs ys a)

  -- No value stands twice.
  abbrev pub Distinct : List A → Type 0
  Distinct [] = Unit
  Distinct (x ∷ xs) = (contains xs x ≡ false) × Distinct xs

  pub Distinct-concat :
      (xs : List A) (a : A) → Distinct xs → contains xs a ≡ false → Distinct (xs ++ a ∷ [])
  unfolding contains
  Distinct-concat [] a d h = (refl, tt)
  Distinct-concat (x ∷ xs) a (fresh, d) h = (
    ground (arith, contains-append xs (a ∷ []) x, e.beq_iff a x, e.beq_iff x a),
    Distinct-concat xs a d (ground arith),
  )

module _ {ℓ} {A : Type ℓ} ⦃e : Eq A⦄ (p : A → Bool) where
  pub any-eq-true :
      (xs : List A) → any p xs ≡ true → (a : A) × (contains xs a ≡ true) × (p a ≡ true)
  unfolding any contains
  any-eq-true [] h = cc
  any-eq-true (x ∷ xs) h = elim (Bool-cases (p x)) [
    | inl q ↦ (x, ground (arith, e.beq_iff x x), q)
    | inr q ↦ let (a, m, r) = any-eq-true xs (ground arith) in (a, ground arith, r)
  ]

  pub any_of_contains : (xs : List A) (a : A) → contains xs a ≡ true → p a ≡ true → any p xs ≡ true
  unfolding any contains
  any_of_contains [] a m h = cc
  any_of_contains (x ∷ xs) a m h = elim (Bool-cases (x == a)) [
    | inl q ↦ ground (arith, ap p ((e.beq_iff x a).0 q))
    | inr q ↦ ground (arith, any_of_contains xs a)
  ]

  contains-keep : (xs : List A) (a : A) → contains (keep p xs) a ≡ (p a && contains xs a)
  unfolding keep contains
  contains-keep [] a = ground arith
  contains-keep (x ∷ xs) a = elim (Bool-cases (x == a)) [
    | inl q ↦ ground (arith, ap p ((e.beq_iff x a).0 q), contains-keep xs a)
    | inr q ↦ ground (arith, contains-keep xs a)
  ]

  Distinct-keep : (xs : List A) → Distinct xs → Distinct (keep p xs)
  unfolding keep
  Distinct-keep [] d = tt
  Distinct-keep (x ∷ xs) d = ground (arith, contains-keep xs x, Distinct-keep xs d.1)

module _ {ℓ} {A : Type ℓ} ⦃e : Eq A⦄ where
  pub All-of_contains {κ} :
      {P : A → Type κ} (xs : List A) → ((a : A) → contains xs a ≡ true → P a) → All P xs
  unfolding contains
  All-of_contains [] h = tt
  All-of_contains (x ∷ xs) h =
      (h x (ground (arith, e.beq_iff x x)), All-of_contains xs (λ a m. h a (ground arith)))

  -- What stands behind a list without repetition is new to it.
  pub not_contains_of_Distinct :
      (xs ys : List A) (a : A) → Distinct (xs ++ a ∷ ys) → contains xs a ≡ false
  unfolding contains
  not_contains_of_Distinct [] ys a d = refl
  not_contains_of_Distinct (x ∷ xs) ys a d = ground (
    arith,
    contains-append xs (a ∷ ys) x,
    e.beq_iff x a,
    e.beq_iff a x,
    not_contains_of_Distinct xs ys a d.1,
  )
