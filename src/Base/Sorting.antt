-- ===== src/Base/Sorting.antt =====
-- `sort.Strings` and `sort.Slice`: ascending lists, whatever the order of the input.
use mathlib.Core.Path.{◌≡◌, refl, ap₂, ◌∙◌}
use mathlib.Core.Bool.{Bool, true, false, ◌||◌, ◌&&◌}
use mathlib.Core.List.{List, [], ◌∷◌, Permᴰ}
use native.Mathlib.Omega.{arith}
use tdns.Base.Tests.{Text, Eq, ◌==◌, if◌then◌else◌, ltb, eqb, text_eq}
use tdns.Base.Lists.{contains, Distinct, All}

module _ {ℓ} {A : Type ℓ} (le : A → A → Bool) where
  unfoldable pub insert_sorted : A → List A → List A
  insert_sorted a [] = a ∷ []
  insert_sorted a (x ∷ xs) = if le a x then a ∷ x ∷ xs else x ∷ insert_sorted a xs

  unfoldable pub sort_by : List A → List A
  unfolding insert_sorted
  sort_by [] = []
  sort_by (x ∷ xs) = insert_sorted x (sort_by xs)

  -- What the sorting needs of its test: a total order.
  pub record IsOrder : Type ℓ where
    pub total : (a b : A) → (le a b || le b a) ≡ true
    pub trans : (a b c : A) → le a b ≡ true → le b c ≡ true → le a c ≡ true
    pub antisymm : (a b : A) → le a b ≡ true → le b a ≡ true → a ≡ b

  -- Each element is before all later ones.
  abbrev pub IsSorted : List A → Type ℓ
  IsSorted [] = Unit
  IsSorted (x ∷ xs) = All (λ y. le x y ≡ true) xs × IsSorted xs

module _ {ℓ} {A : Type ℓ} (le : A → A → Bool) (o : IsOrder le) where
  insert_comm :
      (a b : A) (xs : List A)
      → insert_sorted le a (insert_sorted le b xs) ≡ insert_sorted le b (insert_sorted le a xs)
  unfolding insert_sorted
  insert_comm a b [] = ground (arith, o.total a b, o.antisymm a b)
  insert_comm a b (x ∷ xs) = ground (
    arith,
    o.total a b,
    o.antisymm a b,
    o.total a x,
    o.total b x,
    o.trans a b x,
    o.trans b a x,
    insert_comm a b xs,
  )

  -- The order of the input does not matter.
  pub sort_by-eq_of_perm : {xs ys : List A} → Permᴰ xs ys → sort_by le xs ≡ sort_by le ys
  unfolding sort_by
  sort_by-eq_of_perm Permᴰ.nil = refl
  sort_by-eq_of_perm (Permᴰ.cons e p) = ap₂ (insert_sorted le) e (sort_by-eq_of_perm p)
  sort_by-eq_of_perm (Permᴰ.swap {a = a} {b = b} {l = l} e f) =
      rw (← e, ← f) (insert_comm a b (sort_by le l))
  sort_by-eq_of_perm (Permᴰ.trans p q) = sort_by-eq_of_perm p ∙ sort_by-eq_of_perm q

  All-insert_sorted :
      (x a : A) (xs : List A)
      → le x a ≡ true
      → All (λ y. le x y ≡ true) xs
      → All (λ y. le x y ≡ true) (insert_sorted le a xs)
  unfolding insert_sorted
  All-insert_sorted x a [] h k = (h, tt)
  All-insert_sorted x a (y ∷ ys) h k = ground (arith, All-insert_sorted x a ys h k.1)

  All-le_trans :
      (a x : A) (xs : List A)
      → le a x ≡ true
      → All (λ y. le x y ≡ true) xs
      → All (λ y. le a y ≡ true) xs
  All-le_trans a x [] h k = tt
  All-le_trans a x (y ∷ ys) h k = (o.trans a x y h k.0, All-le_trans a x ys h k.1)

  insert_sorted-IsSorted :
      (a : A) (xs : List A) → IsSorted le xs → IsSorted le (insert_sorted le a xs)
  unfolding insert_sorted
  insert_sorted-IsSorted a [] s = (tt, tt)
  insert_sorted-IsSorted a (x ∷ xs) s = ground (
    arith,
    o.total a x,
    All-le_trans a x xs,
    All-insert_sorted x a xs,
    insert_sorted-IsSorted a xs s.1,
  )

  pub sort_by-IsSorted : (xs : List A) → IsSorted le (sort_by le xs)
  unfolding sort_by
  sort_by-IsSorted [] = tt
  sort_by-IsSorted (x ∷ xs) = insert_sorted-IsSorted x (sort_by le xs) (sort_by-IsSorted xs)

module _ {ℓ} {A : Type ℓ} ⦃e : Eq A⦄ (le : A → A → Bool) where
  contains-insert_sorted :
      (a q : A) (xs : List A) → contains (insert_sorted le a xs) q ≡ (a == q || contains xs q)
  unfolding insert_sorted contains
  contains-insert_sorted a q [] = refl
  contains-insert_sorted a q (x ∷ xs) = ground (arith, contains-insert_sorted a q xs)

  pub contains-sort_by : (q : A) (xs : List A) → contains (sort_by le xs) q ≡ contains xs q
  unfolding sort_by contains
  contains-sort_by q [] = refl
  contains-sort_by q (x ∷ xs) =
      ground (arith, contains-insert_sorted x q (sort_by le xs), contains-sort_by q xs)

  Distinct-insert_sorted :
      (a : A) (xs : List A) → contains xs a ≡ false → Distinct xs → Distinct (insert_sorted le a xs)
  unfolding insert_sorted contains
  Distinct-insert_sorted a [] h d = (refl, tt)
  Distinct-insert_sorted a (x ∷ xs) h d = ground (
    arith,
    contains-insert_sorted a x xs,
    e.beq_iff a x,
    e.beq_iff x a,
    Distinct-insert_sorted a xs,
  )

  pub Distinct-sort_by : (xs : List A) → Distinct xs → Distinct (sort_by le xs)
  unfolding sort_by
  Distinct-sort_by [] d = tt
  Distinct-sort_by (x ∷ xs) d =
      Distinct-insert_sorted x (sort_by le xs) (rw (contains-sort_by x xs) d.0)
        (Distinct-sort_by xs d.1)

-- The order of texts: byte by byte.
unfoldable pub text_leb : Text → Text → Bool
text_leb [] t = true
text_leb (a ∷ s) [] = false
text_leb (a ∷ s) (b ∷ t) = ltb a b || (eqb a b && text_leb s t)

text_leb_total : (s t : Text) → (text_leb s t || text_leb t s) ≡ true
unfolding text_leb
text_leb_total [] t = refl
text_leb_total (a ∷ s) [] = refl
text_leb_total (a ∷ s) (b ∷ t) = ground (arith, text_leb_total s t)

text_leb_trans : (s t u : Text) → text_leb s t ≡ true → text_leb t u ≡ true → text_leb s u ≡ true
unfolding text_leb
text_leb_trans [] t u h k = refl
text_leb_trans (a ∷ s) [] u h k = cc
text_leb_trans (a ∷ s) (b ∷ t) [] h k = cc
text_leb_trans (a ∷ s) (b ∷ t) (c ∷ u) h k = ground (arith, text_leb_trans s t u)

text_leb_antisymm : (s t : Text) → text_leb s t ≡ true → text_leb t s ≡ true → s ≡ t
unfolding text_leb
text_leb_antisymm [] [] h k = refl
text_leb_antisymm [] (b ∷ t) h k = cc
text_leb_antisymm (a ∷ s) [] h k = cc
text_leb_antisymm (a ∷ s) (b ∷ t) h k = ground (arith, text_leb_antisymm s t)

pub text_leb-IsOrder : IsOrder text_leb
text_leb-IsOrder = record {
  total = text_leb_total;
  trans = text_leb_trans;
  antisymm = text_leb_antisymm;
}

-- `sort.Strings`
abbrev pub sort_texts : List Text → List Text
sort_texts = sort_by text_leb

-- Sorting an ascending list changes nothing.
pub sort_by_of_IsSorted {ℓ} :
    {A : Type ℓ} (le : A → A → Bool) (xs : List A) → IsSorted le xs → sort_by le xs ≡ xs
unfolding sort_by insert_sorted
sort_by_of_IsSorted le [] s = refl
sort_by_of_IsSorted le (x ∷ []) s = refl
sort_by_of_IsSorted le (x ∷ y ∷ ys) s = rw (sort_by_of_IsSorted le (y ∷ ys) s.1, s.0.0)
