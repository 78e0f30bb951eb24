-- ===== src/Base/Maps.antt =====
-- Go's maps, as association lists: an assignment overwrites in place or adds a key at the end.
use mathlib.Core.Path.{◌≡◌, refl}
use mathlib.Core.Bool.{false, ◌||◌}
use mathlib.Core.List.{List, [], ◌∷◌}
use mathlib.Core.Option.{Option, none, some}
use native.Mathlib.Omega.{arith}
use tdns.Base.Tests.{Eq, ◌==◌, if◌then◌else◌}
use tdns.Base.Lists.{contains, Distinct}

module _ {ℓ} {K V : Type ℓ} where
  abbrev pub keys : List (K × V) → List K
  keys [] = []
  keys ((k, v) ∷ m) = k ∷ keys m

module _ {ℓ} {K V : Type ℓ} ⦃e : Eq K⦄ where
  unfoldable pub lookup : K → List (K × V) → Option V
  lookup k [] = none
  lookup k ((j, v) ∷ m) = if j == k then some v else lookup k m

  unfoldable pub insert : K → V → List (K × V) → List (K × V)
  insert k v [] = (k, v) ∷ []
  insert k v ((j, w) ∷ m) = if j == k then (j, v) ∷ m else (j, w) ∷ insert k v m

  -- `delete(m, k)`
  unfoldable pub delete : K → List (K × V) → List (K × V)
  delete k [] = []
  delete k ((j, w) ∷ m) = let rest = delete k m in if j == k then rest else (j, w) ∷ rest

  pub lookup-insert :
      (k q : K) (v : V) (m : List (K × V))
      → lookup q (insert k v m) ≡ (if k == q then some v else lookup q m)
  unfolding lookup insert
  lookup-insert k q v [] = refl
  lookup-insert k q v ((j, w) ∷ m) =
      ground (arith, e.beq_iff k q, e.beq_iff j k, e.beq_iff j q, lookup-insert k q v m)

  lookup-delete :
      (k q : K) (m : List (K × V)) → lookup q (delete k m) ≡ (if k == q then none else lookup q m)
  unfolding lookup delete
  lookup-delete k q [] = ground arith
  lookup-delete k q ((j, w) ∷ m) =
      ground (arith, e.beq_iff k q, e.beq_iff j k, e.beq_iff j q, lookup-delete k q m)

  contains-keys_insert :
      (k q : K) (v : V) (m : List (K × V))
      → contains (keys (insert k v m)) q ≡ (k == q || contains (keys m) q)
  unfolding contains insert
  contains-keys_insert k q v [] = refl
  contains-keys_insert k q v ((j, w) ∷ m) =
      ground (arith, e.beq_iff k q, e.beq_iff j k, e.beq_iff j q, contains-keys_insert k q v m)

  pub Distinct-keys_insert :
      (k : K) (v : V) (m : List (K × V)) → Distinct (keys m) → Distinct (keys (insert k v m))
  unfolding contains insert
  Distinct-keys_insert k v [] d = (refl, tt)
  Distinct-keys_insert k v ((j, w) ∷ m) d = ground (
    arith,
    e.beq_iff k j,
    e.beq_iff j k,
    contains-keys_insert k j v m,
    Distinct-keys_insert k v m d.1,
  )

  -- A key that is not bound is found nowhere.
  pub lookup-eq-none_iff :
      (k : K) (m : List (K × V))
      → (lookup k m ≡ none → contains (keys m) k ≡ false)
        × (contains (keys m) k ≡ false → lookup k m ≡ none)
  unfolding lookup contains
  lookup-eq-none_iff k [] = (λ _. refl, λ _. refl)
  lookup-eq-none_iff k ((j, w) ∷ m) = ground (arith, lookup-eq-none_iff k m)
