-- ===== src/Limits/Isolation.antt =====
-- One client's requests do not use up another's limit.
use tdns.Base.{leb, if_elim, length}
use tdns.Limits.Table.{
  Table, remove_key, remove_idle, without_oldest, remove_oldest, push_front, touch, charge, allow,
}
use tdns.Limits.Laws.{IsConsistent, remove_idle_from-IsConsistent}
use tdns.Base.{
  if◌then◌else◌, Eq, ◌==◌, nat_eq, text_eq, contains, Distinct, ℕ, ◌≡◌, refl, ap, ◌⊎◌, inl, false,
  Option, none, some, List, [], ◌∷◌, ◌++◌, arith,
}
use tdns.Limits.Table.{Limiter, Entry, remove_idle_from, seen, charge_order}
use tdns.Limits.Laws.{addresses}

module _ (K : Type 0) ⦃e : Eq K⦄ (l : Limiter) where
  -- The entry of a key.
  unfoldable pub find : K → List (Entry K l) → Option (Entry K l)
  find q [] = none
  find q (x ∷ xs) = let rest = find q xs in if x.address == q then some x else rest

  abbrev pub IsSameOrGone : Option (Entry K l) → Option (Entry K l) → Type 0
  IsSameOrGone before after = (after ≡ before) ⊎ (after ≡ none)

  find_absent :
      (q : K) (xs : List (Entry K l)) → contains (addresses K l xs) q ≡ false → find q xs ≡ none
  unfolding find contains
  find_absent q [] h = refl
  find_absent q (x ∷ xs) h = ground (arith, find_absent q xs)

  find-append :
      (q : K) (xs : List (Entry K l)) (y : Entry K l)
      → (y.address == q) ≡ false
      → find q (xs ++ y ∷ []) ≡ find q xs
  unfolding find
  find-append q [] y h = rw h refl
  find-append q (x ∷ xs) y h = ap (λ o. if x.address == q then some x else o) (find-append q xs y h)

  find-seen_ne :
      (k q : K) (now : ℕ) (xs : List (Entry K l))
      → (k == q) ≡ false
      → find q (seen K l k now xs) ≡ find q xs
  unfolding seen find
  find-seen_ne k q now [] h = refl
  find-seen_ne k q now (x ∷ xs) h = ground (
    arith,
    find-append q xs (record x { last_seen = now }),
    e.beq_iff x.address k,
    e.beq_iff x.address q,
    e.beq_iff k q,
    find-seen_ne k q now xs h,
  )

  find-charge_order_ne :
      (k q : K) (now : ℕ) (xs : List (Entry K l))
      → (k == q) ≡ false
      → find q (charge_order K l k now xs).0 ≡ find q xs
  unfolding charge_order find
  find-charge_order_ne k q now [] h = refl
  find-charge_order_ne k q now (x ∷ xs) h = ground (
    arith,
    e.beq_iff x.address k,
    e.beq_iff x.address q,
    e.beq_iff k q,
    find-charge_order_ne k q now xs h,
  )

  find-remove_idle_from :
      (idle now : ℕ) (q : K) (xs : List (Entry K l)) (ks : List K)
      → Distinct (addresses K l xs)
      → IsSameOrGone (find q xs) (find q (remove_idle_from K l idle now xs ks).order)
  unfolding remove_idle_from find
  find-remove_idle_from idle now q [] ks d = inl refl
  find-remove_idle_from idle now q (x ∷ xs) ks d = ground (
    arith,
    e.beq_iff x.address q,
    find_absent q xs,
    find-remove_idle_from idle now q xs (remove_key K l x.address ks) d.1,
  )

  find-without_oldest :
      (q : K) (xs : List (Entry K l)) (ks : List K)
      → Distinct (addresses K l xs)
      → IsSameOrGone (find q xs) (find q (without_oldest K l xs ks).order)
  unfolding find
  find-without_oldest q [] ks d = inl refl
  find-without_oldest q (x ∷ xs) ks d = ground (arith, e.beq_iff x.address q, find_absent q xs)

  IsSameOrGone-trans :
      (a b c : Option (Entry K l)) → IsSameOrGone a b → IsSameOrGone b c → IsSameOrGone a c
  IsSameOrGone-trans a b c h k = ground arith

  touch_ne :
      (idle limit : ℕ) (k q : K) (now : ℕ) (t : Table K l)
      → IsConsistent K l t
      → (k == q) ≡ false
      → IsSameOrGone (find q t.order) (find q (touch K l idle limit k now t).order)
  unfolding touch remove_idle remove_oldest
  touch_ne idle limit k q now t c h =
      let t' = remove_idle_from K l idle now t.order t.entries in
      let kept = find-remove_idle_from idle now q t.order t.entries c.distinct in
      let c' = (remove_idle_from-IsConsistent K l idle now t.order t.entries c).0 in
      let room =
        if leb limit (length t'.entries) then without_oldest K l t'.order t'.entries else t' in
      let made : IsSameOrGone (find q t'.order) (find q room.order) =
        if_elim (λ x. IsSameOrGone (find q t'.order) (find q x.order))
          (leb limit (length t'.entries)) (without_oldest K l t'.order t'.entries) t'
          (λ _. find-without_oldest q t'.order t'.entries c'.distinct) (λ _. inl refl) in
      if_elim (λ x. IsSameOrGone (find q t.order) (find q x.order)) (contains t'.entries k)
        (record t' { order = seen K l k now t'.order }) (push_front K l k now room)
        (λ _. rw (find-seen_ne k q now t'.order h) kept)
        (λ _.
          rw
            (find-append q room.order (record { address = k; limiter = l.fresh; last_seen = now })
              h)
            (IsSameOrGone-trans _ _ _ kept made))

  -- A request of one client leaves the entry of any other as it was, its limiter included, or drops it.
  pub allow_ne :
      (idle limit : ℕ) (k q : K) (now : ℕ) (t : Table K l)
      → IsConsistent K l t
      → (k == q) ≡ false
      → IsSameOrGone (find q t.order) (find q (allow K l idle limit k now t).0.order)
  unfolding allow charge
  allow_ne idle limit k q now t c h =
      rw (find-charge_order_ne k q now (touch K l idle limit k now t).order h)
        (touch_ne idle limit k q now t c h)
