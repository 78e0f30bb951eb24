-- ===== src/Limits/Laws.antt =====
-- The tables stay bounded and consistent, and clients do not share their limits.
use tdns.Limits.Table.{with_state, behind, charge_order, allow}
use tdns.Base.{leb, if◌then◌else◌, length-append, contains-append, Distinct-concat, suc, ◌<◌, sym}
use tdns.Limits.Table.{remove_oldest, seen, touch, charge}
use tdns.Base.{beq_refl, if_elim, ℕ, ◌-◌, ◌≤◌, ap, ◌∙◌, false, ◌||◌, ◌++◌}
use tdns.Limits.Table.{is_idle, remove_idle_from, remove_idle, without_oldest, push_front}
use tdns.Base.{
  Eq, ◌==◌, nat_eq, text_eq, length, contains, Distinct, ◌+◌, ◌≡◌, refl, true, not, ◌&&◌, List, [],
  ◌∷◌, arith,
}
use tdns.Limits.Table.{Limiter, Entry, Table, remove_key}

module _ (K : Type 0) ⦃e : Eq K⦄ (l : Limiter) where
  abbrev pub addresses : List (Entry K l) → List K
  addresses [] = []
  addresses (x ∷ xs) = x.address ∷ addresses xs

  -- The map and the list hold the same keys, each once.
  pub record IsConsistent (t : Table K l) : Type 0 where
    pub distinct : Distinct (addresses t.order)
    pub distinct_keys : Distinct t.entries
    pub same_size : length t.entries ≡ length t.order
    pub same : (k : K) → contains t.entries k ≡ contains (addresses t.order) k

  contains-remove_key :
      (k q : K) (ks : List K)
      → Distinct ks
      → contains (remove_key K l k ks) q ≡ (contains ks q && not (k == q))
  unfolding remove_key contains
  contains-remove_key k q [] d = refl
  contains-remove_key k q (j ∷ ks) d =
      ground (arith, e.beq_iff k q, e.beq_iff j k, e.beq_iff j q, contains-remove_key k q ks d.1)

  Distinct-remove_key : (k : K) (ks : List K) → Distinct ks → Distinct (remove_key K l k ks)
  unfolding remove_key
  Distinct-remove_key k [] d = tt
  Distinct-remove_key k (j ∷ ks) d =
      ground (arith, contains-remove_key k j ks d.1, Distinct-remove_key k ks d.1)

  length-remove_key :
      (k : K) (ks : List K) → contains ks k ≡ true → length (remove_key K l k ks) + 1 ≡ length ks
  unfolding remove_key contains
  length-remove_key k [] h = cc
  length-remove_key k (j ∷ ks) h = ground (arith, length-remove_key k ks)

  contains-cons :
      (x : Entry K l) (xs : List (Entry K l)) (k : K)
      → contains (addresses (x ∷ xs)) k ≡ (x.address == k || contains (addresses xs) k)
  unfolding contains
  contains-cons x xs k = refl

  same_head :
      (x : Entry K l) (xs : List (Entry K l)) (ks : List K)
      → IsConsistent (record { entries = ks; order = x ∷ xs })
      → contains ks x.address ≡ true
  unfolding contains
  same_head x xs ks c = c.same x.address ∙ rw (beq_refl x.address) refl

  -- Removing the last element of the list and its key.
  tail-IsConsistent :
      (x : Entry K l) (xs : List (Entry K l)) (ks : List K)
      → IsConsistent (record { entries = ks; order = x ∷ xs })
      → IsConsistent (record { entries = remove_key K l x.address ks; order = xs })
  tail-IsConsistent x xs ks c = record {
    distinct = c.distinct.1;
    distinct_keys = Distinct-remove_key x.address ks c.distinct_keys;
    same_size = omega (arith, length-remove_key x.address ks (same_head x xs ks c), c.same_size);
    same = λ k. ground (
      arith,
      contains-remove_key x.address k ks c.distinct_keys,
      c.same k,
      c.distinct.0,
      e.beq_iff x.address k,
      contains-cons x xs k,
    );
  }

  pub remove_idle_from-IsConsistent :
      (idle now : ℕ) (xs : List (Entry K l)) (ks : List K)
      → IsConsistent (record { entries = ks; order = xs })
      → IsConsistent (remove_idle_from K l idle now xs ks)
        × (length (remove_idle_from K l idle now xs ks).order ≤ length xs)
  unfolding remove_idle_from
  remove_idle_from-IsConsistent idle now [] ks c = (c, omega arith)
  remove_idle_from-IsConsistent idle now (x ∷ xs) ks c =
      let (ih, shorter) =
        remove_idle_from-IsConsistent idle now xs (remove_key K l x.address ks)
          (tail-IsConsistent x xs ks c) in
      if_elim (λ t. IsConsistent t × (length t.order ≤ length (x ∷ xs))) (is_idle K l idle now x) _
        _ (λ _. (ih, omega arith)) (λ _. (c, omega arith))

  remove_idle-shorter :
      (idle now : ℕ) (t : Table K l)
      → IsConsistent t
      → IsConsistent (remove_idle K l idle now t)
        × (length (remove_idle K l idle now t).order ≤ length t.order)
  unfolding remove_idle
  remove_idle-shorter idle now t c = remove_idle_from-IsConsistent idle now t.order t.entries c

  without_oldest-IsConsistent :
      (xs : List (Entry K l)) (ks : List K)
      → IsConsistent (record { entries = ks; order = xs })
      → IsConsistent (without_oldest K l xs ks)
        × (length (without_oldest K l xs ks).order ≡ length xs - 1)
  without_oldest-IsConsistent [] ks c = (c, refl)
  without_oldest-IsConsistent (x ∷ xs) ks c = (tail-IsConsistent x xs ks c, omega arith)

  addresses-append :
      (xs ys : List (Entry K l)) → addresses (xs ++ ys) ≡ addresses xs ++ addresses ys
  addresses-append [] ys = refl
  addresses-append (x ∷ xs) ys = ap (◌∷◌ x.address) (addresses-append xs ys)

  push_front-IsConsistent :
      (k : K) (now : ℕ) (t : Table K l)
      → contains t.entries k ≡ false
      → IsConsistent t
      → IsConsistent (push_front K l k now t)
  unfolding contains
  push_front-IsConsistent k now t h c = record {
    distinct =
        rw (addresses-append t.order _)
          (Distinct-concat (addresses t.order) k c.distinct (sym (c.same k) ∙ h));
    distinct_keys = (h, c.distinct_keys);
    same_size = omega (arith, length-append t.order _, c.same_size);
    same = λ q.
        rw (addresses-append t.order _, contains-append (addresses t.order) _ q)
          (ground (arith, c.same q, e.beq_iff k q));
  }

  contains-seen :
      (k q : K) (now : ℕ) (xs : List (Entry K l))
      → contains (addresses (seen K l k now xs)) q ≡ contains (addresses xs) q
  unfolding contains seen
  contains-seen k q now [] = refl
  contains-seen k q now (x ∷ xs) =
      if_elim (λ ys. contains (addresses ys) q ≡ contains (addresses (x ∷ xs)) q) (x.address == k) _
        _
        (λ _.
          rw (addresses-append xs _, contains-append (addresses xs) _ q)
            (ground (arith, e.beq_iff x.address q)))
        (λ _. ap (λ b. x.address == q || b) (contains-seen k q now xs))

  Distinct-seen :
      (k : K) (now : ℕ) (xs : List (Entry K l))
      → Distinct (addresses xs)
      → Distinct (addresses (seen K l k now xs))
  unfolding seen
  Distinct-seen k now [] d = tt
  Distinct-seen k now (x ∷ xs) d =
      if_elim (λ ys. Distinct (addresses ys)) (x.address == k) _ _
        (λ _. rw (addresses-append xs _) (Distinct-concat (addresses xs) x.address d.1 d.0))
        (λ _. (contains-seen k x.address now xs ∙ d.0, Distinct-seen k now xs d.1))

  length-seen : (k : K) (now : ℕ) (xs : List (Entry K l)) → length (seen K l k now xs) ≡ length xs
  unfolding seen
  length-seen k now [] = refl
  length-seen k now (x ∷ xs) =
      ground (arith, length-append xs (record x { last_seen = now } ∷ []), length-seen k now xs)

  seen-IsConsistent :
      (k : K) (now : ℕ) (t : Table K l)
      → IsConsistent t
      → IsConsistent (record t { order = seen K l k now t.order })
  seen-IsConsistent k now t c = record {
    distinct = Distinct-seen k now t.order c.distinct;
    distinct_keys = c.distinct_keys;
    same_size = c.same_size ∙ sym (length-seen k now t.order);
    same = λ q. c.same q ∙ sym (contains-seen k q now t.order);
  }

  -- The table is consistent and holds no more than `limit` entries.
  abbrev pub IsBounded : ℕ → Table K l → Type 0
  IsBounded limit t = IsConsistent t × (length t.order ≤ limit)

  pub empty-IsBounded : (limit : ℕ) → IsBounded limit (record { entries = []; order = [] })
  unfolding contains
  empty-IsBounded limit = (
    record { distinct = tt; distinct_keys = tt; same_size = refl; same = λ k. refl },
    omega arith,
  )

  make_room-IsBounded :
      (limit : ℕ) (t : Table K l)
      → 0 < limit
      → IsBounded limit t
      → IsConsistent (if leb limit (length t.entries) then remove_oldest K l t else t)
        × (length (if leb limit (length t.entries) then remove_oldest K l t else t).order < limit)
  unfolding remove_oldest
  make_room-IsBounded limit t p (c, b) =
      let (c', shorter) = without_oldest-IsConsistent t.order t.entries c in
      if_elim (λ x. IsConsistent x × (length x.order < limit)) (leb limit (length t.entries)) _ _
        (λ _. (c', omega arith)) (λ h. (c, ground (arith, c.same_size)))

  contains-without_oldest :
      (k : K) (xs : List (Entry K l)) (ks : List K)
      → Distinct ks
      → contains ks k ≡ false
      → contains (without_oldest K l xs ks).entries k ≡ false
  contains-without_oldest k [] ks d h = h
  contains-without_oldest k (x ∷ xs) ks d h = contains-remove_key x.address k ks d ∙ rw h refl

  pub touch-IsBounded :
      (idle limit : ℕ) (k : K) (now : ℕ) (t : Table K l)
      → 0 < limit
      → IsBounded limit t
      → IsBounded limit (touch K l idle limit k now t)
  unfolding touch
  touch-IsBounded idle limit k now t p (c, b) =
      let t' = remove_idle K l idle now t in
      let (c', shorter) = remove_idle-shorter idle now t c in
      if_elim (IsBounded limit) (contains t'.entries k) _ _
        (λ _. (seen-IsConsistent k now t' c', omega (arith, length-seen k now t'.order)))
        λ new.
          let room = if leb limit (length t'.entries) then remove_oldest K l t' else t' in
          let (c'', less) = make_room-IsBounded limit t' p (c', omega arith) in
          let absent : contains room.entries k ≡ false =
            unfold remove_oldest in
            (if_elim {A = Table K l} (λ x. contains x.entries k ≡ false)
              (leb limit (length t'.entries)) _ _
              (λ _. contains-without_oldest k t'.order t'.entries c'.distinct_keys new)
              (λ _. new)) in
          (
            push_front-IsConsistent k now room absent c'',
            omega (
              arith,
              length-append room.order
                  (record { address = k; limiter = l.fresh; last_seen = now } ∷ []),
            ),
          )

  addresses-charge_order :
      (k : K) (now : ℕ) (xs : List (Entry K l))
      → (addresses (charge_order K l k now xs).0 ≡ addresses xs)
        × (length (charge_order K l k now xs).0 ≡ length xs)
  unfolding charge_order
  addresses-charge_order k now [] = (refl, refl)
  addresses-charge_order k now (x ∷ xs) =
      let (a, n) = addresses-charge_order k now xs in
      if_elim (λ r. (addresses r.0 ≡ x.address ∷ addresses xs) × (length r.0 ≡ suc (length xs)))
        (x.address == k) (with_state K l x (l.allow_n x.limiter now) xs)
        (behind K l x (charge_order K l k now xs)) (λ _. (refl, refl))
        (λ _. (ap (◌∷◌ x.address) a, ap suc n))

  pub charge-IsBounded :
      (limit : ℕ) (k : K) (now : ℕ) (t : Table K l)
      → IsBounded limit t
      → IsBounded limit (charge K l k now t).0
  unfolding charge
  charge-IsBounded limit k now t (c, b) =
      let (a, n) = addresses-charge_order k now t.order in
      (
        record {
          distinct = rw a c.distinct;
          distinct_keys = c.distinct_keys;
          same_size = c.same_size ∙ sym n;
          same = λ q. rw a (c.same q);
        },
        omega arith,
      )

  -- Whoever asks, the table stays consistent and within its limit.
  pub allow-IsBounded :
      (idle limit : ℕ) (k : K) (now : ℕ) (t : Table K l)
      → 0 < limit
      → IsBounded limit t
      → IsBounded limit (allow K l idle limit k now t).0
  unfolding allow
  allow-IsBounded idle limit k now t p b =
      charge-IsBounded limit k now (touch K l idle limit k now t)
        (touch-IsBounded idle limit k now t p b)
