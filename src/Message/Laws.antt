-- ===== src/Message/Laws.antt =====
-- What a context holds after `AddValue` and `AddLabels`.
use tdns.Message.{◌>>=◌}
use tdns.Message.{Result}
use tdns.Base.{any, ap}
use tdns.Message.{add_labels, has_label}
use tdns.Base.{
  if◌then◌else◌, ◌==◌, nat_eq, Text, text_beq_iff, text_eq, Option-cases, is_empty, contains,
  contains-append, Distinct, Distinct-concat, ◌≡◌, refl, ◌⊎◌, inl, inr, not, ◌&&◌, ◌||◌, none, some,
  List, [], ◌∷◌, ◌++◌, arith,
}
use tdns.Base.Maps.{insert, lookup-insert}
use tdns.Message.{Message, ok, err, no_context, add_each, add_value, get_value, labels}

contains-add_each :
    (have ls : List Text) (q : Text)
    → contains (add_each have ls) q ≡ (contains have q || (not (is_empty q) && contains ls q))
unfolding add_each contains
contains-add_each have [] q = ground arith
contains-add_each have (l ∷ ls) q = ground (
  arith,
  text_beq_iff l q,
  contains-append have (l ∷ []) q,
  contains-add_each have ls q,
  contains-add_each (have ++ l ∷ []) ls q,
)

Distinct-add_each : (have ls : List Text) → Distinct have → Distinct (add_each have ls)
unfolding add_each
Distinct-add_each have [] d = d
Distinct-add_each have (l ∷ ls) d = ground (
  arith,
  Distinct-concat have l,
  Distinct-add_each have ls d,
  Distinct-add_each (have ++ l ∷ []) ls,
)

-- A value that was added is read back, and no other value changes, nor the labels, the DNS message
-- and whether it is resolved. It fails exactly when the message has no context.
pub get_value-add_value :
    (m : Message) (k q v : Text)
    → ((m.ctx ≡ none) × (add_value m k v ≡ err no_context))
      ⊎ ((m' : Message) × (add_value m k v ≡ ok m')
          × (get_value m' q ≡ (if k == q then some v else get_value m q))
          × (labels m' ≡ labels m)
          × (m'.msg ≡ m.msg)
          × (m'.resolved ≡ m.resolved))
unfolding add_value get_value
get_value-add_value m k q v = elim (Option-cases m.ctx) [
  | inl e ↦ inl (e, rw (e, add_value))
  | inr (cv, e) ↦ inr (
    record m { ctx = some (record cv { values = insert k v cv.values }) },
    rw (e, add_value),
    rw e (lookup-insert k q v cv.values),
    rw e,
    refl,
    refl,
  )
]

-- `AddLabels` keeps the labels distinct, adds exactly the labels that are not empty, and leaves
-- the DNS message and whether it is resolved as they were. It fails exactly when the message has
-- no context.
pub add_labels_lem :
    (m : Message) (ls : List Text) (q : Text)
    → Distinct (labels m)
    → ((m.ctx ≡ none) × (add_labels m ls ≡ err no_context))
      ⊎ ((m' : Message) × (add_labels m ls ≡ ok m')
          × (contains (labels m') q
              ≡ (contains (labels m) q || (not (is_empty q) && contains ls q)))
          × Distinct (labels m')
          × (m'.msg ≡ m.msg)
          × (m'.resolved ≡ m.resolved))
unfolding add_labels
add_labels_lem m ls q d = elim (Option-cases m.ctx) [
  | inl e ↦ inl (e, rw (e, add_labels))
  | inr (cv, e) ↦ inr (
    record m { ctx = some (record cv { labels = add_each cv.labels ls }) },
    rw (e, add_labels),
    rw e (contains-add_each cv.labels ls q),
    Distinct-add_each cv.labels ls (rw e at d),
    refl,
    refl,
  )
]

has_label-contains : (m : Message) (q : Text) → has_label m q ≡ contains (labels m) q
unfolding has_label any contains
has_label-contains m q = go (labels m)
  where
    go : (ls : List Text) → any (λ each. each == q) ls ≡ contains ls q
    go [] = refl
    go (l ∷ ls) = ap (λ b. l == q || b) (go ls)

-- Inversion of a bind that succeeds.
pub bind-eq-ok {ℓ κ} :
    {A : Type ℓ} {B : Type κ} {b : B} (m : Result A) (f : A → Result B)
    → (m >>= f) ≡ ok b
    → (a : A) × (m ≡ ok a) × (f a ≡ ok b)
bind-eq-ok (ok a) f h = (a, refl, h)
bind-eq-ok (err e) f h = cc
