-- ===== src/Cache/Ttl.antt =====
-- middleware/cache.go: the TTLs of a section, when it is stored and when it is served.
use tdns.Base.{Bool-cases, sym, inl, inr}
use tdns.Base.{keep, any, All, ◌≤◌, ◌<◌, ◌≡◌, refl, not, map, arith}
use tdns.Message.{Rr}
use tdns.Base.{
  ltb, leb, if◌then◌else◌, nat_eq, text_eq, ℕ, ◌-◌, Bool, true, false, Option, none, some, List, [],
  ◌∷◌,
}

abbrev cap_ttl : ℕ → Option Rr → Option Rr
cap_ttl ttl none = none
cap_ttl ttl (some rr) = some (if ltb ttl rr.ttl then record rr { ttl = ttl } else rr)

unfoldable pub cap_section_ttls : List (Option Rr) → ℕ → List (Option Rr)
cap_section_ttls [] ttl = []
cap_section_ttls (rr ∷ rs) ttl = cap_ttl ttl rr ∷ cap_section_ttls rs ttl

-- A record that is nil or has expired ends the loop if all are required, and is skipped if not.
abbrev skip : Bool → Option (List (Option Rr)) → Option (List (Option Rr))
skip true rest = none
skip false rest = rest

abbrev pub push_front : Rr → Option (List (Option Rr)) → Option (List (Option Rr))
push_front rr none = none
push_front rr (some rs) = some (some rr ∷ rs)

-- `none` is Go's `nil, false`.
unfoldable pub adjust_section_ttls : List (Option Rr) → ℕ → Bool → Option (List (Option Rr))
adjust_section_ttls [] elapsed require_all = some []
adjust_section_ttls (none ∷ rs) elapsed require_all =
    skip require_all (adjust_section_ttls rs elapsed require_all)
adjust_section_ttls (some rr ∷ rs) elapsed require_all =
    let rest = adjust_section_ttls rs elapsed require_all in
    if leb rr.ttl elapsed
    then skip require_all rest
    else push_front (record rr { ttl = rr.ttl - elapsed }) rest

-- The record is nil or has no time left.
abbrev pub is_dead : ℕ → Option Rr → Bool
is_dead elapsed none = true
is_dead elapsed (some rr) = leb rr.ttl elapsed

abbrev pub age : ℕ → Option Rr → Option Rr
age elapsed none = none
age elapsed (some rr) = some (record rr { ttl = rr.ttl - elapsed })

-- With all records required, the section ages as a whole or is refused as a whole: it is refused
-- exactly when some record is nil or has expired.
pub adjust_section_ttls-eq_age :
    (rs : List (Option Rr)) (elapsed : ℕ)
    → adjust_section_ttls rs elapsed true
      ≡ (if any (is_dead elapsed) rs then none else some (map (age elapsed) rs))
unfolding adjust_section_ttls any
adjust_section_ttls-eq_age [] elapsed = refl
adjust_section_ttls-eq_age (none ∷ rs) elapsed = refl
adjust_section_ttls-eq_age (some rr ∷ rs) elapsed =
    ground (arith, adjust_section_ttls-eq_age rs elapsed)

-- Otherwise the records that are left are aged, and those that are nil or expired are dropped.
pub adjust_section_ttls-eq_keep :
    (rs : List (Option Rr)) (elapsed : ℕ)
    → adjust_section_ttls rs elapsed false
      ≡ some (map (age elapsed) (keep (λ rr. not (is_dead elapsed rr)) rs))
unfolding adjust_section_ttls keep
adjust_section_ttls-eq_keep [] elapsed = refl
adjust_section_ttls-eq_keep (none ∷ rs) elapsed = adjust_section_ttls-eq_keep rs elapsed
adjust_section_ttls-eq_keep (some rr ∷ rs) elapsed =
    ground (arith, adjust_section_ttls-eq_keep rs elapsed)

-- The record is there and has time left.
abbrev pub IsPositive : Option Rr → Type 0
IsPositive none = ⊥
IsPositive (some rr) = 0 < rr.ttl

map-age-IsPositive :
    (rs : List (Option Rr)) (elapsed : ℕ)
    → any (is_dead elapsed) rs ≡ false
    → All IsPositive (map (age elapsed) rs)
unfolding any
map-age-IsPositive [] elapsed h = tt
map-age-IsPositive (none ∷ rs) elapsed h = cc
map-age-IsPositive (some rr ∷ rs) elapsed h =
    (ground arith, map-age-IsPositive rs elapsed (ground arith))

-- What is served of a section that is required has time left.
pub adjust_section_ttls-IsPositive :
    (rs : List (Option Rr)) (elapsed : ℕ) (aged : List (Option Rr))
    → adjust_section_ttls rs elapsed true ≡ some aged
    → All IsPositive aged × (aged ≡ map (age elapsed) rs)
adjust_section_ttls-IsPositive rs elapsed aged h = elim (Bool-cases (any (is_dead elapsed) rs)) [
  | inl e ↦ absurd (ground (arith, adjust_section_ttls-eq_age rs elapsed))
  | inr e ↦
      let q : map (age elapsed) rs ≡ aged = ground (arith, adjust_section_ttls-eq_age rs elapsed) in
      (rw (← q) (map-age-IsPositive rs elapsed e), sym q)
]

abbrev IsWithin : ℕ → Option Rr → Type 0
IsWithin ttl none = Unit
IsWithin ttl (some rr) = rr.ttl ≤ ttl

cap_section_ttls-IsWithin :
    (rs : List (Option Rr)) (ttl : ℕ) → All (IsWithin ttl) (cap_section_ttls rs ttl)
unfolding cap_section_ttls
cap_section_ttls-IsWithin [] ttl = tt
cap_section_ttls-IsWithin (none ∷ rs) ttl = (tt, cap_section_ttls-IsWithin rs ttl)
cap_section_ttls-IsWithin (some rr ∷ rs) ttl = (ground arith, cap_section_ttls-IsWithin rs ttl)
