-- ===== src/Base/Strings.antt =====
-- The functions of Go's `strings` that the program calls, over bytes. Letters and spaces are
-- those of ASCII.
use Prim.Native.Nat.{ℕ, ◌+◌}
use Prim.Native.Char.{code}
use Prim.Native.String.{String}
use mathlib.Core.Path.{◌≡◌, refl, ap}
use mathlib.Core.Logic.{inl, inr}
use mathlib.Core.Bool.{Bool, true, false, ◌||◌, ◌&&◌, not}
use mathlib.Core.List.{List, [], ◌∷◌, ◌++◌}
use mathlib.Core.Option.{Option, none, some}
use native.Mathlib.Omega.{arith}
use tdns.Base.Tests.{Text, if◌then◌else◌, leb, eqb, text_beq, text_beq_iff, Bool-cases}
use tdns.Base.Lists.{is_empty}

-- The bytes of a literal.
abbrev pub txt : String → Text
txt String.[] = []
txt (String.◌∷◌ c s) = code c ∷ txt s

abbrev pub to_lower_byte : ℕ → ℕ
to_lower_byte c = if leb b'A' c && leb c b'Z' then c + 32 else c

-- `strings.ToLower`
unfoldable pub to_lower : Text → Text
to_lower [] = []
to_lower (c ∷ s) = to_lower_byte c ∷ to_lower s

-- Space, and tab to carriage return.
abbrev pub is_space : ℕ → Bool
is_space c = eqb c 32 || (leb 9 c && leb c 13)

unfoldable pub trim_left : Text → Text
trim_left [] = []
trim_left (c ∷ s) = let rest = trim_left s in if is_space c then rest else c ∷ s

abbrev trim_step : ℕ → Text → Text
trim_step c rest = if is_space c && is_empty rest then [] else c ∷ rest

unfoldable pub trim_right : Text → Text
trim_right [] = []
trim_right (c ∷ s) = trim_step c (trim_right s)

-- `strings.TrimSpace`
abbrev pub trim_space : Text → Text
trim_space s = trim_right (trim_left s)

-- `strings.HasPrefix`
unfoldable pub has_prefix : Text → Text → Bool
has_prefix s [] = true
has_prefix [] (p ∷ ps) = false
has_prefix (c ∷ s) (p ∷ ps) = eqb c p && has_prefix s ps

-- `strings.CutPrefix`: what follows the prefix, if it is there.
unfoldable pub cut_prefix : Text → Text → Option Text
cut_prefix s [] = some s
cut_prefix [] (p ∷ ps) = none
cut_prefix (c ∷ s) (p ∷ ps) = let rest = cut_prefix s ps in if eqb c p then rest else none

-- `strings.HasSuffix`
unfoldable pub has_suffix : Text → Text → Bool
has_suffix [] t = text_beq [] t
has_suffix (c ∷ s) t = text_beq (c ∷ s) t || has_suffix s t

-- `strings.TrimSuffix(s, ".")`
unfoldable pub trim_dot : Text → Text
trim_dot [] = []
trim_dot (c ∷ s) = let rest = trim_dot s in if eqb c b'.' && is_empty s then [] else c ∷ rest

-- One byte more in front of a field that is being read.
abbrev grow : ℕ → Bool → List Text → List Text
grow c true [] = (c ∷ []) ∷ []
grow c true (f ∷ fs) = (c ∷ f) ∷ fs
grow c false fs = (c ∷ []) ∷ fs

-- The text begins with a byte that is no space.
abbrev starts_field : Text → Bool
starts_field [] = false
starts_field (c ∷ s) = not (is_space c)

-- `strings.Fields`
unfoldable pub fields : Text → List Text
fields [] = []
fields (c ∷ s) = let rest = fields s in if is_space c then rest else grow c (starts_field s) rest

-- `strings.Join`
unfoldable pub join : List Text → Text → Text
join [] sep = []
join (t ∷ []) sep = t
join (t ∷ u ∷ ts) sep = t ++ sep ++ join (u ∷ ts) sep

lower_byte_idem : (c : ℕ) → to_lower_byte (to_lower_byte c) ≡ to_lower_byte c
lower_byte_idem c = ground arith

pub to_lower_idem : (s : Text) → to_lower (to_lower s) ≡ to_lower s
unfolding to_lower
to_lower_idem [] = refl
to_lower_idem (c ∷ s) = rw (to_lower_idem s) (ap (λ d. d ∷ to_lower s) (lower_byte_idem c))

text_beq_refl : (s : Text) → text_beq s s ≡ true
text_beq_refl s = (text_beq_iff s s).1 refl

-- A text ends in any text that is put behind it.
pub has_suffix-append : (p t : Text) → has_suffix (p ++ t) t ≡ true
unfolding has_suffix
has_suffix-append [] [] = text_beq_refl []
has_suffix-append [] (c ∷ t) = rw (text_beq_refl (c ∷ t))
has_suffix-append (c ∷ p) t = ground (arith, has_suffix-append p t)

pub append_of_has_suffix : (s t : Text) → has_suffix s t ≡ true → (p : Text) × (s ≡ p ++ t)
unfolding has_suffix
append_of_has_suffix [] t h = ([], (text_beq_iff [] t).0 h)
append_of_has_suffix (c ∷ s) t h = elim (Bool-cases (has_suffix s t)) [
  | inl e ↦ let (p, q) = append_of_has_suffix s t e in (c ∷ p, ap (◌∷◌ c) q)
  | inr e ↦ ([], (text_beq_iff (c ∷ s) t).0 (ground arith))
]

cut_prefix-eq-some : (s p r : Text) → cut_prefix s p ≡ some r → s ≡ p ++ r
unfolding cut_prefix
cut_prefix-eq-some s [] r h = ground arith
cut_prefix-eq-some [] (p ∷ ps) r h = cc
cut_prefix-eq-some (c ∷ s) (p ∷ ps) r h = ground (arith, cut_prefix-eq-some s ps r)

pub cut_prefix-append : (p s : Text) → cut_prefix (p ++ s) p ≡ some s
unfolding cut_prefix
cut_prefix-append [] s = refl
cut_prefix-append (c ∷ p) s = ground (arith, cut_prefix-append p s)

trim_right_idem : (s : Text) → trim_right (trim_right s) ≡ trim_right s
unfolding trim_right
trim_right_idem [] = refl
trim_right_idem (c ∷ s) = ground (arith, trim_right_idem s)

trim_left-trim_right : (s : Text) → trim_left (trim_right (trim_left s)) ≡ trim_right (trim_left s)
unfolding trim_left trim_right
trim_left-trim_right [] = refl
trim_left-trim_right (c ∷ s) = ground (arith, trim_left-trim_right s)

-- Trimming twice is trimming once.
pub trim_space_idem : (s : Text) → trim_space (trim_space s) ≡ trim_space s
trim_space_idem s = rw (trim_left-trim_right s) (trim_right_idem (trim_left s))

-- Behind a byte that is no space, trimming is that of the rest.
pub trim_space-cons :
    (c : ℕ) (s : Text) → is_space c ≡ false → trim_right s ≡ s → trim_space (c ∷ s) ≡ c ∷ s
unfolding trim_left trim_right
trim_space-cons c s h k = ground arith

pub trim_right-cons :
    (c : ℕ) (s : Text) → is_space c ≡ false → trim_right s ≡ s → trim_right (c ∷ s) ≡ c ∷ s
unfolding trim_right
trim_right-cons c s h k = ground arith

pub trim_right_of_trim_space : (s : Text) → trim_space s ≡ s → trim_right s ≡ s
trim_right_of_trim_space s h = rw (← h) (trim_right_idem (trim_left s))
