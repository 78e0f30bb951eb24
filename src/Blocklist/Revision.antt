-- ===== src/Blocklist/Revision.antt =====
-- internal/blocklist/state.go and `validRevision` of client.go: the revision of the list that is
-- installed, in a file beside it.
use tdns.Base.{
  leb, eqb, if◌then◌else◌, nat_eq, Text, text_eq, Bool-cases, length, length-append, is_empty, ℕ,
  ◌≤◌, ◌≡◌, refl, sym, ap, ◌∙◌, ◌⊎◌, inl, inr, Bool, true, false, not, ◌&&◌, ◌||◌, Option, none,
  some, [], ◌∷◌, ◌++◌, arith,
}
use tdns.Base.Strings.{to_lower, trim_left, trim_right, trim_space, to_lower_idem}
use tdns.Blocklist.Types.{Stream, ReadError, read_limited, read_limited_all}

abbrev is_hex : ℕ → Bool
is_hex c = (leb b'0' c && leb c b'9') || (leb b'a' c && leb c b'f') || (leb b'A' c && leb c b'F')

unfoldable pub all_hex : Text → Bool
all_hex [] = true
all_hex (c ∷ s) = is_hex c && all_hex s

-- `validRevision`: the first 16 digits make a number of 64 bits, as any 16 hexadecimal digits do.
unfoldable pub valid_revision : Text → Bool
valid_revision revision = (eqb (length revision) 40 || eqb (length revision) 64) && all_hex revision

abbrev revision_of : Text ⊎ ReadError → Text
revision_of (inr e) = []
revision_of (inl body) =
    let revision = trim_space body in
    if not (valid_revision revision) then [] else to_lower revision

-- `ReadRevision`, of the file, or of none if it cannot be opened. The empty text is no revision.
unfoldable pub read_revision : Option Stream → Text
read_revision none = []
read_revision (some file) = revision_of (read_limited 128 file)

-- `WriteRevision`: the file afterwards, and whether it was written; `is_done` tells that no
-- step on the temporary file failed.
unfoldable pub write_revision : Bool → Text → Option Stream → Option Stream × Bool
write_revision is_done revision file =
    if not (valid_revision revision)
    then (file, false)
    else if is_done
    then (some (record { bytes = to_lower revision ++ 10 ∷ []; fault = none }), true)
    else (file, false)

all_hex-to_lower : (s : Text) → all_hex s ≡ true → all_hex (to_lower s) ≡ true
unfolding all_hex to_lower
all_hex-to_lower [] h = refl
all_hex-to_lower (c ∷ s) h = ground (arith, all_hex-to_lower s)

length-to_lower : (s : Text) → length (to_lower s) ≡ length s
unfolding to_lower
length-to_lower [] = refl
length-to_lower (c ∷ s) = omega (arith, length-to_lower s)

trim_right_of_hex : (s : Text) → all_hex s ≡ true → trim_right (s ++ 10 ∷ []) ≡ s
unfolding trim_right all_hex
trim_right_of_hex [] h = refl
trim_right_of_hex (c ∷ s) h = ground (arith, trim_right_of_hex s)

trim_space_of_hex :
    (s : Text) → all_hex s ≡ true → is_empty s ≡ false → trim_space (s ++ 10 ∷ []) ≡ s
unfolding trim_left all_hex
trim_space_of_hex [] h n = cc
trim_space_of_hex (c ∷ s) h n = ground (arith, trim_right_of_hex (c ∷ s))

pub valid_revision-to_lower :
    (s : Text) → valid_revision s ≡ true → valid_revision (to_lower s) ≡ true
unfolding valid_revision
valid_revision-to_lower s h = ground (arith, all_hex-to_lower s, length-to_lower s)

short_of_valid : (s : Text) → valid_revision s ≡ true → length (to_lower s ++ 10 ∷ []) ≤ 128
unfolding valid_revision
short_of_valid s h = ground (arith, length-append (to_lower s) (10 ∷ []), length-to_lower s)

hex_of_valid : (s : Text) → valid_revision s ≡ true → all_hex (to_lower s) ≡ true
unfolding valid_revision
hex_of_valid s h = ground (arith, all_hex-to_lower s)

named_of_valid : (s : Text) → valid_revision s ≡ true → is_empty (to_lower s) ≡ false
unfolding valid_revision to_lower
named_of_valid [] h = ground arith
named_of_valid (c ∷ s) h = refl

read_written :
    (r : Text)
    → valid_revision r ≡ true
    → read_revision (some (record { bytes = to_lower r ++ 10 ∷ []; fault = none })) ≡ to_lower r
unfolding read_revision
read_written r h =
    rw
      (
        read_limited_all 128 (to_lower r ++ 10 ∷ []) (short_of_valid r h),
        trim_space_of_hex (to_lower r) (hex_of_valid r h) (named_of_valid r h),
        valid_revision-to_lower r h,
      )
      (to_lower_idem r)

-- A revision that was written is the one that is read, in lower case, as `Refresh` compares it.
pub read_revision-write_revision :
    (revision : Text) (file file' : Option Stream)
    → write_revision true revision file ≡ (file', true)
    → (read_revision file' ≡ to_lower revision) × (valid_revision (read_revision file') ≡ true)
unfolding write_revision
read_revision-write_revision revision file file' h = elim (Bool-cases (valid_revision revision)) [
  | inl v ↦
      let same : some (record { bytes = to_lower revision ++ 10 ∷ []; fault = none }) ≡ file' =
        ground arith in
      let back = ap read_revision (sym same) ∙ read_written revision v in
      (back, ap valid_revision back ∙ valid_revision-to_lower revision v)
  | inr n ↦ absurd (ground arith)
]
