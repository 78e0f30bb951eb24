-- ===== src/Blocklist/Source.antt =====
-- internal/blocklist/source.go: the repository, branch and file of a list. The parsing of URLs, the
-- cleaning of paths and the patterns of names are parameters.
use tdns.Base.{
  ltb, eqb, if◌then◌else◌, nat_eq, Text, text_beq, text_eq, ◌==◌, length, is_empty, any, contains,
  ℕ, Bool, not, ◌&&◌, ◌||◌, Option, none, some, List, [], ◌∷◌,
}
use tdns.Base.Strings.{txt, to_lower, trim_space, has_prefix, has_suffix}

pub record Source : Type 0 where
  pub owner : Text
  pub repo : Text
  pub branch : Text
  pub file : Text

-- `strings.Split` by one byte.
abbrev grow_first : ℕ → List Text → List Text
grow_first c [] = (c ∷ []) ∷ []
grow_first c (part ∷ parts) = (c ∷ part) ∷ parts

unfoldable pub split : ℕ → Text → List Text
split sep [] = [] ∷ []
split sep (c ∷ s) = let rest = split sep s in if eqb c sep then [] ∷ rest else grow_first c rest

-- `strings.Contains`
unfoldable pub contains_text : Text → Text → Bool
contains_text [] part = is_empty part
contains_text (c ∷ s) part = has_prefix (c ∷ s) part || contains_text s part

-- A byte below the space, the delete byte, or one of " ~^:?*[\".
abbrev is_bad_byte : ℕ → Bool
is_bad_byte c = ltb c 32 || eqb c 127 || contains (txt " ~^:?*[\\") c

unfoldable pub validate_branch : Text → Bool
validate_branch branch =
    not (
      ltb 255 (length branch)
      || has_prefix branch (txt ".")
      || has_suffix branch (txt ".")
      || has_prefix branch (txt "/")
      || has_suffix branch (txt "/")
      || contains_text branch (txt "//")
      || contains_text branch (txt "..")
      || contains_text branch (txt "@{")
      || has_suffix branch (txt ".lock"))
    && (not (any is_bad_byte branch)
        && not (
            any (λ part. has_prefix part (txt ".") || has_suffix part (txt ".lock"))
              (split b'/' branch)))

abbrev is_bad_part : Text → Bool
is_bad_part part = is_empty part || part == txt "." || part == txt ".."

-- What stands for net/url and path, and for the patterns of owners and repositories. A parsed URL has
-- its scheme, host, escaped path, and whether it has a port, credentials, a query or a fragment.
pub record Url : Type 0 where
  pub scheme : Text
  pub hostname : Text
  pub has_port : Bool
  pub has_user : Bool
  pub has_query : Bool
  pub has_fragment : Bool
  pub escaped_path : Text

pub record Syntax : Type 0 where
  pub parse_url : Text → Option Url
  pub unescape : Text → Option Text
  pub clean : Text → Text
  pub is_owner : Text → Bool
  pub is_repo : Text → Bool

module _ (x : Syntax) where
  unfoldable validate_file_path : Text → Bool
  validate_file_path file =
      not (
        is_empty file
        || ltb 1024 (length file)
        || has_prefix file (txt "/")
        || contains file b'\\'
        || not (x.clean file == file))
      && not (any is_bad_part (split b'/' file))

  abbrev is_github : Url → Bool
  is_github u =
      u.scheme == txt "https"
      && (to_lower u.hostname == txt "github.com"
          && not (u.has_port || u.has_user || u.has_query || u.has_fragment))

  -- `strings.Trim(s, "/")`
  unfoldable trim_slashes : Text → Text
  trim_slashes s = drop_last (drop_first s)
    where
      drop_first : Text → Text
      drop_first [] = []
      drop_first (c ∷ s) = let rest = drop_first s in if eqb c b'/' then rest else c ∷ s

      drop_last : Text → Text
      drop_last [] = []
      drop_last (c ∷ s) =
          let rest = drop_last s in if eqb c b'/' && is_empty rest then [] else c ∷ rest

  -- `strings.TrimSuffix(s, ".git")`
  unfoldable trim_git : Text → Text
  trim_git [] = []
  trim_git (c ∷ s) = let rest = trim_git s in if text_beq (c ∷ s) (txt ".git") then [] else c ∷ rest

  abbrev pub checked : (Text → Bool) → Option Text → Option Text
  checked p none = none
  checked p (some name) = if p name then some name else none

  abbrev or_master : Text → Text
  or_master branch = if is_empty branch then txt "master" else branch

  abbrev make_source : Option Text → Option Text → Text → Text → Option Source
  make_source none repo branch file = none
  make_source (some owner) none branch file = none
  make_source (some owner) (some repo) branch file =
      if validate_branch branch && validate_file_path file
      then some (record { owner = owner; repo = repo; branch = branch; file = file })
      else none

  abbrev source_of_parts : List Text → Text → Text → Option Source
  source_of_parts (a ∷ b ∷ []) branch file =
      make_source (checked x.is_owner (x.unescape a))
        (checked (λ repo. x.is_repo repo && not (repo == txt "." || repo == txt ".."))
          (x.unescape b))
        (or_master (trim_space branch)) (trim_space file)
  source_of_parts _ branch file = none

  abbrev source_of_url : Option Url → Text → Text → Option Source
  source_of_url none branch file = none
  source_of_url (some u) branch file =
      if is_github u
      then source_of_parts (split b'/' (trim_git (trim_slashes u.escaped_path))) branch file
      else none

  -- `ParseSource`; each of its errors is of the kind `invalid`.
  unfoldable parse_source : Text → Text → Text → Option Source
  parse_source repository branch file = source_of_url (x.parse_url repository) branch file
