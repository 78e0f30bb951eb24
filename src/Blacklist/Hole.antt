-- ===== src/Blacklist/Hole.antt =====
-- `buildHole` of middleware/blacklist.go: the set of blocked domains from a hosts file. The radix
-- tree (go-radix), the syntax of addresses and of DNS names, and cancellation are an interface;
-- the file is its lines, and what the scanner failed with, if it did.
use tdns.Base.{
  ltb, eqb, if◌then◌else◌, ◌==◌, nat_eq, Text, text_eq, is_empty, ℕ, suc, ◌+◌, ◌%◌, ◌≡◌, Bool,
  false, not, ◌&&◌, ◌||◌, Option, none, some, List, [], ◌∷◌,
}
use tdns.Base.Strings.{txt, trim_space, has_prefix, fields}
use tdns.Selectors.{normalize_domain_pattern, matches_suffix}

pub record Tree : Type 1 where
  pub Node : Type 0
  pub new : Node
  pub insert : Node → Text → Node
  pub member : Node → Text → Bool
  pub size : Node → ℕ
  pub is_address : Text → Bool
  pub is_domain_name : Text → Bool

-- What the radix tree is documented to do.
pub record IsTree (t : Tree) : Type 0 where
  pub member-new : (q : Text) → t.member t.new q ≡ false
  pub member-insert :
      (h : t.Node) (k q : Text) → t.member (t.insert h k) q ≡ (k == q || t.member h q)

pub data HoleError : Type 0 where
  no_file cancelled scan_failed too_many no_entries : HoleError
  not_hosts bad_address empty_domain invalid_domain : ℕ → HoleError

pub record Limits : Type 0 where
  pub max_entries : ℕ

pub record HostsFile : Type 0 where
  pub lines : List Text
  pub scan_error : Bool
  -- whether the context was cancelled when the line was reached
  pub is_cancelled : ℕ → Bool

module _ (t : Tree) where
  open t use {Node, new, insert, member, is_address, is_domain_name}

  -- `hole` and `entries`
  pub record Build : Type 0 where
    pub hole : Node
    pub entries : ℕ

  pub data Built : Type 0 where
    built : Build → Built
    refused : HoleError → Built

  -- A round of a loop: go on, leave the loop, or return an error.
  pub data Round : Type 0 where
    go : Build → Round
    stop : Round
    fail : HoleError → Round

  abbrev pub after_round : Build → Round → (Build → Built) → Built
  after_round s (go s') rest = rest s'
  after_round s stop rest = built s
  after_round s (fail e) rest = refused e

  abbrev pub and_then : Built → (Build → Built) → Built
  and_then (built s) rest = rest s
  and_then (refused e) rest = refused e

  module _ (strict : Bool) (limits : Limits) (white : List Text) (line : ℕ) where
    abbrev pub add_domain : Build → Text → Build
    add_domain s domain =
        if matches_suffix domain white then s else record s { hole = insert s.hole domain }

    -- The strict checks of a domain.
    abbrev pub check_domain : Build → Text → Round
    check_domain s domain =
        if not (is_domain_name domain)
        then fail (invalid_domain line)
        else if ltb limits.max_entries (s.entries + 1)
        then fail too_many
        else go (record (add_domain s domain) { entries = s.entries + 1 })

    unfoldable pub add_field : Build → Text → Round
    add_field s field =
        let domain = normalize_domain_pattern field in
        if has_prefix field (txt "#")
        then stop
        else if is_empty domain
        then if strict then fail (empty_domain line) else go s
        else if strict
        then check_domain s domain
        else go (add_domain s domain)

    unfoldable pub add_fields : List Text → Build → Built
    add_fields [] s = built s
    add_fields (field ∷ rest) s = after_round s (add_field s field) (λ s'. add_fields rest s')

    -- The fields of a line, split off: the address, and what follows it.
    abbrev pub add_split : List Text → Build → Built
    add_split [] s = if strict then refused (not_hosts line) else built s
    add_split (_ ∷ []) s = if strict then refused (not_hosts line) else built s
    add_split (address ∷ first ∷ rest) s =
        if strict
        then if is_address address then add_fields (first ∷ rest) s else refused (bad_address line)
        else add_fields (first ∷ []) s

    unfoldable pub add_line : Text → Build → Built
    add_line text s =
        let trimmed = trim_space text in
        if is_empty trimmed || has_prefix trimmed (txt "#")
        then built s
        else add_split (fields trimmed) s

  module _ (strict : Bool) (limits : Limits) (white : List Text) (is_cancelled : ℕ → Bool) where
    -- The lines from number `line + 1` on.
    unfoldable pub add_lines : ℕ → List Text → Build → Built
    add_lines line [] s = built s
    add_lines line (text ∷ rest) s =
        let next =
          and_then (add_line strict limits white (suc line) text s)
            (λ s'. add_lines (suc line) rest s') in
        if eqb (suc line % 1024) 0 && is_cancelled (suc line) then refused cancelled else next

  unfoldable pub add_extra : List Text → List Text → Node → Node
  add_extra white [] hole = hole
  add_extra white (each ∷ rest) hole =
      add_extra white rest
        (if is_empty each || matches_suffix each white then hole else insert hole each)

  abbrev pub finish_hole : Bool → Bool → List Text → List Text → Built → Built
  finish_hole strict scan_error white extra (refused e) = refused e
  finish_hole strict scan_error white extra (built s) =
      if scan_error
      then refused scan_failed
      else if strict && eqb s.entries 0
      then refused no_entries
      else built (record s { hole = add_extra white extra s.hole })

  abbrev pub empty_build : Build
  empty_build = record { hole = new; entries = 0 }

  unfoldable pub build_hole : Bool → Limits → List Text → List Text → Option HostsFile → Built
  build_hole strict limits white extra none = refused no_file
  build_hole strict limits white extra (some file) =
      finish_hole strict file.scan_error white extra
        (add_lines strict limits white file.is_cancelled 0 file.lines empty_build)
