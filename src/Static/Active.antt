-- ===== src/Static/Active.antt =====
-- Which address a map serves after it was copied, merged or read.
use tdns.Base.{
  if◌then◌else◌, nat_eq, Text, text_beq_iff, text_eq, ◌==◌, Bool-cases, if_elim, is_empty, Distinct,
  ◌≡◌, refl, sym, ap, ◌∙◌, inl, inr, false, Option, none, some, List, [], ◌∷◌, arith,
}
use tdns.Base.Maps.{keys, lookup, insert, lookup-insert, Distinct-keys_insert, lookup-eq-none_iff}
use tdns.Base.Strings.{txt, has_prefix, fields}
use tdns.Static.Hosts.{HostMap, copy_into, clone_host_map, merge_host_maps, put_fields, read_lines}

-- What is bound in `first`, else in `second`.
abbrev pub or_else : Option Text → Option Text → Option Text
or_else none o = o
or_else (some a) o = some a

pub or_else-none : (o : Option Text) → or_else o none ≡ o
or_else-none none = refl
or_else-none (some a) = refl

lookup-copy_into :
    (hosts merged : HostMap) (q : Text)
    → Distinct (keys hosts)
    → lookup q (copy_into merged hosts) ≡ or_else (lookup q hosts) (lookup q merged)
unfolding copy_into lookup
lookup-copy_into [] merged q d = refl
lookup-copy_into ((k, v) ∷ hosts) merged q d =
    lookup-copy_into hosts (insert k v merged) q d.1 ∙ elim (Bool-cases (k == q)) [
      | inl e ↦
          ground
            (arith, lookup-insert k q v merged, text_beq_iff k q, (lookup-eq-none_iff k hosts).1)
      | inr e ↦ ground (arith, lookup-insert k q v merged)
    ]

pub lookup-clone_host_map :
    (hosts : HostMap) (q : Text)
    → Distinct (keys hosts)
    → lookup q (clone_host_map hosts) ≡ lookup q hosts
unfolding clone_host_map lookup
lookup-clone_host_map [] q d = refl
lookup-clone_host_map (p ∷ hosts) q d =
    lookup-copy_into (p ∷ hosts) [] q d ∙ or_else-none (lookup q (p ∷ hosts))

Distinct-copy_into :
    (hosts merged : HostMap) → Distinct (keys merged) → Distinct (keys (copy_into merged hosts))
unfolding copy_into
Distinct-copy_into [] merged d = d
Distinct-copy_into ((k, v) ∷ hosts) merged d =
    Distinct-copy_into hosts (insert k v merged) (Distinct-keys_insert k v merged d)

pub Distinct-clone_host_map : (hosts : HostMap) → Distinct (keys (clone_host_map hosts))
unfolding clone_host_map
Distinct-clone_host_map [] = tt
Distinct-clone_host_map (p ∷ hosts) = Distinct-copy_into (p ∷ hosts) [] tt

pub Distinct-read_lines :
    (hosts : HostMap) (lines : List Text)
    → Distinct (keys hosts)
    → Distinct (keys (read_lines hosts lines))
unfolding read_lines
Distinct-read_lines hosts [] d = d
Distinct-read_lines hosts (s ∷ lines) d =
    Distinct-read_lines (if has_prefix s (txt "#") then hosts else put_fields hosts (fields s))
      lines
      (if_elim (λ m. Distinct (keys m)) (has_prefix s (txt "#")) hosts (put_fields hosts (fields s))
        (λ _. d) (λ _. Distinct-put_fields hosts (fields s) d))
  where
    Distinct-put_fields :
        (hosts : HostMap) (fs : List Text)
        → Distinct (keys hosts)
        → Distinct (keys (put_fields hosts fs))
    Distinct-put_fields hosts [] d = d
    Distinct-put_fields hosts (a ∷ []) d = d
    Distinct-put_fields hosts (a ∷ k ∷ fs) d = Distinct-keys_insert k a hosts d

-- The address that a line of a file gives to a domain.
abbrev fields_address : List Text → Text → Option Text
fields_address [] q = none
fields_address (a ∷ []) q = none
fields_address (a ∷ k ∷ _) q = if k == q then some a else none

abbrev line_address : Text → Text → Option Text
line_address s q = if has_prefix s (txt "#") then none else fields_address (fields s) q

-- The address that a file gives to a domain: that of the last line which names it.
unfoldable pub file_address : List Text → Text → Option Text
file_address [] q = none
file_address (s ∷ lines) q = or_else (file_address lines q) (line_address s q)

or_else_assoc : (a b c : Option Text) → or_else a (or_else b c) ≡ or_else (or_else a b) c
or_else_assoc none b c = refl
or_else_assoc (some x) b c = refl

lookup-put_fields :
    (hosts : HostMap) (fs : List Text) (q : Text)
    → lookup q (put_fields hosts fs) ≡ or_else (fields_address fs q) (lookup q hosts)
lookup-put_fields hosts [] q = refl
lookup-put_fields hosts (a ∷ []) q = refl
lookup-put_fields hosts (a ∷ k ∷ fs) q = ground (arith, lookup-insert k q a hosts)

pub lookup-read_lines :
    (hosts : HostMap) (lines : List Text) (q : Text)
    → lookup q (read_lines hosts lines) ≡ or_else (file_address lines q) (lookup q hosts)
unfolding read_lines file_address
lookup-read_lines hosts [] q = refl
lookup-read_lines hosts (s ∷ lines) q = elim (Bool-cases (has_prefix s (txt "#"))) [
  | inl e ↦ rw e (
      lookup-read_lines hosts lines q
      ∙ ap (λ o. or_else o (lookup q hosts)) (sym (or_else-none (file_address lines q))))
  | inr e ↦ rw e (
      lookup-read_lines (put_fields hosts (fields s)) lines q
      ∙ ap (or_else (file_address lines q)) (lookup-put_fields hosts (fields s) q)
      ∙ or_else_assoc (file_address lines q) (fields_address (fields s) q) (lookup q hosts))
]

-- The address that is served for a domain: that of the runtime map unless it is empty, else the
-- persisted one, else that of the file.
abbrev pub active : (file persisted : Text → Option Text) → HostMap → Text → Option Text
active file persisted runtime q =
    if is_empty runtime then or_else (persisted q) (file q) else lookup q runtime

pub lookup-merge :
    (configured persisted : HostMap) (q : Text)
    → Distinct (keys configured)
    → Distinct (keys persisted)
    → lookup q (merge_host_maps (configured ∷ persisted ∷ []))
      ≡ or_else (lookup q persisted) (lookup q configured)
unfolding lookup
lookup-merge configured persisted q c p =
    lookup-copy_into persisted (copy_into [] configured) q p
    ∙ ap (or_else (lookup q persisted))
        (lookup-copy_into configured [] q c ∙ or_else-none (lookup q configured))

is_empty-insert : (k v : Text) (m : HostMap) → is_empty (insert k v m) ≡ false
unfolding insert
is_empty-insert k v [] = refl
is_empty-insert k v ((j, w) ∷ m) = ground arith

is_empty-copy_into :
    (hosts merged : HostMap) → is_empty merged ≡ false → is_empty (copy_into merged hosts) ≡ false
unfolding copy_into
is_empty-copy_into [] merged h = h
is_empty-copy_into ((k, v) ∷ hosts) merged h =
    is_empty-copy_into hosts (insert k v merged) (is_empty-insert k v merged)

pub is_empty-clone_host_map :
    (hosts : HostMap) → is_empty hosts ≡ false → is_empty (clone_host_map hosts) ≡ false
unfolding clone_host_map copy_into
is_empty-clone_host_map [] h = cc
is_empty-clone_host_map ((k, v) ∷ hosts) h =
    is_empty-copy_into hosts (insert k v []) (is_empty-insert k v [])
