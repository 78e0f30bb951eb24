-- ===== src/Tagger/Laws.antt =====
-- Which labels a client gets, and what the tagger leaves alone.
use tdns.Base.{
  nat_eq, Text, text_beq_iff, text_eq, ◌==◌, Bool-cases, is_empty, any, contains, contains-append,
  any_of_contains, ◌≡◌, ap, ◌∙◌, inl, inr, Bool, not, ◌&&◌, ◌||◌, Option, none, some, List, [], ◌∷◌,
  ◌++◌, arith,
}
use tdns.Base.Strings.{trim_space}
use tdns.Base.Sorting.{contains-sort_by, text_leb}
use tdns.Message.{CtxValue, Message}
use tdns.Selectors.{collect_labels, normalize_labels}
use tdns.Selectors.Requests.{Net}
use tdns.Tagger.{
  remote_address_key, add_unseen, CidrLabels, Tagger, exact_labels, add_networks, lookup_labels,
}
use tdns.Base.{if◌then◌else◌, Distinct, refl}
use tdns.Message.{Run, ran, labels}
use tdns.Message.Laws.{add_labels_lem}
use tdns.Tagger.{tagged, add_tags, tag_client, run_tagger}

-- A label that is trimmed to `q`.
abbrev pub trims_to : Text → Text → Bool
trims_to q l = trim_space l == q

contains-collect_labels :
    (out ls : List Text) (q : Text)
    → contains (collect_labels out ls) q
      ≡ (contains out q || (not (is_empty q) && any (trims_to q) ls))
unfolding collect_labels contains any
contains-collect_labels out [] q = ground arith
contains-collect_labels out (l ∷ ls) q = ground (
  arith,
  text_beq_iff (trim_space l) q,
  contains-append out (trim_space l ∷ []) q,
  contains-collect_labels out ls q,
  contains-collect_labels (out ++ trim_space l ∷ []) ls q,
)

contains-normalize_labels :
    (ls : List Text) (q : Text)
    → contains (normalize_labels ls) q ≡ (not (is_empty q) && any (trims_to q) ls)
unfolding normalize_labels contains
contains-normalize_labels ls q =
    contains-sort_by text_leb q (collect_labels [] ls) ∙ contains-collect_labels [] ls q

any-append :
    (p : Text → Bool) (xs : List Text) (y : Text) → any p (xs ++ y ∷ []) ≡ (any p xs || p y)
unfolding any
any-append p [] y = ground arith
any-append p (x ∷ xs) y = ground (arith, any-append p xs y)

any-add_unseen :
    (p : Text → Bool) (have ls : List Text) → any p (add_unseen have ls) ≡ (any p have || any p ls)
unfolding add_unseen any
any-add_unseen p have [] = ground arith
any-add_unseen p have (l ∷ ls) = elim (Bool-cases (contains have l)) [
  | inl e ↦ rw e (ground (arith, any-add_unseen p have ls, any_of_contains p have l e))
  | inr e ↦ rw e (ground (arith, any-add_unseen p (have ++ l ∷ []) ls, any-append p have l))
]

module _ (n : Net) where
  -- The network holds the address, and has a label that is trimmed to `q`.
  abbrev pub gives : n.Ip → Text → CidrLabels n → Bool
  gives ip q c = n.network_contains c.network ip && any (trims_to q) c.labels

  any-add_networks :
      (ip : n.Ip) (have : List Text) (cs : List (CidrLabels n)) (q : Text)
      → any (trims_to q) (add_networks n ip have cs)
        ≡ (any (trims_to q) have || any (gives ip q) cs)
  unfolding add_networks any
  any-add_networks ip have [] q = ground arith
  any-add_networks ip have (c ∷ cs) q = ground (
    arith,
    any-add_networks ip have cs q,
    any-add_networks ip (add_unseen have c.labels) cs q,
    any-add_unseen (trims_to q) have c.labels,
  )

  -- The labels of an IP address are exactly, trimmed and not empty, those of its own entry and
  -- those of every network that holds it.
  pub lookup_labels_lem :
      (t : Tagger n) (address q : Text) (ip : n.Ip)
      → n.parse_ip address ≡ some ip
      → contains (lookup_labels n t address) q ≡ (
          not (is_empty q)
          && (any (trims_to q) (exact_labels n t address) || any (gives ip q) t.cidr_match))
  unfolding lookup_labels
  lookup_labels_lem t address q ip e = rw e (
      contains-normalize_labels (add_networks n ip (exact_labels n t address) t.cidr_match) q
      ∙ ap (λ b. not (is_empty q) && b)
          (any-add_networks ip (exact_labels n t address) t.cidr_match q))

  abbrev address_labels : Tagger n → Text → List Text
  address_labels t address = if is_empty address then [] else lookup_labels n t address

  abbrev context_labels : Tagger n → Option CtxValue → List Text
  context_labels t none = []
  context_labels t (some cv) = address_labels t (remote_address_key cv.remote_addr)

  -- The labels that the tagger has for the client of a message.
  unfoldable pub client_labels : Tagger n → Message → List Text
  client_labels t m = if t.ready then context_labels t m.ctx else []

  -- The message has the labels `tags` too, as far as they are not empty; no label twice, and the
  -- rest as it was.
  abbrev pub IsTagged : Message → List Text → Text → Run → Type 0
  IsTagged m tags q r =
      (m' : Message) × (r ≡ ran m')
      × (contains (labels m') q ≡ (contains (labels m) q || (not (is_empty q) && contains tags q)))
      × Distinct (labels m')
      × (m'.msg ≡ m.msg)
      × (m'.resolved ≡ m.resolved)

  untagged : (m : Message) (q : Text) → Distinct (labels m) → IsTagged m [] q (ran m)
  unfolding contains
  untagged m q d = (m, refl, ground arith, d, refl, refl)

  add_tags-IsTagged :
      (m : Message) (cv : CtxValue) (tags : List Text) (q : Text)
      → m.ctx ≡ some cv
      → Distinct (labels m)
      → IsTagged m tags q (add_tags n m tags)
  add_tags-IsTagged m cv [] q e d = untagged m q d
  add_tags-IsTagged m cv (l ∷ ls) q e d = elim (add_labels_lem m (l ∷ ls) q d) [
    | inl (h, _) ↦ absurd (ground arith)
    | inr (m', h, has, distinct, same, kept) ↦ (m', ap (tagged n m) h, has, distinct, same, kept)
  ]

  tag_client-IsTagged :
      (t : Tagger n) (m : Message) (o : Option CtxValue) (q : Text)
      → m.ctx ≡ o
      → Distinct (labels m)
      → IsTagged m (context_labels t o) q (tag_client n t m o)
  tag_client-IsTagged t m none q e d = untagged m q d
  tag_client-IsTagged t m (some cv) q e d =
      let address = remote_address_key cv.remote_addr in
      elim (Bool-cases (is_empty address)) [
        | inl h ↦ rw h (untagged m q d)
        | inr h ↦ rw h (add_tags-IsTagged m cv (lookup_labels n t address) q e d)
      ]

  -- On a message whose labels are distinct, the tagger never fails and never resolves it: it adds
  -- the labels of its client that are not empty, no label twice, and leaves the DNS message as it
  -- is.
  pub run_tagger_lem :
      (t : Tagger n) (m : Message) (q : Text)
      → Distinct (labels m)
      → IsTagged m (client_labels t m) q (run_tagger n t m)
  unfolding run_tagger client_labels lookup_labels
  run_tagger_lem t m q d = elim (Bool-cases t.ready) [
    | inl h ↦ rw h (tag_client-IsTagged t m m.ctx q refl d)
    | inr h ↦ rw h (untagged m q d)
  ]
