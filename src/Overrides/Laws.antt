-- ===== src/Overrides/Laws.antt =====
-- When the rows can be applied, and what they leave of the lists.
use tdns.Base.{
  nat_eq, Text, text_eq, if_elim, is_empty, any, contains, Distinct, Distinct-concat, ◌≡◌, refl,
  Bool, true, false, not, ◌||◌, Option, none, some, List, [], ◌∷◌, arith,
}
use tdns.Overrides.Types.{
  Kind, static_host, zen_domain, zen_exclude, blacklist_host, blacklist_exclude, cache_enabled,
  cache_exclude, dns_log_enabled, dns_log_domains_pseudonymized, dns_log_clients_pseudonymized, Row,
}
use tdns.Overrides.Apply.{
  AppConf, append_unique, normalize_domain, normalize_selector, normalize_cache_selector, switch,
  row_bool, apply_kind, apply,
}

abbrev is_some {ℓ} : {A : Type ℓ} → Option A → Bool
is_some none = false
is_some (some a) = true

-- A row of a switch has the value of a Boolean; any other may be applied.
abbrev pub is_applicable : Kind → Row → Bool
is_applicable static_host row = true
is_applicable zen_domain row = true
is_applicable zen_exclude row = true
is_applicable blacklist_host row = true
is_applicable blacklist_exclude row = true
is_applicable cache_exclude row = true
is_applicable cache_enabled row = is_some (row_bool row)
is_applicable dns_log_enabled row = is_some (row_bool row)
is_applicable dns_log_domains_pseudonymized row = is_some (row_bool row)
is_applicable dns_log_clients_pseudonymized row = is_some (row_bool row)

-- The five lists of an applied configuration name nothing twice.
abbrev pub IsTidy : AppConf → Type 0
IsTidy c =
    Distinct c.zen_domains
    × Distinct c.zen_excludes
    × Distinct c.blacklist_hosts
    × Distinct c.blacklist_excludes
    × Distinct c.cache_excludes

append_unique-Distinct :
    (values : List Text) (value : Text) → Distinct values → Distinct (append_unique values value)
unfolding append_unique
append_unique-Distinct values value d =
    if_elim {A = List Text} Distinct (is_empty value || contains values value) _ _ (λ _. d)
      (λ h. Distinct-concat values value d (ground arith))

-- What one row may give: no configuration if it is not applicable, else a tidy one.
abbrev IsApplied : Bool → Option AppConf → Type 0
IsApplied b none = b ≡ false
IsApplied b (some c) = (b ≡ true) × IsTidy c

switch-IsApplied :
    (set : Bool → AppConf) (o : Option Bool)
    → ((x : Bool) → IsTidy (set x))
    → IsApplied (is_some o) (switch set o)
switch-IsApplied set none t = refl
switch-IsApplied set (some x) t = (refl, t x)

apply_kind-IsApplied :
    (k : Kind) (conf : AppConf) (row : Row)
    → IsTidy conf
    → IsApplied (is_applicable k row) (apply_kind k conf row)
apply_kind-IsApplied static_host conf row t = (
  refl,
  if_elim {A = AppConf} IsTidy (is_empty (normalize_domain row.target) || is_empty row.value) _ _
      (λ _. t) (λ _. t),
)
apply_kind-IsApplied zen_domain conf row (a, b, c, d, e) =
    (refl, (append_unique-Distinct conf.zen_domains (normalize_domain row.target) a, b, c, d, e))
apply_kind-IsApplied zen_exclude conf row (a, b, c, d, e) =
    (refl, (a, append_unique-Distinct conf.zen_excludes (normalize_selector row.target) b, c, d, e))
apply_kind-IsApplied blacklist_host conf row (a, b, c, d, e) = (
  refl,
  (a, b, append_unique-Distinct conf.blacklist_hosts (normalize_domain row.target) c, d, e),
)
apply_kind-IsApplied blacklist_exclude conf row (a, b, c, d, e) = (
  refl,
  (a, b, c, append_unique-Distinct conf.blacklist_excludes (normalize_selector row.target) d, e),
)
apply_kind-IsApplied cache_exclude conf row (a, b, c, d, e) = (
  refl,
  (a, b, c, d, append_unique-Distinct conf.cache_excludes (normalize_cache_selector row.target) e),
)
apply_kind-IsApplied cache_enabled conf row t = switch-IsApplied _ (row_bool row) (λ x. t)
apply_kind-IsApplied dns_log_enabled conf row t = switch-IsApplied _ (row_bool row) (λ x. t)
apply_kind-IsApplied dns_log_domains_pseudonymized conf row t =
    switch-IsApplied _ (row_bool row) (λ x. t)
apply_kind-IsApplied dns_log_clients_pseudonymized conf row t =
    switch-IsApplied _ (row_bool row) (λ x. t)

-- Rows are applied without an error if and only if every row of a switch has the value of a
-- Boolean; with or without one, the five lists of the configuration stay without repetition.
pub apply_lem :
    (rows : List Row) (conf : AppConf)
    → IsTidy conf
    → ((apply conf rows).1 ≡ not (any (λ row. not (is_applicable row.kind row)) rows))
      × IsTidy (apply conf rows).0
unfolding apply any
apply_lem [] conf t = (refl, t)
apply_lem (row ∷ rows) conf t =
    after (apply_kind row.kind conf row) (apply_kind-IsApplied row.kind conf row t) (apply_lem rows)
  where
    after :
        (o : Option AppConf)
        → IsApplied (is_applicable row.kind row) o
        → ((c : AppConf)
            → IsTidy c
            → ((apply c rows).1 ≡ not (any (λ r. not (is_applicable r.kind r)) rows))
              × IsTidy (apply c rows).0)
        → ((elim o as (λ x. AppConf × Bool) [ none ↦ (conf, false) | some c ↦ apply c rows ]).1
            ≡ not (any (λ r. not (is_applicable r.kind r)) (row ∷ rows)))
          × IsTidy
              (elim o as (λ x. AppConf × Bool) [ none ↦ (conf, false) | some c ↦ apply c rows ]).0
    after none h k = (rw h refl, t)
    after (some conf') (h, t') k = rw h (k conf' t')
