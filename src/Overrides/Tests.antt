-- ===== src/Overrides/Tests.antt =====
-- Rows as the HTTP API stores them.
use Prim.Native.String.{String}
use tdns.Base.{nat_eq, text_eq, any, ◌≡◌, refl, true, false, not, some, List, [], ◌∷◌}
use tdns.Base.Strings.{txt}
use tdns.Overrides.Types.{Kind, static_host, zen_domain, cache_enabled, set_op, Row}
use tdns.Overrides.Apply.{AppConf, apply}
use tdns.Overrides.Store.{OverrideStore}
use tdns.Overrides.Spec.{StoreOp, put_rows, remove, clear_kind, run_stores, spec_ops, meaning}
use tdns.Overrides.Refinement.{meaning-run_stores}
use tdns.Overrides.Laws.{is_applicable, IsTidy, apply_lem}
use tdns.Overrides.Types.{kind_eq}

abbrev row : Kind → String → String → Row
row kind target value = record {
  id = 0;
  kind = kind;
  op = set_op;
  target = txt target;
  value = txt value;
  created_at = 0;
  updated_at = 0;
}

abbrev stored : List Row
stored =
    row zen_domain "X.com." ""
    ∷ row cache_enabled "enabled" "true"
    ∷ row static_host "nas.lan" "10.0.0.1"
    ∷ row cache_enabled "enabled" "false"
    ∷ []

abbrev empty_store : OverrideStore
empty_store = record { next_id = 1; rows = [] }

abbrev history : List StoreOp
history =
    put_rows 5 stored
    ∷ remove static_host (txt "nas.lan")
    ∷ clear_kind zen_domain
    ∷ put_rows 6 (row zen_domain "y.org" "" ∷ [])
    ∷ []

meaning-run_stores_example :
    meaning (run_stores history empty_store) cache_enabled (txt "enabled")
    ≡ spec_ops history (meaning empty_store) cache_enabled (txt "enabled")
meaning-run_stores_example = meaning-run_stores history empty_store cache_enabled (txt "enabled")

cache_is_off :
    meaning (run_stores history empty_store) cache_enabled (txt "enabled")
    ≡ some (set_op, txt "false")
unfolding tdns.Overrides.Store.find_key run_stores tdns.Overrides.Store.upsert_batch
    tdns.Overrides.Store.upsert_row any tdns.Overrides.Store.delete_by_kind tdns.Base.keep
    tdns.Overrides.Store.delete_row tdns.Base.text_beq tdns.Overrides.Store.update_rows
cache_is_off = refl

abbrev blank_conf : AppConf
blank_conf = record {
  extra_hosts = [];
  zen_domains = [];
  zen_excludes = [];
  blacklist_hosts = [];
  blacklist_excludes = [];
  cache_on = true;
  cache_excludes = [];
  dns_log_on = false;
  pseudonymized_domains = false;
  pseudonymized_clients = false;
}

apply_example :
    ((apply blank_conf stored).1 ≡ not (any (λ r. not (is_applicable r.kind r)) stored))
    × IsTidy (apply blank_conf stored).0
apply_example = apply_lem stored blank_conf (tt, tt, tt, tt, tt)

zen_domain_is_normal : (apply blank_conf stored).0.zen_domains ≡ txt "x.com" ∷ []
unfolding apply tdns.Overrides.Apply.parse_bool tdns.Base.contains tdns.Base.text_beq
    tdns.Base.Strings.trim_right tdns.Base.Strings.trim_left tdns.Overrides.Apply.normalize_domain
    tdns.Base.Strings.trim_dot tdns.Base.Strings.to_lower tdns.Overrides.Apply.append_unique
zen_domain_is_normal = refl

last_switch_wins : (apply blank_conf stored).0.cache_on ≡ false
unfolding apply tdns.Overrides.Apply.parse_bool tdns.Base.contains tdns.Base.text_beq
    tdns.Base.Strings.trim_right tdns.Base.Strings.trim_left
last_switch_wins = refl
