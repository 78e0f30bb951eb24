-- ===== src/Cache/Tests.antt =====
-- A cache whose store is a list, and whose packets are the messages themselves.
use mathlib.Core.Option
use tdns.Base.Maps.{delete}
use tdns.Base.{
  if◌then◌else◌, nat_eq, Text, text_eq, is_empty, keep, any, All, ℕ, ◌-◌, ◌*◌, ◌/◌, ◌%◌, ◌^◌, ◌≤◌,
  ◌<◌, ◌≡◌, refl, ◌⊎◌, true, false, not, none, some, List, [], ◌∷◌, map,
}
use tdns.Base.Maps.{lookup, insert, delete}
use tdns.Base.Strings.{txt}
use tdns.Message.{Rr, Msg, Message, ok, ran}
use tdns.Message.Tests.{query, context, asked}
use tdns.Selectors.Requests.{Net}
use tdns.Cache.{
  Backend, cache_hit_value, reply_to, second, age_message, Cache, response_from_entry, run_set,
}
use tdns.Cache.Ttl.{
  adjust_section_ttls, is_dead, age, adjust_section_ttls-eq_age, adjust_section_ttls-eq_keep,
  IsPositive,
}
use tdns.Cache.Laws.{age_message_lem}
use tdns.Cache.Hits.{run_set-run_get, MayStore, run_set_lem}

abbrev pub list_backend : Backend
list_backend = record {
  Store = List (Text × (ℕ × Msg));
  Packet = Msg;
  Entry = ℕ × Msg;
  get = λ s k. lookup k s;
  set = λ s k v. ok (insert k v s);
  delete = λ s k. delete k s;
  reset = λ s. [];
  pack = ok;
  unpack = ok;
  marshal = λ t p. ok (t, p);
  unmarshal = ok;
}

abbrev pub no_net : Net
no_net = record {
  Network = Text;
  Ip = Text;
  parse_cidr = λ t. none;
  parse_ip = λ t. none;
  ip_string = λ ip. ip;
  network_string = λ n. n;
  network_contains = λ n ip. false;
  split_host = λ t. none;
}

abbrev record_a : Rr
record_a = record { owner = txt "ads.example."; rrtype = 1; ttl = 300; rdata = txt "10.0.0.1" }

abbrev reply : Msg
reply = record query { response = true; answer = some record_a ∷ [] }

abbrev pub empty_cache : Cache no_net list_backend
empty_cache = record {
  store = [];
  enabled = true;
  excludes = [];
  rules = record { labels = []; ips = []; cidrs = [] };
  ttl = 1;
  hits = 0;
  misses = 0;
}

abbrev capped : Msg
capped = record reply { answer = some (record record_a { ttl = 60 }) ∷ [] }

abbrev full_cache : Cache no_net list_backend
full_cache = record empty_cache { store = (txt "k", (5, capped)) ∷ [] }

abbrev aged : Msg
aged = record reply { answer = some (record record_a { ttl = 298 }) ∷ [] }

age_message_example :
    ((7000000000 ≤ 5 * second) × (aged ≡ reply))
    ⊎ ((5 * second < 7000000000)
        × All IsPositive aged.answer
        × (aged.answer ≡ map (age ((7000000000 - 5 * second) / second % 2 ^ 32)) reply.answer)
        × (is_empty aged.answer ≡ false))
unfolding age_message adjust_section_ttls
age_message_example = age_message_lem 7000000000 5 reply aged refl

abbrev hit_cache : Cache no_net list_backend
hit_cache = record empty_cache { store = (txt "1-1-ads.example.-kids", (5, reply)) ∷ [] }

abbrev served : Message
served = record {
  msg = some aged;
  ctx = some (record context { values = (txt "a", txt "1") ∷ (cache_hit_value, txt "true") ∷ [] });
  resolved = true;
}

run_set-run_get_example :
    run_set no_net list_backend (record hit_cache { hits = 1 }) 8000000000 served
    ≡ (record hit_cache { hits = 1 }, ran served)
unfolding tdns.Cache.run_get tdns.Cache.should_bypass
    tdns.Selectors.Requests.matches_request_selectors tdns.Selectors.matches_any_label
    tdns.Selectors.Requests.remote_address_ip tdns.Base.contains tdns.Base.any tdns.Cache.key
    tdns.Cache.decimal tdns.Cache.decimal_from tdns.Selectors.label_fingerprint
    tdns.Selectors.normalize_labels tdns.Selectors.collect_labels tdns.Base.Strings.join
    tdns.Base.Strings.trim_left tdns.Base.Strings.trim_right tdns.Base.Sorting.sort_by
    tdns.Base.Sorting.insert_sorted response_from_entry age_message adjust_section_ttls reply_to
    tdns.Message.add_value tdns.Base.Maps.lookup tdns.Base.Maps.insert tdns.Base.text_beq
run_set-run_get_example =
    run_set-run_get no_net list_backend hit_cache (record hit_cache { hits = 1 }) 7000000000
      8000000000 asked served refl refl refl

run_set_example :
    ((run_set no_net list_backend empty_cache 5500000000 (record asked { msg = some reply })).0
      ≡ empty_cache)
    ⊎ ((m : Msg) × (some reply ≡ some m)
        × MayStore no_net list_backend empty_cache (record asked { msg = some reply }) m)
run_set_example =
    run_set_lem no_net list_backend empty_cache 5500000000 (record asked { msg = some reply })

adjust_section_ttls-eq_age_example : adjust_section_ttls (some record_a ∷ []) 20 true ≡ (
    if any (is_dead 20) (some record_a ∷ [])
    then none
    else some (map (age 20) (some record_a ∷ [])))
adjust_section_ttls-eq_age_example = adjust_section_ttls-eq_age (some record_a ∷ []) 20
