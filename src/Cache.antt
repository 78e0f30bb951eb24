-- ===== src/Cache.antt =====
-- middleware/cache.go: the response cache and its two middlewares. The store (bigcache), the wire
-- format of DNS messages and the JSON of an entry are an interface. Times are nanoseconds since
-- the epoch; an entry keeps whole seconds.
pub mod Ttl
pub mod Laws
pub mod Hits
pub mod Tests
use tdns.Message.{◌>>=◌}
use mathlib.Core.Option
use tdns.Message
use tdns.Selectors.Requests.{
  Net, RequestSelectorSet, parse_request_selectors, normalize_request_selectors,
  matches_request_selectors,
}
use Ttl.{adjust_section_ttls, cap_section_ttls}
use tdns.Base.{
  ltb, eqb, if◌then◌else◌, ◌==◌, nat_eq, Text, text_eq, is_empty, ℕ, zero, suc, ◌+◌, ◌-◌, ◌*◌, ◌/◌,
  ◌%◌, ◌^◌, Bool, true, false, not, ◌&&◌, ◌||◌, Option, none, some, List, [], ◌∷◌, ◌++◌, map,
}
use tdns.Base.Strings.{txt}
use tdns.Message.{
  Question, Rr, Msg, Message, Result, ok, err, Run, ran, failed, lost, panic, set_resolved, set_msg,
  get_msg, add_value, get_value, labels,
}
use tdns.Selectors.{label_fingerprint}

-- An entry is a cached response in JSON: when it was stored, and its packed message.
pub record Backend : Type 1 where
  pub Store : Type 0
  pub Packet : Type 0
  pub Entry : Type 0
  pub get : Store → Text → Option Entry
  pub set : Store → Text → Entry → Result Store
  pub delete : Store → Text → Store
  pub reset : Store → Store
  pub pack : Msg → Result Packet
  pub unpack : Packet → Result Msg
  pub marshal : ℕ → Packet → Result Entry
  pub unmarshal : Entry → Result (ℕ × Packet)

abbrev pub cache_hit_value : Text
cache_hit_value = txt "tdns/cache-hit"

abbrev type_a : ℕ
type_a = 1

abbrev type_cname : ℕ
type_cname = 5

abbrev type_aaaa : ℕ
type_aaaa = 28

abbrev is_address_type : ℕ → Bool
is_address_type t = eqb t type_a || eqb t type_aaaa || eqb t type_cname

unfoldable pub cacheable_answers : List (Option Rr) → Bool
cacheable_answers [] = true
cacheable_answers (none ∷ rs) = false
cacheable_answers (some rr ∷ rs) =
    let rest = cacheable_answers rs in
    if eqb rr.ttl 0 then false else if is_address_type rr.rrtype then rest else false

-- `%d`
decimal_from : ℕ → ℕ → Text
decimal_from zero n = []
decimal_from (suc fuel) n =
    let front = decimal_from fuel (n / 10) in
    if ltb n 10 then (48 + n) ∷ [] else front ++ (48 + n % 10) ∷ []

unfoldable pub decimal : ℕ → Text
unfolding decimal_from
decimal n = decimal_from (suc n) n

-- `Cache.Key`: empty for the types that are not cached.
unfoldable pub key : Question → List Text → Text
key q ls =
    if is_address_type q.qtype
    then decimal q.qtype
      ++ (txt "-"
          ++ (decimal q.qclass ++ (txt "-" ++ (q.qname ++ (txt "-" ++ label_fingerprint ls)))))
    else []

unfoldable pub cap_response_ttls : Msg → ℕ → Msg
cap_response_ttls m ttl = record m {
  answer = cap_section_ttls m.answer ttl;
  ns = cap_section_ttls m.ns ttl;
  extra = cap_section_ttls m.extra ttl;
}

-- The tail of `responseFromEntry`: the header and the question are those of the request.
unfoldable pub reply_to : Msg → Msg → Msg
reply_to request m = record m {
  id = request.id;
  response = true;
  opcode = request.opcode;
  recursion_desired = request.recursion_desired;
  checking_disabled = request.checking_disabled;
  question = elim request.question [ [] ↦ m.question | q ∷ _ ↦ q ∷ [] ];
}

abbrev or_empty : Option (List (Option Rr)) → List (Option Rr)
or_empty none = []
or_empty (some rs) = rs

-- The message after `elapsed` seconds, or nothing if an answer has expired.
abbrev pub aged_by : ℕ → Msg → Option (List (Option Rr)) → Option Msg
aged_by elapsed m none = none
aged_by elapsed m (some []) = none
aged_by elapsed m (some (rr ∷ rs)) = some (record m {
  answer = rr ∷ rs;
  ns = or_empty (adjust_section_ttls m.ns elapsed false);
  extra = or_empty (adjust_section_ttls m.extra elapsed false);
})

abbrev pub second : ℕ
second = 1000000000

unfoldable pub age_message : ℕ → ℕ → Msg → Option Msg
age_message now cached_at m =
    if ltb (cached_at * second) now
    then (let elapsed = (now - cached_at * second) / second % 2 ^ 32 in
        aged_by elapsed m (adjust_section_ttls m.answer elapsed true))
    else some m

abbrev pub is_true : Option Text → Bool
is_true none = false
is_true (some v) = v == txt "true"

-- The configured values; a TTL in minutes that is not positive is 0.
pub record CacheConf : Type 0 where
  pub enabled : Bool
  pub ttl : ℕ
  pub excludes : List Text

module _ (n : Net) (b : Backend) where
  open b use {Store, Packet, Entry, get, set, delete, reset, pack, unpack, marshal, unmarshal}

  pub record Cache : Type 0 where
    pub store : Store
    pub enabled : Bool
    pub excludes : List Text
    pub rules : RequestSelectorSet n
    pub ttl : ℕ
    pub hits : ℕ
    pub misses : ℕ

  -- `Cache.Get`
  unfoldable pub find : Cache → Text → Option Entry
  find c k = if is_empty k then none else get c.store k

  -- `Cache.Set` at the time `now`.
  unfoldable pub put : Cache → ℕ → Text → Msg → Result Cache
  put c now k m =
      if is_empty k || is_empty m.answer || not (cacheable_answers m.answer) then ok c else do
        packet ← pack (if ltb 0 c.ttl then cap_response_ttls m (c.ttl * 60 % 2 ^ 32) else m)
        entry ← marshal (now / second) packet
        store ← set c.store k entry
        ok (record c { store = store })

  -- `responseFromEntry`; `none` asks for the entry's removal.
  unfoldable pub response_from_entry : ℕ → Entry → Msg → Result (Option Msg)
  response_from_entry now raw request = do
    (cached_at, packet) ← unmarshal raw
    m ← unpack packet
    ok (Option.map (reply_to request) (age_message now cached_at m))

  unfoldable pub should_bypass : Cache → Message → Bool
  should_bypass c message = matches_request_selectors n message c.rules

  unfoldable pub set_enabled : Cache → Bool → Cache
  set_enabled c state = record c { enabled = state }

  unfoldable replace_excludes : Cache → List Text → Cache
  replace_excludes c values =
      let normalized = normalize_request_selectors n values in
      record c { excludes = normalized; rules = parse_request_selectors n normalized }

  unfoldable clear : Cache → Cache
  clear c = record c { store = reset c.store }

  -- `NewCache`, with the store that was made for it.
  unfoldable new_cache : CacheConf → Store → Cache
  new_cache conf store =
      replace_excludes
        (record {
          store = store;
          enabled = conf.enabled;
          excludes = [];
          rules = parse_request_selectors n [];
          ttl = conf.ttl;
          hits = 0;
          misses = 0;
        })
        conf.excludes

  abbrev count_miss : Cache → Cache
  count_miss c = record c { misses = c.misses + 1 }

  abbrev pub finish : Cache → Result Message → Cache × Run
  finish c (err e) = (c, lost e)
  finish c (ok m) = (record c { hits = c.hits + 1 }, ran (set_resolved m true))

  -- The end of `CacheGet.Run`, on a response that can be served.
  abbrev pub serve : Cache → Message → Msg → Cache × Run
  serve c mess response = finish c (add_value (set_msg mess response) cache_hit_value (txt "true"))

  abbrev pub on_entry : Cache → Message → Text → Result (Option Msg) → Cache × Run
  on_entry c mess k (err e) = (c, lost e)
  on_entry c mess k (ok none) = (count_miss (record c { store = delete c.store k }), ran mess)
  on_entry c mess k (ok (some response)) = serve c mess response

  abbrev pub on_lookup : Cache → Message → ℕ → Msg → Text → Option Entry → Cache × Run
  on_lookup c mess now m k none = (count_miss c, ran mess)
  on_lookup c mess now m k (some raw) = on_entry c mess k (response_from_entry now raw m)

  abbrev pub get_question : Cache → Message → ℕ → Msg → List Question → Cache × Run
  get_question c mess now m [] = (c, panic)
  get_question c mess now m (q ∷ _) =
      let k = key q (labels mess) in on_lookup c mess now m k (get c.store k)

  abbrev pub get_in_msg : Cache → ℕ → Message → Result Msg → Cache × Run
  get_in_msg c now mess (err e) = (c, lost e)
  get_in_msg c now mess (ok m) =
      if not c.enabled || should_bypass c mess
      then (c, ran mess)
      else get_question c mess now m m.question

  -- `CacheGet.Run` at the time `now`.
  unfoldable pub run_get : Cache → ℕ → Message → Cache × Run
  run_get c now mess = get_in_msg c now mess (get_msg mess)

  abbrev pub after_put : Cache → Message → Result Cache → Cache × Run
  after_put c mess (err e) = (c, failed mess e)
  after_put c mess (ok c') = (c', ran mess)

  abbrev pub put_question : Cache → Message → ℕ → Msg → List Question → Cache × Run
  put_question c mess now m [] = (c, panic)
  put_question c mess now m (q ∷ _) = after_put c mess (put c now (key q (labels mess)) m)

  abbrev pub set_in_msg : Cache → ℕ → Message → Result Msg → Cache × Run
  set_in_msg c now mess (err e) = (c, lost e)
  set_in_msg c now mess (ok m) =
      if not c.enabled || should_bypass c mess || is_true (get_value mess cache_hit_value)
      then (c, ran mess)
      else if eqb m.rcode 0 && m.response && not (is_empty m.answer)
      then put_question c mess now m m.question
      else (c, ran mess)

  -- `CacheSet.Run` at the time `now`.
  unfoldable pub run_set : Cache → ℕ → Message → Cache × Run
  run_set c now mess = set_in_msg c now mess (get_msg mess)
