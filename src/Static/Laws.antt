-- ===== src/Static/Laws.antt =====
-- Which hosts are served after any operations, and what a query is answered.
use tdns.Blacklist.{NewRr}
use tdns.Base.{
  if◌then◌else◌, nat_eq, Text, text_eq, Bool-cases, if_elim, is_empty, any, Distinct, ◌≡◌, refl,
  sym, ap, ◌∙◌, subst, ◌⊎◌, inl, inr, Bool, true, false, ◌&&◌, Option, some, List, [], ◌∷◌, ◌++◌,
}
use tdns.Base.Maps.{keys, lookup}
use tdns.Message.{
  Question, Rr, Msg, Message, Error, no_msg, Result, ok, err, Run, ran, failed, or_fail,
}
use tdns.Selectors.{matches_client_scope}
use tdns.Static.Hosts.{HostMap}
use tdns.Static.Active.{active}
use tdns.Static.{
  StaticResponse, set_enabled, replace_runtime_hosts, replace_persisted_hosts, host_pattern,
  answered_with, on_record, try_hosts, static_question, static_msg, run_static,
}

pub data StaticOp : Type 0 where
  runtime persisted : HostMap → StaticOp
  enable : Bool → StaticOp

-- A map of Go has no key twice.
abbrev IsMapOp : StaticOp → Type 0
IsMapOp (runtime hosts) = Distinct (keys hosts)
IsMapOp (persisted hosts) = Distinct (keys hosts)
IsMapOp (enable state) = Unit

-- What the HTTP API calls.
abbrev pub apply_op : StaticResponse → StaticOp → StaticResponse
apply_op sr (runtime hosts) = (replace_runtime_hosts hosts sr).0
apply_op sr (persisted hosts) = replace_persisted_hosts hosts sr
apply_op sr (enable state) = set_enabled sr state

unfoldable pub apply_ops : StaticResponse → List StaticOp → StaticResponse
apply_ops sr [] = sr
apply_ops sr (op ∷ ops) = apply_ops (apply_op sr op) ops

-- The runtime hosts that were given last, if they were not empty; the persisted hosts, and the
-- switch, that were given last.
abbrev pub last_runtime : HostMap → StaticOp → HostMap
last_runtime old (runtime hosts) = if is_empty hosts then old else hosts
last_runtime old (persisted hosts) = old
last_runtime old (enable state) = old

abbrev pub last_persisted : HostMap → StaticOp → HostMap
last_persisted old (runtime hosts) = old
last_persisted old (persisted hosts) = hosts
last_persisted old (enable state) = old

abbrev pub last_enabled : Bool → StaticOp → Bool
last_enabled old (runtime hosts) = old
last_enabled old (persisted hosts) = old
last_enabled old (enable state) = state

unfoldable pub last_of : {A : Type 0} → (A → StaticOp → A) → A → List StaticOp → A
last_of f old [] = old
last_of f old (op ∷ ops) = last_of f (f old op) ops

-- The switch is `on`, and the addresses that are served are those of `runtime` unless it is empty, else
-- those of `persisted`, else those of `file`.
pub record IsServing (file : Text → Option Text) (persisted_hosts runtime_hosts : HostMap)
    (on : Bool) (sr : StaticResponse) : Type 0 where
  pub is_on : sr.enabled ≡ on
  pub configured_keys : Distinct (keys sr.configured_hosts)
  pub persisted_keys : Distinct (keys sr.persisted_hosts)
  pub configured : (q : Text) → lookup q sr.configured_hosts ≡ file q
  pub kept : (q : Text) → lookup q sr.persisted_hosts ≡ lookup q persisted_hosts
  pub no_runtime : is_empty sr.runtime_hosts ≡ is_empty runtime_hosts
  pub serves :
      (q : Text) → lookup q sr.hosts ≡ active file (λ q. lookup q persisted_hosts) runtime_hosts q

module _ (match_string : Text → Text → Bool) (new_rr : NewRr) where
  abbrev pub matches_host : Text → Text × Text → Bool
  matches_host domain p = match_string (host_pattern match_string new_rr p.0) domain

  -- No host matches and the message stays as it is; or the first host that does, in the order of the
  -- iteration, has an address whose record cannot be made, or is handed on as the last answer of a
  -- resolved message.
  abbrev pub IsServed : (Message → Run) → HostMap → Message → Msg → Text → Run → Type 0
  IsServed finish hosts mess m domain r =
      ((any (matches_host domain) hosts ≡ false) × (r ≡ ran mess))
      ⊎ ((before : HostMap) × (k : Text) × (v : Text) × (after : HostMap) × (hosts
            ≡ before ++ (k, v) ∷ after)
          × (any (matches_host domain) before ≡ false)
          × (matches_host domain (k, v) ≡ true)
          × (((e : Error) × (new_rr domain v ≡ err e) × (r ≡ failed mess e))
              ⊎ ((rr : Rr) × (new_rr domain v ≡ ok rr)
                  × (r ≡ finish (answered_with match_string new_rr mess m rr)))))

  on_record_cases :
      (finish : Message → Run) (mess : Message) (m : Msg) (x : Result Rr)
      → ((e : Error) × (x ≡ err e)
          × (on_record match_string new_rr finish mess m x ≡ failed mess e))
        ⊎ ((rr : Rr) × (x ≡ ok rr)
            × (on_record match_string new_rr finish mess m x
                ≡ finish (answered_with match_string new_rr mess m rr)))
  on_record_cases finish mess m (err e) = inl (e, refl, refl)
  on_record_cases finish mess m (ok rr) = inr (rr, refl, refl)

  IsServed-cons :
      (finish : Message → Run) (k v : Text) (hosts : HostMap) (mess : Message) (m : Msg)
      (domain : Text) (r : Run)
      → match_string (host_pattern match_string new_rr k) domain ≡ false
      → IsServed finish hosts mess m domain r
      → IsServed finish ((k, v) ∷ hosts) mess m domain r
  unfolding any
  IsServed-cons finish k v hosts mess m domain r h (inl (others, e)) = inl (rw h others, e)
  IsServed-cons finish k v hosts mess m domain r h (inr (before, k', v', after, p, others, q, t)) =
      inr ((k, v) ∷ before, k', v', after, ap (λ x. (k, v) ∷ x) p, rw h others, q, t)

  pub try_hosts-IsServed :
      (finish : Message → Run) (hosts : HostMap) (mess : Message) (m : Msg) (domain : Text)
      → IsServed finish hosts mess m domain
          (try_hosts match_string new_rr finish hosts mess m domain)
  unfolding try_hosts any
  try_hosts-IsServed finish [] mess m domain = inl (refl, refl)
  try_hosts-IsServed finish ((k, v) ∷ hosts) mess m domain =
      if_elim {A = Run} (IsServed finish ((k, v) ∷ hosts) mess m domain)
        (match_string (host_pattern match_string new_rr k) domain) _ _
        (λ h. inr ([], k, v, hosts, refl, refl, h, on_record_cases finish mess m (new_rr domain v)))
        (λ h.
          IsServed-cons finish k v hosts mess m domain _ h
            (try_hosts-IsServed finish hosts mess m domain))

  -- An enabled middleware, for a client in its scope, answers the first question by a host whose pattern
  -- matches the domain, and leaves the message as it is when there is none; a disabled one, or one whose scope
  -- the client is not in, leaves every message as it is.
  run_static_lem :
      (sr : StaticResponse) (mess : Message) (m : Msg) (q : Question) (rest : List Question)
      → mess.msg ≡ some m
      → m.question ≡ q ∷ rest
      → if sr.enabled && matches_client_scope mess sr.labels
        then IsServed ran sr.hosts mess m q.qname (run_static match_string new_rr sr mess)
        else (run_static match_string new_rr sr mess ≡ ran mess)
  unfolding run_static
  run_static_lem sr mess m q rest e k = elim (Bool-cases sr.enabled) [
    | inl on ↦ elim (Bool-cases (matches_client_scope mess sr.labels)) [
      | inl inside ↦
          rw (on, inside)
            (subst (IsServed ran sr.hosts mess m q.qname)
              (sym (
                ap (λ o. static_msg match_string new_rr sr mess (or_fail o no_msg)) e
                ∙ ap (static_question match_string new_rr sr mess m) k))
              (try_hosts-IsServed ran sr.hosts mess m q.qname))
      | inr outside ↦ rw (on, outside) refl
    ]
    | inr off ↦ rw off refl
  ]
