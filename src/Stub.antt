-- ===== src/Stub.antt =====
-- middleware/stub.go: the domains that have upstreams of their own. The stubs stand in the order
-- in which the map of the code is iterated; the regular expressions, and the resolver, which answers or
-- fails, are parameters.
pub mod Laws
mod Tests
use tdns.Base.{
  eqb, if◌then◌else◌, nat_eq, Text, text_eq, is_empty, Bool, true, not, ◌||◌, List, [], ◌∷◌, ◌++◌,
  map,
}
use tdns.Base.Strings.{txt}
use tdns.Message.{
  Question, Msg, Message, no_answer, Result, ok, err, Run, ran, failed, panic, set_resolved,
  set_msg, get_msg, add_value,
}

-- The error "stub resolver returned no answers" is `no_answer`, with the rcode.
abbrev pub stub_value : Text
stub_value = txt "tdns/stub"

-- `^.*\Q` and `\E\.`, with the domain between them
abbrev pub stub_pattern : Text → Text
stub_pattern k = txt "^.*\\Q" ++ (k ++ txt "\\E\\.")

module _ {Mux S : Type 0} (match_string : Text → Text → Bool)
    (resolve : S → Mux → Msg → S × Result Msg) where
  pub record StubResolver : Type 0 where
    pub enable_stubs : Bool
    pub stubs : List (Text × Mux)

  abbrev pub with_stub : Message → Msg → Result Message → Run
  with_stub mess response (err e) = failed (set_msg mess response) e
  with_stub mess response (ok m) = ran (set_resolved m true)

  abbrev pub on_response : Message → Result Msg → Run
  on_response mess (err e) = failed mess e
  on_response mess (ok response) =
      if not (eqb response.rcode 0) || is_empty response.answer
      then failed mess (no_answer response.rcode)
      else with_stub mess response (add_value (set_msg mess response) stub_value (txt "true"))

  abbrev pub after_resolve : Message → S × Result Msg → S × Run
  after_resolve mess (s, r) = (s, on_response mess r)

  -- The loop over the stubs.
  unfoldable pub try_stubs : List (Text × Mux) → S → Message → Msg → Text → S × Run
  try_stubs [] s mess m domain = (s, ran mess)
  try_stubs ((k, mux) ∷ stubs) s mess m domain =
      let rest = try_stubs stubs s mess m domain in
      if match_string (stub_pattern k) domain then after_resolve mess (resolve s mux m) else rest

  abbrev pub stub_question : StubResolver → S → Message → Msg → List Question → S × Run
  stub_question sr s mess m [] = (s, panic)
  stub_question sr s mess m (q ∷ _) =
      if sr.enable_stubs then try_stubs sr.stubs s mess m q.qname else (s, ran mess)

  abbrev pub stub_msg : StubResolver → S → Message → Result Msg → S × Run
  stub_msg sr s mess (err e) = (s, failed mess e)
  stub_msg sr s mess (ok m) = stub_question sr s mess m m.question

  -- `Run`
  unfoldable pub run_stub : StubResolver → S → Message → S × Run
  run_stub sr s mess = stub_msg sr s mess (get_msg mess)
