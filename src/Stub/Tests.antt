-- ===== src/Stub/Tests.antt =====
-- A stub for one domain, whose upstream always has an answer.
use tdns.Base.{nat_eq, Text, text_eq, ◌==◌, ℕ, ◌+◌, refl, Bool, true, ◌&&◌, some, [], ◌∷◌}
use tdns.Base.Strings.{txt, has_suffix}
use tdns.Message.{Question, Msg, Message, Result, ok}
use tdns.Message.Tests.{query, asked}
use tdns.Stub.{stub_pattern, StubResolver, run_stub}
use tdns.Stub.Laws.{IsTried, run_stub_lem}

-- The pattern of the only stub.
abbrev is_corp : Text → Text → Bool
is_corp pattern domain = pattern == stub_pattern (txt "corp") && has_suffix domain (txt "corp.")

abbrev corp_reply : Msg
corp_reply = record query {
  response = true;
  answer =
      some (record { owner = txt "x.corp."; rrtype = 1; ttl = 60; rdata = txt "10.1.1.1" }) ∷ [];
}

abbrev ask_corp : ℕ → ℕ → Msg → ℕ × Result Msg
ask_corp s mux m = (s + mux, ok corp_reply)

abbrev corp_question : Question
corp_question = record { qname = txt "x.corp."; qtype = 1; qclass = 1 }

abbrev corp_query : Msg
corp_query = record query { question = corp_question ∷ [] }

abbrev corp_asked : Message
corp_asked = record asked { msg = some corp_query }

abbrev corp_stubs : StubResolver is_corp ask_corp
corp_stubs = record { enable_stubs = true; stubs = (txt "corp", 3) ∷ [] }

run_stub_example :
    IsTried is_corp ask_corp corp_stubs.stubs 1 corp_asked corp_query corp_question.qname
      (run_stub is_corp ask_corp corp_stubs 1 corp_asked)
run_stub_example =
    run_stub_lem is_corp ask_corp corp_stubs 1 corp_asked corp_query corp_question [] refl refl refl
