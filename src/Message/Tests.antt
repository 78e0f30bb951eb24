-- ===== src/Message/Tests.antt =====
-- Examples of messages.
use tdns.Base.{nat_eq, text_eq, true, false, some, [], ◌∷◌}
use tdns.Base.Strings.{txt}
use tdns.Message.{udp, Msg, CtxValue, Message}

abbrev pub query : Msg
query = record {
  id = 7;
  response = false;
  opcode = 0;
  recursion_desired = true;
  checking_disabled = false;
  rcode = 0;
  question = record { qname = txt "ads.example."; qtype = 1; qclass = 1 } ∷ [];
  answer = [];
  ns = [];
  extra = [];
}

abbrev pub context : CtxValue
context = record {
  remote_addr = udp (txt "10.0.0.9");
  values = (txt "a", txt "1") ∷ [];
  labels = txt "kids" ∷ [];
}

abbrev pub asked : Message
asked = record { msg = some query; ctx = some context; resolved = false }
