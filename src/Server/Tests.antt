-- ===== src/Server/Tests.antt =====
-- Servers whose middlewares count their calls or leave a trace.
use mathlib.Core.List.{Permᴰ}
use tdns.Base.{
  if◌then◌else◌, nat_eq, Text, text_eq, ◌==◌, contains, ℕ, ◌+◌, ◌≡◌, refl, inl, true, Option, some,
  List, [], ◌∷◌,
}
use tdns.Base.Strings.{txt}
use tdns.Base.Sorting.{IsSorted}
use tdns.Message.{Msg, Message, no_context, Run, ran, set_resolved}
use tdns.Message.Tests.{query, asked}
use tdns.Server.{replied, Upstream, answered, Server, process}
use tdns.Server.Order.{
  Stage, pre_routing, resolving, post_routing, runs_before, MiddlewareIndex, get_indexes, names_of,
  get_indexes_lem,
}
use tdns.Server.Laws.{process-slots}
use tdns.Server.Trace.{Behaviour, passes, fails, expected}

abbrev run_counting : Text → ℕ → Message → ℕ × Run
run_counting name s m =
    (s + 1, ran (if name == txt "static-response" then set_resolved m true else m))

abbrev answering : ℕ → Option Msg → ℕ × Upstream
answering s d = (s, answered query)

abbrev indexed : MiddlewareIndex
indexed = record {
  pre_routing_names = txt "tagger" ∷ [];
  resolving_names = txt "stub-resolver" ∷ [];
  post_routing_names = txt "cacheset" ∷ [];
}

abbrev free_server : Server ℕ
free_server = record { state = 1; index = indexed; slots = 0; capacity = 2 }

abbrev static_server : Server ℕ
static_server = record {
  state = 1;
  index = record indexed { pre_routing_names = txt "static-response" ∷ [] };
  slots = 2;
  capacity = 2;
}

-- The tagger fails, which the pre-routing passes over, and nobody resolves.
abbrev behave : Text → Behaviour
behave name = if name == txt "tagger" then fails no_context else passes

abbrev idle_server : Server (List Text)
idle_server = record { state = []; index = indexed; slots = 0; capacity = 2 }

expected_asked : expected behave (inl query) indexed true query ≡ (
  txt "tagger" ∷ txt "stub-resolver" ∷ txt "upstream" ∷ txt "cacheset" ∷ [],
  replied (some query),
)
unfolding tdns.Server.Trace.asked_until tdns.Server.Trace.first_of tdns.Base.text_beq
expected_asked = refl

process-slots_example :
    (process run_counting answering free_server asked).0.slots ≡ free_server.slots
process-slots_example = process-slots run_counting answering free_server asked

abbrev loaded : List (Text × Stage)
loaded = (txt "zen-mode", pre_routing) ∷ (txt "status", pre_routing) ∷ []

abbrev loaded_again : List (Text × Stage)
loaded_again = (txt "status", pre_routing) ∷ (txt "zen-mode", pre_routing) ∷ []

get_indexes_example :
    (get_indexes loaded ≡ get_indexes loaded_again)
    × IsSorted (runs_before pre_routing) (get_indexes loaded).pre_routing_names
    × IsSorted (runs_before resolving) (get_indexes loaded).resolving_names
    × IsSorted (runs_before post_routing) (get_indexes loaded).post_routing_names
    × (contains (get_indexes loaded).pre_routing_names (txt "status")
        ≡ contains (names_of pre_routing loaded) (txt "status"))
    × (contains (get_indexes loaded).resolving_names (txt "status")
        ≡ contains (names_of resolving loaded) (txt "status"))
    × (contains (get_indexes loaded).post_routing_names (txt "status")
        ≡ contains (names_of post_routing loaded) (txt "status"))
get_indexes_example = get_indexes_lem loaded loaded_again (txt "status") (Permᴰ.swap refl refl)
