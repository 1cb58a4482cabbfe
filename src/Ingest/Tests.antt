-- ===== src/Ingest/Tests.antt =====
-- A file of three lines.
use agent_guard_fast_path.Common.{
  ◌≡◌, Bool, true, false, Option, none, some, List, [], ◌∷◌, Str, str_eq, if◌then◌else◌, length, ℤ,
  pos, u64,
}
use agent_guard_fast_path.Text.{codes}
use agent_guard_fast_path.Policy.{policy_init}
use agent_guard_fast_path.Graph.{Event, Graph}
use agent_guard_fast_path.Ingest.{load_graph_from_events}
use agent_guard_fast_path.Ingest.Summary.{flags_of, summary}
use agent_guard_fast_path.Ingest.Lines.{events_of, load_graph_from_events-summary}

abbrev toy_strtol : Str → Option ℤ
toy_strtol s = if str_eq s (codes "42") then some (pos 42) else none

abbrev no_match : Str → Str → Bool
no_match pattern value = false

abbrev cleared_event : Event
cleared_event = record {
  time = [];
  pid = pos 0;
  process = [];
  event = [];
  file = [];
  dst = [];
  domain = [];
  ip = [];
}

abbrev no_nodes : Graph
no_nodes = record { items = []; cap = 0 }

abbrev file : List Str
file =
    codes "time,pid,process,event,file,dst,domain,ip"
    ∷ codes "10:00,42,node,open,/etc/passwd,,,"
    ∷ codes "10:01,42,node,connect,,10.0.0.1,,10.0.0.1"
    ∷ []

load_graph_from_events-summary_example :
    let evs = events_of toy_strtol cleared_event file in
    let l =
      load_graph_from_events toy_strtol no_match policy_init true cleared_event no_nodes file in
    (flags_of l.graph.items (pos 42)
      ≡ summary no_match policy_init true evs (pos 42) (flags_of no_nodes.items (pos 42)))
    × (l.events_processed ≡ u64 (length evs))
load_graph_from_events-summary_example =
    load_graph_from_events-summary toy_strtol no_match policy_init true cleared_event no_nodes file
      (pos 42)
