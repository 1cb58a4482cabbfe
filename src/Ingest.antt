-- ===== src/Ingest.antt =====
-- src/agfast_parts/risk_reports.c: what an event changes in the graph, and src/agfast_parts/commands.c: a
-- graph from the lines of a file of events.
pub mod Summary
pub mod Apart
pub mod Lines
mod Tests
use agent_guard_fast_path.Common.{
  ℕ, ◌+◌, Bool, true, false, not, ◌&&◌, ◌||◌, Option, none, some, List, [], ◌∷◌, Str, leb, ltb,
  ◌==◌, if◌then◌else◌, is_empty, get_or, set, ℤ, u64,
}
use agent_guard_fast_path.Text.{copy_trunc, strchr, trim_newline}
use agent_guard_fast_path.StringList.{StringList, list_add_unique}
use agent_guard_fast_path.Policy.{
  Policy, policy_is_blocked_ip, policy_is_blocked_domain, policy_is_watched_process,
  policy_is_sensitive_file,
}
use agent_guard_fast_path.Graph.{
  Event, Node, Graph, zero_node, graph_get_or_add, graph_add_timeline_event,
}
use agent_guard_fast_path.Risk.{compute_risk_all}
use agent_guard_fast_path.Parser.{Parsed, parse_event_line}

-- `strspn(s, "0123456789.") == strlen(s)`
unfoldable pub only_numeric : Str → Bool
only_numeric [] = true
only_numeric (c ∷ s) = ((leb b'0' c && leb c b'9') || c == b'.') && only_numeric s

unfoldable pub looks_like_domain : Str → Bool
looks_like_domain s = not (is_empty s) && (strchr s b'.' && not (only_numeric s))

unfoldable pub looks_like_ip : Str → Bool
looks_like_ip s = not (is_empty s) && (only_numeric s && strchr s b'.')

-- `dest_match_type_t`
pub data DestMatch : Type 0 where
  dest_none dest_blocked_ip dest_blocked_domain : DestMatch

-- The body of the loop for one candidate.
unfoldable pub match_destination : Policy → Str → DestMatch
match_destination p d =
    if is_empty d
    then dest_none
    else if looks_like_ip d && policy_is_blocked_ip p d
    then dest_blocked_ip
    else if looks_like_domain d && policy_is_blocked_domain p d
    then dest_blocked_domain
    else if policy_is_blocked_ip p d
    then dest_blocked_ip
    else if policy_is_blocked_domain p d
    then dest_blocked_domain
    else dest_none

-- The loop over the candidates: the one that is blocked, and how.
unfoldable pub first_blocked : Policy → List Str → Str × DestMatch
first_blocked p [] = ([], dest_none)
first_blocked p (d ∷ candidates) =
    let rest = first_blocked p candidates in
    elim (match_destination p d) [
      | dest_none ↦ rest
      | dest_blocked_ip ↦ (d, dest_blocked_ip)
      | dest_blocked_domain ↦ (d, dest_blocked_domain)
    ]

unfoldable pub destination_blocked : Policy → Event → Str × DestMatch
destination_blocked p ev = first_blocked p (ev.dst ∷ ev.ip ∷ ev.domain ∷ [])

abbrev pub is_ip : DestMatch → Bool
is_ip dest_none = false
is_ip dest_blocked_ip = true
is_ip dest_blocked_domain = false

abbrev pub is_domain : DestMatch → Bool
is_domain dest_none = false
is_domain dest_blocked_ip = false
is_domain dest_blocked_domain = true

-- The first destination is kept.
abbrev pub keep_first : Str → Str → Str
keep_first first d = if is_empty first then copy_trunc first 512 d else first

unfoldable pub note_event : Node → Event → Node
note_event n ev =
    let seen = graph_add_timeline_event (record n { events_seen = u64 (n.events_seen + 1) }) ev in
    if is_empty ev.event
    then seen
    else record seen { event_types = list_add_unique seen.event_types ev.event }

unfoldable pub note_destination : Node → Event → Node
note_destination n ev = if is_empty ev.dst then n else record n {
  destinations = list_add_unique n.destinations ev.dst;
  connected = true;
  first_dst = keep_first n.first_dst ev.dst;
}

unfoldable pub note_blocked : Node → Str × DestMatch → Node
note_blocked n found =
    if is_ip found.1 || is_domain found.1
    then record n {
      connected = true;
      connected_blocked = true;
      connected_blocked_ip = n.connected_blocked_ip || is_ip found.1;
      connected_blocked_domain = n.connected_blocked_domain || is_domain found.1;
      destinations = list_add_unique n.destinations found.0;
      first_dst = keep_first n.first_dst found.0;
    }
    else n

unfoldable pub note_policy : Policy → Bool → Node → Event → Node
note_policy p loaded n ev =
    if loaded
    then note_blocked (record n { watched = n.watched || policy_is_watched_process p ev.process })
        (destination_blocked p ev)
    else n

module _ (fnmatch : Str → Str → Bool) where
  unfoldable pub note_file : Policy → Bool → Node → Event → Node
  note_file p loaded n ev =
      let listed = record n { files = list_add_unique n.files ev.file } in
      if is_empty ev.file
      then n
      else if loaded && policy_is_sensitive_file fnmatch p ev.file
      then record listed {
        touched_sensitive = true;
        first_sensitive_file =
            if n.touched_sensitive
            then n.first_sensitive_file
            else copy_trunc n.first_sensitive_file 512 ev.file;
      }
      else listed

  unfoldable pub note : Policy → Bool → Node → Event → Node
  note p loaded n ev =
      note_policy p loaded (note_destination (note_file p loaded (note_event n ev) ev) ev) ev

  unfoldable pub graph_ingest_event : Graph → Policy → Bool → Event → Graph
  graph_ingest_event g p loaded ev =
      let (i, found) = graph_get_or_add g ev.pid ev.process in
      record found { items = set found.items i (note p loaded (get_or found.items i zero_node) ev) }

-- What the loader counts, and its graph.
pub record Loaded : Type 0 where
  pub graph : Graph
  pub events_processed : ℕ
  pub malformed_lines : ℕ

abbrev pub is_comment : Str → Bool
is_comment line = is_empty line || get_or line 0 0 == b'#'

-- `strtol` as for the parser; `before` is what the event holds before a line is parsed.
module _ (strtol : Str → Option ℤ) (fnmatch : Str → Str → Bool) where
  -- A line of the file.
  unfoldable pub load_line : Policy → Bool → Event → Loaded → Str → Loaded
  load_line p loaded before l raw =
      let line = trim_newline raw in
      let r = parse_event_line strtol line before in
      if is_comment line
      then l
      else if r.accepted
      then record l {
        graph = graph_ingest_event fnmatch l.graph p loaded r.ev;
        events_processed = u64 (l.events_processed + 1);
      }
      else if r.header
      then l
      else record l { malformed_lines = u64 (l.malformed_lines + 1) }

  unfoldable pub load_lines : Policy → Bool → Event → Loaded → List Str → Loaded
  load_lines p loaded before l [] = l
  load_lines p loaded before l (raw ∷ lines) =
      load_lines p loaded before (load_line p loaded before l raw) lines

  -- The policy is the one that was loaded, or the initial one.
  unfoldable pub load_graph_from_events : Policy → Bool → Event → Graph → List Str → Loaded
  load_graph_from_events p loaded before g lines =
      let l =
        load_lines p loaded before (record { graph = g; events_processed = 0; malformed_lines = 0 })
          lines in
      if loaded then record l { graph = compute_risk_all l.graph p.weights } else l
