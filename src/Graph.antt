-- ===== src/Graph.antt =====
-- src/agfast_parts/graph.c: the nodes of the processes and their timelines, with the event of
-- src/agfast_parts/parser.c that they are made from. A `long` is a ℤ; a node is pointed to by its
-- index; a failing `realloc` ends the program.
pub mod Nodes
mod Tests
use mathlib.Core.Option
use agent_guard_fast_path.Common.{
  ℕ, zero, suc, ◌+◌, ◌*◌, Bool, true, false, not, ◌&&◌, Option, none, some, List, [], ◌∷◌, ◌++◌,
  Str, ◌==◌, if◌then◌else◌, is_empty, length, get_or, set, ℤ, pos, int_eq,
}
use agent_guard_fast_path.Text.{codes, copy_trunc, safe_str}
use agent_guard_fast_path.StringList.{StringList, empty_list}

-- `event_t`
pub record Event : Type 0 where
  pub time : Str
  pub pid : ℤ
  pub process : Str
  pub event : Str
  pub file : Str
  pub dst : Str
  pub domain : Str
  pub ip : Str

-- `timeline_event_t`
pub record TimelineEvent : Type 0 where
  pub time : Str
  pub event : Str
  pub file : Str
  pub dst : Str

-- `proc_node_t`; `timeline` holds the `timeline_count` first entries of its array.
pub record Node : Type 0 where
  pub pid : ℤ
  pub process : Str
  pub watched : Bool
  pub touched_sensitive : Bool
  pub connected : Bool
  pub connected_blocked : Bool
  pub connected_blocked_ip : Bool
  pub connected_blocked_domain : Bool
  pub critical_emitted : Bool
  pub first_sensitive_file : Str
  pub first_dst : Str
  pub events_seen : ℕ
  pub risk_score : ℤ
  pub risk_level : Str
  pub event_types : StringList
  pub files : StringList
  pub destinations : StringList
  pub risk_reasons : StringList
  pub timeline : List TimelineEvent
  pub timeline_cap : ℕ

-- `graph_t`; `items` holds the `count` first entries of its array.
pub record Graph : Type 0 where
  pub items : List Node
  pub cap : ℕ

-- A node after `memset`.
abbrev pub zero_node : Node
zero_node = record {
  pid = pos 0;
  process = [];
  watched = false;
  touched_sensitive = false;
  connected = false;
  connected_blocked = false;
  connected_blocked_ip = false;
  connected_blocked_domain = false;
  critical_emitted = false;
  first_sensitive_file = [];
  first_dst = [];
  events_seen = 0;
  risk_score = pos 0;
  risk_level = [];
  event_types = empty_list;
  files = empty_list;
  destinations = empty_list;
  risk_reasons = empty_list;
  timeline = [];
  timeline_cap = 0;
}

-- The index of the first node of a process.
unfoldable pub find_by_pid : List Node → ℤ → Option ℕ
find_by_pid [] pid = none
find_by_pid (n ∷ items) pid =
    let rest = Option.map (λ (i : ℕ). suc i) (find_by_pid items pid) in
    if int_eq n.pid pid then some 0 else rest

-- The capacity that a full array is grown to, `least` at first.
abbrev pub grown_from : ℕ → ℕ → ℕ → ℕ
grown_from least count cap = if count == cap then (if cap == 0 then least else cap * 2) else cap

-- A known process without a name takes this one.
unfoldable pub name_node : Node → Str → Node
name_node n process =
    if not (is_empty process) && is_empty n.process
    then record n { process = copy_trunc n.process 128 process }
    else n

unfoldable pub new_node : ℤ → Str → Node
new_node pid process = record zero_node {
  pid = pid;
  process = copy_trunc [] 128 (safe_str process);
  risk_level = copy_trunc [] 16 (codes "none");
}

unfoldable pub graph_get_or_add : Graph → ℤ → Str → ℕ × Graph
unfolding find_by_pid name_node new_node
graph_get_or_add g pid process = elim (find_by_pid g.items pid) [
  | some i ↦
      (i, record g { items = set g.items i (name_node (get_or g.items i zero_node) process) })
  | none ↦ (
    length g.items,
    record {
      items = g.items ++ (new_node pid process ∷ []);
      cap = grown_from 64 (length g.items) g.cap;
    },
  )
]

unfoldable pub graph_add_timeline_event : Node → Event → Node
graph_add_timeline_event n ev = record n {
  timeline =
      n.timeline
      ++ (record {
        time = copy_trunc [] 96 ev.time;
        event = copy_trunc [] 64 ev.event;
        file = copy_trunc [] 512 ev.file;
        dst = copy_trunc [] 512 ev.dst;
      }
          ∷ []);
  timeline_cap = grown_from 16 (length n.timeline) n.timeline_cap;
}
