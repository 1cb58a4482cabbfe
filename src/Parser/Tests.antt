-- ===== src/Parser/Tests.antt =====
-- Concrete lines.
use agent_guard_fast_path.Common.{
  ◌≡◌, ◌↔◌, refl, arith, true, false, Option, none, some, [], Str, str_eq, inl, ◌⊎◌, if◌then◌else◌,
  ℤ, pos,
}
use agent_guard_fast_path.Text.{codes, skip_ws, str_ieq, tolower}
use agent_guard_fast_path.Graph.{Event}
use agent_guard_fast_path.Parser.Csv.{csv_fields, csv_line}
use agent_guard_fast_path.Parser.{says_something, parse_event_line}
use agent_guard_fast_path.Parser.Buffers.{
  InBuffers, HasDst, Says, IsHeader, parse_event_line-IsSound,
}
use agent_guard_fast_path.Parser.Events.{fields_of, parse_event_line-csv_line}

-- A reader of one number.
abbrev toy_strtol : Str → Option ℤ
toy_strtol s = if str_eq s (codes "42") then some (pos 42) else none

abbrev nothing : Event
nothing = record {
  time = [];
  pid = pos 0;
  process = [];
  event = [];
  file = [];
  dst = [];
  domain = [];
  ip = [];
}

abbrev opening : Event
opening = record {
  time = codes "10:00";
  pid = pos 42;
  process = codes "node, \"beta\"";
  event = codes "open";
  file = codes "/etc/passwd";
  dst = codes "10.0.0.1";
  domain = [];
  ip = codes "10.0.0.1";
}

opening-InBuffers : InBuffers opening
opening-InBuffers = record {
  time_lt = omega arith;
  process_lt = omega arith;
  event_lt = omega arith;
  file_lt = omega arith;
  dst_lt = omega arith;
  domain_lt = omega arith;
  ip_lt = omega arith;
}

reads_42 : toy_strtol (codes "42") ≡ some (pos 42)
unfolding str_eq
reads_42 = refl

not_a_header : str_ieq (codes "42") (codes "pid") ≡ false
unfolding str_ieq tolower
not_a_header = refl

parse_event_line-csv_line_example :
    parse_event_line toy_strtol (csv_line (fields_of (codes "42") opening)) nothing
    ≡ record { accepted = says_something opening; header = false; ev = opening }
parse_event_line-csv_line_example =
    parse_event_line-csv_line toy_strtol (codes "42") opening nothing opening-InBuffers (inl refl)
      (omega arith) refl not_a_header reads_42

-- A line that ends inside a text.
abbrev cut_off : Str
cut_off = codes "{\"pid\": 42, \"process\": \"node"

parse_event_line-IsSound_example :
    let r = parse_event_line toy_strtol cut_off nothing in
    ((r.accepted ≡ false)
      × (r.ev ≡ nothing)
      × ((skip_ws cut_off ≡ []) ⊎ IsHeader (csv_fields 8 (skip_ws cut_off))))
    ⊎ (((r.accepted ≡ true) ↔ Says r.ev) × InBuffers r.ev × HasDst r.ev)
parse_event_line-IsSound_example = parse_event_line-IsSound toy_strtol cut_off nothing
