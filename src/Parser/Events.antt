-- ===== src/Parser/Events.antt =====
-- Events that are written as CSV are read back.
use agent_guard_fast_path.Common.{
  ◌<◌, ◌≡◌, refl, false, Option, some, List, [], ◌∷◌, Str, arith, is_empty, length, ℤ,
}
use agent_guard_fast_path.Text.{codes, str_ieq, skip_ws}
use agent_guard_fast_path.Text.Laws.{copy_trunc_whole}
use agent_guard_fast_path.Graph.{Event}
use agent_guard_fast_path.Parser.Csv.{csv_fields, csv_line}
use agent_guard_fast_path.Parser.RoundTrip.{csv_fields-csv_line}
use agent_guard_fast_path.Parser.Buffers.{InBuffers, HasDst, with_dst_whole}
use agent_guard_fast_path.Parser.{
  says_something, is_csv_header_fields, event_of_fields, parse_csv_event_line, parse_event_line,
}

-- The eight fields of an event, with the text of its number.
abbrev pub fields_of : Str → Event → List Str
fields_of pid_text e =
    e.time ∷ pid_text ∷ e.process ∷ e.event ∷ e.file ∷ e.dst ∷ e.domain ∷ e.ip ∷ []

module _ (strtol : Str → Option ℤ) (pid_text : Str) (e : Event) where
  event_of_fields-fields_of :
      InBuffers e
      → is_empty pid_text ≡ false
      → strtol pid_text ≡ some e.pid
      → event_of_fields strtol (fields_of pid_text e) ≡ e
  unfolding event_of_fields
  event_of_fields-fields_of h filled reads = ground (
    arith,
    filled,
    reads,
    copy_trunc_whole [] 96 e.time h.time_lt,
    copy_trunc_whole [] 128 e.process h.process_lt,
    copy_trunc_whole [] 64 e.event h.event_lt,
    copy_trunc_whole [] 512 e.file h.file_lt,
    copy_trunc_whole [] 512 e.dst h.dst_lt,
    copy_trunc_whole [] 512 e.domain h.domain_lt,
    copy_trunc_whole [] 512 e.ip h.ip_lt,
  )

  not_header :
      str_ieq pid_text (codes "pid") ≡ false → is_csv_header_fields (fields_of pid_text e) ≡ false
  unfolding is_csv_header_fields
  not_header h = ground (arith, h)

  fields_read :
      InBuffers e
      → length pid_text < 512
      → csv_fields 8 (csv_line (fields_of pid_text e)) ≡ fields_of pid_text e
  fields_read h short = csv_fields-csv_line 8 (fields_of pid_text e) (omega arith) (
    omega (arith, h.time_lt),
    (
      omega (arith, short),
      (
        omega (arith, h.process_lt),
        (
          omega (arith, h.event_lt),
          (
            omega (arith, h.file_lt),
            (omega (arith, h.dst_lt), (omega (arith, h.domain_lt), (omega (arith, h.ip_lt), tt))),
          ),
        ),
      ),
    ),
  )

  csv_read :
      (before : Event)
      → InBuffers e
      → HasDst e
      → length pid_text < 512
      → is_empty pid_text ≡ false
      → str_ieq pid_text (codes "pid") ≡ false
      → strtol pid_text ≡ some e.pid
      → parse_csv_event_line strtol (csv_line (fields_of pid_text e)) before
        ≡ record { accepted = says_something e; header = false; ev = e }
  unfolding parse_csv_event_line
  csv_read before h dst short filled digits reads =
      rw
        (
          fields_read h short,
          not_header digits,
          event_of_fields-fields_of h filled reads,
          with_dst_whole e dst,
        )
        refl

  -- An event whose fields are in their buffers, and that has a destination where it has an address or a
  -- domain, is read back from its line of CSV, whatever its fields hold, quotes and commas included. The
  -- text of its number is one that `strtol` reads back, of fewer than 512 bytes, and is not "pid" in any
  -- case, which would make the line a header. The line is accepted as any line with such an event.
  pub parse_event_line-csv_line :
      (before : Event)
      → InBuffers e
      → HasDst e
      → length pid_text < 512
      → is_empty pid_text ≡ false
      → str_ieq pid_text (codes "pid") ≡ false
      → strtol pid_text ≡ some e.pid
      → parse_event_line strtol (csv_line (fields_of pid_text e)) before
        ≡ record { accepted = says_something e; header = false; ev = e }
  unfolding parse_event_line skip_ws csv_line
  parse_event_line-csv_line before h dst short filled digits reads =
      csv_read before h dst short filled digits reads
